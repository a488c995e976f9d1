-- ===== src/Operation/Multimap/RoundTrip.antt =====
-- internal/operation/multimap.go: the server's side of a put and of a get.
use go_client.Prelude.{
  ℕ, ◌<◌, ◌^◌, ◌≡◌, List, Bool, true, false, ◌==◌, if◌then◌else◌, length, All, u32, IsU64, arith,
}
use go_client.Io.{Bytes, Read, ◌>>=◌, pure, Write, ◌>>◌, write_each}
use go_client.Io.Encodes.{Encodes, Encodes-bind, Encodes-map}
use go_client.Codec.Constants.{status_key_does_not_exist}
use go_client.Codec.VarInt.{write_vint}
use go_client.Codec.VarInt.RoundTrip.{vint-Encodes}
use go_client.Codec.Wire.{write_lp_bytes, read_lp_bytes, read_u1}
use go_client.Codec.Wire.RoundTrip.{u1-Encodes, lp_bytes-Encodes}
use go_client.Codec.TimeUnits.RoundTrip.{Expiration, meaning, read_time_units, time_units-Encodes}
use go_client.Codec.Header.Topology.{slice-Encodes}
use go_client.Operation.Multimap.{
  write_supports_duplicates, MultimapPutOp, write_multimap_put, read_values, decode_multimap_get,
}

-- A put as the server takes it.
pub record MultimapPut : Type 0 where
  pub key : Bytes
  pub expires : Expiration × Expiration
  pub value : Bytes
  pub supports_duplicates : ℕ

unfoldable pub read_multimap_put : Read MultimapPut
read_multimap_put = do
  key ← read_lp_bytes
  expires ← read_time_units
  value ← read_lp_bytes
  duplicates ← read_u1
  pure (record { key = key; expires = expires; value = value; supports_duplicates = duplicates })

pub record IsMultimapPut (o : MultimapPutOp) : Type 0 where
  pub key : length o.key < 2 ^ 31
  pub value : length o.value < 2 ^ 31
  pub lifespan : IsU64 o.lifespan
  pub max_idle : IsU64 o.max_idle

duplicates-Encodes : (v : Bool) → Encodes (write_supports_duplicates v) read_u1 (if v then 1 else 0)
unfolding write_supports_duplicates
duplicates-Encodes true = u1-Encodes 1
duplicates-Encodes false = u1-Encodes 0

-- A server that reads key, expirations, value and the byte for duplicates reads back a put of a multimap
-- whose fields are in their ranges.
pub multimap_put-Encodes :
    (o : MultimapPutOp)
    → IsMultimapPut o
    → Encodes (write_multimap_put o) read_multimap_put (record {
      key = o.key;
      expires = (meaning o.lifespan, meaning o.max_idle);
      value = o.value;
      supports_duplicates = if o.supports_duplicates then 1 else 0;
    })
unfolding write_multimap_put read_multimap_put
multimap_put-Encodes o h = Encodes-bind _ (lp_bytes-Encodes o.key h.key) (
    Encodes-bind _ (time_units-Encodes o.lifespan o.max_idle h.lifespan h.max_idle) (
      Encodes-bind _ (lp_bytes-Encodes o.value h.value)
        (Encodes-map _ (duplicates-Encodes o.supports_duplicates))))

-- What a server answers to a get: the number of values, and the values.
unfoldable pub write_values : List Bytes → Write
write_values values = do write_vint (u32 (length values)); write_each write_lp_bytes values

values-Encodes :
    (values : List Bytes)
    → length values < 2 ^ 31
    → All (λ v. length v < 2 ^ 31) values
    → Encodes (write_values values) read_values values
unfolding write_values read_values
values-Encodes values few h =
    let fits : u32 (length values) ≡ length values = omega arith in
    rw fits (
      Encodes-bind _ (vint-Encodes (length values) (omega arith)) (
        Encodes-map (λ vs. vs)
          (slice-Encodes (λ v. length v < 2 ^ 31) write_lp_bytes (λ i. read_lp_bytes)
            (λ i v hv. lp_bytes-Encodes v hv) values few h)))

-- The response to a get of a multimap, unless its status says that there is no such key, is read back as
-- the values that the server wrote behind their number, fewer than 2^31 and each below 2^31 bytes.
multimap_get-Encodes :
    (status : ℕ) (values : List Bytes)
    → (status == status_key_does_not_exist) ≡ false
    → length values < 2 ^ 31
    → All (λ v. length v < 2 ^ 31) values
    → Encodes (write_values values) (decode_multimap_get status) values
unfolding decode_multimap_get
multimap_get-Encodes status values exists few h = rw exists (values-Encodes values few h)
