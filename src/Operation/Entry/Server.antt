-- ===== src/Operation/Entry/Server.antt =====
-- The bodies and responses of the operations that write an entry, on the server's side.
use go_client.Prelude.{ℕ, ◌^◌, ◌<◌, ◌≡◌, ◌++◌, true, some, ◌==◌, refl, length, IsU64}
use go_client.Io.{Bytes, Read, ◌>>=◌, pure}
use go_client.Io.Encodes.{Encodes, Encodes-bind, Encodes-map}
use go_client.Codec.Wire.{read_lp_bytes, read_metadata_value}
use go_client.Codec.Wire.RoundTrip.{lp_bytes-Encodes}
use go_client.Codec.Wire.Metadata.{
  Expiry, IsExpiry, write_metadata, metadata-Encodes, read_metadata_value_lem,
}
use go_client.Codec.TimeUnits.RoundTrip.{Expiration, meaning, read_time_units, time_units-Encodes}
use go_client.Operation.Entry.{EntryOp, write_entry, has_previous, decode_cas}

-- What the server stores: the key, when the entry expires, and the value.
pub record Stored : Type 0 where
  pub key : Bytes
  pub expires : Expiration × Expiration
  pub value : Bytes

unfoldable pub read_entry : Read Stored
read_entry = do
  key ← read_lp_bytes
  expires ← read_time_units
  value ← read_lp_bytes
  pure (record { key = key; expires = expires; value = value })

-- The ranges of the Go types, and slices that an int32 counts.
pub record IsEntry (o : EntryOp) : Type 0 where
  pub key : length o.key < 2 ^ 31
  pub value : length o.value < 2 ^ 31
  pub lifespan : IsU64 o.lifespan
  pub max_idle : IsU64 o.max_idle

-- Where the fields are in their ranges, the body of a put, a put-if-absent and a replace tells the server
-- the key, the meaning of the two durations and the value, and writing it does not panic.
pub entry-Encodes :
    (o : EntryOp)
    → IsEntry o
    → Encodes (write_entry o) read_entry (record {
      key = o.key;
      expires = (meaning o.lifespan, meaning o.max_idle);
      value = o.value;
    })
unfolding write_entry read_entry
entry-Encodes o h = Encodes-bind _ (lp_bytes-Encodes o.key h.key) (
    Encodes-bind _ (time_units-Encodes o.lifespan o.max_idle h.lifespan h.max_idle)
      (Encodes-map _ (lp_bytes-Encodes o.value h.value)))

-- The value of an entry with metadata.
metadata_value-Encodes :
    (life idle : Expiry) (version : ℕ) (value : Bytes)
    → IsExpiry life
    → IsExpiry idle
    → IsU64 version
    → length value < 2 ^ 31
    → Encodes (write_metadata life idle version value) read_metadata_value value
metadata_value-Encodes life idle version value hl hi hv short =
    let enc = metadata-Encodes life idle version value hl hi hv short in
    record {
      bytes = enc.bytes;
      written = enc.written;
      read_back = λ rest. rw (read_metadata_value_lem (enc.bytes ++ rest), enc.read_back rest) refl;
    }

-- A response with a previous value, of status 3 or 4 and in the ranges of the protocol, is read as that
-- value, and as a success exactly if the status is 3.
pub decode_cas-Encodes :
    (status : ℕ) (life idle : Expiry) (version : ℕ) (value : Bytes)
    → has_previous status ≡ true
    → IsExpiry life
    → IsExpiry idle
    → IsU64 version
    → length value < 2 ^ 31
    → Encodes
        (write_metadata life idle version value)
        (decode_cas status)
        (record { success = status == 3; previous_value = some value })
unfolding decode_cas
decode_cas-Encodes status life idle version value prev hl hi hv short =
    rw prev (Encodes-map _ (metadata_value-Encodes life idle version value hl hi hv short))
