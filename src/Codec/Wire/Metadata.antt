-- ===== src/Codec/Wire/Metadata.antt =====
-- Entry metadata and media types, as a server that follows the protocol writes them.
use go_client.Prelude.{
  ℕ, ◌+◌, ◌^◌, ◌<◌, ◌≡◌, [], bit_and, Bool, true, false, not, ◌==◌, arith, refl, length, IsU32,
  IsU64, minus_one32, String,
}
use go_client.Io.{Bytes, Outcome, done, fail, panic, Write, wrote, ◌>>◌}
use go_client.Io.Encodes.{Encodes, Encodes-bind, Encodes-map, Encodes-context, Encodes-pure}
use go_client.Codec.VarInt.{write_vint}
use go_client.Codec.VarInt.RoundTrip.{vint-Encodes}
use go_client.Codec.Wire.{
  EntryMetadata, write_u1, write_long, write_lp_bytes, expiry, read_metadata, read_metadata_value,
}
use go_client.Codec.Wire.RoundTrip.{u1-Encodes, long-Encodes, lp_bytes-Encodes}

-- One expiry of an entry: none, or since when and for how long.
pub data Expiry : Type 0 where
  infinite : Expiry
  timed : ℕ → ℕ → Expiry

abbrev pub IsExpiry : Expiry → Type 0
IsExpiry infinite = Unit
IsExpiry (timed t n) = IsU64 t × IsU32 n

-- The two fields that the client keeps; an infinite duration is -1.
unfoldable pub since : Expiry → ℕ
since infinite = 0
since (timed t n) = t

unfoldable pub duration : Expiry → ℕ
duration infinite = minus_one32
duration (timed t n) = n

abbrev flag : Expiry → ℕ → ℕ
flag infinite f = f
flag (timed t n) f = 0

write_expiry : Expiry → Write
write_expiry infinite = wrote []
write_expiry (timed t n) = do write_long t; write_vint n

-- The flags, the two expiries, the version and the value.
pub write_metadata : Expiry → Expiry → ℕ → Bytes → Write
write_metadata life idle version value = do
  write_u1 (flag life 1 + flag idle 2)
  write_expiry life
  write_expiry idle
  write_long version
  write_lp_bytes value

unfoldable pub metadata : Expiry → Expiry → ℕ → EntryMetadata
unfolding since duration
metadata life idle version = record {
  created = since life;
  lifespan = duration life;
  last_used = since idle;
  max_idle = duration idle;
  version = version;
}

-- Whether an expiry is left out, from the flags.
left_out : Expiry → Bool
left_out infinite = true
left_out (timed t n) = false

flags_tell :
    (life idle : Expiry)
    → (not (bit_and (flag life 1 + flag idle 2) 1 == 0) ≡ left_out life)
      × (not (bit_and (flag life 1 + flag idle 2) 2 == 0) ≡ left_out idle)
unfolding left_out
flags_tell infinite infinite = (refl, refl)
flags_tell infinite (timed t n) = (refl, refl)
flags_tell (timed t n) infinite = (refl, refl)
flags_tell (timed t n) (timed u m) = (refl, refl)

expiry-Encodes :
    (e : Expiry) (time duration_words : String)
    → IsExpiry e
    → Encodes (write_expiry e) (expiry (left_out e) time duration_words) (since e, duration e)
unfolding write_expiry left_out since duration
expiry-Encodes infinite time words h = Encodes-pure _
expiry-Encodes (timed t n) time words (ht, hn) =
    Encodes-bind _ (Encodes-context _ (long-Encodes t ht))
      (Encodes-map _ (Encodes-context _ (vint-Encodes n hn)))

-- ReadMetadata reads back the expiries, the version and the value that the server wrote, where these are
-- in the ranges of the protocol.
pub metadata-Encodes :
    (life idle : Expiry) (version : ℕ) (value : Bytes)
    → IsExpiry life
    → IsExpiry idle
    → IsU64 version
    → length value < 2 ^ 31
    → Encodes
        (write_metadata life idle version value)
        read_metadata
        (metadata life idle version, value)
unfolding write_metadata read_metadata metadata
metadata-Encodes life idle version value hl hi hv short =
    Encodes-bind _ (Encodes-context _ (u1-Encodes (flag life 1 + flag idle 2))) (
      rw ((flags_tell life idle).0, (flags_tell life idle).1)
        (Encodes-bind _ (expiry-Encodes life _ _ hl) (
          Encodes-bind _ (expiry-Encodes idle _ _ hi) (
            Encodes-bind _ (Encodes-context _ (long-Encodes version hv))
              (Encodes-map _ (lp_bytes-Encodes value short))))))

-- The value alone, of whatever ReadMetadata returns.
abbrev pub value_of : Outcome (EntryMetadata × Bytes) → Outcome Bytes
value_of (done (md, value) s) = done value s
value_of (fail e s) = fail e s
value_of panic = panic

-- ReadMetadataValue takes the same bytes as ReadMetadata on any input, fails and panics where it does,
-- with the same error, and returns its value.
pub read_metadata_value_lem : (s : Bytes) → read_metadata_value s ≡ value_of (read_metadata s)
unfolding read_metadata_value read_metadata
read_metadata_value_lem s = ground arith
