-- ===== src/Codec/Wire.antt =====
-- internal/codec/wire.go: the fixed-width and length-prefixed fields, and entry metadata.

pub mod RoundTrip
pub mod Metadata
use go_client.Prelude.{
  ℕ, zero, suc, ◌*◌, ◌+◌, ◌-◌, ◌/◌, ◌%◌, ◌^◌, List, [], ◌∷◌, get_or, length, bit_and, bit_or,
  bit_xor, byte, u32, u64, ltb, ◌==◌, not, Bool, String, if◌then◌else◌, is_negative32, neg32,
  rounds32, minus_one32,
}
use go_client.Io.{
  Bytes, Read, ◌>>=◌, pure, throw, crash, context, Write, wrote, panicked, ◌>>◌, read_full,
}
use go_client.Codec.Constants.{media_type_none, media_type_predefined, media_type_custom}
use go_client.Codec.VarInt.{write_vint, read_vint}

-- `len(b)` is an `int`; the field holds its low 32 bits.
unfoldable pub write_lp_bytes : Bytes → Write
write_lp_bytes b = do write_vint (u32 (length b)); if ltb 0 (length b) then wrote b else wrote []

-- `make([]byte, n)` panics on a negative length.
unfoldable pub read_lp_bytes : Read Bytes
read_lp_bytes = do
  n ← context "read lp_bytes length" read_vint
  if n == 0
      then pure []
      else if is_negative32 n
      then crash
      else context "read lp_bytes data" (read_full n)

-- A string is its bytes.
unfoldable pub write_lp_string : Bytes → Write
unfolding write_lp_bytes
write_lp_string s = write_lp_bytes s

unfoldable pub read_lp_string : Read Bytes
unfolding read_lp_bytes
read_lp_string = do b ← read_lp_bytes; pure b

unfoldable pub write_media_type_none : Write
write_media_type_none = wrote (media_type_none ∷ [])

unfoldable pub write_media_type_predefined : ℕ → Write
write_media_type_predefined id = do wrote (media_type_predefined ∷ []); write_vint id; write_vint 0

unfoldable pub write_u1 : ℕ → Write
write_u1 v = wrote (v ∷ [])

unfoldable pub read_u1 : Read ℕ
read_u1 = do b ← read_full 1; pure (get_or b 0 0)

unfoldable pub write_u2 : ℕ → Write
write_u2 v = wrote (byte (v / 2 ^ 8) ∷ byte v ∷ [])

unfoldable pub read_u2 : Read ℕ
read_u2 = do b ← read_full 2; pure (bit_or (get_or b 0 0 * 2 ^ 8) (get_or b 1 0))

unfoldable pub write_long : ℕ → Write
write_long v = wrote (
    byte (v / 2 ^ 56)
    ∷ byte (v / 2 ^ 48)
    ∷ byte (v / 2 ^ 40)
    ∷ byte (v / 2 ^ 32)
    ∷ byte (v / 2 ^ 24)
    ∷ byte (v / 2 ^ 16)
    ∷ byte (v / 2 ^ 8)
    ∷ byte v
    ∷ [])

-- `int64(b)<<s`, for a byte `b` and s at most 56
abbrev pub shl64 : ℕ → ℕ → ℕ
shl64 b s = u64 (b * 2 ^ s)

abbrev pub long_of : Bytes → ℕ
long_of b =
    bit_or
      (bit_or
        (bit_or
          (bit_or
            (bit_or
              (bit_or (bit_or (shl64 (get_or b 0 0) 56) (shl64 (get_or b 1 0) 48))
                (shl64 (get_or b 2 0) 40))
              (shl64 (get_or b 3 0) 32))
            (shl64 (get_or b 4 0) 24))
          (shl64 (get_or b 5 0) 16))
        (shl64 (get_or b 6 0) 8))
      (get_or b 7 0)

unfoldable pub read_long : Read ℕ
read_long = do b ← context "read long" (read_full 8); pure (long_of b)

unfoldable pub write_int32 : ℕ → Write
write_int32 v = wrote (byte (v / 2 ^ 24) ∷ byte (v / 2 ^ 16) ∷ byte (v / 2 ^ 8) ∷ byte v ∷ [])

abbrev shl32 : ℕ → ℕ → ℕ
shl32 b s = u32 (b * 2 ^ s)

unfoldable pub read_int32 : Read ℕ
read_int32 = do
  b ← context "read int32" (read_full 4)
  pure (
      bit_or
        (bit_or (bit_or (shl32 (get_or b 0 0) 24) (shl32 (get_or b 1 0) 16))
          (shl32 (get_or b 2 0) 8))
        (get_or b 3 0))

-- `v >> 31` of an `int32` copies the sign into every bit.
abbrev sign32 : ℕ → ℕ
sign32 v = if is_negative32 v then minus_one32 else 0

unfoldable pub write_signed_vint : ℕ → Write
write_signed_vint v = write_vint (bit_xor (u32 (v * 2)) (sign32 v))

unfoldable pub read_signed_vint : Read ℕ
read_signed_vint = do u ← read_vint; pure (bit_xor (u / 2) (neg32 (bit_and u 1)))

abbrev pub flag_infinite_lifespan : ℕ
flag_infinite_lifespan = 0x01

abbrev pub flag_infinite_max_idle : ℕ
flag_infinite_max_idle = 0x02

pub record EntryMetadata : Type 0 where
  pub created : ℕ
  pub lifespan : ℕ
  pub last_used : ℕ
  pub max_idle : ℕ
  pub version : ℕ

-- One of the two expiry blocks of the metadata, a time and a duration, which a flag leaves out.
abbrev expiry : (flagged : Bool) → String → String → Read (ℕ × ℕ)
expiry flagged time duration =
    if flagged
    then pure (0, minus_one32)
    else do t ← context time read_long; n ← context duration read_vint; pure (t, n)

unfoldable pub read_metadata : Read (EntryMetadata × Bytes)
read_metadata = do
  flags ← context "read metadata flags" read_u1
  (created, lifespan) ←
      expiry (not (bit_and flags flag_infinite_lifespan == 0)) "read creation" "read lifespan"
  (last_used, max_idle) ←
      expiry (not (bit_and flags flag_infinite_max_idle == 0)) "read lastUsed" "read maxIdle"
  version ← context "read version" read_long
  value ← read_lp_bytes
  pure (
    record {
      created = created;
      lifespan = lifespan;
      last_used = last_used;
      max_idle = max_idle;
      version = version;
    },
    value,
  )

-- The same bytes as read_metadata, of which only the value is kept.
unfoldable pub read_metadata_value : Read Bytes
read_metadata_value = do
  flags ← context "read metadata flags" read_u1
  _ ← expiry (not (bit_and flags flag_infinite_lifespan == 0)) "read creation" "read lifespan"
  _ ← expiry (not (bit_and flags flag_infinite_max_idle == 0)) "read lastUsed" "read maxIdle"
  _ ← context "read version" read_long
  read_lp_bytes

-- `for range paramCount`: a key and a value.
unfoldable pub skip_params : ℕ → Read (Unit {0})
skip_params zero = pure tt
skip_params (suc n) = do
  _ ← context "skip media type param key" read_lp_string
  _ ← context "skip media type param value" read_lp_string
  skip_params n

-- The name of a media type, for the kinds that have one; any other kind has no name to skip.
abbrev skip_media_type_name : ℕ → Read (Unit {0})
skip_media_type_name kind =
    if kind == media_type_predefined
    then (do _ ← context "skip media type predefined id" read_vint; pure tt)
    else if kind == media_type_custom
    then (do _ ← context "skip media type custom string" read_lp_string; pure tt)
    else pure tt

unfoldable pub skip_media_type : Read (Unit {0})
skip_media_type = do
  kind ← context "skip media type kind" read_u1
  if kind == media_type_none then pure tt else (do
    _ ← skip_media_type_name kind
    count ← context "skip media type param count" read_vint
    skip_params (rounds32 count))
