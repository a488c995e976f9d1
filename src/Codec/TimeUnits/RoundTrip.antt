-- ===== src/Codec/TimeUnits/RoundTrip.antt =====
-- What a server that follows the protocol makes of the written time units.
use go_client.Prelude.{
  ℕ, ◌+◌, ◌*◌, ◌/◌, ◌%◌, ◌^◌, ◌<◌, ◌≡◌, [], ltb, ◌==◌, if◌then◌else◌, bit_and, bit_or, byte,
  is_negative64, arith, IsU64, Bool-cases, inl, inr,
}
use go_client.Prelude.Bits.{bit_and-15, bit_or_high}
use go_client.Io.{Read, ◌>>=◌, pure, Write, wrote, ◌>>◌}
use go_client.Io.Encodes.{Encodes, Encodes-bind, Encodes-map, Encodes-pure}
use go_client.Codec.VarInt.{write_vlong, read_vlong}
use go_client.Codec.VarInt.RoundTrip.{vlong-Encodes}
use go_client.Codec.Wire.{write_u1, read_u1}
use go_client.Codec.Wire.RoundTrip.{u1-Encodes}
use go_client.Codec.TimeUnits.{
  encode_positive, encode_duration, encode_time_units, write_time_units,
}

-- How long an entry lives: as the cache is configured, for ever, or for some nanoseconds.
pub data Expiration : Type 0 where
  configured never : Expiration
  after : ℕ → Expiration

-- The meaning of the caller's duration.
unfoldable pub meaning : ℕ → Expiration
meaning d = if d == 0 then configured else if is_negative64 d then never else after d

-- The nanoseconds of each unit code below 7, from the protocol's table.
unfoldable pub unit_nanos : ℕ → ℕ
unit_nanos code =
    if code == 0
    then 1_000_000_000
    else if code == 1
    then 1_000_000
    else if code == 2
    then 1
    else if code == 3
    then 1_000
    else if code == 4
    then 60_000_000_000
    else if code == 5
    then 3_600_000_000_000
    else 86_400_000_000_000

-- The server's reader: a code, and for the codes below 7 a count.
unfoldable pub decode_expiration : ℕ → ℕ → Expiration
unfolding unit_nanos
decode_expiration code count =
    if ltb code 7 then after (count * unit_nanos code) else if code == 7 then configured else never

read_count : ℕ → Read ℕ
read_count code = if ltb code 7 then read_vlong else pure 0

unfoldable pub read_time_units : Read (Expiration × Expiration)
unfolding read_count
read_time_units = do
  units ← read_u1
  lifespan ← read_count (units / 16)
  max_idle ← read_count (units % 16)
  pure (decode_expiration (units / 16) lifespan, decode_expiration (units % 16) max_idle)

-- The unit code and the count of an int64 of nanoseconds mean that duration to the server; the code is
-- one of the nine, and the count is in the range of WriteVLong.
pub encode_duration_lem :
    (d : ℕ)
    → IsU64 d
    → (decode_expiration (encode_duration d).0 (encode_duration d).1 ≡ meaning d)
      × ((encode_duration d).0 < 9)
      × ((encode_duration d).1 < 2 ^ 63)
unfolding encode_duration encode_positive decode_expiration meaning
encode_duration_lem d h = ground arith

-- The count that follows the units byte, if its code has one.
abbrev write_count : ℕ → ℕ → Write
write_count code count = if ltb code 7 then write_vlong count else wrote []

count_read : ℕ → ℕ → ℕ
count_read code count = if ltb code 7 then count else 0

count-Encodes :
    (code count : ℕ)
    → count < 2 ^ 63
    → Encodes (write_count code count) (read_count code) (count_read code count)
unfolding read_count count_read
count-Encodes code count h = elim (Bool-cases (ltb code 7)) [
  | inl counted ↦ rw counted (vlong-Encodes count h)
  | inr uncounted ↦ rw uncounted (Encodes-pure 0)
]

decode-count_read :
    (code count : ℕ) → decode_expiration code (count_read code count) ≡ decode_expiration code count
unfolding decode_expiration count_read
decode-count_read code count = ground arith

-- The reader after a units byte that holds the two codes.
fields-Encodes :
    (c v e w : ℕ)
    → (c < 9) × (v < 2 ^ 63)
    → (e < 9) × (w < 2 ^ 63)
    → Encodes
        (write_u1 (c * 16 + e) >> (write_count c v >> write_count e w))
        read_time_units
        (decode_expiration c v, decode_expiration e w)
unfolding read_time_units
fields-Encodes c v e w (hc, hv) (he, hw) = Encodes-bind _ (u1-Encodes (c * 16 + e)) (
    rw (high, low, ← decode-count_read c v, ← decode-count_read e w)
      (Encodes-bind _ (count-Encodes c v hv) (
        Encodes-map (λ n. (decode_expiration c (count_read c v), decode_expiration e n))
          (count-Encodes e w hw))))
  where
    high : (c * 16 + e) / 16 ≡ c
    high = omega arith

    low : (c * 16 + e) % 16 ≡ e
    low = omega arith

-- The units byte of two codes, and the codes that Write takes out of it again.
packed_codes :
    (c e : ℕ)
    → c < 9
    → e < 9
    → (bit_or (byte (c * 2 ^ 4)) e ≡ c * 16 + e)
      × (bit_and ((c * 16 + e) / 2 ^ 4) 0x0f ≡ c)
      × (bit_and (c * 16 + e) 0x0f ≡ e)
packed_codes c e hc he = (
  rw whole (bit_or_high 4 e c (omega arith)),
  omega (arith, bit_and-15 ((c * 16 + e) / 2 ^ 4)),
  omega (arith, bit_and-15 (c * 16 + e)),
)
  where
    whole : byte (c * 2 ^ 4) ≡ c * 2 ^ 4
    whole = omega arith

-- Whatever the two durations, int64 of nanoseconds, the bytes that Write puts out are read by the server
-- as their meaning, and writing them does not panic.
pub time_units-Encodes :
    (l m : ℕ)
    → IsU64 l
    → IsU64 m
    → Encodes (write_time_units (encode_time_units l m)) read_time_units (meaning l, meaning m)
unfolding write_time_units encode_time_units
time_units-Encodes l m hl hm =
    let (lm, lc, lv) = encode_duration_lem l hl in
    let (mm, mc, mv) = encode_duration_lem m hm in
    let (p, high, low) = packed_codes (encode_duration l).0 (encode_duration m).0 lc mc in
    rw (p, high, low, ← lm, ← mm)
      (fields-Encodes (encode_duration l).0 (encode_duration l).1 (encode_duration m).0
        (encode_duration m).1 (lc, lv) (mc, mv))
