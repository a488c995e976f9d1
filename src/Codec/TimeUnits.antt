-- ===== src/Codec/TimeUnits.antt =====
-- internal/codec/timeunits.go: the lifespan and the maximum idle time of an entry, each a unit and a
-- count. A time.Duration is an int64 of nanoseconds.
pub mod RoundTrip
use go_client.Prelude.{
  ℕ, ◌*◌, ◌/◌, ◌%◌, ◌^◌, [], ltb, ◌==◌, ◌&&◌, if◌then◌else◌, bit_and, bit_or, byte, is_negative64,
}
use go_client.Io.{Write, wrote, ◌>>◌}
use go_client.Codec.Constants.{
  time_unit_seconds, time_unit_milliseconds, time_unit_nanoseconds, time_unit_microseconds,
  time_unit_minutes, time_unit_hours, time_unit_default, time_unit_infinite,
}
use go_client.Codec.VarInt.{write_vlong}
use go_client.Codec.Wire.{write_u1}

pub record TimeUnits : Type 0 where
  pub packed : ℕ
  pub lifespan : ℕ
  pub max_idle : ℕ

-- The constants of package time.
abbrev pub microsecond : ℕ
microsecond = 1_000

abbrev pub millisecond : ℕ
millisecond = 1_000_000

abbrev pub second : ℕ
second = 1_000_000_000

abbrev pub minute : ℕ
minute = 60 * second

abbrev pub hour : ℕ
hour = 60 * minute

-- The switch of encodeDuration, reached by positive durations.
unfoldable pub encode_positive : ℕ → ℕ × ℕ
encode_positive d =
    if d % hour == 0 && ltb (d / hour) (24 * 365)
    then (time_unit_hours, d / hour)
    else if d % minute == 0
    then (time_unit_minutes, d / minute)
    else if d % second == 0
    then (time_unit_seconds, d / second)
    else if d % millisecond == 0
    then (time_unit_milliseconds, d / millisecond)
    else if d % microsecond == 0
    then (time_unit_microseconds, d / microsecond)
    else (time_unit_nanoseconds, d)

unfoldable pub encode_duration : ℕ → ℕ × ℕ
encode_duration d =
    if d == 0
    then (time_unit_default, 0)
    else if is_negative64 d
    then (time_unit_infinite, 0)
    else encode_positive d

unfoldable pub encode_time_units : ℕ → ℕ → TimeUnits
encode_time_units lifespan max_idle =
    let (lifespan_code, lifespan_val) = encode_duration lifespan in
    let (max_idle_code, max_idle_val) = encode_duration max_idle in
    record {
      packed = bit_or (byte (lifespan_code * 2 ^ 4)) max_idle_code;
      lifespan = lifespan_val;
      max_idle = max_idle_val;
    }

unfoldable pub write_time_units : TimeUnits → Write
write_time_units t = do
  write_u1 t.packed
  if ltb (bit_and (t.packed / 2 ^ 4) 0x0f) time_unit_default
      then write_vlong t.lifespan
      else wrote []
  if ltb (bit_and t.packed 0x0f) time_unit_default then write_vlong t.max_idle else wrote []
