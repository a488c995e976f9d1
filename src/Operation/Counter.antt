-- ===== src/Operation/Counter.antt =====
-- internal/operation/counter.go: counters, their configuration and their events.
pub mod Ops
pub mod RoundTrip
use go_client.Prelude.{
  List, [], ℕ, ◌/◌, Bool, true, false, not, bit_and, bit_or, ◌==◌, if◌then◌else◌,
}
use go_client.Io.{Bytes, Read, ◌>>=◌, pure, Write, wrote, ◌>>◌, Outcome, done, fail, panic}
use go_client.Codec.VarInt.{write_vint, read_vint}
use go_client.Codec.Wire.{read_lp_bytes, read_lp_string, write_u1, read_u1, write_long, read_long}

abbrev pub counter_strong : ℕ
counter_strong = 0

abbrev pub counter_weak : ℕ
counter_weak = 1

abbrev pub storage_volatile : ℕ
storage_volatile = 0

abbrev pub storage_persistent : ℕ
storage_persistent = 1

pub record CounterConfiguration : Type 0 where
  pub counter_type : ℕ
  pub bounded : Bool
  pub storage : ℕ
  pub concurrency_level : ℕ
  pub lower_bound : ℕ
  pub upper_bound : ℕ
  pub initial_value : ℕ

-- The flags, with each `|=` under its condition.
unfoldable pub counter_flags : CounterConfiguration → ℕ
counter_flags cc =
    let weak = if cc.counter_type == counter_weak then bit_or 0 0x01 else 0 in
    let bounded = if cc.bounded then bit_or weak 0x02 else weak in
    if cc.storage == storage_persistent then bit_or bounded 0x04 else bounded

unfoldable pub write_concurrency : CounterConfiguration → Write
write_concurrency cc =
    if cc.counter_type == counter_weak then write_vint cc.concurrency_level else wrote []

unfoldable pub write_bounds : CounterConfiguration → Write
write_bounds cc =
    if cc.bounded then (write_long cc.lower_bound >> write_long cc.upper_bound) else wrote []

unfoldable pub write_counter_configuration : CounterConfiguration → Write
write_counter_configuration cc = do
  write_u1 (counter_flags cc)
  write_concurrency cc
  write_bounds cc
  write_long cc.initial_value

-- What decodeCounterConfiguration reads where the flags say so; a field that is not read stays 0.
unfoldable pub read_concurrency : Bool → Read ℕ
read_concurrency weak = if weak then read_vint else pure 0

unfoldable pub read_bounds : Bool → Read (ℕ × ℕ)
read_bounds bounded =
    if bounded then (do lower ← read_long; upper ← read_long; pure (lower, upper)) else pure (0, 0)

unfoldable pub decode_counter_configuration : Read CounterConfiguration
decode_counter_configuration = do
  flags ← read_u1
  concurrency ← read_concurrency (not (bit_and flags 0x01 == 0))
  bounds ← read_bounds (not (bit_and flags 0x02 == 0))
  initial ← read_long
  pure (record {
    counter_type = if bit_and flags 0x01 == 0 then counter_strong else counter_weak;
    bounded = not (bit_and flags 0x02 == 0);
    storage = if bit_and flags 0x04 == 0 then storage_volatile else storage_persistent;
    concurrency_level = concurrency;
    lower_bound = bounds.0;
    upper_bound = bounds.1;
    initial_value = initial;
  })

pub record CounterEvent : Type 0 where
  pub name : Bytes
  pub old_state : ℕ
  pub new_state : ℕ
  pub old_value : ℕ
  pub new_value : ℕ

unfoldable pub decode_counter_event_body : Read (CounterEvent × Bytes)
decode_counter_event_body = do
  name ← read_lp_string
  listener_id ← read_lp_bytes
  state_flags ← read_u1
  old_value ← read_long
  new_value ← read_long
  pure (
    record {
      name = name;
      old_state = bit_and state_flags 0x03;
      new_state = bit_and (state_flags / 4) 0x03;
      old_value = old_value;
      new_value = new_value;
    },
    listener_id,
  )

-- A call whose result and error are ignored: what is left of the input.
abbrev pub ignored {ℓ} : {A : Type ℓ} → Read A → Read (Unit {0})
ignored r s = elim (r s) [ done a s' ↦ done tt s' | fail err s' ↦ done tt s' | panic ↦ panic ]

unfoldable pub skip_counter_event_body : Read (Unit {0})
skip_counter_event_body = do
  _ ← ignored read_lp_string
  _ ← ignored read_lp_bytes
  _ ← ignored read_u1
  _ ← ignored read_long
  ignored read_long
