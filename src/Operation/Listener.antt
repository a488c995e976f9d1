-- ===== src/Operation/Listener.antt =====
-- internal/operation/listener.go and bloom_listener.go: registering listeners, and the events that the
-- server sends to them.
pub mod Events
use go_client.Prelude.{
  ℕ, List, [], ◌∷◌, Bool, true, false, not, Option, none, some, length, byte, ◌==◌, ◌||◌,
  if◌then◌else◌,
}
use go_client.Io.{
  Bytes, Outcome, done, fail, panic, Read, ◌>>=◌, pure, Write, wrote, ◌>>◌, write_each,
}
use go_client.Codec.Constants.{
  op_cache_entry_created, op_cache_entry_modified, op_cache_entry_removed, op_cache_entry_expired,
}
use go_client.Codec.VarInt.{write_vint}
use go_client.Codec.Wire.{
  write_lp_bytes, read_lp_bytes, write_lp_string, write_u1, read_u1, read_long,
}
use go_client.Operation.Interface.{Operation}

pub data EventType : Type 0 where
  created modified removed expired : EventType

abbrev pub interest_all : ℕ
interest_all = 0x0f

pub record CacheEntryEvent : Type 0 where
  pub type : EventType
  pub key : Bytes
  pub version : ℕ

-- What DecodeEventBody returns: a cache entry event, or the data of a custom event.
pub data Event : Type 0 where
  entry_event : CacheEntryEvent → Event
  custom_event : Bytes → Event

pub record AddClientListenerOp : Type 0 where
  pub cache : Bytes
  pub listener_id : Bytes
  pub include_state : Bool
  pub interests : ℕ
  pub filter_factory : Bytes
  pub converter_factory : Bytes
  pub filter_params : List Bytes
  pub converter_params : List Bytes

-- A factory's name, and its parameters if the name is not empty; `byte(len(params))` is the count.
unfoldable pub write_factory : Bytes → List Bytes → Write
write_factory [] params = write_lp_string []
write_factory (c ∷ name) params = do
  write_lp_string (c ∷ name)
  write_u1 (byte (length params))
  write_each write_lp_bytes params

unfoldable pub write_add_listener : AddClientListenerOp → Write
write_add_listener o = do
  write_lp_bytes o.listener_id
  write_u1 (if o.include_state then 1 else 0)
  write_factory o.filter_factory o.filter_params
  write_factory o.converter_factory o.converter_params
  write_u1 1
  write_vint (if o.interests == 0 then interest_all else o.interests)

unfoldable pub add_client_listener : AddClientListenerOp → Operation (Unit {0})
add_client_listener o = record {
  request_op_code = 0x25;
  response_op_code = 0x26;
  cache_name = o.cache;
  flags = 0;
  key_media_type = 0;
  value_media_type = 0;
  key_bytes = none;
  write_body = write_add_listener o;
  decode_response = λ status. pure tt;
}

unfoldable pub remove_client_listener : Bytes → Bytes → Operation (Unit {0})
remove_client_listener cache listener_id = record {
  request_op_code = 0x27;
  response_op_code = 0x28;
  cache_name = cache;
  flags = 0;
  key_media_type = 0;
  value_media_type = 0;
  key_bytes = none;
  write_body = write_lp_bytes listener_id;
  decode_response = λ status. pure tt;
}

unfoldable pub write_add_bloom_listener : Bytes → ℕ → Write
write_add_bloom_listener listener_id bloom_filter_bits = do
  write_lp_bytes listener_id
  write_vint bloom_filter_bits

unfoldable pub add_bloom_listener : Bytes → Bytes → ℕ → Operation (Unit {0})
add_bloom_listener cache listener_id bloom_filter_bits = record {
  request_op_code = 0x41;
  response_op_code = 0x42;
  cache_name = cache;
  flags = 0;
  key_media_type = 0;
  value_media_type = 0;
  key_bytes = none;
  write_body = write_add_bloom_listener listener_id bloom_filter_bits;
  decode_response = λ status. pure tt;
}

unfoldable pub update_bloom_filter : Bytes → Bytes → Operation (Unit {0})
update_bloom_filter cache bloom_bits = record {
  request_op_code = 0x43;
  response_op_code = 0x44;
  cache_name = cache;
  flags = 0;
  key_media_type = 0;
  value_media_type = 0;
  key_bytes = none;
  write_body = write_lp_bytes bloom_bits;
  decode_response = λ status. pure tt;
}

unfoldable pub read_event_listener_id : Read Bytes
read_event_listener_id = read_lp_bytes

-- The switch on the opcode; `evType` starts as EventCreated.
unfoldable pub event_type : ℕ → EventType
event_type op_code =
    if op_code == op_cache_entry_modified
    then modified
    else if op_code == op_cache_entry_removed
    then removed
    else if op_code == op_cache_entry_expired
    then expired
    else created

unfoldable pub has_version : EventType → Bool
has_version created = true
has_version modified = true
has_version removed = false
has_version expired = false

unfoldable pub decode_event_body : ℕ → Read Event
decode_event_body op_code = do
  is_custom ← read_u1
  _ ← read_u1
  if not (is_custom == 0) then (do content ← read_lp_bytes; pure (custom_event content)) else (do
    key ← read_lp_bytes
    version ← (if has_version (event_type op_code) then read_long else pure 0)
    pure (entry_event (record { type = event_type op_code; key = key; version = version })))

-- The switch of SkipEventBody knows two opcodes; `evType` starts as EventCreated.
unfoldable pub skip_event_type : ℕ → EventType
skip_event_type op_code = if op_code == op_cache_entry_modified then modified else created

-- A read whose error is dropped: what is left of the input counts.
unfoldable pub skipped : Outcome (Unit {0}) → Outcome (Unit {0})
skipped (done u s) = done tt s
skipped (fail e s) = done tt s
skipped panic = panic

-- The reads of SkipEventBody, with their errors.
unfoldable pub skip_event_read : ℕ → Read (Unit {0})
skip_event_read op_code = do
  is_custom ← read_u1
  _ ← read_u1
  if not (is_custom == 0) then (do _ ← read_lp_bytes; pure tt) else (do
    _ ← read_lp_bytes
    _ ← (if has_version (skip_event_type op_code) then read_long else pure 0)
    pure tt)

unfoldable pub skip_event_body : ℕ → Read (Unit {0})
skip_event_body op_code s = skipped (skip_event_read op_code s)
