-- ===== src/Operation/Counter/Ops.antt =====
-- internal/operation/counter.go: the operations on a counter. A response that is nil is `none`.
use go_client.Prelude.{ℕ, List, [], Option, none, some, Bool, ◌==◌, if◌then◌else◌}
use go_client.Io.{Bytes, message, Read, ◌>>=◌, pure, throw, Write, wrote, ◌>>◌}
use go_client.Codec.Constants.{status_success, status_counter_bound_reached}
use go_client.Codec.VarInt.{read_vint}
use go_client.Codec.Wire.{write_lp_bytes, write_lp_string, read_lp_string, write_long, read_long}
use go_client.Codec.Header.{read_slice}
use go_client.Operation.Interface.{Operation}
use go_client.Operation.Counter.{
  CounterConfiguration, write_counter_configuration, decode_counter_configuration,
}

-- The DecodeResponse of the operations that tell whether they succeeded.
unfoldable pub decode_success : ℕ → Read Bool
decode_success status = pure (status == status_success)

-- The DecodeResponse of the operations whose response is not read.
unfoldable pub decode_nothing : ℕ → Read (Unit {0})
decode_nothing status = pure tt

-- That of the operations that return a value on success.
unfoldable pub decode_counter_value : ℕ → Read (Option ℕ)
decode_counter_value status =
    if status == status_success then (do value ← read_long; pure (some value)) else pure none

unfoldable pub counter_create : Bytes → CounterConfiguration → Operation Bool
counter_create name config = record {
  request_op_code = 0x4b;
  response_op_code = 0x4c;
  cache_name = [];
  flags = 0;
  key_media_type = 0;
  value_media_type = 0;
  key_bytes = none;
  write_body = write_lp_string name >> write_counter_configuration config;
  decode_response = decode_success;
}

unfoldable pub decode_counter_get_configuration : ℕ → Read (Option CounterConfiguration)
decode_counter_get_configuration status =
    if status == status_success
    then (do cc ← decode_counter_configuration; pure (some cc))
    else pure none

unfoldable pub counter_get_configuration : Bytes → Operation (Option CounterConfiguration)
counter_get_configuration name = record {
  request_op_code = 0x4d;
  response_op_code = 0x4e;
  cache_name = [];
  flags = 0;
  key_media_type = 0;
  value_media_type = 0;
  key_bytes = none;
  write_body = write_lp_string name;
  decode_response = decode_counter_get_configuration;
}

unfoldable pub counter_is_defined : Bytes → Operation Bool
counter_is_defined name = record {
  request_op_code = 0x4f;
  response_op_code = 0x51;
  cache_name = [];
  flags = 0;
  key_media_type = 0;
  value_media_type = 0;
  key_bytes = none;
  write_body = write_lp_string name;
  decode_response = decode_success;
}

unfoldable pub decode_counter_add_and_get : ℕ → Read (Option ℕ)
decode_counter_add_and_get status =
    if status == status_success
    then (do value ← read_long; pure (some value))
    else if status == status_counter_bound_reached
    then throw (message "counter bound reached")
    else pure none

unfoldable pub counter_add_and_get : Bytes → ℕ → Operation (Option ℕ)
counter_add_and_get name delta = record {
  request_op_code = 0x52;
  response_op_code = 0x53;
  cache_name = [];
  flags = 0;
  key_media_type = 0;
  value_media_type = 0;
  key_bytes = none;
  write_body = write_lp_string name >> write_long delta;
  decode_response = decode_counter_add_and_get;
}

unfoldable pub counter_reset : Bytes → Operation (Unit {0})
counter_reset name = record {
  request_op_code = 0x54;
  response_op_code = 0x55;
  cache_name = [];
  flags = 0;
  key_media_type = 0;
  value_media_type = 0;
  key_bytes = none;
  write_body = write_lp_string name;
  decode_response = decode_nothing;
}

unfoldable pub counter_get : Bytes → Operation (Option ℕ)
counter_get name = record {
  request_op_code = 0x56;
  response_op_code = 0x57;
  cache_name = [];
  flags = 0;
  key_media_type = 0;
  value_media_type = 0;
  key_bytes = none;
  write_body = write_lp_string name;
  decode_response = decode_counter_value;
}

pub record CounterCasResult : Type 0 where
  pub success : Bool
  pub old_value : ℕ

unfoldable pub decode_counter_cas : ℕ → ℕ → Read (Option CounterCasResult)
decode_counter_cas expect status =
    if status == status_success
    then (do val ← read_long; pure (some (record { success = val == expect; old_value = val })))
    else pure none

unfoldable pub write_counter_cas : Bytes → ℕ → ℕ → Write
write_counter_cas name expect update = do write_lp_string name; write_long expect; write_long update

unfoldable pub counter_cas : Bytes → ℕ → ℕ → Operation (Option CounterCasResult)
counter_cas name expect update = record {
  request_op_code = 0x58;
  response_op_code = 0x59;
  cache_name = [];
  flags = 0;
  key_media_type = 0;
  value_media_type = 0;
  key_bytes = none;
  write_body = write_counter_cas name expect update;
  decode_response = decode_counter_cas expect;
}

unfoldable pub counter_get_and_set : Bytes → ℕ → Operation (Option ℕ)
counter_get_and_set name value = record {
  request_op_code = 0x7f;
  response_op_code = 0x80;
  cache_name = [];
  flags = 0;
  key_media_type = 0;
  value_media_type = 0;
  key_bytes = none;
  write_body = write_lp_string name >> write_long value;
  decode_response = decode_counter_value;
}

unfoldable pub counter_remove : Bytes → Operation Bool
counter_remove name = record {
  request_op_code = 0x5e;
  response_op_code = 0x5f;
  cache_name = [];
  flags = 0;
  key_media_type = 0;
  value_media_type = 0;
  key_bytes = none;
  write_body = write_lp_string name;
  decode_response = decode_success;
}

unfoldable pub counter_add_listener : Bytes → Bytes → Operation (Unit {0})
counter_add_listener name listener_id = record {
  request_op_code = 0x5a;
  response_op_code = 0x5b;
  cache_name = [];
  flags = 0;
  key_media_type = 0;
  value_media_type = 0;
  key_bytes = none;
  write_body = write_lp_string name >> write_lp_bytes listener_id;
  decode_response = decode_nothing;
}

unfoldable pub counter_remove_listener : Bytes → Bytes → Operation (Unit {0})
counter_remove_listener name listener_id = record {
  request_op_code = 0x5c;
  response_op_code = 0x5d;
  cache_name = [];
  flags = 0;
  key_media_type = 0;
  value_media_type = 0;
  key_bytes = none;
  write_body = write_lp_string name >> write_lp_bytes listener_id;
  decode_response = decode_nothing;
}

unfoldable pub decode_counter_get_names : ℕ → Read (List Bytes)
decode_counter_get_names status = do
  count ← read_vint
  names ← read_slice count (λ i. read_lp_string)
  pure names

unfoldable pub counter_get_names : Operation (List Bytes)
counter_get_names = record {
  request_op_code = 0x64;
  response_op_code = 0x65;
  cache_name = [];
  flags = 0;
  key_media_type = 0;
  value_media_type = 0;
  key_bytes = none;
  write_body = wrote [];
  decode_response = decode_counter_get_names;
}
