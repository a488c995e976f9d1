-- ===== src/Operation/Service.antt =====
-- The operations on the server: stats.go, ping.go, exec.go, query.go, auth.go and auth_mechlist.go.
use go_client.Prelude.{
  ℕ, List, [], Bool, true, not, Option, none, some, length, u32, rounds32, ◌==◌, if◌then◌else◌,
}
use go_client.Io.{Bytes, Read, ◌>>=◌, pure, Write, wrote, ◌>>◌, read_times, write_each}
use go_client.Codec.Constants.{media_id_protostream, status_success}
use go_client.Codec.VarInt.{write_vint, read_vint}
use go_client.Codec.Wire.{
  write_lp_bytes, read_lp_bytes, write_lp_string, read_lp_string, read_u1, read_u2, skip_media_type,
}
use go_client.Codec.Header.{read_slice}
use go_client.Operation.Interface.{Operation}

-- The pairs in the order of arrival; the Go map keeps the last value of a name.
unfoldable pub read_stat : ℕ → Read (Bytes × Bytes)
read_stat i = do name ← read_lp_string; value ← read_lp_string; pure (name, value)

unfoldable pub decode_stats : ℕ → Read (List (Bytes × Bytes))
decode_stats status = do count ← read_vint; read_times (rounds32 count) 0 read_stat

unfoldable pub stats : Bytes → Operation (List (Bytes × Bytes))
stats cache = record {
  request_op_code = 0x15;
  response_op_code = 0x16;
  cache_name = cache;
  flags = 0;
  key_media_type = 0;
  value_media_type = 0;
  key_bytes = none;
  write_body = wrote [];
  decode_response = decode_stats;
}

-- `none` is the nil of a status that is not a success.
unfoldable pub decode_ping : ℕ → Read (Option Bool)
decode_ping status =
    if status == status_success
    then (do
      _ ← skip_media_type
      _ ← skip_media_type
      _ ← read_u1
      op_count ← read_vint
      _ ← read_times (rounds32 op_count) 0 (λ i. read_u2)
      pure (some true))
    else pure none

unfoldable pub ping : Operation (Option Bool)
ping = record {
  request_op_code = 0x17;
  response_op_code = 0x18;
  cache_name = [];
  flags = 0;
  key_media_type = 0;
  value_media_type = 0;
  key_bytes = none;
  write_body = wrote [];
  decode_response = decode_ping;
}

pub record ExecOp : Type 0 where
  pub task_name : Bytes
  pub params : List (Bytes × Bytes)

unfoldable pub write_exec_param : Bytes × Bytes → Write
write_exec_param (name, value) = do write_lp_string name; write_lp_bytes value

unfoldable pub write_exec : ExecOp → Write
write_exec o = do
  write_lp_string o.task_name
  write_vint (u32 (length o.params))
  write_each write_exec_param o.params

unfoldable pub exec : ExecOp → Operation Bytes
exec o = record {
  request_op_code = 0x2b;
  response_op_code = 0x2c;
  cache_name = [];
  flags = 0;
  key_media_type = 0;
  value_media_type = 0;
  key_bytes = none;
  write_body = write_exec o;
  decode_response = λ status. read_lp_bytes;
}

unfoldable pub query : Bytes → Bytes → Operation Bytes
query cache request = record {
  request_op_code = 0x1f;
  response_op_code = 0x20;
  cache_name = cache;
  flags = 0;
  key_media_type = media_id_protostream;
  value_media_type = media_id_protostream;
  key_bytes = none;
  write_body = write_lp_bytes request;
  decode_response = λ status. read_lp_bytes;
}

pub record AuthResponse : Type 0 where
  pub completed : Bool
  pub challenge : Bytes

unfoldable pub write_auth : Bytes → Bytes → Write
write_auth mechanism response_data = do write_lp_string mechanism; write_lp_bytes response_data

unfoldable pub decode_auth : ℕ → Read AuthResponse
decode_auth status = do
  completed ← read_u1
  challenge ← read_lp_bytes
  pure (record { completed = not (completed == 0); challenge = challenge })

unfoldable pub auth : Bytes → Bytes → Operation AuthResponse
auth mechanism response_data = record {
  request_op_code = 0x23;
  response_op_code = 0x24;
  cache_name = [];
  flags = 0;
  key_media_type = 0;
  value_media_type = 0;
  key_bytes = none;
  write_body = write_auth mechanism response_data;
  decode_response = decode_auth;
}

unfoldable pub decode_auth_mech_list : ℕ → Read (List Bytes)
decode_auth_mech_list status = do count ← read_vint; read_slice count (λ i. read_lp_string)

unfoldable pub auth_mech_list : Operation (List Bytes)
auth_mech_list = record {
  request_op_code = 0x21;
  response_op_code = 0x22;
  cache_name = [];
  flags = 0;
  key_media_type = 0;
  value_media_type = 0;
  key_bytes = none;
  write_body = wrote [];
  decode_response = decode_auth_mech_list;
}
