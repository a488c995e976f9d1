-- ===== src/Operation/Entry.antt =====
-- The operations that write an entry, conditionally or not: put.go, put_if_absent.go, replace.go,
-- replace_if_unmodified.go and remove_if_unmodified.go.
pub mod Server
use go_client.Prelude.{ℕ, Bool, Option, none, some, ◌==◌, ◌||◌, if◌then◌else◌}
use go_client.Io.{Bytes, Read, ◌>>=◌, pure, Write, ◌>>◌}
use go_client.Codec.Constants.{
  media_id_octet_stream, status_success, status_success_with_previous,
  status_not_exec_with_previous,
}
use go_client.Codec.Wire.{write_lp_bytes, write_long, read_metadata_value}
use go_client.Codec.TimeUnits.{encode_time_units, write_time_units}
use go_client.Operation.Interface.{Operation, media_type_or_default}

-- The fields of PutOp, PutIfAbsentOp and ReplaceOp. The two durations are int64 of nanoseconds.
pub record EntryOp : Type 0 where
  pub cache : Bytes
  pub key : Bytes
  pub value : Bytes
  pub lifespan : ℕ
  pub max_idle : ℕ
  pub key_mt : ℕ
  pub value_mt : ℕ
  pub op_flags : ℕ

-- The body that the three write: the key, the time units, the value.
unfoldable pub write_entry : EntryOp → Write
write_entry o = do
  write_lp_bytes o.key
  write_time_units (encode_time_units o.lifespan o.max_idle)
  write_lp_bytes o.value

-- The statuses whose response carries the previous value.
abbrev pub has_previous : ℕ → Bool
has_previous status =
    status == status_success_with_previous || status == status_not_exec_with_previous

-- PutOp.DecodeResponse; `none` is a nil response.
unfoldable pub decode_put : ℕ → Read (Option Bytes)
decode_put status =
    if has_previous status then (do prev ← read_metadata_value; pure (some prev)) else pure none

unfoldable pub put : EntryOp → Operation (Option Bytes)
put o = record {
  request_op_code = 0x01;
  response_op_code = 0x02;
  cache_name = o.cache;
  flags = o.op_flags;
  key_media_type = media_type_or_default o.key_mt;
  value_media_type = media_type_or_default o.value_mt;
  key_bytes = some o.key;
  write_body = write_entry o;
  decode_response = decode_put;
}

-- The outcome of a conditional operation; a previous value only where the server sent one.
pub record CasResponse : Type 0 where
  pub success : Bool
  pub previous_value : Option Bytes

-- The DecodeResponse of the four conditional operations.
unfoldable pub decode_cas : ℕ → Read CasResponse
decode_cas status =
    if has_previous status
    then (do
      prev ← read_metadata_value
      pure
          (record { success = status == status_success_with_previous; previous_value = some prev }))
    else pure (record { success = status == status_success; previous_value = none })

unfoldable pub put_if_absent : EntryOp → Operation CasResponse
put_if_absent o = record {
  request_op_code = 0x05;
  response_op_code = 0x06;
  cache_name = o.cache;
  flags = o.op_flags;
  key_media_type = media_type_or_default o.key_mt;
  value_media_type = media_type_or_default o.value_mt;
  key_bytes = some o.key;
  write_body = write_entry o;
  decode_response = decode_cas;
}

unfoldable pub replace : EntryOp → Operation CasResponse
replace o = record {
  request_op_code = 0x07;
  response_op_code = 0x08;
  cache_name = o.cache;
  flags = o.op_flags;
  key_media_type = media_type_or_default o.key_mt;
  value_media_type = media_type_or_default o.value_mt;
  key_bytes = some o.key;
  write_body = write_entry o;
  decode_response = decode_cas;
}

pub record ReplaceIfUnmodifiedOp : Type 0 where
  pub cache : Bytes
  pub key : Bytes
  pub value : Bytes
  pub version : ℕ
  pub lifespan : ℕ
  pub max_idle : ℕ
  pub op_flags : ℕ

unfoldable pub write_replace_if_unmodified : ReplaceIfUnmodifiedOp → Write
write_replace_if_unmodified o = do
  write_lp_bytes o.key
  write_time_units (encode_time_units o.lifespan o.max_idle)
  write_long o.version
  write_lp_bytes o.value

unfoldable pub replace_if_unmodified : ReplaceIfUnmodifiedOp → Operation CasResponse
replace_if_unmodified o = record {
  request_op_code = 0x09;
  response_op_code = 0x0a;
  cache_name = o.cache;
  flags = o.op_flags;
  key_media_type = media_id_octet_stream;
  value_media_type = media_id_octet_stream;
  key_bytes = some o.key;
  write_body = write_replace_if_unmodified o;
  decode_response = decode_cas;
}

pub record RemoveIfUnmodifiedOp : Type 0 where
  pub cache : Bytes
  pub key : Bytes
  pub version : ℕ
  pub op_flags : ℕ

unfoldable pub write_remove_if_unmodified : RemoveIfUnmodifiedOp → Write
write_remove_if_unmodified o = do write_lp_bytes o.key; write_long o.version

unfoldable pub remove_if_unmodified : RemoveIfUnmodifiedOp → Operation CasResponse
remove_if_unmodified o = record {
  request_op_code = 0x0d;
  response_op_code = 0x0e;
  cache_name = o.cache;
  flags = o.op_flags;
  key_media_type = media_id_octet_stream;
  value_media_type = media_id_octet_stream;
  key_bytes = some o.key;
  write_body = write_remove_if_unmodified o;
  decode_response = decode_cas;
}
