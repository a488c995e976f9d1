-- ===== src/Operation/Key.antt =====
-- The operations on a single key that write no entry: get.go, getwithversion.go, getwithmetadata.go,
-- contains_key.go and remove.go.
use go_client.Prelude.{ℕ, Bool, true, false, not, Option, none, some, ◌==◌, if◌then◌else◌}
use go_client.Io.{Bytes, Read, ◌>>=◌, pure}
use go_client.Codec.Constants.{
  media_id_octet_stream, status_key_does_not_exist, status_success_with_previous,
}
use go_client.Codec.Wire.{
  EntryMetadata, write_lp_bytes, read_lp_bytes, read_long, read_metadata, read_metadata_value,
}
use go_client.Operation.Interface.{Operation, media_type_or_default}

-- The fields of GetOp, GetWithMetadataOp and RemoveOp.
pub record KeyOp : Type 0 where
  pub cache : Bytes
  pub key : Bytes
  pub key_mt : ℕ
  pub value_mt : ℕ
  pub op_flags : ℕ

-- The fields of ContainsKeyOp and GetWithVersionOp.
pub record PlainKeyOp : Type 0 where
  pub cache : Bytes
  pub key : Bytes
  pub op_flags : ℕ

pub record GetResponse : Type 0 where
  pub value : Option Bytes
  pub found : Bool

unfoldable pub decode_get : ℕ → Read GetResponse
decode_get status =
    if status == status_key_does_not_exist
    then pure (record { value = none; found = false })
    else (do value ← read_lp_bytes; pure (record { value = some value; found = true }))

unfoldable pub get : KeyOp → Operation GetResponse
get o = record {
  request_op_code = 0x03;
  response_op_code = 0x04;
  cache_name = o.cache;
  flags = o.op_flags;
  key_media_type = media_type_or_default o.key_mt;
  value_media_type = media_type_or_default o.value_mt;
  key_bytes = some o.key;
  write_body = write_lp_bytes o.key;
  decode_response = decode_get;
}

pub record GetWithVersionResponse : Type 0 where
  pub value : Option Bytes
  pub version : ℕ
  pub found : Bool

unfoldable pub decode_get_with_version : ℕ → Read GetWithVersionResponse
decode_get_with_version status =
    if status == status_key_does_not_exist
    then pure (record { value = none; version = 0; found = false })
    else (do
      version ← read_long
      value ← read_lp_bytes
      pure (record { value = some value; version = version; found = true }))

unfoldable pub get_with_version : PlainKeyOp → Operation GetWithVersionResponse
get_with_version o = record {
  request_op_code = 0x11;
  response_op_code = 0x12;
  cache_name = o.cache;
  flags = o.op_flags;
  key_media_type = media_id_octet_stream;
  value_media_type = media_id_octet_stream;
  key_bytes = some o.key;
  write_body = write_lp_bytes o.key;
  decode_response = decode_get_with_version;
}

pub record GetWithMetadataResponse : Type 0 where
  pub value : Option Bytes
  pub metadata : Option EntryMetadata
  pub found : Bool

unfoldable pub decode_get_with_metadata : ℕ → Read GetWithMetadataResponse
decode_get_with_metadata status =
    if status == status_key_does_not_exist
    then pure (record { value = none; metadata = none; found = false })
    else (do
      (md, value) ← read_metadata
      pure (record { value = some value; metadata = some md; found = true }))

unfoldable pub get_with_metadata : KeyOp → Operation GetWithMetadataResponse
get_with_metadata o = record {
  request_op_code = 0x1b;
  response_op_code = 0x1c;
  cache_name = o.cache;
  flags = o.op_flags;
  key_media_type = media_type_or_default o.key_mt;
  value_media_type = media_type_or_default o.value_mt;
  key_bytes = some o.key;
  write_body = write_lp_bytes o.key;
  decode_response = decode_get_with_metadata;
}

unfoldable pub contains_key : PlainKeyOp → Operation Bool
contains_key o = record {
  request_op_code = 0x0f;
  response_op_code = 0x10;
  cache_name = o.cache;
  flags = o.op_flags;
  key_media_type = media_id_octet_stream;
  value_media_type = media_id_octet_stream;
  key_bytes = some o.key;
  write_body = write_lp_bytes o.key;
  decode_response = λ status. pure (not (status == status_key_does_not_exist));
}

pub record RemoveResponse : Type 0 where
  pub existed : Bool
  pub previous_value : Option Bytes

unfoldable pub decode_remove : ℕ → Read RemoveResponse
decode_remove status =
    if status == status_success_with_previous
    then (do
      prev ← read_metadata_value
      pure (record { existed = true; previous_value = some prev }))
    else pure
        (record { existed = not (status == status_key_does_not_exist); previous_value = none })

unfoldable pub remove : KeyOp → Operation RemoveResponse
remove o = record {
  request_op_code = 0x0b;
  response_op_code = 0x0c;
  cache_name = o.cache;
  flags = o.op_flags;
  key_media_type = media_type_or_default o.key_mt;
  value_media_type = media_type_or_default o.value_mt;
  key_bytes = some o.key;
  write_body = write_lp_bytes o.key;
  decode_response = decode_remove;
}
