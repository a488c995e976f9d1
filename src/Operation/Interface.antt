-- ===== src/Operation/Interface.antt =====
-- internal/operation/operation.go: the interfaces Operation and KeyedOperation.
use go_client.Prelude.{ℕ, Option, ◌==◌, if◌then◌else◌}
use go_client.Io.{Bytes, Read, Write}
use go_client.Codec.Constants.{media_id_octet_stream}

-- `R` is the type of the values that DecodeResponse returns.
pub record Operation (R : Type 0) : Type 0 where
  pub request_op_code : ℕ
  pub response_op_code : ℕ
  pub cache_name : Bytes
  pub flags : ℕ
  pub key_media_type : ℕ
  pub value_media_type : ℕ
  pub key_bytes : Option Bytes
  pub write_body : Write
  pub decode_response : ℕ → Read R

-- A media type of the caller, or octet-stream where it is left 0.
abbrev pub media_type_or_default : ℕ → ℕ
media_type_or_default mt = if mt == 0 then media_id_octet_stream else mt
