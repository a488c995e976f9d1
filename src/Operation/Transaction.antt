-- ===== src/Operation/Transaction.antt =====
-- internal/operation/transaction.go: prepare, commit and roll back a transaction.
pub mod Server
use go_client.Prelude.{ℕ, List, [], Bool, none, length, u32, bit_and, ◌==◌, ◌&&◌, if◌then◌else◌}
use go_client.Io.{Bytes, Read, ◌>>=◌, pure, context, Write, wrote, ◌>>◌, write_each}
use go_client.Codec.Constants.{media_id_octet_stream}
use go_client.Codec.VarInt.{write_vint}
use go_client.Codec.Wire.{write_lp_bytes, write_u1, write_long, write_signed_vint, read_int32}
use go_client.Codec.TimeUnits.{encode_time_units, write_time_units}
use go_client.Operation.Interface.{Operation}

abbrev pub ctrl_not_read : ℕ
ctrl_not_read = 0x01

abbrev pub ctrl_non_existing : ℕ
ctrl_non_existing = 0x02

abbrev pub ctrl_remove_op : ℕ
ctrl_remove_op = 0x04

pub record TxModification : Type 0 where
  pub key : Bytes
  pub value : Bytes
  pub version_read : ℕ
  pub control : ℕ
  pub lifespan : ℕ
  pub max_idle : ℕ

-- The transaction identifier of the XA protocol, which the three operations begin with.
pub record Xid : Type 0 where
  pub format_id : ℕ
  pub global_tx_id : Bytes
  pub branch_qual : Bytes

pub record PrepareTx2Op : Type 0 where
  pub cache : Bytes
  pub xid : Xid
  pub one_phase_commit : Bool
  pub timeout_ms : ℕ
  pub modifications : List TxModification

unfoldable pub write_xid : Xid → Write
write_xid x = do
  write_signed_vint x.format_id
  write_lp_bytes x.global_tx_id
  write_lp_bytes x.branch_qual

-- The version that was read, unless the key was not read or did not exist.
unfoldable pub write_version_read : TxModification → Write
write_version_read m =
    if bit_and m.control ctrl_non_existing == 0 && bit_and m.control ctrl_not_read == 0
    then write_long m.version_read
    else wrote []

-- The new value, unless the key is removed.
unfoldable pub write_new_value : TxModification → Write
write_new_value m =
    if bit_and m.control ctrl_remove_op == 0
    then (write_time_units (encode_time_units m.lifespan m.max_idle) >> write_lp_bytes m.value)
    else wrote []

unfoldable pub write_modification : TxModification → Write
write_modification m = do
  write_lp_bytes m.key
  write_u1 m.control
  write_version_read m
  write_new_value m

unfoldable pub write_prepare_tx : PrepareTx2Op → Write
write_prepare_tx o = do
  write_xid o.xid
  write_u1 (if o.one_phase_commit then 1 else 0)
  write_u1 0
  write_long o.timeout_ms
  write_vint (u32 (length o.modifications))
  write_each write_modification o.modifications

-- The DecodeResponse of the three operations.
unfoldable pub decode_xa_code : ℕ → Read ℕ
decode_xa_code status = do code ← context "read xa return code" read_int32; pure code

unfoldable pub prepare_tx : PrepareTx2Op → Operation ℕ
prepare_tx o = record {
  request_op_code = 0x7d;
  response_op_code = 0x7e;
  cache_name = o.cache;
  flags = 0;
  key_media_type = media_id_octet_stream;
  value_media_type = media_id_octet_stream;
  key_bytes = none;
  write_body = write_prepare_tx o;
  decode_response = decode_xa_code;
}

unfoldable pub commit_tx : Xid → Operation ℕ
commit_tx x = record {
  request_op_code = 0x3d;
  response_op_code = 0x3e;
  cache_name = [];
  flags = 0;
  key_media_type = 0;
  value_media_type = 0;
  key_bytes = none;
  write_body = write_xid x;
  decode_response = decode_xa_code;
}

unfoldable pub rollback_tx : Xid → Operation ℕ
rollback_tx x = record {
  request_op_code = 0x3f;
  response_op_code = 0x40;
  cache_name = [];
  flags = 0;
  key_media_type = 0;
  value_media_type = 0;
  key_bytes = none;
  write_body = write_xid x;
  decode_response = decode_xa_code;
}
