-- ===== src/Operation/Bulk.antt =====
-- The operations on many entries or a whole cache: putall.go, getall.go, size.go and clear.go.
use go_client.Prelude.{ℕ, List, [], none, length, u32}
use go_client.Io.{Bytes, Read, ◌>>=◌, pure, Write, wrote, ◌>>◌, write_each}
use go_client.Codec.Constants.{media_id_octet_stream}
use go_client.Codec.VarInt.{write_vint, read_vint}
use go_client.Codec.Wire.{write_lp_bytes, read_lp_bytes}
use go_client.Codec.TimeUnits.{encode_time_units, write_time_units}
use go_client.Codec.Header.{read_slice}
use go_client.Operation.Interface.{Operation}

-- The entries of PutAllOp and GetAllOp: a key and a value.
abbrev pub BulkEntry : Type 0
BulkEntry = Bytes × Bytes

unfoldable pub write_pair : BulkEntry → Write
write_pair (key, value) = do write_lp_bytes key; write_lp_bytes value

pub record PutAllOp : Type 0 where
  pub cache : Bytes
  pub entries : List BulkEntry
  pub lifespan : ℕ
  pub max_idle : ℕ

unfoldable pub write_put_all : PutAllOp → Write
unfolding write_pair
write_put_all o = do
  write_time_units (encode_time_units o.lifespan o.max_idle)
  write_vint (u32 (length o.entries))
  write_each write_pair o.entries

unfoldable pub put_all : PutAllOp → Operation (Unit {0})
put_all o = record {
  request_op_code = 0x2d;
  response_op_code = 0x2e;
  cache_name = o.cache;
  flags = 0;
  key_media_type = media_id_octet_stream;
  value_media_type = media_id_octet_stream;
  key_bytes = none;
  write_body = write_put_all o;
  decode_response = λ status. pure tt;
}

pub record GetAllOp : Type 0 where
  pub cache : Bytes
  pub keys : List Bytes

unfoldable pub write_get_all : GetAllOp → Write
write_get_all o = do write_vint (u32 (length o.keys)); write_each write_lp_bytes o.keys

unfoldable pub read_pair : ℕ → Read BulkEntry
read_pair i = do key ← read_lp_bytes; value ← read_lp_bytes; pure (key, value)

unfoldable pub decode_get_all : ℕ → Read (List BulkEntry)
decode_get_all status = do count ← read_vint; read_slice count read_pair

unfoldable pub get_all : GetAllOp → Operation (List BulkEntry)
get_all o = record {
  request_op_code = 0x2f;
  response_op_code = 0x30;
  cache_name = o.cache;
  flags = 0;
  key_media_type = media_id_octet_stream;
  value_media_type = media_id_octet_stream;
  key_bytes = none;
  write_body = write_get_all o;
  decode_response = decode_get_all;
}

unfoldable pub clear : Bytes → Operation (Unit {0})
clear cache = record {
  request_op_code = 0x13;
  response_op_code = 0x14;
  cache_name = cache;
  flags = 0;
  key_media_type = 0;
  value_media_type = 0;
  key_bytes = none;
  write_body = wrote [];
  decode_response = λ status. pure tt;
}

unfoldable pub size : Bytes → Operation ℕ
size cache = record {
  request_op_code = 0x29;
  response_op_code = 0x2a;
  cache_name = cache;
  flags = 0;
  key_media_type = 0;
  value_media_type = 0;
  key_bytes = none;
  write_body = wrote [];
  decode_response = λ status. read_vint;
}
