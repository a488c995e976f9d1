-- ===== src/Operation/Multimap.antt =====
-- internal/operation/multimap.go: the operations on a multimap.
pub mod RoundTrip
use go_client.Prelude.{
  ℕ, List, [], Option, none, some, Bool, true, false, ◌==◌, if◌then◌else◌, ◌-◌, ◌^◌,
}
use go_client.Io.{Bytes, Read, ◌>>=◌, pure, Write, ◌>>◌}
use go_client.Codec.Constants.{media_id_octet_stream, status_key_does_not_exist}
use go_client.Codec.VarInt.{read_vint, read_vlong}
use go_client.Codec.Wire.{
  EntryMetadata, write_lp_bytes, read_lp_bytes, write_u1, read_u1, read_metadata,
}
use go_client.Codec.TimeUnits.{TimeUnits, encode_time_units, write_time_units}
use go_client.Codec.Header.{read_slice}
use go_client.Operation.Interface.{Operation}

unfoldable pub write_supports_duplicates : Bool → Write
write_supports_duplicates v = if v then write_u1 1 else write_u1 0

unfoldable pub decode_bool_response : ℕ → Read Bool
decode_bool_response status =
    if status == status_key_does_not_exist then pure false else (do b ← read_u1; pure (b == 1))

-- `EncodeTimeUnits(-1, -1)`
abbrev pub infinite_time_units : TimeUnits
infinite_time_units = encode_time_units (2 ^ 64 - 1) (2 ^ 64 - 1)

-- The fields of the operations on one key: MultimapGetOp, MultimapGetWithMetadataOp, MultimapRemoveKeyOp and
-- MultimapContainsKeyOp.
pub record MultimapKeyOp : Type 0 where
  pub cache : Bytes
  pub key : Bytes
  pub supports_duplicates : Bool

unfoldable pub write_multimap_key : MultimapKeyOp → Write
write_multimap_key o = do write_lp_bytes o.key; write_supports_duplicates o.supports_duplicates

unfoldable pub read_values : Read (List Bytes)
read_values = do count ← read_vint; values ← read_slice count (λ i. read_lp_bytes); pure values

unfoldable pub decode_multimap_get : ℕ → Read (List Bytes)
decode_multimap_get status = if status == status_key_does_not_exist then pure [] else read_values

unfoldable pub multimap_get : MultimapKeyOp → Operation (List Bytes)
multimap_get o = record {
  request_op_code = 0x67;
  response_op_code = 0x68;
  cache_name = o.cache;
  flags = 0;
  key_media_type = media_id_octet_stream;
  value_media_type = media_id_octet_stream;
  key_bytes = some o.key;
  write_body = write_multimap_key o;
  decode_response = decode_multimap_get;
}

pub record MultimapGetWithMetadataResponse : Type 0 where
  pub values : List Bytes
  pub metadata : Option EntryMetadata
  pub found : Bool

-- Behind the metadata, whose value is dropped, come the number of values and the values.
unfoldable pub decode_multimap_get_with_metadata : ℕ → Read MultimapGetWithMetadataResponse
decode_multimap_get_with_metadata status =
    if status == status_key_does_not_exist
    then pure (record { values = []; metadata = none; found = false })
    else (do
      (md, value) ← read_metadata
      values ← read_values
      pure (record { values = values; metadata = some md; found = true }))

unfoldable pub multimap_get_with_metadata :
    MultimapKeyOp → Operation MultimapGetWithMetadataResponse
multimap_get_with_metadata o = record {
  request_op_code = 0x69;
  response_op_code = 0x6a;
  cache_name = o.cache;
  flags = 0;
  key_media_type = media_id_octet_stream;
  value_media_type = media_id_octet_stream;
  key_bytes = some o.key;
  write_body = write_multimap_key o;
  decode_response = decode_multimap_get_with_metadata;
}

pub record MultimapPutOp : Type 0 where
  pub cache : Bytes
  pub key : Bytes
  pub value : Bytes
  pub lifespan : ℕ
  pub max_idle : ℕ
  pub supports_duplicates : Bool

unfoldable pub write_multimap_put : MultimapPutOp → Write
write_multimap_put o = do
  write_lp_bytes o.key
  write_time_units (encode_time_units o.lifespan o.max_idle)
  write_lp_bytes o.value
  write_supports_duplicates o.supports_duplicates

unfoldable pub multimap_put : MultimapPutOp → Operation (Unit {0})
multimap_put o = record {
  request_op_code = 0x6b;
  response_op_code = 0x6c;
  cache_name = o.cache;
  flags = 0;
  key_media_type = media_id_octet_stream;
  value_media_type = media_id_octet_stream;
  key_bytes = some o.key;
  write_body = write_multimap_put o;
  decode_response = λ status. pure tt;
}

unfoldable pub multimap_remove_key : MultimapKeyOp → Operation Bool
multimap_remove_key o = record {
  request_op_code = 0x6d;
  response_op_code = 0x6e;
  cache_name = o.cache;
  flags = 0;
  key_media_type = media_id_octet_stream;
  value_media_type = media_id_octet_stream;
  key_bytes = some o.key;
  write_body = write_multimap_key o;
  decode_response = decode_bool_response;
}

-- The fields of MultimapRemoveEntryOp and MultimapContainsEntryOp.
pub record MultimapEntryOp : Type 0 where
  pub cache : Bytes
  pub key : Bytes
  pub value : Bytes
  pub supports_duplicates : Bool

unfoldable pub write_multimap_entry : MultimapEntryOp → Write
write_multimap_entry o = do
  write_lp_bytes o.key
  write_time_units infinite_time_units
  write_lp_bytes o.value
  write_supports_duplicates o.supports_duplicates

unfoldable pub multimap_remove_entry : MultimapEntryOp → Operation Bool
multimap_remove_entry o = record {
  request_op_code = 0x6f;
  response_op_code = 0x70;
  cache_name = o.cache;
  flags = 0;
  key_media_type = media_id_octet_stream;
  value_media_type = media_id_octet_stream;
  key_bytes = some o.key;
  write_body = write_multimap_entry o;
  decode_response = decode_bool_response;
}

unfoldable pub multimap_size : Bytes → Bool → Operation ℕ
multimap_size cache supports_duplicates = record {
  request_op_code = 0x71;
  response_op_code = 0x72;
  cache_name = cache;
  flags = 0;
  key_media_type = 0;
  value_media_type = 0;
  key_bytes = none;
  write_body = write_supports_duplicates supports_duplicates;
  decode_response = λ status. read_vlong;
}

unfoldable pub multimap_contains_entry : MultimapEntryOp → Operation Bool
multimap_contains_entry o = record {
  request_op_code = 0x73;
  response_op_code = 0x74;
  cache_name = o.cache;
  flags = 0;
  key_media_type = media_id_octet_stream;
  value_media_type = media_id_octet_stream;
  key_bytes = some o.key;
  write_body = write_multimap_entry o;
  decode_response = decode_bool_response;
}

unfoldable pub multimap_contains_key : MultimapKeyOp → Operation Bool
multimap_contains_key o = record {
  request_op_code = 0x75;
  response_op_code = 0x76;
  cache_name = o.cache;
  flags = 0;
  key_media_type = media_id_octet_stream;
  value_media_type = media_id_octet_stream;
  key_bytes = some o.key;
  write_body = write_multimap_key o;
  decode_response = decode_bool_response;
}

unfoldable pub write_multimap_value : Bytes → Bool → Write
write_multimap_value value supports_duplicates = do
  write_time_units infinite_time_units
  write_lp_bytes value
  write_supports_duplicates supports_duplicates

unfoldable pub multimap_contains_value : Bytes → Bytes → Bool → Operation Bool
multimap_contains_value cache value supports_duplicates = record {
  request_op_code = 0x77;
  response_op_code = 0x78;
  cache_name = cache;
  flags = 0;
  key_media_type = 0;
  value_media_type = media_id_octet_stream;
  key_bytes = none;
  write_body = write_multimap_value value supports_duplicates;
  decode_response = decode_bool_response;
}
