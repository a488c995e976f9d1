-- ===== src/Operation/Iteration.antt =====
-- internal/operation/iteration.go: the operations of an iteration over a cache.
use go_client.Prelude.{
  ℕ, List, [], Bool, true, false, not, Option, none, some, bit_and, ◌==◌, if◌then◌else◌,
  minus_one32,
}
use go_client.Io.{Bytes, message, Read, ◌>>=◌, pure, throw, context, context_at, Write, ◌>>◌}
use go_client.Codec.Constants.{media_id_octet_stream, status_invalid_iteration}
use go_client.Codec.VarInt.{write_vint, read_vint}
use go_client.Codec.Wire.{
  EntryMetadata, write_lp_bytes, read_lp_bytes, write_u1, read_u1, read_long, write_signed_vint,
}
use go_client.Codec.Header.{read_slice}
use go_client.Operation.Interface.{Operation}

pub record IterationStartOp : Type 0 where
  pub cache : Bytes
  pub batch_size : ℕ
  pub include_metadata : Bool

unfoldable pub write_iteration_start : IterationStartOp → Write
write_iteration_start o = do
  write_signed_vint minus_one32
  write_signed_vint minus_one32
  write_vint o.batch_size
  write_u1 (if o.include_metadata then 1 else 0)

unfoldable pub decode_iteration_start : ℕ → Read Bytes
decode_iteration_start status = do id ← context "read iteration id" read_lp_bytes; pure id

unfoldable pub iteration_start : IterationStartOp → Operation Bytes
iteration_start o = record {
  request_op_code = 0x31;
  response_op_code = 0x32;
  cache_name = o.cache;
  flags = 0;
  key_media_type = media_id_octet_stream;
  value_media_type = media_id_octet_stream;
  key_bytes = none;
  write_body = write_iteration_start o;
  decode_response = decode_iteration_start;
}

pub record IterEntry : Type 0 where
  pub key : Bytes
  pub value : Bytes
  pub metadata : Option EntryMetadata

pub record IterationNextResponse : Type 0 where
  pub entries : List IterEntry
  pub has_more : Bool

-- A time and a duration, which a flag leaves out.
unfoldable pub read_iter_expiry : Bool → Read (ℕ × ℕ)
read_iter_expiry flagged =
    if flagged then pure (0, minus_one32) else (do t ← read_long; n ← read_vint; pure (t, n))

unfoldable pub read_iter_metadata : Read EntryMetadata
read_iter_metadata = do
  flags ← read_u1
  (created, lifespan) ← read_iter_expiry (not (bit_and flags 0x01 == 0))
  (last_used, max_idle) ← read_iter_expiry (not (bit_and flags 0x02 == 0))
  version ← read_long
  pure (record {
    created = created;
    lifespan = lifespan;
    last_used = last_used;
    max_idle = max_idle;
    version = version;
  })

-- The metadata of entry `i`, where its flag is 1.
unfoldable pub read_meta_field : ℕ → Read (Option EntryMetadata)
read_meta_field i = do
  meta_flag ← context_at "read entry meta flag" i read_u1
  if meta_flag == 1
      then (do md ← context_at "read entry metadata" i read_iter_metadata; pure (some md))
      else pure none

unfoldable pub read_iter_entry : ℕ → Read IterEntry
read_iter_entry i = do
  md ← read_meta_field i
  key ← context_at "read entry key" i read_lp_bytes
  value ← context_at "read entry value" i read_lp_bytes
  pure (record { key = key; value = value; metadata = md })

unfoldable pub decode_iteration_next : ℕ → Read IterationNextResponse
decode_iteration_next status =
    if status == status_invalid_iteration
    then throw (message "invalid iteration: server cursor expired or unknown")
    else (do
      _ ← context "read finished segments" read_lp_bytes
      entries_size ← context "read entries size" read_vint
      if entries_size == 0 then pure (record { entries = []; has_more = false }) else (do
        _ ← context "read projections size" read_vint
        entries ← read_slice entries_size read_iter_entry
        pure (record { entries = entries; has_more = true })))

unfoldable pub iteration_next : Bytes → Bytes → Operation IterationNextResponse
iteration_next cache iteration_id = record {
  request_op_code = 0x33;
  response_op_code = 0x34;
  cache_name = cache;
  flags = 0;
  key_media_type = media_id_octet_stream;
  value_media_type = media_id_octet_stream;
  key_bytes = none;
  write_body = write_lp_bytes iteration_id;
  decode_response = decode_iteration_next;
}

unfoldable pub iteration_end : Bytes → Bytes → Operation (Unit {0})
iteration_end cache iteration_id = record {
  request_op_code = 0x35;
  response_op_code = 0x36;
  cache_name = cache;
  flags = 0;
  key_media_type = media_id_octet_stream;
  value_media_type = media_id_octet_stream;
  key_bytes = none;
  write_body = write_lp_bytes iteration_id;
  decode_response = λ status. pure tt;
}
