-- ===== src/Codec/Header/Request.antt =====
-- The request header against a server's reader of the Hot Rod 4.1 request header.
use go_client.Prelude.{
  ℕ, ◌^◌, ◌<◌, ltb, ◌==◌, ◌&&◌, if◌then◌else◌, not, arith, IsU32, Bool-cases, inl, inr, length,
  is_negative32,
}
use go_client.Io.{Read, ◌>>=◌, pure, throw, message_at}
use go_client.Io.Encodes.{Encodes, Encodes-bind, Encodes-map, Encodes-pure}
use go_client.Codec.VarInt.{read_vint, read_vlong}
use go_client.Codec.VarInt.RoundTrip.{vint-Encodes, vlong-Encodes}
use go_client.Codec.Wire.{
  read_u1, read_lp_bytes, write_media_type_predefined, write_media_type_none,
}
use go_client.Codec.Wire.RoundTrip.{byte-Encodes, u1-Encodes, lp_bytes-Encodes}
use go_client.Codec.Header.{RequestHeader, write_request_header, write_media_type_field}

-- A media type field: its kind, and for a predefined type the identifier and the count of parameters.
unfoldable pub read_media_type_field : Read ℕ
read_media_type_field = do
  kind ← read_u1
  if kind == 0 then pure 0 else (do id ← read_vint; _ ← read_vint; pure id)

unfoldable pub read_request_header : Read RequestHeader
read_request_header = do
  magic ← read_u1
  if magic == 0xa0
      then (do
        message_id ← read_vlong
        version ← read_u1
        op_code ← read_u1
        cache_name ← read_lp_bytes
        flags ← read_vint
        client_intelligence ← read_u1
        topology_id ← read_vint
        key_media_type ← read_media_type_field
        value_media_type ← read_media_type_field
        _ ← read_vint
        pure (record {
          message_id = message_id;
          version = version;
          op_code = op_code;
          cache_name = cache_name;
          flags = flags;
          client_intelligence = client_intelligence;
          topology_id = topology_id;
          key_media_type = key_media_type;
          value_media_type = value_media_type;
        }))
      else throw (message_at "magic" magic)

-- A media type that is not positive means none.
unfoldable pub positive_or_none : ℕ → ℕ
positive_or_none m = if ltb 0 m && not (is_negative32 m) then m else 0

-- What the server is told: version 0 stands for 4.1.
unfoldable pub received : RequestHeader → RequestHeader
unfolding positive_or_none
received h = record h {
  version = if h.version == 0 then 41 else h.version;
  key_media_type = positive_or_none h.key_media_type;
  value_media_type = positive_or_none h.value_media_type;
}

-- The ranges of the Go types, a message id that is not negative, and a cache name that an int32 counts.
pub record IsSendable (h : RequestHeader) : Type 0 where
  pub message_id : h.message_id < 2 ^ 63
  pub cache_name : length h.cache_name < 2 ^ 31
  pub flags : IsU32 h.flags
  pub topology_id : IsU32 h.topology_id
  pub key_media_type : IsU32 h.key_media_type
  pub value_media_type : IsU32 h.value_media_type

media_type_field-Encodes :
    (m : ℕ)
    → IsU32 m
    → Encodes (write_media_type_field m) read_media_type_field (positive_or_none m)
unfolding write_media_type_field read_media_type_field positive_or_none write_media_type_predefined
    write_media_type_none
media_type_field-Encodes m h = elim (Bool-cases (ltb 0 m && not (is_negative32 m))) [
  | inl positive ↦ rw positive (
      Encodes-bind _ (byte-Encodes 1)
        (Encodes-bind _ (vint-Encodes m h) (Encodes-map (λ _. m) (vint-Encodes 0 (omega arith)))))
  | inr other ↦ rw other (Encodes-bind _ (byte-Encodes 0) (Encodes-pure 0))
]

-- Where the fields are in the ranges of their types, with a message id that is not negative and a cache
-- name of fewer than 2 ^ 31 bytes, the server reads back every field that the client meant to send, and
-- writing the header does not panic.
pub request_header-Encodes :
    (h : RequestHeader)
    → IsSendable h
    → Encodes (write_request_header h) read_request_header (received h)
unfolding write_request_header read_request_header received
request_header-Encodes h s = Encodes-bind _ (u1-Encodes 0xa0) (
    Encodes-bind _ (vlong-Encodes _ s.message_id) (
      Encodes-bind _ (u1-Encodes _) (
        Encodes-bind _ (u1-Encodes _) (
          Encodes-bind _ (lp_bytes-Encodes _ s.cache_name) (
            Encodes-bind _ (vint-Encodes _ s.flags) (
              Encodes-bind _ (u1-Encodes _) (
                Encodes-bind _ (vint-Encodes _ s.topology_id) (
                  Encodes-bind _ (media_type_field-Encodes _ s.key_media_type) (
                    Encodes-bind _ (media_type_field-Encodes _ s.value_media_type)
                      (Encodes-map _ (vint-Encodes 0 (omega arith))))))))))))
