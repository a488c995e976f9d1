-- ===== src/Codec/Header.antt =====
-- internal/codec/header.go: request and response headers, and the topology that a response may carry.
pub mod Request
pub mod Topology
pub mod Response
use go_client.Prelude.{
  ℕ, zero, suc, ◌+◌, ◌-◌, ◌/◌, ◌%◌, ◌^◌, List, [], ◌∷◌, ◌++◌, Option, none, some, Bool, not, ltb,
  ◌==◌, ◌&&◌, if◌then◌else◌, is_negative32, int_of32,
}
use go_client.Io.{
  Bytes, Error, message_at, wrap_at, Read, ◌>>=◌, pure, throw, crash, context, context_at, Write,
  wrote, ◌>>◌, read_times,
}
use go_client.Codec.Constants.{
  request_magic, response_magic, version_41, intelligence_hash_dist_aware,
}
use go_client.Codec.VarInt.{write_vint, write_vlong, read_vint, read_vlong}
use go_client.Codec.Wire.{
  write_u1, read_u1, read_u2, write_lp_bytes, read_lp_string, write_media_type_none,
  write_media_type_predefined,
}

pub record RequestHeader : Type 0 where
  pub message_id : ℕ
  pub op_code : ℕ
  pub version : ℕ
  pub cache_name : Bytes
  pub flags : ℕ
  pub client_intelligence : ℕ
  pub topology_id : ℕ
  pub key_media_type : ℕ
  pub value_media_type : ℕ

pub record ServerAddress : Type 0 where
  pub host : Bytes
  pub port : ℕ

-- `segment_owners` is `none` where the Go slice stays nil.
pub record TopologyUpdate : Type 0 where
  pub id : ℕ
  pub servers : List ServerAddress
  pub hash_function_version : ℕ
  pub num_segments : ℕ
  pub segment_owners : Option (List (List ℕ))

pub record ResponseHeader : Type 0 where
  pub message_id : ℕ
  pub op_code : ℕ
  pub status : ℕ
  pub topology_update : Option TopologyUpdate

-- The digits of `%d` for a number below 10 ^ fuel.
unfoldable pub digits : ℕ → ℕ → Bytes
digits zero n = []
digits (suc fuel) n =
    let rest = digits fuel (n / 10) in
    if ltb n 10 then (b'0' + n) ∷ [] else rest ++ (b'0' + n % 10) ∷ []

-- `fmt.Sprintf("%s:%d", a.Host, a.Port)`; a uint16 has five digits at most.
unfoldable pub addr : ServerAddress → Bytes
unfolding digits
addr a = a.host ++ b':' ∷ digits 5 a.port

-- `mediaType > 0` for an int32
unfoldable pub write_media_type_field : ℕ → Write
write_media_type_field media_type =
    if ltb 0 media_type && not (is_negative32 media_type)
    then write_media_type_predefined media_type
    else write_media_type_none

unfoldable pub write_request_header : RequestHeader → Write
write_request_header h = do
  write_u1 request_magic
  write_vlong h.message_id
  write_u1 (if h.version == 0 then version_41 else h.version)
  write_u1 h.op_code
  write_lp_bytes h.cache_name
  write_vint h.flags
  write_u1 h.client_intelligence
  write_vint h.topology_id
  write_media_type_field h.key_media_type
  write_media_type_field h.value_media_type
  write_vint 0

-- `make([]T, n)` before a loop of n rounds: a negative n panics.
unfoldable pub read_slice {ℓ} : {A : Type ℓ} → ℕ → (ℕ → Read A) → Read (List A)
read_slice n r = if is_negative32 n then crash else read_times n 0 r

unfoldable pub read_server : ℕ → Read ServerAddress
read_server i = do
  host ← context_at "read server host" i read_lp_string
  port ← context_at "read server port" i read_u2
  pure (record { host = host; port = port })

-- Owner `j` of segment `i`, an index into the servers.
unfoldable pub read_owner : ℕ → ℕ → Read ℕ
read_owner i j = do
  idx ← context_at "read segment owner" j (context_at "of segment" i read_vint)
  pure (int_of32 idx)

unfoldable pub read_owners : ℕ → Read (List ℕ)
read_owners i = do
  num_owners ← context_at "read segment num owners" i read_u1
  read_times num_owners 0 (read_owner i)

unfoldable pub read_segments : ℕ → ℕ → Read (Option (List (List ℕ)))
read_segments hash_version num_segments =
    if ltb 0 hash_version
    then (do owners ← read_slice num_segments read_owners; pure (some owners))
    else pure none

-- The part of a topology that only a hash-aware client is sent.
unfoldable pub read_distribution : ℕ → List ServerAddress → ℕ → Read TopologyUpdate
read_distribution topo_id servers client_intelligence =
    if client_intelligence == intelligence_hash_dist_aware
    then (do
      hash_version ← context "read hash function version" read_u1
      num_segments ← context "read num segments" read_vint
      owners ← read_segments hash_version num_segments
      pure (record {
        id = topo_id;
        servers = servers;
        hash_function_version = hash_version;
        num_segments = int_of32 num_segments;
        segment_owners = owners;
      }))
    else pure (record {
      id = topo_id;
      servers = servers;
      hash_function_version = 0;
      num_segments = 0;
      segment_owners = none;
    })

unfoldable pub read_topology_update : ℕ → Read TopologyUpdate
read_topology_update client_intelligence = do
  topo_id ← context "read topology id" read_vint
  num_servers ← context "read num servers" read_vint
  servers ← read_slice num_servers read_server
  read_distribution topo_id servers client_intelligence

-- The marker, and what follows it if it is not 0.
unfoldable pub read_topology_field : ℕ → Read (Option TopologyUpdate)
read_topology_field client_intelligence = do
  marker ← context "read topology change marker" read_u1
  if marker == 0 then pure none else (do
    topo ← context "read topology update" (read_topology_update client_intelligence)
    pure (some topo))

unfoldable pub read_response_header : ℕ → Read ResponseHeader
read_response_header client_intelligence = do
  magic ← context "read magic" read_u1
  if magic == response_magic
      then (do
        msg_id ← context "read message id" read_vlong
        opcode ← context "read opcode" read_u1
        status ← context "read status" read_u1
        topo ← read_topology_field client_intelligence
        pure (record {
          message_id = msg_id;
          op_code = opcode;
          status = status;
          topology_update = topo;
        }))
      else throw (message_at "invalid response magic" magic)

unfoldable pub read_error_message : Read Bytes
read_error_message = read_lp_string
