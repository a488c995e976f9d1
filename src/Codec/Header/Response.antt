-- ===== src/Codec/Header/Response.antt =====
-- Response headers, as a server that follows the protocol writes them.
use go_client.Prelude.{ℕ, ◌^◌, ◌<◌, ◌==◌, IsU32, length, List, All, Option, none, some}
use go_client.Io.{Write, ◌>>◌}
use go_client.Io.Encodes.{Encodes, Encodes-bind, Encodes-map, Encodes-pure, Encodes-context}
use go_client.Codec.VarInt.{write_vlong}
use go_client.Codec.VarInt.RoundTrip.{vlong-Encodes}
use go_client.Codec.Wire.{write_u1}
use go_client.Codec.Wire.RoundTrip.{u1-Encodes}
use go_client.Codec.Header.{
  ServerAddress, TopologyUpdate, read_topology_field, read_response_header,
}
use go_client.Codec.Header.Topology.{
  Distribution, IsServer, IsDistribution, topology, write_topology, topology-Encodes,
}

-- The topology that a response carries, if it carries one.
unfoldable pub write_topology_field : Option (ℕ × List ServerAddress × Distribution) → Write
write_topology_field none = write_u1 0
write_topology_field (some (id, servers, d)) = do write_u1 1; write_topology id servers d

unfoldable pub topology_field :
    Option (ℕ × List ServerAddress × Distribution) → Option TopologyUpdate
topology_field none = none
topology_field (some (id, servers, d)) = some (topology id servers d)

abbrev IsTopology : ℕ → Option (ℕ × List ServerAddress × Distribution) → Type 0
IsTopology ci none = Unit
IsTopology ci (some (id, servers, d)) =
    IsU32 id × (length servers < 2 ^ 31) × All IsServer servers × IsDistribution (ci == 3) d

unfoldable pub write_response_header :
    ℕ → ℕ → ℕ → Option (ℕ × List ServerAddress × Distribution) → Write
write_response_header message_id op_code status t = do
  write_u1 0xa1
  write_vlong message_id
  write_u1 op_code
  write_u1 status
  write_topology_field t

topology_field-Encodes :
    (ci : ℕ) (t : Option (ℕ × List ServerAddress × Distribution))
    → IsTopology ci t
    → Encodes (write_topology_field t) (read_topology_field ci) (topology_field t)
unfolding write_topology_field read_topology_field topology_field write_u1
topology_field-Encodes ci none h =
    Encodes-bind _ (Encodes-context _ (u1-Encodes 0)) (Encodes-pure none)
topology_field-Encodes ci (some (id, servers, d)) (hid, short, hs, hd) =
    Encodes-bind _ (Encodes-context _ (u1-Encodes 1))
      (Encodes-map some (Encodes-context _ (topology-Encodes ci id servers d hid short hs hd)))

-- ReadResponseHeader reads back the header that the server wrote, its topology change included, where the
-- message id is not negative and the topology is in the ranges of the protocol.
pub response_header-Encodes :
    (ci message_id op_code status : ℕ) (t : Option (ℕ × List ServerAddress × Distribution))
    → message_id < 2 ^ 63
    → IsTopology ci t
    → Encodes
        (write_response_header message_id op_code status t)
        (read_response_header ci)
        (record {
          message_id = message_id;
          op_code = op_code;
          status = status;
          topology_update = topology_field t;
        })
unfolding write_response_header read_response_header
response_header-Encodes ci message_id op_code status t hm ht =
    Encodes-bind _ (Encodes-context _ (u1-Encodes 0xa1)) (
      Encodes-bind _ (Encodes-context _ (vlong-Encodes message_id hm)) (
        Encodes-bind _ (Encodes-context _ (u1-Encodes op_code)) (
          Encodes-bind _ (Encodes-context _ (u1-Encodes status))
            (Encodes-map _ (topology_field-Encodes ci t ht)))))
