-- ===== src/Connection/Pool.antt =====
-- internal/connection/pool.go: the servers of the cluster, a connection for each, and the routing of
-- operations. A method that holds `mu` is one step. Dial has dialAndSetup, Calls what the methods do that
-- dial and send; the waiting for responses is not modelled.
pub mod Routing
pub mod Departures
pub mod Dial
pub mod Calls
use go_client.Prelude.{
  ℕ, ◌^◌, List, [], ◌∷◌, ◌++◌, map, Option, none, some, Bool, true, false, ◌==◌, ◌&&◌, not, ltb,
  if◌then◌else◌, is_empty, get_or, is_negative64, find, store, discard, bytes_discrete,
}
use go_client.Io.{Bytes}
use go_client.Codec.Header.{TopologyUpdate, addr}
use go_client.Hash.ConsistentHash.{ConsistentHash, new_consistent_hash, primary_owner}
use go_client.Operation.{Operation}
use go_client.Connection.Balancer.{Balancer, new_balancer, next, set_servers}
use go_client.Connection.Conn.{Conn, drain}
use mathlib.Core.Logic.{ite}

-- `listener_states` has the address at which a listener, by its identifier's bytes, was registered;
-- `retired` holds the connections that were taken out of `conns` and drain: their read loops go on.
pub record Pool (V : Type 0) : Type 0 where
  pub conns : List (Bytes × Conn V)
  pub retired : List (Conn V)
  pub balancer : Balancer
  pub consistent_hashes : List (Bytes × ConsistentHash)
  pub listener_states : List (Bytes × Bytes)
  pub topo_id : ℕ

-- `newSet[addr]`
unfoldable pub contains : Bytes → List Bytes → Bool
contains a [] = false
contains a (b ∷ bs) = ite (bytes_discrete b a) true (contains a bs)

-- The address of an owner, an int: empty past the end, and `none` for the panic on a negative index.
unfoldable pub owner_addr : List Bytes → ℕ → Option Bytes
owner_addr addrs idx = if is_negative64 idx then none else some (get_or addrs idx [])

unfoldable pub owner_addrs : List Bytes → List ℕ → Option (List Bytes)
owner_addrs addrs [] = some []
owner_addrs addrs (idx ∷ owners) = elim (owner_addr addrs idx) [
  | none ↦ none
  | some a ↦ elim (owner_addrs addrs owners) [ none ↦ none | some rest ↦ some (a ∷ rest) ]
]

unfoldable pub segment_addrs : List Bytes → List (List ℕ) → Option (List (List Bytes))
segment_addrs addrs [] = some []
segment_addrs addrs (owners ∷ segments) = elim (owner_addrs addrs owners) [
  | none ↦ none
  | some o ↦ elim (segment_addrs addrs segments) [ none ↦ none | some rest ↦ some (o ∷ rest) ]
]

module _ {V : Type 0} where
  -- NewPool, with what the configuration says of the servers.
  unfoldable pub new_pool : List Bytes → Pool V
  new_pool initial_servers = record {
    conns = [];
    retired = [];
    balancer = new_balancer initial_servers;
    consistent_hashes = [];
    listener_states = [];
    topo_id = 0;
  }

  unfoldable pub round_robin : Pool V → Bytes × Pool V
  round_robin p = let (a, b) = next p.balancer in (a, record p { balancer = b })

  -- The owner of the key if it is known and not the empty string, or the next server; `none` is the
  -- panic of PrimaryOwner.
  unfoldable pub route_keyed : Bytes → Option ConsistentHash → Pool V → Option (Bytes × Pool V)
  route_keyed key none p = some (round_robin p)
  route_keyed key (some ch) p = elim (primary_owner ch key) [
    | none ↦ none
    | some a ↦ if is_empty a then some (round_robin p) else some (a, p)
  ]

  unfoldable pub route_operation : Operation V → Pool V → Option (Bytes × Pool V)
  route_operation op p = elim op.key_bytes [
    | none ↦ some (round_robin p)
    | some key ↦ route_keyed key (find bytes_discrete op.cache_name p.consistent_hashes) p
  ]

  -- The connections that stay, and those that leave.
  unfoldable pub kept : List Bytes → List (Bytes × Conn V) → List (Bytes × Conn V)
  kept addrs [] = []
  kept addrs ((a, c) ∷ conns) =
      if contains a addrs then (a, c) ∷ kept addrs conns else kept addrs conns

  unfoldable pub departed : List Bytes → List (Bytes × Conn V) → List (Conn V)
  departed addrs [] = []
  departed addrs ((a, c) ∷ conns) =
      if contains a addrs then departed addrs conns else c ∷ departed addrs conns

  -- The servers and connections of a new topology.
  unfoldable pub take_servers : TopologyUpdate → Pool V → Pool V
  take_servers t p =
      let addrs = map addr t.servers in
      record p {
        topo_id = t.id;
        balancer = set_servers addrs p.balancer;
        conns = kept addrs p.conns;
        retired = map drain (departed addrs p.conns) ++ p.retired;
      }

  -- A topology without a hash function, but with segments, ends the routing by owner.
  unfoldable pub drop_hash : TopologyUpdate → Bytes → Pool V → Pool V
  drop_hash t cache_name p =
      if (t.hash_function_version == 0)
        && (ltb 0 t.num_segments && not (is_negative64 t.num_segments))
      then record p { consistent_hashes = discard bytes_discrete cache_name p.consistent_hashes }
      else p

  -- The routing table of a cache: replaced, dropped, or left.
  unfoldable pub take_hash : TopologyUpdate → Bytes → Pool V → Option (Pool V)
  take_hash t cache_name p = if is_empty cache_name then some p else elim t.segment_owners [
    | none ↦ some (drop_hash t cache_name p)
    | some owners ↦
        if ltb 0 t.hash_function_version
        then elim (segment_addrs (map addr t.servers) owners) [
          | none ↦ none
          | some o ↦ some (record p {
            consistent_hashes =
                store bytes_discrete cache_name (new_consistent_hash t.num_segments o)
                  p.consistent_hashes;
          })
        ]
        else some (drop_hash t cache_name p)
  ]

  -- An update of the id that the pool has already is ignored; `none` is the panic on a negative owner.
  unfoldable pub handle_topology_update : TopologyUpdate → Bytes → Pool V → Option (Pool V)
  handle_topology_update t cache_name p =
      if t.id == p.topo_id then some p else take_hash t cache_name (take_servers t p)
