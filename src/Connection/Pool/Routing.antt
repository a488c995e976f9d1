-- ===== src/Connection/Pool/Routing.antt =====
-- internal/connection/pool.go: where an operation on a key is sent.
use go_client.Prelude.{
  ℕ, ◌/◌, ◌^◌, ◌<◌, ◌≡◌, ◌≢◌, List, [], ◌∷◌, ◌++◌, map, length, length-map, get_elem?, get_or, some,
  false, is_empty, refl, arith, find, store, find-store, bytes_discrete, All, ap, ◌∙◌, subst, zero,
  suc,
}
use go_client.Io.{Bytes}
use go_client.Codec.Header.{ServerAddress, TopologyUpdate, addr, digits}
use go_client.Hash.ConsistentHash.{
  ConsistentHash, normalized_hash, segment_size_of, new_consistent_hash, primary_owner, first_owner,
}
use go_client.Hash.ConsistentHash.Routing.{primary_owner_lem}
use go_client.Operation.{Operation}
use go_client.Connection.Pool.{
  Pool, owner_addr, owner_addrs, segment_addrs, take_servers, take_hash, handle_topology_update,
  route_keyed, route_operation,
}

-- The servers that own a segment, as indices: at least one, and each in range.
abbrev pub IsSegment : ℕ → List ℕ → Type 0
IsSegment n [] = ⊥
IsSegment n (idx ∷ rest) = (idx < n) × All (λ i. i < 2 ^ 63) rest

-- Which server stands first.
abbrev pub first_index : List ℕ → ℕ
first_index [] = 0
first_index (idx ∷ rest) = idx

abbrev addresses : List Bytes → List ℕ → List Bytes
addresses addrs = map (λ idx. get_or addrs idx [])

owner_addrs_lem :
    (addrs : List Bytes) (owners : List ℕ)
    → All (λ i. i < 2 ^ 63) owners
    → owner_addrs addrs owners ≡ some (addresses addrs owners)
unfolding owner_addrs owner_addr
owner_addrs_lem addrs [] h = refl
owner_addrs_lem addrs (idx ∷ owners) (hi, h) = ground (arith, owner_addrs_lem addrs owners h)

owner_addrs-segment :
    (n : ℕ) (addrs : List Bytes) (owners : List ℕ)
    → n < 2 ^ 63
    → IsSegment n owners
    → owner_addrs addrs owners ≡ some (addresses addrs owners)
owner_addrs-segment n addrs [] hn h = absurd h
owner_addrs-segment n addrs (idx ∷ owners) hn (hi, h) =
    owner_addrs_lem addrs (idx ∷ owners) (omega arith, h)

segment_addrs_lem :
    (n : ℕ) (addrs : List Bytes) (segments : List (List ℕ))
    → n < 2 ^ 63
    → All (IsSegment n) segments
    → segment_addrs addrs segments ≡ some (map (addresses addrs) segments)
unfolding segment_addrs
segment_addrs_lem n addrs [] hn h = refl
segment_addrs_lem n addrs (owners ∷ segments) hn (ho, h) =
    ground
      (arith, owner_addrs-segment n addrs owners hn ho, segment_addrs_lem n addrs segments hn h)

-- Indexing into a mapped list.
get_elem?-map {ℓ κ} :
    {A : Type ℓ} {B : Type κ} (f : A → B) (xs : List A) (i : ℕ) (y : B)
    → get_elem? (map f xs) i ≡ some y
    → (x : A) × (get_elem? xs i ≡ some x) × (y ≡ f x)
get_elem?-map f [] i y e = cc
get_elem?-map f (x ∷ xs) zero y e = (x, refl, cc)
get_elem?-map f (x ∷ xs) (suc i) y e = get_elem?-map f xs i y e

All-get_elem? {ℓ κ} :
    {A : Type ℓ} (P : A → Type κ) (xs : List A) (i : ℕ) (x : A)
    → All P xs
    → get_elem? xs i ≡ some x
    → P x
All-get_elem? P [] i x h e = cc
All-get_elem? P (y ∷ xs) zero x (hy, h) e = (let same : y ≡ x = cc in subst P same hy)
All-get_elem? P (y ∷ xs) (suc i) x (hy, h) e = All-get_elem? P xs i x h e

-- The address of a server in range.
get_or-map :
    (servers : List ServerAddress) (i : ℕ)
    → i < length servers
    → (s : ServerAddress) × (get_elem? servers i ≡ some s)
      × (get_or (map addr servers) i [] ≡ addr s)
get_or-map [] i h = absurd (omega arith)
get_or-map (s ∷ servers) zero h = (s, refl, refl)
get_or-map (s ∷ servers) (suc i) h = get_or-map servers i (omega arith)

first_owner-segment :
    (n : ℕ) (addrs : List Bytes) (owners : List ℕ)
    → IsSegment n owners
    → first_owner (addresses addrs owners) ≡ get_or addrs (first_index owners) []
unfolding first_owner
first_owner-segment n addrs [] h = absurd h
first_owner-segment n addrs (idx ∷ owners) h = refl

first_index-lt : (n : ℕ) (owners : List ℕ) → IsSegment n owners → first_index owners < n
first_index-lt n [] h = absurd h
first_index-lt n (idx ∷ owners) (hi, h) = hi

-- An address has a colon.
addr-is_empty : (s : ServerAddress) → is_empty (addr s) ≡ false
unfolding addr
addr-is_empty s = append-is_empty s.host
  where
    append-is_empty : (host : Bytes) → is_empty (host ++ b':' ∷ digits 5 s.port) ≡ false
    append-is_empty [] = refl
    append-is_empty (x ∷ host) = refl

find-stored :
    (k : Bytes) (ch : ConsistentHash) (m : List (Bytes × ConsistentHash))
    → find bytes_discrete k (store bytes_discrete k ch m) ≡ some ch
find-stored k ch m = ground (arith, find-store bytes_discrete k k ch m)

module _ {V : Type 0} where
  -- The routing table that a topology with a hash function leaves behind.
  takes_hash :
      (t : TopologyUpdate) (cache_name : Bytes) (owners : List (List ℕ)) (p : Pool V)
      → is_empty cache_name ≡ false
      → 0 < t.hash_function_version
      → t.segment_owners ≡ some owners
      → length t.servers < 2 ^ 63
      → All (IsSegment (length t.servers)) owners
      → take_hash t cache_name p
        ≡ some (record p {
          consistent_hashes =
              store bytes_discrete cache_name
                (new_consistent_hash t.num_segments (map (addresses (map addr t.servers)) owners))
                p.consistent_hashes;
        })
  unfolding take_hash
  takes_hash t cache_name owners p named hashed with_owners few good =
      ground (arith, segment_addrs_lem (length t.servers) (map addr t.servers) owners few good)

  -- An operation on a key of a cache whose table has a server for it goes to that server.
  routes_to :
      (op : Operation V) (key : Bytes) (a : Bytes) (p : Pool V) (ch : ConsistentHash)
      → op.key_bytes ≡ some key
      → find bytes_discrete op.cache_name p.consistent_hashes ≡ some ch
      → primary_owner ch key ≡ some a
      → is_empty a ≡ false
      → route_operation op p ≡ some (a, p)
  unfolding route_operation route_keyed
  routes_to op key a p ch keyed known owned filled = ground arith

  handles :
      (t : TopologyUpdate) (cache_name : Bytes) (p : Pool V)
      → t.id ≢ p.topo_id
      → handle_topology_update t cache_name p ≡ take_hash t cache_name (take_servers t p)
  unfolding handle_topology_update
  handles t cache_name p new = ground (arith, new)

  -- After a topology of a new id with a hash function, for a named cache, with one or more segments that
  -- have owners in range, every operation on a key of that cache is routed to the server that the topology
  -- names first for the segment that the key's hash falls into, and the routing changes nothing.
  pub keyed-routes_to_owner :
      (t : TopologyUpdate) (owners : List (List ℕ)) (p : Pool V) (op : Operation V) (key : Bytes)
      → t.id ≢ p.topo_id
      → is_empty op.cache_name ≡ false
      → 0 < t.hash_function_version
      → t.segment_owners ≡ some owners
      → t.num_segments ≡ length owners
      → 0 < length owners
      → length t.servers < 2 ^ 63
      → All (IsSegment (length t.servers)) owners
      → op.key_bytes ≡ some key
      → (p' : Pool V) × (segment : List ℕ) × (server : ServerAddress) × (handle_topology_update t
            op.cache_name p
          ≡ some p')
        × (get_elem? owners (normalized_hash key / segment_size_of (length owners)) ≡ some segment)
        × (get_elem? t.servers (first_index segment) ≡ some server)
        × (route_operation op p' ≡ some (addr server, p'))
  keyed-routes_to_owner t owners p op key new named hashed with_owners counted some_segment few good
        keyed =
      let addrs = map addr t.servers in
      let table = map (addresses addrs) owners in
      let ch = new_consistent_hash t.num_segments table in
      let hashes = store bytes_discrete op.cache_name ch (take_servers t p).consistent_hashes in
      let p' = record (take_servers t p) { consistent_hashes = hashes } in
      let i = normalized_hash key / segment_size_of (length owners) in
      let (os, found, owned) =
        primary_owner_lem (length owners) table key some_segment
          (length-map (addresses addrs) owners) in
      let (segment, here, same) = get_elem?-map (addresses addrs) owners i os found in
      let in_range = All-get_elem? (IsSegment (length t.servers)) owners i segment good here in
      let (server, there, address) =
        get_or-map t.servers (first_index segment)
          (first_index-lt (length t.servers) segment in_range) in
      let first : first_owner os ≡ addr server =
        ap first_owner same
        ∙ (first_owner-segment (length t.servers) addrs segment in_range ∙ address) in
      let owner : primary_owner ch key ≡ some (addr server) =
        ap (λ m. primary_owner (new_consistent_hash m table) key) counted
        ∙ (owned ∙ ap some first) in
      let handled : handle_topology_update t op.cache_name p ≡ some p' =
        handles t op.cache_name p new
        ∙ takes_hash t op.cache_name owners (take_servers t p) named hashed with_owners few good in
      let known = find-stored op.cache_name ch (take_servers t p).consistent_hashes in
      (
        p',
        segment,
        server,
        handled,
        here,
        there,
        routes_to op key (addr server) p' ch keyed known owner (addr-is_empty server),
      )
