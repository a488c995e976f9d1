-- ===== src/Codec/Header/Topology.antt =====
-- The topology part of a response header, as a server that follows the protocol writes it.
use go_client.Prelude.{
  ℕ, ◌^◌, ◌<◌, ◌≡◌, [], ltb, ◌==◌, Bool, true, false, arith, subst, IsU16, IsU32, length,
  is_negative32, int_of32, List, All, none, some,
}
use go_client.Io.{Read, Write, wrote, ◌>>◌, write_each}
use go_client.Io.Encodes.{
  Encodes, Encodes-bind, Encodes-map, Encodes-pure, Encodes-context, Encodes-context_at,
  Encodes-times,
}
use go_client.Codec.VarInt.{write_vint}
use go_client.Codec.VarInt.RoundTrip.{vint-Encodes}
use go_client.Codec.Wire.{write_u1, write_u2, write_lp_string}
use go_client.Codec.Wire.RoundTrip.{u1-Encodes, u2-Encodes, lp_string-Encodes}
use go_client.Codec.Header.{
  ServerAddress, TopologyUpdate, read_slice, read_server, read_owner, read_owners, read_segments,
  read_distribution, read_topology_update,
}

-- What a server may send: counts and indices that an int32 holds, at most 255 owners of a segment, and
-- segments exactly if the hash function's version is not 0.
abbrev pub IsServer : ServerAddress → Type 0
IsServer a = (length a.host < 2 ^ 31) × IsU16 a.port

abbrev pub AreOwners : List ℕ → Type 0
AreOwners owners = (length owners < 256) × All (λ idx. idx < 2 ^ 31) owners

-- The part of a topology that only a hash-aware client is sent.
pub data Distribution : Type 0 where
  unaware : Distribution
  no_hash : ℕ → Distribution
  hashed : ℕ → List (List ℕ) → Distribution

unfoldable pub topology : ℕ → List ServerAddress → Distribution → TopologyUpdate
topology id servers unaware = record {
  id = id;
  servers = servers;
  hash_function_version = 0;
  num_segments = 0;
  segment_owners = none;
}
topology id servers (no_hash n) = record {
  id = id;
  servers = servers;
  hash_function_version = 0;
  num_segments = n;
  segment_owners = none;
}
topology id servers (hashed version owners) = record {
  id = id;
  servers = servers;
  hash_function_version = version;
  num_segments = length owners;
  segment_owners = some owners;
}

abbrev pub IsDistribution : (hash_aware : Bool) → Distribution → Type 0
IsDistribution aware unaware = aware ≡ false
IsDistribution aware (no_hash n) = (aware ≡ true) × (n < 2 ^ 31)
IsDistribution aware (hashed version owners) =
    (aware ≡ true) × (0 < version) × (length owners < 2 ^ 31) × All AreOwners owners

write_server : ServerAddress → Write
write_server a = do write_lp_string a.host; write_u2 a.port

write_owners : List ℕ → Write
write_owners owners = do write_u1 (length owners); write_each write_vint owners

write_distribution : Distribution → Write
write_distribution unaware = wrote []
write_distribution (no_hash n) = do write_u1 0; write_vint n
write_distribution (hashed version owners) = do
  write_u1 version
  write_vint (length owners)
  write_each write_owners owners

pub write_topology : ℕ → List ServerAddress → Distribution → Write
write_topology id servers d = do
  write_vint id
  write_vint (length servers)
  write_each write_server servers
  write_distribution d

server-Encodes :
    (i : ℕ) (a : ServerAddress) → IsServer a → Encodes (write_server a) (read_server i) a
unfolding write_server read_server
server-Encodes i a (h, p) =
    Encodes-bind _ (Encodes-context_at _ i (lp_string-Encodes a.host h))
      (Encodes-map _ (Encodes-context_at _ i (u2-Encodes a.port p)))

-- A counted slice: the loop runs as often as there are elements.
pub slice-Encodes :
    {A : Type 0} (P : A → Type 0) (w : A → Write) (r : ℕ → Read A)
    → ((i : ℕ) (a : A) → P a → Encodes (w a) (r i) a)
    → (xs : List A) → length xs < 2 ^ 31
    → All P xs
    → Encodes (write_each w xs) (read_slice (length xs) r) xs
unfolding read_slice
slice-Encodes P w r body xs short h = rw not_negative (Encodes-times P w r body 0 xs h)
  where
    not_negative : is_negative32 (length xs) ≡ false
    not_negative = ground arith

owner-Encodes : (i j idx : ℕ) → idx < 2 ^ 31 → Encodes (write_vint idx) (read_owner i j) idx
unfolding read_owner
owner-Encodes i j idx h =
    subst (λ t. Encodes (write_vint idx) (read_owner i j) t) small
      (Encodes-map int_of32
        (Encodes-context_at _ j (Encodes-context_at _ i (vint-Encodes idx (omega arith)))))
  where
    small : int_of32 idx ≡ idx
    small = ground arith

owners-Encodes :
    (i : ℕ) (owners : List ℕ)
    → AreOwners owners
    → Encodes (write_owners owners) (read_owners i) owners
unfolding write_owners read_owners
owners-Encodes i owners (short, indices) =
    Encodes-bind _ (Encodes-context_at _ i (u1-Encodes (length owners))) (
      Encodes-times (λ idx. idx < 2 ^ 31) write_vint (read_owner i) (owner-Encodes i) 0 owners
        indices)

nonnegative : (n : ℕ) → n < 2 ^ 31 → int_of32 n ≡ n
nonnegative n h = ground arith

distribution-Encodes :
    (id ci : ℕ) (servers : List ServerAddress) (d : Distribution)
    → IsDistribution (ci == 3) d
    → Encodes (write_distribution d) (read_distribution id servers ci) (topology id servers d)
unfolding read_distribution topology write_distribution read_segments
distribution-Encodes id ci servers unaware h = rw h (Encodes-pure _)
distribution-Encodes id ci servers (no_hash n) (h, short) =
    subst
      (λ t.
        Encodes (write_distribution (no_hash n)) (read_distribution id servers ci)
          (topology id servers (no_hash t)))
      (nonnegative n short)
      (rw h (
        Encodes-bind _ (Encodes-context _ (u1-Encodes 0))
          (Encodes-map _ (Encodes-context _ (vint-Encodes n (omega arith))))))
distribution-Encodes id ci servers (hashed version owners) (h, v, short, all) =
    subst
      (λ t.
        Encodes {A = TopologyUpdate} (write_distribution (hashed version owners))
          (read_distribution id servers ci)
          (record (topology id servers (hashed version owners)) { num_segments = t }))
      (nonnegative (length owners) short)
      (rw h (
        Encodes-bind _ (Encodes-context _ (u1-Encodes version)) (
          Encodes-bind _ (Encodes-context _ (vint-Encodes (length owners) (omega arith))) (
            rw positive (
              Encodes-map _ (
                Encodes-map _ (
                  slice-Encodes AreOwners write_owners read_owners owners-Encodes owners short
                    all)))))))
  where
    positive : ltb 0 version ≡ true
    positive = ground arith

-- A client, hash-aware or not, reads back a topology that is in the ranges of the protocol.
pub topology-Encodes :
    (ci id : ℕ) (servers : List ServerAddress) (d : Distribution)
    → IsU32 id
    → length servers < 2 ^ 31
    → All IsServer servers
    → IsDistribution (ci == 3) d
    → Encodes (write_topology id servers d) (read_topology_update ci) (topology id servers d)
unfolding read_topology_update write_topology
topology-Encodes ci id servers d hid short hs hd =
    Encodes-bind _ (Encodes-context _ (vint-Encodes id hid)) (
      Encodes-bind _ (Encodes-context _ (vint-Encodes (length servers) (omega arith))) (
        Encodes-bind _
          (slice-Encodes IsServer write_server read_server server-Encodes servers short hs)
          (distribution-Encodes id ci servers d hd)))
