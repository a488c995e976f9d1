-- ===== src/Hash/ConsistentHash/Tests.antt =====
-- The theorems on the routing table at concrete inputs.
use go_client.Prelude.{◌≡◌, ◌/◌, ◌-◌, ◌^◌, refl, List, [], ◌∷◌, some, arith, get_elem?}
use go_client.Io.{Bytes}
use go_client.Hash.ConsistentHash.{
  segment_size_of, new_consistent_hash, normalized_hash, primary_owner, first_owner,
}
use go_client.Hash.Murmur3.{hash}
use go_client.Hash.ConsistentHash.Routing.{primary_owner_lem}

-- Two segments of two owners.
abbrev two_segments : List (List Bytes)
two_segments = ((0x61 ∷ []) ∷ (0x62 ∷ []) ∷ []) ∷ ((0x62 ∷ []) ∷ (0x61 ∷ []) ∷ []) ∷ []

primary_owner_lem_example :
    (os : List Bytes) × (get_elem? two_segments (normalized_hash (1 ∷ 2 ∷ []) / segment_size_of 2)
      ≡ some os)
    × (primary_owner (new_consistent_hash 2 two_segments) (1 ∷ 2 ∷ []) ≡ some (first_owner os))
primary_owner_lem_example = primary_owner_lem 2 two_segments (1 ∷ 2 ∷ []) (omega arith) refl

-- The vectors of internal/hash/murmur3_test.go, with the sign bit off.
normalized_hash_positive : normalized_hash [] ≡ 89125410
unfolding normalized_hash hash
normalized_hash_positive = refl

normalized_hash_negative : normalized_hash (0xff ∷ []) ≡ 2 ^ 31 - 29042976
unfolding normalized_hash hash
normalized_hash_negative = refl
