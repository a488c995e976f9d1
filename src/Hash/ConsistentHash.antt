-- ===== src/Hash/ConsistentHash.antt =====
-- internal/hash/consistent_hash.go: which server owns a key.
pub mod Routing
pub mod Tests
use go_client.Prelude.{
  ℕ, zero, suc, ◌+◌, ◌-◌, ◌/◌, ◌^◌, List, [], ◌∷◌, Option, none, some, get_elem?, bit_and, leb,
  if◌then◌else◌, int_of32,
}
use go_client.Io.{Bytes}
use go_client.Hash.Murmur3.{hash}

pub record ConsistentHash : Type 0 where
  pub segment_owners : List (List Bytes)
  pub num_segments : ℕ
  pub segment_size : ℕ

-- `int(math.Ceil(float64(math.MaxInt32+1) / float64(numSegments)))`, for a positive number of segments
-- below 2 ^ 31: the quotient of the floats is then too far from any integer that it is not, for its
-- rounding to matter, and the ceiling is that of the exact quotient.
unfoldable pub segment_size_of : ℕ → ℕ
segment_size_of num_segments = (2 ^ 31 + num_segments - 1) / num_segments

unfoldable pub new_consistent_hash : ℕ → List (List Bytes) → ConsistentHash
new_consistent_hash num_segments segment_owners = record {
  segment_owners = segment_owners;
  num_segments = num_segments;
  segment_size = segment_size_of num_segments;
}

-- `owners[0]`, or the empty string
unfoldable pub first_owner : List Bytes → Bytes
first_owner [] = []
first_owner (a ∷ owners) = a

unfoldable pub normalized_hash : Bytes → ℕ
normalized_hash key = bit_and (int_of32 (hash key)) 0x7fffffff

-- The segment, moved back to the last one where it is past the end.
unfoldable pub segment_of : ConsistentHash → ℕ → ℕ
segment_of ch normalized =
    let segment = normalized / ch.segment_size in
    if leb ch.num_segments segment then ch.num_segments - 1 else segment

-- `none` is an index out of range.
unfoldable pub primary_owner : ConsistentHash → Bytes → Option Bytes
primary_owner ch key = elim (get_elem? ch.segment_owners (segment_of ch (normalized_hash key))) [
  | none ↦ none
  | some owners ↦ some (first_owner owners)
]
