-- ===== src/Hash/ConsistentHash/Routing.antt =====
-- The routing table covers the hash space.
use go_client.Prelude.{
  ℕ, zero, suc, ◌+◌, ◌-◌, ◌*◌, ◌/◌, ◌^◌, ◌≤◌, ◌<◌, ◌≡◌, List, some, get_elem?, get_elem?-lt, refl,
  arith, length, int_of32,
}
use go_client.Prelude.Bits.{bit_and-le}
use native.Mathlib.Nat.{div-add-mod, mod-lt, div-lt_iff_lt-mul}
use go_client.Io.{Bytes}
use go_client.Hash.Murmur3.{hash}
use go_client.Hash.ConsistentHash.{
  segment_size_of, new_consistent_hash, first_owner, normalized_hash, segment_of, primary_owner,
}

normalized_hash-lt : (key : Bytes) → normalized_hash key < 2 ^ 31
unfolding normalized_hash
normalized_hash-lt key = omega (arith, bit_and-le 31 (int_of32 (hash key)) 0x7fffffff (omega arith))

-- The segments, if there is one, cover the 2 ^ 31 hashes and exceed them by less than their number.
pub segment_size_covers :
    (n : ℕ) → 0 < n → (2 ^ 31 ≤ n * segment_size_of n) × (n * segment_size_of n < 2 ^ 31 + n)
unfolding segment_size_of
segment_size_covers n h =
    let d = 2 ^ 31 + n - 1 in let covers = div-add-mod d n in let below = mod-lt d h in grind arith

factor_pos : (n s : ℕ) → 0 < n * s → 0 < s
factor_pos n zero h = absurd (omega arith)
factor_pos n (suc s) h = omega arith

segment_in_range :
    (n : ℕ) (owners : List (List Bytes)) (h : ℕ)
    → 0 < n
    → h < 2 ^ 31
    → (segment_of (new_consistent_hash n owners) h ≡ h / segment_size_of n)
      × (h / segment_size_of n < n)
unfolding segment_of new_consistent_hash segment_size_of
segment_in_range n owners h pos lt = ground (arith, below)
  where
    size : ℕ
    size = segment_size_of n

    covers : 2 ^ 31 ≤ n * size
    covers = (segment_size_covers n pos).0

    size_pos : 0 < size
    size_pos = factor_pos n size (omega (arith, covers))

    below : h / size < n
    below = (div-lt_iff_lt-mul size_pos).1 (omega arith)

owner_at :
    (n i : ℕ) (owners : List (List Bytes)) (key : Bytes) (os : List Bytes)
    → segment_of (new_consistent_hash n owners) (normalized_hash key) ≡ i
    → get_elem? owners i ≡ some os
    → primary_owner (new_consistent_hash n owners) key ≡ some (first_owner os)
unfolding primary_owner new_consistent_hash
owner_at n i owners key os same found = rw (same, found) refl

-- With one owner list for each of one or more segments PrimaryOwner never runs out of range: it returns the first owner of
-- the segment that the hash of the key falls into, and its clamp to the last segment never acts.
pub primary_owner_lem :
    (n : ℕ) (owners : List (List Bytes)) (key : Bytes)
    → 0 < n
    → length owners ≡ n
    → (os : List Bytes) × (get_elem? owners (normalized_hash key / segment_size_of n) ≡ some os)
      × (primary_owner (new_consistent_hash n owners) key ≡ some (first_owner os))
primary_owner_lem n owners key pos all =
    let (same, below) =
      segment_in_range n owners (normalized_hash key) pos (normalized_hash-lt key) in
    let (os, found) = get_elem?-lt owners (normalized_hash key / segment_size_of n) (omega arith) in
    (os, found, owner_at n _ owners key os same found)
