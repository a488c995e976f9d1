-- ===== src/Hash/Bloom/Members.antt =====
-- internal/hash/bloom.go: that a key that was added is in the filter, and stays.
use go_client.Prelude.{
  ℕ, zero, suc, ◌*◌, ◌/◌, ◌%◌, ◌^◌, ◌≤◌, ◌<◌, ◌≡◌, ◌≢◌, refl, List, [], ◌∷◌, length, get_or, set,
  true, ◌==◌, ◌&&◌, if◌then◌else◌, some, bit_or, neg32, arith, All, Option-cases, Bool-cases, inl,
  inr, ap, ◌∙◌, sym,
}
use go_client.Prelude.Bits.Step.{bit_or_step}
use Prim.Native.Nat.{max}
use go_client.Io.{Bytes}
use go_client.Hash.Murmur3.{hash_with_seed}
use go_client.Hash.Bloom.{
  BloomFilter, bit_of, set_bit, add_seed, add_seeds, bloom_seeds, add, bit_at, has_bit, has_seeds,
}
use native.Mathlib.Nat.{mod-lt}
use native.Mathlib.Decide.{dec_lt}

bit_at-bit_or : (k a b : ℕ) → bit_at k (bit_or a b) ≡ max (bit_at k a) (bit_at k b)
unfolding bit_at
bit_at-bit_or zero a b = omega (arith, bit_or_step a b)
bit_at-bit_or (suc k) a b =
    let half : bit_or a b / 2 ≡ bit_or (a / 2) (b / 2) = omega (arith, bit_or_step a b) in
    rw half (bit_at-bit_or k (a / 2) (b / 2))

bit_at-pow : (k : ℕ) → bit_at k (2 ^ k) ≡ 1
unfolding bit_at
bit_at-pow zero = refl
bit_at-pow (suc k) = let half : 2 ^ suc k / 2 ≡ 2 ^ k = omega arith in rw half (bit_at-pow k)

bit_at-lt : (k x : ℕ) → bit_at k x < 2
unfolding bit_at
bit_at-lt zero x = omega arith
bit_at-lt (suc k) x = bit_at-lt k (x / 2)

get_or-set :
    (bits : Bytes) (j v i : ℕ)
    → j < length bits
    → get_or (set bits j v) i 0 ≡ (if i == j then v else get_or bits i 0)
get_or-set [] j v i h = absurd (omega arith)
get_or-set (x ∷ bits) zero v zero h = ground arith
get_or-set (x ∷ bits) zero v (suc i) h = ground arith
get_or-set (x ∷ bits) (suc j) v zero h = ground arith
get_or-set (x ∷ bits) (suc j) v (suc i) h = ground (arith, get_or-set bits j v i (omega arith))

length-set : (bits : Bytes) (j v : ℕ) → length (set bits j v) ≡ length bits
length-set [] j v = refl
length-set (x ∷ bits) zero v = refl
length-set (x ∷ bits) (suc j) v = ap suc (length-set bits j v)

-- The byte that a bit stands in, with one bit more.
with_bit : ℕ → Bytes → Bytes
with_bit bit bits = set bits (bit / 8) (bit_or (get_or bits (bit / 8) 0) (2 ^ (bit % 8)))

bit_at-with_bit :
    (bit : ℕ) (bits : Bytes) (j : ℕ)
    → bit / 8 < length bits
    → get_or (with_bit bit bits) (j / 8) 0 ≡ (
        if j / 8 == bit / 8
        then bit_or (get_or bits (bit / 8) 0) (2 ^ (bit % 8))
        else get_or bits (j / 8) 0)
unfolding with_bit
bit_at-with_bit bit bits j h =
    get_or-set bits (bit / 8) (bit_or (get_or bits (bit / 8) 0) (2 ^ (bit % 8))) (j / 8) h

has_bit-with_bit :
    (bit : ℕ) (bits : Bytes) → bit / 8 < length bits → has_bit (with_bit bit bits) bit ≡ true
unfolding has_bit
has_bit-with_bit bit bits h =
    let x = get_or bits (bit / 8) 0 in
    let m = 2 ^ (bit % 8) in
    let same : (bit / 8 == bit / 8) ≡ true = ground arith in
    rw (bit_at-with_bit bit bits bit h, same, bit_at-bit_or (bit % 8) x m, bit_at-pow (bit % 8))
      (ground (arith, bit_at-lt (bit % 8) x))

with_bit-keeps :
    (bit : ℕ) (bits : Bytes) (j : ℕ)
    → bit / 8 < length bits
    → has_bit bits j ≡ true
    → has_bit (with_bit bit bits) j ≡ true
unfolding has_bit
with_bit-keeps bit bits j h e = elim (Bool-cases (j / 8 == bit / 8)) [
  | inl same ↦
      let x = get_or bits (bit / 8) 0 in
      let m = 2 ^ (bit % 8) in
      let eq : j / 8 ≡ bit / 8 = ground arith in
      let e' : (bit_at (j % 8) x == 1) ≡ true =
        ap (λ i. bit_at (j % 8) (get_or bits i 0) == 1) (sym eq) ∙ e in
      rw (bit_at-with_bit bit bits j h, same, bit_at-bit_or (j % 8) x m)
        (ground (arith, bit_at-lt (j % 8) m, e'))
  | inr other ↦ rw (bit_at-with_bit bit bits j h, other) e
]

-- A bit that is set, and those that were set before.
set_bit_lem :
    (bit : ℕ) (bits : Bytes)
    → bit / 8 < length bits
    → (set_bit bit bits ≡ some (with_bit bit bits)) × (length (with_bit bit bits) ≡ length bits)
unfolding set_bit with_bit
set_bit_lem bit bits h =
    (ground arith, length-set bits (bit / 8) (bit_or (get_or bits (bit / 8) 0) (2 ^ (bit % 8))))

bit_of_lem : (n h : ℕ) → 0 < n → h ≢ 2 ^ 31 → (bit : ℕ) × (bit_of n h ≡ some bit) × (bit < n)
unfolding bit_of
bit_of_lem n h pos ok = elim (dec_lt h (2 ^ 31)) [
  | yes small ↦ (h % n, ground arith, mod-lt h pos)
  | no large ↦ (neg32 h % n, ground (arith, ok), mod-lt (neg32 h) pos)
]

-- A filter that Add can set every bit of.
abbrev pub IsFilter : BloomFilter → Type 0
IsFilter bf = (0 < bf.bits_to_use) × (bf.bits_to_use ≤ 8 * length bf.bits)

-- What is set stays set.
abbrev pub Keeps : BloomFilter → BloomFilter → Type 0
Keeps bf bf' =
    (bf'.bits_to_use ≡ bf.bits_to_use)
    × ((j : ℕ) → has_bit bf.bits j ≡ true → has_bit bf'.bits j ≡ true)

add_seed-some :
    (key : Bytes) (seed : ℕ) (bf : BloomFilter) (bit : ℕ) (bits : Bytes)
    → bit_of bf.bits_to_use (hash_with_seed key seed) ≡ some bit
    → set_bit bit bf.bits ≡ some bits
    → add_seed key seed bf ≡ some (record bf { bits = bits })
unfolding add_seed
add_seed-some key seed bf bit bits is_bit is_set = ground arith

add_seeds-some :
    (key : Bytes) (seed : ℕ) (seeds : List ℕ) (bf bf' : BloomFilter)
    → add_seed key seed bf ≡ some bf'
    → add_seeds key (seed ∷ seeds) bf ≡ add_seeds key seeds bf'
unfolding add_seeds
add_seeds-some key seed seeds bf bf' added = ground arith

has_seeds-some :
    (key : Bytes) (seed : ℕ) (seeds : List ℕ) (bf : BloomFilter) (bit : ℕ)
    → bit_of bf.bits_to_use (hash_with_seed key seed) ≡ some bit
    → has_seeds key (seed ∷ seeds) bf ≡ has_bit bf.bits bit && has_seeds key seeds bf
unfolding has_seeds
has_seeds-some key seed seeds bf bit is_bit = ground arith

has_seeds-bit :
    (key : Bytes) (seed : ℕ) (seeds : List ℕ) (bf : BloomFilter)
    → has_seeds key (seed ∷ seeds) bf ≡ true
    → (bit : ℕ) × (bit_of bf.bits_to_use (hash_with_seed key seed) ≡ some bit)
      × (has_bit bf.bits bit ≡ true)
      × (has_seeds key seeds bf ≡ true)
unfolding has_seeds
has_seeds-bit key seed seeds bf e =
    elim (Option-cases (bit_of bf.bits_to_use (hash_with_seed key seed))) [
      | inl no_bit ↦ ground arith
      | inr (bit, is_bit) ↦ (bit, is_bit, ground arith, ground arith)
    ]

add_seed-adds :
    (key : Bytes) (seed : ℕ) (bf : BloomFilter)
    → IsFilter bf
    → hash_with_seed key seed ≢ 2 ^ 31
    → (bf' : BloomFilter) × (bit : ℕ) × (add_seed key seed bf ≡ some bf')
      × IsFilter bf'
      × Keeps bf bf'
      × (bit_of bf.bits_to_use (hash_with_seed key seed) ≡ some bit)
      × (has_bit bf'.bits bit ≡ true)
add_seed-adds key seed bf (pos, fits) ok =
    let (bit, is_bit, small) = bit_of_lem bf.bits_to_use (hash_with_seed key seed) pos ok in
    let in_range : bit / 8 < length bf.bits = omega arith in
    let (is_set, same_length) = set_bit_lem bit bf.bits in_range in
    (
      record bf { bits = with_bit bit bf.bits },
      bit,
      add_seed-some key seed bf bit (with_bit bit bf.bits) is_bit is_set,
      (pos, omega arith),
      (refl, λ j e. with_bit-keeps bit bf.bits j in_range e),
      is_bit,
      has_bit-with_bit bit bf.bits in_range,
    )

pub has_seeds-Keeps :
    (key : Bytes) (seeds : List ℕ) (bf bf' : BloomFilter)
    → Keeps bf bf'
    → has_seeds key seeds bf ≡ true
    → has_seeds key seeds bf' ≡ true
unfolding has_seeds
has_seeds-Keeps key [] bf bf' k e = refl
has_seeds-Keeps key (seed ∷ seeds) bf bf' (same, stays) e =
    let (bit, is_bit, is_set, others) = has_seeds-bit key seed seeds bf e in
    let set' = stays bit is_set in
    let others' = has_seeds-Keeps key seeds bf bf' (same, stays) others in
    has_seeds-some key seed seeds bf' bit
      (ap (λ n. bit_of n (hash_with_seed key seed)) same ∙ is_bit)
    ∙ ground arith

pub add_seeds-adds :
    (key : Bytes) (seeds : List ℕ) (bf : BloomFilter)
    → IsFilter bf
    → All (λ seed. hash_with_seed key seed ≢ 2 ^ 31) seeds
    → (bf' : BloomFilter) × (add_seeds key seeds bf ≡ some bf')
      × IsFilter bf'
      × Keeps bf bf'
      × (has_seeds key seeds bf' ≡ true)
unfolding add_seeds has_seeds
add_seeds-adds key [] bf good ok = (bf, refl, good, (refl, λ j e. e), refl)
add_seeds-adds key (seed ∷ seeds) bf good (ok, oks) =
    let (bf1, bit, added, good1, (same1, stays1), is_bit, is_set) =
      add_seed-adds key seed bf good ok in
    let (bf2, all_added, good2, (same2, stays2), others) = add_seeds-adds key seeds bf1 good1 oks in
    (
      bf2,
      add_seeds-some key seed seeds bf bf1 added ∙ all_added,
      good2,
      (same2 ∙ same1, λ j e. stays2 j (stays1 j e)),
      (let set2 = stays2 bit is_set in
          has_seeds-some key seed seeds bf2 bit
            (ap (λ n. bit_of n (hash_with_seed key seed)) (same2 ∙ same1) ∙ is_bit)
          ∙ ground arith),
    )

-- Add to a filter of at least one bit that has a place for every bit does not panic, unless one of the
-- three hashes of the key is -2 ^ 31: the key is then in the filter, every key that was in it still is, and
-- the filter has a place for every bit.
pub add-has_seeds :
    (key : Bytes) (bf : BloomFilter)
    → IsFilter bf
    → All (λ seed. hash_with_seed key seed ≢ 2 ^ 31) bloom_seeds
    → (bf' : BloomFilter) × (add key bf ≡ some bf')
      × IsFilter bf'
      × (has_seeds key bloom_seeds bf' ≡ true)
      × ((other : Bytes)
          → has_seeds other bloom_seeds bf ≡ true
          → has_seeds other bloom_seeds bf' ≡ true)
unfolding add
add-has_seeds key bf good ok =
    let (bf', added, good', keeps, in_it) = add_seeds-adds key bloom_seeds bf good ok in
    (bf', added, good', in_it, λ other e. has_seeds-Keeps other bloom_seeds bf bf' keeps e)
