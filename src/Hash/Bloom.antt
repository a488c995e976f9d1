-- ===== src/Hash/Bloom.antt =====
-- internal/hash/bloom.go: the bloom filter of the keys in a near cache.
pub mod Members
pub mod BitSet
pub mod Tests
use go_client.Prelude.{
  ℕ, zero, suc, ◌+◌, ◌-◌, ◌*◌, ◌/◌, ◌%◌, ◌^◌, ◌≤◌, ◌<◌, ◌≡◌, ◌≢◌, refl, List, [], ◌∷◌, length,
  get_or, set, replicate, Bool, true, false, ◌==◌, ◌&&◌, ltb, if◌then◌else◌, Option, none, some,
  bit_or, is_negative32, neg32, arith, ap, ◌∙◌, sym,
}
use go_client.Prelude.Bits.Step.{bit_or_step}
use Prim.Native.Nat.{max}
use go_client.Io.{Bytes}
use go_client.Hash.Murmur3.{hash_with_seed}

pub record BloomFilter : Type 0 where
  pub bits_to_use : ℕ
  pub bits : Bytes

-- NewBloomFilter, for a number of bits that is not negative.
unfoldable pub new_bloom_filter : ℕ → BloomFilter
new_bloom_filter bits_to_use = record {
  bits_to_use = bits_to_use;
  bits = replicate ((bits_to_use + 7) / 8) 0;
}

-- The bit that a hash, an int32, stands for. `none` is a panic: of a division by zero, or, for the hash
-- -2 ^ 31 that its negation leaves alone, of a negative remainder, which is no index or no shift.
unfoldable pub bit_of : ℕ → ℕ → Option ℕ
bit_of bits_to_use hash =
    let h = if is_negative32 hash then neg32 hash else hash in
    if bits_to_use == 0
    then none
    else if is_negative32 h
    then (if 2 ^ 31 % bits_to_use == 0 then some 0 else none)
    else some (h % bits_to_use)

-- `bits[bit/8] |= 1 << (bit % 8)`, with `none` for an index out of range
unfoldable pub set_bit : ℕ → Bytes → Option Bytes
set_bit bit bits =
    if ltb (bit / 8) (length bits)
    then some (set bits (bit / 8) (bit_or (get_or bits (bit / 8) 0) (2 ^ (bit % 8))))
    else none

-- One round of the loop of Add.
unfoldable pub add_seed : Bytes → ℕ → BloomFilter → Option BloomFilter
add_seed key seed bf = elim (bit_of bf.bits_to_use (hash_with_seed key seed)) [
  | none ↦ none
  | some bit ↦ elim (set_bit bit bf.bits) [
    | none ↦ none
    | some bits ↦ some (record bf { bits = bits })
  ]
]

-- The rounds for the seeds that are left.
unfoldable pub add_seeds : Bytes → List ℕ → BloomFilter → Option BloomFilter
add_seeds key [] bf = some bf
add_seeds key (seed ∷ seeds) bf = elim (add_seed key seed bf) [
  | none ↦ none
  | some bf' ↦ add_seeds key seeds bf'
]

abbrev pub bloom_seeds : List ℕ
bloom_seeds = 239 ∷ 1847 ∷ 2719 ∷ []

unfoldable pub add : Bytes → BloomFilter → Option BloomFilter
add key bf = add_seeds key bloom_seeds bf

-- A bit of a number, and of a Java BitSet that is made from the bytes.
unfoldable pub bit_at : ℕ → ℕ → ℕ
bit_at zero x = x % 2
bit_at (suc k) x = bit_at k (x / 2)

unfoldable pub has_bit : Bytes → ℕ → Bool
has_bit bits i = bit_at (i % 8) (get_or bits (i / 8) 0) == 1

-- What the server asks the filter: whether all bits of a key are set.
unfoldable pub has_seeds : Bytes → List ℕ → BloomFilter → Bool
has_seeds key [] bf = true
has_seeds key (seed ∷ seeds) bf = elim (bit_of bf.bits_to_use (hash_with_seed key seed)) [
  | none ↦ false
  | some bit ↦ has_bit bf.bits bit && has_seeds key seeds bf
]

-- Clear
unfoldable pub clear_bits : BloomFilter → BloomFilter
clear_bits bf = record bf { bits = replicate (length bf.bits) 0 }

-- How many of the first `n` bytes are left when `last` has come down to one that is not 0.
unfoldable pub used_bytes : ℕ → Bytes → ℕ
used_bytes zero bits = 0
used_bytes (suc n) bits =
    let rest = used_bytes n bits in if get_or bits n 0 == 0 then rest else suc n

-- `bits[:n]`
unfoldable pub first_bytes : ℕ → Bytes → Bytes
first_bytes zero bits = []
first_bytes (suc n) [] = []
first_bytes (suc n) (b ∷ bits) = b ∷ first_bytes n bits

unfoldable pub to_bit_set : BloomFilter → Bytes
to_bit_set bf = first_bytes (used_bytes (length bf.bits) bf.bits) bf.bits
