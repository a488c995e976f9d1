-- ===== src/Hash/Bloom/Tests.antt =====
-- The theorems on the bloom filter at concrete inputs.
use go_client.Prelude.{◌≡◌, ◌≢◌, refl, [], ◌∷◌, some, true, arith}
use go_client.Io.{Bytes}
use go_client.Hash.Murmur3.{
  hash_with_seed, murmur_hash3, mix_blocks, mix_tail, tail_word, fmix, bmix, little_endian,
}
use go_client.Hash.Bloom.{BloomFilter, new_bloom_filter, add, bloom_seeds, has_seeds}
use go_client.Hash.Bloom.Members.{IsFilter, add-has_seeds}

abbrev empty : BloomFilter
empty = record { bits_to_use = 16; bits = 0 ∷ 0 ∷ [] }

empty_lem : new_bloom_filter 16 ≡ empty
unfolding new_bloom_filter
empty_lem = refl

first_hash : hash_with_seed (1 ∷ []) 239 ≢ 2147483648
unfolding hash_with_seed murmur_hash3 mix_blocks mix_tail tail_word fmix bmix little_endian
first_hash = omega arith

second_hash : hash_with_seed (1 ∷ []) 1847 ≢ 2147483648
unfolding hash_with_seed murmur_hash3 mix_blocks mix_tail tail_word fmix bmix little_endian
second_hash = omega arith

third_hash : hash_with_seed (1 ∷ []) 2719 ≢ 2147483648
unfolding hash_with_seed murmur_hash3 mix_blocks mix_tail tail_word fmix bmix little_endian
third_hash = omega arith

add-has_seeds_example :
    (bf' : BloomFilter) × (add (1 ∷ []) empty ≡ some bf')
    × IsFilter bf'
    × (has_seeds (1 ∷ []) bloom_seeds bf' ≡ true)
    × ((other : Bytes)
        → has_seeds other bloom_seeds empty ≡ true
        → has_seeds other bloom_seeds bf' ≡ true)
add-has_seeds_example =
    add-has_seeds (1 ∷ []) empty (omega arith, omega arith)
      (first_hash, (second_hash, (third_hash, tt)))
