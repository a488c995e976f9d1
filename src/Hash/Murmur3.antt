-- ===== src/Hash/Murmur3.antt =====
-- internal/hash/murmur3.go: MurmurHash3 x64, 64 bits of it, as the Java server computes it.
mod Tests
use go_client.Prelude.{
  ℕ, zero, suc, ◌+◌, ◌-◌, ◌*◌, ◌/◌, ◌%◌, ◌^◌, List, [], ◌∷◌, length, get_or, bit_or, bit_xor, u64,
  leb, if◌then◌else◌,
}
use go_client.Io.{Bytes}

abbrev pub default_seed : ℕ
default_seed = 9001

-- `uint64(signExtend(b))`: an int8 as a uint64
abbrev pub sign_extend : ℕ → ℕ
sign_extend b = if leb 128 b then b + (2 ^ 64 - 2 ^ 8) else b

-- `(x << k) | (x >> (64 - k))`
abbrev pub rotate : ℕ → ℕ → ℕ
rotate x k = bit_or (u64 (x * 2 ^ k)) (x / 2 ^ (64 - k))

-- The four variables of the loop.
pub record State : Type 0 where
  pub h1 : ℕ
  pub h2 : ℕ
  pub c1 : ℕ
  pub c2 : ℕ

unfoldable pub bmix : State → ℕ → ℕ → State
bmix s k1 k2 =
    let k1' = u64 (rotate (u64 (k1 * s.c1)) 23 * s.c2) in
    let h1' = u64 (bit_xor s.h1 k1' + s.h2) in
    let k2' = u64 (rotate (u64 (k2 * s.c2)) 23 * s.c1) in
    let h2' = u64 (bit_xor (rotate s.h2 41) k2' + h1') in
    record {
      h1 = u64 (h1' * 3 + 0x52dce729);
      h2 = u64 (h2' * 3 + 0x38495ab5);
      c1 = u64 (s.c1 * 5 + 0x7b7d159c);
      c2 = u64 (s.c2 * 5 + 0x6bce6396);
    }

unfoldable pub fmix : ℕ → ℕ
fmix k =
    let k' = u64 (bit_xor k (k / 2 ^ 33) * 0xff51afd7ed558ccd) in
    let k'' = u64 (bit_xor k' (k' / 2 ^ 33) * 0xc4ceb9fe1a85ec53) in bit_xor k'' (k'' / 2 ^ 33)

-- `binary.LittleEndian.Uint64(key[i:])`
unfoldable pub little_endian : Bytes → ℕ → ℕ
little_endian key i =
    get_or key i 0
    + get_or key (i + 1) 0 * 2 ^ 8
    + get_or key (i + 2) 0 * 2 ^ 16
    + get_or key (i + 3) 0 * 2 ^ 24
    + get_or key (i + 4) 0 * 2 ^ 32
    + get_or key (i + 5) 0 * 2 ^ 40
    + get_or key (i + 6) 0 * 2 ^ 48
    + get_or key (i + 7) 0 * 2 ^ 56

-- `for i := range nblocks`: the blocks that are left, and the index of the next.
unfoldable pub mix_blocks : ℕ → ℕ → Bytes → State → State
mix_blocks zero i key s = s
mix_blocks (suc n) i key s =
    mix_blocks n (i + 1) key (bmix s (little_endian key (i * 16)) (little_endian key (i * 16 + 8)))

-- The cases of the switch fall through from the last byte of the tail to the first: `k ^= signExtend
-- (key[at + n - 1]) << (8 * (n - 1))` for each n down to 1.
unfoldable pub tail_word : ℕ → ℕ → Bytes → ℕ → ℕ
tail_word zero at key k = k
tail_word (suc n) at key k =
    tail_word n at key (bit_xor k (u64 (sign_extend (get_or key (at + n) 0) * 2 ^ (8 * n))))

-- The tail of `n` bytes from `at` on; with no tail the switch has no case.
unfoldable pub mix_tail : ℕ → ℕ → Bytes → State → State
mix_tail zero at key s = s
mix_tail (suc n) at key s =
    let k2 = tail_word (suc n - 8) (at + 8) key 0 in
    let k1 = tail_word (if leb 8 (suc n) then 8 else suc n) at key 0 in bmix s k1 k2

unfoldable pub murmur_hash3 : Bytes → ℕ → ℕ
unfolding mix_blocks mix_tail bmix fmix little_endian tail_word
murmur_hash3 key seed =
    let start : State = record {
      h1 = bit_xor 0x9368e53c2f6af274 seed;
      h2 = bit_xor 0x586dcd208f7cd3fd seed;
      c1 = 0x87c37b91114253d5;
      c2 = 0x4cf5ad432745937f;
    } in
    let nblocks = length key / 16 in
    let s = mix_tail (length key % 16) (nblocks * 16) key (mix_blocks nblocks 0 key start) in
    let h2 = bit_xor s.h2 (length key) in
    let h1' = u64 (s.h1 + h2) in let h2' = u64 (h2 + h1') in u64 (fmix h1' + fmix h2')

-- An int32: the high half.
unfoldable pub hash_with_seed : Bytes → ℕ → ℕ
unfolding murmur_hash3
hash_with_seed key seed = murmur_hash3 key seed / 2 ^ 32

unfoldable pub hash : Bytes → ℕ
unfolding hash_with_seed
hash key = hash_with_seed key default_seed
