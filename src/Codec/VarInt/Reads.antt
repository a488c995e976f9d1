-- ===== src/Codec/VarInt/Reads.antt =====
-- ReadVInt and ReadVLong on any input, well formed or not.
use go_client.Prelude.{
  ℕ, zero, suc, String, ◌*◌, ◌+◌, ◌^◌, ◌≤◌, ◌<◌, ◌≡◌, ◌≢◌, [], ◌∷◌, bit_and, u32, u64, arith,
  length, IsU32, IsU64,
}
use go_client.Prelude.Bits.{bit_or-lt}
use go_client.Io.{Bytes, done, panic, read_full}
use go_client.Codec.VarInt.{read_groups, read_vint, read_vlong}

module _ (width : ℕ → ℕ) (what too_many : String) where
  module _ (k : ℕ) (narrow : (x : ℕ) → width x < 2 ^ k) where
    groups_take :
        (rounds shift acc : ℕ) (s : Bytes) (v : ℕ) (s' : Bytes)
        → acc < 2 ^ k
        → read_groups width what too_many rounds shift acc s ≡ done v s'
        → (v < 2 ^ k) × (length s' < length s) × (length s ≤ length s' + rounds)
    unfolding read_groups read_full
    groups_take zero shift acc s v s' h e = cc
    groups_take (suc rounds) shift acc [] v s' h e = cc
    groups_take (suc rounds) shift acc (b ∷ s) v s' h e =
        let g = width (bit_and b 0x7f * 2 ^ shift) in
        ground (
          arith,
          bit_or-lt k acc g h (narrow (bit_and b 0x7f * 2 ^ shift)),
          groups_take rounds (shift + 7) (Prim.Native.Nat.bit_or acc g) s v s',
        )

  groups-ne-panic :
      (rounds shift acc : ℕ) (s : Bytes)
      → read_groups width what too_many rounds shift acc s ≢ panic
  unfolding read_groups read_full
  groups-ne-panic zero shift acc s e = cc
  groups-ne-panic (suc rounds) shift acc [] e = cc
  groups-ne-panic (suc rounds) shift acc (b ∷ s) e =
      let g = width (bit_and b 0x7f * 2 ^ shift) in
      ground (arith, groups-ne-panic rounds (shift + 7) (Prim.Native.Nat.bit_or acc g) s)

-- A ReadVInt that succeeds returns 32 bits and has taken one to five bytes.
pub read_vint_takes :
    (s : Bytes) (v : ℕ) (s' : Bytes)
    → read_vint s ≡ done v s'
    → IsU32 v × (length s' < length s) × (length s ≤ length s' + 5)
unfolding read_vint
read_vint_takes s v s' e = groups_take u32 _ _ 32 (λ x. omega arith) 5 0 0 s v s' (omega arith) e

-- A ReadVLong that succeeds returns 64 bits and has taken one to nine bytes.
pub read_vlong_takes :
    (s : Bytes) (v : ℕ) (s' : Bytes)
    → read_vlong s ≡ done v s'
    → IsU64 v × (length s' < length s) × (length s ≤ length s' + 9)
unfolding read_vlong
read_vlong_takes s v s' e = groups_take u64 _ _ 64 (λ x. omega arith) 9 0 0 s v s' (omega arith) e

pub read_vint-ne-panic : (s : Bytes) → read_vint s ≢ panic
unfolding read_vint
read_vint-ne-panic s = groups-ne-panic u32 _ _ 5 0 0 s

pub read_vlong-ne-panic : (s : Bytes) → read_vlong s ≢ panic
unfolding read_vlong
read_vlong-ne-panic s = groups-ne-panic u64 _ _ 9 0 0 s

-- A ReadVInt that succeeds returns 32 bits and has taken one to five bytes, a ReadVLong 64 bits and one to
-- nine bytes; and neither panics, on any input.
pub reads_take :
    (s : Bytes)
    → ((read_vint s ≢ panic) × (read_vlong s ≢ panic))
      × (((v : ℕ) (s' : Bytes)
            → read_vint s ≡ done v s'
            → IsU32 v × (length s' < length s) × (length s ≤ length s' + 5))
          × ((v : ℕ) (s' : Bytes)
              → read_vlong s ≡ done v s'
              → IsU64 v × (length s' < length s) × (length s ≤ length s' + 9)))
reads_take s = (
  (read_vint-ne-panic s, read_vlong-ne-panic s),
  (λ v s' e. read_vint_takes s v s' e, λ v s' e. read_vlong_takes s v s' e),
)
