-- ===== src/Protostream/Wire/Varint.antt =====
-- internal/protostream/wrapped.go: what appendUvarint appends, decodeUvarint reads back.
use go_client.Prelude.{
  ℕ, zero, suc, ◌+◌, ◌*◌, ◌/◌, ◌%◌, ◌^◌, ◌≤◌, ◌<◌, ◌≡◌, refl, ap, ◌∙◌, [], ◌∷◌, ◌++◌, some, length,
  IsU64, arith,
}
use go_client.Prelude.Bits.{bit_and-127, bit_or-128, bit_or_low}
use go_client.Prelude.Bits.Groups.{regroup, below_weight}
use go_client.Io.{Bytes}
use go_client.Protostream.Wire.{
  uvarint_groups, append_uvarint, size_groups, uvarint_size, decode_groups, decode_uvarint,
}
use native.Mathlib.Decide.{dec_lt}

-- One round: the last group, and one before it.
groups_last : (rounds v : ℕ) → v < 128 → uvarint_groups rounds v ≡ v ∷ []
unfolding uvarint_groups
groups_last zero v h = ground arith
groups_last (suc rounds) v h = ground arith

groups_more :
    (rounds v : ℕ)
    → 128 ≤ v
    → uvarint_groups (suc rounds) v ≡ (v % 128 + 128) ∷ uvarint_groups rounds (v / 128)
unfolding uvarint_groups
groups_more rounds v h = ground (arith, bit_or-128 (v % 256))

decode_last :
    (rounds shift acc i v : ℕ) (rest : Bytes)
    → v < 128
    → acc < 2 ^ shift
    → acc + v * 2 ^ shift < 2 ^ 64
    → decode_groups (suc rounds) shift acc i (v ∷ rest) ≡ some (acc + v * 2 ^ shift, suc i)
unfolding decode_groups
decode_last rounds shift acc i v rest hv ha fits =
    ground (arith, bit_and-127 v, bit_or_low shift acc v)

decode_more :
    (rounds shift acc i g : ℕ) (rest : Bytes)
    → g < 128
    → acc < 2 ^ shift
    → acc + g * 2 ^ shift < 2 ^ 64
    → decode_groups (suc rounds) shift acc i ((g + 128) ∷ rest)
      ≡ decode_groups rounds (shift + 7) (acc + g * 2 ^ shift) (suc i) rest
unfolding decode_groups
decode_more rounds shift acc i g rest hg ha fits =
    ground (arith, bit_and-127 (g + 128), bit_or_low shift acc g)

decode_groups-uvarint :
    (rounds shift acc i v : ℕ) (rest : Bytes)
    → v < 128 ^ suc rounds
    → acc < 2 ^ shift
    → acc + v * 2 ^ shift < 2 ^ 64
    → decode_groups (suc rounds) shift acc i (uvarint_groups rounds v ++ rest)
      ≡ some (acc + v * 2 ^ shift, i + length (uvarint_groups rounds v))
decode_groups-uvarint zero shift acc i v rest hv ha fits = rw (groups_last 0 v (omega arith)) (
    decode_last 0 shift acc i v rest (omega arith) ha fits
    ∙ ap (λ (n : ℕ). some (acc + v * 2 ^ shift, n)) (omega arith))
decode_groups-uvarint (suc rounds) shift acc i v rest hv ha fits = elim (dec_lt v 128) [
  | yes small ↦ rw (groups_last (suc rounds) v small) (
      decode_last (suc rounds) shift acc i v rest small ha fits
      ∙ ap (λ (n : ℕ). some (acc + v * 2 ^ shift, n)) (omega arith))
  | no large ↦
      let g = v % 128 in
      let acc' = acc + g * 2 ^ shift in
      rw (groups_more rounds v (omega arith)) (
        decode_more (suc rounds) shift acc i g _ (omega arith) ha (omega (arith, regroup v shift))
        ∙ decode_groups-uvarint rounds (shift + 7) acc' (suc i) (v / 128) rest (omega arith)
            (below_weight acc g shift ha (omega arith)) (omega (arith, regroup v shift))
        ∙ ground (arith, regroup v shift))
]

-- A uint64 is read back, with the number of its bytes, whatever follows them.
pub decode_uvarint-append_uvarint :
    (v : ℕ) (rest : Bytes)
    → IsU64 v
    → decode_uvarint (append_uvarint v ++ rest) ≡ some (v, length (append_uvarint v))
unfolding decode_uvarint append_uvarint
decode_uvarint-append_uvarint v rest h =
    decode_groups-uvarint 9 0 0 0 v rest (omega arith) (omega arith) (omega arith) ∙ ground arith

groups_size : (rounds v : ℕ) → length (uvarint_groups rounds v) ≡ size_groups rounds v
unfolding uvarint_groups size_groups
groups_size zero v = refl
groups_size (suc rounds) v = ground (arith, groups_size rounds (v / 128))

-- uvarintSize is the number of bytes that appendUvarint appends.
pub length-append_uvarint : (v : ℕ) → length (append_uvarint v) ≡ uvarint_size v
unfolding append_uvarint uvarint_size
length-append_uvarint v = groups_size 9 v

groups_pos : (rounds v : ℕ) → 0 < length (uvarint_groups rounds v)
unfolding uvarint_groups
groups_pos zero v = omega arith
groups_pos (suc rounds) v = ground arith

pub append_uvarint_pos : (v : ℕ) → 0 < length (append_uvarint v)
unfolding append_uvarint
append_uvarint_pos v = groups_pos 9 v

groups_few : (rounds v : ℕ) → length (uvarint_groups rounds v) ≤ suc rounds
unfolding uvarint_groups
groups_few zero v = omega arith
groups_few (suc rounds) v = ground (arith, groups_few rounds (v / 128))

pub append_uvarint_few : (v : ℕ) → length (append_uvarint v) ≤ 10
unfolding append_uvarint
append_uvarint_few v = groups_few 9 v
