-- ===== src/Codec/VarInt/RoundTrip.antt =====
-- What WriteVInt and WriteVLong write, ReadVInt and ReadVLong read back.
use go_client.Prelude.{
  ℕ, zero, suc, String, ◌*◌, ◌+◌, ◌/◌, ◌%◌, ◌^◌, ◌≤◌, ◌<◌, ◌≡◌, [], ◌∷◌, ◌++◌, bit_and, bit_or, u32,
  u64, arith, ap, ◌∙◌, subst, refl, IsU32,
}
use go_client.Prelude.Bits.{bit_and-127, bit_and-128, bit_or_low}
use go_client.Prelude.Bits.Groups.{regroup, below_weight}
use go_client.Io.{Bytes, done, wrote, ◌>>◌, read_full}
use go_client.Io.Encodes.{Encodes}
use go_client.Codec.VarInt.{
  write_groups, write_vint, write_vlong, read_groups, read_vint, read_vlong,
}
use native.Mathlib.Decide.{dec_lt}

top_clear : (g : ℕ) → g < 128 → bit_and g 0x80 ≡ 0
top_clear g h = omega (arith, bit_and-128 g)

set_top : (g : ℕ) → g < 128 → bit_or g 0x80 ≡ g + 128
set_top g h = omega (arith, bit_or_low 7 g 1)

-- One round of the writer: the last group, and one before it.
pub write_last : (slots u : ℕ) → u < 128 → write_groups (suc slots) u ≡ wrote (u ∷ [])
unfolding write_groups
write_last slots u h = ground (arith, bit_and-127 u)

pub write_more :
    (slots u : ℕ)
    → 128 ≤ u
    → write_groups (suc slots) u ≡ (wrote ((u % 128 + 128) ∷ []) >> write_groups slots (u / 128))
unfolding write_groups
write_more slots u h = ground (arith, bit_and-127 u, set_top (u % 128))

module _ (width : ℕ → ℕ) (what too_many : String) (top : ℕ)
    (exact : (x : ℕ) → x < top → width x ≡ x) where
  read_last :
      (rounds shift acc u : ℕ) (rest : Bytes)
      → u < 128
      → acc < 2 ^ shift
      → acc + u * 2 ^ shift < top
      → read_groups width what too_many (suc rounds) shift acc (u ∷ rest)
        ≡ done (acc + u * 2 ^ shift) rest
  unfolding read_groups read_full
  read_last rounds shift acc u rest hu ha fits =
      ground (arith, bit_and-127 u, top_clear u, exact (u * 2 ^ shift), bit_or_low shift acc u)

  read_more :
      (rounds shift acc g : ℕ) (rest : Bytes)
      → g < 128
      → acc < 2 ^ shift
      → acc + g * 2 ^ shift < top
      → read_groups width what too_many (suc rounds) shift acc ((g + 128) ∷ rest)
        ≡ read_groups width what too_many rounds (shift + 7) (acc + g * 2 ^ shift) rest
  unfolding read_groups read_full
  read_more rounds shift acc g rest hg ha fits = ground (
    arith,
    bit_and-127 (g + 128),
    bit_and-128 (g + 128),
    exact (g * 2 ^ shift),
    bit_or_low shift acc g,
  )

  groups-Encodes :
      (rounds shift acc u : ℕ)
      → u < 128 ^ suc rounds
      → acc < 2 ^ shift
      → acc + u * 2 ^ shift < top
      → Encodes
          (write_groups (suc rounds) u)
          (read_groups width what too_many (suc rounds) shift acc)
          (acc + u * 2 ^ shift)
  groups-Encodes zero shift acc u hu ha fits = record {
    bytes = u ∷ [];
    written = write_last 0 u (omega arith);
    read_back = λ rest. read_last 0 shift acc u rest (omega arith) ha fits;
  }
  groups-Encodes (suc rounds) shift acc u hu ha fits = elim (dec_lt u 128) [
    | yes small ↦ record {
      bytes = u ∷ [];
      written = write_last (suc rounds) u small;
      read_back = λ rest. read_last (suc rounds) shift acc u rest small ha fits;
    }
    | no large ↦
        let g = u % 128 in
        let later =
          groups-Encodes rounds (shift + 7) (acc + g * 2 ^ shift) (u / 128) (omega arith)
            (below_weight acc g shift ha (omega arith)) (omega (arith, regroup u shift)) in
        record {
          bytes = (g + 128) ∷ later.bytes;
          written = rw (write_more (suc rounds) u (omega arith), later.written) refl;
          read_back = λ rest.
              read_more (suc rounds) shift acc g (later.bytes ++ rest) (omega arith) ha
                (omega (arith, regroup u shift))
              ∙ later.read_back rest
              ∙ ap (λ (t : ℕ). done t rest) (omega (arith, regroup u shift));
        }
  ]

-- Whatever follows it, the encoding of an int32 is read back as that int32, and writing never panics.
pub vint-Encodes : (v : ℕ) → IsU32 v → Encodes (write_vint v) read_vint v
unfolding write_vint read_vint
vint-Encodes v h =
    subst (λ t. Encodes (write_vint v) read_vint t) (omega arith)
      (groups-Encodes u32 _ _ (2 ^ 32) (λ x p. omega arith) 4 0 0 v (omega arith) (omega arith)
        (omega arith))

-- Whatever follows it, the encoding of an int64 that is not negative is read back as that int64, and
-- writing it does not panic.
pub vlong-Encodes : (v : ℕ) → v < 2 ^ 63 → Encodes (write_vlong v) read_vlong v
unfolding write_vlong read_vlong
vlong-Encodes v h =
    subst (λ t. Encodes (write_vlong v) read_vlong t) (omega arith)
      (groups-Encodes u64 _ _ (2 ^ 64) (λ x p. omega arith) 8 0 0 v (omega arith) (omega arith)
        (omega arith))
