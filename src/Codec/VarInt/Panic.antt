-- ===== src/Codec/VarInt/Panic.antt =====
-- Where the writers run out of their buffer, and how much of it they fill.
use go_client.Prelude.{
  ℕ, zero, suc, ◌+◌, ◌/◌, ◌%◌, ◌^◌, ◌≤◌, ◌≡◌, [], ◌∷◌, refl, arith, length, IsU32, ◌↔◌, ◌∙◌, sym,
  ap,
}
use go_client.Io.{Bytes, wrote, panicked}
use go_client.Io.Encodes.{encoded_length, >>-eq-wrote}
use go_client.Codec.VarInt.{write_groups, write_vint, write_vlong}
use go_client.Codec.VarInt.RoundTrip.{write_last, write_more, vint-Encodes, vlong-Encodes}
use native.Mathlib.Nat.{one-le-pow}
use native.Mathlib.Decide.{dec_lt}

-- Too large for the slots that are left.
groups_overrun : (slots u : ℕ) → 128 ^ suc slots ≤ u → write_groups (suc slots) u ≡ panicked
groups_overrun zero u h = rw (write_more 0 u (omega arith)) (unfold write_groups in refl)
groups_overrun (suc slots) u h =
    rw
      (
        write_more (suc slots) u (omega (arith, one-le-pow slots 128)),
        groups_overrun slots (u / 128) (omega arith),
      )
      refl

-- WriteVLong panics exactly on the numbers of 2 ^ 63 and more, which among the int64 are the negative
-- ones.
pub write_vlong_panics : (v : ℕ) → (write_vlong v ≡ panicked) ↔ (2 ^ 63 ≤ v)
unfolding write_vlong
write_vlong_panics v = (only, groups_overrun 8 v)
  where
    only : write_groups 9 v ≡ panicked → 2 ^ 63 ≤ v
    only e = elim (dec_lt v (2 ^ 63)) [
      | yes h ↦ let enc = vlong-Encodes v h in cc (enc.written)
      | no h ↦ omega arith
    ]

groups_fit :
    (slots u : ℕ) (bs : Bytes)
    → write_groups slots u ≡ wrote bs
    → (1 ≤ length bs) × (length bs ≤ slots)
groups_fit zero u bs e = unfold write_groups in cc
groups_fit (suc slots) u bs e = elim (dec_lt u 128) [
  | yes small ↦ ground (arith, write_last slots u small, ap encoded_length e)
  | no large ↦
      let (b, later, split) =
        >>-eq-wrote ((u % 128 + 128) ∷ []) (write_groups slots (u / 128)) bs
          (sym (write_more slots u (omega arith)) ∙ e) in
      ground (arith, groups_fit slots (u / 128) b later, ap length split)
]

-- WriteVInt writes one to five bytes, whatever the int32, and does not panic.
pub write_vint-length :
    (v : ℕ) → IsU32 v → (bs : Bytes) × (write_vint v ≡ wrote bs) × (1 ≤ length bs) × (length bs ≤ 5)
write_vint-length v h =
    let enc = vint-Encodes v h in
    let fit = groups_fit 5 v enc.bytes (unfold write_vint in enc.written) in
    (enc.bytes, enc.written, fit.0, fit.1)
