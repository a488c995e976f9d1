-- ===== src/Prelude/Bits/Groups.antt =====
-- A number as groups of seven bits, the lowest first.
use Prim.Native.Nat.{ℕ, ◌+◌, ◌*◌, ◌/◌, ◌%◌, ◌^◌, ◌≤◌, ◌<◌}
use mathlib.Core.Path.{◌≡◌, ap}
use native.Mathlib.Omega.{arith}
use native.Mathlib.Numerals.{towards_suc}
use native.Mathlib.Nat.{div-add-mod}

weight : (s : ℕ) → 2 ^ (s + 7) ≡ 128 * 2 ^ s
weight s = simp towards_suc (omega arith)

-- The lowest group and the others, at the weight of the lowest.
pub regroup : (u s : ℕ) → u * 2 ^ s ≡ u % 128 * 2 ^ s + u / 128 * 2 ^ (s + 7)
regroup u s =
    omega
      (arith, ap (λ (t : ℕ). t * 2 ^ s) (div-add-mod u 128), ap (λ (t : ℕ). u / 128 * t) (weight s))

-- The result stays below the weight of the next group.
pub below_weight : (acc g s : ℕ) → acc < 2 ^ s → g < 128 → acc + g * 2 ^ s < 2 ^ (s + 7)
below_weight acc g s ha hg =
    let bound : g * 2 ^ s ≤ 127 * 2 ^ s = grind arith in omega (arith, weight s)
