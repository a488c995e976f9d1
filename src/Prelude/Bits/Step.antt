-- ===== src/Prelude/Bits/Step.antt =====
-- The native bit operations by their lowest digit. Each is the library's `bitwise`, a recursion on
-- the digits with the first operand as its fuel.
use Prim.Native.Nat.{ℕ, zero, suc, ◌+◌, ◌-◌, ◌*◌, ◌/◌, ◌%◌, ◌≤◌, min, max, differ}
use Prim.Native.Nat.{digits, bitwise, bit_and, bit_or, bit_xor}
use Prim.Native.Nat.{bit_and-bitwise, bit_or-bitwise, bit_xor-bitwise}
use mathlib.Core.Path.{◌≡◌, refl, ◌∙◌}
use native.Mathlib.Omega.{arith}

module _ (end : ℕ → ℕ) (op : ℕ → ℕ → ℕ) where
  -- A spare unit of fuel changes nothing.
  spare : (fuel a b : ℕ) → a ≤ fuel → digits end op (suc fuel) a b ≡ digits end op fuel a b
  spare zero zero b h = refl
  spare zero (suc a) b h = absurd (omega arith)
  spare (suc fuel) zero b h = refl
  spare (suc fuel) (suc a) b h = omega (arith, spare fuel (suc a / 2) (b / 2) (omega arith))

  spares : (k fuel a b : ℕ) → a ≤ fuel → digits end op (k + fuel) a b ≡ digits end op fuel a b
  spares zero fuel a b h = simp Prim.Native.Nat.add.zero
  spares (suc k) fuel a b h =
      simp Prim.Native.Nat.add.suc (spare (k + fuel) a b (omega arith) ∙ spares k fuel a b h)

  lowest_digit :
      (a b : ℕ)
      → bitwise end op (suc a) b ≡ bitwise end op (suc a / 2) (b / 2) * 2 + op (suc a % 2) (b % 2)
  lowest_digit a b =
      let half = suc a / 2 in
      let split : a ≡ (a - half) + half = omega arith in
      omega (
        arith,
        spares (a - half) half half (b / 2) (omega arith),
        mathlib.Core.Path.ap (λ (t : ℕ). digits end op t half (b / 2)) split,
      )

pub bit_or_step : (a b : ℕ) → bit_or a b ≡ bit_or (a / 2) (b / 2) * 2 + max (a % 2) (b % 2)
bit_or_step zero b = omega (arith, bit_or-bitwise 0 b, bit_or-bitwise 0 (b / 2))
bit_or_step (suc a) b = omega (
  arith,
  bit_or-bitwise (suc a) b,
  bit_or-bitwise (suc a / 2) (b / 2),
  lowest_digit (λ y. y) max a b,
)

pub bit_and_step : (a b : ℕ) → bit_and a b ≡ bit_and (a / 2) (b / 2) * 2 + min (a % 2) (b % 2)
bit_and_step zero b = omega (arith, bit_and-bitwise 0 b, bit_and-bitwise 0 (b / 2))
bit_and_step (suc a) b = omega (
  arith,
  bit_and-bitwise (suc a) b,
  bit_and-bitwise (suc a / 2) (b / 2),
  lowest_digit (λ y. 0) min a b,
)

pub bit_xor_step : (a b : ℕ) → bit_xor a b ≡ bit_xor (a / 2) (b / 2) * 2 + differ (a % 2) (b % 2)
bit_xor_step zero b = omega (arith, bit_xor-bitwise 0 b, bit_xor-bitwise 0 (b / 2))
bit_xor_step (suc a) b = omega (
  arith,
  bit_xor-bitwise (suc a) b,
  bit_xor-bitwise (suc a / 2) (b / 2),
  lowest_digit (λ y. y) differ a b,
)
