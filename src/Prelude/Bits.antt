-- ===== src/Prelude/Bits.antt =====
-- Bit operations on words as arithmetic: masks, disjoint fields, complements.
pub mod Step
pub mod Groups
use Prim.Native.Nat.{ℕ, zero, suc, ◌+◌, ◌-◌, ◌*◌, ◌/◌, ◌%◌, ◌^◌, ◌≤◌, ◌<◌, min, max, differ}
use Prim.Native.Nat.{bit_and, bit_or, bit_xor}
use Step.{bit_and_step, bit_or_step, bit_xor_step}
use mathlib.Core.Path
use mathlib.Core.Path.{◌≡◌, refl, ap, subst}
use native.Mathlib.Omega.{arith}
use native.Mathlib.Nat.{pow-suc}

-- `n` bounds the first operand, for the induction on its half.
or_nothing : (n a : ℕ) → a ≤ n → bit_or a 0 ≡ a
or_nothing n zero h = refl
or_nothing zero (suc a) h = absurd (omega arith)
or_nothing (suc n) (suc a) h =
    omega (arith, bit_or_step (suc a) 0, or_nothing n (suc a / 2) (omega arith))

pub bit_or-zero : (a : ℕ) → bit_or a 0 ≡ a
bit_or-zero a = or_nothing a a (omega arith)

pub zero-bit_or : (a : ℕ) → bit_or 0 a ≡ a
zero-bit_or a = Prim.Native.Nat.bit_or-bitwise 0 a

and_nothing : (n a : ℕ) → a ≤ n → bit_and a 0 ≡ 0
and_nothing n zero h = refl
and_nothing zero (suc a) h = absurd (omega arith)
and_nothing (suc n) (suc a) h =
    omega (arith, bit_and_step (suc a) 0, and_nothing n (suc a / 2) (omega arith))

pub bit_and-zero : (a : ℕ) → bit_and a 0 ≡ 0
bit_and-zero a = and_nothing a a (omega arith)

pub zero-bit_xor : (a : ℕ) → bit_xor 0 a ≡ a
zero-bit_xor a = Prim.Native.Nat.bit_xor-bitwise 0 a

xor_nothing : (n a : ℕ) → a ≤ n → bit_xor a 0 ≡ a
xor_nothing n zero h = refl
xor_nothing zero (suc a) h = absurd (omega arith)
xor_nothing (suc n) (suc a) h =
    omega (
      arith,
      bit_xor_step (suc a) 0,
      xor_nothing n (suc a / 2) (omega arith),
      differ_low (suc a % 2),
    )
  where
    differ_low : (x : ℕ) → differ x 0 ≡ x
    differ_low zero = refl
    differ_low (suc x) = refl

pub bit_xor-zero : (a : ℕ) → bit_xor a 0 ≡ a
bit_xor-zero a = xor_nothing a a (omega arith)

-- The weight of bit `s + 1`, times a number.
double_weight : (q s : ℕ) → q * 2 ^ suc s ≡ 2 * (q * 2 ^ s)
double_weight q s = omega (arith, ap (λ (t : ℕ). q * t) (pow-suc 2 s))

-- Two fields side by side, the low one first or the high one first.
pub bit_or_low : (s lo hi : ℕ) → lo < 2 ^ s → bit_or lo (hi * 2 ^ s) ≡ lo + hi * 2 ^ s
bit_or_low zero lo hi h = ground (arith, zero-bit_or (hi * 2 ^ 0))
bit_or_low (suc s) lo hi h = ground (
  arith,
  pow-suc 2 s,
  bit_or_step lo (hi * 2 ^ suc s),
  double_weight hi s,
  bit_or_low s (lo / 2) hi (omega (arith, pow-suc 2 s)),
)

pub bit_or_high : (s lo hi : ℕ) → lo < 2 ^ s → bit_or (hi * 2 ^ s) lo ≡ hi * 2 ^ s + lo
bit_or_high zero lo hi h = ground (arith, bit_or-zero (hi * 2 ^ 0))
bit_or_high (suc s) lo hi h = ground (
  arith,
  pow-suc 2 s,
  bit_or_step (hi * 2 ^ suc s) lo,
  double_weight hi s,
  bit_or_high s (lo / 2) hi (omega (arith, pow-suc 2 s)),
)

-- Three masks of the wire format.
pub bit_and-1 : (a : ℕ) → bit_and a 1 ≡ a % 2
bit_and-1 a = omega (arith, bit_and_step a 1, bit_and-zero (a / 2))

mask_3 : (a : ℕ) → bit_and a 3 ≡ a % 4
mask_3 a = omega (arith, bit_and_step a 3, bit_and-1 (a / 2))

pub bit_and-7 : (a : ℕ) → bit_and a 7 ≡ a % 8
bit_and-7 a = omega (arith, bit_and_step a 7, mask_3 (a / 2))

pub bit_and-15 : (a : ℕ) → bit_and a 15 ≡ a % 16
bit_and-15 a = omega (arith, bit_and_step a 15, bit_and-7 (a / 2))

mask_31 : (a : ℕ) → bit_and a 31 ≡ a % 32
mask_31 a = omega (arith, bit_and_step a 31, bit_and-15 (a / 2))

mask_63 : (a : ℕ) → bit_and a 63 ≡ a % 64
mask_63 a = omega (arith, bit_and_step a 63, mask_31 (a / 2))

pub bit_and-127 : (a : ℕ) → bit_and a 0x7f ≡ a % 128
bit_and-127 a = omega (arith, bit_and_step a 127, mask_63 (a / 2))

-- Single bits.
pub bit_and-2 : (a : ℕ) → bit_and a 2 ≡ a / 2 % 2 * 2
bit_and-2 a = omega (arith, bit_and_step a 2, bit_and-1 (a / 2))

pub bit_and-4 : (a : ℕ) → bit_and a 4 ≡ a / 4 % 2 * 4
bit_and-4 a = omega (arith, bit_and_step a 4, bit_and-2 (a / 2))

bit_and-8 : (a : ℕ) → bit_and a 8 ≡ a / 8 % 2 * 8
bit_and-8 a = omega (arith, bit_and_step a 8, bit_and-4 (a / 2))

bit_and-32 : (a : ℕ) → bit_and a 32 ≡ a / 32 % 2 * 32
bit_and-32 a = omega (arith, bit_and_step a 32, bit_and_step (a / 2) 16, bit_and-8 (a / 2 / 2))

pub bit_and-128 : (a : ℕ) → bit_and a 0x80 ≡ a / 128 % 2 * 128
bit_and-128 a = omega (arith, bit_and_step a 128, bit_and_step (a / 2) 64, bit_and-32 (a / 2 / 2))

or_1 : (a : ℕ) → bit_or a 1 ≡ a + 1 - a % 2
or_1 a = omega (arith, bit_or_step a 1, bit_or-zero (a / 2))

or_4 : (a : ℕ) → bit_or a 4 ≡ a + 4 - a / 4 % 2 * 4
or_4 a = omega (arith, bit_or_step a 4, bit_or_step (a / 2) 2, or_1 (a / 2 / 2))

or_16 : (a : ℕ) → bit_or a 16 ≡ a + 16 - a / 16 % 2 * 16
or_16 a = omega (arith, bit_or_step a 16, bit_or_step (a / 2) 8, or_4 (a / 2 / 2))

or_64 : (a : ℕ) → bit_or a 64 ≡ a + 64 - a / 64 % 2 * 64
or_64 a = omega (arith, bit_or_step a 64, bit_or_step (a / 2) 32, or_16 (a / 2 / 2))

pub bit_or-128 : (a : ℕ) → bit_or a 0x80 ≡ a + 128 - a / 128 % 2 * 128
bit_or-128 a = omega (arith, bit_or_step a 128, or_64 (a / 2))

differ_one : (x : ℕ) → x ≤ 1 → differ x 1 ≡ 1 - x
differ_one zero h = refl
differ_one (suc zero) h = refl
differ_one (suc (suc x)) h = absurd (omega arith)

-- Exclusive or with a mask of ones is the complement.
pub bit_xor_ones : (k a m : ℕ) → m + 1 ≡ 2 ^ k → a ≤ m → bit_xor a m ≡ m - a
bit_xor_ones zero a m e h =
    let a_zero : a ≡ 0 = omega arith in let m_zero : m ≡ 0 = omega arith in rw (a_zero, m_zero) refl
bit_xor_ones (suc k) a m e h = omega (
  arith,
  pow-suc 2 k,
  bit_xor_step a m,
  odd,
  differ_one (a % 2) (omega arith),
  ap (λ (t : ℕ). differ (a % 2) t) odd,
  bit_xor_ones k (a / 2) (m / 2) (omega (arith, pow-suc 2 k)) (omega (arith, pow-suc 2 k)),
)
  where
    odd : m % 2 ≡ 1
    odd = omega (arith, pow-suc 2 k)

-- A disjunction needs no more bits than its operands.
pub bit_or-lt : (k a b : ℕ) → a < 2 ^ k → b < 2 ^ k → bit_or a b < 2 ^ k
bit_or-lt zero a b p q =
    let a_zero : a ≡ 0 = omega arith in
    let b_zero : b ≡ 0 = omega arith in rw (a_zero, b_zero) (omega arith)
bit_or-lt (suc k) a b p q = omega (
  arith,
  pow-suc 2 k,
  bit_or_step a b,
  bit_or-lt k (a / 2) (b / 2) (omega (arith, pow-suc 2 k)) (omega (arith, pow-suc 2 k)),
)

-- A disjunction with a value below the lowest bit of the first operand is a sum.
pub bit_or-eq-add : (s x lo : ℕ) → x ≡ x / 2 ^ s * 2 ^ s → lo < 2 ^ s → bit_or x lo ≡ x + lo
bit_or-eq-add s x lo e h =
    subst (λ t. bit_or t lo ≡ t + lo) (Path.sym e) (bit_or_high s lo (x / 2 ^ s) h)

-- A conjunction is at most its mask.
pub bit_and-le : (k a m : ℕ) → m < 2 ^ k → bit_and a m ≤ m
bit_and-le zero a m h =
    let m_zero : m ≡ 0 = omega arith in rw m_zero (omega (arith, bit_and-zero a))
bit_and-le (suc k) a m h = omega (
  arith,
  pow-suc 2 k,
  bit_and_step a m,
  bit_and-le k (a / 2) (m / 2) (omega (arith, pow-suc 2 k)),
)
