-- ===== src/Prelude/Words.antt =====
-- Go's fixed-width integers. A value of a w-bit type is its two's complement bit pattern, a number
-- below 2 ^ w, so conversions between `int32` and `uint32` change nothing; tests of a sign and signed
-- arithmetic are written out here.
use Prim.Native.Nat.{ℕ, ◌+◌, ◌-◌, ◌%◌, ◌^◌, ◌<◌, bit_and}
use mathlib.Core.Bool.{Bool}
use go_client.Prelude.Tests.{leb, if◌then◌else◌}

abbrev pub IsByte : ℕ → Type 0
IsByte b = b < 2 ^ 8

abbrev pub IsU16 : ℕ → Type 0
IsU16 v = v < 2 ^ 16

abbrev pub IsU32 : ℕ → Type 0
IsU32 v = v < 2 ^ 32

abbrev pub IsU64 : ℕ → Type 0
IsU64 v = v < 2 ^ 64

-- `byte(x)`, `uint32(x)`, `uint64(x)`
abbrev pub byte : ℕ → ℕ
byte x = x % 2 ^ 8

abbrev pub u32 : ℕ → ℕ
u32 x = x % 2 ^ 32

abbrev pub u64 : ℕ → ℕ
u64 x = x % 2 ^ 64

-- `x &^ m`, and-not
abbrev pub and_not : ℕ → ℕ → ℕ
and_not x m = x - bit_and x m

-- `x < 0` for an `int32` and an `int64`
abbrev pub is_negative32 : ℕ → Bool
is_negative32 x = leb (2 ^ 31) x

abbrev pub is_negative64 : ℕ → Bool
is_negative64 x = leb (2 ^ 63) x

-- `-x` for an `int32`
abbrev pub neg32 : ℕ → ℕ
neg32 x = (2 ^ 32 - x) % 2 ^ 32

-- The number of rounds of `for range n`, n an `int32`: none if `n` is negative.
abbrev pub rounds32 : ℕ → ℕ
rounds32 n = if is_negative32 n then 0 else n

-- `int32(-1)`
abbrev pub minus_one32 : ℕ
minus_one32 = 2 ^ 32 - 1

-- `int(x)` of an `int32`, on a 64-bit platform
abbrev pub int_of32 : ℕ → ℕ
int_of32 x = if is_negative32 x then x + (2 ^ 64 - 2 ^ 32) else x
