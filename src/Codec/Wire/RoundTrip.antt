-- ===== src/Codec/Wire/RoundTrip.antt =====
-- What the field writers of wire.go write, its readers read back.
use go_client.Prelude.{
  ℕ, ◌*◌, ◌-◌, ◌/◌, ◌^◌, ◌≤◌, ◌<◌, ◌≡◌, [], ◌∷◌, bit_and, bit_or, bit_xor, byte, u32, u64, arith,
  subst, refl, length, IsU16, IsU32, IsU64, ltb, minus_one32, neg32, true, false, ◌==◌,
  is_negative32,
}
use go_client.Prelude.Bits.{bit_or-eq-add, bit_xor_ones, bit_and-1, bit_xor-zero}
use go_client.Io.{Bytes, wrote}
use go_client.Io.Encodes.{
  Encodes, Encodes-bind, Encodes-map, Encodes-context, Encodes-pure, read_full-Encodes,
}
use native.Mathlib.Decide.{dec_lt}
use go_client.Codec.VarInt.{write_vint}
use go_client.Codec.VarInt.RoundTrip.{vint-Encodes}
use go_client.Codec.Wire.{
  write_lp_bytes, read_lp_bytes, write_lp_string, read_lp_string, write_u1, read_u1, write_u2,
  read_u2, write_long, read_long, long_of, sign32, write_int32, read_int32, write_signed_vint,
  read_signed_vint,
}

-- A byte slice of fewer than 2 ^ 31 bytes is read back whole, whatever follows, and writing it does not
-- panic.
pub lp_bytes-Encodes : (b : Bytes) → length b < 2 ^ 31 → Encodes (write_lp_bytes b) read_lp_bytes b
unfolding write_lp_bytes read_lp_bytes
lp_bytes-Encodes [] h =
    Encodes-bind _ (Encodes-context _ (vint-Encodes 0 (omega arith))) (Encodes-pure [])
lp_bytes-Encodes (x ∷ xs) h = rw fits (
    Encodes-bind _ (Encodes-context _ (vint-Encodes n (omega arith)))
      (rw (nonzero, not_negative, some_bytes) (Encodes-context _ (read_full-Encodes n _ refl))))
  where
    n : ℕ
    n = length (x ∷ xs)

    fits : u32 n ≡ n
    fits = omega arith

    nonzero : (n == 0) ≡ false
    nonzero = ground arith

    not_negative : is_negative32 n ≡ false
    not_negative = ground arith

    some_bytes : ltb 0 n ≡ true
    some_bytes = ground arith

pub lp_string-Encodes :
    (s : Bytes) → length s < 2 ^ 31 → Encodes (write_lp_string s) read_lp_string s
unfolding write_lp_string read_lp_string
lp_string-Encodes s h = Encodes-map (λ b. b) (lp_bytes-Encodes s h)

pub byte-Encodes : (v : ℕ) → Encodes (wrote (v ∷ [])) read_u1 v
unfolding read_u1
byte-Encodes v = Encodes-map _ (read_full-Encodes 1 (v ∷ []) refl)

pub u1-Encodes : (v : ℕ) → Encodes (write_u1 v) read_u1 v
unfolding write_u1
u1-Encodes v = byte-Encodes v

-- A uint16 is read back from its two bytes.
pub u2-Encodes : (v : ℕ) → IsU16 v → Encodes (write_u2 v) read_u2 v
unfolding write_u2 read_u2
u2-Encodes v h =
    let whole : bit_or (byte (v / 2 ^ 8) * 2 ^ 8) (byte v) ≡ v =
      omega (arith, bit_or-eq-add 8 (byte (v / 2 ^ 8) * 2 ^ 8) (byte v)) in
    subst (λ t. Encodes (write_u2 v) read_u2 t) whole
      (Encodes-map _ (read_full-Encodes 2 (byte (v / 2 ^ 8) ∷ byte v ∷ []) refl))

long_of_bytes :
    (v : ℕ)
    → IsU64 v
    → long_of (
        byte (v / 2 ^ 56)
        ∷ byte (v / 2 ^ 48)
        ∷ byte (v / 2 ^ 40)
        ∷ byte (v / 2 ^ 32)
        ∷ byte (v / 2 ^ 24)
        ∷ byte (v / 2 ^ 16)
        ∷ byte (v / 2 ^ 8)
        ∷ byte v
        ∷ [])
      ≡ v
long_of_bytes v h =
    rw (top, step56_48, step48_40, step40_32, step32_24, step24_16, step16_8, step8_0) refl
  where
    top : u64 (byte (v / 2 ^ 56) * 2 ^ 56) ≡ v / 2 ^ 56 * 2 ^ 56
    top = omega arith

    step56_48 :
        bit_or (v / 2 ^ 56 * 2 ^ 56) (u64 (byte (v / 2 ^ 48) * 2 ^ 48)) ≡ v / 2 ^ 48 * 2 ^ 48
    step56_48 =
        omega (arith, bit_or-eq-add 56 (v / 2 ^ 56 * 2 ^ 56) (u64 (byte (v / 2 ^ 48) * 2 ^ 48)))

    step48_40 :
        bit_or (v / 2 ^ 48 * 2 ^ 48) (u64 (byte (v / 2 ^ 40) * 2 ^ 40)) ≡ v / 2 ^ 40 * 2 ^ 40
    step48_40 =
        omega (arith, bit_or-eq-add 48 (v / 2 ^ 48 * 2 ^ 48) (u64 (byte (v / 2 ^ 40) * 2 ^ 40)))

    step40_32 :
        bit_or (v / 2 ^ 40 * 2 ^ 40) (u64 (byte (v / 2 ^ 32) * 2 ^ 32)) ≡ v / 2 ^ 32 * 2 ^ 32
    step40_32 =
        omega (arith, bit_or-eq-add 40 (v / 2 ^ 40 * 2 ^ 40) (u64 (byte (v / 2 ^ 32) * 2 ^ 32)))

    step32_24 :
        bit_or (v / 2 ^ 32 * 2 ^ 32) (u64 (byte (v / 2 ^ 24) * 2 ^ 24)) ≡ v / 2 ^ 24 * 2 ^ 24
    step32_24 =
        omega (arith, bit_or-eq-add 32 (v / 2 ^ 32 * 2 ^ 32) (u64 (byte (v / 2 ^ 24) * 2 ^ 24)))

    step24_16 :
        bit_or (v / 2 ^ 24 * 2 ^ 24) (u64 (byte (v / 2 ^ 16) * 2 ^ 16)) ≡ v / 2 ^ 16 * 2 ^ 16
    step24_16 =
        omega (arith, bit_or-eq-add 24 (v / 2 ^ 24 * 2 ^ 24) (u64 (byte (v / 2 ^ 16) * 2 ^ 16)))

    step16_8 : bit_or (v / 2 ^ 16 * 2 ^ 16) (u64 (byte (v / 2 ^ 8) * 2 ^ 8)) ≡ v / 2 ^ 8 * 2 ^ 8
    step16_8 =
        omega (arith, bit_or-eq-add 16 (v / 2 ^ 16 * 2 ^ 16) (u64 (byte (v / 2 ^ 8) * 2 ^ 8)))

    step8_0 : bit_or (v / 2 ^ 8 * 2 ^ 8) (byte v) ≡ v
    step8_0 = omega (arith, bit_or-eq-add 8 (v / 2 ^ 8 * 2 ^ 8) (byte v))

-- An int64 is read back from its eight bytes, and writing it does not panic.
pub long-Encodes : (v : ℕ) → IsU64 v → Encodes (write_long v) read_long v
unfolding write_long read_long
long-Encodes v h =
    subst (λ t. Encodes (write_long v) read_long t) (long_of_bytes v h)
      (Encodes-map long_of (Encodes-context _ (read_full-Encodes 8 _ refl)))

-- An int32 is read back from its four bytes, and writing it does not panic.
pub int32-Encodes : (v : ℕ) → IsU32 v → Encodes (write_int32 v) read_int32 v
unfolding write_int32 read_int32
int32-Encodes v h =
    subst (λ t. Encodes (write_int32 v) read_int32 t) (rw (top, step24_16, step16_8, step8_0) refl)
      (Encodes-map _ (Encodes-context _ (read_full-Encodes 4 _ refl)))
  where
    top : u32 (byte (v / 2 ^ 24) * 2 ^ 24) ≡ v / 2 ^ 24 * 2 ^ 24
    top = omega arith

    step24_16 :
        bit_or (v / 2 ^ 24 * 2 ^ 24) (u32 (byte (v / 2 ^ 16) * 2 ^ 16)) ≡ v / 2 ^ 16 * 2 ^ 16
    step24_16 =
        omega (arith, bit_or-eq-add 24 (v / 2 ^ 24 * 2 ^ 24) (u32 (byte (v / 2 ^ 16) * 2 ^ 16)))

    step16_8 : bit_or (v / 2 ^ 16 * 2 ^ 16) (u32 (byte (v / 2 ^ 8) * 2 ^ 8)) ≡ v / 2 ^ 8 * 2 ^ 8
    step16_8 =
        omega (arith, bit_or-eq-add 16 (v / 2 ^ 16 * 2 ^ 16) (u32 (byte (v / 2 ^ 8) * 2 ^ 8)))

    step8_0 : bit_or (v / 2 ^ 8 * 2 ^ 8) (byte v) ≡ v
    step8_0 = omega (arith, bit_or-eq-add 8 (v / 2 ^ 8 * 2 ^ 8) (byte v))

-- The folded number of a non-negative and of a negative int32, and its unfolding.
zigzag_pos :
    (v : ℕ)
    → v < 2 ^ 31
    → (bit_xor (u32 (v * 2)) (sign32 v) ≡ v * 2)
      × (bit_xor (v * 2 / 2) (neg32 (bit_and (v * 2) 1)) ≡ v)
zigzag_pos v h = (ground (arith, bit_xor-zero (v * 2)), rw (even, half) (bit_xor-zero v))
  where
    even : neg32 (bit_and (v * 2) 1) ≡ 0
    even = omega (arith, bit_and-1 (v * 2))

    half : v * 2 / 2 ≡ v
    half = omega arith

zigzag_neg :
    (v : ℕ)
    → IsU32 v
    → 2 ^ 31 ≤ v
    → (bit_xor (u32 (v * 2)) (sign32 v) ≡ 2 ^ 33 - 1 - v * 2)
      × (bit_xor ((2 ^ 33 - 1 - v * 2) / 2) (neg32 (bit_and (2 ^ 33 - 1 - v * 2) 1)) ≡ v)
zigzag_neg v h n = (
  ground (arith, bit_xor_ones 32 (v * 2 - 2 ^ 32) minus_one32),
  rw odd (omega (arith, bit_xor_ones 32 ((2 ^ 33 - 1 - v * 2) / 2) minus_one32)),
)
  where
    odd : neg32 (bit_and (2 ^ 33 - 1 - v * 2) 1) ≡ minus_one32
    odd = omega (arith, bit_and-1 (2 ^ 33 - 1 - v * 2))

-- An int32, negative or not, is read back from the encoding that folds its sign into the lowest bit, and
-- writing it does not panic.
pub signed_vint-Encodes : (v : ℕ) → IsU32 v → Encodes (write_signed_vint v) read_signed_vint v
unfolding write_signed_vint read_signed_vint
signed_vint-Encodes v h = elim (dec_lt v (2 ^ 31)) [
  | yes small ↦ folded (v * 2) (zigzag_pos v small).0 (omega arith) (zigzag_pos v small).1
  | no large ↦
      let n : 2 ^ 31 ≤ v = omega arith in
      folded (2 ^ 33 - 1 - v * 2) (zigzag_neg v h n).0 (omega arith) (zigzag_neg v h n).1
]
  where
    folded :
        (u : ℕ)
        → bit_xor (u32 (v * 2)) (sign32 v) ≡ u
        → IsU32 u
        → bit_xor (u / 2) (neg32 (bit_and u 1)) ≡ v
        → Encodes (write_signed_vint v) read_signed_vint v
    folded u e fits back = rw e (
        subst (λ t. Encodes (write_vint u) read_signed_vint t) back
          (Encodes-map _ (vint-Encodes u fits)))
