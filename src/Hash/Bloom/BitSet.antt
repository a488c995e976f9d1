-- ===== src/Hash/Bloom/BitSet.antt =====
-- internal/hash/bloom.go: the bytes that are sent to the server.
use go_client.Prelude.{
  ℕ, zero, suc, ◌-◌, ◌≤◌, ◌<◌, ◌/◌, ◌≡◌, ◌≢◌, refl, [], ◌∷◌, length, get_or, true, false, ◌==◌, ltb,
  if◌then◌else◌, arith, Bool-cases, inl, inr, ap, sym, subst, ◌∙◌,
}
use go_client.Io.{Bytes}
use go_client.Hash.Bloom.{BloomFilter, has_bit, used_bytes, first_bytes, to_bit_set}
use native.Mathlib.Decide.{dec_lt}

get_or-first_bytes :
    (n : ℕ) (bits : Bytes) (i : ℕ)
    → get_or (first_bytes n bits) i 0 ≡ (if ltb i n then get_or bits i 0 else 0)
unfolding first_bytes
get_or-first_bytes zero bits i = ground arith
get_or-first_bytes (suc n) [] i = ground arith
get_or-first_bytes (suc n) (b ∷ bits) zero = ground arith
get_or-first_bytes (suc n) (b ∷ bits) (suc i) = ground (arith, get_or-first_bytes n bits i)

length-first_bytes : (n : ℕ) (bits : Bytes) → n ≤ length bits → length (first_bytes n bits) ≡ n
unfolding first_bytes
length-first_bytes zero bits h = refl
length-first_bytes (suc n) [] h = absurd (omega arith)
length-first_bytes (suc n) (b ∷ bits) h = ap suc (length-first_bytes n bits (omega arith))

-- Of the first `n` bytes, `u` are used: behind them all are 0, and the last of them is not.
abbrev IsUsed : ℕ → Bytes → ℕ → Type 0
IsUsed n bits u =
    (u ≤ n) × ((i : ℕ) → u ≤ i → i < n → get_or bits i 0 ≡ 0) × (0 < u → get_or bits (u - 1) 0 ≢ 0)

used-zero :
    (n : ℕ) (bits : Bytes)
    → (get_or bits n 0 == 0) ≡ true
    → used_bytes n bits ≡ used_bytes (suc n) bits
unfolding used_bytes
used-zero n bits e = ground arith

used-nonzero :
    (n : ℕ) (bits : Bytes) → (get_or bits n 0 == 0) ≡ false → suc n ≡ used_bytes (suc n) bits
unfolding used_bytes
used-nonzero n bits e = ground arith

-- Behind the bytes that are left all are 0, and the last of them is not.
used_bytes_lem : (n : ℕ) (bits : Bytes) → IsUsed n bits (used_bytes n bits)
unfolding used_bytes
used_bytes_lem zero bits = (omega arith, λ i h l. absurd (omega arith), λ h. absurd (omega arith))
used_bytes_lem (suc n) bits = elim (Bool-cases (get_or bits n 0 == 0)) [
  | inl last_zero ↦
      let (few, zeros, last) = used_bytes_lem n bits in
      let zero_n : get_or bits n 0 ≡ 0 = ground arith in
      subst (IsUsed (suc n) bits) (used-zero n bits last_zero) (
        omega arith,
        λ i h l. elim (dec_lt i n) [
          | yes below ↦ zeros i h below
          | no at_end ↦
              (let same : n ≡ i = omega arith in ap (λ j. get_or bits j 0) (sym same) ∙ zero_n)
        ],
        last,
      )
  | inr last_used ↦
      subst (IsUsed (suc n) bits) (used-nonzero n bits last_used)
        (omega arith, λ i h l. absurd (omega arith), λ h e. ground arith)
]

get_or-past : (bits : Bytes) (i : ℕ) → length bits ≤ i → get_or bits i 0 ≡ 0
get_or-past [] i h = refl
get_or-past (b ∷ bits) zero h = absurd (omega arith)
get_or-past (b ∷ bits) (suc i) h = get_or-past bits i (omega arith)

same_byte :
    (u : ℕ) (bits : Bytes) (i : ℕ)
    → u ≤ length bits
    → ((i : ℕ) → u ≤ i → i < length bits → get_or bits i 0 ≡ 0)
    → get_or (first_bytes u bits) i 0 ≡ get_or bits i 0
same_byte u bits i few zeros = elim (dec_lt i u) [
  | yes below ↦ get_or-first_bytes u bits i ∙ ground arith
  | no behind ↦ elim (dec_lt i (length bits)) [
    | yes inside ↦ get_or-first_bytes u bits i ∙ ground (arith, zeros i (omega arith) inside)
    | no past ↦ get_or-first_bytes u bits i ∙ ground (arith, get_or-past bits i (omega arith))
  ]
]

kept_last :
    (u : ℕ) (bits : Bytes) → 0 < u → get_or (first_bytes u bits) (u - 1) 0 ≡ get_or bits (u - 1) 0
kept_last u bits h = get_or-first_bytes u bits (u - 1) ∙ ground arith

has_bit-byte :
    (bits bits' : Bytes) (i : ℕ)
    → get_or bits (i / 8) 0 ≡ get_or bits' (i / 8) 0
    → has_bit bits i ≡ has_bit bits' i
unfolding has_bit
has_bit-byte bits bits' i e = rw e refl

-- The bytes of ToBitSet have the same bits as the filter, and the last of them, if there is one, is not 0.
pub to_bit_set-has_bit :
    (bf : BloomFilter)
    → ((i : ℕ) → has_bit (to_bit_set bf) i ≡ has_bit bf.bits i)
      × (0 < length (to_bit_set bf) → get_or (to_bit_set bf) (length (to_bit_set bf) - 1) 0 ≢ 0)
unfolding to_bit_set
to_bit_set-has_bit bf =
    let n = length bf.bits in
    let u = used_bytes n bf.bits in
    let (few, zeros, last) = used_bytes_lem n bf.bits in
    let long = length-first_bytes u bf.bits few in
    (
      λ i. has_bit-byte (first_bytes u bf.bits) bf.bits i (same_byte u bf.bits (i / 8) few zeros),
      λ h e. last (omega arith) (
          sym (kept_last u bf.bits (omega arith))
          ∙ (ap (λ m. get_or (first_bytes u bf.bits) (m - 1) 0) (sym long) ∙ e)),
    )
