-- ===== src/Hotrod/Transaction/Hex.antt =====
-- hexKey of hotrod/transaction.go: different keys have different hex forms.
use go_client.Prelude.{
  ℕ, zero, suc, ◌+◌, ◌-◌, ◌*◌, ◌/◌, ◌<◌, ◌≡◌, refl, [], ◌∷◌, ltb, if◌then◌else◌, get_or, All,
  IsByte, bit_and, arith, sym, ap, ◌∙◌,
}
use go_client.Prelude.Bits.{bit_and-15}
use go_client.Io.{Bytes}
use go_client.Hotrod.Transaction.{hextable, hex_key}

-- A key consists of bytes.
abbrev pub IsKey : Bytes → Type 0
IsKey key = All IsByte key

abbrev digit_value : ℕ → ℕ
digit_value c = if ltb c 58 then c - 48 else c - 87

digit_value-digit : (i : ℕ) → i < 16 → digit_value (get_or hextable i 0) ≡ i
digit_value-digit zero h = refl
digit_value-digit (suc zero) h = refl
digit_value-digit (suc (suc zero)) h = refl
digit_value-digit (suc (suc (suc zero))) h = refl
digit_value-digit (suc (suc (suc (suc zero)))) h = refl
digit_value-digit (suc (suc (suc (suc (suc zero))))) h = refl
digit_value-digit (suc (suc (suc (suc (suc (suc zero)))))) h = refl
digit_value-digit (suc (suc (suc (suc (suc (suc (suc zero))))))) h = refl
digit_value-digit (suc (suc (suc (suc (suc (suc (suc (suc zero)))))))) h = refl
digit_value-digit (suc (suc (suc (suc (suc (suc (suc (suc (suc zero))))))))) h = refl
digit_value-digit (suc (suc (suc (suc (suc (suc (suc (suc (suc (suc zero)))))))))) h = refl
digit_value-digit (suc (suc (suc (suc (suc (suc (suc (suc (suc (suc (suc zero))))))))))) h = refl
digit_value-digit (suc (suc (suc (suc (suc (suc (suc (suc (suc (suc (suc (suc zero)))))))))))) h =
    refl
digit_value-digit (suc (suc (suc (suc (suc (suc (suc (suc (suc (suc (suc (suc (suc zero)))))))))))))
      h =
    refl
digit_value-digit
      (suc (suc (suc (suc (suc (suc (suc (suc (suc (suc (suc (suc (suc (suc zero)))))))))))))) h =
    refl
digit_value-digit
      (suc (suc (suc (suc (suc (suc (suc (suc (suc (suc (suc (suc (suc (suc (suc zero)))))))))))))))
      h =
    refl
digit_value-digit
      (suc
        (suc (suc (suc (suc (suc (suc (suc (suc (suc (suc (suc (suc (suc (suc (suc n))))))))))))))))
      h =
    absurd (omega arith)

unfoldable from_hex : Bytes → Bytes
from_hex [] = []
from_hex (c ∷ []) = []
from_hex (c ∷ d ∷ s) = (digit_value c * 16 + digit_value d) ∷ from_hex s

from_hex-hex_key : (key : Bytes) → IsKey key → from_hex (hex_key key) ≡ key
unfolding from_hex hex_key
from_hex-hex_key [] h = refl
from_hex-hex_key (v ∷ b) (hv, hb) =
    let high = digit_value-digit (v / 16) (omega arith) in
    let low = digit_value-digit (bit_and v 0x0f) (omega (arith, bit_and-15 v)) in
    rw (high, low, from_hex-hex_key b hb) (ap (λ x. x ∷ b) (omega (arith, bit_and-15 v)))

pub hex_key-injective : (j k : Bytes) → IsKey j → IsKey k → hex_key j ≡ hex_key k → j ≡ k
hex_key-injective j k hj hk same =
    sym (from_hex-hex_key j hj) ∙ (ap from_hex same ∙ from_hex-hex_key k hk)
