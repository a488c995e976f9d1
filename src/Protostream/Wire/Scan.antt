-- ===== src/Protostream/Wire/Scan.antt =====
-- internal/protostream/wrapped.go: ScanFields on whole messages, and on any bytes.
use go_client.Prelude.{
  ℕ, zero, suc, ◌+◌, ◌^◌, ◌≤◌, ◌<◌, ◌≡◌, refl, sym, ap, ◌∙◌, List, [], ◌∷◌, ◌++◌, append_assoc,
  length, length-append, All, IsU64, arith,
}
use go_client.Io.{Bytes, Answer, answered, failed}
use go_client.Protostream.Wire.{
  Result, ok, err, append_uvarint, append_tag, scan_round, scan_loop, scan_fields,
}
use go_client.Protostream.Wire.Varint.{append_uvarint_pos}
use go_client.Protostream.Wire.Fields.{
  Field, varint, fixed64, delimited, fixed32, field_number, wire_type, content, field_bytes,
  encode_fields, IsField, scan_round-field,
}

abbrev pub of_answer {ℓ} : {A : Type ℓ} → Answer A → Result A
of_answer (answered a) = ok a
of_answer (failed e) = err e

field_bytes_pos : (f : Field) → 0 < length (field_bytes f)
unfolding field_bytes append_tag
field_bytes_pos f =
    omega (arith, length-append (append_tag (field_number f) (wire_type f)) _, append_uvarint_pos _)

module _ {S : Type 0} (fn : ℕ → ℕ → Bytes → S → Answer S) where
  -- The fields in order, up to the first error.
  unfoldable pub visit_fields : List Field → S → Answer S
  visit_fields [] st = answered st
  visit_fields (f ∷ fs) st = elim (fn (field_number f) (wire_type f) (content f) st) [
    | failed e ↦ failed e
    | answered st' ↦ visit_fields fs st'
  ]

  -- A round that is one visit.
  loop_round :
      (fuel pos end : ℕ) (s rest : Bytes) (st : S) (a : Answer S)
      → 0 < length s
      → scan_round fn pos s st ≡ (elim a [ failed e ↦ err e | answered st' ↦ ok (end, rest, st') ])
      → scan_loop fn (suc fuel) pos s st
        ≡ (elim a [ failed e ↦ err e | answered st' ↦ scan_loop fn fuel end rest st' ])
  unfolding scan_loop
  loop_round fuel pos end [] rest st a h e = absurd (omega arith)
  loop_round fuel pos end (b ∷ s) rest st (failed x) h e = rw (e, scan_loop) refl
  loop_round fuel pos end (b ∷ s) rest st (answered st') h e = rw (e, scan_loop) refl

  scan_loop-fields :
      (fuel pos : ℕ) (fs : List Field) (st : S)
      → All IsField fs
      → length (encode_fields fs) ≤ fuel
      → pos + length (encode_fields fs) < 2 ^ 63
      → scan_loop fn fuel pos (encode_fields fs) st ≡ of_answer (visit_fields fs st)
  unfolding encode_fields visit_fields scan_loop
  scan_loop-fields zero pos [] st h enough fits = refl
  scan_loop-fields (suc fuel) pos [] st h enough fits = refl
  scan_loop-fields zero pos (f ∷ fs) st h enough fits =
      absurd (omega (arith, field_bytes_pos f, length-append (field_bytes f) (encode_fields fs)))
  scan_loop-fields (suc fuel) pos (f ∷ fs) st (hf, hs) enough fits =
      let whole : length (field_bytes f ++ encode_fields fs)
          ≡ length (field_bytes f) + length (encode_fields fs) =
        length-append (field_bytes f) (encode_fields fs) in
      let pos_f : 0 < length (field_bytes f) = field_bytes_pos f in
      loop_round fuel pos (pos + length (field_bytes f)) _ (encode_fields fs) st _ (omega arith)
        (scan_round-field fn f pos (encode_fields fs) st hf (omega arith))
      ∙ visited (fn (field_number f) (wire_type f) (content f) st) (λ st'.
        scan_loop-fields fuel (pos + length (field_bytes f)) fs st' hs (omega arith) (omega arith))
    where
      visited :
          (a : Answer S)
          → ((st' : S)
              → scan_loop fn fuel (pos + length (field_bytes f)) (encode_fields fs) st'
                ≡ of_answer (visit_fields fs st'))
          → (elim a [
            | failed e ↦ err e
            | answered st' ↦ scan_loop fn fuel (pos + length (field_bytes f)) (encode_fields fs) st'
          ])
            ≡ of_answer (elim a [ failed e ↦ failed e | answered st' ↦ visit_fields fs st' ])
      visited (failed e) ih = refl
      visited (answered st') ih = ih st'

  -- On the encoding of any sequence of fields whose values and lengths are in range, shorter than 2^63
  -- bytes, ScanFields calls its function on the fields in order with their contents, up to the first
  -- error, and returns what these calls come to.
  pub scan_fields-fields :
      (fs : List Field) (st : S)
      → All IsField fs
      → length (encode_fields fs) < 2 ^ 63
      → scan_fields fn (encode_fields fs) st ≡ of_answer (visit_fields fs st)
  unfolding scan_fields
  scan_fields-fields fs st h fits = scan_loop-fields _ 0 fs st h (omega arith) (omega arith)

-- What IsField asks for, but the bound on the length of a delimited field, which a bound on the whole
-- message gives.
abbrev pub IsInRange : Field → Type 0
IsInRange (varint n v) = (n < 2 ^ 61) × IsU64 v
IsInRange (fixed64 n c) = (n < 2 ^ 61) × (length c ≡ 8)
IsInRange (delimited n c) = n < 2 ^ 61
IsInRange (fixed32 n c) = (n < 2 ^ 61) × (length c ≡ 4)

field-IsField : (f : Field) → IsInRange f → length (field_bytes f) < 2 ^ 63 → IsField f
unfolding field_bytes
field-IsField (varint n v) h fits = h
field-IsField (fixed64 n c) h fits = h
field-IsField (fixed32 n c) h fits = h
field-IsField (delimited n c) h fits = (
  h,
  omega (
    arith,
    length-append (append_tag n 2) (append_uvarint (length c) ++ c),
    length-append (append_uvarint (length c)) c,
  ),
)

pub fields-IsField :
    (fs : List Field) → All IsInRange fs → length (encode_fields fs) < 2 ^ 63 → All IsField fs
unfolding encode_fields
fields-IsField [] h fits = tt
fields-IsField (f ∷ fs) (hf, hs) fits =
    let whole = length-append (field_bytes f) (encode_fields fs) in
    (field-IsField f hf (omega arith), fields-IsField fs hs (omega arith))

pub encode_fields-append :
    (fs gs : List Field) → encode_fields (fs ++ gs) ≡ encode_fields fs ++ encode_fields gs
unfolding encode_fields
encode_fields-append [] gs = refl
encode_fields-append (f ∷ fs) gs =
    ap (λ t. field_bytes f ++ t) (encode_fields-append fs gs)
    ∙ sym (append_assoc (field_bytes f) (encode_fields fs) (encode_fields gs))

module _ {S : Type 0} (fn : ℕ → ℕ → Bytes → S → Answer S) where
  pub visit_fields-append :
      (fs gs : List Field) (st st' : S)
      → visit_fields fn fs st ≡ answered st'
      → visit_fields fn (fs ++ gs) st ≡ visit_fields fn gs st'
  unfolding visit_fields
  visit_fields-append [] gs st st' e =
      ap (λ a. elim a [ failed x ↦ failed x | answered t ↦ visit_fields fn gs t ]) e
  visit_fields-append (f ∷ fs) gs st st' e =
      first (fn (field_number f) (wire_type f) (content f) st)
        (λ t h. visit_fields-append fs gs t st' h) e
    where
      first :
          (a : Answer S)
          → ((t : S)
              → visit_fields fn fs t ≡ answered st'
              → visit_fields fn (fs ++ gs) t ≡ visit_fields fn gs st')
          → (elim a [ failed x ↦ failed x | answered t ↦ visit_fields fn fs t ]) ≡ answered st'
          → (elim a [ failed x ↦ failed x | answered t ↦ visit_fields fn (fs ++ gs) t ])
            ≡ visit_fields fn gs st'
      first (failed x) ih h = cc
      first (answered t) ih h = ih t h

  -- A field that is visited without an error.
  pub visit_fields-cons :
      (f : Field) (fs : List Field) (st st' : S)
      → fn (field_number f) (wire_type f) (content f) st ≡ answered st'
      → visit_fields fn (f ∷ fs) st ≡ visit_fields fn fs st'
  unfolding visit_fields
  visit_fields-cons f fs st st' e =
      ap (λ a. elim a [ failed x ↦ failed x | answered t ↦ visit_fields fn fs t ]) e
