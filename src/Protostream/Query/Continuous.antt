-- ===== src/Protostream/Query/Continuous.antt =====
-- internal/protostream/wrapped.go: DecodeCQResult on what a server sends for a continuous query.
use go_client.Prelude.{
  ℕ, ◌^◌, ◌<◌, ◌≡◌, refl, sym, ap, ◌∙◌, List, [], ◌∷◌, ◌++◌, map, append_assoc, append-nil, Option,
  none, some, Bool, true, false, length, All, IsByte, arith,
}
use go_client.Io.{Bytes, answered}
use go_client.Protostream.Wire.{ok, append_uvarint}
use go_client.Protostream.Wire.Varint.{decode_uvarint-append_uvarint}
use go_client.Protostream.Wire.Fields.{Field, varint, delimited, encode_fields}
use go_client.Protostream.Wire.Scan.{
  of_answer, scan_fields-fields, visit_fields, visit_fields-append, visit_fields-cons, IsInRange,
  fields-IsField,
}
use go_client.Protostream.Query.{CqResult, cq_field, decode_cq_result}

abbrev value_fields : Option Bytes → List Field
value_fields none = []
value_fields (some v) = delimited 3 v ∷ []

-- The fields of a ContinuousQueryResult; a value may be missing.
abbrev pub cq_fields : ℕ → Bytes → Option Bytes → List Bytes → List Field
cq_fields t key value projections =
    varint 1 t ∷ delimited 2 key ∷ (value_fields value ++ map (delimited 4) projections)

abbrev pub cq_result : ℕ → Bytes → Option Bytes → List Bytes → CqResult
cq_result t key value projections = record {
  result_type = t;
  key = key;
  value = value;
  projections = projections;
}

type_read :
    (r : CqResult) (t : ℕ) (b c : Bool)
    → IsByte t
    → cq_field 1 0 (append_uvarint t) (r, b, c) ≡ answered (record r { result_type = t }, true, c)
unfolding cq_field
type_read r t b c h =
    ap (λ s. cq_field 1 0 s (r, b, c)) (sym (append-nil (append_uvarint t)))
    ∙ rw (decode_uvarint-append_uvarint t [] (omega arith), cq_field)
        (ap (λ (u : ℕ). answered (record r { result_type = u }, true, c)) (omega arith))

projections_read :
    (ps : List Bytes) (r : CqResult) (b c : Bool)
    → visit_fields cq_field (map (delimited 4) ps) (r, b, c)
      ≡ answered (record r { projections = r.projections ++ ps }, b, c)
unfolding visit_fields cq_field
projections_read [] r b c =
    ap (λ t. answered (record r { projections = t }, b, c)) (sym (append-nil r.projections))
projections_read (p ∷ ps) r b c =
    projections_read ps (record r { projections = r.projections ++ p ∷ [] }) b c
    ∙ ap (λ t. answered (record r { projections = t }, b, c))
        (append_assoc r.projections (p ∷ []) ps)

value_read :
    (value : Option Bytes) (r : CqResult) (b c : Bool)
    → r.value ≡ none
    → visit_fields cq_field (value_fields value) (r, b, c)
      ≡ answered (record r { value = value }, b, c)
unfolding visit_fields cq_field
value_read none r b c e = ap (λ v. answered (record r { value = v }, b, c)) e
value_read (some v) r b c e = refl

cq-IsInRange :
    (t : ℕ) (key : Bytes) (value : Option Bytes) (ps : List Bytes)
    → IsByte t
    → All IsInRange (cq_fields t key value ps)
cq-IsInRange t key value ps h = ((omega arith, omega arith), (omega arith, rest value))
  where
    all_projections : (ps : List Bytes) → All IsInRange (map (delimited 4) ps)
    all_projections [] = tt
    all_projections (p ∷ ps) = (omega arith, all_projections ps)

    rest : (value : Option Bytes) → All IsInRange (value_fields value ++ map (delimited 4) ps)
    rest none = all_projections ps
    rest (some v) = (omega arith, all_projections ps)

key_read :
    (r : CqResult) (key : Bytes)
    → cq_field 2 2 key (r, true, false) ≡ answered (record r { key = key }, true, true)
unfolding cq_field
key_read r key = refl

-- A ContinuousQueryResult whose type is a byte and whose encoding is shorter than 2^63 bytes is decoded
-- to its type, key, value and projections; a value is nil exactly if its field is missing, and not where the
-- field is empty.
pub decode_cq_result-fields :
    (t : ℕ) (key : Bytes) (value : Option Bytes) (projections : List Bytes)
    → IsByte t
    → length (encode_fields (cq_fields t key value projections)) < 2 ^ 63
    → decode_cq_result (encode_fields (cq_fields t key value projections))
      ≡ ok (cq_result t key value projections)
unfolding decode_cq_result
decode_cq_result-fields t key value ps h fits =
    let start : CqResult = record { result_type = 0; key = []; value = none; projections = [] } in
    let typed : CqResult = record start { result_type = t } in
    let keyed : CqResult = record typed { key = key } in
    let valued : CqResult = record keyed { value = value } in
    let rest = value_fields value ++ map (delimited 4) ps in
    rw
      (scan_fields-fields cq_field (cq_fields t key value ps) (start, false, false)
          (fields-IsField _ (cq-IsInRange t key value ps h) fits) fits
        ∙ ap of_answer (
            visit_fields-cons cq_field (varint 1 t) (delimited 2 key ∷ rest) (start, false, false)
              (typed, true, false) (type_read start t false false h)
            ∙ visit_fields-cons cq_field (delimited 2 key) rest (typed, true, false)
                (keyed, true, true) (key_read typed key)
            ∙ visit_fields-append cq_field (value_fields value) (map (delimited 4) ps)
                (keyed, true, true) (valued, true, true) (value_read value keyed true true refl)
            ∙ projections_read ps valued true true))
      refl
