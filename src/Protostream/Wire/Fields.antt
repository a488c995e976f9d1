-- ===== src/Protostream/Wire/Fields.antt =====
-- internal/protostream/wrapped.go: a message is a sequence of fields, and ScanFields visits them in order.
use go_client.Prelude.{
  ℕ, ◌+◌, ◌*◌, ◌/◌, ◌^◌, ◌≤◌, ◌<◌, ◌≡◌, refl, ap, ◌∙◌, subst, List, [], ◌∷◌, ◌++◌, append_assoc,
  some, length, length-append, bit_or, bit_and, IsU64, arith,
}
use go_client.Prelude.Bits.{bit_and-7, bit_or_high}
use go_client.Io.{Bytes, Answer, answered, failed}
use go_client.Protostream.Wire.{
  Result, ok, err, append_uvarint, append_tag, decode_uvarint, take, drop, visit, visit_fixed,
  visit_delimited, is_truncated, is_reversed, scan_field, scan_round,
}
use go_client.Protostream.Wire.Varint.{decode_uvarint-append_uvarint, append_uvarint_few}

-- A field with its number, as the wire format has it.
pub data Field : Type 0 where
  varint : ℕ → ℕ → Field
  fixed64 : ℕ → Bytes → Field
  delimited : ℕ → Bytes → Field
  fixed32 : ℕ → Bytes → Field

abbrev pub field_number : Field → ℕ
field_number (varint n v) = n
field_number (fixed64 n c) = n
field_number (delimited n c) = n
field_number (fixed32 n c) = n

abbrev pub wire_type : Field → ℕ
wire_type (varint n v) = 0
wire_type (fixed64 n c) = 1
wire_type (delimited n c) = 2
wire_type (fixed32 n c) = 5

-- What ScanFields passes on of a field.
abbrev pub content : Field → Bytes
content (varint n v) = append_uvarint v
content (fixed64 n c) = c
content (delimited n c) = c
content (fixed32 n c) = c

abbrev pub body : Field → Bytes
body (varint n v) = append_uvarint v
body (fixed64 n c) = c
body (delimited n c) = append_uvarint (length c) ++ c
body (fixed32 n c) = c

unfoldable pub field_bytes : Field → Bytes
field_bytes f = append_tag (field_number f) (wire_type f) ++ body f

unfoldable pub encode_fields : List Field → Bytes
encode_fields [] = []
encode_fields (f ∷ fs) = field_bytes f ++ encode_fields fs

-- The values are in range and the fixed fields have their lengths.
abbrev pub IsField : Field → Type 0
IsField (varint n v) = (n < 2 ^ 61) × IsU64 v
IsField (fixed64 n c) = (n < 2 ^ 61) × (length c ≡ 8)
IsField (delimited n c) = (n < 2 ^ 61) × (length c < 2 ^ 63)
IsField (fixed32 n c) = (n < 2 ^ 61) × (length c ≡ 4)

take-append : (c rest : Bytes) → take (length c) (c ++ rest) ≡ c
unfolding take
take-append [] rest = refl
take-append (b ∷ c) rest = ap (λ t. b ∷ t) (take-append c rest)

pub drop-append : (c rest : Bytes) → drop (length c) (c ++ rest) ≡ rest
unfolding drop
drop-append [] rest = refl
drop-append (b ∷ c) rest = drop-append c rest

tag-eq : (n w : ℕ) → w < 8 → bit_or (n * 2 ^ 3) w ≡ n * 8 + w
tag-eq n w h = bit_or_high 3 w n (omega arith)

-- The tag of a field is taken apart again.
pub decode_uvarint-append_tag :
    (n w : ℕ) (rest : Bytes)
    → n < 2 ^ 61
    → w < 8
    → decode_uvarint (append_tag n w ++ rest) ≡ some (n * 8 + w, length (append_tag n w))
unfolding append_tag
decode_uvarint-append_tag n w rest hn hw =
    rw (tag-eq n w hw) (decode_uvarint-append_uvarint (n * 8 + w) rest (omega arith))

-- A field takes at most twenty bytes more than its content.
pub length-field_bytes : (f : Field) → length (field_bytes f) ≤ length (content f) + 20
unfolding field_bytes append_tag
length-field_bytes (delimited n c) = omega (
  arith,
  length-append (append_tag n 2) (append_uvarint (length c) ++ c),
  length-append (append_uvarint (length c)) c,
  append_uvarint_few (bit_or (n * 2 ^ 3) 2),
  append_uvarint_few (length c),
)
length-field_bytes (varint n v) = omega (
  arith,
  length-append (append_tag n 0) (append_uvarint v),
  append_uvarint_few (bit_or (n * 2 ^ 3) 0),
)
length-field_bytes (fixed64 n c) =
    omega (arith, length-append (append_tag n 1) c, append_uvarint_few (bit_or (n * 2 ^ 3) 1))
length-field_bytes (fixed32 n c) =
    omega (arith, length-append (append_tag n 5) c, append_uvarint_few (bit_or (n * 2 ^ 3) 5))

number_bound : (f : Field) → IsField f → field_number f < 2 ^ 61
number_bound (varint n v) h = h.0
number_bound (fixed64 n c) h = h.0
number_bound (delimited n c) h = h.0
number_bound (fixed32 n c) h = h.0

type_bound : (f : Field) → wire_type f < 8
type_bound (varint n v) = omega arith
type_bound (fixed64 n c) = omega arith
type_bound (delimited n c) = omega arith
type_bound (fixed32 n c) = omega arith

module _ {S : Type 0} (fn : ℕ → ℕ → Bytes → S → Answer S) where
  -- What a visit comes to, once its content is known.
  abbrev pub after : ℕ → ℕ → Bytes → ℕ → Bytes → S → Result (ℕ × Bytes × S)
  after n w c end rest st = elim (fn n w c st) [
    | failed e ↦ err e
    | answered st' ↦ ok (end, rest, st')
  ]

  visit-append :
      (n w pos : ℕ) (c rest : Bytes) (st : S)
      → visit fn n w (length c) pos (c ++ rest) st ≡ after n w c (pos + length c) rest st
  unfolding visit
  visit-append n w pos c rest st =
      ap (λ a. after n w a (pos + length c) (drop (length c) (c ++ rest)) st) (take-append c rest)
      ∙ ap (λ b. after n w c (pos + length c) b st) (drop-append c rest)

  visit_fixed-append :
      (k n w pos : ℕ) (c rest : Bytes) (st : S)
      → length c ≡ k
      → visit_fixed fn n w k pos (c ++ rest) st ≡ after n w c (pos + length c) rest st
  unfolding visit_fixed
  visit_fixed-append k n w pos c rest st e =
      subst (λ k. visit_fixed fn n w k pos (c ++ rest) st ≡ after n w c (pos + length c) rest st) e
        (ground (arith, length-append c rest, visit-append n w pos c rest st))

  visit_delimited-append :
      (n pos : ℕ) (c rest : Bytes) (st : S)
      → pos + length c < 2 ^ 63
      → visit_delimited fn n (length c) pos (c ++ rest) st ≡ after n 2 c (pos + length c) rest st
  unfolding visit_delimited is_truncated is_reversed
  visit_delimited-append n pos c rest st fits =
      ground (arith, length-append c rest, visit-append n 2 pos c rest st)

  scan_field-body :
      (f : Field) (pos : ℕ) (rest : Bytes) (st : S)
      → IsField f
      → pos + length (body f) < 2 ^ 63
      → scan_field fn (field_number f) (wire_type f) pos (body f ++ rest) st
        ≡ after (field_number f) (wire_type f) (content f) (pos + length (body f)) rest st
  unfolding scan_field
  scan_field-body (varint n v) pos rest st h fits =
      rw (decode_uvarint-append_uvarint v rest h.1, scan_field)
        (visit-append n 0 pos (append_uvarint v) rest st)
  scan_field-body (fixed64 n c) pos rest st h fits = visit_fixed-append 8 n 1 pos c rest st h.1
  scan_field-body (delimited n c) pos rest st h fits =
      let len = append_uvarint (length c) in
      let whole : length (len ++ c) ≡ length len + length c = length-append len c in
      ap (λ t. scan_field fn n 2 pos t st) (append_assoc len c rest)
      ∙ rw (decode_uvarint-append_uvarint (length c) (c ++ rest) (omega arith), scan_field)
          (ap (λ t. visit_delimited fn n (length c) (pos + length len) t st)
              (drop-append len (c ++ rest))
            ∙ visit_delimited-append n (pos + length len) c rest st (omega arith)
            ∙ ap (λ (t : ℕ). after n 2 c t rest st) (omega arith))
  scan_field-body (fixed32 n c) pos rest st h fits = visit_fixed-append 4 n 5 pos c rest st h.1

  pub scan_round-field :
      (f : Field) (pos : ℕ) (rest : Bytes) (st : S)
      → IsField f
      → pos + length (field_bytes f) < 2 ^ 63
      → scan_round fn pos (field_bytes f ++ rest) st
        ≡ after (field_number f) (wire_type f) (content f) (pos + length (field_bytes f)) rest st
  unfolding scan_round field_bytes
  scan_round-field f pos rest st h fits =
      let tag = append_tag (field_number f) (wire_type f) in
      let whole : length (tag ++ body f) ≡ length tag + length (body f) =
        length-append tag (body f) in
      ap (λ t. scan_round fn pos t st) (append_assoc tag (body f) rest)
      ∙ rw
          (
            decode_uvarint-append_tag (field_number f) (wire_type f) (body f ++ rest)
                (number_bound f h) (type_bound f),
            scan_round,
          )
          (ap
              (λ t.
                scan_field fn ((field_number f * 8 + wire_type f) / 2 ^ 3)
                  (bit_and (field_number f * 8 + wire_type f) 7) (pos + length tag) t st)
              (drop-append tag (body f ++ rest))
            ∙ ap
                (λ t.
                  scan_field fn t (bit_and (field_number f * 8 + wire_type f) 7) (pos + length tag)
                    (body f ++ rest) st)
                (omega (arith, type_bound f))
            ∙ ap (λ t. scan_field fn (field_number f) t (pos + length tag) (body f ++ rest) st)
                (omega (arith, type_bound f, bit_and-7 (field_number f * 8 + wire_type f)))
            ∙ scan_field-body f (pos + length tag) rest st h (omega arith)
            ∙ ap (λ (t : ℕ). after (field_number f) (wire_type f) (content f) t rest st)
                (omega arith))
