-- ===== src/Protostream/Wrapped/Values.antt =====
-- internal/protostream/wrapped.go: UnwrapValue on the fields of a WrappedMessage, as the schema has them.
use go_client.Prelude.{
  ℕ, zero, suc, ◌+◌, ◌-◌, ◌*◌, ◌/◌, ◌^◌, ◌<◌, ◌≡◌, refl, sym, ap, ◌∙◌, [], ◌∷◌, append-nil, none,
  some, Bool, true, false, if◌then◌else◌, length, u32, int_of32, is_negative32, is_negative64,
  IsU32, IsU64, arith,
}
use go_client.Prelude.Bits.{bit_and-1, bit_xor-zero, bit_xor_ones}
use go_client.Io.{Bytes, Answer, answered, failed}
use go_client.Protostream.Wire.{ok, append_uvarint, scan_fields}
use go_client.Protostream.Wire.Varint.{decode_uvarint-append_uvarint, append_uvarint_few}
use go_client.Protostream.Wire.Fields.{
  Field, varint, fixed64, delimited, fixed32, field_number, wire_type, content, field_bytes,
  encode_fields, IsField, length-field_bytes,
}
use go_client.Protostream.Wire.Scan.{of_answer, scan_fields-fields, visit_fields}
use go_client.Protostream.Wrapped.{
  Value, float64, float32, int64, uint64, int32, uint32, bool, string, bytes, put_little_endian,
  little_endian, decode_zigzag32, decode_zigzag64, value_field, varint_value, fixed_value,
  unwrap_value,
}
use native.Mathlib.Nat.{pow-suc}

-- The value fields of the schema. An integer is its bit pattern, a float its bits.
pub data WrappedField : Type 0 where
  double float int64_field uint64_field int32_field fixed64_field fixed32_field : ℕ → WrappedField
  bool_field : Bool → WrappedField
  string_field bytes_field : Bytes → WrappedField
  uint32_field sfixed32 sfixed64 sint32 sint64 : ℕ → WrappedField
  message : Bytes → WrappedField

-- The zigzag encoding of protobuf: 2 n, or 2 |n| - 1 for a negative n.
unfoldable pub zigzag32 : ℕ → ℕ
zigzag32 n = if is_negative32 n then 2 * (2 ^ 32 - n) - 1 else 2 * n

unfoldable pub zigzag64 : ℕ → ℕ
zigzag64 n = if is_negative64 n then 2 * (2 ^ 64 - n) - 1 else 2 * n

-- The encoding that the protobuf specification gives a field of each type.
unfoldable pub protobuf : WrappedField → Field
protobuf (double v) = fixed64 1 (put_little_endian 8 v)
protobuf (float v) = fixed32 2 (put_little_endian 4 v)
protobuf (int64_field v) = varint 3 v
protobuf (uint64_field v) = varint 4 v
protobuf (int32_field v) = varint 5 (int_of32 v)
protobuf (fixed64_field v) = fixed64 6 (put_little_endian 8 v)
protobuf (fixed32_field v) = fixed32 7 (put_little_endian 4 v)
protobuf (bool_field v) = varint 8 (if v then 1 else 0)
protobuf (string_field s) = delimited 9 s
protobuf (bytes_field s) = delimited 10 s
protobuf (uint32_field v) = varint 11 v
protobuf (sfixed32 v) = fixed32 12 (put_little_endian 4 v)
protobuf (sfixed64 v) = fixed64 13 (put_little_endian 8 v)
protobuf (sint32 v) = varint 14 (zigzag32 v)
protobuf (sint64 v) = varint 15 (zigzag64 v)
protobuf (message m) = delimited 17 m

-- The Go value that stands for it.
unfoldable pub go_value : WrappedField → Value
go_value (double v) = float64 v
go_value (float v) = float32 v
go_value (int64_field v) = int64 v
go_value (uint64_field v) = uint64 v
go_value (int32_field v) = int32 v
go_value (fixed64_field v) = uint64 v
go_value (fixed32_field v) = uint32 v
go_value (bool_field v) = bool v
go_value (string_field s) = string s
go_value (bytes_field s) = bytes s
go_value (uint32_field v) = uint32 v
go_value (sfixed32 v) = int32 v
go_value (sfixed64 v) = int64 v
go_value (sint32 v) = int32 v
go_value (sint64 v) = int64 v
go_value (message m) = bytes m

-- The value has the width of its type; a text is shorter than 2^62 bytes.
abbrev pub IsWrapped : WrappedField → Type 0
IsWrapped (double v) = IsU64 v
IsWrapped (float v) = IsU32 v
IsWrapped (int64_field v) = IsU64 v
IsWrapped (uint64_field v) = IsU64 v
IsWrapped (int32_field v) = IsU32 v
IsWrapped (fixed64_field v) = IsU64 v
IsWrapped (fixed32_field v) = IsU32 v
IsWrapped (bool_field v) = Unit
IsWrapped (string_field s) = length s < 2 ^ 62
IsWrapped (bytes_field s) = length s < 2 ^ 62
IsWrapped (uint32_field v) = IsU32 v
IsWrapped (sfixed32 v) = IsU32 v
IsWrapped (sfixed64 v) = IsU64 v
IsWrapped (sint32 v) = IsU32 v
IsWrapped (sint64 v) = IsU64 v
IsWrapped (message m) = length m < 2 ^ 62

length-put_little_endian : (n v : ℕ) → length (put_little_endian n v) ≡ n
unfolding put_little_endian
length-put_little_endian zero v = refl
length-put_little_endian (suc n) v = ap suc (length-put_little_endian n (v / 2 ^ 8))

little_endian-put : (n v : ℕ) → v < 256 ^ n → little_endian (put_little_endian n v) ≡ v
unfolding put_little_endian little_endian
little_endian-put zero v h = omega arith
little_endian-put (suc n) v h =
    omega (arith, little_endian-put n (v / 256) (omega (arith, pow-suc 256 n)))

zigzag32-lt : (n : ℕ) → IsU32 n → zigzag32 n < 2 ^ 32
unfolding zigzag32
zigzag32-lt n h = ground arith

zigzag64-lt : (n : ℕ) → IsU64 n → zigzag64 n < 2 ^ 64
unfolding zigzag64
zigzag64-lt n h = ground arith

decode_zigzag32-zigzag32 : (n : ℕ) → IsU32 n → decode_zigzag32 (zigzag32 n) ≡ n
unfolding decode_zigzag32 zigzag32
decode_zigzag32-zigzag32 n h = ground (
  arith,
  bit_and-1 (u32 (2 * n)),
  bit_and-1 (u32 (2 * (2 ^ 32 - n) - 1)),
  bit_xor-zero n,
  bit_xor_ones 32 (2 ^ 32 - n - 1) (2 ^ 32 - 1),
)

decode_zigzag64-zigzag64 : (n : ℕ) → IsU64 n → decode_zigzag64 (zigzag64 n) ≡ n
unfolding decode_zigzag64 zigzag64
decode_zigzag64-zigzag64 n h = ground (
  arith,
  bit_and-1 (2 * n),
  bit_and-1 (2 * (2 ^ 64 - n) - 1),
  bit_xor-zero n,
  bit_xor_ones 64 (2 ^ 64 - n - 1) (2 ^ 64 - 1),
)

-- One field alone.
pub scan_fields-field :
    {S : Type 0} (fn : ℕ → ℕ → Bytes → S → Answer S) (f : Field) (st : S)
    → IsField f
    → length (field_bytes f) < 2 ^ 63
    → scan_fields fn (field_bytes f) st
      ≡ of_answer (fn (field_number f) (wire_type f) (content f) st)
unfolding encode_fields visit_fields
scan_fields-field {S} fn f st h fits =
    ap (λ t. scan_fields fn t st) (sym (append-nil (field_bytes f)))
    ∙ scan_fields-fields fn (f ∷ []) st (h, tt)
        (omega (arith, ap length (append-nil (field_bytes f))))
    ∙ last (fn (field_number f) (wire_type f) (content f) st)
  where
    last :
        (a : Answer S)
        → of_answer (elim a [ failed e ↦ failed e | answered st' ↦ answered st' ]) ≡ of_answer a
    last (failed e) = refl
    last (answered st') = refl

unwrap_value-field :
    (f : Field) (v : Value)
    → IsField f
    → length (field_bytes f) < 2 ^ 63
    → value_field (field_number f) (wire_type f) (content f) none ≡ answered (some v)
    → unwrap_value (field_bytes f) ≡ ok v
unfolding unwrap_value
unwrap_value-field f v h fits e = rw (scan_fields-field value_field f none h fits, e) refl

varint_value-append :
    (v : ℕ) (g : ℕ → Value) → IsU64 v → varint_value (append_uvarint v) g ≡ answered (some (g v))
unfolding varint_value
varint_value-append v g h =
    ap (λ t. varint_value t g) (sym (append-nil (append_uvarint v)))
    ∙ rw (decode_uvarint-append_uvarint v [] h, varint_value) refl

fixed_value-put :
    (n v : ℕ) (g : ℕ → Value)
    → v < 256 ^ n
    → fixed_value n (put_little_endian n v) g ≡ answered (some (g v))
unfolding fixed_value
fixed_value-put n v g h = ground (arith, length-put_little_endian n v, little_endian-put n v)

-- The field is in range, and the switch takes its value.
protobuf-IsField : (w : WrappedField) → IsWrapped w → IsField (protobuf w)
unfolding protobuf zigzag32 zigzag64
protobuf-IsField (double v) h = (omega arith, length-put_little_endian 8 v)
protobuf-IsField (float v) h = (omega arith, length-put_little_endian 4 v)
protobuf-IsField (fixed64_field v) h = (omega arith, length-put_little_endian 8 v)
protobuf-IsField (fixed32_field v) h = (omega arith, length-put_little_endian 4 v)
protobuf-IsField (sfixed32 v) h = (omega arith, length-put_little_endian 4 v)
protobuf-IsField (sfixed64 v) h = (omega arith, length-put_little_endian 8 v)
protobuf-IsField (bool_field true) h = omega arith
protobuf-IsField (bool_field false) h = omega arith
protobuf-IsField _ h = ground arith

content_small : (w : WrappedField) → IsWrapped w → length (content (protobuf w)) < 2 ^ 62 + 10
unfolding protobuf
content_small (double v) h = omega (arith, length-put_little_endian 8 v)
content_small (float v) h = omega (arith, length-put_little_endian 4 v)
content_small (fixed64_field v) h = omega (arith, length-put_little_endian 8 v)
content_small (fixed32_field v) h = omega (arith, length-put_little_endian 4 v)
content_small (sfixed32 v) h = omega (arith, length-put_little_endian 4 v)
content_small (sfixed64 v) h = omega (arith, length-put_little_endian 8 v)
content_small (string_field s) h = omega arith
content_small (bytes_field s) h = omega arith
content_small (message m) h = omega arith
content_small _ h = omega (arith, append_uvarint_few _)

value_field-protobuf :
    (w : WrappedField)
    → IsWrapped w
    → value_field (field_number (protobuf w)) (wire_type (protobuf w)) (content (protobuf w)) none
      ≡ answered (some (go_value w))
unfolding value_field protobuf go_value
value_field-protobuf (double v) h = fixed_value-put 8 v _ (omega arith)
value_field-protobuf (float v) h = fixed_value-put 4 v _ (omega arith)
value_field-protobuf (fixed64_field v) h = fixed_value-put 8 v _ (omega arith)
value_field-protobuf (fixed32_field v) h = fixed_value-put 4 v _ (omega arith)
value_field-protobuf (sfixed32 v) h = fixed_value-put 4 v _ (omega arith)
value_field-protobuf (sfixed64 v) h = fixed_value-put 8 v _ (omega arith)
value_field-protobuf (int64_field v) h = varint_value-append v _ h
value_field-protobuf (uint64_field v) h = varint_value-append v _ h
value_field-protobuf (int32_field v) h = varint_value-append _ _ (ground arith) ∙ ground arith
value_field-protobuf (uint32_field v) h = varint_value-append v _ (omega arith) ∙ ground arith
value_field-protobuf (bool_field true) h = varint_value-append 1 _ (omega arith)
value_field-protobuf (bool_field false) h = varint_value-append 0 _ (omega arith)
value_field-protobuf (sint32 v) h =
    varint_value-append _ _ (omega (arith, zigzag32-lt v))
    ∙ ap (λ (t : ℕ). answered (some (int32 t))) (decode_zigzag32-zigzag32 v h)
value_field-protobuf (sint64 v) h =
    varint_value-append _ _ (zigzag64-lt v h)
    ∙ ap (λ (t : ℕ). answered (some (int64 t))) (decode_zigzag64-zigzag64 v h)
value_field-protobuf (string_field s) h = refl
value_field-protobuf (bytes_field s) h = refl
value_field-protobuf (message m) h = refl

-- Whatever the value field of WrappedMessage's schema, and its value, UnwrapValue returns from its
-- encoding the Go value that stands for it.
pub unwrap_value-protobuf :
    (w : WrappedField) → IsWrapped w → unwrap_value (field_bytes (protobuf w)) ≡ ok (go_value w)
unwrap_value-protobuf w h =
    unwrap_value-field (protobuf w) (go_value w) (protobuf-IsField w h)
      (omega (arith, length-field_bytes (protobuf w), content_small w h)) (value_field-protobuf w h)
