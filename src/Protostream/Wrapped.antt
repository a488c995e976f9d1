-- ===== src/Protostream/Wrapped.antt =====
-- internal/protostream/wrapped.go: values in a WrappedMessage. A float is its bits, a string its bytes.
pub mod Values
pub mod Messages
use go_client.Prelude.{
  ℕ, zero, suc, ◌+◌, ◌-◌, ◌*◌, ◌/◌, ◌%◌, ◌^◌, List, [], ◌∷◌, ◌++◌, Option, none, some, Bool, true,
  false, not, ◌==◌, if◌then◌else◌, length, bit_and, bit_xor, byte, u32, u64, neg32, int_of32,
}
use go_client.Io.{Bytes, message, message_at, Answer, answered, failed}
use go_client.Protostream.Wire.{
  Result, ok, err, bind, wire_fixed64, wire_fixed32, wire_length_delimited, append_uvarint,
  append_tag, append_len_delimited, append_varint_field, decode_uvarint, scan_fields,
}

-- The types that UnwrapValue returns in an `any`.
pub data Value : Type 0 where
  float64 float32 int64 uint64 int32 uint32 : ℕ → Value
  bool : Bool → Value
  string bytes : Bytes → Value

abbrev pub field_descriptor_full_name : ℕ
field_descriptor_full_name = 16

abbrev pub field_message : ℕ
field_message = 17

abbrev pub field_descriptor_type_id : ℕ
field_descriptor_type_id = 19

-- binary.LittleEndian: `n` bytes of a word, and the word of some bytes.
unfoldable pub put_little_endian : ℕ → ℕ → Bytes
put_little_endian zero v = []
put_little_endian (suc n) v = byte v ∷ put_little_endian n (v / 2 ^ 8)

unfoldable pub little_endian : Bytes → ℕ
little_endian [] = 0
little_endian (b ∷ s) = b + 2 ^ 8 * little_endian s

unfoldable pub wrap_message : Bytes → Bytes → Bytes
wrap_message message_bytes type_name =
    append_len_delimited field_descriptor_full_name type_name
    ++ append_len_delimited field_message message_bytes

unfoldable pub wrap_by_type_id : Bytes → ℕ → Bytes
wrap_by_type_id message_bytes type_id =
    append_varint_field field_descriptor_type_id (int_of32 type_id)
    ++ append_len_delimited field_message message_bytes

unfoldable pub wrap_string : Bytes → Bytes
wrap_string s = append_len_delimited 9 s

unfoldable pub wrap_bytes : Bytes → Bytes
wrap_bytes v = append_len_delimited 10 v

unfoldable pub wrap_int32 : ℕ → Bytes
wrap_int32 v = append_varint_field 5 (int_of32 v)

unfoldable pub wrap_int64 : ℕ → Bytes
wrap_int64 v = append_varint_field 3 v

unfoldable pub wrap_uint32 : ℕ → Bytes
wrap_uint32 v = append_varint_field 11 v

unfoldable pub wrap_uint64 : ℕ → Bytes
wrap_uint64 v = append_varint_field 4 v

unfoldable pub wrap_bool : Bool → Bytes
wrap_bool v = append_varint_field 8 (if v then 1 else 0)

unfoldable pub wrap_double : ℕ → Bytes
wrap_double v = append_tag 1 wire_fixed64 ++ put_little_endian 8 v

unfoldable pub wrap_float : ℕ → Bytes
wrap_float v = append_tag 2 wire_fixed32 ++ put_little_endian 4 v

-- "org.infinispan.protostream.commons.FloatArray"
unfoldable pub float_array_type_name : Bytes
float_array_type_name =
    111 ∷ 114 ∷ 103 ∷ 46 ∷ 105 ∷ 110 ∷ 102 ∷ 105 ∷ 110 ∷ 105 ∷ 115 ∷ 112 ∷ 97 ∷ 110 ∷ 46 ∷ 112 ∷ 114
    ∷ 111 ∷ 116 ∷ 111 ∷ 115 ∷ 116 ∷ 114 ∷ 101 ∷ 97 ∷ 109 ∷ 46 ∷ 99 ∷ 111 ∷ 109 ∷ 109 ∷ 111 ∷ 110
    ∷ 115 ∷ 46 ∷ 70 ∷ 108 ∷ 111 ∷ 97 ∷ 116 ∷ 65 ∷ 114 ∷ 114 ∷ 97 ∷ 121 ∷ []

unfoldable pub append_floats : List ℕ → Bytes
append_floats [] = []
append_floats (v ∷ values) =
    append_tag 2 wire_fixed32 ++ (put_little_endian 4 v ++ append_floats values)

unfoldable pub wrap_float_array : List ℕ → Bytes
wrap_float_array values =
    append_len_delimited 28 float_array_type_name
    ++ (append_varint_field 27 (length values)
        ++ (append_len_delimited 30 [] ++ append_floats values))

-- The variables that UnwrapMessage's function sets.
pub record Unwrapped : Type 0 where
  pub message_bytes : Bytes
  pub type_name : Bytes
  pub found_msg : Bool
  pub found_name : Bool

unfoldable pub message_field : ℕ → ℕ → Bytes → Unwrapped → Answer Unwrapped
message_field number wire_type value u =
    if number == field_message
    then (if wire_type == wire_length_delimited
        then answered (record u { message_bytes = value; found_msg = true })
        else failed (message_at "wrappedMessage: expected wire type 2" wire_type))
    else if number == field_descriptor_full_name
    then (if wire_type == wire_length_delimited
        then answered (record u { type_name = value; found_name = true })
        else failed (message_at "wrappedDescriptorFullName: expected wire type 2" wire_type))
    else answered u

unfoldable pub unwrap_message : Bytes → Result (Bytes × Bytes)
unwrap_message content =
    bind
      (scan_fields message_field content
        (record { message_bytes = []; type_name = []; found_msg = false; found_name = false }))
      λ u.
        if not u.found_msg
        then err (message "WrappedMessage: missing wrappedMessage field (17)")
        else if not u.found_name
        then err (message "WrappedMessage: missing wrappedDescriptorFullName field (16)")
        else ok (u.message_bytes, u.type_name)

-- One delimited field, as UnwrapString and UnwrapBytes look for it.
unfoldable pub delimited_field : ℕ → ℕ → ℕ → Bytes → Option Bytes → Answer (Option Bytes)
delimited_field wanted number wire_type value result =
    if number == wanted
    then (if wire_type == wire_length_delimited
        then answered (some value)
        else failed (message_at "expected wire type 2" wire_type))
    else answered result

unfoldable pub unwrap_string : Bytes → Result Bytes
unwrap_string content = bind (scan_fields (delimited_field 9) content none) λ o. elim o [
  | none ↦ err (message "WrappedMessage: missing wrappedString field (9)")
  | some s ↦ ok s
]

unfoldable pub unwrap_bytes : Bytes → Result Bytes
unwrap_bytes content = bind (scan_fields (delimited_field field_message) content none) λ o. elim o [
  | none ↦ err (message "WrappedMessage: missing wrappedMessage field (17)")
  | some b ↦ ok b
]

unfoldable pub decode_zigzag32 : ℕ → ℕ
decode_zigzag32 v = bit_xor (u32 v / 2) (neg32 (bit_and (u32 v) 1))

-- `-x` for an int64
abbrev pub neg64 : ℕ → ℕ
neg64 x = (2 ^ 64 - x) % 2 ^ 64

unfoldable pub decode_zigzag64 : ℕ → ℕ
decode_zigzag64 v = bit_xor (v / 2) (neg64 (bit_and v 1))

-- A case of UnwrapValue's switch, for a varint and for a fixed width.
unfoldable pub varint_value : Bytes → (ℕ → Value) → Answer (Option Value)
varint_value value f = elim (decode_uvarint value) [
  | none ↦ failed (message "UnwrapValue: invalid varint")
  | some (v, n) ↦ answered (some (f v))
]

unfoldable pub fixed_value : ℕ → Bytes → (ℕ → Value) → Answer (Option Value)
fixed_value width value f =
    if length value == width
    then answered (some (f (little_endian value)))
    else failed (message_at "UnwrapValue: unexpected length" (length value))

unfoldable pub value_field : ℕ → ℕ → Bytes → Option Value → Answer (Option Value)
value_field number wire_type value result =
    if number == 1
    then fixed_value 8 value float64
    else if number == 2
    then fixed_value 4 value float32
    else if number == 3
    then varint_value value int64
    else if number == 4
    then varint_value value uint64
    else if number == 5
    then varint_value value (λ v. int32 (u32 v))
    else if number == 6
    then fixed_value 8 value uint64
    else if number == 7
    then fixed_value 4 value uint32
    else if number == 8
    then varint_value value (λ v. bool (not (v == 0)))
    else if number == 9
    then answered (some (string value))
    else if number == 10
    then answered (some (bytes value))
    else if number == 11
    then varint_value value (λ v. uint32 (u32 v))
    else if number == 12
    then fixed_value 4 value int32
    else if number == 13
    then fixed_value 8 value int64
    else if number == 14
    then varint_value value (λ v. int32 (decode_zigzag32 v))
    else if number == 15
    then varint_value value (λ v. int64 (decode_zigzag64 v))
    else if number == field_message
    then answered (some (bytes value))
    else answered result

unfoldable pub unwrap_value : Bytes → Result Value
unwrap_value content = bind (scan_fields value_field content none) λ o. elim o [
  | none ↦ err (message "UnwrapValue: no recognized value field found")
  | some v ↦ ok v
]
