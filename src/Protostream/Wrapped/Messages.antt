-- ===== src/Protostream/Wrapped/Messages.antt =====
-- internal/protostream/wrapped.go: messages wrapped under a type's name or its number.
use go_client.Prelude.{
  ℕ, ◌+◌, ◌^◌, ◌<◌, ◌≡◌, refl, sym, ap, ◌∙◌, List, [], ◌∷◌, ◌++◌, append-nil, none, length,
  length-append, int_of32, arith,
}
use go_client.Io.{Bytes, Answer}
use go_client.Protostream.Wire.{
  Result, ok, append_uvarint, append_tag, append_len_delimited, append_varint_field, uvarint_groups,
  uvarint_size, size_groups, tag_size, len_delimited_size, scan_fields,
}
use go_client.Protostream.Wire.Varint.{length-append_uvarint}
use go_client.Protostream.Wire.Fields.{
  Field, varint, delimited, field_bytes, encode_fields, length-field_bytes,
}
use go_client.Protostream.Wire.Scan.{scan_fields-fields, visit_fields}
use go_client.Protostream.Wrapped.{
  wrap_message, wrap_by_type_id, message_field, unwrap_message, delimited_field, unwrap_bytes,
}

abbrev named : Bytes → Bytes → List Field
named m t = delimited 16 t ∷ delimited 17 m ∷ []

abbrev numbered : Bytes → ℕ → List Field
numbered m id = varint 19 (int_of32 id) ∷ delimited 17 m ∷ []

wrap_message-fields : (m t : Bytes) → wrap_message m t ≡ encode_fields (named m t)
unfolding wrap_message encode_fields field_bytes append_len_delimited
wrap_message-fields m t = ap (λ s. append_len_delimited 16 t ++ s) (sym (append-nil _))

wrap_by_type_id-fields : (m : Bytes) (id : ℕ) → wrap_by_type_id m id ≡ encode_fields (numbered m id)
unfolding wrap_by_type_id encode_fields field_bytes append_len_delimited append_varint_field
wrap_by_type_id-fields m id =
    ap (λ s. append_varint_field 19 (int_of32 id) ++ s) (sym (append-nil _))

module _ (m t : Bytes) (fits : length m + length t < 2 ^ 62) where
  named_fits : length (encode_fields (named m t)) < 2 ^ 63
  unfolding encode_fields
  named_fits = omega (
    arith,
    length-append (field_bytes (delimited 16 t)) (field_bytes (delimited 17 m) ++ []),
    length-append (field_bytes (delimited 17 m)) [],
    length-field_bytes (delimited 16 t),
    length-field_bytes (delimited 17 m),
  )

  scan-named :
      {S : Type 0} (fn : ℕ → ℕ → Bytes → S → Answer S) (st : S)
      → scan_fields fn (wrap_message m t) st
        ≡ go_client.Protostream.Wire.Scan.of_answer (visit_fields fn (named m t) st)
  scan-named fn st =
      ap (λ s. scan_fields fn s st) (wrap_message-fields m t)
      ∙ scan_fields-fields fn (named m t) st (omega arith) named_fits

  -- A message wrapped under its type's name is unwrapped to the message and the name by UnwrapMessage,
  -- and to the message by UnwrapBytes.
  pub unwrap_message-wrap_message :
      (unwrap_message (wrap_message m t) ≡ ok (m, t)) × (unwrap_bytes (wrap_message m t) ≡ ok m)
  unfolding unwrap_message unwrap_bytes visit_fields message_field delimited_field
  unwrap_message-wrap_message =
      (rw (scan-named message_field _) refl, rw (scan-named (delimited_field 17) none) refl)

tag_size-16 : length (append_tag 16 2) ≡ tag_size 16
unfolding append_tag append_uvarint uvarint_groups tag_size uvarint_size size_groups
tag_size-16 = refl

tag_size-17 : length (append_tag 17 2) ≡ tag_size 17
unfolding append_tag append_uvarint uvarint_groups tag_size uvarint_size size_groups
tag_size-17 = refl

tag_size-19 : length (append_tag 19 0) ≡ tag_size 19
unfolding append_tag append_uvarint uvarint_groups tag_size uvarint_size size_groups
tag_size-19 = refl

length-append_len_delimited :
    (n : ℕ) (c : Bytes)
    → length (append_len_delimited n c) ≡ length (append_tag n 2) + len_delimited_size (length c)
unfolding append_len_delimited len_delimited_size
length-append_len_delimited n c = omega (
  arith,
  length-append (append_tag n 2) (append_uvarint (length c) ++ c),
  length-append (append_uvarint (length c)) c,
  length-append_uvarint (length c),
)

-- The capacities that WrapMessage and WrapByTypeID allocate are the lengths of what they return, for
-- any message, name and number.
pub length-wrap_message :
    (m t : Bytes) (id : ℕ)
    → (length (wrap_message m t)
        ≡ tag_size 16
          + len_delimited_size (length t)
          + (tag_size 17 + len_delimited_size (length m)))
      × (length (wrap_by_type_id m id)
          ≡ tag_size 19
            + uvarint_size (int_of32 id)
            + (tag_size 17 + len_delimited_size (length m)))
unfolding wrap_message wrap_by_type_id append_varint_field
length-wrap_message m t id = (
  omega (
    arith,
    length-append (append_len_delimited 16 t) (append_len_delimited 17 m),
    length-append_len_delimited 16 t,
    length-append_len_delimited 17 m,
    tag_size-16,
    tag_size-17,
  ),
  omega (
    arith,
    length-append (append_varint_field 19 (int_of32 id)) (append_len_delimited 17 m),
    length-append (append_tag 19 0) (append_uvarint (int_of32 id)),
    length-append_uvarint (int_of32 id),
    length-append_len_delimited 17 m,
    tag_size-17,
    tag_size-19,
  ),
)
