-- ===== src/Protostream/Wire/Panics.antt =====
-- internal/protostream/wrapped.go: where ScanFields panics.
use go_client.Prelude.{
  ℕ, zero, suc, ◌+◌, ◌*◌, ◌/◌, ◌^◌, ◌≤◌, ◌<◌, ◌≡◌, refl, ap, ◌∙◌, [], ◌∷◌, ◌++◌, length,
  length-append, bit_and, IsU64, arith,
}
use go_client.Prelude.Bits.{bit_and-7}
use go_client.Io.{Bytes, Answer}
use go_client.Protostream.Wire.{
  out_of_range, append_uvarint, append_tag, visit_delimited, is_truncated, is_reversed, scan_field,
  scan_round, scan_loop, scan_fields,
}
use go_client.Protostream.Wire.Varint.{decode_uvarint-append_uvarint, append_uvarint_pos}
use go_client.Protostream.Wire.Fields.{decode_uvarint-append_tag, drop-append}

module _ {S : Type 0} (fn : ℕ → ℕ → Bytes → S → Answer S) where
  loop_panics :
      (fuel pos : ℕ) (s : Bytes) (st : S)
      → 0 < length s
      → length s ≤ fuel
      → scan_round fn pos s st ≡ out_of_range
      → scan_loop fn fuel pos s st ≡ out_of_range
  unfolding scan_loop
  loop_panics fuel pos [] st h enough e = absurd (omega arith)
  loop_panics zero pos (b ∷ s) st h enough e = absurd (omega arith)
  loop_panics (suc fuel) pos (b ∷ s) st h enough e = rw (e, scan_loop) refl

  visit_delimited_panics :
      (number len pos : ℕ) (s : Bytes) (st : S)
      → IsU64 len
      → 2 ^ 63 ≤ len
      → visit_delimited fn number len pos s st ≡ out_of_range
  unfolding visit_delimited is_truncated is_reversed
  visit_delimited_panics number len pos s st hl negative = ground arith

  field_panics :
      (number len pos : ℕ) (rest : Bytes) (st : S)
      → IsU64 len
      → 2 ^ 63 ≤ len
      → scan_field fn number 2 pos (append_uvarint len ++ rest) st ≡ out_of_range
  unfolding scan_field
  field_panics number len pos rest st hl negative =
      rw (decode_uvarint-append_uvarint len rest hl, scan_field)
        (visit_delimited_panics number len (pos + length (append_uvarint len)) _ st hl negative)

  round_panics :
      (number len : ℕ) (rest : Bytes) (st : S)
      → number < 2 ^ 61
      → IsU64 len
      → 2 ^ 63 ≤ len
      → scan_round fn 0 (append_tag number 2 ++ (append_uvarint len ++ rest)) st ≡ out_of_range
  unfolding scan_round
  round_panics number len rest st hn hl negative =
      let tag = append_tag number 2 in
      let s = append_uvarint len ++ rest in
      rw (decode_uvarint-append_tag number 2 s hn (omega arith), scan_round)
        (ap
            (λ t.
              scan_field fn ((number * 8 + 2) / 2 ^ 3) (bit_and (number * 8 + 2) 7) (0 + length tag)
                t st)
            (drop-append tag s)
          ∙ ap (λ t. scan_field fn ((number * 8 + 2) / 2 ^ 3) t (0 + length tag) s st)
              (omega (arith, bit_and-7 (number * 8 + 2)))
          ∙ field_panics ((number * 8 + 2) / 2 ^ 3) len (0 + length tag) rest st hl negative)

  -- A field of delimited type whose length, a uint64, is 2^63 or more: ScanFields panics at it, whatever
  -- follows, since the length is negative as an int and passes the test for truncated data.
  pub scan_fields_panics :
      (number len : ℕ) (rest : Bytes) (st : S)
      → number < 2 ^ 61
      → IsU64 len
      → 2 ^ 63 ≤ len
      → scan_fields fn (append_tag number 2 ++ (append_uvarint len ++ rest)) st ≡ out_of_range
  unfolding scan_fields
  scan_fields_panics number len rest st hn hl negative =
      let tag = append_tag number 2 in
      let lengths = length-append tag (append_uvarint len ++ rest) in
      loop_panics _ 0 (tag ++ (append_uvarint len ++ rest)) st
        (omega (arith, lengths, length-append (append_uvarint len) rest, append_uvarint_pos len))
        (omega arith) (round_panics number len rest st hn hl negative)
