-- ===== src/Protostream/Wire.antt =====
-- internal/protostream/wrapped.go: the encoding of protobuf fields, and ScanFields. A function that appends
-- to `dst` is the bytes that it appends; an int is its bit pattern.
pub mod Varint
pub mod Fields
pub mod Scan
pub mod Ends
pub mod Panics
use go_client.Prelude.{
  ℕ, zero, suc, ◌+◌, ◌*◌, ◌/◌, ◌%◌, ◌^◌, List, [], ◌∷◌, ◌++◌, Option, none, some, Bool, true, false,
  ◌&&◌, ◌||◌, not, ltb, ◌==◌, if◌then◌else◌, length, bit_and, bit_or, byte, u64, is_negative64,
}
use go_client.Io.{Bytes, Error, message, message_at, Answer, answered, failed}

abbrev pub wire_varint : ℕ
wire_varint = 0

abbrev pub wire_fixed64 : ℕ
wire_fixed64 = 1

abbrev pub wire_length_delimited : ℕ
wire_length_delimited = 2

abbrev pub wire_fixed32 : ℕ
wire_fixed32 = 5

-- What a call comes to: a value, an error, a slice out of range, or too little fuel.
pub data Result {ℓ} (A : Type ℓ) : Type ℓ where
  ok : A → Result A
  err : Error → Result A
  out_of_range : Result A
  out_of_fuel : Result A

-- `if err != nil { return …, err }` after a call
abbrev pub bind {ℓ κ} : {A : Type ℓ} {B : Type κ} → Result A → (A → Result B) → Result B
bind (ok a) f = f a
bind (err e) f = err e
bind out_of_range f = out_of_range
bind out_of_fuel f = out_of_fuel

-- The loop of appendUvarint, which has at most nine rounds for a uint64.
unfoldable pub uvarint_groups : ℕ → ℕ → Bytes
uvarint_groups zero v = byte v ∷ []
uvarint_groups (suc rounds) v =
    let rest = uvarint_groups rounds (v / 2 ^ 7) in
    if ltb v 0x80 then byte v ∷ [] else bit_or (byte v) 0x80 ∷ rest

unfoldable pub append_uvarint : ℕ → Bytes
append_uvarint v = uvarint_groups 9 v

unfoldable pub append_tag : ℕ → ℕ → Bytes
append_tag field_number wire_type = append_uvarint (bit_or (field_number * 2 ^ 3) wire_type)

unfoldable pub append_len_delimited : ℕ → Bytes → Bytes
append_len_delimited field_number content =
    append_tag field_number wire_length_delimited ++ (append_uvarint (length content) ++ content)

unfoldable pub append_varint_field : ℕ → ℕ → Bytes
append_varint_field field_number value = append_tag field_number wire_varint ++ append_uvarint value

-- The loop of uvarintSize.
unfoldable pub size_groups : ℕ → ℕ → ℕ
size_groups zero v = 1
size_groups (suc rounds) v =
    let rest = size_groups rounds (v / 2 ^ 7) in if ltb v 0x80 then 1 else suc rest

unfoldable pub uvarint_size : ℕ → ℕ
uvarint_size v = size_groups 9 v

unfoldable pub tag_size : ℕ → ℕ
tag_size field_number = uvarint_size (field_number * 2 ^ 3)

unfoldable pub len_delimited_size : ℕ → ℕ
len_delimited_size data_len = uvarint_size data_len + data_len

-- The loop of decodeUvarint: the rounds that are left, `7 * i`, `v` and `i`.
unfoldable pub decode_groups : ℕ → ℕ → ℕ → ℕ → Bytes → Option (ℕ × ℕ)
decode_groups rounds shift v i [] = none
decode_groups zero shift v i (b ∷ s) = none
decode_groups (suc rounds) shift v i (b ∷ s) =
    let v' = bit_or v (u64 (bit_and b 0x7f * 2 ^ shift)) in
    let rest = decode_groups rounds (shift + 7) v' (suc i) s in
    if ltb b 0x80 then some (v', suc i) else rest

-- The value and how many bytes it takes; `none` for (0, -1).
unfoldable pub decode_uvarint : Bytes → Option (ℕ × ℕ)
decode_uvarint s = decode_groups 10 0 0 0 s

-- `s[:n]` and `s[n:]`, for an `n` in range.
unfoldable pub take : ℕ → Bytes → Bytes
take zero s = []
take (suc n) [] = []
take (suc n) (b ∷ s) = b ∷ take n s

unfoldable pub drop : ℕ → Bytes → Bytes
drop zero s = s
drop (suc n) [] = []
drop (suc n) (b ∷ s) = drop n s

-- The test `pos+int(length) > len(data)` of ints, where `s` is data[pos:].
unfoldable pub is_truncated : ℕ → ℕ → Bytes → Bool
is_truncated pos len s =
    let end = u64 (pos + len) in not (is_negative64 end) && ltb (pos + length s) end

-- The bounds of data[pos:pos+int(length)] are out of range.
unfoldable pub is_reversed : ℕ → ℕ → Bool
is_reversed pos len = let end = u64 (pos + len) in is_negative64 end || ltb end pos

module _ {S : Type 0} (fn : ℕ → ℕ → Bytes → S → Answer S) where
  -- `fn` on the first `n` bytes of `s` = data[pos:]; the result is the position behind them, what is left
  -- there, and the state that `fn` leaves.
  unfoldable pub visit : ℕ → ℕ → ℕ → ℕ → Bytes → S → Result (ℕ × Bytes × S)
  visit number wire_type n pos s st = elim (fn number wire_type (take n s) st) [
    | failed e ↦ err e
    | answered st' ↦ ok (pos + n, drop n s, st')
  ]

  unfoldable pub visit_delimited : ℕ → ℕ → ℕ → Bytes → S → Result (ℕ × Bytes × S)
  visit_delimited number len pos s st =
      if is_truncated pos len s
      then err (message_at "field: truncated data" number)
      else if is_reversed pos len
      then out_of_range
      else visit number wire_length_delimited len pos s st

  unfoldable pub visit_fixed : ℕ → ℕ → ℕ → ℕ → Bytes → S → Result (ℕ × Bytes × S)
  visit_fixed number wire_type n pos s st =
      if ltb (length s) n
      then err (message_at "field: truncated" number)
      else visit number wire_type n pos s st

  -- The switch on the wire type, behind the tag.
  unfoldable pub scan_field : ℕ → ℕ → ℕ → Bytes → S → Result (ℕ × Bytes × S)
  scan_field number wire_type pos s st =
      if wire_type == wire_varint
      then elim (decode_uvarint s) [
        | none ↦ err (message_at "field: invalid varint" number)
        | some (val, n) ↦ visit number wire_type n pos s st
      ]
      else if wire_type == wire_fixed64
      then visit_fixed number wire_type 8 pos s st
      else if wire_type == wire_length_delimited
      then elim (decode_uvarint s) [
        | none ↦ err (message_at "field: invalid length varint" number)
        | some (len, n) ↦ visit_delimited number len (pos + n) (drop n s) st
      ]
      else if wire_type == wire_fixed32
      then visit_fixed number wire_type 4 pos s st
      else err (message_at "unsupported wire type" wire_type)

  -- One round.
  unfoldable pub scan_round : ℕ → Bytes → S → Result (ℕ × Bytes × S)
  scan_round pos s st = elim (decode_uvarint s) [
    | none ↦ err (message "invalid tag varint")
    | some (tag, n) ↦ scan_field (tag / 2 ^ 3) (bit_and tag 0x7) (pos + n) (drop n s) st
  ]

  unfoldable pub scan_loop : ℕ → ℕ → Bytes → S → Result S
  scan_loop fuel pos [] st = ok st
  scan_loop zero pos (b ∷ s) st = out_of_fuel
  scan_loop (suc fuel) pos (b ∷ s) st = elim (scan_round pos (b ∷ s) st) [
    | ok (pos', s', st') ↦ scan_loop fuel pos' s' st'
    | err e ↦ err e
    | out_of_range ↦ out_of_range
    | out_of_fuel ↦ out_of_fuel
  ]

  -- ScanFields. A round takes a byte or more, so the length of the data is enough fuel.
  unfoldable pub scan_fields : Bytes → S → Result S
  scan_fields content st = scan_loop (length content) 0 content st
