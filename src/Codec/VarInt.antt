-- ===== src/Codec/VarInt.antt =====
-- internal/codec/varint.go: variable-length integers, seven bits a byte, lowest group first, with the
-- top bit set on every byte but the last.
pub mod RoundTrip
pub mod Panic
pub mod Reads
mod Tests
use go_client.Prelude.{
  ℕ, zero, suc, String, ◌*◌, ◌+◌, ◌/◌, ◌^◌, [], ◌∷◌, ◌++◌, get_or, bit_and, bit_or, byte, u32, u64,
  and_not, ◌==◌, if◌then◌else◌,
}
use go_client.Io.{
  Bytes, Read, ◌>>=◌, pure, throw, context, message, Write, wrote, panicked, ◌>>◌, read_full,
}

-- The loop of WriteVInt and WriteVLong, over the slots of `buf` that are left. A write to `buf[n]` past
-- the last slot is an index out of range.
unfoldable pub write_groups : ℕ → ℕ → Write
write_groups zero u = panicked
write_groups (suc slots) u =
    let rest = write_groups slots (u / 2 ^ 7) in
    if and_not u 0x7f == 0
    then wrote (byte u ∷ [])
    else (wrote (bit_or (byte (bit_and u 0x7f)) 0x80 ∷ []) >> rest)

unfoldable pub write_vint : ℕ → Write
write_vint v = write_groups 5 v

unfoldable pub write_vlong : ℕ → Write
write_vlong v = write_groups 9 v

-- The loop of ReadVInt and ReadVLong: the rounds that are left, the width of `result`, and the words of
-- the error messages.
unfoldable pub read_groups : (width : ℕ → ℕ) → String → String → ℕ → ℕ → ℕ → Read ℕ
read_groups width what too_many zero shift result = throw (message too_many)
read_groups width what too_many (suc rounds) shift result = do
  b ← context what (read_full 1)
  let result' = bit_or result (width (bit_and (get_or b 0 0) 0x7f * 2 ^ shift))
  let rest = read_groups width what too_many rounds (shift + 7) result'
  if bit_and (get_or b 0 0) 0x80 == 0 then pure result' else rest

unfoldable pub read_vint : Read ℕ
read_vint = read_groups u32 "read vint" "read vint: too many bytes" 5 0 0

unfoldable pub read_vlong : Read ℕ
read_vlong = read_groups u64 "read vlong" "read vlong: too many bytes" 9 0 0
