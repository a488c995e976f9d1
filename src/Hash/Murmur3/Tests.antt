-- ===== src/Hash/Murmur3/Tests.antt =====
-- The vectors of internal/hash/murmur3_test.go, as bit patterns of int32.
use go_client.Prelude.{◌-◌, ◌^◌, ◌≡◌, refl, [], ◌∷◌}
use go_client.Io.{Bytes}
use go_client.Hash.Murmur3.{hash}

abbrev digits_and_letters : Bytes → Bytes
digits_and_letters t =
    0x30 ∷ 0x31 ∷ 0x32 ∷ 0x33 ∷ 0x34 ∷ 0x35 ∷ 0x36 ∷ 0x37 ∷ 0x38 ∷ 0x39 ∷ 0x61 ∷ 0x62 ∷ 0x63 ∷ 0x64
    ∷ 0x65 ∷ 0x66 ∷ t

hash_empty : hash [] ≡ 89125410
unfolding hash
hash_empty = refl

hash_ff : hash (0xff ∷ []) ≡ 2 ^ 32 - 29042976
unfolding hash
hash_ff = refl

hash_high_bytes : hash (0x80 ∷ 0xfe ∷ 0x7f ∷ 0x01 ∷ []) ≡ 2 ^ 32 - 99048400
unfolding hash
hash_high_bytes = refl

hash_infinispan :
    hash (0x69 ∷ 0x6e ∷ 0x66 ∷ 0x69 ∷ 0x6e ∷ 0x69 ∷ 0x73 ∷ 0x70 ∷ 0x61 ∷ 0x6e ∷ [])
    ≡ 2 ^ 32 - 2031786003
unfolding hash
hash_infinispan = refl

hash_sixteen : hash (digits_and_letters []) ≡ 26898387
unfolding hash
hash_sixteen = refl

hash_thirtytwo : hash (digits_and_letters (digits_and_letters [])) ≡ 1705745350
unfolding hash
hash_thirtytwo = refl
