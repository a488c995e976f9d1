-- ===== src/Codec/VarInt/Tests.antt =====
-- Concrete runs of the variable-length integers, and the theorems at concrete inputs.
use go_client.Prelude.{◌≡◌, ◌^◌, ◌≤◌, ◌↔◌, refl, [], ◌∷◌}
use go_client.Io.{Bytes, wrote, done, panicked, read_full}
use go_client.Codec.VarInt.{
  write_groups, write_vint, write_vlong, read_groups, read_vint, read_vlong,
}
use go_client.Codec.VarInt.Panic.{write_vlong_panics}

abbrev input : Bytes
input = 0xac ∷ 0x02 ∷ 7 ∷ []

abbrev behind : Bytes
behind = 7 ∷ []

write_300 : write_vint 300 ≡ wrote (0xac ∷ 0x02 ∷ [])
unfolding write_vint write_groups
write_300 = refl

read_300 : read_vint input ≡ done 300 behind
unfolding read_vint read_groups read_full
read_300 = refl

read_long_300 : read_vlong input ≡ done 300 behind
unfolding read_vlong read_groups read_full
read_long_300 = refl

write_vlong_panics_example :
    (write_vlong 0xffff_ffff_ffff_ffff ≡ panicked) ↔ (2 ^ 63 ≤ 0xffff_ffff_ffff_ffff)
write_vlong_panics_example = write_vlong_panics 0xffff_ffff_ffff_ffff
