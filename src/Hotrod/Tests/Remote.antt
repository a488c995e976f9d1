-- ===== src/Hotrod/Tests/Remote.antt =====
-- The theorems on a RemoteCache at concrete inputs.
use go_client.Prelude.{
  ◌≡◌, if◌then◌else◌, ◌==◌, refl, List, [], ◌∷◌, none, some, All, find, store, bytes_discrete,
  arith,
}
use go_client.Io.{Bytes, answered}
use go_client.Codec.Constants.{status_success, status_key_does_not_exist}
use go_client.Hotrod.Execute.{Server}
use go_client.Hotrod.Remote.{RemoteCache, cache}
use go_client.Io.Encodes.{Encodes}
use go_client.Codec.Wire.{read_metadata}
use go_client.Codec.Wire.Metadata.{infinite, write_metadata, metadata, metadata-Encodes}
use go_client.Hotrod.Bulk.{owner, add_to, group_by}
use go_client.Hotrod.Bulk.Groups.{in_groups, IsOwned, group_by-perm}
use mathlib.Core.List.{Perm}

abbrev people : RemoteCache
people = cache (0x70 ∷ [])

-- A server that answers any request with success and a value.
abbrev helpful : Server
helpful request = answered (0, 1 ∷ 7 ∷ [])

-- A previous value of one byte, of an entry that does not expire.
abbrev previous_sent :
    Encodes
      (write_metadata infinite infinite 5 (7 ∷ []))
      read_metadata
      (metadata infinite infinite 5, 7 ∷ [])
previous_sent = metadata-Encodes infinite infinite 5 (7 ∷ []) tt tt (omega arith) (omega arith)

abbrev remembering : Server
remembering request = answered (3, previous_sent.bytes)

-- A server that finds the key under media type 2 only.
abbrev by_media_type : Server
by_media_type request =
    if request.op_code == 0x0f
    then answered
        ((if request.key_media_type == 2 then status_success else status_key_does_not_exist), [])
    else answered (
        if request.key_media_type == 2
        then (status_success, 1 ∷ 7 ∷ [])
        else (status_key_does_not_exist, []))

-- Without a routing table all keys are in one group.
abbrev two_keys : List Bytes
two_keys = (1 ∷ []) ∷ (2 ∷ []) ∷ []

grouped : group_by (λ q. q) none two_keys [] ≡ some (([], two_keys) ∷ [])
unfolding group_by owner add_to find store bytes_discrete
grouped = refl

group_by-perm_example :
    Perm (in_groups (([], two_keys) ∷ [])) two_keys
    × All (IsOwned (λ q. q) none) (([], two_keys) ∷ [])
group_by-perm_example = group_by-perm (λ q. q) none two_keys (([], two_keys) ∷ []) grouped
