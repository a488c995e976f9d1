-- ===== src/Operation/Tests.antt =====
-- The theorems on the operations at concrete inputs.
use go_client.Prelude.{◌≡◌, refl, [], ◌∷◌, false, arith}
use go_client.Io.{Bytes, done, wrote, ◌>>◌, split_at, read_full}
use go_client.Codec.VarInt.{read_vint, read_groups}
use go_client.Codec.Wire.{read_lp_string, read_lp_bytes, read_u1, read_long}
use go_client.Operation.Counter.{CounterEvent, decode_counter_event_body}
use go_client.Io.Encodes.{Encodes}
use go_client.Operation.Listener.{expired, skip_event_body, has_version}
use go_client.Operation.Listener.Events.{opcode_of, write_entry_event, skip_overreads}

expired_has_none : has_version expired ≡ false
unfolding has_version
expired_has_none = refl

-- The first eight bytes of the response behind the event.
skip_overreads_example :
    Encodes
      (write_entry_event expired 0 (1 ∷ 2 ∷ []) 7 >> wrote (0xa1 ∷ 3 ∷ 4 ∷ 0 ∷ 0 ∷ 2 ∷ 5 ∷ 6 ∷ []))
      (skip_event_body (opcode_of expired))
      tt
skip_overreads_example =
    skip_overreads expired 0 (1 ∷ 2 ∷ []) 7 (0xa1 ∷ 3 ∷ 4 ∷ 0 ∷ 0 ∷ 2 ∷ 5 ∷ 6 ∷ []) expired_has_none
      (omega arith) refl

-- An event of a counter with a name and a listener of one byte each, and one byte behind it.
abbrev an_event : Bytes
an_event =
    1 ∷ 0x63 ∷ 1 ∷ 9 ∷ 0 ∷ 0 ∷ 0 ∷ 0 ∷ 0 ∷ 0 ∷ 0 ∷ 0 ∷ 1 ∷ 0 ∷ 0 ∷ 0 ∷ 0 ∷ 0 ∷ 0 ∷ 0 ∷ 2 ∷ 7 ∷ []

abbrev the_event : CounterEvent × Bytes
the_event = (
  record { name = 0x63 ∷ []; old_state = 0; new_state = 0; old_value = 1; new_value = 2 },
  9 ∷ [],
)

event_decoded : decode_counter_event_body an_event ≡ done the_event (7 ∷ [])
unfolding decode_counter_event_body read_lp_string read_lp_bytes read_u1 read_long read_vint
    read_groups read_full split_at
event_decoded = refl
