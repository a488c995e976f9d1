-- ===== src/Operation/Listener/Events.antt =====
-- The events of a cache as the server sends them, read and skipped.
use go_client.Prelude.{ℕ, ◌^◌, ◌<◌, ◌≡◌, [], true, false, if◌then◌else◌, refl, length, IsU64}
use go_client.Io.{Bytes, pure, Write, wrote, ◌>>◌}
use go_client.Io.Encodes.{
  Encodes, Encodes-bind, Encodes-map, Encodes-pure, Encodes-context, read_full-Encodes, >>_assoc,
}
use go_client.Codec.Wire.{write_u1, write_lp_bytes, write_long, read_long, long_of}
use go_client.Codec.Wire.RoundTrip.{u1-Encodes, lp_bytes-Encodes, long-Encodes}
use go_client.Operation.Listener.{
  EventType, created, modified, removed, expired, entry_event, event_type, has_version,
  decode_event_body, skip_event_type, skip_event_read, skip_event_body, skipped,
}

-- The server's opcode for each kind of event.
unfoldable pub opcode_of : EventType → ℕ
opcode_of created = 0x60
opcode_of modified = 0x61
opcode_of removed = 0x62
opcode_of expired = 0x63

-- A cache entry event: a version follows the key of those that leave an entry behind.
write_version : EventType → ℕ → Write
write_version created version = write_long version
write_version modified version = write_long version
write_version removed version = wrote []
write_version expired version = wrote []

pub write_entry_event : EventType → ℕ → Bytes → ℕ → Write
write_entry_event type retried key version = do
  write_u1 0
  write_u1 retried
  write_lp_bytes key
  write_version type version

-- The version that the client keeps.
unfoldable pub kept_version : EventType → ℕ → ℕ
kept_version created version = version
kept_version modified version = version
kept_version removed version = 0
kept_version expired version = 0

event_type-opcode_of : (t : EventType) → event_type (opcode_of t) ≡ t
unfolding event_type opcode_of
event_type-opcode_of created = refl
event_type-opcode_of modified = refl
event_type-opcode_of removed = refl
event_type-opcode_of expired = refl

version-Encodes :
    (t : EventType) (version : ℕ)
    → IsU64 version
    → Encodes
        (write_version t version)
        (if has_version t then read_long else pure 0)
        (kept_version t version)
unfolding write_version has_version kept_version
version-Encodes created version h = long-Encodes version h
version-Encodes modified version h = long-Encodes version h
version-Encodes removed version h = Encodes-pure 0
version-Encodes expired version h = Encodes-pure 0

-- A cache entry event of every kind is read back, with its key and, where its kind carries one, its
-- version.
pub event-Encodes :
    (t : EventType) (retried : ℕ) (key : Bytes) (version : ℕ)
    → length key < 2 ^ 31
    → IsU64 version
    → Encodes
        (write_entry_event t retried key version)
        (decode_event_body (opcode_of t))
        (entry_event (record { type = t; key = key; version = kept_version t version }))
unfolding write_entry_event decode_event_body
event-Encodes t retried key version short h = Encodes-bind _ (u1-Encodes 0) (
    Encodes-bind _ (u1-Encodes retried) (
      Encodes-bind _ (lp_bytes-Encodes key short)
        (rw event_type-opcode_of (Encodes-map _ (version-Encodes t version h)))))

skipped-Encodes :
    {w : Write} (op_code : ℕ)
    → Encodes w (skip_event_read op_code) tt
    → Encodes w (skip_event_body op_code) tt
unfolding skip_event_body skipped
skipped-Encodes op_code e = record {
  bytes = e.bytes;
  written = e.written;
  read_back = λ rest. rw (e.read_back rest) refl;
}

skip_type : (t : EventType) → has_version t ≡ true → skip_event_type (opcode_of t) ≡ t
unfolding skip_event_type opcode_of has_version
skip_type created h = refl
skip_type modified h = refl
skip_type removed h = cc
skip_type expired h = cc

-- SkipEventBody leaves the stream behind a created or modified event where DecodeEventBody would.
pub skip-Encodes :
    (t : EventType) (retried : ℕ) (key : Bytes) (version : ℕ)
    → has_version t ≡ true
    → length key < 2 ^ 31
    → IsU64 version
    → Encodes (write_entry_event t retried key version) (skip_event_body (opcode_of t)) tt
unfolding write_entry_event skip_event_read
skip-Encodes t retried key version versioned short h = skipped-Encodes (opcode_of t) (
    Encodes-bind _ (u1-Encodes 0) (
      Encodes-bind _ (u1-Encodes retried) (
        Encodes-bind _ (lp_bytes-Encodes key short)
          (rw (skip_type t versioned) (Encodes-map _ (version-Encodes t version h))))))

-- Eight bytes of any kind pass for a version.
long_swallows : (next : Bytes) → length next ≡ 8 → Encodes (wrote next) read_long (long_of next)
unfolding read_long
long_swallows next h = Encodes-map long_of (Encodes-context _ (read_full-Encodes 8 next h))

-- A removed or expired event, which has no version, takes for created.
skip_type_unversioned :
    (t : EventType) → has_version t ≡ false → skip_event_type (opcode_of t) ≡ created
unfolding skip_event_type opcode_of has_version
skip_type_unversioned created h = cc
skip_type_unversioned modified h = cc
skip_type_unversioned removed h = refl
skip_type_unversioned expired h = refl

unversioned :
    (t : EventType) (version : ℕ) → has_version t ≡ false → write_version t version ≡ wrote []
unfolding write_version has_version
unversioned created version h = cc
unversioned modified version h = cc
unversioned removed version h = refl
unversioned expired version h = refl

created_versioned : has_version created ≡ true
unfolding has_version
created_versioned = refl

-- SkipEventBody behind a removed or expired event takes the next eight bytes of the stream as well,
-- whatever they are: they belong to the next message.
pub skip_overreads :
    (t : EventType) (retried : ℕ) (key : Bytes) (version : ℕ) (next : Bytes)
    → has_version t ≡ false
    → length key < 2 ^ 31
    → length next ≡ 8
    → Encodes
        (write_entry_event t retried key version >> wrote next)
        (skip_event_body (opcode_of t))
        tt
unfolding write_entry_event skip_event_read
skip_overreads t retried key version next h short eight = skipped-Encodes (opcode_of t) (
    rw (>>_assoc (write_u1 0), >>_assoc (write_u1 retried), >>_assoc (write_lp_bytes key))
      (Encodes-bind _ (u1-Encodes 0) (
        Encodes-bind _ (u1-Encodes retried) (
          Encodes-bind _ (lp_bytes-Encodes key short) (
            rw (skip_type_unversioned t h, unversioned t version h, created_versioned)
              (Encodes-map _ (long_swallows next eight)))))))
