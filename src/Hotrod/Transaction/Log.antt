-- ===== src/Hotrod/Transaction/Log.antt =====
-- hotrod/transaction.go: what the calls of a transaction come to, told from their log.
pub mod Described
pub mod Entry
pub mod Visible
pub mod Sent
use go_client.Prelude.{
  ℕ, ◌+◌, ◌≡◌, refl, List, [], ◌∷◌, Option, none, some, Bool, true, false, if◌then◌else◌,
  bytes_discrete, All,
}
use go_client.Io.{Bytes}
use go_client.Operation.Key.{GetWithVersionResponse}
use go_client.Operation.Transaction.{
  TxModification, ctrl_not_read, ctrl_non_existing, ctrl_remove_op,
}
use go_client.Hotrod.Transaction.{
  TxEntry, Entries, Answer, answered, failed, tx_get, tx_put, tx_remove, is_some,
}
use go_client.Hotrod.Transaction.Hex.{IsKey}
use mathlib.Core.Logic.{ite}

-- A call of the transaction's function; a Get with what the server would answer at that time.
pub data TxCall : Type 0 where
  getting : Bytes → Answer GetWithVersionResponse → TxCall
  putting : Bytes → Option Bytes → ℕ → ℕ → TxCall
  removing : Bytes → TxCall

unfoldable pub tx_call : TxCall → Entries → Entries
tx_call (getting key server) entries = (tx_get key server entries).1
tx_call (putting key value lifespan max_idle) entries = tx_put key value lifespan max_idle entries
tx_call (removing key) entries = tx_remove key entries

-- The entries after a log of calls, the latest first.
unfoldable pub after : List TxCall → Entries
after [] = []
after (c ∷ log) = tx_call c (after log)

abbrev pub key_of : TxCall → Bytes
key_of (getting key server) = key
key_of (putting key value lifespan max_idle) = key
key_of (removing key) = key

abbrev pub HasKeys : List TxCall → Type 0
HasKeys log = All (λ c. IsKey (key_of c)) log

-- How a transaction first came to a key: it read an entry with its version, it read that there is none, or
-- it wrote without reading.
pub data Touch : Type 0 where
  existing : Option Bytes → ℕ → Touch
  absent unread : Touch

abbrev pub touch_of : TxCall → Option Touch
touch_of (getting key (answered resp)) =
    some (if resp.found then existing resp.value resp.version else absent)
touch_of (getting key (failed err)) = none
touch_of (putting key value lifespan max_idle) = some unread
touch_of (removing key) = some unread

abbrev pub or_else {ℓ} : {A : Type ℓ} → Option A → Option A → Option A
or_else none other = other
or_else (some a) other = some a

unfoldable pub first_touch : Bytes → List TxCall → Option Touch
first_touch k [] = none
first_touch k (c ∷ log) =
    or_else (first_touch k log) (ite (bytes_discrete (key_of c) k) (touch_of c) none)

-- What a transaction wrote to a key last.
pub data Write : Type 0 where
  wrote : Option Bytes → Write
  deleted : Write

abbrev pub write_of : TxCall → Option Write
write_of (getting key server) = none
write_of (putting key value lifespan max_idle) = some (wrote value)
write_of (removing key) = some deleted

unfoldable pub last_write : Bytes → List TxCall → Option Write
last_write k [] = none
last_write k (c ∷ log) =
    or_else (ite (bytes_discrete (key_of c) k) (write_of c) none) (last_write k log)

abbrev pub times_of : TxCall → Option (ℕ × ℕ)
times_of (getting key server) = none
times_of (putting key value lifespan max_idle) = some (lifespan, max_idle)
times_of (removing key) = none

-- The expiration times of the last Put, whether or not a Remove came later.
unfoldable pub last_times : Bytes → List TxCall → Option (ℕ × ℕ)
last_times k [] = none
last_times k (c ∷ log) =
    or_else (ite (bytes_discrete (key_of c) k) (times_of c) none) (last_times k log)

abbrev pub touch_control : Touch → ℕ
touch_control (existing value version) = 0
touch_control absent = ctrl_non_existing
touch_control unread = ctrl_not_read

abbrev pub touch_version : Touch → ℕ
touch_version (existing value version) = version
touch_version absent = 0
touch_version unread = 0

abbrev pub touch_value : Touch → Option Bytes
touch_value (existing value version) = value
touch_value absent = none
touch_value unread = none

abbrev pub write_control : Option Write → ℕ
write_control (some deleted) = ctrl_remove_op
write_control (some (wrote value)) = 0
write_control none = 0

abbrev pub write_value : Touch → Option Write → Option Bytes
write_value t none = touch_value t
write_value t (some (wrote value)) = value
write_value t (some deleted) = none

abbrev pub times_or_zero : Option (ℕ × ℕ) → ℕ × ℕ
times_or_zero none = (0, 0)
times_or_zero (some times) = times

-- The entry of a key, from its first touch, its last write and its last times.
unfoldable pub entry_of : Bytes → Touch → Option Write → Option (ℕ × ℕ) → TxEntry
entry_of k t w times = record {
  key = k;
  value = write_value t w;
  version_read = touch_version t;
  control = touch_control t + write_control w;
  lifespan = (times_or_zero times).0;
  max_idle = (times_or_zero times).1;
  modified = is_some w;
}

unfoldable pub described : Bytes → List TxCall → Option TxEntry
described k log = elim (first_touch k log) [
  | none ↦ none
  | some t ↦ some (entry_of k t (last_write k log) (last_times k log))
]
