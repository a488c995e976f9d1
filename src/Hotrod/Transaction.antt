-- ===== src/Hotrod/Transaction.antt =====
-- hotrod/transaction.go: the transactional view of a cache. A `[]byte` that may be nil is an Option. The
-- answer of the server to a Get is an argument of the call, so that the server may change between calls.
pub mod Hex
pub mod Log
pub mod Commit
use go_client.Prelude.{
  ℕ, ◌-◌, ◌/◌, List, [], ◌∷◌, Option, none, some, Bool, true, false, not, ◌==◌, if◌then◌else◌, find,
  store, bytes_discrete, bit_and, bit_or, get_or,
}
use go_client.Io.{Bytes}
pub use go_client.Io.{Answer, answered, failed}
use go_client.Operation.Key.{GetWithVersionResponse}
use go_client.Operation.Transaction.{
  TxModification, ctrl_not_read, ctrl_non_existing, ctrl_remove_op,
}

-- `hextable`, "0123456789abcdef" in ASCII.
abbrev pub hextable : Bytes
hextable = 48 ∷ 49 ∷ 50 ∷ 51 ∷ 52 ∷ 53 ∷ 54 ∷ 55 ∷ 56 ∷ 57 ∷ 97 ∷ 98 ∷ 99 ∷ 100 ∷ 101 ∷ 102 ∷ []

-- The two digits of each byte; the indices into the table are below 16.
unfoldable pub hex_key : Bytes → Bytes
hex_key [] = []
hex_key (v ∷ b) = get_or hextable (v / 16) 0 ∷ get_or hextable (bit_and v 0x0f) 0 ∷ hex_key b

pub record TxEntry : Type 0 where
  pub key : Bytes
  pub value : Option Bytes
  pub version_read : ℕ
  pub control : ℕ
  pub lifespan : ℕ
  pub max_idle : ℕ
  pub modified : Bool

-- TxCache.entries, by the hex form of the key.
abbrev pub Entries : Type 0
Entries = List (Bytes × TxEntry)

-- An entry as the composite literals `&txEntry{key: …, control: …}` leave it.
abbrev pub new_entry : Bytes → ℕ → TxEntry
new_entry key control = record {
  key = key;
  value = none;
  version_read = 0;
  control = control;
  lifespan = 0;
  max_idle = 0;
  modified = false;
}

-- Whether bit CtrlRemoveOp is set.
abbrev pub is_removed : TxEntry → Bool
is_removed e = not (bit_and e.control ctrl_remove_op == 0)

-- The entry that Get makes of the server's response.
unfoldable pub fetched_entry : Bytes → GetWithVersionResponse → TxEntry
fetched_entry key resp =
    if resp.found
    then record (new_entry key 0) { value = resp.value; version_read = resp.version }
    else new_entry key ctrl_non_existing

-- Whether a slice is not nil.
abbrev pub is_some {ℓ} : {A : Type ℓ} → Option A → Bool
is_some none = false
is_some (some a) = true

-- Get with the server's answer, which is only asked for on a key that has no entry: the value, whether
-- it was found, or the error.
unfoldable pub tx_get :
    Bytes → Answer GetWithVersionResponse → Entries → Answer (Option Bytes × Bool) × Entries
tx_get key server entries = elim (find bytes_discrete (hex_key key) entries) [
  | some e ↦
      if is_removed e
      then (answered (none, false), entries)
      else (answered (e.value, is_some e.value), entries)
  | none ↦ elim server [
    | failed err ↦ (failed err, entries)
    | answered resp ↦
        let e = fetched_entry key resp in
        (answered (e.value, resp.found), store bytes_discrete (hex_key key) e entries)
  ]
]

-- The entry of the key, or the new one that Put and Remove make.
unfoldable pub entry_or_new : Bytes → Entries → TxEntry
entry_or_new key entries = elim (find bytes_discrete (hex_key key) entries) [
  | some e ↦ e
  | none ↦ new_entry key ctrl_not_read
]

-- Put with the lifespan and the max-idle time of its options.
unfoldable pub tx_put : Bytes → Option Bytes → ℕ → ℕ → Entries → Entries
tx_put key value lifespan max_idle entries =
    let e = entry_or_new key entries in
    store bytes_discrete (hex_key key)
      (record e {
        value = value;
        control = bit_and e.control (0xff - ctrl_remove_op);
        lifespan = lifespan;
        max_idle = max_idle;
        modified = true;
      })
      entries

unfoldable pub tx_remove : Bytes → Entries → Entries
tx_remove key entries =
    let e = entry_or_new key entries in
    store bytes_discrete (hex_key key)
      (record e { control = bit_or e.control ctrl_remove_op; value = none; modified = true })
      entries

-- A nil slice is written as an empty one.
abbrev pub bytes_of : Option Bytes → Bytes
bytes_of none = []
bytes_of (some v) = v

unfoldable pub modification : TxEntry → TxModification
modification e = record {
  key = e.key;
  value = bytes_of e.value;
  version_read = e.version_read;
  control = e.control;
  lifespan = e.lifespan;
  max_idle = e.max_idle;
}

-- The modified entries, in the order of the map's iteration.
unfoldable pub build_modifications : Entries → List TxModification
build_modifications [] = []
build_modifications ((hex, e) ∷ entries) =
    let mods = build_modifications entries in if e.modified then modification e ∷ mods else mods
