-- ===== src/Hotrod/Transaction/Log/Visible.antt =====
-- hotrod/transaction.go: what a transaction sees, told from its log.
use go_client.Prelude.{
  ℕ, ◌≡◌, refl, List, Option, none, some, Bool, false, if◌then◌else◌, find, bytes_discrete, sym,
  ◌∙◌, Option-cases, Bool-cases, inl, inr,
}
use go_client.Io.{Bytes}
use go_client.Operation.Key.{GetWithVersionResponse}
use go_client.Hotrod.Transaction.{
  TxEntry, Entries, Answer, answered, failed, hex_key, fetched_entry, is_removed, tx_get, is_some,
}
use go_client.Hotrod.Transaction.Hex.{IsKey}
use go_client.Hotrod.Transaction.Log.{
  TxCall, after, HasKeys, Touch, existing, absent, unread, first_touch, Write, wrote, deleted,
  last_write, last_times, write_value, entry_of,
}
use go_client.Hotrod.Transaction.Log.Described.{described-none, described-some}
use go_client.Hotrod.Transaction.Log.Entry.{after-described}

-- What a Get finds: the last write, or else what the first read found, or else what the server answers.
unfoldable pub visible :
    Bytes → List TxCall → Answer GetWithVersionResponse → Answer (Option Bytes × Bool)
visible k log server = elim (first_touch k log) [
  | some t ↦ let v = write_value t (last_write k log) in answered (v, is_some v)
  | none ↦ elim server [
    | failed err ↦ failed err
    | answered resp ↦ answered (if resp.found then resp.value else none, resp.found)
  ]
]

-- What Get makes of an entry that it has.
abbrev found_result : TxEntry → Answer (Option Bytes × Bool)
found_result e =
    if is_removed e then answered (none, false) else answered (e.value, is_some e.value)

get_found :
    (k : Bytes) (server : Answer GetWithVersionResponse) (entries : Entries) (e : TxEntry)
    → find bytes_discrete (hex_key k) entries ≡ some e
    → (tx_get k server entries).0 ≡ found_result e
unfolding tx_get
get_found k server entries e found =
    rw (tx_get, found)
      (elim (Bool-cases (is_removed e)) [ inl gone ↦ rw gone refl | inr kept ↦ rw kept refl ])

-- What Get returns for the entry of a log.
found-entry_of :
    (k : Bytes) (t : Touch) (w : Option Write) (times : Option (ℕ × ℕ))
    → found_result (entry_of k t w times) ≡ answered (write_value t w, is_some (write_value t w))
unfolding entry_of
found-entry_of k (existing v n) none times = refl
found-entry_of k (existing v n) (some (wrote w)) times = refl
found-entry_of k (existing v n) (some deleted) times = refl
found-entry_of k absent none times = refl
found-entry_of k absent (some (wrote w)) times = refl
found-entry_of k absent (some deleted) times = refl
found-entry_of k unread none times = refl
found-entry_of k unread (some (wrote w)) times = refl
found-entry_of k unread (some deleted) times = refl

visible-known :
    (k : Bytes) (log : List TxCall) (server : Answer GetWithVersionResponse) (t : Touch)
    → first_touch k log ≡ some t
    → visible k log server
      ≡ answered (write_value t (last_write k log), is_some (write_value t (last_write k log)))
unfolding visible
visible-known k log server t known = rw (visible, known) refl

get_missing :
    (k : Bytes) (server : Answer GetWithVersionResponse) (entries : Entries) (log : List TxCall)
    → find bytes_discrete (hex_key k) entries ≡ none
    → first_touch k log ≡ none
    → (tx_get k server entries).0 ≡ visible k log server
unfolding tx_get visible fetched_entry
get_missing k (failed err) entries log missing fresh = rw (tx_get, missing, visible, fresh) refl
get_missing k (answered resp) entries log missing fresh =
    rw (tx_get, missing, visible, fresh)
      (elim (Bool-cases resp.found) [ inl there ↦ rw there refl | inr gone ↦ rw gone refl ])

-- Get within a transaction, after any calls on keys of bytes, returns the last write to its key, or else
-- what the first read of the key found, whatever the server would answer now; it returns the server's
-- answer only for a key that was neither read nor written.
pub tx_get-visible :
    (k : Bytes) (log : List TxCall) (server : Answer GetWithVersionResponse)
    → IsKey k
    → HasKeys log
    → (tx_get k server (after log)).0 ≡ visible k log server
tx_get-visible k log server hk h =
    let entry = after-described k log hk h in
    elim (Option-cases (first_touch k log)) [
      | inl fresh ↦ get_missing k server (after log) log (entry ∙ described-none k log fresh) fresh
      | inr (t, known) ↦
          get_found k server (after log) _ (entry ∙ described-some k log t known)
          ∙ (found-entry_of k t (last_write k log) (last_times k log)
              ∙ sym (visible-known k log server t known))
    ]
