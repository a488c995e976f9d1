-- ===== src/Hotrod/Transaction/Log/Described.antt =====
-- hotrod/transaction.go: what the log tells of a key, call by call.
use go_client.Prelude.{
  ◌≡◌, ◌≢◌, refl, List, [], ◌∷◌, Option, none, some, find, bytes_discrete, arith, Option-cases, inl,
  inr,
}
use go_client.Io.{Bytes, Error}
use go_client.Operation.Key.{GetWithVersionResponse}
use go_client.Hotrod.Transaction.{
  Entries, Answer, answered, failed, hex_key, fetched_entry, entry_or_new,
}
use go_client.Hotrod.Transaction.Log.{
  TxCall, getting, putting, removing, key_of, Touch, unread, touch_of, or_else, first_touch, Write,
  write_of, last_write, times_of, last_times, entry_of, described,
}

-- Without a first touch there is no write.
pub untouched :
    (k : Bytes) (log : List TxCall)
    → first_touch k log ≡ none
    → (last_write k log ≡ none) × (last_times k log ≡ none)
unfolding first_touch last_write last_times
untouched k [] h = (refl, refl)
untouched k (getting j (answered resp) ∷ log) h = ground (arith, untouched k log)
untouched k (getting j (failed err) ∷ log) h = ground (arith, untouched k log)
untouched k (putting j v l m ∷ log) h = ground (arith, untouched k log)
untouched k (removing j ∷ log) h = ground (arith, untouched k log)

-- The call is about another key.
module _ (k : Bytes) (c : TxCall) (log : List TxCall) (other : key_of c ≢ k) where
  pub described-other : described k (c ∷ log) ≡ described k log
  unfolding described first_touch last_write last_times
  described-other = ground arith

-- The first touch of a key that is written to next.
abbrev pub or_unread : Option Touch → Touch
or_unread none = unread
or_unread (some t) = t

pub entry_or_new-described :
    (k : Bytes) (log : List TxCall) (entries : Entries)
    → find bytes_discrete (hex_key k) entries ≡ described k log
    → entry_or_new k entries
      ≡ entry_of k (or_unread (first_touch k log)) (last_write k log) (last_times k log)
unfolding entry_or_new described
entry_or_new-described k log entries ih = elim (Option-cases (first_touch k log)) [
  | inl fresh ↦
      let (unwritten, untimed) = untouched k log fresh in
      rw (entry_or_new, ih, described, fresh, unwritten, untimed) (unfold entry_of in refl)
  | inr (t, known) ↦ rw (entry_or_new, ih, described, known) refl
]

pub described-write :
    (c : TxCall) (w : Write) (log : List TxCall)
    → touch_of c ≡ some unread
    → write_of c ≡ some w
    → described (key_of c) (c ∷ log)
      ≡ some (
          entry_of
            (key_of c)
            (or_unread (first_touch (key_of c) log))
            (some w)
            (or_else (times_of c) (last_times (key_of c) log)))
unfolding described first_touch last_write last_times
described-write c w log touches writes = ground arith

-- A Get keeps what is known of its key, or makes its entry.
pub described-read_known :
    (j : Bytes) (server : Answer GetWithVersionResponse) (log : List TxCall) (t : Touch)
    → first_touch j log ≡ some t
    → described j (getting j server ∷ log) ≡ described j log
unfolding described first_touch last_write last_times
described-read_known j server log t known = ground arith

pub described-read_failed :
    (j : Bytes) (err : Error) (log : List TxCall)
    → described j (getting j (failed err) ∷ log) ≡ described j log
unfolding described first_touch last_write last_times
described-read_failed j err log = ground arith

pub described-read_first :
    (j : Bytes) (resp : GetWithVersionResponse) (log : List TxCall)
    → first_touch j log ≡ none
    → described j (getting j (answered resp) ∷ log) ≡ some (fetched_entry j resp)
unfolding described first_touch last_write last_times fetched_entry entry_of
described-read_first j resp log fresh =
    let (unwritten, untimed) = untouched j log fresh in ground arith

pub described-none :
    (k : Bytes) (log : List TxCall) → first_touch k log ≡ none → described k log ≡ none
unfolding described
described-none k log fresh = rw (described, fresh) refl

pub described-some :
    (k : Bytes) (log : List TxCall) (t : Touch)
    → first_touch k log ≡ some t
    → described k log ≡ some (entry_of k t (last_write k log) (last_times k log))
unfolding described
described-some k log t known = rw (described, known) refl
