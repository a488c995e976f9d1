-- ===== src/Hotrod/Transaction/Log/Entry.antt =====
-- hotrod/transaction.go: the entry of a key is the one that the log tells.
use go_client.Prelude.{
  ℕ, ◌+◌, ◌-◌, ◌≡◌, ◌≢◌, refl, List, [], ◌∷◌, Option, none, some, true, find, store, find-store,
  bytes_discrete, bit_and, bit_or, arith, sym, ap, subst, ◌∙◌, Option-cases, Bool-cases, inl, inr,
}
use go_client.Io.{Bytes, Error}
use go_client.Operation.Key.{GetWithVersionResponse}
use go_client.Operation.Transaction.{ctrl_remove_op}
use go_client.Hotrod.Transaction.{
  TxEntry, Entries, Answer, answered, failed, hex_key, fetched_entry, is_removed, tx_get, tx_put,
  tx_remove,
}
use go_client.Hotrod.Transaction.Hex.{IsKey, hex_key-injective}
use go_client.Hotrod.Transaction.Log.{
  TxCall, getting, putting, removing, tx_call, after, key_of, HasKeys, Touch, existing, absent,
  unread, first_touch, Write, wrote, deleted, touch_control, write_control, entry_of, described,
}
use go_client.Hotrod.Transaction.Log.Described.{
  described-other, entry_or_new-described, described-write, described-read_known,
  described-read_failed, described-read_first, described-none, described-some,
}

find-store_other :
    (q j : Bytes) (e : TxEntry) (entries : Entries)
    → j ≢ q
    → find bytes_discrete q (store bytes_discrete j e entries) ≡ find bytes_discrete q entries
find-store_other q j e entries other = ground (arith, find-store bytes_discrete j q e entries)

pub find-store_same :
    (q : Bytes) (e : TxEntry) (entries : Entries)
    → find bytes_discrete q (store bytes_discrete q e entries) ≡ some e
find-store_same q e entries = ground (arith, find-store bytes_discrete q q e entries)

-- What Get leaves.
pub get-failed :
    (j : Bytes) (err : Error) (entries : Entries) → (tx_get j (failed err) entries).1 ≡ entries
unfolding tx_get
get-failed j err entries = ground arith

pub get-found :
    (j : Bytes) (server : Answer GetWithVersionResponse) (e : TxEntry) (entries : Entries)
    → find bytes_discrete (hex_key j) entries ≡ some e
    → (tx_get j server entries).1 ≡ entries
unfolding tx_get
get-found j server e entries found =
    rw (tx_get, found)
      (elim (Bool-cases (is_removed e)) [ inl gone ↦ rw gone refl | inr kept ↦ rw kept refl ])

pub get-fetched :
    (j : Bytes) (resp : GetWithVersionResponse) (entries : Entries)
    → find bytes_discrete (hex_key j) entries ≡ none
    → (tx_get j (answered resp) entries).1
      ≡ store bytes_discrete (hex_key j) (fetched_entry j resp) entries
unfolding tx_get
get-fetched j resp entries missing = rw (tx_get, missing) refl

after-other :
    (k : Bytes) (c : TxCall) (entries : Entries)
    → hex_key (key_of c) ≢ hex_key k
    → find bytes_discrete (hex_key k) (tx_call c entries) ≡ find bytes_discrete (hex_key k) entries
unfolding tx_call tx_put tx_remove
after-other k (getting j (failed err)) entries other =
    ap (find bytes_discrete (hex_key k)) (get-failed j err entries)
after-other k (getting j (answered resp)) entries other =
    elim (Option-cases (find bytes_discrete (hex_key j) entries)) [
      | inl missing ↦
          rw (get-fetched j resp entries missing)
            (find-store_other (hex_key k) (hex_key j) _ entries other)
      | inr (e, found) ↦
          ap (find bytes_discrete (hex_key k)) (get-found j (answered resp) e entries found)
    ]
after-other k (putting j v l m) entries other =
    find-store_other (hex_key k) (hex_key j) _ entries other
after-other k (removing j) entries other = find-store_other (hex_key k) (hex_key j) _ entries other

-- The control byte under Put and Remove.
keep_control :
    (t : Touch) (w : Option Write)
    → bit_and (touch_control t + write_control w) (0xff - ctrl_remove_op) ≡ touch_control t + 0
keep_control (existing v n) none = refl
keep_control (existing v n) (some (wrote w)) = refl
keep_control (existing v n) (some deleted) = refl
keep_control absent none = refl
keep_control absent (some (wrote w)) = refl
keep_control absent (some deleted) = refl
keep_control unread none = refl
keep_control unread (some (wrote w)) = refl
keep_control unread (some deleted) = refl

drop_control :
    (t : Touch) (w : Option Write)
    → bit_or (touch_control t + write_control w) ctrl_remove_op ≡ touch_control t + ctrl_remove_op
drop_control (existing v n) none = refl
drop_control (existing v n) (some (wrote w)) = refl
drop_control (existing v n) (some deleted) = refl
drop_control absent none = refl
drop_control absent (some (wrote w)) = refl
drop_control absent (some deleted) = refl
drop_control unread none = refl
drop_control unread (some (wrote w)) = refl
drop_control unread (some deleted) = refl

-- Put and Remove on the entry of the log; before the first touch it is that of an unread key.
put-entry_of :
    (k : Bytes) (t : Touch) (w : Option Write) (times : Option (ℕ × ℕ)) (v : Option Bytes) (l m : ℕ)
    → record (entry_of k t w times) {
      value = v;
      control = bit_and (entry_of k t w times).control (0xff - ctrl_remove_op);
      lifespan = l;
      max_idle = m;
      modified = true;
    }
      ≡ entry_of k t (some (wrote v)) (some (l, m))
unfolding entry_of
put-entry_of k t w times v l m =
    ap (λ c. record (entry_of k t (some (wrote v)) (some (l, m))) { control = c })
      (keep_control t w)

remove-entry_of :
    (k : Bytes) (t : Touch) (w : Option Write) (times : Option (ℕ × ℕ))
    → record (entry_of k t w times) {
      control = bit_or (entry_of k t w times).control ctrl_remove_op;
      value = none;
      modified = true;
    }
      ≡ entry_of k t (some deleted) times
unfolding entry_of
remove-entry_of k t w times =
    ap (λ c. record (entry_of k t (some deleted) times) { control = c }) (drop_control t w)

-- A call about the key itself.
call-same :
    (c : TxCall) (log : List TxCall) (entries : Entries)
    → find bytes_discrete (hex_key (key_of c)) entries ≡ described (key_of c) log
    → find bytes_discrete (hex_key (key_of c)) (tx_call c entries) ≡ described (key_of c) (c ∷ log)
unfolding tx_call tx_put tx_remove
call-same (getting j (failed err)) log entries ih =
    rw (get-failed j err entries, ih) (sym (described-read_failed j err log))
call-same (getting j (answered resp)) log entries ih = elim (Option-cases (first_touch j log)) [
  | inl fresh ↦
      rw
        (
          get-fetched j resp entries (ih ∙ described-none j log fresh),
          described-read_first j resp log fresh,
        )
        (find-store_same (hex_key j) _ entries)
  | inr (t, known) ↦
      rw
        (
          get-found j (answered resp) _ entries (ih ∙ described-some j log t known),
          described-read_known j (answered resp) log t known,
        )
        ih
]
call-same (putting j v l m) log entries ih =
    find-store_same (hex_key j) _ entries
    ∙ (ap some (
          ap
            (λ (e : TxEntry). record e {
              value = v;
              control = bit_and e.control (0xff - ctrl_remove_op);
              lifespan = l;
              max_idle = m;
              modified = true;
            })
            (entry_or_new-described j log entries ih)
          ∙ put-entry_of j _ _ _ v l m)
        ∙ sym (described-write (putting j v l m) (wrote v) log refl refl))
call-same (removing j) log entries ih =
    find-store_same (hex_key j) _ entries
    ∙ (ap some (
          ap
            (λ (e : TxEntry). record e {
              control = bit_or e.control ctrl_remove_op;
              value = none;
              modified = true;
            })
            (entry_or_new-described j log entries ih)
          ∙ remove-entry_of j _ _ _)
        ∙ sym (described-write (removing j) deleted log refl refl))

pub after-described :
    (k : Bytes) (log : List TxCall)
    → IsKey k
    → HasKeys log
    → find bytes_discrete (hex_key k) (after log) ≡ described k log
unfolding after
after-described k [] hk h = unfold find described first_touch in refl
after-described k (c ∷ log) hk (hc, h) =
    let ih = after-described k log hk h in
    elim (bytes_discrete (key_of c) k) [
      | yes same ↦
          subst
            (λ q. find bytes_discrete (hex_key q) (tx_call c (after log)) ≡ described q (c ∷ log))
            same
            (call-same c log (after log) (
              subst (λ q. find bytes_discrete (hex_key q) (after log) ≡ described q log) (sym same)
                ih))
      | no other ↦
          after-other k c (after log) (λ e. other (hex_key-injective (key_of c) k hc hk e))
          ∙ (ih ∙ sym (described-other k c log other))
    ]
