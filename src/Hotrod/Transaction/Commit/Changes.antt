-- ===== src/Hotrod/Transaction/Commit/Changes.antt =====
-- hotrod/transaction.go with internal/operation/transaction.go: what the server reads of a transaction.
use go_client.Prelude.{
  ℕ, suc, ◌≤◌, ◌<◌, ◌^◌, ◌≡◌, refl, List, [], ◌∷◌, map, length, find, store, bytes_discrete, All,
  All-store, All-find, IsU64, arith, sym, ap, subst, ◌∙◌, Option-cases, Bool-cases, inl, inr,
}
use go_client.Io.{Bytes}
use go_client.Io.Encodes.{Encodes}
use go_client.Operation.Key.{GetWithVersionResponse}
use go_client.Operation.Transaction.{TxModification, write_prepare_tx}
use go_client.Operation.Transaction.Server.{
  Change, change, Prepare, IsModification, IsPrepare, read_prepare, prepare-Encodes,
}
use go_client.Hotrod.Transaction.{
  TxEntry, Entries, Answer, answered, failed, hex_key, fetched_entry, tx_put, tx_remove,
  entry_or_new, modification, build_modifications, bytes_of,
}
use go_client.Hotrod.Transaction.Hex.{IsKey}
use go_client.Hotrod.Transaction.Log.{TxCall, getting, putting, removing, tx_call, after, HasKeys}
use go_client.Hotrod.Transaction.Log.Entry.{get-failed, get-found, get-fetched}
use go_client.Hotrod.Transaction.Log.Sent.{of_key, expected, build_modifications-expected}
use go_client.Hotrod.Transaction.Commit.{generate_xid, xid_of, prepare_op}
use go_client.Hotrod.Transaction.Commit.Ids.{generate_xid-IsXid}
use mathlib.Core.Logic.{ite}

-- Lengths below 2^31, and numbers of 64 bits.
abbrev pub IsResponse : Answer GetWithVersionResponse → Type 0
IsResponse (answered resp) = (length (bytes_of resp.value) < 2 ^ 31) × IsU64 resp.version
IsResponse (failed err) = Unit {0}

abbrev pub IsSmall : TxCall → Type 0
IsSmall (getting key server) = (length key < 2 ^ 31) × IsResponse server
IsSmall (putting key value lifespan max_idle) =
    (length key < 2 ^ 31) × ((length (bytes_of value) < 2 ^ 31) × (IsU64 lifespan × IsU64 max_idle))
IsSmall (removing key) = length key < 2 ^ 31

abbrev IsSmallEntry : TxEntry → Type 0
IsSmallEntry e =
    (length e.key < 2 ^ 31)
    × ((length (bytes_of e.value) < 2 ^ 31)
        × (IsU64 e.version_read × (IsU64 e.lifespan × IsU64 e.max_idle)))

abbrev AreSmall : Entries → Type 0
AreSmall entries = All (λ p. IsSmallEntry p.1) entries

entry_or_new-small :
    (k : Bytes) (entries : Entries)
    → length k < 2 ^ 31
    → AreSmall entries
    → IsSmallEntry (entry_or_new k entries)
unfolding entry_or_new
entry_or_new-small k entries hk w = elim (Option-cases (find bytes_discrete (hex_key k) entries)) [
  | inl missing ↦
      rw (entry_or_new, missing) (hk, (omega arith, (omega arith, (omega arith, omega arith))))
  | inr (e, found) ↦
      rw (entry_or_new, found)
        (All-find bytes_discrete (λ p. IsSmallEntry p.1) (hex_key k) e entries w found)
]

fetched_entry-small :
    (k : Bytes) (resp : GetWithVersionResponse)
    → length k < 2 ^ 31
    → IsResponse (answered resp)
    → IsSmallEntry (fetched_entry k resp)
unfolding fetched_entry
fetched_entry-small k resp hk (hv, hn) = elim (Bool-cases resp.found) [
  | inl there ↦ rw there (hk, (hv, (hn, (omega arith, omega arith))))
  | inr gone ↦ rw gone (hk, (omega arith, (omega arith, (omega arith, omega arith))))
]

call-AreSmall :
    (c : TxCall) (entries : Entries) → IsSmall c → AreSmall entries → AreSmall (tx_call c entries)
unfolding tx_call tx_put tx_remove
call-AreSmall (getting j (failed err)) entries s w =
    subst AreSmall (sym (get-failed j err entries)) w
call-AreSmall (getting j (answered resp)) entries (hj, hr) w =
    elim (Option-cases (find bytes_discrete (hex_key j) entries)) [
      | inl missing ↦ subst AreSmall (sym (get-fetched j resp entries missing)) (
          All-store bytes_discrete (λ p. IsSmallEntry p.1) (hex_key j) _ entries
            (fetched_entry-small j resp hj hr) w)
      | inr (e, found) ↦ subst AreSmall (sym (get-found j (answered resp) e entries found)) w
    ]
call-AreSmall (putting j v l m) entries (hj, (hv, (hl, hm))) w =
    let (hk, (old, (hn, times))) = entry_or_new-small j entries hj w in
    All-store bytes_discrete (λ p. IsSmallEntry p.1) (hex_key j) _ entries
      (hk, (hv, (hn, (hl, hm)))) w
call-AreSmall (removing j) entries hj w =
    let (hk, (old, rest)) = entry_or_new-small j entries hj w in
    All-store bytes_discrete (λ p. IsSmallEntry p.1) (hex_key j) _ entries (hk, (omega arith, rest))
      w

after-AreSmall : (log : List TxCall) → All IsSmall log → AreSmall (after log)
unfolding after
after-AreSmall [] h = tt
after-AreSmall (c ∷ log) (s, h) = call-AreSmall c (after log) s (after-AreSmall log h)

modifications-small :
    (entries : Entries) → AreSmall entries → All IsModification (build_modifications entries)
unfolding build_modifications modification
modifications-small [] w = tt
modifications-small ((hex, e) ∷ entries) ((hk, (hv, (hn, (hl, hm)))), w) =
    let ih = modifications-small entries w in
    let one : IsModification (modification e) = record {
      key = hk;
      value = hv;
      version_read = hn;
      lifespan = hl;
      max_idle = hm;
    } in
    elim (Bool-cases e.modified) [ inl changed ↦ rw changed (one, ih) | inr same ↦ rw same ih ]

length-store :
    (h : Bytes) (e : TxEntry) (entries : Entries)
    → length (store bytes_discrete h e entries) ≤ suc (length entries)
unfolding store
length-store h e [] = omega arith
length-store h e ((g, f) ∷ entries) = ground (arith, length-store h e entries)

length-call : (c : TxCall) (entries : Entries) → length (tx_call c entries) ≤ suc (length entries)
unfolding tx_call tx_put tx_remove
length-call (getting j (failed err)) entries = omega (arith, ap length (get-failed j err entries))
length-call (getting j (answered resp)) entries =
    elim (Option-cases (find bytes_discrete (hex_key j) entries)) [
      | inl missing ↦ omega (
        arith,
        ap length (get-fetched j resp entries missing),
        length-store (hex_key j) (fetched_entry j resp) entries,
      )
      | inr (e, found) ↦ omega (arith, ap length (get-found j (answered resp) e entries found))
    ]
length-call (putting j v l m) entries = length-store (hex_key j) _ entries
length-call (removing j) entries = length-store (hex_key j) _ entries

length-after : (log : List TxCall) → length (after log) ≤ length log
unfolding after
length-after [] = omega arith
length-after (c ∷ log) = omega (arith, length-call c (after log), length-after log)

length-build_modifications :
    (entries : Entries) → length (build_modifications entries) ≤ length entries
unfolding build_modifications
length-build_modifications [] = omega arith
length-build_modifications ((hex, e) ∷ entries) = ground (arith, length-build_modifications entries)

-- The changes of one key, as the server reads them.
unfoldable pub changes_of : Bytes → List Change → List Change
changes_of k [] = []
changes_of k (c ∷ cs) = ite (bytes_discrete c.key k) (c ∷ changes_of k cs) (changes_of k cs)

changes_of-map :
    (k : Bytes) (ms : List TxModification) → changes_of k (map change ms) ≡ map change (of_key k ms)
unfolding changes_of of_key change
changes_of-map k [] = refl
changes_of-map k (m ∷ ms) = ground (arith, changes_of-map k ms)

-- For any calls of a transaction on keys of bytes, with values below 2^31 bytes, fewer than 2^31 calls and
-- 16 random bytes per identifier: the server reads the prepare request that the transaction sends, and the
-- changes that it reads for a key are exactly those of the key's first touch and last write.
pub with_transaction-changes :
    (cache r s : Bytes) (times : ℕ × ℕ) (c timeout_ms : ℕ) (log : List TxCall)
    → length r ≡ 16
    → length s ≡ 16
    → IsU64 timeout_ms
    → length log < 2 ^ 31
    → HasKeys log
    → All IsSmall log
    → (p : Prepare) × (Encodes
          (write_prepare_tx (
            prepare_op cache
              (xid_of (generate_xid (r, s) times c).0)
              timeout_ms
              (build_modifications (after log))))
          read_prepare
          p
        × ((k : Bytes) → IsKey k → changes_of k p.changes ≡ map change (expected k log)))
unfolding prepare_op
with_transaction-changes cache r s times c timeout_ms log hr hs ht few hk small =
    let mods = build_modifications (after log) in
    let op = prepare_op cache (xid_of (generate_xid (r, s) times c).0) timeout_ms mods in
    let fits : IsPrepare op = record {
      xid = generate_xid-IsXid r s times c hr hs;
      timeout = ht;
      few = omega (arith, few, length-build_modifications (after log), length-after log);
      modifications = modifications-small (after log) (after-AreSmall log small);
    } in
    (
      _,
      (
        prepare-Encodes op fits,
        λ k h. changes_of-map k mods ∙ ap (map change) (build_modifications-expected k log h hk),
      ),
    )
