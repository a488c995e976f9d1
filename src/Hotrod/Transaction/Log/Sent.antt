-- ===== src/Hotrod/Transaction/Log/Sent.antt =====
-- hotrod/transaction.go: what a transaction sends, told from its log.
use go_client.Prelude.{
  ◌+◌, ◌≡◌, ◌≢◌, refl, List, [], ◌∷◌, Option, none, some, if◌then◌else◌, find, store, find-store,
  store_here, store_there, bytes_discrete, arith, sym, ap, subst, ◌∙◌, Option-cases, inl, inr,
}
use go_client.Io.{Bytes}
use go_client.Operation.Key.{GetWithVersionResponse}
use go_client.Operation.Transaction.{TxModification}
use go_client.Hotrod.Transaction.{
  TxEntry, Entries, answered, failed, hex_key, fetched_entry, tx_put, tx_remove, entry_or_new,
  modification, build_modifications, bytes_of,
}
use go_client.Hotrod.Transaction.Hex.{IsKey, hex_key-injective}
use go_client.Hotrod.Transaction.Log.{
  TxCall, getting, putting, removing, tx_call, after, key_of, HasKeys, first_touch, last_write,
  last_times, touch_control, touch_version, write_control, write_value, times_or_zero, entry_of,
  described,
}
use go_client.Hotrod.Transaction.Log.Described.{entry_or_new-described}
use go_client.Hotrod.Transaction.Log.Entry.{get-failed, get-found, get-fetched, after-described}
use mathlib.Core.Logic.{ite}

-- The modifications of one key.
unfoldable pub of_key : Bytes → List TxModification → List TxModification
of_key k [] = []
of_key k (m ∷ ms) = ite (bytes_discrete m.key k) (m ∷ of_key k ms) (of_key k ms)

-- Every entry stands under the hex form of its key, once.
abbrev IsTable : Entries → Type 0
IsTable [] = Unit {0}
IsTable ((hex, e) ∷ entries) =
    (hex ≡ hex_key e.key)
    × (IsKey e.key × ((find bytes_discrete hex entries ≡ none) × IsTable entries))

store-IsTable :
    (k : Bytes) (e : TxEntry) (entries : Entries)
    → e.key ≡ k
    → IsKey k
    → IsTable entries
    → IsTable (store bytes_discrete (hex_key k) e entries)
unfolding store find
store-IsTable k e [] same hk w = (sym (ap hex_key same), (subst IsKey (sym same) hk, (refl, tt)))
store-IsTable k e ((hex, f) ∷ entries) same hk (at, (hf, (once, rest))) =
    elim (bytes_discrete hex (hex_key k)) [
      | yes here ↦
          subst IsTable (sym (store_here bytes_discrete (hex_key k) hex e f entries here)) (
            sym (ap hex_key same),
            (
              subst IsKey (sym same) hk,
              (subst (λ q. find bytes_discrete q entries ≡ none) here once, rest),
            ),
          )
      | no other ↦
          subst IsTable (sym (store_there bytes_discrete (hex_key k) hex e f entries other)) (
            at,
            (
              hf,
              (
                ground (arith, find-store bytes_discrete (hex_key k) hex e entries),
                store-IsTable k e entries same hk rest,
              ),
            ),
          )
    ]

-- The modification of an entry, if it was modified.
abbrev modification_of : Option TxEntry → List TxModification
modification_of none = []
modification_of (some e) = if e.modified then modification e ∷ [] else []

of_key-build :
    (k : Bytes) (entries : Entries)
    → IsKey k
    → IsTable entries
    → of_key k (build_modifications entries)
      ≡ modification_of (find bytes_discrete (hex_key k) entries)
unfolding of_key build_modifications find modification
of_key-build k [] hk w = refl
of_key-build k ((hex, e) ∷ entries) hk (at, (he, (once, rest))) =
    let ih = of_key-build k entries hk rest in
    elim (bytes_discrete hex (hex_key k)) [
      | yes here ↦
          let same : e.key ≡ k = hex_key-injective e.key k he hk (sym at ∙ here) in
          let gone : find bytes_discrete (hex_key k) entries ≡ none =
            subst (λ q. find bytes_discrete q entries ≡ none) here once in
          ground arith
      | no other ↦ let differs : e.key ≢ k = λ same. other (at ∙ ap hex_key same) in ground arith
    ]

key-fetched : (k : Bytes) (resp : GetWithVersionResponse) → (fetched_entry k resp).key ≡ k
unfolding fetched_entry
key-fetched k resp = ground arith

key-entry_or_new :
    (k : Bytes) (log : List TxCall) → IsKey k → HasKeys log → (entry_or_new k (after log)).key ≡ k
key-entry_or_new k log hk h =
    ap (λ (e : TxEntry). e.key)
      (entry_or_new-described k log (after log) (after-described k log hk h))
    ∙ (unfold entry_of in refl)

call-IsTable :
    (c : TxCall) (log : List TxCall)
    → IsKey (key_of c)
    → HasKeys log
    → IsTable (after log)
    → IsTable (tx_call c (after log))
unfolding tx_call tx_put tx_remove
call-IsTable (getting j (failed err)) log hk h w =
    subst IsTable (sym (get-failed j err (after log))) w
call-IsTable (getting j (answered resp)) log hk h w =
    elim (Option-cases (find bytes_discrete (hex_key j) (after log))) [
      | inl missing ↦
          subst IsTable (sym (get-fetched j resp (after log) missing))
            (store-IsTable j _ (after log) (key-fetched j resp) hk w)
      | inr (e, found) ↦ subst IsTable (sym (get-found j (answered resp) e (after log) found)) w
    ]
call-IsTable (putting j v l m) log hk h w =
    store-IsTable j _ (after log) (key-entry_or_new j log hk h) hk w
call-IsTable (removing j) log hk h w =
    store-IsTable j _ (after log) (key-entry_or_new j log hk h) hk w

after-IsTable : (log : List TxCall) → HasKeys log → IsTable (after log)
unfolding after
after-IsTable [] h = tt
after-IsTable (c ∷ log) (hc, h) = call-IsTable c log hc h (after-IsTable log h)

-- The modifications of a key that a log calls for: none without a write; else one, with the last write,
-- and with the version, or the control bit, of the first touch.
unfoldable pub expected : Bytes → List TxCall → List TxModification
expected k log = elim (first_touch k log) [
  | none ↦ []
  | some t ↦ elim (last_write k log) [
    | none ↦ []
    | some w ↦
        record {
          key = k;
          value = bytes_of (write_value t (some w));
          version_read = touch_version t;
          control = touch_control t + write_control (some w);
          lifespan = (times_or_zero (last_times k log)).0;
          max_idle = (times_or_zero (last_times k log)).1;
        }
        ∷ []
  ]
]

modification_of-described :
    (k : Bytes) (log : List TxCall) → modification_of (described k log) ≡ expected k log
unfolding expected described entry_of modification
modification_of-described k log = elim (Option-cases (first_touch k log)) [
  | inl fresh ↦ rw (described, expected, fresh) refl
  | inr (t, known) ↦ elim (Option-cases (last_write k log)) [
    | inl unwritten ↦ rw (described, expected, known, unwritten) refl
    | inr (w, written) ↦ rw (described, expected, known, written) refl
  ]
]

-- After any calls of a transaction on keys of bytes, the modifications that it sends for a key are those
-- of the key's first touch and last write.
pub build_modifications-expected :
    (k : Bytes) (log : List TxCall)
    → IsKey k
    → HasKeys log
    → of_key k (build_modifications (after log)) ≡ expected k log
build_modifications-expected k log hk h =
    of_key-build k (after log) hk (after-IsTable log h)
    ∙ (ap modification_of (after-described k log hk h) ∙ modification_of-described k log)
