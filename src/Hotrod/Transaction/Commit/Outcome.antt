-- ===== src/Hotrod/Transaction/Commit/Outcome.antt =====
-- hotrod/transaction.go: when a transaction commits, and when it rolls back.
use go_client.Prelude.{
  ℕ, ◌≡◌, ◌≢◌, ◌⊎◌, ◌↔◌, inl, inr, refl, List, [], ◌∷◌, Option, none, some, Bool, true, false, ◌==◌,
  ◌||◌, ==_iff, if◌then◌else◌, is_empty, arith, ap, Bool-cases,
}
use go_client.Io.{Bytes}
use go_client.Operation.Transaction.{TxModification, Xid, PrepareTx2Op}
use go_client.Hotrod.Transaction.{Answer, answered, failed, build_modifications, is_some}
use go_client.Hotrod.Transaction.Log.{TxCall, after}
use go_client.Hotrod.Transaction.Commit.{
  FnEnd, returned, returned_error, panicking, TxError, fn_error, fn_panic, Sent, prepare, rollback,
  fn_err, xa_ok, xa_rd_only, prepare_op, xid_of, commit, with_transaction,
}

-- Whether a rollback of the transaction was sent.
unfoldable pub rolls_back : List Sent → Bool
rolls_back [] = false
rolls_back (prepare op ∷ sent) = rolls_back sent
rolls_back (rollback xid ∷ sent) = true

-- The requests to prepare.
unfoldable pub prepared : List Sent → List PrepareTx2Op
prepared [] = []
prepared (prepare op ∷ sent) = op ∷ prepared sent
prepared (rollback xid ∷ sent) = prepared sent

-- The server prepared and, in its one phase, committed.
unfoldable pub IsAccepted : Answer ℕ → Type 0
IsAccepted a = (a ≡ answered xa_ok) ⊎ (a ≡ answered xa_rd_only)

code-IsAccepted :
    (code : ℕ) → (code == xa_ok || code == xa_rd_only) ≡ true → IsAccepted (answered code)
unfolding IsAccepted
code-IsAccepted code h = elim (Bool-cases (code == xa_ok)) [
  | inl ok ↦ inl (ap answered ((==_iff code xa_ok).0 ok))
  | inr other ↦ inr (ap answered ((==_iff code xa_rd_only).0 (ground arith)))
]

code-refused :
    (code : ℕ) → (code == xa_ok || code == xa_rd_only) ≡ false → ¬ IsAccepted (answered code)
unfolding IsAccepted
code-refused code h a = ground arith

-- What a finished transaction comes to, where it has something to prepare.
commit-outcome :
    (op : PrepareTx2Op) (a : Answer ℕ)
    → (rolls_back (commit op a).1 ≡ is_some (commit op a).0)
      × ((prepared (commit op a).1 ≡ op ∷ []) × (((commit op a).0 ≡ none) ↔ IsAccepted a))
unfolding commit rolls_back prepared
commit-outcome op (failed err) = (refl, (refl, (cc, unfold IsAccepted in ground arith)))
commit-outcome op (answered code) = elim (Bool-cases (code == xa_ok || code == xa_rd_only)) [
  | inl good ↦ rw good (refl, (refl, (λ e. code-IsAccepted code good, λ h. refl)))
  | inr bad ↦ rw bad (refl, (refl, (cc, λ h. absurd (code-refused code bad h))))
]

-- The claim below, of any result.
abbrev IsOutcome :
    Option TxError × List Sent → FnEnd → List TxModification → PrepareTx2Op → Answer ℕ → Type 0
IsOutcome (err, sent) end mods op a =
    ((err ≡ none) ↔ ((end ≡ returned) × ((mods ≡ []) ⊎ IsAccepted a)))
    × ((rolls_back sent ≡ is_some err) × ((prepared sent ≡ []) ⊎ (prepared sent ≡ op ∷ [])))

returned-IsOutcome :
    (mods : List TxModification) (op : PrepareTx2Op) (a : Answer ℕ)
    → IsOutcome (if is_empty mods then (none, []) else commit op a) returned mods op a
unfolding rolls_back prepared
returned-IsOutcome [] op a = ((λ e. (refl, inl refl), λ h. refl), (refl, inl refl))
returned-IsOutcome (m ∷ ms) op a =
    let (rolls, (sends, accepts)) = commit-outcome op a in
    (
      (
        λ e. (refl, inr (accepts.0 e)),
        λ (same, h). accepts.1 (elim h [ inl empty ↦ cc | inr good ↦ good ]),
      ),
      (rolls, inr sends),
    )

error-IsOutcome :
    (err : TxError) (xid : Xid) (end : FnEnd) (mods : List TxModification) (op : PrepareTx2Op)
    (a : Answer ℕ)
    → end ≢ returned
    → IsOutcome (some err, rollback xid ∷ []) end mods op a
unfolding rolls_back prepared
error-IsOutcome err xid end mods op a not_returned =
    ((λ e. cc, λ (same, h). absurd (not_returned same)), (refl, inl refl))

module _ (cache : Bytes) (ids : Bytes × Bytes) (timeout_ms : ℕ) (log : List TxCall) (end : FnEnd)
    (server : PrepareTx2Op → Answer ℕ) where
  abbrev sent_op : PrepareTx2Op
  sent_op = prepare_op cache (xid_of ids) timeout_ms (build_modifications (after log))

  -- A transaction succeeds exactly if its function returned without an error or panic and either nothing
  -- was modified or the server accepted the prepare request with XA_OK or XA_RDONLY; a rollback is sent
  -- exactly if it does not succeed; and at most one prepare request is sent, that of its modifications.
  pub with_transaction-outcome :
      (((with_transaction cache ids timeout_ms log end server).0 ≡ none) ↔ (
        (end ≡ returned) × ((build_modifications (after log) ≡ []) ⊎ IsAccepted (server sent_op))))
      × ((rolls_back (with_transaction cache ids timeout_ms log end server).1
            ≡ is_some (with_transaction cache ids timeout_ms log end server).0)
          × ((prepared (with_transaction cache ids timeout_ms log end server).1 ≡ [])
              ⊎ (prepared (with_transaction cache ids timeout_ms log end server).1 ≡ sent_op ∷ [])))
  unfolding with_transaction fn_err
  with_transaction-outcome = by_end end
    where
      by_end :
          (e : FnEnd)
          → IsOutcome
              (with_transaction cache ids timeout_ms log e server)
              e
              (build_modifications (after log))
              sent_op
              (server sent_op)
      by_end returned =
          returned-IsOutcome (build_modifications (after log)) sent_op (server sent_op)
      by_end (returned_error err) =
          error-IsOutcome (fn_error err) (xid_of ids) (returned_error err) _ sent_op
            (server sent_op) (λ e. cc)
      by_end (panicking r) =
          error-IsOutcome (fn_panic r) (xid_of ids) (panicking r) _ sent_op (server sent_op)
            (λ e. cc)
