-- ===== src/Hotrod/Tests.antt =====
-- The theorems on the package hotrod at concrete inputs.
pub mod Near
pub mod Remote
use go_client.Prelude.{
  ℕ, zero, suc, ◌+◌, ◌^◌, ◌≤◌, ◌<◌, ◌≡◌, ◌≢◌, ◌↔◌, ◌⊎◌, refl, List, [], ◌∷◌, map, Option, none,
  some, Bool, true, false, length, replicate, find, bytes_discrete, All, arith,
}
use go_client.Io.{Bytes, eof, done, split_at, read_full}
use go_client.Codec.VarInt.{read_vint, read_groups}
use go_client.Codec.Wire.{read_lp_bytes}
use go_client.Io.Encodes.{Encodes}
use go_client.Operation.Key.{GetWithVersionResponse}
use go_client.Operation.Transaction.{PrepareTx2Op, write_prepare_tx}
use go_client.Operation.Transaction.Server.{Change, change, Prepare, read_prepare}
use go_client.Operation.Iteration.{IterEntry, IterationNextResponse, decode_iteration_next}
use go_client.Hotrod.Lru.{new_lru}
use go_client.Hotrod.Lru.Refinement.{view}
use go_client.Hotrod.Lru.Runs.{Call, getting, putting, removing, run, run_spec, run-refines}
use go_client.Hotrod.Transaction.{Answer, answered, failed, tx_get, build_modifications, is_some}
use go_client.Hotrod.Transaction.Hex.{IsKey}
use go_client.Hotrod.Transaction.Log
use go_client.Hotrod.Transaction.Log.{TxCall, after, HasKeys}
use go_client.Hotrod.Transaction.Log.Visible.{visible, tx_get-visible}
use go_client.Hotrod.Transaction.Log.Sent.{expected}
use go_client.Hotrod.Transaction.Commit.{
  returned, prepare_op, xid_of, generate_xid, with_transaction,
}
use go_client.Hotrod.Transaction.Commit.Outcome.{
  IsAccepted, rolls_back, prepared, with_transaction-outcome,
}
use go_client.Hotrod.Transaction.Commit.Ids.{generate_xid-distinct}
use go_client.Hotrod.Transaction.Commit.Changes.{changes_of, with_transaction-changes}
use go_client.Hotrod.Iterator.{new_iterator, iter_next, iter_close, iterate}
use go_client.Hotrod.Iterator.Yields.{concat, iterate-yields}
use go_client.Hotrod.Iterator.Batches.{IsBatch, decode_iteration_next-IsBatch}
use go_client.Hotrod.Iterator.Close.{IterCall, advancing, closing, iter_run, close-final}
use Prim.Native.Nat.{max}

-- A store of two entries, in which the first key is used again before the third comes.
abbrev calls : List Call
calls =
    putting (1 ∷ []) (11 ∷ [])
    ∷ putting (2 ∷ []) (12 ∷ [])
    ∷ getting (1 ∷ [])
    ∷ putting (3 ∷ []) (13 ∷ [])
    ∷ getting (2 ∷ [])
    ∷ []

run-refines_example :
    (((run calls (new_lru 2)).0, view (run calls (new_lru 2)).1) ≡ run_spec 2 calls [])
    × (length (view (run calls (new_lru 2)).1) ≤ max 2 1)
run-refines_example = run-refines 2 calls

-- A transaction that reads key 1 at version 5, writes it, and removes key 2 without reading it.
abbrev version_five : GetWithVersionResponse
version_five = record { value = some (11 ∷ []); version = 5; found = true }

abbrev log : List TxCall
log =
    Log.removing (2 ∷ [])
    ∷ Log.putting (1 ∷ []) (some (21 ∷ [])) 0 0
    ∷ Log.getting (1 ∷ []) (answered version_five)
    ∷ []

log-HasKeys : HasKeys log
log-HasKeys = ((omega arith, tt), ((omega arith, tt), ((omega arith, tt), tt)))

tx_get-visible_example :
    (tx_get (1 ∷ []) (failed eof) (after log)).0 ≡ visible (1 ∷ []) log (failed eof)
tx_get-visible_example = tx_get-visible (1 ∷ []) log (failed eof) (omega arith, tt) log-HasKeys

abbrev random_bytes : Bytes
random_bytes = replicate 16 7

with_transaction-changes_example :
    (p : Prepare) × (Encodes
        (write_prepare_tx (
          prepare_op
            (0x63 ∷ [])
            (xid_of (generate_xid (random_bytes, random_bytes) (8, 9) 0).0)
            60_000
            (build_modifications (after log))))
        read_prepare
        p
      × ((k : Bytes) → IsKey k → changes_of k p.changes ≡ map change (expected k log)))
with_transaction-changes_example =
    with_transaction-changes (0x63 ∷ []) random_bytes random_bytes (8, 9) 0 60_000 log refl refl
      (omega arith) (omega arith) log-HasKeys
      (
        omega arith,
        (
          (omega arith, (omega arith, (omega arith, omega arith))),
          ((omega arith, (omega arith, omega arith)), tt),
        ),
      )

-- A server that accepts every prepare request.
abbrev accepting : PrepareTx2Op → Answer ℕ
accepting op = answered 0

with_transaction-outcome_example :
    (((with_transaction [] ([], []) 60_000 log returned accepting).0 ≡ none) ↔ (
      (returned ≡ returned)
      × ((build_modifications (after log) ≡ [])
          ⊎ IsAccepted (
              accepting
                (prepare_op [] (xid_of ([], [])) 60_000 (build_modifications (after log)))))))
    × ((rolls_back (with_transaction [] ([], []) 60_000 log returned accepting).1
          ≡ is_some (with_transaction [] ([], []) 60_000 log returned accepting).0)
        × ((prepared (with_transaction [] ([], []) 60_000 log returned accepting).1 ≡ [])
            ⊎ (prepared (with_transaction [] ([], []) 60_000 log returned accepting).1
                ≡ prepare_op [] (xid_of ([], [])) 60_000 (build_modifications (after log)) ∷ [])))
with_transaction-outcome_example =
    with_transaction-outcome [] ([], []) 60_000 log returned accepting

abbrev an_entry : IterEntry
an_entry = record { key = 1 ∷ []; value = 2 ∷ []; metadata = none }

-- Two batches, and the end.
abbrev two_batches : ℕ → Answer IterationNextResponse
two_batches zero = answered (record { entries = an_entry ∷ an_entry ∷ []; has_more = true })
two_batches (suc zero) = answered (record { entries = an_entry ∷ []; has_more = true })
two_batches (suc (suc n)) = answered (record { entries = []; has_more = false })

iterate-yields_example :
    ((iterate 4 two_batches new_iterator).0
      ≡ map some (concat ((an_entry ∷ an_entry ∷ []) ∷ (an_entry ∷ []) ∷ [])))
    × ((iterate 4 two_batches new_iterator).1.err ≡ none)
iterate-yields_example =
    iterate-yields two_batches ((an_entry ∷ an_entry ∷ []) ∷ (an_entry ∷ []) ∷ []) none 4
      (refl, (omega arith, (refl, (omega arith, refl)))) (omega arith)

-- A response with no finished segments and no entries.
last_response :
    decode_iteration_next 0 (0 ∷ 0 ∷ []) ≡ done (record { entries = []; has_more = false }) []
unfolding decode_iteration_next read_lp_bytes read_vint read_groups read_full split_at
last_response = refl
