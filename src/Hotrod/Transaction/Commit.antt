-- ===== src/Hotrod/Transaction/Commit.antt =====
-- hotrod/transaction.go: WithTransaction, from the calls that its function makes and the way it ends.
pub mod Outcome
pub mod Ids
pub mod Changes
use go_client.Prelude.{
  ℕ, ◌+◌, ◌/◌, ◌^◌, u64, byte, List, [], ◌∷◌, ◌++◌, Option, none, some, Bool, true, false, String,
  ◌==◌, ◌||◌, if◌then◌else◌, is_empty,
}
use go_client.Io.{Bytes, Error, message, wrap}
use go_client.Operation.Transaction.{TxModification, Xid, PrepareTx2Op}
use go_client.Hotrod.Transaction.{Entries, Answer, answered, failed, build_modifications}
use go_client.Hotrod.Transaction.Log.{TxCall, after}

-- `int32`, "HRTX".
abbrev pub xid_format_id : ℕ
xid_format_id = 0x48525458

-- The codes of the XA protocol that a prepare succeeds with.
abbrev pub xa_ok : ℕ
xa_ok = 0

abbrev pub xa_rd_only : ℕ
xa_rd_only = 3

-- `binary.BigEndian.PutUint64` into eight bytes.
abbrev pub big_endian64 : ℕ → Bytes
big_endian64 v =
    byte (v / 2 ^ 56)
    ∷ byte (v / 2 ^ 48)
    ∷ byte (v / 2 ^ 40)
    ∷ byte (v / 2 ^ 32)
    ∷ byte (v / 2 ^ 24)
    ∷ byte (v / 2 ^ 16)
    ∷ byte (v / 2 ^ 8)
    ∷ byte v
    ∷ []

-- One of the two identifiers: 16 random bytes, the time, and `txCounter` after it is raised.
unfoldable pub xid_part : Bytes → ℕ → ℕ → Bytes
xid_part random now counter = random ++ (big_endian64 now ++ big_endian64 counter)

-- generateXID with its random bytes, the two times and `txCounter`: the identifiers, and the counter.
unfoldable pub generate_xid : Bytes × Bytes → ℕ × ℕ → ℕ → (Bytes × Bytes) × ℕ
generate_xid (random, random') (now, now') counter =
    let c = u64 (counter + 1) in
    let c' = u64 (c + 1) in ((xid_part random now c, xid_part random' now' c'), c')

unfoldable pub xid_of : Bytes × Bytes → Xid
xid_of (global_tx_id, branch_qual) = record {
  format_id = xid_format_id;
  global_tx_id = global_tx_id;
  branch_qual = branch_qual;
}

-- How the function of the transaction ends.
pub data FnEnd : Type 0 where
  returned : FnEnd
  returned_error : Error → FnEnd
  panicking : String → FnEnd

pub data TxError : Type 0 where
  fn_error : Error → TxError
  fn_panic : String → TxError
  prepare_error : Error → TxError
  rejected : ℕ → TxError

-- What the transaction sends when its function is done.
pub data Sent : Type 0 where
  prepare : PrepareTx2Op → Sent
  rollback : Xid → Sent

-- `fnErr`, a panic recovered.
unfoldable pub fn_err : FnEnd → Option TxError
fn_err returned = none
fn_err (returned_error err) = some (fn_error err)
fn_err (panicking r) = some (fn_panic r)

unfoldable pub prepare_op : Bytes → Xid → ℕ → List TxModification → PrepareTx2Op
prepare_op cache xid timeout_ms mods = record {
  cache = cache;
  xid = xid;
  one_phase_commit = true;
  timeout_ms = timeout_ms;
  modifications = mods;
}

-- The part after the prepare request, with what the server answered to it: the error, and what was sent.
unfoldable pub commit : PrepareTx2Op → Answer ℕ → Option TxError × List Sent
commit op (failed err) = (some (prepare_error err), prepare op ∷ rollback op.xid ∷ [])
commit op (answered xa_code) =
    if xa_code == xa_ok || xa_code == xa_rd_only
    then (none, prepare op ∷ [])
    else (some (rejected xa_code), prepare op ∷ rollback op.xid ∷ [])

-- WithTransaction, whose function makes the calls of the log, the latest first. The result of a rollback
-- is ignored.
unfoldable pub with_transaction :
    Bytes
    → Bytes × Bytes
    → ℕ
    → List TxCall
    → FnEnd
    → (PrepareTx2Op → Answer ℕ)
    → Option TxError × List Sent
with_transaction cache ids timeout_ms log end server = elim (fn_err end) [
  | some err ↦ (some err, rollback (xid_of ids) ∷ [])
  | none ↦
      let mods = build_modifications (after log) in
      let op = prepare_op cache (xid_of ids) timeout_ms mods in
      if is_empty mods then (none, []) else commit op (server op)
]
