-- ===== src/Operation/Transaction/Server.antt =====
-- The prepare request, on the server's side.
use go_client.Prelude.{
  ℕ, ◌^◌, ◌<◌, ◌≡◌, List, [], Bool, Option, none, some, bit_and, ◌==◌, ◌&&◌, if◌then◌else◌, arith,
  suc, ◌∷◌, map, length, IsU32, IsU64, All, u32, Bool-cases, inl, inr, rounds32,
}
use go_client.Io.{Bytes, Read, ◌>>=◌, pure, read_times, write_each}
use go_client.Io.Encodes.{Encodes, Encodes-bind, Encodes-map, Encodes-pure}
use go_client.Codec.VarInt.{read_vint}
use go_client.Codec.VarInt.RoundTrip.{vint-Encodes}
use go_client.Codec.Wire.{read_lp_bytes, read_u1, read_long, read_signed_vint}
use go_client.Codec.Wire.RoundTrip.{u1-Encodes, lp_bytes-Encodes, long-Encodes, signed_vint-Encodes}
use go_client.Codec.TimeUnits.RoundTrip.{Expiration, meaning, read_time_units, time_units-Encodes}
use go_client.Operation.Transaction.{
  TxModification, Xid, PrepareTx2Op, write_xid, write_version_read, write_new_value,
  write_modification, write_prepare_tx,
}

-- A modification as the server takes it: the version to check, where there is one, and the new value
-- with its expiration, unless the key is removed.
pub record Change : Type 0 where
  pub key : Bytes
  pub control : ℕ
  pub version : Option ℕ
  pub update : Option ((Expiration × Expiration) × Bytes)

-- The bits of the control byte: 1 for not read, 2 for not existing, 4 for a removal.
abbrev was_read : ℕ → Bool
was_read control = bit_and control 2 == 0 && bit_and control 1 == 0

abbrev is_kept : ℕ → Bool
is_kept control = bit_and control 4 == 0

unfoldable pub read_version : ℕ → Read (Option ℕ)
read_version control = if was_read control then (do v ← read_long; pure (some v)) else pure none

unfoldable pub read_update : ℕ → Read (Option ((Expiration × Expiration) × Bytes))
read_update control =
    if is_kept control
    then (do expires ← read_time_units; value ← read_lp_bytes; pure (some (expires, value)))
    else pure none

unfoldable pub read_change : ℕ → Read Change
read_change i = do
  key ← read_lp_bytes
  control ← read_u1
  version ← read_version control
  update ← read_update control
  pure (record { key = key; control = control; version = version; update = update })

unfoldable pub change : TxModification → Change
change m = record {
  key = m.key;
  control = m.control;
  version = if was_read m.control then some m.version_read else none;
  update =
      if is_kept m.control then some ((meaning m.lifespan, meaning m.max_idle), m.value) else none;
}

pub record IsModification (m : TxModification) : Type 0 where
  pub key : length m.key < 2 ^ 31
  pub value : length m.value < 2 ^ 31
  pub version_read : IsU64 m.version_read
  pub lifespan : IsU64 m.lifespan
  pub max_idle : IsU64 m.max_idle

version-Encodes :
    (m : TxModification)
    → IsModification m
    → Encodes
        (write_version_read m)
        (read_version m.control)
        (if was_read m.control then some m.version_read else none)
unfolding write_version_read read_version
version-Encodes m h = elim (Bool-cases (was_read m.control)) [
  | inl yes_read ↦ rw yes_read (Encodes-map some (long-Encodes m.version_read h.version_read))
  | inr not_read ↦ rw not_read (Encodes-pure none)
]

update-Encodes :
    (m : TxModification)
    → IsModification m
    → Encodes (write_new_value m) (read_update m.control) (
        if is_kept m.control
        then some ((meaning m.lifespan, meaning m.max_idle), m.value)
        else none)
unfolding write_new_value read_update
update-Encodes m h = elim (Bool-cases (is_kept m.control)) [
  | inl kept ↦ rw kept (
      Encodes-bind _ (time_units-Encodes m.lifespan m.max_idle h.lifespan h.max_idle)
        (Encodes-map _ (lp_bytes-Encodes m.value h.value)))
  | inr gone ↦ rw gone (Encodes-pure none)
]

modification-Encodes :
    (i : ℕ) (m : TxModification)
    → IsModification m
    → Encodes (write_modification m) (read_change i) (change m)
unfolding write_modification read_change change
modification-Encodes i m h = Encodes-bind _ (lp_bytes-Encodes m.key h.key) (
    Encodes-bind _ (u1-Encodes m.control)
      (Encodes-bind _ (version-Encodes m h) (Encodes-map _ (update-Encodes m h))))

unfoldable pub read_xid : Read Xid
read_xid = do
  format_id ← read_signed_vint
  global_tx_id ← read_lp_bytes
  branch_qual ← read_lp_bytes
  pure (record { format_id = format_id; global_tx_id = global_tx_id; branch_qual = branch_qual })

pub record IsXid (x : Xid) : Type 0 where
  pub format_id : IsU32 x.format_id
  pub global_tx_id : length x.global_tx_id < 2 ^ 31
  pub branch_qual : length x.branch_qual < 2 ^ 31

xid-Encodes : (x : Xid) → IsXid x → Encodes (write_xid x) read_xid x
unfolding write_xid read_xid
xid-Encodes x h = Encodes-bind _ (signed_vint-Encodes x.format_id h.format_id) (
    Encodes-bind _ (lp_bytes-Encodes x.global_tx_id h.global_tx_id)
      (Encodes-map _ (lp_bytes-Encodes x.branch_qual h.branch_qual)))

pub record Prepare : Type 0 where
  pub xid : Xid
  pub one_phase : ℕ
  pub recoverable : ℕ
  pub timeout : ℕ
  pub changes : List Change

unfoldable pub read_prepare : Read Prepare
read_prepare = do
  xid ← read_xid
  one_phase ← read_u1
  recoverable ← read_u1
  timeout ← read_long
  count ← read_vint
  changes ← read_times (rounds32 count) 0 read_change
  pure (record {
    xid = xid;
    one_phase = one_phase;
    recoverable = recoverable;
    timeout = timeout;
    changes = changes;
  })

pub record IsPrepare (o : PrepareTx2Op) : Type 0 where
  pub xid : IsXid o.xid
  pub timeout : IsU64 o.timeout_ms
  pub few : length o.modifications < 2 ^ 31
  pub modifications : All IsModification o.modifications

changes-Encodes :
    (i : ℕ) (ms : List TxModification)
    → All IsModification ms
    → Encodes
        (write_each write_modification ms)
        (read_times (length ms) i read_change)
        (map change ms)
unfolding write_each read_times
changes-Encodes i [] h = Encodes-pure []
changes-Encodes i (m ∷ ms) (hm, hms) =
    Encodes-bind _ (modification-Encodes i m hm) (Encodes-map _ (changes-Encodes (suc i) ms hms))

-- The server reads a prepare request whose fields are in their ranges back: the transaction's identifier, the commit mode, the timeout, and
-- for each modification its key and control byte, a version to check exactly if the key was read and
-- existed, and the new value and expiration exactly if the key is not removed.
pub prepare-Encodes :
    (o : PrepareTx2Op)
    → IsPrepare o
    → Encodes (write_prepare_tx o) read_prepare (record {
      xid = o.xid;
      one_phase = if o.one_phase_commit then 1 else 0;
      recoverable = 0;
      timeout = o.timeout_ms;
      changes = map change o.modifications;
    })
unfolding write_prepare_tx read_prepare
prepare-Encodes o h = Encodes-bind _ (xid-Encodes o.xid h.xid) (
    Encodes-bind _ (u1-Encodes _) (
      Encodes-bind _ (u1-Encodes 0) (
        Encodes-bind _ (long-Encodes o.timeout_ms h.timeout) (
          rw fits (
            Encodes-bind _ (vint-Encodes n (omega arith))
              (rw rounds (Encodes-map _ (changes-Encodes 0 o.modifications h.modifications))))))))
  where
    n : ℕ
    n = length o.modifications

    short : n < 2 ^ 31
    short = h.few

    fits : u32 n ≡ n
    fits = omega (arith, short)

    rounds : rounds32 n ≡ n
    rounds = ground (arith, short)
