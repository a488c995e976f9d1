-- ===== src/Hotrod/Remote/Answers.antt =====
-- hotrod/hotrod.go: what the calls on a RemoteCache make of a server's answers.
use go_client.Prelude.{
  ℕ, ◌≡◌, ◌<◌, ◌^◌, refl, [], Option, none, some, Bool, true, false, ◌==◌, length,
}
use go_client.Io.{
  Bytes, Error, from_server, Outcome, done, fail, panic, wrote, Answer, answered, failed,
}
use go_client.Codec.Constants.{is_error, status_key_does_not_exist}
use go_client.Codec.Header.{read_error_message}
use go_client.Codec.Wire.{write_lp_bytes}
use go_client.Operation.Key
use go_client.Hotrod.Execute.{Call, returned, call_failed, call_panicked, mapped, refused_call}

-- The answers that a server gives to a Get, and what the call makes of each.
pub data GetAnswer : Type 0 where
  unreachable : Error → GetAnswer
  refused : ℕ → Bytes → GetAnswer
  missing : Bytes → GetAnswer
  holding : ℕ → Bytes → GetAnswer

abbrev pub IsGetAnswer : GetAnswer → Type 0
IsGetAnswer (unreachable e) = Unit
IsGetAnswer (refused status s) = is_error status ≡ true
IsGetAnswer (missing s) = Unit
IsGetAnswer (holding status v) =
    (is_error status ≡ false)
    × ((status == status_key_does_not_exist) ≡ false)
    × (length v < 2 ^ 31)

-- The value goes out with its length before it.
abbrev pub SentAs : GetAnswer → Answer (ℕ × Bytes) → Type 0
SentAs (unreachable e) a = a ≡ failed e
SentAs (refused status s) a = a ≡ answered (status, s)
SentAs (missing s) a = a ≡ answered (status_key_does_not_exist, s)
SentAs (holding status v) a =
    (s : Bytes) × ((write_lp_bytes v ≡ wrote s) × (a ≡ answered (status, s)))

abbrev pub call_of : GetAnswer → Call (Option Bytes × Bool)
call_of (unreachable e) = call_failed e
call_of (refused status s) = refused_call status s
call_of (missing s) = returned (none, false)
call_of (holding status v) = returned (some v, true)

pub mapped-refused :
    {A B : Type 0} (f : A → B) (status : ℕ) (s : Bytes)
    → mapped f (refused_call status s) ≡ refused_call status s
unfolding refused_call
mapped-refused f status s = read (read_error_message s)
  where
    read :
        (o : Outcome Bytes)
        → mapped f (elim o [
          | done m rest ↦ call_failed (from_server status m)
          | fail e rest ↦ call_failed (from_server status [])
          | panic ↦ call_panicked
        ])
          ≡ (elim o [
            | done m rest ↦ call_failed (from_server status m)
            | fail e rest ↦ call_failed (from_server status [])
            | panic ↦ call_panicked
          ])
    read (done m rest) = refl
    read (fail e rest) = refl
    read panic = refl
