-- ===== src/Hotrod/Remote/Previous.antt =====
-- hotrod/hotrod.go: what GetAndPut makes of a server's answers.
use go_client.Prelude.{ℕ, ◌≡◌, ◌<◌, ◌^◌, [], ◌∷◌, Option, none, some, IsU64, true, false, length}
use go_client.Io.{Bytes, Error, wrote, Answer, answered, failed}
use go_client.Io.Encodes.{Encodes}
use go_client.Codec.Constants.{is_error}
use go_client.Codec.Wire.Metadata.{Expiry, IsExpiry, write_metadata}
use go_client.Operation.Entry
use go_client.Operation.Entry.{has_previous}
use go_client.Hotrod.Execute.{
  Call, returned, call_failed, call_panicked, and_then, mapped, refused_call,
}

-- The answers to a Put that forces its return value: the documentation has a previous value in each that is
-- no error, of no bytes where there was none.
pub data PutAnswer : Type 0 where
  unanswered : Error → PutAnswer
  rejected : ℕ → Bytes → PutAnswer
  previously : ℕ → Expiry → Expiry → ℕ → Bytes → PutAnswer

abbrev pub IsPutAnswer : PutAnswer → Type 0
IsPutAnswer (unanswered e) = Unit
IsPutAnswer (rejected status s) = is_error status ≡ true
IsPutAnswer (previously status life idle version v) =
    (has_previous status ≡ true)
    × (is_error status ≡ false)
    × (IsExpiry life × (IsExpiry idle × (IsU64 version × (length v < 2 ^ 31))))

abbrev pub PutSentAs : PutAnswer → Answer (ℕ × Bytes) → Type 0
PutSentAs (unanswered e) a = a ≡ failed e
PutSentAs (rejected status s) a = a ≡ answered (status, s)
PutSentAs (previously status life idle version v) a =
    (s : Bytes) × ((write_metadata life idle version v ≡ wrote s) × (a ≡ answered (status, s)))

abbrev pub unless_empty : Bytes → Option Bytes
unless_empty [] = none
unless_empty (b ∷ s) = some (b ∷ s)

abbrev pub put_call_of : PutAnswer → Call (Option Bytes)
put_call_of (unanswered e) = call_failed e
put_call_of (rejected status s) = refused_call status s
put_call_of (previously status life idle version v) = returned (unless_empty v)

-- What GetAndPut makes of its call.
abbrev normalised : Call (Option Bytes) → Call (Option Bytes)
normalised c =
    mapped (λ prev. elim prev [ [] ↦ none | b ∷ s ↦ some (b ∷ s) ])
      (and_then c λ o. elim o [ none ↦ call_panicked | some r ↦ returned r ])
