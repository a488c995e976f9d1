-- ===== src/Io/Defs.antt =====
-- The outcomes of reading and writing, and io.ReadFull.
use go_client.Prelude.{
  ℕ, zero, suc, String, List, [], ◌∷◌, ◌++◌, Option, none, some, ◌==◌, if◌then◌else◌,
}

abbrev pub Bytes : Type 0
Bytes = List ℕ

-- `io.EOF`, `io.ErrUnexpectedEOF`, a fresh error, and an error wrapped by `fmt.Errorf("…: %w")`,
-- in the second form with the index or byte that the message prints; and a ServerError with its status and
-- message, which also prints the message id.
pub data Error : Type 0 where
  eof unexpected_eof : Error
  message : String → Error
  message_at : String → ℕ → Error
  from_server : ℕ → Bytes → Error
  wrap : String → Error → Error
  wrap_at : String → ℕ → Error → Error

-- What a call that reads comes to: a value or an error, each with the input that is left, or a
-- run-time panic.
pub data Outcome {ℓ} (A : Type ℓ) : Type ℓ where
  done : A → Bytes → Outcome A
  fail : Error → Bytes → Outcome A
  panic : Outcome A

-- What a call whose input is not modelled comes to.
pub data Answer {ℓ} (A : Type ℓ) : Type ℓ where
  answered : A → Answer A
  failed : Error → Answer A

abbrev pub Read {ℓ} : Type ℓ → Type ℓ
Read A = Bytes → Outcome A

infixl 5 ◌>>=◌ ◌>>◌
abbrev pub ◌>>=◌ {ℓ κ} : {A : Type ℓ} {B : Type κ} → Read A → (A → Read B) → Read B
◌>>=◌ m f s = elim (m s) [ done a s' ↦ f a s' | fail e s' ↦ fail e s' | panic ↦ panic ]

abbrev pub pure {ℓ} : {A : Type ℓ} → A → Read A
pure a s = done a s

abbrev pub throw {ℓ} : {A : Type ℓ} → Error → Read A
throw e s = fail e s

abbrev pub crash {ℓ} : {A : Type ℓ} → Read A
crash s = panic

-- `if err != nil { return …, fmt.Errorf("context: %w", err) }` after a call
abbrev pub context {ℓ} : {A : Type ℓ} → String → Read A → Read A
context c m s = elim (m s) [
  | done a s' ↦ done a s'
  | fail e s' ↦ fail (wrap c e) s'
  | panic ↦ panic
]

abbrev pub context_at {ℓ} : {A : Type ℓ} → String → ℕ → Read A → Read A
context_at c i m s = elim (m s) [
  | done a s' ↦ done a s'
  | fail e s' ↦ fail (wrap_at c i e) s'
  | panic ↦ panic
]

-- What a call that writes comes to: the bytes that it appends to the buffer, or a run-time panic.
pub data Write : Type 0 where
  wrote : Bytes → Write
  panicked : Write

abbrev pub ◌>>◌ : Write → Write → Write
panicked >> w = panicked
wrote a >> panicked = panicked
wrote a >> wrote b = wrote (a ++ b)

-- The first `n` bytes and what follows them, if there are as many.
unfoldable pub split_at : ℕ → Bytes → Option (Bytes × Bytes)
split_at zero s = some ([], s)
split_at (suc n) [] = none
split_at (suc n) (b ∷ s) = elim (split_at n s) [ none ↦ none | some (a, r) ↦ some (b ∷ a, r) ]

-- io.ReadFull: EOF if there was no byte at all, ErrUnexpectedEOF if there were too few.
unfoldable pub read_full : ℕ → Read Bytes
unfolding split_at
read_full n [] = if n == 0 then done [] [] else fail eof []
read_full n (b ∷ s) = elim (split_at n (b ∷ s)) [
  | none ↦ fail unexpected_eof []
  | some (a, r) ↦ done a r
]
