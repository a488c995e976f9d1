-- ===== src/Io/Encodes.antt =====
-- That a writer and a reader agree: the contract between the two sides of the protocol, and the rules
-- by which it is put together along a sequence of writes and reads.
use go_client.Prelude.{
  ℕ, zero, suc, List, [], ◌∷◌, ◌++◌, append_assoc, ◌≡◌, refl, ap, arith, length, some, All, String,
}
use go_client.Io.Defs.{
  Bytes, Outcome, done, fail, panic, Read, ◌>>=◌, pure, context, context_at, Write, wrote, panicked,
  ◌>>◌, split_at, read_full,
}
use go_client.Io.Loops.{read_times, write_each}

-- The writer does not panic, and whatever follows its bytes, the reader takes exactly these and returns
-- the value.
pub record Encodes {ℓ} {A : Type ℓ} (w : Write) (r : Read A) (a : A) : Type ℓ where
  pub bytes : Bytes
  pub written : w ≡ wrote bytes
  pub read_back : (rest : Bytes) → r (bytes ++ rest) ≡ done a rest

abbrev pub encoded_length : Write → ℕ
encoded_length (wrote bs) = length bs
encoded_length panicked = 0

-- Inversion of a sequence of writes that does not panic.
pub >>-eq-wrote :
    (a : Bytes) (w : Write) (bs : Bytes)
    → (wrote a >> w) ≡ wrote bs
    → (b : Bytes) × (w ≡ wrote b) × (bs ≡ a ++ b)
>>-eq-wrote a (wrote b) bs e = (b, refl, cc)
>>-eq-wrote a panicked bs e = cc

module _ {ℓ} {A : Type ℓ} where
  pub Encodes-pure : (a : A) → Encodes (wrote []) (pure a) a
  Encodes-pure a = record { bytes = []; written = refl; read_back = λ rest. refl }

  pub Encodes-context :
      (c : String) {w : Write} {r : Read A} {a : A} → Encodes w r a → Encodes w (context c r) a
  Encodes-context c e = record {
    bytes = e.bytes;
    written = e.written;
    read_back = λ rest. rw (e.read_back rest, context);
  }

  pub Encodes-context_at :
      (c : String) (i : ℕ) {w : Write} {r : Read A} {a : A}
      → Encodes w r a
      → Encodes w (context_at c i r) a
  Encodes-context_at c i e = record {
    bytes = e.bytes;
    written = e.written;
    read_back = λ rest. rw (e.read_back rest, context_at);
  }

  pub Encodes-bind {κ} :
      {B : Type κ} {w w' : Write} {r : Read A} (f : A → Read B) {a : A} {b : B}
      → Encodes w r a
      → Encodes w' (f a) b
      → Encodes (w >> w') (r >>= f) b
  Encodes-bind f e e' = record {
    bytes = e.bytes ++ e'.bytes;
    written = rw (e.written, e'.written);
    read_back = λ rest.
        rw (append_assoc e.bytes e'.bytes rest, e.read_back (e'.bytes ++ rest), ◌>>=◌)
          (e'.read_back rest);
  }

  -- A last step that only packs the value.
  pub Encodes-map {κ} :
      {B : Type κ} {w : Write} {r : Read A} (f : A → B) {a : A}
      → Encodes w r a
      → Encodes w (r >>= (λ x. pure (f x))) (f a)
  Encodes-map f e = record {
    bytes = e.bytes;
    written = e.written;
    read_back = λ rest. rw (e.read_back rest, ◌>>=◌);
  }

split_at-append : (n : ℕ) (s rest : Bytes) → length s ≡ n → split_at n (s ++ rest) ≡ some (s, rest)
unfolding split_at
split_at-append zero [] rest h = refl
split_at-append zero (b ∷ s) rest h = absurd (omega arith)
split_at-append (suc n) [] rest h = absurd (omega arith)
split_at-append (suc n) (b ∷ s) rest h = rw (split_at-append n s rest (omega arith))

-- io.ReadFull of as many bytes as were written.
pub read_full-Encodes : (n : ℕ) (s : Bytes) → length s ≡ n → Encodes (wrote s) (read_full n) s
unfolding read_full
read_full-Encodes zero [] h = record { bytes = []; written = refl; read_back = go }
  where
    go : (rest : Bytes) → read_full 0 rest ≡ done [] rest
    go [] = refl
    go (b ∷ rest) = refl
read_full-Encodes zero (b ∷ s) h = absurd (omega arith)
read_full-Encodes (suc n) [] h = absurd (omega arith)
read_full-Encodes (suc n) (b ∷ s) h = record {
  bytes = b ∷ s;
  written = refl;
  read_back = λ rest. rw (split_at-append (suc n) (b ∷ s) rest h, read_full);
}

-- Two such loops agree if their bodies do.
pub Encodes-times {ℓ κ} :
    {A : Type ℓ} (P : A → Type κ) (w : A → Write) (r : ℕ → Read A)
    → ((i : ℕ) (a : A) → P a → Encodes (w a) (r i) a)
    → (i : ℕ) (xs : List A) → All P xs
    → Encodes (write_each w xs) (read_times (length xs) i r) xs
unfolding write_each read_times
Encodes-times P w r body i [] h = Encodes-pure []
Encodes-times P w r body i (a ∷ rest) (ha, hr) =
    Encodes-bind _ (body i a ha)
      (Encodes-map (λ ys. a ∷ ys) (Encodes-times P w r body (suc i) rest hr))

-- Sequences of writes may be regrouped.
pub >>_assoc : (a b c : Write) → ((a >> b) >> c) ≡ (a >> (b >> c))
>>_assoc panicked b c = refl
>>_assoc (wrote x) panicked c = refl
>>_assoc (wrote x) (wrote y) panicked = refl
>>_assoc (wrote x) (wrote y) (wrote z) = rw (append_assoc x y z) refl

-- What a sequence of two reads that succeeds comes from.
module _ {ℓ κ} {A : Type ℓ} {B : Type κ} (f : A → Read B) (b : B) (s' : Bytes) where
  bound_done :
      (o : Outcome A)
      → (elim o [ done a t ↦ f a t | fail e t ↦ fail e t | panic ↦ panic ]) ≡ done b s'
      → (a : A) × ((t : Bytes) × ((o ≡ done a t) × (f a t ≡ done b s')))
  bound_done (done a t) e = (a, (t, (refl, e)))
  bound_done (fail err t) e = cc
  bound_done panic e = cc

  pub >>=-eq-done :
      (m : Read A) (s : Bytes)
      → (m >>= f) s ≡ done b s'
      → (a : A) × ((t : Bytes) × ((m s ≡ done a t) × (f a t ≡ done b s')))
  >>=-eq-done m s h = bound_done (m s) h

-- A sequence of two reads of which the first succeeds.
pub >>=-done {ℓ κ} :
    {A : Type ℓ} {B : Type κ} (f : A → Read B) (m : Read A) (s : Bytes) (a : A) (t : Bytes)
    → m s ≡ done a t
    → (m >>= f) s ≡ f a t
>>=-done f m s a t h = ap (λ o. elim o [ done a t ↦ f a t | fail e t ↦ fail e t | panic ↦ panic ]) h
