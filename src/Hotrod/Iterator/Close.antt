-- ===== src/Hotrod/Iterator/Close.antt =====
-- hotrod/iterator.go: Close is final and tells the server at most once.
use go_client.Prelude.{
  ℕ, ◌≤◌, ◌≡◌, refl, List, [], ◌∷◌, Option, Bool, true, false, arith, ap, ◌∙◌, Bool-cases, inl, inr,
}
use go_client.Io.{Error}
use go_client.Operation.Iteration.{IterationNextResponse}
use go_client.Hotrod.Transaction.{Answer, is_some}
use go_client.Hotrod.Iterator.{Iterator, new_iterator, fetch_batch, iter_next, iter_close}

-- A call of Next, or of Close with the answer of the server to its request.
pub data IterCall : Type 0 where
  advancing : IterCall
  closing : Option Error → IterCall

unfoldable pub iter_call : (ℕ → Answer IterationNextResponse) → IterCall → Iterator → Iterator
iter_call server advancing it = (iter_next server it).1
iter_call server (closing answer) it = (iter_close answer it).1

-- The calls in their order.
unfoldable pub iter_run : (ℕ → Answer IterationNextResponse) → List IterCall → Iterator → Iterator
iter_run server [] it = it
iter_run server (c ∷ cs) it = iter_run server cs (iter_call server c it)

-- The iteration is ended on the server at most once, and only by a closed iterator.
unfoldable EndsOnce : Iterator → Type 0
EndsOnce it = (it.ends ≤ 1) × (it.closed ≡ false → it.ends ≡ 0)

module _ (server : ℕ → Answer IterationNextResponse) where
  next-kept :
      (it : Iterator)
      → ((iter_next server it).1.ends ≡ it.ends) × ((iter_next server it).1.closed ≡ it.closed)
  unfolding iter_next fetch_batch
  next-kept it = ground arith

  call-EndsOnce : (c : IterCall) (it : Iterator) → EndsOnce it → EndsOnce (iter_call server c it)
  unfolding iter_call EndsOnce iter_close
  call-EndsOnce advancing it w = ground (arith, next-kept it)
  call-EndsOnce (closing answer) it w = ground arith

  run-EndsOnce :
      (cs : List IterCall) (it : Iterator) → EndsOnce it → EndsOnce (iter_run server cs it)
  unfolding iter_run
  run-EndsOnce [] it w = w
  run-EndsOnce (c ∷ cs) it w = run-EndsOnce cs (iter_call server c it) (call-EndsOnce c it w)

  -- A closed iterator does nothing.
  next-closed : (it : Iterator) → it.closed ≡ true → iter_next server it ≡ (false, it)
  unfolding iter_next
  next-closed it h = elim (Bool-cases (is_some it.err)) [
    | inl broken ↦ rw broken refl
    | inr fine ↦ rw (fine, h) refl
  ]

  call-closed : (c : IterCall) (it : Iterator) → it.closed ≡ true → iter_call server c it ≡ it
  unfolding iter_call iter_close
  call-closed advancing it h = ap (λ (p : Bool × Iterator). p.1) (next-closed it h)
  call-closed (closing answer) it h = rw h refl

  run-closed : (cs : List IterCall) (it : Iterator) → it.closed ≡ true → iter_run server cs it ≡ it
  unfolding iter_run
  run-closed [] it h = refl
  run-closed (c ∷ cs) it h = ap (iter_run server cs) (call-closed c it h) ∙ run-closed cs it h

close-closed : (answer : Option Error) (it : Iterator) → (iter_close answer it).1.closed ≡ true
unfolding iter_close
close-closed answer it = ground arith

-- After any calls of Next and Close on a new iterator and a further Close, whatever calls follow leave the
-- iterator as it is and ask the server for nothing; Next is false; and the server was asked to end the
-- iteration at most once.
pub close-final :
    (server : ℕ → Answer IterationNextResponse) (before after : List IterCall)
    (answer : Option Error)
    → (iter_run server after (iter_close answer (iter_run server before new_iterator)).1
        ≡ (iter_close answer (iter_run server before new_iterator)).1)
      × (((iter_next server (iter_close answer (iter_run server before new_iterator)).1).0 ≡ false)
          × ((iter_close answer (iter_run server before new_iterator)).1.ends ≤ 1))
close-final server before after answer =
    let it = iter_run server before new_iterator in
    let it' = (iter_close answer it).1 in
    let start : EndsOnce new_iterator = unfold EndsOnce in (omega arith, λ e. refl) in
    let w =
      call-EndsOnce server (closing answer) it (run-EndsOnce server before new_iterator start) in
    let once : (it'.ends ≤ 1) × (it'.closed ≡ false → it'.ends ≡ 0) =
      unfold EndsOnce iter_call in w in
    (
      run-closed server after it' (close-closed answer it),
      (ap (λ (p : Bool × Iterator). p.0) (next-closed server it' (close-closed answer it)), once.0),
    )
