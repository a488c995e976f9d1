-- ===== src/Hotrod/Iterator/Yields.antt =====
-- hotrod/iterator.go: the loop over Next and Entry sees every batch.
use go_client.Prelude.{
  ℕ, zero, suc, ◌+◌, ◌<◌, ◌≡◌, refl, List, [], ◌∷◌, ◌++◌, map, Option, none, some, true, false, ltb,
  length, length-append, get_elem?, arith, ap, ◌∙◌,
}
use go_client.Io.{Error}
use go_client.Operation.Iteration.{IterEntry, IterationNextResponse}
use go_client.Hotrod.Transaction.{Answer, answered, failed}
use go_client.Hotrod.Iterator.{Iterator, new_iterator, fetch_batch, iter_next, iter_entry, iterate}

-- What follows the first elements.
unfoldable drop {ℓ} : {A : Type ℓ} → ℕ → List A → List A
drop zero xs = xs
drop (suc n) [] = []
drop (suc n) (x ∷ xs) = drop n xs

module _ {ℓ} {A : Type ℓ} where
  drop-cons :
      (n : ℕ) (xs : List A) (y : A) (ys : List A)
      → drop n xs ≡ y ∷ ys
      → (ltb n (length xs) ≡ true) × ((get_elem? xs n ≡ some y) × (drop (suc n) xs ≡ ys))
  unfolding drop
  drop-cons zero [] y ys h = cc
  drop-cons zero (x ∷ xs) y ys h = (ground arith, (cc, cc))
  drop-cons (suc n) [] y ys h = cc
  drop-cons (suc n) (x ∷ xs) y ys h =
      let (inside, (at, rest)) = drop-cons n xs y ys h in (ground (arith, inside), (at, rest))

  drop-nil : (n : ℕ) (xs : List A) → drop n xs ≡ [] → ltb n (length xs) ≡ false
  unfolding drop
  drop-nil zero [] h = ground arith
  drop-nil zero (x ∷ xs) h = cc
  drop-nil (suc n) [] h = ground arith
  drop-nil (suc n) (x ∷ xs) h = ground (arith, drop-nil n xs h)

ap2_cons {ℓ} : {A : Type ℓ} {x y : A} {xs ys : List A} → x ≡ y → xs ≡ ys → x ∷ xs ≡ y ∷ ys
ap2_cons e es = cc

-- The answer that ends the batches: an error, or an empty batch with no more to come.
abbrev pub last_answer : Option Error → Answer IterationNextResponse
last_answer none = answered (record { entries = []; has_more = false })
last_answer (some err) = failed err

-- From request `n` on, the server answers with the batches, none of them empty, and then with the last answer.
abbrev pub Serves :
    (ℕ → Answer IterationNextResponse) → ℕ → List (List IterEntry) → Option Error → Type 0
Serves server n [] end = server n ≡ last_answer end
Serves server n (b ∷ bs) end =
    (server n ≡ answered (record { entries = b; has_more = true }))
    × ((0 < length b) × Serves server (suc n) bs end)

abbrev pub concat : List (List IterEntry) → List IterEntry
concat [] = []
concat (b ∷ bs) = b ++ concat bs

-- An iterator in use.
abbrev open_at : List IterEntry → ℕ → ℕ → Iterator
open_at b p n = record new_iterator { buf = b; position = p; requests = n }

module _ (server : ℕ → Answer IterationNextResponse) where
  next-inside :
      (b : List IterEntry) (p n : ℕ) (x : IterEntry) (rest : List IterEntry)
      → drop p b ≡ x ∷ rest
      → iter_next server (open_at b p n) ≡ (true, open_at b (suc p) n)
  unfolding iter_next
  next-inside b p n x rest h = rw ((drop-cons p b x rest h).0) refl

  next-behind :
      (b : List IterEntry) (p n : ℕ)
      → drop p b ≡ []
      → iter_next server (open_at b p n) ≡ fetch_batch (open_at b (suc p) n) (server n)
  unfolding iter_next
  next-behind b p n h = rw (drop-nil p b h) refl

  -- One round of the loop.
  iterate-on :
      (fuel : ℕ) (it it' : Iterator)
      → iter_next server it ≡ (true, it')
      → iterate (suc fuel) server it
        ≡ (iter_entry it' ∷ (iterate fuel server it').0, (iterate fuel server it').1)
  unfolding iterate
  iterate-on fuel it it' h = rw (iterate, h) refl

  iterate-stop :
      (fuel : ℕ) (it it' : Iterator)
      → iter_next server it ≡ (false, it')
      → iterate (suc fuel) server it ≡ ([], it')
  unfolding iterate
  iterate-stop fuel it it' h = rw (iterate, h) refl

  next-fetched :
      (b : List IterEntry) (p n : ℕ) (y : IterEntry) (ys : List IterEntry)
      → drop p b ≡ []
      → server n ≡ answered (record { entries = y ∷ ys; has_more = true })
      → iter_next server (open_at b p n) ≡ (true, open_at (y ∷ ys) 1 (suc n))
  next-fetched b p n y ys h s =
      next-behind b p n h
      ∙ (ap (fetch_batch (open_at b (suc p) n)) s ∙ (unfold fetch_batch in refl))

  -- The iterator behind the last answer.
  abbrev ended : List IterEntry → ℕ → ℕ → Option Error → Iterator
  ended b p n none = record new_iterator { buf = []; position = 1; more = false; requests = suc n }
  ended b p n (some err) = record new_iterator {
    buf = b;
    position = suc p;
    err = some err;
    requests = suc n;
  }

  next-last :
      (b : List IterEntry) (p n : ℕ) (end : Option Error)
      → drop p b ≡ []
      → server n ≡ last_answer end
      → iter_next server (open_at b p n) ≡ (false, ended b p n end)
  next-last b p n none h s =
      next-behind b p n h
      ∙ (ap (fetch_batch (open_at b (suc p) n)) s ∙ (unfold fetch_batch in refl))
  next-last b p n (some err) h s =
      next-behind b p n h
      ∙ (ap (fetch_batch (open_at b (suc p) n)) s ∙ (unfold fetch_batch in refl))

  err-ended : (b : List IterEntry) (p n : ℕ) (end : Option Error) → (ended b p n end).err ≡ end
  err-ended b p n none = refl
  err-ended b p n (some err) = refl

  entry-at : (b : List IterEntry) (p n : ℕ) → iter_entry (open_at b (suc p) n) ≡ get_elem? b p
  unfolding iter_entry
  entry-at b p n = ap (get_elem? b) (omega arith)

  iterate-from :
      (fuel : ℕ) (b : List IterEntry) (p n : ℕ) (rest : List IterEntry) (bs : List (List IterEntry))
      (end : Option Error)
      → drop p b ≡ rest
      → Serves server n bs end
      → length rest + length (concat bs) < fuel
      → ((iterate fuel server (open_at b p n)).0 ≡ map some (rest ++ concat bs))
        × ((iterate fuel server (open_at b p n)).1.err ≡ end)
  iterate-from zero b p n rest bs end h s less = absurd (omega arith)
  iterate-from (suc fuel) b p n (x ∷ rest) bs end h s less =
      let (inside, (at, after)) = drop-cons p b x rest h in
      let (seen, err) = iterate-from fuel b (suc p) n rest bs end after s (omega arith) in
      rw (iterate-on fuel (open_at b p n) _ (next-inside b p n x rest h))
        (ap2_cons (entry-at b p n ∙ at) seen, err)
  iterate-from (suc fuel) b p n [] [] end h s less =
      rw (iterate-stop fuel (open_at b p n) _ (next-last b p n end h s)) (refl, err-ended b p n end)
  iterate-from (suc fuel) b p n [] ([] ∷ bs) end h (s, (nonempty, later)) less =
      absurd (omega arith)
  iterate-from (suc fuel) b p n [] ((y ∷ ys) ∷ bs) end h (s, (nonempty, later)) less =
      let (seen, err) =
        iterate-from fuel (y ∷ ys) 1 (suc n) ys bs end (unfold drop in refl) later
          (omega (arith, less, length-append ys (concat bs))) in
      rw (iterate-on fuel (open_at b p n) _ (next-fetched b p n y ys h s))
        (ap2_cons (entry-at (y ∷ ys) 0 (suc n)) seen, err)

-- Where the server answers with batches that are not empty and then ends, with an error or not, the loop
-- over Next and Entry terminates after one round more than there are entries: it has seen the entries of
-- all batches in their order, each with Entry in range, and Err is the error.
pub iterate-yields :
    (server : ℕ → Answer IterationNextResponse) (bs : List (List IterEntry)) (end : Option Error)
    (fuel : ℕ)
    → Serves server 0 bs end
    → length (concat bs) < fuel
    → ((iterate fuel server new_iterator).0 ≡ map some (concat bs))
      × ((iterate fuel server new_iterator).1.err ≡ end)
iterate-yields server bs end fuel s less =
    iterate-from server fuel [] 0 0 [] bs end (unfold drop in refl) s (omega arith)
