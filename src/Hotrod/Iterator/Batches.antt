-- ===== src/Hotrod/Iterator/Batches.antt =====
-- internal/operation/iteration.go under hotrod/iterator.go: the batches that a response can hold.
use go_client.Prelude.{
  ℕ, zero, suc, ◌<◌, ◌≡◌, ◌⊎◌, inl, inr, refl, List, [], ◌∷◌, Bool, true, false, ◌==◌,
  if◌then◌else◌, length, is_negative32, arith, sym, ap, subst, ◌∙◌,
}
use go_client.Io.{Bytes, done, Read, ◌>>=◌, pure, context, read_times, throw, crash, message}
use go_client.Io.Encodes.{>>=-eq-done}
use go_client.Codec.Header.{read_slice}
use go_client.Codec.VarInt.{read_vint}
use go_client.Codec.Wire.{read_lp_bytes}
use go_client.Operation.Iteration.{IterationNextResponse, read_iter_entry, decode_iteration_next}
use go_client.Codec.Constants.{status_invalid_iteration}

length-read_times {ℓ} :
    {A : Type ℓ} (n i : ℕ) (r : ℕ → Read A) (s : Bytes) (xs : List A) (s' : Bytes)
    → read_times n i r s ≡ done xs s'
    → length xs ≡ n
unfolding read_times
length-read_times zero i r s xs s' h = (let none_read : [] ≡ xs = cc in ap length (sym none_read))
length-read_times (suc n) i r s xs s' h =
    let (a, (t, (first, later))) = >>=-eq-done _ xs s' (r i) s h in
    let (rest, (u, (others, last))) = >>=-eq-done _ xs s' (read_times n (suc i) r) t later in
    let ih = length-read_times n (suc i) r t rest u others in
    let all_read : (a ∷ rest) ≡ xs = cc in sym (ap length all_read) ∙ ap suc ih

slice_read {ℓ} :
    {A : Type ℓ} (negative : Bool) (n : ℕ) (r : ℕ → Read A) (s : Bytes) (xs : List A) (s' : Bytes)
    → (if negative then crash else read_times n 0 r) s ≡ done xs s'
    → length xs ≡ n
slice_read true n r s xs s' h = cc
slice_read false n r s xs s' h = length-read_times n 0 r s xs s' h

length-read_slice {ℓ} :
    {A : Type ℓ} (n : ℕ) (r : ℕ → Read A) (s : Bytes) (xs : List A) (s' : Bytes)
    → read_slice n r s ≡ done xs s'
    → length xs ≡ n
unfolding read_slice
length-read_slice n r s xs s' h = slice_read (is_negative32 n) n r s xs s' h

-- A batch with no more to come, or one that is not empty with more to come.
unfoldable pub IsBatch : IterationNextResponse → Type 0
IsBatch resp =
    ((resp.entries ≡ []) × (resp.has_more ≡ false))
    ⊎ ((0 < length resp.entries) × (resp.has_more ≡ true))

-- The entries of a response whose size is not 0.
full-IsBatch :
    (n : ℕ) (s : Bytes) (resp : IterationNextResponse) (s' : Bytes)
    → 0 < n
    → (do
      _ ← context "read projections size" read_vint
      entries ← read_slice n read_iter_entry
      pure (record { entries = entries; has_more = true }))
        s
      ≡ done resp s'
    → IsBatch resp
unfolding IsBatch
full-IsBatch n s resp s' some_entries h =
    let (projections, (t, (first, later))) =
      >>=-eq-done _ resp s' (context "read projections size" read_vint) s h in
    let (entries, (u, (read, last))) =
      >>=-eq-done _ resp s' (read_slice n read_iter_entry) t later in
    let size = length-read_slice n read_iter_entry t entries u read in
    let built : record { entries = entries; has_more = true } ≡ resp = cc in
    subst IsBatch built (inr (omega arith, refl))

sized-IsBatch :
    (n : ℕ) (empty : Bool) (s : Bytes) (resp : IterationNextResponse) (s' : Bytes)
    → (n == 0) ≡ empty
    → (if empty then pure (record { entries = []; has_more = false }) else (do
      _ ← context "read projections size" read_vint
      entries ← read_slice n read_iter_entry
      pure (record { entries = entries; has_more = true })))
        s
      ≡ done resp s'
    → IsBatch resp
sized-IsBatch n true s resp s' size h =
    let built : Path IterationNextResponse (record { entries = []; has_more = false }) resp = cc in
    subst IsBatch built (unfold IsBatch in inl (refl, refl))
sized-IsBatch n false s resp s' size h = full-IsBatch n s resp s' (ground (arith, size)) h

-- Whatever the server sends, a response that IterationNextOp reads without an error is a batch with no
-- more to come, or one that is not empty with more to come: what the end of the iteration relies on.
pub decode_iteration_next-IsBatch :
    (status : ℕ) (s : Bytes) (resp : IterationNextResponse) (s' : Bytes)
    → decode_iteration_next status s ≡ done resp s'
    → IsBatch resp
unfolding decode_iteration_next IsBatch
decode_iteration_next-IsBatch status s resp s' h = by_status (status == status_invalid_iteration) h
  where
    body : Read IterationNextResponse
    body = do
      _ ← context "read finished segments" read_lp_bytes
      entries_size ← context "read entries size" read_vint
      if entries_size == 0 then pure (record { entries = []; has_more = false }) else (do
        _ ← context "read projections size" read_vint
        entries ← read_slice entries_size read_iter_entry
        pure (record { entries = entries; has_more = true }))

    by_status :
        (invalid : Bool)
        → (if invalid
              then throw (message "invalid iteration: server cursor expired or unknown")
              else body)
            s
          ≡ done resp s'
        → IsBatch resp
    by_status true e = cc
    by_status false e =
        let (segments, (t, (first, later))) =
          >>=-eq-done _ resp s' (context "read finished segments" read_lp_bytes) s e in
        let (n, (u, (read, last))) =
          >>=-eq-done _ resp s' (context "read entries size" read_vint) t later in
        sized-IsBatch n (n == 0) u resp s' refl last
