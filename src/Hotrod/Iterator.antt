-- ===== src/Hotrod/Iterator.antt =====
-- hotrod/iterator.go: an iterator over the entries of a cache, which it fetches in batches. The answer of
-- the server to the n-th request for a batch is an argument.
pub mod Batches
pub mod Yields
pub mod Close
use go_client.Prelude.{
  ℕ, zero, suc, ◌-◌, List, [], ◌∷◌, Option, none, some, Bool, true, false, ◌||◌, ltb, if◌then◌else◌,
  length, get_elem?, is_empty, not,
}
use go_client.Io.{Bytes, Error}
use go_client.Codec.Wire.{EntryMetadata}
use go_client.Operation.Iteration.{IterEntry, IterationNextResponse, IterationStartOp}
use go_client.Hotrod.Transaction.{Answer, answered, failed, is_some}

-- The fields that change. `position` is one more than `pos`, which starts at -1; `requests` counts the
-- requests for a batch, and `ends` those that end the iteration on the server.
pub record Iterator : Type 0 where
  pub buf : List IterEntry
  pub position : ℕ
  pub more : Bool
  pub closed : Bool
  pub err : Option Error
  pub requests : ℕ
  pub ends : ℕ

-- RemoteCache.Iterator, once the server has started the iteration.
abbrev pub new_iterator : Iterator
new_iterator = record {
  buf = [];
  position = 0;
  more = true;
  closed = false;
  err = none;
  requests = 0;
  ends = 0;
}

-- The request for the next batch, and its answer.
unfoldable pub fetch_batch : Iterator → Answer IterationNextResponse → Bool × Iterator
fetch_batch it (failed err) = (false, record it { err = some err; requests = suc it.requests })
fetch_batch it (answered resp) = (
  not (is_empty resp.entries),
  record it { buf = resp.entries; position = 1; more = resp.has_more; requests = suc it.requests },
)

-- Next.
unfoldable pub iter_next : (ℕ → Answer IterationNextResponse) → Iterator → Bool × Iterator
iter_next server it =
    let it' = record it { position = suc it.position } in
    if is_some it.err || it.closed
    then (false, it)
    else if ltb it.position (length it.buf)
    then (true, it')
    else if not it.more
    then (false, it')
    else fetch_batch it' (server it.requests)

-- Entry; `none` where the index is out of range, which panics.
unfoldable pub iter_entry : Iterator → Option IterEntry
iter_entry it = get_elem? it.buf (it.position - 1)

-- Close, with the answer to the request that ends the iteration: the error that it returns.
unfoldable pub iter_close : Option Error → Iterator → Option Error × Iterator
iter_close server it =
    if it.closed
    then (none, it)
    else if not it.more
    then (none, record it { closed = true })
    else (server, record it { closed = true; ends = suc it.ends })

-- The loop `for it.Next() { … it.Entry() … }`: the entries that it sees, and the iterator at its end.
unfoldable pub iterate :
    ℕ → (ℕ → Answer IterationNextResponse) → Iterator → List (Option IterEntry) × Iterator
iterate zero server it = ([], it)
iterate (suc fuel) server it =
    let (advanced, it') = iter_next server it in
    let (seen, it'') = iterate fuel server it' in
    if advanced then (iter_entry it' ∷ seen, it'') else ([], it')
