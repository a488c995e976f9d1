-- ===== src/Hotrod/NearCache/Running.antt =====
-- hotrod/near_cache.go: started goroutines run, in any order with the calls.
use go_client.Prelude.{
  ℕ, ◌≡◌, refl, List, [], ◌∷◌, ◌++◌, Option, none, some, Bool, true, false, arith, sym, ap, subst,
  ◌∙◌,
}
use go_client.Io.{Bytes}
use go_client.Hotrod.Lru.{new_lru, keys_of}
use go_client.Hotrod.Lru.Invariant.{new_lru-IsLinked}
use go_client.Hotrod.Lru.Refinement.{view}
use go_client.Hotrod.Lru.Runs.{putting, removing, call}
use go_client.Hash.Bloom.{BloomFilter, new_bloom_filter, to_bit_set}
use go_client.Hotrod.NearCache.{
  add_all, NearCache, Job, update, update_dirty, reset_dirty, new_near_cache, near_store, near_drop,
  near_update_bloom_filter, run_job,
}
use go_client.Hotrod.NearCache.Jobs.{
  dirty_jobs, NearStep, looking_up, storing, scheduling, dropping, closing, running, Reached,
  started, stepped, dirty_of, IsKept, dirty_jobs-append, called-IsKept, schedule-IsKept,
  lookup-IsKept, close-IsKept,
}

-- What updateBloomFilter and a job change, where they do not panic: the filters, and the flag.
abbrev Ran : NearCache → NearCache → Bool → Type 0
Ran nc nc' flag =
    (fs : List (List Bytes × Bytes)) × (record nc { filters = fs; bloom_dirty = flag } ≡ nc')

near_update_bloom_filter-Ran :
    (nc nc' : NearCache) → near_update_bloom_filter nc ≡ some nc' → Ran nc nc' nc.bloom_dirty
unfolding near_update_bloom_filter
near_update_bloom_filter-Ran nc nc' h =
    by_filter (add_all (keys_of nc.entries) (new_bloom_filter nc.bloom_filter_bits)) h
  where
    by_filter :
        (o : Option BloomFilter)
        → (elim o [
          | none ↦ none
          | some bf ↦
              some (record nc { filters = (keys_of nc.entries, to_bit_set bf) ∷ nc.filters })
        ])
          ≡ some nc'
        → Ran nc nc' nc.bloom_dirty
    by_filter none e = cc
    by_filter (some bf) e = ((keys_of nc.entries, to_bit_set bf) ∷ nc.filters, cc)

-- What is left of a job.
abbrev left_of : Job → List Job
left_of update = []
left_of update_dirty = reset_dirty ∷ []
left_of reset_dirty = []

abbrev flag_after : Job → Bool → Bool
flag_after update flag = flag
flag_after update_dirty flag = flag
flag_after reset_dirty flag = false

finished_run :
    (nc nc' : NearCache) (left left' : List Job) (o : Option NearCache)
    → ((m : NearCache) → o ≡ some m → Ran nc m nc.bloom_dirty)
    → Path
        (Option (NearCache × List Job))
        (elim o [ none ↦ none | some m ↦ some (m, left') ])
        (some (nc', left))
    → (left' ≡ left) × Ran nc nc' nc.bloom_dirty
finished_run nc nc' left left' none f h = cc
finished_run nc nc' left left' (some m) f h =
    let same : m ≡ nc' = cc in
    let rest : left' ≡ left = cc in (rest, subst (λ k. Ran nc k nc.bloom_dirty) same (f m refl))

run_job-Ran :
    (j : Job) (nc nc' : NearCache) (left : List Job)
    → run_job j nc ≡ some (nc', left)
    → (left_of j ≡ left) × Ran nc nc' (flag_after j nc.bloom_dirty)
unfolding run_job
run_job-Ran update nc nc' left h =
    finished_run nc nc' left [] (near_update_bloom_filter nc)
      (λ m e. near_update_bloom_filter-Ran nc m e) h
run_job-Ran update_dirty nc nc' left h =
    finished_run nc nc' left (reset_dirty ∷ []) (near_update_bloom_filter nc)
      (λ m e. near_update_bloom_filter-Ran nc m e) h
run_job-Ran reset_dirty nc nc' left h =
    let same : record nc { bloom_dirty = false } ≡ nc' = cc in
    let rest : Path (List Job) [] left = cc in (rest, (nc.filters, same))

-- The flag and the jobs after one of them ran.
dirty-run :
    (before after : List Job) (j : Job) (flag : Bool)
    → dirty_jobs (before ++ (j ∷ after)) ≡ dirty_of flag
    → dirty_jobs (before ++ (left_of j ++ after)) ≡ dirty_of (flag_after j flag)
unfolding dirty_jobs
dirty-run before after update flag h =
    omega (arith, h, dirty_jobs-append before (update ∷ after), dirty_jobs-append before after)
dirty-run before after update_dirty flag h = omega (
  arith,
  h,
  dirty_jobs-append before (update_dirty ∷ after),
  dirty_jobs-append before (reset_dirty ∷ after),
)
dirty-run before after reset_dirty true h =
    omega (arith, h, dirty_jobs-append before (reset_dirty ∷ after), dirty_jobs-append before after)
dirty-run before after reset_dirty false h =
    absurd (omega (arith, h, dirty_jobs-append before (reset_dirty ∷ after)))

run-IsKept :
    (before after left : List Job) (j : Job) (nc nc' : NearCache)
    → IsKept nc
    → nc.jobs ≡ before ++ (j ∷ after)
    → run_job j nc ≡ some (nc', left)
    → IsKept (record nc' { jobs = before ++ (left ++ after) })
run-IsKept before after left j nc nc' w jobs ran =
    let (rest, (fs, same)) = run_job-Ran j nc nc' left ran in
    let flag = flag_after j nc.bloom_dirty in
    let kept : IsKept
        (record nc { filters = fs; bloom_dirty = flag; jobs = before ++ (left_of j ++ after) }) =
      record {
        linked = w.linked;
        bounded = w.bounded;
        counted = w.counted;
        dirty = dirty-run before after j nc.bloom_dirty (ap dirty_jobs (sym jobs) ∙ w.dirty);
      } in
    subst (λ m. IsKept (record m { jobs = before ++ (left ++ after) })) same
      (subst
        (λ l.
          IsKept (record nc { filters = fs; bloom_dirty = flag; jobs = before ++ (l ++ after) }))
        rest kept)

step-IsKept : {nc nc' : NearCache} → NearStep nc nc' → IsKept nc → IsKept nc'
unfolding near_store near_drop call
step-IsKept {nc} (looking_up key) w = lookup-IsKept key nc w
step-IsKept {nc} (storing key val) w = called-IsKept (putting key val) nc w
step-IsKept {nc} scheduling w = schedule-IsKept nc w
step-IsKept {nc} (dropping key) w = called-IsKept (removing key) nc w
step-IsKept {nc} closing w = close-IsKept nc w
step-IsKept (running before after left j jobs ran) w = run-IsKept before after left j _ _ w jobs ran

-- In every order of the steps of callers, events and started goroutines, the store of a near cache is well
-- formed and never has more entries than its maximum, or than one; the count of removals is at most the
-- threshold; and the flag bloomDirty is set exactly while one started goroutine will reset it.
pub reached-IsKept : (size : ℕ) (nc : NearCache) → Reached size nc → IsKept nc
unfolding new_near_cache dirty_jobs
reached-IsKept size nc started = record {
  linked = new_lru-IsLinked size;
  bounded = unfold view new_lru in omega arith;
  counted = omega arith;
  dirty = refl;
}
reached-IsKept size nc (stepped r s) = step-IsKept s (reached-IsKept size _ r)
