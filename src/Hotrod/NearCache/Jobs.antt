-- ===== src/Hotrod/NearCache/Jobs.antt =====
-- hotrod/near_cache.go: the goroutines that update the filter, among the calls.
use go_client.Prelude.{
  ℕ, suc, ◌+◌, ◌≤◌, ◌≡◌, List, [], ◌∷◌, ◌++◌, some, Bool, true, false, leb, length, arith, sym, ap,
  subst, ◌∙◌, Bool-cases, inl, inr,
}
use go_client.Io.{Bytes}
use go_client.Hotrod.Lru.Invariant.{IsLinked}
use go_client.Hotrod.Lru.Refinement.{view}
use go_client.Hotrod.Lru.Runs.{Call, getting, clearing, call, call-IsLinked, call-bound, max-call}
use Prim.Native.Nat.{max}
use go_client.Hotrod.NearCache.{
  NearCache, Job, update, update_dirty, reset_dirty, new_near_cache, on_entry_removed,
  on_entries_removed, with_entries, schedule_bloom_update, near_lookup, near_store, near_drop,
  near_close, run_job,
}

-- The jobs that will reset bloomDirty.
unfoldable pub dirty_jobs : List Job → ℕ
dirty_jobs [] = 0
dirty_jobs (update ∷ js) = dirty_jobs js
dirty_jobs (update_dirty ∷ js) = suc (dirty_jobs js)
dirty_jobs (reset_dirty ∷ js) = suc (dirty_jobs js)

-- A step of the callers, of the loop of events, or of a started goroutine, in any order. A Get is its
-- lookup and, when the remote call found a value, a store and a schedule, between which others may come; a
-- schedule is allowed at any other time, too.
pub data NearStep : NearCache → NearCache → Type 0 where
  looking_up : {nc : NearCache} (key : Bytes) → NearStep nc (near_lookup key nc).1
  storing : {nc : NearCache} (key val : Bytes) → NearStep nc (near_store key val nc)
  scheduling : {nc : NearCache} → NearStep nc (schedule_bloom_update nc)
  dropping : {nc : NearCache} (key : Bytes) → NearStep nc (near_drop key nc)
  closing : {nc : NearCache} → NearStep nc (near_close nc)
  running :
      {nc nc' : NearCache} (before after left : List Job) (j : Job)
      → nc.jobs ≡ before ++ (j ∷ after)
      → run_job j nc ≡ some (nc', left)
      → NearStep nc (record nc' { jobs = before ++ (left ++ after) })

pub data Reached (size : ℕ) : NearCache → Type 0 where
  started : Reached size (new_near_cache size)
  stepped : {nc nc' : NearCache} → Reached size nc → NearStep nc nc' → Reached size nc'

abbrev pub dirty_of : Bool → ℕ
dirty_of true = 1
dirty_of false = 0

-- The store is well formed and within its bound, the count of removals is at most the threshold, and the flag is set exactly
-- while one job will reset it.
pub record IsKept (nc : NearCache) : Type 0 where
  pub linked : IsLinked nc.entries
  pub bounded : length (view nc.entries) ≤ max nc.entries.max 1
  pub counted : nc.removal_count ≤ nc.update_threshold
  pub dirty : dirty_jobs nc.jobs ≡ dirty_of nc.bloom_dirty

pub dirty_jobs-append : (js ks : List Job) → dirty_jobs (js ++ ks) ≡ dirty_jobs js + dirty_jobs ks
unfolding dirty_jobs
dirty_jobs-append [] ks = omega arith
dirty_jobs-append (update ∷ js) ks = dirty_jobs-append js ks
dirty_jobs-append (update_dirty ∷ js) ks = omega (arith, dirty_jobs-append js ks)
dirty_jobs-append (reset_dirty ∷ js) ks = omega (arith, dirty_jobs-append js ks)

on_entry_removed-IsKept : (nc : NearCache) → IsKept nc → IsKept (on_entry_removed nc)
unfolding on_entry_removed dirty_jobs
on_entry_removed-IsKept nc w = elim (Bool-cases (leb nc.update_threshold nc.removal_count)) [
  | inl full ↦
      rw (on_entry_removed, full)
        (record {
          linked = w.linked;
          bounded = w.bounded;
          counted = omega arith;
          dirty = omega (arith, w.dirty, dirty_jobs-append nc.jobs (update ∷ []));
        })
  | inr room ↦
      rw (on_entry_removed, room)
        (record {
          linked = w.linked;
          bounded = w.bounded;
          counted = ground (arith, room);
          dirty = w.dirty;
        })
]

on_entries_removed-IsKept :
    (ks : List Bytes) (nc : NearCache) → IsKept nc → IsKept (on_entries_removed ks nc)
unfolding on_entries_removed
on_entries_removed-IsKept [] nc w = w
on_entries_removed-IsKept (k ∷ ks) nc w =
    on_entry_removed-IsKept (on_entries_removed ks nc) (on_entries_removed-IsKept ks nc w)

-- The cache after any call of its store.
pub called-IsKept :
    (c : Call) (nc : NearCache) → IsKept nc → IsKept (with_entries (call c nc.entries).1 nc)
unfolding with_entries view
called-IsKept c nc w =
    let l = (call c nc.entries).1 in
    let linked = call-IsLinked c nc.entries w.linked in
    on_entries_removed-IsKept l.removed _ (record {
      linked = record { listed = linked.listed; mapped = linked.mapped; fresh = linked.fresh };
      bounded =
          subst (λ m. length (view l) ≤ max m 1) (sym (max-call c nc.entries))
            (call-bound c nc.entries w.linked w.bounded);
      counted = w.counted;
      dirty = w.dirty;
    })

pub schedule-IsKept : (nc : NearCache) → IsKept nc → IsKept (schedule_bloom_update nc)
unfolding schedule_bloom_update dirty_jobs
schedule-IsKept nc w = elim (Bool-cases nc.bloom_dirty) [
  | inl dirty ↦
      rw (schedule_bloom_update, dirty)
        (record {
          linked = w.linked;
          bounded = w.bounded;
          counted = w.counted;
          dirty = w.dirty ∙ ap dirty_of dirty;
        })
  | inr clean ↦
      rw (schedule_bloom_update, clean)
        (record {
          linked = w.linked;
          bounded = w.bounded;
          counted = w.counted;
          dirty =
              omega
                (arith, w.dirty, ap dirty_of clean, dirty_jobs-append nc.jobs (update_dirty ∷ []));
        })
]

pub lookup-IsKept : (key : Bytes) (nc : NearCache) → IsKept nc → IsKept (near_lookup key nc).1
unfolding near_lookup call
lookup-IsKept key nc w = record {
  linked = call-IsLinked (getting key) nc.entries w.linked;
  bounded =
      subst (λ m. length (view (call (getting key) nc.entries).1) ≤ max m 1)
        (sym (max-call (getting key) nc.entries))
        (call-bound (getting key) nc.entries w.linked w.bounded);
  counted = w.counted;
  dirty = w.dirty;
}

pub close-IsKept : (nc : NearCache) → IsKept nc → IsKept (near_close nc)
unfolding near_close call
close-IsKept nc w = record {
  linked = call-IsLinked clearing nc.entries w.linked;
  bounded =
      subst (λ m. length (view (call clearing nc.entries).1) ≤ max m 1)
        (sym (max-call clearing nc.entries)) (call-bound clearing nc.entries w.linked w.bounded);
  counted = w.counted;
  dirty = w.dirty;
}
