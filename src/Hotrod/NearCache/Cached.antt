-- ===== src/Hotrod/NearCache/Cached.antt =====
-- hotrod/near_cache.go: whether the server's filter has the keys that Get stores.
use go_client.Prelude.{
  ℕ, ◌+◌, ◌≤◌, ◌<◌, ◌≡◌, refl, List, [], ◌∷◌, ◌++◌, some, true, false, leb, if◌then◌else◌, length,
  All, keys, find, bytes_discrete, find-store, arith, ap, subst, ◌∙◌, Option-cases, inl, inr,
}
use go_client.Io.{Bytes}
use go_client.Hotrod.Lru.{LruStore, lru_put, push_front, evict_oldest, keys_of}
use go_client.Hotrod.NearCache.{
  NearCache, Job, update_dirty, reset_dirty, on_entry_removed, on_entries_removed, with_entries,
  schedule_bloom_update, near_fill, near_store, run_job,
}
use go_client.Hotrod.NearCache.Jobs.{NearStep, running}
use go_client.Hotrod.NearCache.Filter.{IsHashable, is_in_filter, near_update_bloom_filter-has_keys}

-- The callbacks leave the entries, the filters' size and the flag alone, and only add jobs.
removed-kept :
    (ks : List Bytes) (nc : NearCache)
    → ((on_entries_removed ks nc).entries ≡ nc.entries)
      × (((on_entries_removed ks nc).bloom_filter_bits ≡ nc.bloom_filter_bits)
          × ((on_entries_removed ks nc).bloom_dirty ≡ nc.bloom_dirty))
unfolding on_entries_removed on_entry_removed
removed-kept [] nc = (refl, (refl, refl))
removed-kept (k ∷ ks) nc = ground (arith, removed-kept ks nc)

with_entries-kept :
    (l : LruStore) (nc : NearCache)
    → ((with_entries l nc).entries ≡ record l { removed = [] })
      × (((with_entries l nc).bloom_filter_bits ≡ nc.bloom_filter_bits)
          × ((with_entries l nc).bloom_dirty ≡ nc.bloom_dirty))
unfolding with_entries
with_entries-kept l nc = removed-kept l.removed (record nc { entries = record l { removed = [] } })

-- A key that was put is in the store.
put-listed :
    (k v : Bytes) (l : LruStore)
    → (el : ℕ) × (find bytes_discrete k (lru_put k v l).items ≡ some el)
unfolding lru_put push_front
put-listed k v l = elim (Option-cases (find bytes_discrete k l.items)) [
  | inl missing ↦
      let l' = if leb l.max (length l.eviction) then evict_oldest l else l in
      (
        l'.next_element,
        rw (lru_put, missing)
            (ground (arith, find-store bytes_discrete k k l'.next_element l'.items)),
      )
  | inr (el, found) ↦ (el, rw (lru_put, found) found)
]

All-keys :
    (P : Bytes → Type 0) (k : Bytes) (el : ℕ) (items : List (Bytes × ℕ))
    → All P (keys items)
    → find bytes_discrete k items ≡ some el
    → P k
unfolding find
All-keys P k el [] h found = cc
All-keys P k el ((j, e) ∷ items) (p, h) found = elim (bytes_discrete j k) [
  | yes same ↦ subst P same p
  | no other ↦ All-keys P k el items h (ground arith)
]

schedule-clean :
    (nc : NearCache)
    → nc.bloom_dirty ≡ false
    → schedule_bloom_update nc
      ≡ record nc { bloom_dirty = true; jobs = nc.jobs ++ update_dirty ∷ [] }
unfolding schedule_bloom_update
schedule-clean nc clean = rw (schedule_bloom_update, clean) refl

-- For at least one entry: where bloomDirty is not set, Get, after it has stored a value that it found,
-- leaves an update as the last started goroutine; and if the update runs with no key in the store that Add
-- panics for, the server finds the key in the bits that it is sent.
pub near_fill-covers :
    (k v : Bytes) (nc : NearCache)
    → nc.bloom_dirty ≡ false
    → 0 < nc.bloom_filter_bits
    → All IsHashable (keys_of (near_fill k v nc).entries)
    → ((js : List Job) × ((near_fill k v nc).jobs ≡ js ++ update_dirty ∷ []))
      × ((nc' : NearCache) × ((bits : Bytes) × ((run_job update_dirty (near_fill k v nc)
                ≡ some (nc', reset_dirty ∷ []))
              × ((nc'.filters
                    ≡ (keys_of (near_fill k v nc).entries, bits) ∷ (near_fill k v nc).filters)
                  × (is_in_filter nc.bloom_filter_bits bits k ≡ true)))))
unfolding near_fill near_store run_job keys_of
near_fill-covers k v nc clean positive h =
    let stored = with_entries (lru_put k v nc.entries) nc in
    let (entries, (bits_kept, flag_kept)) = with_entries-kept (lru_put k v nc.entries) nc in
    let filled = schedule-clean stored (flag_kept ∙ clean) in
    let final = near_fill k v nc in
    let size : final.bloom_filter_bits ≡ nc.bloom_filter_bits =
      ap (λ (m : NearCache). m.bloom_filter_bits) filled ∙ bits_kept in
    let same_items : final.entries.items ≡ (lru_put k v nc.entries).items =
      ap (λ (m : NearCache). m.entries.items) filled ∙ ap (λ (l : LruStore). l.items) entries in
    let (el, listed) = put-listed k v nc.entries in
    let (bits, (ran, all)) =
      near_update_bloom_filter-has_keys final (omega (arith, positive, size)) h in
    let there =
      All-keys (λ q. is_in_filter final.bloom_filter_bits bits q ≡ true) k el final.entries.items
        all (ap (find bytes_discrete k) same_items ∙ listed) in
    (
      (stored.jobs, ap (λ (m : NearCache). m.jobs) filled),
      (
        record final { filters = (keys_of final.entries, bits) ∷ final.filters },
        (
          bits,
          (rw (run_job, ran) refl, (refl, subst (λ n. is_in_filter n bits k ≡ true) size there)),
        ),
      ),
    )

-- Where bloomDirty is set, storing a value starts no goroutine for it.
schedule-dirty : (nc : NearCache) → nc.bloom_dirty ≡ true → schedule_bloom_update nc ≡ nc
unfolding schedule_bloom_update
schedule-dirty nc dirty = rw (schedule_bloom_update, dirty) refl

removed-few :
    (ks : List Bytes) (nc : NearCache)
    → nc.removal_count + length ks ≤ nc.update_threshold
    → ((on_entries_removed ks nc).jobs ≡ nc.jobs)
      × (((on_entries_removed ks nc).filters ≡ nc.filters)
          × (((on_entries_removed ks nc).removal_count ≡ nc.removal_count + length ks)
              × ((on_entries_removed ks nc).update_threshold ≡ nc.update_threshold)))
unfolding on_entries_removed on_entry_removed
removed-few [] nc h = (refl, (refl, (omega arith, refl)))
removed-few (k ∷ ks) nc h = ground (arith, removed-few ks nc (omega arith))

-- Where an update has sent its filter and has not yet reset bloomDirty, and the removals do not reach the
-- threshold: Get stores the value that it found without an update being started, and after the reset no
-- goroutine is left, the key is in the store, and the filters that were sent are those from before the Get.
pub near_fill_misses :
    (k v : Bytes) (nc : NearCache)
    → nc.bloom_dirty ≡ true
    → nc.jobs ≡ reset_dirty ∷ []
    → nc.removal_count + length (lru_put k v nc.entries).removed ≤ nc.update_threshold
    → (nc' : NearCache) × (NearStep (near_fill k v nc) nc'
        × ((nc'.jobs ≡ [])
            × ((nc'.filters ≡ nc.filters)
                × ((el : ℕ) × (find bytes_discrete k nc'.entries.items ≡ some el)))))
unfolding with_entries
near_fill_misses k v nc dirty jobs few =
    let stored = with_entries (lru_put k v nc.entries) nc in
    let final = near_fill k v nc in
    let (entries, (bits_kept, flag_kept)) = with_entries-kept (lru_put k v nc.entries) nc in
    let same : final ≡ stored =
      unfold near_fill near_store in schedule-dirty stored (flag_kept ∙ dirty) in
    let (jobs_kept, (filters_kept, rest)) =
      removed-few (lru_put k v nc.entries).removed
        (record nc { entries = record (lru_put k v nc.entries) { removed = [] } }) few in
    let (el, listed) = put-listed k v nc.entries in
    let final_jobs : final.jobs ≡ reset_dirty ∷ [] =
      ap (λ (m : NearCache). m.jobs) same ∙ (jobs_kept ∙ jobs) in
    let final_filters : final.filters ≡ nc.filters =
      ap (λ (m : NearCache). m.filters) same ∙ filters_kept in
    let final_items : final.entries.items ≡ (lru_put k v nc.entries).items =
      ap (λ (m : NearCache). m.entries.items) same ∙ ap (λ (l : LruStore). l.items) entries in
    let reset : run_job reset_dirty final ≡ some (record final { bloom_dirty = false }, []) =
      unfold run_job in refl in
    (
      _,
      (
        running [] [] [] reset_dirty final_jobs reset,
        (refl, (final_filters, (el, ap (find bytes_discrete k) final_items ∙ listed))),
      ),
    )
