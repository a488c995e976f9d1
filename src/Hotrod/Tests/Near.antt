-- ===== src/Hotrod/Tests/Near.antt =====
-- The theorems on the near cache at concrete inputs.
use go_client.Prelude.{
  ℕ, ◌+◌, ◌≤◌, ◌<◌, ◌≡◌, ◌≢◌, refl, List, [], ◌∷◌, ◌++◌, some, true, false, length, find, store,
  bytes_discrete, subst, sym, All, arith,
}
use go_client.Io.{Bytes}
use go_client.Hash.Murmur3.{
  hash_with_seed, murmur_hash3, mix_blocks, mix_tail, tail_word, fmix, bmix, little_endian,
}
use go_client.Hotrod.Lru.{new_lru, lru_put, push_front, keys_of}
use go_client.Hotrod.NearCache.{
  NearCache, Job, update_dirty, reset_dirty, new_near_cache, on_entries_removed, with_entries,
  schedule_bloom_update, near_lookup, near_fill, near_store, run_job,
}
use go_client.Hotrod.NearCache.Filter.{IsHashable, is_in_filter}
use go_client.Hotrod.NearCache.Jobs.{
  NearStep, looking_up, storing, scheduling, started, stepped, IsKept,
}
use go_client.Hotrod.NearCache.Running.{reached-IsKept}
use go_client.Hotrod.NearCache.Cached.{near_fill-covers, near_fill_misses}

-- A lookup that misses, and the fill that follows it.
abbrev looked_up : NearCache
looked_up = (near_lookup (1 ∷ []) (new_near_cache 8)).1

reached-IsKept_example : IsKept (schedule_bloom_update (near_store (1 ∷ []) (2 ∷ []) looked_up))
reached-IsKept_example =
    reached-IsKept 8 (schedule_bloom_update (near_store (1 ∷ []) (2 ∷ []) looked_up)) (
      stepped (stepped (stepped started (looking_up (1 ∷ []))) (storing (1 ∷ []) (2 ∷ [])))
        scheduling)

first_hash : hash_with_seed (1 ∷ []) 239 ≢ 2147483648
unfolding hash_with_seed murmur_hash3 mix_blocks mix_tail tail_word fmix bmix little_endian
first_hash = omega arith

second_hash : hash_with_seed (1 ∷ []) 1847 ≢ 2147483648
unfolding hash_with_seed murmur_hash3 mix_blocks mix_tail tail_word fmix bmix little_endian
second_hash = omega arith

third_hash : hash_with_seed (1 ∷ []) 2719 ≢ 2147483648
unfolding hash_with_seed murmur_hash3 mix_blocks mix_tail tail_word fmix bmix little_endian
third_hash = omega arith

hashable : IsHashable (1 ∷ [])
unfolding IsHashable
hashable = (first_hash, (second_hash, (third_hash, tt)))

filled-keys : keys_of (near_fill (1 ∷ []) (2 ∷ []) (new_near_cache 8)).entries ≡ (1 ∷ []) ∷ []
unfolding keys_of near_fill near_store new_near_cache with_entries schedule_bloom_update
    on_entries_removed lru_put new_lru push_front find store
filled-keys = refl

clean : (new_near_cache 8).bloom_dirty ≡ false
unfolding new_near_cache
clean = refl

positive : 0 < (new_near_cache 8).bloom_filter_bits
unfolding new_near_cache
positive = omega arith

near_fill-covers_example :
    ((js : List Job) × ((near_fill (1 ∷ []) (2 ∷ []) (new_near_cache 8)).jobs
        ≡ js ++ update_dirty ∷ []))
    × ((nc' : NearCache) × ((bits : Bytes) × ((run_job update_dirty
                (near_fill (1 ∷ []) (2 ∷ []) (new_near_cache 8))
              ≡ some (nc', reset_dirty ∷ []))
            × ((nc'.filters
                  ≡ (keys_of (near_fill (1 ∷ []) (2 ∷ []) (new_near_cache 8)).entries, bits)
                    ∷ (near_fill (1 ∷ []) (2 ∷ []) (new_near_cache 8)).filters)
                × (is_in_filter (new_near_cache 8).bloom_filter_bits bits (1 ∷ []) ≡ true)))))
near_fill-covers_example =
    near_fill-covers (1 ∷ []) (2 ∷ []) (new_near_cache 8) clean positive
      (subst (All IsHashable) (sym filled-keys) (hashable, tt))

-- The near cache between an update and the reset of its flag.
abbrev resetting : NearCache
resetting = record (new_near_cache 8) { bloom_dirty = true; jobs = reset_dirty ∷ [] }

few :
    resetting.removal_count + length (lru_put (1 ∷ []) (2 ∷ []) resetting.entries).removed
    ≤ resetting.update_threshold
unfolding new_near_cache lru_put new_lru push_front find
few = omega arith

near_fill_misses_example :
    (nc' : NearCache) × (NearStep (near_fill (1 ∷ []) (2 ∷ []) resetting) nc'
      × ((nc'.jobs ≡ [])
          × ((nc'.filters ≡ resetting.filters)
              × ((el : ℕ) × (find bytes_discrete (1 ∷ []) nc'.entries.items ≡ some el)))))
near_fill_misses_example = near_fill_misses (1 ∷ []) (2 ∷ []) resetting refl refl few
