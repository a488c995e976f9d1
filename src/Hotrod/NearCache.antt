-- ===== src/Hotrod/NearCache.antt =====
-- hotrod/near_cache.go: a client-side cache, and the bloom filter of its keys that the server is sent. A
-- goroutine that was started is a job, which runs later in steps; the answer of the remote cache to a call
-- is an argument. The filter that is sent to the server is logged with the keys that it was made from. A
-- warning that the server refused it is left out.
pub mod Filter
pub mod Jobs
pub mod Running
pub mod Cached
use go_client.Prelude.{
  ℕ, zero, suc, ◌+◌, ◌*◌, ◌/◌, List, [], ◌∷◌, ◌++◌, Option, none, some, Bool, true, false, leb,
  if◌then◌else◌, length,
}
use go_client.Io.{Bytes, Error}
use go_client.Hash.Bloom.{BloomFilter, new_bloom_filter, add, to_bit_set}
use go_client.Hotrod.Lru.{LruStore, new_lru, lru_get, lru_put, lru_remove, lru_clear, keys_of}
use go_client.Hotrod.Transaction.{Answer, answered, failed, is_some}

-- A started goroutine: updateBloomFilter for the removals, or for the flag bloomDirty, which it resets
-- when the update is done.
pub data Job : Type 0 where
  update update_dirty reset_dirty : Job

pub record NearCache : Type 0 where
  pub entries : LruStore
  pub bloom_filter_bits : ℕ
  pub update_threshold : ℕ
  pub removal_count : ℕ
  pub bloom_dirty : Bool
  pub jobs : List Job
  pub filters : List (List Bytes × Bytes)

-- NewNearCache, for fewer than 2^29 entries, so that its numbers are int32.
unfoldable pub new_near_cache : ℕ → NearCache
new_near_cache max_entries = record {
  entries = new_lru max_entries;
  bloom_filter_bits = max_entries * 4;
  update_threshold = max_entries / 16 + 3;
  removal_count = 0;
  bloom_dirty = false;
  jobs = [];
  filters = [];
}

-- onEntryRemoved: the compare-and-swap loop, as one step.
unfoldable pub on_entry_removed : NearCache → NearCache
on_entry_removed nc =
    if leb nc.update_threshold nc.removal_count
    then record nc { removal_count = 0; jobs = nc.jobs ++ update ∷ [] }
    else record nc { removal_count = suc nc.removal_count }

-- The callback for each of the keys that the store removed.
unfoldable pub on_entries_removed : List Bytes → NearCache → NearCache
on_entries_removed [] nc = nc
on_entries_removed (k ∷ ks) nc = on_entry_removed (on_entries_removed ks nc)

-- The cache after a call of its store, which has called back for the keys that it removed.
unfoldable pub with_entries : LruStore → NearCache → NearCache
with_entries l nc = on_entries_removed l.removed (record nc { entries = record l { removed = [] } })

unfoldable pub schedule_bloom_update : NearCache → NearCache
schedule_bloom_update nc =
    if nc.bloom_dirty
    then nc
    else record nc { bloom_dirty = true; jobs = nc.jobs ++ update_dirty ∷ [] }

-- The part of Get before the remote call: a value that the store has.
unfoldable pub near_lookup : Bytes → NearCache → Option Bytes × NearCache
near_lookup key nc = let (val, l) = lru_get key nc.entries in (val, record nc { entries = l })

-- The store's Put, after the remote call found a value.
unfoldable pub near_store : Bytes → Bytes → NearCache → NearCache
near_store key val nc = with_entries (lru_put key val nc.entries) nc

-- The part after the remote call found a value, where nothing comes between its two steps.
unfoldable pub near_fill : Bytes → Bytes → NearCache → NearCache
near_fill key val nc = schedule_bloom_update (near_store key val nc)

-- Get, where nothing comes between its parts; the remote answer is only asked for after a miss.
unfoldable pub near_get :
    Bytes → Answer (Option Bytes) → NearCache → Answer (Option Bytes) × NearCache
near_get key remote nc =
    let (local, nc') = near_lookup key nc in
    elim local [
      | some val ↦ (answered (some val), nc')
      | none ↦ elim remote [
        | failed err ↦ (failed err, nc')
        | answered none ↦ (answered none, nc')
        | answered (some val) ↦ (answered (some val), near_fill key val nc')
      ]
    ]

-- The store's Remove, as Put, Remove and the loop of events call it.
unfoldable pub near_drop : Bytes → NearCache → NearCache
near_drop key nc = with_entries (lru_remove key nc.entries) nc

-- Put and Remove, which both drop the key where the remote call succeeds.
unfoldable pub near_write : Bytes → Option Error → NearCache → Option Error × NearCache
near_write key (some err) nc = (some err, nc)
near_write key none nc = (none, near_drop key nc)

-- The store's part of Close.
unfoldable pub near_close : NearCache → NearCache
near_close nc = record nc { entries = lru_clear nc.entries }

-- The filter of a list of keys; `none` where Add panics.
unfoldable pub add_all : List Bytes → BloomFilter → Option BloomFilter
add_all [] bf = some bf
add_all (k ∷ ks) bf = elim (add k bf) [ none ↦ none | some bf' ↦ add_all ks bf' ]

unfoldable pub near_update_bloom_filter : NearCache → Option NearCache
near_update_bloom_filter nc =
    let ks = keys_of nc.entries in
    elim (add_all ks (new_bloom_filter nc.bloom_filter_bits)) [
      | none ↦ none
      | some bf ↦ some (record nc { filters = (ks, to_bit_set bf) ∷ nc.filters })
    ]

-- The next step of a job: the cache after it, and what is left of the job.
unfoldable pub run_job : Job → NearCache → Option (NearCache × List Job)
run_job update nc = elim (near_update_bloom_filter nc) [ none ↦ none | some nc' ↦ some (nc', []) ]
run_job update_dirty nc = elim (near_update_bloom_filter nc) [
  | none ↦ none
  | some nc' ↦ some (nc', reset_dirty ∷ [])
]
run_job reset_dirty nc = some (record nc { bloom_dirty = false }, [])
