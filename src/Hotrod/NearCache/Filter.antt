-- ===== src/Hotrod/NearCache/Filter.antt =====
-- hotrod/near_cache.go with internal/hash/bloom.go: what is in the filter that the server is sent.
use go_client.Prelude.{
  ℕ, zero, suc, ◌+◌, ◌/◌, ◌<◌, ◌^◌, ◌≡◌, ◌≢◌, refl, List, [], ◌∷◌, some, Bool, true, length,
  replicate, All, arith, sym, ap, ◌∙◌,
}
use go_client.Io.{Bytes}
use go_client.Hash.Murmur3.{hash_with_seed}
use go_client.Hash.Bloom.{BloomFilter, new_bloom_filter, add, to_bit_set, bloom_seeds, has_seeds}
use go_client.Hash.Bloom.Members.{IsFilter, add_seeds-adds, has_seeds-Keeps}
use go_client.Hash.Bloom.BitSet.{to_bit_set-has_bit}
use go_client.Hotrod.Lru.{keys_of}
use go_client.Hotrod.NearCache.{NearCache, add_all, near_update_bloom_filter}

-- The keys that Add takes without a panic.
unfoldable pub IsHashable : Bytes → Type 0
IsHashable key = All (λ seed. hash_with_seed key seed ≢ 2 ^ 31) bloom_seeds

length-replicate : (n v : ℕ) → length (replicate n v) ≡ n
length-replicate zero v = refl
length-replicate (suc n) v = ap suc (length-replicate n v)

new_bloom_filter-IsFilter : (n : ℕ) → 0 < n → IsFilter (new_bloom_filter n)
unfolding new_bloom_filter
new_bloom_filter-IsFilter n h = (h, omega (arith, length-replicate ((n + 7) / 8) 0))

-- Add, with the number of bits, which it keeps.
add-adds :
    (k : Bytes) (bf : BloomFilter)
    → IsFilter bf
    → IsHashable k
    → (bf' : BloomFilter) × ((add k bf ≡ some bf')
        × (IsFilter bf'
            × ((bf'.bits_to_use ≡ bf.bits_to_use)
                × ((has_seeds k bloom_seeds bf' ≡ true)
                    × ((other : Bytes)
                        → has_seeds other bloom_seeds bf ≡ true
                        → has_seeds other bloom_seeds bf' ≡ true)))))
unfolding add IsHashable
add-adds k bf good ok =
    let (bf', added, good', keeps, in_it) = add_seeds-adds k bloom_seeds bf good ok in
    (
      bf',
      (
        added,
        (good', (keeps.0, (in_it, λ other e. has_seeds-Keeps other bloom_seeds bf bf' keeps e))),
      ),
    )

add_all-has_seeds :
    (ks : List Bytes) (bf : BloomFilter)
    → IsFilter bf
    → All IsHashable ks
    → (bf' : BloomFilter) × ((add_all ks bf ≡ some bf')
        × ((bf'.bits_to_use ≡ bf.bits_to_use)
            × (All (λ k. has_seeds k bloom_seeds bf' ≡ true) ks
                × ((other : Bytes)
                    → has_seeds other bloom_seeds bf ≡ true
                    → has_seeds other bloom_seeds bf' ≡ true))))
unfolding add_all
add_all-has_seeds [] bf good h = (bf, (refl, (refl, (tt, λ other e. e))))
add_all-has_seeds (k ∷ ks) bf good (hk, h) =
    let (bf1, (added, (good1, (same1, (in_it, keeps1))))) = add-adds k bf good hk in
    let (bf2, (added2, (same2, (in_all, keeps2)))) = add_all-has_seeds ks bf1 good1 h in
    (
      bf2,
      (
        rw (add_all, added) added2,
        (same2 ∙ same1, ((keeps2 k in_it, in_all), λ other e. keeps2 other (keeps1 other e))),
      ),
    )

-- What the server finds of a key in the bits that it was sent, with the number of bits that it was told.
abbrev pub is_in_filter : ℕ → Bytes → Bytes → Bool
is_in_filter bits_to_use bits key =
    has_seeds key bloom_seeds (record { bits_to_use = bits_to_use; bits = bits })

has_seeds-sent :
    (key : Bytes) (bf : BloomFilter) (n : ℕ)
    → bf.bits_to_use ≡ n
    → has_seeds key bloom_seeds bf ≡ true
    → is_in_filter n (to_bit_set bf) key ≡ true
has_seeds-sent key bf n same e =
    has_seeds-Keeps key bloom_seeds bf (record { bits_to_use = n; bits = to_bit_set bf })
      (sym same, λ j set. (to_bit_set-has_bit bf).0 j ∙ set) e

All-weaken :
    {A : Type 0} (P Q : A → Type 0) (xs : List A) → ((x : A) → P x → Q x) → All P xs → All Q xs
All-weaken P Q [] f h = tt
All-weaken P Q (x ∷ xs) f (p, h) = (f x p, All-weaken P Q xs f h)

-- For at least one entry, and where no key of the store has a hash of -2^31: updateBloomFilter does not
-- panic, and in the bits that it sends the server finds every key of the store, by the number of bits that
-- the near cache was registered with.
pub near_update_bloom_filter-has_keys :
    (nc : NearCache)
    → 0 < nc.bloom_filter_bits
    → All IsHashable (keys_of nc.entries)
    → (bits : Bytes) × ((near_update_bloom_filter nc
          ≡ some (record nc { filters = (keys_of nc.entries, bits) ∷ nc.filters }))
        × All (λ k. is_in_filter nc.bloom_filter_bits bits k ≡ true) (keys_of nc.entries))
unfolding near_update_bloom_filter
near_update_bloom_filter-has_keys nc positive h =
    let (bf, (added, (same, (in_all, keeps)))) =
      add_all-has_seeds (keys_of nc.entries) (new_bloom_filter nc.bloom_filter_bits)
        (new_bloom_filter-IsFilter nc.bloom_filter_bits positive) h in
    (
      to_bit_set bf,
      (
        rw (near_update_bloom_filter, added) refl,
        All-weaken _ _ (keys_of nc.entries)
            (λ k.
              has_seeds-sent k bf nc.bloom_filter_bits (same ∙ (unfold new_bloom_filter in refl)))
            in_all,
      ),
    )
