-- ===== src/Hotrod/Lru/Pairs.antt =====
-- hotrod/lru.go: the pairs of a list of elements.
use go_client.Prelude.{
  ℕ, ◌<◌, ◌≡◌, ◌≢◌, refl, List, [], ◌∷◌, map, none, some, find, store, discard, count, ℕ_discrete,
  bytes_discrete, arith,
}
use go_client.Io.{Bytes}
use go_client.Hotrod.Lru.{LruEntry, without, back, entry_at}
use go_client.Hotrod.Lru.Invariant.{back-count, entry_at-store}
use go_client.Hotrod.Lru.Spec.{without_last}

abbrev pub pair_at : List (ℕ × LruEntry) → ℕ → Bytes × Bytes
pair_at heap el = ((entry_at heap el).key, (entry_at heap el).value)

-- Of these elements only `el` has the key.
abbrev pub OnlyHas : List (ℕ × LruEntry) → Bytes → ℕ → List ℕ → Type 0
OnlyHas heap k el els = (i : ℕ) → 0 < count i els → (entry_at heap i).key ≡ k → i ≡ el

module _ (heap : List (ℕ × LruEntry)) (k : Bytes) where
  pub find-pairs :
      (el : ℕ) (els : List ℕ)
      → OnlyHas heap k el els
      → (entry_at heap el).key ≡ k
      → 0 < count el els
      → find bytes_discrete k (map (pair_at heap) els) ≡ some (entry_at heap el).value
  unfolding find count
  find-pairs el [] only same h = absurd (omega arith)
  find-pairs el (e ∷ els) only same h =
      ground (arith, only e, find-pairs el els (λ i c. only i (ground arith)) same)

  pub find-pairs_none :
      (els : List ℕ)
      → ((i : ℕ) → 0 < count i els → (entry_at heap i).key ≢ k)
      → find bytes_discrete k (map (pair_at heap) els) ≡ none
  unfolding find count
  find-pairs_none [] other = refl
  find-pairs_none (e ∷ els) other =
      ground (arith, other e, find-pairs_none els (λ i c. other i (ground arith)))

  pub discard-pairs :
      (el : ℕ) (els : List ℕ)
      → OnlyHas heap k el els
      → (entry_at heap el).key ≡ k
      → discard bytes_discrete k (map (pair_at heap) els) ≡ map (pair_at heap) (without el els)
  unfolding discard without count
  discard-pairs el [] only same = refl
  discard-pairs el (e ∷ els) only same =
      ground (arith, only e, discard-pairs el els (λ i c. only i (ground arith)) same)

-- A change of an element that is not listed.
pub pairs-store :
    (heap : List (ℕ × LruEntry)) (el : ℕ) (e : LruEntry) (els : List ℕ)
    → count el els ≡ 0
    → map (pair_at (store ℕ_discrete el e heap)) els ≡ map (pair_at heap) els
unfolding count
pairs-store heap el e [] h = refl
pairs-store heap el e (i ∷ els) h =
    ground (arith, entry_at-store el e heap i, pairs-store heap el e els)

pub without_last-pairs :
    (heap : List (ℕ × LruEntry)) (els : List ℕ) (el : ℕ)
    → back els ≡ some el
    → count el els ≡ 1
    → without_last (map (pair_at heap) els) ≡ map (pair_at heap) (without el els)
unfolding without_last without back count
without_last-pairs heap [] el h n = refl
without_last-pairs heap (e ∷ []) el h n = ground arith
without_last-pairs heap (e ∷ f ∷ els) el h n =
    ground (arith, back-count (f ∷ els) el h, without_last-pairs heap (f ∷ els) el h)
