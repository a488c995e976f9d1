-- ===== src/Hotrod/Lru/Refinement.antt =====
-- hotrod/lru.go against a plain list of pairs.
use go_client.Prelude.{
  ℕ, ◌<◌, ◌≡◌, ◌≢◌, refl, List, [], ◌∷◌, map, none, some, leb, length, length-map, find, store,
  discard, count, ℕ_discrete, bytes_discrete, discard-absent, arith, sym, ap, ◌∙◌, Option-cases,
  Bool-cases, inl, inr,
}
use go_client.Io.{Bytes}
use go_client.Hotrod.Lru.{
  LruStore, without, move_to_front, back, entry_at, lru_get, drop_element, evict_oldest, push_front,
  lru_put, lru_remove,
}
use go_client.Hotrod.Lru.Invariant.{
  IsLinked, count-without, in_list-count, back-count, evict_oldest-IsLinked, entry_at-store,
  lru_remove-eq-drop_element,
}
use go_client.Hotrod.Lru.Spec.{Recent, use_entry, without_last, put_entry}
use go_client.Hotrod.Lru.Pairs.{
  pair_at, OnlyHas, find-pairs, find-pairs_none, discard-pairs, pairs-store, without_last-pairs,
}

-- The pairs of the store, from front to back.
unfoldable pub view : LruStore → Recent
view l = map (pair_at l.heap) l.eviction

module _ (k : Bytes) (l : LruStore) (w : IsLinked l) where
  only_key : (el : ℕ) → find bytes_discrete k l.items ≡ some el → OnlyHas l.heap k el l.eviction
  only_key el found i c same =
      let mapped = ap (λ q. find bytes_discrete q l.items) (sym same) ∙ w.mapped i c in cc

  no_key :
      find bytes_discrete k l.items ≡ none
      → (i : ℕ) → 0 < count i l.eviction
      → (entry_at l.heap i).key ≢ k
  no_key absent i c same =
      let mapped = ap (λ q. find bytes_discrete q l.items) (sym same) ∙ w.mapped i c in cc

  find-view-none : find bytes_discrete k l.items ≡ none → find bytes_discrete k (view l) ≡ none
  unfolding view
  find-view-none absent = find-pairs_none l.heap k l.eviction (no_key absent)

  find-view :
      (el : ℕ)
      → find bytes_discrete k l.items ≡ some el
      → find bytes_discrete k (view l) ≡ some (entry_at l.heap el).value
  unfolding view
  find-view el found =
      let (one, same) = w.listed k el found in
      find-pairs l.heap k el l.eviction (only_key el found) same (omega arith)

  discard-view :
      (el : ℕ)
      → find bytes_discrete k l.items ≡ some el
      → discard bytes_discrete k (view l) ≡ map (pair_at l.heap) (without el l.eviction)
  unfolding view
  discard-view el found =
      discard-pairs l.heap k el l.eviction (only_key el found) (w.listed k el found).1

  moved_to_front :
      (el : ℕ)
      → find bytes_discrete k l.items ≡ some el
      → move_to_front el l.eviction ≡ el ∷ without el l.eviction
  unfolding move_to_front
  moved_to_front el found =
      rw (in_list-count el l.eviction (omega (arith, (w.listed k el found).0))) refl

  view-moved :
      (el : ℕ)
      → find bytes_discrete k l.items ≡ some el
      → map (pair_at l.heap) (move_to_front el l.eviction)
        ≡ (k, (entry_at l.heap el).value) ∷ discard bytes_discrete k (view l)
  view-moved el found =
      let (one, same) = w.listed k el found in
      rw (moved_to_front el found, discard-view el found, same) refl

-- The store after Get found an element.
view-move_to_front :
    (k : Bytes) (l : LruStore) (el : ℕ)
    → IsLinked l
    → find bytes_discrete k l.items ≡ some el
    → view (record l { eviction = move_to_front el l.eviction })
      ≡ (k, (entry_at l.heap el).value) ∷ discard bytes_discrete k (view l)
view-move_to_front k l el w found = unfold view in view-moved k l w el found

get_found :
    (k : Bytes) (l : LruStore) (el : ℕ)
    → find bytes_discrete k l.items ≡ some el
    → lru_get k l
      ≡ (some (entry_at l.heap el).value, record l { eviction = move_to_front el l.eviction })
unfolding lru_get
get_found k l el found = rw (lru_get, found) refl

use_entry_found :
    (k v : Bytes) (s : Recent)
    → find bytes_discrete k s ≡ some v
    → use_entry k s ≡ (some v, (k, v) ∷ discard bytes_discrete k s)
unfolding use_entry
use_entry_found k v s found = rw (use_entry, found) refl

-- Get returns and moves what the plain list does.
pub view-lru_get :
    (k : Bytes) (l : LruStore)
    → IsLinked l
    → ((lru_get k l).0, view (lru_get k l).1) ≡ use_entry k (view l)
unfolding lru_get use_entry
view-lru_get k l w = elim (Option-cases (find bytes_discrete k l.items)) [
  | inl absent ↦ rw (lru_get, absent, use_entry, find-view-none k l w absent) refl
  | inr (el, found) ↦
      rw (get_found k l el found, use_entry_found k _ (view l) (find-view k l w el found))
        (ap (λ s. (some (entry_at l.heap el).value, s)) (view-move_to_front k l el w found))
]

view-drop_element :
    (k : Bytes) (l : LruStore) (el : ℕ)
    → IsLinked l
    → find bytes_discrete k l.items ≡ some el
    → view (drop_element el l) ≡ discard bytes_discrete k (view l)
unfolding drop_element
view-drop_element k l el w found = unfold view in sym (discard-view k l w el found)

pub view-lru_remove :
    (k : Bytes) (l : LruStore)
    → IsLinked l
    → view (lru_remove k l) ≡ discard bytes_discrete k (view l)
unfolding lru_remove
view-lru_remove k l w = elim (Option-cases (find bytes_discrete k l.items)) [
  | inl absent ↦
      rw (lru_remove, absent)
        (sym (discard-absent bytes_discrete k (view l) (find-view-none k l w absent)))
  | inr (el, found) ↦
      ap view (lru_remove-eq-drop_element k l el w found) ∙ view-drop_element k l el w found
]

back-none : (els : List ℕ) → back els ≡ none → els ≡ []
unfolding back
back-none [] h = refl
back-none (e ∷ []) h = cc
back-none (e ∷ f ∷ els) h = (let tail = back-none (f ∷ els) h in cc)

view-evict_oldest : (l : LruStore) → IsLinked l → view (evict_oldest l) ≡ without_last (view l)
unfolding view drop_element evict_oldest
view-evict_oldest l w = elim (Option-cases (back l.eviction)) [
  | inl empty ↦ rw (evict_oldest, empty, back-none l.eviction empty) (unfold without_last in refl)
  | inr (el, last) ↦
      let mapped = w.mapped el (back-count l.eviction el last) in
      rw (evict_oldest, last)
        (sym (without_last-pairs l.heap l.eviction el last (w.listed _ el mapped).0))
]

view-push_front :
    (k v : Bytes) (l : LruStore) → IsLinked l → view (push_front k v l) ≡ (k, v) ∷ view l
unfolding view push_front
view-push_front k v l w =
    let new : count l.next_element l.eviction ≡ 0 = ground (arith, w.fresh l.next_element) in
    ground (
      arith,
      entry_at-store l.next_element (record { key = k; value = v }) l.heap l.next_element,
      pairs-store l.heap l.next_element (record { key = k; value = v }) l.eviction new,
    )

length-view : (l : LruStore) → length (view l) ≡ length l.eviction
unfolding view
length-view l = length-map (pair_at l.heap) l.eviction

-- The new value of a key that the store has, in front.
view-replaced :
    (k v : Bytes) (l : LruStore) (el : ℕ)
    → IsLinked l
    → find bytes_discrete k l.items ≡ some el
    → map
        (pair_at (store ℕ_discrete el (record (entry_at l.heap el) { value = v }) l.heap))
        (move_to_front el l.eviction)
      ≡ (k, v) ∷ discard bytes_discrete k (view l)
view-replaced k v l el w found =
    let (one, same) = w.listed k el found in
    let e = record (entry_at l.heap el) { value = v } in
    let gone : count el (without el l.eviction) ≡ 0 =
      ground (arith, count-without el el l.eviction) in
    rw (moved_to_front k l w el found, discard-view k l w el found)
      (ground (
        arith,
        entry_at-store el e l.heap el,
        pairs-store l.heap el e (without el l.eviction) gone,
      ))

-- Put replaces, evicts and adds as on the plain list.
pub view-lru_put :
    (k v : Bytes) (l : LruStore) → IsLinked l → view (lru_put k v l) ≡ put_entry l.max k v (view l)
unfolding lru_put put_entry
view-lru_put k v l w = elim (Option-cases (find bytes_discrete k l.items)) [
  | inl absent ↦
      rw (lru_put, absent, put_entry, find-view-none k l w absent, length-view l)
        (elim (Bool-cases (leb l.max (length l.eviction))) [
          | inl full ↦ rw full (
              view-push_front k v (evict_oldest l) (evict_oldest-IsLinked l w)
              ∙ ap (λ s. (k, v) ∷ s) (view-evict_oldest l w))
          | inr room ↦ rw room (view-push_front k v l w)
        ])
  | inr (el, found) ↦
      rw (lru_put, found, put_entry, find-view k l w el found)
        (unfold view in view-replaced k v l el w found)
]
