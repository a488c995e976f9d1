-- ===== src/Hotrod/Lru/Invariant.antt =====
-- hotrod/lru.go: the map, the list and the elements agree.
use go_client.Prelude.{
  ℕ, ◌<◌, ◌≡◌, refl, List, [], ◌∷◌, none, some, true, length, find, store, count, ℕ_discrete,
  bytes_discrete, find-store, find-discard, arith, sym, ap, subst, ◌∙◌, Option-cases, Bool-cases,
  inl, inr, leb,
}
use go_client.Io.{Bytes}
use go_client.Hotrod.Lru.{
  LruEntry, LruStore, new_lru, in_list, without, move_to_front, back, entry_at, lru_get,
  drop_element, evict_oldest, push_front, lru_put, lru_remove, lru_clear,
}
use mathlib.Core.Logic.{ite}

-- Every key in the map has its element in the list, every element in the list is the one of its key, and
-- new elements are new.
pub record IsLinked (l : LruStore) : Type 0 where
  pub listed :
      (k : Bytes) (el : ℕ)
      → find bytes_discrete k l.items ≡ some el
      → (count el l.eviction ≡ 1) × ((entry_at l.heap el).key ≡ k)
  pub mapped :
      (el : ℕ)
      → 0 < count el l.eviction
      → find bytes_discrete (entry_at l.heap el).key l.items ≡ some el
  pub fresh : (el : ℕ) → 0 < count el l.eviction → el < l.next_element

pub count-without :
    (i el : ℕ) (els : List ℕ) → count i (without el els) ≡ ite (ℕ_discrete el i) 0 (count i els)
unfolding count without
count-without i el [] = ground arith
count-without i el (e ∷ els) = ground (arith, count-without i el els)

pub in_list-count : (el : ℕ) (els : List ℕ) → 0 < count el els → in_list el els ≡ true
unfolding count in_list
in_list-count el [] h = absurd (omega arith)
in_list-count el (e ∷ els) h = ground (arith, in_list-count el els)

-- A move to the front of an element that is in the list once changes no count.
count-move_to_front :
    (i el : ℕ) (els : List ℕ) → count el els ≡ 1 → count i (move_to_front el els) ≡ count i els
unfolding count move_to_front
count-move_to_front i el els h = ground (arith, in_list-count el els, count-without i el els, h)

pub entry_at-store :
    (el : ℕ) (e : LruEntry) (heap : List (ℕ × LruEntry)) (i : ℕ)
    → entry_at (store ℕ_discrete el e heap) i ≡ ite (ℕ_discrete el i) e (entry_at heap i)
unfolding entry_at
entry_at-store el e heap i = ground (arith, find-store ℕ_discrete el i e heap)

-- A list of the same elements, and entries of the same keys.
IsLinked-same :
    (l l' : LruStore)
    → l'.items ≡ l.items
    → l'.next_element ≡ l.next_element
    → ((i : ℕ) → count i l'.eviction ≡ count i l.eviction)
    → ((i : ℕ) → (entry_at l'.heap i).key ≡ (entry_at l.heap i).key)
    → IsLinked l
    → IsLinked l'
IsLinked-same l l' items next counts keys w = record {
  listed = λ k el e.
      let (n, same) = w.listed k el (ap (find bytes_discrete k) (sym items) ∙ e) in
      (counts el ∙ n, keys el ∙ same);
  mapped = λ el h.
      ap (λ q. find bytes_discrete q l'.items) (keys el)
      ∙ (ap (find bytes_discrete (entry_at l.heap el).key) items
          ∙ w.mapped el (omega (arith, counts el)));
  fresh = λ el h. omega (arith, w.fresh el (omega (arith, counts el)), next);
}

pub lru_get-IsLinked : (k : Bytes) (l : LruStore) → IsLinked l → IsLinked (lru_get k l).1
unfolding lru_get
lru_get-IsLinked k l w = elim (Option-cases (find bytes_discrete k l.items)) [
  | inl absent ↦ rw (lru_get, absent) w
  | inr (el, found) ↦
      rw (lru_get, found)
        (IsLinked-same l (record l { eviction = move_to_front el l.eviction }) refl refl
          (λ i. count-move_to_front i el l.eviction (w.listed k el found).0) (λ i. refl) w)
]

pub drop_element-IsLinked :
    (el : ℕ) (l : LruStore) → 0 < count el l.eviction → IsLinked l → IsLinked (drop_element el l)
unfolding drop_element
drop_element-IsLinked el l h w = record {
  listed = λ q i e. ground (
    arith,
    find-discard bytes_discrete (entry_at l.heap el).key q l.items,
    w.listed q i,
    count-without i el l.eviction,
  );
  mapped = λ i c. ground (
    arith,
    find-discard bytes_discrete (entry_at l.heap el).key (entry_at l.heap i).key l.items,
    w.mapped i,
    w.mapped el,
    count-without i el l.eviction,
  );
  fresh = λ i c. ground (arith, count-without i el l.eviction, w.fresh i);
}

pub back-count : (els : List ℕ) (el : ℕ) → back els ≡ some el → 0 < count el els
unfolding back count
back-count [] el h = cc
back-count (e ∷ []) el h = ground arith
back-count (e ∷ f ∷ els) el h = ground (arith, back-count (f ∷ els) el)

pub evict_oldest-IsLinked : (l : LruStore) → IsLinked l → IsLinked (evict_oldest l)
unfolding evict_oldest
evict_oldest-IsLinked l w = elim (Option-cases (back l.eviction)) [
  | inl empty ↦ rw (evict_oldest, empty) w
  | inr (el, last) ↦
      rw (evict_oldest, last) (drop_element-IsLinked el l (back-count l.eviction el last) w)
]

pub push_front-IsLinked :
    (k v : Bytes) (l : LruStore)
    → find bytes_discrete k l.items ≡ none
    → IsLinked l
    → IsLinked (push_front k v l)
unfolding push_front count
push_front-IsLinked k v l absent w =
    let new : count l.next_element l.eviction ≡ 0 = ground (arith, w.fresh l.next_element) in
    record {
      listed = λ q i e. ground (
        arith,
        find-store bytes_discrete k q l.next_element l.items,
        w.listed q i,
        entry_at-store l.next_element (record { key = k; value = v }) l.heap i,
        new,
      );
      mapped = λ i c. ground (
        arith,
        find-store bytes_discrete k k l.next_element l.items,
        find-store bytes_discrete k (entry_at l.heap i).key l.next_element l.items,
        w.mapped i,
        entry_at-store l.next_element (record { key = k; value = v }) l.heap i,
        new,
        absent,
      );
      fresh = λ i c. ground (arith, w.fresh i);
    }

-- Eviction adds no key.
pub evict_oldest-absent :
    (k : Bytes) (l : LruStore)
    → find bytes_discrete k l.items ≡ none
    → find bytes_discrete k (evict_oldest l).items ≡ none
unfolding evict_oldest drop_element
evict_oldest-absent k l absent = elim (Option-cases (back l.eviction)) [
  | inl empty ↦ rw (evict_oldest, empty) absent
  | inr (el, last) ↦
      rw (evict_oldest, last)
        (ground (arith, find-discard bytes_discrete (entry_at l.heap el).key k l.items, absent))
]

same_keys :
    (el : ℕ) (v : Bytes) (heap : List (ℕ × LruEntry)) (i : ℕ)
    → (entry_at (store ℕ_discrete el (record (entry_at heap el) { value = v }) heap) i).key
      ≡ (entry_at heap i).key
same_keys el v heap i =
    ground (arith, entry_at-store el (record (entry_at heap el) { value = v }) heap i)

pub lru_put-IsLinked : (k v : Bytes) (l : LruStore) → IsLinked l → IsLinked (lru_put k v l)
unfolding lru_put
lru_put-IsLinked k v l w = elim (Option-cases (find bytes_discrete k l.items)) [
  | inl absent ↦
      rw (lru_put, absent)
        (elim (Bool-cases (leb l.max (length l.eviction))) [
          | inl full ↦ rw full (
              push_front-IsLinked k v (evict_oldest l) (evict_oldest-absent k l absent)
                (evict_oldest-IsLinked l w))
          | inr room ↦ rw room (push_front-IsLinked k v l absent w)
        ])
  | inr (el, found) ↦
      rw (lru_put, found)
        (IsLinked-same l _ refl refl
          (λ i. count-move_to_front i el l.eviction (w.listed k el found).0)
          (λ i. same_keys el v l.heap i) w)
]

-- Remove drops the element of the key.
pub lru_remove-eq-drop_element :
    (k : Bytes) (l : LruStore) (el : ℕ)
    → IsLinked l
    → find bytes_discrete k l.items ≡ some el
    → lru_remove k l ≡ drop_element el l
unfolding lru_remove drop_element
lru_remove-eq-drop_element k l el w found = rw (lru_remove, found, (w.listed k el found).1) refl

pub lru_remove-IsLinked : (k : Bytes) (l : LruStore) → IsLinked l → IsLinked (lru_remove k l)
unfolding lru_remove
lru_remove-IsLinked k l w = elim (Option-cases (find bytes_discrete k l.items)) [
  | inl absent ↦ rw (lru_remove, absent) w
  | inr (el, found) ↦
      subst IsLinked (sym (lru_remove-eq-drop_element k l el w found))
        (drop_element-IsLinked el l (omega (arith, (w.listed k el found).0)) w)
]

pub lru_clear-IsLinked : (l : LruStore) → IsLinked (lru_clear l)
unfolding lru_clear count find
lru_clear-IsLinked l = record {
  listed = λ k el e. cc;
  mapped = λ el h. absurd (omega arith);
  fresh = λ el h. absurd (omega arith);
}

pub new_lru-IsLinked : (max : ℕ) → IsLinked (new_lru max)
unfolding new_lru count find
new_lru-IsLinked max = record {
  listed = λ k el e. cc;
  mapped = λ el h. absurd (omega arith);
  fresh = λ el h. absurd (omega arith);
}
