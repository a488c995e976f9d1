-- ===== src/Hotrod/Lru.antt =====
-- hotrod/lru.go: the bounded store of a near cache. A list.Element is a number, the list of package
-- container/list the numbers of its elements from front to back, and `heap` has the entry that each element
-- points to. The lock is left out: each method is one step. `removed` is the log of the calls of onRemove,
-- latest first; `max` is not negative.
pub mod Spec
pub mod Invariant
pub mod Pairs
pub mod Refinement
pub mod Runs
use go_client.Prelude.{
  ℕ, zero, suc, ◌+◌, List, [], ◌∷◌, Option, none, some, Bool, true, false, ◌==◌, leb, if◌then◌else◌,
  length, find, store, discard, keys, ℕ_discrete, bytes_discrete,
}
use go_client.Io.{Bytes}

pub record LruEntry : Type 0 where
  pub key : Bytes
  pub value : Bytes

pub record LruStore : Type 0 where
  pub max : ℕ
  pub items : List (Bytes × ℕ)
  pub eviction : List ℕ
  pub heap : List (ℕ × LruEntry)
  pub next_element : ℕ
  pub removed : List Bytes

unfoldable pub new_lru : ℕ → LruStore
new_lru max = record {
  max = max;
  items = [];
  eviction = [];
  heap = [];
  next_element = 0;
  removed = [];
}

-- Whether an element is in the list.
unfoldable pub in_list : ℕ → List ℕ → Bool
in_list el [] = false
in_list el (e ∷ els) = if e == el then true else in_list el els

-- `eviction.Remove(el)`: an element stands in a list at most once.
unfoldable pub without : ℕ → List ℕ → List ℕ
without el [] = []
without el (e ∷ els) = if e == el then without el els else e ∷ without el els

-- `eviction.MoveToFront(el)`, which does nothing for an element of no list.
unfoldable pub move_to_front : ℕ → List ℕ → List ℕ
move_to_front el els = if in_list el els then el ∷ without el els else els

-- `eviction.Back()`
unfoldable pub back : List ℕ → Option ℕ
back [] = none
back (e ∷ []) = some e
back (e ∷ f ∷ els) = back (f ∷ els)

-- `el.Value.(*lruEntry)`; every element has its entry from PushFront on.
unfoldable pub entry_at : List (ℕ × LruEntry) → ℕ → LruEntry
entry_at heap el = elim (find ℕ_discrete el heap) [
  | none ↦ record { key = []; value = [] }
  | some e ↦ e
]

unfoldable pub lru_get : Bytes → LruStore → Option Bytes × LruStore
lru_get k l = elim (find bytes_discrete k l.items) [
  | none ↦ (none, l)
  | some el ↦
      let l' = record l { eviction = move_to_front el l.eviction } in
      (some (entry_at l'.heap el).value, l')
]

unfoldable pub drop_element : ℕ → LruStore → LruStore
drop_element el l =
    let k = (entry_at l.heap el).key in
    record l {
      eviction = without el l.eviction;
      items = discard bytes_discrete k l.items;
      removed = k ∷ l.removed;
    }

unfoldable pub evict_oldest : LruStore → LruStore
evict_oldest l = elim (back l.eviction) [ none ↦ l | some el ↦ drop_element el l ]

-- The rest of Put for a new key: a new element at the front.
unfoldable pub push_front : Bytes → Bytes → LruStore → LruStore
push_front k v l = record l {
  eviction = l.next_element ∷ l.eviction;
  items = store bytes_discrete k l.next_element l.items;
  heap = store ℕ_discrete l.next_element (record { key = k; value = v }) l.heap;
  next_element = suc l.next_element;
}

unfoldable pub lru_put : Bytes → Bytes → LruStore → LruStore
lru_put k v l = elim (find bytes_discrete k l.items) [
  | some el ↦ record l {
    heap = store ℕ_discrete el (record (entry_at l.heap el) { value = v }) l.heap;
    eviction = move_to_front el l.eviction;
  }
  | none ↦ push_front k v (if leb l.max (length l.eviction) then evict_oldest l else l)
]

unfoldable pub lru_remove : Bytes → LruStore → LruStore
lru_remove k l = elim (find bytes_discrete k l.items) [
  | none ↦ l
  | some el ↦ record l {
    eviction = without el l.eviction;
    items = discard bytes_discrete k l.items;
    removed = k ∷ l.removed;
  }
]

unfoldable pub lru_clear : LruStore → LruStore
lru_clear l = record l { items = []; eviction = [] }

unfoldable pub len : LruStore → ℕ
len l = length l.items

-- Keys, in no particular order.
unfoldable pub keys_of : LruStore → List Bytes
keys_of l = keys l.items
