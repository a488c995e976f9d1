-- ===== src/Hotrod/Lru/Runs.antt =====
-- hotrod/lru.go: any sequence of calls.
use go_client.Prelude.{
  ℕ, ◌-◌, ◌≤◌, ◌<◌, ◌≡◌, refl, List, [], ◌∷◌, Option, none, some, length, find, discard,
  bytes_discrete, arith, ap, sym, subst, ◌∙◌, Option-cases, inl, inr,
}
use go_client.Io.{Bytes}
use go_client.Hotrod.Lru.{
  LruStore, new_lru, lru_get, lru_put, evict_oldest, push_front, drop_element, lru_remove,
  lru_clear,
}
use go_client.Hotrod.Lru.Spec.{Recent, use_entry, without_last, put_entry}
use go_client.Hotrod.Lru.Invariant.{
  IsLinked, lru_get-IsLinked, lru_put-IsLinked, lru_remove-IsLinked, lru_clear-IsLinked,
  new_lru-IsLinked,
}
use go_client.Hotrod.Lru.Refinement.{view, view-lru_get, view-lru_put, view-lru_remove}
use Prim.Native.Nat.{max}

pub data Call : Type 0 where
  getting : Bytes → Call
  putting : Bytes → Bytes → Call
  removing : Bytes → Call
  clearing : Call

unfoldable pub call : Call → LruStore → Option Bytes × LruStore
call (getting k) l = lru_get k l
call (putting k v) l = (none, lru_put k v l)
call (removing k) l = (none, lru_remove k l)
call clearing l = (none, lru_clear l)

-- The same on the plain list, with its bound.
unfoldable pub call_spec : ℕ → Call → Recent → Option Bytes × Recent
call_spec bound (getting k) s = use_entry k s
call_spec bound (putting k v) s = (none, put_entry bound k v s)
call_spec bound (removing k) s = (none, discard bytes_discrete k s)
call_spec bound clearing s = (none, [])

-- The results of the calls, and the store that they leave.
unfoldable pub run : List Call → LruStore → List (Option Bytes) × LruStore
run [] l = ([], l)
run (c ∷ cs) l = let (out, l') = call c l in let (outs, l'') = run cs l' in (out ∷ outs, l'')

unfoldable pub run_spec : ℕ → List Call → Recent → List (Option Bytes) × Recent
run_spec bound [] s = ([], s)
run_spec bound (c ∷ cs) s =
    let (out, s') = call_spec bound c s in
    let (outs, s'') = run_spec bound cs s' in (out ∷ outs, s'')

pub call-IsLinked : (c : Call) (l : LruStore) → IsLinked l → IsLinked (call c l).1
unfolding call
call-IsLinked (getting k) l w = lru_get-IsLinked k l w
call-IsLinked (putting k v) l w = lru_put-IsLinked k v l w
call-IsLinked (removing k) l w = lru_remove-IsLinked k l w
call-IsLinked clearing l w = lru_clear-IsLinked l

pub max-call : (c : Call) (l : LruStore) → (call c l).1.max ≡ l.max
unfolding call lru_get lru_put evict_oldest push_front drop_element lru_remove lru_clear
max-call (getting k) l = ground arith
max-call (putting k v) l = ground arith
max-call (removing k) l = ground arith
max-call clearing l = refl

pub view-call :
    (c : Call) (l : LruStore)
    → IsLinked l
    → ((call c l).0, view (call c l).1) ≡ call_spec l.max c (view l)
unfolding call call_spec
view-call (getting k) l w = view-lru_get k l w
view-call (putting k v) l w = ap (λ (s : Recent). (none, s)) (view-lru_put k v l w)
view-call (removing k) l w = ap (λ (s : Recent). (none, s)) (view-lru_remove k l w)
view-call clearing l w = unfold view lru_clear in refl

run-view :
    (cs : List Call) (l : LruStore)
    → IsLinked l
    → ((run cs l).0, view (run cs l).1) ≡ run_spec l.max cs (view l)
unfolding run run_spec
run-view [] l w = refl
run-view (c ∷ cs) l w =
    let l' = (call c l).1 in
    let ih : ((run cs l').0, view (run cs l').1) ≡ run_spec l.max cs (view l') =
      subst (λ m. ((run cs l').0, view (run cs l').1) ≡ run_spec m cs (view l')) (max-call c l)
        (run-view cs l' (call-IsLinked c l w)) in
    ap (λ (p : List (Option Bytes) × Recent). ((call c l).0 ∷ p.0, p.1)) ih
    ∙ ap
        (λ (q : Option Bytes × Recent).
          (q.0 ∷ (run_spec l.max cs q.1).0, (run_spec l.max cs q.1).1))
        (view-call c l w)

length-without_last : (s : Recent) → length (without_last s) ≡ length s - 1
unfolding without_last
length-without_last [] = refl
length-without_last (e ∷ []) = omega arith
length-without_last (e ∷ f ∷ s) = omega (arith, length-without_last (f ∷ s))

length-discard : (k : Bytes) (s : Recent) → length (discard bytes_discrete k s) ≤ length s
unfolding discard
length-discard k [] = omega arith
length-discard k (e ∷ s) = ground (arith, length-discard k s)

length-discard_found :
    (k v : Bytes) (s : Recent)
    → find bytes_discrete k s ≡ some v
    → length (discard bytes_discrete k s) < length s
unfolding find discard
length-discard_found k v [] h = cc
length-discard_found k v (e ∷ s) h = ground (arith, length-discard k s, length-discard_found k v s)

-- Never more than the bound, or one where the bound is 0.
pub call_spec-bound :
    (bound : ℕ) (c : Call) (s : Recent)
    → length s ≤ max bound 1
    → length (call_spec bound c s).1 ≤ max bound 1
unfolding call_spec use_entry put_entry
call_spec-bound bound (getting k) s h = elim (Option-cases (find bytes_discrete k s)) [
  | inl absent ↦ ground arith
  | inr (v, found) ↦ ground (arith, length-discard_found k v s found)
]
call_spec-bound bound (putting k v) s h = elim (Option-cases (find bytes_discrete k s)) [
  | inl absent ↦ ground (arith, length-without_last s)
  | inr (w, found) ↦ ground (arith, length-discard_found k w s found)
]
call_spec-bound bound (removing k) s h = omega (arith, length-discard k s)
call_spec-bound bound clearing s h = omega arith

pub call-bound :
    (c : Call) (l : LruStore)
    → IsLinked l
    → length (view l) ≤ max l.max 1
    → length (view (call c l).1) ≤ max l.max 1
call-bound c l w h =
    subst (λ (p : Option Bytes × Recent). length p.1 ≤ max l.max 1) (sym (view-call c l w))
      (call_spec-bound l.max c (view l) h)

run_spec-bound :
    (bound : ℕ) (cs : List Call) (s : Recent)
    → length s ≤ max bound 1
    → length (run_spec bound cs s).1 ≤ max bound 1
unfolding run_spec
run_spec-bound bound [] s h = h
run_spec-bound bound (c ∷ cs) s h =
    run_spec-bound bound cs (call_spec bound c s).1 (call_spec-bound bound c s h)

-- After any calls on a new store, the results and the pairs, in their order of use, are those of the plain
-- list, and there are never more pairs than the maximum, or than one where the maximum is 0.
pub run-refines :
    (bound : ℕ) (cs : List Call)
    → (((run cs (new_lru bound)).0, view (run cs (new_lru bound)).1) ≡ run_spec bound cs [])
      × (length (view (run cs (new_lru bound)).1) ≤ max bound 1)
run-refines bound cs =
    let fresh = new_lru bound in
    let runs : ((run cs fresh).0, view (run cs fresh).1) ≡ run_spec bound cs [] =
      unfold new_lru view in run-view cs (new_lru bound) (new_lru-IsLinked bound) in
    (
      runs,
      subst (λ (p : List (Option Bytes) × Recent). length p.1 ≤ max bound 1) (sym runs)
          (run_spec-bound bound cs [] (omega arith)),
    )
