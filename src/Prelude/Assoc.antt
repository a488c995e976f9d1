-- ===== src/Prelude/Assoc.antt =====
-- Go's maps as association lists: a key is stored once, at its first insertion.
use Prim.Native.Nat.{ℕ, suc, ◌<◌}
use mathlib.Core.Path.{◌≡◌, refl, sym, subst}
use mathlib.Core.Logic.{ite, ◌≢◌}
use mathlib.Core.List.{List, [], ◌∷◌, map}
use go_client.Prelude.Lists.{All}
use mathlib.Core.Option.{Option, none, some}
use native.Mathlib.Decide.{ℕ_discrete}
use native.Mathlib.Omega.{arith}

unfoldable pub bytes_discrete : Discrete (List ℕ)
bytes_discrete = hlevel ℕ_discrete

module _ {K V : Type 0} where
  abbrev pub keys : List (K × V) → List K
  keys = map (λ e. e.0)

module _ {K V : Type 0} (dec : Discrete K) where
  -- `v, ok := m[k]`
  unfoldable pub find : K → List (K × V) → Option V
  find k [] = none
  find k ((j, v) ∷ m) = ite (dec j k) (some v) (find k m)

  -- `m[k] = v`
  unfoldable pub store : K → V → List (K × V) → List (K × V)
  store k v [] = (k, v) ∷ []
  store k v ((j, w) ∷ m) = ite (dec j k) ((k, v) ∷ m) ((j, w) ∷ store k v m)

  -- `delete(m, k)`
  unfoldable pub discard : K → List (K × V) → List (K × V)
  discard k [] = []
  discard k ((j, w) ∷ m) = ite (dec j k) (discard k m) ((j, w) ∷ discard k m)

  pub find-store :
      (k q : K) (v : V) (m : List (K × V))
      → find q (store k v m) ≡ ite (dec k q) (some v) (find q m)
  unfolding find store
  find-store k q v [] = refl
  find-store k q v ((j, w) ∷ m) = ground (arith, find-store k q v m)

  pub find-discard :
      (k q : K) (m : List (K × V)) → find q (discard k m) ≡ ite (dec k q) none (find q m)
  unfolding find discard
  find-discard k q [] = ground arith
  find-discard k q ((j, w) ∷ m) = ground (arith, find-discard k q m)

  pub discard-absent : (k : K) (m : List (K × V)) → find k m ≡ none → discard k m ≡ m
  unfolding find discard
  discard-absent k [] h = refl
  discard-absent k ((j, w) ∷ m) h = ground (arith, discard-absent k m)

  -- The first pair of a map has the key, or not.
  pub store_here :
      (k j : K) (v w : V) (m : List (K × V)) → j ≡ k → store k v ((j, w) ∷ m) ≡ (k, v) ∷ m
  unfolding store
  store_here k j v w m same = ground arith

  pub store_there :
      (k j : K) (v w : V) (m : List (K × V)) → j ≢ k → store k v ((j, w) ∷ m) ≡ (j, w) ∷ store k v m
  unfolding store
  store_there k j v w m other = ground arith

  -- What holds of every pair, of the one that is added, and of the one that is found.
  pub All-store :
      (P : K × V → Type 0) (k : K) (v : V) (m : List (K × V))
      → P (k, v)
      → All P m
      → All P (store k v m)
  All-store P k v [] p h = unfold store in (p, tt)
  All-store P k v ((j, w) ∷ m) p (q, h) = elim (dec j k) [
    | yes same ↦ subst (All P) (sym (store_here k j v w m same)) (p, h)
    | no other ↦ subst (All P) (sym (store_there k j v w m other)) (q, All-store P k v m p h)
  ]

  pub All-find :
      (P : K × V → Type 0) (k : K) (v : V) (m : List (K × V))
      → All P m
      → find k m ≡ some v
      → P (k, v)
  unfolding find
  All-find P k v [] h found = cc
  All-find P k v ((j, w) ∷ m) (q, h) found = elim (dec j k) [
    | yes same ↦
        (let value : w ≡ v = ground arith in
          let pair : Path (K × V) (j, w) (k, v) = cc in subst P pair q)
    | no other ↦ All-find P k v m h (ground arith)
  ]

-- How often a number stands in a list.
unfoldable pub count : ℕ → List ℕ → ℕ
count i [] = 0
count i (x ∷ xs) = ite (ℕ_discrete x i) (suc (count i xs)) (count i xs)

module _ {V : Type 0} where
  pub count-discard :
      (i k : ℕ) (m : List (ℕ × V))
      → count i (keys (discard ℕ_discrete k m)) ≡ ite (ℕ_discrete k i) 0 (count i (keys m))
  unfolding count discard
  count-discard i k [] = ground arith
  count-discard i k ((j, w) ∷ m) = ground (arith, count-discard i k m)

  pub count-store :
      (i k : ℕ) (v : V) (m : List (ℕ × V))
      → find ℕ_discrete k m ≡ none
      → count i (keys (store ℕ_discrete k v m))
        ≡ ite (ℕ_discrete k i) (suc (count i (keys m))) (count i (keys m))
  unfolding count store find
  count-store i k v [] h = refl
  count-store i k v ((j, w) ∷ m) h = ground (arith, count-store i k v m)

  pub count-find :
      (k : ℕ) (v : V) (m : List (ℕ × V)) → find ℕ_discrete k m ≡ some v → 0 < count k (keys m)
  unfolding count find
  count-find k v [] h = cc
  count-find k v ((j, w) ∷ m) h = ground (arith, count-find k v m)

  pub find-absent : (k : ℕ) (m : List (ℕ × V)) → count k (keys m) ≡ 0 → find ℕ_discrete k m ≡ none
  unfolding count find
  find-absent k [] h = refl
  find-absent k ((j, w) ∷ m) h = ground (arith, find-absent k m)
