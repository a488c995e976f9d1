-- ===== src/Hotrod/Bulk/Groups.antt =====
-- hotrod/hotrod.go: the groups of PutAll and GetAll.
use go_client.Prelude.{
  ◌≡◌, ◌≢◌, refl, sym, ap, ◌∙◌, subst, List, [], ◌∷◌, ◌++◌, append_assoc, append-nil, Option, none,
  some, All, All-store, All-find, find, store, store_here, store_there, bytes_discrete,
  Option-cases, inl, inr, arith,
}
use go_client.Io.{Bytes}
use go_client.Hash.ConsistentHash.{ConsistentHash}
use go_client.Hotrod.Bulk.{owner, or_none, add_to, group_by}
use mathlib.Core.List.{Perm, perm_middle, perm-append_left_iff}
use mathlib.Core.List.Perm

module _ {E : Type 0} where
  -- The elements of all groups.
  unfoldable pub in_groups : List (Bytes × List E) → List E
  in_groups [] = []
  in_groups ((addr, es) ∷ groups) = es ++ in_groups groups

  found_here :
      (addr b : Bytes) (es : List E) (groups : List (Bytes × List E))
      → b ≡ addr
      → find bytes_discrete addr ((b, es) ∷ groups) ≡ some es
  unfolding find
  found_here addr b es groups same = ground arith

  found_there :
      (addr b : Bytes) (es : List E) (groups : List (Bytes × List E))
      → b ≢ addr
      → find bytes_discrete addr ((b, es) ∷ groups) ≡ find bytes_discrete addr groups
  unfolding find
  found_there addr b es groups other = ground arith

  -- A step adds the element to one group and leaves the others.
  add_to-perm :
      (addr : Bytes) (e : E) (groups : List (Bytes × List E))
      → Perm (in_groups (add_to addr e groups)) (e ∷ in_groups groups)
  unfolding add_to in_groups
  add_to-perm addr e [] = unfold find store in Perm.refl (e ∷ [])
  add_to-perm addr e ((b, es) ∷ groups) = elim (bytes_discrete b addr) [
    | yes same ↦
        let joined : in_groups (add_to addr e ((b, es) ∷ groups)) ≡ es ++ e ∷ in_groups groups =
          ap (λ o. in_groups (store bytes_discrete addr (or_none o ++ e ∷ []) ((b, es) ∷ groups)))
            (found_here addr b es groups same)
          ∙ ap in_groups (store_here bytes_discrete addr b (es ++ e ∷ []) es groups same)
          ∙ append_assoc es (e ∷ []) (in_groups groups) in
        subst (λ l. Perm l (e ∷ es ++ in_groups groups)) (sym joined)
          (perm_middle es (in_groups groups))
    | no other ↦
        let kept : in_groups (add_to addr e ((b, es) ∷ groups))
            ≡ es ++ in_groups (add_to addr e groups) =
          ap (λ o. in_groups (store bytes_discrete addr (or_none o ++ e ∷ []) ((b, es) ∷ groups)))
            (found_there addr b es groups other)
          ∙ ap in_groups (
              store_there bytes_discrete addr b
                (or_none (find bytes_discrete addr groups) ++ e ∷ []) es groups other) in
        subst (λ l. Perm l (e ∷ es ++ in_groups groups)) (sym kept)
          (Perm.trans ((perm-append_left_iff es).1 (add_to-perm addr e groups))
            (perm_middle es (in_groups groups)))
  ]

module _ {E : Type 0} (key_of : E → Bytes) (ch : Option ConsistentHash) where
  -- Each element of a group has the group's address as its owner.
  abbrev pub IsOwned : Bytes × List E → Type 0
  IsOwned (addr, es) = All (λ e. owner ch (key_of e) ≡ some addr) es

  All-snoc : (P : E → Type 0) (es : List E) (e : E) → All P es → P e → All P (es ++ e ∷ [])
  All-snoc P [] e h he = (he, tt)
  All-snoc P (x ∷ es) e (hx, h) he = (hx, All-snoc P es e h he)

  add_to-IsOwned :
      (addr : Bytes) (e : E) (groups : List (Bytes × List E))
      → owner ch (key_of e) ≡ some addr
      → All IsOwned groups
      → All IsOwned (add_to addr e groups)
  unfolding add_to
  add_to-IsOwned addr e groups he h =
      All-store bytes_discrete IsOwned addr _ groups
        (All-snoc (λ a. owner ch (key_of a) ≡ some addr) _ e owned he) h
    where
      found :
          (o : Option (List E))
          → find bytes_discrete addr groups ≡ o
          → All (λ a. owner ch (key_of a) ≡ some addr) (or_none o)
      found none eq = tt
      found (some es) eq = All-find bytes_discrete IsOwned addr es groups h eq

      owned : All (λ a. owner ch (key_of a) ≡ some addr) (or_none (find bytes_discrete addr groups))
      owned = found _ refl

  -- From groups that hold to their owners.
  group_by-grows :
      (es : List E) (groups groups' : List (Bytes × List E))
      → All IsOwned groups
      → group_by key_of ch es groups ≡ some groups'
      → Perm (in_groups groups') (es ++ in_groups groups) × All IsOwned groups'
  unfolding group_by
  group_by-grows [] groups groups' h done =
      let same : groups ≡ groups' = ground arith in
      (
        subst (λ g. Perm (in_groups g) (in_groups groups)) same (Perm.refl _),
        subst (All IsOwned) same h,
      )
  group_by-grows (e ∷ es) groups groups' h done = elim (Option-cases (owner ch (key_of e))) [
    | inl missing ↦ absurd (ground arith)
    | inr (addr, owned) ↦
        let (kept, all_owned) =
          group_by-grows es (add_to addr e groups) groups' (add_to-IsOwned addr e groups owned h)
            (ground arith) in
        (
          Perm.trans kept (
              Perm.trans ((perm-append_left_iff es).1 (add_to-perm addr e groups))
                (perm_middle es (in_groups groups))),
          all_owned,
        )
  ]

  -- The groups of PutAll and GetAll hold the given entries or keys, each as often as it was given, in the
  -- group of the address that owns its key.
  pub group_by-perm :
      (es : List E) (groups : List (Bytes × List E))
      → group_by key_of ch es [] ≡ some groups
      → Perm (in_groups groups) es × All IsOwned groups
  unfolding in_groups
  group_by-perm es groups done =
      let (kept, owned) = group_by-grows es [] groups tt done in
      (subst (Perm (in_groups groups)) (append-nil es) kept, owned)
