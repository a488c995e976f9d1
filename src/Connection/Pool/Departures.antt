-- ===== src/Connection/Pool/Departures.antt =====
-- internal/connection/pool.go: the connections that a change of topology keeps.
use go_client.Prelude.{
  ◌≡◌, ◌≢◌, List, [], ◌∷◌, ◌++◌, map, none, some, false, ◌==◌, if◌then◌else◌, arith, find,
  bytes_discrete, sym, ap, ◌∙◌, Option, true, Bool-cases, inl, inr, ◌⊎◌, All, subst, refl,
}
use go_client.Io.{Bytes}
use go_client.Codec.Header.{TopologyUpdate, addr}
use go_client.Connection.Conn.{Conn, drain}
use go_client.Connection.Balancer.{set_servers}
use go_client.Connection.Pool.{
  Pool, contains, kept, departed, take_servers, drop_hash, take_hash, handle_topology_update,
}
use mathlib.Core.Logic.{ite, if_pos, if_neg, ∥∥₁_elim}
use mathlib.Core.HLevel.{⊥_prop}
use mathlib.Core.List.{Mem, Memᴰ, dec_mem}
use mathlib.Core.List.Memᴰ

module _ {V : Type 0} where
  find-kept :
      (addrs : List Bytes) (a : Bytes) (conns : List (Bytes × Conn V))
      → find bytes_discrete a (kept addrs conns)
        ≡ (if contains a addrs then find bytes_discrete a conns else none)
  unfolding find kept
  find-kept addrs a [] = ground arith
  find-kept addrs a ((b, c) ∷ conns) = ground (arith, find-kept addrs a conns)

  -- The choice of a routing table leaves the rest of the pool alone.
  hash-keeps :
      (t : TopologyUpdate) (cache_name : Bytes) (p p' : Pool V)
      → take_hash t cache_name p ≡ some p'
      → (p'.conns ≡ p.conns)
        × (p'.retired ≡ p.retired)
        × (p'.balancer ≡ p.balancer)
        × (p'.topo_id ≡ p.topo_id)
  unfolding take_hash drop_hash
  hash-keeps t cache_name p p' e = ground arith

  -- In the words of the pool's own lists.
  pub topology-taken :
      (t : TopologyUpdate) (cache_name : Bytes) (p p' : Pool V)
      → t.id ≢ p.topo_id
      → handle_topology_update t cache_name p ≡ some p'
      → (p'.topo_id ≡ t.id)
        × (p'.balancer.servers ≡ map addr t.servers)
        × (p'.retired ≡ map drain (departed (map addr t.servers) p.conns) ++ p.retired)
        × ((a : Bytes)
            → find bytes_discrete a p'.conns
              ≡ (if contains a (map addr t.servers) then find bytes_discrete a p.conns else none))
  unfolding handle_topology_update take_servers set_servers
  topology-taken t cache_name p p' new e =
      let other : (t.id == p.topo_id) ≡ false = ground (arith, new) in
      let taken : take_hash t cache_name (take_servers t p) ≡ some p' =
        sym (ap (λ b. if b then some p else take_hash t cache_name (take_servers t p)) other) ∙ e in
      let (conns, retired, balancer, id) = hash-keeps t cache_name (take_servers t p) p' taken in
      (
        id,
        ap (λ b. b.servers) balancer,
        retired,
        λ a. ap (find bytes_discrete a) conns ∙ find-kept (map addr t.servers) a p.conns,
      )

contains-member : (a : Bytes) (bs : List Bytes) → Memᴰ a bs → contains a bs ≡ true
unfolding contains
contains-member a [] m = elim m [ ]
contains-member a (b ∷ bs) (Memᴰ.head e) = ground arith
contains-member a (b ∷ bs) (Memᴰ.tail m) = ground (arith, contains-member a bs m)

member-contains : (a : Bytes) (bs : List Bytes) → contains a bs ≡ true → Memᴰ a bs
unfolding contains
member-contains a [] h = absurd (cc)
member-contains a (b ∷ bs) h = elim (bytes_discrete b a) [
  | yes same ↦ Memᴰ.head (sym same)
  | no other ↦ Memᴰ.tail (member-contains a bs (ground arith))
]

absent-member : (a : Bytes) (bs : List Bytes) → contains a bs ≡ false → ¬ Mem a bs
absent-member a bs absent m =
    ∥∥₁_elim m ⊥_prop (λ d. absurd (let there = contains-member a bs d in cc))

-- `contains` is membership in the list.
contains-ite :
    {A : Type 0} (a : Bytes) (bs : List Bytes) (x y : A)
    → (if contains a bs then x else y) ≡ ite (dec_mem bytes_discrete a bs) x y
contains-ite a bs x y = elim (Bool-cases (contains a bs)) [
  | inl there ↦
      rw there (sym (if_pos (dec_mem bytes_discrete a bs) ∣ member-contains a bs there ∣₁ x y))
  | inr absent ↦
      rw absent (sym (if_neg (dec_mem bytes_discrete a bs) (absent-member a bs absent) x y))
]

All-widen : {A : Type 0} (P Q : A → Type 0) (l : List A) → ((x : A) → P x → Q x) → All P l → All Q l
All-widen P Q [] f h = tt
All-widen P Q (x ∷ l) f (hx, h) = (f x hx, All-widen P Q l f h)

All-append : {A : Type 0} (P : A → Type 0) (l m : List A) → All P l → All P m → All P (l ++ m)
All-append P [] m h k = k
All-append P (x ∷ l) m (hx, h) k = (hx, All-append P l m h k)

-- Every element stands in the list.
self-All : {A : Type 0} (l : List A) → All (λ x. Memᴰ x l) l
self-All [] = tt
self-All (x ∷ l) = (
  Memᴰ.head refl,
  All-widen (λ y. Memᴰ y l) (λ y. Memᴰ y (x ∷ l)) l (λ y m. Memᴰ.tail m) (self-All l),
)

module _ {V : Type 0} where
  -- The connection, if there is one, stands drained in the list.
  abbrev pub Drained : List (Conn V) → Option (Conn V) → Type 0
  Drained cs none = Unit
  Drained cs (some c) = Memᴰ (drain c) cs

  -- A connection that was retired before, or that is the drained one of a server that left.
  abbrev pub HasLeft : List Bytes → Pool V → Conn V → Type 0
  HasLeft addrs p d =
      Memᴰ d p.retired
      ⊎ ((a : Bytes) × ((c : Conn V) × (Memᴰ (a, c) p.conns × ((¬ Mem a addrs) × (d ≡ drain c)))))

  Drained-more : (cs ds : List (Conn V)) (o : Option (Conn V)) → Drained cs o → Drained (cs ++ ds) o
  Drained-more cs ds none h = tt
  Drained-more cs ds (some c) h = Memᴰ.append_left ds h

  Drained-cons :
      (d : Conn V) (cs : List (Conn V)) (o : Option (Conn V)) → Drained cs o → Drained (d ∷ cs) o
  Drained-cons d cs none h = tt
  Drained-cons d cs (some c) h = Memᴰ.tail h

  find_here :
      (a b : Bytes) (c : Conn V) (conns : List (Bytes × Conn V))
      → b ≡ a
      → find bytes_discrete a ((b, c) ∷ conns) ≡ some c
  unfolding find
  find_here a b c conns same = ground arith

  find_further :
      (a b : Bytes) (c : Conn V) (conns : List (Bytes × Conn V))
      → b ≢ a
      → find bytes_discrete a ((b, c) ∷ conns) ≡ find bytes_discrete a conns
  unfolding find
  find_further a b c conns other = ground arith

  departed_cons-Drained :
      (addrs : List Bytes) (b : Bytes) (c : Conn V) (conns : List (Bytes × Conn V))
      (o : Option (Conn V))
      → Drained (map drain (departed addrs conns)) o
      → Drained (map drain (departed addrs ((b, c) ∷ conns))) o
  unfolding departed
  departed_cons-Drained addrs b c conns o h = elim (Bool-cases (contains b addrs)) [
    | inl there ↦ rw (departed, there) h
    | inr gone ↦ rw (departed, gone) (Drained-cons (drain c) (map drain (departed addrs conns)) o h)
  ]

  departed-Drained :
      (addrs : List Bytes) (a : Bytes) (conns : List (Bytes × Conn V))
      → contains a addrs ≡ false
      → Drained (map drain (departed addrs conns)) (find bytes_discrete a conns)
  unfolding departed
  departed-Drained addrs a [] gone = unfold find in tt
  departed-Drained addrs a ((b, c) ∷ conns) gone = elim (bytes_discrete b a) [
    | yes same ↦
        let gone_b : contains b addrs ≡ false = ap (λ x. contains x addrs) same ∙ gone in
        subst (Drained (map drain (departed addrs ((b, c) ∷ conns))))
          (sym (find_here a b c conns same)) (rw (departed, gone_b) (Memᴰ.head refl))
    | no other ↦
        subst (Drained (map drain (departed addrs ((b, c) ∷ conns))))
          (sym (find_further a b c conns other))
          (departed_cons-Drained addrs b c conns _ (departed-Drained addrs a conns gone))
  ]

  left-Drained :
      (addrs : List Bytes) (a : Bytes) (conns : List (Bytes × Conn V))
      → Drained
          (map drain (departed addrs conns))
          (if contains a addrs then none else find bytes_discrete a conns)
  left-Drained addrs a conns = elim (Bool-cases (contains a addrs)) [
    | inl there ↦ rw there tt
    | inr gone ↦ rw gone (departed-Drained addrs a conns gone)
  ]

  departed-HasLeft :
      (addrs : List Bytes) (p : Pool V) (conns : List (Bytes × Conn V))
      → All (λ e. Memᴰ e p.conns) conns
      → All (HasLeft addrs p) (map drain (departed addrs conns))
  unfolding departed
  departed-HasLeft addrs p [] h = tt
  departed-HasLeft addrs p ((a, c) ∷ conns) (hc, h) = elim (Bool-cases (contains a addrs)) [
    | inl there ↦ rw (there, departed) (departed-HasLeft addrs p conns h)
    | inr gone ↦
        rw (gone, departed)
          (inr (a, (c, (hc, (absent-member a addrs gone, refl)))), departed-HasLeft addrs p conns h)
  ]

  -- After a topology of a new id that the pool takes in without a panic: the servers of the topology are
  -- those that take turns; to each of them the pool has the connection that it had, and to no other
  -- address any; the connection to every server that left is among the retired ones, and drains; and these
  -- are the connections that were retired before and the drained ones of servers that left.
  pub topology-departures :
      (t : TopologyUpdate) (cache_name : Bytes) (p p' : Pool V) (a : Bytes)
      → t.id ≢ p.topo_id
      → handle_topology_update t cache_name p ≡ some p'
      → (p'.topo_id ≡ t.id)
        × (p'.balancer.servers ≡ map addr t.servers)
        × (find bytes_discrete a p'.conns
            ≡ ite
                (dec_mem bytes_discrete a (map addr t.servers))
                (find bytes_discrete a p.conns)
                none)
        × Drained p'.retired (
            ite
              (dec_mem bytes_discrete a (map addr t.servers))
              none
              (find bytes_discrete a p.conns))
        × All (λ d. Memᴰ d p'.retired) p.retired
        × All (HasLeft (map addr t.servers) p) p'.retired
  topology-departures t cache_name p p' a new e =
      let addrs = map addr t.servers in
      let gone = map drain (departed addrs p.conns) in
      let (id, servers, retired, conns) = topology-taken t cache_name p p' new e in
      (
        id,
        servers,
        conns a ∙ contains-ite a addrs (find bytes_discrete a p.conns) none,
        subst
            (λ r.
              Drained r (ite (dec_mem bytes_discrete a addrs) none (find bytes_discrete a p.conns)))
            (sym retired)
            (Drained-more gone p.retired _ (
              subst (Drained gone) (contains-ite a addrs none (find bytes_discrete a p.conns))
                (left-Drained addrs a p.conns))),
        subst (λ r. All (λ d. Memᴰ d r) p.retired) (sym retired)
            (All-widen (λ d. Memᴰ d p.retired) (λ d. Memᴰ d (gone ++ p.retired)) p.retired
              (λ d m. Memᴰ.append_right gone m) (self-All p.retired)),
        subst (All (HasLeft addrs p)) (sym retired) (
            All-append (HasLeft addrs p) gone p.retired
              (departed-HasLeft addrs p p.conns (self-All p.conns))
              (All-widen (λ d. Memᴰ d p.retired) (HasLeft addrs p) p.retired (λ d m. inl m)
                (self-All p.retired))),
      )
