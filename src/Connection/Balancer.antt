-- ===== src/Connection/Balancer.antt =====
-- internal/connection/balancer.go: the servers in turn. The locks are left out: each operation is one
-- step.
use go_client.Prelude.{
  ℕ, zero, suc, ◌+◌, ◌-◌, ◌%◌, ◌^◌, ◌<◌, ◌≡◌, refl, List, [], ◌∷◌, length, get_or, u64, arith, ap,
  ◌∙◌, sym,
}
use go_client.Io.{Bytes}
use native.Mathlib.Nat.{mod-lt, mod-add-mod, add-mod_left, mod-eq_of_lt}
use native.Mathlib.Decide.{dec_lt}

-- `index` is a uint64.
pub record Balancer : Type 0 where
  pub servers : List Bytes
  pub index : ℕ

unfoldable pub new_balancer : List Bytes → Balancer
new_balancer servers = record { servers = servers; index = 0 }

-- The server at `idx % len(b.servers)` and the counter raised; `idx` is the counter before.
unfoldable pub turn : List Bytes → ℕ → Bytes × ℕ
turn [] index = ([], index)
turn (s ∷ rest) index =
    let raised = u64 (index + 1) in
    let idx = u64 (raised + (2 ^ 64 - 1)) in
    (get_or (s ∷ rest) (idx % length (s ∷ rest)) [], raised)

unfoldable pub next : Balancer → Bytes × Balancer
next b = let (addr, index) = turn b.servers b.index in (addr, record b { index = index })

unfoldable pub set_servers : List Bytes → Balancer → Balancer
set_servers servers b = record b { servers = servers }

-- The balancer after some calls of Next.
unfoldable pub after_calls : ℕ → Balancer → Balancer
after_calls zero b = b
after_calls (suc k) b = after_calls k (next b).1

turn_lem :
    (servers : List Bytes) (index : ℕ)
    → index < 2 ^ 64
    → 0 < length servers
    → turn servers index ≡ (get_or servers (index % length servers) [], u64 (index + 1))
unfolding turn
turn_lem [] index h pos = absurd (omega arith)
turn_lem (s ∷ rest) index h pos =
    ap (λ i. (get_or (s ∷ rest) (i % length (s ∷ rest)) [], u64 (index + 1))) before
  where
    before : u64 (u64 (index + 1) + (2 ^ 64 - 1)) ≡ index
    before = omega arith

after_calls_lem :
    (k : ℕ) (b : Balancer)
    → b.index + k < 2 ^ 64
    → 0 < length b.servers
    → after_calls k b ≡ record b { index = b.index + k }
unfolding after_calls next
after_calls_lem zero b h pos = ap (λ i. record b { index = i }) (omega arith)
after_calls_lem (suc k) b h pos =
    let t = turn_lem b.servers b.index (omega arith) pos in
    rw t (
      let up : u64 (b.index + 1) + k ≡ b.index + suc k = omega arith in
      after_calls_lem k (record b { index = u64 (b.index + 1) }) (omega arith) pos
      ∙ ap (λ i. record b { index = i }) up)

-- How many calls until the turn comes to server `j`.
turns_until : (n r j : ℕ) → r < n → j < n → (k : ℕ) × (k < n) × ((r + k) % n ≡ j)
turns_until n r j hr hj = elim (dec_lt j r) [
  | yes before ↦
      (n + j - r, omega arith, ap (λ t. t % n) (omega arith) ∙ (add-mod_left n j ∙ mod-eq_of_lt hj))
  | no behind ↦ (j - r, omega arith, ap (λ t. t % n) (omega arith) ∙ mod-eq_of_lt hj)
]

-- Among as many consecutive calls of Next as there are servers, one returns any given server, as long as
-- the counter does not wrap.
pub next-reaches :
    (b : Balancer) (j : ℕ)
    → j < length b.servers
    → b.index + length b.servers < 2 ^ 64
    → (k : ℕ) × (k < length b.servers) × ((next (after_calls k b)).0 ≡ get_or b.servers j [])
unfolding next
next-reaches b j hj small =
    let n = length b.servers in
    let (k, few, turned) = turns_until n (b.index % n) j (mod-lt b.index (omega arith)) hj in
    let calls = after_calls_lem k b (omega arith) (omega arith) in
    let there : (b.index + k) % n ≡ j = sym (mod-add-mod b.index n k) ∙ turned in
    (k, few, rw (calls, turn_lem b.servers (b.index + k) (omega arith) (omega arith), there) refl)
