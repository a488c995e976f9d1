-- ===== src/Connection/Conn/Ids.antt =====
-- internal/connection/conn.go: where the message ids of a connection stand, and what Execute adds.
use go_client.Prelude.{
  ℕ, suc, ◌+◌, ◌^◌, ◌≤◌, ◌<◌, ◌≡◌, Bool, refl, arith, count, keys, store, discard, ℕ_discrete,
  count-discard, count-store, find-absent, u64,
}
use go_client.Io.{panicked}
use go_client.Codec.VarInt.Panic.{write_vlong_panics}
use go_client.Codec.Wire.{write_u1}
use go_client.Codec.Header.{write_request_header}
use go_client.Operation.{Operation}
use go_client.Connection.Conn.{Conn, waiting, write_failed, request, execute}
use mathlib.Core.Logic.{ite}

module _ {V : Type 0} where
  -- How often a message id stands among the answers and among the requests under way.
  abbrev pub seen : Conn V → ℕ → ℕ
  seen c i = count i (keys c.replies) + count i (keys c.pending)

  pub record IsOnce (c : Conn V) : Type 0 where
    pub once : (i : ℕ) → seen c i ≤ 1
    pub fresh : (i : ℕ) → c.next_msg_id < i → seen c i ≡ 0
    pub bounded : c.next_msg_id < 2 ^ 63

  -- A change that adds no id and leaves the counter alone.
  pub record Fewer (c c' : Conn V) : Type 0 where
    pub fewer : (i : ℕ) → seen c' i ≤ seen c i
    pub same_next : c'.next_msg_id ≡ c.next_msg_id

  pub Fewer-refl : (c : Conn V) → Fewer c c
  Fewer-refl c = record { fewer = λ i. omega arith; same_next = refl }

  pub IsOnce-Fewer : {c c' : Conn V} → Fewer c c' → IsOnce c → IsOnce c'
  IsOnce-Fewer f w = record {
    once = λ i. omega (arith, f.fewer i, w.once i);
    fresh = λ i h. omega (arith, f.fewer i, w.fresh i (omega (arith, f.same_next)));
    bounded = omega (arith, f.same_next, w.bounded);
  }

  -- A request with a message id that WriteVLong cannot write is not put together.
  request_panics :
      (c : Conn V) (id : ℕ) (op : Operation V) → 2 ^ 63 ≤ id → request c id op ≡ panicked
  unfolding request write_request_header write_u1
  request_panics c id op h = rw ((write_vlong_panics id).1 h) refl

  -- The next id comes to stand once more than before.
  pub record Takes (c c' : Conn V) : Type 0 where
    pub one_more :
        (i : ℕ) → seen c' i ≤ ite (ℕ_discrete (suc c.next_msg_id) i) (suc (seen c i)) (seen c i)
    pub counts_up : c'.next_msg_id ≡ suc c.next_msg_id
    pub in_range : c'.next_msg_id < 2 ^ 63

  pub IsOnce-Takes : {c c' : Conn V} → Takes c c' → IsOnce c → IsOnce c'
  IsOnce-Takes {c} t o = record {
    once = λ i. ground (arith, t.one_more i, o.once i, o.fresh i);
    fresh = λ i h. ground (arith, t.one_more i, o.fresh i, t.counts_up);
    bounded = t.in_range;
  }

  -- What a request that was put together did to the connection.
  sends-inv :
      (w : Bool) (op : Operation V) (id : ℕ) (c c' : Conn V)
      → c.next_msg_id < 2 ^ 63
      → execute w op c ≡ waiting id c'
      → (id ≡ suc c.next_msg_id)
        × (id < 2 ^ 63)
        × (c'.next_msg_id ≡ id)
        × (c'.replies ≡ c.replies)
        × (c'.pending ≡ store ℕ_discrete id op c.pending)
  unfolding execute
  sends-inv w op id c c' h e = ground (arith, request_panics c (u64 (suc c.next_msg_id)) op)

  fails-inv :
      (w : Bool) (op : Operation V) (c c' : Conn V)
      → c.next_msg_id < 2 ^ 63
      → execute w op c ≡ write_failed c'
      → (suc c.next_msg_id < 2 ^ 63)
        × (c'.next_msg_id ≡ suc c.next_msg_id)
        × (c'.replies ≡ c.replies)
        × (c'.pending
            ≡ discard ℕ_discrete
                (suc c.next_msg_id)
                (store ℕ_discrete (suc c.next_msg_id) op c.pending))
  unfolding execute
  fails-inv w op c c' h e = ground (arith, request_panics c (u64 (suc c.next_msg_id)) op)

  -- A fresh id is stored once.
  count-enrolled :
      (c : Conn V) (op : Operation V) (i : ℕ)
      → IsOnce c
      → count i (keys (store ℕ_discrete (suc c.next_msg_id) op c.pending))
        ≡ ite
            (ℕ_discrete (suc c.next_msg_id) i)
            (suc (count i (keys c.pending)))
            (count i (keys c.pending))
  count-enrolled c op i o = count-store i (suc c.next_msg_id) op c.pending (
      find-absent (suc c.next_msg_id) c.pending
        (omega (arith, o.fresh (suc c.next_msg_id) (omega arith))))

  pub sends-Takes :
      (w : Bool) (op : Operation V) (id : ℕ) (c c' : Conn V)
      → execute w op c ≡ waiting id c'
      → IsOnce c
      → Takes c c'
  sends-Takes w op id c c' e o =
      let (new, small, next_id, replies, pending) = sends-inv w op id c c' o.bounded e in
      record {
        one_more = λ i. rw (replies, pending, new) (ground (arith, count-enrolled c op i o));
        counts_up = omega arith;
        in_range = omega arith;
      }

  pub fails-Takes :
      (w : Bool) (op : Operation V) (c c' : Conn V)
      → execute w op c ≡ write_failed c'
      → IsOnce c
      → Takes c c'
  fails-Takes w op c c' e o =
      let (small, next_id, replies, pending) = fails-inv w op c c' o.bounded e in
      record {
        one_more = λ i.
            rw
              (
                replies,
                pending,
                count-discard i (suc c.next_msg_id)
                    (store ℕ_discrete (suc c.next_msg_id) op c.pending),
              )
              (ground (arith, count-enrolled c op i o));
        counts_up = omega arith;
        in_range = omega arith;
      }
