-- ===== src/Connection/Conn/Once.antt =====
-- internal/connection/conn.go: how often the requests of a connection are answered.
use go_client.Prelude.{
  ℕ, ◌+◌, ◌≤◌, ◌≡◌, Bool, refl, arith, sym, count, keys, store, count-discard, Bool-cases, ◌⊎◌,
  ◌||◌, inl, inr, bytes_discrete,
}
use go_client.Io.{Bytes}
use go_client.Operation.{Operation}
use go_client.Connection.Conn.{
  Conn, new_conn, Started, refused, waiting, write_failed, start_panicked, execute, cancel,
  ListenerEntry, close, execute_listener, withdraw_listener, unregister_listener, drain,
}
use go_client.Connection.Conn.Steps.{
  Step, sends, fails_to_send, listens, fails_to_listen, cancels, drains, closes, unregisters,
  receives, reads, ends, Reach, here, more,
}
use mathlib.Core.Path.{subst}
use go_client.Connection.Conn.Ids.{
  IsOnce, Fewer, IsOnce-Fewer, IsOnce-Takes, sends-Takes, fails-Takes,
}
use go_client.Connection.Conn.Rounds.{left, round-Fewer}

module _ {V : Type 0} where
  -- The bookkeeping that touches no request.
  Fewer-drain : (c : Conn V) → Fewer c (drain c)
  unfolding drain
  Fewer-drain c = record { fewer = λ i. omega arith; same_next = refl }

  Fewer-close : (c : Conn V) → Fewer c (close c)
  unfolding close
  Fewer-close c = record { fewer = λ i. omega arith; same_next = refl }

  Fewer-cancel : (id : ℕ) (c : Conn V) → Fewer c (cancel id c)
  unfolding cancel
  Fewer-cancel id c = record {
    fewer = λ i. ground (arith, count-discard i id c.pending);
    same_next = refl;
  }

  Fewer-unregister : (key : Bytes) (c : Conn V) → Fewer c (unregister_listener key c)
  unfolding unregister_listener
  Fewer-unregister key c = record { fewer = λ i. omega arith; same_next = refl }

  -- The connection with a listener registered.
  abbrev with_listener : Bytes → ListenerEntry → Conn V → Conn V
  with_listener key entry c = record c { listeners = store bytes_discrete key entry c.listeners }

  IsOnce-with_listener :
      (key : Bytes) (entry : ListenerEntry) (c : Conn V)
      → IsOnce c
      → IsOnce (with_listener key entry c)
  IsOnce-with_listener key entry c o = record {
    once = o.once;
    fresh = o.fresh;
    bounded = o.bounded;
  }

  withdraw-waiting :
      (key : Bytes) (s : Started V) (id : ℕ) (c' : Conn V)
      → withdraw_listener key s ≡ waiting id c'
      → s ≡ waiting id c'
  unfolding withdraw_listener
  withdraw-waiting key refused id c' e = cc
  withdraw-waiting key (waiting j c) id c' e = e
  withdraw-waiting key (write_failed c) id c' e = cc
  withdraw-waiting key start_panicked id c' e = cc

  withdraw-failed :
      (key : Bytes) (s : Started V) (c' : Conn V)
      → withdraw_listener key s ≡ write_failed c'
      → (d : Conn V) × (s ≡ write_failed d) × (c' ≡ unregister_listener key d)
  unfolding withdraw_listener
  withdraw-failed key refused c' e = cc
  withdraw-failed key (waiting j c) c' e = cc
  withdraw-failed key (write_failed c) c' e = (c, refl, cc)
  withdraw-failed key start_panicked c' e = cc

  listens-inv :
      (w : Bool) (op : Operation V) (key : Bytes) (entry : ListenerEntry) (c : Conn V)
      (s : Started V)
      → execute_listener w op key entry c ≡ s
      → (s ≡ refused) ⊎ (withdraw_listener key (execute w op (with_listener key entry c)) ≡ s)
  unfolding execute_listener
  listens-inv w op key entry c s e = elim (Bool-cases (c.closed || c.draining)) [
    | inl shut ↦ inl ground arith
    | inr able ↦ inr ground arith
  ]

  listens-IsOnce :
      (w : Bool) (op : Operation V) (key : Bytes) (entry : ListenerEntry) (id : ℕ) (c c' : Conn V)
      → execute_listener w op key entry c ≡ waiting id c'
      → IsOnce c
      → IsOnce c'
  listens-IsOnce w op key entry id c c' e o =
      elim (listens-inv w op key entry c (waiting id c') e) [
        | inl shut ↦ cc
        | inr able ↦
            let before = IsOnce-with_listener key entry c o in
            IsOnce-Takes
              (sends-Takes w op id (with_listener key entry c) c'
                (withdraw-waiting key _ id c' able) before)
              before
      ]

  unlistens-IsOnce :
      (w : Bool) (op : Operation V) (key : Bytes) (entry : ListenerEntry) (c c' : Conn V)
      → execute_listener w op key entry c ≡ write_failed c'
      → IsOnce c
      → IsOnce c'
  unlistens-IsOnce w op key entry c c' e o =
      elim (listens-inv w op key entry c (write_failed c') e) [
        | inl shut ↦ cc
        | inr able ↦
            let before = IsOnce-with_listener key entry c o in
            let (d, failed, gone) = withdraw-failed key _ c' able in
            subst IsOnce (sym gone) (
              IsOnce-Fewer (Fewer-unregister key d) (
                IsOnce-Takes (fails-Takes w op (with_listener key entry c) d failed before) before))
      ]

  IsOnce-Step : {c c' : Conn V} → Step c c' → IsOnce c → IsOnce c'
  IsOnce-Step (sends w op id c c' e) o = IsOnce-Takes (sends-Takes w op id c c' e o) o
  IsOnce-Step (fails_to_send w op c c' e) o = IsOnce-Takes (fails-Takes w op c c' e o) o
  IsOnce-Step (listens w op key entry id c c' e) o = listens-IsOnce w op key entry id c c' e o
  IsOnce-Step (fails_to_listen w op key entry c c' e) o = unlistens-IsOnce w op key entry c c' e o
  IsOnce-Step (cancels id c) o = IsOnce-Fewer (Fewer-cancel id c) o
  IsOnce-Step (drains c) o = IsOnce-Fewer (Fewer-drain c) o
  IsOnce-Step (closes c) o = IsOnce-Fewer (Fewer-close c) o
  IsOnce-Step (unregisters key c) o = IsOnce-Fewer (Fewer-unregister key c) o
  IsOnce-Step (receives key entry c) o = IsOnce-with_listener key entry c o
  IsOnce-Step (reads c c' going e) o =
      IsOnce-Fewer (subst (λ r. Fewer c (left r c)) e (round-Fewer c)) o
  IsOnce-Step (ends c c' going e) o =
      IsOnce-Fewer (subst (λ r. Fewer c (left r c)) e (round-Fewer c)) o

  -- From a new connection, whatever its callers, the pool and the server do, in any order, no message
  -- id is answered twice, and one that is under way has not been answered and stands there once.
  pub answered_once :
      (server : Bytes) (callback : Bool) (intelligence version : ℕ) (c : Conn V)
      → Reach (new_conn server callback intelligence version) c
      → (i : ℕ) → count i (keys c.replies) + count i (keys c.pending) ≤ 1
  unfolding new_conn count
  answered_once server callback intelligence version c reach i = (reach-IsOnce c reach).once i
    where
      reach-IsOnce :
          (d : Conn V) → Reach (new_conn server callback intelligence version) d → IsOnce d
      reach-IsOnce d here = record {
        once = λ i. omega arith;
        fresh = λ i h. refl;
        bounded = omega arith;
      }
      reach-IsOnce d (more before step) = IsOnce-Step step (reach-IsOnce _ before)
