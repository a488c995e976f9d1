-- ===== src/Connection/Pool/Calls/Homes.antt =====
-- internal/connection/pool.go: the address at which a listener lives.
use go_client.Prelude.{
  ℕ, ◌≡◌, ◌≢◌, refl, ap, ◌∙◌, List, [], ◌∷◌, Option, none, some, Bool, if◌then◌else◌, is_empty, All,
  find, find-store, find-discard, bytes_discrete, arith,
}
use go_client.Io.{Bytes, Error, Answer}
use go_client.Codec.Header.{TopologyUpdate, addr}
use go_client.Operation.{Operation}
use go_client.Connection.Conn.{Conn, ListenerEntry, Started, execute, execute_listener}
use go_client.Connection.Pool.{
  Pool, round_robin, route_keyed, route_operation, take_servers, take_hash, drop_hash,
  handle_topology_update,
}
use go_client.Connection.Pool.Calls.{
  added, no_servers, Sending, rejected, sent_to, sending_panicked, install, sending, on_conn,
  ensure_conn, call_at, execute_on, pool_execute, registered, add_entry, execute_on_listener,
  remove_listener,
}

-- The calls of a pool, and the topologies that it takes in.
pub data PoolCall (V : Type 0) : Type 0 where
  executes : Bool → Operation V → PoolCall V
  executes_on : Bool → Bytes → Operation V → PoolCall V
  adds : Bool → Option Error → Operation V → Bytes → ListenerEntry → PoolCall V
  removes : Bool → Bytes → Operation V → PoolCall V
  on_listener : Bool → Bytes → Operation V → PoolCall V
  topology : TopologyUpdate → Bytes → PoolCall V

abbrev or_same : {V : Type 0} → Pool V → Option (Pool V) → Pool V
or_same p none = p
or_same p (some p') = p'

-- The call neither adds nor removes the listener.
abbrev pub Leaves : {V : Type 0} → Bytes → PoolCall V → Type 0
Leaves key (adds writes reply op other entry) = other ≢ key
Leaves key (removes writes other op) = other ≢ key
Leaves key _ = Unit

module _ {V : Type 0} where
  pub topology-states :
      (t : TopologyUpdate) (cache_name : Bytes) (p p' : Pool V)
      → handle_topology_update t cache_name p ≡ some p'
      → p'.listener_states ≡ p.listener_states
  unfolding handle_topology_update take_hash drop_hash take_servers
  topology-states t cache_name p p' h = ground arith

module _ {V : Type 0} (dial : Bytes → Answer (Conn V)) (meanwhile between : Pool V → Pool V) where
  -- The pool after a call; a panic leaves it as it was.
  unfoldable pub pool_step : PoolCall V → Pool V → Pool V
  pool_step (executes writes op) p = (pool_execute dial meanwhile between writes op p).1
  pool_step (executes_on writes addr op) p = (execute_on dial meanwhile between writes addr op p).1
  pool_step (adds writes reply op key entry) p =
      (add_entry dial meanwhile between writes reply op key entry p).1
  pool_step (removes writes key op) p = (remove_listener writes key op p).1
  pool_step (on_listener writes key op) p = (execute_on_listener writes key op p).1
  pool_step (topology t cache_name) p = or_same p (handle_topology_update t cache_name p)

  unfoldable pub pool_run : List (PoolCall V) → Pool V → Pool V
  pool_run [] p = p
  pool_run (c ∷ calls) p = pool_run calls (pool_step c p)

  module _ (key : Bytes)
      (apart : (p : Pool V)
        → find bytes_discrete key (meanwhile p).listener_states
          ≡ find bytes_discrete key p.listener_states)
      (apart_between : (p : Pool V)
        → find bytes_discrete key (between p).listener_states
          ≡ find bytes_discrete key p.listener_states) where
    -- Where the listener `key` lives.
    abbrev home : Pool V → Option Bytes
    home p = find bytes_discrete key p.listener_states

    on_conn-states :
        (a : Bytes) (start : Conn V → Started V) (p : Pool V)
        → (on_conn a start p).1.listener_states ≡ p.listener_states
    unfolding on_conn sending
    on_conn-states a start p = ground arith

    ensure_conn-home :
        (a : Bytes) (p : Pool V) → home (ensure_conn dial meanwhile between a p).1 ≡ home p
    unfolding ensure_conn install
    ensure_conn-home a p = ground (arith, apart p)

    call_at-home :
        (a : Bytes) (start : Conn V → Started V) (p : Pool V)
        → home (call_at dial meanwhile between a start p).1 ≡ home p
    unfolding call_at
    call_at-home a start p =
        let q = (ensure_conn dial meanwhile between a p).1 in
        ground (arith, ensure_conn-home a p, apart_between q, on_conn-states a start (between q))

    round_robin-states : (p : Pool V) → (round_robin p).1.listener_states ≡ p.listener_states
    unfolding round_robin
    round_robin-states p = refl

    route-states :
        (op : Operation V) (p p' : Pool V) (a : Bytes)
        → route_operation op p ≡ some (a, p')
        → p'.listener_states ≡ p.listener_states
    unfolding route_operation route_keyed round_robin
    route-states op p p' a h = ground arith

    registered-home :
        (other : Bytes) (reply : Option Error) (r : Sending × Pool V)
        → other ≢ key
        → home (registered dial meanwhile between other reply r).1 ≡ home r.1
    unfolding registered
    registered-home other none (rejected e, p) apart_keys = refl
    registered-home other (some x) (rejected e, p) apart_keys = refl
    registered-home other none (sending_panicked, p) apart_keys = refl
    registered-home other (some x) (sending_panicked, p) apart_keys = refl
    registered-home other none (sent_to a id, p) apart_keys =
        ground (arith, find-store bytes_discrete other key a p.listener_states)
    registered-home other (some e) (sent_to a id, p) apart_keys = ground arith

    executed-home :
        (writes : Bool) (op : Operation V) (p : Pool V)
        → home (pool_execute dial meanwhile between writes op p).1 ≡ home p
    unfolding pool_execute
    executed-home writes op p = routed (route_operation op p) refl
      where
        routed :
            (o : Option (Bytes × Pool V))
            → route_operation op p ≡ o
            → home
                (elim o as (λ x. Sending × Pool V) [
                  | none ↦ (sending_panicked, p)
                  | some (a, p') ↦
                      if is_empty a
                      then (rejected no_servers, p')
                      else call_at dial meanwhile between a (execute writes op) p'
                ]).1
              ≡ home p
        routed none e = refl
        routed (some (a, p')) e =
            ground (arith, route-states op p p' a e, call_at-home a (execute writes op) p')

    topology-home :
        (t : TopologyUpdate) (cache_name : Bytes) (p : Pool V) (o : Option (Pool V))
        → handle_topology_update t cache_name p ≡ o
        → home (or_same p o) ≡ home p
    topology-home t cache_name p none e = refl
    topology-home t cache_name p (some p') e =
        ap (find bytes_discrete key) (topology-states t cache_name p p' e)

    pool_step-home : (c : PoolCall V) (p : Pool V) → Leaves key c → home (pool_step c p) ≡ home p
    unfolding pool_step pool_execute execute_on add_entry remove_listener execute_on_listener
        sending on_conn
    pool_step-home (executes writes op) p h = executed-home writes op p
    pool_step-home (executes_on writes a op) p h = call_at-home a (execute writes op) p
    pool_step-home (adds writes reply op other entry) p h =
        let (a, q) = round_robin p in
        ground (
          arith,
          round_robin-states p,
          call_at-home a (execute_listener writes op other entry) q,
          registered-home other reply
              (call_at dial meanwhile between a (execute_listener writes op other entry) q) h,
        )
    pool_step-home (removes writes other op) p h =
        ground (arith, find-discard bytes_discrete other key p.listener_states)
    pool_step-home (on_listener writes other op) p h = ground arith
    pool_step-home (topology t cache_name) p h = topology-home t cache_name p _ refl

    pool_run-home :
        (calls : List (PoolCall V)) (p : Pool V)
        → All (Leaves key) calls
        → home (pool_run calls p) ≡ home p
    unfolding pool_run
    pool_run-home [] p h = refl
    pool_run-home (c ∷ calls) p (hc, hs) =
        pool_run-home calls (pool_step c p) hs ∙ pool_step-home c p hc

    on_conn-address :
        (a b : Bytes) (start : Conn V → Started V) (p q : Pool V) (id : ℕ)
        → on_conn a start p ≡ (sent_to b id, q)
        → b ≡ a
    unfolding on_conn sending
    on_conn-address a b start p q id h = ground arith

    call_at-address :
        (a b : Bytes) (start : Conn V → Started V) (p q : Pool V) (id : ℕ)
        → call_at dial meanwhile between a start p ≡ (sent_to b id, q)
        → b ≡ a
    unfolding call_at
    call_at-address a b start p q id h =
        ground (
          arith,
          on_conn-address a b start (between (ensure_conn dial meanwhile between a p).1) q id,
        )

    registered-added :
        (a : Bytes) (reply : Option Error) (r : Sending × Pool V) (p : Pool V)
        → ((b : Bytes) (q : Pool V) (id : ℕ) → r ≡ (sent_to b id, q) → b ≡ a)
        → registered dial meanwhile between key reply r ≡ (added, p)
        → home p ≡ some a
    unfolding registered
    registered-added a reply (rejected e, q) p at h = cc
    registered-added a reply (sending_panicked, q) p at h = cc
    registered-added a none (sent_to b id, q) p at h =
        ground (arith, find-store bytes_discrete key key b q.listener_states, at b q id refl)
    registered-added a (some e) (sent_to b id, q) p at h = ground arith

    added-home :
        (writes : Bool) (reply : Option Error) (op : Operation V) (entry : ListenerEntry)
        (p p' : Pool V)
        → add_entry dial meanwhile between writes reply op key entry p ≡ (added, p')
        → home p' ≡ some (round_robin p).0
    unfolding add_entry
    added-home writes reply op entry p p' done_so =
        let (a, q) = round_robin p in
        let start = execute_listener writes op key entry in
        ground (
          arith,
          registered-added a reply (call_at dial meanwhile between a start q) p'
              (λ b r id h. call_at-address a b start q r id h),
        )

    -- A listener that a method has added without an error lives at the address that was next in turn: after
    -- any further calls and topologies, and whatever other goroutines do that leaves this listener alone, an
    -- operation on the listener is given to the connection that the pool has to that address then.
    pub listener-home :
        (writes : Bool) (reply : Option Error) (op : Operation V) (entry : ListenerEntry)
        (p p' : Pool V) (calls : List (PoolCall V))
        → add_entry dial meanwhile between writes reply op key entry p ≡ (added, p')
        → All (Leaves key) calls
        → (w : Bool) (op' : Operation V)
        → execute_on_listener w key op' (pool_run calls p')
          ≡ on_conn (round_robin p).0 (execute w op') (pool_run calls p')
    unfolding execute_on_listener
    listener-home writes reply op entry p p' calls done_so leaves w op' =
        let lives = pool_run-home calls p' leaves ∙ added-home writes reply op entry p p' done_so in
        rw (lives, execute_on_listener) refl
