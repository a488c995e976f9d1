-- ===== src/Connection/Pool/Calls/Sent.antt =====
-- internal/connection/pool.go: where a call of the pool sends, and why it does not.
use go_client.Prelude.{
  ◌||◌, true, ◌+◌, u64, ℕ, ◌≡◌, ◌⊎◌, inl, inr, refl, Option, none, some, Bool, false, is_empty,
  find, find-store, bytes_discrete, ℕ_discrete, Option-cases, arith,
}
use go_client.Io.{Bytes, Error, message, Answer, answered, failed, panicked}
use go_client.Operation.{Operation}
use go_client.Connection.Conn.{
  Conn, request, Started, refused, waiting, write_failed, start_panicked, execute,
}
use go_client.Connection.Pool.{Pool, route_operation}
use go_client.Connection.Pool.Calls.{
  Sending, rejected, sent_to, sending_panicked, no_connection, conn_closed, install, sending,
  on_conn, ensure_conn, call_at, pool_execute,
}

module _ {V : Type 0} where
  execute-pending :
      (writes : Bool) (op : Operation V) (c c' : Conn V) (id : ℕ)
      → execute writes op c ≡ waiting id c'
      → find ℕ_discrete id c'.pending ≡ some op
  unfolding execute
  execute-pending writes op c c' id h = ground (arith, find-store ℕ_discrete id id op c.pending)

  execute-refused :
      (writes : Bool) (op : Operation V) (c : Conn V)
      → execute writes op c ≡ refused
      → (c.closed || c.draining) ≡ true
  unfolding execute
  execute-refused writes op c h = ground arith

  execute-failed :
      (writes : Bool) (op : Operation V) (c c' : Conn V)
      → execute writes op c ≡ write_failed c'
      → writes ≡ false
  unfolding execute
  execute-failed writes op c c' h = ground arith

  execute-panicked :
      (writes : Bool) (op : Operation V) (c : Conn V)
      → execute writes op c ≡ start_panicked
      → request c (u64 (c.next_msg_id + 1)) op ≡ panicked
  unfolding execute request
  execute-panicked writes op c h = ground arith

  module _ (dial : Bytes → Answer (Conn V)) (meanwhile between : Pool V → Pool V) where
    -- After ensureConn without an error there is a connection.
    install-found :
        (addr : Bytes) (conn : Conn V) (p : Pool V)
        → (c : Conn V) × (find bytes_discrete addr (install addr conn p).conns ≡ some c)
    unfolding install
    install-found addr conn p = elim (Option-cases (find bytes_discrete addr p.conns)) [
      | inl absent ↦ (conn, ground (arith, find-store bytes_discrete addr addr conn p.conns))
      | inr (c, present) ↦ (c, ground arith)
    ]

    abbrev Ensured : Bytes → Pool V → Option Error × Pool V → Type 0
    Ensured addr base (some e, p) =
        (find bytes_discrete addr base.conns ≡ none) × (dial addr ≡ failed e)
    Ensured addr base (none, p) = (c : Conn V) × (find bytes_discrete addr p.conns ≡ some c)

    ensure_conn-Ensured :
        (addr : Bytes) (p : Pool V) → Ensured addr p (ensure_conn dial meanwhile between addr p)
    unfolding ensure_conn
    ensure_conn-Ensured addr p = ensured (find bytes_discrete addr p.conns) refl (dial addr) refl
      where
        ensured :
            (o : Option (Conn V))
            → find bytes_discrete addr p.conns ≡ o
            → (a : Answer (Conn V)) → dial addr ≡ a
            → Ensured addr p (elim o [
              | some conn ↦ (none, p)
              | none ↦ elim a [
                | failed e ↦ (some e, meanwhile p)
                | answered conn ↦ (none, install addr conn (meanwhile p))
              ]
            ])
        ensured (some c) found a d = (c, found)
        ensured none absent (failed e) d = (absent, d)
        ensured none absent (answered conn) d = install-found addr conn (meanwhile p)

    -- Why a call is refused, from the pool `base` that it began with: there was no connection, and dialling
    -- failed; the connection is closed or drains; the write failed; the connection that ensureConn found or
    -- installed was taken out of the pool before the lookup.
    abbrev pub IsRefused : Bool → Bytes → Pool V → Error → Pool V → Type 0
    IsRefused writes addr base e p =
        ((find bytes_discrete addr base.conns ≡ none) × (dial addr ≡ failed e))
        ⊎ (((e ≡ conn_closed)
              × ((c : Conn V) × ((find bytes_discrete addr p.conns ≡ some c)
                    × ((c.closed || c.draining) ≡ true))))
            ⊎ (((e ≡ message "write request") × (writes ≡ false))
                ⊎ ((e ≡ no_connection)
                    × ((q : Pool V) × ((c : Conn V) × (((ensure_conn dial meanwhile between addr
                                base)
                              ≡ (none, q))
                            × ((find bytes_discrete addr q.conns ≡ some c)
                                × ((between q ≡ p)
                                    × (find bytes_discrete addr p.conns ≡ none)))))))))

    -- The call waits at the address, where the connection has the operation under way; or it was refused;
    -- or the writing of the request panics, under the next message id of the pool's connection there.
    abbrev pub Sends : Bool → Bytes → Operation V → Pool V → Sending × Pool V → Type 0
    Sends writes addr op base (rejected e, p) = IsRefused writes addr base e p
    Sends writes addr op base (sent_to a id, p) =
        (a ≡ addr)
        × ((c : Conn V) × ((find bytes_discrete addr p.conns ≡ some c)
              × (find ℕ_discrete id c.pending ≡ some op)))
    Sends writes addr op base (sending_panicked, p) =
        (c : Conn V) × ((find bytes_discrete addr p.conns ≡ some c)
          × (request c (u64 (c.next_msg_id + 1)) op ≡ panicked))

    sending-Sends :
        (writes : Bool) (addr : Bytes) (op : Operation V) (base : Pool V) (conn : Conn V)
        (p : Pool V) (s : Started V)
        → find bytes_discrete addr p.conns ≡ some conn
        → execute writes op conn ≡ s
        → Sends writes addr op base (sending addr s p)
    unfolding sending
    sending-Sends writes addr op base conn p refused found e =
        inr (inl (refl, (conn, (found, execute-refused writes op conn e))))
    sending-Sends writes addr op base conn p (waiting id c) found e = (
      refl,
      (
        c,
        (
          ground (arith, find-store bytes_discrete addr addr c p.conns),
          execute-pending writes op conn c id e,
        ),
      ),
    )
    sending-Sends writes addr op base conn p (write_failed c) found e =
        inr (inr (inl (refl, execute-failed writes op conn c e)))
    sending-Sends writes addr op base conn p start_panicked found e =
        (conn, (found, execute-panicked writes op conn e))

    on_conn-Sends :
        (writes : Bool) (addr : Bytes) (op : Operation V) (base q : Pool V) (c : Conn V)
        → ensure_conn dial meanwhile between addr base ≡ (none, q)
        → find bytes_discrete addr q.conns ≡ some c
        → Sends writes addr op base (on_conn addr (execute writes op) (between q))
    unfolding on_conn
    on_conn-Sends writes addr op base q c ensured found =
        looked_up (find bytes_discrete addr (between q).conns) refl
      where
        looked_up :
            (o : Option (Conn V))
            → find bytes_discrete addr (between q).conns ≡ o
            → Sends writes addr op base (elim o [
              | none ↦ (rejected no_connection, between q)
              | some conn ↦ sending addr (execute writes op conn) (between q)
            ])
        looked_up none absent = inr (inr (inr (refl, (q, (c, (ensured, (found, (refl, absent))))))))
        looked_up (some conn) there =
            sending-Sends writes addr op base conn (between q) _ there refl

    call_at-Sends :
        (writes : Bool) (addr : Bytes) (op : Operation V) (p : Pool V)
        → Sends writes addr op p (call_at dial meanwhile between addr (execute writes op) p)
    unfolding call_at
    call_at-Sends writes addr op p =
        called (ensure_conn dial meanwhile between addr p) refl (ensure_conn-Ensured addr p)
      where
        called :
            (r : Option Error × Pool V)
            → ensure_conn dial meanwhile between addr p ≡ r
            → Ensured addr p r
            → Sends writes addr op p (elim r.0 [
              | some e ↦ (rejected e, r.1)
              | none ↦ on_conn addr (execute writes op) (between r.1)
            ])
        called (some e, q) same h = inl h
        called (none, q) same (c, found) = on_conn-Sends writes addr op p q c same found

    -- Whatever the other goroutines do while Execute dials, and before it looks its connection up: an
    -- operation that is routed to an address waits for its reply on the pool's connection to that address,
    -- which has it under way; it is refused only by an error of dialling there, where there was no
    -- connection, a connection in the pool that is closed or drains, a failed write, or another goroutine
    -- that has taken the connection out of the pool since ensureConn found or installed it; and it panics
    -- only where the writing of its request under the next message id of that connection does.
    pub pool_execute-Sends :
        (writes : Bool) (op : Operation V) (p p' : Pool V) (addr : Bytes)
        → route_operation op p ≡ some (addr, p')
        → is_empty addr ≡ false
        → Sends writes addr op p' (pool_execute dial meanwhile between writes op p)
    unfolding pool_execute
    pool_execute-Sends writes op p p' addr routed known =
        rw (routed, pool_execute, known) (call_at-Sends writes addr op p')
