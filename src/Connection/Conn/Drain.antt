-- ===== src/Connection/Conn/Drain.antt =====
-- internal/connection/conn.go: how a connection is taken out of service.
use go_client.Prelude.{
  ◌≡◌, [], ◌∷◌, Option, none, some, Bool, true, false, refl, arith, find, discard, ap, ◌∙◌,
}
use go_client.Io.{Bytes, done}
use go_client.Codec.Constants.{is_error}
use go_client.Codec.Header.{ResponseHeader, TopologyUpdate, read_error_message}
use go_client.Operation.{Operation}
use go_client.Connection.Conn.{
  Conn, ListenerEntry, refused, again, returned, execute, execute_listener, drain, close, serve,
  reply_error, reply_value, finish_round, take_topology, handle_response, at, send_reply, value,
  server_error,
}

module _ {V : Type 0} where
  -- A connection that drains or is closed takes no request and registers no listener.
  pub shut-refuses :
      (w : Bool) (op : Operation V) (key : Bytes) (entry : ListenerEntry) (c : Conn V)
      → (execute w op (drain c) ≡ refused)
        × (execute w op (close c) ≡ refused)
        × (execute_listener w op key entry (drain c) ≡ refused)
        × (execute_listener w op key entry (close c) ≡ refused)
  unfolding execute execute_listener drain close
  shut-refuses w op key entry c = ground arith

  -- What stays where a response carries a topology, or none.
  topology-keeps :
      (t : Option TopologyUpdate) (name : Bytes) (c : Conn V)
      → let d = take_topology t name c in
        (d.draining ≡ c.draining)
        × (d.listeners ≡ c.listeners)
        × (d.pending ≡ c.pending)
        × (d.reader ≡ c.reader)
        × (d.replies ≡ c.replies)
        × (d.closed ≡ c.closed)
  unfolding take_topology
  topology-keeps none name c = ground arith
  topology-keeps (some t) name c = ground arith

  value-closes :
      (h : ResponseHeader) (op : Operation V) (c : Conn V) (s : Bytes) (v : V)
      → c.draining ≡ true
      → c.listeners ≡ []
      → c.pending ≡ []
      → is_error h.status ≡ false
      → op.decode_response h.status c.reader ≡ done v s
      → serve h op c
        ≡ returned
            (record (close (send_reply h.message_id (value v) (at c s))) { done_closed = true })
  unfolding serve reply_value finish_round
  value-closes h op c s v dr l p ok e = ground arith

  found-last :
      (h : ResponseHeader) (op : Operation V) (c : Conn V)
      → c.pending ≡ (h.message_id, op) ∷ []
      → handle_response h c
        ≡ serve h op (take_topology h.topology_update op.cache_name (record c { pending = [] }))
  unfolding handle_response find discard
  found-last h op c p = ground arith

  -- The response to the last request under way closes a draining connection that has no listener, where
  -- its status is no error and its body is decoded: the caller is sent the value, and the loop returns.
  pub last_reply-closes :
      (h : ResponseHeader) (op : Operation V) (c : Conn V) (s : Bytes) (v : V)
      → c.draining ≡ true
      → c.listeners ≡ []
      → c.pending ≡ (h.message_id, op) ∷ []
      → is_error h.status ≡ false
      → op.decode_response h.status c.reader ≡ done v s
      → (d : Conn V) × (handle_response h c ≡ returned d)
        × (d.closed ≡ true)
        × (d.done_closed ≡ true)
        × (d.replies ≡ (h.message_id, value v) ∷ c.replies)
  unfolding close
  last_reply-closes h op c s v dr l p ok e =
      let c1 = record c { pending = [] } in
      let (dr', l', p', reader', replies', closed') =
        topology-keeps h.topology_update op.cache_name c1 in
      let ends =
        value-closes h op (take_topology h.topology_update op.cache_name c1) s v (dr' ∙ dr) (l' ∙ l)
          p' ok (ap (op.decode_response h.status) reader' ∙ e) in
      (_, found-last h op c p ∙ ends, refl, refl, ap (λ r. (h.message_id, value v) ∷ r) replies')

  error-goes_on :
      (h : ResponseHeader) (op : Operation V) (c : Conn V) (m s : Bytes)
      → is_error h.status ≡ true
      → read_error_message c.reader ≡ done m s
      → serve h op c
        ≡ again (send_reply h.message_id (server_error h.status h.message_id m) (at c s))
  unfolding serve reply_error
  error-goes_on h op c m s bad e = ground arith

  -- The same response with an error status leaves the connection open: the caller is sent the error, and
  -- the loop goes on to read, although the connection drains, no request is under way and no listener is
  -- registered.
  pub last_error-stays_open :
      (h : ResponseHeader) (op : Operation V) (c : Conn V) (m s : Bytes)
      → c.draining ≡ true
      → c.listeners ≡ []
      → c.pending ≡ (h.message_id, op) ∷ []
      → is_error h.status ≡ true
      → read_error_message c.reader ≡ done m s
      → (d : Conn V) × (handle_response h c ≡ again d)
        × (d.closed ≡ c.closed)
        × (d.draining ≡ true)
        × (d.pending ≡ [])
        × (d.listeners ≡ [])
        × (d.replies ≡ (h.message_id, server_error h.status h.message_id m) ∷ c.replies)
  last_error-stays_open h op c m s dr l p bad e =
      let c1 = record c { pending = [] } in
      let (dr', l', p', reader', replies', closed') =
        topology-keeps h.topology_update op.cache_name c1 in
      let going =
        error-goes_on h op (take_topology h.topology_update op.cache_name c1) m s bad
          (ap read_error_message reader' ∙ e) in
      (
        _,
        found-last h op c p ∙ going,
        closed',
        dr' ∙ dr,
        p',
        l' ∙ l,
        ap (λ r. (h.message_id, server_error h.status h.message_id m) ∷ r) replies',
      )
