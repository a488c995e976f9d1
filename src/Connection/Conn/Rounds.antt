-- ===== src/Connection/Conn/Rounds.antt =====
-- internal/connection/conn.go: that a round of readLoop answers only what is under way.
use go_client.Prelude.{
  ℕ, zero, suc, ◌+◌, ◌≤◌, ◌≡◌, List, [], ◌∷◌, Option, none, some, refl, arith, ◌∙◌, count, keys,
  find, discard, ℕ_discrete, count-discard, count-find, Option-cases, Bool-cases, inl, inr,
}
use go_client.Io.{Bytes, Error, Outcome, done, fail, panic}
use go_client.Codec.Constants.{is_event}
use go_client.Codec.Header.{ResponseHeader, TopologyUpdate, read_response_header}
use go_client.Operation.{Operation}
use go_client.Operation.Listener.{Event, entry_event, custom_event}
use go_client.Connection.Conn.{
  Conn, Reply, Round, again, returned, crashed, take_topology, answer_all, close_all_pending,
  Delivery, offer, deliver, ListenerEntry, cache_entry, custom, handle_counter_event, handle_event,
  decode_and_deliver, skip_event, finish_round, reply_error, reply_value, serve, handle_response,
  dispatch, read_round, at, close,
}
use mathlib.Core.Logic.{ite}
use go_client.Connection.Conn.Ids.{Fewer, Fewer-refl}

module _ {V : Type 0} where
  answer_all-count :
      (err : Error) (m : List (ℕ × Operation V)) (replies : List (ℕ × Reply V)) (i : ℕ)
      → count i (keys (answer_all err m replies)) ≡ count i (keys replies) + count i (keys m)
  unfolding answer_all count
  answer_all-count err [] replies i = omega arith
  answer_all-count err ((j, op) ∷ m) replies i =
      rw (answer_all-count err m ((j, _) ∷ replies) i) (ground arith)

  -- What a round leaves, where it does not panic.
  abbrev pub left : Round V → Conn V → Conn V
  left (again c) d = c
  left (returned c) d = c
  left crashed d = d

  -- Nothing that a request sees has changed.
  abbrev Same : Conn V → Conn V → Type 0
  Same c c' = (c'.replies ≡ c.replies) × (c'.pending ≡ c.pending) × (c'.next_msg_id ≡ c.next_msg_id)

  offer-Same :
      (room : Option ℕ) (key : Bytes) (d : Delivery) (c : Conn V) → Same c (offer room key d c)
  unfolding offer
  offer-Same none key d c = (refl, refl, refl)
  offer-Same (some zero) key d c = (refl, refl, refl)
  offer-Same (some (suc room)) key d c = (refl, refl, refl)

  counter-Same : (c : Conn V) → Same c (left (handle_counter_event c) c)
  unfolding handle_counter_event offer
  counter-Same c = ground arith

  delivery-Same :
      (key : Bytes) (entry : ListenerEntry) (ev : Event) (c : Conn V)
      → Same c (deliver key entry ev c)
  unfolding deliver
  delivery-Same key entry (entry_event ev) c = offer-Same entry.ch key (cache_entry ev) _
  delivery-Same key entry (custom_event content) c =
      offer-Same entry.custom_ch key (custom content) _

  event-Same : (op_code : ℕ) (c : Conn V) → Same c (left (handle_event op_code c) c)
  unfolding handle_event decode_and_deliver skip_event
  event-Same op_code c = grind (arith, counter-Same c, delivery-Same)

  topology-Same :
      (t : Option TopologyUpdate) (name : Bytes) (c : Conn V) → Same c (take_topology t name c)
  unfolding take_topology
  topology-Same none name c = (refl, refl, refl)
  topology-Same (some t) name c = ground arith

  -- An operation that is served is answered at most once more.
  serve-once :
      (h : ResponseHeader) (op : Operation V) (c : Conn V)
      → let d = left (serve h op c) c in
        ((i : ℕ)
          → count i (keys d.replies)
            ≤ ite
                (ℕ_discrete h.message_id i)
                (suc (count i (keys c.replies)))
                (count i (keys c.replies)))
        × (d.pending ≡ c.pending)
        × (d.next_msg_id ≡ c.next_msg_id)
  unfolding serve reply_error reply_value finish_round close count
  serve-once h op c = (λ i. ground arith, ground arith, ground arith)

  Fewer-left : (r : Round V) (b c : Conn V) → Fewer b (left r c) → Fewer b (left r b)
  Fewer-left (again d) b c f = f
  Fewer-left (returned d) b c f = f
  Fewer-left crashed b c f = Fewer-refl b

  Fewer-Same : {c c' : Conn V} → Same c c' → Fewer c c'
  Fewer-Same (r, p, n) = record { fewer = λ i. rw (r, p) (omega arith); same_next = n }

  served-Fewer :
      (h : ResponseHeader) (op : Operation V) (c c' : Conn V)
      → find ℕ_discrete h.message_id c.pending ≡ some op
      → c'.replies ≡ c.replies
      → c'.pending ≡ discard ℕ_discrete h.message_id c.pending
      → c'.next_msg_id ≡ c.next_msg_id
      → Fewer c (left (serve h op c') c')
  served-Fewer h op c c' found r p n =
      let (answers, pending, next_id) = serve-once h op c' in
      record {
        fewer = λ i.
            rw (pending, p, count-discard i h.message_id c.pending)
              (ground (arith, answers i, count-find h.message_id op c.pending found, r));
        same_next = next_id ∙ n;
      }

  response-Fewer : (h : ResponseHeader) (c : Conn V) → Fewer c (left (handle_response h c) c)
  unfolding handle_response
  response-Fewer h c = elim (Option-cases (find ℕ_discrete h.message_id c.pending)) [
    | inl none_left ↦ rw (left, none_left) (Fewer-Same (topology-Same h.topology_update [] c))
    | inr (op, found) ↦
        rw (left, found)
          (let c1 = record c { pending = discard ℕ_discrete h.message_id c.pending } in
            let c2 = take_topology h.topology_update op.cache_name c1 in
            let (r, p, n) = topology-Same h.topology_update op.cache_name c1 in
            Fewer-left (serve h op c2) c c2 (served-Fewer h op c c2 found r p n))
  ]

  -- The fields that Fewer speaks of are the same before and after reading some bytes.
  Fewer-at : {d : Conn V} (c : Conn V) (s : Bytes) → Fewer (at c s) d → Fewer c d
  Fewer-at c s f = record { fewer = f.fewer; same_next = f.same_next }

  dispatch-Fewer : (o : Outcome ResponseHeader) (c : Conn V) → Fewer c (left (dispatch o c) c)
  unfolding dispatch count
  dispatch-Fewer panic c = Fewer-refl c
  dispatch-Fewer (fail e s) c = record {
    fewer =
        λ i. unfold close_all_pending in omega (arith, answer_all-count e c.pending c.replies i);
    same_next = unfold close_all_pending in refl;
  }
  dispatch-Fewer (done h s) c = elim (Bool-cases (is_event h.op_code)) [
    | inl event ↦
        rw (left, event)
          (Fewer-left (handle_event h.op_code (at c s)) c (at c s)
            (Fewer-Same (event-Same h.op_code (at c s))))
    | inr reply ↦
        rw (left, reply)
          (Fewer-left (handle_response h (at c s)) c (at c s)
            (Fewer-at c s (response-Fewer h (at c s))))
  ]

  pub round-Fewer : (c : Conn V) → Fewer c (left (read_round c) c)
  unfolding read_round
  round-Fewer c = dispatch-Fewer (read_response_header c.client_intelligence c.reader) c
