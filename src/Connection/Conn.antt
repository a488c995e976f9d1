-- ===== src/Connection/Conn.antt =====
-- internal/connection/conn.go: requests under way on one connection, and the loop that reads their
-- responses. Channels are logs: what was sent on a request's channel, on a listener's, and what the
-- topology callback was given. A listener is known by its identifier's bytes, of which the source keeps
-- the hex form. The operations under way all return values of the type `V`.

pub mod Steps
pub mod Ids
pub mod Rounds
pub mod Once
pub mod Drain
pub mod Tests
use go_client.Prelude.{
  ℕ, zero, suc, ◌+◌, ◌-◌, ◌%◌, ◌^◌, List, [], ◌∷◌, ◌++◌, Option, none, some, Bool, true, false,
  ◌==◌, ◌&&◌, ◌||◌, not, if◌then◌else◌, u64, ℕ_discrete, bytes_discrete, is_empty, find, store,
  discard, map,
}
use go_client.Io.{Bytes, Error, Outcome, done, fail, panic, Write, wrote, panicked, ◌>>◌}
use go_client.Codec.Constants.{is_error, is_event, op_counter_event}
use go_client.Codec.Header.{
  RequestHeader, ResponseHeader, TopologyUpdate, write_request_header, read_response_header,
  read_error_message,
}
use go_client.Operation.{Operation}
use go_client.Operation.Listener.{
  Event, entry_event, custom_event, CacheEntryEvent, read_event_listener_id, decode_event_body,
  skip_event_body,
}
use go_client.Operation.Counter.{CounterEvent, decode_counter_event_body}

-- What arrives on the channel of a request: the decoded value, the server's error, or an error of the
-- connection.
pub data Reply (V : Type 0) : Type 0 where
  value : V → Reply V
  decode_error : Error → Reply V
  server_error : ℕ → ℕ → Bytes → Reply V
  read_error : Error → Reply V

-- The channels that are not nil, each with the free places of its buffer.
pub record ListenerEntry : Type 0 where
  pub ch : Option ℕ
  pub custom_ch : Option ℕ
  pub counter_ch : Option ℕ

-- What a listener's channel is sent.
pub data Delivery : Type 0 where
  cache_entry : CacheEntryEvent → Delivery
  custom : Bytes → Delivery
  counter : CounterEvent → Delivery

-- `replies`, `deliveries` and `callbacks` are the logs, latest first; `sent` the requests written.
pub record Conn (V : Type 0) : Type 0 where
  pub reader : Bytes
  pub sent : List Bytes
  pub pending : List (ℕ × Operation V)
  pub listeners : List (Bytes × ListenerEntry)
  pub next_msg_id : ℕ
  pub topology_id : ℕ
  pub closed : Bool
  pub draining : Bool
  pub has_callback : Bool
  pub client_intelligence : ℕ
  pub protocol_version : ℕ
  pub done_closed : Bool
  pub replies : List (ℕ × Reply V)
  pub deliveries : List (Bytes × Delivery)
  pub callbacks : List (TopologyUpdate × Bytes)

-- How a round of the read loop ends: the loop goes on, returns, or panics.
pub data Round (V : Type 0) : Type 0 where
  again : Conn V → Round V
  returned : Conn V → Round V
  crashed : Round V

-- The free places of a buffer after a send that did not block.
abbrev pub less : Option ℕ → Option ℕ
less none = none
less (some zero) = some zero
less (some (suc room)) = some room

-- Execute up to its select: ErrConnClosed, the message id that the caller waits for, a request that was
-- withdrawn because the write failed, or a panic while the request was put together.
pub data Started (V : Type 0) : Type 0 where
  refused : Started V
  waiting : ℕ → Conn V → Started V
  write_failed : Conn V → Started V
  start_panicked : Started V

module _ {V : Type 0} where
  -- NewConn, given what the server is going to send.
  unfoldable pub new_conn : Bytes → Bool → ℕ → ℕ → Conn V
  new_conn server has_callback client_intelligence protocol_version = record {
    reader = server;
    sent = [];
    pending = [];
    listeners = [];
    next_msg_id = 0;
    topology_id = 0;
    closed = false;
    draining = false;
    has_callback = has_callback;
    client_intelligence = client_intelligence;
    protocol_version = protocol_version;
    done_closed = false;
    replies = [];
    deliveries = [];
    callbacks = [];
  }

  -- The bytes of a request, with what the connection adds to the operation.
  unfoldable pub request : Conn V → ℕ → Operation V → Write
  request c msg_id op = do
    write_request_header (record {
      message_id = msg_id;
      op_code = op.request_op_code;
      version = c.protocol_version;
      cache_name = op.cache_name;
      flags = op.flags;
      client_intelligence = c.client_intelligence;
      topology_id = c.topology_id;
      key_media_type = op.key_media_type;
      value_media_type = op.value_media_type;
    })
    op.write_body

  -- `writes` tells whether the write to the network succeeds.
  unfoldable pub execute : Bool → Operation V → Conn V → Started V
  unfolding request
  execute writes op c =
      if c.closed || c.draining
      then refused
      else (let id = u64 (c.next_msg_id + 1) in
          let c' = record c { next_msg_id = id; pending = store ℕ_discrete id op c.pending } in
          elim (request c id op) [
            | panicked ↦ start_panicked
            | wrote bytes ↦
                if writes
                then waiting id (record c' { sent = c.sent ++ bytes ∷ [] })
                else write_failed (record c' { pending = discard ℕ_discrete id c'.pending })
          ])

  -- The branch of the select for a context that ends: the request is withdrawn.
  unfoldable pub cancel : ℕ → Conn V → Conn V
  cancel id c = record c { pending = discard ℕ_discrete id c.pending }

  -- `entry.ch <- &response{…}`, after LoadAndDelete
  abbrev pub send_reply : ℕ → Reply V → Conn V → Conn V
  send_reply id r c = record c { replies = (id, r) ∷ c.replies }

  -- A topology change, where the response carries one and there is a callback.
  unfoldable pub take_topology : Option TopologyUpdate → Bytes → Conn V → Conn V
  take_topology none cache_name c = c
  take_topology (some t) cache_name c =
      if c.has_callback
      then record c { topology_id = t.id; callbacks = (t, cache_name) ∷ c.callbacks }
      else c

  -- Every request under way is answered with the error, and every listener dropped.
  unfoldable pub answer_all :
      Error → List (ℕ × Operation V) → List (ℕ × Reply V) → List (ℕ × Reply V)
  answer_all e [] replies = replies
  answer_all e ((id, op) ∷ rest) replies = answer_all e rest ((id, read_error e) ∷ replies)

  unfoldable pub close_all_pending : Error → Conn V → Conn V
  close_all_pending e c = record c {
    replies = answer_all e c.pending c.replies;
    pending = [];
    listeners = [];
  }

  -- Close
  unfoldable pub close : Conn V → Conn V
  close c = record c { closed = true }

  -- Drain
  unfoldable pub drain : Conn V → Conn V
  drain c = record c { draining = true }

  -- A channel that is nil or full is sent nothing; the place that a delivery takes is given back when
  -- the application receives it.
  unfoldable pub offer : Option ℕ → Bytes → Delivery → Conn V → Conn V
  offer none key d c = c
  offer (some zero) key d c = c
  offer (some (suc room)) key d c = record c { deliveries = (key, d) ∷ c.deliveries }

  unfoldable pub deliver : Bytes → ListenerEntry → Event → Conn V → Conn V
  unfolding offer
  deliver key entry (entry_event ev) c = offer entry.ch key (cache_entry ev) (record c {
    listeners = store bytes_discrete key (record entry { ch = less entry.ch }) c.listeners;
  })
  deliver key entry (custom_event content) c =
      offer entry.custom_ch key (custom content) (record c {
        listeners =
            store bytes_discrete key (record entry { custom_ch = less entry.custom_ch })
              c.listeners;
      })

  abbrev pub at : Conn V → Bytes → Conn V
  at c s = record c { reader = s }

  unfoldable pub handle_counter_event : Conn V → Round V
  unfolding offer
  handle_counter_event c = elim (decode_counter_event_body c.reader) [
    | panic ↦ crashed
    | fail e s ↦ again (at c s)
    | done (ev, key) s ↦ elim (find bytes_discrete key c.listeners) [
      | none ↦ again (at c s)
      | some entry ↦ again (
          offer entry.counter_ch key (counter ev) (record (at c s) {
            listeners =
                store bytes_discrete key (record entry { counter_ch = less entry.counter_ch })
                  c.listeners;
          }))
    ]
  ]

  -- The rest of handleEvent, once the listener is found.
  unfoldable pub decode_and_deliver : ℕ → Bytes → ListenerEntry → Conn V → Round V
  decode_and_deliver op_code key entry c = elim (decode_event_body op_code c.reader) [
    | panic ↦ crashed
    | fail e s ↦ again (at c s)
    | done ev s ↦ again (deliver key entry ev (at c s))
  ]

  unfoldable pub skip_event : ℕ → Conn V → Round V
  skip_event op_code c = elim (skip_event_body op_code c.reader) [
    | panic ↦ crashed
    | fail e s ↦ again (at c s)
    | done u s ↦ again (at c s)
  ]

  unfoldable pub handle_event : ℕ → Conn V → Round V
  handle_event op_code c =
      if op_code == op_counter_event
      then handle_counter_event c
      else elim (read_event_listener_id c.reader) [
        | panic ↦ crashed
        | fail e s ↦ again (at c s)
        | done key s ↦ elim (find bytes_discrete key c.listeners) [
          | none ↦ skip_event op_code (at c s)
          | some entry ↦ decode_and_deliver op_code key entry (at c s)
        ]
      ]

  -- The end of a round whose response was decoded, with or without an error: a draining connection that
  -- has nothing left to do is closed.
  unfoldable pub finish_round : Conn V → Round V
  finish_round c =
      if c.draining && is_empty c.pending && is_empty c.listeners
      then returned (record (close c) { done_closed = true })
      else again c

  -- A response of an error status: its message is sent on, the error of reading it dropped.
  unfoldable pub reply_error : ResponseHeader → Conn V → Round V
  reply_error h c = elim (read_error_message c.reader) [
    | panic ↦ crashed
    | fail e s ↦ again (send_reply h.message_id (server_error h.status h.message_id []) (at c s))
    | done m s ↦ again (send_reply h.message_id (server_error h.status h.message_id m) (at c s))
  ]

  unfoldable pub reply_value : ResponseHeader → Operation V → Conn V → Round V
  reply_value h op c = elim (op.decode_response h.status c.reader) [
    | panic ↦ crashed
    | fail e s ↦ finish_round (send_reply h.message_id (decode_error e) (at c s))
    | done v s ↦ finish_round (send_reply h.message_id (value v) (at c s))
  ]

  unfoldable pub serve : ResponseHeader → Operation V → Conn V → Round V
  serve h op c = if is_error h.status then reply_error h c else reply_value h op c

  unfoldable pub handle_response : ResponseHeader → Conn V → Round V
  handle_response h c = elim (find ℕ_discrete h.message_id c.pending) [
    | none ↦ again (take_topology h.topology_update [] c)
    | some op ↦ serve h op (
        take_topology h.topology_update op.cache_name
          (record c { pending = discard ℕ_discrete h.message_id c.pending }))
  ]

  -- What a round does with the header that it read.
  unfoldable pub dispatch : Outcome ResponseHeader → Conn V → Round V
  dispatch panic c = crashed
  dispatch (fail e s) c = returned (record (close_all_pending e (at c s)) { done_closed = true })
  dispatch (done h s) c =
      if is_event h.op_code then handle_event h.op_code (at c s) else handle_response h (at c s)

  -- One round of readLoop.
  unfoldable pub read_round : Conn V → Round V
  read_round c = dispatch (read_response_header c.client_intelligence c.reader) c

  -- ExecuteListener up to its select, and UnregisterListener, which is also what it does on an error.
  unfoldable pub unregister_listener : Bytes → Conn V → Conn V
  unregister_listener key c = record c { listeners = discard bytes_discrete key c.listeners }

  unfoldable pub withdraw_listener : Bytes → Started V → Started V
  unfolding unregister_listener
  withdraw_listener key refused = refused
  withdraw_listener key (waiting id c) = waiting id c
  withdraw_listener key (write_failed c) = write_failed (unregister_listener key c)
  withdraw_listener key start_panicked = start_panicked

  unfoldable pub execute_listener : Bool → Operation V → Bytes → ListenerEntry → Conn V → Started V
  execute_listener writes op key entry c =
      if c.closed || c.draining
      then refused
      else withdraw_listener key
          (execute writes op (record c { listeners = store bytes_discrete key entry c.listeners }))
