-- ===== src/Connection/Pool/Calls.antt =====
-- internal/connection/pool.go: the methods that dial and send. `dial` is what dialAndSetup comes to at an
-- address, `meanwhile` what the other goroutines make of the pool while it dials without the lock, `between`
-- what they make of it between ensureConn and the lookup of the connection. Sending is Conn.Execute up to its select; a reply that the select waits for is an argument.
pub mod Sent
pub mod Homes
pub mod Departed
use go_client.Prelude.{
  ℕ, List, [], ◌∷◌, ◌++◌, map, Option, none, some, Bool, true, false, if◌then◌else◌, is_empty, find,
  store, discard, bytes_discrete,
}
use go_client.Io.{Bytes, Error, message, wrap, Answer, answered, failed}
use go_client.Operation.{Operation}
use go_client.Connection.Conn.{
  Conn, ListenerEntry, Started, refused, waiting, write_failed, start_panicked, execute,
  execute_listener, unregister_listener, close,
}
use go_client.Connection.Pool.{Pool, round_robin, route_operation}

-- How far a call has come when it waits for the reply: refused with an error, waiting under a message id on
-- the connection to an address, or a panic.
pub data Sending : Type 0 where
  rejected : Error → Sending
  sent_to : Bytes → ℕ → Sending
  sending_panicked : Sending

-- What a method that adds a listener comes to.
pub data Adding : Type 0 where
  added : Adding
  not_added : Error → Adding
  adding_panicked : Adding

abbrev pub no_servers : Error
no_servers = message "no servers available"

abbrev pub no_connection : Error
no_connection = message "no connection"

abbrev pub listener_not_found : Error
listener_not_found = message "listener not found"

abbrev pub conn_closed : Error
conn_closed = message "connection closed"

module _ {V : Type 0} where
  -- The end of ensureConn, under the lock: of two connections to one address the later is closed.
  unfoldable pub install : Bytes → Conn V → Pool V → Pool V
  install addr conn p = elim (find bytes_discrete addr p.conns) [
    | none ↦ record p { conns = store bytes_discrete addr conn p.conns }
    | some other ↦ record p { retired = close conn ∷ p.retired }
  ]

  -- What starting a request on the connection to an address leaves in the pool.
  unfoldable pub sending : Bytes → Started V → Pool V → Sending × Pool V
  sending addr refused p = (rejected conn_closed, p)
  sending addr (waiting id c) p =
      (sent_to addr id, record p { conns = store bytes_discrete addr c p.conns })
  sending addr (write_failed c) p =
      (rejected (message "write request"), record p { conns = store bytes_discrete addr c p.conns })
  sending addr start_panicked p = (sending_panicked, p)

  -- `conn := p.conns[addr]`, and the call on it.
  unfoldable pub on_conn : Bytes → (Conn V → Started V) → Pool V → Sending × Pool V
  on_conn addr start p = elim (find bytes_discrete addr p.conns) [
    | none ↦ (rejected no_connection, p)
    | some conn ↦ sending addr (start conn) p
  ]

  module _ (dial : Bytes → Answer (Conn V)) (meanwhile between : Pool V → Pool V) where
    unfoldable pub ensure_conn : Bytes → Pool V → Option Error × Pool V
    ensure_conn addr p = elim (find bytes_discrete addr p.conns) [
      | some conn ↦ (none, p)
      | none ↦ elim (dial addr) [
        | failed e ↦ (some e, meanwhile p)
        | answered conn ↦ (none, install addr conn (meanwhile p))
      ]
    ]

    -- ensureConn and the call on the connection.
    unfoldable pub call_at : Bytes → (Conn V → Started V) → Pool V → Sending × Pool V
    call_at addr start p =
        let (err, p') = ensure_conn addr p in
        elim err [ some e ↦ (rejected e, p') | none ↦ on_conn addr start (between p') ]

    -- ExecuteOn.
    unfoldable pub execute_on : Bool → Bytes → Operation V → Pool V → Sending × Pool V
    execute_on writes addr op p = call_at addr (execute writes op) p

    -- Execute, and ExecuteWithAddr, which returns the address, too.
    unfoldable pub pool_execute : Bool → Operation V → Pool V → Sending × Pool V
    pool_execute writes op p = elim (route_operation op p) [
      | none ↦ (sending_panicked, p)
      | some (addr, p') ↦
          if is_empty addr then (rejected no_servers, p') else call_at addr (execute writes op) p'
    ]

    -- Connect, on the servers that are left.
    unfoldable pub connect_all : List Bytes → Pool V → Option Error × Pool V
    connect_all [] p = (none, p)
    connect_all (addr ∷ addrs) p =
        let (err, p') = ensure_conn addr p in
        elim err [ some e ↦ (some (wrap "connect" e), p') | none ↦ connect_all addrs p' ]

    -- What the methods that add a listener do, once the reply is there: an error withdraws the listener from
    -- the connection.
    unfoldable pub registered : Bytes → Option Error → Sending × Pool V → Adding × Pool V
    registered key reply (rejected e, p) = (not_added e, p)
    registered key reply (sending_panicked, p) = (adding_panicked, p)
    registered key none (sent_to addr id, p) =
        (added, record p { listener_states = store bytes_discrete key addr p.listener_states })
    registered key (some e) (sent_to addr id, p) = elim (find bytes_discrete addr p.conns) [
      | none ↦ (not_added e, p)
      | some conn ↦ (
        not_added e,
        record p { conns = store bytes_discrete addr (unregister_listener key conn) p.conns },
      )
    ]

    unfoldable pub add_entry :
        Bool → Option Error → Operation V → Bytes → ListenerEntry → Pool V → Adding × Pool V
    add_entry writes reply op key entry p =
        let (addr, p') = round_robin p in
        if is_empty addr
        then (not_added no_servers, p')
        else registered key reply (call_at addr (execute_listener writes op key entry) p')

    abbrev pub no_channels : ListenerEntry
    no_channels = record { ch = none; custom_ch = none; counter_ch = none }

    -- AddListener, for a channel with `room` free places, and the three others.
    unfoldable pub add_listener :
        Bool → Option Error → Operation V → Bytes → ℕ → Pool V → Adding × Pool V
    add_listener writes reply op key room p =
        add_entry writes reply op key (record no_channels { ch = some room }) p

    unfoldable pub add_custom_listener :
        Bool → Option Error → Operation V → Bytes → ℕ → Pool V → Adding × Pool V
    add_custom_listener writes reply op key room p =
        add_entry writes reply op key (record no_channels { custom_ch = some room }) p

    unfoldable pub add_counter_listener :
        Bool → Option Error → Operation V → Bytes → ℕ → Pool V → Adding × Pool V
    add_counter_listener writes reply op key room p =
        add_entry writes reply op key (record no_channels { counter_ch = some room }) p

    unfoldable pub add_bloom_listener :
        Bool → Option Error → Operation V → Bytes → ℕ → Pool V → Adding × Pool V
    add_bloom_listener writes reply op key room p =
        add_entry writes reply op key (record no_channels { ch = some room }) p

  -- ExecuteOnListener: on the connection to the address where the listener was registered.
  unfoldable pub execute_on_listener : Bool → Bytes → Operation V → Pool V → Sending × Pool V
  execute_on_listener writes key op p = elim (find bytes_discrete key p.listener_states) [
    | none ↦ (rejected listener_not_found, p)
    | some addr ↦ on_conn addr (execute writes op) p
  ]

  -- RemoveListener and RemoveCounterListener; `none` where the connection is gone and nothing is sent.
  unfoldable pub remove_listener : Bool → Bytes → Operation V → Pool V → Option Sending × Pool V
  remove_listener writes key op p = elim (find bytes_discrete key p.listener_states) [
    | none ↦ (some (rejected listener_not_found), p)
    | some addr ↦
        let p' = record p { listener_states = discard bytes_discrete key p.listener_states } in
        elim (find bytes_discrete addr p.conns) [
          | none ↦ (none, p')
          | some conn ↦
              let conn' = unregister_listener key conn in
              let p'' = record p' { conns = store bytes_discrete addr conn' p'.conns } in
              let (s, q) = sending addr (execute writes op conn') p'' in (some s, q)
        ]
  ]

  -- Close.
  unfoldable pub close_pool : Pool V → Pool V
  close_pool p = record p { conns = []; retired = map (λ e. close e.1) p.conns ++ p.retired }
