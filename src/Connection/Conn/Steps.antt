-- ===== src/Connection/Conn/Steps.antt =====
-- A connection as a step relation: callers, the pool and the read loop take turns in any order.
use go_client.Prelude.{store, bytes_discrete, ℕ, Bool, false, ◌≡◌}
use go_client.Io.{Bytes}
use go_client.Operation.{Operation}
use go_client.Connection.Conn.{
  Conn, ListenerEntry, waiting, write_failed, execute, execute_listener, cancel, drain, close,
  unregister_listener, again, returned, read_round,
}

pub data Step {V : Type 0} : Conn V → Conn V → Type 0 where
  sends :
      (w : Bool) (op : Operation V) (id : ℕ) (c c' : Conn V)
      → execute w op c ≡ waiting id c'
      → Step c c'
  fails_to_send :
      (w : Bool) (op : Operation V) (c c' : Conn V) → execute w op c ≡ write_failed c' → Step c c'
  listens :
      (w : Bool) (op : Operation V) (key : Bytes) (entry : ListenerEntry) (id : ℕ) (c c' : Conn V)
      → execute_listener w op key entry c ≡ waiting id c'
      → Step c c'
  fails_to_listen :
      (w : Bool) (op : Operation V) (key : Bytes) (entry : ListenerEntry) (c c' : Conn V)
      → execute_listener w op key entry c ≡ write_failed c'
      → Step c c'
  cancels : (id : ℕ) (c : Conn V) → Step c (cancel id c)
  drains : (c : Conn V) → Step c (drain c)
  closes : (c : Conn V) → Step c (close c)
  unregisters : (key : Bytes) (c : Conn V) → Step c (unregister_listener key c)
  -- The application receives from a listener's channels, which frees places of their buffers.
  receives :
      (key : Bytes) (entry : ListenerEntry) (c : Conn V)
      → Step c (record c { listeners = store bytes_discrete key entry c.listeners })
  reads : (c c' : Conn V) → c.done_closed ≡ false → read_round c ≡ again c' → Step c c'
  ends : (c c' : Conn V) → c.done_closed ≡ false → read_round c ≡ returned c' → Step c c'

pub data Reach {V : Type 0} (s : Conn V) : Conn V → Type 0 where
  here : Reach s s
  more : {c c' : Conn V} → Reach s c → Step c c' → Reach s c'
