-- ===== src/Connection/Pool/Calls/Departed.antt =====
-- internal/connection/pool.go: what becomes of a listener when the server where it lives leaves.
use go_client.Prelude.{◌≡◌, ◌≢◌, ap, ◌∙◌, map, none, some, Bool, false, find, bytes_discrete, arith}
use go_client.Io.{Bytes}
use go_client.Codec.Header.{TopologyUpdate, addr}
use go_client.Operation.{Operation}
use go_client.Connection.Pool.{Pool, contains, handle_topology_update}
use go_client.Connection.Pool.Departures.{topology-taken}
use go_client.Connection.Pool.Calls.{rejected, no_connection, on_conn, execute_on_listener}
use go_client.Connection.Pool.Calls.Homes.{topology-states}

module _ {V : Type 0} where
  -- Where a topology of a new id no longer has the address of a listener: the listener stays registered,
  -- and every operation on it is refused, since there is no connection.
  pub departed-unreachable :
      (key home : Bytes) (t : TopologyUpdate) (cache_name : Bytes) (p p' : Pool V)
      → find bytes_discrete key p.listener_states ≡ some home
      → contains home (map addr t.servers) ≡ false
      → t.id ≢ p.topo_id
      → handle_topology_update t cache_name p ≡ some p'
      → (find bytes_discrete key p'.listener_states ≡ some home)
        × ((w : Bool) (op : Operation V)
            → execute_on_listener w key op p' ≡ (rejected no_connection, p'))
  unfolding execute_on_listener on_conn
  departed-unreachable key home t cache_name p p' lives gone new taken =
      let states = topology-states t cache_name p p' taken in
      let conns = (topology-taken t cache_name p p' new taken).3 home in
      let lives' : find bytes_discrete key p'.listener_states ≡ some home =
        ap (find bytes_discrete key) states ∙ lives in
      let absent : find bytes_discrete home p'.conns ≡ none = ground arith in
      (lives', λ w op. ground arith)
