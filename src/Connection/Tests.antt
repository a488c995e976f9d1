-- ===== src/Connection/Tests.antt =====
-- The theorems on the balancer and the pool at concrete inputs.
use go_client.Prelude.{
  ℕ, ◌/◌, ◌<◌, ◌≡◌, ◌≢◌, List, [], ◌∷◌, map, get_elem?, get_or, Bool, true, false, none, some, find,
  store, All, ℕ_discrete, refl, arith, bytes_discrete, is_empty,
}
use go_client.Io.{Bytes, Answer, answered}
use go_client.Codec.VarInt.{write_groups, write_vint, write_vlong}
use go_client.Codec.Wire.{
  write_u1, write_lp_bytes, write_media_type_none, write_media_type_predefined,
}
use go_client.Codec.Header.{
  ServerAddress, TopologyUpdate, addr, write_request_header, write_media_type_field,
}
use go_client.Hash.ConsistentHash.{normalized_hash, segment_size_of}
use go_client.Operation.Key.{contains_key}
use go_client.Operation.{Operation}
use go_client.Connection.Balancer.{Balancer, new_balancer, turn, next, after_calls, next-reaches}
use go_client.Connection.Conn.{
  Conn, ListenerEntry, new_conn, request, withdraw_listener, execute, execute_listener,
}
use go_client.Connection.Pool.{
  Pool, contains, new_pool, handle_topology_update, route_operation, take_hash, take_servers,
  drop_hash, route_keyed, round_robin,
}
use go_client.Connection.Pool.Departures.{Drained, HasLeft, topology-departures}
use mathlib.Core.Logic.{ite}
use mathlib.Core.List.{Memᴰ, dec_mem}
use go_client.Connection.Pool.Calls.{
  added, rejected, no_connection, install, sending, on_conn, ensure_conn, call_at, pool_execute,
  registered, add_entry, execute_on_listener,
}
use go_client.Connection.Pool.Calls.Sent.{Sends, pool_execute-Sends}
use go_client.Connection.Pool.Calls.Departed.{departed-unreachable}
use go_client.Connection.Pool.Calls.Homes.{topology, pool_run, listener-home}
use go_client.Connection.Pool.Routing.{first_index, keyed-routes_to_owner}

abbrev three_servers : Balancer
three_servers = record { servers = (1 ∷ []) ∷ (2 ∷ []) ∷ (3 ∷ []) ∷ []; index = 5 }

next-reaches_example :
    (k : ℕ) × (k < 3) × ((next (after_calls k three_servers)).0 ≡ get_or three_servers.servers 1 [])
next-reaches_example = next-reaches three_servers 1 (omega arith) (omega arith)

-- A topology of two servers, of a hash function with two segments.
abbrev two_servers : List ServerAddress
two_servers = record { host = 0x61 ∷ []; port = 1 } ∷ record { host = 0x62 ∷ []; port = 1 } ∷ []

abbrev two_segments : List (List ℕ)
two_segments = (0 ∷ []) ∷ (1 ∷ 0 ∷ []) ∷ []

abbrev hashed : TopologyUpdate
hashed = record {
  id = 4;
  servers = two_servers;
  hash_function_version = 3;
  num_segments = 2;
  segment_owners = some two_segments;
}

-- The same servers for a client that is not hash-aware.
abbrev unhashed : TopologyUpdate
unhashed = record {
  id = 4;
  servers = two_servers;
  hash_function_version = 0;
  num_segments = 0;
  segment_owners = none;
}

-- Connections to a server that stays and to one that leaves.
abbrev two_conns : Pool Bool
two_conns = record (new_pool []) {
  conns =
      (0x61 ∷ b':' ∷ b'1' ∷ [], new_conn [] true 3 41)
      ∷ (0x63 ∷ b':' ∷ b'1' ∷ [], new_conn [] true 3 41)
      ∷ [];
}

abbrev a_test : Operation Bool
a_test = contains_key (record { cache = 0x63 ∷ []; key = 1 ∷ 2 ∷ []; op_flags = 0 })

id_is_new : 4 ≢ two_conns.topo_id
unfolding new_pool
id_is_new = omega arith

is_named : is_empty a_test.cache_name ≡ false
unfolding contains_key
is_named = refl

is_keyed : a_test.key_bytes ≡ some (1 ∷ 2 ∷ [])
unfolding contains_key
is_keyed = refl

keyed-routes_to_owner_example :
    (p' : Pool Bool) × (segment : List ℕ) × (server : ServerAddress) × (handle_topology_update
        hashed a_test.cache_name two_conns
      ≡ some p')
    × (get_elem? two_segments (normalized_hash (1 ∷ 2 ∷ []) / segment_size_of 2) ≡ some segment)
    × (get_elem? two_servers (first_index segment) ≡ some server)
    × (route_operation a_test p' ≡ some (addr server, p'))
keyed-routes_to_owner_example =
    keyed-routes_to_owner hashed two_segments two_conns a_test (1 ∷ 2 ∷ []) id_is_new is_named
      (omega arith) refl refl (omega arith) (omega arith)
      ((omega arith, tt), ((omega arith, (omega arith, tt)), tt)) is_keyed

abbrev changed : Pool Bool
changed = take_servers unhashed two_conns

change_taken : handle_topology_update unhashed (0x63 ∷ []) two_conns ≡ some changed
unfolding handle_topology_update take_hash drop_hash new_pool
change_taken = refl

-- The address of the server that is gone.
abbrev left_address : Bytes
left_address = 0x63 ∷ b':' ∷ b'1' ∷ []

topology-departures_example :
    (changed.topo_id ≡ 4)
    × (changed.balancer.servers ≡ map addr two_servers)
    × (find bytes_discrete left_address changed.conns
        ≡ ite
            (dec_mem bytes_discrete left_address (map addr two_servers))
            (find bytes_discrete left_address two_conns.conns)
            none)
    × Drained changed.retired (
        ite
          (dec_mem bytes_discrete left_address (map addr two_servers))
          none
          (find bytes_discrete left_address two_conns.conns))
    × All (λ d. Memᴰ d changed.retired) two_conns.retired
    × All (HasLeft (map addr two_servers) two_conns) changed.retired
topology-departures_example =
    topology-departures unhashed (0x63 ∷ []) two_conns changed left_address id_is_new change_taken

-- A pool of one server, which no connection leads to yet, dialling without an error.
abbrev one_server : Pool Bool
one_server = new_pool ((0x61 ∷ b':' ∷ b'1' ∷ []) ∷ [])

abbrev dialled : Bytes → Answer (Conn Bool)
dialled addr = answered (new_conn [] true 3 41)

-- While a call dials, another goroutine has connected to that server.
abbrev raced : Pool Bool → Pool Bool
raced p = install (0x61 ∷ b':' ∷ b'1' ∷ []) (new_conn [] true 3 41) p

in_turn :
    route_operation a_test one_server ≡ some (0x61 ∷ b':' ∷ b'1' ∷ [], (round_robin one_server).1)
unfolding route_operation route_keyed round_robin contains_key new_pool new_balancer next turn find
in_turn = refl

pool_execute-Sends_example :
    Sends dialled raced
      (λ p. p)
      true
      (0x61 ∷ b':' ∷ b'1' ∷ [])
      a_test
      (round_robin one_server).1
      (pool_execute dialled raced (λ p. p) true a_test one_server)
pool_execute-Sends_example =
    pool_execute-Sends dialled raced (λ p. p) true a_test one_server (round_robin one_server).1
      (0x61 ∷ b':' ∷ b'1' ∷ []) in_turn refl

abbrev an_entry : ListenerEntry
an_entry = record { ch = some 8; custom_ch = none; counter_ch = none }

abbrev listening : Pool Bool
listening = (add_entry dialled (λ p. p) (λ p. p) true none a_test (1 ∷ []) an_entry one_server).1

entry_added :
    add_entry dialled (λ p. p) (λ p. p) true none a_test (1 ∷ []) an_entry one_server
    ≡ (added, listening)
unfolding add_entry registered call_at ensure_conn on_conn install sending round_robin next turn
    new_pool new_balancer find store bytes_discrete ℕ_discrete execute execute_listener new_conn
    request contains_key write_request_header write_u1 write_media_type_field write_groups
    write_vint write_vlong write_lp_bytes write_media_type_none write_media_type_predefined
    withdraw_listener
entry_added = refl

listener-home_example :
    execute_on_listener true
      (1 ∷ [])
      a_test
      (pool_run dialled (λ p. p) (λ p. p) (topology unhashed (0x63 ∷ []) ∷ []) listening)
    ≡ on_conn
        (round_robin one_server).0
        (execute true a_test)
        (pool_run dialled (λ p. p) (λ p. p) (topology unhashed (0x63 ∷ []) ∷ []) listening)
listener-home_example =
    listener-home dialled (λ p. p) (λ p. p) (1 ∷ []) (λ p. refl) (λ p. refl) true none a_test
      an_entry one_server listening (topology unhashed (0x63 ∷ []) ∷ []) entry_added (tt, tt) true
      a_test

-- A listener at the server that leaves.
abbrev with_listener : Pool Bool
with_listener = record two_conns { listener_states = (1 ∷ [], 0x63 ∷ b':' ∷ b'1' ∷ []) ∷ [] }

abbrev abandoned : Pool Bool
abandoned = take_servers unhashed with_listener

left : handle_topology_update unhashed (0x63 ∷ []) with_listener ≡ some abandoned
unfolding handle_topology_update take_hash drop_hash new_pool
left = refl

lives_there :
    find bytes_discrete (1 ∷ []) with_listener.listener_states ≡ some (0x63 ∷ b':' ∷ b'1' ∷ [])
unfolding find bytes_discrete ℕ_discrete
lives_there = refl

has_left : contains (0x63 ∷ b':' ∷ b'1' ∷ []) (map addr two_servers) ≡ false
unfolding contains bytes_discrete addr ℕ_discrete
has_left = refl

departed-unreachable_example :
    (find bytes_discrete (1 ∷ []) abandoned.listener_states ≡ some (0x63 ∷ b':' ∷ b'1' ∷ []))
    × ((w : Bool) (op : Operation Bool)
        → execute_on_listener w (1 ∷ []) op abandoned ≡ (rejected no_connection, abandoned))
departed-unreachable_example =
    departed-unreachable (1 ∷ []) (0x63 ∷ b':' ∷ b'1' ∷ []) unhashed (0x63 ∷ []) with_listener
      abandoned lives_there has_left id_is_new left
