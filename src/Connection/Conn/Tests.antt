-- ===== src/Connection/Conn/Tests.antt =====
-- A request and its response on one connection, and the theorems at concrete inputs.
use go_client.Prelude.{
  ℕ, ◌+◌, ◌≤◌, ◌≡◌, refl, [], ◌∷◌, Bool, true, false, Option, none, some, keys, count, find, store,
  discard, ℕ_discrete,
}
use go_client.Io.{Bytes, done, read_full, read_times}
use go_client.Codec.Constants.{is_error, is_event}
use go_client.Codec.VarInt.{
  write_groups, write_vint, write_vlong, read_groups, read_vint, read_vlong,
}
use go_client.Codec.Wire.{
  write_u1, read_u1, write_lp_bytes, read_lp_bytes, read_lp_string, skip_media_type,
  write_media_type_none,
}
use go_client.Codec.Header.{
  ResponseHeader, write_request_header, write_media_type_field, read_response_header,
  read_topology_field, read_error_message,
}
use go_client.Operation.Service.{ping, decode_ping}
use go_client.Connection.Conn.{
  Conn, new_conn, Started, refused, waiting, write_failed, start_panicked, request, execute, Round,
  again, returned, crashed, read_round, dispatch, handle_response, serve, reply_value, finish_round,
  take_topology, server_error,
}
use go_client.Connection.Conn.Steps.{here, more, sends, reads}
use go_client.Connection.Conn.Once.{answered_once}
use go_client.Connection.Conn.Drain.{last_error-stays_open}

-- The server's answer to a ping with the message id 1: no topology, no media types, version 41 and no
-- operation codes.
abbrev pong : Bytes
pong = 0xa1 ∷ 1 ∷ 0x18 ∷ 0 ∷ 0 ∷ 0 ∷ 0 ∷ 41 ∷ 0 ∷ []

abbrev fresh : Conn (Option Bool)
fresh = new_conn pong false 1 41

abbrev started : {V : Type 0} → Started V → Conn V → Conn V
started refused c = c
started (waiting id d) c = d
started (write_failed d) c = d
started start_panicked c = c

abbrev after : {V : Type 0} → Round V → Conn V → Conn V
after (again d) c = d
after (returned d) c = d
after crashed c = c

abbrev pinged : Conn (Option Bool)
pinged = started (execute true ping fresh) fresh

ping_sent : execute true ping fresh ≡ waiting 1 pinged
unfolding execute request ping new_conn write_request_header write_vlong write_vint write_groups
    write_u1 write_lp_bytes write_media_type_field write_media_type_none store
ping_sent = refl

pinged_reads : pinged.done_closed ≡ false
unfolding execute request ping new_conn write_request_header write_vlong write_vint write_groups
    write_u1 write_lp_bytes write_media_type_field write_media_type_none
pinged_reads = refl

abbrev ponged : Conn (Option Bool)
ponged = after (read_round pinged) pinged

pong_read : read_round pinged ≡ again ponged
unfolding execute request ping new_conn write_request_header write_vlong write_vint write_groups
    write_u1 write_lp_bytes write_media_type_field write_media_type_none store read_round dispatch
    handle_response serve reply_value finish_round take_topology read_response_header
    read_topology_field read_vlong read_vint read_groups read_u1 read_full decode_ping
    skip_media_type find discard is_event ℕ_discrete is_error read_times
pong_read = refl

-- The request is sent and answered.
answered_once_example : count 1 (keys ponged.replies) + count 1 (keys ponged.pending) ≤ 1
answered_once_example =
    answered_once pong false 1 41 ponged
      (more (more here (sends true ping 1 fresh pinged ping_sent))
        (reads pinged ponged pinged_reads pong_read))
      1

-- A drained connection with one ping under way, and the two responses that it may get.
abbrev last_ping : Bytes → Conn (Option Bool)
last_ping body = record pinged {
  reader = body;
  draining = true;
  listeners = [];
  pending = (1, ping) ∷ [];
}

abbrev response : ℕ → ResponseHeader
response status = record { message_id = 1; op_code = 0x18; status = status; topology_update = none }

success_is_no_error : is_error 0 ≡ false
unfolding is_error
success_is_no_error = refl

failure_is_error : is_error 0x85 ≡ true
unfolding is_error
failure_is_error = refl

pong_decoded : ping.decode_response 0 (0 ∷ 0 ∷ 41 ∷ 0 ∷ []) ≡ done (some true) []
unfolding ping decode_ping skip_media_type read_u1 read_vint read_groups read_full read_times
pong_decoded = refl

message_read : read_error_message (1 ∷ 0x78 ∷ []) ≡ done (0x78 ∷ []) []
unfolding read_error_message read_lp_string read_lp_bytes read_vint read_groups read_full
message_read = refl

last_error-stays_open_example :
    (d : Conn (Option Bool)) × (handle_response (response 0x85) (last_ping (1 ∷ 0x78 ∷ []))
      ≡ again d)
    × (d.closed ≡ (last_ping (1 ∷ 0x78 ∷ [])).closed)
    × (d.draining ≡ true)
    × (d.pending ≡ [])
    × (d.listeners ≡ [])
    × (d.replies ≡ (1, server_error 0x85 1 (0x78 ∷ [])) ∷ (last_ping (1 ∷ 0x78 ∷ [])).replies)
last_error-stays_open_example =
    last_error-stays_open (response 0x85) ping (last_ping (1 ∷ 0x78 ∷ [])) (0x78 ∷ []) [] refl refl
      refl failure_is_error message_read
