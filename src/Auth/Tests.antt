-- ===== src/Auth/Tests.antt =====
-- SCRAM-SHA-256 with a toy cryptography, at concrete messages.
use go_client.Prelude.{
  ℕ, ◌≡◌, refl, ap, Bool, [], ◌∷◌, none, some, true, find, store, bytes_discrete, ℕ_discrete,
}
use go_client.Io.{Bytes, Answer, answered, failed, wrap}
use go_client.Operation.Service.{AuthResponse}
use go_client.Auth.Scram.{
  Crypto, fresh, challenge_received, ScramSha256, process_server_first, take_salt, take_iterations,
  client_final, client_final_no_proof, client_first_bare, parse_scram_attributes, split_commas,
  split_equals, add_attribute, has_prefix, xor_bytes, pbkdf2_sha256, pbkdf2_block, pbkdf2_rounds,
  scram_sha256,
}
use go_client.Connection.Conn.{new_conn}
use go_client.Connection.Pool.Dial
use go_client.Connection.Pool.Dial.{
  opened, closed, PoolConfig, Network, Setup, new_scram_sha256, new_auth_mechanism, authenticate_as,
  authenticate_with, setup_auth, setup_conn, dial_and_setup,
}
use go_client.Connection.Pool.Dial.Verified.{
  IsSettled, dial_and_setup-IsSettled, dial_and_setup-verified,
}
use go_client.Connection.Auth.{has_mechanism, authenticate}
use go_client.Connection.Auth.Rounds.{Ends, scram}
use go_client.Connection.Auth.Verified.{IsShown, scram-Ends, authenticate-unverified}

abbrev toy : Crypto
toy = record {
  hmac = λ key text. [];
  sha256 = λ text. [];
  encode64 = λ text. [];
  decode64 = λ text. ([], none);
  parse_int = λ text. (1, none);
}

abbrev user : ScramSha256
user = record {
  username = 117 ∷ [];
  password = 112 ∷ [];
  state = fresh;
  client_nonce = [];
  server_nonce = [];
  salt = [];
  iterations = 0;
  auth_message = [];
  salted_pwd = [];
  server_key = [];
}

-- "r=,s=,i="
abbrev server_first : Bytes
server_first = 114 ∷ 61 ∷ 44 ∷ 115 ∷ 61 ∷ 44 ∷ 105 ∷ 61 ∷ []

-- A server that completes the exchange with its first message.
abbrev hasty : ℕ → Bytes → Answer AuthResponse
hasty n response = answered (record { completed = true; challenge = server_first })

-- "SCRAM-SHA-256"
abbrev scram_name : Bytes
scram_name = 83 ∷ 67 ∷ 82 ∷ 65 ∷ 77 ∷ 45 ∷ 83 ∷ 72 ∷ 65 ∷ 45 ∷ 50 ∷ 53 ∷ 54 ∷ []

scram-Ends_example :
    Ends
      (authenticate (scram toy [] hasty) hasty 2 (answered (scram_name ∷ [])) user)
      (IsShown toy hasty)
scram-Ends_example = scram-Ends toy [] hasty (answered (scram_name ∷ [])) user refl

abbrev after_first : ScramSha256
after_first = record user {
  state = challenge_received;
  iterations = 1;
  auth_message =
      110 ∷ 61 ∷ 117 ∷ 44 ∷ 114 ∷ 61 ∷ 44 ∷ 114 ∷ 61 ∷ 44 ∷ 115 ∷ 61 ∷ 44 ∷ 105 ∷ 61 ∷ 44 ∷ 99 ∷ 61
      ∷ 44 ∷ 114 ∷ 61 ∷ [];
}

listed : has_mechanism scram_name (scram_name ∷ []) ≡ true
unfolding has_mechanism bytes_discrete ℕ_discrete
listed = refl

-- "c=,r=,p="
accepted :
    process_server_first toy server_first user
    ≡ (answered (99 ∷ 61 ∷ 44 ∷ 114 ∷ 61 ∷ 44 ∷ 112 ∷ 61 ∷ []), after_first)
unfolding process_server_first take_salt take_iterations client_final client_final_no_proof
    client_first_bare parse_scram_attributes split_commas split_equals add_attribute has_prefix
    xor_bytes pbkdf2_sha256 pbkdf2_block pbkdf2_rounds find store bytes_discrete ℕ_discrete
accepted = refl

name_listed : has_mechanism (scram toy [] hasty).name (scram_name ∷ []) ≡ true
unfolding scram_sha256
name_listed = listed

authenticate-unverified_example :
    (authenticate (scram toy [] hasty) hasty 2 (answered (scram_name ∷ [])) user
      ≡ some (none, after_first))
    × (after_first.state ≡ challenge_received)
authenticate-unverified_example =
    authenticate-unverified toy [] hasty (scram_name ∷ []) user after_first server_first
      (99 ∷ 61 ∷ 44 ∷ 114 ∷ 61 ∷ 44 ∷ 112 ∷ 61 ∷ []) refl name_listed (λ response. refl) accepted

-- A network without errors, with that server at each address.
abbrev hasty_network : Network
hasty_network = record {
  dial = λ addr. none;
  handshake = λ addr. none;
  ping = λ addr. none;
  mechs = λ addr. answered (scram_name ∷ []);
  auth = λ addr. hasty;
  server = λ addr. [];
}

-- The mechanism that is configured has been used before.
abbrev scram_configured : PoolConfig
scram_configured = record {
  tls = true;
  auth_mech = some (Dial.scram after_first);
  client_intelligence = 3;
  protocol_version = 41;
}

dial_and_setup-IsSettled_example :
    IsSettled toy [] hasty_network
      (dial_and_setup toy [] hasty_network {V = Bool} scram_configured (0x61 ∷ []))
dial_and_setup-IsSettled_example =
    dial_and_setup-IsSettled toy [] hasty_network Bool scram_configured (0x61 ∷ [])

unverified_login :
    authenticate (scram_sha256 toy []) hasty 2 (answered (scram_name ∷ [])) user
    ≡ some (none, after_first)
unverified_login =
    (authenticate-unverified toy [] hasty (scram_name ∷ []) user after_first server_first
      (99 ∷ 61 ∷ 44 ∷ 114 ∷ 61 ∷ 44 ∷ 112 ∷ 61 ∷ []) refl name_listed (λ response. refl) accepted).0

logged_in :
    authenticate_with toy [] hasty_network (new_auth_mechanism (Dial.scram after_first)) (0x61 ∷ [])
    ≡ some none
unfolding authenticate_with authenticate_as new_auth_mechanism new_scram_sha256
logged_in = ap (λ o. elim o [ none ↦ none | some (err, st) ↦ some err ]) unverified_login

connected :
    dial_and_setup toy [] hasty_network {V = Bool} scram_configured (0x61 ∷ [])
    ≡ some (answered (new_conn [] true 3 41), opened ∷ [])
unfolding dial_and_setup setup_conn setup_auth
connected =
    ap
      (λ o. elim o as (λ x. Setup Bool) [
        | none ↦ none
        | some none ↦ some (answered (new_conn [] true 3 41), opened ∷ [])
        | some (some e) ↦ some (failed (wrap "auth" e), opened ∷ closed ∷ [])
      ])
      logged_in

dial_and_setup-verified_example :
    (s : ScramSha256) × ((authenticate
          (scram_sha256 toy [])
          hasty
          2
          (answered (scram_name ∷ []))
          user
        ≡ some (none, s))
      × IsShown toy hasty s)
unfolding new_scram_sha256
dial_and_setup-verified_example =
    dial_and_setup-verified toy [] hasty_network Bool scram_configured after_first (0x61 ∷ [])
      (new_conn [] true 3 41) (opened ∷ []) refl connected
