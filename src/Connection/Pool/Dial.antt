-- ===== src/Connection/Pool/Dial.antt =====
-- internal/connection/pool.go: dialAndSetup and newAuthMechanism. The network and the answers of the server
-- are parameters; the connection that is returned stands as it was made, without the message ids that the
-- ping and the authentication take and a topology that their responses may bring.
pub mod Verified
use go_client.Prelude.{
  ℕ, zero, suc, ◌+◌, ◌≡◌, ◌⊎◌, inl, inr, refl, List, [], ◌∷◌, ◌++◌, Option, none, some, Bool, true,
  false, if◌then◌else◌,
}
use go_client.Io.{Bytes, Error, wrap, Answer, answered, failed}
use go_client.Auth
use go_client.Auth.{Mechanism, Plain, OauthBearer}
use go_client.Auth.Scram.{Crypto, ScramSha256, fresh, scram_sha256}
use go_client.Operation.Service.{AuthResponse}
use go_client.Connection.Auth.{authenticate}
use go_client.Connection.Conn.{Conn, new_conn}

-- The mechanisms of internal/auth behind the interface, each with its state.
pub data AuthMech : Type 0 where
  scram : ScramSha256 → AuthMech
  plain : Plain → AuthMech
  external : Bool → AuthMech
  oauth_bearer : OauthBearer → AuthMech

unfoldable pub new_scram_sha256 : Bytes → Bytes → ScramSha256
new_scram_sha256 username password = record {
  username = username;
  password = password;
  state = fresh;
  client_nonce = [];
  server_nonce = [];
  salt = [];
  iterations = 0;
  auth_message = [];
  salted_pwd = [];
  server_key = [];
}

-- A mechanism of the same kind and credentials in its first state.
unfoldable pub new_auth_mechanism : AuthMech → AuthMech
new_auth_mechanism (scram m) = scram (new_scram_sha256 m.username m.password)
new_auth_mechanism (plain m) =
    plain (record { username = m.username; password = m.password; complete = false })
new_auth_mechanism (external complete) = external false
new_auth_mechanism (oauth_bearer m) = oauth_bearer (record { token = m.token; complete = false })

-- What happens to the socket.
pub data SocketEvent : Type 0 where
  opened closed : SocketEvent

-- The settings that dialAndSetup reads.
pub record PoolConfig : Type 0 where
  pub tls : Bool
  pub auth_mech : Option AuthMech
  pub client_intelligence : ℕ
  pub protocol_version : ℕ

-- What the network and the server come back with at an address: an error of dialling, of the TLS handshake
-- and of the ping, the mechanisms that the server lists, its answer to the n-th AuthOp, and what it sends
-- later.
pub record Network : Type 0 where
  pub dial : Bytes → Option Error
  pub handshake : Bytes → Option Error
  pub ping : Bytes → Option Error
  pub mechs : Bytes → Answer (List Bytes)
  pub auth : Bytes → ℕ → Bytes → Answer AuthResponse
  pub server : Bytes → Bytes

-- The outcome of dialAndSetup, and what it does to the socket; `none` if an authentication went on.
abbrev pub Setup : Type 0 → Type 0
Setup V = Option (Answer (Conn V) × List SocketEvent)

module _ (x : Crypto) (nonce : Bytes) (net : Network) where
  -- Authenticate with the mechanism's type; two rounds are enough for each.
  unfoldable pub authenticate_as : {S : Type 0} → Mechanism S → S → Bytes → Option (Option Error)
  authenticate_as mech st addr = elim (authenticate mech (net.auth addr) 2 (net.mechs addr) st) [
    | none ↦ none
    | some (err, st') ↦ some err
  ]

  unfoldable pub authenticate_with : AuthMech → Bytes → Option (Option Error)
  authenticate_with (scram m) addr = authenticate_as (scram_sha256 x nonce) m addr
  authenticate_with (plain m) addr = authenticate_as Auth.plain m addr
  authenticate_with (external complete) addr = authenticate_as Auth.external complete addr
  authenticate_with (oauth_bearer m) addr = authenticate_as Auth.oauth_bearer m addr

  module _ {V : Type 0} (cfg : PoolConfig) where
    -- A mechanism that is configured is copied first, so that each connection has its own.
    unfoldable pub setup_auth : Bytes → Conn V → Setup V
    setup_auth addr conn = elim cfg.auth_mech [
      | none ↦ some (answered conn, opened ∷ [])
      | some m ↦ elim (authenticate_with (new_auth_mechanism m) addr) [
        | none ↦ none
        | some none ↦ some (answered conn, opened ∷ [])
        | some (some e) ↦ some (failed (wrap "auth" e), opened ∷ closed ∷ [])
      ]
    ]

    unfoldable pub setup_conn : Bytes → Setup V
    setup_conn addr = elim (net.ping addr) [
      | some e ↦ some (failed (wrap "ping" e), opened ∷ closed ∷ [])
      | none ↦
          setup_auth addr
            (new_conn (net.server addr) true cfg.client_intelligence cfg.protocol_version)
    ]

    unfoldable pub dial_and_setup : Bytes → Setup V
    dial_and_setup addr = elim (net.dial addr) [
      | some e ↦ some (failed (wrap "dial" e), [])
      | none ↦
          if cfg.tls
          then elim (net.handshake addr) [
            | some e ↦ some (failed (wrap "tls handshake" e), opened ∷ closed ∷ [])
            | none ↦ setup_conn addr
          ]
          else setup_conn addr
    ]
