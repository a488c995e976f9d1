-- ===== src/Connection/Pool/Dial/Verified.antt =====
-- internal/connection/pool.go: what a connection that dialAndSetup returns has been through.
use go_client.Prelude.{
  ◌≡◌, ◌⊎◌, ◌≢◌, inl, inr, refl, ap, ◌∙◌, List, [], ◌∷◌, Option, none, some, Bool, true, false,
  if◌then◌else◌, Option-cases, arith,
}
use go_client.Io.{Bytes, Error, wrap, answered, failed}
use go_client.Auth
use go_client.Auth.{Mechanism}
use go_client.Auth.Scram.{Crypto, ScramSha256, scram_sha256}
use go_client.Connection.Auth.{Authenticated, authenticate, auth_loop, verify_server}
use go_client.Connection.Auth.Verified.{IsShown, scram-Ends}
use go_client.Connection.Conn.{Conn, new_conn}
use go_client.Connection.Pool.Dial.{
  AuthMech, scram, plain, external, oauth_bearer, new_scram_sha256, new_auth_mechanism, SocketEvent,
  opened, closed, PoolConfig, Network, Setup, authenticate_as, authenticate_with, setup_auth,
  setup_conn, dial_and_setup,
}

module _ (x : Crypto) (nonce : Bytes) (net : Network) where
  -- The socket of a connection is open; after an error every socket that was opened is closed.
  abbrev pub IsSettled : {V : Type 0} → Setup V → Type 0
  IsSettled none = ⊥
  IsSettled (some (answered conn, log)) = log ≡ opened ∷ []
  IsSettled (some (failed e, log)) = (log ≡ []) ⊎ (log ≡ opened ∷ closed ∷ [])

  -- The other mechanisms end with the first round.
  plain_ends :
      (m : Auth.Plain) (addr : Bytes) → authenticate_as x nonce net Auth.plain m addr ≢ none
  unfolding authenticate_as authenticate auth_loop verify_server Auth.plain
  plain_ends m addr = ground arith

  external_ends :
      (c : Bool) (addr : Bytes) → authenticate_as x nonce net Auth.external c addr ≢ none
  unfolding authenticate_as authenticate auth_loop verify_server Auth.external
  external_ends c addr = ground arith

  oauth_bearer_ends :
      (m : Auth.OauthBearer) (addr : Bytes)
      → authenticate_as x nonce net Auth.oauth_bearer m addr ≢ none
  unfolding authenticate_as authenticate auth_loop verify_server Auth.oauth_bearer
  oauth_bearer_ends m addr = ground arith

  abbrev scram_run : Bytes → Bytes → Bytes → Authenticated ScramSha256
  scram_run username password addr =
      authenticate (scram_sha256 x nonce) (net.auth addr) 2 (net.mechs addr)
        (new_scram_sha256 username password)

  -- An authentication without an error has ended in a state in which the server has proved itself, or
  -- ended the exchange at once.
  scram_returns :
      (username password addr : Bytes)
      → (r : Option Error) × ((authenticate_as x nonce net
              (scram_sha256 x nonce)
              (new_scram_sha256 username password)
              addr
            ≡ some r)
          × (r ≡ none
              → (s : ScramSha256) × ((scram_run username password addr ≡ some (none, s))
                  × IsShown x (net.auth addr) s)))
  unfolding authenticate_as
  scram_returns username password addr =
      let ((r, s), (ends, shown)) =
        scram-Ends x nonce (net.auth addr) (net.mechs addr) (new_scram_sha256 username password)
          (unfold new_scram_sha256 in refl) in
      (
        r,
        (
          ap (λ o. elim o [ none ↦ none | some (e, s') ↦ some e ]) ends,
          λ ok. (s, (ends ∙ ap (λ e. some (e, s)) ok, shown ok)),
        ),
      )

  authenticate_with_ends :
      (m : AuthMech) (addr : Bytes)
      → authenticate_with x nonce net (new_auth_mechanism m) addr ≢ none
  unfolding authenticate_with new_auth_mechanism
  authenticate_with_ends (plain m) addr = plain_ends _ addr
  authenticate_with_ends (external c) addr = external_ends false addr
  authenticate_with_ends (oauth_bearer m) addr = oauth_bearer_ends _ addr
  authenticate_with_ends (scram m) addr =
      let (r, (ends, shown)) = scram_returns m.username m.password addr in λ e. cc

  module _ (V : Type 0) (cfg : PoolConfig) where
    setup_auth-IsSettled :
        (addr : Bytes) (conn : Conn V) → IsSettled (setup_auth x nonce net cfg addr conn)
    unfolding setup_auth
    setup_auth-IsSettled addr conn = elim (Option-cases cfg.auth_mech) [
      | inl unset ↦ rw unset refl
      | inr (m, set) ↦ rw set (
          authenticated (authenticate_with x nonce net (new_auth_mechanism m) addr)
            (authenticate_with_ends m addr))
    ]
      where
        authenticated :
            (o : Option (Option Error))
            → o ≢ none
            → IsSettled (elim o [
              | none ↦ none
              | some none ↦ some (answered conn, opened ∷ [])
              | some (some e) ↦ some (failed (wrap "auth" e), opened ∷ closed ∷ [])
            ])
        authenticated none h = absurd (h refl)
        authenticated (some none) h = refl
        authenticated (some (some e)) h = inr refl

    setup_conn-IsSettled : (addr : Bytes) → IsSettled (setup_conn x nonce net {V = V} cfg addr)
    unfolding setup_conn
    setup_conn-IsSettled addr = pinged (net.ping addr)
      where
        conn : Conn V
        conn = new_conn (net.server addr) true cfg.client_intelligence cfg.protocol_version

        pinged :
            (o : Option Error)
            → IsSettled (elim o [
              | some e ↦ some (failed (wrap "ping" e), opened ∷ closed ∷ [])
              | none ↦ setup_auth x nonce net cfg addr conn
            ])
        pinged none = setup_auth-IsSettled addr conn
        pinged (some e) = inr refl

    -- What follows the dialling, with TLS or without.
    connected :
        (addr : Bytes) (tls : Bool) (o : Option Error)
        → IsSettled (
            if tls
            then elim o [
              | some e ↦ some (failed (wrap "tls handshake" e), opened ∷ closed ∷ [])
              | none ↦ setup_conn x nonce net {V = V} cfg addr
            ]
            else setup_conn x nonce net cfg addr)
    connected addr false o = setup_conn-IsSettled addr
    connected addr true none = setup_conn-IsSettled addr
    connected addr true (some e) = inr refl

    -- Whatever the network and the server come back with, and whatever mechanism is configured,
    -- dialAndSetup returns, its authentication after at most two rounds: a connection whose socket is open,
    -- or an error, after which every socket that it opened is closed.
    pub dial_and_setup-IsSettled :
        (addr : Bytes) → IsSettled (dial_and_setup x nonce net {V = V} cfg addr)
    unfolding dial_and_setup
    dial_and_setup-IsSettled addr = dialled (net.dial addr)
      where
        dialled :
            (o : Option Error)
            → IsSettled (elim o [
              | some e ↦ some (failed (wrap "dial" e), [])
              | none ↦
                  if cfg.tls
                  then elim (net.handshake addr) [
                    | some e ↦ some (failed (wrap "tls handshake" e), opened ∷ closed ∷ [])
                    | none ↦ setup_conn x nonce net {V = V} cfg addr
                  ]
                  else setup_conn x nonce net cfg addr
            ])
        dialled (some e) = inl refl
        dialled none = connected addr cfg.tls (net.handshake addr)

    -- Where SCRAM-SHA-256 is configured, in whatever state an earlier use has left the mechanism, and
    -- dialAndSetup returns a connection: the exchange from the mechanism's first state has ended without
    -- an error, and the server's answer to its second message has the verifier of the keys and of the
    -- messages, or else its answer to the first says that the exchange is completed.
    pub dial_and_setup-verified :
        (m : ScramSha256) (addr : Bytes) (conn : Conn V) (log : List SocketEvent)
        → cfg.auth_mech ≡ some (scram m)
        → dial_and_setup x nonce net cfg addr ≡ some (answered conn, log)
        → (s : ScramSha256) × ((scram_run m.username m.password addr ≡ some (none, s))
            × IsShown x (net.auth addr) s)
    unfolding dial_and_setup setup_conn setup_auth authenticate_with new_auth_mechanism
    dial_and_setup-verified m addr conn log set done =
        let (r, (ends, shown)) = scram_returns m.username m.password addr in shown (ground arith)
