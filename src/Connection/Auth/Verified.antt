-- ===== src/Connection/Auth/Verified.antt =====
-- internal/connection/auth.go with internal/auth/scram.go: the exchange ends, and what it has shown.
use go_client.Prelude.{
  ℕ, suc, ◌≡◌, ◌⊎◌, inl, inr, refl, List, [], none, some, true, false, sym, ap, ◌∙◌, Bool-cases,
}
use go_client.Io.{Bytes, Answer, answered, failed}
use go_client.Operation.Service.{AuthResponse}
use go_client.Auth.{Mechanism}
use go_client.Auth.Scram.{
  Crypto, fresh, challenge_received, ScramSha256, process_server_first, is_finished, scram_sha256,
  scram_initial_response,
}
use go_client.Connection.Auth.{has_mechanism, auth_loop, authenticate}
use go_client.Connection.Auth.Rounds.{
  first-state, round-failed, round-completed, round-refused, round-again, verify-passed, IsVerified,
  Ends, scram, evaluate-first, complete-state, second-round,
}

-- The server answered the first message with the exchange completed.
unfoldable pub CompletesFirst : (ℕ → Bytes → Answer AuthResponse) → Type 0
CompletesFirst server =
    (response : Bytes) × ((resp : AuthResponse) × ((server 0 response ≡ answered resp)
        × (resp.completed ≡ true)))

-- What the end of the exchange without an error has shown.
abbrev pub IsShown : Crypto → (ℕ → Bytes → Answer AuthResponse) → ScramSha256 → Type 0
IsShown x server s = IsVerified x server 1 s ⊎ CompletesFirst server

module _ (x : Crypto) (nonce : Bytes) (server : ℕ → Bytes → Answer AuthResponse) where
  abbrev mech : Mechanism ScramSha256
  mech = scram x nonce server

  second-Ends :
      (fuel : ℕ) (response : Bytes) (s : ScramSha256) (a : Answer AuthResponse)
      → s.state ≡ challenge_received
      → server 1 response ≡ a
      → Ends (auth_loop mech server (suc fuel) 1 response s) (IsShown x server)
  second-Ends fuel response s (failed err) second served =
      (_, (round-failed mech server fuel 1 response s err served, λ ok. cc))
  second-Ends fuel response s (answered resp) second served =
      let (r, (ends, shown)) =
        second-round x nonce server fuel 1 response s resp _ second served refl in
      (r, (ends, λ ok. inl (shown ok)))

  first-more :
      (fuel : ℕ) (response : Bytes) (s : ScramSha256) (resp : AuthResponse)
      (out : Answer Bytes × ScramSha256)
      → s.state ≡ fresh
      → server 0 response ≡ answered resp
      → resp.completed ≡ false
      → mech.evaluate_challenge resp.challenge s ≡ out
      → Ends (auth_loop mech server (suc (suc fuel)) 0 response s) (IsShown x server)
  first-more fuel response s resp (failed err, s') first served more evaluated = (
    _,
    (round-refused mech server (suc fuel) 0 response s resp served err s' more evaluated, λ ok. cc),
  )
  first-more fuel response s resp (answered answer, s') first served more evaluated =
      let second =
        first-state x resp.challenge answer s s'
          (sym (evaluate-first x nonce server s resp.challenge first) ∙ evaluated) in
      let (r, (ends, shown)) = second-Ends fuel answer s' _ second refl in
      (
        r,
        (
          round-again mech server (suc fuel) 0 response s resp served answer s' more evaluated
                (complete-state x nonce server s' ∙ ap is_finished second)
              ∙ ends,
          shown,
        ),
      )

  first-Ends :
      (fuel : ℕ) (response : Bytes) (s : ScramSha256) (a : Answer AuthResponse)
      → s.state ≡ fresh
      → server 0 response ≡ a
      → Ends (auth_loop mech server (suc (suc fuel)) 0 response s) (IsShown x server)
  unfolding CompletesFirst
  first-Ends fuel response s (failed err) first served =
      (_, (round-failed mech server (suc fuel) 0 response s err served, λ ok. cc))
  first-Ends fuel response s (answered resp) first served = elim (Bool-cases resp.completed) [
    | inl completed ↦ (
      _,
      (
        round-completed mech server (suc fuel) 0 response s resp served completed,
        λ ok. inr (response, (resp, (served, completed))),
      ),
    )
    | inr more ↦ first-more fuel response s resp _ first served more refl
  ]

  -- Whatever the server answers, Authenticate with SCRAM-SHA-256 from its first state returns after at most
  -- two rounds; and where it returns no error, the server's answer to the second message has the verifier of
  -- the keys and of the messages, or else its answer to the first says that the exchange is completed.
  pub scram-Ends :
      (mechs : Answer (List Bytes)) (s : ScramSha256)
      → s.state ≡ fresh
      → Ends (authenticate mech server 2 mechs s) (IsShown x server)
  unfolding authenticate scram_sha256 scram_initial_response
  scram-Ends (failed err) s first = (_, (refl, λ ok. cc))
  scram-Ends (answered mechs) s first = elim (Bool-cases (has_mechanism mech.name mechs)) [
    | inl listed ↦
        rw listed (first-Ends 0 _ (record s { client_nonce = x.encode64 nonce }) _ first refl)
    | inr missing ↦ rw missing (_, (refl, λ ok. cc))
  ]

  -- Where a server that lists SCRAM-SHA-256 answers the first message with the exchange completed and a
  -- challenge that is a good first message of a server: Authenticate returns no error, in the state in which
  -- the server's verifier is still to come.
  pub authenticate-unverified :
      (mechs : List Bytes) (s s' : ScramSha256) (challenge answer : Bytes)
      → s.state ≡ fresh
      → has_mechanism mech.name mechs ≡ true
      → ((response : Bytes)
          → server 0 response ≡ answered (record { completed = true; challenge = challenge }))
      → process_server_first x challenge (record s { client_nonce = x.encode64 nonce })
        ≡ (answered answer, s')
      → (authenticate mech server 2 (answered mechs) s ≡ some (none, s'))
        × (s'.state ≡ challenge_received)
  unfolding authenticate scram_sha256 scram_initial_response
  authenticate-unverified mechs s s' challenge answer first listed completes accepted =
      let started = record s { client_nonce = x.encode64 nonce } in
      let resp : AuthResponse = record { completed = true; challenge = challenge } in
      let passed =
        verify-passed mech server 1 0 [] started challenge answer s'
          (complete-state x nonce server started ∙ ap is_finished first)
          (evaluate-first x nonce server started challenge first ∙ accepted) in
      (
        rw listed
            (round-completed mech server 1 0 _ started resp (completes _) refl ∙ ap some passed),
        first-state x challenge answer started s' accepted,
      )
