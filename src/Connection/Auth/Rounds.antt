-- ===== src/Connection/Auth/Rounds.antt =====
-- internal/connection/auth.go with internal/auth: how the exchange ends.
use go_client.Prelude.{
  ℕ, suc, ◌≡◌, inl, inr, refl, Option, none, some, true, false, arith, sym, ap, ◌∙◌, Bool-cases,
}
use go_client.Io.{Bytes, Error, wrap, Answer, answered, failed}
use go_client.Operation.Service.{AuthResponse}
use go_client.Auth.{Mechanism}
use go_client.Auth.Scram.{
  Crypto, fresh, challenge_received, finished, ScramSha256, parse_scram_attributes, attribute,
  process_server_first, process_server_final, take_salt, take_iterations, client_final,
  expected_verifier, scram_evaluate, is_finished, scram_sha256,
}
use go_client.Connection.Auth.{Authenticated, verify_server, auth_loop}

module _ (x : Crypto) where
  -- After the server's first message, if it is accepted, the state is the second.
  pub first-state :
      (m answer : Bytes) (s s' : ScramSha256)
      → process_server_first x m s ≡ (answered answer, s')
      → s'.state ≡ challenge_received
  unfolding process_server_first take_salt take_iterations client_final
  first-state m answer s s' h = ground arith

  -- The server's last message, if it is accepted, has the verifier of the keys and the messages.
  pub final-verified :
      (m answer : Bytes) (s s' : ScramSha256)
      → process_server_final x m s ≡ (answered answer, s')
      → (s'.state ≡ finished)
        × (attribute 118 (parse_scram_attributes m) ≡ some (expected_verifier x s'))
  unfolding process_server_final expected_verifier
  final-verified m answer s s' h = ground arith

-- One round of the loop.
module _ {S : Type 0} (mech : Mechanism S) (server : ℕ → Bytes → Answer AuthResponse) (fuel n : ℕ)
    (response : Bytes) (st : S) where
  pub round-failed :
      (err : Error)
      → server n response ≡ failed err
      → auth_loop mech server (suc fuel) n response st ≡ some (some (wrap "auth" err), st)
  unfolding auth_loop
  round-failed err served = rw (auth_loop, served) refl

  module _ (resp : AuthResponse) (served : server n response ≡ answered resp) where
    pub round-completed :
        resp.completed ≡ true
        → auth_loop mech server (suc fuel) n response st
          ≡ some (verify_server mech server resp.challenge st)
    unfolding auth_loop
    round-completed completed = rw (auth_loop, served, completed) refl

    pub round-refused :
        (err : Error) (st' : S)
        → resp.completed ≡ false
        → mech.evaluate_challenge resp.challenge st ≡ (failed err, st')
        → auth_loop mech server (suc fuel) n response st
          ≡ some (some (wrap "evaluate challenge" err), st')
    unfolding auth_loop
    round-refused err st' more evaluated =
        let what : (mech.evaluate_challenge resp.challenge st).0 ≡ failed err =
          ap (λ p. p.0) evaluated in
        let left : (mech.evaluate_challenge resp.challenge st).1 ≡ st' = ap (λ p. p.1) evaluated in
        rw (auth_loop, served, more, what, left) refl

    pub round-finished :
        (answer : Bytes) (st' : S)
        → resp.completed ≡ false
        → mech.evaluate_challenge resp.challenge st ≡ (answered answer, st')
        → mech.complete st' ≡ true
        → auth_loop mech server (suc fuel) n response st ≡ some (none, st')
    unfolding auth_loop
    round-finished answer st' more evaluated over =
        let what : (mech.evaluate_challenge resp.challenge st).0 ≡ answered answer =
          ap (λ p. p.0) evaluated in
        let left : (mech.evaluate_challenge resp.challenge st).1 ≡ st' = ap (λ p. p.1) evaluated in
        rw (auth_loop, served, more, what, left, over) (ap (λ t. some (none, t)) left)

    pub round-again :
        (answer : Bytes) (st' : S)
        → resp.completed ≡ false
        → mech.evaluate_challenge resp.challenge st ≡ (answered answer, st')
        → mech.complete st' ≡ false
        → auth_loop mech server (suc fuel) n response st
          ≡ auth_loop mech server fuel (suc n) answer st'
    unfolding auth_loop
    round-again answer st' more evaluated unfinished =
        let what : (mech.evaluate_challenge resp.challenge st).0 ≡ answered answer =
          ap (λ p. p.0) evaluated in
        let left : (mech.evaluate_challenge resp.challenge st).1 ≡ st' = ap (λ p. p.1) evaluated in
        rw (auth_loop, served, more, what, left, unfinished)
          (ap (auth_loop mech server fuel (suc n) answer) left)

  pub verify-refused :
      (challenge : Bytes) (err : Error) (st' : S)
      → mech.complete st ≡ false
      → mech.evaluate_challenge challenge st ≡ (failed err, st')
      → verify_server mech server challenge st ≡ (some (wrap "verify server" err), st')
  unfolding verify_server
  verify-refused challenge err st' unfinished evaluated =
      let what : (mech.evaluate_challenge challenge st).0 ≡ failed err = ap (λ p. p.0) evaluated in
      let left : (mech.evaluate_challenge challenge st).1 ≡ st' = ap (λ p. p.1) evaluated in
      rw (verify_server, unfinished, what, left) refl

  pub verify-passed :
      (challenge answer : Bytes) (st' : S)
      → mech.complete st ≡ false
      → mech.evaluate_challenge challenge st ≡ (answered answer, st')
      → verify_server mech server challenge st ≡ (none, st')
  unfolding verify_server
  verify-passed challenge answer st' unfinished evaluated =
      let what : (mech.evaluate_challenge challenge st).0 ≡ answered answer =
        ap (λ p. p.0) evaluated in
      let left : (mech.evaluate_challenge challenge st).1 ≡ st' = ap (λ p. p.1) evaluated in
      rw (verify_server, unfinished, what, left) refl

-- In its answer to request `n` the server proved that it knows the keys.
unfoldable pub IsVerified : Crypto → (ℕ → Bytes → Answer AuthResponse) → ℕ → ScramSha256 → Type 0
IsVerified x server n s =
    (s.state ≡ finished)
    × ((response : Bytes) × ((resp : AuthResponse) × ((server n response ≡ answered resp)
            × (attribute 118 (parse_scram_attributes resp.challenge)
                ≡ some (expected_verifier x s)))))

-- The exchange returns, and where it returns no error, something holds of the mechanism.
abbrev pub Ends : Authenticated ScramSha256 → (ScramSha256 → Type 0) → Type 0
Ends out P = (r : Option Error × ScramSha256) × ((out ≡ some r) × (r.0 ≡ none → P r.1))

module _ (x : Crypto) (nonce : Bytes) (server : ℕ → Bytes → Answer AuthResponse) where
  abbrev pub scram : Mechanism ScramSha256
  scram = scram_sha256 x nonce

  pub evaluate-second :
      (s : ScramSha256) (m : Bytes)
      → s.state ≡ challenge_received
      → scram.evaluate_challenge m s ≡ process_server_final x m s
  unfolding scram_sha256 scram_evaluate
  evaluate-second s m second = rw second refl

  pub evaluate-first :
      (s : ScramSha256) (m : Bytes)
      → s.state ≡ fresh
      → scram.evaluate_challenge m s ≡ process_server_first x m s
  unfolding scram_sha256 scram_evaluate
  evaluate-first s m first = rw first refl

  pub complete-state : (s : ScramSha256) → scram.complete s ≡ is_finished s.state
  unfolding scram_sha256
  complete-state s = refl

  -- A round in which the server's last message is expected.
  pub second-round :
      (fuel n : ℕ) (response : Bytes) (s : ScramSha256) (resp : AuthResponse)
      (out : Answer Bytes × ScramSha256)
      → s.state ≡ challenge_received
      → server n response ≡ answered resp
      → scram.evaluate_challenge resp.challenge s ≡ out
      → Ends (auth_loop scram server (suc fuel) n response s) (IsVerified x server n)
  unfolding IsVerified
  second-round fuel n response s resp (failed err, s') second served evaluated =
      elim (Bool-cases resp.completed) [
        | inl completed ↦ (
          _,
          (
            round-completed scram server fuel n response s resp served completed
                ∙ ap some (
                    verify-refused scram server fuel n response s resp.challenge err s'
                      (complete-state s ∙ ap is_finished second) evaluated),
            λ ok. cc,
          ),
        )
        | inr more ↦ (
          _,
          (
            round-refused scram server fuel n response s resp served err s' more evaluated,
            λ ok. cc,
          ),
        )
      ]
  second-round fuel n response s resp (answered answer, s') second served evaluated =
      let (over, verifier) =
        final-verified x resp.challenge answer s s'
          (sym (evaluate-second s resp.challenge second) ∙ evaluated) in
      elim (Bool-cases resp.completed) [
        | inl completed ↦ (
          (none, s'),
          (
            round-completed scram server fuel n response s resp served completed
                ∙ ap some (
                    verify-passed scram server fuel n response s resp.challenge answer s'
                      (complete-state s ∙ ap is_finished second) evaluated),
            λ ok. (over, (response, (resp, (served, verifier)))),
          ),
        )
        | inr more ↦ (
          (none, s'),
          (
            round-finished scram server fuel n response s resp served answer s' more evaluated
                (complete-state s' ∙ ap is_finished over),
            λ ok. (over, (response, (resp, (served, verifier)))),
          ),
        )
      ]
