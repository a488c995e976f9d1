-- ===== src/Connection/Auth.antt =====
-- internal/connection/auth.go: Authenticate, over a mechanism. The answers of the server to the request
-- for its mechanisms and to the n-th AuthOp are arguments.
pub mod Rounds
pub mod Verified
use go_client.Prelude.{
  ℕ, zero, suc, List, [], ◌∷◌, Option, none, some, Bool, true, false, if◌then◌else◌, bytes_discrete,
}
use go_client.Io.{Bytes, Error, message, wrap, Answer, answered, failed}
use go_client.Operation.Service.{AuthResponse}
use go_client.Auth.{Mechanism}
use mathlib.Core.Logic.{ite}

-- What Authenticate returns, with the mechanism's state; `none` while it has not returned.
abbrev pub Authenticated : Type 0 → Type 0
Authenticated S = Option (Option Error × S)

-- Whether the server's list has the name.
unfoldable pub has_mechanism : Bytes → List Bytes → Bool
has_mechanism name [] = false
has_mechanism name (m ∷ mechs) = ite (bytes_discrete m name) true (has_mechanism name mechs)

module _ {S : Type 0} (mech : Mechanism S) (server : ℕ → Bytes → Answer AuthResponse) where
  -- The last challenge, where the server has completed the exchange.
  unfoldable pub verify_server : Bytes → S → Option Error × S
  verify_server challenge st =
      if mech.complete st
      then (none, st)
      else (let (evaluated, st') = mech.evaluate_challenge challenge st in
          elim evaluated [
            | failed err ↦ (some (wrap "verify server" err), st')
            | answered response ↦ (none, st')
          ])

  -- The loop, for at most `fuel` rounds, from request `n` on.
  unfoldable pub auth_loop : ℕ → ℕ → Bytes → S → Authenticated S
  auth_loop zero n response_data st = none
  auth_loop (suc fuel) n response_data st = elim (server n response_data) [
    | failed err ↦ some (some (wrap "auth" err), st)
    | answered resp ↦ elim resp.completed [
      | true ↦ some (verify_server resp.challenge st)
      | false ↦
          let (evaluated, st') = mech.evaluate_challenge resp.challenge st in
          elim evaluated [
            | failed err ↦ some (some (wrap "evaluate challenge" err), st')
            | answered response ↦ elim (mech.complete st') [
              | true ↦ some (none, st')
              | false ↦ auth_loop fuel (suc n) response st'
            ]
          ]
    ]
  ]

  unfoldable pub authenticate : ℕ → Answer (List Bytes) → S → Authenticated S
  authenticate fuel (failed err) st = some (some (wrap "auth mech list" err), st)
  authenticate fuel (answered mechs) st =
      if has_mechanism mech.name mechs
      then (if mech.has_initial_response
          then (let (initial, st') = mech.initial_response st in
              elim initial [
                | failed err ↦ some (some (wrap "initial response" err), st')
                | answered response ↦ auth_loop fuel 0 response st'
              ])
          else auth_loop fuel 0 [] st)
      else some (some (message "mechanism not supported by server"), st)
