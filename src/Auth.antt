-- ===== src/Auth.antt =====
-- internal/auth: the SASL mechanisms. A mechanism is a record of functions on its state; a string is its
-- bytes. What an error's text quotes of a challenge, and the byte that OAUTHBEARER returns next to its error
-- and no caller uses, are left out.
pub mod Scram
pub mod Tests
use go_client.Prelude.{ℕ, List, [], ◌∷◌, ◌++◌, Bool, true, false}
use go_client.Io.{Bytes, message, Answer, answered, failed}

-- mechanism.go: the interface, for a mechanism with the state `S`.
pub record Mechanism (S : Type 0) : Type 0 where
  pub name : Bytes
  pub has_initial_response : Bool
  pub initial_response : S → Answer Bytes × S
  pub evaluate_challenge : Bytes → S → Answer Bytes × S
  pub complete : S → Bool

-- plain.go.
pub record Plain : Type 0 where
  pub username : Bytes
  pub password : Bytes
  pub complete : Bool

-- A NUL byte before the user name and before the password.
unfoldable pub plain : Mechanism Plain
plain = record {
  name = 80 ∷ 76 ∷ 65 ∷ 73 ∷ 78 ∷ [];
  has_initial_response = true;
  initial_response =
      λ p. (answered (0 ∷ (p.username ++ 0 ∷ p.password)), record p { complete = true });
  evaluate_challenge = λ challenge p. (failed (message "PLAIN does not expect a challenge"), p);
  complete = λ p. p.complete;
}

-- external.go; the state is whether the initial response was made.
unfoldable pub external : Mechanism Bool
external = record {
  name = 69 ∷ 88 ∷ 84 ∷ 69 ∷ 82 ∷ 78 ∷ 65 ∷ 76 ∷ [];
  has_initial_response = true;
  initial_response = λ c. (answered [], true);
  evaluate_challenge = λ challenge c. (answered [], c);
  complete = λ c. c;
}

-- oauthbearer.go.
pub record OauthBearer : Type 0 where
  pub token : Bytes
  pub complete : Bool

-- "n,,", a byte 1, "auth=Bearer ", the token, and two bytes 1.
unfoldable pub oauth_response : Bytes → Bytes
oauth_response token =
    (110 ∷ 44 ∷ 44 ∷ [])
    ++ (1 ∷ (97 ∷ 117 ∷ 116 ∷ 104 ∷ 61 ∷ 66 ∷ 101 ∷ 97 ∷ 114 ∷ 101 ∷ 114 ∷ 32 ∷ [])
        ++ (token ++ 1 ∷ 1 ∷ []))

unfoldable pub oauth_bearer : Mechanism OauthBearer
oauth_bearer = record {
  name = 79 ∷ 65 ∷ 85 ∷ 84 ∷ 72 ∷ 66 ∷ 69 ∷ 65 ∷ 82 ∷ 69 ∷ 82 ∷ [];
  has_initial_response = true;
  initial_response = λ o. (answered (oauth_response o.token), record o { complete = true });
  evaluate_challenge = λ challenge o. (failed (message "OAUTHBEARER authentication failed"), o);
  complete = λ o. o.complete;
}
