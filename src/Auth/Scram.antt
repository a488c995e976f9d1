-- ===== src/Auth/Scram.antt =====
-- internal/auth/scram.go: SCRAM-SHA-256. HMAC, SHA-256, base64 and the parsing of a number are parameters;
-- the hashes return 32 bytes, so that xorBytes stays in range.
use go_client.Prelude.{
  ℕ, zero, suc, ◌-◌, ◌/◌, ◌^◌, ◌==◌, bit_xor, byte, List, [], ◌∷◌, ◌++◌, Option, none, some, Bool,
  true, false, if◌then◌else◌, find, store, bytes_discrete, get_or,
}
use go_client.Io.{Bytes, Error, message, wrap, Answer, answered, failed}
use go_client.Auth.{Mechanism}
use mathlib.Core.Logic.{ite}

-- What the mechanism uses of the standard library: `decode64` and `parse_int` return what they return next
-- to an error, too; a number of iterations that is not positive is 0.
pub record Crypto : Type 0 where
  pub hmac : Bytes → Bytes → Bytes
  pub sha256 : Bytes → Bytes
  pub encode64 : Bytes → Bytes
  pub decode64 : Bytes → Bytes × Option Error
  pub parse_int : Bytes → ℕ × Option Error

pub data ScramState : Type 0 where
  fresh challenge_received finished : ScramState

pub record ScramSha256 : Type 0 where
  pub username : Bytes
  pub password : Bytes
  pub state : ScramState
  pub client_nonce : Bytes
  pub server_nonce : Bytes
  pub salt : Bytes
  pub iterations : ℕ
  pub auth_message : Bytes
  pub salted_pwd : Bytes
  pub server_key : Bytes

-- `strings.Split(s, ",")`, with the first part so far reversed in `part`.
unfoldable pub split_commas : Bytes → Bytes → List Bytes
split_commas part [] = part ∷ []
split_commas part (c ∷ s) =
    if c == 44 then part ∷ split_commas [] s else split_commas (part ++ c ∷ []) s

-- The text before and after the first '='.
unfoldable pub split_equals : Bytes → Option (Bytes × Bytes)
split_equals [] = none
split_equals (c ∷ s) = elim (split_equals s) [
  | none ↦ if c == 61 then some ([], s) else none
  | some (k, v) ↦ if c == 61 then some ([], s) else some (c ∷ k, v)
]

unfoldable pub add_attribute : List (Bytes × Bytes) → List Bytes → List (Bytes × Bytes)
add_attribute m [] = m
add_attribute m (part ∷ parts) = elim (split_equals part) [
  | none ↦ add_attribute m parts
  | some (k, v) ↦ add_attribute (store bytes_discrete k v m) parts
]

unfoldable pub parse_scram_attributes : Bytes → List (Bytes × Bytes)
parse_scram_attributes s = add_attribute [] (split_commas [] s)

abbrev pub attribute : ℕ → List (Bytes × Bytes) → Option Bytes
attribute c m = find bytes_discrete (c ∷ []) m

abbrev pub or_empty : Option Bytes → Bytes
or_empty none = []
or_empty (some b) = b

-- `strings.HasPrefix(s, prefix)`
unfoldable pub has_prefix : Bytes → Bytes → Bool
has_prefix s [] = true
has_prefix [] (c ∷ prefix) = false
has_prefix (d ∷ s) (c ∷ prefix) = if d == c then has_prefix s prefix else false

unfoldable pub xor_bytes : Bytes → Bytes → Bytes
xor_bytes [] b = []
xor_bytes (x ∷ a) b = bit_xor x (get_or b 0 0) ∷ xor_bytes a (behind_first b)
  where
    behind_first : Bytes → Bytes
    behind_first [] = []
    behind_first (y ∷ ys) = ys

abbrev pub is_finished : ScramState → Bool
is_finished fresh = false
is_finished challenge_received = false
is_finished finished = true

module _ (x : Crypto) where
  -- The rounds behind the first, which hash `u` again and add it to the result.
  unfoldable pub pbkdf2_rounds : ℕ → Bytes → Bytes → Bytes → Bytes
  pbkdf2_rounds zero password u result = result
  pbkdf2_rounds (suc n) password u result =
      let u' = x.hmac password u in pbkdf2_rounds n password u' (xor_bytes result u')

  unfoldable pub pbkdf2_block : Bytes → Bytes → ℕ → ℕ → Bytes
  pbkdf2_block password salt iterations index =
      let u = x.hmac password (
        salt
        ++ byte (index / 2 ^ 24)
          ∷ byte (index / 2 ^ 16)
          ∷ byte (index / 2 ^ 8)
          ∷ byte index
          ∷ []) in
      pbkdf2_rounds (iterations - 1) password u u

  -- pbkdf2SHA256 for a key of 32 bytes, which is one block.
  unfoldable pub pbkdf2_sha256 : Bytes → Bytes → ℕ → Bytes
  pbkdf2_sha256 password salt iterations = pbkdf2_block password salt iterations 1

  -- "n=…,r=…"
  unfoldable pub client_first_bare : ScramSha256 → Bytes
  client_first_bare s = 110 ∷ 61 ∷ (s.username ++ 44 ∷ 114 ∷ 61 ∷ s.client_nonce)

  -- "c=…,r=…", with the base64 form of "n,,".
  unfoldable pub client_final_no_proof : ScramSha256 → Bytes
  client_final_no_proof s =
      99 ∷ 61 ∷ (x.encode64 (110 ∷ 44 ∷ 44 ∷ []) ++ 44 ∷ 114 ∷ 61 ∷ s.server_nonce)

  -- The first message for 18 random bytes.
  unfoldable pub scram_initial_response : Bytes → ScramSha256 → Answer Bytes × ScramSha256
  scram_initial_response nonce s =
      let s' = record s { client_nonce = x.encode64 nonce } in
      (answered ((110 ∷ 44 ∷ 44 ∷ []) ++ client_first_bare s'), s')

  -- The keys, the message and the proof, once the server's first message is parsed.
  unfoldable pub client_final : Bytes → ScramSha256 → Bytes × ScramSha256
  client_final server_first s =
      let salted = pbkdf2_sha256 s.password s.salt s.iterations in
      let client_key =
        x.hmac salted (67 ∷ 108 ∷ 105 ∷ 101 ∷ 110 ∷ 116 ∷ 32 ∷ 75 ∷ 101 ∷ 121 ∷ []) in
      let stored_key = x.sha256 client_key in
      let no_proof = client_final_no_proof s in
      let auth_message = client_first_bare s ++ (44 ∷ (server_first ++ 44 ∷ no_proof)) in
      let proof = xor_bytes client_key (x.hmac stored_key auth_message) in
      (
        no_proof ++ (44 ∷ 112 ∷ 61 ∷ x.encode64 proof),
        record s {
          state = challenge_received;
          salted_pwd = salted;
          server_key = x.hmac salted (83 ∷ 101 ∷ 114 ∷ 118 ∷ 101 ∷ 114 ∷ 32 ∷ 75 ∷ 101 ∷ 121 ∷ []);
          auth_message = auth_message;
        },
      )

  unfoldable pub take_iterations :
      Bytes → List (Bytes × Bytes) → ScramSha256 → Answer Bytes × ScramSha256
  take_iterations server_first parts s = elim (attribute 105 parts) [
    | none ↦ (failed (message "server-first: missing iteration count"), s)
    | some text ↦
        let (iterations, err) = x.parse_int text in
        let s' = record s { iterations = iterations } in
        elim err [
          | some e ↦ (failed (wrap "server-first: parse iterations" e), s')
          | none ↦ let (final, s'') = client_final server_first s' in (answered final, s'')
        ]
  ]

  unfoldable pub take_salt : Bytes → List (Bytes × Bytes) → ScramSha256 → Answer Bytes × ScramSha256
  take_salt server_first parts s = elim (attribute 115 parts) [
    | none ↦ (failed (message "server-first: missing salt"), s)
    | some text ↦
        let (salt, err) = x.decode64 text in
        let s' = record s { salt = salt } in
        elim err [
          | some e ↦ (failed (wrap "server-first: decode salt" e), s')
          | none ↦ take_iterations server_first parts s'
        ]
  ]

  unfoldable pub process_server_first : Bytes → ScramSha256 → Answer Bytes × ScramSha256
  process_server_first server_first s =
      let parts = parse_scram_attributes server_first in
      let nonce = attribute 114 parts in
      let s' = record s { server_nonce = or_empty nonce } in
      elim nonce [
        | none ↦ (failed (message "server-first: missing nonce"), s')
        | some r ↦
            if has_prefix r s.client_nonce
            then take_salt server_first parts s'
            else (failed (message "server-first: nonce doesn't start with client nonce"), s')
      ]

  -- What the server must send to prove that it knows the keys.
  unfoldable pub expected_verifier : ScramSha256 → Bytes
  expected_verifier s = x.encode64 (x.hmac s.server_key s.auth_message)

  unfoldable pub process_server_final : Bytes → ScramSha256 → Answer Bytes × ScramSha256
  process_server_final server_final s =
      let parts = parse_scram_attributes server_final in
      elim (attribute 101 parts) [
        | some e ↦ (failed (message "server-final error"), s)
        | none ↦ elim (attribute 118 parts) [
          | none ↦ (failed (message "server-final: missing verifier"), s)
          | some v ↦
              ite (bytes_discrete v (expected_verifier s))
                (answered [], record s { state = finished })
                (failed (message "server signature verification failed"), s)
        ]
      ]

  unfoldable pub scram_evaluate : ScramState → Bytes → ScramSha256 → Answer Bytes × ScramSha256
  scram_evaluate fresh challenge s = process_server_first challenge s
  scram_evaluate challenge_received challenge s = process_server_final challenge s
  scram_evaluate finished challenge s = (failed (message "unexpected SCRAM state"), s)

  unfoldable pub scram_sha256 : Bytes → Mechanism ScramSha256
  scram_sha256 nonce = record {
    name = 83 ∷ 67 ∷ 82 ∷ 65 ∷ 77 ∷ 45 ∷ 83 ∷ 72 ∷ 65 ∷ 45 ∷ 50 ∷ 53 ∷ 54 ∷ [];
    has_initial_response = true;
    initial_response = scram_initial_response nonce;
    evaluate_challenge = λ challenge s. scram_evaluate s.state challenge s;
    complete = λ s. is_finished s.state;
  }
