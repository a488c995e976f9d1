-- ===== src/Hotrod/Execute.antt =====
-- hotrod/execute.go: a call on the pool whose result has a type. The pool and the server are a function that
-- answers a request with a status and the bytes that follow the header, or an error.
use go_client.Prelude.{ℕ, [], ◌≡◌, refl, ap, ◌∙◌, Option, none, some, true, false, if◌then◌else◌}
use go_client.Io.{Bytes, Error, from_server, done, fail, panic, Write, Answer, answered, failed}
use go_client.Codec.Constants.{is_error}
use go_client.Codec.Header.{read_error_message}
use go_client.Operation.{Operation}

-- What a request has of an operation.
pub record Request : Type 0 where
  pub op_code : ℕ
  pub cache_name : Bytes
  pub flags : ℕ
  pub key_media_type : ℕ
  pub value_media_type : ℕ
  pub body : Write

abbrev pub request_of : {R : Type 0} → Operation R → Request
request_of op = record {
  op_code = op.request_op_code;
  cache_name = op.cache_name;
  flags = op.flags;
  key_media_type = op.key_media_type;
  value_media_type = op.value_media_type;
  body = op.write_body;
}

abbrev pub Server : Type 0
Server = Request → Answer (ℕ × Bytes)

-- What a call comes to: a value, an error, or a panic.
pub data Call {ℓ} (A : Type ℓ) : Type ℓ where
  returned : A → Call A
  call_failed : Error → Call A
  call_panicked : Call A

-- `if err != nil { return …, err }`
abbrev pub and_then : {A B : Type 0} → Call A → (A → Call B) → Call B
and_then (returned a) f = f a
and_then (call_failed e) f = call_failed e
and_then call_panicked f = call_panicked

abbrev pub mapped : {A B : Type 0} → (A → B) → Call A → Call B
mapped f c = and_then c (λ a. returned (f a))

-- The ServerError of a response of an error status, with the message that can be read, or none.
unfoldable pub refused_call : {R : Type 0} → ℕ → Bytes → Call R
refused_call status s = elim (read_error_message s) [
  | done m rest ↦ call_failed (from_server status m)
  | fail e rest ↦ call_failed (from_server status [])
  | panic ↦ call_panicked
]

module _ (server : Server) where
  unfoldable pub of_response : {R : Type 0} → Operation R → ℕ × Bytes → Call R
  of_response op (status, s) =
      if is_error status then refused_call status s else elim (op.decode_response status s) [
        | done v rest ↦ returned v
        | fail e rest ↦ call_failed e
        | panic ↦ call_panicked
      ]

  -- Pool.Execute, and `execute` at a type of which DecodeResponse never returns nil.
  unfoldable pub execute : {R : Type 0} → Operation R → Call R
  execute op = elim (server (request_of op)) [
    | failed e ↦ call_failed e
    | answered r ↦ of_response op r
  ]

  -- `execute` where DecodeResponse may return nil: the assertion `result.(T)` panics at it.
  unfoldable pub execute_asserted : {R : Type 0} → Operation (Option R) → Call R
  execute_asserted op =
      and_then (execute op) λ o. elim o [ none ↦ call_panicked | some r ↦ returned r ]

-- What a call comes to, by the server's answer.
module _ (server : Server) {R : Type 0} (op : Operation R) where
  given :
      (a : Answer (ℕ × Bytes))
      → server (request_of op) ≡ a
      → execute server op
        ≡ (elim a [ failed e ↦ call_failed e | answered r ↦ of_response server op r ])
  unfolding execute
  given a sent =
      ap (λ a. elim a [ failed e ↦ call_failed e | answered r ↦ of_response server op r ]) sent

  pub execute-failed :
      (e : Error) → server (request_of op) ≡ failed e → execute server op ≡ call_failed e
  execute-failed e sent = given (failed e) sent

  module _ (status : ℕ) (s : Bytes) (sent : server (request_of op) ≡ answered (status, s)) where
    pub execute-refused : is_error status ≡ true → execute server op ≡ refused_call status s
    unfolding of_response
    execute-refused bad =
        given (answered (status, s)) sent
        ∙ ap
            (λ b. if b then refused_call status s else elim (op.decode_response status s) [
              | done v rest ↦ returned v
              | fail e rest ↦ call_failed e
              | panic ↦ call_panicked
            ])
            bad

    pub execute-returned :
        (v : R) (rest : Bytes)
        → is_error status ≡ false
        → op.decode_response status s ≡ done v rest
        → execute server op ≡ returned v
    unfolding of_response
    execute-returned v rest fine decoded =
        given (answered (status, s)) sent ∙ rw (fine, decoded, of_response) refl
