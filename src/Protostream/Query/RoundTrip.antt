-- ===== src/Protostream/Query/RoundTrip.antt =====
-- internal/protostream/query.go: the fields of a request.
use go_client.Prelude.{
  ℕ, ◌^◌, ◌<◌, ◌≡◌, refl, sym, ap, ◌∙◌, List, [], ◌∷◌, ◌++◌, map, append-nil, Bool-cases, inl, inr,
  not, ◌&&◌, ltb, if◌then◌else◌, length, All, is_negative32, is_negative64, IsU32, IsU64, arith,
}
use go_client.Io.{Bytes, Answer}
use go_client.Protostream.Wire.{append_len_delimited, append_varint_field, scan_fields}
use go_client.Protostream.Wire.Fields.{Field, varint, delimited, field_bytes, encode_fields}
use go_client.Protostream.Wire.Scan.{
  of_answer, scan_fields-fields, visit_fields, encode_fields-append, IsInRange, fields-IsField,
}
use go_client.Protostream.Query.{
  QueryParam, append_param, append_params, append_offset, append_max, encode_query_request,
}

-- The fields of a QueryRequest by its schema: an offset that is 0 or less and a maximum that is negative
-- are left out, a parameter is a message of its own.
abbrev pub param_field : QueryParam → Field
param_field p = delimited 5 (encode_fields (delimited 1 p.name ∷ delimited 2 p.value ∷ []))

unfoldable pub request_fields : Bytes → ℕ → ℕ → List QueryParam → List Field
request_fields query start_offset max_results params =
    delimited 1 query
    ∷ ((if ltb 0 start_offset && not (is_negative64 start_offset)
          then varint 3 start_offset ∷ []
          else [])
        ++ ((if is_negative32 max_results then [] else varint 4 max_results ∷ [])
            ++ map param_field params))

append_param-fields :
    (p : QueryParam) → append_len_delimited 5 (append_param p) ≡ field_bytes (param_field p)
unfolding append_param field_bytes encode_fields append_len_delimited
append_param-fields p =
    ap (λ t. append_len_delimited 5 (append_len_delimited 1 p.name ++ t)) (sym (append-nil _))

append_params-fields :
    (params : List QueryParam) → append_params params ≡ encode_fields (map param_field params)
unfolding append_params encode_fields
append_params-fields [] = refl
append_params-fields (p ∷ params) =
    ap (λ t. t ++ append_params params) (append_param-fields p)
    ∙ ap (λ t. field_bytes (param_field p) ++ t) (append_params-fields params)

single-fields : (n v : ℕ) → append_varint_field n v ≡ encode_fields (varint n v ∷ [])
unfolding encode_fields field_bytes append_varint_field
single-fields n v = sym (append-nil _)

append_offset-fields :
    (o : ℕ)
    → append_offset o
      ≡ encode_fields (if ltb 0 o && not (is_negative64 o) then varint 3 o ∷ [] else [])
unfolding append_offset encode_fields
append_offset-fields o = elim (Bool-cases (ltb 0 o && not (is_negative64 o))) [
  | inl present ↦ rw present (single-fields 3 o)
  | inr absent ↦ rw absent refl
]

append_max-fields :
    (m : ℕ) → append_max m ≡ encode_fields (if is_negative32 m then [] else varint 4 m ∷ [])
unfolding append_max encode_fields
append_max-fields m = elim (Bool-cases (is_negative32 m)) [
  | inl absent ↦ rw absent refl
  | inr present ↦ rw present (single-fields 4 m)
]

first-fields :
    (query : Bytes) (fs : List Field)
    → append_len_delimited 1 query ++ encode_fields fs ≡ encode_fields (delimited 1 query ∷ fs)
unfolding encode_fields field_bytes append_len_delimited
first-fields query fs = refl

encode_query_request-fields :
    (query : Bytes) (start_offset max_results : ℕ) (params : List QueryParam)
    → encode_query_request query start_offset max_results params
      ≡ encode_fields (request_fields query start_offset max_results params)
unfolding encode_query_request request_fields
encode_query_request-fields query o m params =
    let offset = if ltb 0 o && not (is_negative64 o) then varint 3 o ∷ [] else [] in
    let most = if is_negative32 m then [] else varint 4 m ∷ [] in
    ap (λ t. append_len_delimited 1 query ++ (t ++ (append_max m ++ append_params params)))
      (append_offset-fields o)
    ∙ ap
        (λ t. append_len_delimited 1 query ++ (encode_fields offset ++ (t ++ append_params params)))
        (append_max-fields m)
    ∙ ap (λ t. append_len_delimited 1 query ++ (encode_fields offset ++ (encode_fields most ++ t)))
        (append_params-fields params)
    ∙ ap (λ t. append_len_delimited 1 query ++ (encode_fields offset ++ t))
        (sym (encode_fields-append most (map param_field params)))
    ∙ ap (λ t. append_len_delimited 1 query ++ t)
        (sym (encode_fields-append offset (most ++ map param_field params)))
    ∙ first-fields query (offset ++ (most ++ map param_field params))

params-IsInRange : (params : List QueryParam) → All IsInRange (map param_field params)
params-IsInRange [] = tt
params-IsInRange (p ∷ params) = (omega arith, params-IsInRange params)

request-IsInRange :
    (query : Bytes) (o m : ℕ) (params : List QueryParam)
    → IsU64 o
    → IsU32 m
    → All IsInRange (request_fields query o m params)
unfolding request_fields
request-IsInRange query o m params ho hm = (
  omega arith,
  elim (Bool-cases (ltb 0 o && not (is_negative64 o))) [
    | inl offset ↦ rw offset ((omega arith, ho), most_in_range)
    | inr absent ↦ rw absent most_in_range
  ],
)
  where
    most_in_range :
        All IsInRange ((if is_negative32 m then [] else varint 4 m ∷ []) ++ map param_field params)
    most_in_range = elim (Bool-cases (is_negative32 m)) [
      | inl absent ↦ rw absent (params-IsInRange params)
      | inr most ↦ rw most ((omega arith, omega arith), params-IsInRange params)
    ]

-- Whatever function a server scans a request with: it is called on the fields that the schema of
-- QueryRequest asks for, in order, for any query, offset, maximum and parameters that make up less than
-- 2^63 bytes.
pub scan_fields-encode_query_request :
    {S : Type 0} (fn : ℕ → ℕ → Bytes → S → Answer S) (st : S) (query : Bytes)
    (start_offset max_results : ℕ) (params : List QueryParam)
    → IsU64 start_offset
    → IsU32 max_results
    → length (encode_query_request query start_offset max_results params) < 2 ^ 63
    → scan_fields fn (encode_query_request query start_offset max_results params) st
      ≡ of_answer (visit_fields fn (request_fields query start_offset max_results params) st)
scan_fields-encode_query_request fn st query o m params ho hm fits =
    let encoded = encode_query_request-fields query o m params in
    let fits' : length (encode_fields (request_fields query o m params)) < 2 ^ 63 =
      omega (arith, ap length encoded) in
    ap (λ t. scan_fields fn t st) encoded
    ∙ scan_fields-fields fn (request_fields query o m params) st
        (fields-IsField _ (request-IsInRange query o m params ho hm) fits') fits'
