-- ===== src/Protostream/Query.antt =====
-- internal/protostream/query.go, and DecodeCQResult of wrapped.go. An int32 or int64 is its bit pattern.
pub mod RoundTrip
pub mod Responses
pub mod Continuous
use go_client.Prelude.{
  ℕ, zero, suc, List, [], ◌∷◌, ◌++◌, Option, none, some, Bool, true, false, not, ◌==◌, ltb,
  if◌then◌else◌, byte, u32, int_of32, is_negative32, is_negative64, ◌&&◌,
}
use go_client.Io.{Bytes, message, Answer, answered, failed}
use go_client.Protostream.Wire.{
  Result, ok, err, bind, append_len_delimited, append_varint_field, decode_uvarint, scan_fields,
}

pub record QueryParam : Type 0 where
  pub name : Bytes
  pub value : Bytes

pub record QueryResponse : Type 0 where
  pub num_results : ℕ
  pub projection_size : ℕ
  pub results : List Bytes
  pub hit_count : ℕ
  pub hit_count_exact : Bool

unfoldable pub append_param : QueryParam → Bytes
append_param p = append_len_delimited 1 p.name ++ append_len_delimited 2 p.value

unfoldable pub append_params : List QueryParam → Bytes
append_params [] = []
append_params (p ∷ params) = append_len_delimited 5 (append_param p) ++ append_params params

unfoldable pub append_offset : ℕ → Bytes
append_offset start_offset =
    if ltb 0 start_offset && not (is_negative64 start_offset)
    then append_varint_field 3 start_offset
    else []

unfoldable pub append_max : ℕ → Bytes
append_max max_results =
    if is_negative32 max_results then [] else append_varint_field 4 (int_of32 max_results)

unfoldable pub encode_query_request : Bytes → ℕ → ℕ → List QueryParam → Bytes
encode_query_request query start_offset max_results params =
    append_len_delimited 1 query
    ++ (append_offset start_offset ++ (append_max max_results ++ append_params params))

-- A varint of the response, set by `set`.
unfoldable pub response_varint : Bytes → (ℕ → QueryResponse) → Answer QueryResponse
response_varint value set = elim (decode_uvarint value) [
  | none ↦ failed (message "QueryResponse: invalid varint")
  | some (v, n) ↦ answered (set v)
]

unfoldable pub response_field : ℕ → ℕ → Bytes → QueryResponse → Answer QueryResponse
response_field number wire_type value resp =
    if number == 1
    then response_varint value (λ v. record resp { num_results = u32 v })
    else if number == 2
    then response_varint value (λ v. record resp { projection_size = u32 v })
    else if number == 3
    then answered (record resp { results = resp.results ++ value ∷ [] })
    else if number == 4
    then response_varint value (λ v. record resp { hit_count = u32 v })
    else if number == 5
    then response_varint value (λ v. record resp { hit_count_exact = not (v == 0) })
    else answered resp

abbrev pub empty_response : QueryResponse
empty_response = record {
  num_results = 0;
  projection_size = 0;
  results = [];
  hit_count = 0;
  hit_count_exact = false;
}

unfoldable pub decode_query_response : Bytes → Result QueryResponse
decode_query_response content = scan_fields response_field content empty_response

-- A value that no field gave is nil.
pub record CqResult : Type 0 where
  pub result_type : ℕ
  pub key : Bytes
  pub value : Option Bytes
  pub projections : List Bytes

-- The result so far, foundType and foundKey.
abbrev pub CqScan : Type 0
CqScan = CqResult × Bool × Bool

unfoldable pub cq_field : ℕ → ℕ → Bytes → CqScan → Answer CqScan
cq_field number wire_type value (r, found_type, found_key) =
    if number == 1
    then elim (decode_uvarint value) [
      | none ↦ failed (message "CQResult: invalid resultType varint")
      | some (v, n) ↦ answered (record r { result_type = byte v }, true, found_key)
    ]
    else if number == 2
    then answered (record r { key = value }, found_type, true)
    else if number == 3
    then answered (record r { value = some value }, found_type, found_key)
    else if number == 4
    then answered (record r { projections = r.projections ++ value ∷ [] }, found_type, found_key)
    else answered (r, found_type, found_key)

unfoldable pub decode_cq_result : Bytes → Result CqResult
decode_cq_result content =
    bind
      (scan_fields cq_field content
        (record { result_type = 0; key = []; value = none; projections = [] }, false, false))
      λ (r, found_type, found_key).
        if not found_type
        then err (message "CQResult: missing resultType field (1)")
        else if not found_key
        then err (message "CQResult: missing key field (2)")
        else ok r
