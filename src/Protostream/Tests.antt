-- ===== src/Protostream/Tests.antt =====
-- The theorems on wrapped values and queries at concrete inputs.
use go_client.Prelude.{◌-◌, ◌^◌, ◌≡◌, refl, List, [], ◌∷◌, ◌++◌, none, true, length, arith}
use go_client.Protostream.Wire.{
  ok, out_of_range, append_uvarint, append_tag, uvarint_groups, append_len_delimited,
  append_varint_field, scan_fields,
}
use go_client.Protostream.Wire.Fields.{Field, varint, delimited, field_bytes, encode_fields}
use go_client.Protostream.Wire.Scan.{of_answer, visit_fields, scan_fields-fields}
use go_client.Protostream.Wire.Panics.{scan_fields_panics}
use go_client.Protostream.Wrapped.{
  wrap_message, unwrap_message, unwrap_bytes, unwrap_value, value_field,
}
use go_client.Protostream.Wrapped.Values.{sint32, protobuf, go_value, unwrap_value-protobuf}
use go_client.Protostream.Wrapped.Messages.{unwrap_message-wrap_message}
use go_client.Protostream.Query.{
  QueryParam, QueryResponse, append_offset, append_max, append_param, append_params,
  encode_query_request, decode_query_response, decode_cq_result,
}
use go_client.Protostream.Query.RoundTrip.{request_fields, scan_fields-encode_query_request}
use go_client.Protostream.Query.Responses.{response_fields, decode_query_response-fields}
use go_client.Protostream.Query.Continuous.{cq_fields, cq_result, decode_cq_result-fields}

-- An unknown field, a value, and a later value in its place.
abbrev three_fields : List Field
three_fields = varint 20 300 ∷ delimited 9 (0x61 ∷ []) ∷ delimited 10 (0x62 ∷ 0x63 ∷ []) ∷ []

three_fields_short : length (encode_fields three_fields) ≡ 11
unfolding encode_fields field_bytes append_tag append_uvarint uvarint_groups
three_fields_short = refl

scan_fields-fields_example :
    scan_fields value_field (encode_fields three_fields) none
    ≡ of_answer (visit_fields value_field three_fields none)
scan_fields-fields_example =
    scan_fields-fields value_field three_fields none
      ((omega arith, omega arith), ((omega arith, omega arith), ((omega arith, omega arith), tt)))
      (omega (arith, three_fields_short))

scan_fields_panics_example :
    scan_fields value_field (append_tag 9 2 ++ (append_uvarint (2 ^ 63) ++ [])) none ≡ out_of_range
scan_fields_panics_example =
    scan_fields_panics value_field 9 (2 ^ 63) [] none (omega arith) (omega arith) (omega arith)

-- -3 as an sint32.
unwrap_value-protobuf_example :
    unwrap_value (field_bytes (protobuf (sint32 (2 ^ 32 - 3))))
    ≡ ok (go_value (sint32 (2 ^ 32 - 3)))
unwrap_value-protobuf_example = unwrap_value-protobuf (sint32 (2 ^ 32 - 3)) (omega arith)

unwrap_message-wrap_message_example :
    (unwrap_message (wrap_message (1 ∷ 2 ∷ []) (0x50 ∷ [])) ≡ ok (1 ∷ 2 ∷ [], 0x50 ∷ []))
    × (unwrap_bytes (wrap_message (1 ∷ 2 ∷ []) (0x50 ∷ [])) ≡ ok (1 ∷ 2 ∷ []))
unwrap_message-wrap_message_example =
    unwrap_message-wrap_message (1 ∷ 2 ∷ []) (0x50 ∷ []) (omega arith)

abbrev one_param : List QueryParam
one_param = record { name = 0x6e ∷ []; value = 7 ∷ [] } ∷ []

request_short : length (encode_query_request (0x51 ∷ []) 10 100 one_param) ≡ 15
unfolding encode_query_request append_offset append_max append_param append_params
    append_len_delimited append_varint_field append_tag append_uvarint uvarint_groups
request_short = refl

scan_fields-encode_query_request_example :
    scan_fields value_field (encode_query_request (0x51 ∷ []) 10 100 one_param) none
    ≡ of_answer (visit_fields value_field (request_fields (0x51 ∷ []) 10 100 one_param) none)
scan_fields-encode_query_request_example =
    scan_fields-encode_query_request value_field none (0x51 ∷ []) 10 100 one_param (omega arith)
      (omega arith) (omega (arith, request_short))

-- Two results, counted exactly.
abbrev two_results : QueryResponse
two_results = record {
  num_results = 2;
  projection_size = 0;
  results = (1 ∷ []) ∷ (2 ∷ 3 ∷ []) ∷ [];
  hit_count = 2 ^ 32 - 1;
  hit_count_exact = true;
}

response_short : length (encode_fields (response_fields two_results)) ≡ 24
unfolding encode_fields field_bytes append_tag append_uvarint uvarint_groups response_fields
response_short = refl

decode_query_response-fields_example :
    decode_query_response (encode_fields (response_fields two_results)) ≡ ok two_results
decode_query_response-fields_example =
    decode_query_response-fields two_results (omega arith) (omega arith) (omega arith)
      (omega (arith, response_short))

cq_short : length (encode_fields (cq_fields 1 (5 ∷ []) none ((6 ∷ []) ∷ []))) ≡ 8
unfolding encode_fields field_bytes append_tag append_uvarint uvarint_groups
cq_short = refl

decode_cq_result-fields_example :
    decode_cq_result (encode_fields (cq_fields 1 (5 ∷ []) none ((6 ∷ []) ∷ [])))
    ≡ ok (cq_result 1 (5 ∷ []) none ((6 ∷ []) ∷ []))
decode_cq_result-fields_example =
    decode_cq_result-fields 1 (5 ∷ []) none ((6 ∷ []) ∷ []) (omega arith) (omega (arith, cq_short))
