-- ===== src/Protostream/Query/Responses.antt =====
-- internal/protostream/query.go: the reading of a server's response.
use go_client.Prelude.{
  ℕ, ◌^◌, ◌<◌, ◌≡◌, refl, sym, ap, ◌∙◌, List, [], ◌∷◌, ◌++◌, map, append_assoc, append-nil, Bool,
  true, false, if◌then◌else◌, length, All, u32, int_of32, IsU32, IsU64, arith,
}
use go_client.Io.{Bytes, answered}
use go_client.Protostream.Wire.{ok, append_uvarint}
use go_client.Protostream.Wire.Varint.{decode_uvarint-append_uvarint}
use go_client.Protostream.Wire.Fields.{Field, varint, delimited, encode_fields}
use go_client.Protostream.Wire.Scan.{
  of_answer, scan_fields-fields, visit_fields, visit_fields-append, visit_fields-cons, IsInRange,
  fields-IsField,
}
use go_client.Protostream.Query.{
  QueryResponse, response_varint, response_field, empty_response, decode_query_response,
}

-- The fields of a QueryResponse, as a server writes them.
unfoldable pub response_fields : QueryResponse → List Field
response_fields r =
    varint 1 (int_of32 r.num_results)
    ∷ varint 2 (int_of32 r.projection_size)
    ∷ (map (delimited 3) r.results
        ++ (varint 4 (int_of32 r.hit_count) ∷ varint 5 (if r.hit_count_exact then 1 else 0) ∷ []))

results_read :
    (rs : List Bytes) (r : QueryResponse)
    → visit_fields response_field (map (delimited 3) rs) r
      ≡ answered (record r { results = r.results ++ rs })
unfolding visit_fields response_field
results_read [] r = ap (λ t. answered (record r { results = t })) (sym (append-nil r.results))
results_read (x ∷ rs) r =
    results_read rs _
    ∙ ap (λ t. answered (record r { results = t })) (append_assoc r.results (x ∷ []) rs)

response_varint-append :
    (v : ℕ) (set : ℕ → QueryResponse)
    → IsU64 v
    → response_varint (append_uvarint v) set ≡ answered (set v)
unfolding response_varint
response_varint-append v set h =
    ap (λ t. response_varint t set) (sym (append-nil (append_uvarint v)))
    ∙ rw (decode_uvarint-append_uvarint v [] h, response_varint) refl

int_of32-lt : (n : ℕ) → IsU32 n → IsU64 (int_of32 n)
int_of32-lt n h = ground arith

u32-int_of32 : (n : ℕ) → IsU32 n → u32 (int_of32 n) ≡ n
u32-int_of32 n h = ground arith

module _ (st : QueryResponse) (n : ℕ) (h : IsU32 n) where
  num_results_read :
      response_field 1 0 (append_uvarint (int_of32 n)) st ≡ answered (record st { num_results = n })
  unfolding response_field
  num_results_read =
      response_varint-append (int_of32 n) _ (int_of32-lt n h)
      ∙ ap (λ t. answered (record st { num_results = t })) (u32-int_of32 n h)

  projection_size_read :
      response_field 2 0 (append_uvarint (int_of32 n)) st
      ≡ answered (record st { projection_size = n })
  unfolding response_field
  projection_size_read =
      response_varint-append (int_of32 n) _ (int_of32-lt n h)
      ∙ ap (λ t. answered (record st { projection_size = t })) (u32-int_of32 n h)

  hit_count_read :
      response_field 4 0 (append_uvarint (int_of32 n)) st ≡ answered (record st { hit_count = n })
  unfolding response_field
  hit_count_read =
      response_varint-append (int_of32 n) _ (int_of32-lt n h)
      ∙ ap (λ t. answered (record st { hit_count = t })) (u32-int_of32 n h)

exact_read :
    (b : Bool) (st : QueryResponse)
    → response_field 5 0 (append_uvarint (if b then 1 else 0)) st
      ≡ answered (record st { hit_count_exact = b })
unfolding response_field
exact_read true st = response_varint-append 1 _ (omega arith)
exact_read false st = response_varint-append 0 _ (omega arith)

response-IsInRange :
    (r : QueryResponse)
    → IsU32 r.num_results
    → IsU32 r.projection_size
    → IsU32 r.hit_count
    → All IsInRange (response_fields r)
unfolding response_fields
response-IsInRange r hn hp hh =
    ((omega arith, int_of32-lt _ hn), ((omega arith, int_of32-lt _ hp), results_in_range r.results))
  where
    exact_small : (b : Bool) → IsU64 (if b then 1 else 0)
    exact_small true = omega arith
    exact_small false = omega arith

    results_in_range :
        (rs : List Bytes)
        → All IsInRange (
            map (delimited 3) rs
            ++ (varint 4 (int_of32 r.hit_count)
                ∷ varint 5 (if r.hit_count_exact then 1 else 0)
                ∷ []))
    results_in_range [] =
        ((omega arith, int_of32-lt _ hh), ((omega arith, exact_small r.hit_count_exact), tt))
    results_in_range (x ∷ rs) = (omega arith, results_in_range rs)

-- A QueryResponse is decoded from the fields that a server writes, where its int32s are in range and its
-- encoding is shorter than 2^63 bytes.
pub decode_query_response-fields :
    (r : QueryResponse)
    → IsU32 r.num_results
    → IsU32 r.projection_size
    → IsU32 r.hit_count
    → length (encode_fields (response_fields r)) < 2 ^ 63
    → decode_query_response (encode_fields (response_fields r)) ≡ ok r
unfolding decode_query_response response_fields visit_fields
decode_query_response-fields r hn hp hh fits =
    let hit = varint 4 (int_of32 r.hit_count) in
    let exact = varint 5 (if r.hit_count_exact then 1 else 0) in
    let size = varint 2 (int_of32 r.projection_size) in
    let results = map (delimited 3) r.results in
    let numbered : QueryResponse = record empty_response { num_results = r.num_results } in
    let sized : QueryResponse = record numbered { projection_size = r.projection_size } in
    let filled : QueryResponse = record sized { results = r.results } in
    let counted : QueryResponse = record filled { hit_count = r.hit_count } in
    scan_fields-fields response_field (response_fields r) empty_response
      (fields-IsField _ (response-IsInRange r hn hp hh) fits) fits
    ∙ ap of_answer (
        visit_fields-cons response_field (varint 1 (int_of32 r.num_results))
          (size ∷ (results ++ hit ∷ exact ∷ [])) empty_response numbered
          (num_results_read empty_response r.num_results hn)
        ∙ visit_fields-cons response_field size (results ++ hit ∷ exact ∷ []) numbered sized
            (projection_size_read numbered r.projection_size hp)
        ∙ visit_fields-append response_field results (hit ∷ exact ∷ []) sized filled
            (results_read r.results sized)
        ∙ visit_fields-cons response_field hit (exact ∷ []) filled counted
            (hit_count_read filled r.hit_count hh)
        ∙ visit_fields-cons response_field exact [] counted r
            (exact_read r.hit_count_exact counted))
