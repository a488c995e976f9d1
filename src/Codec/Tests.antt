-- ===== src/Codec/Tests.antt =====
-- The theorems on the wire format, the time units and the headers at concrete inputs.
use go_client.Prelude.{ℕ, ◌≡◌, refl, List, [], ◌∷◌, Option, some, arith, minus_one32}
use go_client.Io.Encodes.{Encodes}
use go_client.Codec.Wire.{read_metadata, read_metadata_value}
use go_client.Codec.Wire.Metadata.{value_of, read_metadata_value_lem}
use go_client.Codec.TimeUnits.{encode_time_units, write_time_units}
use go_client.Codec.TimeUnits.RoundTrip.{meaning, read_time_units, time_units-Encodes}
use go_client.Codec.Header.{
  RequestHeader, ServerAddress, write_request_header, read_response_header,
}
use go_client.Codec.Header.Request.{
  IsSendable, received, read_request_header, request_header-Encodes,
}
use go_client.Codec.Header.Topology.{Distribution, unaware}
use go_client.Codec.Header.Response.{write_response_header, topology_field, response_header-Encodes}

read_metadata_value_lem_example :
    read_metadata_value (3 ∷ 0 ∷ 0 ∷ 0 ∷ 0 ∷ 0 ∷ 0 ∷ 0 ∷ 7 ∷ 1 ∷ 5 ∷ [])
    ≡ value_of (read_metadata (3 ∷ 0 ∷ 0 ∷ 0 ∷ 0 ∷ 0 ∷ 0 ∷ 0 ∷ 7 ∷ 1 ∷ 5 ∷ []))
read_metadata_value_lem_example =
    read_metadata_value_lem (3 ∷ 0 ∷ 0 ∷ 0 ∷ 0 ∷ 0 ∷ 0 ∷ 0 ∷ 7 ∷ 1 ∷ 5 ∷ [])

time_units-Encodes_example :
    Encodes
      (write_time_units (encode_time_units 5_000_000_000 0))
      read_time_units
      (meaning 5_000_000_000, meaning 0)
time_units-Encodes_example = time_units-Encodes 5_000_000_000 0 (omega arith) (omega arith)

abbrev put_header : RequestHeader
put_header = record {
  message_id = 12;
  version = 0;
  op_code = 0x01;
  cache_name = 0x63 ∷ [];
  flags = 1;
  client_intelligence = 3;
  topology_id = 9;
  key_media_type = 3;
  value_media_type = minus_one32;
}

put_header-IsSendable : IsSendable put_header
put_header-IsSendable = record {
  message_id = omega arith;
  cache_name = omega arith;
  flags = omega arith;
  topology_id = omega arith;
  key_media_type = omega arith;
  value_media_type = omega arith;
}

request_header-Encodes_example :
    Encodes (write_request_header put_header) read_request_header (received put_header)
request_header-Encodes_example = request_header-Encodes put_header put_header-IsSendable

abbrev two_servers : List ServerAddress
two_servers =
    record { host = 0x61 ∷ []; port = 11222 } ∷ record { host = 0x62 ∷ []; port = 11222 } ∷ []

abbrev change_of_topology : Option (ℕ × List ServerAddress × Distribution)
change_of_topology = some (4, two_servers, unaware)

response_header-Encodes_example :
    Encodes (write_response_header 12 0x02 0 change_of_topology) (read_response_header 1) (record {
      message_id = 12;
      op_code = 0x02;
      status = 0;
      topology_update = topology_field change_of_topology;
    })
response_header-Encodes_example =
    response_header-Encodes 1 12 0x02 0 change_of_topology (omega arith) (
      omega arith,
      omega arith,
      ((omega arith, omega arith), ((omega arith, omega arith), tt)),
      refl,
    )
