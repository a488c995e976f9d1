-- ===== src/Codec/Constants.antt =====
-- internal/codec/constants.go: the numbers of the protocol that the modelled code uses.
use go_client.Prelude.{ℕ, Bool, leb, ◌==◌, ◌&&◌, ◌||◌}

abbrev pub request_magic : ℕ
request_magic = 0xa0

abbrev pub response_magic : ℕ
response_magic = 0xa1

abbrev pub version_41 : ℕ
version_41 = 41

-- Cache entry event opcodes, sent by the server.
abbrev pub op_cache_entry_created : ℕ
op_cache_entry_created = 0x60

abbrev pub op_cache_entry_modified : ℕ
op_cache_entry_modified = 0x61

abbrev pub op_cache_entry_removed : ℕ
op_cache_entry_removed = 0x62

abbrev pub op_cache_entry_expired : ℕ
op_cache_entry_expired = 0x63

abbrev pub op_counter_event : ℕ
op_counter_event = 0x66

-- Response status codes.
abbrev pub status_success : ℕ
status_success = 0x00

abbrev pub status_key_does_not_exist : ℕ
status_key_does_not_exist = 0x02

abbrev pub status_success_with_previous : ℕ
status_success_with_previous = 0x03

abbrev pub status_not_exec_with_previous : ℕ
status_not_exec_with_previous = 0x04

abbrev pub status_counter_bound_reached : ℕ
status_counter_bound_reached = 0x04

abbrev pub status_invalid_iteration : ℕ
status_invalid_iteration = 0x05

abbrev pub intelligence_hash_dist_aware : ℕ
intelligence_hash_dist_aware = 0x03

abbrev pub media_type_none : ℕ
media_type_none = 0x00

abbrev pub media_type_predefined : ℕ
media_type_predefined = 0x01

abbrev pub media_type_custom : ℕ
media_type_custom = 0x02

abbrev pub media_id_octet_stream : ℕ
media_id_octet_stream = 3

abbrev pub media_id_protostream : ℕ
media_id_protostream = 12

-- Time unit codes.
abbrev pub time_unit_seconds : ℕ
time_unit_seconds = 0x00

abbrev pub time_unit_milliseconds : ℕ
time_unit_milliseconds = 0x01

abbrev pub time_unit_nanoseconds : ℕ
time_unit_nanoseconds = 0x02

abbrev pub time_unit_microseconds : ℕ
time_unit_microseconds = 0x03

abbrev pub time_unit_minutes : ℕ
time_unit_minutes = 0x04

abbrev pub time_unit_hours : ℕ
time_unit_hours = 0x05

abbrev pub time_unit_default : ℕ
time_unit_default = 0x07

abbrev pub time_unit_infinite : ℕ
time_unit_infinite = 0x08

unfoldable pub is_error : ℕ → Bool
is_error status = leb 0x81 status

unfoldable pub is_event : ℕ → Bool
is_event op_code =
    (leb op_cache_entry_created op_code && leb op_code op_cache_entry_expired)
    || op_code == op_counter_event
