-- ===== src/Server/Protocol.antt =====
-- src/server/protocol.rs: the errors of the protocol, and their bounds.
pub mod Bounded
use vcd_tools_rs.Prelude.{
  ℕ, zero, suc, ◌+◌, ◌-◌, Bool, true, false, Option, none, some, List, [], ◌∷◌, ◌++◌, Text, codes,
  leb, byte_len, len_utf8, reverse, nat_eqb, ◌&&◌, if◌then◌else◌,
}
use vcd_tools_rs.Value.Number.{show_decimal}
use vcd_tools_rs.Errors.{
  VcdError, io, missing_end_definitions, duplicate_signal, missing_signals, missing_signal, parse,
  QueryError, QueryLimitKind, kind_code,
}
use vcd_tools_rs.Server.Json.{
  Value, Values, Fields, null, boolean, number, string, array, object, nil, cons, empty, field,
  strings, text_fields,
}

abbrev pub protocol_version : ℕ
protocol_version = 1

abbrev pub max_request_id_bytes : ℕ
max_request_id_bytes = 128

abbrev pub terminal_frame_reserve_bytes : ℕ
terminal_frame_reserve_bytes = 4096

abbrev pub max_error_message_bytes : ℕ
max_error_message_bytes = 256

abbrev pub max_error_detail_string_bytes : ℕ
max_error_detail_string_bytes = 256

abbrev pub max_error_detail_items : ℕ
max_error_detail_items = 8

abbrev pub max_error_detail_fields : ℕ
max_error_detail_fields = 16

pub data ProtocolErrorCode : Type 0 where
  bad_request unsupported_version unknown_method duplicate_request_id signal_not_found :
      ProtocolErrorCode
  invalid_window invalid_occurrence limit_exceeded queue_full cancelled deadline_exceeded :
      ProtocolErrorCode
  stale_source source_unavailable parse_error fst_error internal : ProtocolErrorCode

-- `ProtocolErrorCode::as_str`.
unfoldable pub as_str : ProtocolErrorCode → Text
as_str bad_request = codes "BAD_REQUEST"
as_str unsupported_version = codes "UNSUPPORTED_VERSION"
as_str unknown_method = codes "UNKNOWN_METHOD"
as_str duplicate_request_id = codes "DUPLICATE_REQUEST_ID"
as_str signal_not_found = codes "SIGNAL_NOT_FOUND"
as_str invalid_window = codes "INVALID_WINDOW"
as_str invalid_occurrence = codes "INVALID_OCCURRENCE"
as_str limit_exceeded = codes "LIMIT_EXCEEDED"
as_str queue_full = codes "QUEUE_FULL"
as_str cancelled = codes "CANCELLED"
as_str deadline_exceeded = codes "DEADLINE_EXCEEDED"
as_str stale_source = codes "STALE_SOURCE"
as_str source_unavailable = codes "SOURCE_UNAVAILABLE"
as_str parse_error = codes "PARSE_ERROR"
as_str fst_error = codes "FST_ERROR"
as_str internal = codes "INTERNAL"

pub record ProtocolError : Type 0 where
  pub code : ProtocolErrorCode
  pub message : Text
  pub details : Value
  pub retryable : Bool

abbrev pub ellipsis : ℕ
ellipsis = 0x2026

-- The longest prefix of whole characters within a number of bytes: what the walk back to a
-- character's boundary leaves.
unfoldable pub prefix_within : ℕ → Text → Text
prefix_within budget [] = []
prefix_within budget (c ∷ t) =
    let rest = prefix_within (budget - len_utf8 c) t in
    if leb (len_utf8 c) budget then c ∷ rest else []

unfoldable pub truncate_utf8 : Text → ℕ → Text
truncate_utf8 text max_bytes =
    if leb (byte_len text) max_bytes
    then text
    else prefix_within (max_bytes - len_utf8 ellipsis) text ++ ellipsis ∷ []

-- The details within a depth that is left, a number of items and a number of fields.
unfoldable mutual
  pub bound_value : ℕ → Value → Value
  bound_value zero v = string (ellipsis ∷ [])
  bound_value (suc depth) (string t) = string (truncate_utf8 t max_error_detail_string_bytes)
  bound_value (suc depth) (array vs) = array (bound_values depth max_error_detail_items vs)
  bound_value (suc depth) (object fs) = object (bound_fields depth max_error_detail_fields fs)
  bound_value (suc depth) null = null
  bound_value (suc depth) (boolean b) = boolean b
  bound_value (suc depth) (number n) = number n

  pub bound_values : ℕ → ℕ → Values → Values
  bound_values depth zero vs = nil
  bound_values depth (suc items) nil = nil
  bound_values depth (suc items) (cons v vs) =
      cons (bound_value depth v) (bound_values depth items vs)

  pub bound_fields : ℕ → ℕ → Fields → Fields
  bound_fields depth zero fs = empty
  bound_fields depth (suc fields) empty = empty
  bound_fields depth (suc fields) (field name v fs) =
      field (truncate_utf8 name max_error_detail_string_bytes) (bound_value depth v)
        (bound_fields depth fields fs)

-- `bound_error_details` from depth 0: four levels.
unfoldable pub bound_error_details : Value → Value
bound_error_details v = bound_value 4 v

-- `ProtocolError::new`.
unfoldable pub new_error : ProtocolErrorCode → Text → Value → Bool → ProtocolError
new_error code message details retryable = record {
  code = code;
  message = truncate_utf8 message max_error_message_bytes;
  details = bound_error_details details;
  retryable = retryable;
}

unfoldable pub bad_request_error : Text → ProtocolError
bad_request_error message = new_error bad_request message (object empty) false

unfoldable pub unsupported_version_error : ProtocolError
unsupported_version_error =
    new_error unsupported_version (codes "unsupported protocol version")
      (object (field (codes "supported_versions") (array (strings (codes "1" ∷ []))) empty)) false

unfoldable pub unknown_method_error : Text → ProtocolError
unknown_method_error name =
    new_error unknown_method (codes "unknown method")
      (object (text_fields ((codes "method", name) ∷ []))) false

unfoldable pub duplicate_request_id_error : Text → ProtocolError
duplicate_request_id_error id =
    new_error duplicate_request_id (codes "request ID is already active")
      (object (text_fields ((codes "id", id) ∷ []))) false

unfoldable pub invalid_window_error : ProtocolError
invalid_window_error =
    new_error invalid_window (codes "start must be less than or equal to end") (object empty) false

unfoldable pub invalid_occurrence_error : ProtocolError
invalid_occurrence_error =
    new_error invalid_occurrence (codes "occurrence must be >= 1") (object empty) false

abbrev not_found_error : List Text → ProtocolError
not_found_error names =
    new_error signal_not_found (codes "one or more signals were not found")
      (object (field (codes "signals") (array (strings names)) empty)) false

-- `signals.split(", ")`; `part` is what the part that is being read has so far, backwards.
unfoldable pub split_comma : Text → Text → List Text
split_comma part [] = reverse part ∷ []
split_comma part (c ∷ []) = reverse (c ∷ part) ∷ []
split_comma part (c ∷ d ∷ t) = elim (nat_eqb c b',' && nat_eqb d b' ') [
  | true ↦ reverse part ∷ split_comma [] t
  | false ↦ split_comma (c ∷ part) (d ∷ t)
]

unfoldable pub protocol_error_from_vcd : VcdError → ProtocolError
protocol_error_from_vcd (missing_signal signal) = not_found_error (signal ∷ [])
protocol_error_from_vcd (missing_signals names) = not_found_error (split_comma [] names)
protocol_error_from_vcd VcdError.invalid_occurrence = invalid_occurrence_error
protocol_error_from_vcd (io e) =
    new_error source_unavailable (codes "source unavailable") (object empty) true
protocol_error_from_vcd missing_end_definitions =
    new_error parse_error (codes "VCD parse error") (object empty) false
protocol_error_from_vcd (duplicate_signal s) =
    new_error parse_error (codes "VCD parse error") (object empty) false
protocol_error_from_vcd (parse m) =
    new_error parse_error (codes "VCD parse error") (object empty) false

unfoldable pub protocol_error_from_query : QueryError → ProtocolError
protocol_error_from_query QueryError.cancelled =
    new_error cancelled (codes "query cancelled") (object empty) false
protocol_error_from_query QueryError.deadline_exceeded =
    new_error deadline_exceeded (codes "query deadline exceeded") (object empty) true
protocol_error_from_query (QueryError.limit_exceeded kind limit actual) =
    new_error limit_exceeded (codes "query limit exceeded")
      (object (
        text_fields (
          (codes "kind", kind_code kind)
          ∷ (codes "limit", show_decimal limit)
          ∷ (codes "actual", show_decimal actual)
          ∷ [])))
      false
protocol_error_from_query (QueryError.stale_source e) =
    new_error stale_source (codes "source changed during query") (object empty) true
protocol_error_from_query QueryError.queue_full =
    new_error queue_full (codes "query queue is full") (object empty) true
protocol_error_from_query (QueryError.source_unavailable e) =
    new_error source_unavailable (codes "source unavailable") (object empty) true
protocol_error_from_query (QueryError.signal_not_found signal) = not_found_error (signal ∷ [])
protocol_error_from_query (QueryError.vcd e) = protocol_error_from_vcd e
protocol_error_from_query (QueryError.fst m) =
    new_error fst_error (codes "FST parse error")
      (object (text_fields ((codes "format", codes "fst") ∷ []))) false
protocol_error_from_query (QueryError.unsupported_waveform m) =
    new_error parse_error (codes "unsupported waveform input") (object empty) false
protocol_error_from_query (QueryError.internal m) =
    new_error internal (codes "internal server error") (object empty) false
