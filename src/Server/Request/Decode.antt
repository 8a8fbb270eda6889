-- ===== src/Server/Request/Decode.antt =====
-- src/server/protocol.rs: `decode_request`. The strict JSON parser, which serde_json drives, is a
-- parameter.
use vcd_tools_rs.Prelude.{
  ℕ, Bool, true, false, Option, none, some, Text, codes, nat_eqb, if◌then◌else◌, ok, err,
}
use vcd_tools_rs.Prelude.Keys.{text_eqb}
use vcd_tools_rs.Server.Json.{Value, Fields, number, natural, other_number}
use vcd_tools_rs.Server.Protocol.{
  protocol_version, bad_request_error, invalid_occurrence_error, unknown_method_error,
  unsupported_version_error, duplicate_request_id_error,
}
use vcd_tools_rs.Server.Answer.{Answer, ◌>>=◌, ◌>>◌, reject_if}
use vcd_tools_rs.Server.Request.{Request, RequestMethod}
use vcd_tools_rs.Server.Request.Take.{
  is_empty, validate_request_id, validate_signals, validate_window, validate_response_limit,
  take_required, take_string, take_optional_string, take_optional_decimal,
  take_optional_decimal_usize, take_required_strings, reject_unknown, expect_object,
}

unfoldable pub parse_list : Fields → Answer RequestMethod
parse_list params = do
  (filter, params) ← take_optional_string params (codes "filter")
  (max_rows, params) ← take_optional_decimal params (codes "max_rows")
  (max_response_bytes, params) ← take_optional_decimal params (codes "max_response_bytes")
  (timeout_ms, params) ← take_optional_decimal params (codes "timeout_ms")
  reject_unknown params
  validate_response_limit max_response_bytes
  ok (
      RequestMethod.list (record {
        filter = filter;
        max_rows = max_rows;
        max_response_bytes = max_response_bytes;
        timeout_ms = timeout_ms;
      }))

unfoldable pub parse_metadata : Fields → Answer RequestMethod
parse_metadata params = do
  (timeout_ms, params) ← take_optional_decimal params (codes "timeout_ms")
  (max_commands, params) ← take_optional_decimal params (codes "max_commands")
  reject_unknown params
  ok (RequestMethod.metadata (record { timeout_ms = timeout_ms; max_commands = max_commands }))

unfoldable pub parse_extract : Fields → Answer RequestMethod
parse_extract params = do
  (signals, params) ← take_required_strings params (codes "signals")
  validate_signals signals
  (start, params) ← take_optional_decimal params (codes "start")
  (end, params) ← take_optional_decimal params (codes "end")
  (max_rows, params) ← take_optional_decimal params (codes "max_rows")
  (max_response_bytes, params) ← take_optional_decimal params (codes "max_response_bytes")
  (max_commands, params) ← take_optional_decimal params (codes "max_commands")
  (timeout_ms, params) ← take_optional_decimal params (codes "timeout_ms")
  reject_unknown params
  validate_window start end
  validate_response_limit max_response_bytes
  ok (
      RequestMethod.extract (record {
        signals = signals;
        start = start;
        end = end;
        max_rows = max_rows;
        max_response_bytes = max_response_bytes;
        max_commands = max_commands;
        timeout_ms = timeout_ms;
      }))

-- `unwrap_or(1)`.
abbrev pub or_one : Option ℕ → ℕ
or_one none = 1
or_one (some n) = n

unfoldable pub parse_find : Fields → Answer RequestMethod
parse_find params = do
  (signal, params) ← take_string params (codes "signal")
  reject_if (is_empty signal) (bad_request_error (codes "signal must not be empty"))
  (occurrence, params) ← take_optional_decimal_usize params (codes "occurrence")
  reject_if (nat_eqb (or_one occurrence) 0) invalid_occurrence_error
  (value, params) ← take_string params (codes "value")
  (start, params) ← take_optional_decimal params (codes "start")
  (end, params) ← take_optional_decimal params (codes "end")
  (max_commands, params) ← take_optional_decimal params (codes "max_commands")
  (max_response_bytes, params) ← take_optional_decimal params (codes "max_response_bytes")
  (timeout_ms, params) ← take_optional_decimal params (codes "timeout_ms")
  reject_unknown params
  validate_window start end
  validate_response_limit max_response_bytes
  ok (
      RequestMethod.find (record {
        signal = signal;
        value = value;
        occurrence = or_one occurrence;
        start = start;
        end = end;
        max_commands = max_commands;
        max_response_bytes = max_response_bytes;
        timeout_ms = timeout_ms;
      }))

unfoldable pub parse_toggles : Fields → Answer RequestMethod
parse_toggles params = do
  (signals, params) ← take_required_strings params (codes "signals")
  validate_signals signals
  (start, params) ← take_optional_decimal params (codes "start")
  (end, params) ← take_optional_decimal params (codes "end")
  (max_commands, params) ← take_optional_decimal params (codes "max_commands")
  (max_response_bytes, params) ← take_optional_decimal params (codes "max_response_bytes")
  (timeout_ms, params) ← take_optional_decimal params (codes "timeout_ms")
  reject_unknown params
  validate_window start end
  validate_response_limit max_response_bytes
  ok (
      RequestMethod.toggles (record {
        signals = signals;
        start = start;
        end = end;
        max_commands = max_commands;
        max_response_bytes = max_response_bytes;
        timeout_ms = timeout_ms;
      }))

unfoldable pub parse_cancel : Fields → Answer RequestMethod
parse_cancel params = do
  (request_id, params) ← take_string params (codes "request_id")
  validate_request_id request_id
  reject_unknown params
  ok (RequestMethod.cancel (record { request_id = request_id }))

unfoldable pub parse_method : Text → Fields → Answer RequestMethod
parse_method name params =
    if text_eqb name (codes "ping")
    then reject_unknown params >> ok RequestMethod.ping
    else if text_eqb name (codes "describe")
    then reject_unknown params >> ok RequestMethod.describe
    else if text_eqb name (codes "list")
    then parse_list params
    else if text_eqb name (codes "metadata")
    then parse_metadata params
    else if text_eqb name (codes "extract")
    then parse_extract params
    else if text_eqb name (codes "find")
    then parse_find params
    else if text_eqb name (codes "toggles")
    then parse_toggles params
    else if text_eqb name (codes "cancel")
    then parse_cancel params
    else err (unknown_method_error name)

-- The version is the number 1.
unfoldable pub check_version : Value → Answer (Unit {0})
check_version (number (natural n)) =
    reject_if (if nat_eqb n protocol_version then false else true) unsupported_version_error
check_version (number (other_number t)) = err unsupported_version_error
check_version _ = err (bad_request_error (codes "v must be JSON number 1"))

-- `decode_request` behind the parser of the line.
unfoldable pub decode_value : Value → Answer Request
decode_value value = do
  envelope ← expect_object (codes "request envelope") value
  (version, envelope) ← take_required envelope (codes "v")
  check_version version
  (id, envelope) ← take_string envelope (codes "id")
  validate_request_id id
  (method_name, envelope) ← take_string envelope (codes "method")
  (params_value, envelope) ← take_required envelope (codes "params")
  params ← expect_object (codes "params") params_value
  method ← parse_method method_name params
  ok (record { id = id; method = method })

module _ (parse_strict_json : Text → Answer Value) where
  unfoldable pub decode_request : Text → Answer Request
  decode_request line = parse_strict_json line >>= decode_value

  -- `validate_inactive`, after the decoder.
  unfoldable pub decode_request_with_active : Text → (Text → Bool) → Answer Request
  decode_request_with_active line is_active = do
    request ← decode_request line
    reject_if (is_active request.id) (duplicate_request_id_error request.id)
    ok request
