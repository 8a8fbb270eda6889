-- ===== src/Server/Request/RoundTrip.antt =====
-- src/server/protocol.rs: a request is decoded from the value that it is sent as.
use vcd_tools_rs.Prelude.{
  ℕ, ◌≤◌, ◌≡◌, refl, Bool, false, Option, none, some, List, [], ◌∷◌, Text, codes, nat_eqb, ok, All,
  ◌≢◌, arith,
}
use vcd_tools_rs.Prelude.Keys.{text_eqb}
use vcd_tools_rs.Server.Protocol.{ProtocolError, protocol_version}
use vcd_tools_rs.Server.Json.{Value, Fields, number, natural, object, string, empty, text_fields}
use vcd_tools_rs.Server.Answer.{Answer, ◌>>=◌, reject_if, ok->>=}
use vcd_tools_rs.Server.Request.{
  Request, RequestMethod, ListParams, MetadataParams, ExtractParams, FindParams, TogglesParams,
  CancelParams, optionals, list_fields, metadata_fields, extract_fields, find_fields,
  toggles_fields, params_fields, request_value, name,
}
use vcd_tools_rs.Server.Request.Take.{
  is_empty, validate_request_id, validate_signals, validate_window, validate_response_limit,
  reject_unknown, expect_object, any_empty,
}
use vcd_tools_rs.Server.Request.Valid.{
  IsRequestId, AreSignals, IsResponseLimit, IsWindow, IsValidMethod, IsValid,
}
use vcd_tools_rs.Server.Request.Optionals.{
  take_optionals, take_required_head, take_string_head, take_strings_head, take_optional_text,
  take_usize_behind,
}
use vcd_tools_rs.Server.Request.Decode.{
  parse_list, parse_metadata, parse_extract, parse_find, parse_toggles, parse_cancel, parse_method,
  decode_value, check_version, decode_request, decode_request_with_active,
}

reject_unknown-optionals : reject_unknown (optionals []) ≡ ok tt
unfolding reject_unknown optionals
reject_unknown-optionals = refl

request_id_passes : (id : Text) → IsRequestId id → validate_request_id id ≡ ok tt
unfolding validate_request_id reject_if ◌>>=◌
request_id_passes [] h = absurd (h.0 refl)
request_id_passes (c ∷ id) h = ground arith

any_empty-false : (signals : List Text) → All (λ s. s ≢ []) signals → any_empty signals ≡ false
unfolding any_empty
any_empty-false [] h = refl
any_empty-false ([] ∷ rest) h = absurd (h.0 refl)
any_empty-false ((c ∷ s) ∷ rest) h = any_empty-false rest h.1

signals_pass : (signals : List Text) → AreSignals signals → validate_signals signals ≡ ok tt
unfolding validate_signals reject_if ◌>>=◌
signals_pass [] h = absurd (h.0 refl)
signals_pass (s ∷ rest) h = rw (any_empty-false (s ∷ rest) h.1)

window_passes : (start end : Option ℕ) → IsWindow start end → validate_window start end ≡ ok tt
unfolding validate_window reject_if
window_passes none end h = refl
window_passes (some start) none h = refl
window_passes (some start) (some end) h = ground arith

response_limit_passes :
    (limit : Option ℕ) → IsResponseLimit limit → validate_response_limit limit ≡ ok tt
unfolding validate_response_limit reject_if
response_limit_passes none h = refl
response_limit_passes (some limit) h = ground arith

abbrev Entries : Type 0
Entries = List (Text × Option ℕ)

parse-metadata_fields :
    (p : MetadataParams)
    → IsValidMethod (RequestMethod.metadata p)
    → parse_metadata (metadata_fields p) ≡ ok (RequestMethod.metadata p)
unfolding parse_metadata metadata_fields text_eqb
parse-metadata_fields p (timeout, commands) =
    let from_max_commands : Entries = (codes "max_commands", p.max_commands) ∷ [] in
    simp (
      take_optionals (codes "timeout_ms") p.timeout_ms from_max_commands timeout refl,
      take_optionals (codes "max_commands") p.max_commands [] commands refl,
      reject_unknown-optionals,
      ok->>=,
    )

parse-list_fields :
    (p : ListParams)
    → IsValidMethod (RequestMethod.list p)
    → parse_list (list_fields p) ≡ ok (RequestMethod.list p)
unfolding parse_list list_fields text_eqb
parse-list_fields p (rows, bytes, timeout) =
    let from_timeout_ms : Entries = (codes "timeout_ms", p.timeout_ms) ∷ [] in
    let from_max_response_bytes : Entries =
      (codes "max_response_bytes", p.max_response_bytes) ∷ from_timeout_ms in
    let from_max_rows : Entries = (codes "max_rows", p.max_rows) ∷ from_max_response_bytes in
    simp (
      take_optional_text (codes "filter") p.filter from_max_rows refl,
      take_optionals (codes "max_rows") p.max_rows from_max_response_bytes rows refl,
      take_optionals (codes "max_response_bytes") p.max_response_bytes from_timeout_ms bytes.0 refl,
      take_optionals (codes "timeout_ms") p.timeout_ms [] timeout refl,
      response_limit_passes p.max_response_bytes bytes,
      reject_unknown-optionals,
      ok->>=,
    )

parse-extract_fields :
    (p : ExtractParams)
    → IsValidMethod (RequestMethod.extract p)
    → parse_extract (extract_fields p) ≡ ok (RequestMethod.extract p)
unfolding parse_extract extract_fields text_eqb
parse-extract_fields p (signals, window, rows, bytes, commands, timeout) =
    let from_timeout_ms : Entries = (codes "timeout_ms", p.timeout_ms) ∷ [] in
    let from_max_commands : Entries = (codes "max_commands", p.max_commands) ∷ from_timeout_ms in
    let from_max_response_bytes : Entries =
      (codes "max_response_bytes", p.max_response_bytes) ∷ from_max_commands in
    let from_max_rows : Entries = (codes "max_rows", p.max_rows) ∷ from_max_response_bytes in
    let from_end : Entries = (codes "end", p.end) ∷ from_max_rows in
    simp (
      take_strings_head (codes "signals") p.signals,
      signals_pass p.signals signals,
      take_optionals (codes "start") p.start from_end window.0 refl,
      take_optionals (codes "end") p.end from_max_rows window.1 refl,
      take_optionals (codes "max_rows") p.max_rows from_max_response_bytes rows refl,
      take_optionals (codes "max_response_bytes") p.max_response_bytes from_max_commands bytes.0
          refl,
      take_optionals (codes "max_commands") p.max_commands from_timeout_ms commands refl,
      take_optionals (codes "timeout_ms") p.timeout_ms [] timeout refl,
      window_passes p.start p.end window,
      response_limit_passes p.max_response_bytes bytes,
      reject_unknown-optionals,
      ok->>=,
    )

parse-toggles_fields :
    (p : TogglesParams)
    → IsValidMethod (RequestMethod.toggles p)
    → parse_toggles (toggles_fields p) ≡ ok (RequestMethod.toggles p)
unfolding parse_toggles toggles_fields text_eqb
parse-toggles_fields p (signals, window, commands, bytes, timeout) =
    let from_timeout_ms : Entries = (codes "timeout_ms", p.timeout_ms) ∷ [] in
    let from_max_response_bytes : Entries =
      (codes "max_response_bytes", p.max_response_bytes) ∷ from_timeout_ms in
    let from_max_commands : Entries =
      (codes "max_commands", p.max_commands) ∷ from_max_response_bytes in
    let from_end : Entries = (codes "end", p.end) ∷ from_max_commands in
    simp (
      take_strings_head (codes "signals") p.signals,
      signals_pass p.signals signals,
      take_optionals (codes "start") p.start from_end window.0 refl,
      take_optionals (codes "end") p.end from_max_commands window.1 refl,
      take_optionals (codes "max_commands") p.max_commands from_max_response_bytes commands refl,
      take_optionals (codes "max_response_bytes") p.max_response_bytes from_timeout_ms bytes.0 refl,
      take_optionals (codes "timeout_ms") p.timeout_ms [] timeout refl,
      window_passes p.start p.end window,
      response_limit_passes p.max_response_bytes bytes,
      reject_unknown-optionals,
      ok->>=,
    )

is_empty-false : (t : Text) → t ≢ [] → is_empty t ≡ false
is_empty-false [] h = absurd (h refl)
is_empty-false (c ∷ t) h = refl

is_zero_false : (n : ℕ) → 1 ≤ n → nat_eqb n 0 ≡ false
is_zero_false n h = ground arith

reject_if-false : (e : ProtocolError) → reject_if false e ≡ ok tt
unfolding reject_if
reject_if-false e = refl

reject_unknown-empty : reject_unknown empty ≡ ok tt
unfolding reject_unknown
reject_unknown-empty = refl

parse-find_fields :
    (p : FindParams)
    → IsValidMethod (RequestMethod.find p)
    → parse_find (find_fields p) ≡ ok (RequestMethod.find p)
unfolding parse_find find_fields text_eqb
parse-find_fields p (named, counted, fits, window, commands, bytes, timeout) =
    let from_timeout_ms : Entries = (codes "timeout_ms", p.timeout_ms) ∷ [] in
    let from_max_response_bytes : Entries =
      (codes "max_response_bytes", p.max_response_bytes) ∷ from_timeout_ms in
    let from_max_commands : Entries =
      (codes "max_commands", p.max_commands) ∷ from_max_response_bytes in
    let from_end : Entries = (codes "end", p.end) ∷ from_max_commands in
    let from_start : Entries = (codes "start", p.start) ∷ from_end in
    simp (
      take_string_head (codes "signal") p.signal,
      is_empty-false p.signal named,
      take_usize_behind (codes "occurrence") (codes "value") (string p.value) p.occurrence
          from_start fits refl,
      is_zero_false p.occurrence counted,
      take_string_head (codes "value") p.value,
      take_optionals (codes "start") p.start from_end window.0 refl,
      take_optionals (codes "end") p.end from_max_commands window.1 refl,
      take_optionals (codes "max_commands") p.max_commands from_max_response_bytes commands refl,
      take_optionals (codes "max_response_bytes") p.max_response_bytes from_timeout_ms bytes.0 refl,
      take_optionals (codes "timeout_ms") p.timeout_ms [] timeout refl,
      window_passes p.start p.end window,
      response_limit_passes p.max_response_bytes bytes,
      reject_unknown-optionals,
      reject_if-false,
      ok->>=,
    )

parse-cancel_fields :
    (p : CancelParams)
    → IsValidMethod (RequestMethod.cancel p)
    → parse_cancel (text_fields ((codes "request_id", p.request_id) ∷ []))
      ≡ ok (RequestMethod.cancel p)
unfolding parse_cancel
parse-cancel_fields p h = simp (
  take_string_head (codes "request_id") p.request_id,
  request_id_passes p.request_id h,
  reject_unknown-empty,
  ok->>=,
)

parse_method-params :
    (m : RequestMethod) → IsValidMethod m → parse_method (name m) (params_fields m) ≡ ok m
unfolding parse_method name params_fields text_eqb
parse_method-params RequestMethod.ping h = unfold reject_unknown ◌>>=◌ in refl
parse_method-params RequestMethod.describe h = unfold reject_unknown ◌>>=◌ in refl
parse_method-params (RequestMethod.list p) h = parse-list_fields p h
parse_method-params (RequestMethod.metadata p) h = parse-metadata_fields p h
parse_method-params (RequestMethod.extract p) h = parse-extract_fields p h
parse_method-params (RequestMethod.find p) h = parse-find_fields p h
parse_method-params (RequestMethod.toggles p) h = parse-toggles_fields p h
parse_method-params (RequestMethod.cancel p) h = parse-cancel_fields p h

check_version_passes : check_version (number (natural protocol_version)) ≡ ok tt
unfolding check_version reject_if
check_version_passes = refl

expect-object : (what : Text) (fields : Fields) → expect_object what (object fields) ≡ ok fields
unfolding expect_object
expect-object what fields = refl

decode-request_value : (r : Request) → IsValid r → decode_value (request_value r) ≡ ok r
unfolding decode_value request_value
decode-request_value r h = simp (
  expect-object,
  take_required_head,
  check_version_passes,
  take_string_head,
  request_id_passes r.id h.id_lem,
  parse_method-params r.method h.method_lem,
  ok->>=,
)

module _ (parse_strict_json : Text → Answer Value) (is_active : Text → Bool) where
  -- A line in which the JSON parser reads the value of a valid request, whose id is not active, is
  -- decoded to that request.
  pub decode-request_line :
      (r : Request) (line : Text)
      → IsValid r
      → is_active r.id ≡ false
      → parse_strict_json line ≡ ok (request_value r)
      → decode_request_with_active parse_strict_json line is_active ≡ ok r
  unfolding decode_request_with_active decode_request
  decode-request_line r line valid inactive parsed =
      simp (parsed, inactive, decode-request_value r valid, reject_if-false, ok->>=)
