-- ===== src/Server/Request/Refusals.antt =====
-- src/server/protocol.rs: the errors by which the decoder refuses a value.
use vcd_tools_rs.Prelude.{◌≡◌, Text, codes, ok, err, if_intro}
use vcd_tools_rs.Prelude.Keys.{text_eqb}
use vcd_tools_rs.Server.Json.{Value, Fields, number, natural, other_number}
use vcd_tools_rs.Server.Protocol.{ProtocolError}
use vcd_tools_rs.Server.Answer.{
  Answer, ◌>>◌, Refuses, passes, refuses, Refuses->>=, Refuses-reject_if, refused_of,
}
use vcd_tools_rs.Server.Request.{RequestMethod}
use vcd_tools_rs.Server.Request.Take.{reject_unknown}
use vcd_tools_rs.Server.Request.Decode.{
  parse_list, parse_metadata, parse_extract, parse_find, parse_toggles, parse_cancel, parse_method,
  decode_value, check_version,
}
use vcd_tools_rs.Server.Request.Refused.{
  IsRequestError, bad_request_lem, occurrence_lem, method_lem, version_lem, Sound, bad_value,
  request_id_refusal, signals_refusal, window_refusal, response_limit_refusal, required_refusal,
  take_string_refusal, take_optional_string_refusal, optional_refusal, optional_usize_refusal,
  take_strings_refusal, unknown_refusal, object_refusal,
}

ruleset refusals = (
  Refuses->>=, passes, take_string_refusal, take_optional_string_refusal, optional_refusal,
  optional_usize_refusal, take_strings_refusal, unknown_refusal, signals_refusal, window_refusal,
  response_limit_refusal, request_id_refusal,
)

list_refusal : (params : Fields) → Sound (parse_list params)
unfolding parse_list
list_refusal params = search refusals depth 12

metadata_refusal : (params : Fields) → Sound (parse_metadata params)
unfolding parse_metadata
metadata_refusal params = search refusals depth 8

extract_refusal : (params : Fields) → Sound (parse_extract params)
unfolding parse_extract
extract_refusal params = search refusals depth 16

toggles_refusal : (params : Fields) → Sound (parse_toggles params)
unfolding parse_toggles
toggles_refusal params = search refusals depth 16

cancel_refusal : (params : Fields) → Sound (parse_cancel params)
unfolding parse_cancel
cancel_refusal params = search refusals depth 8

find_refusal : (params : Fields) → Sound (parse_find params)
unfolding parse_find
find_refusal params = Refuses->>= (take_string_refusal _ _) λ _.
    Refuses->>= (Refuses-reject_if _ _ (bad_request_lem _)) λ _.
      Refuses->>= (optional_usize_refusal _ _)
        λ _. Refuses->>= (Refuses-reject_if _ _ occurrence_lem) λ _. search refusals depth 16

bare_refusal : (params : Fields) (m : RequestMethod) → Sound (reject_unknown params >> ok m)
bare_refusal params m = Refuses->>= (unknown_refusal params) (λ _. passes m)

parse_method_refusal : (name : Text) (params : Fields) → Sound (parse_method name params)
unfolding parse_method
parse_method_refusal name params =
    let P : Answer RequestMethod → Type 0 = Refuses IsRequestError in
    if_intro P (text_eqb name (codes "ping")) (λ _. bare_refusal params RequestMethod.ping)
      λ _.
        if_intro P (text_eqb name (codes "describe"))
          (λ _. bare_refusal params RequestMethod.describe)
          λ _.
            if_intro P (text_eqb name (codes "list")) (λ _. list_refusal params)
              λ _.
                if_intro P (text_eqb name (codes "metadata")) (λ _. metadata_refusal params)
                  λ _.
                    if_intro P (text_eqb name (codes "extract")) (λ _. extract_refusal params)
                      λ _.
                        if_intro P (text_eqb name (codes "find")) (λ _. find_refusal params)
                          λ _.
                            if_intro P (text_eqb name (codes "toggles"))
                              (λ _. toggles_refusal params)
                              λ _.
                                if_intro P (text_eqb name (codes "cancel"))
                                  (λ _. cancel_refusal params) (λ _. refuses _ (method_lem name))

version_refusal : (v : Value) → Sound (check_version v)
unfolding check_version
version_refusal (number (natural n)) = Refuses-reject_if _ _ version_lem
version_refusal (number (other_number t)) = refuses _ version_lem
version_refusal _ = bad_value _

decode_refusal : (v : Value) → Sound (decode_value v)
unfolding decode_value
decode_refusal v = Refuses->>= (object_refusal _ _) λ _. Refuses->>= (required_refusal _ _) λ _.
    Refuses->>= (version_refusal _) λ _. Refuses->>= (take_string_refusal _ _) λ _.
      Refuses->>= (request_id_refusal _) λ _. Refuses->>= (take_string_refusal _ _) λ _.
        Refuses->>= (required_refusal _ _) λ _.
          Refuses->>= (object_refusal _ _)
            λ _. Refuses->>= (parse_method_refusal _ _) (λ _. passes _)

-- A JSON value that the decoder refuses is refused by an error with one of the codes BAD_REQUEST,
-- UNSUPPORTED_VERSION, UNKNOWN_METHOD, INVALID_WINDOW and INVALID_OCCURRENCE, which is not
-- retryable and whose message and details are within their bounds.
pub decode_value_refusal :
    (v : Value) (e : ProtocolError) → decode_value v ≡ err e → IsRequestError e
decode_value_refusal v e h = refused_of (decode_refusal v) h
