-- ===== src/Server/Request/Refused.antt =====
-- src/server/protocol.rs: the errors by which the checks and the takers of fields refuse.
use vcd_tools_rs.Prelude.{
  ℕ, ◌≡◌, refl, Bool, true, false, Option, none, some, List, [], Text, err, if_intro, leb,
}
use vcd_tools_rs.Server.Json.{Value, Values, Fields, string, array, object, nil, cons, empty, field}
use vcd_tools_rs.Server.Protocol.{
  ProtocolErrorCode, ProtocolError, bad_request, unsupported_version, unknown_method,
  invalid_window, invalid_occurrence, new_error, bad_request_error, invalid_occurrence_error,
  invalid_window_error, unknown_method_error, unsupported_version_error,
}
use vcd_tools_rs.Server.Protocol.Bounded.{IsBounded, new_error-IsBounded}
use vcd_tools_rs.Server.Answer.{Answer, Refuses, passes, refuses, Refuses->>=, Refuses-reject_if}
use vcd_tools_rs.Server.Request.Take.{
  validate_request_id, validate_signals, validate_window, validate_response_limit, validate_decimal,
  fitting, parse_decimal_u64, parse_decimal_usize, take_required, or_missing, take_string,
  expect_string, take_optional_string, optional_string, take_optional_decimal, optional_decimal,
  take_optional_decimal_usize, all_strings, expect_strings, take_required_strings, reject_unknown,
  expect_object,
}

-- The codes of requests that are wrong in themselves.
abbrev pub is_request_code : ProtocolErrorCode → Bool
is_request_code bad_request = true
is_request_code unsupported_version = true
is_request_code unknown_method = true
is_request_code invalid_window = true
is_request_code invalid_occurrence = true
is_request_code _ = false

pub record IsRequestError (e : ProtocolError) : Type 0 where
  pub code_lem : is_request_code e.code ≡ true
  pub retryable_lem : e.retryable ≡ false
  pub bounded : IsBounded e

pub request_error :
    (code : ProtocolErrorCode) (message : Text) (details : Value)
    → is_request_code code ≡ true
    → IsRequestError (new_error code message details false)
unfolding new_error
request_error code message details h = record {
  code_lem = h;
  retryable_lem = refl;
  bounded = unfold new_error in new_error-IsBounded code message details false;
}

pub bad_request_lem : (message : Text) → IsRequestError (bad_request_error message)
unfolding bad_request_error
bad_request_lem message = request_error bad_request message (object empty) refl

pub window_lem : IsRequestError invalid_window_error
unfolding invalid_window_error
window_lem = request_error invalid_window _ _ refl

pub occurrence_lem : IsRequestError invalid_occurrence_error
unfolding invalid_occurrence_error
occurrence_lem = request_error invalid_occurrence _ _ refl

pub method_lem : (name : Text) → IsRequestError (unknown_method_error name)
unfolding unknown_method_error
method_lem name = request_error unknown_method _ _ refl

pub version_lem : IsRequestError unsupported_version_error
unfolding unsupported_version_error
version_lem = request_error unsupported_version _ _ refl

abbrev pub Sound : {A : Type 0} → Answer A → Type 0
Sound = Refuses IsRequestError

pub bad_value : {A : Type 0} (message : Text) → Sound {A = A} (err (bad_request_error message))
bad_value message = refuses (bad_request_error message) (bad_request_lem message)

pub request_id_refusal : (id : Text) → Sound (validate_request_id id)
unfolding validate_request_id
request_id_refusal id =
    Refuses->>= (Refuses-reject_if _ _ (bad_request_lem _))
      λ _. Refuses-reject_if _ _ (bad_request_lem _)

pub signals_refusal : (signals : List Text) → Sound (validate_signals signals)
unfolding validate_signals
signals_refusal signals =
    Refuses->>= (Refuses-reject_if _ _ (bad_request_lem _))
      λ _. Refuses-reject_if _ _ (bad_request_lem _)

pub window_refusal : (start end : Option ℕ) → Sound (validate_window start end)
unfolding validate_window
window_refusal start end = Refuses-reject_if _ _ window_lem

pub response_limit_refusal : (limit : Option ℕ) → Sound (validate_response_limit limit)
unfolding validate_response_limit
response_limit_refusal limit = Refuses-reject_if _ _ (bad_request_lem _)

pub decimal_refusal : (value key : Text) → Sound (validate_decimal value key)
unfolding validate_decimal
decimal_refusal value key = Refuses-reject_if _ _ (bad_request_lem _)

pub fitting_refusal :
    (max : ℕ) (o : Option ℕ) (message : Text) → Sound (fitting max o (bad_request_error message))
unfolding fitting
fitting_refusal max none message = bad_value message
fitting_refusal max (some n) message =
    if_intro Sound (leb n max) (λ _. passes n) (λ _. bad_value message)

pub u64_refusal : (value key : Text) → Sound (parse_decimal_u64 value key)
unfolding parse_decimal_u64
u64_refusal value key = Refuses->>= (decimal_refusal value key) (λ _. fitting_refusal _ _ _)

pub usize_refusal : (value key : Text) → Sound (parse_decimal_usize value key)
unfolding parse_decimal_usize
usize_refusal value key = Refuses->>= (u64_refusal value key) (λ _. fitting_refusal _ _ _)

pub missing_refusal : (key : Text) (found : Option Value) → Sound (or_missing key found)
unfolding or_missing
missing_refusal key none = bad_value _
missing_refusal key (some v) = passes v

pub required_refusal : (fields : Fields) (key : Text) → Sound (take_required fields key)
unfolding take_required
required_refusal fields key = Refuses->>= (missing_refusal key _) (λ _. passes _)

pub string_refusal : (key : Text) (v : Value) → Sound (expect_string key v)
unfolding expect_string
string_refusal key (string t) = passes t
string_refusal key _ = bad_value _

pub take_string_refusal : (fields : Fields) (key : Text) → Sound (take_string fields key)
unfolding take_string
take_string_refusal fields key =
    Refuses->>= (required_refusal fields key) λ _. Refuses->>= (string_refusal _ _) (λ _. passes _)

pub optional_string_refusal :
    (key : Text) (found : Option Value) → Sound (optional_string key found)
unfolding optional_string
optional_string_refusal key none = passes none
optional_string_refusal key (some v) = Refuses->>= (string_refusal key v) (λ _. passes _)

pub take_optional_string_refusal :
    (fields : Fields) (key : Text) → Sound (take_optional_string fields key)
unfolding take_optional_string
take_optional_string_refusal fields key =
    Refuses->>= (optional_string_refusal key _) (λ _. passes _)

pub optional_decimal_refusal :
    (read : Text → Text → Answer ℕ) (key : Text) (found : Option Value)
    → ((value : Text) → Sound (read value key))
    → Sound (optional_decimal read key found)
unfolding optional_decimal
optional_decimal_refusal read key none h = passes none
optional_decimal_refusal read key (some (string t)) h = Refuses->>= (h t) (λ _. passes _)
optional_decimal_refusal read key (some _) h = bad_value _

pub optional_refusal : (fields : Fields) (key : Text) → Sound (take_optional_decimal fields key)
unfolding take_optional_decimal
optional_refusal fields key =
    Refuses->>= (optional_decimal_refusal _ key _ (λ value. u64_refusal value key)) (λ _. passes _)

pub optional_usize_refusal :
    (fields : Fields) (key : Text) → Sound (take_optional_decimal_usize fields key)
unfolding take_optional_decimal_usize
optional_usize_refusal fields key =
    Refuses->>= (optional_decimal_refusal _ key _ (λ value. usize_refusal value key))
      (λ _. passes _)

pub all_strings_refusal : (key : Text) (vs : Values) → Sound (all_strings key vs)
unfolding all_strings
all_strings_refusal key nil = passes []
all_strings_refusal key (cons (string t) vs) =
    Refuses->>= (all_strings_refusal key vs) (λ _. passes _)
all_strings_refusal key (cons _ vs) = bad_value _

pub strings_refusal : (key : Text) (v : Value) → Sound (expect_strings key v)
unfolding expect_strings
strings_refusal key (array vs) = all_strings_refusal key vs
strings_refusal key _ = bad_value _

pub take_strings_refusal : (fields : Fields) (key : Text) → Sound (take_required_strings fields key)
unfolding take_required_strings
take_strings_refusal fields key =
    Refuses->>= (required_refusal fields key) λ _. Refuses->>= (strings_refusal _ _) (λ _. passes _)

pub unknown_refusal : (fields : Fields) → Sound (reject_unknown fields)
unfolding reject_unknown
unknown_refusal empty = passes tt
unknown_refusal (field key v rest) = bad_value _

pub object_refusal : (what : Text) (v : Value) → Sound (expect_object what v)
unfolding expect_object
object_refusal what (object fields) = passes fields
object_refusal what _ = bad_value _
