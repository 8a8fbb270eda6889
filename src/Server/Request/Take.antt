-- ===== src/Server/Request/Take.antt =====
-- src/server/protocol.rs: the checks of a request's values, and the fields taken out of a JSON map.
-- A function that takes a field out returns it with the rest of the map.
use vcd_tools_rs.Prelude.{
  ℕ, ◌^◌, ◌-◌, Bool, true, false, Option, none, some, List, [], ◌∷◌, ◌++◌, Text, codes, ltb, leb,
  nat_eqb, byte_len, ◌&&◌, ◌||◌, not, if◌then◌else◌, ok, err, u64_max,
}
use vcd_tools_rs.Value.Number.{parse_decimal}
use vcd_tools_rs.Server.Json.{
  Value, Values, Fields, string, array, object, nil, cons, empty, field, find, without,
}
use vcd_tools_rs.Server.Protocol.{
  ProtocolError, max_request_id_bytes, terminal_frame_reserve_bytes, bad_request_error,
  invalid_window_error,
}
use vcd_tools_rs.Server.Answer.{Answer, ◌>>=◌, ◌>>◌, reject_if}

abbrev pub usize_max : ℕ
usize_max = 2 ^ 64 - 1

abbrev pub is_empty : Text → Bool
is_empty [] = true
is_empty (c ∷ t) = false

unfoldable pub validate_request_id : Text → Answer (Unit {0})
validate_request_id id = do
  reject_if (is_empty id) (bad_request_error (codes "request ID must not be empty"))
  reject_if (ltb max_request_id_bytes (byte_len id))
      (bad_request_error (codes "request ID exceeds 128 bytes"))

unfoldable pub any_empty : List Text → Bool
any_empty [] = false
any_empty (s ∷ rest) = is_empty s || any_empty rest

abbrev no_signals : List Text → Bool
no_signals [] = true
no_signals (s ∷ rest) = false

unfoldable pub validate_signals : List Text → Answer (Unit {0})
validate_signals signals = do
  reject_if (no_signals signals) (bad_request_error (codes "signals must not be empty"))
  reject_if (any_empty signals) (bad_request_error (codes "signal names must not be empty"))

abbrev pub is_reversed : Option ℕ → Option ℕ → Bool
is_reversed none end = false
is_reversed (some start) none = false
is_reversed (some start) (some end) = ltb end start

unfoldable pub validate_window : Option ℕ → Option ℕ → Answer (Unit {0})
validate_window start end = reject_if (is_reversed start end) invalid_window_error

abbrev pub below_reserve : Option ℕ → Bool
below_reserve none = false
below_reserve (some limit) = ltb limit terminal_frame_reserve_bytes

unfoldable pub validate_response_limit : Option ℕ → Answer (Unit {0})
validate_response_limit limit =
    reject_if (below_reserve limit)
      (bad_request_error (codes "max_response_bytes must reserve at least 4096 terminal bytes"))

unfoldable pub all_digits : Text → Bool
all_digits [] = true
all_digits (c ∷ t) = (leb b'0' c && leb c b'9') && all_digits t

unfoldable pub starts_with_zero : Text → Bool
starts_with_zero [] = false
starts_with_zero (c ∷ t) = nat_eqb c b'0'

unfoldable pub validate_decimal : Text → Text → Answer (Unit {0})
validate_decimal value key =
    reject_if
      (is_empty value
        || (not (all_digits value) || (ltb 1 (byte_len value) && starts_with_zero value)))
      (bad_request_error (key ++ codes " must be a canonical unsigned decimal string"))

-- A number that fits, or an error.
unfoldable pub fitting : ℕ → Option ℕ → ProtocolError → Answer ℕ
fitting max none e = err e
fitting max (some n) e = if leb n max then ok n else err e

unfoldable pub parse_decimal_u64 : Text → Text → Answer ℕ
parse_decimal_u64 value key = do
  validate_decimal value key
  fitting u64_max (parse_decimal value) (bad_request_error (key ++ codes " overflows u64"))

unfoldable pub parse_decimal_usize : Text → Text → Answer ℕ
parse_decimal_usize value key = do
  n ← parse_decimal_u64 value key
  fitting usize_max (some n) (bad_request_error (key ++ codes " overflows usize"))

unfoldable pub or_missing : Text → Option Value → Answer Value
or_missing key none = err (bad_request_error (codes "missing required field " ++ key))
or_missing key (some v) = ok v

unfoldable pub take_required : Fields → Text → Answer (Value × Fields)
take_required fields key = do v ← or_missing key (find key fields); ok (v, without key fields)

unfoldable pub expect_string : Text → Value → Answer Text
expect_string key (string t) = ok t
expect_string key _ = err (bad_request_error (key ++ codes " must be a string"))

unfoldable pub take_string : Fields → Text → Answer (Text × Fields)
take_string fields key = do
  (v, rest) ← take_required fields key
  t ← expect_string key v
  ok (t, rest)

unfoldable pub optional_string : Text → Option Value → Answer (Option Text)
optional_string key none = ok none
optional_string key (some v) = do t ← expect_string key v; ok (some t)

unfoldable pub take_optional_string : Fields → Text → Answer (Option Text × Fields)
take_optional_string fields key = do
  t ← optional_string key (find key fields)
  ok (t, without key fields)

-- An optional decimal text, by the function that reads the text.
unfoldable pub optional_decimal : (Text → Text → Answer ℕ) → Text → Option Value → Answer (Option ℕ)
optional_decimal read key none = ok none
optional_decimal read key (some (string t)) = do n ← read t key; ok (some n)
optional_decimal read key (some _) =
    err (bad_request_error (key ++ codes " must be a decimal string"))

unfoldable pub take_optional_decimal : Fields → Text → Answer (Option ℕ × Fields)
take_optional_decimal fields key = do
  n ← optional_decimal parse_decimal_u64 key (find key fields)
  ok (n, without key fields)

unfoldable pub take_optional_decimal_usize : Fields → Text → Answer (Option ℕ × Fields)
take_optional_decimal_usize fields key = do
  n ← optional_decimal parse_decimal_usize key (find key fields)
  ok (n, without key fields)

unfoldable pub all_strings : Text → Values → Answer (List Text)
all_strings key nil = ok []
all_strings key (cons (string t) vs) = do rest ← all_strings key vs; ok (t ∷ rest)
all_strings key (cons _ vs) = err (bad_request_error (key ++ codes " entries must be strings"))

unfoldable pub expect_strings : Text → Value → Answer (List Text)
expect_strings key (array vs) = all_strings key vs
expect_strings key _ = err (bad_request_error (key ++ codes " must be an array"))

unfoldable pub take_required_strings : Fields → Text → Answer (List Text × Fields)
take_required_strings fields key = do
  (v, rest) ← take_required fields key
  ts ← expect_strings key v
  ok (ts, rest)

unfoldable pub reject_unknown : Fields → Answer (Unit {0})
reject_unknown empty = ok tt
reject_unknown (field key v rest) =
    err (bad_request_error (codes "unknown method parameter " ++ key))

unfoldable pub expect_object : Text → Value → Answer Fields
expect_object what (object fields) = ok fields
expect_object what _ = err (bad_request_error (what ++ codes " must be an object"))
