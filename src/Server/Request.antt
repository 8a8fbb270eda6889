-- ===== src/Server/Request.antt =====
-- src/server/protocol.rs: requests, and the JSON value that a request is sent as.
pub mod Take
pub mod Decode
pub mod Decimals
pub mod Optionals
pub mod Valid
pub mod Sound
pub mod Refused
pub mod Refusals
pub mod RoundTrip
use vcd_tools_rs.Prelude.{ℕ, Option, none, some, List, [], ◌∷◌, Text, codes}
use vcd_tools_rs.Value.Number.{show_decimal}
use vcd_tools_rs.Server.Json.{
  Value, Fields, number, natural, string, array, object, empty, field, strings, text_fields,
}
use vcd_tools_rs.Server.Protocol.{protocol_version}

pub record ListParams : Type 0 where
  pub filter : Option Text
  pub max_rows : Option ℕ
  pub max_response_bytes : Option ℕ
  pub timeout_ms : Option ℕ

pub record MetadataParams : Type 0 where
  pub timeout_ms : Option ℕ
  pub max_commands : Option ℕ

pub record ExtractParams : Type 0 where
  pub signals : List Text
  pub start : Option ℕ
  pub end : Option ℕ
  pub max_rows : Option ℕ
  pub max_response_bytes : Option ℕ
  pub max_commands : Option ℕ
  pub timeout_ms : Option ℕ

pub record FindParams : Type 0 where
  pub signal : Text
  pub value : Text
  pub occurrence : ℕ
  pub start : Option ℕ
  pub end : Option ℕ
  pub max_commands : Option ℕ
  pub max_response_bytes : Option ℕ
  pub timeout_ms : Option ℕ

pub record TogglesParams : Type 0 where
  pub signals : List Text
  pub start : Option ℕ
  pub end : Option ℕ
  pub max_commands : Option ℕ
  pub max_response_bytes : Option ℕ
  pub timeout_ms : Option ℕ

pub record CancelParams : Type 0 where
  pub request_id : Text

pub data RequestMethod : Type 0 where
  ping describe : RequestMethod
  list : ListParams → RequestMethod
  metadata : MetadataParams → RequestMethod
  extract : ExtractParams → RequestMethod
  find : FindParams → RequestMethod
  toggles : TogglesParams → RequestMethod
  cancel : CancelParams → RequestMethod

pub record Request : Type 0 where
  pub id : Text
  pub method : RequestMethod

-- `RequestMethod::name`.
unfoldable pub name : RequestMethod → Text
name ping = codes "ping"
name describe = codes "describe"
name (list p) = codes "list"
name (metadata p) = codes "metadata"
name (extract p) = codes "extract"
name (find p) = codes "find"
name (toggles p) = codes "toggles"
name (cancel p) = codes "cancel"

-- Optional numbers, as texts; one that is absent is left out.
unfoldable pub optionals : List (Text × Option ℕ) → Fields
optionals [] = empty
optionals ((key, none) ∷ rest) = optionals rest
optionals ((key, some n) ∷ rest) = field key (string (show_decimal n)) (optionals rest)

unfoldable pub optional_text : Text → Option Text → Fields → Fields
optional_text key none rest = rest
optional_text key (some t) rest = field key (string t) rest

unfoldable pub list_fields : ListParams → Fields
list_fields p = optional_text (codes "filter") p.filter (
    optionals (
      (codes "max_rows", p.max_rows)
      ∷ (codes "max_response_bytes", p.max_response_bytes)
      ∷ (codes "timeout_ms", p.timeout_ms)
      ∷ []))

unfoldable pub metadata_fields : MetadataParams → Fields
metadata_fields p =
    optionals ((codes "timeout_ms", p.timeout_ms) ∷ (codes "max_commands", p.max_commands) ∷ [])

unfoldable pub extract_fields : ExtractParams → Fields
extract_fields p = field (codes "signals") (array (strings p.signals)) (
    optionals (
      (codes "start", p.start)
      ∷ (codes "end", p.end)
      ∷ (codes "max_rows", p.max_rows)
      ∷ (codes "max_response_bytes", p.max_response_bytes)
      ∷ (codes "max_commands", p.max_commands)
      ∷ (codes "timeout_ms", p.timeout_ms)
      ∷ []))

unfoldable pub find_fields : FindParams → Fields
find_fields p = field (codes "signal") (string p.signal) (
    field (codes "value") (string p.value) (
      optionals (
        (codes "occurrence", some p.occurrence)
        ∷ (codes "start", p.start)
        ∷ (codes "end", p.end)
        ∷ (codes "max_commands", p.max_commands)
        ∷ (codes "max_response_bytes", p.max_response_bytes)
        ∷ (codes "timeout_ms", p.timeout_ms)
        ∷ [])))

unfoldable pub toggles_fields : TogglesParams → Fields
toggles_fields p = field (codes "signals") (array (strings p.signals)) (
    optionals (
      (codes "start", p.start)
      ∷ (codes "end", p.end)
      ∷ (codes "max_commands", p.max_commands)
      ∷ (codes "max_response_bytes", p.max_response_bytes)
      ∷ (codes "timeout_ms", p.timeout_ms)
      ∷ []))

unfoldable pub params_fields : RequestMethod → Fields
params_fields ping = empty
params_fields describe = empty
params_fields (list p) = list_fields p
params_fields (metadata p) = metadata_fields p
params_fields (extract p) = extract_fields p
params_fields (find p) = find_fields p
params_fields (toggles p) = toggles_fields p
params_fields (cancel p) = text_fields ((codes "request_id", p.request_id) ∷ [])

-- `Serialize for Request`. The fields stand in the order of the code, where serde_json's map may
-- sort them; the decoder finds them by their names.
unfoldable pub request_value : Request → Value
request_value r = object (
    field (codes "v") (number (natural protocol_version)) (
      field (codes "id") (string r.id) (
        field (codes "method") (string (name r.method))
          (field (codes "params") (object (params_fields r.method)) empty))))
