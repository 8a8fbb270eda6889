-- ===== src/Server/Json.antt =====
-- src/server/protocol.rs: JSON values, as `serde_json::Value` has them.
use vcd_tools_rs.Prelude.{ℕ, Bool, Option, none, some, List, [], ◌∷◌, Text, if◌then◌else◌}
use vcd_tools_rs.Prelude.Keys.{text_eqb}

-- A number is a natural, or another one with its text; `as_u64` answers for naturals only.
pub data Number : Type 0 where
  natural : ℕ → Number
  other_number : Text → Number

-- The fields of an object are in the order of the map.
mutual
  pub data Value : Type 0 where
    null : Value
    boolean : Bool → Value
    number : Number → Value
    string : Text → Value
    array : Values → Value
    object : Fields → Value

  pub data Values : Type 0 where
    nil : Values
    cons : Value → Values → Values

  pub data Fields : Type 0 where
    empty : Fields
    field : Text → Value → Fields → Fields

-- `map.get(name)`, and the map behind `map.remove(name)`; the names of a map are distinct.
unfoldable pub find : Text → Fields → Option Value
find name empty = none
find name (field other v rest) = if text_eqb other name then some v else find name rest

unfoldable pub without : Text → Fields → Fields
without name empty = empty
without name (field other v rest) =
    let left = without name rest in if text_eqb other name then rest else field other v left

unfoldable pub strings : List Text → Values
strings [] = nil
strings (t ∷ ts) = cons (string t) (strings ts)

-- An object of texts, as `json!` builds it.
abbrev pub text_fields : List (Text × Text) → Fields
text_fields [] = empty
text_fields ((name, t) ∷ rest) = field name (string t) (text_fields rest)
