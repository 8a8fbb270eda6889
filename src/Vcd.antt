-- ===== src/Vcd.antt =====
-- src/lib.rs: the commands of a VCD body, as the third-party `vcd` parser yields them, and their
-- conversion to values.
pub mod Vectors
use vcd_tools_rs.Prelude.{
  ℕ, ◌+◌, ◌*◌, ◌%◌, ◌^◌, Bool, true, false, ◌&&◌, Option, none, some, List, [], ◌∷◌, Text, length,
  all, leb, if◌then◌else◌, Result,
}
use vcd_tools_rs.Errors.{IoError}
use vcd_tools_rs.Value.{ChangeValue}

-- `vcd::Value`: the program names `V0` and `V1` and treats all others alike.
pub data BitValue : Type 0 where
  v0 v1 : BitValue
  unknown : ℕ → BitValue

abbrev pub Vector : Type 0
Vector = List BitValue

-- `vcd::Command`, with the variants that the program does not name as one. An `IdCode` is a number
-- that is only compared.
pub data Command : Type 0 where
  timestamp : ℕ → Command
  change_scalar : ℕ → BitValue → Command
  change_vector : ℕ → Vector → Command
  change_real : ℕ → ℕ → Command
  change_string : ℕ → Text → Command
  other : Command

-- What a parser yields: `io::Result<Command>`.
abbrev pub Item : Type 0
Item = Result IoError Command

-- `Display` of the `vcd` crate for a value and a vector.
pub record VcdDisplay : Type 0 where
  pub show_value : BitValue → Text
  pub show_vector : Vector → Text

abbrev is_bit : BitValue → Bool
is_bit v0 = true
is_bit v1 = true
is_bit (unknown n) = false

abbrev pub bit : BitValue → ℕ
bit v0 = 0
bit v1 = 1
bit (unknown n) = 0

-- `acc << 1 | bit` on `u128`.
unfoldable pub shift_bits : ℕ → Vector → ℕ
shift_bits acc [] = acc
shift_bits acc (v ∷ vs) = shift_bits (acc * 2 % 2 ^ 128 + bit v) vs

-- The test under which a vector becomes an integer.
unfoldable pub is_integer : Vector → Bool
is_integer vec = all is_bit vec && leb (length vec) 128

module _ (d : VcdDisplay) where
  unfoldable pub vector_to_change_value : Vector → ChangeValue
  unfolding shift_bits is_integer
  vector_to_change_value vec =
      if is_integer vec
      then ChangeValue.integer (shift_bits 0 vec)
      else ChangeValue.text (d.show_vector vec)

  unfoldable pub command_to_change_value : Command → Option (ℕ × ChangeValue)
  unfolding vector_to_change_value
  command_to_change_value (change_scalar id value) =
      some (id, ChangeValue.text (d.show_value value))
  command_to_change_value (change_vector id vec) = some (id, vector_to_change_value vec)
  command_to_change_value (change_real id value) = some (id, ChangeValue.float value)
  command_to_change_value (change_string id value) = some (id, ChangeValue.text value)
  command_to_change_value (timestamp t) = none
  command_to_change_value other = none
