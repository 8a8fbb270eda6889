-- ===== src/Value.antt =====
-- src/lib.rs: the values of signals, their text forms, and time windows.
pub mod Number
pub mod RoundTrip
use vcd_tools_rs.Prelude.{
  ℕ, ◌+◌, ◌-◌, ◌/◌, ◌<◌, ◌≡◌, Bool, true, false, not, ◌&&◌, ◌||◌, Option, none, some, List, [], ◌∷◌,
  ◌++◌, map, reverse, All, Text, codes, length, ltb, leb, nat_eqb, if◌then◌else◌,
}
use Number.{show_decimal, show_hex, pad_zeros, parse_decimal, parse_hex}

-- A value read from the file. An `f64` is the 64 bits that it is stored in.
pub data ChangeValue : Type 0 where
  integer : ℕ → ChangeValue
  float : ℕ → ChangeValue
  text : Text → ChangeValue

pub data TargetValue : Type 0 where
  integer : ℕ → TargetValue
  text : Text → TargetValue

-- `char::to_ascii_lowercase`.
unfoldable pub ascii_lower : ℕ → ℕ
ascii_lower c = if leb 65 c && leb c 90 then c + 32 else c

-- What the program takes from the standard library's tables: `str::to_lowercase` and the decimal
-- text of an `f64`. On ASCII text the first lowers each character.
pub record Formats : Type 0 where
  pub lowercase : Text → Text
  pub show_f64 : ℕ → Text
  pub lowercase_ascii : (t : Text) → All (λ c. c < 128) t → lowercase t ≡ map ascii_lower t

-- `char::is_whitespace`.
unfoldable pub is_whitespace : ℕ → Bool
is_whitespace c =
    (leb 9 c && leb c 13)
    || nat_eqb c 32
    || nat_eqb c 0x85
    || nat_eqb c 0xa0
    || nat_eqb c 0x1680
    || (leb 0x2000 c && leb c 0x200a)
    || nat_eqb c 0x2028
    || nat_eqb c 0x2029
    || nat_eqb c 0x202f
    || nat_eqb c 0x205f
    || nat_eqb c 0x3000

-- `str::trim_start` and `str::trim`.
unfoldable pub trim_start : Text → Text
trim_start [] = []
trim_start (c ∷ s) = let rest = trim_start s in if is_whitespace c then rest else c ∷ s

unfoldable pub trim : Text → Text
unfolding trim_start is_whitespace
trim s = reverse (trim_start (reverse (trim_start s)))

-- `str::strip_prefix("0x")`.
unfoldable pub strip_0x : Text → Option Text
strip_0x (c ∷ d ∷ s) = if nat_eqb c b'0' && nat_eqb d b'x' then some s else none
strip_0x _ = none

module _ (f : Formats) where
  -- `Display for ChangeValue`, which is also `format_change_value`.
  unfoldable pub to_string : ChangeValue → Text
  unfolding show_decimal
  to_string (ChangeValue.integer i) = show_decimal i
  to_string (float b) = f.show_f64 b
  to_string (ChangeValue.text t) = t

  -- `ChangeValue::normalize`, which is also `normalize_change_value`.
  unfoldable pub normalize : ChangeValue → Text
  unfolding show_decimal
  normalize (ChangeValue.integer i) = show_decimal i
  normalize (float b) = f.show_f64 b
  normalize (ChangeValue.text t) = f.lowercase t

  -- `TargetValue::normalize`.
  unfoldable pub normalize_target : TargetValue → Text
  unfolding show_decimal
  normalize_target (TargetValue.integer i) = show_decimal i
  normalize_target (TargetValue.text t) = f.lowercase t

  or_decimal : Text → TargetValue
  or_decimal s = elim (parse_decimal s) [
    | some v ↦ TargetValue.integer v
    | none ↦ TargetValue.text s
  ]

  or_hex : Text → Option Text → TargetValue
  unfolding or_decimal
  or_hex s none = or_decimal s
  or_hex s (some hex) = elim (parse_hex hex) [
    | some v ↦ TargetValue.integer v
    | none ↦ or_decimal s
  ]

  unfoldable pub parse_target_value : Text → TargetValue
  unfolding or_hex parse_hex parse_decimal trim strip_0x
  parse_target_value raw = let s = f.lowercase (trim raw) in or_hex s (strip_0x s)

unfoldable pub as_integer : ChangeValue → Option ℕ
as_integer (ChangeValue.integer i) = some i
as_integer (float b) = none
as_integer (ChangeValue.text t) = none

-- `format_value_for_signal`.
module _ (f : Formats) where
  unfoldable pub format_value_for_signal : ChangeValue → ℕ → Text
  unfolding to_string as_integer show_hex pad_zeros
  format_value_for_signal value signal_size =
      if ltb 1 signal_size
      then elim (as_integer value) [
        | some int_val ↦ codes "0x" ++ pad_zeros ((signal_size + 3) / 4) (show_hex int_val)
        | none ↦ to_string f value
      ]
      else to_string f value

pub record TimeWindow : Type 0 where
  pub start : Option ℕ
  pub end : Option ℕ

abbrev before_start : TimeWindow → ℕ → Bool
before_start w time = elim w.start [ none ↦ false | some start ↦ ltb time start ]

abbrev pub after_end : TimeWindow → ℕ → Bool
after_end w time = elim w.end [ none ↦ false | some end ↦ ltb end time ]

-- `TimeWindow::contains`.
unfoldable pub contains : TimeWindow → ℕ → Bool
contains w time = if before_start w time then false else if after_end w time then false else true
