-- ===== src/Value/Number.antt =====
-- The integer texts of the standard library that src/lib.rs uses: `u128::to_string`, the format
-- `{:0width$x}`, `str::parse::<u128>` and `u128::from_str_radix(_, 16)`.
use vcd_tools_rs.Prelude.{
  ℕ, zero, suc, ◌+◌, ◌-◌, ◌*◌, ◌/◌, ◌%◌, ◌^◌, ◌&&◌, Option, none, some, [], ◌∷◌, Text, length, ltb,
  leb, nat_eqb, if◌then◌else◌,
}

abbrev pub u128_max : ℕ
u128_max = 2 ^ 128 - 1

-- The digits of `n` before `acc`; `n` rounds are enough, since each round divides `n` by the base.
unfoldable pub decimal_onto : ℕ → ℕ → Text → Text
decimal_onto zero n acc = (48 + n % 10) ∷ acc
decimal_onto (suc fuel) n acc =
    let rest = decimal_onto fuel (n / 10) ((48 + n % 10) ∷ acc) in
    if ltb n 10 then (48 + n) ∷ acc else rest

unfoldable pub show_decimal : ℕ → Text
unfolding decimal_onto
show_decimal n = decimal_onto n n []

unfoldable pub hex_digit : ℕ → ℕ
hex_digit d = if ltb d 10 then 48 + d else 87 + d

unfoldable pub hex_onto : ℕ → ℕ → Text → Text
unfolding hex_digit
hex_onto zero n acc = hex_digit (n % 16) ∷ acc
hex_onto (suc fuel) n acc =
    let rest = hex_onto fuel (n / 16) (hex_digit (n % 16) ∷ acc) in
    if ltb n 16 then hex_digit n ∷ acc else rest

unfoldable pub show_hex : ℕ → Text
unfolding hex_onto
show_hex n = hex_onto n n []

unfoldable pub zeros : ℕ → Text → Text
zeros zero s = s
zeros (suc n) s = 48 ∷ zeros n s

unfoldable pub pad_zeros : ℕ → Text → Text
unfolding zeros
pad_zeros width s = zeros (width - length s) s

-- `char::to_digit(10)` and `char::to_digit(16)`.
unfoldable pub digit10 : ℕ → Option ℕ
digit10 c = if leb 48 c && leb c 57 then some (c - 48) else none

unfoldable pub digit16 : ℕ → Option ℕ
digit16 c =
    if leb 48 c && leb c 57
    then some (c - 48)
    else if leb 97 c && leb c 102
    then some (c - 87)
    else if leb 65 c && leb c 70
    then some (c - 55)
    else none

-- The checked product and sum of one digit: `none` past the largest u128.
abbrev shift_in : ℕ → ℕ → Option ℕ → Option ℕ
shift_in base acc none = none
shift_in base acc (some d) = if leb (acc * base + d) u128_max then some (acc * base + d) else none

unfoldable pub read_digits : (ℕ → Option ℕ) → ℕ → Option ℕ → Text → Option ℕ
read_digits digit base none s = none
read_digits digit base (some acc) [] = some acc
read_digits digit base (some acc) (c ∷ s) = read_digits digit base (shift_in base acc (digit c)) s

-- A sign `+` may stand before at least one digit.
unfoldable pub parse_radix : (ℕ → Option ℕ) → ℕ → Text → Option ℕ
unfolding read_digits
parse_radix digit base [] = none
parse_radix digit base (c ∷ []) = read_digits digit base (some 0) (c ∷ [])
parse_radix digit base (c ∷ d ∷ s) =
    if nat_eqb c b'+'
    then read_digits digit base (some 0) (d ∷ s)
    else read_digits digit base (some 0) (c ∷ d ∷ s)

unfoldable pub parse_decimal : Text → Option ℕ
unfolding parse_radix digit10
parse_decimal = parse_radix digit10 10

unfoldable pub parse_hex : Text → Option ℕ
unfolding parse_radix digit16
parse_hex = parse_radix digit16 16
