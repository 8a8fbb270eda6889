-- ===== src/Value/RoundTrip.antt =====
-- src/lib.rs: a target value parsed from a printed integer is that integer.
use mathlib.Core.List.{reverse-cons, reverse-reverse}
use vcd_tools_rs.Prelude.{
  if_intro, ltb→lt, ℕ, zero, suc, ◌+◌, ◌-◌, ◌*◌, ◌/◌, ◌%◌, ◌≤◌, ◌<◌, ◌≡◌, refl, Option, none, some,
  [], All, All-append, reverse, ◌∷◌, ◌++◌, map, arith, Text, length, ltb, ◌∙◌, ap, ◌⊎◌, codes,
}
use vcd_tools_rs.Value.Number.{
  u128_max, decimal_onto, show_decimal, digit10, read_digits, parse_radix, parse_decimal, parse_hex,
  hex_onto, hex_digit, digit16, show_hex, zeros,
}
use vcd_tools_rs.Value.{
  or_hex, or_decimal, ChangeValue, TargetValue, Formats, ascii_lower, is_whitespace, trim_start,
  trim, strip_0x, parse_target_value, format_value_for_signal,
}

digit10_decimal : (d : ℕ) → d < 10 → digit10 (48 + d) ≡ some d
unfolding digit10
digit10_decimal d h = ground arith

read_one :
    (acc d : ℕ) (s : Text)
    → d < 10
    → acc * 10 + d ≤ u128_max
    → read_digits digit10 10 (some acc) ((48 + d) ∷ s)
      ≡ read_digits digit10 10 (some (acc * 10 + d)) s
unfolding read_digits
read_one acc d s h m = ground (arith, digit10_decimal d)

read-decimal_onto :
    (fuel n : ℕ) (acc : Text)
    → n ≤ fuel
    → n ≤ u128_max
    → read_digits digit10 10 (some 0) (decimal_onto fuel n acc)
      ≡ read_digits digit10 10 (some n) acc
unfolding decimal_onto
read-decimal_onto zero n acc h m = ground (arith, read_one 0 (n % 10) acc)
read-decimal_onto (suc fuel) n acc h m = ground (
  arith,
  read-decimal_onto fuel (n / 10) ((48 + n % 10) ∷ acc),
  read_one (n / 10) (n % 10) acc,
  read_one 0 n acc,
)

digit16-hex_digit : (d : ℕ) → d < 16 → digit16 (hex_digit d) ≡ some d
unfolding digit16 hex_digit
digit16-hex_digit d h = ground arith

read_one_hex :
    (acc d : ℕ) (s : Text)
    → d < 16
    → acc * 16 + d ≤ u128_max
    → read_digits digit16 16 (some acc) (hex_digit d ∷ s)
      ≡ read_digits digit16 16 (some (acc * 16 + d)) s
unfolding read_digits
read_one_hex acc d s h m = ground (arith, digit16-hex_digit d)

read-hex_onto :
    (fuel n : ℕ) (acc : Text)
    → n ≤ fuel
    → n ≤ u128_max
    → read_digits digit16 16 (some 0) (hex_onto fuel n acc) ≡ read_digits digit16 16 (some n) acc
unfolding hex_onto
read-hex_onto zero n acc h m = ground (arith, read_one_hex 0 (n % 16) acc)
read-hex_onto (suc fuel) n acc h m = ground (
  arith,
  read-hex_onto fuel (n / 16) (hex_digit (n % 16) ∷ acc),
  read_one_hex (n / 16) (n % 16) acc,
  read_one_hex 0 n acc,
)

read-zeros :
    (k : ℕ) (s : Text)
    → read_digits digit16 16 (some 0) (zeros k s) ≡ read_digits digit16 16 (some 0) s
unfolding zeros hex_digit
read-zeros zero s = refl
read-zeros (suc k) s = read_one_hex 0 0 (zeros k s) (omega arith) (omega arith) ∙ read-zeros k s

-- A decimal digit or a lower-case letter.
abbrev IsPlain : ℕ → Type 0
IsPlain c = (48 ≤ c) × (c ≤ 122) × ((c ≤ 57) ⊎ (97 ≤ c))

abbrev pub IsDigit : ℕ → Type 0
IsDigit c = (48 ≤ c) × (c ≤ 57)

pub decimal_onto-All :
    (fuel n : ℕ) (acc : Text) → All IsDigit acc → All IsDigit (decimal_onto fuel n acc)
unfolding decimal_onto
decimal_onto-All zero n acc h = (omega arith, h)
decimal_onto-All (suc fuel) n acc h =
    ground (arith, decimal_onto-All fuel (n / 10) ((48 + n % 10) ∷ acc) (omega arith, h))

hex_digit-IsPlain : (d : ℕ) → d < 16 → IsPlain (hex_digit d)
unfolding hex_digit
hex_digit-IsPlain d h = ground arith

hex_onto-All : (fuel n : ℕ) (acc : Text) → All IsPlain acc → All IsPlain (hex_onto fuel n acc)
unfolding hex_onto
hex_onto-All zero n acc h = (hex_digit-IsPlain (n % 16) (omega arith), h)
hex_onto-All (suc fuel) n acc h =
    if_intro (All IsPlain) (ltb n 16) (λ e. (hex_digit-IsPlain n (ltb→lt n 16 e), h))
      (λ _.
        hex_onto-All fuel (n / 16) (hex_digit (n % 16) ∷ acc)
          (hex_digit-IsPlain (n % 16) (omega arith), h))

Digits-IsPlain : (s : Text) → All IsDigit s → All IsPlain s
Digits-IsPlain [] h = tt
Digits-IsPlain (c ∷ s) h = (omega arith, Digits-IsPlain s h.1)

zeros-All : (k : ℕ) (s : Text) → All IsPlain s → All IsPlain (zeros k s)
unfolding zeros
zeros-All zero s h = h
zeros-All (suc k) s h = (omega arith, zeros-All k s h)

reverse-All : (P : ℕ → Type 0) (s : Text) → All P s → All P (reverse s)
reverse-All P [] h = tt
reverse-All P (c ∷ s) h =
    rw reverse-cons (All-append P (reverse s) (c ∷ []) (reverse-All P s h.1) (h.0, tt))

pub decimal_onto-pos : (fuel n : ℕ) (acc : Text) → 0 < length (decimal_onto fuel n acc)
unfolding decimal_onto
decimal_onto-pos zero n acc = omega arith
decimal_onto-pos (suc fuel) n acc =
    if_intro (λ (t : Text). 0 < length t) (ltb n 10) (λ _. omega arith)
      (λ _. decimal_onto-pos fuel (n / 10) ((48 + n % 10) ∷ acc))

hex_onto-pos : (fuel n : ℕ) (acc : Text) → 0 < length (hex_onto fuel n acc)
unfolding hex_onto
hex_onto-pos zero n acc = omega arith
hex_onto-pos (suc fuel) n acc =
    if_intro (λ (t : Text). 0 < length t) (ltb n 16) (λ _. omega arith)
      (λ _. hex_onto-pos fuel (n / 16) (hex_digit (n % 16) ∷ acc))

length-zeros : (k : ℕ) (s : Text) → length s ≤ length (zeros k s)
unfolding zeros
length-zeros zero s = omega arith
length-zeros (suc k) s = omega (arith, length-zeros k s)

parse_radix_plain :
    (digit : ℕ → Option ℕ) (base : ℕ) (s : Text)
    → All IsPlain s
    → 0 < length s
    → parse_radix digit base s ≡ read_digits digit base (some 0) s
unfolding parse_radix
parse_radix_plain digit base [] h p = absurd (omega arith)
parse_radix_plain digit base (c ∷ []) h p = refl
parse_radix_plain digit base (c ∷ d ∷ s) h p = ground arith

trim_start_plain : (s : Text) → All IsPlain s → trim_start s ≡ s
unfolding trim_start is_whitespace
trim_start_plain [] h = refl
trim_start_plain (c ∷ s) h = ground arith

trim_plain : (s : Text) → All IsPlain s → trim s ≡ s
unfolding trim
trim_plain s h =
    rw (trim_start_plain s h)
      (rw (trim_start_plain (reverse s) (reverse-All IsPlain s h)) (reverse-reverse s))

All-ascii : (s : Text) → All IsPlain s → All (λ c. c < 128) s
All-ascii [] h = tt
All-ascii (c ∷ s) h = (omega arith, All-ascii s h.1)

map-ascii_lower : (s : Text) → All IsPlain s → map ascii_lower s ≡ s
unfolding ascii_lower
map-ascii_lower [] h = refl
map-ascii_lower (c ∷ s) h = ground (arith, map-ascii_lower s h.1)

strip_0x_digits : (s : Text) → All IsDigit s → strip_0x s ≡ none
unfolding strip_0x
strip_0x_digits [] h = refl
strip_0x_digits (c ∷ []) h = refl
strip_0x_digits (c ∷ d ∷ s) h = ground arith

pub parse-show_decimal : (n : ℕ) → n ≤ u128_max → parse_decimal (show_decimal n) ≡ some n
unfolding parse_decimal show_decimal
parse-show_decimal n h =
    parse_radix_plain digit10 10 (decimal_onto n n [])
      (Digits-IsPlain (decimal_onto n n []) (decimal_onto-All n n [] tt)) (decimal_onto-pos n n [])
    ∙ read-decimal_onto n n [] (omega arith) h

padded : ℕ → ℕ → Text
padded k n = zeros k (hex_onto n n [])

padded-IsPlain : (k n : ℕ) → All IsPlain (padded k n)
unfolding padded
padded-IsPlain k n = zeros-All k (hex_onto n n []) (hex_onto-All n n [] tt)

parse-padded : (k n : ℕ) → n ≤ u128_max → parse_hex (padded k n) ≡ some n
unfolding parse_hex padded
parse-padded k n h =
    parse_radix_plain digit16 16 (padded k n) (padded-IsPlain k n)
      (omega (arith, length-zeros k (hex_onto n n []), hex_onto-pos n n []))
    ∙ read-zeros k (hex_onto n n [])
    ∙ read-hex_onto n n [] (omega arith) h

module _ (f : Formats) where
  lowercase_plain : (s : Text) → All IsPlain s → f.lowercase s ≡ s
  lowercase_plain s h = f.lowercase_ascii s (All-ascii s h) ∙ map-ascii_lower s h

  lowered_plain : (s : Text) → All IsPlain s → f.lowercase (trim s) ≡ s
  lowered_plain s h = ap f.lowercase (trim_plain s h) ∙ lowercase_plain s h

  or_decimal_lem :
      (s : Text) (n : ℕ) → parse_decimal s ≡ some n → or_decimal f s ≡ TargetValue.integer n
  unfolding or_decimal
  or_decimal_lem s n e = rw (e, or_decimal)

  or_hex_lem :
      (s t : Text) (n : ℕ) → parse_hex t ≡ some n → or_hex f s (some t) ≡ TargetValue.integer n
  unfolding or_hex
  or_hex_lem s t n e = rw (e, or_hex)

  parse_target_step :
      (raw s : Text)
      → f.lowercase (trim raw) ≡ s
      → parse_target_value f raw ≡ or_hex f s (strip_0x s)
  unfolding parse_target_value
  parse_target_step raw s e = ap (λ t. or_hex f t (strip_0x t)) e

  parse_target-decimal :
      (n : ℕ) → n ≤ u128_max → parse_target_value f (show_decimal n) ≡ TargetValue.integer n
  unfolding show_decimal or_hex
  parse_target-decimal n h =
      let digits = decimal_onto-All n n [] tt in
      parse_target_step (show_decimal n) (show_decimal n)
        (lowered_plain (show_decimal n) (Digits-IsPlain (show_decimal n) digits))
      ∙ ap (or_hex f (show_decimal n)) (strip_0x_digits (show_decimal n) digits)
      ∙ or_decimal_lem (show_decimal n) n (parse-show_decimal n h)

  parse_target-hex :
      (k n : ℕ)
      → n ≤ u128_max
      → parse_target_value f (codes "0x" ++ padded k n) ≡ TargetValue.integer n
  unfolding strip_0x
  parse_target-hex k n h =
      let s : Text = codes "0x" ++ padded k n in
      parse_target_step s s (lowered_plain s (omega arith, (omega arith, padded-IsPlain k n)))
      ∙ or_hex_lem s (padded k n) n (parse-padded k n h)

  -- The text that a signal's integer value is shown as, whatever the signal's size, is parsed back
  -- as a target value to that integer.
  pub parse_target-format_value :
      (n signal_size : ℕ)
      → n ≤ u128_max
      → parse_target_value f (format_value_for_signal f (ChangeValue.integer n) signal_size)
        ≡ TargetValue.integer n
  unfolding format_value_for_signal padded show_hex
  parse_target-format_value n signal_size h =
      if_intro (λ (t : Text). parse_target_value f t ≡ TargetValue.integer n) (ltb 1 signal_size)
        (λ _. parse_target-hex ((signal_size + 3) / 4 - length (show_hex n)) n h)
        (λ _. parse_target-decimal n h)
