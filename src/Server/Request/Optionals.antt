-- ===== src/Server/Request/Optionals.antt =====
-- src/server/protocol.rs: optional numbers are taken out of the map that they were put in.
use vcd_tools_rs.Prelude.{
  ℕ, ◌≤◌, ◌≡◌, refl, Bool, true, false, Option, none, some, List, [], ◌∷◌, Text, ok, u64_max, not,
  ◌&&◌, arith,
}
use vcd_tools_rs.Prelude.Keys.{text_eqb, text_eqb_iff}
use vcd_tools_rs.Value.Number.{show_decimal}
use vcd_tools_rs.Server.Json.{Value, Fields, string, array, field, find, without, strings}
use vcd_tools_rs.Server.Answer.{◌>>=◌, ok->>=}
use vcd_tools_rs.Server.Request.{optionals, optional_text}
use vcd_tools_rs.Server.Request.Valid.{AtMost}
use vcd_tools_rs.Server.Request.Decimals.{parse_u64-show_decimal, parse_usize-show_decimal}
use vcd_tools_rs.Server.Request.Take.{
  usize_max, take_required, or_missing, take_string, expect_string, take_optional_string,
  optional_string, take_optional_decimal, take_optional_decimal_usize, optional_decimal,
  parse_decimal_u64, parse_decimal_usize, take_required_strings, expect_strings, all_strings,
}

-- No entry has the key.
abbrev pub apart : Text → List (Text × Option ℕ) → Bool
apart key [] = true
apart key ((other, n) ∷ rest) = not (text_eqb other key) && apart key rest

abbrev pub Apart : Text → List (Text × Option ℕ) → Type 0
Apart key entries = apart key entries ≡ true

text_eqb_refl : (t : Text) → text_eqb t t ≡ true
text_eqb_refl t = (text_eqb_iff t t).1 refl

find-Apart :
    (key : Text) (entries : List (Text × Option ℕ))
    → Apart key entries
    → find key (optionals entries) ≡ none
unfolding optionals find
find-Apart key [] h = refl
find-Apart key ((other, none) ∷ rest) h = find-Apart key rest (ground arith)
find-Apart key ((other, some n) ∷ rest) h = ground (arith, find-Apart key rest (ground arith))

without-Apart :
    (key : Text) (entries : List (Text × Option ℕ))
    → Apart key entries
    → without key (optionals entries) ≡ optionals entries
unfolding optionals without
without-Apart key [] h = refl
without-Apart key ((other, none) ∷ rest) h = without-Apart key rest (ground arith)
without-Apart key ((other, some n) ∷ rest) h = ground (arith, without-Apart key rest (ground arith))

find_head : (key : Text) (v : Value) (rest : Fields) → find key (field key v rest) ≡ some v
unfolding find
find_head key v rest = ground (arith, text_eqb_refl key)

without_head : (key : Text) (v : Value) (rest : Fields) → without key (field key v rest) ≡ rest
unfolding without
without_head key v rest = ground (arith, text_eqb_refl key)

-- An optional number in range is read from its text.
read_number :
    (n : ℕ) (key : Text)
    → n ≤ u64_max
    → optional_decimal parse_decimal_u64 key (some (string (show_decimal n))) ≡ ok (some n)
unfolding optional_decimal
read_number n key h = rw (parse_u64-show_decimal n key h) (ok->>= n (λ m. ok (some m)))

read_number_usize :
    (n : ℕ) (key : Text)
    → n ≤ usize_max
    → optional_decimal parse_decimal_usize key (some (string (show_decimal n))) ≡ ok (some n)
unfolding optional_decimal
read_number_usize n key h = rw (parse_usize-show_decimal n key h) (ok->>= n (λ m. ok (some m)))

pub take_optionals :
    (key : Text) (n : Option ℕ) (rest : List (Text × Option ℕ))
    → AtMost u64_max n
    → Apart key rest
    → take_optional_decimal (optionals ((key, n) ∷ rest)) key ≡ ok (n, optionals rest)
unfolding take_optional_decimal optionals
take_optionals key none rest b h =
    rw (find-Apart key rest h, without-Apart key rest h) (unfold optional_decimal ◌>>=◌ in refl)
take_optionals key (some n) rest b h =
    rw
      (
        find_head key (string (show_decimal n)) (optionals rest),
        without_head key (string (show_decimal n)) (optionals rest),
        read_number n key b,
      )
      (unfold ◌>>=◌ in refl)

pub take_required_head :
    (key : Text) (v : Value) (rest : Fields) → take_required (field key v rest) key ≡ ok (v, rest)
unfolding take_required
take_required_head key v rest =
    rw (find_head key v rest, without_head key v rest) (unfold or_missing ◌>>=◌ in refl)

pub take_string_head :
    (key t : Text) (rest : Fields) → take_string (field key (string t) rest) key ≡ ok (t, rest)
unfolding take_string
take_string_head key t rest =
    rw (take_required_head key (string t) rest) (unfold expect_string ◌>>=◌ in refl)

all_strings-strings : (key : Text) (ts : List Text) → all_strings key (strings ts) ≡ ok ts
unfolding all_strings strings ◌>>=◌
all_strings-strings key [] = refl
all_strings-strings key (t ∷ ts) = rw (all_strings-strings key ts)

pub take_strings_head :
    (key : Text) (ts : List Text) (rest : Fields)
    → take_required_strings (field key (array (strings ts)) rest) key ≡ ok (ts, rest)
unfolding take_required_strings expect_strings
take_strings_head key ts rest = rw (take_required_head key (array (strings ts)) rest) (
    rw (ok->>= {A = Value × Fields} (array (strings ts), rest))
      (rw (all_strings-strings key ts) (unfold ◌>>=◌ in refl)))

pub take_optional_text :
    (key : Text) (t : Option Text) (rest : List (Text × Option ℕ))
    → Apart key rest
    → take_optional_string (optional_text key t (optionals rest)) key ≡ ok (t, optionals rest)
unfolding take_optional_string optional_text
take_optional_text key none rest h =
    rw (find-Apart key rest h, without-Apart key rest h) (unfold optional_string ◌>>=◌ in refl)
take_optional_text key (some t) rest h =
    rw (find_head key (string t) (optionals rest), without_head key (string t) (optionals rest))
      (unfold optional_string expect_string ◌>>=◌ in refl)

-- A number behind the field of another name.
pub take_usize_behind :
    (key other : Text) (v : Value) (n : ℕ) (rest : List (Text × Option ℕ))
    → n ≤ usize_max
    → text_eqb other key ≡ false
    → take_optional_decimal_usize (field other v (optionals ((key, some n) ∷ rest))) key
      ≡ ok (some n, field other v (optionals rest))
unfolding take_optional_decimal_usize optionals find without
take_usize_behind key other v n rest b h =
    rw (h, text_eqb_refl key, read_number_usize n key b) (unfold ◌>>=◌ in refl)
