-- ===== src/Server/Request/Decimals.antt =====
-- src/server/protocol.rs: the decimal texts of the protocol are read back.
use vcd_tools_rs.Prelude.{
  ℕ, zero, suc, ◌+◌, ◌/◌, ◌%◌, ◌≤◌, ◌<◌, ◌≡◌, refl, true, false, [], ◌∷◌, Text, byte_len, ok,
  u64_max, All, arith, ltb, ◌&&◌, length, if_intro,
}
use vcd_tools_rs.Value.Number.{show_decimal, decimal_onto}
use vcd_tools_rs.Value.RoundTrip.{decimal_onto-All, parse-show_decimal, decimal_onto-pos, IsDigit}
use vcd_tools_rs.Server.Answer.{◌>>=◌, reject_if}
use vcd_tools_rs.Server.Request.Take.{
  usize_max, is_empty, all_digits, starts_with_zero, validate_decimal, fitting, parse_decimal_u64,
  parse_decimal_usize,
}

all_digits-All : (t : Text) → All IsDigit t → all_digits t ≡ true
unfolding all_digits
all_digits-All [] h = refl
all_digits-All (c ∷ t) h = ground (arith, all_digits-All t h.1)

decimal_onto_leading :
    (fuel n : ℕ) (acc : Text)
    → n ≤ fuel
    → 0 < n
    → starts_with_zero (decimal_onto fuel n acc) ≡ false
unfolding decimal_onto starts_with_zero
decimal_onto_leading zero n acc h p = absurd (omega arith)
decimal_onto_leading (suc fuel) n acc h p =
    if_intro (λ (t : Text). starts_with_zero t ≡ false) (ltb n 10) (λ _. ground arith)
      (λ e. decimal_onto_leading fuel (n / 10) ((48 + n % 10) ∷ acc) (ground arith) (ground arith))

-- A leading zero stands in the number 0 only.
show_decimal_canonical :
    (n : ℕ) → (ltb 1 (byte_len (show_decimal n)) && starts_with_zero (show_decimal n)) ≡ false
unfolding show_decimal
show_decimal_canonical zero = unfold decimal_onto in refl
show_decimal_canonical (suc n) =
    ground (arith, decimal_onto_leading (suc n) (suc n) [] (omega arith) (omega arith))

is_empty-pos : (t : Text) → 0 < length t → is_empty t ≡ false
is_empty-pos [] h = absurd (omega arith)
is_empty-pos (c ∷ t) h = refl

validate-show_decimal : (n : ℕ) (key : Text) → validate_decimal (show_decimal n) key ≡ ok tt
unfolding validate_decimal reject_if
validate-show_decimal n key = ground (
  arith,
  show_decimal_canonical n,
  is_empty-pos (show_decimal n) (unfold show_decimal in decimal_onto-pos n n []),
  all_digits-All (show_decimal n) (unfold show_decimal in decimal_onto-All n n [] tt),
)

pub parse_u64-show_decimal :
    (n : ℕ) (key : Text) → n ≤ u64_max → parse_decimal_u64 (show_decimal n) key ≡ ok n
unfolding parse_decimal_u64 fitting ◌>>=◌
parse_u64-show_decimal n key h =
    rw (validate-show_decimal n key) (rw (parse-show_decimal n (omega arith)) (ground arith))

pub parse_usize-show_decimal :
    (n : ℕ) (key : Text) → n ≤ usize_max → parse_decimal_usize (show_decimal n) key ≡ ok n
unfolding parse_decimal_usize fitting ◌>>=◌
parse_usize-show_decimal n key h = rw (parse_u64-show_decimal n key h) (ground arith)
