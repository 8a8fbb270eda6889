-- ===== src/Vcd/Vectors.antt =====
-- src/lib.rs, src/query/stream.rs: the integer of a vector of bits.
use mathlib.Core.Path.{subst}
use native.Mathlib.Nat.{pow-le-pow_right}
use vcd_tools_rs.Prelude.{
  ℕ, suc, Bool-cases, nat_eqb, inl, inr, ◌+◌, ◌*◌, ◌^◌, ◌%◌, ◌≤◌, ◌<◌, ◌≡◌, sym, ap, ◌∙◌, true, ◌∷◌,
  [], length, leb, arith,
}
use vcd_tools_rs.Value.{ChangeValue}
use vcd_tools_rs.Vcd.{
  BitValue, v0, v1, unknown, Vector, VcdDisplay, bit, shift_bits, is_integer,
  vector_to_change_value,
}

-- The number that a vector of bits stands for, its first bit the most significant.
abbrev pub binary : Vector → ℕ
binary [] = 0
binary (v ∷ vs) = bit v * 2 ^ length vs + binary vs

bit-le : (v : BitValue) → bit v ≤ 1
bit-le v0 = omega arith
bit-le v1 = omega arith
bit-le (unknown n) = omega arith

double : (n : ℕ) → 2 ^ suc n ≡ 2 * 2 ^ n
double n = omega arith

-- Abstract in the power of the rest: one more bit.
bit_room : (b p n : ℕ) → b ≤ 1 → n < p → b * p + n < 2 * p
bit_room b p n h k = elim (Bool-cases (nat_eqb b 0)) [
  | inl e ↦ ground (arith, e)
  | inr e ↦ ground (arith, e)
]

pub binary-lt : (vs : Vector) → binary vs < 2 ^ length vs
binary-lt [] = omega arith
binary-lt (v ∷ vs) = omega (
  arith,
  double (length vs),
  bit_room (bit v) (2 ^ length vs) (binary vs) (bit-le v) (binary-lt vs),
)

-- Abstract in the power of the rest: what a doubling leaves.
doubled_small : (acc p max : ℕ) → 0 < p → (acc + 1) * (2 * p) ≤ max → acc * 2 + 2 ≤ max
doubled_small acc p max h k = grind arith

doubled_room : (acc b p : ℕ) → b ≤ 1 → (acc * 2 + b + 1) * p ≤ (acc + 1) * (2 * p)
doubled_room acc b p h = grind arith

doubled_sum : (acc b p n : ℕ) → (acc * 2 + b) * p + n ≡ acc * (2 * p) + (b * p + n)
doubled_sum acc b p n = grind arith

shift_bits_lem :
    (vs : Vector) (acc : ℕ)
    → (acc + 1) * 2 ^ length vs ≤ 2 ^ 128
    → shift_bits acc vs ≡ acc * 2 ^ length vs + binary vs
unfolding shift_bits
shift_bits_lem [] acc h = omega arith
shift_bits_lem (v ∷ vs) acc h =
    let p = 2 ^ length vs in
    let room : (acc + 1) * (2 * p) ≤ 2 ^ 128 =
      subst (λ q. (acc + 1) * q ≤ 2 ^ 128) (double (length vs)) h in
    let small : acc * 2 % 2 ^ 128 ≡ acc * 2 =
      omega (arith, doubled_small acc p (2 ^ 128) (omega (arith, binary-lt vs)) room) in
    ap (λ n. shift_bits (n + bit v) vs) small
    ∙ shift_bits_lem vs (acc * 2 + bit v)
        (omega (arith, doubled_room acc (bit v) p (bit-le v), room))
    ∙ doubled_sum acc (bit v) p (binary vs)
    ∙ ap (λ q. acc * q + (bit v * p + binary vs)) (sym (double (length vs)))

within : (vec : Vector) → is_integer vec ≡ true → length vec ≤ 128
unfolding is_integer
within vec h = elim (Bool-cases (leb (length vec) 128)) [
  | inl e ↦ ground (arith, e)
  | inr e ↦ absurd (ground (arith, h, e))
]

-- A vector of at most 128 bits, each 0 or 1, becomes the number that it stands for in binary, which
-- fits: no bit is lost by the shifts on `u128`.
pub vector_to_change_value_lem :
    (d : VcdDisplay) (vec : Vector)
    → is_integer vec ≡ true
    → (vector_to_change_value d vec ≡ ChangeValue.integer (binary vec))
      × (binary vec < 2 ^ length vec)
      × (length vec ≤ 128)
unfolding vector_to_change_value is_integer
vector_to_change_value_lem d vec h =
    let short : length vec ≤ 128 = within vec h in
    let room : (0 + 1) * 2 ^ length vec ≤ 2 ^ 128 =
      omega (arith, pow-le-pow_right {n = 2} (omega arith) short) in
    (rw h (ap ChangeValue.integer (shift_bits_lem vec 0 room ∙ no_bits vec)), binary-lt vec, short)
  where
    no_bits : (vs : Vector) → 0 * 2 ^ length vs + binary vs ≡ binary vs
    no_bits vs = omega arith
