-- ===== src/Prelude/Keys.antt =====
-- Equality of map keys as an instance, and text as a list of characters.
use Prim.Native.Nat.{ℕ, ◌+◌}
use Prim.Native.Char.{code}
use Prim.Native.String.{String}
use mathlib.Core.Path.{◌≡◌}
use mathlib.Core.Logic.{◌↔◌}
use mathlib.Core.Bool.{Bool, true, false, ◌&&◌}
use mathlib.Core.List.{List, [], ◌∷◌}
use native.Mathlib.Omega.{arith}
use vcd_tools_rs.Prelude.Tests.{ltb, nat_eqb, nat_eqb_iff, if◌then◌else◌}

pub record MapKey {κ} (Key : Type κ) : Type κ where
  pub matches : Key → Key → Bool
  pub matches_iff : (x y : Key) → (matches x y ≡ true) ↔ (x ≡ y)

infix 50 ◌==◌
abbrev pub ◌==◌ {κ} : {Key : Type κ} ⦃key : MapKey Key⦄ → Key → Key → Bool
◌==◌ ⦃key⦄ x y = key.matches x y

instance abbrev pub nat_eq : MapKey ℕ
nat_eq = record { matches = nat_eqb; matches_iff = nat_eqb_iff }

-- A Rust `String` is the list of its characters, each the number of a Unicode scalar value.
abbrev pub Text : Type 0
Text = List ℕ

unfoldable pub text_eqb : Text → Text → Bool
text_eqb [] [] = true
text_eqb [] (d ∷ t) = false
text_eqb (c ∷ s) [] = false
text_eqb (c ∷ s) (d ∷ t) = nat_eqb c d && text_eqb s t

pub text_eqb_iff : (s t : Text) → (text_eqb s t ≡ true) ↔ (s ≡ t)
unfolding text_eqb
text_eqb_iff [] [] = ground arith
text_eqb_iff [] (d ∷ t) = ground arith
text_eqb_iff (c ∷ s) [] = ground arith
text_eqb_iff (c ∷ s) (d ∷ t) = ground (arith, text_eqb_iff s t)

instance abbrev pub text_eq : MapKey Text
text_eq = record { matches = text_eqb; matches_iff = text_eqb_iff }

-- The characters of a literal.
abbrev pub codes : String → Text
codes String.[] = []
codes (String.◌∷◌ first rest) = code first ∷ codes rest

-- `char::len_utf8`, and `str::len`, which counts bytes.
abbrev pub len_utf8 : ℕ → ℕ
len_utf8 c = if ltb c 0x80 then 1 else if ltb c 0x800 then 2 else if ltb c 0x10000 then 3 else 4

abbrev pub byte_len : Text → ℕ
byte_len [] = 0
byte_len (c ∷ s) = len_utf8 c + byte_len s
