-- ===== src/Prelude/Results.antt =====
-- Rust's `Result`, with `?` as bind.
use mathlib.Core.Path.{◌≡◌, refl}
use mathlib.Core.Logic.{◌⊎◌, inl, inr}

pub data Result {κ} (E X : Type κ) : Type κ where
  err : E → Result E X
  ok : X → Result E X

infixl 5 ◌>>=◌
abbrev pub ◌>>=◌ {κ} : {E X Y : Type κ} → Result E X → (X → Result E Y) → Result E Y
err failure >>= next = err failure
ok x >>= next = next x

pub Result-cases {ℓ} :
    {E A : Type ℓ} (r : Result E A) → ((a : A) × (r ≡ ok a)) ⊎ ((e : E) × (r ≡ err e))
Result-cases (ok a) = inl (a, refl)
Result-cases (err e) = inr (e, refl)

-- A bind that succeeds, in its two parts.
pub >>=-eq-ok {κ} :
    {E X Y : Type κ} (first : Result E X) (next : X → Result E Y) {y : Y}
    → (first >>= next) ≡ ok y
    → (x : X) × (first ≡ ok x) × (next x ≡ ok y)
>>=-eq-ok (err failure) next h = cc
>>=-eq-ok (ok x) next h = (x, refl, h)
