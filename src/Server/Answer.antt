-- ===== src/Server/Answer.antt =====
-- src/server/protocol.rs: results of the protocol's functions, with `?` as a bind that stays shut,
-- and what a result ensures.
use vcd_tools_rs.Prelude.{◌≡◌, refl, Result, ok, err, Bool, true, false}
use mathlib.Core.Path.{subst}
use vcd_tools_rs.Server.Protocol.{ProtocolError}

abbrev pub Answer : Type 0 → Type 0
Answer A = Result ProtocolError A

infixl 5 ◌>>=◌ ◌>>◌
unfoldable pub ◌>>=◌ : {A B : Type 0} → Answer A → (A → Answer B) → Answer B
err e >>= next = err e
ok x >>= next = next x

abbrev pub ◌>>◌ : {B : Type 0} → Answer (Unit {0}) → Answer B → Answer B
first >> next = first >>= λ _. next

-- An early return with an error.
unfoldable pub reject_if : Bool → ProtocolError → Answer (Unit {0})
reject_if true e = err e
reject_if false e = ok tt

pub ok->>= : {A B : Type 0} (x : A) (next : A → Answer B) → (ok x >>= next) ≡ next x
unfolding ◌>>=◌
ok->>= x next = refl

-- Every success satisfies `P`.
pub data Ensures {A : Type 0} (P : A → Type 0) : Answer A → Type 0 where
  returns : (x : A) → P x → Ensures P (ok x)
  fails : (e : ProtocolError) → Ensures P (err e)

pub ensured : {A : Type 0} {P : A → Type 0} {x : A} → Ensures P (ok x) → P x
ensured (returns x p) = p

pub Ensures->>= :
    {A B : Type 0} {P : A → Type 0} {Q : B → Type 0} {first : Answer A} {next : A → Answer B}
    → Ensures P first
    → ((x : A) → P x → Ensures Q (next x))
    → Ensures Q (first >>= next)
unfolding ◌>>=◌
Ensures->>= (returns x p) h = h x p
Ensures->>= (fails e) h = fails e

-- What stands after a check may use that its test failed.
pub Ensures-reject_if : (b : Bool) (e : ProtocolError) → Ensures (λ _. b ≡ false) (reject_if b e)
unfolding reject_if
Ensures-reject_if true e = fails e
Ensures-reject_if false e = returns tt refl

pub Ensures-any : {A : Type 0} (result : Answer A) → Ensures (λ _. Unit {0}) result
Ensures-any (ok x) = returns x tt
Ensures-any (err e) = fails e

pub ensured_of :
    {A : Type 0} {P : A → Type 0} {result : Answer A} {x : A}
    → Ensures P result
    → result ≡ ok x
    → P x
ensured_of {P = P} (returns y p) h = subst P (cc) p
ensured_of (fails e) h = cc

-- Every failure satisfies `E`.
pub data Refuses {A : Type 0} (E : ProtocolError → Type 0) : Answer A → Type 0 where
  passes : (x : A) → Refuses E (ok x)
  refuses : (e : ProtocolError) → E e → Refuses E (err e)

pub Refuses->>= :
    {A B : Type 0} {E : ProtocolError → Type 0} {first : Answer A} {next : A → Answer B}
    → Refuses E first
    → ((x : A) → Refuses E (next x))
    → Refuses E (first >>= next)
unfolding ◌>>=◌
Refuses->>= (passes x) h = h x
Refuses->>= (refuses e p) h = refuses e p

pub Refuses-reject_if :
    {E : ProtocolError → Type 0} (b : Bool) (e : ProtocolError) → E e → Refuses E (reject_if b e)
unfolding reject_if
Refuses-reject_if true e p = refuses e p
Refuses-reject_if false e p = passes tt

pub refused_of :
    {A : Type 0} {E : ProtocolError → Type 0} {result : Answer A} {e : ProtocolError}
    → Refuses E result
    → result ≡ err e
    → E e
refused_of (passes x) h = cc
refused_of {E = E} (refuses e p) h = subst E (cc) p
