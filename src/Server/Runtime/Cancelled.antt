-- ===== src/Server/Runtime/Cancelled.antt =====
-- src/server/runtime.rs: a cancellation reaches the request that it names, and no other.
use vcd_tools_rs.Prelude.{
  ℕ, ◌≡◌, ◌≢◌, refl, Bool, true, Option, some, [], ◌∷◌, Text, nat_eqb, any, arith, All, if_intro,
  sym, ◌∙◌,
}
use mathlib.Core.Path.{subst}
use vcd_tools_rs.Prelude.Keys.{text_eqb, text_eqb_iff, text_eq}
use vcd_tools_rs.Prelude.Assoc.{lookup}
use vcd_tools_rs.Server.Runtime.{ConnectionState, cancel, cancel_token, tokens}
use vcd_tools_rs.Server.Runtime.Registry.{Active, IsRegistry, IsConnection}

abbrev pub is_cancelled : ℕ → ConnectionState → Bool
is_cancelled token c = any (nat_eqb token) c.cancelled

lookup-All :
    (P : ℕ → Type 0) (id : Text) (m : Active) (token : ℕ)
    → All P (tokens m)
    → lookup id m ≡ some token
    → P token
unfolding lookup
lookup-All P id [] token h e = cc
lookup-All P id ((other, t) ∷ rest) token h e =
    if_intro (λ (r : Option ℕ). r ≡ some token → P token) (text_eqb other id)
      (λ _ found. subst P (cc) h.0) (λ _ found. lookup-All P id rest token h.1 found) e

-- Different ids have different tokens.
tokens_differ :
    (next : ℕ) (m : Active) (id other : Text) (token t : ℕ)
    → IsRegistry next m
    → id ≢ other
    → lookup id m ≡ some token
    → lookup other m ≡ some t
    → token ≢ t
unfolding lookup
tokens_differ next [] id other token t h n e f = cc
tokens_differ next ((key, u) ∷ rest) id other token t h n e f =
    if_intro (λ (r : Option ℕ). r ≡ some token → token ≢ t) (text_eqb key id)
      (λ own here.
        if_intro (λ (r : Option ℕ). r ≡ some t → token ≢ t) (text_eqb key other)
          (λ theirs there.
            absurd (n (sym ((text_eqb_iff key id).0 own) ∙ (text_eqb_iff key other).0 theirs)))
          (λ _ there same. lookup-All (λ v. v ≢ u) other rest t h.2 there (cc)) f)
      (λ _ here.
        if_intro (λ (r : Option ℕ). r ≡ some t → token ≢ t) (text_eqb key other)
          (λ _ there same. lookup-All (λ v. v ≢ u) id rest token h.2 here (cc))
          (λ _ there. tokens_differ next rest id other token t h.3 n here there) f)
      e

-- For a connection with distinct tokens: the cancellation of an active request sets its token, and
-- leaves the token of every other active request as it was.
pub cancel_lem :
    (c : ConnectionState) (id other : Text) (token t : ℕ)
    → IsConnection c
    → id ≢ other
    → lookup id c.active ≡ some token
    → lookup other c.active ≡ some t
    → ((cancel id c).0 ≡ true)
      × (is_cancelled token (cancel id c).1 ≡ true)
      × (is_cancelled t (cancel id c).1 ≡ is_cancelled t c)
unfolding cancel cancel_token
cancel_lem c id other token t h n e f =
    let differ = tokens_differ c.next_token c.active id other token t h.registry n e f in
    rw e (refl, ground arith, ground arith)
