-- ===== src/Server/Runtime/Registry.antt =====
-- src/server/runtime.rs: the active requests of a connection have distinct ids and tokens, and are
-- no more than allowed.
use vcd_tools_rs.Prelude.{
  ℕ, ◌+◌, ◌≤◌, ◌<◌, ◌≡◌, ◌≢◌, refl, false, List, [], ◌∷◌, ◌++◌, Text, length, arith, All, ap,
  if_intro,
}
use vcd_tools_rs.Prelude.Keys.{text_eqb, text_eqb_iff, text_eq}
use vcd_tools_rs.Prelude.Assoc.{insert, contains_key, remove}
use vcd_tools_rs.Server.Runtime.{ConnectionState, tokens, without_job}

abbrev pub Active : Type 0
Active = List (Text × ℕ)

abbrev pub ids : Active → List Text
ids [] = []
ids ((id, token) ∷ rest) = id ∷ ids rest

-- Distinct ids, and distinct tokens below the next one.
abbrev pub IsRegistry : ℕ → Active → Type 0
IsRegistry next [] = Unit {0}
IsRegistry next ((id, token) ∷ rest) =
    (contains_key id rest ≡ false)
    × (token < next)
    × All (λ t. t ≢ token) (tokens rest)
    × IsRegistry next rest

pub record IsConnection (c : ConnectionState) : Type 0 where
  pub registry : IsRegistry c.next_token c.active
  pub within : length c.active ≤ c.max_active
  pub cancelled_lem : All (λ t. t < c.next_token) c.cancelled

pub insert_new :
    (id : Text) (token : ℕ) (m : Active)
    → contains_key id m ≡ false
    → insert id token m ≡ m ++ (id, token) ∷ []
unfolding insert contains_key
insert_new id token [] h = refl
insert_new id token ((other, t) ∷ rest) h = ground (arith, insert_new id token rest)

pub ids-append :
    (m : Active) (id : Text) (token : ℕ) → ids (m ++ (id, token) ∷ []) ≡ ids m ++ id ∷ []
ids-append [] id token = refl
ids-append ((other, t) ∷ rest) id token = ap (λ l. other ∷ l) (ids-append rest id token)

contains_key-append :
    (key id : Text) (token : ℕ) (m : Active)
    → contains_key key m ≡ false
    → text_eqb id key ≡ false
    → contains_key key (m ++ (id, token) ∷ []) ≡ false
unfolding contains_key
contains_key-append key id token [] h e = ground arith
contains_key-append key id token ((other, t) ∷ rest) h e =
    ground (arith, contains_key-append key id token rest)

tokens-lt : (next : ℕ) (m : Active) → IsRegistry next m → All (λ t. t ≢ next) (tokens m)
tokens-lt next [] h = tt
tokens-lt next ((id, t) ∷ rest) h = ((λ e. absurd (omega arith)), tokens-lt next rest h.3)

All-tokens :
    (P : ℕ → Type 0) (m : Active) (id : Text) (token : ℕ)
    → All P (tokens m)
    → P token
    → All P (tokens (m ++ (id, token) ∷ []))
All-tokens P [] id token h p = (p, tt)
All-tokens P ((other, t) ∷ rest) id token h p = (h.0, All-tokens P rest id token h.1 p)

text_eqb_sym : (s t : Text) → text_eqb s t ≡ false → text_eqb t s ≡ false
text_eqb_sym s t h = ground (arith, text_eqb_iff s t, text_eqb_iff t s)

head_differs :
    (id other : Text) (t : ℕ) (rest : Active)
    → contains_key id ((other, t) ∷ rest) ≡ false
    → (text_eqb other id ≡ false) × (contains_key id rest ≡ false)
unfolding contains_key
head_differs id other t rest h = ground arith

pub IsRegistry-append :
    (id : Text) (next : ℕ) (m : Active)
    → IsRegistry next m
    → contains_key id m ≡ false
    → IsRegistry (next + 1) (m ++ (id, next) ∷ [])
unfolding contains_key
IsRegistry-append id next [] h new = (refl, omega arith, tt, tt)
IsRegistry-append id next ((other, t) ∷ rest) h new =
    let (differ, absent) = head_differs id other t rest new in
    (
      contains_key-append other id next rest h.0 (text_eqb_sym other id differ),
      omega arith,
      All-tokens (λ u. u ≢ t) rest id next h.2 (λ e. absurd (omega arith)),
      IsRegistry-append id next rest h.3 absent,
    )

contains_key-remove :
    (key id : Text) (m : Active)
    → contains_key key m ≡ false
    → contains_key key (remove id m) ≡ false
unfolding contains_key remove
contains_key-remove key id [] h = refl
contains_key-remove key id ((other, t) ∷ rest) h = ground (arith, contains_key-remove key id rest)

All-tokens-remove :
    (P : ℕ → Type 0) (id : Text) (m : Active) → All P (tokens m) → All P (tokens (remove id m))
unfolding remove
All-tokens-remove P id [] h = tt
All-tokens-remove P id ((other, t) ∷ rest) h =
    if_intro (λ (l : Active). All P (tokens l)) (text_eqb other id)
      (λ _. All-tokens-remove P id rest h.1) (λ _. (h.0, All-tokens-remove P id rest h.1))

pub IsRegistry-remove :
    (id : Text) (next : ℕ) (m : Active) → IsRegistry next m → IsRegistry next (remove id m)
unfolding remove
IsRegistry-remove id next [] h = tt
IsRegistry-remove id next ((other, t) ∷ rest) h =
    if_intro (IsRegistry next) (text_eqb other id) (λ _. IsRegistry-remove id next rest h.3)
      (λ _. (
        contains_key-remove other id rest h.0,
        h.1,
        All-tokens-remove (λ u. u ≢ t) id rest h.2,
        IsRegistry-remove id next rest h.3,
      ))

pub length-remove : (id : Text) (m : Active) → length (remove id m) ≤ length m
unfolding remove
length-remove id [] = omega arith
length-remove id ((other, t) ∷ rest) = ground (arith, length-remove id rest)

pub ids-remove : (id : Text) (m : Active) → ids (remove id m) ≡ without_job id (ids m)
unfolding remove without_job
ids-remove id [] = refl
ids-remove id ((other, t) ∷ rest) = ground (arith, ids-remove id rest)

-- A new request that is removed leaves the registry as it was.
pub remove_new :
    (id : Text) (token : ℕ) (m : Active)
    → contains_key id m ≡ false
    → remove id (m ++ (id, token) ∷ []) ≡ m
unfolding remove contains_key
remove_new id token [] h = ground (arith, text_eqb_iff id id)
remove_new id token ((other, t) ∷ rest) h = ground (arith, remove_new id token rest)

-- A token of the registry is below the next one.
pub All-le : (n m : ℕ) (l : List ℕ) → n ≤ m → All (λ t. t < n) l → All (λ t. t < m) l
All-le n m [] h k = tt
All-le n m (t ∷ l) h k = (omega arith, All-le n m l h k.1)
