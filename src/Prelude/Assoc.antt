-- ===== src/Prelude/Assoc.antt =====
-- A `HashMap` as an association list. The program never depends on the order of a map's entries.
use mathlib.Core.Path.{◌≡◌, refl}
use mathlib.Core.Bool.{Bool, true, false}
use mathlib.Core.Option.{Option, none, some}
use mathlib.Core.List.{List, [], ◌∷◌, ◌++◌}
use native.Mathlib.Omega.{arith}
use vcd_tools_rs.Prelude.Tests.{if◌then◌else◌}
use vcd_tools_rs.Prelude.Keys.{MapKey, ◌==◌}

module _ {ℓ} {Key Val : Type ℓ} ⦃e : MapKey Key⦄ where
  -- `map.get(k)`.
  unfoldable pub lookup : Key → List (Key × Val) → Option Val
  lookup k [] = none
  lookup k ((at, v) ∷ rest) = if at == k then some v else lookup k rest

  -- `map.insert(k, v)`.
  unfoldable pub insert : Key → Val → List (Key × Val) → List (Key × Val)
  insert k v [] = (k, v) ∷ []
  insert k v ((at, w) ∷ rest) = if at == k then (at, v) ∷ rest else (at, w) ∷ insert k v rest

  -- `map.contains_key(k)`.
  unfoldable pub contains_key : Key → List (Key × Val) → Bool
  contains_key k [] = false
  contains_key k ((at, v) ∷ rest) = if at == k then true else contains_key k rest

  -- `map.remove(k)`.
  unfoldable pub remove : Key → List (Key × Val) → List (Key × Val)
  remove k [] = []
  remove k ((at, w) ∷ rest) = let left = remove k rest in if at == k then left else (at, w) ∷ left

  pub lookup-insert :
      (k at : Key) (v : Val) (rest : List (Key × Val))
      → lookup at (insert k v rest) ≡ (if k == at then some v else lookup at rest)
  unfolding lookup insert
  lookup-insert k at v [] = refl
  lookup-insert k at v ((i, w) ∷ rest) =
      ground (
        arith,
        e.matches_iff k at,
        e.matches_iff i k,
        e.matches_iff i at,
        lookup-insert k at v rest,
      )

  pub lookup-remove :
      (k at : Key) (rest : List (Key × Val))
      → lookup at (remove k rest) ≡ (if k == at then none else lookup at rest)
  unfolding lookup remove
  lookup-remove k at [] = ground arith
  lookup-remove k at ((i, w) ∷ rest) =
      ground
        (arith, e.matches_iff k at, e.matches_iff i k, e.matches_iff i at, lookup-remove k at rest)

  pub contains_key_iff :
      (k : Key) (rest : List (Key × Val))
      → contains_key k rest ≡ elim (lookup k rest) [ none ↦ false | some _ ↦ true ]
  unfolding lookup contains_key
  contains_key_iff k [] = refl
  contains_key_iff k ((at, v) ∷ rest) = ground (arith, contains_key_iff k rest)

-- A map from a key to a vector: `map.get(k).map_or(&[], …)` and `map.entry(k).or_default().push(v)`.
module _ {ℓ} {Key Val : Type ℓ} ⦃e : MapKey Key⦄ where
  unfoldable pub entries : Key → List (Key × List Val) → List Val
  entries k [] = []
  entries k ((at, vs) ∷ rest) = if at == k then vs else entries k rest

  unfoldable pub push : Key → Val → List (Key × List Val) → List (Key × List Val)
  push k v [] = (k, v ∷ []) ∷ []
  push k v ((at, vs) ∷ rest) =
      if at == k then (at, vs ++ v ∷ []) ∷ rest else (at, vs) ∷ push k v rest

  pub entries-absent :
      (k : Key) (rest : List (Key × List Val)) → contains_key k rest ≡ false → entries k rest ≡ []
  unfolding entries contains_key
  entries-absent k [] h = refl
  entries-absent k ((at, vs) ∷ rest) h = ground (arith, entries-absent k rest)

  pub entries-push :
      (k at : Key) (v : Val) (rest : List (Key × List Val))
      → entries at (push k v rest)
        ≡ (if k == at then entries at rest ++ v ∷ [] else entries at rest)
  unfolding entries push
  entries-push k at v [] = ground arith
  entries-push k at v ((i, w) ∷ rest) =
      ground
        (arith, e.matches_iff k at, e.matches_iff i k, e.matches_iff i at, entries-push k at v rest)

  pub contains_key-push :
      (k at : Key) (v : Val) (rest : List (Key × List Val))
      → contains_key at (push k v rest) ≡ (if k == at then true else contains_key at rest)
  unfolding contains_key push
  contains_key-push k at v [] = ground arith
  contains_key-push k at v ((i, w) ∷ rest) = ground (
    arith,
    e.matches_iff k at,
    e.matches_iff i k,
    e.matches_iff i at,
    contains_key-push k at v rest,
  )

-- A key that is not contained has no value.
pub contains_key-false {ℓ} :
    {Key Val : Type ℓ} ⦃e : MapKey Key⦄ (k : Key) (rest : List (Key × Val))
    → contains_key k rest ≡ false
    → lookup k rest ≡ none
unfolding lookup contains_key
contains_key-false k [] h = refl
contains_key-false k ((at, v) ∷ rest) h = ground (arith, contains_key-false k rest)
