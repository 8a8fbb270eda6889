-- ===== src/Query/Stream/Selection.antt =====
-- src/query/stream.rs: what `TargetSelection::resolve` selects.
use vcd_tools_rs.Prelude.{
  ℕ, suc, ◌<◌, ◌≤◌, ◌≡◌, refl, sym, ap, ◌∙◌, true, false, Option, none, some, List, [], ◌∷◌, ◌++◌,
  append_assoc, append-nil, Text, length, if◌then◌else◌, ok, err, arith, nat_eqb, nat_eq,
}
use vcd_tools_rs.Prelude.Assoc.{contains_key, entries, entries-push, contains_key-push}
use vcd_tools_rs.Errors.{QueryError, QueryResult}
use vcd_tools_rs.Catalog.{SignalMeta}
use vcd_tools_rs.Query.Exec.{Exec, ◌>>=◌, continue}
use vcd_tools_rs.Query.Context.{World, QueryContext, check, check_signal_count}
use vcd_tools_rs.Query.Opened.{OpenedVcd, signal}
use vcd_tools_rs.Query.Stream.{
  TargetBinding, TargetSelection, Resolution, bind_target, selection_of, contains_id, bindings,
  resolve_loop, resolve,
}

-- A selected code has a binding, and no more than there were targets requested.
pub record IsSelection (s : TargetSelection) : Type 0 where
  pub bound : (id : ℕ) → contains_id s id ≡ true → 0 < length (bindings s id)
  pub few : (id : ℕ) → length (bindings s id) ≤ s.request_count

abbrev binding : ℕ → SignalMeta → TargetBinding
binding index m = record { request_index = index; name = m.full_name; size = m.size }

abbrev bound_one : ℕ → ℕ → Option SignalMeta → List TargetBinding → List TargetBinding
bound_one id index none rest = rest
bound_one id index (some m) rest = if nat_eqb m.id_code id then binding index m ∷ rest else rest

module _ (o : OpenedVcd) where
  -- The targets with a code, numbered from `index` on, in the order of the request.
  unfoldable pub bound : ℕ → ℕ → List Text → List TargetBinding
  bound id index [] = []
  bound id index (name ∷ names) = bound_one id index (signal o name) (bound id (suc index) names)

  abbrev missing_one : Text → Option SignalMeta → List Text → List Text
  missing_one name none rest = name ∷ rest
  missing_one name (some m) rest = rest

  -- The requested names that the catalogue lacks, in the order of the request.
  unfoldable pub missing_of : List Text → List Text
  missing_of [] = []
  missing_of (name ∷ names) = missing_one name (signal o name) (missing_of names)

  unfoldable pub bind_all : ℕ → List Text → Resolution → Resolution
  bind_all index [] r = r
  bind_all index (name ∷ names) r =
      bind_all (suc index) names (bind_target index name (signal o name) r)

  bind_target-entries :
      (id index : ℕ) (name : Text) (found : Option SignalMeta) (r : Resolution)
      → entries id (bind_target index name found r).by_id
        ≡ entries id r.by_id ++ bound_one id index found []
  unfolding bind_target
  bind_target-entries id index name none r = sym (append-nil (entries id r.by_id))
  bind_target-entries id index name (some m) r =
      ground (
        arith,
        entries-push m.id_code id (binding index m) r.by_id,
        append-nil (entries id r.by_id),
      )

  bound_one-append :
      (id index : ℕ) (found : Option SignalMeta) (rest : List TargetBinding)
      → bound_one id index found [] ++ rest ≡ bound_one id index found rest
  bound_one-append id index none rest = refl
  bound_one-append id index (some m) rest = ground arith

  bind_all-entries :
      (id index : ℕ) (names : List Text) (r : Resolution)
      → entries id (bind_all index names r).by_id ≡ entries id r.by_id ++ bound id index names
  unfolding bind_all bound
  bind_all-entries id index [] r = sym (append-nil (entries id r.by_id))
  bind_all-entries id index (name ∷ names) r =
      bind_all-entries id (suc index) names (bind_target index name (signal o name) r)
      ∙ ap (λ es. es ++ bound id (suc index) names)
          (bind_target-entries id index name (signal o name) r)
      ∙ append_assoc (entries id r.by_id) (bound_one id index (signal o name) [])
          (bound id (suc index) names)
      ∙ ap (λ es. entries id r.by_id ++ es)
          (bound_one-append id index (signal o name) (bound id (suc index) names))

  bind_target-missing :
      (index : ℕ) (name : Text) (found : Option SignalMeta) (r : Resolution) (rest : List Text)
      → (bind_target index name found r).missing ++ rest ≡ r.missing ++ missing_one name found rest
  unfolding bind_target
  bind_target-missing index name none r rest = append_assoc r.missing (name ∷ []) rest
  bind_target-missing index name (some m) r rest = refl

  pub bind_all-missing :
      (index : ℕ) (names : List Text) (r : Resolution)
      → (bind_all index names r).missing ≡ r.missing ++ missing_of names
  unfolding bind_all missing_of
  bind_all-missing index [] r = sym (append-nil r.missing)
  bind_all-missing index (name ∷ names) r =
      bind_all-missing (suc index) names (bind_target index name (signal o name) r)
      ∙ bind_target-missing index name (signal o name) r (missing_of names)

  -- A code is a key of the map exactly when it has entries.
  abbrev IsFull : Resolution → Type 0
  IsFull r =
      (id : ℕ)
      → contains_key id r.by_id ≡ (elim (entries id r.by_id) [ [] ↦ false | b ∷ bs ↦ true ])

  has_last :
      (bs : List TargetBinding) (b : TargetBinding)
      → (elim (bs ++ b ∷ []) [ [] ↦ false | c ∷ cs ↦ true ]) ≡ true
  has_last [] b = refl
  has_last (c ∷ bs) b = refl

  bind_target-IsFull :
      (index : ℕ) (name : Text) (found : Option SignalMeta) (r : Resolution)
      → IsFull r
      → IsFull (bind_target index name found r)
  unfolding bind_target
  bind_target-IsFull index name none r full id = full id
  bind_target-IsFull index name (some m) r full id = ground (
    arith,
    full id,
    contains_key-push m.id_code id (binding index m) r.by_id,
    entries-push m.id_code id (binding index m) r.by_id,
    has_last (entries id r.by_id) (binding index m),
  )

  bind_all-IsFull :
      (index : ℕ) (names : List Text) (r : Resolution) → IsFull r → IsFull (bind_all index names r)
  unfolding bind_all
  bind_all-IsFull index [] r full = full
  bind_all-IsFull index (name ∷ names) r full =
      bind_all-IsFull (suc index) names (bind_target index name (signal o name) r)
        (bind_target-IsFull index name (signal o name) r full)

  length-bound : (id index : ℕ) (names : List Text) → length (bound id index names) ≤ length names
  unfolding bound
  length-bound id index [] = omega arith
  length-bound id index (name ∷ names) = ground (arith, length-bound id (suc index) names)

-- A bind that succeeds, in its two parts.
pub bind-eq-ok :
    {S A B : Type 0} (m : Exec S A) (f : A → Exec S B) (s : S) {b : B}
    → ((m >>= f) s).0 ≡ ok b
    → (a : A) × ((m s).0 ≡ ok a) × ((f a (m s).1).0 ≡ ok b)
bind-eq-ok {S} {A} {B} m f s {b} h = split (m s).0 (m s).1 h
  where
    split :
        (r : QueryResult A) (t : S)
        → (continue r f t).0 ≡ ok b
        → (a : A) × (r ≡ ok a) × ((f a t).0 ≡ ok b)
    split (ok a) t h = (a, refl, h)
    split (err e) t h = cc

entry_there :
    (bs : List TargetBinding) → (elim bs [ [] ↦ false | b ∷ rest ↦ true ]) ≡ true → 0 < length bs
entry_there [] h = ground arith
entry_there (b ∷ bs) h = omega arith

-- What the loop of `resolve` starts from.
abbrev pub nothing : Resolution
nothing = record { by_id = []; missing = [] }

module _ (o : OpenedVcd) (targets : List Text) (s : TargetSelection)
    (same : s.by_id ≡ (bind_all o 0 targets nothing).by_id) where
  bindings_lem : (id : ℕ) → entries id s.by_id ≡ bound o id 0 targets
  unfolding entries
  bindings_lem id = ap (entries id) same ∙ bind_all-entries o id 0 targets nothing

  bind_all-IsSelection : s.request_count ≡ length targets → IsSelection s
  unfolding bindings contains_id entries contains_key
  bind_all-IsSelection n = record {
    bound = λ id contained. entry_there (entries id s.by_id) (
        ap (λ x. elim (entries id x) [ [] ↦ false | v ∷ vs ↦ true ]) same
        ∙ sym (bind_all-IsFull o 0 targets nothing (λ i. refl) id)
        ∙ sym (ap (contains_key id) same)
        ∙ contained);
    few = λ id. ground (arith, n, bindings_lem id, length-bound o id 0 targets);
  }

pub bind-ok :
    {S A B : Type 0} (m : Exec S A) (f : A → Exec S B) (s : S) {a : A}
    → (m s).0 ≡ ok a
    → ((m >>= f) s).0 ≡ (f a (m s).1).0
bind-ok {S} {A} {B} m f s {a} h = ap (λ (r : QueryResult A). (continue r f (m s).1).0) h

pub bind-err :
    {S A B : Type 0} (m : Exec S A) (f : A → Exec S B) (s : S) {e : QueryError}
    → (m s).0 ≡ err e
    → ((m >>= f) s).0 ≡ err e
bind-err {S} {A} {B} m f s h = ap (λ (r : QueryResult A). (continue r f (m s).1).0) h

module _ (w : World) (o : OpenedVcd) (c : QueryContext) where
  resolve_loop_lem :
      (index : ℕ) (names : List Text) (r r' : Resolution) (moment : ℕ)
      → (resolve_loop w o c index names r moment).0 ≡ ok r'
      → r' ≡ bind_all o index names r
  unfolding resolve_loop bind_all
  resolve_loop_lem index [] r r' moment h = ground arith
  resolve_loop_lem index (name ∷ names) r r' moment h =
      let (u, e, f) = bind-eq-ok (check w c) _ moment h in
      resolve_loop_lem (suc index) names (bind_target index name (signal o name) r) r' _ f

  selection_of_lem :
      (n : ℕ) (r : Resolution) (s : TargetSelection) (missing : List Text)
      → r.missing ≡ missing
      → selection_of n r ≡ ok s
      → (missing ≡ []) × (s.by_id ≡ r.by_id) × (s.request_count ≡ n)
  unfolding selection_of
  selection_of_lem n r s [] e h = ground arith
  selection_of_lem n r s (name ∷ names) e h = ground arith

  -- A resolution that succeeds has every requested name, and binds to a code the targets with that
  -- code, in the order of the request, with their places in it, and counts
  -- them.
  pub resolve_lem :
      (targets : List Text) (s : TargetSelection) (moment : ℕ)
      → (resolve w o c targets moment).0 ≡ ok s
      → (missing_of o targets ≡ [])
        × ((id : ℕ) → bindings s id ≡ bound o id 0 targets)
        × IsSelection s
        × (s.request_count ≡ length targets)
  unfolding resolve bindings contains_id
  resolve_lem targets s moment h =
      let (u, e, f) = bind-eq-ok (check_signal_count w c (length targets)) _ moment h in
      let (r, g, k) =
        bind-eq-ok (resolve_loop w o c 0 targets (record { by_id = []; missing = [] })) _ _ f in
      let all = resolve_loop_lem 0 targets nothing r _ g in
      let (m, b, n) =
        selection_of_lem (length targets) r s (missing_of o targets)
          (ap (λ x. x.missing) all ∙ bind_all-missing o 0 targets nothing) k in
      let same = b ∙ ap (λ x. x.by_id) all in
      (m, bindings_lem o targets s same, bind_all-IsSelection o targets s same n, n)
