-- ===== src/Query/Toggles/Texts.antt =====
-- src/query/ops.rs: the counts over rows, by the texts of each signal.
use mathlib.Core.Path.{subst}
use vcd_tools_rs.Prelude.{
  ℕ, ◌+◌, Bool, false, ◌||◌, if◌then◌else◌, arith, inl, inr, Bool-cases, sym, ◌≡◌, refl, ap, ◌∙◌,
  Option, none, some, List, [], ◌∷◌, Text,
}
use vcd_tools_rs.Value.{Formats, format_value_for_signal}
use vcd_tools_rs.Query.Opened.{OpenedVcd, signal}
use vcd_tools_rs.Query.Extract.{TimeValue}
use vcd_tools_rs.Prelude.Keys.{text_eqb, text_eqb_iff, text_eq}
use vcd_tools_rs.Prelude.Assoc.{lookup, lookup-insert}
use vcd_tools_rs.Query.Toggles.{bump, increment, size_of, Toggles, no_toggles, count_event}

-- One more toggle, where a text stands behind another one that is not empty.
unfoldable pub toggle : Text → Text → ℕ
toggle [] next = 0
toggle (c ∷ last) next = if text_eqb (c ∷ last) next then 0 else 1

-- The toggles of the texts of one signal: its neighbours that differ.
unfoldable pub toggles : List Text → ℕ
toggles [] = 0
toggles (t ∷ []) = 0
toggles (t ∷ u ∷ ts) = toggle t u + toggles (u ∷ ts)

toggles_start : (ts : List Text) → toggles ([] ∷ ts) ≡ toggles ts
unfolding toggles toggle
toggles_start [] = refl
toggles_start (t ∷ ts) = omega arith

bump_lem :
    (last name formatted : Text) (n : ℕ) (counts : List (Text × ℕ))
    → lookup name counts ≡ some n
    → lookup name (bump (some last) name formatted counts) ≡ some (n + toggle last formatted)
unfolding bump toggle
bump_lem [] name formatted n counts h = ground arith
bump_lem (c ∷ last) name formatted n counts h =
    ground (arith, lookup-insert name name (n + 1) counts, text_eqb_iff name name)

unfoldable pub requested : Text → List Text → Bool
requested name [] = false
requested name (target ∷ targets) = text_eqb target name || requested name targets

increment_other :
    (m : Option ℕ) (signal name : Text) (counts : List (Text × ℕ))
    → text_eqb signal name ≡ false
    → lookup name (increment m signal counts) ≡ lookup name counts
increment_other none signal name counts h = refl
increment_other (some n) signal name counts h =
    lookup-insert signal name (n + 1) counts
    ∙ ap (λ b. if b then some (n + 1) else lookup name counts) h

bump_other :
    (last : Option Text) (signal name formatted : Text) (counts : List (Text × ℕ))
    → text_eqb signal name ≡ false
    → lookup name (bump last signal formatted counts) ≡ lookup name counts
unfolding bump
bump_other none signal name formatted counts h = refl
bump_other (some last) signal name formatted counts h =
    ground (arith, increment_other (lookup signal counts) signal name counts)

-- A signal without a count gets none.
bump-none :
    (last : Option Text) (signal name formatted : Text) (counts : List (Text × ℕ))
    → lookup name counts ≡ none
    → lookup name (bump last signal formatted counts) ≡ none
unfolding bump
bump-none none signal name formatted counts h = h
bump-none (some last) signal name formatted counts h = elim (Bool-cases (text_eqb signal name)) [
  | inl e ↦
      let same : lookup signal counts ≡ none =
        subst (λ s. lookup s counts ≡ none) (sym ((text_eqb_iff signal name).0 e)) h in
      rw same (ground arith)
  | inr e ↦ unfold bump in bump_other (some last) signal name formatted counts e ∙ h
]

no_toggles_lem :
    (name : Text) (targets : List Text)
    → (lookup name (no_toggles targets).toggle_counts
        ≡ (if requested name targets then some 0 else none))
      × (lookup name (no_toggles targets).last_values
          ≡ (if requested name targets then some [] else none))
unfolding no_toggles requested lookup
no_toggles_lem name [] = (refl, refl)
no_toggles_lem name (target ∷ targets) =
    let (counts, lasts) = no_toggles_lem name targets in
    (
      lookup-insert target name 0 (no_toggles targets).toggle_counts ∙ ground arith,
      lookup-insert target name [] (no_toggles targets).last_values ∙ ground arith,
    )

module _ (f : Formats) (o : OpenedVcd) where
  -- The counts after a list of rows.
  unfoldable pub count_rows : List TimeValue → Toggles → Toggles
  count_rows [] t = t
  count_rows (event ∷ events) t = count_rows events (count_event f o event t)

  -- The text of a row, and those of the rows of one signal, in order.
  abbrev pub text_of : TimeValue → Text
  text_of v = format_value_for_signal f v.value (size_of f o (signal o v.signal))

  unfoldable pub texts_of : Text → List TimeValue → List Text
  texts_of name [] = []
  texts_of name (v ∷ rows) =
      let later = texts_of name rows in if text_eqb v.signal name then text_of v ∷ later else later

  -- What a state knows of one requested signal: its last text and its count.
  record Tracks (name : Text) (t : Toggles) (last : Text) (n : ℕ) : Type 0 where
    last_lem : lookup name t.last_values ≡ some last
    count_lem : lookup name t.toggle_counts ≡ some n

  own_event :
      (name : Text) (v : TimeValue) (t : Toggles) (last : Text) (n : ℕ)
      → v.signal ≡ name
      → Tracks name t last n
      → Tracks name (count_event f o v t) (text_of v) (n + toggle last (text_of v))
  unfolding count_event
  own_event name v t last n e h = record {
    last_lem =
        lookup-insert v.signal name (text_of v) t.last_values
        ∙ ap (λ b. if b then some (text_of v) else lookup name t.last_values)
            ((text_eqb_iff v.signal name).1 e);
    count_lem =
        subst
          (λ s.
            lookup name (bump (lookup s t.last_values) s (text_of v) t.toggle_counts)
            ≡ some (n + toggle last (text_of v)))
          (sym e)
          (ap (λ o. lookup name (bump o name (text_of v) t.toggle_counts)) h.last_lem
            ∙ bump_lem last name (text_of v) n t.toggle_counts h.count_lem);
  }

  other_event :
      (name : Text) (v : TimeValue) (t : Toggles) (last : Text) (n : ℕ)
      → text_eqb v.signal name ≡ false
      → Tracks name t last n
      → Tracks name (count_event f o v t) last n
  unfolding count_event
  other_event name v t last n e h = record {
    last_lem =
        lookup-insert v.signal name (text_of v) t.last_values
        ∙ ap (λ b. if b then some (text_of v) else lookup name t.last_values) e
        ∙ h.last_lem;
    count_lem =
        bump_other (lookup v.signal t.last_values) v.signal name (text_of v) t.toggle_counts e
        ∙ h.count_lem;
  }

  count_rows_lem :
      (name : Text) (rows : List TimeValue) (t : Toggles) (last : Text) (n : ℕ)
      → Tracks name t last n
      → lookup name (count_rows rows t).toggle_counts
        ≡ some (n + toggles (last ∷ texts_of name rows))
  unfolding count_rows texts_of toggles
  count_rows_lem name [] t last n h = h.count_lem ∙ ap some (omega arith)
  count_rows_lem name (v ∷ rows) t last n h = elim (Bool-cases (text_eqb v.signal name)) [
    | inl e ↦ rw e (
        count_rows_lem name rows (count_event f o v t) (text_of v) (n + toggle last (text_of v))
          (own_event name v t last n ((text_eqb_iff v.signal name).0 e) h)
        ∙ ap some (omega arith))
    | inr e ↦
        rw e
          (count_rows_lem name rows (count_event f o v t) last n (other_event name v t last n e h))
  ]

  count_rows-none :
      (name : Text) (rows : List TimeValue) (t : Toggles)
      → lookup name t.toggle_counts ≡ none
      → lookup name (count_rows rows t).toggle_counts ≡ none
  unfolding count_rows count_event
  count_rows-none name [] t h = h
  count_rows-none name (v ∷ rows) t h =
      count_rows-none name rows (count_event f o v t)
        (bump-none (lookup v.signal t.last_values) v.signal name (text_of v) t.toggle_counts h)

  -- The counts over rows, by the texts of each signal.
  pub counts_lem :
      (name : Text) (targets : List Text) (rows : List TimeValue)
      → lookup name (count_rows rows (no_toggles targets)).toggle_counts
        ≡ (if requested name targets then some (toggles (texts_of name rows)) else none)
  counts_lem name targets rows = elim (Bool-cases (requested name targets)) [
    | inl known ↦
        let (counts, lasts) = no_toggles_lem name targets in
        rw known (
          count_rows_lem name rows (no_toggles targets) [] 0 (record {
            last_lem = lasts ∙ ap (λ b. if b then some [] else none) known;
            count_lem = counts ∙ ap (λ b. if b then some 0 else none) known;
          })
          ∙ ap some (omega (arith, toggles_start (texts_of name rows))))
    | inr unknown ↦
        let (counts, lasts) = no_toggles_lem name targets in
        rw unknown (
          count_rows-none name rows (no_toggles targets)
            (counts ∙ ap (λ b. if b then some 0 else none) unknown))
  ]
