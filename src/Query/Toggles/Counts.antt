-- ===== src/Query/Toggles/Counts.antt =====
-- src/query/ops.rs: the toggles are counted over all rows of the window.
use mathlib.Core.Option
use vcd_tools_rs.Prelude.{
  ℕ, zero, suc, if◌then◌else◌, ◌*◌, ◌<◌, ◌≡◌, refl, ap, ◌∙◌, Option, none, some, List, [], Text,
  length, ok, err,
}
use vcd_tools_rs.Errors.{QueryResult}
use vcd_tools_rs.Value.{Formats, TimeWindow}
use vcd_tools_rs.Vcd.{VcdDisplay}
use vcd_tools_rs.Query.Context.{World, QueryContext, check_signal_count}
use vcd_tools_rs.Query.Opened.{OpenedVcd}
use vcd_tools_rs.Query.Stream.Checks.{Calm}
use vcd_tools_rs.Query.Stream.Selection.{missing_of, bind-ok}
use vcd_tools_rs.Query.Extract.{
  TimeValue, OpenedTimeValueIter, RowOut, next_row, collect_rows, extract, prepend_row,
}
use vcd_tools_rs.Query.Extract.Emission.{NoRowLimits}
use vcd_tools_rs.Query.Extract.Promise.{query_rows, collect_rows-extract}
use vcd_tools_rs.Query.Extract.Opening.{extract-known, check_signal_count-calm}
use vcd_tools_rs.Prelude.Keys.{text_eq}
use vcd_tools_rs.Prelude.Assoc.{lookup}
use vcd_tools_rs.Query.Toggles.{
  Toggles, no_toggles, count_event, toggles_loop, counts_of, count_extracted, count_toggles,
}
use vcd_tools_rs.Query.Toggles.Texts.{count_rows, toggles, texts_of, requested, counts_lem}

module _ (f : Formats) (o : OpenedVcd) (w : World) (d : VcdDisplay) where
  abbrev counted : Toggles → QueryResult (List TimeValue) → QueryResult Toggles
  counted t (ok rows) = ok (count_rows f o rows t)
  counted t (err e) = err e

  counted-prepend :
      (v : TimeValue) (t : Toggles) (r : Option (QueryResult (List TimeValue)))
      → Option.map (counted (count_event f o v t)) r
        ≡ Option.map (counted t) (Option.map (prepend_row v) r)
  unfolding count_rows
  counted-prepend v t none = refl
  counted-prepend v t (some (ok rows)) = refl
  counted-prepend v t (some (err e)) = refl

  round :
      (fuel : ℕ) (t : Toggles) (out : RowOut)
      → ((s : Toggles) (u : OpenedTimeValueIter)
          → toggles_loop f o w d fuel s u ≡ Option.map (counted s) (collect_rows w d fuel u))
      → (let (r, u) = out in
          elim r [
            | none ↦ some (ok t)
            | some (err e) ↦ some (err e)
            | some (ok event) ↦ toggles_loop f o w d fuel (count_event f o event t) u
          ])
        ≡ Option.map (counted t) (
            let (r, u) = out in
            elim r [
              | none ↦ some (ok [])
              | some (err e) ↦ some (err e)
              | some (ok v) ↦ Option.map (prepend_row v) (collect_rows w d fuel u)
            ])
  unfolding count_rows
  round fuel t (none, u) ih = refl
  round fuel t (some (err e), u) ih = refl
  round fuel t (some (ok v), u) ih =
      ih (count_event f o v t) u ∙ counted-prepend v t (collect_rows w d fuel u)

  -- The loop counts over what a collection gathers.
  toggles_loop_lem :
      (fuel : ℕ) (t : Toggles) (it : OpenedTimeValueIter)
      → toggles_loop f o w d fuel t it ≡ Option.map (counted t) (collect_rows w d fuel it)
  unfolding toggles_loop collect_rows
  toggles_loop_lem zero t it = refl
  toggles_loop_lem (suc fuel) t it =
      round fuel t (next_row w d it) (λ s u. toggles_loop_lem fuel s u)

  counted_over :
      (targets : List Text) (window : TimeWindow) (c : QueryContext) (fuel moment : ℕ)
      (rows : List TimeValue)
      → Calm w c
      → NoRowLimits c
      → c.limits.max_signals ≡ none
      → missing_of o targets ≡ []
      → length o.body * length targets < fuel
      → query_rows d o targets window 0 o.body ≡ ok rows
      → count_toggles f o w d fuel targets window c moment
        ≡ some (ok (count_rows f o rows (no_toggles targets)).toggle_counts)
  unfolding count_toggles count_extracted
  counted_over targets window c fuel moment rows calm free unlimited known enough e =
      let next = (check_signal_count w c (length targets) moment).1 in
      let (it, got) = extract-known w o targets window c calm next unlimited known in
      ap (count_extracted f o w d fuel targets) (
        bind-ok (check_signal_count w c (length targets)) (λ _. extract w o targets window c) moment
          (check_signal_count-calm w o targets window c calm (length targets) moment unlimited)
        ∙ got)
      ∙ ap (Option.map (counts_of f o w d)) (
          toggles_loop_lem fuel (no_toggles targets) it
          ∙ ap (Option.map (counted (no_toggles targets))) (
              collect_rows-extract w o targets window c d next fuel it got calm free enough
              ∙ ap some e))

  -- Where all is calm, rows and signals are not limited, every target is known and the body parses:
  -- the answer has a count for each requested name and for no other, and the count is the number
  -- of neighbours that differ among the formatted values of the name's rows in the window, in
  -- order, where the first of them is not empty.
  pub count_toggles_lem :
      (targets : List Text) (window : TimeWindow) (c : QueryContext) (fuel moment : ℕ)
      (rows : List TimeValue)
      → Calm w c
      → NoRowLimits c
      → c.limits.max_signals ≡ none
      → missing_of o targets ≡ []
      → length o.body * length targets < fuel
      → query_rows d o targets window 0 o.body ≡ ok rows
      → (counts : List (Text × ℕ)) × (count_toggles f o w d fuel targets window c moment
          ≡ some (ok counts))
        × ((name : Text)
            → lookup name counts
              ≡ (if requested name targets then some (toggles (texts_of f o name rows)) else none))
  count_toggles_lem targets window c fuel moment rows calm free unlimited known enough e = (
    (count_rows f o rows (no_toggles targets)).toggle_counts,
    counted_over targets window c fuel moment rows calm free unlimited known enough e,
    λ name. counts_lem f o name targets rows,
  )
