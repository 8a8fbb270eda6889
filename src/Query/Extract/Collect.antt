-- ===== src/Query/Extract/Collect.antt =====
-- src/query/extract.rs: the rows that `collect` gathers from the iterator.
use mathlib.Core.Option
use mathlib.Core.Path.{subst}
use vcd_tools_rs.Prelude.{
  ℕ, zero, suc, ◌<◌, ◌≡◌, refl, sym, ap, ◌∙◌, Option, none, some, List, [], ◌∷◌, arith, ok, err,
}
use vcd_tools_rs.Errors.{QueryResult}
use vcd_tools_rs.Vcd.{VcdDisplay}
use vcd_tools_rs.Query.Context.{World, QueryContext}
use vcd_tools_rs.Query.Stream.Checks.{Calm}
use vcd_tools_rs.Query.Stream.Passed.{Passes, Passes-le}
use vcd_tools_rs.Query.Extract.{
  TimeValue, OpenedTimeValueIter, RowOut, next_row, collect_rows, prepend_row,
}
use vcd_tools_rs.Query.Extract.Emission.{NoRowLimits, IsRunning}
use vcd_tools_rs.Query.Extract.Rows.{expected, budget, RowAnswers, next_row-RowAnswers}

module _ (w : World) (d : VcdDisplay) where
  -- The iterator behind the last round of a collection.
  unfoldable pub drained : ℕ → OpenedTimeValueIter → OpenedTimeValueIter
  drained zero it = it
  drained (suc fuel) it =
      let (r, t) = next_row w d it in
      elim r [ none ↦ t | some (err e) ↦ t | some (ok v) ↦ drained fuel t ]

  -- What a collection says of the iterator that it drained, and of the one behind it.
  abbrev pub Collects :
      OpenedTimeValueIter → OpenedTimeValueIter → QueryResult (List TimeValue) → Type 0
  Collects it u (ok vs) = (expected w d it ≡ ok vs) × Passes w it.stream.moment u.stream.moment
  Collects it u (err e) = Calm w it.context → NoRowLimits it.context → expected w d it ≡ err e

  abbrev Collected :
      OpenedTimeValueIter → OpenedTimeValueIter → Option (QueryResult (List TimeValue)) → Type 0
  Collected it u o = (r : QueryResult (List TimeValue)) × (o ≡ some r) × Collects it u r

  next_round :
      (v : TimeValue) (it t u : OpenedTimeValueIter) (o : Option (QueryResult (List TimeValue)))
      → RowAnswers w d it (some (ok v), t)
      → Collected t u o
      → Collected it u (Option.map (prepend_row v) o)
  next_round v it t u o a (ok vs, e, c) = (
    ok (v ∷ vs),
    rw e,
    (
      a.0 ∙ ap (prepend_row v) c.0,
      Passes-le w it.stream.moment t.stream.moment u.stream.moment a.4 c.1,
    ),
  )
  next_round v it t u o a (err x, e, c) = (
    err x,
    rw e,
    λ calm free.
        a.0
        ∙ ap (prepend_row v) (
            c (subst (λ (k : QueryContext). Calm w k) (sym a.2) calm)
              (subst NoRowLimits (sym a.2) free)),
  )

  round :
      (fuel : ℕ) (it : OpenedTimeValueIter) (o : RowOut)
      → ((t : OpenedTimeValueIter)
          → IsRunning t
          → budget w d t < fuel
          → Collected t (drained fuel t) (collect_rows w d fuel t))
      → budget w d it < suc fuel
      → RowAnswers w d it o
      → Collected it
          (let (r, t) = o in elim r [ none ↦ t | some (err e) ↦ t | some (ok v) ↦ drained fuel t ])
          (let (r, t) = o in
            elim r [
              | none ↦ some (ok [])
              | some (err e) ↦ some (err e)
              | some (ok v) ↦ Option.map (prepend_row v) (collect_rows w d fuel t)
            ])
  round fuel it (none, t) ih h a = (ok [], refl, a)
  round fuel it (some (err e), t) ih h a = (err e, refl, λ calm free. a.1 (calm, free))
  round fuel it (some (ok v), t) ih h a =
      next_round v it t (drained fuel t) (collect_rows w d fuel t) a (ih t a.1 (omega arith))

  -- A round for each row that may come, and one more, is enough fuel. A collection that succeeds has
  -- exactly the rows of the body, whatever the context, and its source was validated behind them. Where all is calm and rows are not limited,
  -- a collection fails only with the parse error of the body.
  pub collect_rows-total :
      (fuel : ℕ) (it : OpenedTimeValueIter)
      → IsRunning it
      → budget w d it < fuel
      → (r : QueryResult (List TimeValue)) × (collect_rows w d fuel it ≡ some r)
        × Collects it (drained fuel it) r
  unfolding collect_rows drained
  collect_rows-total zero it run h = absurd (omega arith)
  collect_rows-total (suc fuel) it run h =
      round fuel it (next_row w d it) (λ t r b. collect_rows-total fuel t r b) h
        (next_row-RowAnswers w d it run)
