-- ===== src/Query/Extract/Legacy/Equivalence.antt =====
-- src/lib.rs, src/query/extract.rs: the iterator of the path-based API and that of the query engine
-- yield the same rows.
use mathlib.Core.Option
use vcd_tools_rs.Prelude.{
  ℕ, zero, suc, ◌*◌, ◌<◌, ◌≡◌, refl, sym, ap, ◌∙◌, false, none, some, List, [], ◌∷◌, arith,
  if◌then◌else◌, if_intro, ok, err, length, nat_eq, Text,
}
use vcd_tools_rs.Errors.{QueryResult}
use vcd_tools_rs.Value.{TimeWindow, after_end}
use vcd_tools_rs.Vcd.{Item, VcdDisplay}
use vcd_tools_rs.Query.Context.{World, QueryContext}
use vcd_tools_rs.Query.Stream.Checks.{Calm}
use vcd_tools_rs.Query.Extract.{new_iter, collect_rows}
use vcd_tools_rs.Query.Extract.Emission.{NoRowLimits}
use vcd_tools_rs.Query.Extract.Rows.{expected}
use vcd_tools_rs.Query.Extract.Collect.{drained, Collects, collect_rows-total}
use vcd_tools_rs.Query.Extract.Legacy.{new_legacy}
use vcd_tools_rs.Query.Stream.{new_stream, TargetSelection}
use vcd_tools_rs.Query.Stream.Selection.{IsSelection}
use vcd_tools_rs.Query.Extract.{TimeValue}
use vcd_tools_rs.Query.Extract.Emission.{prepend_rows}
use vcd_tools_rs.Query.Extract.Legacy.Rounds.{loop_answers}
use vcd_tools_rs.Query.Extract.Legacy.Answers.{
  SameTargets, as_vcd, legacy_trace, legacy_expected, legacy_budget, IsLegacyRunning, LegacyAnswers,
  resume, pop_answers,
}
use vcd_tools_rs.Query.Extract.Legacy.{
  TimeValueIter, LegacyOut, pop_pending, legacy_loop, legacy_next, prepend_legacy, collect_legacy,
}

module _ (d : VcdDisplay) (s : TargetSelection) where
  pending_answers :
      (ps : List TimeValue) (l : TimeValueIter)
      → IsSelection s
      → l.pending ≡ ps
      → IsLegacyRunning d s l
      → LegacyAnswers d s l
          (pop_pending ps (λ m. if m.finished then (none, m) else legacy_loop d m.items m) l)
  unfolding pop_pending
  pending_answers [] l sel p run =
      if_intro (LegacyAnswers d s l) l.finished (λ e. cc (run.not_finished))
        (λ _. loop_answers d s l.items l refl sel p run)
  pending_answers (v ∷ vs) l sel p run =
      resume d s l (record l { pending = v ∷ vs }) (some (ok v), record l { pending = vs })
        (λ i. as_vcd (prepend_rows (p i) (legacy_trace d s l))) (omega (arith, ap (length {0}) p))
        (unfold pop_pending in pop_answers d s v vs (λ m. (none, m)) l run)

  next_answers :
      (l : TimeValueIter)
      → IsSelection s
      → IsLegacyRunning d s l
      → LegacyAnswers d s l (legacy_next d l)
  unfolding legacy_next
  next_answers l sel run = pending_answers l.pending l sel refl run

  collect_round :
      (fuel : ℕ) (l : TimeValueIter) (o : LegacyOut)
      → ((t : TimeValueIter)
          → IsLegacyRunning d s t
          → legacy_budget d s t < fuel
          → collect_legacy d fuel t ≡ some (legacy_expected d s t))
      → legacy_budget d s l < suc fuel
      → LegacyAnswers d s l o
      → (let (r, t) = o in
          elim r [
            | none ↦ some (ok [])
            | some (err e) ↦ some (err e)
            | some (ok v) ↦ Option.map (prepend_legacy d v) (collect_legacy d fuel t)
          ])
        ≡ some (legacy_expected d s l)
  collect_round fuel l (none, t) ih h a = ap some (sym a)
  collect_round fuel l (some (err e), t) ih h a = ap some (sym a)
  collect_round fuel l (some (ok v), t) ih h a =
      ap (Option.map (prepend_legacy d v)) (ih t a.1 (omega arith)) ∙ ap some (sym a.0)

  -- Enough fuel: the collection of the path-based API is the rows of the body, or its parse error.
  pub collect_legacy_lem :
      (fuel : ℕ) (l : TimeValueIter)
      → IsSelection s
      → IsLegacyRunning d s l
      → legacy_budget d s l < fuel
      → collect_legacy d fuel l ≡ some (legacy_expected d s l)
  unfolding collect_legacy
  collect_legacy_lem zero l sel run h = absurd (omega arith)
  collect_legacy_lem (suc fuel) l sel run h =
      collect_round fuel l (legacy_next d l) (λ t r b. collect_legacy_lem fuel t sel r b) h
        (next_answers l sel run)

not_past_start : (window : TimeWindow) → after_end window 0 ≡ false
not_past_start window = ground arith

-- Where all is calm, rows are not limited, and both iterators want the same codes under the same
-- names, the iterator of the query engine and that of the path-based API collect the same rows from
-- the same body, in the same order, or report the same error. Fuel of one more than the number of
-- commands times the number of targets is enough for both.
pub collect_rows-eq-legacy :
    (w : World) (d : VcdDisplay) (c : QueryContext) (s : TargetSelection)
    (target_map : List (ℕ × List Text)) (window : TimeWindow) (items : List Item) (moment fuel : ℕ)
    → Calm w c
    → NoRowLimits c
    → IsSelection s
    → SameTargets s target_map
    → length items * s.request_count < fuel
    → (r : QueryResult (List TimeValue)) × (collect_rows w d fuel
          (new_iter (new_stream items s window c moment) c)
        ≡ some r)
      × (collect_legacy d fuel (new_legacy items target_map window) ≡ some (as_vcd r))
unfolding new_iter
collect_rows-eq-legacy w d c s target_map window items moment fuel calm free sel same h =
    let it = new_iter (new_stream items s window c moment) c in
    let (r, e, is) =
      collect_rows-total w d fuel it
        (record {
          not_terminated = refl;
          not_finished = refl;
          same_context = refl;
          selection = sel;
        })
        (omega arith) in
    let l = new_legacy items target_map window in
    (
      r,
      e,
      collect_legacy_lem d s fuel l sel
            (record { not_finished = refl; not_past = not_past_start window; same = same })
            (omega arith)
          ∙ ap (λ x. some (as_vcd x)) (agrees r is),
    )
  where
    agrees :
        (r : QueryResult (List TimeValue))
        → Collects w d
            (new_iter (new_stream items s window c moment) c)
            (drained w d fuel (new_iter (new_stream items s window c moment) c))
            r
        → expected w d (new_iter (new_stream items s window c moment) c) ≡ r
    agrees (ok vs) e = e.0
    agrees (err x) e = e calm free
