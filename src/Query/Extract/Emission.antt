-- ===== src/Query/Extract/Emission.antt =====
-- src/query/extract.rs: the emission of one waiting event, with its checks.
use vcd_tools_rs.Prelude.{
  ℕ, suc, ◌≡◌, refl, true, false, Option, none, some, List, [], ◌∷◌, ◌++◌, map, ok, err,
}
use vcd_tools_rs.Errors.{QueryResult, QueryLimitKind, limit_exceeded, result_bytes}
use vcd_tools_rs.Query.Context.{World, QueryContext, exceeded}
use vcd_tools_rs.Query.Stream.{TargetSelection, SelectedChange, bindings}
use vcd_tools_rs.Query.Stream.Selection.{IsSelection}
use vcd_tools_rs.Query.Stream.Checks.{Calm}
use vcd_tools_rs.Query.Extract.{
  TimeValue, PendingEvent, OpenedTimeValueIter, RowOut, pending_of, row_of, stop, emit_bytes,
  emit_row, later, emit_event,
}

-- The rows of one change: one for each target bound to its code, in the order of the request.
abbrev pub expand : TargetSelection → SelectedChange → List TimeValue
expand selection change =
    map (λ b. row_of (pending_of change b)) (bindings selection change.id_code)

abbrev pub prepend_rows :
    List TimeValue → QueryResult (List TimeValue) → QueryResult (List TimeValue)
prepend_rows vs (ok ws) = ok (vs ++ ws)
prepend_rows vs (err e) = err e

-- The rows of a trace, or its error.
unfoldable pub rows_of :
    TargetSelection → List (QueryResult SelectedChange) → QueryResult (List TimeValue)
rows_of selection [] = ok []
rows_of selection (err e ∷ rest) = err e
rows_of selection (ok change ∷ rest) =
    prepend_rows (expand selection change) (rows_of selection rest)

pub record NoRowLimits (c : QueryContext) : Type 0 where
  pub no_max_rows : c.limits.max_rows ≡ none
  pub no_max_result_bytes : c.limits.max_result_bytes ≡ none

pub record IsRunning (it : OpenedTimeValueIter) : Type 0 where
  pub not_terminated : it.terminated ≡ false
  pub not_finished : it.stream.finished ≡ false
  pub same_context : it.stream.context ≡ it.context
  pub selection : IsSelection it.stream.selection

module _ (w : World) where
  abbrev pub IsQuiet : OpenedTimeValueIter → Type 0
  IsQuiet it = Calm w it.context × NoRowLimits it.context

  -- What an emission of `event` says.
  abbrev pub Emits : PendingEvent → OpenedTimeValueIter → RowOut → Type 0
  Emits event it (none, t) = ⊥
  Emits event it (some (ok v), t) =
      (v ≡ row_of event)
      × (t.pending ≡ it.pending)
      × (t.stream ≡ record it.stream { moment = suc it.stream.moment })
      × (t.context ≡ it.context)
      × (t.terminated ≡ it.terminated)
  Emits event it (some (err e), t) = (t.terminated ≡ true) × (IsQuiet it → ⊥)

  exceeded-none : (limit : Option ℕ) (n : ℕ) → limit ≡ none → exceeded limit n ≡ none
  unfolding exceeded
  exceeded-none none n e = refl
  exceeded-none (some l) n e = cc

  emit_bytes_step :
      (o : Option ℕ) (n m : ℕ) (event : PendingEvent) (it : OpenedTimeValueIter)
      → (IsQuiet it → o ≡ none)
      → Emits event it (elim o [
        | some limit ↦ stop (limit_exceeded result_bytes limit m) (later it)
        | none ↦ (some (ok (row_of event)), record (later it) { rows = n; logical_bytes = m })
      ])
  unfolding stop later
  emit_bytes_step none n m event it h = (refl, refl, refl, refl, refl)
  emit_bytes_step (some l) n m event it h = (refl, λ q. cc (h q))

  emit_bytes-Emits :
      (n : ℕ) (event : PendingEvent) (it : OpenedTimeValueIter)
      → Emits event it (emit_bytes event n (later it))
  unfolding emit_bytes later
  emit_bytes-Emits n event it =
      emit_bytes_step _ n _ event it (λ q. exceeded-none _ _ q.1.no_max_result_bytes)

  emit_row_step :
      (o : Option ℕ) (n : ℕ) (event : PendingEvent) (it : OpenedTimeValueIter)
      → (IsQuiet it → o ≡ none)
      → Emits event it (elim o [
        | some limit ↦ stop (limit_exceeded QueryLimitKind.rows limit n) (later it)
        | none ↦ emit_bytes event n (later it)
      ])
  unfolding stop
  emit_row_step none n event it h = emit_bytes-Emits n event it
  emit_row_step (some l) n event it h = (refl, λ q. cc (h q))

  emit_event_step :
      (r : QueryResult (Unit {0})) (event : PendingEvent) (it : OpenedTimeValueIter)
      → (IsQuiet it → r ≡ ok tt)
      → Emits event it (elim r [ err e ↦ stop e (later it) | ok u ↦ emit_row event (later it) ])
  unfolding stop emit_row later
  emit_event_step (ok u) event it h =
      emit_row_step _ _ event it (λ q. exceeded-none _ _ q.1.no_max_rows)
  emit_event_step (err e) event it h = (refl, λ q. cc (h q))

  pub emit_event-Emits :
      (event : PendingEvent) (it : OpenedTimeValueIter) → Emits event it (emit_event w event it)
  unfolding emit_event
  emit_event-Emits event it = emit_event_step _ event it (λ q. q.0.checks it.stream.moment)
