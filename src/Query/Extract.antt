-- ===== src/Query/Extract.antt =====
-- src/query/extract.rs: the extraction iterator over the body decoder.
pub mod Emission
pub mod Rows
pub mod Collect
pub mod Promise
pub mod Opening
pub mod Legacy
use vcd_tools_rs.Prelude.{
  ℕ, zero, suc, ◌+◌, Bool, true, false, Option, none, some, List, [], ◌∷◌, ◌++◌, map, Text,
  byte_len, saturating_add, if◌then◌else◌, Result, ok, err,
}
use mathlib.Core.Option
use vcd_tools_rs.Errors.{
  QueryError, QueryResult, QueryLimitKind, limit_exceeded, rows, result_bytes,
}
use vcd_tools_rs.Value.{ChangeValue, TimeWindow}
use vcd_tools_rs.Vcd.{VcdDisplay}
use vcd_tools_rs.Query.Exec.{Exec, ◌>>=◌}
use vcd_tools_rs.Query.Context.{World, QueryContext, check_at, exceeded}
use vcd_tools_rs.Query.Opened.{OpenedVcd}
use vcd_tools_rs.Query.Stream
use vcd_tools_rs.Query.Stream.{
  TargetBinding, SelectedChange, SelectedChangeStream, bindings, selected_change_stream,
}

-- `TimeValue` of src/lib.rs.
pub record TimeValue : Type 0 where
  pub signal : Text
  pub time : ℕ
  pub value : ChangeValue

unfoldable pub logical_event_bytes : Text → ChangeValue → ℕ
logical_event_bytes signal (ChangeValue.integer i) =
    saturating_add (saturating_add (byte_len signal) 8) 16
logical_event_bytes signal (ChangeValue.float b) =
    saturating_add (saturating_add (byte_len signal) 8) 8
logical_event_bytes signal (ChangeValue.text t) =
    saturating_add (saturating_add (byte_len signal) 8) (byte_len t)

pub record PendingEvent : Type 0 where
  pub name : Text
  pub value : ChangeValue
  pub time : ℕ

pub record OpenedTimeValueIter : Type 0 where
  pub stream : SelectedChangeStream
  pub context : QueryContext
  pub pending : List PendingEvent
  pub rows : ℕ
  pub logical_bytes : ℕ
  pub terminated : Bool

abbrev pub RowOut : Type 0
RowOut = Option (QueryResult TimeValue) × OpenedTimeValueIter

abbrev pub pending_of : SelectedChange → TargetBinding → PendingEvent
pending_of change b = record { name = b.name; value = change.value; time = change.time }

unfoldable pub queue_change : SelectedChange → OpenedTimeValueIter → OpenedTimeValueIter
queue_change change it = record it {
  pending = it.pending ++ map (pending_of change) (bindings it.stream.selection change.id_code);
}

-- An error on the way out of `emit_pending`: terminated, with nothing pending.
unfoldable pub stop : QueryError → OpenedTimeValueIter → RowOut
stop e it = (some (err e), record it { terminated = true; pending = [] })

abbrev pub row_of : PendingEvent → TimeValue
row_of e = record { signal = e.name; time = e.time; value = e.value }

unfoldable pub emit_bytes : PendingEvent → ℕ → OpenedTimeValueIter → RowOut
emit_bytes event next_rows it =
    let next_bytes = saturating_add it.logical_bytes (logical_event_bytes event.name event.value) in
    elim (exceeded it.context.limits.max_result_bytes next_bytes) [
      | some limit ↦ stop (limit_exceeded result_bytes limit next_bytes) it
      | none ↦
          (some (ok (row_of event)), record it { rows = next_rows; logical_bytes = next_bytes })
    ]

unfoldable pub emit_row : PendingEvent → OpenedTimeValueIter → RowOut
emit_row event it =
    let next_rows = saturating_add it.rows 1 in
    elim (exceeded it.context.limits.max_rows next_rows) [
      | some limit ↦ stop (limit_exceeded QueryLimitKind.rows limit next_rows) it
      | none ↦ emit_bytes event next_rows it
    ]

-- The look at the surroundings moves the moment on; the moment is kept in the stream.
unfoldable pub later : OpenedTimeValueIter → OpenedTimeValueIter
later it = record it { stream = record it.stream { moment = suc it.stream.moment } }

module _ (w : World) where
  unfoldable pub emit_event : PendingEvent → OpenedTimeValueIter → RowOut
  emit_event event it = elim (check_at w it.context it.stream.moment) [
    | err e ↦ stop e (later it)
    | ok u ↦ emit_row event (later it)
  ]

  unfoldable pub emit_from : List PendingEvent → OpenedTimeValueIter → RowOut
  emit_from [] it = (none, it)
  emit_from (event ∷ rest) it = emit_event event (record it { pending = rest })

  -- `emit_pending`.
  unfoldable pub emit_pending : OpenedTimeValueIter → RowOut
  emit_pending it = emit_from it.pending it

-- One more row before what the rest of the collection returns.
abbrev pub prepend_row : TimeValue → QueryResult (List TimeValue) → QueryResult (List TimeValue)
prepend_row v (ok vs) = ok (v ∷ vs)
prepend_row v (err e) = err e

module _ (w : World) (d : VcdDisplay) where
  -- What the answer of the stream becomes.
  unfoldable pub on_stream : Stream.Out → OpenedTimeValueIter → RowOut
  on_stream (none, s) it = (none, record it { stream = s })
  on_stream (some (ok change), s) it =
      emit_pending w (queue_change change (record it { stream = s }))
  on_stream (some (err e), s) it = (some (err e), record it { stream = s; terminated = true })

  unfoldable pub next_row : OpenedTimeValueIter → RowOut
  next_row it =
      if it.terminated
      then (none, it)
      else (let (r, t) = emit_pending w it in
          elim r [ some v ↦ (some v, t) | none ↦ on_stream (Stream.next w d t.stream) t ])

  -- `collect::<QueryResult<Vec<_>>>()`: the first error ends it. `none` means that the fuel ran out.
  unfoldable pub collect_rows : ℕ → OpenedTimeValueIter → Option (QueryResult (List TimeValue))
  collect_rows zero it = none
  collect_rows (suc fuel) it =
      let (r, t) = next_row it in
      elim r [
        | none ↦ some (ok [])
        | some (err e) ↦ some (err e)
        | some (ok v) ↦ Option.map (prepend_row v) (collect_rows fuel t)
      ]

unfoldable pub new_iter : SelectedChangeStream → QueryContext → OpenedTimeValueIter
new_iter s context = record {
  stream = s;
  context = context;
  pending = [];
  rows = 0;
  logical_bytes = 0;
  terminated = false;
}

-- `OpenedVcd::extract`.
unfoldable pub extract :
    World → OpenedVcd → List Text → TimeWindow → QueryContext → Exec ℕ OpenedTimeValueIter
extract w o targets window context = do
  s ← selected_change_stream w o targets window context
  λ moment. (ok (new_iter s context), moment)
