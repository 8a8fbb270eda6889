-- ===== src/Query/Extract/Legacy/Answers.antt =====
-- src/lib.rs: what one answer of `TimeValueIter` says of the rows that are left.
use vcd_tools_rs.Prelude.{
  ℕ, ◌+◌, ◌*◌, ◌<◌, ◌≤◌, ◌≡◌, refl, ap, ◌∙◌, Bool, true, false, none, some, List, [], ◌∷◌, map,
  arith, if◌then◌else◌, Result, ok, err, length, nat_eq, Text,
}
use vcd_tools_rs.Prelude.Assoc.{lookup}
use vcd_tools_rs.Errors.{VcdError, QueryResult, into_vcd_error}
use vcd_tools_rs.Value.{ChangeValue, after_end}
use vcd_tools_rs.Vcd.{
  Item, Command, timestamp, VcdDisplay, command_to_change_value, vector_to_change_value,
}
use vcd_tools_rs.Query.Stream.{
  TargetSelection, TargetBinding, bindings, contains_id, selected_value,
  vector_to_change_value_selected,
}
use vcd_tools_rs.Query.Stream.Trace.{trace}
use vcd_tools_rs.Query.Extract.{TimeValue, pending_of, row_of}
use vcd_tools_rs.Query.Extract.Emission.{prepend_rows, rows_of}
use vcd_tools_rs.Query.Extract.Legacy.{
  TimeValueIter, LegacyOut, named_row, pop_pending, prepend_legacy,
}

abbrev pub names_of : TargetSelection → ℕ → List Text
names_of s id = map (λ b. b.name) (bindings s id)

-- The map of the path-based API and the selection of the engine want the same codes, under the same
-- names.
abbrev pub SameTargets : TargetSelection → List (ℕ × List Text) → Type 0
SameTargets s target_map =
    (id : ℕ) → lookup id target_map ≡ (if contains_id s id then some (names_of s id) else none)

-- The error of the engine as the path-based API reports it.
abbrev pub as_vcd : QueryResult (List TimeValue) → Result VcdError (List TimeValue)
as_vcd (ok vs) = ok vs
as_vcd (err e) = err (into_vcd_error e)

-- Both conversions of a command give the same value.
pub selected_value_lem :
    (d : VcdDisplay) (c : Command) → selected_value d c ≡ command_to_change_value d c
unfolding selected_value command_to_change_value vector_to_change_value
    vector_to_change_value_selected
selected_value_lem d (timestamp t) = refl
selected_value_lem d c = refl

module _ (d : VcdDisplay) (s : TargetSelection) where
  abbrev pub legacy_trace : TimeValueIter → QueryResult (List TimeValue)
  legacy_trace l = rows_of s (trace d s l.window l.current_time l.items)

  abbrev pub legacy_expected : TimeValueIter → Result VcdError (List TimeValue)
  legacy_expected l = as_vcd (prepend_rows l.pending (legacy_trace l))

  abbrev pub legacy_budget : TimeValueIter → ℕ
  legacy_budget l = length l.pending + length l.items * s.request_count

  pub record IsLegacyRunning (l : TimeValueIter) : Type 0 where
    pub not_finished : l.finished ≡ false
    pub not_past : after_end l.window l.current_time ≡ false
    pub same : SameTargets s l.target_map

  abbrev pub LegacyAnswers : TimeValueIter → LegacyOut → Type 0
  LegacyAnswers l (none, t) = legacy_expected l ≡ ok []
  LegacyAnswers l (some (ok v), t) =
      (legacy_expected l ≡ prepend_legacy d v (legacy_expected t))
      × IsLegacyRunning t
      × (legacy_budget t < legacy_budget l)
  LegacyAnswers l (some (err e), t) = legacy_expected l ≡ err e

  pub resume :
      (l m : TimeValueIter) (o : LegacyOut)
      → legacy_expected l ≡ legacy_expected m
      → legacy_budget m ≤ legacy_budget l
      → LegacyAnswers m o
      → LegacyAnswers l o
  resume l m (none, t) e b a = e ∙ a
  resume l m (some (ok v), t) e b a = (e ∙ a.0, a.1, omega arith)
  resume l m (some (err x), t) e b a = e ∙ a

  abbrev pub Goes : TimeValueIter → (TimeValueIter → LegacyOut) → Type 0
  Goes l k =
      (m : TimeValueIter)
      → m.items ≡ l.items
      → m.pending ≡ []
      → IsLegacyRunning m
      → LegacyAnswers m (k m)

  abbrev pub with_item : Item → TimeValueIter → TimeValueIter
  with_item item l = record l { items = item ∷ l.items }

  as_vcd-cons :
      (v : TimeValue) (vs : List TimeValue) (r : QueryResult (List TimeValue))
      → as_vcd (prepend_rows (v ∷ vs) r) ≡ prepend_legacy d v (as_vcd (prepend_rows vs r))
  as_vcd-cons v vs (ok ws) = refl
  as_vcd-cons v vs (err e) = refl

  -- Where rows wait, the first of them goes out.
  pub pop_answers :
      (v : TimeValue) (vs : List TimeValue) (k : TimeValueIter → LegacyOut) (l : TimeValueIter)
      → IsLegacyRunning l
      → LegacyAnswers (record l { pending = v ∷ vs }) (pop_pending (v ∷ vs) k l)
  unfolding pop_pending
  pop_answers v vs k l run = (
    as_vcd-cons v vs (legacy_trace l),
    record { not_finished = run.not_finished; not_past = run.not_past; same = run.same },
    omega arith,
  )

  pub names-expand :
      (time : ℕ) (value : ChangeValue) (id : ℕ) (bs : List TargetBinding)
      → map (named_row time value) (map (λ b. b.name) bs)
        ≡ map (λ b. row_of (pending_of (record { id_code = id; time = time; value = value }) b)) bs
  names-expand time value id [] = refl
  names-expand time value id (b ∷ bs) =
      ap (λ rest. named_row time value b.name ∷ rest) (names-expand time value id bs)

  pub timestamp_answers :
      (b : Bool) (t : ℕ) (k : TimeValueIter → LegacyOut) (l : TimeValueIter)
      → l.pending ≡ []
      → IsLegacyRunning l
      → Goes l k
      → after_end l.window t ≡ b
      → trace d s l.window l.current_time (ok (timestamp t) ∷ l.items)
        ≡ (if b then [] else trace d s l.window t l.items)
      → LegacyAnswers (with_item (ok (timestamp t)) l) (
          if b
          then (none, record l { current_time = t; finished = true })
          else k (record l { current_time = t }))
  unfolding rows_of
  timestamp_answers true t k l p run g a e = λ i. as_vcd (prepend_rows (p i) (rows_of s (e i)))
  timestamp_answers false t k l p run g a e =
      let m = record l { current_time = t } in
      resume (with_item (ok (timestamp t)) l) m (k m)
        (λ i. as_vcd (prepend_rows l.pending (rows_of s (e i)))) (omega arith)
        (g m refl p (record { not_finished = run.not_finished; not_past = a; same = run.same }))
