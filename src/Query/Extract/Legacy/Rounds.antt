-- ===== src/Query/Extract/Legacy/Rounds.antt =====
-- src/lib.rs: the rounds of the loop of `TimeValueIter`.
use mathlib.Core.Path.{subst}
use vcd_tools_rs.Prelude.{
  ℕ, ◌*◌, ◌<◌, ◌≤◌, ◌≡◌, refl, sym, ap, ◌∙◌, inl, inr, true, ◌&&◌, Option, none, some, List, [],
  ◌∷◌, ◌++◌, map, arith, if◌then◌else◌, ok, err, Bool-cases, length, length-map, nat_eq, Text,
}
use vcd_tools_rs.Prelude.Assoc.{lookup}
use vcd_tools_rs.Errors.{io, QueryError, QueryResult, into_vcd_error}
use vcd_tools_rs.Value.{ChangeValue, contains, after_end}
use vcd_tools_rs.Vcd.{Item, timestamp, VcdDisplay, command_to_change_value}
use vcd_tools_rs.Query.Stream.{
  TargetSelection, TargetBinding, SelectedChange, bindings, contains_id,
}
use vcd_tools_rs.Query.Stream.Selection.{IsSelection}
use vcd_tools_rs.Query.Stream.Trace.{trace}
use vcd_tools_rs.Query.Extract.{TimeValue, pending_of, row_of}
use vcd_tools_rs.Query.Extract.Emission.{expand, prepend_rows, rows_of}
use vcd_tools_rs.Query.Extract.Legacy.Answers.{
  names_of, as_vcd, selected_value_lem, legacy_trace, IsLegacyRunning, LegacyAnswers, resume, Goes,
  with_item, pop_answers, names-expand, timestamp_answers,
}
use vcd_tools_rs.Query.Extract.Legacy.{
  TimeValueIter, LegacyOut, named_row, pop_pending, wanted, legacy_round, legacy_loop,
}

module _ (d : VcdDisplay) (s : TargetSelection) where
  nil-prepend : (r : QueryResult (List TimeValue)) → prepend_rows [] r ≡ r
  nil-prepend (ok ws) = refl
  nil-prepend (err e) = refl

  -- What the loop has of a change that is wanted and in the window.
  queued_answers :
      (bs : List TargetBinding) (id : ℕ) (value : ChangeValue) (item : Item)
      (k : TimeValueIter → LegacyOut) (l : TimeValueIter)
      → bindings s id ≡ bs
      → 0 < length bs
      → length bs ≤ s.request_count
      → l.pending ≡ []
      → IsLegacyRunning d s l
      → trace d s l.window l.current_time (item ∷ l.items)
        ≡ ok (record { id_code = id; time = l.current_time; value = value })
          ∷ trace d s l.window l.current_time l.items
      → let pending = l.pending ++ map (named_row l.current_time value) (names_of s id) in
        LegacyAnswers d s
          (with_item d s item l)
          (pop_pending pending k (record l { pending = pending }))
  unfolding rows_of
  queued_answers [] id value item k l eb pos few p run e = absurd (omega arith)
  queued_answers (b ∷ bs) id value item k l eb pos few p run e =
      let c : SelectedChange = record { id_code = id; time = l.current_time; value = value } in
      let v = named_row l.current_time value b.name in
      let vs = map (named_row l.current_time value) (map (λ x. x.name) bs) in
      let waits : l.pending ++ map (named_row l.current_time value) (names_of s id) ≡ v ∷ vs =
        λ i. p i ++ map (named_row l.current_time value) (map (λ x. x.name) (eb i)) in
      let same : expand s c ≡ v ∷ vs =
        ap (map (λ x. row_of (pending_of c x))) eb
        ∙ sym (names-expand d s l.current_time value id (b ∷ bs)) in
      subst
        (λ q. LegacyAnswers d s (with_item d s item l) (pop_pending q k (record l { pending = q })))
        (sym waits)
        (resume d s (with_item d s item l) (record l { pending = v ∷ vs })
          (pop_pending (v ∷ vs) k (record l { pending = v ∷ vs }))
          ((λ i. as_vcd (prepend_rows (p i) (rows_of s (e i))))
            ∙ ap as_vcd (nil-prepend (prepend_rows (expand s c) (legacy_trace d s l)))
            ∙ (λ i. as_vcd (prepend_rows (same i) (legacy_trace d s l))))
          (omega (
            arith,
            length-map (named_row l.current_time value) (map (λ x. x.name) bs),
            length-map (λ (x : TargetBinding). x.name) bs,
          ))
          (pop_answers d s v vs k (record l { pending = v ∷ vs })
            (record { not_finished = run.not_finished; not_past = run.not_past; same = run.same })))

  skip_answers :
      (item : Item) (k : TimeValueIter → LegacyOut) (l : TimeValueIter)
      → l.pending ≡ []
      → IsLegacyRunning d s l
      → Goes d s l k
      → trace d s l.window l.current_time (item ∷ l.items)
        ≡ trace d s l.window l.current_time l.items
      → LegacyAnswers d s (with_item d s item l) (k l)
  skip_answers item k l p run g e =
      resume d s (with_item d s item l) l (k l)
        (λ i. as_vcd (prepend_rows l.pending (rows_of s (e i)))) (omega arith) (g l refl p run)

  -- The trace of a command with a value, as the decoder defines it.
  abbrev traced : ℕ → ChangeValue → TimeValueIter → List (QueryResult SelectedChange)
  traced id value l =
      if contains_id s id && contains l.window l.current_time
      then ok (record { id_code = id; time = l.current_time; value = value })
        ∷ trace d s l.window l.current_time l.items
      else trace d s l.window l.current_time l.items

  wanted_answers :
      (id : ℕ) (value : ChangeValue) (item : Item) (k : TimeValueIter → LegacyOut)
      (l : TimeValueIter)
      → IsSelection s
      → contains_id s id ≡ true
      → l.pending ≡ []
      → IsLegacyRunning d s l
      → Goes d s l k
      → trace d s l.window l.current_time (item ∷ l.items) ≡ traced id value l
      → LegacyAnswers d s (with_item d s item l) (wanted (names_of s id) value k l)
  unfolding wanted
  wanted_answers id value item k l sel c p run g e =
      elim (Bool-cases (contains l.window l.current_time)) [
        | inl i ↦ rw i (
            queued_answers (bindings s id) id value item k l refl (sel.bound id c) (sel.few id) p
              run (rw (c, i) at e))
        | inr o ↦ rw (o, run.not_past) (skip_answers item k l p run g (rw (c, o) at e))
      ]

  found_answers :
      (o : Option (List Text)) (id : ℕ) (value : ChangeValue) (item : Item)
      (k : TimeValueIter → LegacyOut) (l : TimeValueIter)
      → o ≡ (if contains_id s id then some (names_of s id) else none)
      → IsSelection s
      → l.pending ≡ []
      → IsLegacyRunning d s l
      → Goes d s l k
      → trace d s l.window l.current_time (item ∷ l.items) ≡ traced id value l
      → LegacyAnswers d s
          (with_item d s item l)
          (elim o [ none ↦ k l | some names ↦ wanted names value k l ])
  found_answers o id value item k l f sel p run g e = elim (Bool-cases (contains_id s id)) [
    | inl c ↦ rw (f, c) (wanted_answers id value item k l sel c p run g e)
    | inr c ↦ rw (f, c) (skip_answers item k l p run g (rw c at e))
  ]

  command_answers :
      (o : Option (ℕ × ChangeValue)) (item : Item) (k : TimeValueIter → LegacyOut)
      (l : TimeValueIter)
      → IsSelection s
      → l.pending ≡ []
      → IsLegacyRunning d s l
      → Goes d s l k
      → trace d s l.window l.current_time (item ∷ l.items) ≡ elim o [
        | none ↦ trace d s l.window l.current_time l.items
        | some (id, value) ↦ traced id value l
      ]
      → LegacyAnswers d s (with_item d s item l) (elim o [
        | none ↦ k l
        | some (id, value) ↦ elim (lookup id l.target_map) [
          | none ↦ k l
          | some names ↦ wanted names value k l
        ]
      ])
  command_answers none item k l sel p run g e = skip_answers item k l p run g e
  command_answers (some (id, value)) item k l sel p run g e =
      found_answers (lookup id l.target_map) id value item k l (run.same id) sel p run g e

  round_answers :
      (item : Item) (k : TimeValueIter → LegacyOut) (l : TimeValueIter)
      → IsSelection s
      → l.pending ≡ []
      → IsLegacyRunning d s l
      → Goes d s l k
      → LegacyAnswers d s (with_item d s item l) (legacy_round d item k l)
  unfolding legacy_round trace
  round_answers (err e) k l sel p run g =
      unfold rows_of into_vcd_error in
      (λ i. as_vcd (prepend_rows (p i) (rows_of s (err (QueryError.vcd (io e)) ∷ []))))
  round_answers (ok (timestamp t)) k l sel p run g =
      timestamp_answers d s (after_end l.window t) t k l p run g refl refl
  round_answers (ok command) k l sel p run g =
      command_answers (command_to_change_value d command) (ok command) k l sel p run g (
        ap
          (λ o. elim o [
            | none ↦ trace d s l.window l.current_time l.items
            | some (id, value) ↦ traced id value l
          ])
          (selected_value_lem d command))

  pub loop_answers :
      (items : List Item) (l : TimeValueIter)
      → l.items ≡ items
      → IsSelection s
      → l.pending ≡ []
      → IsLegacyRunning d s l
      → LegacyAnswers d s l (legacy_loop d items l)
  unfolding legacy_loop
  loop_answers [] l e sel p run =
      unfold rows_of trace in
      (λ i. as_vcd (prepend_rows (p i) (rows_of s (trace d s l.window l.current_time (e i)))))
  loop_answers (item ∷ rest) l e sel p run =
      let m = record l { items = rest } in
      resume d s l (with_item d s item m) (legacy_loop d (item ∷ rest) l)
        (λ i. as_vcd (prepend_rows l.pending (rows_of s (trace d s l.window l.current_time (e i)))))
        (omega (arith, ap (λ (x : List Item). length x * s.request_count) e))
        (round_answers item (legacy_loop d rest) m sel p
          (record { not_finished = run.not_finished; not_past = run.not_past; same = run.same })
          (λ x a b r. loop_answers rest x a sel b r))
