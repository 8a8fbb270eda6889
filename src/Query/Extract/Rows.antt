-- ===== src/Query/Extract/Rows.antt =====
-- src/query/extract.rs: the iterator yields the rows of its body, in order.
use mathlib.Core.Path.{subst}
use vcd_tools_rs.Prelude.{
  ℕ, ◌+◌, ◌*◌, ◌<◌, ◌≤◌, ◌≡◌, refl, sym, ap, ◌∙◌, true, none, some, List, [], ◌∷◌, ◌++◌, map, arith,
  if_intro, ok, err, length, length-map,
}
use vcd_tools_rs.Errors.{QueryResult}
use vcd_tools_rs.Vcd.{VcdDisplay}
use vcd_tools_rs.Query.Context.{World, QueryContext}
use vcd_tools_rs.Query.Stream
use vcd_tools_rs.Query.Stream.{
  TargetSelection, TargetBinding, SelectedChange, SelectedChangeStream, bindings, contains_id, next,
}
use vcd_tools_rs.Query.Stream.Checks.{Calm}
use vcd_tools_rs.Query.Stream.Selection.{IsSelection}
use vcd_tools_rs.Query.Stream.Trace.{trace_of, Answers, next-Answers}
use vcd_tools_rs.Query.Stream.Passed.{Passes, Passes-le}
use vcd_tools_rs.Query.Extract.Emission.{
  expand, prepend_rows, rows_of, NoRowLimits, IsRunning, IsQuiet, Emits, emit_event-Emits,
}
use vcd_tools_rs.Query.Extract.{
  TimeValue, PendingEvent, OpenedTimeValueIter, RowOut, pending_of, row_of, queue_change,
  emit_event, emit_from, emit_pending, on_stream, next_row, prepend_row,
}

module _ (w : World) (d : VcdDisplay) where
  -- The rows that an iterator has still to yield, if nothing interferes.
  abbrev pub expected : OpenedTimeValueIter → QueryResult (List TimeValue)
  expected it =
      prepend_rows (map row_of it.pending) (rows_of it.stream.selection (trace_of w d it.stream))

  -- At most one row for each command and each target, behind those that wait.
  abbrev pub budget : OpenedTimeValueIter → ℕ
  budget it = length it.pending + length it.stream.items * it.stream.selection.request_count

  -- What an answer says of the iterator before and after it.
  abbrev pub RowAnswers : OpenedTimeValueIter → RowOut → Type 0
  RowAnswers it (none, t) = (expected it ≡ ok []) × Passes w it.stream.moment t.stream.moment
  RowAnswers it (some (ok v), t) =
      (expected it ≡ prepend_row v (expected t))
      × IsRunning t
      × (t.context ≡ it.context)
      × (budget t < budget it)
      × (it.stream.moment ≤ t.stream.moment)
  RowAnswers it (some (err e), t) = (t.terminated ≡ true) × (IsQuiet w it → expected it ≡ err e)

  prepend_rows-cons :
      (v : TimeValue) (vs : List TimeValue) (r : QueryResult (List TimeValue))
      → prepend_rows (v ∷ vs) r ≡ prepend_row v (prepend_rows vs r)
  prepend_rows-cons v vs (ok ws) = refl
  prepend_rows-cons v vs (err e) = refl

  abbrev rows_from : SelectedChangeStream → QueryResult (List TimeValue)
  rows_from s = rows_of s.selection (trace_of w d s)

  abbrev room : SelectedChangeStream → ℕ
  room s = length s.items * s.selection.request_count

  -- The first of the waiting events goes out; `it` is the iterator without it.
  emit_answers :
      (event : PendingEvent) (it : OpenedTimeValueIter) (o : RowOut)
      → IsRunning it
      → Emits w event it o
      → RowAnswers (record it { pending = event ∷ it.pending }) o
  emit_answers event it (none, t) run e = absurd e
  emit_answers event it (some (ok v), t) run e = (
    prepend_rows-cons (row_of event) (map row_of it.pending) (rows_from it.stream) ∙ (λ i.
        prepend_row (sym e.0 i) (prepend_rows (map row_of (sym e.1 i)) (rows_from (sym e.2 i)))),
    record {
      not_terminated = e.4 ∙ run.not_terminated;
      not_finished = ap (λ (x : SelectedChangeStream). x.finished) e.2 ∙ run.not_finished;
      same_context = ap (λ (x : SelectedChangeStream). x.context) e.2 ∙ run.same_context ∙ sym e.3;
      selection =
          subst IsSelection (sym (ap (λ (x : SelectedChangeStream). x.selection) e.2))
            run.selection;
    },
    e.3,
    omega (arith, ap (length {0}) e.1, ap room e.2),
    omega (arith, ap (λ (x : SelectedChangeStream). x.moment) e.2),
  )
  emit_answers event it (some (err x), t) run e = (e.0, λ q. absurd (e.1 q))

  -- An answer for an iterator with the same rows ahead is one for `it`.
  RowAnswers-resume :
      (it t : OpenedTimeValueIter) (o : RowOut)
      → expected it ≡ expected t
      → t.context ≡ it.context
      → budget t ≤ budget it
      → it.stream.moment ≤ t.stream.moment
      → RowAnswers t o
      → RowAnswers it o
  RowAnswers-resume it t (none, u) e c b m a =
      (e ∙ a.0, Passes-le w it.stream.moment t.stream.moment u.stream.moment m a.1)
  RowAnswers-resume it t (some (ok v), u) e c b m a =
      (e ∙ a.0, a.1, a.2 ∙ c, omega (arith, a.3), omega (arith, a.4))
  RowAnswers-resume it t (some (err x), u) e c b m a =
      (a.0, λ q. e ∙ a.1 (subst (λ (k : QueryContext). Calm w k × NoRowLimits k) (sym c) q))

  emit_from_answers :
      (event : PendingEvent) (rest : List PendingEvent) (it : OpenedTimeValueIter)
      → IsRunning it
      → it.pending ≡ event ∷ rest
      → RowAnswers it (emit_from w (event ∷ rest) it)
  unfolding emit_from
  emit_from_answers event rest it run e =
      let t = record it { pending = rest } in
      RowAnswers-resume it (record it { pending = event ∷ rest }) (emit_event w event t)
        (ap (λ p. prepend_rows (map row_of p) (rows_from it.stream)) e) refl
        (omega (arith, ap (length {0}) e)) (omega arith)
        (emit_answers event t (emit_event w event t)
          (record {
            not_terminated = run.not_terminated;
            not_finished = run.not_finished;
            same_context = run.same_context;
            selection = run.selection;
          })
          (emit_event-Emits w event t))

  pub prepend_rows-nil : (r : QueryResult (List TimeValue)) → prepend_rows [] r ≡ r
  prepend_rows-nil (ok ws) = refl
  prepend_rows-nil (err e) = refl

  room_for_change : (n m b r : ℕ) → n < m → b ≤ r → b + n * r ≤ m * r
  room_for_change n m b r h k = grind arith

  map-pending_of :
      (c : SelectedChange) (bs : List TargetBinding)
      → map row_of (map (pending_of c) bs) ≡ map (λ b. row_of (pending_of c b)) bs
  map-pending_of c [] = refl
  map-pending_of c (b ∷ bs) = ap (λ rest. row_of (pending_of c b) ∷ rest) (map-pending_of c bs)

  -- A change fetched from the stream, with the targets that are bound to it.
  change_answers :
      (bs : List TargetBinding) (c : SelectedChange) (s : SelectedChangeStream)
      (it : OpenedTimeValueIter)
      → bindings s.selection c.id_code ≡ bs
      → 0 < length bs
      → IsRunning (record it { stream = s })
      → it.pending ≡ []
      → rows_from it.stream ≡ prepend_rows (expand s.selection c) (rows_from s)
      → length bs + room s ≤ room it.stream
      → it.stream.moment ≤ s.moment
      → RowAnswers it (emit_pending w (queue_change c (record it { stream = s })))
  unfolding emit_pending queue_change
  change_answers [] c s it eb p run e r b m = absurd (omega arith)
  change_answers (t ∷ bs) c s it eb p run e r b m =
      let q = queue_change c (record it { stream = s }) in
      let waits : q.pending ≡ pending_of c t ∷ map (pending_of c) bs =
        λ i. e i ++ map (pending_of c) (eb i) in
      RowAnswers-resume it q (emit_pending w q)
        ((λ i. prepend_rows (map row_of (e i)) (rows_from it.stream))
          ∙ prepend_rows-nil (rows_from it.stream)
          ∙ r
          ∙ (λ i.
              prepend_rows (sym (map-pending_of c (bindings s.selection c.id_code)) i)
                (rows_from s))
          ∙ (λ i.
              prepend_rows
                (map row_of (sym e i ++ map (pending_of c) (bindings s.selection c.id_code)))
                (rows_from s)))
        refl (omega (arith, ap (length {0}) waits, ap (length {0}) e, length-map (pending_of c) bs))
        m
        (subst (λ ps. RowAnswers q (emit_from w ps q)) (sym waits)
          (emit_from_answers (pending_of c t) (map (pending_of c) bs) q
            (record {
              not_terminated = run.not_terminated;
              not_finished = run.not_finished;
              same_context = run.same_context;
              selection = run.selection;
            })
            waits))

  on_stream-Answers :
      (o : Stream.Out) (it : OpenedTimeValueIter)
      → IsRunning it
      → it.pending ≡ []
      → Answers w d it.stream o
      → RowAnswers it (on_stream w d o it)
  unfolding on_stream rows_of
  on_stream-Answers (none, s) it run e a =
      ((λ i. prepend_rows (map row_of (e i)) (rows_of it.stream.selection (a.0 i))), a.3)
  on_stream-Answers (some (ok c), s) it run e a =
      let same : s.selection ≡ it.stream.selection = a.1 in
      let sel : IsSelection s.selection = subst IsSelection (sym same) run.selection in
      change_answers (bindings s.selection c.id_code) c s it refl
        (sel.bound c.id_code
          (subst (λ (x : TargetSelection). contains_id x c.id_code ≡ true) (sym same) a.5))
        (record {
          not_terminated = run.not_terminated;
          not_finished = a.4;
          same_context = a.3 ∙ run.same_context;
          selection = sel;
        })
        e
        ((λ i. rows_of it.stream.selection (a.0 i))
          ∙ (λ i. prepend_rows (expand (sym same i) c) (rows_of (sym same i) (trace_of w d s))))
        (omega (
          arith,
          room_for_change (length s.items) (length it.stream.items)
              (length (bindings s.selection c.id_code)) s.selection.request_count a.6
              (sel.few c.id_code),
          ap (λ (x : TargetSelection). length it.stream.items * x.request_count) same,
        ))
        a.7
  on_stream-Answers (some (err x), s) it run e a = (
    refl,
    λ q. λ i. prepend_rows (map row_of (e i)) (
        rows_of it.stream.selection
          (a.1 (subst (λ (k : QueryContext). Calm w k) (sym run.same_context) q.0) i)),
  )

  -- An event that goes out is the answer; the stream is not asked.
  emitted :
      (event : PendingEvent) (it t : OpenedTimeValueIter) (o : RowOut)
      → Emits w event t o
      → RowAnswers it o
      → RowAnswers it (
          let (r, u) = o in
          elim r [ some v ↦ (some v, u) | none ↦ on_stream w d (next w d u.stream) u ])
  emitted event it t (none, u) e a = absurd e
  emitted event it t (some v, u) e a = a

  after_pending :
      (ps : List PendingEvent) (it : OpenedTimeValueIter)
      → IsRunning it
      → it.pending ≡ ps
      → RowAnswers it (
          let (r, u) = emit_from w ps it in
          elim r [ some v ↦ (some v, u) | none ↦ on_stream w d (next w d u.stream) u ])
  unfolding emit_from
  after_pending [] it run e =
      on_stream-Answers (next w d it.stream) it run e (next-Answers w d it.stream run.not_finished)
  after_pending (event ∷ rest) it run e =
      let t = record it { pending = rest } in
      emitted event it t (emit_event w event t) (emit_event-Emits w event t)
        (emit_from_answers event rest it run e)

  -- An answer of a running iterator is the next of its rows. No answer means that none is left; a
  -- row is the next one, and the iterator has the others; an error terminates the iterator, and
  -- where all is calm and rows are not limited it stands for a parse error of the body.
  pub next_row-RowAnswers :
      (it : OpenedTimeValueIter) → IsRunning it → RowAnswers it (next_row w d it)
  unfolding next_row emit_pending
  next_row-RowAnswers it run =
      if_intro (RowAnswers it) it.terminated (λ e. cc (run.not_terminated))
        (λ _. after_pending it.pending it run refl)
