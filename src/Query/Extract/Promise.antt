-- ===== src/Query/Extract/Promise.antt =====
-- src/opened/mod.rs `OpenedVcd::extract`, src/query/extract.rs: what a query answers, said without
-- the selection, the iterator or the stream.
use mathlib.Core.Path.{subst}
use vcd_tools_rs.Prelude.{
  ℕ, suc, ◌*◌, ◌<◌, ◌≤◌, ◌≡◌, refl, sym, ap, ◌∙◌, inl, inr, false, ◌&&◌, Option, none, some, List,
  [], ◌∷◌, map, arith, if◌then◌else◌, ok, err, Bool-cases, length, nat_eq, Text,
}
use vcd_tools_rs.Prelude.Assoc.{entries-absent}
use vcd_tools_rs.Errors.{QueryError, QueryResult, io}
use vcd_tools_rs.Value.{ChangeValue, TimeWindow, contains, after_end}
use vcd_tools_rs.Vcd.{Item, timestamp, VcdDisplay}
use vcd_tools_rs.Query.Context.{World, QueryContext, check}
use vcd_tools_rs.Query.Opened.{OpenedVcd}
use vcd_tools_rs.Query.Stream.Checks.{Calm}
use vcd_tools_rs.Query.Stream.Passed.{Passes}
use vcd_tools_rs.Query.Stream.{
  TargetSelection, TargetBinding, SelectedChange, bindings, contains_id, selected_value, new_stream,
  resolve, selected_change_stream, validated,
}
use vcd_tools_rs.Query.Stream.Selection.{IsSelection, bound, missing_of, bind-eq-ok, resolve_lem}
use vcd_tools_rs.Query.Stream.Trace.{trace}
use vcd_tools_rs.Query.Extract.{TimeValue, OpenedTimeValueIter, new_iter, extract, collect_rows}
use vcd_tools_rs.Query.Extract.Emission.{expand, prepend_rows, rows_of, NoRowLimits, IsRunning}
use vcd_tools_rs.Query.Extract.Rows.{expected, budget, prepend_rows-nil}
use vcd_tools_rs.Query.Extract.Collect.{drained, Collects, collect_rows-total}

abbrev row_at : ℕ → ChangeValue → TargetBinding → TimeValue
row_at time value b = record { signal = b.name; time = time; value = value }

module _ (d : VcdDisplay) (o : OpenedVcd) (targets : List Text) (window : TimeWindow) where
  -- The rows of a change: one for each requested target with its code, in the order of the request.
  unfoldable pub change_rows : ℕ → ℕ → ChangeValue → List TimeValue
  change_rows time id value = map (row_at time value) (bound o id 0 targets)

  -- The rows of a body from a time on.
  unfoldable pub query_rows : ℕ → List Item → QueryResult (List TimeValue)
  query_rows time [] = ok []
  query_rows time (err e ∷ rest) = err (QueryError.vcd (io e))
  query_rows time (ok (timestamp t) ∷ rest) =
      let later = query_rows t rest in if after_end window t then ok [] else later
  query_rows time (ok command ∷ rest) =
      let later = query_rows time rest in
      elim (selected_value d command) [
        | none ↦ later
        | some (id, value) ↦
            if contains window time then prepend_rows (change_rows time id value) later else later
      ]

  module _ (s : TargetSelection) (sel : IsSelection s)
      (same : (id : ℕ) → bindings s id ≡ bound o id 0 targets) where
    expand_lem :
        (time id : ℕ) (value : ChangeValue)
        → expand s (record { id_code = id; time = time; value = value }) ≡ change_rows time id value
    unfolding change_rows
    expand_lem time id value = ap (map (row_at time value)) (same id)

    unselected :
        (time id : ℕ) (value : ChangeValue) (r : QueryResult (List TimeValue))
        → contains_id s id ≡ false
        → prepend_rows (change_rows time id value) r ≡ r
    unfolding change_rows contains_id bindings
    unselected time id value r h =
        ap (λ bs. prepend_rows (map (row_at time value) bs) r)
          (sym (same id) ∙ entries-absent id s.by_id h)
        ∙ keep_rows r
      where
        keep_rows : (r : QueryResult (List TimeValue)) → prepend_rows [] r ≡ r
        keep_rows (ok ws) = refl
        keep_rows (err e) = refl

    abbrev selected_event :
        ℕ
        → Option (ℕ × ChangeValue)
        → List (QueryResult SelectedChange)
        → List (QueryResult SelectedChange)
    selected_event time none later = later
    selected_event time (some (id, value)) later =
        if contains_id s id && contains window time
        then ok (record { id_code = id; time = time; value = value }) ∷ later
        else later

    abbrev command_rows :
        ℕ → Option (ℕ × ChangeValue) → QueryResult (List TimeValue) → QueryResult (List TimeValue)
    command_rows time none later = later
    command_rows time (some (id, value)) later =
        if contains window time then prepend_rows (change_rows time id value) later else later

    command_rows_lem :
        (time : ℕ) (c : Option (ℕ × ChangeValue)) (later : List (QueryResult SelectedChange))
        → rows_of s (selected_event time c later) ≡ command_rows time c (rows_of s later)
    unfolding rows_of
    command_rows_lem time none later = refl
    command_rows_lem time (some (id, value)) later = elim (Bool-cases (contains window time)) [
      | inl i ↦ elim (Bool-cases (contains_id s id)) [
        | inl c ↦
            rw (c, i) (ap (λ rows. prepend_rows rows (rows_of s later)) (expand_lem time id value))
        | inr c ↦ rw (c, i) (sym (unselected time id value (rows_of s later) c))
      ]
      | inr i ↦ elim (Bool-cases (contains_id s id)) [
        | inl c ↦ rw (c, i) refl
        | inr c ↦ rw (c, i) refl
      ]
    ]

    query_rows_lem :
        (time : ℕ) (items : List Item)
        → rows_of s (trace d s window time items) ≡ query_rows time items
    unfolding rows_of trace query_rows selected_value
    query_rows_lem time [] = refl
    query_rows_lem time (err e ∷ rest) = refl
    query_rows_lem time (ok (timestamp t) ∷ rest) = ground (arith, query_rows_lem t rest)
    query_rows_lem time (ok command ∷ rest) =
        command_rows_lem time (selected_value d command) (trace d s window time rest)
        ∙ ap (command_rows time (selected_value d command)) (query_rows_lem time rest)

module _ (w : World) (o : OpenedVcd) (targets : List Text) (window : TimeWindow)
    (c : QueryContext) where
  -- What an extraction that succeeds hands out.
  pub record Extracts (it : OpenedTimeValueIter) : Type 0 where
    selection : TargetSelection
    start : ℕ
    pub is_new : it ≡ new_iter (new_stream o.body selection window c start) c
    all_known : missing_of o targets ≡ []
    bindings_are : (id : ℕ) → bindings selection id ≡ bound o id 0 targets
    well_formed : IsSelection selection
    requested : selection.request_count ≡ length targets

  ok_eq : {A : Type 0} {a b : A} → Path (QueryResult A) (ok a) (ok b) → a ≡ b
  ok_eq h = cc

  pub extract-Extracts :
      (moment : ℕ) (it : OpenedTimeValueIter)
      → (extract w o targets window c moment).0 ≡ ok it
      → Extracts it
  unfolding extract selected_change_stream
  extract-Extracts moment it h =
      let (s, e, f) = bind-eq-ok (selected_change_stream w o targets window c) _ moment h in
      let (u, e1, f1) = bind-eq-ok (check w c) _ moment e in
      let (sel, e2, f2) = bind-eq-ok (resolve w o c targets) _ _ f1 in
      let (v, e3, f3) = bind-eq-ok (check w c) _ _ f2 in
      let (x, e4, f4) = bind-eq-ok (λ (m : ℕ). (validated (w.validate m), suc m)) _ _ f3 in
      let (m, b, wf, n) = resolve_lem w o c targets sel _ e2 in
      record {
        selection = sel;
        start = _;
        is_new = sym (ok_eq f) ∙ ap (λ x. new_iter x c) (sym (ok_eq f4));
        all_known = m;
        bindings_are = b;
        well_formed = wf;
        requested = n;
      }

  pub Extracts-IsRunning : (it : OpenedTimeValueIter) → Extracts it → IsRunning it
  unfolding new_iter
  Extracts-IsRunning it x = subst IsRunning (sym x.is_new) (record {
    not_terminated = refl;
    not_finished = refl;
    same_context = refl;
    selection = x.well_formed;
  })

  module _ (d : VcdDisplay) where
    pub expected-Extracts :
        (it : OpenedTimeValueIter)
        → Extracts it
        → expected w d it ≡ query_rows d o targets window 0 o.body
    unfolding new_iter
    expected-Extracts it x =
        ap (expected w d) x.is_new
        ∙ prepend_rows-nil w d _
        ∙ query_rows_lem d o targets window x.selection x.well_formed x.bindings_are 0 o.body

    pub budget-Extracts :
        (it : OpenedTimeValueIter) → Extracts it → budget w d it ≡ length o.body * length targets
    unfolding new_iter
    budget-Extracts it x =
        omega (arith, ap (budget w d) x.is_new, ap (λ n. length o.body * n) x.requested)

    -- An extraction whose iterator was handed out, whatever the context: its collection ends, with
    -- rows or with an error, within one round more than commands times targets.
    pub collect_rows-extract_terminates :
        (moment fuel : ℕ) (it : OpenedTimeValueIter)
        → (extract w o targets window c moment).0 ≡ ok it
        → length o.body * length targets < fuel
        → (r : QueryResult (List TimeValue)) × (collect_rows w d fuel it ≡ some r)
    collect_rows-extract_terminates moment fuel it h enough =
        let x = extract-Extracts moment it h in
        let (r, e, k) =
          collect_rows-total w d fuel it (Extracts-IsRunning it x)
            (omega (arith, budget-Extracts it x)) in
        (r, e)

    -- Whatever the context does, and however the file changes while it is read: an extraction
    -- whose rows are collected with success has validated its source with success behind all that
    -- it read, at its last look but one; all its targets are known; and where that validation
    -- succeeds only if the parser has read the body of the opened generation, the rows are all the
    -- rows of that generation in the window for the requested targets, in order.
    pub collect_rows-extract_sound :
        (moment fuel : ℕ) (it : OpenedTimeValueIter) (rows : List TimeValue)
        (generation : List Item)
        → (extract w o targets window c moment).0 ≡ ok it
        → length o.body * length targets < fuel
        → ((n : ℕ)
            → it.stream.moment ≤ n
            → suc (suc n) ≡ (drained w d fuel it).stream.moment
            → w.validate n ≡ ok tt
            → o.body ≡ generation)
        → collect_rows w d fuel it ≡ some (ok rows)
        → (query_rows d o targets window 0 generation ≡ ok rows)
          × (missing_of o targets ≡ [])
          × Passes w it.stream.moment (drained w d fuel it).stream.moment
    collect_rows-extract_sound moment fuel it rows generation h enough detects g =
        let x = extract-Extracts moment it h in
        let (r, e, k) =
          collect_rows-total w d fuel it (Extracts-IsRunning it x)
            (omega (arith, budget-Extracts it x)) in
        let (complete, seen) = sound r k (sym e ∙ g) in
        let same : generation ≡ o.body = sym (detects seen.at seen.after seen.last seen.passed) in
        (
          ap (query_rows d o targets window 0) same ∙ sym (expected-Extracts it x) ∙ complete,
          x.all_known,
          seen,
        )
      where
        sound :
            (r : QueryResult (List TimeValue))
            → Collects w d it (drained w d fuel it) r
            → Path (Option (QueryResult (List TimeValue))) (some r) (some (ok rows))
            → (expected w d it ≡ ok rows)
              × Passes w it.stream.moment (drained w d fuel it).stream.moment
        sound (ok vs) k p = (k.0 ∙ cc, k.1)
        sound (err e) k p = cc

    -- Where all is calm and rows are not limited, the collection of an extraction is exactly the rows
    -- of the body in the window for the requested targets, in order, or the parse error of the body.
    pub collect_rows-extract :
        (moment fuel : ℕ) (it : OpenedTimeValueIter)
        → (extract w o targets window c moment).0 ≡ ok it
        → Calm w c
        → NoRowLimits c
        → length o.body * length targets < fuel
        → collect_rows w d fuel it ≡ some (query_rows d o targets window 0 o.body)
    unfolding new_iter
    collect_rows-extract moment fuel it h calm free enough =
        let x = extract-Extracts moment it h in
        let same : c ≡ it.context = ap (λ (i : OpenedTimeValueIter). i.context) (sym x.is_new) in
        let (r, e, k) =
          collect_rows-total w d fuel it (Extracts-IsRunning it x)
            (omega (arith, budget-Extracts it x)) in
        e
        ∙ ap some (
            sym (exact r k (subst (Calm w) same calm) (subst NoRowLimits same free))
            ∙ expected-Extracts it x)
      where
        exact :
            (r : QueryResult (List TimeValue))
            → Collects w d it (drained w d fuel it) r
            → Calm w it.context
            → NoRowLimits it.context
            → expected w d it ≡ r
        exact (ok vs) k p q = k.0
        exact (err e) k p q = k p q
