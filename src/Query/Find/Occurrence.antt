-- ===== src/Query/Find/Occurrence.antt =====
-- src/query/ops.rs: the search finds the n-th row with the value.
use mathlib.Core.Path.{subst}
use mathlib.Core.Option
use vcd_tools_rs.Prelude.{
  ℕ, zero, suc, ◌+◌, ◌*◌, ◌<◌, ◌≡◌, refl, sym, ap, ◌∙◌, Bool, true, false, Option, none, some, List,
  [], ◌∷◌, Text, length, get_elem?, keep, nat_eqb, ltb, if◌then◌else◌, if_intro, ok, err, arith,
}
use vcd_tools_rs.Errors.{QueryResult}
use vcd_tools_rs.Value.{Formats, TargetValue, TimeWindow, normalize_target}
use vcd_tools_rs.Vcd.{VcdDisplay}
use vcd_tools_rs.Catalog.{SignalMeta}
use vcd_tools_rs.Query.Context.{World, QueryContext}
use vcd_tools_rs.Query.Opened.{OpenedVcd, signal}
use vcd_tools_rs.Query.Stream.{
  validate_current_generation, check_context, validate_complete, validated,
}
use vcd_tools_rs.Query.Stream.Checks.{Calm}
use vcd_tools_rs.Query.Stream.Selection.{missing_of, bind-ok}
use vcd_tools_rs.Query.Extract.{
  TimeValue, OpenedTimeValueIter, RowOut, later, next_row, prepend_row, new_iter,
}
use vcd_tools_rs.Query.Extract.Emission.{NoRowLimits, IsRunning}
use vcd_tools_rs.Query.Extract.Rows.{expected, budget, RowAnswers, next_row-RowAnswers}
use vcd_tools_rs.Query.Extract.Promise.{
  query_rows, extract-Extracts, Extracts-IsRunning, expected-Extracts, budget-Extracts,
}
use vcd_tools_rs.Query.Extract.Opening.{extract-known}
use vcd_tools_rs.Query.Find.{
  Found, published, with_size, check_iter, validate_stream, validate_iter, is_match, find_loop,
  find_events, find_signal, find_nth_occurrence,
}

module _ (w : World) (d : VcdDisplay) (f : Formats) where
  validated-Calm :
      (c : QueryContext) (moment : ℕ) → Calm w c → validated (w.validate moment) ≡ ok tt
  unfolding validated
  validated-Calm c moment k = rw (k.validates moment)

  validate_stream-Calm :
      (it : OpenedTimeValueIter) → Calm w it.stream.context → (validate_stream w it).0 ≡ ok tt
  unfolding validate_stream validate_current_generation check_context validate_complete
  validate_stream-Calm it k =
      bind-ok (check_context w) _ it.stream (k.checks _)
      ∙ bind-ok (validate_complete w) _ _ (validated-Calm it.stream.context _ k)
      ∙ k.checks _

  validate_iter-Calm :
      (it : OpenedTimeValueIter)
      → Calm w it.context
      → Calm w it.stream.context
      → (validate_iter w it).0 ≡ ok tt
  unfolding validate_iter validate_stream check_iter later
  validate_iter-Calm it c k =
      bind-ok (check_iter w) _ it (c.checks _)
      ∙ bind-ok (validate_stream w) _ (later it) (validate_stream-Calm (later it) k)
      ∙ c.checks _

  -- The occurrence with a number, counted from 0, among the rows that match.
  abbrev pub nth_match : Text → ℕ → List TimeValue → Option TimeValue
  nth_match target k rows = get_elem? (keep (is_match w d f target) rows) k

  abbrev Quiet : OpenedTimeValueIter → Type 0
  Quiet it = IsRunning it × Calm w it.context × NoRowLimits it.context

  counted :
      (v : TimeValue) (occurrence count : ℕ) (valid : QueryResult (Unit {0}))
      (rest : ℕ → Option Found) (matches : List TimeValue)
      → valid ≡ ok tt
      → ((c k : ℕ) → c + suc k ≡ occurrence → rest c ≡ some (ok (get_elem? matches k)))
      → (m : Bool) (k : ℕ) → count + suc k ≡ occurrence
      → (if m
          then (if nat_eqb (count + 1) occurrence
              then some (published v valid)
              else rest (count + 1))
          else rest count)
        ≡ some (ok (get_elem? (if m then v ∷ matches else matches) k))
  counted v occurrence count valid rest matches h g false k n = g count k n
  counted v occurrence count valid rest matches h g true zero n =
      if_intro (λ (x : Option Found). x ≡ some (ok (some v))) (nat_eqb (count + 1) occurrence)
        (λ _. ap (λ r. some (published v r)) h) (λ e. absurd (ground (arith, e, n)))
  counted v occurrence count valid rest matches h g true (suc k) n =
      if_intro (λ (x : Option Found). x ≡ some (ok (get_elem? matches k)))
        (nat_eqb (count + 1) occurrence) (λ e. absurd (ground (arith, e, n)))
        (λ _. g (count + 1) k (omega arith))

  unprepend :
      (v : TimeValue) (r : QueryResult (List TimeValue)) (rows : List TimeValue)
      → prepend_row v r ≡ ok rows
      → (rest : List TimeValue) × (r ≡ ok rest) × (v ∷ rest ≡ rows)
  unprepend v (ok rest) rows h = (rest, refl, cc)
  unprepend v (err e) rows h = cc

  module _ (fuel : ℕ) (target : Text) (occurrence : ℕ) where
    abbrev Finds : OpenedTimeValueIter → Type 0
    Finds t =
        (count k : ℕ) (rows : List TimeValue)
        → count + suc k ≡ occurrence
        → expected w d t ≡ ok rows
        → find_loop w d f fuel target occurrence count t ≡ some (ok (nth_match target k rows))

    round :
        (count k : ℕ) (it : OpenedTimeValueIter) (rows : List TimeValue) (o : RowOut)
        → ((t : OpenedTimeValueIter) → Quiet t → budget w d t < fuel → Finds t)
        → Quiet it
        → budget w d it < suc fuel
        → count + suc k ≡ occurrence
        → expected w d it ≡ ok rows
        → RowAnswers w d it o
        → (let (r, t) = o in
            elim r [
              | none ↦ some (ok none)
              | some (err e) ↦ some (err e)
              | some (ok v) ↦
                  if is_match w d f target v
                  then (if nat_eqb (count + 1) occurrence
                      then some (published v (validate_iter w t).0)
                      else find_loop w d f fuel target occurrence (count + 1) t)
                  else find_loop w d f fuel target occurrence count t
            ])
          ≡ some (ok (nth_match target k rows))
    round count k it rows (none, t) ih q h n e a =
        let same : Path (QueryResult (List TimeValue)) (ok []) (ok rows) = sym a.0 ∙ e in
        let nil : [] ≡ rows = cc in
        ap (λ (r : List TimeValue). some (ok (nth_match target k r))) nil
    round count k it rows (some (err x), t) ih q h n e a =
        let same : Path (QueryResult (List TimeValue)) (err x) (ok rows) =
          sym (a.1 (q.1, q.2)) ∙ e in
        cc
    round count k it rows (some (ok v), t) ih q h n e a =
        let (rest, r, c) = unprepend v (expected w d t) rows (sym a.0 ∙ e) in
        let calm : Calm w t.context = subst (Calm w) (sym a.2) q.1 in
        let quiet : Quiet t = (a.1, calm, subst NoRowLimits (sym a.2) q.2) in
        counted v occurrence count (validate_iter w t).0
          (λ m. find_loop w d f fuel target occurrence m t) (keep (is_match w d f target) rest)
          (validate_iter-Calm t calm (subst (Calm w) (sym a.1.same_context) calm))
          (λ m j p. ih t quiet (omega arith) m j rest p r) (is_match w d f target v) k n
        ∙ ap (λ (rs : List TimeValue). some (ok (nth_match target k rs))) c

  -- What is left to find among the rows that are left.
  find_loop_lem :
      (fuel : ℕ) (target : Text) (occurrence : ℕ) (it : OpenedTimeValueIter)
      → Quiet it
      → budget w d it < fuel
      → Finds fuel target occurrence it
  unfolding find_loop
  find_loop_lem zero target occurrence it q h count k rows n e = absurd (omega arith)
  find_loop_lem (suc fuel) target occurrence it q h count k rows n e =
      round fuel target occurrence count k it rows (next_row w d it)
        (λ t p b. find_loop_lem fuel target occurrence t p b) q h n e
        (next_row-RowAnswers w d it q.0)

  known_target :
      (o : OpenedVcd) (name : Text) (m : SignalMeta)
      → signal o name ≡ some m
      → missing_of o (name ∷ []) ≡ []
  unfolding missing_of
  known_target o name m h = rw h refl

  -- Where all is calm, rows and signals are not limited and the body parses, the search for an
  -- occurrence of a value of a known signal returns the size of the signal and the row with that
  -- number among the rows of the window whose value has that text, or no row if there are fewer.
  pub find_nth_occurrence_lem :
      (o : OpenedVcd) (fuel : ℕ) (name : Text) (target : TargetValue) (k : ℕ) (window : TimeWindow)
      (c : QueryContext) (moment : ℕ) (m : SignalMeta) (rows : List TimeValue)
      → Calm w c
      → NoRowLimits c
      → c.limits.max_signals ≡ none
      → signal o name ≡ some m
      → query_rows d o (name ∷ []) window 0 o.body ≡ ok rows
      → length o.body * 1 < fuel
      → find_nth_occurrence w d f o fuel name target (suc k) window c moment
        ≡ some (ok (nth_match (normalize_target f target) k rows, m.size))
  unfolding find_nth_occurrence find_signal find_events
  find_nth_occurrence_lem o fuel name target k window c moment m rows calm free unlimited known e
        h =
      let (it, got) =
        extract-known w o (name ∷ []) window c calm (suc moment) unlimited
          (known_target o name m known) in
      let x = extract-Extracts w o (name ∷ []) window c (suc moment) it got in
      let same : c ≡ it.context =
        unfold new_iter in ap (λ (i : OpenedTimeValueIter). i.context) (sym x.is_new) in
      let quiet : Quiet it = (
        Extracts-IsRunning w o (name ∷ []) window c it x,
        subst (Calm w) same calm,
        subst NoRowLimits same free,
      ) in
      let found =
        find_loop_lem fuel (normalize_target f target) (suc k) it quiet
          (omega (arith, budget-Extracts w o (name ∷ []) window c d it x)) 0 k rows (omega arith)
          (expected-Extracts w o (name ∷ []) window c d it x ∙ e) in
      if_intro
        (λ (r : Option (QueryResult (Option TimeValue × ℕ))).
          r ≡ some (ok (nth_match (normalize_target f target) k rows, m.size)))
        (ltb (suc k) 1) (λ p. absurd (ground (arith, p)))
        (λ _.
          ap
            (λ (r : QueryResult (Unit {0})). elim r [
              | err e ↦ some (err e)
              | ok u ↦
                  find_signal w d f o fuel name target (suc k) window c (suc moment) (signal o name)
            ])
            (calm.checks moment)
          ∙ ap (find_signal w d f o fuel name target (suc k) window c (suc moment)) known
          ∙ ap (find_events w d f fuel (normalize_target f target) (suc k) m.size) got
          ∙ ap (Option.map (with_size m.size)) found)
