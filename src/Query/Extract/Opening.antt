-- ===== src/Query/Extract/Opening.antt =====
-- src/opened/mod.rs `OpenedVcd::extract`: when it hands out an iterator.
use vcd_tools_rs.Prelude.{ℕ, suc, ◌≡◌, refl, ◌∙◌, none, List, [], ◌∷◌, ok, err, length, Text}
use vcd_tools_rs.Errors.{from_vcd, missing_signals}
use vcd_tools_rs.Value.{TimeWindow}
use vcd_tools_rs.Query.Context.{
  World, QueryContext, check, check_signal_count, over_limit, exceeded,
}
use vcd_tools_rs.Query.Opened.{OpenedVcd, signal}
use vcd_tools_rs.Query.Stream.Checks.{Calm}
use vcd_tools_rs.Query.Stream.{
  Resolution, SelectedChangeStream, bind_target, selection_of, resolve_loop, resolve, join_comma,
  selected_change_stream, validated,
}
use vcd_tools_rs.Query.Stream.Selection.{
  bind_all, nothing, missing_of, bind_all-missing, bind-ok, bind-err,
}
use vcd_tools_rs.Query.Extract.{OpenedTimeValueIter, new_iter, extract}

module _ (w : World) (o : OpenedVcd) (targets : List Text) (window : TimeWindow) (c : QueryContext)
    (calm : Calm w c) where
  check-calm : (moment : ℕ) → (check w c moment).0 ≡ ok tt
  unfolding check
  check-calm moment = calm.checks moment

  resolve_loop-calm :
      (index : ℕ) (names : List Text) (r : Resolution) (moment : ℕ)
      → (resolve_loop w o c index names r moment).0 ≡ ok (bind_all o index names r)
  unfolding resolve_loop bind_all
  resolve_loop-calm index [] r moment = refl
  resolve_loop-calm index (name ∷ names) r moment =
      bind-ok (check w c) _ moment (check-calm moment)
      ∙ resolve_loop-calm (suc index) names (bind_target index name (signal o name) r) _

  pub check_signal_count-calm :
      (n moment : ℕ) → c.limits.max_signals ≡ none → (check_signal_count w c n moment).0 ≡ ok tt
  unfolding check_signal_count check over_limit exceeded
  check_signal_count-calm n moment free = rw (calm.checks moment, free, exceeded)

  resolve-calm :
      (moment : ℕ)
      → c.limits.max_signals ≡ none
      → (resolve w o c targets moment).0
        ≡ selection_of (length targets) (bind_all o 0 targets nothing)
  unfolding resolve
  resolve-calm moment free =
      bind-ok (check_signal_count w c (length targets)) _ moment
        (check_signal_count-calm (length targets) moment free)
      ∙ bind-ok (resolve_loop w o c 0 targets nothing) _ _ (resolve_loop-calm 0 targets nothing _)

  -- The selection of a resolution with no name missing, and the error of one with some.
  selection_of-known :
      (n : ℕ) (r : Resolution) (missing : List Text)
      → r.missing ≡ missing
      → missing ≡ []
      → selection_of n r ≡ ok (record { by_id = r.by_id; request_count = n })
  unfolding selection_of
  selection_of-known n r missing e h = rw (e ∙ h)

  selection_of-missing :
      (n : ℕ) (r : Resolution) (missing : List Text)
      → r.missing ≡ missing
      → ¬ (missing ≡ [])
      → selection_of n r ≡ err (from_vcd (missing_signals (join_comma missing)))
  unfolding selection_of
  selection_of-missing n r [] e h = absurd (h refl)
  selection_of-missing n r (name ∷ names) e h = rw e

  validated-calm : (moment : ℕ) → validated (w.validate moment) ≡ ok tt
  unfolding validated
  validated-calm moment = rw (calm.validates moment)

  selected_change_stream-known :
      (moment : ℕ)
      → c.limits.max_signals ≡ none
      → missing_of o targets ≡ []
      → (s : SelectedChangeStream) × ((selected_change_stream w o targets window c moment).0 ≡ ok s)
  unfolding selected_change_stream
  selected_change_stream-known moment free known = (
    _,
    bind-ok (check w c) _ moment (check-calm moment)
        ∙ bind-ok (resolve w o c targets) _ _ (
            resolve-calm _ free
            ∙ selection_of-known (length targets) (bind_all o 0 targets nothing)
                (missing_of o targets) (bind_all-missing o 0 targets nothing) known)
        ∙ bind-ok (check w c) _ _ (check-calm _)
        ∙ bind-ok (λ (m : ℕ). (validated (w.validate m), suc m)) _ _ (validated-calm _),
  )

  -- Where all is calm, signals are not limited and every target is known, an extraction hands out an
  -- iterator.
  pub extract-known :
      (moment : ℕ)
      → c.limits.max_signals ≡ none
      → missing_of o targets ≡ []
      → (it : OpenedTimeValueIter) × ((extract w o targets window c moment).0 ≡ ok it)
  unfolding extract
  extract-known moment free known =
      let (s, e) = selected_change_stream-known moment free known in
      (new_iter s c, bind-ok (selected_change_stream w o targets window c) _ moment e)

  -- Where all is calm, signals are not limited and some target is unknown, an extraction reports all
  -- the unknown names, in the order of the request.
  pub extract-missing :
      (moment : ℕ)
      → c.limits.max_signals ≡ none
      → ¬ (missing_of o targets ≡ [])
      → (extract w o targets window c moment).0
        ≡ err (from_vcd (missing_signals (join_comma (missing_of o targets))))
  unfolding extract selected_change_stream
  extract-missing moment free unknown =
      bind-err (selected_change_stream w o targets window c) _ moment (
        bind-ok (check w c) _ moment (check-calm moment)
        ∙ bind-err (resolve w o c targets) _ _ (
            resolve-calm _ free
            ∙ selection_of-missing (length targets) (bind_all o 0 targets nothing)
                (missing_of o targets) (bind_all-missing o 0 targets nothing) unknown))
