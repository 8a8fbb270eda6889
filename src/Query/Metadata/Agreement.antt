-- ===== src/Query/Metadata/Agreement.antt =====
-- src/opened/mod.rs, src/lib.rs: both scans find the same times.
use vcd_tools_rs.Prelude.{
  ℕ, ◌≡◌, refl, sym, ap, ◌∙◌, List, [], ◌∷◌, nat_eqb, saturating_add, ◌%◌, if_intro, Result, ok,
  err,
}
use vcd_tools_rs.Errors.{VcdError, QueryError, from_vcd, io, commands}
use vcd_tools_rs.Vcd.{
  Item, Command, timestamp, change_scalar, change_vector, change_real, change_string, other,
}
use vcd_tools_rs.Query.Exec.{Exec, ◌>>=◌, ◌>>◌}
use vcd_tools_rs.Query.Context.{World, QueryContext, check, over_limit, exceeded}
use vcd_tools_rs.Query.Opened.{OpenedVcd}
use vcd_tools_rs.Query.Stream.{command_check_interval, validated}
use vcd_tools_rs.Query.Stream.Checks.{Calm}
use vcd_tools_rs.Query.Stream.Selection.{bind-ok, bind-err}
use vcd_tools_rs.Query.Metadata.{
  Bounds, no_bounds, see, touch, first_last, in_place_loop, compute_time_bounds, VcdMeta, poll,
  parsed, scan_loop, validate_reader, meta_of_bounds, compute_metadata,
}

-- Both scans without their checks: the bounds behind the last command.
unfoldable bounds_loop : List Item → Bounds → Result VcdError Bounds
bounds_loop [] b = ok b
bounds_loop (err e ∷ rest) b = err (io e)
bounds_loop (ok command ∷ rest) b = bounds_loop rest (see command b)

abbrev finished : Result VcdError Bounds → Result VcdError (ℕ × ℕ)
finished (ok b) = ok (first_last b)
finished (err e) = err e

in_place_loop_lem :
    (items : List Item) (b : Bounds)
    → in_place_loop items b.current_time b.start_time b.end_time ≡ finished (bounds_loop items b)
unfolding in_place_loop bounds_loop see touch first_last
in_place_loop_lem [] b = refl
in_place_loop_lem (err e ∷ rest) b = refl
in_place_loop_lem (ok (timestamp t) ∷ rest) b = in_place_loop_lem rest (see (timestamp t) b)
in_place_loop_lem (ok (change_scalar id v) ∷ rest) b = in_place_loop_lem rest (touch b)
in_place_loop_lem (ok (change_vector id v) ∷ rest) b = in_place_loop_lem rest (touch b)
in_place_loop_lem (ok (change_real id v) ∷ rest) b = in_place_loop_lem rest (touch b)
in_place_loop_lem (ok (change_string id v) ∷ rest) b = in_place_loop_lem rest (touch b)
in_place_loop_lem (ok other ∷ rest) b = in_place_loop_lem rest b

-- The error of the path-based scan as the query engine reports it.
abbrev pub as_query : {A : Type 0} → Result VcdError A → Result QueryError A
as_query (ok a) = ok a
as_query (err e) = err (from_vcd e)

abbrev pub described : OpenedVcd → Result VcdError (ℕ × ℕ) → Result VcdError VcdMeta
described o (ok times) = ok (meta_of_bounds o times)
described o (err e) = err e

module _ (w : World) (c : QueryContext) (calm : Calm w c) where
  check-calm : (m : ℕ) → (check w c m).0 ≡ ok tt
  unfolding check
  check-calm m = calm.checks m

  validate_reader-calm : (m : ℕ) → (validate_reader w m).0 ≡ ok tt
  unfolding validate_reader validated
  validate_reader-calm m = rw (calm.validates m) refl

  over_limit-calm : (n : ℕ) → over_limit commands c.limits.max_commands n ≡ ok tt
  unfolding over_limit exceeded
  over_limit-calm n = rw (calm.no_command_limit) refl

  poll-calm : (n : ℕ) (command : Command) (m : ℕ) → (poll w c n command m).0 ≡ ok tt
  unfolding poll
  poll-calm n (timestamp t) m = check-calm m
  poll-calm n command m =
      if_intro (λ (e : Exec ℕ (Unit {0})). (e m).0 ≡ ok tt) (nat_eqb (n % command_check_interval) 0)
        (λ _. check-calm m) (λ _. refl)

  scan_loop-calm :
      (items : List Item) (n : ℕ) (b : Bounds) (m : ℕ)
      → (scan_loop w c items n b m).0 ≡ as_query (bounds_loop items b)
  unfolding scan_loop bounds_loop parsed
  scan_loop-calm [] n b m = refl
  scan_loop-calm (err e ∷ rest) n b m =
      bind-ok (λ (k : ℕ). (over_limit commands c.limits.max_commands (saturating_add n 1), k)) _ m
        (over_limit-calm _)
  scan_loop-calm (ok command ∷ rest) n b m =
      bind-ok (λ (k : ℕ). (over_limit commands c.limits.max_commands (saturating_add n 1), k)) _ m
        (over_limit-calm _)
      ∙ bind-ok (poll w c (saturating_add n 1) command) _ m (poll-calm _ command m)
      ∙ scan_loop-calm rest (saturating_add n 1) (see command b) _

  after_scan :
      (o : OpenedVcd) (r : Result VcdError Bounds) (m : ℕ)
      → (scan_loop w c o.body 0 no_bounds m).0 ≡ as_query r
      → ((scan_loop w c o.body 0 no_bounds >>= (λ b. do
        check w c
        validate_reader w
        check w c
        λ k. (ok (meta_of_bounds o (first_last b)), k)))
          m).0
        ≡ as_query (described o (finished r))
  after_scan o (ok b) m h =
      bind-ok (scan_loop w c o.body 0 no_bounds) _ m h
      ∙ bind-ok (check w c) _ _ (check-calm _)
      ∙ bind-ok (validate_reader w) _ _ (validate_reader-calm _)
      ∙ bind-ok (check w c) _ _ (check-calm _)
  after_scan o (err e) m h = bind-err (scan_loop w c o.body 0 no_bounds) _ m h

  -- Where all is calm, the metadata of an opened file has the first and the last time that the
  -- path-based scan of the same body finds, and a body that does not parse gives the same error.
  pub compute_metadata-eq-time_bounds :
      (o : OpenedVcd) (moment : ℕ)
      → (compute_metadata w c o moment).0 ≡ as_query (described o (compute_time_bounds o.body))
  unfolding compute_metadata compute_time_bounds
  compute_metadata-eq-time_bounds o moment =
      bind-ok (check w c) _ moment (check-calm moment)
      ∙ bind-ok (validate_reader w) _ _ (validate_reader-calm _)
      ∙ after_scan o (bounds_loop o.body no_bounds) _ (scan_loop-calm o.body 0 no_bounds _)
      ∙ ap (λ r. as_query (described o r)) (sym (in_place_loop_lem o.body no_bounds))
