-- ===== src/Query/Stream/Checks.antt =====
-- src/query/stream.rs: the checks between the parser and the caller.
use mathlib.Core.Path.{subst}
use vcd_tools_rs.Prelude.{
  if_intro, nat_eqb, ◌%◌, ℕ, ◌≤◌, ◌≡◌, refl, sym, ap, true, none, arith, ok, err,
}
use vcd_tools_rs.Errors.{QueryResult}
use vcd_tools_rs.Vcd.{Item, timestamp}
use vcd_tools_rs.Query.Context.{World, QueryContext, check_at}
use vcd_tools_rs.Query.Exec.{◌>>◌, continue}
use vcd_tools_rs.Query.Stream.{
  SelectedChangeStream, StreamExec, command_check_interval, check_context, check_periodic_context,
  check_timestamp_context, check_command_limit, finish_success, admit, validate_complete, validated,
}

-- Nothing cancels, the deadline does not pass, the file stays, and commands are not limited.
pub record Calm (w : World) (c : QueryContext) : Type 0 where
  pub checks : (moment : ℕ) → check_at w c moment ≡ ok tt
  pub validates : (moment : ℕ) → w.validate moment ≡ ok tt
  pub no_command_limit : c.limits.max_commands ≡ none

module _ (w : World) where
  -- A check changes the moment alone, and passes where all is calm.
  pub record IsCheck (m : StreamExec) : Type 0 where
    pub frame : (s : SelectedChangeStream) → (m s).1 ≡ record s { moment = (m s).1.moment }
    pub calm : (s : SelectedChangeStream) → Calm w s.context → (m s).0 ≡ ok tt
    pub later : (s : SelectedChangeStream) → s.moment ≤ (m s).1.moment

  after_later :
      (n : StreamExec)
      → IsCheck n
      → (r : QueryResult (Unit {0})) (s t : SelectedChangeStream) → s.moment ≤ t.moment
      → s.moment ≤ (continue r (λ _. n) t).1.moment
  after_later n c (ok u) s t h = let more = c.later t in omega arith
  after_later n c (err x) s t h = h

  after_ok :
      (n : StreamExec)
      → IsCheck n
      → (r : QueryResult (Unit {0})) (s t : SelectedChangeStream)
      → t ≡ record s { moment = t.moment }
      → (continue r (λ _. n) t).1 ≡ record s { moment = (continue r (λ _. n) t).1.moment }
  after_ok n c (ok u) s t e = ground (arith, c.frame t)
  after_ok n c (err x) s t e = e

  after-Calm :
      (n : StreamExec)
      → IsCheck n
      → (r : QueryResult (Unit {0})) (s t : SelectedChangeStream)
      → t ≡ record s { moment = t.moment }
      → r ≡ ok tt
      → Calm w s.context
      → (continue r (λ _. n) t).0 ≡ ok tt
  after-Calm n c (ok u) s t e p q = c.calm t (
      subst (λ (k : QueryContext). Calm w k) (sym (ap (λ (x : SelectedChangeStream). x.context) e))
        q)
  after-Calm n c (err x) s t e p q = p

  IsCheck-bind : (m n : StreamExec) → IsCheck m → IsCheck n → IsCheck (m >> n)
  IsCheck-bind m n cm cn = record {
    frame = λ s. after_ok n cn (m s).0 s (m s).1 (cm.frame s);
    calm = λ s q. after-Calm n cn (m s).0 s (m s).1 (cm.frame s) (cm.calm s q) q;
    later = λ s. after_later n cn (m s).0 s (m s).1 (cm.later s);
  }

  pub check_context-IsCheck : IsCheck (check_context w)
  unfolding check_context
  check_context-IsCheck = record {
    frame = λ s. refl;
    calm = λ s q. q.checks s.moment;
    later = λ s. omega arith;
  }

  validate_complete-IsCheck : IsCheck (validate_complete w)
  unfolding validate_complete validated
  validate_complete-IsCheck = record {
    frame = λ s. refl;
    calm = λ s q. rw (q.validates s.moment, validated);
    later = λ s. omega arith;
  }

  check_periodic_context-IsCheck : IsCheck (check_periodic_context w)
  unfolding check_periodic_context
  check_periodic_context-IsCheck = record {
    frame = λ s.
        if_intro
          (λ (o : QueryResult (Unit {0}) × SelectedChangeStream).
            o.1 ≡ record s { moment = o.1.moment })
          (nat_eqb (s.command_count % command_check_interval) 0)
          (λ _. check_context-IsCheck.frame s) (λ _. refl);
    calm = λ s q.
        if_intro (λ (o : QueryResult (Unit {0}) × SelectedChangeStream). o.0 ≡ ok tt)
          (nat_eqb (s.command_count % command_check_interval) 0)
          (λ _. check_context-IsCheck.calm s q) (λ _. refl);
    later = λ s.
        if_intro (λ (o : QueryResult (Unit {0}) × SelectedChangeStream). s.moment ≤ o.1.moment)
          (nat_eqb (s.command_count % command_check_interval) 0)
          (λ _. check_context-IsCheck.later s) (λ _. omega arith);
  }

  check_timestamp_context-IsCheck : (item : Item) → IsCheck (check_timestamp_context w item)
  unfolding check_timestamp_context
  check_timestamp_context-IsCheck (ok (timestamp time)) = record {
    frame = check_context-IsCheck.frame;
    calm = check_context-IsCheck.calm;
    later = check_context-IsCheck.later;
  }
  check_timestamp_context-IsCheck item = record {
    frame = λ s. refl;
    calm = λ s q. refl;
    later = λ s. omega arith;
  }

  check_command_limit-IsCheck : IsCheck check_command_limit
  unfolding check_command_limit
  check_command_limit-IsCheck = record {
    frame = λ s. ground arith;
    calm = λ s q. rw (q.no_command_limit);
    later = λ s. ground arith;
  }

  pub admit-IsCheck : (item : Item) → IsCheck (admit w item)
  unfolding admit
  admit-IsCheck item =
      IsCheck-bind _ _ check_periodic_context-IsCheck
        (IsCheck-bind _ _ (check_timestamp_context-IsCheck item) check_command_limit-IsCheck)

  -- The last steps: they change the moment and the end mark, which is set if they pass.
  pub record IsEnd (m : StreamExec) : Type 0 where
    pub frame :
        (s : SelectedChangeStream)
        → (m s).1 ≡ record s { moment = (m s).1.moment; finished = (m s).1.finished }
    pub calm : (s : SelectedChangeStream) → Calm w s.context → (m s).0 ≡ ok tt
    pub ends : (s : SelectedChangeStream) → (m s).0 ≡ ok tt → (m s).1.finished ≡ true

  after_end_frame :
      (n : StreamExec)
      → IsEnd n
      → (r : QueryResult (Unit {0})) (s t : SelectedChangeStream)
      → t ≡ record s { moment = t.moment }
      → let out = continue r (λ _. n) t in
        out.1 ≡ record s { moment = out.1.moment; finished = out.1.finished }
  after_end_frame n c (ok u) s t e = ground (arith, c.frame t)
  after_end_frame n c (err x) s t e = ground arith

  after_end-Calm :
      (n : StreamExec)
      → IsEnd n
      → (r : QueryResult (Unit {0})) (s t : SelectedChangeStream)
      → t ≡ record s { moment = t.moment }
      → r ≡ ok tt
      → Calm w s.context
      → (continue r (λ _. n) t).0 ≡ ok tt
  after_end-Calm n c (ok u) s t e p q = c.calm t (
      subst (λ (k : QueryContext). Calm w k) (sym (ap (λ (x : SelectedChangeStream). x.context) e))
        q)
  after_end-Calm n c (err x) s t e p q = p

  after_end_ends :
      (n : StreamExec)
      → IsEnd n
      → (r : QueryResult (Unit {0})) (t : SelectedChangeStream) → (continue r (λ _. n) t).0 ≡ ok tt
      → (continue r (λ _. n) t).1.finished ≡ true
  after_end_ends n c (ok u) t p = c.ends t p
  after_end_ends n c (err x) t p = cc

  IsEnd-bind : (m n : StreamExec) → IsCheck m → IsEnd n → IsEnd (m >> n)
  IsEnd-bind m n cm cn = record {
    frame = λ s. after_end_frame n cn (m s).0 s (m s).1 (cm.frame s);
    calm = λ s q. after_end-Calm n cn (m s).0 s (m s).1 (cm.frame s) (cm.calm s q) q;
    ends = λ s p. after_end_ends n cn (m s).0 (m s).1 p;
  }

  set_finished-IsEnd : IsEnd (λ t. (ok tt, record t { finished = true }))
  set_finished-IsEnd = record { frame = λ s. refl; calm = λ s q. refl; ends = λ s p. refl }

  pub finish_success-IsEnd : IsEnd (finish_success w)
  unfolding finish_success
  finish_success-IsEnd =
      let last = IsEnd-bind _ _ check_context-IsCheck (
        IsEnd-bind _ _ validate_complete-IsCheck
          (IsEnd-bind _ _ check_context-IsCheck set_finished-IsEnd)) in
      record {
        frame = λ s.
            if_intro
              (λ (o : QueryResult (Unit {0}) × SelectedChangeStream).
                o.1 ≡ record s { moment = o.1.moment; finished = o.1.finished })
              s.finished (λ _. refl) (λ _. last.frame s);
        calm = λ s q.
            if_intro (λ (o : QueryResult (Unit {0}) × SelectedChangeStream). o.0 ≡ ok tt) s.finished
              (λ _. refl) (λ _. last.calm s q);
        ends = λ s.
            if_intro
              (λ (o : QueryResult (Unit {0}) × SelectedChangeStream).
                o.0 ≡ ok tt → o.1.finished ≡ true)
              s.finished (λ e _. e) (λ _. last.ends s);
      }
