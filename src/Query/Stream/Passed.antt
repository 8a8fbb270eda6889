-- ===== src/Query/Stream/Passed.antt =====
-- src/query/stream.rs: a decoder that ends with success has validated its source behind its last
-- command.
use vcd_tools_rs.Prelude.{
  ℕ, suc, ◌≤◌, ◌≡◌, refl, sym, ap, ◌∙◌, true, false, arith, Result, ok, err, if_intro,
}
use vcd_tools_rs.Errors.{VcdError, QueryResult}
use vcd_tools_rs.Query.Exec.{◌>>◌, continue}
use vcd_tools_rs.Query.Context.{World}
use vcd_tools_rs.Query.Stream.{
  SelectedChangeStream, StreamExec, check_context, validate_complete, validated, finish_success,
}

-- The source is validated with success from `start` on, at the last look but one before `stop`;
-- the last one is at the context.
pub record Passes (w : World) (start stop : ℕ) : Type 0 where
  pub at : ℕ
  pub after : start ≤ at
  pub last : suc (suc at) ≡ stop
  pub passed : w.validate at ≡ ok tt

pub Passes-le : (w : World) (a b stop : ℕ) → a ≤ b → Passes w b stop → Passes w a stop
Passes-le w a b stop h p =
    let before = p.after in
    record { at = p.at; after = omega arith; last = p.last; passed = p.passed }

validated_ok : (r : Result VcdError (Unit {0})) → validated r ≡ ok tt → r ≡ ok tt
unfolding validated
validated_ok (ok u) h = refl
validated_ok (err e) h = cc

-- A sequence that succeeds, in its two parts, with its last state.
then_ok :
    (m n : StreamExec) (s : SelectedChangeStream)
    → ((m >> n) s).0 ≡ ok tt
    → ((m s).0 ≡ ok tt) × ((n (m s).1).0 ≡ ok tt) × (((m >> n) s).1 ≡ (n (m s).1).1)
then_ok m n s h = split (m s).0 (m s).1 h
  where
    split :
        (r : QueryResult (Unit {0})) (t : SelectedChangeStream)
        → (continue r (λ _. n) t).0 ≡ ok tt
        → (r ≡ ok tt) × ((n t).0 ≡ ok tt) × ((continue r (λ _. n) t).1 ≡ (n t).1)
    split (ok a) t h = (refl, h, refl)
    split (err e) t h = cc

abbrev set_finished : StreamExec
set_finished t = (ok tt, record t { finished = true })

checked-Passes :
    (w : World) (s : SelectedChangeStream)
    → ((check_context w >> (validate_complete w >> (check_context w >> set_finished))) s).0 ≡ ok tt
    → Passes w s.moment
        ((check_context w >> (validate_complete w >> (check_context w >> set_finished))) s).1.moment
unfolding check_context validate_complete
checked-Passes w s h =
    let second : StreamExec = check_context w >> set_finished in
    let (e, g, x) = then_ok (check_context w) (validate_complete w >> second) s h in
    let (k, l, y) = then_ok (validate_complete w) second _ g in
    let (o, q, z) = then_ok (check_context w) set_finished _ l in
    record {
      at = suc s.moment;
      after = omega arith;
      last = sym (ap (λ (t : SelectedChangeStream). t.moment) (x ∙ y ∙ z));
      passed = validated_ok (w.validate (suc s.moment)) k;
    }

-- An end with success is the end of `finish_success`, which validates.
pub finish_success-Passes :
    (w : World) (s : SelectedChangeStream)
    → s.finished ≡ false
    → (finish_success w s).0 ≡ ok tt
    → Passes w s.moment (finish_success w s).1.moment
unfolding finish_success
finish_success-Passes w s f =
    if_intro
      (λ (o : QueryResult (Unit {0}) × SelectedChangeStream).
        o.0 ≡ ok tt → Passes w s.moment o.1.moment)
      s.finished (λ e. cc) (λ _ h. checked-Passes w s h)
