-- ===== src/Query/Compare/Identical.antt =====
-- src/query/compare.rs: a timeline matches itself.
use vcd_tools_rs.Prelude.{
  ℕ, zero, suc, ◌%◌, ◌≤◌, ◌<◌, ◌≡◌, refl, ◌∙◌, Bool, true, false, ◌&&◌, ◌||◌, Option, some, [], ◌∷◌,
  map, Text, length, nat_eqb, saturating_add, u64_max, if◌then◌else◌, if_intro, ok, arith, min,
  Bool-cases, inl, inr,
}
use vcd_tools_rs.Prelude.Keys.{text_eqb, text_eqb_iff}
use vcd_tools_rs.Value.{Formats, ChangeValue, ascii_lower}
use vcd_tools_rs.Query.Exec.{Exec}
use vcd_tools_rs.Query.Context.{World, QueryContext, check}
use vcd_tools_rs.Query.Stream.Checks.{Calm}
use vcd_tools_rs.Query.Stream.Selection.{bind-ok}
use vcd_tools_rs.Query.Compare.{
  ComparisonOptions, Timeline, Cursor, Mismatches, eq_ignore_ascii_case, same_value, values_match,
  unknown_text, poll_timeline_context, advance, timeline_loop, compare_signal_timeline,
  timeline_context_check_interval, value_is_unknown,
}

text_eqb_refl : (t : Text) → text_eqb t t ≡ true
text_eqb_refl t = (text_eqb_iff t t).1 refl

values_match_refl : (f : Formats) (v : ChangeValue) (b : Bool) → values_match f v v b ≡ true
unfolding values_match same_value eq_ignore_ascii_case
values_match_refl f (ChangeValue.integer i) b = ground arith
values_match_refl f (ChangeValue.float x) b = ground arith
values_match_refl f (ChangeValue.text t) b =
    if_intro (λ (x : Bool). x ≡ true)
      (b && (value_is_unknown (ChangeValue.text t) || value_is_unknown (ChangeValue.text t)))
      (λ _. refl) (λ _. text_eqb_refl (map ascii_lower t))

-- The cursor past the entries of one time.
skip : ℕ → Timeline → ChangeValue → Cursor
skip time [] current = record { ahead = []; current = current }
skip time ((t, v) ∷ rest) current =
    let next = skip time rest v in
    if nat_eqb t time then next else record { ahead = (t, v) ∷ rest; current = current }

skip-le : (time : ℕ) (l : Timeline) (v : ChangeValue) → length (skip time l v).ahead ≤ length l
unfolding skip
skip-le time [] v = omega arith
skip-le time ((t, x) ∷ l) v = ground (arith, skip-le time l x)

skip-consumes :
    (t : ℕ) (x : ChangeValue) (l : Timeline) (v : ChangeValue)
    → length (skip (min t t) ((t, x) ∷ l) v).ahead ≤ length l
unfolding skip
skip-consumes t x l v = ground (arith, skip-le (min t t) l x)

work_of : ℕ → Timeline → ℕ → ℕ
work_of time [] work = work
work_of time ((t, v) ∷ rest) work =
    let next = work_of time rest (saturating_add work 1) in if nat_eqb t time then next else work

module _ (w : World) (c : QueryContext) (calm : Calm w c) where
  poll-calm : (n m : ℕ) → (poll_timeline_context w c n m).0 ≡ ok tt
  unfolding poll_timeline_context check
  poll-calm n m =
      if_intro (λ (e : Exec ℕ (Unit {0})). (e m).0 ≡ ok tt)
        (nat_eqb (n % timeline_context_check_interval) 0) (λ _. calm.checks m) (λ _. refl)

  advance-calm :
      (time : ℕ) (l : Timeline) (v : ChangeValue) (work m : ℕ)
      → (advance w c time l v work m).0 ≡ ok (skip time l v, work_of time l work)
  unfolding advance skip work_of
  advance-calm time [] v work m = refl
  advance-calm time ((t, x) ∷ l) v work m = elim (Bool-cases (nat_eqb t time)) [
    | inl e ↦ rw e (
        bind-ok (poll_timeline_context w c (saturating_add work 1)) _ m (poll-calm _ m)
        ∙ advance-calm time l x (saturating_add work 1) _)
    | inr e ↦ rw e refl
  ]

  module _ (f : Formats) (options : ComparisonOptions) (signal : Text) where
    matched :
        (b : Bool) (e d : Exec ℕ (Option Mismatches)) (m : ℕ) (r : Option Mismatches)
        → b ≡ true
        → (e m).0 ≡ ok r
        → ((if b then e else d) m).0 ≡ ok r
    matched true e d m r h k = k
    matched false e d m r h k = cc

    identical_loop :
        (fuel : ℕ) (l : Timeline) (v : ChangeValue) (count work m : ℕ)
        → length l < fuel
        → (timeline_loop w c f options signal fuel
            (record { ahead = l; current = v })
            (record { ahead = l; current = v })
            count
            work
            m).0
          ≡ ok (some ([], count))
    unfolding timeline_loop
    identical_loop zero l v count work m h = absurd (omega arith)
    identical_loop (suc fuel) [] v count work m h = refl
    identical_loop (suc fuel) ((t, x) ∷ l) v count work m h =
        let time = min t t in
        let s = skip time ((t, x) ∷ l) v in
        if_intro (λ (e : Exec ℕ (Option Mismatches)). (e m).0 ≡ ok (some ([], count)))
          (nat_eqb time u64_max) (λ _. refl)
          (λ _.
            bind-ok (advance w c time ((t, x) ∷ l) v work) _ m
              (advance-calm time ((t, x) ∷ l) v work m)
            ∙ bind-ok (advance w c time ((t, x) ∷ l) v _) _ _ (advance-calm time ((t, x) ∷ l) v _ _)
            ∙ matched (values_match f s.current s.current options.ignore_unknown) _ _ _ _
                (values_match_refl f s.current options.ignore_unknown)
                (identical_loop fuel s.ahead s.current count _ _
                  (omega (arith, skip-consumes t x l v))))

    -- Where all is calm, the comparison of a timeline with itself ends, within one round more than
    -- it has entries, and finds no mismatch, whatever the options.
    pub compare_signal_timeline_refl :
        (l : Timeline) (fuel m : ℕ)
        → length l < fuel
        → (compare_signal_timeline w c f options signal fuel l l m).0 ≡ ok (some ([], 0))
    unfolding compare_signal_timeline
    compare_signal_timeline_refl l fuel m h = identical_loop fuel l unknown_text 0 0 m h
