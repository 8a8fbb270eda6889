-- ===== src/Query/Stream/Trace.antt =====
-- src/query/stream.rs: the decoder answers with the events of its body, in order.
use mathlib.Core.Path.{subst}
use vcd_tools_rs.Prelude.{
  if_intro, ℕ, ◌<◌, ◌≤◌, ◌≡◌, refl, sym, ap, ◌∙◌, inl, inr, Bool, true, false, ◌&&◌, Option, none,
  some, List, [], ◌∷◌, arith, if◌then◌else◌, ok, err, Bool-cases, length,
}
use vcd_tools_rs.Errors.{QueryError, QueryResult, io}
use vcd_tools_rs.Value.{ChangeValue, TimeWindow, contains, after_end}
use vcd_tools_rs.Vcd.{Item, timestamp, VcdDisplay}
use vcd_tools_rs.Query.Context.{World, QueryContext}
use vcd_tools_rs.Query.Stream.Checks.{
  Calm, admit-IsCheck, check_context-IsCheck, finish_success-IsEnd,
}
use vcd_tools_rs.Query.Stream.Passed.{Passes, Passes-le, finish_success-Passes}
use vcd_tools_rs.Query.Stream.{
  TargetSelection, SelectedChange, SelectedChangeStream, Out, contains_id, selected_value,
  check_context, finish_success, finish, fail, deliver, dispatch, admit, next_loop, next,
  increment_command_count,
}

-- The events of a body from a time on: the selected changes inside the window, until a timestamp
-- past its end or a parse error, which is the last event.
module _ (d : VcdDisplay) (selection : TargetSelection) (window : TimeWindow) where
  unfoldable pub trace : ℕ → List Item → List (QueryResult SelectedChange)
  trace time [] = []
  trace time (err e ∷ rest) = err (QueryError.vcd (io e)) ∷ []
  trace time (ok (timestamp t) ∷ rest) =
      let later = trace t rest in if after_end window t then [] else later
  trace time (ok command ∷ rest) =
      let later = trace time rest in
      elim (selected_value d command) [
        | none ↦ later
        | some (id, value) ↦
            if contains_id selection id && contains window time
            then ok (record { id_code = id; time = time; value = value }) ∷ later
            else later
      ]

module _ (w : World) (d : VcdDisplay) where
  abbrev pub trace_of : SelectedChangeStream → List (QueryResult SelectedChange)
  trace_of s = trace d s.selection s.window s.current_time s.items

  -- What an answer says of the stream before and after it. An error that is no event of the body
  -- comes from the surroundings or a limit.
  abbrev pub Answers : SelectedChangeStream → Out → Type 0
  Answers s (none, t) =
      (trace_of s ≡ [])
      × (t.selection ≡ s.selection)
      × (t.finished ≡ true)
      × Passes w s.moment t.moment
  Answers s (some (ok c), t) =
      (trace_of s ≡ ok c ∷ trace_of t)
      × (t.selection ≡ s.selection)
      × (t.window ≡ s.window)
      × (t.context ≡ s.context)
      × (t.finished ≡ false)
      × (contains_id s.selection c.id_code ≡ true)
      × (length t.items < length s.items)
      × (s.moment ≤ t.moment)
  Answers s (some (err e), t) = (t.finished ≡ true) × (Calm w s.context → trace_of s ≡ err e ∷ [])

  finish-Answers_step :
      (s : SelectedChangeStream) (r : QueryResult (Unit {0})) (t : SelectedChangeStream)
      → trace_of s ≡ []
      → t.selection ≡ s.selection
      → (r ≡ ok tt → t.finished ≡ true)
      → (r ≡ ok tt → Passes w s.moment t.moment)
      → (Calm w s.context → r ≡ ok tt)
      → Answers s (elim r [ ok u ↦ (none, t) | err e ↦ fail e t ])
  unfolding fail
  finish-Answers_step s (ok u) t e f g p h = (e, f, g refl, p refl)
  finish-Answers_step s (err x) t e f g p h = (refl, λ q. cc (h q))

  -- The stream `t` ends where `s` has no more events.
  finish-Answers :
      (s t : SelectedChangeStream)
      → trace_of s ≡ []
      → t.selection ≡ s.selection
      → t.context ≡ s.context
      → t.finished ≡ false
      → s.moment ≤ t.moment
      → Answers s (finish w t)
  unfolding finish
  finish-Answers s t e f g open_yet l =
      let c = finish_success-IsEnd w in
      finish-Answers_step s (finish_success w t).0 (finish_success w t).1 e
        (ap (λ (x : SelectedChangeStream). x.selection) (c.frame t) ∙ f) (c.ends t)
        (λ q. Passes-le w s.moment t.moment _ l (finish_success-Passes w t open_yet q))
        (λ q. c.calm t (subst (λ (k : QueryContext). Calm w k) (sym g) q))

  -- An answer for a later state of the stream, from which the same events follow, is one for `s`.
  Answers-resume :
      (s t : SelectedChangeStream) (o : Out)
      → trace_of s ≡ trace_of t
      → t.selection ≡ s.selection
      → t.window ≡ s.window
      → t.context ≡ s.context
      → length t.items ≤ length s.items
      → s.moment ≤ t.moment
      → Answers t o
      → Answers s o
  Answers-resume s t (none, u) e f g h l m a =
      (e ∙ a.0, a.1 ∙ f, a.2, Passes-le w s.moment t.moment u.moment m a.3)
  Answers-resume s t (some (ok c), u) e f g h l m a = (
    e ∙ a.0,
    a.1 ∙ f,
    a.2 ∙ g,
    a.3 ∙ h,
    a.4,
    subst (λ (x : TargetSelection). contains_id x c.id_code ≡ true) f a.5,
    omega (arith, a.6),
    omega (arith, a.7),
  )
  Answers-resume s t (some (err x), u) e f g h l m a =
      (a.0, λ q. e ∙ a.1 (subst (λ (k : QueryContext). Calm w k) (sym h) q))

  -- What the caller of the next round may assume of it.
  abbrev Goes : SelectedChangeStream → (SelectedChangeStream → Out) → Type 0
  Goes s k = (t : SelectedChangeStream) → t.items ≡ s.items → t.finished ≡ false → Answers t (k t)

  -- The stream as it was before `item` was taken from the parser.
  abbrev with_item : Item → SelectedChangeStream → SelectedChangeStream
  with_item item s = record s { items = item ∷ s.items }

  timestamp-Answers :
      (b : Bool) (time : ℕ) (k : SelectedChangeStream → Out) (s : SelectedChangeStream)
      → s.finished ≡ false
      → Goes s k
      → trace_of (with_item (ok (timestamp time)) s)
        ≡ (if b then [] else trace d s.selection s.window time s.items)
      → let t = record s { current_time = time } in
        Answers (with_item (ok (timestamp time)) s) (if b then finish w t else k t)
  timestamp-Answers true time k s f g e =
      finish-Answers (with_item (ok (timestamp time)) s) (record s { current_time = time }) e refl
        refl f (omega arith)
  timestamp-Answers false time k s f g e =
      Answers-resume (with_item (ok (timestamp time)) s) (record s { current_time = time }) _ e refl
        refl refl (omega arith) (omega arith) (g (record s { current_time = time }) refl f)

  deliver-Answers :
      (id : ℕ) (value : ChangeValue) (item : Item) (s : SelectedChangeStream)
      → s.finished ≡ false
      → contains_id s.selection id ≡ true
      → trace_of (with_item item s)
        ≡ ok (record { id_code = id; time = s.current_time; value = value }) ∷ trace_of s
      → Answers (with_item item s) (deliver w d id value s)
  unfolding deliver fail
  deliver-Answers id value item s f c e =
      deliver_step (check_context w s).0 (check_context w s).1 ((check_context-IsCheck w).frame s)
        ((check_context-IsCheck w).calm s) ((check_context-IsCheck w).later s)
    where
      deliver_step :
          (r : QueryResult (Unit {0})) (t : SelectedChangeStream)
          → t ≡ record s { moment = t.moment }
          → (Calm w s.context → r ≡ ok tt)
          → s.moment ≤ t.moment
          → Answers (with_item item s) (elim r [
            | ok u ↦ (some (ok (record { id_code = id; time = s.current_time; value = value })), t)
            | err e ↦ fail e t
          ])
      deliver_step (ok u) t p q l = (
        e
            ∙ ap (λ x. ok (record { id_code = id; time = s.current_time; value = value }) ∷ x)
                (sym (ap (λ (x : SelectedChangeStream). trace_of x) p)),
        ap (λ (x : SelectedChangeStream). x.selection) p,
        ap (λ (x : SelectedChangeStream). x.window) p,
        ap (λ (x : SelectedChangeStream). x.context) p,
        ap (λ (x : SelectedChangeStream). x.finished) p ∙ f,
        c,
        omega (arith, ap (λ (x : SelectedChangeStream). length x.items) p),
        l,
      )
      deliver_step (err x) t p q l = (refl, λ h. cc (q h))

  command-Answers :
      (o : Option (ℕ × ChangeValue)) (item : Item) (k : SelectedChangeStream → Out)
      (s : SelectedChangeStream)
      → s.finished ≡ false
      → Goes s k
      → trace_of (with_item item s) ≡ elim o [
        | none ↦ trace_of s
        | some (id, value) ↦
            if contains_id s.selection id && contains s.window s.current_time
            then ok (record { id_code = id; time = s.current_time; value = value }) ∷ trace_of s
            else trace_of s
      ]
      → Answers (with_item item s) (elim o [
        | none ↦ k s
        | some (id, value) ↦
            if contains_id s.selection id && contains s.window s.current_time
            then deliver w d id value s
            else k s
      ])
  command-Answers none item k s f g e =
      Answers-resume (with_item item s) s (k s) e refl refl refl (omega arith) (omega arith)
        (g s refl f)
  command-Answers (some (id, value)) item k s f g e =
      elim (Bool-cases (contains_id s.selection id)) [
        | inl c ↦ elim (Bool-cases (contains s.window s.current_time)) [
          | inl i ↦ rw (c, i) (deliver-Answers id value item s f c (rw (c, i) at e))
          | inr o ↦
              rw (c, o)
                (Answers-resume (with_item item s) s (k s) (rw (c, o) at e) refl refl refl
                  (omega arith) (omega arith) (g s refl f))
        ]
        | inr c ↦ rw c (
            Answers-resume (with_item item s) s (k s) (rw c at e) refl refl refl (omega arith)
              (omega arith) (g s refl f))
      ]

  dispatch-Answers :
      (item : Item) (k : SelectedChangeStream → Out) (s : SelectedChangeStream)
      → s.finished ≡ false
      → Goes s k
      → Answers (with_item item s) (dispatch w d item k s)
  unfolding dispatch trace
  dispatch-Answers (err e) k s f g = unfold fail in (refl, λ q. refl)
  dispatch-Answers (ok (timestamp time)) k s f g =
      timestamp-Answers (after_end s.window time) time k s f g refl
  dispatch-Answers (ok command) k s f g =
      command-Answers (selected_value d command) (ok command) k s f g refl

  admitted-Answers :
      (item : Item) (k : SelectedChangeStream → Out) (r : QueryResult (Unit {0}))
      (s t : SelectedChangeStream)
      → t ≡ record s { moment = t.moment }
      → s.finished ≡ false
      → Goes s k
      → (Calm w s.context → r ≡ ok tt)
      → s.moment ≤ t.moment
      → Answers (with_item item s) (elim r [ ok u ↦ dispatch w d item k t | err e ↦ fail e t ])
  unfolding fail
  admitted-Answers item k (ok u) s t p f g h l =
      Answers-resume (with_item item s) (with_item item t) (dispatch w d item k t)
        (sym (ap (λ (x : SelectedChangeStream). trace_of (with_item item x)) p))
        (ap (λ (x : SelectedChangeStream). x.selection) p)
        (ap (λ (x : SelectedChangeStream). x.window) p)
        (ap (λ (x : SelectedChangeStream). x.context) p)
        (omega (arith, ap (λ (x : SelectedChangeStream). length x.items) p)) l
        (dispatch-Answers item k t (ap (λ (x : SelectedChangeStream). x.finished) p ∙ f)
          (λ x a b. g x (a ∙ ap (λ (x : SelectedChangeStream). x.items) p) b))
  admitted-Answers item k (err x) s t p f g h l = (refl, λ q. cc (h q))

  next_loop-Answers :
      (items : List Item) (s : SelectedChangeStream)
      → s.items ≡ items
      → s.finished ≡ false
      → Answers s (next_loop w d items s)
  unfolding next_loop increment_command_count
  next_loop-Answers [] s e f =
      finish-Answers s s
        (ap (trace d s.selection s.window s.current_time) e ∙ trace-nil s.current_time) refl refl f
        (omega arith)
    where
      trace-nil : (time : ℕ) → trace d s.selection s.window time [] ≡ []
      trace-nil time = unfold trace in refl
  next_loop-Answers (item ∷ rest) s e f =
      let s' = increment_command_count (record s { items = rest }) in
      let c = admit-IsCheck w item in
      Answers-resume s (with_item item s') (next_loop w d (item ∷ rest) s)
        (ap (trace d s.selection s.window s.current_time) e) refl refl refl
        (omega (arith, ap (length {0}) e)) (omega arith)
        (admitted-Answers item (next_loop w d rest) (admit w item s').0 s' (admit w item s').1
          (c.frame s') f (λ t a b. next_loop-Answers rest t a b) (c.calm s') (c.later s'))

  -- An answer of an unfinished stream is the next event of its body. No answer means that none is
  -- left; a change is the next event, its code is selected, and the stream has the other events;
  -- an error finishes the stream, and where all is calm it is the next and last event.
  pub next-Answers : (s : SelectedChangeStream) → s.finished ≡ false → Answers s (next w d s)
  unfolding next
  next-Answers s f =
      if_intro (Answers s) s.finished (λ e. cc) (λ _. next_loop-Answers s.items s refl f)

  -- A finished stream answers nothing, ever.
  pub next_finished : (s : SelectedChangeStream) → s.finished ≡ true → next w d s ≡ (none, s)
  unfolding next
  next_finished s f = rw f
