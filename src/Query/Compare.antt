-- ===== src/Query/Compare.antt =====
-- src/query/compare.rs: the comparison of two timelines of one signal.
pub mod Identical
pub mod Whole
use vcd_tools_rs.Prelude.{
  ℕ, zero, suc, ◌+◌, ◌%◌, Bool, true, false, ◌&&◌, ◌||◌, Option, none, some, List, [], ◌∷◌, map,
  Text, codes, nat_eqb, ltb, leb, saturating_add, u64_max, is_some_and, if◌then◌else◌, min,
}
use vcd_tools_rs.Prelude.Keys.{text_eqb}
use vcd_tools_rs.Value.{Formats, ChangeValue, TimeWindow, ascii_lower, normalize}
use vcd_tools_rs.Query.Exec.{Exec, ◌>>=◌, ◌>>◌, pure}
use vcd_tools_rs.Query.Context.{World, QueryContext, check}

abbrev pub timeline_context_check_interval : ℕ
timeline_context_check_interval = 4096

pub record SignalMismatch : Type 0 where
  pub signal_name : Text
  pub time : ℕ
  pub value1 : ChangeValue
  pub value2 : ChangeValue
  pub is_unknown : Bool

pub record ComparisonOptions : Type 0 where
  pub max_mismatches : Option ℕ
  pub signals_only : List Text
  pub ignore_unknown : Bool
  pub time_window : TimeWindow

abbrev pub Timeline : Type 0
Timeline = List (ℕ × ChangeValue)

-- `str::eq_ignore_ascii_case`.
unfoldable pub eq_ignore_ascii_case : Text → Text → Bool
eq_ignore_ascii_case s t = text_eqb (map ascii_lower s) (map ascii_lower t)

unfoldable pub value_is_unknown : ChangeValue → Bool
value_is_unknown (ChangeValue.integer i) = false
value_is_unknown (ChangeValue.float b) = false
value_is_unknown (ChangeValue.text t) =
    eq_ignore_ascii_case t (codes "x") || eq_ignore_ascii_case t (codes "z")

module _ (f : Formats) where
  -- The match of `values_match`.
  unfoldable pub same_value : ChangeValue → ChangeValue → Bool
  same_value (ChangeValue.integer a) (ChangeValue.integer b) = nat_eqb a b
  same_value (ChangeValue.float a) (ChangeValue.float b) = nat_eqb a b
  same_value (ChangeValue.text a) (ChangeValue.text b) = eq_ignore_ascii_case a b
  same_value a b = text_eqb (normalize f a) (normalize f b)

  unfoldable pub values_match : ChangeValue → ChangeValue → Bool → Bool
  values_match first second ignore_unknown =
      if ignore_unknown && (value_is_unknown first || value_is_unknown second)
      then true
      else same_value first second

abbrev pub next_time : Timeline → ℕ
next_time [] = u64_max
next_time ((t, v) ∷ rest) = t

abbrev pub is_done : Timeline → Bool
is_done [] = true
is_done (e ∷ rest) = false

abbrev pub unknown_text : ChangeValue
unknown_text = ChangeValue.text (codes "x")

-- A cursor: what it has still to walk, and the value it carries.
pub record Cursor : Type 0 where
  pub ahead : Timeline
  pub current : ChangeValue

-- The mismatches of the rest of a timeline, and their number so far.
abbrev pub Mismatches : Type 0
Mismatches = List SignalMismatch × ℕ

abbrev pub prepend_mismatch : SignalMismatch → Option Mismatches → Option Mismatches
prepend_mismatch m none = none
prepend_mismatch m (some (ms, count)) = some (m ∷ ms, count)

module _ (w : World) (c : QueryContext) where
  -- `poll_timeline_context`, with the work units already counted.
  unfoldable pub poll_timeline_context : ℕ → Exec ℕ (Unit {0})
  poll_timeline_context work =
      if nat_eqb (work % timeline_context_check_interval) 0 then check w c else pure tt

  -- An inner `while` loop: the cursor past the entries of one time, and the work units.
  unfoldable pub advance : ℕ → Timeline → ChangeValue → ℕ → Exec ℕ (Cursor × ℕ)
  advance time [] current work = pure (record { ahead = []; current = current }, work)
  advance time ((t, v) ∷ rest) current work =
      let next = advance time rest v (saturating_add work 1) in
      if nat_eqb t time
      then (poll_timeline_context (saturating_add work 1) >> next)
      else pure (record { ahead = (t, v) ∷ rest; current = current }, work)

module _ (w : World) (c : QueryContext) (f : Formats) (options : ComparisonOptions)
    (signal : Text) where
  abbrev pub mismatch_at : ℕ → ChangeValue → ChangeValue → SignalMismatch
  mismatch_at time a b = record {
    signal_name = signal;
    time = time;
    value1 = a;
    value2 = b;
    is_unknown = value_is_unknown a || value_is_unknown b;
  }

  -- A mismatch, after which the loop goes on or breaks.
  unfoldable pub record_mismatch :
      ℕ → Cursor → Cursor → ℕ → Exec ℕ (Option Mismatches) → Exec ℕ (Option Mismatches)
  record_mismatch time a b count rest = do
    check w c
    ms ←
        if is_some_and options.max_mismatches (λ maximum. leb maximum (count + 1))
        then pure (some ([], count + 1))
        else rest
    pure (prepend_mismatch (mismatch_at time a.current b.current) ms)

  -- The outer `while` loop. `none` means that the fuel ran out.
  unfoldable pub timeline_loop : ℕ → Cursor → Cursor → ℕ → ℕ → Exec ℕ (Option Mismatches)
  timeline_loop zero a b count work = pure none
  timeline_loop (suc fuel) a b count work =
      let time = min (next_time a.ahead) (next_time b.ahead) in
      if (is_done a.ahead && is_done b.ahead) || nat_eqb time u64_max
      then pure (some ([], count))
      else (do
        (a', work1) ← advance w c time a.ahead a.current work
        (b', work2) ← advance w c time b.ahead b.current work1
        if values_match f a'.current b'.current options.ignore_unknown
            then timeline_loop fuel a' b' count work2
            else record_mismatch time a' b' count (timeline_loop fuel a' b' (count + 1) work2))

  -- `compare_signal_timeline`.
  unfoldable pub compare_signal_timeline : ℕ → Timeline → Timeline → Exec ℕ (Option Mismatches)
  compare_signal_timeline fuel first second =
      timeline_loop fuel (record { ahead = first; current = unknown_text })
        (record { ahead = second; current = unknown_text }) 0 0
