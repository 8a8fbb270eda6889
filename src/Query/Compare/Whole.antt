-- ===== src/Query/Compare/Whole.antt =====
-- src/query/compare.rs: the comparison of two sources, whatever stands behind them.
use vcd_tools_rs.Prelude.{
  ℕ, ◌+◌, Bool, true, false, not, ◌&&◌, ◌||◌, Option, none, some, List, [], ◌∷◌, ◌++◌, Text, length,
  any, keep, ltb, nat_eqb, if◌then◌else◌,
}
use vcd_tools_rs.Prelude.Keys.{text_eqb, text_eq}
use vcd_tools_rs.Prelude.Assoc.{entries}
use vcd_tools_rs.Value.{Formats}
use vcd_tools_rs.Query.Exec.{Exec, ◌>>=◌, ◌>>◌, pure}
use vcd_tools_rs.Query.Context.{World, QueryContext, check, check_signal_count}
use vcd_tools_rs.Query.Compare.{
  SignalMismatch, ComparisonOptions, Timeline, Mismatches, compare_signal_timeline,
}

-- The trait: what a comparison asks of each side.
pub record TimelineProvider : Type 0 where
  pub ordered_signal_names : List Text
  pub display_name : Text
  pub collect_timelines :
      List Text → ComparisonOptions → QueryContext → Exec ℕ (List (Text × Timeline))
  pub validate_complete : QueryContext → Exec ℕ (Unit {0})

pub record ComparisonResult : Type 0 where
  pub file1 : Text
  pub file2 : Text
  pub common_signals : List Text
  pub signals_only_in_file1 : List Text
  pub signals_only_in_file2 : List Text
  pub mismatches : List SignalMismatch
  pub total_mismatches : ℕ
  pub signals_with_mismatches : ℕ
  pub passed : Bool

abbrev pub mentions : List Text → Text → Bool
mentions names name = any (text_eqb name) names

-- The order of strings: UTF-8 keeps the order of the characters.
unfoldable pub text_leb : Text → Text → Bool
text_leb [] t = true
text_leb (c ∷ s) [] = false
text_leb (c ∷ s) (d ∷ t) = ltb c d || (nat_eqb c d && text_leb s t)

unfoldable pub insert_sorted : Text → List Text → List Text
insert_sorted name [] = name ∷ []
insert_sorted name (other ∷ names) =
    let rest = insert_sorted name names in
    if text_leb name other then name ∷ other ∷ names else other ∷ rest

-- `common_signals.sort()`.
unfoldable pub sort : List Text → List Text
sort [] = []
sort (name ∷ names) = insert_sorted name (sort names)

unfoldable pub common_names : List Text → List Text → List Text
common_names names1 names2 = sort (keep (mentions names2) names1)

unfoldable pub only_names : List Text → List Text → List Text
only_names names1 names2 = keep (λ name. not (mentions names2 name)) names1

abbrev wanted_names : List Text → List Text → List Text
wanted_names [] common = common
wanted_names (name ∷ names) common = keep (mentions (name ∷ names)) common

-- The signals that the options select among the common ones.
unfoldable pub signals_to_compare : ComparisonOptions → List Text → List Text
signals_to_compare options common = wanted_names options.signals_only common

abbrev no_mismatch : List SignalMismatch → Bool
no_mismatch [] = true
no_mismatch (m ∷ ms) = false

-- The mismatches of one signal before those of the others; `none` when fuel runs out.
abbrev join_mismatches : Option Mismatches → Option Mismatches → Option Mismatches
join_mismatches (some (ms, count)) (some (rest, signals)) =
    some (ms ++ rest, if ltb 0 count then signals + 1 else signals)
join_mismatches (some m) none = none
join_mismatches none rest = none

module _ (w : World) (f : Formats) (options : ComparisonOptions) (c : QueryContext) where
  -- The loop over the signals, with fuel for each timeline.
  unfoldable pub compare_signals :
      ℕ → List Text → List (Text × Timeline) → List (Text × Timeline) → Exec ℕ (Option Mismatches)
  compare_signals fuel [] values1 values2 = pure (some ([], 0))
  compare_signals fuel (signal ∷ signals) values1 values2 = do
    check w c
    found ←
        compare_signal_timeline w c f options signal fuel (entries signal values1)
          (entries signal values2)
    rest ← compare_signals fuel signals values1 values2
    pure (join_mismatches found rest)

  unfoldable pub result_of :
      TimelineProvider → TimelineProvider → List Text → Mismatches → ComparisonResult
  result_of first second common (ms, signals) = record {
    file1 = first.display_name;
    file2 = second.display_name;
    common_signals = common;
    signals_only_in_file1 = only_names first.ordered_signal_names second.ordered_signal_names;
    signals_only_in_file2 = only_names second.ordered_signal_names first.ordered_signal_names;
    mismatches = ms;
    total_mismatches = length ms;
    signals_with_mismatches = signals;
    passed = no_mismatch ms;
  }

  abbrev with_result :
      TimelineProvider → TimelineProvider → List Text → Option Mismatches → Option ComparisonResult
  with_result first second common none = none
  with_result first second common (some m) = some (result_of first second common m)

  -- `compare_providers`. `none` means that the fuel ran out.
  unfoldable pub compare_providers :
      ℕ → TimelineProvider → TimelineProvider → Exec ℕ (Option ComparisonResult)
  compare_providers fuel first second = do
    check w c
    let common = common_names first.ordered_signal_names second.ordered_signal_names
    let signals = signals_to_compare options common
    check_signal_count w c (length signals)
    values1 ← first.collect_timelines signals options c
    first.validate_complete c
    values2 ← second.collect_timelines signals options c
    second.validate_complete c
    ms ← compare_signals fuel signals values1 values2
    check w c
    first.validate_complete c
    second.validate_complete c
    check w c
    pure (with_result first second common ms)
