-- ===== src/Query/Find.antt =====
-- src/query/ops.rs: the search for the n-th occurrence of a value.
pub mod Occurrence
use vcd_tools_rs.Prelude.{
  ℕ, zero, suc, ◌+◌, Bool, Option, none, some, List, [], ◌∷◌, Text, ltb, nat_eqb, if◌then◌else◌, ok,
  err,
}
use mathlib.Core.Option
use vcd_tools_rs.Prelude.Keys.{text_eqb}
use vcd_tools_rs.Errors.{QueryError, QueryResult, invalid_occurrence, missing_signal}
use vcd_tools_rs.Value.{Formats, TargetValue, TimeWindow, normalize, normalize_target}
use vcd_tools_rs.Vcd.{VcdDisplay}
use vcd_tools_rs.Catalog.{SignalMeta}
use vcd_tools_rs.Query.Exec.{Exec, ◌>>=◌, ◌>>◌}
use vcd_tools_rs.Query.Context.{World, QueryContext, check_at}
use vcd_tools_rs.Query.Opened.{OpenedVcd, signal}
use vcd_tools_rs.Query.Stream
use vcd_tools_rs.Query.Extract.{TimeValue, OpenedTimeValueIter, later, next_row, extract}

abbrev pub IterExec : Type 0
IterExec = Exec OpenedTimeValueIter (Unit {0})

abbrev pub Found : Type 0
Found = QueryResult (Option TimeValue)

-- An occurrence that is found, once the generation is validated.
abbrev pub published : TimeValue → QueryResult (Unit {0}) → Found
published v (ok u) = ok (some v)
published v (err e) = err e

abbrev pub with_size : ℕ → Found → QueryResult (Option TimeValue × ℕ)
with_size size (ok v) = ok (v, size)
with_size size (err e) = err e

module _ (w : World) where
  unfoldable pub check_iter : IterExec
  check_iter it = (check_at w it.context it.stream.moment, later it)

  unfoldable pub validate_stream : IterExec
  validate_stream it =
      let (r, s) = Stream.validate_current_generation w it.stream in (r, record it { stream = s })

  -- `OpenedTimeValueIter::validate_current_generation`.
  unfoldable pub validate_iter : IterExec
  validate_iter = do check_iter; validate_stream; check_iter

module _ (w : World) (d : VcdDisplay) (f : Formats) where
  abbrev pub is_match : Text → TimeValue → Bool
  is_match target v = text_eqb (normalize f v.value) target

  -- The `while let` loop. `none` means that the fuel ran out.
  unfoldable pub find_loop : ℕ → Text → ℕ → ℕ → OpenedTimeValueIter → Option Found
  find_loop zero target occurrence count it = none
  find_loop (suc fuel) target occurrence count it =
      let (r, t) = next_row w d it in
      elim r [
        | none ↦ some (ok none)
        | some (err e) ↦ some (err e)
        | some (ok v) ↦
            let rest = λ (n : ℕ). find_loop fuel target occurrence n t in
            if is_match target v
            then (if nat_eqb (count + 1) occurrence
                then some (published v (validate_iter w t).0)
                else rest (count + 1))
            else rest count
      ]

  -- What follows once the size of the signal is known.
  unfoldable pub find_events :
      ℕ
      → Text
      → ℕ
      → ℕ
      → QueryResult OpenedTimeValueIter
      → Option (QueryResult (Option TimeValue × ℕ))
  find_events fuel target occurrence size (err e) = some (err e)
  find_events fuel target occurrence size (ok it) =
      Option.map (with_size size) (find_loop fuel target occurrence 0 it)

  module _ (o : OpenedVcd) (fuel : ℕ) where
    unfoldable pub find_signal :
        Text
        → TargetValue
        → ℕ
        → TimeWindow
        → QueryContext
        → ℕ
        → Option SignalMeta
        → Option (QueryResult (Option TimeValue × ℕ))
    find_signal name target occurrence window c moment none =
        some (err (QueryError.vcd (missing_signal name)))
    find_signal name target occurrence window c moment (some m) =
        find_events fuel (normalize_target f target) occurrence m.size
          (extract w o (name ∷ []) window c moment).0

    -- `OpenedVcd::find_nth_occurrence`, from a look at the surroundings on.
    unfoldable pub find_nth_occurrence :
        Text
        → TargetValue
        → ℕ
        → TimeWindow
        → QueryContext
        → ℕ
        → Option (QueryResult (Option TimeValue × ℕ))
    find_nth_occurrence name target occurrence window c moment =
        if ltb occurrence 1
        then some (err (QueryError.vcd invalid_occurrence))
        else elim (check_at w c moment) [
          | err e ↦ some (err e)
          | ok u ↦ find_signal name target occurrence window c (suc moment) (signal o name)
        ]
