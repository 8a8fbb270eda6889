-- ===== src/Query/Toggles.antt =====
-- src/query/ops.rs: the number of changes of each target's value.
pub mod Texts
pub mod Counts
use mathlib.Core.Option
use vcd_tools_rs.Prelude.{
  ℕ, zero, suc, ◌+◌, Bool, true, false, not, ◌&&◌, Option, none, some, List, [], ◌∷◌, Text, length,
  if◌then◌else◌, ok, err, ◌≡◌, refl, ap, ◌∙◌, sym, ◌*◌, ◌<◌,
}
use vcd_tools_rs.Prelude.Keys.{text_eqb, text_eq}
use vcd_tools_rs.Prelude.Assoc.{lookup, insert}
use vcd_tools_rs.Errors.{QueryError, QueryResult}
use vcd_tools_rs.Value.{Formats, TimeWindow, format_value_for_signal}
use vcd_tools_rs.Vcd.{VcdDisplay}
use vcd_tools_rs.Catalog.{SignalMeta}
use vcd_tools_rs.Query.Exec.{Exec, ◌>>=◌, ◌>>◌}
use vcd_tools_rs.Query.Context.{World, QueryContext, check_signal_count}
use vcd_tools_rs.Query.Opened.{OpenedVcd, signal}
use vcd_tools_rs.Query.Extract.{TimeValue, OpenedTimeValueIter, next_row, extract}

-- The counts and the last texts of the targets.
pub record Toggles : Type 0 where
  pub toggle_counts : List (Text × ℕ)
  pub last_values : List (Text × Text)

-- The maps before the first event.
unfoldable pub no_toggles : List Text → Toggles
no_toggles [] = record { toggle_counts = []; last_values = [] }
no_toggles (name ∷ names) =
    let rest = no_toggles names in
    record {
      toggle_counts = insert name 0 rest.toggle_counts;
      last_values = insert name [] rest.last_values;
    }

abbrev is_empty : Text → Bool
is_empty [] = true
is_empty (c ∷ t) = false

abbrev increment : Option ℕ → Text → List (Text × ℕ) → List (Text × ℕ)
increment none name counts = counts
increment (some n) name counts = insert name (n + 1) counts

unfoldable pub bump : Option Text → Text → Text → List (Text × ℕ) → List (Text × ℕ)
bump none name formatted counts = counts
bump (some last) name formatted counts =
    if not (is_empty last) && not (text_eqb last formatted)
    then increment (lookup name counts) name counts
    else counts

module _ (f : Formats) (o : OpenedVcd) where
  -- `sizes.get(&event.signal).copied().unwrap_or(1)`; `sizes` has the targets that are known.
  abbrev size_of : Option SignalMeta → ℕ
  size_of none = 1
  size_of (some m) = m.size

  -- The body of the loop.
  unfoldable pub count_event : TimeValue → Toggles → Toggles
  count_event event t =
      let formatted = format_value_for_signal f event.value (size_of (signal o event.signal)) in
      record {
        toggle_counts =
            bump (lookup event.signal t.last_values) event.signal formatted t.toggle_counts;
        last_values = insert event.signal formatted t.last_values;
      }

  module _ (w : World) (d : VcdDisplay) where
    -- The loop. `none` means that the fuel ran out.
    unfoldable pub toggles_loop : ℕ → Toggles → OpenedTimeValueIter → Option (QueryResult Toggles)
    toggles_loop zero t it = none
    toggles_loop (suc fuel) t it =
        let (r, u) = next_row w d it in
        elim r [
          | none ↦ some (ok t)
          | some (err e) ↦ some (err e)
          | some (ok event) ↦ toggles_loop fuel (count_event event t) u
        ]

    abbrev pub counts_of : QueryResult Toggles → QueryResult (List (Text × ℕ))
    counts_of (ok t) = ok t.toggle_counts
    counts_of (err e) = err e

    unfoldable pub count_extracted :
        ℕ → List Text → QueryResult OpenedTimeValueIter → Option (QueryResult (List (Text × ℕ)))
    count_extracted fuel targets (err e) = some (err e)
    count_extracted fuel targets (ok it) =
        Option.map counts_of (toggles_loop fuel (no_toggles targets) it)

    -- `OpenedVcd::count_toggles`, from a look at the surroundings on.
    unfoldable pub count_toggles :
        ℕ → List Text → TimeWindow → QueryContext → ℕ → Option (QueryResult (List (Text × ℕ)))
    count_toggles fuel targets window c moment =
        count_extracted fuel targets
          ((check_signal_count w c (length targets) >> extract w o targets window c) moment).0
