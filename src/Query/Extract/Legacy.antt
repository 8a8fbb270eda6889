-- ===== src/Query/Extract/Legacy.antt =====
-- src/lib.rs: `TimeValueIter`, the iterator of the path-based API.
pub mod Answers
pub mod Rounds
pub mod Equivalence
use mathlib.Core.Option
use vcd_tools_rs.Prelude.{
  ℕ, zero, suc, ◌+◌, Bool, true, false, Option, none, some, List, [], ◌∷◌, ◌++◌, map, Text,
  if◌then◌else◌, Result, ok, err, nat_eq,
}
use vcd_tools_rs.Prelude.Assoc.{lookup}
use vcd_tools_rs.Errors.{VcdError, io}
use vcd_tools_rs.Value.{ChangeValue, TimeWindow, contains, after_end}
use vcd_tools_rs.Vcd.{Item, Command, timestamp, VcdDisplay, command_to_change_value}
use vcd_tools_rs.Query.Extract.{TimeValue}

-- `items` is what the parser has still to yield.
pub record TimeValueIter : Type 0 where
  pub items : List Item
  pub target_map : List (ℕ × List Text)
  pub window : TimeWindow
  pub current_time : ℕ
  pub finished : Bool
  pub pending : List TimeValue

abbrev pub LegacyOut : Type 0
LegacyOut = Option (Result VcdError TimeValue) × TimeValueIter

abbrev pub new_legacy : List Item → List (ℕ × List Text) → TimeWindow → TimeValueIter
new_legacy items target_map window = record {
  items = items;
  target_map = target_map;
  window = window;
  current_time = 0;
  finished = false;
  pending = [];
}

abbrev pub named_row : ℕ → ChangeValue → Text → TimeValue
named_row time value name = record { signal = name; time = time; value = value }

-- The first waiting row goes out; the next round follows where none waits.
unfoldable pub pop_pending :
    List TimeValue → (TimeValueIter → LegacyOut) → TimeValueIter → LegacyOut
pop_pending [] rest l = rest l
pop_pending (v ∷ vs) rest l = (some (ok v), record l { pending = vs })

-- A change of a wanted code, with the names that it is wanted under.
unfoldable pub wanted :
    List Text → ChangeValue → (TimeValueIter → LegacyOut) → TimeValueIter → LegacyOut
wanted names value rest l =
    if contains l.window l.current_time
    then (let pending = l.pending ++ map (named_row l.current_time value) names in
        pop_pending pending rest (record l { pending = pending }))
    else if after_end l.window l.current_time
    then (none, record l { finished = true })
    else rest l

-- The body of the `while` loop; `rest` is the next round.
unfoldable pub legacy_round :
    VcdDisplay → Item → (TimeValueIter → LegacyOut) → TimeValueIter → LegacyOut
legacy_round d (err e) rest l = (some (err (io e)), l)
legacy_round d (ok (timestamp t)) rest l =
    if after_end l.window t
    then (none, record l { current_time = t; finished = true })
    else rest (record l { current_time = t })
legacy_round d (ok command) rest l = elim (command_to_change_value d command) [
  | none ↦ rest l
  | some (id, value) ↦ elim (lookup id l.target_map) [
    | none ↦ rest l
    | some names ↦ wanted names value rest l
  ]
]

module _ (d : VcdDisplay) where
  unfoldable pub legacy_loop : List Item → TimeValueIter → LegacyOut
  legacy_loop [] l = (none, record l { finished = true })
  legacy_loop (item ∷ rest) l = legacy_round d item (legacy_loop rest) (record l { items = rest })

  -- `Iterator::next`.
  unfoldable pub legacy_next : TimeValueIter → LegacyOut
  legacy_next l =
      pop_pending l.pending (λ m. if m.finished then (none, m) else legacy_loop m.items m) l

  abbrev pub prepend_legacy :
      TimeValue → Result VcdError (List TimeValue) → Result VcdError (List TimeValue)
  prepend_legacy v (ok vs) = ok (v ∷ vs)
  prepend_legacy v (err e) = err e

  -- `collect::<Result<Vec<_>>>()`. `none` means that the fuel ran out.
  unfoldable pub collect_legacy : ℕ → TimeValueIter → Option (Result VcdError (List TimeValue))
  collect_legacy zero l = none
  collect_legacy (suc fuel) l =
      let (r, t) = legacy_next l in
      elim r [
        | none ↦ some (ok [])
        | some (err e) ↦ some (err e)
        | some (ok v) ↦ Option.map (prepend_legacy v) (collect_legacy fuel t)
      ]
