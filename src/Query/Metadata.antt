-- ===== src/Query/Metadata.antt =====
-- src/opened/mod.rs `compute_metadata_with_context`, src/lib.rs `compute_time_bounds`: the scan of
-- a whole body for its first and last time.
pub mod Agreement
use vcd_tools_rs.Prelude.{
  ℕ, ◌+◌, ◌%◌, Option, none, some, List, [], ◌∷◌, nat_eqb, saturating_add, if◌then◌else◌, Result,
  ok, err, ◌>>=◌ as ◌then_ok◌,
}
use vcd_tools_rs.Errors.{VcdError, io, QueryError, QueryResult, from_vcd, commands}
use vcd_tools_rs.Vcd.{
  Item, Command, timestamp, change_scalar, change_vector, change_real, change_string, other,
}
use vcd_tools_rs.Catalog
use vcd_tools_rs.Query.Exec.{Exec, ◌>>=◌, ◌>>◌, pure}
use vcd_tools_rs.Query.Context.{World, QueryContext, check, over_limit}
use vcd_tools_rs.Query.Opened.{OpenedVcd}
use vcd_tools_rs.Query.Stream.{command_check_interval, validated}

pub record Bounds : Type 0 where
  pub current_time : ℕ
  pub start_time : Option ℕ
  pub end_time : Option ℕ

abbrev pub no_bounds : Bounds
no_bounds = record { current_time = 0; start_time = none; end_time = none }

-- `get_or_insert` and `unwrap_or`.
abbrev pub get_or_insert : Option ℕ → ℕ → Option ℕ
get_or_insert none t = some t
get_or_insert (some s) t = some s

abbrev pub unwrap_or : Option ℕ → ℕ → ℕ
unwrap_or none d = d
unwrap_or (some t) d = t

-- A value change, at the current time.
unfoldable pub touch : Bounds → Bounds
touch b = record b {
  start_time = get_or_insert b.start_time b.current_time;
  end_time = some b.current_time;
}

-- The match of the loop of `compute_metadata_with_context`.
unfoldable pub see : Command → Bounds → Bounds
see (timestamp t) b = record {
  current_time = t;
  start_time = get_or_insert b.start_time t;
  end_time = some t;
}
see (change_scalar id v) b = touch b
see (change_vector id v) b = touch b
see (change_real id v) b = touch b
see (change_string id v) b = touch b
see other b = b

-- The first and the last time of the scan of an opened file, as it finishes.
unfoldable pub first_last : Bounds → ℕ × ℕ
first_last b = let start = unwrap_or b.start_time 0 in (start, unwrap_or b.end_time start)

-- The loop of `compute_time_bounds_in_place` over its three variables, and its end.
unfoldable pub in_place_loop : List Item → ℕ → Option ℕ → Option ℕ → Result VcdError (ℕ × ℕ)
in_place_loop [] current_time start_time end_time =
    let start = unwrap_or start_time 0 in ok (start, unwrap_or end_time start)
in_place_loop (err e ∷ rest) current_time start_time end_time = err (io e)
in_place_loop (ok (timestamp t) ∷ rest) current_time start_time end_time =
    in_place_loop rest t (get_or_insert start_time t) (some t)
in_place_loop (ok (change_scalar id v) ∷ rest) current_time start_time end_time =
    in_place_loop rest current_time (get_or_insert start_time current_time) (some current_time)
in_place_loop (ok (change_vector id v) ∷ rest) current_time start_time end_time =
    in_place_loop rest current_time (get_or_insert start_time current_time) (some current_time)
in_place_loop (ok (change_real id v) ∷ rest) current_time start_time end_time =
    in_place_loop rest current_time (get_or_insert start_time current_time) (some current_time)
in_place_loop (ok (change_string id v) ∷ rest) current_time start_time end_time =
    in_place_loop rest current_time (get_or_insert start_time current_time) (some current_time)
in_place_loop (ok other ∷ rest) current_time start_time end_time =
    in_place_loop rest current_time start_time end_time

-- `compute_time_bounds`.
unfoldable pub compute_time_bounds : List Item → Result VcdError (ℕ × ℕ)
compute_time_bounds items = in_place_loop items 0 none none

pub record VcdMeta : Type 0 where
  pub timescale : Option (ℕ × ℕ)
  pub signal_count : ℕ
  pub start_time : ℕ
  pub end_time : ℕ

-- `command.map_err(VcdError::from).map_err(QueryError::from)`.
unfoldable pub parsed : Item → QueryResult Command
parsed (ok command) = ok command
parsed (err e) = err (from_vcd (io e))

unfoldable pub meta_of_bounds : OpenedVcd → ℕ × ℕ → VcdMeta
meta_of_bounds o (start, end) = record {
  timescale = o.timescale;
  signal_count = Catalog.len o.catalog;
  start_time = start;
  end_time = end;
}

unfoldable pub validate_reader : World → Exec ℕ (Unit {0})
validate_reader w m = (validated (w.validate m), m + 1)

module _ (w : World) (c : QueryContext) where
  unfoldable pub poll : ℕ → Command → Exec ℕ (Unit {0})
  poll count (timestamp t) = check w c
  poll count command = if nat_eqb (count % command_check_interval) 0 then check w c else pure tt

  unfoldable pub scan_loop : List Item → ℕ → Bounds → Exec ℕ Bounds
  scan_loop [] count b = pure b
  scan_loop (item ∷ rest) count b = do
    λ (m : ℕ). (over_limit commands c.limits.max_commands (saturating_add count 1), m)
    command ← λ (m : ℕ). (parsed item, m)
    poll (saturating_add count 1) command
    scan_loop rest (saturating_add count 1) (see command b)

  -- `compute_metadata_with_context`.
  unfoldable pub compute_metadata : OpenedVcd → Exec ℕ VcdMeta
  compute_metadata o = do
    check w c
    validate_reader w
    b ← scan_loop o.body 0 no_bounds
    check w c
    validate_reader w
    check w c
    pure (meta_of_bounds o (first_last b))
