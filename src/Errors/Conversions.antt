-- ===== src/Errors/Conversions.antt =====
-- src/query/mod.rs: what is kept when an error crosses the boundary of the query engine.
use vcd_tools_rs.Prelude.{◌≡◌, refl}
use vcd_tools_rs.Errors.{
  VcdError, io, generation_mismatch, other, missing_end_definitions, duplicate_signal,
  missing_signals, missing_signal, invalid_occurrence, parse, from_vcd, into_vcd_error,
}

-- A `VcdError` that enters the query engine and leaves it again is unchanged, whatever it is.
pub into_vcd_error-from_vcd : (e : VcdError) → into_vcd_error (from_vcd e) ≡ e
unfolding into_vcd_error from_vcd
into_vcd_error-from_vcd (io generation_mismatch) = refl
into_vcd_error-from_vcd (io (other m)) = refl
into_vcd_error-from_vcd missing_end_definitions = refl
into_vcd_error-from_vcd (duplicate_signal s) = refl
into_vcd_error-from_vcd (missing_signals s) = refl
into_vcd_error-from_vcd (missing_signal s) = refl
into_vcd_error-from_vcd invalid_occurrence = refl
into_vcd_error-from_vcd (parse m) = refl
