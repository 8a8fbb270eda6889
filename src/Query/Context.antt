-- ===== src/Query/Context.antt =====
-- src/query/mod.rs: limits, cancellation and deadlines.
-- Cancellation, the clock and the file may change while a query runs. A moment numbers the
-- program's looks at them, in order; every look is at a later moment than the one before.
use vcd_tools_rs.Prelude.{
  ℕ, suc, Bool, false, Option, none, some, leb, ltb, is_some_and, if◌then◌else◌, Result, ok, err,
}
use vcd_tools_rs.Errors.{
  VcdError, QueryLimitKind, QueryResult, cancelled, deadline_exceeded, limit_exceeded, signals,
  rows, result_bytes, commands,
}
use vcd_tools_rs.Query.Exec.{Exec, ◌>>◌}

-- What each look sees: the clock, and whether the file is still the opened generation
-- (`validate_complete`, `validate_source`).
pub record World : Type 0 where
  pub now : ℕ → ℕ
  pub validate : ℕ → Result VcdError (Unit {0})

pub record QueryLimits : Type 0 where
  pub max_signals : Option ℕ
  pub max_rows : Option ℕ
  pub max_result_bytes : Option ℕ
  pub max_commands : Option ℕ
  pub deadline : Option ℕ

abbrev pub unlimited : QueryLimits
unlimited = record {
  max_signals = none;
  max_rows = none;
  max_result_bytes = none;
  max_commands = none;
  deadline = none;
}

-- A `CancellationToken` is the flag that each look at it finds.
pub record QueryContext : Type 0 where
  pub is_cancelled : ℕ → Bool
  pub limits : QueryLimits

-- `QueryContext::legacy_unlimited`: its token is shared with nobody, so it is never cancelled.
abbrev pub legacy_unlimited : QueryContext
legacy_unlimited = record { is_cancelled = λ _. false; limits = unlimited }

-- `limit.filter(|limit| actual > *limit)`.
unfoldable pub exceeded : Option ℕ → ℕ → Option ℕ
exceeded none actual = none
exceeded (some limit) actual = if ltb limit actual then some limit else none

unfoldable pub over_limit : QueryLimitKind → Option ℕ → ℕ → QueryResult (Unit {0})
over_limit kind limit actual = elim (exceeded limit actual) [
  | none ↦ ok tt
  | some max ↦ err (limit_exceeded kind max actual)
]

module _ (w : World) (c : QueryContext) where
  -- `QueryContext::check` at one moment.
  unfoldable pub check_at : ℕ → QueryResult (Unit {0})
  check_at moment =
      if c.is_cancelled moment
      then err cancelled
      else if is_some_and c.limits.deadline (λ deadline. leb deadline (w.now moment))
      then err deadline_exceeded
      else ok tt

  unfoldable pub check : Exec ℕ (Unit {0})
  check moment = (check_at moment, suc moment)

  unfoldable pub check_signal_count : ℕ → Exec ℕ (Unit {0})
  check_signal_count actual = do
    check
    λ moment. (over_limit signals c.limits.max_signals actual, moment)

  unfoldable pub check_u64_limit : QueryLimitKind → Option ℕ → ℕ → Exec ℕ (Unit {0})
  check_u64_limit kind limit actual = do check; λ moment. (over_limit kind limit actual, moment)

  unfoldable pub check_rows : ℕ → Exec ℕ (Unit {0})
  check_rows actual = check_u64_limit rows c.limits.max_rows actual

  unfoldable pub check_result_bytes : ℕ → Exec ℕ (Unit {0})
  check_result_bytes actual = check_u64_limit result_bytes c.limits.max_result_bytes actual

  unfoldable pub check_commands : ℕ → Exec ℕ (Unit {0})
  check_commands actual = check_u64_limit commands c.limits.max_commands actual
