-- ===== src/Errors.antt =====
-- src/lib.rs, src/query/mod.rs, src/opened/identity.rs: error values, and how one kind becomes
-- the other.
pub mod Conversions
use vcd_tools_rs.Prelude.{
  ℕ, ◌≡◌, Bool, true, false, Option, none, some, ◌++◌, Text, codes, Result, ok, err,
}
use vcd_tools_rs.Value.Number.{show_decimal}

-- `std::io::Error`: either one that carries the private `GenerationMismatch`, or any other.
pub data IoError : Type 0 where
  generation_mismatch : IoError
  other : Text → IoError

pub data VcdError : Type 0 where
  io : IoError → VcdError
  missing_end_definitions : VcdError
  duplicate_signal : Text → VcdError
  missing_signals : Text → VcdError
  missing_signal : Text → VcdError
  invalid_occurrence : VcdError
  parse : Text → VcdError

pub data QueryLimitKind : Type 0 where
  signals rows result_bytes commands : QueryLimitKind

pub data QueryErrorCode : Type 0 where
  cancelled deadline_exceeded limit_exceeded stale_source queue_full source_unavailable :
      QueryErrorCode
  signal_not_found vcd fst unsupported_waveform internal : QueryErrorCode

pub data QueryError : Type 0 where
  cancelled deadline_exceeded : QueryError
  limit_exceeded : QueryLimitKind → ℕ → ℕ → QueryError
  stale_source : VcdError → QueryError
  queue_full : QueryError
  source_unavailable : IoError → QueryError
  signal_not_found : Text → QueryError
  vcd : VcdError → QueryError
  fst : Text → QueryError
  unsupported_waveform : Text → QueryError
  internal : Text → QueryError

abbrev pub QueryResult : Type 0 → Type 0
QueryResult A = Result QueryError A

-- `QueryLimitKind::code`.
unfoldable pub kind_code : QueryLimitKind → Text
kind_code signals = codes "signals"
kind_code rows = codes "rows"
kind_code result_bytes = codes "result_bytes"
kind_code commands = codes "commands"

-- `QueryError::code`.
unfoldable pub code : QueryError → QueryErrorCode
code QueryError.cancelled = QueryErrorCode.cancelled
code QueryError.deadline_exceeded = QueryErrorCode.deadline_exceeded
code (QueryError.limit_exceeded kind limit actual) = QueryErrorCode.limit_exceeded
code (QueryError.stale_source e) = QueryErrorCode.stale_source
code QueryError.queue_full = QueryErrorCode.queue_full
code (QueryError.source_unavailable e) = QueryErrorCode.source_unavailable
code (QueryError.signal_not_found s) = QueryErrorCode.signal_not_found
code (QueryError.vcd e) = QueryErrorCode.vcd
code (QueryError.fst m) = QueryErrorCode.fst
code (QueryError.unsupported_waveform m) = QueryErrorCode.unsupported_waveform
code (QueryError.internal m) = QueryErrorCode.internal

unfoldable pub limit_kind : QueryError → Option QueryLimitKind
limit_kind (QueryError.limit_exceeded kind limit actual) = some kind
limit_kind _ = none

unfoldable pub limit : QueryError → Option ℕ
limit (QueryError.limit_exceeded kind max actual) = some max
limit _ = none

unfoldable pub actual : QueryError → Option ℕ
actual (QueryError.limit_exceeded kind max n) = some n
actual _ = none

unfoldable pub is_generation_mismatch : IoError → Bool
is_generation_mismatch generation_mismatch = true
is_generation_mismatch (other m) = false

-- `From<VcdError> for QueryError`.
unfoldable pub from_vcd : VcdError → QueryError
from_vcd (io generation_mismatch) = QueryError.stale_source (io generation_mismatch)
from_vcd (io (other m)) = QueryError.source_unavailable (other m)
from_vcd missing_end_definitions = QueryError.vcd missing_end_definitions
from_vcd (duplicate_signal s) = QueryError.vcd (duplicate_signal s)
from_vcd (missing_signals s) = QueryError.vcd (missing_signals s)
from_vcd (missing_signal s) = QueryError.vcd (missing_signal s)
from_vcd invalid_occurrence = QueryError.vcd invalid_occurrence
from_vcd (parse m) = QueryError.vcd (parse m)

-- `Display for VcdError`. The text of an `io::Error` is the standard library's, but for the
-- program's own `GenerationMismatch`.
unfoldable pub show_io : IoError → Text
show_io generation_mismatch = codes "VCD source does not match the opened generation"
show_io (other m) = m

unfoldable pub show_vcd : VcdError → Text
unfolding show_io
show_vcd (io e) = codes "I/O error: " ++ show_io e
show_vcd missing_end_definitions = codes "missing $enddefinitions marker in VCD file"
show_vcd (duplicate_signal s) = codes "duplicate signal name detected: " ++ s
show_vcd (missing_signals s) = codes "signals not found in VCD: " ++ s
show_vcd (missing_signal s) = codes "signal not found in VCD: " ++ s
show_vcd invalid_occurrence = codes "occurrence must be >= 1"
show_vcd (parse m) = codes "unexpected parse error: " ++ m

-- `Display for QueryError`.
unfoldable pub show : QueryError → Text
unfolding show_vcd show_io kind_code show_decimal
show QueryError.cancelled = codes "query cancelled"
show QueryError.deadline_exceeded = codes "query deadline exceeded"
show (QueryError.limit_exceeded kind max n) =
    codes "query "
    ++ kind_code kind
    ++ codes " limit exceeded: limit "
    ++ show_decimal max
    ++ codes ", actual "
    ++ show_decimal n
show (QueryError.stale_source e) = show_vcd e
show QueryError.queue_full = codes "query queue is full"
show (QueryError.source_unavailable e) = codes "source unavailable: " ++ show_io e
show (QueryError.signal_not_found s) = codes "signal not found: " ++ s
show (QueryError.vcd e) = show_vcd e
show (QueryError.fst m) = codes "FST query error: " ++ m
show (QueryError.unsupported_waveform m) = codes "unsupported waveform: " ++ m
show (QueryError.internal m) = codes "internal query error: " ++ m

unfoldable pub into_vcd_error : QueryError → VcdError
unfolding show
into_vcd_error (QueryError.stale_source e) = e
into_vcd_error (QueryError.vcd e) = e
into_vcd_error (QueryError.source_unavailable e) = io e
into_vcd_error QueryError.cancelled = parse (codes "query cancelled")
into_vcd_error QueryError.deadline_exceeded = parse (codes "query deadline exceeded")
into_vcd_error e = parse (show e)
