-- ===== src/Server/Service.antt =====
-- src/server/service.rs: the configured limits of a service, and the context of a query with the
-- limits that its request may lower.
pub mod Limits
use vcd_tools_rs.Prelude.{
  ℕ, Bool, ◌||◌, Option, none, some, Text, codes, Result, ok, err, ltb, nat_eqb, if◌then◌else◌,
}
use vcd_tools_rs.Query.Context.{QueryLimits, QueryContext, unlimited}
use vcd_tools_rs.Server.Protocol.{terminal_frame_reserve_bytes, bad_request_error}
use vcd_tools_rs.Server.Answer.{Answer, ◌>>=◌, ◌>>◌, reject_if}
use vcd_tools_rs.Server.Stream.{lower_limit}

abbrev pub hard_max_signals : ℕ
hard_max_signals = 65536

abbrev pub hard_max_rows : ℕ
hard_max_rows = 16000000

abbrev pub hard_max_response_bytes : ℕ
hard_max_response_bytes = 1073741824

abbrev pub hard_max_commands : ℕ
hard_max_commands = 4000000000

pub record ServiceConfig : Type 0 where
  pub max_signals : ℕ
  pub max_rows : ℕ
  pub max_response_bytes : ℕ
  pub max_commands : ℕ

abbrev pub default_service : ServiceConfig
default_service = record {
  max_signals = 4096;
  max_rows = 1000000;
  max_response_bytes = 268435456;
  max_commands = 1000000000;
}

abbrev pub outside_bounds : ServiceConfig → Bool
outside_bounds c =
    nat_eqb c.max_signals 0
    || (ltb hard_max_signals c.max_signals
        || (nat_eqb c.max_rows 0
            || (ltb hard_max_rows c.max_rows
                || (ltb c.max_response_bytes terminal_frame_reserve_bytes
                    || (ltb hard_max_response_bytes c.max_response_bytes
                        || (nat_eqb c.max_commands 0 || ltb hard_max_commands c.max_commands))))))

unfoldable pub validate_service : ServiceConfig → Result Text (Unit {0})
validate_service c =
    if outside_bounds c
    then err (codes "server query limits are outside supported bounds")
    else ok tt

-- What the runtime gives to a request: its token, as the flag that each look at it finds, and its
-- deadline. The gate of its scans is left out.
pub record RequestContext : Type 0 where
  pub is_cancelled : ℕ → Bool
  pub deadline : Option ℕ

abbrev pub given_or : Option ℕ → Option ℕ → Option ℕ
given_or none before = before
given_or (some deadline) before = some deadline

-- `RequestContext::query_context`.
abbrev pub context_of : RequestContext → QueryLimits → QueryContext
context_of r limits = record {
  is_cancelled = r.is_cancelled;
  limits = record limits { deadline = given_or r.deadline limits.deadline };
}

unfoldable pub query_context :
    ServiceConfig → RequestContext → Option ℕ → Option ℕ → Option ℕ → Answer (QueryContext × ℕ)
query_context c r requested_commands requested_rows requested_response = do
  commands ← lower_limit (codes "commands") requested_commands c.max_commands
  rows ← lower_limit (codes "rows") requested_rows c.max_rows
  response ← lower_limit (codes "response_bytes") requested_response c.max_response_bytes
  reject_if (ltb response terminal_frame_reserve_bytes)
      (bad_request_error (codes "max_response_bytes must reserve at least 4096 terminal bytes"))
  ok (
    context_of r (record unlimited {
      max_signals = some c.max_signals;
      max_rows = some rows;
      max_result_bytes = some response;
      max_commands = some commands;
    }),
    response,
  )
