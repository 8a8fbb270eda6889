-- ===== src/Tests/Limits.antt =====
-- src/server/service.rs: the limits of requests at concrete inputs.
use vcd_tools_rs.Prelude.{ℕ, ◌<◌, ◌≡◌, refl, false, none, some, ok, u64_max}
use vcd_tools_rs.Query.Context.{QueryContext}
use vcd_tools_rs.Server.Answer.{reject_if, ◌>>=◌}
use vcd_tools_rs.Server.Stream.{lower_limit}
use vcd_tools_rs.Server.Service.{RequestContext, default_service, query_context, validate_service}
use vcd_tools_rs.Server.Service.Limits.{IsLimited, query_context_lem}

-- A request that nobody cancels, with a deadline.
abbrev runtime : RequestContext
runtime = record { is_cancelled = λ _. false; deadline = some 30000 }

abbrev lowered : QueryContext × ℕ
lowered = (
  record {
    is_cancelled = λ _. false;
    limits = record {
      max_signals = some 4096;
      max_rows = some 100;
      max_result_bytes = some 8192;
      max_commands = some 1000000000;
      deadline = some 30000;
    };
  },
  8192,
)

made : query_context default_service runtime none (some 100) (some 8192) ≡ ok lowered
unfolding query_context lower_limit reject_if ◌>>=◌
made = refl

valid : validate_service default_service ≡ ok tt
unfolding validate_service
valid = refl

query_context_lem_example :
    IsLimited default_service runtime none (some 100) (some 8192) lowered × (lowered.1 < u64_max)
query_context_lem_example =
    query_context_lem default_service runtime none (some 100) (some 8192) lowered valid made
