-- ===== src/Server/Service/Limits.antt =====
-- src/server/service.rs: the limits of the query of a request.
use vcd_tools_rs.Prelude.{
  ℕ, ◌≤◌, ◌<◌, ◌≡◌, refl, sym, ap, false, Option, none, some, Text, ok, ltb, arith, u64_max,
  if_intro,
}
use vcd_tools_rs.Query.Context.{QueryContext, unlimited}
use vcd_tools_rs.Server.Protocol.{terminal_frame_reserve_bytes}
use vcd_tools_rs.Server.Answer.{Ensures, returns, fails, Ensures->>=, Ensures-reject_if, ensured_of}
use vcd_tools_rs.Server.Stream.{lower_limit, or_configured}
use vcd_tools_rs.Server.Service.{
  ServiceConfig, RequestContext, context_of, given_or, validate_service, query_context,
}

-- A limit is the requested one, or the configured one without a request, and is never above the
-- configured one.
pub record IsLowered (requested : Option ℕ) (configured : ℕ) (limit : ℕ) : Type 0 where
  pub chosen : limit ≡ or_configured requested configured
  pub within : limit ≤ configured

lower_limit-IsLowered :
    (kind : Text) (requested : Option ℕ) (configured : ℕ)
    → Ensures (IsLowered requested configured) (lower_limit kind requested configured)
unfolding lower_limit
lower_limit-IsLowered kind requested configured =
    let n : ℕ = or_configured requested configured in
    if_intro (Ensures (IsLowered requested configured)) (ltb configured n) (λ _. fails _)
      (λ h. returns n (record { chosen = refl; within = ground arith }))

-- The limits of a query are those of its configuration, lowered by its request.
pub record IsLimited (c : ServiceConfig) (r : RequestContext) (commands rows response : Option ℕ)
    (made : QueryContext × ℕ) : Type 0 where
  pub signals : made.0.limits.max_signals ≡ some c.max_signals
  pub rows_lem : made.0.limits.max_rows ≡ some (or_configured rows c.max_rows)
  pub bytes : made.0.limits.max_result_bytes ≡ some made.1
  pub commands_lem : made.0.limits.max_commands ≡ some (or_configured commands c.max_commands)
  pub deadline_lem : made.0.limits.deadline ≡ r.deadline
  pub token : made.0.is_cancelled ≡ r.is_cancelled
  pub chosen : made.1 ≡ or_configured response c.max_response_bytes
  pub within :
      (or_configured commands c.max_commands ≤ c.max_commands)
      × (or_configured rows c.max_rows ≤ c.max_rows)
      × (made.1 ≤ c.max_response_bytes)
  pub reserve : terminal_frame_reserve_bytes ≤ made.1

given_or-none : (d : Option ℕ) → given_or d none ≡ d
given_or-none none = refl
given_or-none (some d) = refl

context_of-IsLimited :
    (c : ServiceConfig) (r : RequestContext) (commands rows response : Option ℕ) (a b n : ℕ)
    → IsLowered commands c.max_commands a
    → IsLowered rows c.max_rows b
    → IsLowered response c.max_response_bytes n
    → ltb n terminal_frame_reserve_bytes ≡ false
    → IsLimited c r commands rows response (
      context_of r (record unlimited {
        max_signals = some c.max_signals;
        max_rows = some b;
        max_result_bytes = some n;
        max_commands = some a;
      }),
      n,
    )
context_of-IsLimited c r commands rows response a b n l m o h = record {
  signals = refl;
  rows_lem = ap some m.chosen;
  bytes = refl;
  commands_lem = ap some l.chosen;
  deadline_lem = given_or-none r.deadline;
  token = refl;
  chosen = o.chosen;
  within = ((rw (sym l.chosen) l.within), (rw (sym m.chosen) m.within), o.within);
  reserve = ground arith;
}

query_context-IsLimited :
    (c : ServiceConfig) (r : RequestContext) (commands rows response : Option ℕ)
    → Ensures (IsLimited c r commands rows response) (query_context c r commands rows response)
unfolding query_context
query_context-IsLimited c r commands rows response =
    Ensures->>= (lower_limit-IsLowered _ commands c.max_commands) λ a l.
      Ensures->>= (lower_limit-IsLowered _ rows c.max_rows) λ b m.
        Ensures->>= (lower_limit-IsLowered _ response c.max_response_bytes) λ n o.
          Ensures->>= (Ensures-reject_if _ _)
            λ _ h. returns _ (context_of-IsLimited c r commands rows response a b n l m o h)

service_room : (c : ServiceConfig) → validate_service c ≡ ok tt → c.max_response_bytes < u64_max
unfolding validate_service
service_room c h = ground arith

-- With a configuration that is valid: a query context that is given to a request has the requested
-- limits, and the configured ones where the request has none, and none of them is above the
-- configured one. It has the token and the deadline of the request. Its response limit is at least
-- the terminal reserve and below u64's largest value, as the stream's budget needs.
pub query_context_lem :
    (c : ServiceConfig) (r : RequestContext) (commands rows response : Option ℕ)
    (made : QueryContext × ℕ)
    → validate_service c ≡ ok tt
    → query_context c r commands rows response ≡ ok made
    → IsLimited c r commands rows response made × (made.1 < u64_max)
query_context_lem c r commands rows response made valid h =
    let limited = ensured_of (query_context-IsLimited c r commands rows response) h in
    let room = service_room c valid in let within = limited.within in (limited, omega arith)
