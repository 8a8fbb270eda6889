-- ===== src/Server/Runtime.antt =====
-- src/server/runtime.rs: the configuration, the active requests of a connection, and the handling
-- of one line of it. The strict JSON parser, the clock, the queues of the scheduler and of the
-- writer are parameters.
pub mod Registry
pub mod Served
pub mod Reached
pub mod Cancelled
use vcd_tools_rs.Prelude.{
  ℕ, ◌+◌, ◌*◌, Bool, true, false, not, ◌||◌, Option, none, some, List, [], ◌∷◌, ◌++◌, Text, codes,
  length, map, ltb, leb, nat_eqb, if◌then◌else◌, ok, err,
}
use vcd_tools_rs.Prelude.Keys.{text_eqb, text_eq}
use vcd_tools_rs.Prelude.Assoc.{lookup, insert, contains_key, remove}
use vcd_tools_rs.Value.Number.{show_decimal}
use vcd_tools_rs.Server.Json.{Value, boolean, object, field, empty, text_fields}
use vcd_tools_rs.Server.Lines.{max_request_line_bytes}
use vcd_tools_rs.Server.Protocol.{
  ProtocolError, new_error, limit_exceeded, queue_full, bad_request_error,
  duplicate_request_id_error, terminal_frame_reserve_bytes,
}
use vcd_tools_rs.Server.Answer.{Answer}
use vcd_tools_rs.Server.Request.{Request, RequestMethod}
use vcd_tools_rs.Server.Request.Decode.{decode_request_with_active}
use vcd_tools_rs.Server.Frames.{ResponseFrame, result_frame, error_frame}
use vcd_tools_rs.Server.Stream.{or_configured}

pub record RuntimeConfig : Type 0 where
  pub max_connections : ℕ
  pub max_active_requests_per_connection : ℕ
  pub workers : ℕ
  pub queue_depth : ℕ
  pub output_chunks : ℕ
  pub request_line_bytes : ℕ
  pub max_encoded_frame_bytes : ℕ
  pub max_timeout_ms : ℕ

abbrev pub chunk_bytes : ℕ
chunk_bytes = 262144

-- `RuntimeConfig::default`.
unfoldable pub default_config : RuntimeConfig
default_config = record {
  max_connections = 32;
  max_active_requests_per_connection = 8;
  workers = 4;
  queue_depth = 64;
  output_chunks = 8;
  request_line_bytes = max_request_line_bytes;
  max_encoded_frame_bytes = chunk_bytes;
  max_timeout_ms = 120000;
}

abbrev pub outside : ℕ → ℕ → ℕ → Bool
outside least most n = ltb n least || ltb most n

-- `RuntimeConfig::validate`: it succeeds. The deadline's overflow is a parameter.
unfoldable pub validate_config : (ℕ → Bool) → RuntimeConfig → Bool
validate_config deadline_overflows c = not (
    outside 1 256 c.max_connections
    || outside 1 64 c.max_active_requests_per_connection
    || outside 1 64 c.workers
    || outside 1 4096 c.queue_depth
    || outside 1 256 c.output_chunks
    || outside 1 max_request_line_bytes c.request_line_bytes
    || outside terminal_frame_reserve_bytes chunk_bytes c.max_encoded_frame_bytes
    || outside 1 3600000 c.max_timeout_ms
    || deadline_overflows c.max_timeout_ms)

-- `ConnectionState`. A cancellation token is a number, and `cancelled` holds those that are set;
-- `next_token` is the next new one.
pub record ConnectionState : Type 0 where
  pub active : List (Text × ℕ)
  pub disconnected : Bool
  pub max_active : ℕ
  pub next_token : ℕ
  pub cancelled : List ℕ

unfoldable pub new_connection : ℕ → ConnectionState
new_connection max_active = record {
  active = [];
  disconnected = false;
  max_active = max_active;
  next_token = 0;
  cancelled = [];
}

unfoldable pub is_active : ConnectionState → Text → Bool
is_active c id = contains_key id c.active

abbrev pub too_many : ConnectionState → ProtocolError
too_many c =
    new_error limit_exceeded (codes "active requests per connection limit exceeded")
      (object (
        text_fields (
          (codes "kind", codes "active_requests")
          ∷ (codes "limit", show_decimal c.max_active)
          ∷ (codes "actual", show_decimal (length c.active + 1))
          ∷ [])))
      false

unfoldable pub register : Text → ConnectionState → Answer ℕ × ConnectionState
register id c =
    if contains_key id c.active
    then (err (duplicate_request_id_error id), c)
    else if leb c.max_active (length c.active)
    then (err (too_many c), c)
    else (
      ok c.next_token,
      record c { active = insert id c.next_token c.active; next_token = c.next_token + 1 },
    )

-- `request.cancellation.cancel()`, where the map has the request.
unfoldable pub cancel_token : Option ℕ → ConnectionState → Bool × ConnectionState
cancel_token none c = (false, c)
cancel_token (some token) c = (true, record c { cancelled = token ∷ c.cancelled })

unfoldable pub cancel : Text → ConnectionState → Bool × ConnectionState
cancel id c = cancel_token (lookup id c.active) c

unfoldable pub remove_request : Text → ConnectionState → ConnectionState
remove_request id c = record c { active = remove id c.active }

abbrev pub tokens : List (Text × ℕ) → List ℕ
tokens [] = []
tokens ((id, token) ∷ rest) = token ∷ tokens rest

unfoldable pub disconnect_all : ConnectionState → ConnectionState
disconnect_all c = record c { disconnected = true; cancelled = tokens c.active ++ c.cancelled }

unfoldable pub request_timeout_ms : RequestMethod → Option ℕ
request_timeout_ms (RequestMethod.list p) = p.timeout_ms
request_timeout_ms (RequestMethod.metadata p) = p.timeout_ms
request_timeout_ms (RequestMethod.extract p) = p.timeout_ms
request_timeout_ms (RequestMethod.find p) = p.timeout_ms
request_timeout_ms (RequestMethod.toggles p) = p.timeout_ms
request_timeout_ms RequestMethod.ping = none
request_timeout_ms RequestMethod.describe = none
request_timeout_ms (RequestMethod.cancel p) = none

unfoldable pub effective_timeout_ms : RequestMethod → ℕ → Answer ℕ
effective_timeout_ms method configured_maximum =
    let requested : ℕ = or_configured (request_timeout_ms method) configured_maximum in
    if ltb configured_maximum requested
    then err (bad_request_error (codes "timeout_ms may only lower the configured maximum"))
    else ok requested

-- A connection that is being served: its state, the jobs that the scheduler has of it, by their
-- ids, and the frames that its reader has put into the queue of the writer.
pub record Serving : Type 0 where
  pub connection : ConnectionState
  pub jobs : List Text
  pub replies : List ResponseFrame
  pub forced_disconnects : ℕ

-- What the handling of a line meets: whether the frame of the reader is taken by the queue, the
-- deadline fits, and the scheduler takes the job.
pub record Meets : Type 0 where
  pub sends : Bool
  pub deadline_fits : Bool
  pub submits : Bool

-- The Boolean says that the reader goes on.
abbrev pub Handled : Type 0
Handled = Bool × Serving

unfoldable pub force_close : Serving → Handled
force_close s = (
  false,
  record s {
    connection = disconnect_all s.connection;
    forced_disconnects =
        if s.connection.disconnected then s.forced_disconnects else s.forced_disconnects + 1;
  },
)

unfoldable pub reply : Bool → ResponseFrame → Serving → Serving
reply sends frame s = if sends then record s { replies = s.replies ++ frame ∷ [] } else s

-- A frame that has to be sent, or the connection is closed.
unfoldable pub control : Meets → ResponseFrame → Serving → Handled
control m frame s = if m.sends then (true, reply true frame s) else force_close s

-- An error that belongs to no request ends the connection.
unfoldable pub uncorrelated : Meets → ProtocolError → Serving → Handled
uncorrelated m e s = force_close (reply m.sends (error_frame none 0 e) s)

abbrev pub cancel_result : Bool → Value
cancel_result found = object (field (codes "found") (boolean found) empty)

unfoldable pub submit_job : Meets → Text → Serving → Handled
submit_job m id s =
    if m.submits
    then (true, record s { jobs = s.jobs ++ id ∷ [] })
    else control m
        (error_frame (some id) 0
          (new_error queue_full (codes "query queue is full") (object empty) true))
        (record s { connection = remove_request id s.connection })

unfoldable pub with_context : Meets → Text → Serving → Handled
with_context m id s =
    if m.deadline_fits
    then submit_job m id s
    else control m
        (error_frame (some id) 0 (bad_request_error (codes "timeout_ms overflows deadline")))
        (record s { connection = remove_request id s.connection })

unfoldable pub registered : Meets → Text → Serving → Answer ℕ × ConnectionState → Handled
registered m id s (err e, c) = uncorrelated m e s
registered m id s (ok token, c) = with_context m id (record s { connection = c })

unfoldable pub timed : Meets → Text → Serving → Answer ℕ → Handled
timed m id s (err e) = control m (error_frame (some id) 0 e) s
timed m id s (ok timeout_ms) = registered m id s (register id s.connection)

unfoldable pub handle_request : ℕ → Meets → Text → RequestMethod → Serving → Handled
handle_request max_timeout_ms m id (RequestMethod.cancel p) s =
    let (found, c) = cancel p.request_id s.connection in
    control m (result_frame id (cancel_result found)) (record s { connection = c })
handle_request max_timeout_ms m id method s =
    timed m id s (effective_timeout_ms method max_timeout_ms)

unfoldable pub handle_decoded : ℕ → Meets → Serving → Answer Request → Handled
handle_decoded max_timeout_ms m s (err e) = uncorrelated m e s
handle_decoded max_timeout_ms m s (ok request) =
    handle_request max_timeout_ms m request.id request.method s

module _ (parse_strict_json : Text → Answer Value) where
  -- The body of the loop over the lines in `serve_connection_with_shutdown`.
  unfoldable pub handle_line : ℕ → Meets → Text → Serving → Handled
  handle_line max_timeout_ms m line s =
      handle_decoded max_timeout_ms m s
        (decode_request_with_active parse_strict_json line (is_active s.connection))

-- The end of a job: `ActiveGuard::drop`.
unfoldable pub without_job : Text → List Text → List Text
without_job id [] = []
without_job id (job ∷ jobs) =
    let rest = without_job id jobs in if text_eqb job id then rest else job ∷ rest

unfoldable pub finish_job : Text → Serving → Serving
finish_job id s = record s {
  connection = remove_request id s.connection;
  jobs = without_job id s.jobs;
}
