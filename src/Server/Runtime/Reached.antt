-- ===== src/Server/Runtime/Reached.antt =====
-- src/server/runtime.rs: the connections that any lines and any ends of jobs lead to.
use vcd_tools_rs.Prelude.{ℕ, ◌≡◌, refl, Option, none, some, [], Text, ok, err, arith, ap, ◌∙◌, sym}
use mathlib.Core.Path.{subst}
use vcd_tools_rs.Prelude.Keys.{text_eq}
use vcd_tools_rs.Prelude.Assoc.{lookup}
use vcd_tools_rs.Server.Json.{Value}
use vcd_tools_rs.Server.Answer.{Answer}
use vcd_tools_rs.Server.Request.{Request, RequestMethod}
use vcd_tools_rs.Server.Runtime.{
  ConnectionState, new_connection, cancel, cancel_token, remove_request, without_job, Serving,
  Meets, handle_request, handle_decoded, handle_line, finish_job,
}
use vcd_tools_rs.Server.Runtime.Registry.{ids, ids-remove}
use vcd_tools_rs.Server.Runtime.Served.{
  IsServing, timed-IsServing, control-IsServing, uncorrelated-IsServing, cancel_token-IsConnection,
  remove_request-IsConnection,
}

same_active :
    (found : Option ℕ) (c : ConnectionState) → ids (cancel_token found c).1.active ≡ ids c.active
unfolding cancel_token
same_active none c = refl
same_active (some token) c = refl

cancelled-IsServing :
    (id : Text) (s : Serving)
    → IsServing s
    → IsServing (record s { connection = (cancel id s.connection).1 })
unfolding cancel
cancelled-IsServing id s h = record {
  connection_lem =
      cancel_token-IsConnection (lookup id s.connection.active) id s.connection refl
        h.connection_lem;
  jobs_lem = same_active (lookup id s.connection.active) s.connection ∙ h.jobs_lem;
}

handle_request-IsServing :
    (most : ℕ) (m : Meets) (id : Text) (method : RequestMethod) (s : Serving)
    → IsServing s
    → IsServing (handle_request most m id method s).1
unfolding handle_request
handle_request-IsServing most m id (RequestMethod.cancel p) s h =
    control-IsServing m _ _ (cancelled-IsServing p.request_id s h)
handle_request-IsServing most m id RequestMethod.ping s h = timed-IsServing m id s _ h
handle_request-IsServing most m id RequestMethod.describe s h = timed-IsServing m id s _ h
handle_request-IsServing most m id (RequestMethod.list p) s h = timed-IsServing m id s _ h
handle_request-IsServing most m id (RequestMethod.metadata p) s h = timed-IsServing m id s _ h
handle_request-IsServing most m id (RequestMethod.extract p) s h = timed-IsServing m id s _ h
handle_request-IsServing most m id (RequestMethod.find p) s h = timed-IsServing m id s _ h
handle_request-IsServing most m id (RequestMethod.toggles p) s h = timed-IsServing m id s _ h

handle_decoded-IsServing :
    (most : ℕ) (m : Meets) (s : Serving) (decoded : Answer Request)
    → IsServing s
    → IsServing (handle_decoded most m s decoded).1
unfolding handle_decoded
handle_decoded-IsServing most m s (err e) h = uncorrelated-IsServing m e s h
handle_decoded-IsServing most m s (ok request) h =
    handle_request-IsServing most m request.id request.method s h

finish_job-IsServing : (id : Text) (s : Serving) → IsServing s → IsServing (finish_job id s)
unfolding finish_job
finish_job-IsServing id s h = record {
  connection_lem = remove_request-IsConnection id s.connection h.connection_lem;
  jobs_lem =
      unfold remove_request in ids-remove id s.connection.active ∙ ap (without_job id) h.jobs_lem;
}

abbrev pub new_serving : ℕ → Serving
new_serving max_active = record {
  connection = new_connection max_active;
  jobs = [];
  replies = [];
  forced_disconnects = 0;
}

started : (max_active : ℕ) → IsServing (new_serving max_active)
unfolding new_connection
started max_active = record {
  connection_lem = record { registry = tt; within = omega arith; cancelled_lem = tt };
  jobs_lem = refl;
}

module _ (parse_strict_json : Text → Answer Value) (max_timeout_ms : ℕ) where
  -- The reader handles a line, or a worker ends a job.
  pub data Reach (s : Serving) : Serving → Type 0 where
    start : Reach s s
    line :
        {t u : Serving}
        → Reach s t
        → (m : Meets) (text : Text) → u ≡ (handle_line parse_strict_json max_timeout_ms m text t).1
        → Reach s u
    job_end : {t u : Serving} → Reach s t → (id : Text) → u ≡ finish_job id t → Reach s u

  handle_line-IsServing :
      (m : Meets) (text : Text) (s : Serving)
      → IsServing s
      → IsServing (handle_line parse_strict_json max_timeout_ms m text s).1
  unfolding handle_line
  handle_line-IsServing m text s h = handle_decoded-IsServing max_timeout_ms m s _ h

  Reach-IsServing : {s t : Serving} → IsServing s → Reach s t → IsServing t
  Reach-IsServing h start = h
  Reach-IsServing h (line {t} r m text e) =
      subst IsServing (sym e) (handle_line-IsServing m text t (Reach-IsServing h r))
  Reach-IsServing h (job_end {t} r id e) =
      subst IsServing (sym e) (finish_job-IsServing id t (Reach-IsServing h r))

  -- Whatever lines a connection sends, whatever its requests meet, and in whatever order its jobs
  -- end: its active requests are exactly the jobs that the scheduler has of it, so none is lost or
  -- left behind; they are at most the `max_active` of its state, their ids are distinct, and so are
  -- their tokens.
  pub reached-IsServing :
      (max_active : ℕ) (t : Serving) → Reach (new_serving max_active) t → IsServing t
  reached-IsServing max_active t r = Reach-IsServing (started max_active) r
