-- ===== src/Server/Runtime/Served.antt =====
-- src/server/runtime.rs: a served connection, under any lines and any ends of its jobs.
use vcd_tools_rs.Prelude.{
  ℕ, ◌+◌, ◌<◌, ◌≡◌, Bool, true, false, Option, none, some, [], ◌∷◌, ◌++◌, Text, length, leb, ok,
  err, arith, All, All-append, ap, ◌∙◌, inl, inr, ◌⊎◌, Bool-cases, length-append, if_intro,
}
use vcd_tools_rs.Prelude.Keys.{text_eq}
use vcd_tools_rs.Prelude.Assoc.{lookup, insert, contains_key, remove}
use vcd_tools_rs.Server.Protocol.{ProtocolError, duplicate_request_id_error}
use vcd_tools_rs.Server.Answer.{Answer}
use vcd_tools_rs.Server.Frames.{ResponseFrame}
use vcd_tools_rs.Server.Runtime.{
  ConnectionState, too_many, register, cancel_token, remove_request, disconnect_all, tokens,
  Serving, Meets, Handled, force_close, reply, control, uncorrelated, submit_job, with_context,
  registered, timed,
}
use vcd_tools_rs.Server.Runtime.Registry.{
  Active, ids, IsRegistry, IsConnection, insert_new, ids-append, IsRegistry-append,
  IsRegistry-remove, length-remove, remove_new, All-le,
}

pub remove_request-IsConnection :
    (id : Text) (c : ConnectionState) → IsConnection c → IsConnection (remove_request id c)
unfolding remove_request
remove_request-IsConnection id c h = record {
  registry = IsRegistry-remove id c.next_token c.active h.registry;
  within = omega (arith, length-remove id c.active, h.within);
  cancelled_lem = h.cancelled_lem;
}

found_token :
    (id : Text) (next : ℕ) (m : Active) (token : ℕ)
    → IsRegistry next m
    → lookup id m ≡ some token
    → token < next
unfolding lookup
found_token id next [] token h e = cc
found_token id next ((other, t) ∷ rest) token h e =
    ground (arith, found_token id next rest token h.3)

pub cancel_token-IsConnection :
    (found : Option ℕ) (id : Text) (c : ConnectionState)
    → lookup id c.active ≡ found
    → IsConnection c
    → IsConnection (cancel_token found c).1
unfolding cancel_token
cancel_token-IsConnection none id c e h = h
cancel_token-IsConnection (some token) id c e h = record {
  registry = h.registry;
  within = h.within;
  cancelled_lem = (found_token id c.next_token c.active token h.registry e, h.cancelled_lem);
}

tokens-IsRegistry : (next : ℕ) (m : Active) → IsRegistry next m → All (λ t. t < next) (tokens m)
tokens-IsRegistry next [] h = tt
tokens-IsRegistry next ((id, t) ∷ rest) h = (h.1, tokens-IsRegistry next rest h.3)

disconnect_all-IsConnection :
    (c : ConnectionState) → IsConnection c → IsConnection (disconnect_all c)
unfolding disconnect_all
disconnect_all-IsConnection c h = record {
  registry = h.registry;
  within = h.within;
  cancelled_lem =
      All-append (λ t. t < c.next_token) (tokens c.active) c.cancelled
        (tokens-IsRegistry c.next_token c.active h.registry) h.cancelled_lem;
}

-- The active requests are the jobs that the scheduler has.
pub record IsServing (s : Serving) : Type 0 where
  pub connection_lem : IsConnection s.connection
  pub jobs_lem : ids s.connection.active ≡ s.jobs

-- A request that is registered and not yet submitted.
record IsPending (id : Text) (s : Serving) : Type 0 where
  connection_lem : IsConnection s.connection
  pending_lem : ids s.connection.active ≡ s.jobs ++ id ∷ []
  removed_lem : ids (remove id s.connection.active) ≡ s.jobs

-- What `register` gives: an error and no change, or one more request.
register-cases :
    (id : Text) (c : ConnectionState)
    → IsConnection c
    → ((e : ProtocolError) × (register id c ≡ (err e, c)))
      ⊎ ((contains_key id c.active ≡ false)
          × (length c.active < c.max_active)
          × (register id c ≡ (
            ok c.next_token,
            record c { active = insert id c.next_token c.active; next_token = c.next_token + 1 },
          )))
unfolding register
register-cases id c h = elim (Bool-cases (contains_key id c.active)) [
  | inl old ↦ inl (duplicate_request_id_error id, rw old)
  | inr new ↦ elim (Bool-cases (leb c.max_active (length c.active))) [
    | inl crowded ↦ inl (too_many c, rw (new, crowded))
    | inr room ↦ inr (new, ground arith, rw (new, room))
  ]
]

register-IsPending :
    (id : Text) (s : Serving)
    → IsServing s
    → contains_key id s.connection.active ≡ false
    → length s.connection.active < s.connection.max_active
    → IsPending id (record s {
      connection = record s.connection {
        active = insert id s.connection.next_token s.connection.active;
        next_token = s.connection.next_token + 1;
      };
    })
register-IsPending id s h new room =
    let c : ConnectionState = s.connection in
    let added = insert_new id c.next_token c.active new in
    record {
      connection_lem = record {
        registry =
            rw added (IsRegistry-append id c.next_token c.active h.connection_lem.registry new);
        within = rw added (omega (arith, length-append c.active ((id, c.next_token) ∷ []), room));
        cancelled_lem =
            All-le c.next_token (c.next_token + 1) c.cancelled (omega arith)
              h.connection_lem.cancelled_lem;
      };
      pending_lem =
          rw added (ids-append c.active id c.next_token ∙ ap (λ l. l ++ id ∷ []) h.jobs_lem);
      removed_lem = rw (added, remove_new id c.next_token c.active new) h.jobs_lem;
    }

force_close-IsServing : (s : Serving) → IsServing s → IsServing (force_close s).1
unfolding force_close disconnect_all
force_close-IsServing s h = record {
  connection_lem =
      unfold disconnect_all in disconnect_all-IsConnection s.connection h.connection_lem;
  jobs_lem = h.jobs_lem;
}

reply-IsServing :
    (sends : Bool) (frame : ResponseFrame) (s : Serving)
    → IsServing s
    → IsServing (reply sends frame s)
unfolding reply
reply-IsServing true frame s h = record { connection_lem = h.connection_lem; jobs_lem = h.jobs_lem }
reply-IsServing false frame s h = h

pub control-IsServing :
    (m : Meets) (frame : ResponseFrame) (s : Serving)
    → IsServing s
    → IsServing (control m frame s).1
unfolding control
control-IsServing m frame s h =
    if_intro (λ (r : Handled). IsServing r.1) m.sends (λ _. reply-IsServing true frame s h)
      (λ _. force_close-IsServing s h)

pub uncorrelated-IsServing :
    (m : Meets) (e : ProtocolError) (s : Serving) → IsServing s → IsServing (uncorrelated m e s).1
unfolding uncorrelated
uncorrelated-IsServing m e s h = force_close-IsServing _ (reply-IsServing m.sends _ s h)

undone-IsServing :
    (id : Text) (s : Serving)
    → IsPending id s
    → IsServing (record s { connection = remove_request id s.connection })
unfolding remove_request
undone-IsServing id s h = record {
  connection_lem =
      unfold remove_request in remove_request-IsConnection id s.connection h.connection_lem;
  jobs_lem = h.removed_lem;
}

submit_job-IsServing :
    (m : Meets) (id : Text) (s : Serving) → IsPending id s → IsServing (submit_job m id s).1
unfolding submit_job
submit_job-IsServing m id s h =
    if_intro (λ (r : Handled). IsServing r.1) m.submits
      (λ _. record { connection_lem = h.connection_lem; jobs_lem = h.pending_lem })
      (λ _. control-IsServing m _ _ (undone-IsServing id s h))

with_context-IsServing :
    (m : Meets) (id : Text) (s : Serving) → IsPending id s → IsServing (with_context m id s).1
unfolding with_context
with_context-IsServing m id s h =
    if_intro (λ (r : Handled). IsServing r.1) m.deadline_fits (λ _. submit_job-IsServing m id s h)
      (λ _. control-IsServing m _ _ (undone-IsServing id s h))

registered-IsServing :
    (m : Meets) (id : Text) (s : Serving)
    → IsServing s
    → IsServing (registered m id s (register id s.connection)).1
unfolding registered
registered-IsServing m id s h = elim (register-cases id s.connection h.connection_lem) [
  | inl (e, refused) ↦ rw refused (uncorrelated-IsServing m e s h)
  | inr (new, room, added) ↦
      rw added (with_context-IsServing m id _ (register-IsPending id s h new room))
]

pub timed-IsServing :
    (m : Meets) (id : Text) (s : Serving) (timeout : Answer ℕ)
    → IsServing s
    → IsServing (timed m id s timeout).1
unfolding timed
timed-IsServing m id s (err e) h = control-IsServing m _ s h
timed-IsServing m id s (ok timeout_ms) h = registered-IsServing m id s h
