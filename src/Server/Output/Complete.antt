-- ===== src/Server/Output/Complete.antt =====
-- src/server/runtime.rs: the response of a request under any dispatcher.
use vcd_tools_rs.Prelude.{
  ℕ, ◌≡◌, refl, Bool, true, some, List, [], Text, ok, err, arith, inl, inr, ◌⊎◌, sym, Result-cases,
}
use mathlib.Core.Path.{subst}
use vcd_tools_rs.Prelude.Keys.{text_eqb, text_eqb_iff}
use vcd_tools_rs.Server.Protocol.{ProtocolError}
use vcd_tools_rs.Server.Answer.{Answer}
use vcd_tools_rs.Server.Frames.{ResponseFrame, error_frame, end_error}
use vcd_tools_rs.Server.Output.{
  OutputSink, OutputLifecycle, not_started, streaming, terminal, Sending, Closing, Step,
  force_disconnect, send_loop, close_loop, accept, accept_error, validate_frame, send_frame,
  send_encoded, close_encoded, close_from, required_terminal, ensure_terminal, Dispatched, returned,
  panicked, conclude,
}
use vcd_tools_rs.Server.Output.Lifecycle.{IsResponse, frames}
use vcd_tools_rs.Server.Output.Worker.{
  Sends, send_loop_lem, Closes, close_loop_lem, force_disconnect_lem, IsLive, Untouched-IsLive,
  Delivered-IsLive,
}

module _ (request_id : Text) (encode : ResponseFrame → Answer (List ℕ)) where
  Sends-IsLive :
      (next : OutputLifecycle) (f : ResponseFrame) (bytes : List ℕ) (s : OutputSink) (step : Step)
      → IsLive request_id s
      → validate_frame request_id s.lifecycle f ≡ ok next
      → Sends next (f, bytes) s step
      → IsLive request_id step.1
  Sends-IsLive next f bytes s step h valid (inl (done, sent)) =
      Delivered-IsLive request_id next f bytes s step.1 h valid sent
  Sends-IsLive next f bytes s step h valid (inr (e, failed, same)) =
      Untouched-IsLive request_id s step.1 same h

  send_encoded-IsLive :
      (sending : Sending) (next : OutputLifecycle) (f : ResponseFrame) (s : OutputSink)
      (encoded : Answer (List ℕ))
      → IsLive request_id s
      → validate_frame request_id s.lifecycle f ≡ ok next
      → IsLive request_id (send_encoded request_id encode sending next f s encoded).1
  send_encoded-IsLive sending next f s (err e) h valid = h
  send_encoded-IsLive sending next f s (ok bytes) h valid =
      Sends-IsLive next f bytes s (send_loop sending.rounds sending.stop next (f, bytes) s) h valid
        (send_loop_lem sending.rounds sending.stop next (f, bytes) s)

  send_frame-IsLive :
      (sending : Sending) (f : ResponseFrame) (s : OutputSink)
      → IsLive request_id s
      → IsLive request_id (send_frame request_id encode sending f s).1
  unfolding send_frame
  send_frame-IsLive sending f s h = elim (Result-cases (validate_frame request_id s.lifecycle f)) [
    | inl (next, valid) ↦ rw valid (send_encoded-IsLive sending next f s (encode f) h valid)
    | inr (e, refused) ↦ rw refused h
  ]

  -- A dispatcher sends any frames, each against any rounds.
  pub data Run (s : OutputSink) : OutputSink → Type 0 where
    start : Run s s
    send :
        {t u : OutputSink}
        → Run s t
        → (sending : Sending) (f : ResponseFrame) → u ≡ (send_frame request_id encode sending f t).1
        → Run s u

  Run-IsLive : {s t : OutputSink} → IsLive request_id s → Run s t → IsLive request_id t
  Run-IsLive h start = h
  Run-IsLive h (send {t} r sending f e) =
      subst (IsLive request_id) (sym e) (send_frame-IsLive sending f t (Run-IsLive h r))

  -- The response is complete, or the connection is closed.
  abbrev pub IsConcluded : OutputSink → Type 0
  IsConcluded s = IsLive request_id s × ((s.lifecycle ≡ terminal) ⊎ (s.disconnected ≡ true))

  Closes-IsConcluded :
      (f : ResponseFrame) (bytes : List ℕ) (s s' : OutputSink)
      → IsLive request_id s
      → validate_frame request_id s.lifecycle f ≡ ok terminal
      → Closes (f, bytes) s s'
      → IsConcluded s'
  Closes-IsConcluded f bytes s s' h valid (inl sent) =
      (Delivered-IsLive request_id terminal f bytes s s' h valid sent, inl sent.0)
  Closes-IsConcluded f bytes s s' h valid (inr (lost, same)) =
      (Untouched-IsLive request_id s s' same h, inr lost)

  close_encoded-IsConcluded :
      (closing : Closing) (f : ResponseFrame) (s : OutputSink) (encoded : Answer (List ℕ))
      → IsLive request_id s
      → validate_frame request_id s.lifecycle f ≡ ok terminal
      → IsConcluded (close_encoded request_id encode closing f s encoded)
  close_encoded-IsConcluded closing f s (err e) h valid =
      let (lost, same) = force_disconnect_lem s in
      (Untouched-IsLive request_id s (force_disconnect s) same h, inr lost)
  close_encoded-IsConcluded closing f s (ok bytes) h valid =
      Closes-IsConcluded f bytes s (close_loop closing.rounds closing.last (f, bytes) s).1 h valid
        (close_loop_lem closing.rounds closing.last (f, bytes) s)

  own_id : text_eqb request_id request_id ≡ true
  own_id = (text_eqb_iff request_id request_id).1 refl

  close_from-IsConcluded :
      (l : OutputLifecycle) (closing : Closing) (e : ProtocolError) (s : OutputSink)
      → s.lifecycle ≡ l
      → IsLive request_id s
      → IsConcluded (close_from request_id encode l closing e s)
  unfolding close_from error_frame end_error validate_frame accept_error accept
  close_from-IsConcluded not_started closing e s same h =
      let f : ResponseFrame = error_frame (some request_id) 0 e in
      close_encoded-IsConcluded closing f s (encode f) h (rw (same, own_id))
  close_from-IsConcluded (streaming n) closing e s same h =
      let f : ResponseFrame = end_error request_id n e in
      close_encoded-IsConcluded closing f s (encode f) h (rw (same, own_id) (ground arith))
  close_from-IsConcluded terminal closing e s same h = (h, inl same)

  required_terminal-IsConcluded :
      (closing : Closing) (e : ProtocolError) (s : OutputSink)
      → IsLive request_id s
      → IsConcluded (required_terminal request_id encode closing e s)
  unfolding required_terminal
  required_terminal-IsConcluded closing e s h =
      close_from-IsConcluded s.lifecycle closing e s refl h

  Dispatched-IsConcluded :
      (d : Dispatched) (closing : Closing) (s : OutputSink)
      → IsLive request_id s
      → IsConcluded (conclude request_id encode d closing s)
  unfolding conclude ensure_terminal
  Dispatched-IsConcluded (returned (ok u)) closing s h = required_terminal-IsConcluded closing _ s h
  Dispatched-IsConcluded (returned (err e)) closing s h =
      required_terminal-IsConcluded closing e s h
  Dispatched-IsConcluded panicked closing s h = required_terminal-IsConcluded closing _ s h

abbrev pub new_sink : Bool → OutputSink
new_sink disconnected = record {
  lifecycle = not_started;
  sent = [];
  disconnected = disconnected;
  forced_disconnects = 0;
}

-- Whatever frames a dispatcher sends, in any order and against any rounds, what reaches the writer
-- for a request is a response in order, or a prefix of one: the frames carry the request's id and
-- the numbers 0, 1, 2 and so on, and they are one result or error frame, or a begin frame, chunk
-- frames and at most one end frame, with nothing behind it.
pub Run-IsResponse :
    (request_id : Text) (encode : ResponseFrame → Answer (List ℕ)) (disconnected : Bool)
    (t : OutputSink)
    → Run request_id encode (new_sink disconnected) t
    → IsResponse request_id t.lifecycle (frames t.sent)
Run-IsResponse request_id encode disconnected t run =
    Run-IsLive request_id encode (record { numbered = tt; shape = refl }) run

-- However a dispatcher ends after any frames that it sent, by a return, an error or a panic, the
-- worker leaves a response in order that ends with its terminal frame, or a connection that is
-- disconnected.
pub conclude-IsConcluded :
    (request_id : Text) (encode : ResponseFrame → Answer (List ℕ)) (disconnected : Bool)
    (t : OutputSink) (d : Dispatched) (closing : Closing)
    → Run request_id encode (new_sink disconnected) t
    → IsConcluded request_id encode (conclude request_id encode d closing t)
conclude-IsConcluded request_id encode disconnected t d closing run =
    Dispatched-IsConcluded request_id encode d closing t
      (Run-IsResponse request_id encode disconnected t run)
