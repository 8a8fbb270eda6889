-- ===== src/Server/Output.antt =====
-- src/server/runtime.rs: `OutputSink`, the frames of one response on their way to the writer, and
-- what a worker does with it. The writes that serde_json makes for a frame, and what each attempt
-- to send meets, are parameters. The gauges of `RuntimeStats` that only count are left out.
pub mod Capped
pub mod Lifecycle
pub mod Worker
pub mod Complete
pub mod Added
use vcd_tools_rs.Prelude.{
  ℕ, zero, suc, ◌+◌, ◌-◌, ◌^◌, Bool, true, false, Option, none, some, List, [], ◌∷◌, ◌++◌, Text,
  codes, length, leb, ltb, nat_eqb, ◌&&◌, ◌||◌, if◌then◌else◌, ok, err, saturating_add, max,
}
use vcd_tools_rs.Prelude.Keys.{text_eqb}
use vcd_tools_rs.Value.Number.{show_decimal}
use vcd_tools_rs.Server.Json.{object, empty, text_fields}
use vcd_tools_rs.Server.Protocol.{ProtocolError, new_error, internal, limit_exceeded, cancelled}
use vcd_tools_rs.Server.Answer.{Answer, ◌>>=◌}
use vcd_tools_rs.Server.Frames.{
  ResponseFrame, result, error, begin, chunk, end, error_frame, end_error,
}

abbrev pub u32_max : ℕ
u32_max = 2 ^ 32 - 1

-- What serde_json writes for a frame: the buffers of its calls of `write`, and whether it fails
-- after them by itself.
pub record Writes : Type 0 where
  pub buffers : List (List ℕ)
  pub failed : Bool

pub record CappedJsonLineWriter : Type 0 where
  pub bytes : List ℕ
  pub payload_cap : ℕ
  pub exceeded : Bool
  pub attempted : ℕ

unfoldable pub new_writer : ℕ → CappedJsonLineWriter
new_writer max_encoded_frame_bytes = record {
  bytes = [];
  payload_cap = max_encoded_frame_bytes - 1;
  exceeded = false;
  attempted = 0;
}

-- `CappedJsonLineWriter::write`; the Boolean says that it succeeded.
unfoldable pub write : List ℕ → CappedJsonLineWriter → Bool × CappedJsonLineWriter
write buffer w =
    let attempted : ℕ = saturating_add (length w.bytes) (length buffer) in
    if ltb w.payload_cap attempted
    then (false, record w { attempted = max w.attempted attempted; exceeded = true })
    else (true, record w { attempted = max w.attempted attempted; bytes = w.bytes ++ buffer })

-- The writes one after the other, up to the first that fails.
abbrev pub if_written :
    Bool × CappedJsonLineWriter
    → (CappedJsonLineWriter → Bool × CappedJsonLineWriter)
    → Bool × CappedJsonLineWriter
if_written (true, w) next = next w
if_written (false, w) next = (false, w)

unfoldable pub write_buffers : List (List ℕ) → CappedJsonLineWriter → Bool × CappedJsonLineWriter
unfolding write
write_buffers [] w = (true, w)
write_buffers (buffer ∷ buffers) w = if_written (write buffer w) (λ w. write_buffers buffers w)

abbrev pub frame_limit_error : ℕ → ℕ → ProtocolError
frame_limit_error limit attempted =
    new_error limit_exceeded (codes "encoded response frame exceeds configured byte limit")
      (object (
        text_fields (
          (codes "kind", codes "encoded_frame_bytes")
          ∷ (codes "limit", show_decimal limit)
          ∷ (codes "actual", show_decimal (saturating_add attempted 1))
          ∷ [])))
      false

abbrev pub internal_error : Text → ProtocolError
internal_error message = new_error internal message (object empty) false

abbrev pub disconnected_error : ProtocolError
disconnected_error = new_error cancelled (codes "connection disconnected") (object empty) false

-- The end of `encode_bounded`, after the serialization.
unfoldable pub finish_line : ℕ → Bool → Bool × CappedJsonLineWriter → Answer (List ℕ)
finish_line limit failed (written, w) =
    if w.exceeded
    then err (frame_limit_error limit w.attempted)
    else if failed
    then err (internal_error (codes "response serialization failed"))
    else ok (w.bytes ++ 10 ∷ [])

unfoldable pub encode_bounded : ℕ → Writes → Answer (List ℕ)
unfolding finish_line write_buffers new_writer
encode_bounded max_encoded_frame_bytes writes =
    finish_line max_encoded_frame_bytes writes.failed
      (write_buffers writes.buffers (new_writer max_encoded_frame_bytes))

pub data OutputLifecycle : Type 0 where
  not_started : OutputLifecycle
  streaming : ℕ → OutputLifecycle
  terminal : OutputLifecycle

-- A frame in the queue of the writer, with its line.
abbrev pub Line : Type 0
Line = ResponseFrame × List ℕ

-- The parts of the sink and of its connection that change.
pub record OutputSink : Type 0 where
  pub lifecycle : OutputLifecycle
  pub sent : List Line
  pub disconnected : Bool
  pub forced_disconnects : ℕ

pub data SendOutcome : Type 0 where
  accepted full receiver_gone : SendOutcome

-- What one round of a sending loop meets: the result of `context.check()`, whether another thread
-- has disconnected the connection, and the outcome of `try_send`.
pub record Attempt : Type 0 where
  pub check : Option ProtocolError
  pub disconnected : Bool
  pub outcome : SendOutcome

-- The rounds before the time is up, and the round or the check that then ends the loop.
pub record Sending : Type 0 where
  pub rounds : List Attempt
  pub stop : ProtocolError

pub record Closing : Type 0 where
  pub rounds : List Attempt
  pub last : Attempt

abbrev pub Step : Type 0
Step = Answer (Unit {0}) × OutputSink

-- One round: over, or to be repeated.
pub data Round : Type 0 where
  over : Step → Round
  again : OutputSink → Round

unfoldable pub disconnect : OutputSink → OutputSink
disconnect s = record s { disconnected = true }

unfoldable pub force_disconnect : OutputSink → OutputSink
unfolding disconnect
force_disconnect s =
    if s.disconnected
    then disconnect s
    else disconnect (record s { forced_disconnects = s.forced_disconnects + 1 })

unfoldable pub deliver : OutputLifecycle → Line → OutputSink → OutputSink
deliver next line s = record s { lifecycle = next; sent = s.sent ++ line ∷ [] }

-- The connection's state as a round finds it.
unfoldable pub observe : Attempt → OutputSink → OutputSink
observe a s = record s { disconnected = s.disconnected || a.disconnected }

unfoldable pub try_send : SendOutcome → OutputLifecycle → Line → OutputSink → Round
unfolding deliver disconnect
try_send accepted next line s = over (ok tt, deliver next line s)
try_send full next line s = again s
try_send receiver_gone next line s = over (err disconnected_error, disconnect s)

unfoldable pub connected_round : SendOutcome → OutputLifecycle → Line → OutputSink → Round
unfolding try_send
connected_round outcome next line s =
    if s.disconnected then over (err disconnected_error, s) else try_send outcome next line s

-- The body of the loop of `send_frame`.
unfoldable pub send_round :
    Option ProtocolError → Attempt → OutputLifecycle → Line → OutputSink → Round
unfolding connected_round observe
send_round (some e) a next line s = over (err e, s)
send_round none a next line s = connected_round a.outcome next line (observe a s)

abbrev pub after_round : Round → (OutputSink → Step) → Step
after_round (over step) later = step
after_round (again s) later = later s

unfoldable pub send_loop : List Attempt → ProtocolError → OutputLifecycle → Line → OutputSink → Step
unfolding send_round
send_loop [] stop next line s = (err stop, s)
send_loop (a ∷ rounds) stop next line s =
    after_round (send_round a.check a next line s) (λ s. send_loop rounds stop next line s)

-- The loop of `required_terminal`; the last round meets the time that is up.
unfoldable pub close_try : Bool → SendOutcome → Line → OutputSink → Round
close_try time_left accepted line s = over (ok tt, deliver terminal line s)
close_try true full line s = again s
close_try false full line s = over (ok tt, force_disconnect s)
close_try time_left receiver_gone line s = over (ok tt, force_disconnect s)

unfoldable pub close_round : Bool → Attempt → Line → OutputSink → Round
unfolding close_try
close_round time_left a line s =
    let s' = observe a s in
    if s'.disconnected then over (ok tt, s') else close_try time_left a.outcome line s'

unfoldable pub close_loop : List Attempt → Attempt → Line → OutputSink → Step
unfolding close_round
close_loop [] last line s = after_round (close_round false last line s) (λ s. (ok tt, s))
close_loop (a ∷ rounds) last line s =
    after_round (close_round true a line s) (λ s. close_loop rounds last line s)

-- How a dispatcher ends: it returns, or its panic is caught.
pub data Dispatched : Type 0 where
  returned : Answer (Unit {0}) → Dispatched
  panicked : Dispatched

module _ (request_id : Text) where
  -- The next state, if the frame is the request's and has the number that is due.
  unfoldable pub accept : Text → ℕ → ℕ → Answer OutputLifecycle → Answer OutputLifecycle
  accept id seq due next =
      if text_eqb id request_id && nat_eqb seq due
      then next
      else err (internal_error (codes "response frame violates request lifecycle or sequence"))

  abbrev violation : Answer OutputLifecycle
  violation = err (internal_error (codes "response frame violates request lifecycle or sequence"))

  unfoldable pub accept_error : Option Text → ℕ → Answer OutputLifecycle
  unfolding accept
  accept_error none seq = violation
  accept_error (some id) seq = accept id seq 0 (ok terminal)

  unfoldable pub checked_next : ℕ → Answer OutputLifecycle
  checked_next next_seq =
      if ltb next_seq u32_max
      then ok (streaming (next_seq + 1))
      else err (internal_error (codes "response sequence overflow"))

  unfoldable pub validate_frame : OutputLifecycle → ResponseFrame → Answer OutputLifecycle
  unfolding accept accept_error checked_next
  validate_frame not_started (result f) = accept f.id f.seq 0 (ok terminal)
  validate_frame not_started (error f) = accept_error f.id f.seq
  validate_frame not_started (begin f) = accept f.id f.seq 0 (ok (streaming 1))
  validate_frame not_started (chunk f) = violation
  validate_frame not_started (end f) = violation
  validate_frame (streaming next_seq) (chunk f) = accept f.id f.seq next_seq (checked_next next_seq)
  validate_frame (streaming next_seq) (end f) = accept f.id f.seq next_seq (ok terminal)
  validate_frame (streaming next_seq) (result f) = violation
  validate_frame (streaming next_seq) (error f) = violation
  validate_frame (streaming next_seq) (begin f) = violation
  validate_frame terminal f = err (internal_error (codes "response already terminated"))

  module _ (encode : ResponseFrame → Answer (List ℕ)) where
    abbrev pub send_encoded :
        Sending → OutputLifecycle → ResponseFrame → OutputSink → Answer (List ℕ) → Step
    send_encoded sending next frame s (err e) = (err e, s)
    send_encoded sending next frame s (ok bytes) =
        send_loop sending.rounds sending.stop next (frame, bytes) s

    abbrev pub send_validated : Sending → ResponseFrame → OutputSink → Answer OutputLifecycle → Step
    send_validated sending frame s (err e) = (err e, s)
    send_validated sending frame s (ok next) = send_encoded sending next frame s (encode frame)

    unfoldable pub send_frame : Sending → ResponseFrame → OutputSink → Step
    send_frame sending frame s = send_validated sending frame s (validate_frame s.lifecycle frame)

    abbrev close_encoded : Closing → ResponseFrame → OutputSink → Answer (List ℕ) → OutputSink
    close_encoded closing frame s (err e) = force_disconnect s
    close_encoded closing frame s (ok bytes) =
        (close_loop closing.rounds closing.last (frame, bytes) s).1

    unfoldable pub close_from : OutputLifecycle → Closing → ProtocolError → OutputSink → OutputSink
    unfolding close_loop
    close_from not_started closing e s =
        let frame = error_frame (some request_id) 0 e in
        close_encoded closing frame s (encode frame)
    close_from (streaming next_seq) closing e s =
        let frame = end_error request_id next_seq e in close_encoded closing frame s (encode frame)
    close_from terminal closing e s = s

    unfoldable pub required_terminal : Closing → ProtocolError → OutputSink → OutputSink
    unfolding close_from
    required_terminal closing e s = close_from s.lifecycle closing e s

    unfoldable pub ensure_terminal : Closing → OutputSink → OutputSink
    unfolding required_terminal
    ensure_terminal closing s =
        required_terminal closing
          (internal_error (codes "dispatcher returned without a terminal response")) s

    -- What `worker_loop` does after the dispatcher.
    unfoldable pub conclude : Dispatched → Closing → OutputSink → OutputSink
    unfolding ensure_terminal required_terminal
    conclude (returned (ok u)) closing s = ensure_terminal closing s
    conclude (returned (err e)) closing s = required_terminal closing e s
    conclude panicked closing s =
        required_terminal closing (internal_error (codes "internal server error")) s
