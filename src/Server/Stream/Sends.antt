-- ===== src/Server/Stream/Sends.antt =====
-- src/server/runtime.rs: what one send adds to the lines of a response.
use vcd_tools_rs.Prelude.{
  ℕ, ◌+◌, ◌≡◌, refl, List, [], ◌∷◌, ◌++◌, Text, length, ok, err, arith, inl, inr, ◌⊎◌, Result-cases,
}
use vcd_tools_rs.Server.Protocol.{ProtocolError}
use vcd_tools_rs.Server.Answer.{Answer}
use vcd_tools_rs.Server.Frames.{ResponseFrame}
use vcd_tools_rs.Server.Output.{
  OutputSink, OutputLifecycle, Line, Sending, Step, send_frame, send_loop, send_encoded,
  validate_frame,
}
use vcd_tools_rs.Server.Output.Worker.{Sends, send_loop_lem}

-- The bytes of the lines.
abbrev pub bytes_of : List Line → ℕ
bytes_of [] = 0
bytes_of ((f, line) ∷ lines) = length line + bytes_of lines

pub bytes_of-append :
    (ls : List Line) (f : ResponseFrame) (line : List ℕ)
    → bytes_of (ls ++ (f, line) ∷ []) ≡ bytes_of ls + length line
bytes_of-append [] f line = omega arith
bytes_of-append ((g, other) ∷ ls) f line = omega (arith, bytes_of-append ls f line)

-- A frame that is sent successfully stands behind the others with its encoded line; one that is
-- not leaves them as they were.
abbrev pub SendsFrame :
    (ResponseFrame → Answer (List ℕ)) → ResponseFrame → OutputSink → Step → Type 0
SendsFrame encode f s step =
    ((step.0 ≡ ok tt)
      × ((line : List ℕ) × (encode f ≡ ok line) × (step.1.sent ≡ s.sent ++ (f, line) ∷ [])))
    ⊎ ((e : ProtocolError) × (step.0 ≡ err e) × (step.1.sent ≡ s.sent))

module _ (request_id : Text) (encode : ResponseFrame → Answer (List ℕ)) where
  loop-Sends :
      (next : OutputLifecycle) (f : ResponseFrame) (line : List ℕ) (s : OutputSink) (step : Step)
      → encode f ≡ ok line
      → Sends next (f, line) s step
      → SendsFrame encode f s step
  loop-Sends next f line s step e (inl (done, (l, sent))) = inl (done, (line, e, sent))
  loop-Sends next f line s step e (inr (why, failed, (l, sent))) = inr (why, failed, sent)

  encoded_sends :
      (sending : Sending) (next : OutputLifecycle) (f : ResponseFrame) (s : OutputSink)
      (encoded : Answer (List ℕ))
      → encode f ≡ encoded
      → SendsFrame encode f s (send_encoded request_id encode sending next f s encoded)
  encoded_sends sending next f s (err e) h = inr (e, refl, refl)
  encoded_sends sending next f s (ok line) h =
      loop-Sends next f line s (send_loop sending.rounds sending.stop next (f, line) s) h
        (send_loop_lem sending.rounds sending.stop next (f, line) s)

  pub send_frame_lem :
      (sending : Sending) (f : ResponseFrame) (s : OutputSink)
      → SendsFrame encode f s (send_frame request_id encode sending f s)
  unfolding send_frame
  send_frame_lem sending f s = elim (Result-cases (validate_frame request_id s.lifecycle f)) [
    | inr (e, refused) ↦ rw refused (inr (e, refl, refl))
    | inl (next, valid) ↦ rw valid (encoded_sends sending next f s (encode f) refl)
  ]
