-- ===== src/Server/Output/Added.antt =====
-- src/server/runtime.rs: what the worker adds behind a dispatcher that returned an error.
use vcd_tools_rs.Prelude.{ℕ, ◌≡◌, refl, List, [], ◌∷◌, ◌++◌, Text, ok, err, inl, inr, ◌⊎◌}
use vcd_tools_rs.Server.Protocol.{ProtocolError}
use vcd_tools_rs.Server.Answer.{Answer}
use vcd_tools_rs.Server.Frames.{ResponseFrame}
use vcd_tools_rs.Server.Output.{
  OutputSink, OutputLifecycle, not_started, streaming, terminal, Line, Closing, returned, conclude,
  required_terminal, close_from, close_encoded, close_loop,
}
use vcd_tools_rs.Server.Output.Worker.{Closes, close_loop_lem, force_disconnect_lem}

-- At most one line more.
abbrev pub AddsLine : OutputSink → OutputSink → Type 0
AddsLine s t = (t.sent ≡ s.sent) ⊎ ((line : Line) × (t.sent ≡ s.sent ++ line ∷ []))

Closes-AddsLine : (line : Line) (s t : OutputSink) → Closes line s t → AddsLine s t
Closes-AddsLine line s t (inl (l, sent)) = inr (line, sent)
Closes-AddsLine line s t (inr (lost, (l, sent))) = inl sent

module _ (request_id : Text) (encode : ResponseFrame → Answer (List ℕ)) where
  encoded-AddsLine :
      (closing : Closing) (f : ResponseFrame) (s : OutputSink) (encoded : Answer (List ℕ))
      → AddsLine s (close_encoded request_id encode closing f s encoded)
  encoded-AddsLine closing f s (err e) = inl (force_disconnect_lem s).1.1
  encoded-AddsLine closing f s (ok bytes) =
      Closes-AddsLine (f, bytes) s (close_loop closing.rounds closing.last (f, bytes) s).1
        (close_loop_lem closing.rounds closing.last (f, bytes) s)

  close_from-AddsLine :
      (l : OutputLifecycle) (closing : Closing) (e : ProtocolError) (s : OutputSink)
      → AddsLine s (close_from request_id encode l closing e s)
  unfolding close_from
  close_from-AddsLine not_started closing e s = encoded-AddsLine closing _ s (encode _)
  close_from-AddsLine (streaming n) closing e s = encoded-AddsLine closing _ s (encode _)
  close_from-AddsLine terminal closing e s = inl refl

  -- Behind an error the worker sends at most one line more.
  pub conclude-AddsLine :
      (closing : Closing) (e : ProtocolError) (s : OutputSink)
      → AddsLine s (conclude request_id encode (returned (err e)) closing s)
  unfolding conclude required_terminal
  conclude-AddsLine closing e s = close_from-AddsLine s.lifecycle closing e s
