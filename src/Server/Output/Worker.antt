-- ===== src/Server/Output/Worker.antt =====
-- src/server/runtime.rs: whatever a dispatcher sends and however it ends, its request is answered
-- by a response in order, and a worker leaves it complete or the connection closed.
use vcd_tools_rs.Prelude.{
  ℕ, ◌≡◌, refl, Bool, true, false, Option, none, some, List, [], ◌∷◌, ◌++◌, Text, ok, err, arith,
  inl, inr, ◌⊎◌, ◌∙◌, if_intro,
}
use vcd_tools_rs.Server.Protocol.{ProtocolError}
use vcd_tools_rs.Server.Frames.{ResponseFrame}
use vcd_tools_rs.Server.Output.{
  OutputSink, OutputLifecycle, terminal, Line, Attempt, SendOutcome, accepted, full, receiver_gone,
  Step, Round, over, again, disconnect, force_disconnect, deliver, observe, try_send,
  connected_round, send_round, send_loop, after_round, validate_frame, close_try, close_round,
  close_loop,
}
use vcd_tools_rs.Server.Output.Lifecycle.{
  IsResponse, frames, frames-append, validate_frame-IsResponse,
}

-- A send either delivers its line and moves on, or fails and leaves both as they were.
abbrev pub Delivered : OutputLifecycle → Line → OutputSink → OutputSink → Type 0
Delivered next line s s' = (s'.lifecycle ≡ next) × (s'.sent ≡ s.sent ++ line ∷ [])

abbrev pub Untouched : OutputSink → OutputSink → Type 0
Untouched s s' = (s'.lifecycle ≡ s.lifecycle) × (s'.sent ≡ s.sent)

abbrev pub Sends : OutputLifecycle → Line → OutputSink → Step → Type 0
Sends next line s step =
    ((step.0 ≡ ok tt) × Delivered next line s step.1)
    ⊎ ((e : ProtocolError) × (step.0 ≡ err e) × Untouched s step.1)

abbrev RoundSends : OutputLifecycle → Line → OutputSink → Round → Type 0
RoundSends next line s (over step) = Sends next line s step
RoundSends next line s (again s') = Untouched s s'

try_send_lem :
    (outcome : SendOutcome) (next : OutputLifecycle) (line : Line) (s : OutputSink)
    → RoundSends next line s (try_send outcome next line s)
unfolding try_send deliver disconnect
try_send_lem accepted next line s = inl (refl, (refl, refl))
try_send_lem full next line s = (refl, refl)
try_send_lem receiver_gone next line s = inr (_, refl, (refl, refl))

send_round_lem :
    (check : Option ProtocolError) (a : Attempt) (next : OutputLifecycle) (line : Line)
    (s : OutputSink)
    → RoundSends next line s (send_round check a next line s)
unfolding send_round connected_round
send_round_lem (some e) a next line s = inr (e, refl, (refl, refl))
send_round_lem none a next line s =
    if_intro (RoundSends next line (observe a s)) (observe a s).disconnected
      (λ _. inr (_, refl, (refl, refl))) (λ _. try_send_lem a.outcome next line (observe a s))

later-Sends :
    (next : OutputLifecycle) (line : Line) (s s' : OutputSink) (step : Step)
    → Untouched s s'
    → Sends next line s' step
    → Sends next line s step
later-Sends next line s s' step u (inl (done, (l, sent))) = inl (done, (l, rw (← u.1) sent))
later-Sends next line s s' step u (inr (e, failed, (l, sent))) =
    inr (e, failed, (l ∙ u.0, rw (← u.1) sent))

after-Sends :
    (r : Round) (later : OutputSink → Step) (next : OutputLifecycle) (line : Line) (s : OutputSink)
    → RoundSends next line s r
    → ((s' : OutputSink) → Sends next line s' (later s'))
    → Sends next line s (after_round r later)
after-Sends (over step) later next line s h k = h
after-Sends (again s') later next line s h k = later-Sends next line s s' (later s') h (k s')

pub send_loop_lem :
    (rounds : List Attempt) (stop : ProtocolError) (next : OutputLifecycle) (line : Line)
    (s : OutputSink)
    → Sends next line s (send_loop rounds stop next line s)
unfolding send_loop
send_loop_lem [] stop next line s = inr (stop, refl, (refl, refl))
send_loop_lem (a ∷ rounds) stop next line s =
    after-Sends (send_round a.check a next line s) (λ s. send_loop rounds stop next line s) next
      line s (send_round_lem a.check a next line s) (λ s. send_loop_lem rounds stop next line s)

-- A closing loop delivers the terminal line, or leaves the connection closed.
abbrev pub Closes : Line → OutputSink → OutputSink → Type 0
Closes line s s' = Delivered terminal line s s' ⊎ ((s'.disconnected ≡ true) × Untouched s s')

abbrev RoundCloses : Line → OutputSink → Round → Type 0
RoundCloses line s (over step) = Closes line s step.1
RoundCloses line s (again s') = Untouched s s'

pub force_disconnect_lem :
    (s : OutputSink) → ((force_disconnect s).disconnected ≡ true) × Untouched s (force_disconnect s)
unfolding force_disconnect
force_disconnect_lem s = ground arith

close_try_lem :
    (time_left : Bool) (outcome : SendOutcome) (line : Line) (s : OutputSink)
    → RoundCloses line s (close_try time_left outcome line s)
unfolding close_try deliver
close_try_lem time_left accepted line s = inl (refl, refl)
close_try_lem true full line s = (refl, refl)
close_try_lem false full line s = inr (force_disconnect_lem s)
close_try_lem time_left receiver_gone line s = inr (force_disconnect_lem s)

-- After the deadline a round is the last one.
abbrev LastCloses : Line → OutputSink → Round → Type 0
LastCloses line s (over step) = Closes line s step.1
LastCloses line s (again s') = ⊥

close_last_try :
    (outcome : SendOutcome) (line : Line) (s : OutputSink)
    → LastCloses line s (close_try false outcome line s)
unfolding close_try deliver
close_last_try accepted line s = inl (refl, refl)
close_last_try full line s = inr (force_disconnect_lem s)
close_last_try receiver_gone line s = inr (force_disconnect_lem s)

close_round_lem :
    (time_left : Bool) (a : Attempt) (line : Line) (s : OutputSink)
    → RoundCloses line s (close_round time_left a line s)
unfolding close_round observe
close_round_lem time_left a line s =
    if_intro (RoundCloses line s) (observe a s).disconnected (λ lost. inr (lost, (refl, refl)))
      (λ _. close_try_lem time_left a.outcome line (observe a s))

close_last_lem :
    (a : Attempt) (line : Line) (s : OutputSink) → LastCloses line s (close_round false a line s)
unfolding close_round observe
close_last_lem a line s =
    if_intro (LastCloses line s) (observe a s).disconnected (λ lost. inr (lost, (refl, refl)))
      (λ _. close_last_try a.outcome line (observe a s))

later-Closes :
    (line : Line) (s s' s'' : OutputSink) → Untouched s s' → Closes line s' s'' → Closes line s s''
later-Closes line s s' s'' u (inl (l, sent)) = inl (l, rw (← u.1) sent)
later-Closes line s s' s'' u (inr (lost, (l, sent))) = inr (lost, (l ∙ u.0, rw (← u.1) sent))

after-Closes :
    (r : Round) (later : OutputSink → Step) (line : Line) (s : OutputSink)
    → RoundCloses line s r
    → ((s' : OutputSink) → Closes line s' (later s').1)
    → Closes line s (after_round r later).1
after-Closes (over step) later line s h k = h
after-Closes (again s') later line s h k = later-Closes line s s' (later s').1 h (k s')

after_last :
    (r : Round) (later : OutputSink → Step) (line : Line) (s : OutputSink)
    → LastCloses line s r
    → Closes line s (after_round r later).1
after_last (over step) later line s h = h
after_last (again s') later line s h = absurd h

pub close_loop_lem :
    (rounds : List Attempt) (last : Attempt) (line : Line) (s : OutputSink)
    → Closes line s (close_loop rounds last line s).1
unfolding close_loop
close_loop_lem [] last line s =
    after_last (close_round false last line s) (λ s. (ok tt, s)) line s (close_last_lem last line s)
close_loop_lem (a ∷ rounds) last line s =
    after-Closes (close_round true a line s) (λ s. close_loop rounds last line s) line s
      (close_round_lem true a line s) (λ s. close_loop_lem rounds last line s)

module _ (request_id : Text) where
  abbrev pub IsLive : OutputSink → Type 0
  IsLive s = IsResponse request_id s.lifecycle (frames s.sent)

  pub Untouched-IsLive : (s s' : OutputSink) → Untouched s s' → IsLive s → IsLive s'
  Untouched-IsLive s s' (l, sent) h = rw (l, sent) h

  pub Delivered-IsLive :
      (next : OutputLifecycle) (f : ResponseFrame) (bytes : List ℕ) (s s' : OutputSink)
      → IsLive s
      → validate_frame request_id s.lifecycle f ≡ ok next
      → Delivered next (f, bytes) s s'
      → IsLive s'
  Delivered-IsLive next f bytes s s' h valid (l, sent) =
      rw (l, sent, frames-append s.sent ((f, bytes) ∷ []))
        (validate_frame-IsResponse request_id s.lifecycle next f (frames s.sent) h valid)
