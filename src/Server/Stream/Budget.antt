-- ===== src/Server/Stream/Budget.antt =====
-- src/server/service.rs: a streamed response stays within its limit of bytes.
use vcd_tools_rs.Prelude.{
  ℕ, ◌+◌, ◌≤◌, ◌<◌, ◌≡◌, refl, false, some, List, [], ◌∷◌, ◌++◌, Text, ◌⊎◌, length, leb, Bool-cases,
  ltb, ok, err, saturating_add, arith, inl, inr, u64_max, if_intro,
}
use vcd_tools_rs.Value.Number.{show_decimal}
use vcd_tools_rs.Server.Protocol.{terminal_frame_reserve_bytes}
use vcd_tools_rs.Server.Answer.{Answer, ◌>>=◌}
use vcd_tools_rs.Server.Json.{Value}
use vcd_tools_rs.Server.Frames.{ResponseFrame, JsonResult, begin_frame}
use vcd_tools_rs.Server.Output.{
  OutputSink, Sending, Step, Writes, Line, Closing, conclude, returned,
}
use vcd_tools_rs.Server.Output.Added.{AddsLine, conclude-AddsLine}
use vcd_tools_rs.Server.Stream.Counter.{counted-length}
use vcd_tools_rs.Server.Stream.Sends.{bytes_of, bytes_of-append, SendsFrame, send_frame_lem}
use vcd_tools_rs.Server.Stream.{
  ensure_response_budget, try_frame_bytes, frame_bytes, or_limit, StreamOutput, Progress, Outcome,
  ◌then_do◌, send, after_send, begun, begin_counted, begin_stream, stream_rows, finish_counted,
  finish_frame, finish, respond,
}
use vcd_tools_rs.Server.Stream.Within.{
  InBudget, encode, within_within, then_within, stream_rows_within,
}

-- A response that ends stays within its limit. Where the stream fails, the reserve is left; with
-- the line that the worker adds the response is within its limit too, unless that line is longer
-- than the reserve.
abbrev pub KeepsBudget : Text → ℕ → (ResponseFrame → Answer (List ℕ)) → Closing → Outcome → Type 0
KeepsBudget id limit encode closing (ok u, (st, s)) = bytes_of s.sent ≤ limit
KeepsBudget id limit encode closing (err e, (st, s)) =
    (bytes_of s.sent + terminal_frame_reserve_bytes ≤ limit)
    × (let t = conclude id encode (returned (err e)) closing s in
        (bytes_of t.sent ≤ limit)
        ⊎ ((line : Line) × (t.sent ≡ s.sent ++ line ∷ [])
            × (terminal_frame_reserve_bytes < length line.1)))

abbrev Fits : ℕ → Outcome → Type 0
Fits limit (ok u, (st, s)) = bytes_of s.sent ≤ limit
Fits limit (err e, (st, s)) = bytes_of s.sent + terminal_frame_reserve_bytes ≤ limit

module _ (id : Text) (response_limit frame_limit : ℕ) (writes : ResponseFrame → Writes)
    (sending : ℕ → Sending) (some_room : terminal_frame_reserve_bytes ≤ response_limit)
    (u64_room : response_limit < u64_max) (one_byte : 1 ≤ frame_limit)
    (u64_frame : frame_limit ≤ u64_max) where
  InBudget-room :
      (p : Progress)
      → InBudget response_limit p
      → bytes_of p.1.sent + terminal_frame_reserve_bytes ≤ response_limit
  InBudget-room (st, s) h = omega arith

  -- The end frame goes into the reserve.
  end_sent :
      (bytes : ℕ) (f : ResponseFrame) (before after : StreamOutput) (s : OutputSink) (step : Step)
      → try_frame_bytes frame_limit (writes f) ≡ ok (some bytes)
      → InBudget response_limit (before, s)
      → before.encoded_bytes + bytes ≤ response_limit
      → SendsFrame (encode frame_limit writes) f s step
      → Fits response_limit (after_send step before after)
  end_sent bytes f before after s (ok u, s') t b room (inl (done, (line, e, sent))) =
      let same = counted-length frame_limit bytes (writes f) line one_byte u64_frame t e in
      let total = bytes_of-append s.sent f line in rw sent (omega arith)
  end_sent bytes f before after s (err why, s') t b room (inr (e, failed, sent)) =
      rw sent (omega arith)
  end_sent bytes f before after s (ok u, s') t b room (inr (e, failed, sent)) = cc
  end_sent bytes f before after s (err why, s') t b room (inl (done, more)) = cc

  not_over : (a b : ℕ) → ltb response_limit (saturating_add a b) ≡ false → a + b ≤ response_limit
  not_over a b h = ground arith

  frame_bytes-counted :
      (f : ResponseFrame) (bytes : ℕ)
      → frame_bytes frame_limit (writes f) ≡ ok bytes
      → try_frame_bytes frame_limit (writes f) ≡ ok (some bytes)
  unfolding frame_bytes or_limit ◌>>=◌
  frame_bytes-counted f bytes h = ground arith

  finish_counted_within :
      (f : ResponseFrame) (p : Progress) (counted : Answer ℕ)
      → frame_bytes frame_limit (writes f) ≡ counted
      → InBudget response_limit p
      → Fits response_limit
          (finish_counted id response_limit frame_limit writes sending f p counted)
  finish_counted_within f p (err e) t h = InBudget-room p h
  finish_counted_within f (st, s) (ok bytes) t h =
      if_intro (Fits response_limit) (ltb response_limit (saturating_add st.encoded_bytes bytes))
        (λ _. InBudget-room (st, s) h)
        (λ fits.
          end_sent bytes f st (record st { encoded_bytes = saturating_add st.encoded_bytes bytes })
            s (send id response_limit frame_limit writes sending st.next_seq f s)
            (frame_bytes-counted f bytes t) h (not_over st.encoded_bytes bytes fits)
            (send_frame_lem id (encode frame_limit writes) (sending st.next_seq) f s))

  finish_frame_within :
      (p : Progress) (made : JsonResult ResponseFrame)
      → InBudget response_limit p
      → Fits response_limit (finish_frame id response_limit frame_limit writes sending p made)
  finish_frame_within p (err e) h = InBudget-room p h
  finish_frame_within p (ok f) h =
      finish_counted_within f p (frame_bytes frame_limit (writes f)) refl h

  finish_within :
      (to_vec : ResponseFrame → JsonResult (List ℕ)) (commands : ℕ) (elapsed : Text) (p : Progress)
      → InBudget response_limit p
      → Fits response_limit
          (finish id response_limit frame_limit writes sending to_vec commands elapsed p)
  unfolding finish
  finish_within to_vec commands elapsed p h = finish_frame_within p _ h

  begin_counted_within :
      (f : ResponseFrame) (s : OutputSink) (counted : Answer ℕ)
      → s.sent ≡ []
      → frame_bytes frame_limit (writes f) ≡ counted
      → InBudget response_limit
          (begin_counted id response_limit frame_limit writes sending f s counted).1
  unfolding begun
  begin_counted_within f s (err e) h t = rw h (refl, some_room)
  begin_counted_within f s (ok bytes) h t =
      within_within id response_limit frame_limit writes sending some_room u64_room one_byte
        u64_frame (ensure_response_budget 0 bytes response_limit) 0 bytes f (begun 0) (begun bytes)
        s refl (frame_bytes-counted f bytes t) (rw h (refl, some_room)) (λ k. omega arith)

  end_within :
      (to_vec : ResponseFrame → JsonResult (List ℕ)) (commands : ℕ) (elapsed : Text) (o : Outcome)
      → InBudget response_limit o.1
      → Fits response_limit
          (o then_do finish id response_limit frame_limit writes sending to_vec commands elapsed)
  end_within to_vec commands elapsed (err e, p) h = InBudget-room p h
  end_within to_vec commands elapsed (ok u, p) h = finish_within to_vec commands elapsed p h

  begin_within :
      (schema : Text) (generation : ℕ) (s : OutputSink)
      → s.sent ≡ []
      → InBudget response_limit
          (begin_stream id response_limit frame_limit writes sending schema generation s).1
  unfolding begin_stream
  begin_within schema generation s h =
      begin_counted_within (begin_frame id schema (show_decimal generation)) s _ h refl

  respond_within :
      (to_vec : ResponseFrame → JsonResult (List ℕ)) (schema : Text) (generation : ℕ)
      (rows : List Value) (commands : ℕ) (elapsed : Text) (s : OutputSink)
      → s.sent ≡ []
      → Fits response_limit (
          respond id response_limit frame_limit writes sending to_vec schema generation rows
            commands elapsed s)
  unfolding respond
  respond_within to_vec schema generation rows commands elapsed s fresh =
      let begun_stream : Outcome =
        begin_stream id response_limit frame_limit writes sending schema generation s in
      end_within to_vec commands elapsed
        (begun_stream then_do stream_rows id response_limit frame_limit writes sending rows [])
        (then_within id response_limit frame_limit writes sending some_room u64_room one_byte
          u64_frame begun_stream (stream_rows id response_limit frame_limit writes sending rows [])
          (begin_within schema generation s fresh)
          (λ p h.
            stream_rows_within id response_limit frame_limit writes sending some_room u64_room
              one_byte u64_frame rows [] p h))

closed :
    (limit : ℕ) (s t : OutputSink)
    → bytes_of s.sent + terminal_frame_reserve_bytes ≤ limit
    → AddsLine s t
    → (bytes_of t.sent ≤ limit)
      ⊎ ((line : Line) × (t.sent ≡ s.sent ++ line ∷ [])
          × (terminal_frame_reserve_bytes < length line.1))
closed limit s t h (inl same) = inl (rw same (omega arith))
closed limit s t h (inr ((f, line), added)) =
    elim (Bool-cases (leb (length line) terminal_frame_reserve_bytes)) [
      | inl fits ↦ inl (rw added (ground (arith, bytes_of-append s.sent f line)))
      | inr long ↦ inr ((f, line), added, ground arith)
    ]

Fits-KeepsBudget :
    (id : Text) (response_limit : ℕ) (encode : ResponseFrame → Answer (List ℕ)) (closing : Closing)
    (o : Outcome)
    → Fits response_limit o
    → KeepsBudget id response_limit encode closing o
Fits-KeepsBudget id limit encode closing (ok u, (st, s)) h = h
Fits-KeepsBudget id limit encode closing (err e, (st, s)) h = (
  h,
  closed limit s (conclude id encode (returned (err e)) closing s) h
      (conclude-AddsLine id encode closing e s),
)

-- With a response limit of at least the terminal reserve, below u64's largest value, and a frame
-- limit between one byte and u64, whatever the rows are, however serde_json writes the frames and
-- wherever the sending fails: the lines of a streamed response that ends have together at most the
-- limit's bytes. If the stream fails, its lines leave the 4096 bytes of the reserve free, and with
-- the terminal frame that the worker then sends the response is within the limit too, unless that
-- one line is longer than the reserve.
pub respond-within_limit :
    (id : Text) (response_limit frame_limit : ℕ) (writes : ResponseFrame → Writes)
    (sending : ℕ → Sending) (to_vec : ResponseFrame → JsonResult (List ℕ)) (schema : Text)
    (generation : ℕ) (rows : List Value) (commands : ℕ) (elapsed : Text) (s : OutputSink)
    (closing : Closing)
    → terminal_frame_reserve_bytes ≤ response_limit
    → response_limit < u64_max
    → 1 ≤ frame_limit
    → frame_limit ≤ u64_max
    → s.sent ≡ []
    → KeepsBudget id response_limit (encode frame_limit writes) closing (
        respond id response_limit frame_limit writes sending to_vec schema generation rows commands
          elapsed s)
respond-within_limit id response_limit frame_limit writes sending to_vec schema generation rows
      commands elapsed s closing reserve below one most fresh =
    Fits-KeepsBudget id response_limit (encode frame_limit writes) closing
      (respond id response_limit frame_limit writes sending to_vec schema generation rows commands
        elapsed s)
      (respond_within id response_limit frame_limit writes sending reserve below one most to_vec
        schema generation rows commands elapsed s fresh)
