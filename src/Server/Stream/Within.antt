-- ===== src/Server/Stream/Within.antt =====
-- src/server/service.rs: the frames of a stream, until its end, leave room for the terminal frame.
use vcd_tools_rs.Prelude.{
  ℕ, zero, suc, ◌+◌, ◌/◌, ◌≤◌, ◌<◌, ◌≡◌, refl, Option, none, some, List, [], ◌∷◌, ◌++◌, Text,
  length, ltb, nat_eqb, ok, err, arith, inl, inr, u64_max, take, drop, if_intro,
}
use vcd_tools_rs.Server.Protocol.{terminal_frame_reserve_bytes}
use vcd_tools_rs.Server.Answer.{Answer}
use vcd_tools_rs.Server.Json.{Value}
use vcd_tools_rs.Server.Frames.{ResponseFrame, chunk_frame}
use vcd_tools_rs.Server.Output.{OutputSink, Sending, Step, Writes, encode_bounded, u32_max}
use vcd_tools_rs.Server.Stream.Counter.{counted-length}
use vcd_tools_rs.Server.Stream.Sends.{bytes_of, bytes_of-append, SendsFrame, send_frame_lem}
use vcd_tools_rs.Server.Stream.{
  ensure_response_budget, try_frame_bytes, StreamOutput, Progress, Outcome, ◌then_do◌, values, send,
  after_send, within_budget, advance, sequenced, send_counted, split_or_send, send_rows_split,
  send_rows, through_query, stream_rows, chunk_rows,
}

budget_left :
    (current next limit : ℕ)
    → limit < u64_max
    → ensure_response_budget current next limit ≡ ok tt
    → current + next + terminal_frame_reserve_bytes ≤ limit
unfolding ensure_response_budget
budget_left current next limit h e = ground arith

-- The bytes that a stream counts are those of its lines, and leave room for the terminal frame.
abbrev pub InBudget : ℕ → Progress → Type 0
InBudget response_limit (st, s) =
    (bytes_of s.sent ≡ st.encoded_bytes)
    × (st.encoded_bytes + terminal_frame_reserve_bytes ≤ response_limit)

abbrev pub encode : ℕ → (ResponseFrame → Writes) → ResponseFrame → Answer (List ℕ)
encode frame_limit writes f = encode_bounded frame_limit (writes f)

module _ (id : Text) (response_limit frame_limit : ℕ) (writes : ResponseFrame → Writes)
    (sending : ℕ → Sending) (some_room : terminal_frame_reserve_bytes ≤ response_limit)
    (u64_room : response_limit < u64_max) (one_byte : 1 ≤ frame_limit)
    (u64_frame : frame_limit ≤ u64_max) where
  -- A counted frame is sent, or not: the stream moves on with its bytes, or stays.
  sent_within :
      (bytes : ℕ) (f : ResponseFrame) (before after : StreamOutput) (s : OutputSink) (step : Step)
      → try_frame_bytes frame_limit (writes f) ≡ ok (some bytes)
      → InBudget response_limit (before, s)
      → after.encoded_bytes ≡ before.encoded_bytes + bytes
      → before.encoded_bytes + bytes + terminal_frame_reserve_bytes ≤ response_limit
      → SendsFrame (encode frame_limit writes) f s step
      → InBudget response_limit (after_send step before after).1
  sent_within bytes f before after s (ok u, s') t b a room (inl (done, (line, e, sent))) =
      let same = counted-length frame_limit bytes (writes f) line one_byte u64_frame t e in
      let total = bytes_of-append s.sent f line in (rw sent (omega arith), omega arith)
  sent_within bytes f before after s (err why, s') t b a room (inr (e, failed, sent)) =
      (rw sent b.0, b.1)
  sent_within bytes f before after s (ok u, s') t b a room (inr (e, failed, sent)) = cc
  sent_within bytes f before after s (err why, s') t b a room (inl (done, more)) = cc

  pub within_within :
      (budget : Answer (Unit {0})) (seq bytes : ℕ) (f : ResponseFrame) (before after : StreamOutput)
      (s : OutputSink)
      → ensure_response_budget before.encoded_bytes bytes response_limit ≡ budget
      → try_frame_bytes frame_limit (writes f) ≡ ok (some bytes)
      → InBudget response_limit (before, s)
      → (before.encoded_bytes + bytes ≤ u64_max
          → after.encoded_bytes ≡ before.encoded_bytes + bytes)
      → InBudget response_limit
          (within_budget id response_limit frame_limit writes sending budget seq f after
            (before, s)).1
  within_within (err e) seq bytes f before after s h t b a = b
  within_within (ok u) seq bytes f before after s h t b a =
      let room = budget_left before.encoded_bytes bytes response_limit u64_room h in
      sent_within bytes f before after s (send id response_limit frame_limit writes sending seq f s)
        t b (ground arith) room (send_frame_lem id (encode frame_limit writes) (sending seq) f s)

  sequenced_within :
      (seq : ℕ) (o : Outcome)
      → InBudget response_limit o.1
      → InBudget response_limit (sequenced seq o).1
  sequenced_within seq (err e, p) h = h
  sequenced_within seq (ok u, (st, s)) h =
      if_intro (λ (o : Outcome). InBudget response_limit o.1) (ltb seq u32_max) (λ _. h) (λ _. h)

  send_counted_within :
      (rows : List Value) (bytes : ℕ) (p : Progress)
      → try_frame_bytes frame_limit (writes (chunk_frame id p.0.next_seq (values rows)))
        ≡ ok (some bytes)
      → InBudget response_limit p
      → InBudget response_limit
          (send_counted id response_limit frame_limit writes sending rows bytes p).1
  unfolding send_counted advance
  send_counted_within rows bytes (st, s) t h =
      let f : ResponseFrame = chunk_frame id st.next_seq (values rows) in
      let after : StreamOutput = advance bytes (length rows) st in
      sequenced_within st.next_seq
        (within_budget id response_limit frame_limit writes sending
          (ensure_response_budget st.encoded_bytes bytes response_limit) st.next_seq f after
          (st, s))
        (within_within (ensure_response_budget st.encoded_bytes bytes response_limit) st.next_seq
          bytes f st after s refl t h (λ k. ground arith))

  pub then_within :
      (o : Outcome) (next : Progress → Outcome)
      → InBudget response_limit o.1
      → ((p : Progress) → InBudget response_limit p → InBudget response_limit (next p).1)
      → InBudget response_limit (o then_do next).1
  then_within (ok u, p) next h k = k p h
  then_within (err e, p) next h k = h

  split_within :
      (rows : List Value) (counted : Answer (Option ℕ)) (halves : Progress → Outcome) (p : Progress)
      → try_frame_bytes frame_limit (writes (chunk_frame id p.0.next_seq (values rows))) ≡ counted
      → InBudget response_limit p
      → InBudget response_limit (halves p).1
      → InBudget response_limit
          (split_or_send id response_limit frame_limit writes sending rows counted halves p).1
  split_within rows (err e) halves p t h k = h
  split_within rows (ok (some bytes)) halves p t h k = send_counted_within rows bytes p t h
  split_within rows (ok none) halves p t h k =
      if_intro (λ (o : Outcome). InBudget response_limit o.1) (nat_eqb (length rows) 1) (λ _. h)
        (λ _. k)

  send_rows_split_within :
      (fuel : ℕ) (rows : List Value) (p : Progress)
      → InBudget response_limit p
      → InBudget response_limit
          (send_rows_split id response_limit frame_limit writes sending fuel rows p).1
  unfolding send_rows_split
  send_rows_split_within zero rows p h = h
  send_rows_split_within (suc fuel) rows p h =
      let mid : ℕ = length rows / 2 in
      let first : List Value = take mid rows in
      let second : List Value = drop mid rows in
      split_within rows
        (try_frame_bytes frame_limit (writes (chunk_frame id p.0.next_seq (values rows))))
        (λ p.
          send_rows_split id response_limit frame_limit writes sending fuel first p
          then_do send_rows_split id response_limit frame_limit writes sending fuel second)
        p refl h
        (then_within (send_rows_split id response_limit frame_limit writes sending fuel first p)
          (send_rows_split id response_limit frame_limit writes sending fuel second)
          (send_rows_split_within fuel (take mid rows) p h)
          (λ q b. send_rows_split_within fuel (drop mid rows) q b))

  send_rows_within :
      (rows : List Value) (p : Progress)
      → InBudget response_limit p
      → InBudget response_limit (send_rows id response_limit frame_limit writes sending rows p).1
  unfolding send_rows
  send_rows_within [] p h = h
  send_rows_within (row ∷ rows) p h = send_rows_split_within (length (row ∷ rows)) (row ∷ rows) p h

  through_within :
      (o : Outcome) → InBudget response_limit o.1 → InBudget response_limit (through_query o).1
  through_within (ok u, p) h = h
  through_within (err e, p) h = h

  pub stream_rows_within :
      (rows pending : List Value) (p : Progress)
      → InBudget response_limit p
      → InBudget response_limit
          (stream_rows id response_limit frame_limit writes sending rows pending p).1
  unfolding stream_rows
  stream_rows_within [] pending p h = send_rows_within pending p h
  stream_rows_within (row ∷ rows) pending p h =
      let batch : List Value = pending ++ row ∷ [] in
      let flushed : Outcome =
        through_query (send_rows id response_limit frame_limit writes sending batch p) in
      if_intro (λ (o : Outcome). InBudget response_limit o.1) (nat_eqb (length batch) chunk_rows)
        (λ _.
          then_within flushed (stream_rows id response_limit frame_limit writes sending rows [])
            (through_within _ (send_rows_within batch p h)) (λ q b. stream_rows_within rows [] q b))
        (λ _. stream_rows_within rows (pending ++ row ∷ []) p h)
