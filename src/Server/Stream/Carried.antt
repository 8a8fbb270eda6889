-- ===== src/Server/Stream/Carried.antt =====
-- src/server/service.rs: the rows of a whole streamed response.
use vcd_tools_rs.Prelude.{
  ℕ, ◌≡◌, refl, List, [], ◌++◌, Text, ltb, ok, err, saturating_add, ap, ◌∙◌, append-nil, if_intro,
}
use mathlib.Core.Path.{subst}
use vcd_tools_rs.Value.Number.{show_decimal}
use vcd_tools_rs.Server.Answer.{Answer}
use vcd_tools_rs.Server.Json.{Value}
use vcd_tools_rs.Server.Frames.{
  ResponseFrame, StreamStats, JsonResult, begin_frame, end_frame, end_success,
}
use vcd_tools_rs.Server.Frames.Stable.{end_success_counts}
use vcd_tools_rs.Server.Output.{OutputSink, Sending, Step, Writes, encode_bounded}
use vcd_tools_rs.Server.Stream.Sends.{send_frame_lem}
use vcd_tools_rs.Server.Stream.Rows.{
  rows_in, rows_of, Adds, after-Adds, then-Adds, within-Adds, stream_rows-Adds,
}
use vcd_tools_rs.Server.Stream.{
  ensure_response_budget, frame_bytes, StreamOutput, Progress, Outcome, ◌then_do◌, send, after_send,
  within_budget, begun, begin_counted, begin_stream, stream_rows, finish_counted, finish_frame,
  finish, respond,
}

module _ (id : Text) (response_limit frame_limit : ℕ) (writes : ResponseFrame → Writes)
    (sending : ℕ → Sending) where
  begin_counted-Adds :
      (f : ResponseFrame) (s : OutputSink) (counted : Answer ℕ)
      → rows_in f ≡ []
      → Adds
          (rows_of s.sent)
          []
          (begin_counted id response_limit frame_limit writes sending f s counted)
  begin_counted-Adds f s (err e) h = tt
  begin_counted-Adds f s (ok bytes) h =
      let budget = ensure_response_budget 0 bytes response_limit in
      subst
        (λ vs. Adds (rows_of s.sent) vs (
          within_budget id response_limit frame_limit writes sending budget 0 f (begun bytes)
            (begun 0, s)))
        h
        (within-Adds id response_limit frame_limit writes sending budget 0 f (begun bytes)
          (begun 0, s))

  begin-Adds :
      (schema : Text) (generation : ℕ) (s : OutputSink)
      → Adds
          (rows_of s.sent)
          []
          (begin_stream id response_limit frame_limit writes sending schema generation s)
  unfolding begin_stream begin_frame
  begin-Adds schema generation s =
      begin_counted-Adds (begin_frame id schema (show_decimal generation)) s _ refl

  finish_counted-Adds :
      (f : ResponseFrame) (p : Progress) (counted : Answer ℕ)
      → rows_in f ≡ []
      → Adds
          (rows_of p.1.sent)
          []
          (finish_counted id response_limit frame_limit writes sending f p counted)
  finish_counted-Adds f p (err e) h = tt
  finish_counted-Adds f (st, s) (ok bytes) h =
      let sent : Step = send id response_limit frame_limit writes sending st.next_seq f s in
      let after : StreamOutput = record st {
        encoded_bytes = saturating_add st.encoded_bytes bytes;
      } in
      if_intro (Adds (rows_of s.sent) [])
        (ltb response_limit (saturating_add st.encoded_bytes bytes)) (λ _. tt)
        (λ _.
          subst (λ vs. Adds (rows_of s.sent) vs (after_send sent st after)) h
            (after-Adds (λ f. encode_bounded frame_limit (writes f)) f s sent st after
              (send_frame_lem id (λ f. encode_bounded frame_limit (writes f)) (sending st.next_seq)
                f s)))

  finish_frame-Adds :
      (p : Progress) (made : JsonResult ResponseFrame)
      → ((f : ResponseFrame) → made ≡ ok f → rows_in f ≡ [])
      → Adds
          (rows_of p.1.sent)
          []
          (finish_frame id response_limit frame_limit writes sending p made)
  finish_frame-Adds p (err e) h = tt
  finish_frame-Adds p (ok f) h =
      finish_counted-Adds f p (frame_bytes frame_limit (writes f)) (h f refl)

  end_has_no_rows :
      (to_vec : ResponseFrame → JsonResult (List ℕ)) (seq : ℕ) (stats : StreamStats) (prior : ℕ)
      (f : ResponseFrame)
      → end_success to_vec id seq stats prior ≡ ok f
      → rows_in f ≡ []
  unfolding end_frame
  end_has_no_rows to_vec seq stats prior f h =
      let (bytes, encoded, shape) = end_success_counts to_vec id seq stats prior f h in rw shape

  finish-Adds :
      (to_vec : ResponseFrame → JsonResult (List ℕ)) (commands : ℕ) (elapsed : Text) (p : Progress)
      → Adds
          (rows_of p.1.sent)
          []
          (finish id response_limit frame_limit writes sending to_vec commands elapsed p)
  unfolding finish
  finish-Adds to_vec commands elapsed p =
      finish_frame-Adds p _ (λ f h. end_has_no_rows to_vec _ _ _ f h)

  respond-Adds :
      (to_vec : ResponseFrame → JsonResult (List ℕ)) (schema : Text) (generation : ℕ)
      (rows : List Value) (commands : ℕ) (elapsed : Text) (s : OutputSink)
      → Adds (rows_of s.sent) (rows ++ []) (
          respond id response_limit frame_limit writes sending to_vec schema generation rows
            commands elapsed s)
  unfolding respond
  respond-Adds to_vec schema generation rows commands elapsed s =
      let begun_stream : Outcome =
        begin_stream id response_limit frame_limit writes sending schema generation s in
      let visit : Progress → Outcome =
        stream_rows id response_limit frame_limit writes sending rows [] in
      then-Adds (rows_of s.sent) rows [] (begun_stream then_do visit)
        (finish id response_limit frame_limit writes sending to_vec commands elapsed)
        (then-Adds (rows_of s.sent) [] rows begun_stream visit (begin-Adds schema generation s)
          (λ p. stream_rows-Adds id response_limit frame_limit writes sending rows [] p))
        (λ p. finish-Adds to_vec commands elapsed p)

  succeeded :
      (before rows : List Value) (o : Outcome)
      → o.0 ≡ ok tt
      → Adds before rows o
      → rows_of o.1.1.sent ≡ before ++ rows
  succeeded before rows (ok u, p) e h = h
  succeeded before rows (err why, p) e h = cc

  -- A streamed response that succeeds has sent exactly the rows of the visit, each once and in their
  -- order, however they are cut into frames.
  pub respond-rows :
      (to_vec : ResponseFrame → JsonResult (List ℕ)) (schema : Text) (generation : ℕ)
      (rows : List Value) (commands : ℕ) (elapsed : Text) (s : OutputSink)
      → s.sent ≡ []
      → (respond id response_limit frame_limit writes sending to_vec schema generation rows commands
          elapsed s).0
        ≡ ok tt
      → rows_of
          (respond id response_limit frame_limit writes sending to_vec schema generation rows
            commands elapsed s).1.1.sent
        ≡ rows
  respond-rows to_vec schema generation rows commands elapsed s fresh done =
      succeeded (rows_of s.sent) (rows ++ []) _ done
        (respond-Adds to_vec schema generation rows commands elapsed s)
      ∙ ap (λ lines. rows_of lines ++ (rows ++ [])) fresh
      ∙ append-nil rows
