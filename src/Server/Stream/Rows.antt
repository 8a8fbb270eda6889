-- ===== src/Server/Stream/Rows.antt =====
-- src/server/service.rs: a streamed response that succeeds carries exactly the rows of the visit.
use vcd_tools_rs.Prelude.{
  ℕ, zero, suc, ◌/◌, ◌≡◌, refl, Option, none, some, List, [], ◌∷◌, ◌++◌, Text, length, ltb, nat_eqb,
  if◌then◌else◌, ok, err, inl, inr, ap, ◌∙◌, sym, take, drop, take-append-drop, append_assoc,
  append-nil, if_intro,
}
use mathlib.Core.Path.{subst}
use vcd_tools_rs.Server.Answer.{Answer}
use vcd_tools_rs.Server.Json.{Value, Values, nil, cons}
use vcd_tools_rs.Server.Frames.{ResponseFrame, chunk_frame, result, error, begin, chunk, end}
use vcd_tools_rs.Server.Output.{OutputSink, Line, Sending, Step, Writes, encode_bounded, u32_max}
use vcd_tools_rs.Server.Stream.Sends.{SendsFrame, send_frame_lem}
use vcd_tools_rs.Server.Stream.{
  ensure_response_budget, try_frame_bytes, StreamOutput, Progress, Outcome, ◌then_do◌, values, send,
  after_send, within_budget, advance, sequenced, send_counted, split_or_send, send_rows_split,
  send_rows, through_query, stream_rows, chunk_rows,
}

abbrev pub listed : Values → List Value
listed nil = []
listed (cons v vs) = v ∷ listed vs

-- The rows of a frame; only chunks have some.
abbrev pub rows_in : ResponseFrame → List Value
rows_in (result f) = []
rows_in (error f) = []
rows_in (begin f) = []
rows_in (chunk f) = listed f.rows
rows_in (end f) = []

-- The rows of the frames that were sent, in order.
abbrev pub rows_of : List Line → List Value
rows_of [] = []
rows_of ((f, line) ∷ lines) = rows_in f ++ rows_of lines

listed-values : (vs : List Value) → listed (values vs) ≡ vs
listed-values [] = refl
listed-values (v ∷ vs) = ap (λ ws. v ∷ ws) (listed-values vs)

rows_of-append :
    (ls : List Line) (f : ResponseFrame) (line : List ℕ)
    → rows_of (ls ++ (f, line) ∷ []) ≡ rows_of ls ++ rows_in f
rows_of-append [] f line = append-nil (rows_in f)
rows_of-append ((g, other) ∷ ls) f line =
    ap (λ vs. rows_in g ++ vs) (rows_of-append ls f line)
    ∙ sym (append_assoc (rows_in g) (rows_of ls) (rows_in f))

-- An outcome that is a success has added the rows.
abbrev pub Adds : List Value → List Value → Outcome → Type 0
Adds before rows (ok u, p) = rows_of p.1.sent ≡ before ++ rows
Adds before rows (err e, p) = Unit {0}

pub after-Adds :
    (encode : ResponseFrame → Answer (List ℕ)) (f : ResponseFrame) (s : OutputSink) (step : Step)
    (before after : StreamOutput)
    → SendsFrame encode f s step
    → Adds (rows_of s.sent) (rows_in f) (after_send step before after)
after-Adds encode f s (ok u, s') before after (inl (done, (line, e, sent))) =
    rw sent (rows_of-append s.sent f line)
after-Adds encode f s (ok u, s') before after (inr (e, failed, sent)) = cc
after-Adds encode f s (err why, s') before after h = tt

sequenced-Adds :
    (before rows : List Value) (seq : ℕ) (o : Outcome)
    → Adds before rows o
    → Adds before rows (sequenced seq o)
sequenced-Adds before rows seq (err e, p) h = tt
sequenced-Adds before rows seq (ok u, (st, s)) h =
    if_intro (Adds before rows) (ltb seq u32_max) (λ _. h) (λ _. tt)

more_added :
    (before rows more middle : List Value) (o : Outcome)
    → middle ≡ before ++ rows
    → Adds middle more o
    → Adds before (rows ++ more) o
more_added before rows more middle (err e, p) h k = tt
more_added before rows more middle (ok u, p) h k =
    k ∙ ap (λ vs. vs ++ more) h ∙ append_assoc before rows more

-- One outcome after the other.
pub then-Adds :
    (before rows more : List Value) (o : Outcome) (next : Progress → Outcome)
    → Adds before rows o
    → ((p : Progress) → Adds (rows_of p.1.sent) more (next p))
    → Adds before (rows ++ more) (o then_do next)
then-Adds before rows more (err e, p) next h k = tt
then-Adds before rows more (ok u, p) next h k =
    more_added before rows more (rows_of p.1.sent) (next p) h (k p)

through-Adds :
    (before rows : List Value) (o : Outcome)
    → Adds before rows o
    → Adds before rows (through_query o)
through-Adds before rows (ok u, p) h = h
through-Adds before rows (err e, p) h = tt

module _ (id : Text) (response_limit frame_limit : ℕ) (writes : ResponseFrame → Writes)
    (sending : ℕ → Sending) where
  abbrev pub encode : ResponseFrame → Answer (List ℕ)
  encode f = encode_bounded frame_limit (writes f)

  pub within-Adds :
      (budget : Answer (Unit {0})) (seq : ℕ) (f : ResponseFrame) (after : StreamOutput)
      (p : Progress)
      → Adds
          (rows_of p.1.sent)
          (rows_in f)
          (within_budget id response_limit frame_limit writes sending budget seq f after p)
  within-Adds (err e) seq f after p = tt
  within-Adds (ok u) seq f after (st, s) =
      after-Adds encode f s (send id response_limit frame_limit writes sending seq f s) st after
        (send_frame_lem id encode (sending seq) f s)

  send_counted-Adds :
      (rows : List Value) (bytes : ℕ) (p : Progress)
      → Adds
          (rows_of p.1.sent)
          rows
          (send_counted id response_limit frame_limit writes sending rows bytes p)
  unfolding send_counted chunk_frame
  send_counted-Adds rows bytes (st, s) =
      let f : ResponseFrame = chunk_frame id st.next_seq (values rows) in
      let sent : Outcome =
        within_budget id response_limit frame_limit writes sending
          (ensure_response_budget st.encoded_bytes bytes response_limit) st.next_seq f
          (advance bytes (length rows) st) (st, s) in
      sequenced-Adds (rows_of s.sent) rows st.next_seq sent (
        subst (λ vs. Adds (rows_of s.sent) vs sent) (listed-values rows)
          (within-Adds (ensure_response_budget st.encoded_bytes bytes response_limit) st.next_seq f
            (advance bytes (length rows) st) (st, s)))

  split-Adds :
      (rows : List Value) (counted : Answer (Option ℕ)) (halves : Progress → Outcome) (p : Progress)
      → Adds (rows_of p.1.sent) rows (halves p)
      → Adds
          (rows_of p.1.sent)
          rows
          (split_or_send id response_limit frame_limit writes sending rows counted halves p)
  split-Adds rows (err e) halves p k = tt
  split-Adds rows (ok (some bytes)) halves p k = send_counted-Adds rows bytes p
  split-Adds rows (ok none) halves p k =
      if_intro (Adds (rows_of p.1.sent) rows) (nat_eqb (length rows) 1) (λ _. tt) (λ _. k)

  send_rows_split-Adds :
      (fuel : ℕ) (rows : List Value) (p : Progress)
      → Adds
          (rows_of p.1.sent)
          rows
          (send_rows_split id response_limit frame_limit writes sending fuel rows p)
  unfolding send_rows_split
  send_rows_split-Adds zero rows p = tt
  send_rows_split-Adds (suc fuel) rows p =
      let mid : ℕ = length rows / 2 in
      let first : Progress → Outcome =
        send_rows_split id response_limit frame_limit writes sending fuel (take mid rows) in
      let second : Progress → Outcome =
        send_rows_split id response_limit frame_limit writes sending fuel (drop mid rows) in
      split-Adds rows
        (try_frame_bytes frame_limit (writes (chunk_frame id p.0.next_seq (values rows))))
        (λ p. first p then_do second) p
        (subst (λ vs. Adds (rows_of p.1.sent) vs (first p then_do second))
          (take-append-drop mid rows)
          (then-Adds (rows_of p.1.sent) (take mid rows) (drop mid rows) (first p) second
            (send_rows_split-Adds fuel (take mid rows) p)
            (λ q. send_rows_split-Adds fuel (drop mid rows) q)))

  send_rows-Adds :
      (rows : List Value) (p : Progress)
      → Adds (rows_of p.1.sent) rows (send_rows id response_limit frame_limit writes sending rows p)
  unfolding send_rows
  send_rows-Adds [] p = sym (append-nil (rows_of p.1.sent))
  send_rows-Adds (row ∷ rows) p = send_rows_split-Adds (length (row ∷ rows)) (row ∷ rows) p

  pub stream_rows-Adds :
      (rows pending : List Value) (p : Progress)
      → Adds
          (rows_of p.1.sent)
          (pending ++ rows)
          (stream_rows id response_limit frame_limit writes sending rows pending p)
  unfolding stream_rows
  stream_rows-Adds [] pending p =
      subst
        (λ vs.
          Adds (rows_of p.1.sent) vs
            (send_rows id response_limit frame_limit writes sending pending p))
        (sym (append-nil pending)) (send_rows-Adds pending p)
  stream_rows-Adds (row ∷ rows) pending p =
      let batch : List Value = pending ++ row ∷ [] in
      let flushed : Outcome =
        through_query (send_rows id response_limit frame_limit writes sending batch p) in
      let later : Progress → Outcome =
        stream_rows id response_limit frame_limit writes sending rows [] in
      let kept : Outcome = stream_rows id response_limit frame_limit writes sending rows batch p in
      subst
        (λ vs.
          Adds (rows_of p.1.sent) vs
            (if nat_eqb (length batch) chunk_rows then flushed then_do later else kept))
        (append_assoc pending (row ∷ []) rows)
        (if_intro (Adds (rows_of p.1.sent) (batch ++ rows)) (nat_eqb (length batch) chunk_rows)
          (λ _.
            then-Adds (rows_of p.1.sent) batch rows flushed later
              (through-Adds (rows_of p.1.sent) batch _ (send_rows-Adds batch p))
              (λ q. stream_rows-Adds rows [] q))
          (λ _. stream_rows-Adds rows (pending ++ row ∷ []) p))
