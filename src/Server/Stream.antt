-- ===== src/Server/Stream.antt =====
-- src/server/service.rs: `StreamOutput`, the rows of one response in frames within its limits, and
-- the unary responses. What serde_json writes for a frame is a parameter.
pub mod Counter
pub mod Sends
pub mod Within
pub mod Budget
pub mod Rows
pub mod Carried
pub mod Depth
use vcd_tools_rs.Prelude.{
  ℕ, zero, suc, ◌+◌, ◌-◌, ◌/◌, ◌^◌, Bool, true, false, Option, none, some, List, [], ◌∷◌, ◌++◌,
  Text, codes, length, ltb, nat_eqb, if◌then◌else◌, Result, ok, err, saturating_add, take, drop,
}
use vcd_tools_rs.Errors.{QueryError}
use vcd_tools_rs.Value.Number.{show_decimal}
use vcd_tools_rs.Server.Json.{Value, Values, object, text_fields, nil, cons}
use vcd_tools_rs.Server.Protocol.{
  ProtocolError, new_error, limit_exceeded, terminal_frame_reserve_bytes, bad_request_error,
  protocol_error_from_query,
}
use vcd_tools_rs.Server.Answer.{Answer, ◌>>=◌, reject_if}
use vcd_tools_rs.Server.Frames.{
  ResponseFrame, StreamStats, JsonResult, result_frame, begin_frame, chunk_frame, end_success,
}
use vcd_tools_rs.Server.Output.{
  OutputSink, Sending, Step, Writes, encode_bounded, send_frame, internal_error, u32_max,
}

unfoldable pub limit_error : Text → ℕ → ℕ → ProtocolError
limit_error kind limit actual =
    new_error limit_exceeded (codes "query limit exceeded")
      (object (
        text_fields (
          (codes "kind", kind)
          ∷ (codes "limit", show_decimal limit)
          ∷ (codes "actual", show_decimal actual)
          ∷ [])))
      false

-- The requested limit, or the configured one; a request can only lower it.
abbrev pub or_configured : Option ℕ → ℕ → ℕ
or_configured none configured = configured
or_configured (some n) configured = n

unfoldable pub lower_limit : Text → Option ℕ → ℕ → Answer ℕ
lower_limit kind requested configured =
    if ltb configured (or_configured requested configured)
    then err (bad_request_error (kind ++ codes " may only lower the configured maximum"))
    else ok (or_configured requested configured)

unfoldable pub ensure_response_budget : ℕ → ℕ → ℕ → Answer (Unit {0})
ensure_response_budget current next limit =
    let actual : ℕ = saturating_add (saturating_add current next) terminal_frame_reserve_bytes in
    if ltb limit actual then err (limit_error (codes "response_bytes") limit actual) else ok tt

pub record CappedCounter : Type 0 where
  pub cap : ℕ
  pub written : ℕ
  pub exceeded : Bool

unfoldable pub new_counter : ℕ → CappedCounter
new_counter line_cap = record { cap = line_cap - 1; written = 0; exceeded = false }

-- `CappedCounter::write`; the Boolean says that it succeeded.
unfoldable pub count : List ℕ → CappedCounter → Bool × CappedCounter
count buffer c =
    let attempted : ℕ = saturating_add c.written (length buffer) in
    if ltb c.cap attempted
    then (false, record c { exceeded = true })
    else (true, record c { written = attempted })

abbrev pub if_counted :
    Bool × CappedCounter → (CappedCounter → Bool × CappedCounter) → Bool × CappedCounter
if_counted (true, c) next = next c
if_counted (false, c) next = (false, c)

unfoldable pub count_buffers : List (List ℕ) → CappedCounter → Bool × CappedCounter
count_buffers [] c = (true, c)
count_buffers (buffer ∷ buffers) c = if_counted (count buffer c) (λ c. count_buffers buffers c)

-- The match on what the serializer returns: it fails by a write or by itself.
unfoldable pub counted : Bool → Bool × CappedCounter → Answer (Option ℕ)
counted failed (written_all, c) =
    if c.exceeded
    then ok none
    else if failed
    then err (internal_error (codes "response serialization failed"))
    else ok (some (c.written + 1))

unfoldable pub try_frame_bytes : ℕ → Writes → Answer (Option ℕ)
try_frame_bytes frame_limit writes =
    counted writes.failed (count_buffers writes.buffers (new_counter frame_limit))

unfoldable pub or_limit : ℕ → Option ℕ → Answer ℕ
or_limit frame_limit none =
    err (limit_error (codes "encoded_frame_bytes") frame_limit (frame_limit + 1))
or_limit frame_limit (some bytes) = ok bytes

unfoldable pub frame_bytes : ℕ → Writes → Answer ℕ
frame_bytes frame_limit writes = try_frame_bytes frame_limit writes >>= or_limit frame_limit

-- The parts of a stream that change.
pub record StreamOutput : Type 0 where
  pub next_seq : ℕ
  pub encoded_bytes : ℕ
  pub rows : ℕ

abbrev pub Progress : Type 0
Progress = StreamOutput × OutputSink

abbrev pub Outcome : Type 0
Outcome = Answer (Unit {0}) × Progress

-- `?` on an outcome.
infixl 5 ◌then_do◌
abbrev pub ◌then_do◌ : Outcome → (Progress → Outcome) → Outcome
(ok u, p) then_do next = next p
(err e, p) then_do next = (err e, p)

abbrev pub values : List Value → Values
values [] = nil
values (v ∷ vs) = cons v (values vs)

abbrev pub chunk_rows : ℕ
chunk_rows = 1024

abbrev pub after_send : Step → StreamOutput → StreamOutput → Outcome
after_send (ok u, s) before after = (ok tt, (after, s))
after_send (err e, s) before after = (err e, (before, s))

unfoldable pub begun : ℕ → StreamOutput
begun bytes = record { next_seq = 1; encoded_bytes = bytes; rows = 0 }

unfoldable pub advance : ℕ → ℕ → StreamOutput → StreamOutput
advance bytes count st = record {
  next_seq = st.next_seq + 1;
  encoded_bytes = saturating_add st.encoded_bytes bytes;
  rows = saturating_add st.rows count;
}

-- The number of the next frame does not wrap around.
abbrev pub sequenced : ℕ → Outcome → Outcome
sequenced seq (err e, p) = (err e, p)
sequenced seq (ok u, (st, s)) = if ltb seq u32_max then (ok tt, (st, s)) else (
  err (internal_error (codes "response sequence overflow")),
  (record st { next_seq = seq }, s),
)

-- An error of a chunk that is sent while the file is visited passes through the query.
abbrev pub through_query : Outcome → Outcome
through_query (ok u, p) = (ok u, p)
through_query (err e, p) = (err (protocol_error_from_query (QueryError.internal e.message)), p)

-- The id, the limits, the encoder, what each send meets (by the frame's number), and the text of
-- the time that the stream took.
module _ (id : Text) (response_limit frame_limit : ℕ) (writes : ResponseFrame → Writes)
    (sending : ℕ → Sending) where
  abbrev pub send : ℕ → ResponseFrame → OutputSink → Step
  send seq frame s =
      send_frame id (λ f. encode_bounded frame_limit (writes f)) (sending seq) frame s

  -- What follows the count of a frame's bytes: the budget and the send.
  abbrev pub within_budget :
      Answer (Unit {0}) → ℕ → ResponseFrame → StreamOutput → Progress → Outcome
  within_budget (err e) seq frame after p = (err e, p)
  within_budget (ok u) seq frame after (st, s) = after_send (send seq frame s) st after

  abbrev pub begin_counted : ResponseFrame → OutputSink → Answer ℕ → Outcome
  begin_counted frame s (err e) = (err e, (begun 0, s))
  begin_counted frame s (ok bytes) =
      within_budget (ensure_response_budget 0 bytes response_limit) 0 frame (begun bytes)
        (begun 0, s)

  -- `StreamOutput::begin`; the stream of a failed one is dropped.
  unfoldable pub begin_stream : Text → ℕ → OutputSink → Outcome
  begin_stream schema generation s =
      let frame = begin_frame id schema (show_decimal generation) in
      begin_counted frame s (frame_bytes frame_limit (writes frame))

  unfoldable pub send_counted : List Value → ℕ → Progress → Outcome
  send_counted rows bytes (st, s) = sequenced st.next_seq (
      within_budget (ensure_response_budget st.encoded_bytes bytes response_limit) st.next_seq
        (chunk_frame id st.next_seq (values rows)) (advance bytes (length rows) st) (st, s))

  -- One frame for all rows, or each half of them by itself. `fuel` is the depth that is left; the
  -- number of rows is enough.
  abbrev pub split_or_send :
      List Value → Answer (Option ℕ) → (Progress → Outcome) → Progress → Outcome
  split_or_send rows (err e) halves p = (err e, p)
  split_or_send rows (ok (some bytes)) halves p = send_counted rows bytes p
  split_or_send rows (ok none) halves p =
      if nat_eqb (length rows) 1
      then (err (limit_error (codes "chunk_bytes") frame_limit (frame_limit + 1)), p)
      else halves p

  unfoldable pub send_rows_split : ℕ → List Value → Progress → Outcome
  send_rows_split zero rows p =
      (err (limit_error (codes "chunk_bytes") frame_limit (frame_limit + 1)), p)
  send_rows_split (suc fuel) rows p =
      let midpoint : ℕ = length rows / 2 in
      split_or_send rows
        (try_frame_bytes frame_limit (writes (chunk_frame id p.0.next_seq (values rows))))
        (λ p.
          send_rows_split fuel (take midpoint rows) p
          then_do send_rows_split fuel (drop midpoint rows))
        p

  unfoldable pub send_rows : List Value → Progress → Outcome
  send_rows [] p = (ok tt, p)
  send_rows (row ∷ rows) p = send_rows_split (length (row ∷ rows)) (row ∷ rows) p

  -- The rows of a visit, in chunks of `chunk_rows`, and the rest after it.
  unfoldable pub stream_rows : List Value → List Value → Progress → Outcome
  stream_rows [] pending p = send_rows pending p
  stream_rows (row ∷ rows) pending p =
      let batch : List Value = pending ++ row ∷ [] in
      let flushed = through_query (send_rows batch p) then_do stream_rows rows [] in
      let kept = stream_rows rows batch p in
      if nat_eqb (length batch) chunk_rows then flushed else kept

  -- `finish`, from the end frame on.
  abbrev pub finish_counted : ResponseFrame → Progress → Answer ℕ → Outcome
  finish_counted frame p (err e) = (err e, p)
  finish_counted frame (st, s) (ok bytes) =
      if ltb response_limit (saturating_add st.encoded_bytes bytes)
      then (
        err (
            limit_error (codes "response_bytes") response_limit
              (saturating_add st.encoded_bytes bytes)),
        (st, s),
      )
      else after_send (send st.next_seq frame s) st
          (record st { encoded_bytes = saturating_add st.encoded_bytes bytes })

  abbrev pub finish_frame : Progress → JsonResult ResponseFrame → Outcome
  finish_frame p (err e) = (err (internal_error (codes "response serialization failed")), p)
  finish_frame p (ok frame) = finish_counted frame p (frame_bytes frame_limit (writes frame))

  unfoldable pub finish : (ResponseFrame → JsonResult (List ℕ)) → ℕ → Text → Progress → Outcome
  finish to_vec commands elapsed_ms p = finish_frame p (
      end_success to_vec id p.0.next_seq
        (record {
          rows = show_decimal p.0.rows;
          encoded_bytes = codes "0";
          elapsed_ms = elapsed_ms;
          commands = show_decimal commands;
          backend = codes "stream";
        })
        p.0.encoded_bytes)

  abbrev pub unary_counted : ResponseFrame → OutputSink → Answer ℕ → Step
  unary_counted frame s (err e) = (err e, s)
  unary_counted frame s (ok bytes) =
      if ltb response_limit bytes
      then (err (limit_error (codes "response_bytes") response_limit bytes), s)
      else send 0 frame s

  -- `send_unary`, behind the conversion of the result to a JSON value.
  unfoldable pub send_unary : Value → OutputSink → Step
  send_unary result s =
      let frame = result_frame id result in
      unary_counted frame s (frame_bytes frame_limit (writes frame))

  -- A streamed response, from its begin frame on: the rows of a visit that succeeds and the end
  -- frame. Its context, the generation, the missing signals and the permit of its scan come before
  -- it and are left out; the terminal frame of a failure is the worker's (`conclude`).
  unfoldable pub respond :
      (ResponseFrame → JsonResult (List ℕ))
      → Text
      → ℕ
      → List Value
      → ℕ
      → Text
      → OutputSink
      → Outcome
  respond to_vec schema generation rows commands elapsed_ms s =
      begin_stream schema generation s
      then_do stream_rows rows []
      then_do finish to_vec commands elapsed_ms
