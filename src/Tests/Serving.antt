-- ===== src/Tests/Serving.antt =====
-- src/server at concrete inputs.
use vcd_tools_rs.Prelude.{
  ℕ, ◌+◌, ◌≤◌, ◌≡◌, ◌≢◌, true, refl, Bool, false, Option, none, some, List, [], ◌∷◌, ◌++◌, Text,
  codes, length, ok, err, ap, arith, length-append, ◌⊎◌, ◌<◌, byte_len,
}
use vcd_tools_rs.Value.Number.{show_decimal, decimal_onto}
use vcd_tools_rs.Server.Json.{Value, null, string, array, cons, nil}
use vcd_tools_rs.Server.Protocol.{
  ProtocolError, bad_request, bad_request_error, truncate_utf8, new_error,
}
use vcd_tools_rs.Server.Protocol.Bounded.{
  IsBounded, new_error-IsBounded, IsTruncated, truncate_utf8_lem,
}
use vcd_tools_rs.Server.Answer.{Answer, ◌>>=◌}
use vcd_tools_rs.Server.Request.{Request, RequestMethod, request_value}
use vcd_tools_rs.Server.Request.Take.{expect_object}
use vcd_tools_rs.Server.Request.Valid.{IsValid}
use vcd_tools_rs.Server.Request.Decode.{decode_value, decode_request_with_active}
use vcd_tools_rs.Server.Request.Sound.{decode_request-IsValid}
use vcd_tools_rs.Server.Request.RoundTrip.{decode-request_line}
use vcd_tools_rs.Server.Request.Refused.{IsRequestError}
use vcd_tools_rs.Server.Request.Refusals.{decode_value_refusal}
use vcd_tools_rs.Server.Frames.{
  ResponseFrame, StreamStats, JsonResult, end, begin_frame, end_frame, end_success, stabilize,
  total_bytes, within_u64, encoded_json_line_bytes, encode_json_line, chunk_frame,
}
use vcd_tools_rs.Server.Frames.Stable.{end_success_counts, end_success_total}
use vcd_tools_rs.Server.Output.{
  Writes, encode_bounded, frame_limit_error, OutputSink, Sending, Attempt, accepted, full,
  send_frame, conclude, panicked, internal_error, validate_frame, send_loop, accept, checked_next,
  connected_round, deliver, disconnect, finish_line, new_writer, observe, send_round, try_send,
  write, write_buffers,
}
use vcd_tools_rs.Server.Output.Capped.{joined, encode_bounded_lem}
use vcd_tools_rs.Server.Output.Lifecycle.{IsResponse, frames}
use vcd_tools_rs.Server.Output.Complete.{
  Run, start, send, new_sink, IsConcluded, Run-IsResponse, conclude-IsConcluded,
}
use vcd_tools_rs.Prelude.Keys.{text_eqb, text_eqb_iff}
use vcd_tools_rs.Server.Stream.{
  try_frame_bytes, respond, send_rows_split, StreamOutput, begin_stream, frame_bytes, counted,
  count_buffers, new_counter, or_limit, ensure_response_budget, stream_rows, send_rows,
  send_counted, advance, begun, count, finish,
}
use vcd_tools_rs.Server.Stream.Counter.{try_frame_bytes-encode_bounded}
use vcd_tools_rs.Server.Stream.Budget.{KeepsBudget, respond-within_limit}
use vcd_tools_rs.Server.Stream.Within.{encode}
use vcd_tools_rs.Server.Stream.Rows.{rows_of}
use vcd_tools_rs.Server.Stream.Carried.{respond-rows}
use vcd_tools_rs.Server.Stream.Depth.{send_rows_split_depth}
use vcd_tools_rs.Prelude.Assoc.{lookup, contains_key}
use vcd_tools_rs.Prelude.Keys.{text_eq}
use vcd_tools_rs.Server.Runtime.{Meets, Serving, ConnectionState, handle_line, cancel}
use vcd_tools_rs.Server.Runtime.Registry.{IsConnection}
use vcd_tools_rs.Server.Runtime.Served.{IsServing}
use vcd_tools_rs.Server.Runtime.Reached
use vcd_tools_rs.Server.Runtime.Reached.{new_serving, reached-IsServing}
use vcd_tools_rs.Server.Runtime.Cancelled.{is_cancelled, cancel_lem}

-- A request for the changes of `clk` from 5 to 9.
abbrev sample : Request
sample = record {
  id = codes "a";
  method = RequestMethod.extract (record {
    signals = codes "clk" ∷ [];
    start = some 5;
    end = some 9;
    max_rows = none;
    max_response_bytes = some 8192;
    max_commands = none;
    timeout_ms = none;
  });
}

sample-IsValid : IsValid sample
sample-IsValid = record {
  id_lem = ((λ e. cc), omega arith);
  method_lem = (
    ((λ e. cc), ((λ e. cc), tt)),
    (omega arith, omega arith, omega arith),
    tt,
    (omega arith, omega arith),
    tt,
    tt,
  );
}

abbrev parse_sample : Text → Answer Value
parse_sample text = ok (request_value sample)

abbrev none_active : Text → Bool
none_active id = false

decode-request_line_example :
    decode_request_with_active parse_sample (codes "{}") none_active ≡ ok sample
decode-request_line_example =
    decode-request_line parse_sample none_active sample (codes "{}") sample-IsValid refl refl

decode_request-IsValid_example : IsValid sample × (none_active sample.id ≡ false)
decode_request-IsValid_example =
    decode_request-IsValid parse_sample none_active (codes "{}") sample
      (decode-request_line parse_sample none_active sample (codes "{}") sample-IsValid refl refl)

null_refused :
    decode_value null ≡ err (bad_request_error (codes "request envelope must be an object"))
unfolding decode_value expect_object ◌>>=◌
null_refused = refl

decode_value_refusal_example :
    IsRequestError (bad_request_error (codes "request envelope must be an object"))
decode_value_refusal_example = decode_value_refusal null _ null_refused

new_error-IsBounded_example :
    IsBounded
      (new_error bad_request (codes "too long") (array (cons (string (codes "signal")) nil)) false)
new_error-IsBounded_example =
    new_error-IsBounded bad_request (codes "too long") (array (cons (string (codes "signal")) nil))
      false

truncate_utf8_lem_example :
    (byte_len (truncate_utf8 (codes "signals") 5) ≤ 5)
    × IsTruncated (codes "signals") 5 (truncate_utf8 (codes "signals") 5)
truncate_utf8_lem_example = truncate_utf8_lem (codes "signals") 5 (omega arith)

abbrev stats : StreamStats
stats = record {
  rows = codes "1";
  encoded_bytes = codes "0";
  elapsed_ms = codes "2";
  commands = codes "3";
  backend = codes "stream";
}

-- An encoder that writes the byte count of an end frame, and nothing for other frames.
abbrev count_text : Option StreamStats → List ℕ
count_text none = []
count_text (some s) = s.encoded_bytes

abbrev to_vec : ResponseFrame → JsonResult (List ℕ)
to_vec (end f) = ok (count_text f.stats)
to_vec _ = ok []

sizes :
    (n : ℕ)
    → encoded_json_line_bytes to_vec (end_frame (codes "a") 1 stats (show_decimal n))
      ≡ ok (1 + length (show_decimal n))
unfolding encoded_json_line_bytes encode_json_line end_frame
sizes n = ap ok (omega (arith, length-append (show_decimal n) (10 ∷ [])))

end_success_total_example : (f : ResponseFrame) × (end_success to_vec (codes "a") 1 stats 97 ≡ ok f)
end_success_total_example = end_success_total to_vec (codes "a") 1 stats 97 1 sizes (omega arith)

end_found :
    end_success to_vec (codes "a") 1 stats 97 ≡ ok (end_frame (codes "a") 1 stats (codes "101"))
unfolding end_success stabilize total_bytes within_u64 encoded_json_line_bytes encode_json_line
    end_frame show_decimal decimal_onto
end_found = refl

end_success_counts_example :
    (bytes : ℕ) × (encoded_json_line_bytes to_vec (end_frame (codes "a") 1 stats (codes "101"))
      ≡ ok bytes)
    × (end_frame (codes "a") 1 stats (codes "101")
        ≡ end_frame (codes "a") 1 stats (show_decimal (97 + bytes)))
end_success_counts_example =
    end_success_counts to_vec (codes "a") 1 stats 97 (end_frame (codes "a") 1 stats (codes "101"))
      end_found

abbrev abc : Writes
abc = record { buffers = (1 ∷ 2 ∷ []) ∷ (3 ∷ []) ∷ []; failed = false }

encode_bounded_lem_example :
    ((length (joined abc.buffers) + 1 ≤ 5)
      × (encode_bounded 5 abc ≡ ok (joined abc.buffers ++ 10 ∷ [])))
    ⊎ ((5 < length (joined abc.buffers) + 1)
        × ((attempted : ℕ) × (5 ≤ attempted)
            × (attempted ≤ length (joined abc.buffers))
            × (encode_bounded 5 abc ≡ err (frame_limit_error 5 attempted))))
encode_bounded_lem_example =
    encode_bounded_lem 5 ((1 ∷ 2 ∷ []) ∷ (3 ∷ []) ∷ []) (omega arith) (omega arith)

try_frame_bytes-encode_bounded_example :
    ((line : List ℕ) × (try_frame_bytes 5 abc ≡ ok (some (length line)))
      × (encode_bounded 5 abc ≡ ok line))
    ⊎ ((e : ProtocolError) × (try_frame_bytes 5 abc ≡ ok none) × (encode_bounded 5 abc ≡ err e))
try_frame_bytes-encode_bounded_example =
    try_frame_bytes-encode_bounded 5 ((1 ∷ 2 ∷ []) ∷ (3 ∷ []) ∷ []) (omega arith) (omega arith)

-- A writer whose queue is full for one round.
abbrev ready : Attempt
ready = record { check = none; disconnected = false; outcome = accepted }

abbrev busy : Attempt
busy = record { check = none; disconnected = false; outcome = full }

abbrev prompt_sending : Sending
prompt_sending = record { rounds = busy ∷ ready ∷ []; stop = internal_error (codes "deadline") }

abbrev plain : ResponseFrame → Answer (List ℕ)
plain f = ok (1 ∷ 10 ∷ [])

abbrev opened : OutputSink
opened =
    (send_frame (codes "a") plain prompt_sending
      (begin_frame (codes "a") (codes "time_value.v1") []) (new_sink false)).1

one_sent : Run (codes "a") plain (new_sink false) opened
one_sent = send start prompt_sending (begin_frame (codes "a") (codes "time_value.v1") []) refl

Run-IsResponse_example : IsResponse (codes "a") opened.lifecycle (frames opened.sent)
Run-IsResponse_example = Run-IsResponse (codes "a") plain false opened one_sent

conclude-IsConcluded_example :
    IsConcluded
      (codes "a")
      plain
      (conclude (codes "a") plain panicked (record { rounds = []; last = ready }) opened)
conclude-IsConcluded_example =
    conclude-IsConcluded (codes "a") plain false opened panicked
      (record { rounds = []; last = ready }) one_sent

abbrev nothing_written : ResponseFrame → Writes
nothing_written f = record { buffers = []; failed = false }

abbrev always : ℕ → Sending
always seq = prompt_sending

respond-within_limit_example :
    KeepsBudget
      (codes "a")
      8192
      (encode 4096 nothing_written)
      (record { rounds = []; last = ready })
      (respond
        (codes "a")
        8192
        4096
        nothing_written
        always
        to_vec
        (codes "time_value.v1")
        1
        (null ∷ null ∷ [])
        2
        (codes "3")
        (new_sink false))
respond-within_limit_example =
    respond-within_limit (codes "a") 8192 4096 nothing_written always to_vec (codes "time_value.v1")
      1 (null ∷ null ∷ []) 2 (codes "3") (new_sink false) (record { rounds = []; last = ready })
      (omega arith) (omega arith) (omega arith) (omega arith) refl

answered :
    (respond
      (codes "a")
      8192
      4096
      nothing_written
      always
      to_vec
      (codes "time_value.v1")
      1
      (null ∷ null ∷ [])
      2
      (codes "3")
      (new_sink false)).0
    ≡ ok tt
unfolding respond begin_stream frame_bytes ◌>>=◌ try_frame_bytes counted count_buffers new_counter
    or_limit ensure_response_budget send_frame validate_frame begin_frame text_eqb encode_bounded
    send_loop stream_rows send_rows send_rows_split send_counted chunk_frame end_frame end_success
    stabilize total_bytes within_u64 encode_json_line encoded_json_line_bytes accept checked_next
    connected_round deliver disconnect finish_line new_writer observe send_round try_send write
    write_buffers advance begun count finish show_decimal decimal_onto
answered = refl

respond-rows_example :
    rows_of
      (respond
        (codes "a")
        8192
        4096
        nothing_written
        always
        to_vec
        (codes "time_value.v1")
        1
        (null ∷ null ∷ [])
        2
        (codes "3")
        (new_sink false)).1.1.sent
    ≡ null ∷ null ∷ []
respond-rows_example =
    respond-rows (codes "a") 8192 4096 nothing_written always to_vec (codes "time_value.v1") 1
      (null ∷ null ∷ []) 2 (codes "3") (new_sink false) refl answered

abbrev fresh_stream : StreamOutput
fresh_stream = record { next_seq = 1; encoded_bytes = 2; rows = 0 }

send_rows_split_depth_example :
    send_rows_split
      (codes "a")
      8192
      4096
      nothing_written
      always
      2
      (null ∷ null ∷ [])
      (fresh_stream, opened)
    ≡ send_rows_split
        (codes "a")
        8192
        4096
        nothing_written
        always
        5
        (null ∷ null ∷ [])
        (fresh_stream, opened)
send_rows_split_depth_example =
    send_rows_split_depth (codes "a") 8192 4096 nothing_written always 2 5 (null ∷ null ∷ [])
      (fresh_stream, opened) (omega arith) (omega arith) (omega arith)

abbrev met : Meets
met = record { sends = true; deadline_fits = true; submits = true }

abbrev one_job : Serving
one_job = (handle_line parse_sample 5000 met (codes "{}") (new_serving 8)).1

reached-IsServing_example : IsServing one_job
reached-IsServing_example =
    reached-IsServing parse_sample 5000 8 one_job (Reached.line Reached.start met (codes "{}") refl)

abbrev two_requests : ConnectionState
two_requests = record {
  active = (codes "a", 0) ∷ (codes "b", 1) ∷ [];
  disconnected = false;
  max_active = 8;
  next_token = 2;
  cancelled = [];
}

two_requests-IsConnection : IsConnection two_requests
unfolding contains_key text_eqb
two_requests-IsConnection = record {
  registry = (refl, omega arith, ((λ e. absurd (omega arith)), tt), (refl, omega arith, tt, tt));
  within = omega arith;
  cancelled_lem = tt;
}

a_differs_b : codes "a" ≢ codes "b"
unfolding text_eqb
a_differs_b e =
    let same : text_eqb (codes "a") (codes "b") ≡ true =
      (text_eqb_iff (codes "a") (codes "b")).1 e in
    cc

cancel_lem_example :
    ((cancel (codes "a") two_requests).0 ≡ true)
    × (is_cancelled 0 (cancel (codes "a") two_requests).1 ≡ true)
    × (is_cancelled 1 (cancel (codes "a") two_requests).1 ≡ is_cancelled 1 two_requests)
unfolding lookup text_eqb
cancel_lem_example =
    cancel_lem two_requests (codes "a") (codes "b") 0 1 two_requests-IsConnection a_differs_b refl
      refl
