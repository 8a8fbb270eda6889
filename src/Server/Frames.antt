-- ===== src/Server/Frames.antt =====
-- src/server/protocol.rs: the frames of a response, and their lengths in bytes. The encoder of
-- serde_json is a parameter.
pub mod Stable
use vcd_tools_rs.Prelude.{
  ℕ, zero, suc, ◌+◌, ◌-◌, ◌^◌, Bool, true, false, Option, none, some, List, [], ◌∷◌, ◌++◌, Text,
  codes, length, leb, nat_eqb, if◌then◌else◌, Result, ok, err, ◌>>=◌, u64_max,
}
use vcd_tools_rs.Value.Number.{show_decimal}
use vcd_tools_rs.Server.Json.{Value, Values}
use vcd_tools_rs.Server.Protocol.{ProtocolError, protocol_version}

pub record StreamStats : Type 0 where
  pub rows : Text
  pub encoded_bytes : Text
  pub elapsed_ms : Text
  pub commands : Text
  pub backend : Text

pub record ResultFrame : Type 0 where
  pub v : ℕ
  pub id : Text
  pub seq : ℕ
  pub frame_type : Text
  pub success : Bool
  pub result : Value

pub record ErrorFrame : Type 0 where
  pub v : ℕ
  pub id : Option Text
  pub seq : ℕ
  pub frame_type : Text
  pub success : Bool
  pub error : ProtocolError

pub record BeginFrame : Type 0 where
  pub v : ℕ
  pub id : Text
  pub seq : ℕ
  pub frame_type : Text
  pub schema : Text
  pub generation : Text

pub record ChunkFrame : Type 0 where
  pub v : ℕ
  pub id : Text
  pub seq : ℕ
  pub frame_type : Text
  pub rows : Values

pub record EndFrame : Type 0 where
  pub v : ℕ
  pub id : Text
  pub seq : ℕ
  pub frame_type : Text
  pub complete : Bool
  pub stats : Option StreamStats
  pub error : Option ProtocolError

pub data ResponseFrame : Type 0 where
  result : ResultFrame → ResponseFrame
  error : ErrorFrame → ResponseFrame
  begin : BeginFrame → ResponseFrame
  chunk : ChunkFrame → ResponseFrame
  end : EndFrame → ResponseFrame

-- `ResponseFrame::result`, behind the conversion of the result to a JSON value.
unfoldable pub result_frame : Text → Value → ResponseFrame
result_frame id value = ResponseFrame.result (record {
  v = protocol_version;
  id = id;
  seq = 0;
  frame_type = codes "result";
  success = true;
  result = value;
})

unfoldable pub error_frame : Option Text → ℕ → ProtocolError → ResponseFrame
error_frame id seq e = ResponseFrame.error (record {
  v = protocol_version;
  id = id;
  seq = seq;
  frame_type = codes "error";
  success = false;
  error = e;
})

unfoldable pub begin_frame : Text → Text → Text → ResponseFrame
begin_frame id schema generation = begin (record {
  v = protocol_version;
  id = id;
  seq = 0;
  frame_type = codes "begin";
  schema = schema;
  generation = generation;
})

unfoldable pub chunk_frame : Text → ℕ → Values → ResponseFrame
chunk_frame id seq rows =
    chunk
      (record { v = protocol_version; id = id; seq = seq; frame_type = codes "chunk"; rows = rows })

-- The end frame of a success, with a text for its own byte count.
unfoldable pub end_frame : Text → ℕ → StreamStats → Text → ResponseFrame
end_frame id seq stats encoded_bytes = end (record {
  v = protocol_version;
  id = id;
  seq = seq;
  frame_type = codes "end";
  complete = true;
  stats = some (record stats { encoded_bytes = encoded_bytes });
  error = none;
})

unfoldable pub end_error : Text → ℕ → ProtocolError → ResponseFrame
end_error id seq e = end (record {
  v = protocol_version;
  id = id;
  seq = seq;
  frame_type = codes "end";
  complete = false;
  stats = none;
  error = some e;
})

-- `serde_json::Error`: the encoder's own, or one of the three that the program makes.
pub data JsonError : Type 0 where
  encoder : Text → JsonError
  length_exceeds_u64 : JsonError
  byte_count_overflow : JsonError
  not_stabilized : JsonError

abbrev pub JsonResult : Type 0 → Type 0
JsonResult A = Result JsonError A

-- A number within u64, or an error.
unfoldable pub within_u64 : JsonError → ℕ → JsonResult ℕ
within_u64 e n = if leb n u64_max then ok n else err e

module _ (to_vec : ResponseFrame → JsonResult (List ℕ)) where
  unfoldable pub encode_json_line : ResponseFrame → JsonResult (List ℕ)
  encode_json_line frame = to_vec frame >>= λ bytes. ok (bytes ++ 10 ∷ [])

  unfoldable pub encoded_json_line_bytes : ResponseFrame → JsonResult ℕ
  encoded_json_line_bytes frame = encode_json_line frame >>= λ line. ok (length line)

  -- `prior_encoded_bytes` and the bytes of one more frame.
  unfoldable pub total_bytes : ℕ → ResponseFrame → JsonResult ℕ
  total_bytes prior frame = do
    bytes ← encoded_json_line_bytes frame
    bytes ← within_u64 length_exceeds_u64 bytes
    within_u64 byte_count_overflow (prior + bytes)

  unfoldable pub cumulative_from : ℕ → List ResponseFrame → JsonResult ℕ
  cumulative_from total [] = ok total
  cumulative_from total (frame ∷ frames) =
      total_bytes total frame >>= λ total. cumulative_from total frames

  unfoldable pub cumulative_encoded_jsonl_bytes : List ResponseFrame → JsonResult ℕ
  cumulative_encoded_jsonl_bytes frames = cumulative_from 0 frames

  -- The loop of `end_success`, by the rounds left: the byte count that the frame states is tried
  -- until it is the count that the frame has with it. `frame` gives the frame for a count.
  unfoldable pub stabilize : (ℕ → ResponseFrame) → ℕ → ℕ → ℕ → JsonResult ResponseFrame
  stabilize frame prior zero candidate = err not_stabilized
  stabilize frame prior (suc rounds) candidate = total_bytes prior (frame candidate) >>= λ total.
      let rest = stabilize frame prior rounds total in
      if nat_eqb total candidate then ok (frame candidate) else rest

  unfoldable pub end_success : Text → ℕ → StreamStats → ℕ → JsonResult ResponseFrame
  end_success id seq stats prior_encoded_bytes =
      stabilize (λ n. end_frame id seq stats (show_decimal n)) prior_encoded_bytes 32 0
