-- ===== src/Server/Lines.antt =====
-- src/server/protocol.rs: `JsonLineAccumulator`.
pub mod Chunks
pub mod Bounds
use vcd_tools_rs.Prelude.{
  ℕ, ◌+◌, ◌-◌, ◌^◌, Bool, true, false, Option, none, some, List, [], ◌∷◌, ◌++◌, Text, length, leb,
  ltb, nat_eqb, if◌then◌else◌, Result, ok, err,
}
use vcd_tools_rs.Server.Utf8.{from_utf8}

abbrev pub max_request_line_bytes : ℕ
max_request_line_bytes = 1048576

-- The `ProtocolError`s of the accumulator: a bad request twice, and the exceeded limit with its
-- `limit` and `actual`.
pub data LineError : Type 0 where
  accumulator_poisoned not_utf8 : LineError
  line_too_long : ℕ → ℕ → LineError

pub record JsonLineAccumulator : Type 0 where
  pub buffer : List ℕ
  pub max_line_bytes : ℕ
  pub poisoned : Bool

-- `JsonLineAccumulator::new` of a positive bound.
abbrev pub new_accumulator : ℕ → JsonLineAccumulator
new_accumulator max_line_bytes = record {
  buffer = [];
  max_line_bytes = max_line_bytes;
  poisoned = false;
}

abbrev pub Frames : Type 0
Frames = Result LineError (List Text) × JsonLineAccumulator

unfoldable pub poison : JsonLineAccumulator → Frames
poison a = (
  err (line_too_long a.max_line_bytes (a.max_line_bytes + 1)),
  record a { buffer = []; poisoned = true },
)

-- The frame of a line whose newline came, with the buffer taken.
unfoldable pub frame : Option Text → JsonLineAccumulator → Frames
frame (some text) a = (ok (text ∷ []), a)
frame none a = (err not_utf8, record a { poisoned = true })

-- The body of the loop of `push`, with the frames that this byte completes.
unfoldable pub push_byte : ℕ → JsonLineAccumulator → Frames
push_byte byte a =
    if nat_eqb byte 10
    then (if ltb a.max_line_bytes (length a.buffer + 1)
        then poison a
        else frame (from_utf8 a.buffer) (record a { buffer = [] }))
    else if leb (a.max_line_bytes - 1) (length a.buffer)
    then poison a
    else (ok [], record a { buffer = a.buffer ++ byte ∷ [] })

-- Frames before what follows in one push; an error drops them all.
abbrev pub prepend_frames : List Text → Frames → Frames
prepend_frames fs (ok gs, a) = (ok (fs ++ gs), a)
prepend_frames fs (err e, a) = (err e, a)

abbrev pub and_then : Frames → (JsonLineAccumulator → Frames) → Frames
and_then (ok fs, a) next = prepend_frames fs (next a)
and_then (err e, a) next = (err e, a)

unfoldable pub push_loop : List ℕ → JsonLineAccumulator → Frames
push_loop [] a = (ok [], a)
push_loop (byte ∷ bytes) a = and_then (push_byte byte a) (push_loop bytes)

-- `JsonLineAccumulator::push`.
unfoldable pub push_bytes : List ℕ → JsonLineAccumulator → Frames
push_bytes bytes a = if a.poisoned then (err accumulator_poisoned, a) else push_loop bytes a

-- The lines that a connection goes through, and how its reading ends.
abbrev pub Reading : Type 0
Reading = List Text × (Result LineError (Unit {0}) × JsonLineAccumulator)

abbrev pub prepend_lines : List Text → Reading → Reading
prepend_lines fs (gs, r) = (fs ++ gs, r)

abbrev pub after_push : Frames → (JsonLineAccumulator → Reading) → Reading
after_push (ok fs, a) next = prepend_lines fs (next a)
after_push (err e, a) next = ([], (err e, a))

-- The reads of a connection: the lines of each chunk are gone through before the next chunk is
-- pushed, and the first error ends it.
unfoldable pub read_chunks : List (List ℕ) → JsonLineAccumulator → Reading
read_chunks [] a = ([], (ok tt, a))
read_chunks (chunk ∷ chunks) a = after_push (push_bytes chunk a) (read_chunks chunks)
