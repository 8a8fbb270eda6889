-- ===== src/Server/Request/Valid.antt =====
-- src/server/protocol.rs: what the requests that the decoder accepts satisfy.
use vcd_tools_rs.Prelude.{ℕ, ◌≤◌, Option, none, some, List, [], Text, byte_len, u64_max, All, ◌≢◌}
use vcd_tools_rs.Server.Protocol.{max_request_id_bytes, terminal_frame_reserve_bytes}
use vcd_tools_rs.Server.Request.{Request, RequestMethod}
use vcd_tools_rs.Server.Request.Take.{usize_max}

abbrev pub AtMost : ℕ → Option ℕ → Type 0
AtMost max none = Unit {0}
AtMost max (some n) = n ≤ max

abbrev pub AtLeast : ℕ → Option ℕ → Type 0
AtLeast least none = Unit {0}
AtLeast least (some n) = least ≤ n

-- A window with both ends has its start at or before its end.
abbrev pub InOrder : Option ℕ → Option ℕ → Type 0
InOrder none end = Unit {0}
InOrder (some start) none = Unit {0}
InOrder (some start) (some end) = start ≤ end

abbrev pub IsRequestId : Text → Type 0
IsRequestId id = (id ≢ []) × (byte_len id ≤ max_request_id_bytes)

abbrev pub AreSignals : List Text → Type 0
AreSignals signals = (signals ≢ []) × All (λ s. s ≢ []) signals

-- A limit on the response leaves room for the terminal frame.
abbrev pub IsResponseLimit : Option ℕ → Type 0
IsResponseLimit limit = AtMost u64_max limit × AtLeast terminal_frame_reserve_bytes limit

abbrev pub IsWindow : Option ℕ → Option ℕ → Type 0
IsWindow start end = AtMost u64_max start × AtMost u64_max end × InOrder start end

abbrev pub IsValidMethod : RequestMethod → Type 0
IsValidMethod RequestMethod.ping = Unit {0}
IsValidMethod RequestMethod.describe = Unit {0}
IsValidMethod (RequestMethod.list p) =
    AtMost u64_max p.max_rows × IsResponseLimit p.max_response_bytes × AtMost u64_max p.timeout_ms
IsValidMethod (RequestMethod.metadata p) =
    AtMost u64_max p.timeout_ms × AtMost u64_max p.max_commands
IsValidMethod (RequestMethod.extract p) =
    AreSignals p.signals
    × IsWindow p.start p.end
    × AtMost u64_max p.max_rows
    × IsResponseLimit p.max_response_bytes
    × AtMost u64_max p.max_commands
    × AtMost u64_max p.timeout_ms
IsValidMethod (RequestMethod.find p) =
    (p.signal ≢ [])
    × (1 ≤ p.occurrence)
    × (p.occurrence ≤ usize_max)
    × IsWindow p.start p.end
    × AtMost u64_max p.max_commands
    × IsResponseLimit p.max_response_bytes
    × AtMost u64_max p.timeout_ms
IsValidMethod (RequestMethod.toggles p) =
    AreSignals p.signals
    × IsWindow p.start p.end
    × AtMost u64_max p.max_commands
    × IsResponseLimit p.max_response_bytes
    × AtMost u64_max p.timeout_ms
IsValidMethod (RequestMethod.cancel p) = IsRequestId p.request_id

pub record IsValid (r : Request) : Type 0 where
  pub id_lem : IsRequestId r.id
  pub method_lem : IsValidMethod r.method
