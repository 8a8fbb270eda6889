-- ===== src/Server/Request/Sound.antt =====
-- src/server/protocol.rs: a request that the decoder accepts is valid.
use vcd_tools_rs.Prelude.{
  ℕ, ◌≤◌, ◌≡◌, Bool, false, Option, none, some, List, [], ◌∷◌, Text, codes, nat_eqb, ok, u64_max,
  All, ◌≢◌, arith, leb, if_intro,
}
use vcd_tools_rs.Prelude.Keys.{text_eqb}
use vcd_tools_rs.Server.Json.{Value, Fields, string}
use vcd_tools_rs.Server.Protocol.{ProtocolError, terminal_frame_reserve_bytes}
use vcd_tools_rs.Server.Answer.{
  Answer, ◌>>◌, Ensures, returns, fails, Ensures->>=, Ensures-reject_if, Ensures-any, ensured_of,
}
use vcd_tools_rs.Server.Request.{Request, RequestMethod}
use vcd_tools_rs.Server.Request.Take.{
  is_empty, validate_request_id, validate_signals, validate_window, validate_response_limit,
  take_optional_decimal, take_optional_decimal_usize, reject_unknown, usize_max, any_empty, fitting,
  parse_decimal_u64, parse_decimal_usize, optional_decimal,
}
use vcd_tools_rs.Server.Request.Valid.{
  AtMost, AtLeast, InOrder, IsRequestId, AreSignals, IsValidMethod, IsValid,
}
use vcd_tools_rs.Server.Request.Decode.{
  parse_list, parse_metadata, parse_extract, parse_find, parse_toggles, parse_cancel, parse_method,
  decode_value, or_one, decode_request, decode_request_with_active,
}

Ensures-fitting :
    (max : ℕ) (o : Option ℕ) (e : ProtocolError) → Ensures (λ n. n ≤ max) (fitting max o e)
unfolding fitting
Ensures-fitting max none e = fails e
Ensures-fitting max (some n) e =
    if_intro (Ensures (λ n. n ≤ max)) (leb n max) (λ h. returns n (ground arith)) (λ _. fails e)

Ensures-u64 : (value key : Text) → Ensures (λ n. n ≤ u64_max) (parse_decimal_u64 value key)
unfolding parse_decimal_u64
Ensures-u64 value key = Ensures->>= (Ensures-any _) (λ _ _. Ensures-fitting _ _ _)

Ensures-usize : (value key : Text) → Ensures (λ n. n ≤ usize_max) (parse_decimal_usize value key)
unfolding parse_decimal_usize
Ensures-usize value key = Ensures->>= (Ensures-any _) (λ _ _. Ensures-fitting _ _ _)

Ensures-optional_decimal :
    (max : ℕ) (read : Text → Text → Answer ℕ) (key : Text) (found : Option Value)
    → ((value : Text) → Ensures (λ n. n ≤ max) (read value key))
    → Ensures (AtMost max) (optional_decimal read key found)
unfolding optional_decimal
Ensures-optional_decimal max read key none h = returns none tt
Ensures-optional_decimal max read key (some (string t)) h =
    Ensures->>= (h t) (λ n b. returns (some n) b)
Ensures-optional_decimal max read key (some _) h = fails _

Ensures-optional :
    (fields : Fields) (key : Text)
    → Ensures (λ r. AtMost u64_max r.0) (take_optional_decimal fields key)
unfolding take_optional_decimal
Ensures-optional fields key =
    Ensures->>= (Ensures-optional_decimal u64_max _ key _ (λ value. Ensures-u64 value key))
      (λ n b. returns _ b)

Ensures-optional_usize :
    (fields : Fields) (key : Text)
    → Ensures (λ r. AtMost usize_max r.0) (take_optional_decimal_usize fields key)
unfolding take_optional_decimal_usize
Ensures-optional_usize fields key =
    Ensures->>= (Ensures-optional_decimal usize_max _ key _ (λ value. Ensures-usize value key))
      (λ n b. returns _ b)

Ensures-imp :
    {A : Type 0} {P Q : A → Type 0} {result : Answer A}
    → ((x : A) → P x → Q x)
    → Ensures P result
    → Ensures Q result
Ensures-imp f (returns x p) = returns x (f x p)
Ensures-imp f (fails e) = fails e

is_empty-ne : (t : Text) → is_empty t ≡ false → t ≢ []
is_empty-ne [] h = cc
is_empty-ne (c ∷ t) h = λ e. cc

Ensures-IsRequestId : (id : Text) → Ensures (λ _. IsRequestId id) (validate_request_id id)
unfolding validate_request_id
Ensures-IsRequestId id =
    Ensures->>= (Ensures-reject_if _ _)
      (λ _ h. Ensures-imp (λ _ k. (is_empty-ne id h, ground arith)) (Ensures-reject_if _ _))

any_empty-All : (signals : List Text) → any_empty signals ≡ false → All (λ s. s ≢ []) signals
unfolding any_empty
any_empty-All [] h = tt
any_empty-All (s ∷ rest) h = (is_empty-ne s (ground arith), any_empty-All rest (ground arith))

Ensures-signals :
    (signals : List Text) → Ensures (λ _. AreSignals signals) (validate_signals signals)
unfolding validate_signals
Ensures-signals [] = Ensures->>= (Ensures-reject_if _ _) (λ _ h. cc)
Ensures-signals (s ∷ rest) =
    Ensures->>= (Ensures-any _)
      (λ _ _. Ensures-imp (λ _ k. ((λ e. cc), any_empty-All (s ∷ rest) k)) (Ensures-reject_if _ _))

Ensures-window :
    (start end : Option ℕ) → Ensures (λ _. InOrder start end) (validate_window start end)
unfolding validate_window
Ensures-window none end = Ensures-any _
Ensures-window (some start) none = Ensures-any _
Ensures-window (some start) (some end) = Ensures-imp (λ _ h. ground arith) (Ensures-reject_if _ _)

Ensures-response_limit :
    (limit : Option ℕ)
    → Ensures (λ _. AtLeast terminal_frame_reserve_bytes limit) (validate_response_limit limit)
unfolding validate_response_limit
Ensures-response_limit none = Ensures-any _
Ensures-response_limit (some limit) = Ensures-imp (λ _ h. ground arith) (Ensures-reject_if _ _)

parse_list_sound : (params : Fields) → Ensures IsValidMethod (parse_list params)
unfolding parse_list
parse_list_sound params = Ensures->>= (Ensures-any _) λ _ _.
    Ensures->>= (Ensures-optional _ _) λ _ rows. Ensures->>= (Ensures-optional _ _) λ _ bytes.
      Ensures->>= (Ensures-optional _ _) λ _ timeout. Ensures->>= (Ensures-any _) λ _ _.
        Ensures->>= (Ensures-response_limit _)
          λ _ reserve. returns _ (rows, (bytes, reserve), timeout)

parse_metadata_sound : (params : Fields) → Ensures IsValidMethod (parse_metadata params)
unfolding parse_metadata
parse_metadata_sound params = Ensures->>= (Ensures-optional _ _) λ _ timeout.
    Ensures->>= (Ensures-optional _ _)
      λ _ commands. Ensures->>= (Ensures-any _) λ _ _. returns _ (timeout, commands)

parse_extract_sound : (params : Fields) → Ensures IsValidMethod (parse_extract params)
unfolding parse_extract
parse_extract_sound params = Ensures->>= (Ensures-any _) λ _ _.
    Ensures->>= (Ensures-signals _) λ _ signals. Ensures->>= (Ensures-optional _ _) λ _ start.
      Ensures->>= (Ensures-optional _ _) λ _ end. Ensures->>= (Ensures-optional _ _) λ _ rows.
        Ensures->>= (Ensures-optional _ _) λ _ bytes.
          Ensures->>= (Ensures-optional _ _) λ _ commands.
            Ensures->>= (Ensures-optional _ _) λ _ timeout. Ensures->>= (Ensures-any _) λ _ _.
              Ensures->>= (Ensures-window _ _) λ _ order.
                Ensures->>= (Ensures-response_limit _) λ _ reserve.
                  returns _
                    (signals, (start, end, order), rows, (bytes, reserve), commands, timeout)

or_one-le : (o : Option ℕ) → AtMost usize_max o → or_one o ≤ usize_max
or_one-le none h = omega arith
or_one-le (some n) h = h

one_le : (n : ℕ) → nat_eqb n 0 ≡ false → 1 ≤ n
one_le n h = ground arith

parse_find_sound : (params : Fields) → Ensures IsValidMethod (parse_find params)
unfolding parse_find
parse_find_sound params = Ensures->>= (Ensures-any _) λ signal _.
    Ensures->>= (Ensures-reject_if _ _) λ _ named.
      Ensures->>= (Ensures-optional_usize _ _) λ occurrence fits.
        Ensures->>= (Ensures-reject_if _ _) λ _ counted. Ensures->>= (Ensures-any _) λ _ _.
          Ensures->>= (Ensures-optional _ _) λ _ start. Ensures->>= (Ensures-optional _ _) λ _ end.
            Ensures->>= (Ensures-optional _ _) λ _ commands.
              Ensures->>= (Ensures-optional _ _) λ _ bytes.
                Ensures->>= (Ensures-optional _ _) λ _ timeout. Ensures->>= (Ensures-any _) λ _ _.
                  Ensures->>= (Ensures-window _ _) λ _ order.
                    Ensures->>= (Ensures-response_limit _) λ _ reserve. returns _ (
                      is_empty-ne signal.0 named,
                      one_le _ counted,
                      or_one-le occurrence.0 fits,
                      (start, end, order),
                      commands,
                      (bytes, reserve),
                      timeout,
                    )

parse_toggles_sound : (params : Fields) → Ensures IsValidMethod (parse_toggles params)
unfolding parse_toggles
parse_toggles_sound params = Ensures->>= (Ensures-any _) λ _ _.
    Ensures->>= (Ensures-signals _) λ _ signals. Ensures->>= (Ensures-optional _ _) λ _ start.
      Ensures->>= (Ensures-optional _ _) λ _ end. Ensures->>= (Ensures-optional _ _) λ _ commands.
        Ensures->>= (Ensures-optional _ _) λ _ bytes.
          Ensures->>= (Ensures-optional _ _) λ _ timeout. Ensures->>= (Ensures-any _) λ _ _.
            Ensures->>= (Ensures-window _ _) λ _ order.
              Ensures->>= (Ensures-response_limit _) λ _ reserve.
                returns _ (signals, (start, end, order), commands, (bytes, reserve), timeout)

parse_cancel_sound : (params : Fields) → Ensures IsValidMethod (parse_cancel params)
unfolding parse_cancel
parse_cancel_sound params = Ensures->>= (Ensures-any _) λ _ _.
    Ensures->>= (Ensures-IsRequestId _) λ _ id. Ensures->>= (Ensures-any _) λ _ _. returns _ id

bare_sound :
    (params : Fields) (method : RequestMethod)
    → IsValidMethod method
    → Ensures IsValidMethod (reject_unknown params >> ok method)
bare_sound params method valid = Ensures->>= (Ensures-any _) λ _ _. returns method valid

parse_method_sound :
    (name : Text) (params : Fields) → Ensures IsValidMethod (parse_method name params)
unfolding parse_method
parse_method_sound name params =
    let P : Answer RequestMethod → Type 0 = Ensures IsValidMethod in
    if_intro P (text_eqb name (codes "ping")) (λ _. bare_sound params RequestMethod.ping tt)
      λ _.
        if_intro P (text_eqb name (codes "describe"))
          (λ _. bare_sound params RequestMethod.describe tt)
          λ _.
            if_intro P (text_eqb name (codes "list")) (λ _. parse_list_sound params)
              λ _.
                if_intro P (text_eqb name (codes "metadata")) (λ _. parse_metadata_sound params)
                  λ _.
                    if_intro P (text_eqb name (codes "extract")) (λ _. parse_extract_sound params)
                      λ _.
                        if_intro P (text_eqb name (codes "find")) (λ _. parse_find_sound params)
                          λ _.
                            if_intro P (text_eqb name (codes "toggles"))
                              (λ _. parse_toggles_sound params)
                              λ _.
                                if_intro P (text_eqb name (codes "cancel"))
                                  (λ _. parse_cancel_sound params) (λ _. fails _)

decode_sound : (value : Value) → Ensures IsValid (decode_value value)
unfolding decode_value
decode_sound value = Ensures->>= (Ensures-any _) λ _ _. Ensures->>= (Ensures-any _) λ _ _.
    Ensures->>= (Ensures-any _) λ _ _. Ensures->>= (Ensures-any _) λ _ _.
      Ensures->>= (Ensures-IsRequestId _) λ _ id. Ensures->>= (Ensures-any _) λ _ _.
        Ensures->>= (Ensures-any _) λ _ _. Ensures->>= (Ensures-any _) λ _ _.
          Ensures->>= (parse_method_sound _ _)
            λ _ method. returns _ (record { id_lem = id; method_lem = method })

module _ (parse_strict_json : Text → Answer Value) (is_active : Text → Bool) where
  inactive_sound :
      (line : Text)
      → Ensures
          (λ r. IsValid r × (is_active r.id ≡ false))
          (decode_request_with_active parse_strict_json line is_active)
  unfolding decode_request_with_active decode_request
  inactive_sound line =
      Ensures->>= (Ensures->>= (Ensures-any _) (λ _ _. decode_sound _))
        λ r valid. Ensures->>= (Ensures-reject_if _ _) λ _ inactive. returns r (valid, inactive)

  -- Whatever the JSON parser and the active ids are, a line that is decoded to a request gives a
  -- request that meets every rule of the protocol (id, signals, window, ranges of the numbers and
  -- room for the terminal frame) and whose id is not active.
  pub decode_request-IsValid :
      (line : Text) (r : Request)
      → decode_request_with_active parse_strict_json line is_active ≡ ok r
      → IsValid r × (is_active r.id ≡ false)
  unfolding decode_request_with_active decode_request
  decode_request-IsValid line r h = ensured_of (inactive_sound line) h
