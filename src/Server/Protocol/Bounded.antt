-- ===== src/Server/Protocol/Bounded.antt =====
-- src/server/protocol.rs: the messages and the details of the protocol's errors are bounded.
use vcd_tools_rs.Prelude.{
  ℕ, zero, suc, ◌+◌, ◌-◌, ◌≤◌, ◌<◌, ◌≡◌, refl, Bool, true, false, [], ◌∷◌, ◌++◌, Text, leb,
  byte_len, len_utf8, arith, if_intro, leb→le, ap, Bool-cases, inl, inr, ◌⊎◌, if_intro, max,
}
use vcd_tools_rs.Server.Json.{
  Value, Values, Fields, null, boolean, number, string, array, object, nil, cons, empty, field,
}
use vcd_tools_rs.Server.Protocol.{
  ProtocolErrorCode, ProtocolError, ellipsis, prefix_within, truncate_utf8, bound_value,
  bound_values, bound_fields, bound_error_details, new_error, max_error_message_bytes,
  max_error_detail_string_bytes, max_error_detail_items, max_error_detail_fields,
}

byte_len-append : (s t : Text) → byte_len (s ++ t) ≡ byte_len s + byte_len t
byte_len-append [] t = omega arith
byte_len-append (c ∷ s) t = omega (arith, byte_len-append s t)

len_utf8_pos : (c : ℕ) → 0 < len_utf8 c
len_utf8_pos c = ground arith

prefix_within-le : (budget : ℕ) (t : Text) → byte_len (prefix_within budget t) ≤ budget
unfolding prefix_within
prefix_within-le budget [] = omega arith
prefix_within-le budget (c ∷ t) =
    if_intro (λ (s : Text). byte_len s ≤ budget) (leb (len_utf8 c) budget)
      (λ h. omega (arith, leb→le _ _ h, prefix_within-le (budget - len_utf8 c) t))
      (λ _. omega arith)

-- A prefix within the budget, and the character that no longer fits.
abbrev Cut : ℕ → Text → Text → Type 0
Cut budget t s = (c : ℕ) × (rest : Text) × (t ≡ s ++ c ∷ rest) × (budget < byte_len s + len_utf8 c)

leb-false : (a b : ℕ) → leb a b ≡ false → b < a
leb-false a b h = ground arith

prefix_within-Cut :
    (budget : ℕ) (t : Text) → budget < byte_len t → Cut budget t (prefix_within budget t)
unfolding prefix_within
prefix_within-Cut budget [] h = absurd (omega arith)
prefix_within-Cut budget (c ∷ t) h = elim (Bool-cases (leb (len_utf8 c) budget)) [
  | inl fits ↦ rw fits (
      let fit : len_utf8 c ≤ budget = leb→le _ _ fits in
      let (d, rest, split, over) : Cut (budget - len_utf8 c) t
          (prefix_within (budget - len_utf8 c) t) =
        prefix_within-Cut (budget - len_utf8 c) t (omega arith) in
      (d, rest, ap (λ s. c ∷ s) split, omega arith))
  | inr no_fit ↦ rw no_fit (c, t, refl, omega (arith, leb-false _ _ no_fit))
]

leb-true : (a b : ℕ) → a ≤ b → leb a b ≡ true
leb-true a b h = ground arith

lt-leb : (a b : ℕ) → b < a → leb a b ≡ false
lt-leb a b h = ground arith

-- The text itself, or its longest prefix that leaves room for the ellipsis.
abbrev pub IsTruncated : Text → ℕ → Text → Type 0
IsTruncated t max_bytes result =
    ((byte_len t ≤ max_bytes) × (result ≡ t))
    ⊎ ((max_bytes < byte_len t)
        × ((s : Text) × (result ≡ s ++ ellipsis ∷ []) × Cut (max_bytes - 3) t s))

-- A truncated text has at most `max_bytes` bytes, for three bytes or more. A text that fits stays
-- as it is; of any other the longest prefix of whole characters is left that has at most
-- `max_bytes - 3` bytes, with an ellipsis behind it.
pub truncate_utf8_lem :
    (t : Text) (max_bytes : ℕ)
    → 3 ≤ max_bytes
    → (byte_len (truncate_utf8 t max_bytes) ≤ max_bytes)
      × IsTruncated t max_bytes (truncate_utf8 t max_bytes)
unfolding truncate_utf8
truncate_utf8_lem t max_bytes h = elim (Bool-cases (leb (byte_len t) max_bytes)) [
  | inl fits ↦ rw fits (leb→le _ _ fits, inl (leb→le _ _ fits, refl))
  | inr long ↦ rw long (
      let over : max_bytes < byte_len t = leb-false _ _ long in
      let s : Text = prefix_within (max_bytes - 3) t in
      (
        omega (arith, byte_len-append s (ellipsis ∷ []), prefix_within-le (max_bytes - 3) t),
        inr (over, (s, refl, prefix_within-Cut (max_bytes - 3) t (omega arith))),
      ))
]

truncate-le : (t : Text) → byte_len (truncate_utf8 t 256) ≤ 256
truncate-le t = (truncate_utf8_lem t 256 (omega arith)).0

-- Levels of arrays and objects, and the bounds on what they hold.
unfoldable mutual
  pub nesting : Value → ℕ
  nesting null = 0
  nesting (boolean b) = 0
  nesting (number n) = 0
  nesting (string t) = 0
  nesting (array vs) = suc (nesting_values vs)
  nesting (object fs) = suc (nesting_fields fs)

  pub nesting_values : Values → ℕ
  nesting_values nil = 0
  nesting_values (cons v vs) = max (nesting v) (nesting_values vs)

  pub nesting_fields : Fields → ℕ
  nesting_fields empty = 0
  nesting_fields (field name v fs) = max (nesting v) (nesting_fields fs)

unfoldable pub length_values : Values → ℕ
length_values nil = 0
length_values (cons v vs) = suc (length_values vs)

unfoldable pub length_fields : Fields → ℕ
length_fields empty = 0
length_fields (field name v fs) = suc (length_fields fs)

unfoldable mutual
  pub Fits : Value → Type 0
  Fits null = Unit {0}
  Fits (boolean b) = Unit {0}
  Fits (number n) = Unit {0}
  Fits (string t) = byte_len t ≤ max_error_detail_string_bytes
  Fits (array vs) = (length_values vs ≤ max_error_detail_items) × FitValues vs
  Fits (object fs) = (length_fields fs ≤ max_error_detail_fields) × FitFields fs

  pub FitValues : Values → Type 0
  FitValues nil = Unit {0}
  FitValues (cons v vs) = Fits v × FitValues vs

  pub FitFields : Fields → Type 0
  FitFields empty = Unit {0}
  FitFields (field name v fs) =
      (byte_len name ≤ max_error_detail_string_bytes) × Fits v × FitFields fs

mutual
  unfolding nesting length_values length_fields bound_value bound_values bound_fields

  nesting-bound_value : (depth : ℕ) (v : Value) → nesting (bound_value depth v) ≤ depth
  nesting-bound_value zero v = omega arith
  nesting-bound_value (suc depth) null = omega arith
  nesting-bound_value (suc depth) (boolean b) = omega arith
  nesting-bound_value (suc depth) (number n) = omega arith
  nesting-bound_value (suc depth) (string t) = omega arith
  nesting-bound_value (suc depth) (array vs) = omega (arith, nesting-bound_values depth 8 vs)
  nesting-bound_value (suc depth) (object fs) = omega (arith, nesting-bound_fields depth 16 fs)

  nesting-bound_values :
      (depth items : ℕ) (vs : Values) → nesting_values (bound_values depth items vs) ≤ depth
  nesting-bound_values depth zero vs = omega arith
  nesting-bound_values depth (suc items) nil = omega arith
  nesting-bound_values depth (suc items) (cons v vs) =
      ground (arith, nesting-bound_value depth v, nesting-bound_values depth items vs)

  nesting-bound_fields :
      (depth items : ℕ) (fs : Fields) → nesting_fields (bound_fields depth items fs) ≤ depth
  nesting-bound_fields depth zero fs = omega arith
  nesting-bound_fields depth (suc items) empty = omega arith
  nesting-bound_fields depth (suc items) (field name v fs) =
      ground (arith, nesting-bound_value depth v, nesting-bound_fields depth items fs)

length-bound_values :
    (depth items : ℕ) (vs : Values) → length_values (bound_values depth items vs) ≤ items
unfolding length_values bound_values
length-bound_values depth zero vs = omega arith
length-bound_values depth (suc items) nil = omega arith
length-bound_values depth (suc items) (cons v vs) =
    omega (arith, length-bound_values depth items vs)

length-bound_fields :
    (depth items : ℕ) (fs : Fields) → length_fields (bound_fields depth items fs) ≤ items
unfolding length_fields bound_fields
length-bound_fields depth zero fs = omega arith
length-bound_fields depth (suc items) empty = omega arith
length-bound_fields depth (suc items) (field name v fs) =
    omega (arith, length-bound_fields depth items fs)

mutual
  unfolding Fits bound_value bound_values bound_fields

  Fits-bound_value : (depth : ℕ) (v : Value) → Fits (bound_value depth v)
  Fits-bound_value zero v = omega arith
  Fits-bound_value (suc depth) null = tt
  Fits-bound_value (suc depth) (boolean b) = tt
  Fits-bound_value (suc depth) (number n) = tt
  Fits-bound_value (suc depth) (string t) = truncate-le t
  Fits-bound_value (suc depth) (array vs) =
      (length-bound_values depth 8 vs, Fit-bound_values depth 8 vs)
  Fits-bound_value (suc depth) (object fs) =
      (length-bound_fields depth 16 fs, Fit-bound_fields depth 16 fs)

  Fit-bound_values : (depth items : ℕ) (vs : Values) → FitValues (bound_values depth items vs)
  Fit-bound_values depth zero vs = tt
  Fit-bound_values depth (suc items) nil = tt
  Fit-bound_values depth (suc items) (cons v vs) =
      (Fits-bound_value depth v, Fit-bound_values depth items vs)

  Fit-bound_fields : (depth items : ℕ) (fs : Fields) → FitFields (bound_fields depth items fs)
  Fit-bound_fields depth zero fs = tt
  Fit-bound_fields depth (suc items) empty = tt
  Fit-bound_fields depth (suc items) (field name v fs) =
      (truncate-le name, Fits-bound_value depth v, Fit-bound_fields depth items fs)

-- An error's message and details are within the bounds.
pub record IsBounded (e : ProtocolError) : Type 0 where
  pub message_le : byte_len e.message ≤ max_error_message_bytes
  pub details_fit : Fits e.details
  pub nesting_le : nesting e.details ≤ 4

-- Whatever its arguments are, an error that is built has a message of at most 256 bytes, and
-- details of at most four levels in which every text, names included, has at most 256 bytes, every
-- array at most 8 entries and every object at most 16 fields.
pub new_error-IsBounded :
    (code : ProtocolErrorCode) (message : Text) (details : Value) (retryable : Bool)
    → IsBounded (new_error code message details retryable)
unfolding new_error bound_error_details
new_error-IsBounded code message details retryable = record {
  message_le = truncate-le message;
  details_fit = Fits-bound_value 4 details;
  nesting_le = nesting-bound_value 4 details;
}
