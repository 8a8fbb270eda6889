-- ===== src/Server/Frames/Stable.antt =====
-- src/server/protocol.rs: `end_success` states the byte count of the stream that its own frame
-- ends, and finds it.
use vcd_tools_rs.Prelude.{
  ℕ, zero, suc, ◌+◌, ◌/◌, ◌%◌, ◌≤◌, ◌<◌, ◌≡◌, ◌≢◌, refl, false, List, [], ◌∷◌, Text, length, ltb,
  nat_eqb, ok, u64_max, arith, Bool-cases, inl, inr, ◌∙◌, ap, nat_eqb_iff, if_intro, >>=-eq-ok,
}
use vcd_tools_rs.Value.Number.{show_decimal, decimal_onto}
use vcd_tools_rs.Server.Frames.{
  ResponseFrame, StreamStats, end_frame, JsonError, JsonResult, within_u64, encoded_json_line_bytes,
  total_bytes, stabilize, end_success,
}

decimal_onto_longer : (fuel n : ℕ) (acc : Text) → length acc < length (decimal_onto fuel n acc)
unfolding decimal_onto
decimal_onto_longer zero n acc = omega arith
decimal_onto_longer (suc fuel) n acc =
    if_intro (λ (t : Text). length acc < length t) (ltb n 10) (λ _. omega arith)
      (λ _. omega (arith, decimal_onto_longer fuel (n / 10) ((48 + n % 10) ∷ acc)))

not_below : (n m : ℕ) → ltb n 10 ≡ false → n ≤ m → ltb m 10 ≡ false
not_below n m h k = ground arith

-- A larger number has as many digits or more.
decimal_onto_mono :
    (f g n m : ℕ) (acc acc' : Text)
    → n ≤ f
    → m ≤ g
    → n ≤ m
    → length acc ≤ length acc'
    → length (decimal_onto f n acc) ≤ length (decimal_onto g m acc')
unfolding decimal_onto
decimal_onto_mono zero g n m acc acc' hf hg h a = omega (arith, decimal_onto_longer g m acc')
decimal_onto_mono (suc f) zero n m acc acc' hf hg h a = ground arith
decimal_onto_mono (suc f) (suc g) n m acc acc' hf hg h a = elim (Bool-cases (ltb n 10)) [
  | inl small ↦ rw small (omega (arith, decimal_onto_longer (suc g) m acc'))
  | inr large ↦
      rw (large, not_below n m large h)
        (decimal_onto_mono f g (n / 10) (m / 10) ((48 + n % 10) ∷ acc) ((48 + m % 10) ∷ acc')
          (ground arith) (ground arith) (omega arith) (omega arith))
]

-- The digits of a count.
abbrev digits : ℕ → ℕ
digits n = length (show_decimal n)

digits_mono : (n m : ℕ) → n ≤ m → digits n ≤ digits m
unfolding show_decimal
digits_mono n m h = decimal_onto_mono n m n m [] [] (omega arith) (omega arith) h (omega arith)

digits_pos : (n : ℕ) → 1 ≤ digits n
unfolding show_decimal
digits_pos n = omega (arith, decimal_onto_longer n n [])

digits-u64_max : digits u64_max ≡ 20
unfolding show_decimal decimal_onto
digits-u64_max = refl

digits-le : (n : ℕ) → n ≤ u64_max → digits n ≤ 20
digits-le n h = omega (arith, digits_mono n u64_max h, digits-u64_max)

module _ (to_vec : ResponseFrame → JsonResult (List ℕ)) where
  within_u64-eq : (e : JsonError) (n : ℕ) {m : ℕ} → within_u64 e n ≡ ok m → m ≡ n
  unfolding within_u64
  within_u64-eq e n h = ground arith

  total_bytes-eq :
      (prior : ℕ) (f : ResponseFrame) {n : ℕ}
      → total_bytes to_vec prior f ≡ ok n
      → (bytes : ℕ) × (encoded_json_line_bytes to_vec f ≡ ok bytes) × (n ≡ prior + bytes)
  unfolding total_bytes
  total_bytes-eq prior f h =
      let (bytes, encoded, rest) = >>=-eq-ok (encoded_json_line_bytes to_vec f) _ h in
      let (same, fits, sum) = >>=-eq-ok (within_u64 _ bytes) _ rest in
      (
        bytes,
        encoded,
        omega (arith, within_u64-eq _ bytes fits, within_u64-eq _ (prior + same) sum),
      )

  frame_eq : (f g : ResponseFrame) → ◌≡◌ {A = JsonResult ResponseFrame} (ok f) (ok g) → f ≡ g
  frame_eq f g h = cc

  stabilize_sound :
      (frame : ℕ → ResponseFrame) (prior rounds candidate : ℕ) {f : ResponseFrame}
      → stabilize to_vec frame prior rounds candidate ≡ ok f
      → (n : ℕ) × (f ≡ frame n) × (total_bytes to_vec prior f ≡ ok n)
  unfolding stabilize
  stabilize_sound frame prior zero candidate h = cc
  stabilize_sound frame prior (suc rounds) candidate {f} h =
      let (total, counted, rest) = >>=-eq-ok (total_bytes to_vec prior (frame candidate)) _ h in
      if_intro
        (λ (r : JsonResult ResponseFrame).
          r ≡ ok f → (n : ℕ) × (f ≡ frame n) × (total_bytes to_vec prior f ≡ ok n))
        (nat_eqb total candidate)
        (λ same found. (
          candidate,
          (cc),
          rw (← frame_eq (frame candidate) f found) (counted ∙ ap ok ((nat_eqb_iff _ _).0 same)),
        ))
        (λ _ later. stabilize_sound frame prior rounds total later) rest

-- Whatever the encoder is, an end frame that `end_success` returns states in its statistics the
-- sum of the prior bytes of the stream and of its own encoded length.
pub end_success_counts :
    (to_vec : ResponseFrame → JsonResult (List ℕ)) (id : Text) (seq : ℕ) (stats : StreamStats)
    (prior : ℕ) (f : ResponseFrame)
    → end_success to_vec id seq stats prior ≡ ok f
    → (bytes : ℕ) × (encoded_json_line_bytes to_vec f ≡ ok bytes)
      × (f ≡ end_frame id seq stats (show_decimal (prior + bytes)))
unfolding end_success
end_success_counts to_vec id seq stats prior f h =
    let (n, shape, counted) : (n : ℕ) × (f ≡ end_frame id seq stats (show_decimal n))
        × (total_bytes to_vec prior f ≡ ok n) =
      stabilize_sound to_vec (λ n. end_frame id seq stats (show_decimal n)) prior 32 0 h in
    let (bytes, encoded, sum) = total_bytes-eq to_vec prior f counted in
    (bytes, encoded, shape ∙ ap (λ (k : ℕ). end_frame id seq stats (show_decimal k)) sum)

ne_lt : (d e rounds : ℕ) → d ≤ e → d ≢ e → 20 < suc rounds + d → 20 < rounds + e
ne_lt d e rounds l n h = ground arith

-- The frames' lengths grow with the digits of the count: the encoder writes a text of digits as it
-- is.
module _ (to_vec : ResponseFrame → JsonResult (List ℕ)) (frame : ℕ → ResponseFrame) (prior base : ℕ)
    (sizes : (n : ℕ) → encoded_json_line_bytes to_vec (frame n) ≡ ok (base + digits n))
    (room : prior + base + 20 ≤ u64_max) where
  total_bytes_frame :
      (n : ℕ) → n ≤ u64_max → total_bytes to_vec prior (frame n) ≡ ok (prior + base + digits n)
  unfolding total_bytes within_u64
  total_bytes_frame n h = rw (sizes n) (ground (arith, digits-le n h))

  abbrev Settles : ℕ → ℕ → Type 0
  Settles rounds candidate =
      (f : ResponseFrame) × (stabilize to_vec frame prior rounds candidate ≡ ok f)

  round-Settles :
      (rounds candidate : ℕ)
      → candidate ≤ u64_max
      → ((prior + base + digits candidate ≢ candidate)
          → Settles rounds (prior + base + digits candidate))
      → Settles (suc rounds) candidate
  unfolding stabilize
  round-Settles rounds candidate h later = rw (total_bytes_frame candidate h) (
      if_intro (λ (r : JsonResult ResponseFrame). (f : ResponseFrame) × (r ≡ ok f))
        (nat_eqb (prior + base + digits candidate) candidate) (λ _. (frame candidate, refl))
        (λ differ. later (λ e. ground arith)))

  -- A count with at most the digits that it has: twenty rounds, less those digits, settle it.
  stabilize-Settles :
      (rounds d : ℕ)
      → d ≤ 20
      → d ≤ digits (prior + base + d)
      → 20 < rounds + d
      → Settles rounds (prior + base + d)
  stabilize-Settles zero d b l h = absurd (omega arith)
  stabilize-Settles (suc rounds) d b l h =
      let candidate : ℕ = prior + base + d in
      let small : candidate ≤ u64_max = omega arith in
      round-Settles rounds candidate small λ differ.
        stabilize-Settles rounds (digits candidate) (digits-le candidate small)
          (digits_mono candidate (prior + base + digits candidate) (omega arith))
          (ne_lt d (digits candidate) rounds l (λ e. differ (omega arith)) h)

  start-Settles : Settles 32 0
  start-Settles = round-Settles 31 0 (omega arith) λ _.
      stabilize-Settles 31 (digits 0) (digits-le 0 (omega arith))
        (digits_mono 0 (prior + base + digits 0) (omega arith)) (omega arith)

-- Where the encoder's length of the end frame is a constant and the digits of the count that it
-- states, and the prior bytes, that constant and twenty digits are within u64, `end_success`
-- returns a frame: 32 rounds are enough.
pub end_success_total :
    (to_vec : ResponseFrame → JsonResult (List ℕ)) (id : Text) (seq : ℕ) (stats : StreamStats)
    (prior base : ℕ)
    → ((n : ℕ)
        → encoded_json_line_bytes to_vec (end_frame id seq stats (show_decimal n))
          ≡ ok (base + length (show_decimal n)))
    → prior + base + 20 ≤ u64_max
    → (f : ResponseFrame) × (end_success to_vec id seq stats prior ≡ ok f)
unfolding end_success
end_success_total to_vec id seq stats prior base sizes room =
    start-Settles to_vec (λ n. end_frame id seq stats (show_decimal n)) prior base sizes room
