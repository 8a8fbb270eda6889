-- ===== src/Server/Stream/Counter.antt =====
-- src/server/service.rs and src/server/runtime.rs: the bytes that a stream counts for a frame are
-- the bytes that the sink writes for it.
use vcd_tools_rs.Prelude.{
  ℕ, ◌+◌, ◌≤◌, ◌<◌, ◌≡◌, ◌≢◌, refl, Bool, true, false, none, some, List, [], ◌∷◌, ◌++◌, length, ltb,
  ok, err, saturating_add, arith, Bool-cases, inl, inr, ◌⊎◌, u64_max, length-append, ap,
}
use vcd_tools_rs.Server.Protocol.{ProtocolError}
use vcd_tools_rs.Server.Output.{Writes, encode_bounded}
use vcd_tools_rs.Server.Output.Capped.{joined, encode_bounded_lem}
use vcd_tools_rs.Server.Stream.{
  CappedCounter, new_counter, count, count_buffers, if_counted, counted, try_frame_bytes,
}

abbrev CountsTo : CappedCounter → ℕ → Bool × CappedCounter → Type 0
CountsTo c total r =
    ((c.cap < c.written + total) × (r.1.exceeded ≡ true))
    ⊎ ((c.written + total ≤ c.cap) × (r.1.exceeded ≡ false) × (r.1.written ≡ c.written + total))

count_lem :
    (buffer : List ℕ) (c : CappedCounter)
    → c.exceeded ≡ false
    → c.written ≤ c.cap
    → c.cap < u64_max
    → ((c.cap < c.written + length buffer)
        × ((count buffer c).0 ≡ false)
        × ((count buffer c).1.exceeded ≡ true))
      ⊎ ((c.written + length buffer ≤ c.cap)
          × (count buffer c ≡ (true, record c { written = c.written + length buffer })))
unfolding count
count_lem buffer c o w h =
    elim (Bool-cases (ltb c.cap (saturating_add c.written (length buffer)))) [
      | inl over ↦ inl (ground arith, ground arith, ground arith)
      | inr fits ↦ inr (ground arith, ground arith)
    ]

if_counted-false :
    (r : Bool × CappedCounter) (next : CappedCounter → Bool × CappedCounter)
    → r.0 ≡ false
    → if_counted r next ≡ r
if_counted-false (true, c) next h = cc
if_counted-false (false, c) next h = refl

more_counted :
    (c : CappedCounter) (n m total : ℕ) (r : Bool × CappedCounter)
    → n + m ≡ total
    → CountsTo (record c { written = c.written + n }) m r
    → CountsTo c total r
more_counted c n m total r e (inl (over, exceeded)) = inl (omega arith, exceeded)
more_counted c n m total r e (inr (fits, clear, written)) = inr (omega arith, clear, omega arith)

count_buffers_lem :
    (buffers : List (List ℕ)) (c : CappedCounter)
    → c.exceeded ≡ false
    → c.written ≤ c.cap
    → c.cap < u64_max
    → CountsTo c (length (joined buffers)) (count_buffers buffers c)
unfolding count_buffers
count_buffers_lem [] c o w h = inr (omega arith, o, omega arith)
count_buffers_lem (buffer ∷ buffers) c o w h =
    let total = length-append buffer (joined buffers) in
    elim (count_lem buffer c o w h) [
      | inl (over, failed, exceeded) ↦
          rw (if_counted-false (count buffer c) (λ c. count_buffers buffers c) failed)
            (inl (omega arith, exceeded))
      | inr (fits, eq) ↦ rw eq (
          let next : CappedCounter = record c { written = c.written + length buffer } in
          more_counted c (length buffer) (length (joined buffers))
            (length (buffer ++ joined buffers)) (count_buffers buffers next) (omega arith)
            (count_buffers_lem buffers next o fits h))
    ]

-- For a frame limit between one byte and u64: a frame is counted to be within it exactly if the
-- sink encodes it within it, and then the count is the length of the line; a frame that is counted
-- to be beyond the limit is refused by the sink.
pub try_frame_bytes-encode_bounded :
    (limit : ℕ) (buffers : List (List ℕ))
    → 1 ≤ limit
    → limit ≤ u64_max
    → ((line : List ℕ) × (try_frame_bytes limit (record { buffers = buffers; failed = false })
          ≡ ok (some (length line)))
        × (encode_bounded limit (record { buffers = buffers; failed = false }) ≡ ok line))
      ⊎ ((e : ProtocolError) × (try_frame_bytes limit (record { buffers = buffers; failed = false })
            ≡ ok none)
          × (encode_bounded limit (record { buffers = buffers; failed = false }) ≡ err e))
unfolding try_frame_bytes counted new_counter
try_frame_bytes-encode_bounded limit buffers h k =
    elim (count_buffers_lem buffers (new_counter limit) refl (omega arith) (omega arith)) [
      | inl (over, exceeded) ↦ elim (encode_bounded_lem limit buffers h k) [
        | inl (fits, encoded) ↦ absurd (omega arith)
        | inr (beyond, (attempted, above, below, refused)) ↦ inr (_, rw exceeded, refused)
      ]
      | inr (fits, clear, written) ↦ elim (encode_bounded_lem limit buffers h k) [
        | inl (within, encoded) ↦ inl (
          joined buffers ++ 10 ∷ [],
          rw (clear, written, length-append (joined buffers) (10 ∷ []))
              (ap (λ (n : ℕ). ok (some n)) (omega arith)),
          encoded,
        )
        | inr (beyond, rest) ↦ absurd (omega arith)
      ]
    ]

failed_counts :
    (limit n : ℕ) (buffers : List (List ℕ))
    → try_frame_bytes limit (record { buffers = buffers; failed = true }) ≢ ok (some n)
unfolding try_frame_bytes counted
failed_counts limit n buffers h = ground arith

counted_buffers :
    (limit n : ℕ) (buffers : List (List ℕ)) (failed : Bool) (line : List ℕ)
    → 1 ≤ limit
    → limit ≤ u64_max
    → try_frame_bytes limit (record { buffers = buffers; failed = failed }) ≡ ok (some n)
    → encode_bounded limit (record { buffers = buffers; failed = failed }) ≡ ok line
    → n ≡ length line
counted_buffers limit n buffers true line h k t e = absurd (failed_counts limit n buffers t)
counted_buffers limit n buffers false line h k t e =
    elim (try_frame_bytes-encode_bounded limit buffers h k) [
      | inl (other, counts, encoded) ↦ cc
      | inr (why, none_left, refused) ↦ cc
    ]

-- A count is the length of the line that is encoded.
pub counted-length :
    (limit n : ℕ) (w : Writes) (line : List ℕ)
    → 1 ≤ limit
    → limit ≤ u64_max
    → try_frame_bytes limit w ≡ ok (some n)
    → encode_bounded limit w ≡ ok line
    → n ≡ length line
counted-length limit n w line h k t e = counted_buffers limit n w.buffers w.failed line h k t e
