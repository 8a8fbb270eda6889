-- ===== src/Server/Output/Capped.antt =====
-- src/server/runtime.rs: the capped writer keeps a whole line within the bound, or nothing.
use vcd_tools_rs.Prelude.{
  ℕ, ◌+◌, ◌≤◌, ◌<◌, ◌≡◌, refl, Bool, true, false, List, [], ◌∷◌, ◌++◌, length, ltb, ok, err,
  saturating_add, arith, Bool-cases, inl, inr, ◌⊎◌, u64_max, length-append, append_assoc,
  append-nil, sym, ◌∙◌,
}
use vcd_tools_rs.Server.Output.{
  CappedJsonLineWriter, new_writer, write, write_buffers, if_written, finish_line, encode_bounded,
  frame_limit_error,
}

-- The bytes of all buffers.
abbrev pub joined : List (List ℕ) → List ℕ
joined [] = []
joined (buffer ∷ buffers) = buffer ++ joined buffers

-- The writer has the bytes so far and counts them.
abbrev IsOpen : CappedJsonLineWriter → Type 0
IsOpen w = (w.exceeded ≡ false) × (w.attempted ≡ length w.bytes) × (length w.bytes ≤ w.payload_cap)

abbrev HasAll : CappedJsonLineWriter → List ℕ → Bool × CappedJsonLineWriter → Type 0
HasAll w bytes r =
    (length w.bytes + length bytes ≤ w.payload_cap)
    × (r.1.exceeded ≡ false)
    × (r.1.bytes ≡ w.bytes ++ bytes)

abbrev IsOver : CappedJsonLineWriter → List ℕ → Bool × CappedJsonLineWriter → Type 0
IsOver w bytes r =
    (w.payload_cap < length w.bytes + length bytes)
    × (r.1.exceeded ≡ true)
    × (w.payload_cap < r.1.attempted)
    × (r.1.attempted ≤ length w.bytes + length bytes)

write_lem :
    (buffer : List ℕ) (w : CappedJsonLineWriter)
    → IsOpen w
    → w.payload_cap < u64_max
    → (((write buffer w).0 ≡ false) × IsOver w buffer (write buffer w))
      ⊎ ((length w.bytes + length buffer ≤ w.payload_cap)
          × (write buffer w ≡ (
            true,
            record w { attempted = length w.bytes + length buffer; bytes = w.bytes ++ buffer },
          )))
unfolding write
write_lem buffer w o h =
    elim (Bool-cases (ltb w.payload_cap (saturating_add (length w.bytes) (length buffer)))) [
      | inl over ↦ inl (ground arith, ground arith)
      | inr fits ↦ inr (ground arith, ground arith)
    ]

if_written-false :
    (r : Bool × CappedJsonLineWriter) (next : CappedJsonLineWriter → Bool × CappedJsonLineWriter)
    → r.0 ≡ false
    → if_written r next ≡ r
if_written-false (true, w) next h = cc
if_written-false (false, w) next h = refl

IsOver-more :
    (w : CappedJsonLineWriter) (some_bytes more : List ℕ) (r : Bool × CappedJsonLineWriter)
    → IsOver w some_bytes r
    → IsOver w (some_bytes ++ more) r
IsOver-more w some_bytes more r (over, exceeded, above, below) = (
  omega (arith, length-append some_bytes more),
  exceeded,
  above,
  omega (arith, length-append some_bytes more),
)

abbrev extended : CappedJsonLineWriter → List ℕ → CappedJsonLineWriter
extended w buffer = record w {
  attempted = length w.bytes + length buffer;
  bytes = w.bytes ++ buffer;
}

more_written :
    (buffer more : List ℕ) (w : CappedJsonLineWriter) (r : Bool × CappedJsonLineWriter)
    → IsOver (extended w buffer) more r ⊎ HasAll (extended w buffer) more r
    → IsOver w (buffer ++ more) r ⊎ HasAll w (buffer ++ more) r
more_written buffer more w r (inl (over, exceeded, above, below)) =
    let first = length-append w.bytes buffer in
    let second = length-append buffer more in inl (omega arith, exceeded, above, omega arith)
more_written buffer more w r (inr (fits, clear, bytes)) =
    let first = length-append w.bytes buffer in
    let second = length-append buffer more in
    inr (omega arith, clear, bytes ∙ append_assoc w.bytes buffer more)

write_buffers_lem :
    (buffers : List (List ℕ)) (w : CappedJsonLineWriter)
    → IsOpen w
    → w.payload_cap < u64_max
    → IsOver w (joined buffers) (write_buffers buffers w)
      ⊎ HasAll w (joined buffers) (write_buffers buffers w)
unfolding write_buffers
write_buffers_lem [] w o h = inr (omega arith, o.0, sym (append-nil w.bytes))
write_buffers_lem (buffer ∷ buffers) w o h = elim (write_lem buffer w o h) [
  | inl (failed, over) ↦
      rw (if_written-false (write buffer w) (λ w. write_buffers buffers w) failed)
        (inl (IsOver-more w buffer (joined buffers) (write buffer w) over))
  | inr (fits, written) ↦ rw written (
      more_written buffer (joined buffers) w (write_buffers buffers (extended w buffer)) (
        write_buffers_lem buffers (extended w buffer)
          (o.0, sym (length-append w.bytes buffer), omega (arith, length-append w.bytes buffer)) h))
]

-- For a bound between one byte and u64 and an encoder that does not fail: if the frame's bytes and
-- a newline are within the bound, the line is exactly these; otherwise the frame is refused with
-- LIMIT_EXCEEDED, which states the bound and a number of bytes beyond it. How the encoder splits
-- the frame into writes makes no difference.
pub encode_bounded_lem :
    (limit : ℕ) (buffers : List (List ℕ))
    → 1 ≤ limit
    → limit ≤ u64_max
    → ((length (joined buffers) + 1 ≤ limit)
        × (encode_bounded limit (record { buffers = buffers; failed = false })
            ≡ ok (joined buffers ++ 10 ∷ [])))
      ⊎ ((limit < length (joined buffers) + 1)
          × ((attempted : ℕ) × (limit ≤ attempted)
              × (attempted ≤ length (joined buffers))
              × (encode_bounded limit (record { buffers = buffers; failed = false })
                  ≡ err (frame_limit_error limit attempted))))
unfolding encode_bounded finish_line new_writer
encode_bounded_lem limit buffers h k =
    elim (write_buffers_lem buffers (new_writer limit) (refl, refl, omega arith) (omega arith)) [
      | inl (over, exceeded, above, below) ↦ inr (
        omega arith,
        (
          (write_buffers buffers (new_writer limit)).1.attempted,
          omega arith,
          omega arith,
          rw exceeded,
        ),
      )
      | inr (fits, clear, bytes) ↦ inl (omega arith, rw (clear, bytes))
    ]
