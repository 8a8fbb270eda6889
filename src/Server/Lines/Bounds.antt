-- ===== src/Server/Lines/Bounds.antt =====
-- src/server/protocol.rs: what an accumulator holds stays within its bound.
use vcd_tools_rs.Prelude.{
  ℕ, ◌+◌, ◌-◌, ◌<◌, ◌≡◌, Bool, true, Option, none, some, List, [], ◌∷◌, Text, length, length-append,
  leb, ltb, nat_eqb, if_intro, ok, err, arith,
}
use vcd_tools_rs.Server.Utf8.{from_utf8}
use vcd_tools_rs.Server.Lines.{
  JsonLineAccumulator, Frames, poison, frame, push_byte, prepend_frames, and_then, push_loop,
  push_bytes,
}

-- The buffer has room for the newline, within a bound that stays.
pub record IsBounded (max : ℕ) (a : JsonLineAccumulator) : Type 0 where
  pub same_bound : a.max_line_bytes ≡ max
  pub room : length a.buffer < max

frame-IsBounded :
    (max : ℕ) (o : Option Text) (a : JsonLineAccumulator)
    → IsBounded max a
    → IsBounded max (frame o a).1
unfolding frame
frame-IsBounded max (some t) a h = h
frame-IsBounded max none a h = record { same_bound = h.same_bound; room = h.room }

push_byte-IsBounded :
    (max b : ℕ) (a : JsonLineAccumulator) → IsBounded max a → IsBounded max (push_byte b a).1
unfolding push_byte poison
push_byte-IsBounded max b a h =
    let emptied : (p : Bool) → IsBounded max (record a { buffer = []; poisoned = p }) =
      λ p. record { same_bound = h.same_bound; room = omega (arith, h.room) } in
    if_intro (λ (o : Frames). IsBounded max o.1) (nat_eqb b 10)
      (λ _.
        if_intro (λ (o : Frames). IsBounded max o.1) (ltb a.max_line_bytes (length a.buffer + 1))
          (λ _. emptied true)
          (λ _.
            frame-IsBounded max (from_utf8 a.buffer) (record a { buffer = [] })
              (emptied a.poisoned)))
      (λ _.
        if_intro (λ (o : Frames). IsBounded max o.1) (leb (a.max_line_bytes - 1) (length a.buffer))
          (λ _. emptied true)
          (λ e. record {
            same_bound = h.same_bound;
            room = ground (arith, e, h.same_bound, length-append a.buffer (b ∷ []));
          }))

and_then-IsBounded :
    (max : ℕ) (o : Frames) (f : JsonLineAccumulator → Frames)
    → IsBounded max o.1
    → ((a : JsonLineAccumulator) → IsBounded max a → IsBounded max (f a).1)
    → IsBounded max (and_then o f).1
and_then-IsBounded max (err e, a) f h k = h
and_then-IsBounded max (ok fs, a) f h k = step (f a) (k a h)
  where
    step : (o : Frames) → IsBounded max o.1 → IsBounded max (prepend_frames fs o).1
    step (ok gs, b) q = q
    step (err e, b) q = q

push_loop-IsBounded :
    (max : ℕ) (bs : List ℕ) (a : JsonLineAccumulator)
    → IsBounded max a
    → IsBounded max (push_loop bs a).1
unfolding push_loop
push_loop-IsBounded max [] a h = h
push_loop-IsBounded max (b ∷ bs) a h =
    and_then-IsBounded max (push_byte b a) (push_loop bs) (push_byte-IsBounded max b a h)
      (λ c q. push_loop-IsBounded max bs c q)

-- Whatever bytes arrive, the buffer never holds more than one byte less than the bound of a line,
-- and the bound does not change.
pub push_bytes-IsBounded :
    (max : ℕ) (bs : List ℕ) (a : JsonLineAccumulator)
    → IsBounded max a
    → IsBounded max (push_bytes bs a).1
unfolding push_bytes
push_bytes-IsBounded max bs a h =
    if_intro (λ (o : Frames). IsBounded max o.1) a.poisoned (λ _. h)
      (λ _. push_loop-IsBounded max bs a h)
