-- ===== src/Server/Lines/Chunks.antt =====
-- src/server/protocol.rs: the lines of a connection, and its error, for any cut of its bytes.
use mathlib.Core.Path.{subst}
use vcd_tools_rs.Prelude.{
  ℕ, ◌+◌, ◌-◌, ◌≡◌, refl, Bool, true, Option, none, some, List, [], ◌∷◌, ◌++◌, Text, length, leb,
  ltb, nat_eqb, if_intro, ok, err,
}
use vcd_tools_rs.Server.Utf8.{from_utf8}
use vcd_tools_rs.Server.Lines.{
  JsonLineAccumulator, Frames, LineError, poison, frame, push_byte, prepend_frames, and_then,
  push_loop, push_bytes, accumulator_poisoned, Reading,
}

-- An accumulator is poisoned exactly by an error.
abbrev pub IsHonest : Bool → Frames → Type 0
IsHonest p (ok fs, a) = a.poisoned ≡ p
IsHonest p (err e, a) = a.poisoned ≡ true

frame-IsHonest : (o : Option Text) (a : JsonLineAccumulator) → IsHonest a.poisoned (frame o a)
unfolding frame
frame-IsHonest (some t) a = refl
frame-IsHonest none a = refl

push_byte-IsHonest : (b : ℕ) (a : JsonLineAccumulator) → IsHonest a.poisoned (push_byte b a)
unfolding push_byte poison
push_byte-IsHonest b a =
    if_intro (IsHonest a.poisoned) (nat_eqb b 10)
      (λ _.
        if_intro (IsHonest a.poisoned) (ltb a.max_line_bytes (length a.buffer + 1)) (λ _. refl)
          (λ _. frame-IsHonest (from_utf8 a.buffer) (record a { buffer = [] })))
      (λ _.
        if_intro (IsHonest a.poisoned) (leb (a.max_line_bytes - 1) (length a.buffer)) (λ _. refl)
          (λ _. refl))

and_then-IsHonest :
    (p : Bool) (o : Frames) (f : JsonLineAccumulator → Frames)
    → IsHonest p o
    → ((a : JsonLineAccumulator) → a.poisoned ≡ p → IsHonest p (f a))
    → IsHonest p (and_then o f)
and_then-IsHonest p (err e, a) f h k = h
and_then-IsHonest p (ok fs, a) f h k = step (f a) (k a h)
  where
    step : (o : Frames) → IsHonest p o → IsHonest p (prepend_frames fs o)
    step (ok gs, b) q = q
    step (err e, b) q = q

pub push_loop-IsHonest :
    (bs : List ℕ) (p : Bool) (a : JsonLineAccumulator)
    → a.poisoned ≡ p
    → IsHonest p (push_loop bs a)
unfolding push_loop
push_loop-IsHonest [] p a h = h
push_loop-IsHonest (b ∷ bs) p a h =
    and_then-IsHonest p (push_byte b a) (push_loop bs)
      (subst (λ q. IsHonest q (push_byte b a)) h (push_byte-IsHonest b a))
      (λ c q. push_loop-IsHonest bs p c q)

push_bytes-IsHonest :
    (xs : List ℕ) (a : JsonLineAccumulator) → IsHonest a.poisoned (push_bytes xs a)
unfolding push_bytes
push_bytes-IsHonest xs a =
    if_intro (IsHonest a.poisoned) a.poisoned (λ p. p)
      (λ _. push_loop-IsHonest xs a.poisoned a refl)

abbrev pub concat : List (List ℕ) → List ℕ
concat [] = []
concat (chunk ∷ chunks) = chunk ++ concat chunks

-- What reading in chunks has in common with one push of all their bytes.
abbrev pub ReadsAs : Frames → Reading → Type 0
ReadsAs (ok fs, b) r = r ≡ (fs, (ok tt, b))
ReadsAs (err e, b) (gs, r) = r ≡ (err e, b)

-- An error is final: whatever bytes follow it, they are answered with an error and change nothing.
pub push_bytes_after_error :
    (xs ys : List ℕ) (a b : JsonLineAccumulator) (e : LineError)
    → push_bytes xs a ≡ (err e, b)
    → push_bytes ys b ≡ (err accumulator_poisoned, b)
unfolding push_bytes
push_bytes_after_error xs ys a b e h =
    let poisoned : b.poisoned ≡ true = subst (IsHonest a.poisoned) h (push_bytes-IsHonest xs a) in
    rw poisoned refl
