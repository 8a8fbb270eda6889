-- ===== src/Server/Stream/Depth.antt =====
-- src/server/service.rs: the halving of rows that do not fit into one frame ends.
use vcd_tools_rs.Prelude.{
  ℕ, zero, suc, ◌+◌, ◌/◌, ◌≤◌, ◌≡◌, refl, false, Option, none, some, List, Text, length, nat_eqb,
  ok, err, arith, Bool-cases, inl, inr, ap, take, drop, take-append-drop, length-take,
  length-append,
}
use mathlib.Core.Path.{fun_ext}
use vcd_tools_rs.Server.Answer.{Answer}
use vcd_tools_rs.Server.Json.{Value}
use vcd_tools_rs.Server.Frames.{ResponseFrame, chunk_frame}
use vcd_tools_rs.Server.Output.{Sending, Writes}
use vcd_tools_rs.Server.Stream.{
  try_frame_bytes, Progress, Outcome, ◌then_do◌, values, split_or_send, send_rows_split,
}

length-drop : (n : ℕ) (xs : List Value) → n ≤ length xs → n + length (drop n xs) ≡ length xs
length-drop n xs h =
    let whole = ap length (take-append-drop n xs) in
    omega (arith, length-append (take n xs) (drop n xs), length-take n xs h)

then_cong :
    (o o' : Outcome) (next next' : Progress → Outcome)
    → o ≡ o'
    → next ≡ next'
    → (o then_do next) ≡ (o' then_do next')
then_cong o o' next next' e h = rw (e, h)

module _ (id : Text) (response_limit frame_limit : ℕ) (writes : ResponseFrame → Writes)
    (sending : ℕ → Sending) where
  split_cong :
      (rows : List Value) (counted : Answer (Option ℕ)) (halves halves' : Progress → Outcome)
      (p : Progress)
      → ((nat_eqb (length rows) 1 ≡ false) → halves p ≡ halves' p)
      → split_or_send id response_limit frame_limit writes sending rows counted halves p
        ≡ split_or_send id response_limit frame_limit writes sending rows counted halves' p
  split_cong rows (err e) halves halves' p h = refl
  split_cong rows (ok (some bytes)) halves halves' p h = refl
  split_cong rows (ok none) halves halves' p h = elim (Bool-cases (nat_eqb (length rows) 1)) [
    | inl one ↦ rw one
    | inr more ↦ rw more (h more)
  ]

  -- The depth of the recursion that halves the rows of a chunk is below the number of the rows: for
  -- one row or more, every bound on the depth that is at least that number gives the same outcome.
  pub send_rows_split_depth :
      (fuel more : ℕ) (rows : List Value) (p : Progress)
      → 1 ≤ length rows
      → length rows ≤ fuel
      → length rows ≤ more
      → send_rows_split id response_limit frame_limit writes sending fuel rows p
        ≡ send_rows_split id response_limit frame_limit writes sending more rows p
  unfolding send_rows_split
  send_rows_split_depth zero more rows p one f m = absurd (omega arith)
  send_rows_split_depth (suc fuel) zero rows p one f m = absurd (omega arith)
  send_rows_split_depth (suc fuel) (suc more) rows p one f m =
      let mid : ℕ = length rows / 2 in
      split_cong rows
        (try_frame_bytes frame_limit (writes (chunk_frame id p.0.next_seq (values rows))))
        (λ p.
          send_rows_split id response_limit frame_limit writes sending fuel (take mid rows) p
          then_do send_rows_split id response_limit frame_limit writes sending fuel (drop mid rows))
        (λ p.
          send_rows_split id response_limit frame_limit writes sending more (take mid rows) p
          then_do send_rows_split id response_limit frame_limit writes sending more (drop mid rows))
        p
        (λ two.
          let taken = length-take mid rows (omega arith) in
          let left = length-drop mid rows (omega arith) in
          let many : 2 ≤ length rows = ground arith in
          then_cong
            (send_rows_split id response_limit frame_limit writes sending fuel (take mid rows) p)
            (send_rows_split id response_limit frame_limit writes sending more (take mid rows) p)
            (send_rows_split id response_limit frame_limit writes sending fuel (drop mid rows))
            (send_rows_split id response_limit frame_limit writes sending more (drop mid rows))
            (send_rows_split_depth fuel more (take mid rows) p (omega arith) (omega arith)
              (omega arith))
            (fun_ext λ q.
              send_rows_split_depth fuel more (drop mid rows) q (omega arith) (omega arith)
                (omega arith)))
