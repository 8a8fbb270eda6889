-- ===== src/Server/Output/Lifecycle.antt =====
-- src/server/runtime.rs: what has been sent for a request is always a response in order.
use vcd_tools_rs.Prelude.{
  ℕ, ◌+◌, ◌≡◌, refl, Option, some, List, [], ◌∷◌, ◌++◌, Text, length, map, ok, arith, inl, inr, ◌⊎◌,
  ap, sym, ◌∙◌, map-append, length-append, Option-cases,
}
use mathlib.Core.Path.{subst}
use vcd_tools_rs.Prelude.Keys.{text_eqb_iff}
use vcd_tools_rs.Server.Answer.{Answer}
use vcd_tools_rs.Server.Frames.{
  ResponseFrame, ChunkFrame, BeginFrame, EndFrame, result, error, begin, chunk, end,
}
use vcd_tools_rs.Server.Output.{
  OutputLifecycle, not_started, streaming, terminal, Line, accept, accept_error, checked_next,
  validate_frame,
}

-- The id and the sequence number that a frame carries.
abbrev pub frame_id : ResponseFrame → Option Text
frame_id (result f) = some f.id
frame_id (error f) = f.id
frame_id (begin f) = some f.id
frame_id (chunk f) = some f.id
frame_id (end f) = some f.id

abbrev pub frame_seq : ResponseFrame → ℕ
frame_seq (result f) = f.seq
frame_seq (error f) = f.seq
frame_seq (begin f) = f.seq
frame_seq (chunk f) = f.seq
frame_seq (end f) = f.seq

-- The frames are numbered from `n` on, and carry the id.
abbrev pub Numbered : Text → ℕ → List ResponseFrame → Type 0
Numbered id n [] = Unit {0}
Numbered id n (f ∷ fs) = (frame_id f ≡ some id) × (frame_seq f ≡ n) × Numbered id (n + 1) fs

abbrev pub IsUnary : ResponseFrame → Type 0
IsUnary (result f) = Unit {0}
IsUnary (error f) = Unit {0}
IsUnary (begin f) = ⊥
IsUnary (chunk f) = ⊥
IsUnary (end f) = ⊥

-- One unary frame, or a begin frame, chunks and one end frame; before the end, a prefix of that.
abbrev pub Shape : OutputLifecycle → List ResponseFrame → Type 0
Shape not_started fs = fs ≡ []
Shape (streaming n) fs =
    (b : BeginFrame) × (cs : List ChunkFrame) × (fs ≡ begin b ∷ map chunk cs) × (n ≡ length fs)
Shape terminal fs =
    ((f : ResponseFrame) × IsUnary f × (fs ≡ f ∷ []))
    ⊎ ((b : BeginFrame) × (cs : List ChunkFrame) × (e : EndFrame) × (fs
          ≡ begin b ∷ (map chunk cs ++ end e ∷ [])))

abbrev pub frames : List Line → List ResponseFrame
frames [] = []
frames ((f, bytes) ∷ lines) = f ∷ frames lines

pub record IsResponse (request_id : Text) (lifecycle : OutputLifecycle) (fs : List ResponseFrame)
    : Type 0 where
  pub numbered : Numbered request_id 0 fs
  pub shape : Shape lifecycle fs

pub frames-append : (ls ms : List Line) → frames (ls ++ ms) ≡ frames ls ++ frames ms
frames-append [] ms = refl
frames-append ((f, bytes) ∷ ls) ms = ap (λ fs. f ∷ fs) (frames-append ls ms)

Numbered-append :
    (id : Text) (n : ℕ) (fs : List ResponseFrame) (f : ResponseFrame)
    → Numbered id n fs
    → frame_id f ≡ some id
    → frame_seq f ≡ n + length fs
    → Numbered id n (fs ++ f ∷ [])
Numbered-append id n [] f h i s = (i, omega arith, tt)
Numbered-append id n (g ∷ fs) f h i s =
    (h.0, h.1, Numbered-append id (n + 1) fs f h.2 i (omega arith))

module _ (request_id : Text) where
  accept_lem :
      (id : Text) (seq due : ℕ) (next : Answer OutputLifecycle) {l : OutputLifecycle}
      → accept request_id id seq due next ≡ ok l
      → (id ≡ request_id) × (seq ≡ due) × (next ≡ ok l)
  unfolding accept
  accept_lem id seq due next h = ground (arith, text_eqb_iff id request_id)

  abbrev Extends : OutputLifecycle → ResponseFrame → List ResponseFrame → Type 0
  Extends next f fs =
      (frame_id f ≡ some request_id) × (frame_seq f ≡ length fs) × Shape next (fs ++ f ∷ [])

  -- An accepted frame, by its id, its number and what the shape becomes.
  extend :
      (f : ResponseFrame) (fs : List ResponseFrame) (id : Text) (seq due : ℕ)
      (l next : OutputLifecycle)
      → frame_id f ≡ some id
      → frame_seq f ≡ seq
      → due ≡ length fs
      → Shape l (fs ++ f ∷ [])
      → accept request_id id seq due (ok l) ≡ ok next
      → Extends next f fs
  extend f fs id seq due l next i s d shape h =
      let (same, number, next_eq) = accept_lem id seq due (ok l) h in
      (i ∙ ap some same, s ∙ number ∙ d, subst (λ k. Shape k (fs ++ f ∷ [])) (cc) shape)

  fresh : (f : ResponseFrame) (fs : List ResponseFrame) → fs ≡ [] → fs ++ f ∷ [] ≡ f ∷ []
  fresh f fs e = rw e

  longer :
      (b : BeginFrame) (cs : List ChunkFrame) (f : ResponseFrame) (fs : List ResponseFrame)
      → fs ≡ begin b ∷ map chunk cs
      → fs ++ f ∷ [] ≡ begin b ∷ (map chunk cs ++ f ∷ [])
  longer b cs f fs e = rw e

  chunk-Shape :
      (n : ℕ) (c : ChunkFrame) (fs : List ResponseFrame)
      → Shape (streaming n) fs
      → Shape (streaming (n + 1)) (fs ++ chunk c ∷ [])
  chunk-Shape n c fs (b, cs, e, k) = (
    b,
    cs ++ c ∷ [],
    longer b cs (chunk c) fs e ∙ ap (λ rest. begin b ∷ rest) (sym (map-append chunk cs (c ∷ []))),
    omega (arith, length-append fs (chunk c ∷ [])),
  )

  end-Shape :
      (n : ℕ) (f : EndFrame) (fs : List ResponseFrame)
      → Shape (streaming n) fs
      → Shape terminal (fs ++ end f ∷ [])
  end-Shape n f fs (b, cs, e, k) = inr (b, cs, f, longer b cs (end f) fs e)

  checked_next-eq :
      (n : ℕ) (l : OutputLifecycle) → checked_next request_id n ≡ ok l → l ≡ streaming (n + 1)
  unfolding checked_next
  checked_next-eq n l h = ground arith

  empty_length : (fs : List ResponseFrame) → fs ≡ [] → 0 ≡ length fs
  empty_length fs e = rw e

  validate_frame-Extends :
      (l next : OutputLifecycle) (f : ResponseFrame) (fs : List ResponseFrame)
      → Shape l fs
      → validate_frame request_id l f ≡ ok next
      → Extends next f fs
  unfolding validate_frame accept_error
  validate_frame-Extends not_started next (result f) fs s h =
      extend (result f) fs f.id f.seq 0 terminal next refl refl (empty_length fs s)
        (inl (result f, tt, fresh (result f) fs s)) h
  validate_frame-Extends not_started next (error f) fs s h = elim (Option-cases f.id) [
    | inl absent ↦ cc
    | inr (id, e) ↦
        extend (error f) fs id f.seq 0 terminal next e refl (empty_length fs s)
          (inl (error f, tt, fresh (error f) fs s)) (rw e at h)
  ]
  validate_frame-Extends not_started next (begin f) fs s h =
      extend (begin f) fs f.id f.seq 0 (streaming 1) next refl refl (empty_length fs s)
        (f, [], fresh (begin f) fs s, rw s) h
  validate_frame-Extends (streaming n) next (chunk f) fs s h =
      let (same, number, next_eq) = accept_lem f.id f.seq n (checked_next request_id n) h in
      (ap some same, number ∙ s.3, rw (checked_next-eq n next next_eq) (chunk-Shape n f fs s))
  validate_frame-Extends (streaming n) next (end f) fs s h =
      extend (end f) fs f.id f.seq n terminal next refl refl s.3 (end-Shape n f fs s) h
  validate_frame-Extends not_started next (chunk f) fs s h = cc
  validate_frame-Extends not_started next (end f) fs s h = cc
  validate_frame-Extends (streaming n) next (result f) fs s h = cc
  validate_frame-Extends (streaming n) next (error f) fs s h = cc
  validate_frame-Extends (streaming n) next (begin f) fs s h = cc
  validate_frame-Extends terminal next f fs s h = cc

  -- An accepted frame extends the response in order.
  pub validate_frame-IsResponse :
      (l next : OutputLifecycle) (f : ResponseFrame) (fs : List ResponseFrame)
      → IsResponse request_id l fs
      → validate_frame request_id l f ≡ ok next
      → IsResponse request_id next (fs ++ f ∷ [])
  validate_frame-IsResponse l next f fs r h =
      let (id, seq, shape) : Extends next f fs = validate_frame-Extends l next f fs r.shape h in
      record {
        numbered = Numbered-append request_id 0 fs f r.numbered id (omega arith);
        shape = shape;
      }
