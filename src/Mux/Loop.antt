-- ===== src/Mux/Loop.antt =====
-- The interleaving loop of src/mux.c.
use libytdl.Base.{
  ℕ, zero, suc, ◌+◌, ◌≤◌, ◌<◌, ◌≡◌, refl, sym, ap, subst, ◌∙◌, inl, inr, true, false, List, [], ◌∷◌,
  ◌++◌, append_assoc, append-nil, if◌then◌else◌, ◌==◌, length, arith, Bool-cases,
}
use libytdl.Mux.{
  Av, Source, MuxState, Written, write_packet, write_from, mux_write_frame, audio_is_next,
  put_audio, put_video, mux_step, is_running, mux_loop,
}

-- A list that holds the elements of two others, each in its order.
pub data Interleaves {ℓ} {A : Type ℓ} : List A → List A → List A → Type ℓ where
  ends : Interleaves [] [] []
  left : (a : A) (xs ys zs : List A) → Interleaves xs ys zs → Interleaves (a ∷ xs) ys (a ∷ zs)
  right : (b : A) (xs ys zs : List A) → Interleaves xs ys zs → Interleaves xs (b ∷ ys) (b ∷ zs)

module _ (av : Av) where
  open av use {Packet, stream_index, rescale, write_frame_ok}

  -- The packets of the stream `st`, as they are handed over to the output stream `idx`.
  abbrev pub selected : ℕ → ℕ → List Packet → List Packet
  selected st idx [] = []
  selected st idx (p ∷ rest) =
      if stream_index p == st then rescale idx p ∷ selected st idx rest else selected st idx rest

  abbrev pub remaining : ℕ → ℕ → Source av → List Packet
  remaining st idx src = if src.encode then selected st idx src.packets else []

  -- Each write succeeds.
  abbrev pub WritesAll : Type 0
  WritesAll = (output : List Packet) (p : Packet) → write_frame_ok output p ≡ true

  abbrev source_work : Source av → ℕ
  source_work src = length src.packets + (if src.encode then 1 else 0)

  abbrev work : MuxState av → ℕ
  work s = source_work s.audio + source_work s.video

  write_from_work :
      (st idx : ℕ) (ps : List Packet) (src : Source av) (output : List Packet)
      → src.packets ≡ ps
      → src.encode ≡ true
      → source_work (write_from av st idx ps src output).0 < source_work src
  unfolding write_from write_packet
  write_from_work st idx [] src output h e = ground arith
  write_from_work st idx (p ∷ rest) src output h e = ground (arith, ap length h)

  write_work :
      (st idx : ℕ) (src : Source av) (output : List Packet)
      → src.encode ≡ true
      → source_work (mux_write_frame av st idx src output).0 < source_work src
  unfolding mux_write_frame
  write_work st idx src output e = write_from_work st idx src.packets src output refl e

  next_audio : (s : MuxState av) → audio_is_next av s ≡ true → s.audio.encode ≡ true
  unfolding audio_is_next
  next_audio s n = ground arith

  next_video :
      (s : MuxState av)
      → is_running av s ≡ true
      → audio_is_next av s ≡ false
      → s.video.encode ≡ true
  unfolding audio_is_next
  next_video s e n = ground arith

  remaining_lem :
      (st idx : ℕ) (src : Source av) (ps : List Packet)
      → src.packets ≡ ps
      → src.encode ≡ true
      → remaining st idx src ≡ selected st idx ps
  remaining_lem st idx src ps h e =
      ap (λ b. if b then selected st idx src.packets else []) e ∙ ap (selected st idx) h

  step_work :
      (st vt : ℕ) (s : MuxState av) → is_running av s ≡ true → work (mux_step av st vt s) < work s
  unfolding mux_step
  step_work st vt s e = elim (Bool-cases (audio_is_next av s)) [
    | inl n ↦ rw n (omega (arith, write_work st 0 s.audio s.output (next_audio s n)))
    | inr n ↦ rw n (omega (arith, write_work vt 1 s.video s.output (next_video s e n)))
  ]

  -- A source's step either writes the next packet that is selected, or none and leaves what is
  -- selected as it is.
  data Step1 (st idx : ℕ) (src : Source av) (output : List Packet) (w : Written av) : Type 0 where
    wrote :
        (p : Packet)
        → remaining st idx src ≡ p ∷ remaining st idx w.0
        → w.1 ≡ output ++ (p ∷ [])
        → Step1 st idx src output w
    skipped : remaining st idx src ≡ remaining st idx w.0 → w.1 ≡ output → Step1 st idx src output w

  write_from-Step1 :
      (st idx : ℕ) (ps : List Packet) (src : Source av) (output : List Packet)
      → WritesAll
      → src.packets ≡ ps
      → src.encode ≡ true
      → Step1 st idx src output (write_from av st idx ps src output)
  unfolding write_from write_packet
  write_from-Step1 st idx [] src output all h e = skipped (remaining_lem st idx src [] h e) refl
  write_from-Step1 st idx (p ∷ rest) src output all h e = elim (Bool-cases (stream_index p == st)) [
    | inl q ↦
        rw (q, all output (rescale idx p))
          (wrote (rescale idx p) (remaining_lem st idx src (p ∷ rest) h e ∙ rw q refl) refl)
    | inr q ↦ rw q (skipped (remaining_lem st idx src (p ∷ rest) h e ∙ rw q refl) refl)
  ]

  write_frame-Step1 :
      (st idx : ℕ) (src : Source av) (output : List Packet)
      → WritesAll
      → src.encode ≡ true
      → Step1 st idx src output (mux_write_frame av st idx src output)
  unfolding mux_write_frame
  write_frame-Step1 st idx src output all e =
      write_from-Step1 st idx src.packets src output all refl e

  module _ (st vt : ℕ) where
    -- What the loop adds to the output of a state.
    abbrev pub Adds : MuxState av → MuxState av → Type 0
    Adds s d =
        (out : List Packet) × Interleaves (remaining st 0 s.audio) (remaining vt 1 s.video) out
        × (d.output ≡ s.output ++ out)

    put_audio-Adds :
        (s d : MuxState av) (w : Written av)
        → Step1 st 0 s.audio s.output w
        → Adds (put_audio av s w) d
        → Adds s d
    put_audio-Adds s d w (wrote p r o) (out, i, e) = (
      p ∷ out,
      subst (λ xs. Interleaves xs (remaining vt 1 s.video) (p ∷ out)) (sym r) (left p _ _ out i),
      e ∙ ap (λ q. q ++ out) o ∙ append_assoc s.output (p ∷ []) out,
    )
    put_audio-Adds s d w (skipped r o) (out, i, e) = (
      out,
      subst (λ xs. Interleaves xs (remaining vt 1 s.video) out) (sym r) i,
      e ∙ ap (λ q. q ++ out) o,
    )

    put_video-Adds :
        (s d : MuxState av) (w : Written av)
        → Step1 vt 1 s.video s.output w
        → Adds (put_video av s w) d
        → Adds s d
    put_video-Adds s d w (wrote p r o) (out, i, e) = (
      p ∷ out,
      subst (λ ys. Interleaves (remaining st 0 s.audio) ys (p ∷ out)) (sym r) (right p _ _ out i),
      e ∙ ap (λ q. q ++ out) o ∙ append_assoc s.output (p ∷ []) out,
    )
    put_video-Adds s d w (skipped r o) (out, i, e) = (
      out,
      subst (λ ys. Interleaves (remaining st 0 s.audio) ys out) (sym r) i,
      e ∙ ap (λ q. q ++ out) o,
    )

    step_audio :
        (s : MuxState av)
        → audio_is_next av s ≡ true
        → mux_step av st vt s ≡ put_audio av s (mux_write_frame av st 0 s.audio s.output)
    unfolding mux_step
    step_audio s n = rw n refl

    step_video :
        (s : MuxState av)
        → audio_is_next av s ≡ false
        → mux_step av st vt s ≡ put_video av s (mux_write_frame av vt 1 s.video s.output)
    unfolding mux_step
    step_video s n = rw n refl

    mux_step-Adds :
        (s d : MuxState av)
        → WritesAll
        → is_running av s ≡ true
        → Adds (mux_step av st vt s) d
        → Adds s d
    mux_step-Adds s d all e h = elim (Bool-cases (audio_is_next av s)) [
      | inl n ↦
          put_audio-Adds s d (mux_write_frame av st 0 s.audio s.output)
            (write_frame-Step1 st 0 s.audio s.output all (next_audio s n))
            (subst (λ z. Adds z d) (step_audio s n) h)
      | inr n ↦
          put_video-Adds s d (mux_write_frame av vt 1 s.video s.output)
            (write_frame-Step1 vt 1 s.video s.output all (next_video s e n))
            (subst (λ z. Adds z d) (step_video s n) h)
    ]

    stopped-Interleaves :
        (s : MuxState av)
        → is_running av s ≡ false
        → Interleaves (remaining st 0 s.audio) (remaining vt 1 s.video) []
    stopped-Interleaves s e =
        let a : false ≡ s.audio.encode = ground arith in
        let v : false ≡ s.video.encode = ground arith in
        let xs = selected st 0 s.audio.packets in
        let ys = selected vt 1 s.video.packets in
        subst (λ b. Interleaves (if b then xs else []) (remaining vt 1 s.video) []) a
          (subst (λ b. Interleaves [] (if b then ys else []) []) v ends)

    stopped-Adds : (s : MuxState av) → is_running av s ≡ false → Adds s s
    stopped-Adds s e = ([], stopped-Interleaves s e, sym (append-nil s.output))

    idle : (s : MuxState av) → work s ≤ 0 → is_running av s ≡ false
    idle s l = ground arith

    loop_none : (s : MuxState av) → s ≡ mux_loop av 0 st vt s
    unfolding mux_loop
    loop_none s = refl

    loop_runs :
        (fuel : ℕ) (s : MuxState av)
        → is_running av s ≡ true
        → mux_loop av fuel st vt (mux_step av st vt s) ≡ mux_loop av (suc fuel) st vt s
    unfolding mux_loop
    loop_runs fuel s e = rw (e, mux_loop) refl

    loop_ends :
        (fuel : ℕ) (s : MuxState av) → is_running av s ≡ false → s ≡ mux_loop av (suc fuel) st vt s
    unfolding mux_loop
    loop_ends fuel s e = rw (e, mux_loop) refl

    -- With fuel for its work the loop ends by its own test, and it has added what it must.
    pub mux_loop-Adds :
        (fuel : ℕ) (s : MuxState av)
        → WritesAll
        → work s ≤ fuel
        → let d = mux_loop av fuel st vt s in (is_running av d ≡ false) × Adds s d
    mux_loop-Adds zero s all l =
        subst (λ d. (is_running av d ≡ false) × Adds s d) (loop_none s)
          (idle s l, stopped-Adds s (idle s l))
    mux_loop-Adds (suc fuel) s all l = elim (Bool-cases (is_running av s)) [
      | inl e ↦
          let (r, a) =
            mux_loop-Adds fuel (mux_step av st vt s) all (omega (arith, step_work st vt s e)) in
          subst (λ d. (is_running av d ≡ false) × Adds s d) (loop_runs fuel s e)
            (r, mux_step-Adds s (mux_loop av fuel st vt (mux_step av st vt s)) all e a)
      | inr e ↦
          subst (λ d. (is_running av d ≡ false) × Adds s d) (loop_ends fuel s e)
            (e, stopped-Adds s e)
    ]

    -- However the writes end, from any state, the loop ends by its own test within a round for each
    -- packet that is left of either source and one more for each source that is still copied.
    pub mux_loop_stops :
        (fuel : ℕ) (s : MuxState av)
        → work s ≤ fuel
        → is_running av (mux_loop av fuel st vt s) ≡ false
    mux_loop_stops zero s l = subst (λ d. is_running av d ≡ false) (loop_none s) (idle s l)
    mux_loop_stops (suc fuel) s l = elim (Bool-cases (is_running av s)) [
      | inl e ↦
          subst (λ d. is_running av d ≡ false) (loop_runs fuel s e)
            (mux_loop_stops fuel (mux_step av st vt s) (omega (arith, step_work st vt s e)))
      | inr e ↦ subst (λ d. is_running av d ≡ false) (loop_ends fuel s e) e
    ]
