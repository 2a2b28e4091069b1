-- ===== src/Mux/Complete.antt =====
-- The result of `ytdl_mux_files` of src/mux.c.
use libytdl.Base.{
  ℕ, ◌≡◌, ◌≢◌, refl, ap, Bool, true, false, not, Option, none, some, if◌then◌else◌, arith,
}
use libytdl.Mux.{Av, Result, ok, fails}
use libytdl.Mux.Files.{
  Codec, audio_codec, video_codec, find_stream, Input, Files, Outcome, nothing_done, exit_code,
  exit, checked, add_stream, open_input, write_output, mux_files,
}

module _ (av : Av) where
  -- No call reports the end of a file as its error.
  pub record InputNoEof (f : Files av) (i : Input av) : Type 0 where
    pub opening : i.opening ≢ fails f.averror_eof
    pub stream_info : i.stream_info ≢ fails f.averror_eof
    pub parameters_copy : i.parameters_copy ≢ fails f.averror_eof

  pub record NoEof (f : Files av) : Type 0 where
    pub audio : InputNoEof f f.audio
    pub video : InputNoEof f f.video
    pub write_header : f.write_header ≢ fails f.averror_eof
    pub write_trailer : f.write_trailer ≢ fails f.averror_eof
    pub unknown : f.averror_unknown ≢ f.averror_eof

  -- A result of 0 is given only for a complete output.
  abbrev Sound : Outcome av → Type 0
  Sound o = o.ret ≡ ok → o.has_trailer ≡ true

  if-Sound : (b : Bool) (x y : Outcome av) → Sound x → Sound y → Sound (if not b then x else y)
  if-Sound true x y p q = q
  if-Sound false x y p q = p

  exit-Sound :
      (f : Files av) (code : ℕ) (o : Outcome av) → code ≢ f.averror_eof → Sound (exit av f code o)
  unfolding exit_code
  exit-Sound f code o n h = ground arith

  checked-Sound :
      (f : Files av) (r : Result) (o rest : Outcome av)
      → r ≢ fails f.averror_eof
      → Sound rest
      → Sound (checked av f r o rest)
  unfolding checked
  checked-Sound f ok o rest n s = s
  checked-Sound f (fails code) o rest n s = exit-Sound f code o (λ e. n (ap fails e))

  add_stream-Sound :
      (f : Files av) (i : Input av) (st : Option ℕ) (rest : ℕ → Outcome av)
      → NoEof f
      → InputNoEof f i
      → ((k : ℕ) → Sound (rest k))
      → Sound (add_stream av f i st rest)
  unfolding add_stream
  add_stream-Sound f i none rest n m s = exit-Sound f f.averror_unknown (nothing_done av) n.unknown
  add_stream-Sound f i (some k) rest n m s =
      if-Sound i.new_stream_ok _ _ (exit-Sound f f.averror_unknown (nothing_done av) n.unknown)
        (checked-Sound f i.parameters_copy (nothing_done av) (rest k) m.parameters_copy (s k))

  open_input-Sound :
      (f : Files av) (i : Input av) (kind : Codec) (rest : ℕ → Outcome av)
      → NoEof f
      → InputNoEof f i
      → ((k : ℕ) → Sound (rest k))
      → Sound (open_input av f i kind rest)
  unfolding open_input
  open_input-Sound f i kind rest n m s = checked-Sound f i.opening (nothing_done av) _ m.opening (
      checked-Sound f i.stream_info (nothing_done av) _ m.stream_info
        (add_stream-Sound f i (find_stream kind 0 i.streams) rest n m s))

  write_output-Sound : (f : Files av) (a v : ℕ) → NoEof f → Sound (write_output av f a v)
  unfolding write_output
  write_output-Sound f a v n =
      checked-Sound f f.write_header _ _ n.write_header
        (checked-Sound f f.write_trailer _ _ n.write_trailer (λ _. refl))

  -- If no call's error is the end of a file, then the result is 0 only when the trailer was written.
  pub mux_files_complete :
      (f : Files av) → NoEof f → (mux_files av f).ret ≡ ok → (mux_files av f).has_trailer ≡ true
  unfolding mux_files
  mux_files_complete f n =
      if-Sound f.alloc_output_ok _ _ (exit-Sound f f.averror_unknown (nothing_done av) n.unknown) (
        open_input-Sound f f.audio audio_codec _ n n.audio (λ a.
          open_input-Sound f f.video video_codec _ n n.video (λ v. write_output-Sound f a v n)))
