-- ===== src/Mux/Files.antt =====
-- `ytdl_mux_files` of src/mux.c: the calls around the loop, in their order, and the error codes.
use libytdl.Base.{
  ℕ, suc, ◌≡◌, refl, sym, ap, subst, ◌∙◌, Bool, true, false, not, ◌&&◌, List, [], ◌∷◌, Option, none,
  some, if◌then◌else◌, ◌==◌, arith,
}
use libytdl.Mux.{Av, Result, ok, fails, mux_loop, mux_start, rounds}
use libytdl.Mux.Loop.{Interleaves, selected, WritesAll, mux_loop-Adds}

-- `codec_type` of a stream.
pub data Codec : Type 0 where
  audio_codec video_codec other_codec : Codec

abbrev pub is_codec : Codec → Codec → Bool
is_codec audio_codec c = elim c [ audio_codec ↦ true | _ ↦ false ]
is_codec video_codec c = elim c [ video_codec ↦ true | _ ↦ false ]
is_codec other_codec c = elim c [ other_codec ↦ true | _ ↦ false ]

-- The first stream of a kind, counted from `i`.
unfoldable pub find_stream : Codec → ℕ → List Codec → Option ℕ
find_stream kind i [] = none
find_stream kind i (c ∷ rest) = if is_codec kind c then some i else find_stream kind (suc i) rest

module _ (av : Av) where
  -- An input file: the results of the calls on it, its streams and its packets.
  pub record Input : Type 0 where
    pub opening : Result
    pub stream_info : Result
    pub streams : List Codec
    pub new_stream_ok : Bool
    pub parameters_copy : Result
    pub packets : List av.Packet

  -- The two input files, and the results of the calls on the output.
  pub record Files : Type 0 where
    pub audio : Input
    pub video : Input
    pub alloc_output_ok : Bool
    pub is_nofile : Bool
    pub avio_open : Result
    pub write_header : Result
    pub write_trailer : Result
    pub averror_unknown : ℕ
    pub averror_eof : ℕ

  pub record Outcome : Type 0 where
    pub ret : Result
    pub is_open : Bool
    pub has_header : Bool
    pub output : List av.Packet
    pub has_trailer : Bool

  abbrev pub nothing_done : Outcome
  nothing_done = record {
    ret = ok;
    is_open = false;
    has_header = false;
    output = [];
    has_trailer = false;
  }

  -- What `exit_1` returns for an error.
  unfoldable pub exit_code : Files → ℕ → Result
  exit_code f code = if code == f.averror_eof then ok else fails code

  abbrev pub exit : Files → ℕ → Outcome → Outcome
  exit f code o = record o { ret = exit_code f code }

  -- A call's result, and the code after it.
  unfoldable pub checked : Files → Result → Outcome → Outcome → Outcome
  checked f ok o rest = rest
  checked f (fails code) o rest = exit f code o

  -- The stream that is found in an input gets one in the output.
  unfoldable pub add_stream : Files → Input → Option ℕ → (ℕ → Outcome) → Outcome
  add_stream f i none rest = exit f f.averror_unknown nothing_done
  add_stream f i (some st) rest =
      if not i.new_stream_ok
      then exit f f.averror_unknown nothing_done
      else checked f i.parameters_copy nothing_done (rest st)

  -- One input file, up to its stream.
  unfoldable pub open_input : Files → Input → Codec → (ℕ → Outcome) → Outcome
  open_input f i kind rest =
      checked f i.opening nothing_done
        (checked f i.stream_info nothing_done (add_stream f i (find_stream kind 0 i.streams) rest))

  -- Whether `avio_open` opens the output; its result is not looked at.
  abbrev pub opens : Files → Bool
  opens f = not f.is_nofile && elim f.avio_open [ ok ↦ true | fails code ↦ false ]

  unfoldable pub copied : Files → ℕ → ℕ → Outcome
  copied f audio_st video_st = record {
    ret = ok;
    is_open = opens f;
    has_header = true;
    output =
        (mux_loop av (rounds av f.audio.packets f.video.packets) audio_st video_st
          (mux_start av f.audio.packets f.video.packets)).output;
    has_trailer = false;
  }

  unfoldable pub write_output : Files → ℕ → ℕ → Outcome
  write_output f audio_st video_st =
      let o = copied f audio_st video_st in
      checked f f.write_header (record nothing_done { is_open = opens f })
        (checked f f.write_trailer o (record o { has_trailer = true }))

  -- `ytdl_mux_files`.
  unfoldable pub mux_files : Files → Outcome
  mux_files f =
      if not f.alloc_output_ok
      then exit f f.averror_unknown nothing_done
      else open_input f f.audio audio_codec (λ audio_st.
        open_input f f.video video_codec (λ video_st. write_output f audio_st video_st))

  -- An input whose calls succeed, with the number of its stream.
  pub record Opens (i : Input) (kind : Codec) (st : ℕ) : Type 0 where
    pub opened : i.opening ≡ ok
    pub informed : i.stream_info ≡ ok
    pub added : i.new_stream_ok ≡ true
    pub copies : i.parameters_copy ≡ ok
    pub found : find_stream kind 0 i.streams ≡ some st

  open_input_lem :
      (f : Files) (i : Input) (kind : Codec) (st : ℕ) (rest : ℕ → Outcome)
      → Opens i kind st
      → open_input f i kind rest ≡ rest st
  unfolding open_input checked add_stream
  open_input_lem f i kind st rest o = rw (o.opened, o.informed, o.found, o.added, o.copies) refl

  write_output_lem :
      (f : Files) (audio_st video_st : ℕ)
      → f.write_header ≡ ok
      → f.write_trailer ≡ ok
      → write_output f audio_st video_st
        ≡ record (copied f audio_st video_st) { has_trailer = true }
  unfolding write_output checked
  write_output_lem f audio_st video_st h t =
      let o = copied f audio_st video_st in
      let done = record o { has_trailer = true } in
      ap
        (λ r.
          checked f r (record nothing_done { is_open = opens f })
            (checked f f.write_trailer o done))
        h
      ∙ ap (λ r. checked f r o done) t

  mux_files_lem :
      (f : Files)
      → f.alloc_output_ok ≡ true
      → mux_files f
        ≡ open_input f f.audio audio_codec (λ audio_st.
          open_input f f.video video_codec (λ video_st. write_output f audio_st video_st))
  unfolding mux_files
  mux_files_lem f c =
      ap
        (λ b.
          if not b
          then exit f f.averror_unknown nothing_done
          else open_input f f.audio audio_codec (λ audio_st.
            open_input f f.video video_codec (λ video_st. write_output f audio_st video_st)))
        c

  -- When every call succeeds and each input has a stream of its kind, the result is 0, and the output
  -- has its header, the packets of the two streams, each stream's in their order, and its trailer.
  pub mux_files-Interleaves :
      (f : Files) (audio_st video_st : ℕ)
      → f.alloc_output_ok ≡ true
      → Opens f.audio audio_codec audio_st
      → Opens f.video video_codec video_st
      → f.write_header ≡ ok
      → f.write_trailer ≡ ok
      → WritesAll av
      → let o = mux_files f in
        (o.ret ≡ ok)
        × (o.has_header ≡ true)
        × Interleaves
            (selected av audio_st 0 f.audio.packets)
            (selected av video_st 1 f.video.packets)
            o.output
        × (o.has_trailer ≡ true)
  unfolding copied
  mux_files-Interleaves f audio_st video_st c oa ov h t all =
      let a = f.audio.packets in
      let v = f.video.packets in
      let (r, (out, i, e)) =
        mux_loop-Adds av audio_st video_st (rounds av a v) (mux_start av a v) all (omega arith) in
      subst
        (λ o.
          (o.ret ≡ ok)
          × (o.has_header ≡ true)
          × Interleaves (selected av audio_st 0 a) (selected av video_st 1 v) o.output
          × (o.has_trailer ≡ true))
        (sym (
          mux_files_lem f c
          ∙ open_input_lem f f.audio audio_codec audio_st _ oa
          ∙ open_input_lem f f.video video_codec video_st _ ov
          ∙ write_output_lem f audio_st video_st h t))
        (refl, refl, subst (Interleaves _ _) (sym e) i, refl)
