-- ===== src/Mux.antt =====
-- src/mux.c: one audio and one video stream are copied, packet by packet, into one file. libav is a
-- parameter: its packets and time stamps, and the results of its calls. A result is `ok`, or
-- `fails` with the error code without its sign. Freeing and the messages to the user have no model.
pub mod Loop
pub mod Files
pub mod Complete
use libytdl.Base.{
  ℕ, zero, suc, ◌+◌, Bool, true, false, not, ◌&&◌, ◌||◌, List, [], ◌∷◌, ◌++◌, Option, none, some,
  if◌then◌else◌, ◌==◌, length,
}

pub data Result : Type 0 where
  ok : Result
  fails : ℕ → Result

-- What the code uses of libav's packets. `rescale idx` is the packet as it is handed over to the
-- output stream `idx`, with its time stamps in that stream's time base.
pub record Av : Type 1 where
  pub Packet : Type 0
  pub Pts : Type 0
  pub pts_0 : Pts
  pub stream_index : Packet → ℕ
  pub rescale : ℕ → Packet → Packet
  pub pts : Packet → Pts
  -- `av_compare_ts` of an audio and a video time is at most 0.
  pub compare_ts_le : Pts → Pts → Bool
  -- Whether `av_interleaved_write_frame` takes a packet, after those already written.
  pub write_frame_ok : List Packet → Packet → Bool

module _ (av : Av) where
  open av use {Packet, Pts, pts_0, stream_index, rescale, pts, compare_ts_le, write_frame_ok}

  -- An input file, as what is left to read of it, with the local variables that go with it.
  pub record Source : Type 0 where
    pub packets : List Packet
    pub next_pts : Pts
    pub encode : Bool

  pub record MuxState : Type 0 where
    pub audio : Source
    pub video : Source
    pub output : List Packet

  -- A step on one source, and what the output file holds after it.
  abbrev pub Written : Type 0
  Written = Source × List Packet

  unfoldable pub write_packet : ℕ → ℕ → Packet → List Packet → Source → List Packet → Written
  write_packet st idx packet rest src output =
      if not (stream_index packet == st)
      then (record src { packets = rest; encode = true }, output)
      else let out = rescale idx packet in
        if write_frame_ok output out
        then (record { packets = rest; next_pts = pts out; encode = true }, output ++ (out ∷ []))
        else (record { packets = rest; next_pts = pts out; encode = false }, output)

  unfoldable pub write_from : ℕ → ℕ → List Packet → Source → List Packet → Written
  write_from st idx [] src output = (record src { encode = false }, output)
  write_from st idx (packet ∷ rest) src output = write_packet st idx packet rest src output

  -- `ytdl__mux_write_frame` from the stream `st` of an input to the stream `idx` of the output, with
  -- its result stored in `encode`.
  unfoldable pub mux_write_frame : ℕ → ℕ → Source → List Packet → Written
  mux_write_frame st idx src output = write_from st idx src.packets src output

  unfoldable pub audio_is_next : MuxState → Bool
  audio_is_next s =
      s.audio.encode && (not s.video.encode || compare_ts_le s.audio.next_pts s.video.next_pts)

  abbrev pub put_audio : MuxState → Written → MuxState
  put_audio s (src, output) = record s { audio = src; output = output }

  abbrev pub put_video : MuxState → Written → MuxState
  put_video s (src, output) = record s { video = src; output = output }

  -- The body of the loop.
  unfoldable pub mux_step : ℕ → ℕ → MuxState → MuxState
  mux_step audio_st video_st s =
      if audio_is_next s
      then put_audio s (mux_write_frame audio_st 0 s.audio s.output)
      else put_video s (mux_write_frame video_st 1 s.video s.output)

  abbrev pub is_running : MuxState → Bool
  is_running s = s.audio.encode || s.video.encode

  -- The loop, with fuel for its rounds.
  unfoldable pub mux_loop : ℕ → ℕ → ℕ → MuxState → MuxState
  mux_loop zero audio_st video_st s = s
  mux_loop (suc fuel) audio_st video_st s = elim (is_running s) [
    | true ↦ mux_loop fuel audio_st video_st (mux_step audio_st video_st s)
    | false ↦ s
  ]

  -- Each round reads a packet or ends a source.
  abbrev pub rounds : List Packet → List Packet → ℕ
  rounds audio video = length audio + length video + 2

  abbrev pub mux_start : List Packet → List Packet → MuxState
  mux_start audio video = record {
    audio = record { packets = audio; next_pts = pts_0; encode = true };
    video = record { packets = video; next_pts = pts_0; encode = true };
    output = [];
  }
