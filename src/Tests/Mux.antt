-- ===== src/Tests/Mux.antt =====
-- The muxer at concrete inputs: a packet is its stream's number and its time.
use libytdl.Base.{ℕ, ◌≡◌, refl, arith, Bool, true, false, List, [], ◌∷◌, leb, length, ltb}
use libytdl.Mux.{
  Av, ok, mux_loop, mux_start, mux_step, is_running, audio_is_next, mux_write_frame, write_from,
  write_packet,
}
use libytdl.Mux.Loop.{Interleaves, selected, mux_loop_stops}
use libytdl.Mux.Files.{
  Codec, Input, Files, find_stream, open_input, checked, add_stream, write_output, copied,
  audio_codec, video_codec, mux_files, mux_files-Interleaves,
}
use libytdl.Mux.Complete.{mux_files_complete}

abbrev sample_av : (List (ℕ × ℕ) → (ℕ × ℕ) → Bool) → Av
sample_av write_ok = record {
  Packet = ℕ × ℕ;
  Pts = ℕ;
  pts_0 = 0;
  stream_index = λ p. p.0;
  rescale = λ idx p. (idx, p.1);
  pts = λ p. p.1;
  compare_ts_le = leb;
  write_frame_ok = write_ok;
}

-- Each write succeeds; and only the first does.
abbrev good_av : Av
good_av = sample_av (λ output p. true)

abbrev bad_av : Av
bad_av = sample_av (λ output p. ltb (length output) 1)

abbrev audio_packets : List (ℕ × ℕ)
audio_packets = (0, 1) ∷ (0, 5) ∷ (0, 9) ∷ []

abbrev video_packets : List (ℕ × ℕ)
video_packets = (1, 2) ∷ (0, 3) ∷ (1, 7) ∷ []

abbrev sample_input : List Codec → List (ℕ × ℕ) → Input good_av
sample_input streams packets = record {
  opening = ok;
  stream_info = ok;
  streams = streams;
  new_stream_ok = true;
  parameters_copy = ok;
  packets = packets;
}

abbrev sample_files : Files good_av
sample_files = record {
  audio = sample_input (audio_codec ∷ []) audio_packets;
  video = sample_input (audio_codec ∷ video_codec ∷ []) video_packets;
  alloc_output_ok = true;
  is_nofile = false;
  avio_open = ok;
  write_header = ok;
  write_trailer = ok;
  averror_unknown = 1;
  averror_eof = 2;
}

-- The packets are written in the order of their times, the packets of other streams are left out.
sample_output :
    (mux_files good_av sample_files).output ≡ (0, 1) ∷ (1, 2) ∷ (0, 5) ∷ (1, 7) ∷ (0, 9) ∷ []
unfolding mux_files open_input checked add_stream find_stream write_output copied mux_loop mux_step
    audio_is_next mux_write_frame write_from write_packet
sample_output = refl

mux_files-Interleaves_example :
    let o = mux_files good_av sample_files in
    (o.ret ≡ ok)
    × (o.has_header ≡ true)
    × Interleaves (selected good_av 0 0 audio_packets) (selected good_av 1 1 video_packets) o.output
    × (o.has_trailer ≡ true)
unfolding find_stream
mux_files-Interleaves_example =
    mux_files-Interleaves good_av sample_files 0 1 refl
      (record { opened = refl; informed = refl; added = refl; copies = refl; found = refl })
      (record { opened = refl; informed = refl; added = refl; copies = refl; found = refl }) refl
      refl (λ output p. refl)

mux_files_complete_example : (mux_files good_av sample_files).has_trailer ≡ true
unfolding mux_files open_input checked add_stream find_stream write_output copied
mux_files_complete_example =
    mux_files_complete good_av sample_files
      (record {
        audio = record { opening = λ h. cc; stream_info = λ h. cc; parameters_copy = λ h. cc };
        video = record { opening = λ h. cc; stream_info = λ h. cc; parameters_copy = λ h. cc };
        write_header = λ h. cc;
        write_trailer = λ h. cc;
        unknown = λ h. omega (arith, h);
      })
      refl

-- With writes that fail.
mux_loop_stops_example :
    is_running bad_av (mux_loop bad_av 8 0 1 (mux_start bad_av audio_packets video_packets)) ≡ false
mux_loop_stops_example =
    mux_loop_stops bad_av 0 1 8 (mux_start bad_av audio_packets video_packets) (omega arith)
