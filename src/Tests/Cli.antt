-- ===== src/Tests/Cli.antt =====
-- The two downloads of a video.
use libytdl.Base.{◌≡◌, refl, true, false, List, [], ◌∷◌, none, codes, Returns}
use libytdl.Mux.Loop.{Interleaves, ends, left, right}
use libytdl.Cli.{
  audio_side, video_side, media, Chunk, piece, segment_end, new_video, on_complete, media_complete,
  mux_if_done, mux_and_free,
}
use libytdl.Cli.Events.{Event, chunk, complete, run, on_event, events_of, running, IsMuxed}
use libytdl.Cli.Session.{run-IsMuxed}

abbrev sound : List Chunk
sound = piece (codes "ab") ∷ piece (codes "c") ∷ []

abbrev picture : List Chunk
picture = piece (codes "xy") ∷ segment_end ∷ []

-- The video is complete before the last piece of the sound.
abbrev mixed : List Event
mixed =
    chunk video_side (piece (codes "xy"))
    ∷ chunk audio_side (piece (codes "ab"))
    ∷ chunk video_side segment_end
    ∷ complete video_side
    ∷ chunk audio_side (piece (codes "c"))
    ∷ complete audio_side
    ∷ []

mixed-Interleaves :
    Interleaves
      (events_of audio_side (running sound))
      (events_of video_side (running picture))
      mixed
mixed-Interleaves =
    right _ _ _ _ (left _ _ _ _ (right _ _ _ _ (right _ _ _ _ (left _ _ _ _ (left _ _ _ _ ends)))))

run-IsMuxed_example :
    Returns (IsMuxed true (codes "abc") (codes "xy")) (run media true mixed (new_video media))
run-IsMuxed_example = run-IsMuxed media true sound picture mixed mixed-Interleaves

-- A completion that is reported twice uses the context that the first has freed.
twice : run media false (complete audio_side ∷ complete audio_side ∷ []) (new_video media) ≡ none
unfolding run on_event on_complete media_complete mux_if_done mux_and_free
twice = refl
