-- ===== src/Cli/Steps.antt =====
-- The callbacks of either download of src/cli.c, before and after the other is complete.
use libytdl.Base.{sym, subst, ◌∙◌, Bool, List, [], ◌∷◌, append-nil, Bytes, Returns}
use libytdl.Cli.{audio_side, video_side, CliVideo, Mode, Chunk, on_chunk, on_complete}
use libytdl.Cli.Events.{
  Left, running, over, IsMuxed, IsWaiting, on_chunk_lem, after-IsAt, complete_first, complete_last,
  finished-IsAt,
}

module _ (mode : Mode) (is_debug : Bool) (audio video : Bytes) where
  pub audio_chunk :
      (c : Chunk) (cs : List Chunk) (v : Left) (s : CliVideo)
      → IsWaiting mode audio video (running (c ∷ cs)) v s
      → Returns (IsWaiting mode audio video (running cs) v) (on_chunk mode audio_side c s)
  audio_chunk c cs v s w =
      subst (Returns (IsWaiting mode audio video (running cs) v))
        (sym (on_chunk_lem mode audio_side c s w.held w.at_audio.2))
        (record {
          at_audio = after-IsAt mode c cs s.audio audio w.at_audio;
          at_video = w.at_video;
          held = w.held;
          unmuxed = w.unmuxed;
          linked = w.linked;
        })

  pub video_chunk :
      (c : Chunk) (cs : List Chunk) (a : Left) (s : CliVideo)
      → IsWaiting mode audio video a (running (c ∷ cs)) s
      → Returns (IsWaiting mode audio video a (running cs)) (on_chunk mode video_side c s)
  video_chunk c cs a s w =
      subst (Returns (IsWaiting mode audio video a (running cs)))
        (sym (on_chunk_lem mode video_side c s w.held w.at_video.2))
        (record {
          at_audio = w.at_audio;
          at_video = after-IsAt mode c cs s.video video w.at_video;
          held = w.held;
          unmuxed = w.unmuxed;
          linked = w.linked;
        })

  -- The completion of one download before the other's, and after it.
  pub audio_first :
      (cs : List Chunk) (s : CliVideo)
      → IsWaiting mode audio video (running []) (running cs) s
      → Returns
          (IsWaiting mode audio video over (running cs))
          (on_complete mode is_debug audio_side s)
  audio_first cs s w =
      subst (Returns (IsWaiting mode audio video over (running cs)))
        (sym (complete_first mode is_debug audio_side s w.held w.at_audio.2 w.at_video.0))
        (record {
          at_audio = finished-IsAt mode s.audio audio w.at_audio;
          at_video = w.at_video;
          held = w.held;
          unmuxed = w.unmuxed;
          linked = w.linked;
        })

  pub video_first :
      (cs : List Chunk) (s : CliVideo)
      → IsWaiting mode audio video (running cs) (running []) s
      → Returns
          (IsWaiting mode audio video (running cs) over)
          (on_complete mode is_debug video_side s)
  video_first cs s w =
      subst (Returns (IsWaiting mode audio video (running cs) over))
        (sym (complete_first mode is_debug video_side s w.held w.at_video.2 w.at_audio.0))
        (record {
          at_audio = w.at_audio;
          at_video = finished-IsAt mode s.video video w.at_video;
          held = w.held;
          unmuxed = w.unmuxed;
          linked = w.linked;
        })

  pub audio_last :
      (s : CliVideo)
      → IsWaiting mode audio video (running []) over s
      → Returns (IsMuxed is_debug audio video) (on_complete mode is_debug audio_side s)
  audio_last s w =
      subst (λ a. Returns (IsMuxed is_debug a video) (on_complete mode is_debug audio_side s))
        (sym (append-nil s.audio.file) ∙ w.at_audio.3)
        (subst
          (λ v. Returns (IsMuxed is_debug s.audio.file v) (on_complete mode is_debug audio_side s))
          w.at_video.1
          (complete_last mode is_debug audio_side s w.held w.linked w.unmuxed w.at_audio.2
            w.at_video.0))

  pub video_last :
      (s : CliVideo)
      → IsWaiting mode audio video over (running []) s
      → Returns (IsMuxed is_debug audio video) (on_complete mode is_debug video_side s)
  video_last s w =
      subst (λ v. Returns (IsMuxed is_debug audio v) (on_complete mode is_debug video_side s))
        (sym (append-nil s.video.file) ∙ w.at_video.3)
        (subst
          (λ a. Returns (IsMuxed is_debug a s.video.file) (on_complete mode is_debug video_side s))
          w.at_audio.1
          (complete_last mode is_debug video_side s w.held w.linked w.unmuxed w.at_video.2
            w.at_audio.0))
