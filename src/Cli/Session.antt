-- ===== src/Cli/Session.antt =====
-- The two downloads of a video in src/cli.c, in any order of their callbacks.
use libytdl.Base.{◌≡◌, refl, subst, Bool, List, [], ◌∷◌, Bytes, Returns, Returns-bind}
use libytdl.Mux.Loop.{Interleaves, ends, left, right}
use libytdl.Cli.{audio_side, video_side, CliVideo, Mode, Chunk, new_video}
use libytdl.Cli.Events.{
  Event, chunk, complete, on_event, run, bytes_of, Left, running, over, events_of, IsMuxed,
  IsWaiting,
}
use libytdl.Cli.Steps.{audio_chunk, video_chunk, audio_first, video_first, audio_last, video_last}

module _ (mode : Mode) (is_debug : Bool) (audio video : Bytes) where
  -- Before the remaining events, and at the end.
  abbrev Stage : Left → Left → CliVideo → Type 0
  Stage over over s = IsMuxed is_debug audio video s
  Stage over (running cs) s = IsWaiting mode audio video over (running cs) s
  Stage (running cs) over s = IsWaiting mode audio video (running cs) over s
  Stage (running cs) (running ds) s = IsWaiting mode audio video (running cs) (running ds) s

  head_lem :
      (P : CliVideo → Type 0) (e f : Event) (es fs : List Event) (s : CliVideo)
      → e ∷ es ≡ f ∷ fs
      → Returns P (on_event mode is_debug f s)
      → Returns P (on_event mode is_debug e s)
  head_lem P e f es fs s q w =
      let same : f ≡ e = cc in subst (λ e. Returns P (on_event mode is_debug e s)) same w

  tail_lem : (e f : Event) (es fs : List Event) → e ∷ es ≡ f ∷ fs → es ≡ fs
  tail_lem e f es fs q = cc

  audio_event :
      (e : Event) (es : List Event) (a v : Left) (s : CliVideo)
      → e ∷ es ≡ events_of audio_side a
      → Stage a v s
      → (b : Left) × (es ≡ events_of audio_side b)
        × Returns (Stage b v) (on_event mode is_debug e s)
  unfolding on_event
  audio_event e es over v s q w = cc
  audio_event e es (running []) over s q w = (
    over,
    tail_lem e (complete audio_side) es [] q,
    head_lem _ e (complete audio_side) es [] s q (audio_last mode is_debug audio video s w),
  )
  audio_event e es (running []) (running cs) s q w = (
    over,
    tail_lem e (complete audio_side) es [] q,
    head_lem _ e (complete audio_side) es [] s q (audio_first mode is_debug audio video cs s w),
  )
  audio_event e es (running (c ∷ cs)) over s q w =
      let rest = events_of audio_side (running cs) in
      (
        running cs,
        tail_lem e (chunk audio_side c) es rest q,
        head_lem _ e (chunk audio_side c) es rest s q
            (audio_chunk mode is_debug audio video c cs over s w),
      )
  audio_event e es (running (c ∷ cs)) (running ds) s q w =
      let rest = events_of audio_side (running cs) in
      (
        running cs,
        tail_lem e (chunk audio_side c) es rest q,
        head_lem _ e (chunk audio_side c) es rest s q
            (audio_chunk mode is_debug audio video c cs (running ds) s w),
      )

  video_event :
      (e : Event) (es : List Event) (a v : Left) (s : CliVideo)
      → e ∷ es ≡ events_of video_side v
      → Stage a v s
      → (b : Left) × (es ≡ events_of video_side b)
        × Returns (Stage a b) (on_event mode is_debug e s)
  unfolding on_event
  video_event e es a over s q w = cc
  video_event e es over (running []) s q w = (
    over,
    tail_lem e (complete video_side) es [] q,
    head_lem _ e (complete video_side) es [] s q (video_last mode is_debug audio video s w),
  )
  video_event e es (running cs) (running []) s q w = (
    over,
    tail_lem e (complete video_side) es [] q,
    head_lem _ e (complete video_side) es [] s q (video_first mode is_debug audio video cs s w),
  )
  video_event e es over (running (c ∷ cs)) s q w =
      let rest = events_of video_side (running cs) in
      (
        running cs,
        tail_lem e (chunk video_side c) es rest q,
        head_lem _ e (chunk video_side c) es rest s q
            (video_chunk mode is_debug audio video c cs over s w),
      )
  video_event e es (running ds) (running (c ∷ cs)) s q w =
      let rest = events_of video_side (running cs) in
      (
        running cs,
        tail_lem e (chunk video_side c) es rest q,
        head_lem _ e (chunk video_side c) es rest s q
            (video_chunk mode is_debug audio video c cs (running ds) s w),
      )

  all_over :
      (a v : Left) (s : CliVideo)
      → [] ≡ events_of audio_side a
      → [] ≡ events_of video_side v
      → Stage a v s
      → IsMuxed is_debug audio video s
  all_over over over s p q w = w
  all_over (running []) v s p q w = cc
  all_over (running (c ∷ cs)) v s p q w = cc
  all_over over (running []) s p q w = cc
  all_over over (running (c ∷ cs)) s p q w = cc

  run_lem :
      {xs ys zs : List Event} (a v : Left) (s : CliVideo)
      → Interleaves xs ys zs
      → xs ≡ events_of audio_side a
      → ys ≡ events_of video_side v
      → Stage a v s
      → Returns (IsMuxed is_debug audio video) (run mode is_debug zs s)
  unfolding run
  run_lem a v s ends p q w = all_over a v s p q w
  run_lem a v s (left e xs ys zs i) p q w =
      let next = audio_event e xs a v s p w in
      Returns-bind (Stage next.0 v) (IsMuxed is_debug audio video) (on_event mode is_debug e s)
        (λ t. run mode is_debug zs t) next.2 (λ t u. run_lem next.0 v t i next.1 q u)
  run_lem a v s (right e xs ys zs i) p q w =
      let next = video_event e ys a v s q w in
      Returns-bind (Stage a next.0) (IsMuxed is_debug audio video) (on_event mode is_debug e s)
        (λ t. run mode is_debug zs t) next.2 (λ t u. run_lem a next.0 t i p next.1 u)

-- For either kind of downloader, and for each order of the callbacks of the two downloads in which
-- every download has its own callbacks in order, any chunks and then its completion, the tool makes
-- no access to a freed object, and it ends with one call of the muxer, made with both files
-- complete, the video freed, and the two files unlinked exactly if the debug option is off.
pub run-IsMuxed :
    (mode : Mode) (is_debug : Bool) (audio video : List Chunk) (events : List Event)
    → Interleaves
        (events_of audio_side (running audio))
        (events_of video_side (running video))
        events
    → Returns
        (IsMuxed is_debug (bytes_of audio) (bytes_of video))
        (run mode is_debug events (new_video mode))
run-IsMuxed mode is_debug audio video events i =
    run_lem mode is_debug (bytes_of audio) (bytes_of video) (running audio) (running video)
      (new_video mode) i refl refl
      (record {
        at_audio = (refl, refl, refl, refl);
        at_video = (refl, refl, refl, refl);
        held = refl;
        unmuxed = refl;
        linked = refl;
      })
