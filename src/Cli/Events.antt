-- ===== src/Cli/Events.antt =====
-- The events of the two downloads of a video in src/cli.c, and what each does to its download.
use libytdl.Base.{
  ◌≡◌, refl, sym, ap, subst, ◌∙◌, Bool, true, false, not, List, [], ◌∷◌, ◌++◌, append_assoc,
  append-nil, Option, none, some, if◌then◌else◌, ◌>>=◌, length, Bytes, arith, Returns,
}
use libytdl.Cli.{
  Side, audio_side, video_side, Download, CliVideo, side, set_side, access, append_file,
  mux_and_free, mux_if_done, dash_complete, media_complete, dash_pipe, add_count,
  dash_segment_complete, media_pipe, Mode, dash, media, Chunk, piece, segment_end, on_chunk,
  on_complete,
}

pub data Event : Type 0 where
  chunk : Side → Chunk → Event
  complete : Side → Event

module _ (mode : Mode) (is_debug : Bool) where
  unfoldable pub on_event : Event → CliVideo → Option CliVideo
  on_event (chunk x c) s = on_chunk mode x c s
  on_event (complete x) s = on_complete mode is_debug x s

  unfoldable pub run : List Event → CliVideo → Option CliVideo
  run [] s = some s
  run (e ∷ es) s = on_event e s >>= λ t. run es t

abbrev pub bytes_of : List Chunk → Bytes
bytes_of [] = []
bytes_of (piece buf ∷ cs) = buf ++ bytes_of cs
bytes_of (segment_end ∷ cs) = bytes_of cs

-- What is left of a download: its chunks and its completion, or nothing.
pub data Left : Type 0 where
  running : List Chunk → Left
  over : Left

abbrev pub events_of : Side → Left → List Event
events_of x over = []
events_of x (running []) = complete x ∷ []
events_of x (running (c ∷ cs)) = chunk x c ∷ events_of x (running cs)

-- A download whose file will hold `total`.
abbrev pub IsAt : Mode → Bytes → Left → Download → Type 0
IsAt mode total (running cs) d =
    (d.is_done ≡ false)
    × (d.is_open ≡ true)
    × (d.has_ctx ≡ elim mode [ dash ↦ false | media ↦ true ])
    × (d.file ++ bytes_of cs ≡ total)
IsAt mode total over d = (d.is_done ≡ true) × (d.file ≡ total)

-- What the tool has done when both downloads are over.
abbrev pub IsMuxed : Bool → Bytes → Bytes → CliVideo → Type 0
IsMuxed is_debug audio video s =
    (s.muxed ≡ (audio, video) ∷ []) × (s.is_freed ≡ true) × (s.is_unlinked ≡ not is_debug)

-- A video whose downloads are not both over.
pub record IsWaiting (mode : Mode) (audio video : Bytes) (a v : Left) (s : CliVideo) : Type 0 where
  pub at_audio : IsAt mode audio a s.audio
  pub at_video : IsAt mode video v s.video
  pub held : s.is_freed ≡ false
  pub unmuxed : s.muxed ≡ []
  pub linked : s.is_unlinked ≡ false

-- What a chunk does to its download.
abbrev pub after : Mode → Chunk → Download → Download
after dash (piece buf) d = append_file buf d
after dash segment_end d = add_count 1 d
after media (piece buf) d = append_file buf (add_count (length buf) d)
after media segment_end d = d

pub on_chunk_lem :
    (mode : Mode) (x : Side) (c : Chunk) (s : CliVideo)
    → s.is_freed ≡ false
    → (side x s).has_ctx ≡ elim mode [ dash ↦ false | media ↦ true ]
    → on_chunk mode x c s ≡ some (set_side x (after mode c (side x s)) s)
unfolding on_chunk dash_pipe dash_segment_complete media_pipe
on_chunk_lem dash x (piece buf) s h e =
    ap (λ b. (if b then none else some s) >>= λ s. some (set_side x (append_file buf (side x s)) s))
      h
on_chunk_lem dash x segment_end s h e =
    ap (λ b. (if b then none else some s) >>= λ s. some (set_side x (add_count 1 (side x s)) s)) h
on_chunk_lem media x (piece buf) s h e =
    ap
      (λ b. (if b then some s else none) >>= λ s.
        access s >>= λ s. some (set_side x (append_file buf (add_count (length buf) (side x s))) s))
      e
    ∙ ap
        (λ b. (if b then none else some s) >>= λ s.
          some (set_side x (append_file buf (add_count (length buf) (side x s))) s))
        h
on_chunk_lem media audio_side segment_end s h e = refl
on_chunk_lem media video_side segment_end s h e = refl

pub after-IsAt :
    (mode : Mode) (c : Chunk) (cs : List Chunk) (d : Download) (total : Bytes)
    → IsAt mode total (running (c ∷ cs)) d
    → IsAt mode total (running cs) (after mode c d)
after-IsAt dash (piece buf) cs d total (n, o, k, e) =
    subst (λ b. IsAt dash total (running cs) (if b then record d { file = d.file ++ buf } else d))
      (sym o) (n, o, k, append_assoc d.file buf (bytes_of cs) ∙ e)
after-IsAt dash segment_end cs d total h = h
after-IsAt media (piece buf) cs d total (n, o, k, e) =
    let counted = add_count (length buf) d in
    subst
      (λ b.
        IsAt media total (running cs)
          (if b then record counted { file = d.file ++ buf } else counted))
      (sym o) (n, o, k, append_assoc d.file buf (bytes_of cs) ∙ e)
after-IsAt media segment_end cs d total h = h

-- A download that is complete.
abbrev pub finished : Mode → Download → Download
finished dash d = record d { is_done = true }
finished media d = record d { is_done = true; is_open = false; has_ctx = false }

abbrev pub other : Side → Side
other audio_side = video_side
other video_side = audio_side

pub complete_first :
    (mode : Mode) (is_debug : Bool) (x : Side) (s : CliVideo)
    → s.is_freed ≡ false
    → (side x s).has_ctx ≡ elim mode [ dash ↦ false | media ↦ true ]
    → (side (other x) s).is_done ≡ false
    → on_complete mode is_debug x s ≡ some (set_side x (finished mode (side x s)) s)
unfolding on_complete dash_complete media_complete mux_if_done
complete_first dash is_debug audio_side s h e o = ground arith
complete_first dash is_debug video_side s h e o = ground arith
complete_first media is_debug audio_side s h e o = ground arith
complete_first media is_debug video_side s h e o = ground arith

pub complete_last :
    (mode : Mode) (is_debug : Bool) (x : Side) (s : CliVideo)
    → s.is_freed ≡ false
    → s.is_unlinked ≡ false
    → s.muxed ≡ []
    → (side x s).has_ctx ≡ elim mode [ dash ↦ false | media ↦ true ]
    → (side (other x) s).is_done ≡ true
    → Returns (IsMuxed is_debug s.audio.file s.video.file) (on_complete mode is_debug x s)
unfolding on_complete dash_complete media_complete mux_if_done mux_and_free
complete_last dash is_debug audio_side s h u m e o = ground arith
complete_last dash is_debug video_side s h u m e o = ground arith
complete_last media is_debug audio_side s h u m e o = ground arith
complete_last media is_debug video_side s h u m e o = ground arith

pub finished-IsAt :
    (mode : Mode) (d : Download) (total : Bytes)
    → IsAt mode total (running []) d
    → IsAt mode total over (finished mode d)
finished-IsAt dash d total (n, o, k, e) = (refl, sym (append-nil d.file) ∙ e)
finished-IsAt media d total (n, o, k, e) = (refl, sym (append-nil d.file) ∙ e)
