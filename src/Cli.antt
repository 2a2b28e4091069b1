-- ===== src/Cli.antt =====
-- src/cli.c: what the command line tool does with the two downloads of a video, and its arguments.
-- The video's object is shared by the two, and is freed once; an access to a freed object is `none`.
-- The messages to the user have no model. The files are their contents, and `write` to a file that is
-- closed fails, which the code does not look at.
pub mod Events
pub mod Main
pub mod Session
pub mod Start
pub mod Steps
use libytdl.Base.{
  ℕ, suc, ◌+◌, ◌%◌, ◌^◌, Bool, true, false, not, ◌&&◌, ◌||◌, List, [], ◌∷◌, ◌++◌, Option, none,
  some, if◌then◌else◌, ◌>>=◌, length, Bytes,
}

pub data Side : Type 0 where
  audio_side video_side : Side

-- One of the two downloads: its file, the file's descriptor, the `ytdl_cli_ctx_t` of a media
-- download, and the two fields of the video that belong to it.
pub record Download : Type 0 where
  pub file : Bytes
  pub is_open : Bool
  pub has_ctx : Bool
  pub is_done : Bool
  pub count : ℕ

-- The video, with the calls of `ytdl_mux_files`, by what the two files hold then.
pub record CliVideo : Type 0 where
  pub audio : Download
  pub video : Download
  pub is_freed : Bool
  pub muxed : List (Bytes × Bytes)
  pub is_unlinked : Bool

abbrev pub side : Side → CliVideo → Download
side audio_side s = s.audio
side video_side s = s.video

abbrev pub set_side : Side → Download → CliVideo → CliVideo
set_side audio_side d s = record s { audio = d }
set_side video_side d s = record s { video = d }

-- An access to the video.
abbrev pub access : CliVideo → Option CliVideo
access s = if s.is_freed then none else some s

abbrev pub append_file : Bytes → Download → Download
append_file buf d = if d.is_open then record d { file = d.file ++ buf } else d

-- `ytdl__mux_and_free`.
unfoldable pub mux_and_free : Bool → CliVideo → Option CliVideo
mux_and_free is_debug s = access s >>= λ s. some (record s {
  muxed = s.muxed ++ (s.audio.file, s.video.file) ∷ [];
  is_unlinked = if not is_debug then true else s.is_unlinked;
  is_freed = true;
})

-- The test of both flags.
unfoldable pub mux_if_done : Bool → CliVideo → Option CliVideo
mux_if_done is_debug s =
    access s >>= λ s. if s.audio.is_done && s.video.is_done then mux_and_free is_debug s else some s

abbrev pub set_done : Side → CliVideo → CliVideo
set_done x s = set_side x (record (side x s) { is_done = true }) s

-- `ytdl__dash_complete`.
unfoldable pub dash_complete : Bool → Side → CliVideo → Option CliVideo
dash_complete is_debug x s = access s >>= λ s. mux_if_done is_debug (set_done x s)

-- A `ytdl_cli_ctx_t`.
abbrev pub access_ctx : Side → CliVideo → Option CliVideo
access_ctx x s = if (side x s).has_ctx then some s else none

-- `ytdl__media_complete`.
unfoldable pub media_complete : Bool → Side → CliVideo → Option CliVideo
media_complete is_debug x s = access_ctx x s >>= λ s. access s >>= λ s.
    let done = set_done x s in
    mux_if_done is_debug (set_side x (record (side x done) { is_open = false }) done) >>= λ t.
    some (set_side x (record (side x t) { has_ctx = false }) t)

-- `ytdl__dash_pipe`.
unfoldable pub dash_pipe : Side → Bytes → CliVideo → Option CliVideo
dash_pipe x buf s = access s >>= λ s. some (set_side x (append_file buf (side x s)) s)

-- An `int` that is counted up, as its bits.
abbrev pub add_count : ℕ → Download → Download
add_count n d = record d { count = (d.count + n) % 2 ^ 32 }

-- `ytdl__dash_segment_complete`.
unfoldable pub dash_segment_complete : Side → CliVideo → Option CliVideo
dash_segment_complete x s = access s >>= λ s. some (set_side x (add_count 1 (side x s)) s)

-- `ytdl__media_pipe`.
unfoldable pub media_pipe : Side → Bytes → CliVideo → Option CliVideo
media_pipe x buf s = access_ctx x s >>= λ s.
    access s >>= λ s. some (set_side x (append_file buf (add_count (length buf) (side x s))) s)

-- The callbacks of a download, as the tool sets them for either kind of downloader.
pub data Mode : Type 0 where
  dash media : Mode

pub data Chunk : Type 0 where
  piece : Bytes → Chunk
  segment_end : Chunk

unfoldable pub on_chunk : Mode → Side → Chunk → CliVideo → Option CliVideo
on_chunk dash x (piece buf) s = dash_pipe x buf s
on_chunk dash x segment_end s = dash_segment_complete x s
on_chunk media x (piece buf) s = media_pipe x buf s
on_chunk media x segment_end s = some s

unfoldable pub on_complete : Mode → Bool → Side → CliVideo → Option CliVideo
on_complete dash is_debug x s = dash_complete is_debug x s
on_complete media is_debug x s = media_complete is_debug x s

abbrev pub new_download : Mode → Download
new_download mode = record {
  file = [];
  is_open = true;
  has_ctx = elim mode [ dash ↦ false | media ↦ true ];
  is_done = false;
  count = 0;
}

-- The video as `ytdl__info_complete` sets it up, with its two files.
abbrev pub new_video : Mode → CliVideo
new_video mode = record {
  audio = new_download mode;
  video = new_download mode;
  is_freed = false;
  muxed = [];
  is_unlinked = false;
}
