-- ===== src/Info.antt =====
-- The formats of a video in src/info.c and include/ytdl/info.h: the reading of their data from JSON,
-- and the choice of the best one for the video and for the audio. The JSON library is a parameter.
-- An `int` is its 32-bit pattern, and the sums and products of the scores wrap around. `none` is
-- undefined behaviour: a read through NULL or before a text, or a division by 0.
pub mod Choice
pub mod Decode
pub mod Reverse
pub mod Decipher
pub mod Url
pub mod Context
pub mod Page
pub mod Response
pub mod Select
use libytdl.Base.{
  ℤ, pos, negsuc, ℕ, zero, suc, ◌+◌, ◌-◌, ◌*◌, ◌/◌, ◌%◌, ◌^◌, Bool, true, false, not, ◌&&◌, ◌||◌,
  List, [], ◌∷◌, Option, none, some, if◌then◌else◌, ltb, ◌==◌, Bytes, codes, bytes_eq, ◌>>=◌,
}
use libytdl.Dash.{atoll}

-- What the code uses of yyjson: the values in an object.
pub record Json : Type 1 where
  pub Value : Type 0
  -- An `int`, as its 32-bit pattern.
  pub get_int : Value → ℕ
  -- NULL if the value is not a text.
  pub get_str : Value → Option Bytes

-- The bits of `flags` that the code uses.
pub record Flags : Type 0 where
  pub populated : Bool
  pub has_vid : Bool
  pub has_aud : Bool

abbrev pub populated_mask : Flags
populated_mask = record { populated = true; has_vid = false; has_aud = false }

abbrev pub has_vid_mask : Flags
has_vid_mask = record { populated = false; has_vid = true; has_aud = false }

abbrev pub has_aud_mask : Flags
has_aud_mask = record { populated = false; has_vid = false; has_aud = true }

infixl 40 ◌&◌
abbrev pub ◌&◌ : Flags → Flags → Flags
a & b = record {
  populated = a.populated && b.populated;
  has_vid = a.has_vid && b.has_vid;
  has_aud = a.has_aud && b.has_aud;
}

abbrev pub is_nonzero : Flags → Bool
is_nonzero a = a.populated || a.has_vid || a.has_aud

-- `ytdl_info_format_t`, without the decoded URL.
pub record Format : Type 0 where
  pub flags : Flags
  pub itag : ℕ
  pub url_untouched : Option Bytes
  pub cipher : Option Bytes
  pub mime_type : Option Bytes
  pub bitrate : ℕ
  pub width : ℕ
  pub height : ℕ
  pub content_length : ℕ
  pub quality : Option Bytes
  pub quality_label : Option Bytes
  pub fps : ℕ
  pub average_bitrate : ℕ
  pub audio_channels : ℕ
  pub audio_quality : ℕ
  pub approx_duration_ms : ℕ

last_from : ℕ → Bytes → ℕ
last_from c [] = c
last_from c (d ∷ s) = last_from d s

-- The last byte of a text; the byte before an empty one is outside it.
unfoldable pub last_byte : Bytes → Option ℕ
unfolding last_from
last_byte [] = none
last_byte (c ∷ s) = some (last_from c s)

-- YTLD_INFO_AUDIO_QUALITY_LOW and YTLD_INFO_AUDIO_QUALITY_MEDIUM.
abbrev pub audio_quality_low : ℕ
audio_quality_low = 2

abbrev pub audio_quality_medium : ℕ
audio_quality_medium = 1

abbrev pub set_has_vid : Flags → Flags
set_has_vid flags = record flags { has_vid = true }

abbrev pub set_has_aud : Flags → Flags
set_has_aud flags = record flags { has_aud = true }

abbrev pub set_populated : Flags → Flags
set_populated flags = record flags { populated = true }

module _ (json : Json) where
  open json use {Value, get_int, get_str}

  -- The body of the loop of `ytdl_info_format_populate`, at one key.
  unfoldable pub populate_key : Bytes → Value → Format → Option Format
  populate_key key val f =
      if bytes_eq key (codes "itag")
      then some (record f { itag = get_int val })
      else if bytes_eq key (codes "url")
      then some (record f { url_untouched = get_str val })
      else if bytes_eq key (codes "mimeType")
      then some (record f { mime_type = get_str val })
      else if bytes_eq key (codes "signatureCipher") || bytes_eq key (codes "cipher")
      then some (record f { cipher = get_str val })
      else if bytes_eq key (codes "bitrate")
      then some (record f { bitrate = get_int val })
      else if bytes_eq key (codes "width")
      then some (record f { flags = set_has_vid f.flags; width = get_int val })
      else if bytes_eq key (codes "height")
      then some (record f { height = get_int val })
      else if bytes_eq key (codes "contentLength")
      then (get_str val >>= λ s. some (record f { content_length = atoll s }))
      else if bytes_eq key (codes "quality")
      then some (record f { quality = get_str val })
      else if bytes_eq key (codes "qualityLabel")
      then some (record f { quality_label = get_str val })
      else if bytes_eq key (codes "fps")
      then some (record f { fps = get_int val })
      else if bytes_eq key (codes "averageBitrate")
      then some (record f { average_bitrate = get_int val })
      else if bytes_eq key (codes "audioChannels")
      then some (record f { flags = set_has_aud f.flags; audio_channels = get_int val })
      else if bytes_eq key (codes "approxDurationMs")
      then (get_str val >>= λ s. some (record f { approx_duration_ms = atoll s }))
      else if bytes_eq key (codes "audioQuality")
      then (get_str val >>= λ s. last_byte s >>= λ c. some (record f {
        audio_quality = if c == b'W' then audio_quality_low else audio_quality_medium;
      }))
      else some f

  unfoldable pub populate_from : List (Bytes × Value) → Format → Option Format
  populate_from [] f = some f
  populate_from ((key, val) ∷ rest) f = populate_key key val f >>= λ g. populate_from rest g

  -- `ytdl_info_format_populate`, for the object's keys and values in order.
  unfoldable pub populate : List (Bytes × Value) → Format → Option Format
  populate object f =
      if is_nonzero (f.flags & populated_mask)
      then some f
      else populate_from object f >>= λ g. some (record g { flags = set_populated g.flags })

abbrev pub negate : ℕ → ℤ
negate n = if n == 0 then pos 0 else negsuc (n - 1)

-- The order of `int`.
abbrev pub lt_int : ℤ → ℤ → Bool
lt_int (pos a) (pos b) = ltb a b
lt_int (pos a) (negsuc b) = false
lt_int (negsuc a) (pos b) = true
lt_int (negsuc a) (negsuc b) = ltb b a

-- The part of the score that depends on the flags: 1 if the two bits have a bit in common, else 2
-- for a video, else 0.
unfoldable pub kind_score : Flags → ℕ
kind_score flags =
    if is_nonzero ((flags & has_aud_mask) & (flags & has_vid_mask))
    then 1
    else if is_nonzero (flags & has_vid_mask)
    then 2
    else 0

-- An `int` by its 32-bit pattern.
abbrev pub of_int32 : ℕ → ℤ
of_int32 n = if ltb n (2 ^ 31) then pos n else negsuc (2 ^ 32 - n - 1)

-- The sum is an `int`, which wraps around.
unfoldable pub video_score : Format → ℤ
video_score f = of_int32 ((kind_score f.flags + (f.width + f.fps + f.bitrate)) % 2 ^ 32)

-- The loop of `ytdl_info_get_best_video_format`, from the format `i` on.
unfoldable pub best_video_from : ℕ → List Format → ℕ → ℤ → ℕ
best_video_from i [] idx score = idx
best_video_from i (f ∷ rest) idx score =
    let skipped = best_video_from (suc i) rest idx score in
    let taken = best_video_from (suc i) rest i (video_score f) in
    if not (is_nonzero (f.flags & has_vid_mask))
    then skipped
    else if lt_int score (video_score f)
    then taken
    else skipped

-- `ytdl_info_get_best_video_format`, on formats that are populated.
unfoldable pub get_best_video_format : List Format → ℕ
get_best_video_format formats = best_video_from 0 formats 0 (pos 0)

-- What is left of 0 after a quotient, whose dividend is an `int` by its pattern.
unfoldable pub minus_quotient : ℕ → ℕ → ℤ
minus_quotient n q = if ltb n (2 ^ 31) then negate (n / q) else pos ((2 ^ 32 - n) / q)

-- The score of a format with sound, whose product wraps around; a division by 0 has no result.
unfoldable pub audio_score : Format → Option ℤ
audio_score f =
    if not (kind_score f.flags == 0)
    then some (video_score f)
    else if f.audio_quality == 0
    then none
    else some (minus_quotient (f.bitrate * f.audio_channels % 2 ^ 32) f.audio_quality)

-- The loop of `ytdl_info_get_best_audio_format`, from the format `i` on.
unfoldable pub best_audio_from : ℕ → List Format → ℕ → ℤ → Option ℕ
best_audio_from i [] idx score = some idx
best_audio_from i (f ∷ rest) idx score =
    if not (is_nonzero (f.flags & has_aud_mask))
    then best_audio_from (suc i) rest idx score
    else audio_score f >>= λ a.
        if lt_int a score
        then best_audio_from (suc i) rest i a
        else best_audio_from (suc i) rest idx score

-- `ytdl_info_get_best_audio_format`, on formats that are populated.
unfoldable pub get_best_audio_format : List Format → Option ℕ
get_best_audio_format formats = best_audio_from 0 formats 0 (pos 0)
