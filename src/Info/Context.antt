-- ===== src/Info/Context.antt =====
-- The state `ytdl_info_ctx_t` of include/ytdl/info.h. The JSON library is a parameter, and a pointer
-- into the JSON is the value that it points to.
use libytdl.Base.{ℕ, Bool, true, false, List, [], Option, none, some, Bytes, zeros}
use libytdl.Info.{Json, Format}

-- What the code uses of yyjson besides the values themselves. An object has its keys and values in
-- order, and an array its elements; a value of another kind has none.
pub record Tree : Type 1 where
  pub json : Json
  pub members : json.Value → List (Bytes × json.Value)
  pub elements : json.Value → List json.Value
  pub obj_get : json.Value → Bytes → Option json.Value
  pub equals_str : json.Value → Bytes → Bool
  pub Real : Type 0
  pub real_zero : Real
  pub get_real : json.Value → Real
  -- The root of the document that a text is.
  pub read : Bytes → Option json.Value

-- `ytdl_info_playability_status_t`.
pub data PlayabilityStatus : Type 0 where
  ok unknown login_required live_stream_offline unplayable : PlayabilityStatus

-- Whether the number of a status is not 0.
abbrev pub is_status : PlayabilityStatus → Bool
is_status ok = false
is_status unknown = true
is_status login_required = true
is_status live_stream_offline = true
is_status unplayable = true

abbrev pub is_some {ℓ} : {A : Type ℓ} → Option A → Bool
is_some none = false
is_some (some a) = true

-- `calloc` of a format.
abbrev pub zero_format : Format
zero_format = record {
  flags = record { populated = false; has_vid = false; has_aud = false };
  itag = 0;
  url_untouched = none;
  cipher = none;
  mime_type = none;
  bitrate = 0;
  width = 0;
  height = 0;
  content_length = 0;
  quality = none;
  quality_label = none;
  fps = 0;
  average_bitrate = 0;
  audio_channels = 0;
  audio_quality = 0;
  approx_duration_ms = 0;
}

module _ (tree : Tree) where
  open tree use {json, members, elements, obj_get, equals_str, Real, real_zero, get_real}

  -- A format of the context, with its value and its URL.
  pub record Entry : Type 0 where
    pub val : json.Value
    pub url : Option Bytes
    pub format : Format

  -- `ytdl_info_ctx_t`.
  pub record InfoCtx : Type 0 where
    pub formats : List Entry
    pub formats_size : ℕ
    pub playability_status : PlayabilityStatus
    pub ps_message : Option Bytes
    pub title : Option Bytes
    pub length_seconds : Option Bytes
    pub channel_id : Option Bytes
    pub short_description : Option Bytes
    pub average_rating : Real
    pub view_count : Option Bytes
    pub author : Option Bytes
    pub player_response : Option json.Value
    pub response : Option json.Value
    pub video_details : Option json.Value
    pub ps : Option json.Value
    pub sd : Option json.Value
    pub sd_formats : Option json.Value
    pub sd_adaptive_formats : Option json.Value
    pub dash_manifest_url : Option Bytes
    pub is_pr_populated : Bool
    pub is_fmt_populated : Bool
    pub is_details_populated : Bool
    pub cver : Bytes
    pub player_url : Bytes

  -- `ytdl_info_ctx_init`.
  abbrev pub ctx_init : InfoCtx
  ctx_init = record {
    formats = [];
    formats_size = 0;
    playability_status = ok;
    ps_message = none;
    title = none;
    length_seconds = none;
    channel_id = none;
    short_description = none;
    average_rating = real_zero;
    view_count = none;
    author = none;
    player_response = none;
    response = none;
    video_details = none;
    ps = none;
    sd = none;
    sd_formats = none;
    sd_adaptive_formats = none;
    dash_manifest_url = none;
    is_pr_populated = false;
    is_fmt_populated = false;
    is_details_populated = false;
    cver = zeros 20;
    player_url = zeros 150;
  }

  -- The keys and values of an object, or of nothing.
  abbrev pub members_of : Option json.Value → List (Bytes × json.Value)
  members_of none = []
  members_of (some v) = members v

  abbrev pub elements_of : Option json.Value → List json.Value
  elements_of none = []
  elements_of (some v) = elements v
