-- ===== src/Info/Response.antt =====
-- What src/info.c reads from the JSON of the player response. Allocation succeeds.
pub mod Lookup
pub mod Formats
pub mod Status
pub mod Known
use libytdl.Base.{
  ◌+◌, true, not, ◌||◌, List, [], ◌∷◌, ◌++◌, map, Option, none, some, if◌then◌else◌, ◌==◌, length,
  Bytes, codes, bytes_eq, Ret, ret_0, ret_minus_1,
}
use libytdl.Info.Context.{
  Tree, PlayabilityStatus, ok, unknown, login_required, unplayable, is_status, is_some, zero_format,
  Entry, InfoCtx, members_of, elements_of,
}

module _ (tree : Tree) where
  open tree use {json, members, elements, obj_get, equals_str, get_real}

  -- The body of the loop of `ytdl__populate_pr_dat`.
  unfoldable pub populate_pr_key : Bytes → json.Value → InfoCtx tree → InfoCtx tree
  populate_pr_key key val info =
      if bytes_eq key (codes "playabilityStatus")
      then record info { ps = some val }
      else if bytes_eq key (codes "streamingData")
      then record info { sd = some val }
      else if bytes_eq key (codes "videoDetails")
      then record info { video_details = some val }
      else info

  unfoldable pub populate_pr_from : List (Bytes × json.Value) → InfoCtx tree → InfoCtx tree
  populate_pr_from [] info = info
  populate_pr_from ((key, val) ∷ rest) info = populate_pr_from rest (populate_pr_key key val info)

  -- `ytdl__populate_pr_dat`.
  unfoldable pub populate_pr_dat : InfoCtx tree → InfoCtx tree
  populate_pr_dat info =
      if info.is_pr_populated
      then info
      else record (populate_pr_from (members_of tree info.player_response) info) {
        is_pr_populated = true;
      }

  unfoldable pub status_of : json.Value → PlayabilityStatus
  status_of stat =
      if equals_str stat (codes "OK")
      then ok
      else if equals_str stat (codes "LOGIN_REQUIRED")
      then login_required
      else if equals_str stat (codes "UNPLAYABLE")
      then unplayable
      else unknown

  -- The part of `ytdl_info_get_playability_status` with the data populated.
  unfoldable pub read_status : InfoCtx tree → PlayabilityStatus × InfoCtx tree
  read_status info = elim info.ps [
    | none ↦ (unknown, info)
    | some ps ↦ elim (obj_get ps (codes "status")) [
      | none ↦ (unknown, record info { playability_status = unknown })
      | some stat ↦ (status_of stat, record info { playability_status = status_of stat })
    ]
  ]

  -- `ytdl_info_get_playability_status`.
  unfoldable pub get_playability_status : InfoCtx tree → PlayabilityStatus × InfoCtx tree
  get_playability_status info =
      if is_status info.playability_status
      then (info.playability_status, info)
      else elim info.player_response [
        | none ↦ (unknown, info)
        | some response ↦ read_status (populate_pr_dat info)
      ]

  abbrev pub text_of : Option json.Value → Option Bytes
  text_of none = none
  text_of (some v) = json.get_str v

  abbrev pub first_text : List json.Value → Option Bytes
  first_text [] = none
  first_text (v ∷ vs) = json.get_str v

  -- The part of `ytdl_info_get_playability_status_message` with the data populated.
  unfoldable pub read_message : Option json.Value → Option Bytes
  read_message none = none
  read_message (some ps) = elim (obj_get ps (codes "messages")) [
    | none ↦ text_of (obj_get ps (codes "reason"))
    | some messages ↦ first_text (elements messages)
  ]

  -- `ytdl_info_get_playability_status_message`.
  unfoldable pub get_playability_status_message : InfoCtx tree → Option Bytes × InfoCtx tree
  get_playability_status_message info = elim info.ps_message [
    | some message ↦ (some message, info)
    | none ↦ elim info.player_response [
      | none ↦ (none, info)
      | some response ↦ (read_message (populate_pr_dat info).ps, populate_pr_dat info)
    ]
  ]

  -- The body of the loop of `ytdl_info_extract_formats`.
  unfoldable pub streaming_key : Bytes → json.Value → InfoCtx tree → InfoCtx tree
  streaming_key key val info =
      if bytes_eq key (codes "formats")
      then record info { sd_formats = some val }
      else if bytes_eq key (codes "adaptiveFormats")
      then record info { sd_adaptive_formats = some val }
      else if bytes_eq key (codes "dashManifestUrl")
      then record info { dash_manifest_url = json.get_str val }
      else info

  unfoldable pub streaming_from : List (Bytes × json.Value) → InfoCtx tree → InfoCtx tree
  streaming_from [] info = info
  streaming_from ((key, val) ∷ rest) info = streaming_from rest (streaming_key key val info)

  unfoldable pub read_streaming : json.Value → InfoCtx tree → InfoCtx tree
  read_streaming sd info =
      if not (is_some info.sd_formats) || not (is_some info.sd_adaptive_formats)
      then streaming_from (members sd) info
      else info

  abbrev pub new_entry : json.Value → Entry tree
  new_entry val = record { val = val; url = none; format = zero_format }

  -- The arrays of the formats, when both are there.
  unfoldable pub fill_formats : InfoCtx tree → Ret × InfoCtx tree
  fill_formats info =
      if not (is_some info.sd_formats) || not (is_some info.sd_adaptive_formats)
      then (ret_minus_1, info)
      else let size =
          length (elements_of tree info.sd_formats)
          + length (elements_of tree info.sd_adaptive_formats) in
        if size == 0 then (ret_minus_1, record info { formats_size = size }) else (
          ret_0,
          record info {
            formats_size = size;
            formats =
                map new_entry (elements_of tree info.sd_formats)
                ++ map new_entry (elements_of tree info.sd_adaptive_formats);
          },
        )

  unfoldable pub read_formats : InfoCtx tree → Ret × InfoCtx tree
  read_formats info = elim info.sd [
    | none ↦ (ret_minus_1, info)
    | some sd ↦ fill_formats (read_streaming sd info)
  ]

  -- `ytdl_info_extract_formats`.
  unfoldable pub extract_formats : InfoCtx tree → Ret × InfoCtx tree
  extract_formats info = elim info.player_response [
    | none ↦ (ret_minus_1, info)
    | some response ↦ read_formats (populate_pr_dat info)
  ]

  -- The body of the loop of `ytdl_info_extract_video_details`.
  unfoldable pub details_key : Bytes → json.Value → InfoCtx tree → InfoCtx tree
  details_key key val info =
      if bytes_eq key (codes "title")
      then record info { title = json.get_str val }
      else if bytes_eq key (codes "lengthSeconds")
      then record info { length_seconds = json.get_str val }
      else if bytes_eq key (codes "channelId")
      then record info { channel_id = json.get_str val }
      else if bytes_eq key (codes "shortDescription")
      then record info { short_description = json.get_str val }
      else if bytes_eq key (codes "viewCount")
      then record info { view_count = json.get_str val }
      else if bytes_eq key (codes "author")
      then record info { author = json.get_str val }
      else if bytes_eq key (codes "averageRating")
      then record info { average_rating = get_real val }
      else info

  unfoldable pub details_from : List (Bytes × json.Value) → InfoCtx tree → InfoCtx tree
  details_from [] info = info
  details_from ((key, val) ∷ rest) info = details_from rest (details_key key val info)

  -- `ytdl_info_extract_video_details`.
  unfoldable pub extract_video_details : InfoCtx tree → InfoCtx tree
  extract_video_details info =
      if info.is_details_populated
      then info
      else record (details_from (members_of tree info.video_details) info) {
        is_details_populated = true;
      }
