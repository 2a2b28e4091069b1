-- ===== src/Cli/Start.antt =====
-- `ytdl__info_complete` of src/cli.c: what the tool starts when the information of a video is there.
-- The messages to the user have no model (with the option for them the URLs are computed and kept
-- earlier, for a message), nor have the names of the two files. The engine's script, the
-- URL parser, libxml and the printing of the template are parameters; which allocations succeed is an
-- argument. `none` is undefined behaviour.
pub mod Refused
pub mod Manifest
pub mod Chosen
pub mod Whole
use libytdl.Base.{
  ℕ, ◌+◌, ◌%◌, ◌^◌, Bool, true, false, List, [], ◌∷◌, Option, none, some, if◌then◌else◌, ◌>>=◌, set,
  get_elem?, Bytes, c_str,
}
use libytdl.Sig.{Action}
use libytdl.Info.{Format}
use libytdl.Info.Context.{Tree, Entry, InfoCtx}
use libytdl.Info.Response.{extract_formats, extract_video_details}
use libytdl.Info.Select.{populate_first, best_video_format, best_audio_format}
use libytdl.Info.Url.{get_format_url}
use libytdl.Net.Url.{Url}
use libytdl.Net.VideoId.{sanitize_filename}
use libytdl.Dash.{Xml, get_best_representation}
use libytdl.Dl.Media.{MediaCtx}
use libytdl.Dl.Stream.{StreamCtx}

-- What the callback asks of the system: which allocations succeed, and whether the clients are
-- initialised.
pub record Calls : Type 0 where
  pub video_ok : Bool
  pub dash_ok : Bool
  pub vid_m_ok : Bool
  pub dl_ctx_ok : Bool
  pub aud_m_ok : Bool
  pub dl_ctx_a_ok : Bool
  pub client_ok : Bool
  pub manifest_ok : Bool

module _ (tree : Tree) (xml : Xml) where
  open tree use {json, members, Real}

  -- The arguments of the template for the output's name.
  pub record Name : Type 0 where
    pub id : Bytes
    pub title : Bytes
    pub length_seconds : Option Bytes
    pub channel_id : Option Bytes
    pub average_rating : Real
    pub view_count : Option Bytes
    pub author : Option Bytes

  -- What is started: the DASH downloader, or the two media downloaders with the total counts.
  pub data Downloads : Type 0 where
    by_dash : StreamCtx xml → Downloads
    by_media : MediaCtx → ℕ → MediaCtx → ℕ → Downloads

  -- How the callback ends: after it has listed the formats, by an exit without memory, or with a
  -- name of the output and its downloads.
  pub data Outcome : Type 0 where
    listed : InfoCtx tree → Outcome
    out_of_memory : Outcome
    started : Bytes → Downloads → Outcome

  module _ (parse_url : Bytes → Option Url) (read_memory : Bytes → Option (Option xml.Node))
      (print_name : Name → Bytes) (script : Bytes → Option Bytes) (calls : Calls) where
    -- The context for the DASH downloader, from a cleared one.
    unfoldable pub start_dash : Bytes → StreamCtx xml → StreamCtx xml
    start_dash url cleared =
        let ready = (libytdl.Dl.Stream.ctx_init xml calls.client_ok calls.manifest_ok cleared).0 in
        (libytdl.Dl.Stream.ctx_connect xml parse_url read_memory url (record ready {
          has_on_data = true;
          has_on_segment_complete = true;
          has_on_manifest = true;
          on_pick_filter = get_best_representation xml;
        })).0

    unfoldable pub with_dash : Bytes → Bytes → StreamCtx xml → Outcome
    with_dash o_path url cleared =
        if calls.dash_ok then started o_path (by_dash (start_dash url cleared)) else out_of_memory

    module _ (actions : List (Action × ℕ)) where
      -- The format at a place, with its URL in the context.
      unfoldable pub url_at : ℕ → InfoCtx tree → Option (Entry tree × Bytes × InfoCtx tree)
      url_at i info = get_elem? info.formats i >>= λ e.
          get_format_url actions json (members e.val) script e.url e.format >>= λ m. m >>= λ url.
          some (e, url, record info { formats = set info.formats i (record e { url = some url }) })

      -- A media downloader for a format, in memory that holds any values.
      unfoldable pub start_media : Format → Bytes → MediaCtx → MediaCtx
      start_media f url memory =
          let ready =
            (libytdl.Dl.Media.ctx_init parse_url calls.client_ok f.flags.has_aud f.flags.has_vid url
              f.content_length memory).0 in
          libytdl.Dl.Media.ctx_connect (record ready { has_on_data = true; has_on_complete = true })

      -- The second of the two; the memory of its own context is not tested.
      unfoldable pub with_audio :
          Bytes → MediaCtx → ℕ → ℕ → MediaCtx → InfoCtx tree → Option Outcome
      with_audio o_path video total i memory info =
          if calls.aud_m_ok
          then if calls.dl_ctx_a_ok
            then (url_at i info >>= λ (e, url, c). some (
                started o_path (
                  by_media video total (start_media e.format url memory)
                    (e.format.content_length % 2 ^ 32))))
            else none
          else some out_of_memory

      unfoldable pub with_media :
          Bytes → MediaCtx → MediaCtx → ℕ → ℕ → InfoCtx tree → Option Outcome
      with_media o_path vid_memory aud_memory v a info =
          if calls.vid_m_ok
          then if calls.dl_ctx_ok
            then (url_at v info >>= λ (e, url, c).
                with_audio o_path (start_media e.format url vid_memory)
                  (e.format.content_length % 2 ^ 32) a aud_memory c)
            else some out_of_memory
          else some out_of_memory

      -- The formats are found before anything is allocated.
      unfoldable pub find_media : Bytes → MediaCtx → MediaCtx → InfoCtx tree → Option Outcome
      find_media o_path vid_memory aud_memory info = best_video_format tree info >>= λ (v, b).
          get_elem? b.formats v >>= λ vid_fmt. best_audio_format tree b >>= λ (a, c).
          get_elem? c.formats a >>= λ aud_fmt. with_media o_path vid_memory aud_memory v a c

      abbrev pub name_of : Bytes → Bytes → InfoCtx tree → Name
      name_of id title info = record {
        id = id;
        title = sanitize_filename (c_str title);
        length_seconds = info.length_seconds;
        channel_id = info.channel_id;
        average_rating = info.average_rating;
        view_count = info.view_count;
        author = info.author;
      }

      -- The part after the title was copied.
      unfoldable pub start :
          Bytes → StreamCtx xml → MediaCtx → MediaCtx → InfoCtx tree → Option Outcome
      start o_path cleared vid_memory aud_memory info = elim info.dash_manifest_url [
        | some url ↦ some (with_dash o_path url cleared)
        | none ↦ find_media o_path vid_memory aud_memory info
      ]

      -- `ytdl__info_complete`. The results of the two extractions are not looked at.
      unfoldable pub info_complete :
          Bool → Bytes → StreamCtx xml → MediaCtx → MediaCtx → InfoCtx tree → Option Outcome
      info_complete log_formats id cleared vid_memory aud_memory info =
          let read = extract_video_details tree (extract_formats tree info).1 in
          if log_formats
          then (populate_first tree read.formats_size read.formats >>= λ es.
              some (listed (record read { formats = es })))
          else if calls.video_ok
          then (read.title >>= λ title.
              start (print_name (name_of id title read)) cleared vid_memory aud_memory read)
          else some out_of_memory
