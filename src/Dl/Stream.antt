-- ===== src/Dl/Stream.antt =====
-- The DASH downloader of src/dl.c, `ytdl_dl_dash_ctx_t`: it reads a manifest, then requests the
-- segments of one of its tracks over one connection. A callback of the user is a flag, whether it is
-- set, and an entry in `calls` when it is made; `on_complete` is always set, as the code calls it
-- without a test. `written` holds what `ytdl_http_client_write` was handed. libxml and the URL
-- parser are parameters; allocations succeed. `none` is a read through NULL.
pub mod Session
pub mod Fork
use libytdl.Base.{
  Bool, true, false, not, List, [], ◌∷◌, ◌++◌, Option, none, some, if◌then◌else◌, take, drop,
  length, Bytes, c_str, Ret, ret_0, ret_1, ret_minus_1, ◌>>=◌,
}
use libytdl.Buffer.{Buf, contents, alloc, realloc, append}
use libytdl.Net.Request.{Slice, request_segment, request_generic}
use libytdl.Net.Url.{Url, Field}
use libytdl.Dash.{Xml, Track, DashCtx, Filter, init}
use libytdl.Dash.Format.{get_format}
use libytdl.Dash.Segments.{next_video_segment, next_audio_segment}

pub data BodyHandler : Type 0 where
  no_body manifest_body echo_body : BodyHandler

pub data MessageHandler : Type 0 where
  no_message manifest_complete segment_complete : MessageHandler

-- A call of a callback of the user, or of the HTTP client's life cycle.
pub data Call : Type 0 where
  on_data : Bytes → Call
  on_segment_complete on_complete on_manifest on_close : Call
  connect : Bytes → Call
  client_shutdown client_init : Call

module _ (xml : Xml) where
  pub record StreamCtx : Type 0 where
    pub manifest : Buf
    pub has_on_data : Bool
    pub has_on_segment_complete : Bool
    pub has_on_manifest : Bool
    pub on_pick_filter : Filter xml
    pub dash : DashCtx xml
    pub manifest_path : Bytes
    pub manifest_host : Bytes
    pub host : Bytes
    pub path : Bytes
    pub is_shutdown : Bool
    pub is_dash_init : Bool
    pub is_video : Bool
    pub pause_between_chunks : Bool
    pub on_body : BodyHandler
    pub on_message_complete : MessageHandler
    pub written : List Bytes
    pub calls : List Call

  abbrev pub call : Call → StreamCtx → StreamCtx
  call c ctx = record ctx { calls = ctx.calls ++ c ∷ [] }

  abbrev pub call_if : Bool → Call → StreamCtx → StreamCtx
  call_if present c ctx = if present then call c ctx else ctx

  abbrev pub write : Buf → StreamCtx → StreamCtx
  write buf ctx = record ctx { written = ctx.written ++ contents buf ∷ [] }

  -- A copy that was made with its length.
  abbrev pub whole : Bytes → Slice
  whole s = record { bytes = s; size = length s }

  abbrev pub run_of : Bytes → Field → Bytes
  run_of s f = take f.len (drop f.off s)

  -- `ytdl__dash_echo_cb`.
  unfoldable pub echo_cb : Bytes → StreamCtx → StreamCtx
  echo_cb at ctx = call_if ctx.has_on_data (on_data at) ctx

  -- `ytdl__dash_manifest_cb`.
  unfoldable pub manifest_cb : Bytes → StreamCtx → StreamCtx
  manifest_cb at ctx = record ctx { manifest = append at ctx.manifest }

  abbrev pub segment_request : StreamCtx → Bytes → Buf
  segment_request ctx segment =
      request_segment true (whole ctx.path) (whole segment) (whole ctx.host)

  -- The request for the segment that the iterator gave, or the end.
  unfoldable pub proceed : Option Bytes × DashCtx xml → StreamCtx → StreamCtx
  proceed (some segment, d) ctx = write (segment_request ctx segment) (record ctx { dash = d })
  proceed (none, d) ctx = call on_complete (record ctx { dash = d })

  -- `ytdl_dl_dash_ctx_next_chunk`.
  unfoldable pub next_chunk : StreamCtx → StreamCtx
  next_chunk ctx =
      proceed
        (if ctx.is_video then next_video_segment xml ctx.dash else next_audio_segment xml ctx.dash)
        ctx

  -- `ytdl__dash_segment_complete_cb`.
  unfoldable pub segment_complete_cb : StreamCtx → StreamCtx
  segment_complete_cb ctx =
      let notified = call_if ctx.has_on_segment_complete on_segment_complete ctx in
      if not ctx.pause_between_chunks then next_chunk notified else notified

  -- `ytdl__dash_segment_connected_cb`.
  unfoldable pub segment_connected_cb : StreamCtx → StreamCtx
  segment_connected_cb ctx =
      next_chunk (record ctx { on_body = echo_body; on_message_complete = segment_complete })

  -- `ytdl__dash_manifest_complete_cb`.
  unfoldable pub manifest_complete_cb : StreamCtx → StreamCtx
  manifest_complete_cb ctx = call client_shutdown (record ctx { is_shutdown = true })

  -- The parser's calls of `on_body` and `on_message_complete`.
  unfoldable pub body : Bytes → StreamCtx → StreamCtx
  body at ctx = elim ctx.on_body [
    | no_body ↦ ctx
    | manifest_body ↦ manifest_cb at ctx
    | echo_body ↦ echo_cb at ctx
  ]

  unfoldable pub message_complete : StreamCtx → StreamCtx
  message_complete ctx = elim ctx.on_message_complete [
    | no_message ↦ ctx
    | manifest_complete ↦ manifest_complete_cb ctx
    | segment_complete ↦ segment_complete_cb ctx
  ]

  -- `ytdl__dash_manifest_connected_cb`.
  unfoldable pub manifest_connected_cb : StreamCtx → StreamCtx
  manifest_connected_cb ctx =
      write (request_generic true (whole ctx.manifest_path) (whole ctx.manifest_host)) ctx

  -- `ytdl_dl_dash_ctx_init` on a cleared context; the arguments are the successes of the client's
  -- initialisation and of the allocation. The code returned is 0 or 1.
  unfoldable pub ctx_init : Bool → Bool → StreamCtx → StreamCtx × Ret
  ctx_init client_ok m ctx = if not client_ok then (ctx, ret_1) else (
    record ctx {
      on_body = manifest_body;
      on_message_complete = manifest_complete;
      pause_between_chunks = false;
      manifest = alloc m 1;
    },
    if m then ret_0 else ret_1,
  )

  module _ (parse_url : Bytes → Option Url) (read_memory : Bytes → Option (Option xml.Node)) where
    -- `ytdl_dl_dash_ctx_connect`.
    unfoldable pub ctx_connect : Bytes → StreamCtx → StreamCtx × Ret
    ctx_connect manifest_url ctx = elim (parse_url manifest_url) [
      | none ↦ (ctx, ret_minus_1)
      | some u ↦ (
        call (connect (c_str (run_of manifest_url u.host))) (record ctx {
          manifest_host = run_of manifest_url u.host;
          manifest_path = run_of manifest_url u.path;
        }),
        ret_0,
      )
    ]

    -- The part of `ytdl_dl_dash_load_fork` from the base URL on; the URL of a manifest without one
    -- is NULL.
    unfoldable pub connect_base : Option Bytes → StreamCtx → Option StreamCtx
    connect_base none ctx = none
    connect_base (some u) ctx = some (elim (parse_url u) [
      | none ↦ ctx
      | some url ↦
          call (connect (c_str (run_of u url.host)))
            (record ctx { host = run_of u url.host; path = run_of u url.path })
    ])

    abbrev pub base_url_of : Bool → DashCtx xml → Option Bytes
    base_url_of is_video d = if is_video then d.video.base_url else d.audio.base_url

    -- The result of `ytdl_dash_get_format` is not looked at.
    abbrev pub load_format : StreamCtx → Ret × DashCtx xml → Option StreamCtx
    load_format ctx (ret, d) =
        connect_base (base_url_of ctx.is_video d) (record ctx { dash = d; is_dash_init = true })

    -- `ytdl_dl_dash_load_fork`.
    unfoldable pub load_fork : StreamCtx → Option StreamCtx
    load_fork ctx =
        get_format xml ctx.on_pick_filter
          (init xml (read_memory (take ctx.manifest.len (contents ctx.manifest)))).1
        >>= load_format ctx

    -- `ytdl__dash_close_cb`, when the first connection is closed: the parser's settings are cleared.
    unfoldable pub close_cb : StreamCtx → Option StreamCtx
    close_cb ctx = load_fork (
        call_if ctx.has_on_manifest on_manifest (
          call client_init (record ctx {
            is_shutdown = false;
            on_body = no_body;
            on_message_complete = no_message;
          })))

  -- `ytdl_dl_dash_ctx_fork`, which copies all but the connection, the parsed manifest, the track's
  -- address and the pause.
  unfoldable pub fork : StreamCtx → StreamCtx → StreamCtx
  fork ctx to = record to {
    manifest = record (realloc true to.manifest ctx.manifest.size) {
      base = some (take ctx.manifest.len (contents ctx.manifest));
      len = ctx.manifest.len;
    };
    has_on_data = ctx.has_on_data;
    has_on_segment_complete = ctx.has_on_segment_complete;
    has_on_manifest = ctx.has_on_manifest;
    on_pick_filter = ctx.on_pick_filter;
    manifest_path = c_str ctx.manifest_path;
    manifest_host = c_str ctx.manifest_host;
    is_shutdown = ctx.is_shutdown;
    is_dash_init = ctx.is_dash_init;
    is_video = ctx.is_video;
  }

  -- `ytdl_dl_dash_shutdown` and what the event loop runs for it: `ytdl__dl_dash_shutdown`, and
  -- `ytdl__dash_close_f_cb` where the client was not shut down before.
  unfoldable pub shutdown : StreamCtx → StreamCtx
  shutdown ctx =
      let freed = record ctx { manifest = record ctx.manifest { base = none } } in
      if not ctx.is_shutdown then call on_close (call client_shutdown freed) else freed
