-- ===== src/Dl/Queue.antt =====
-- The info downloader of src/dl.c: a queue of videos over one connection. The state is
-- `ytdl_dl_ctx_t`, with the queue's array as the list of its first `len` entries beside `size`, the
-- number of entries that its allocation has room for. `none` is undefined behaviour: a write outside
-- that allocation, a read of the first entry of an empty queue, or the printing of a NULL text. `written` holds what
-- `ytdl_http_client_write` was handed, and `completed` the calls of `on_complete`, in order.
-- Allocations succeed. The callbacks of the user do not call back into the downloader.
pub mod Events
pub mod Response
pub mod Order
pub mod Phase
pub mod Protocol
pub mod Capacity
pub mod Shutdown
pub mod Closed
use libytdl.Base.{
  ℕ, ◌+◌, ◌*◌, ◌/◌, ◌<◌, ◌≡◌, Bool, true, false, not, List, [], ◌∷◌, ◌++◌, Option, none, some,
  if◌then◌else◌, ltb, ◌==◌, length, take, Bytes, Ret, ◌>>=◌,
}
use libytdl.Buffer.{Buf, contents, alloc, append}
use libytdl.Net.Request.{request_watch_html, request_player_js, id_size}

-- What the downloader uses of the extraction of a watch page and of a player script, and of the hash
-- map from player paths to the actions found.
pub record Services : Type 1 where
  pub Info : Type 0
  pub extract_watch_html : Bytes → Option Info
  pub is_playable : Info → Bool
  -- The message for a video that is not playable, or NULL.
  pub status_message : Info → Option Bytes
  pub player_url : Info → Bytes
  pub SigActions : Type 0
  pub sig_actions_extract : Bytes → Option SigActions
  pub Players : Type 0
  pub no_players : Players
  pub hashmap_get : Players → Bytes → Option SigActions
  pub hashmap_put : Players → Bytes → SigActions → Option Players

pub data BodyHandler : Type 0 where
  watch_body player_body : BodyHandler

pub data CompleteHandler : Type 0 where
  watch_html_complete player_js_complete : CompleteHandler

module _ (env : Services) where
  open env use {
    Info, extract_watch_html, is_playable, status_message, player_url, SigActions,
    sig_actions_extract, Players, no_players, hashmap_get, hashmap_put,
  }

  -- `ytdl_dl_video_t`; `info` is empty until its page has been read.
  pub record Video : Type 0 where
    pub id : Bytes
    pub info : Option Info
    pub response : Buf
    -- The number that stands for the user's callback.
    pub on_complete : ℕ

  pub record Completion : Type 0 where
    pub video : Video
    pub sig_actions : SigActions

  pub record DlCtx : Type 0 where
    pub videos : List Video
    pub size : ℕ
    pub player_js : Buf
    pub player_map : Players
    pub is_connected : Bool
    pub is_idle : Bool
    pub on_body : BodyHandler
    pub on_message_complete : CompleteHandler
    pub written : List Bytes
    pub completed : List Completion

  -- `ytdl_dl_ctx_init`.
  unfoldable pub init : DlCtx
  init = record {
    videos = [];
    size = 1;
    player_js = alloc true 1;
    player_map = no_players;
    is_connected = false;
    is_idle = false;
    on_body = watch_body;
    on_message_complete = watch_html_complete;
    written = [];
    completed = [];
  }

  abbrev pub write : Buf → DlCtx → DlCtx
  write buf ctx = record ctx { written = ctx.written ++ contents buf ∷ [] }

  -- The rest of `ytdl__dl_wake`, when the context is idle.
  unfoldable pub start_first : List Video → DlCtx → DlCtx
  start_first [] ctx = ctx
  start_first (vid ∷ rest) ctx = write (request_watch_html true vid.id) (record ctx {
    on_body = watch_body;
    on_message_complete = watch_html_complete;
    is_idle = false;
  })

  -- `ytdl__dl_wake`.
  unfoldable pub wake : DlCtx → DlCtx
  wake ctx = if not ctx.is_idle then ctx else start_first ctx.videos ctx

  unfoldable pub finalize_first : List Video → SigActions → DlCtx → Option DlCtx
  finalize_first [] player ctx = none
  finalize_first (vid ∷ rest) player ctx = some (
      wake (record ctx {
        completed = ctx.completed ++ record { video = vid; sig_actions = player } ∷ [];
        videos = rest;
        is_idle = true;
      }))

  -- `ytdl__dl_finalize`.
  unfoldable pub finalize : SigActions → DlCtx → Option DlCtx
  finalize player ctx = finalize_first ctx.videos player ctx

  abbrev pub url_of : Option Info → Bytes
  url_of none = []
  url_of (some info) = player_url info

  -- The part of `ytdl__player_js_complete` after the actions were found.
  unfoldable pub store_player : Bytes → SigActions → DlCtx → Option DlCtx
  store_player url player ctx = elim (hashmap_put ctx.player_map url player) [
    | none ↦ some ctx
    | some players ↦
        finalize player
          (record ctx { player_map = players; player_js = record ctx.player_js { len = 0 } })
  ]

  unfoldable pub player_js_first : List Video → DlCtx → Option DlCtx
  player_js_first [] ctx = none
  player_js_first (vid ∷ rest) ctx =
      elim (sig_actions_extract (take ctx.player_js.len (contents ctx.player_js))) [
        | none ↦ some ctx
        | some player ↦ store_player (url_of vid.info) player ctx
      ]

  -- `ytdl__player_js_complete`.
  unfoldable pub player_js_complete_cb : DlCtx → Option DlCtx
  player_js_complete_cb ctx = player_js_first ctx.videos ctx

  abbrev pub with_info : Info → Video → Video
  with_info info vid = record vid { info = some info }

  -- The part of `ytdl__watch_html_complete` after the page was read and may be played.
  unfoldable pub need_player : Bytes → DlCtx → Option DlCtx
  need_player url ctx = elim (hashmap_get ctx.player_map url) [
    | some player ↦ finalize player ctx
    | none ↦ some (
        write (request_player_js true url)
          (record ctx { on_body = player_body; on_message_complete = player_js_complete }))
  ]

  unfoldable pub watch_html_first : List Video → DlCtx → Option DlCtx
  watch_html_first [] ctx = none
  watch_html_first (vid ∷ rest) ctx =
      elim (extract_watch_html (take vid.response.len (contents vid.response))) [
        | none ↦ some ctx
        | some info ↦
            let read = record ctx { videos = with_info info vid ∷ rest } in
            if is_playable info
            then need_player (player_url info) read
            else status_message info >>= λ text. some read
      ]

  -- `ytdl__watch_html_complete`.
  unfoldable pub watch_html_complete_cb : DlCtx → Option DlCtx
  watch_html_complete_cb ctx = watch_html_first ctx.videos ctx

  -- The parser's call of `on_message_complete`.
  unfoldable pub call_on_complete : CompleteHandler → DlCtx → Option DlCtx
  call_on_complete watch_html_complete ctx = watch_html_complete_cb ctx
  call_on_complete player_js_complete ctx = player_js_complete_cb ctx

  unfoldable pub message_complete : DlCtx → Option DlCtx
  message_complete ctx = call_on_complete ctx.on_message_complete ctx

  -- `ytdl__watch_body_cb`.
  unfoldable pub watch_body_first : List Video → Bytes → DlCtx → Option DlCtx
  watch_body_first [] at ctx = none
  watch_body_first (vid ∷ rest) at ctx =
      some (record ctx { videos = record vid { response = append at vid.response } ∷ rest })

  -- `yt__player_body_cb`.
  unfoldable pub player_body_cb : Bytes → DlCtx → DlCtx
  player_body_cb at ctx = record ctx { player_js = append at ctx.player_js }

  -- The parser's call of `on_body`.
  unfoldable pub call_on_body : BodyHandler → Bytes → DlCtx → Option DlCtx
  call_on_body watch_body at ctx = watch_body_first ctx.videos at ctx
  call_on_body player_body at ctx = some (player_body_cb at ctx)

  unfoldable pub body : Bytes → DlCtx → Option DlCtx
  body at ctx = call_on_body ctx.on_body at ctx

  -- The size of the queue's array after `size *= 1.5`, if it is full.
  unfoldable pub grown : DlCtx → ℕ
  grown ctx = if ctx.size == length ctx.videos then ctx.size * 3 / 2 else ctx.size

  -- `ytdl_dl_get_info`: the new entry is written behind the last.
  unfoldable pub get_info : Bytes → ℕ → DlCtx → Option DlCtx
  get_info id on_complete ctx =
      if ltb (length ctx.videos) (grown ctx)
      then some (
          wake (record ctx {
            size = grown ctx;
            videos =
                ctx.videos
                ++ record {
                  id = take id_size id;
                  info = none;
                  response = alloc true 1;
                  on_complete = on_complete;
                }
                  ∷ [];
          }))
      else none

  -- `ytdl__connected_cb`.
  unfoldable pub connected_cb : DlCtx → DlCtx
  connected_cb ctx = wake (record ctx { is_connected = true; is_idle = true })
