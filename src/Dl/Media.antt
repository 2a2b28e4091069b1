-- ===== src/Dl/Media.antt =====
-- The media downloader of src/dl.c, in chunks or in one request, with its redirects. The state is
-- `ytdl_dl_media_ctx_t`. A callback of the user is a flag, whether it is set, and an entry in
-- `calls` when it is made; `written` holds what `ytdl_http_client_write` was handed, in order.
-- The URL parser is a parameter, and so is the success of `malloc` in a request builder.
pub mod Ranges
pub mod LastRange
use libytdl.Base.{
  ℕ, ◌+◌, ◌%◌, ◌^◌, Bool, true, false, ◌&&◌, ◌||◌, not, List, [], ◌∷◌, ◌++◌, Option, none, some,
  if◌then◌else◌, leb, ◌==◌, length, take, drop, Bytes, codes, c_str, Ret, ret_0, ret_1, ret_minus_1,
}
use libytdl.Buffer.{Buf, contents}
use libytdl.Net.Request.{Slice, request_media_chunk, request_media}
use libytdl.Net.Url.{Url, empty_url, field_slice}

-- YTDL_DL_CHUNK_SIZE.
abbrev pub chunk_size : ℕ
chunk_size = 131_072

-- The handler in `parser_settings.on_message_complete`.
pub data MessageHandler : Type 0 where
  chunk_complete chunk_final_complete : MessageHandler

-- A call of a callback of the user, or of the HTTP client's life cycle.
pub data Call : Type 0 where
  on_data : Bytes → Call
  on_chunk_complete on_complete on_close : Call
  connect : Bytes → Call
  client_shutdown client_init : Call

pub record MediaCtx : Type 0 where
  pub url : Url
  pub format_url : Bytes
  -- A `long long`, as its 64-bit pattern.
  pub format_content_length : ℕ
  pub has_on_data : Bool
  pub has_on_complete : Bool
  pub has_on_chunk_complete : Bool
  pub pause_between_chunks : Bool
  pub is_chunked : Bool
  pub want_redirect : Bool
  pub redirect_was_location : Bool
  pub last_chunk_end : ℕ
  pub on_message_complete : MessageHandler
  pub on_header_field : Bool
  pub on_header_value : Bool
  pub written : List Bytes
  pub calls : List Call

unfoldable pub call : Call → MediaCtx → MediaCtx
call c ctx = record ctx { calls = ctx.calls ++ c ∷ [] }

pub call_if : Bool → Call → MediaCtx → MediaCtx
unfolding call
call_if present c ctx = if present then call c ctx else ctx

-- `ytdl_http_client_write`, which copies the bytes.
pub write : Buf → MediaCtx → MediaCtx
write buf ctx = record ctx { written = ctx.written ++ contents buf ∷ [] }

-- The request for a range of the format, as both builders' callers make it.
pub chunk_request : Bool → MediaCtx → ℕ → ℕ → Buf
chunk_request m ctx =
    request_media_chunk m (field_slice ctx.format_url ctx.url.path)
      (field_slice ctx.format_url ctx.url.query) (field_slice ctx.format_url ctx.url.host)

-- `ytdl_dl_media_ctx_next_chunk`: the sum is in `size_t`, and the comparison is unsigned.
pub next_chunk : Bool → MediaCtx → MediaCtx
unfolding write
next_chunk m ctx =
    if leb ctx.format_content_length ((ctx.last_chunk_end + chunk_size) % 2 ^ 64)
    then write (chunk_request m ctx ((ctx.last_chunk_end + 1) % 2 ^ 64) 0)
        (record ctx { on_message_complete = chunk_final_complete })
    else write
        (chunk_request m ctx ((ctx.last_chunk_end + 1) % 2 ^ 64)
          ((ctx.last_chunk_end + chunk_size) % 2 ^ 64))
        (record ctx { last_chunk_end = (ctx.last_chunk_end + chunk_size) % 2 ^ 64 })

-- `ytdl__media_chunk_complete_cb`.
pub chunk_complete_cb : Bool → MediaCtx → MediaCtx
unfolding call_if
chunk_complete_cb m ctx =
    if ctx.is_chunked
    then (let notified = call_if ctx.has_on_chunk_complete on_chunk_complete ctx in
        if not ctx.pause_between_chunks then next_chunk m notified else notified)
    else call_if ctx.has_on_complete on_complete ctx

-- `ytdl__media_chunk_final_complete_cb`.
pub chunk_final_complete_cb : MediaCtx → MediaCtx
unfolding call_if
chunk_final_complete_cb ctx = call_if ctx.has_on_complete on_complete ctx

-- The parser's call of `on_message_complete`, when a response has been read.
pub message_complete : Bool → MediaCtx → MediaCtx
message_complete m ctx = elim ctx.on_message_complete [
  | chunk_complete ↦ chunk_complete_cb m ctx
  | chunk_final_complete ↦ chunk_final_complete_cb ctx
]

-- `ytdl__media_echo_cb`.
pub echo_cb : Bytes → MediaCtx → MediaCtx
echo_cb at ctx = call_if ctx.has_on_data (on_data at) ctx

-- `ytdl__media_connected_cb`: the first comparison is signed, an `int` with a `long long`.
pub connected_cb : Bool → MediaCtx → MediaCtx
unfolding write
connected_cb m ctx =
    if ctx.is_chunked
    then if leb ctx.format_content_length chunk_size || leb (2 ^ 63) ctx.format_content_length
      then write (chunk_request m ctx 0 0)
          (record ctx { on_message_complete = chunk_final_complete })
      else write (chunk_request m ctx 0 chunk_size) (record ctx { last_chunk_end = chunk_size })
    else write
        (request_media m (field_slice ctx.format_url ctx.url.path)
          (field_slice ctx.format_url ctx.url.query) (field_slice ctx.format_url ctx.url.host))
        ctx

-- A text without its case, as `strncasecmp` compares.
abbrev to_lower : ℕ → ℕ
to_lower c = if leb b'A' c && leb c b'Z' then c + 32 else c

-- `!strncasecmp(at, name, length)` for the `length` bytes of `at`: so `at` may be shorter.
pub field_matches : Bytes → Bytes → Bool
field_matches [] name = true
field_matches (c ∷ at) [] = false
field_matches (c ∷ at) (d ∷ name) = to_lower c == to_lower d && field_matches at name

-- `ytdl__media_header_field_cb`.
pub header_field_cb : Bytes → MediaCtx → MediaCtx
unfolding field_matches
header_field_cb at ctx =
    if ctx.want_redirect && field_matches at (codes "location")
    then record ctx { redirect_was_location = true; on_header_value = true }
    else ctx

-- `ytdl__media_header_value_cb`.
pub header_value_cb : Bytes → MediaCtx → MediaCtx
unfolding call
header_value_cb at ctx =
    if ctx.redirect_was_location
    then call client_shutdown (record ctx {
      format_url = at;
      on_header_field = false;
      on_header_value = false;
      want_redirect = false;
      redirect_was_location = false;
    })
    else ctx

-- The parser calls a header callback that is set.
pub header : Bytes → Bytes → MediaCtx → MediaCtx
header field value ctx =
    let seen = if ctx.on_header_field then header_field_cb field ctx else ctx in
    if seen.on_header_value then header_value_cb value seen else seen

-- `ytdl__media_status_cb`, with the value that it returns to the parser.
pub status_cb : ℕ → MediaCtx → MediaCtx × ℕ
status_cb status_code ctx =
    if status_code == 301 || status_code == 302
    then (record ctx { want_redirect = true; on_header_field = true }, 0)
    else if not (status_code == 200)
    then (ctx, 1)
    else (ctx, 0)

-- `ytdl_dl_media_ctx_connect`: the host is copied and read as a C string.
unfoldable pub ctx_connect : MediaCtx → MediaCtx
unfolding call
ctx_connect ctx =
    call (connect (c_str (take ctx.url.host.len (drop ctx.url.host.off ctx.format_url)))) ctx

-- What `ytdl_http_client_init` and the lines after it set in the parser's settings.
abbrev reset_handlers : MediaCtx → MediaCtx
reset_handlers ctx = record ctx {
  on_message_complete = chunk_complete;
  on_header_field = false;
  on_header_value = false;
}

module _ (parse_url : Bytes → Option Url) where
  -- `ytdl__media_close_redirect_cb`; the first argument is the client's successful initialisation.
  pub close_redirect_cb : Bool → MediaCtx → MediaCtx
  unfolding call
  close_redirect_cb client_ok ctx =
      let cleared = call client_init (record ctx { url = empty_url }) in
      if client_ok
      then elim (parse_url (c_str ctx.format_url)) [
        | none ↦ reset_handlers cleared
        | some u ↦ ctx_connect (record (reset_handlers cleared) { url = u })
      ]
      else cleared

  -- `ytdl_dl_media_ctx_init` on a context that holds any values, for a format with the given flags,
  -- deciphered URL and content length. The code that is returned is 0, 1 or -1.
  unfoldable pub ctx_init : Bool → Bool → Bool → Bytes → ℕ → MediaCtx → MediaCtx × Ret
  unfolding call
  ctx_init client_ok has_aud has_vid format_url content_length ctx =
      let opened = record (reset_handlers (call client_init ctx)) {
        is_chunked = not has_aud || not has_vid;
        pause_between_chunks = false;
        url = empty_url;
        format_url = c_str format_url;
        format_content_length = content_length;
      } in
      if client_ok
      then elim (parse_url (c_str format_url)) [
        | none ↦ (opened, ret_minus_1)
        | some u ↦ (record opened { url = u }, ret_0)
      ]
      else (call client_init ctx, ret_1)

-- `ytdl_dl_media_shutdown` and what the event loop runs for it: `ytdl__dl_media_shutdown` shuts the
-- client down and frees the URL, and `ytdl__media_close_cb` calls `on_close`.
pub shutdown : MediaCtx → MediaCtx
unfolding call
shutdown ctx = call on_close (record (call client_shutdown ctx) { format_url = [] })
