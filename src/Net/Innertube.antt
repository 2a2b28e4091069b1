-- ===== src/Net/Innertube.antt =====
-- The player requests whose buffers have a fixed size, and the innertube request.
use libytdl.Base.{
  ℕ, ◌+◌, ◌%◌, ◌^◌, ap, ◌∙◌, lt→ltb, ◌≤◌, ◌≡◌, refl, true, ◌++◌, arith, length, Bytes, codes, NoNul,
  no_nul, no_nul-NoNul, concat-NoNul, length-concat, snprintf_bound, c_str, c_str-NoNul,
}
use libytdl.Net.Request.{
  print_into, player_js_text, request_player_js, watch_html_text, request_watch_html,
  innertube_body, innertube_head, innertube_content_len, size_of_int, request_innertube_player,
  youtube_host, agent_line, accept_end, max_player_path, id_len,
}
use libytdl.Net.Bounds.{Holds, print_into-Holds, user_agent-NoNul, length-user_agent}

player_js_text-NoNul : (p : Bytes) → NoNul (player_js_text p)
unfolding player_js_text no_nul
player_js_text-NoNul p = concat-NoNul _ (
  no_nul-NoNul (codes "GET ") refl,
  (
    c_str-NoNul p,
    (
      no_nul-NoNul youtube_host refl,
      (no_nul-NoNul agent_line refl, (user_agent-NoNul, (no_nul-NoNul accept_end refl, tt))),
    ),
  ),
)

length-player_js_text : (p : Bytes) → length (player_js_text p) ≡ 205 + length (c_str p)
unfolding player_js_text
length-player_js_text p = rw length-concat (omega (arith, length-user_agent))

request_player_js-Holds :
    (path : Bytes)
    → length (c_str path) ≤ max_player_path
    → Holds (request_player_js true path) (player_js_text path)
unfolding request_player_js
request_player_js-Holds path h =
    print_into-Holds _ _ (player_js_text-NoNul path) (omega (arith, length-player_js_text path))

watch_html_text-NoNul : (id : Bytes) → NoNul (watch_html_text id)
unfolding watch_html_text no_nul
watch_html_text-NoNul id = concat-NoNul _ (
  no_nul-NoNul (codes "GET /watch?v=") refl,
  (
    c_str-NoNul id,
    (
      no_nul-NoNul (codes "&bpctr=9999999999&has_verified=1") refl,
      (
        no_nul-NoNul youtube_host refl,
        (no_nul-NoNul agent_line refl, (user_agent-NoNul, (no_nul-NoNul accept_end refl, tt))),
      ),
    ),
  ),
)

length-watch_html_text : (id : Bytes) → length (watch_html_text id) ≡ 246 + length (c_str id)
unfolding watch_html_text
length-watch_html_text id = rw length-concat (omega (arith, length-user_agent))

request_watch_html-Holds :
    (id : Bytes)
    → length (c_str id) ≤ id_len
    → Holds (request_watch_html true id) (watch_html_text id)
unfolding request_watch_html
request_watch_html-Holds id h =
    print_into-Holds _ _ (watch_html_text-NoNul id) (omega (arith, length-watch_html_text id))

-- The player script's request is whole for every path of up to YTDL_DL_MAX_PLAYER_PATH bytes, and the
-- watch page's for every video id of up to eleven bytes.
pub page_requests-Hold :
    (path id : Bytes)
    → length (c_str path) ≤ max_player_path
    → length (c_str id) ≤ id_len
    → Holds (request_player_js true path) (player_js_text path)
      × Holds (request_watch_html true id) (watch_html_text id)
page_requests-Hold path id h k = (request_player_js-Holds path h, request_watch_html-Holds id k)

length-innertube_body :
    (id cver : Bytes)
    → length (innertube_body id cver) ≡ 75 + length (c_str id) + length (c_str cver)
unfolding innertube_body
length-innertube_body id cver = rw length-concat (omega arith)

length-innertube_head : (n : ℕ) → 318 ≤ length (innertube_head n)
unfolding innertube_head
length-innertube_head n = rw length-concat (omega (arith, length-user_agent))

-- For an id of eleven bytes and a client version of at most 2^30 bytes: the declared Content-Length is
-- the length of the JSON body, but the buffer is too small, so that what is sent ends at least nineteen
-- bytes before the body's end.
pub request_innertube_player_cut :
    (id cver : Bytes)
    → length (c_str id) ≡ id_len
    → length (c_str cver) ≤ 2 ^ 30
    → (length (innertube_body id cver) ≡ innertube_content_len cver)
      × ((request_innertube_player true id cver).len + 19
          ≤ length (innertube_head (innertube_content_len cver)) + length (innertube_body id cver))
unfolding request_innertube_player print_into
request_innertube_player_cut id cver h l =
    let n : ℕ = innertube_content_len cver in
    let body : length (innertube_body id cver) ≡ n =
      omega (arith, length-innertube_body id cver, h, l) in
    let whole : (300 + n) % 2 ^ 32 ≡ 300 + n = omega (arith, l) in
    let size : size_of_int ((300 + n) % 2 ^ 32) ≡ 300 + n =
      ap size_of_int whole ∙ rw (lt→ltb (300 + n) (2 ^ 31) (omega (arith, l))) refl in
    (
      body,
      omega (
        arith,
        size,
        body,
        snprintf_bound (size_of_int ((300 + n) % 2 ^ 32))
            (innertube_head n ++ innertube_body id cver),
        length-innertube_head n,
      ),
    )
