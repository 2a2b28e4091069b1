-- ===== src/Net/VideoId.antt =====
-- The video id of a URL, and the URL of a video id, in src/net.c. The parser of URLs is a parameter:
-- what it returns, or nothing for an error. The table of id characters is read at a `char`, which is
-- taken to be signed, so that a byte from 128 on is a read outside of it.
pub mod Safe
pub mod Ids
pub mod Watch
use libytdl.Base.{
  ℕ, zero, suc, ◌+◌, ◌-◌, ◌≤◌, Bool, true, false, not, ◌&&◌, ◌||◌, List, [], ◌∷◌, ◌++◌, map, Option,
  none, some, if◌then◌else◌, ◌==◌, ltb, leb, ◌>>=◌, length, get_elem?, take, drop, Bytes, codes,
  concat, c_str, strncmp_eq,
}
use libytdl.Net.Request.{id_len}
use libytdl.Net.Url.{Field, Url}

abbrev pub yt_hosts : List Bytes
yt_hosts =
    codes "youtube.com"
    ∷ codes "www.youtube.com"
    ∷ codes "youtu.be"
    ∷ codes "m.youtube.com"
    ∷ codes "music.youtube.com"
    ∷ codes "gaming.youtube.com"
    ∷ []

-- The table's first half; the second holds zeros, and is not read.
abbrev pub yt_valid_id_map : List Bool
yt_valid_id_map =
    map (λ c. c == b'1')
      (codes "0000000000000000"
        ++ (codes "0000000000000000"
            ++ (codes "0000000000000100"
                ++ (codes "1111111111000000"
                    ++ (codes "0111111111111111"
                        ++ (codes "1111111111100001"
                            ++ (codes "0111111111111111" ++ codes "1111111111100000")))))))

-- `ytdl_sanitize_filename_inplace`: the bytes up to the NUL.
unfoldable pub sanitize_filename : Bytes → Bytes
sanitize_filename [] = []
sanitize_filename (c ∷ s) =
    if c == 0 then c ∷ s else (if c == b'/' then b'_' else c) ∷ sanitize_filename s

-- `ytdl_net_get_watch_url`.
unfoldable pub get_watch_url : Bytes → Bytes
get_watch_url id = codes "https://www.youtube.com/watch?v=" ++ c_str id

-- One byte behind a pointer.
unfoldable pub byte_at : ℕ → Bytes → Option ℕ
byte_at i buf = get_elem? buf i

-- The test of `n` characters.
unfoldable pub are_valid : ℕ → Bytes → Option Bool
are_valid zero s = some true
are_valid (suc n) [] = none
are_valid (suc n) (c ∷ s) =
    get_elem? yt_valid_id_map c >>= λ b. if b then are_valid n s else some false

-- `memcpy` of an id.
unfoldable pub copy_id : Bytes → Option Bytes
copy_id s = if leb id_len (length s) then some (take id_len s) else none

-- What the function returns: -1, 1, or 0 with an id.
pub data Found : Type 0 where
  parse_error : Found
  not_found : Found
  found : Bytes → Found

-- The loop over the hosts.
unfoldable pub is_host : List Bytes → Bytes → ℕ → Option Bool
is_host [] s n = some false
is_host (host ∷ more) s n =
    strncmp_eq n s (host ++ 0 ∷ []) >>= λ b. if b then some true else is_host more s n

-- An id at a place, if its characters are valid, and nothing else is tried.
unfoldable pub id_at : Bytes → Option Found
id_at s =
    are_valid id_len s >>= λ b. if b then (copy_id s >>= λ id. some (found id)) else some not_found

-- Whether a text starts with `v=`; the second byte is read if the first is a `v`.
unfoldable pub is_v : Bytes → Option Bool
is_v s =
    byte_at 0 s >>= λ c. if c == b'v' then (byte_at 1 s >>= λ d. some (d == b'=')) else some false

-- The search in the query, with the number of places that are left.
unfoldable pub search_query : ℕ → Bytes → Option Found
search_query zero s = some not_found
search_query (suc n) s =
    let rest = search_query n (drop 1 s) in is_v s >>= λ b. if b then id_at (drop 2 s) else rest

unfoldable pub from_query : Bytes → Field → Option Found
from_query buf query =
    let s = drop query.off buf in
    if leb (id_len + 2) query.len
    then (is_v s >>= λ b. if b then id_at (drop 2 s) else search_query (query.len - id_len) s)
    else some not_found

-- The last characters of the path; the first ones are tested.
unfoldable pub path_tail : Bytes → Url → Option Found
path_tail buf u = are_valid id_len (drop (suc u.path.off) buf) >>= λ b.
    if b
    then (copy_id (drop (u.path.off + u.path.len - id_len) buf) >>= λ id. some (found id))
    else from_query buf u.query

unfoldable pub from_path : Bytes → Url → Option Found
from_path buf u =
    if leb (id_len + 1) u.path.len
    then (byte_at (u.path.off + u.path.len - id_len - 1) buf >>= λ c.
        if c == b'/' then path_tail buf u else from_query buf u.query)
    else from_query buf u.query

-- What follows the parser.
unfoldable pub with_url : Bytes → Option Url → Option Found
with_url buf none = some parse_error
with_url buf (some u) = is_host yt_hosts (drop u.host.off buf) u.host.len >>= λ b.
    if b then from_path buf u else some not_found

-- `ytdl_net_get_id_from_url`; `url_buf` is all that may be read.
unfoldable pub get_id_from_url : (Bytes → ℕ → Option Url) → Bytes → ℕ → Option Found
get_id_from_url parse url_buf url_len = with_url url_buf (parse url_buf url_len)
