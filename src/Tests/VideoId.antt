-- ===== src/Tests/VideoId.antt =====
-- Ids of a few URLs.
use libytdl.Base.{
  ℕ, Bool, true, ◌&&◌, ltb, ◌≡◌, refl, arith, Option, some, none, [], ◌∷◌, ◌++◌, Bytes, codes,
  strncmp_eq, Returns,
}
use libytdl.Net.Url.{Url, no_field}
use libytdl.Net.VideoId.{
  byte_at, are_valid, copy_id, id_at, is_v, search_query, is_host, from_query, path_tail, from_path,
  with_url, get_id_from_url, found, get_watch_url,
}
use libytdl.Net.VideoId.Safe.{IsAscii}
use libytdl.Net.VideoId.Ids.{IsFound, get_id_from_url-IsFound}
use libytdl.Net.VideoId.Watch.{watch_parts, get_id_from_url-get_watch_url}

-- The parser's answer for the URL that is tested.
abbrev answers : Url → Bytes → ℕ → Option Url
answers u buf len = some u

abbrev sample_id : Bytes
sample_id = codes "dQw4w9WgXcQ"

get_id_from_url-get_watch_url_example :
    get_id_from_url (answers watch_parts) (get_watch_url sample_id ++ 0 ∷ []) 43
    ≡ some (found sample_id)
get_id_from_url-get_watch_url_example =
    get_id_from_url-get_watch_url (answers watch_parts) sample_id 43 refl
      (refl, (refl, (refl, (refl, (refl, (refl, (refl, (refl, (refl, (refl, (refl, tt)))))))))))
      refl

-- A short path, which is an id.
abbrev short_url : Bytes
short_url = codes "//youtu.be/dQw4w9WgXcQ" ++ 0 ∷ []

abbrev short_parts : Url
short_parts = record {
  host = record { off = 2; len = 8 };
  path = record { off = 10; len = 12 };
  query = no_field;
}

-- The first characters of this path are tested, and the last ones are the id.
abbrev long_url : Bytes
long_url = codes "//youtu.be/dQw4w9WgXcQ/!!!!!!!!!!!" ++ 0 ∷ []

abbrev long_parts : Url
long_parts = record {
  host = record { off = 2; len = 8 };
  path = record { off = 10; len = 24 };
  query = no_field;
}

long_path : get_id_from_url (answers long_parts) long_url 34 ≡ some (found (codes "!!!!!!!!!!!"))
unfolding get_id_from_url with_url is_host strncmp_eq from_path byte_at path_tail are_valid copy_id
long_path = refl

-- No host at all is accepted.
no_host :
    get_id_from_url
      (answers (record short_parts { host = no_field; path = record { off = 0; len = 12 } }))
      (codes "/dQw4w9WgXcQ" ++ 0 ∷ [])
      12
    ≡ some (found sample_id)
unfolding get_id_from_url with_url is_host strncmp_eq from_path byte_at path_tail are_valid copy_id
no_host = refl

-- A query whose last parameter is one character short: the byte after the text is read.
read_after :
    get_id_from_url
      (answers (record {
        host = record { off = 2; len = 8 };
        path = no_field;
        query = record { off = 11; len = 14 };
      }))
      (codes "//youtu.be?ab" ++ codes "v=dQw4w9WgXc")
      25
    ≡ none
unfolding get_id_from_url with_url is_host strncmp_eq from_path from_query is_v search_query id_at
    byte_at are_valid copy_id
read_after = refl

abbrev are_ascii : Bytes → Bool
are_ascii [] = true
are_ascii (c ∷ s) = ltb c 128 && are_ascii s

are_ascii-IsAscii : (s : Bytes) → are_ascii s ≡ true → IsAscii s
are_ascii-IsAscii [] h = tt
are_ascii-IsAscii (c ∷ s) h = ground (arith, are_ascii-IsAscii s)

get_id_from_url-IsFound_example :
    Returns (IsFound short_parts) (get_id_from_url (answers short_parts) short_url 22)
get_id_from_url-IsFound_example =
    get_id_from_url-IsFound (answers short_parts) short_url 22 short_parts refl (record {
      host = omega arith;
      path = omega arith;
      query = omega arith;
      ascii = are_ascii-IsAscii short_url refl;
    })
