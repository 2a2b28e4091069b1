-- ===== src/Net/VideoId/Watch.antt =====
-- The URL of a video in src/net.c, read back.
use libytdl.Base.{
  ℕ, ◌<◌, ◌≡◌, refl, sym, ap, ◌∙◌, true, [], ◌∷◌, ◌++◌, Option, some, if◌then◌else◌, ◌>>=◌, length,
  length-append, take, take-append, Bytes, codes, arith, NoNul, c_str_id, strncmp_eq,
}
use libytdl.Net.Url.{Url}
use libytdl.Net.Request.{id_len}
use libytdl.Net.VideoId.{
  byte_at, are_valid, copy_id, found, not_found, is_host, id_at, is_v, from_query, from_path,
  with_url, get_watch_url, get_id_from_url,
}
use libytdl.Net.VideoId.Safe.{is_id_char, IsIdText, table_at, copy_id_lem}

-- The parsed runs of such a URL, as RFC 3986 divides it.
abbrev pub watch_parts : Url
watch_parts = record {
  host = record { off = 8; len = 15 };
  path = record { off = 23; len = 6 };
  query = record { off = 30; len = 13 };
}

id_char_bounds : (c : ℕ) → is_id_char c ≡ true → (0 < c) × (c < 128)
id_char_bounds c h = ground arith

id-NoNul : (id : Bytes) → IsIdText id → NoNul id
id-NoNul [] h = tt
id-NoNul (c ∷ s) (p, h) = ((λ e. absurd (omega (arith, e, id_char_bounds c p))), id-NoNul s h)

are_valid_id : (id more : Bytes) → IsIdText id → are_valid (length id) (id ++ more) ≡ some true
unfolding are_valid
are_valid_id [] more h = refl
are_valid_id (c ∷ s) more (p, h) = rw (table_at c (id_char_bounds c p).1, p) (are_valid_id s more h)

id_at-id :
    (id more : Bytes) → length id ≡ id_len → IsIdText id → id_at (id ++ more) ≡ some (found id)
unfolding id_at
id_at-id id more l h =
    ap
      (λ m. m >>= λ b. if b then (copy_id (id ++ more) >>= λ i. some (found i)) else some not_found)
      valid
    ∙ ap (λ m. m >>= λ i. some (found i))
        (copy_id_lem (id ++ more) (omega (arith, l, length-append id more)))
    ∙ ap (λ i. some (found i)) same
  where
    valid : are_valid id_len (id ++ more) ≡ some true
    valid = ap (λ n. are_valid n (id ++ more)) (sym l) ∙ are_valid_id id more h

    same : take id_len (id ++ more) ≡ id
    same = ap (λ n. take n (id ++ more)) (sym l) ∙ take-append id more

-- The code goes to the id.
with_url-watch :
    (more : Bytes)
    → with_url (codes "https://www.youtube.com/watch?v=" ++ more) (some watch_parts) ≡ id_at more
unfolding with_url is_host strncmp_eq from_path from_query is_v byte_at
with_url-watch more = refl

watch_url_lem :
    (id : Bytes)
    → IsIdText id
    → get_watch_url id ++ 0 ∷ [] ≡ codes "https://www.youtube.com/watch?v=" ++ (id ++ 0 ∷ [])
unfolding get_watch_url
watch_url_lem id h =
    ap (λ i. codes "https://www.youtube.com/watch?v=" ++ i ++ 0 ∷ []) (c_str_id id (id-NoNul id h))

-- If the parser divides the URL that is made of an id of 11 valid characters into its host, path and
-- query, then the id that is read from this URL is the same.
pub get_id_from_url-get_watch_url :
    (parse : Bytes → ℕ → Option Url) (id : Bytes) (len : ℕ)
    → length id ≡ id_len
    → IsIdText id
    → parse (get_watch_url id ++ 0 ∷ []) len ≡ some watch_parts
    → get_id_from_url parse (get_watch_url id ++ 0 ∷ []) len ≡ some (found id)
unfolding get_id_from_url
get_id_from_url-get_watch_url parse id len l h e =
    ap (with_url (get_watch_url id ++ 0 ∷ [])) e
    ∙ ap (λ s. with_url s (some watch_parts)) (watch_url_lem id h)
    ∙ with_url-watch (id ++ 0 ∷ [])
    ∙ id_at-id id (0 ∷ []) l h
