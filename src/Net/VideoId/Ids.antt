-- ===== src/Net/VideoId/Ids.antt =====
-- The ids that `ytdl_net_get_id_from_url` of src/net.c returns.
use libytdl.Base.{
  ℕ, suc, ◌+◌, ◌-◌, ◌≤◌, ◌<◌, ◌≡◌, sym, subst, ◌⊎◌, inl, inr, true, false, List, [], ◌∷◌, ◌++◌,
  Option, some, if◌then◌else◌, ◌==◌, leb, leb→le, leb→gt, ◌>>=◌, length, length-drop, take, drop,
  Bytes, arith, Bool-cases, All-drop, Returns, Returns-bind, Returns-map, strncmp_eq,
  strncmp_eq_stops,
}
use libytdl.Net.Url.{Url}
use libytdl.Net.Request.{id_len}
use libytdl.Net.VideoId.{
  yt_hosts, byte_at, are_valid, copy_id, Found, parse_error, not_found, found, is_host, from_query,
  path_tail, from_path, with_url, get_id_from_url,
}
use libytdl.Net.VideoId.Safe.{
  IsIdText, IsAscii, IsText, are_valid_lem, copy_id_lem, length-id, byte_at-Returns, test-Returns,
  from_query-IsText,
}

-- The same for a URL, unless its path is longer than an id.
abbrev pub IsFound : Url → Found → Type 0
IsFound u parse_error = Unit
IsFound u not_found = Unit
IsFound u (found id) = (length id ≡ id_len) × ((suc id_len < u.path.len) ⊎ IsIdText id)

IsText-IsFound : (u : Url) (r : Found) → IsText r → IsFound u r
IsText-IsFound u parse_error h = h
IsText-IsFound u not_found h = h
IsText-IsFound u (found id) (l, t) = (l, inr t)

-- The parsed runs lie within the text, and at least one more byte can be read.
pub record FitsUrl (buf : Bytes) (u : Url) : Type 0 where
  pub host : u.host.off + u.host.len < length buf
  pub path : u.path.off + u.path.len < length buf
  pub query : u.query.off + u.query.len < length buf
  pub ascii : IsAscii buf

module _ (buf : Bytes) (u : Url) (fits : FitsUrl buf u) where
  query-IsFound : Returns (IsFound u) (from_query buf u.query)
  query-IsFound =
      Returns-map IsText (IsFound u) (from_query buf u.query) (IsText-IsFound u)
        (from_query-IsText buf u.query fits.query fits.ascii)

  -- The last characters are the first ones, if the path has no more.
  path_id :
      suc id_len ≤ u.path.len
      → IsIdText (take id_len (drop (suc u.path.off) buf))
      → IsFound u (found (take id_len (drop (u.path.off + u.path.len - id_len) buf)))
  path_id l t = elim (Bool-cases (leb u.path.len (suc id_len))) [
    | inl e ↦ (
      fits_id,
      inr (
          subst (λ i. IsIdText (take id_len (drop i buf)))
            (same_place (leb→le u.path.len (suc id_len) e)) t),
    )
    | inr e ↦ (fits_id, inl (leb→gt u.path.len (suc id_len) e))
  ]
    where
      fits_id : length (take id_len (drop (u.path.off + u.path.len - id_len) buf)) ≡ id_len
      fits_id =
          length-id (drop (u.path.off + u.path.len - id_len) buf)
            (omega (arith, l, fits.path, length-drop (u.path.off + u.path.len - id_len) buf))

      same_place : u.path.len ≤ suc id_len → suc u.path.off ≡ u.path.off + u.path.len - id_len
      same_place k = omega (arith, l, k)

  path_tail-IsFound : suc id_len ≤ u.path.len → Returns (IsFound u) (path_tail buf u)
  unfolding path_tail
  path_tail-IsFound l =
      Returns-bind (λ b. (b ≡ false) ⊎ IsIdText (take id_len s)) (IsFound u) (are_valid id_len s) _
        (are_valid_lem id_len s (omega (arith, l, fits.path, length-drop (suc u.path.off) buf))
          (All-drop (λ c. c < 128) (suc u.path.off) buf fits.ascii))
        (λ b q.
          elim b
              as (λ b.
                ((b ≡ false) ⊎ IsIdText (take id_len s))
                → Returns (IsFound u) (
                    if b
                    then (copy_id (drop (u.path.off + u.path.len - id_len) buf) >>= λ id.
                        some (found id))
                    else from_query buf u.query)) [
                      | true ↦ λ q.
                          rw
                            (copy_id_lem (drop (u.path.off + u.path.len - id_len) buf) (
                              omega (
                                arith,
                                l,
                                fits.path,
                                length-drop (u.path.off + u.path.len - id_len) buf,
                              )))
                            (path_id l (elim q [ inl f ↦ absurd cc | inr t ↦ t ]))
                      | false ↦ λ q. query-IsFound
                    ]
            q)
    where
      s : Bytes
      s = drop (suc u.path.off) buf

  from_path-IsFound : Returns (IsFound u) (from_path buf u)
  unfolding from_path
  from_path-IsFound = elim (Bool-cases (leb (id_len + 1) u.path.len)) [
    | inl e ↦
        let l = leb→le (id_len + 1) u.path.len e in
        rw e (
          Returns-bind (λ _. Unit) (IsFound u) (byte_at (u.path.off + u.path.len - id_len - 1) buf)
            _
            (byte_at-Returns (u.path.off + u.path.len - id_len - 1) buf
              (omega (arith, l, fits.path)))
            (λ c _. elim (Bool-cases (c == b'/')) [
              | inl f ↦ rw f (path_tail-IsFound (omega (arith, l)))
              | inr f ↦ rw f query-IsFound
            ]))
    | inr e ↦ rw e query-IsFound
  ]

is_host-Returns :
    (hosts : List Bytes) (s : Bytes) (n : ℕ)
    → n ≤ length s
    → Returns (λ _. Unit) (is_host hosts s n)
unfolding is_host
is_host-Returns [] s n h = tt
is_host-Returns (host ∷ more) s n h =
    Returns-bind (λ _. Unit) (λ _. Unit) (strncmp_eq n s (host ++ 0 ∷ [])) _
      (strncmp_eq_stops n s host h)
      (λ b _. elim b as (λ b. Returns (λ _. Unit) (if b then some true else is_host more s n)) [
        | true ↦ tt
        | false ↦ is_host-Returns more s n h
      ])

with_url-IsFound :
    (buf : Bytes) (u : Url) → FitsUrl buf u → Returns (IsFound u) (with_url buf (some u))
unfolding with_url
with_url-IsFound buf u fits =
    test-Returns (IsFound u) (is_host yt_hosts (drop u.host.off buf) u.host.len) (from_path buf u)
      (some not_found)
      (is_host-Returns yt_hosts (drop u.host.off buf) u.host.len
        (omega (arith, fits.host, length-drop u.host.off buf)))
      (from_path-IsFound buf u fits) tt

-- If the parser's runs lie within an ASCII text after which one more byte can be read, then no byte
-- outside of it is read, and the result is an error, no id, or an id of 11 characters. All of them
-- are letters, digits, dashes or underscores, unless the path is longer than a slash and an id.
pub get_id_from_url-IsFound :
    (parse : Bytes → ℕ → Option Url) (buf : Bytes) (len : ℕ) (u : Url)
    → parse buf len ≡ some u
    → FitsUrl buf u
    → Returns (IsFound u) (get_id_from_url parse buf len)
unfolding get_id_from_url
get_id_from_url-IsFound parse buf len u e fits =
    subst (λ m. Returns (IsFound u) (with_url buf m)) (sym e) (with_url-IsFound buf u fits)
