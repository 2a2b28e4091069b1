-- ===== src/Cli/Main.antt =====
-- The URLs on the command line in src/cli.c: `init` are those before the last argument, which is read
-- as a URL in any case. The outer `none` is a fault, and the inner one the exit after an invalid URL.
use libytdl.Base.{
  ℕ, ◌≡◌, ◌≢◌, refl, ap, ◌∙◌, List, [], ◌∷◌, ◌++◌, Option, none, some, ◌>>=◌, length, Bytes,
}
use libytdl.Net.Url.{Url}
use libytdl.Net.VideoId.{Found, found, not_found, parse_error, get_id_from_url}
use libytdl.Dl.Queue.{Services, DlCtx, get_info, grown, init, wake}
use libytdl.Dl.Queue.Protocol.{new_video}
use libytdl.Dl.Queue.Capacity.{get_info_full}

-- The context with its first video.
abbrev pub first_asked : (env : Services) → Bytes → ℕ → DlCtx env
first_asked env id on_complete = record (init env) { videos = new_video env id on_complete ∷ [] }

-- The argument after the first.
abbrev pub second : List Bytes → Bytes → Bytes
second [] last = last
second (url ∷ urls) last = url

module _ (parse : Bytes → ℕ → Option Url) (env : Services) where
  -- The id of an argument, which ends with a NUL.
  abbrev pub id_of : Bytes → Option Found
  id_of url = get_id_from_url parse (url ++ 0 ∷ []) (length url)

  abbrev pub ask_found : ℕ → Found → DlCtx env → Option (Option (DlCtx env))
  ask_found on_complete parse_error ctx = some none
  ask_found on_complete not_found ctx = some none
  ask_found on_complete (found id) ctx = get_info env id on_complete ctx >>= λ c. some (some c)

  unfoldable pub ask_url : ℕ → Bytes → DlCtx env → Option (Option (DlCtx env))
  ask_url on_complete url ctx = id_of url >>= λ f. ask_found on_complete f ctx

  -- The loop over the URLs and the last one, whose callback is the final one, 1.
  unfoldable pub ask_urls : List Bytes → Bytes → DlCtx env → Option (Option (DlCtx env))
  ask_urls [] last ctx = ask_url 1 last ctx
  ask_urls (url ∷ urls) last ctx =
      ask_url 0 url ctx >>= λ m. elim m [ none ↦ some none | some c ↦ ask_urls urls last c ]

  ask_first :
      (on_complete : ℕ) (url id : Bytes)
      → id_of url ≡ some (found id)
      → ask_url on_complete url (init env) ≡ some (some (first_asked env id on_complete))
  unfolding ask_url get_info grown init wake
  ask_first on_complete url id e = ap (λ m. m >>= λ f. ask_found on_complete f (init env)) e

  ask_full :
      (on_complete : ℕ) (url id : Bytes) (ctx : DlCtx env)
      → id_of url ≡ some (found id)
      → ctx.size ≡ 1
      → ctx.videos ≢ []
      → ask_url on_complete url ctx ≡ none
  unfolding ask_url
  ask_full on_complete url id ctx e s n =
      ap (λ m. m >>= λ f. ask_found on_complete f ctx) e
      ∙ ap (λ m. m >>= λ c. some (some c)) (get_info_full env id on_complete ctx s n)

  full_rest :
      (urls : List Bytes) (last id other : Bytes)
      → id_of (second urls last) ≡ some (found other)
      → ask_urls urls last (first_asked env id 0) ≡ none
  unfolding ask_urls init
  full_rest [] last id other e = ask_full 1 last other (first_asked env id 0) e refl (λ h. cc)
  full_rest (url ∷ urls) last id other e =
      ap
        (λ m. m >>= λ m. elim m as (λ m. Option (Option (DlCtx env))) [
          | none ↦ some none
          | some c ↦ ask_urls urls last c
        ])
        (ask_full 0 url other (first_asked env id 0) e refl (λ h. cc))

-- With one valid URL the downloader is set up with just its video, not yet asked for, and the final
-- callback. With two or more arguments for URLs, whatever they are after the second, two valid ones at
-- the front write outside the queue's array before anything is connected.
pub ask_urls-id_of :
    (parse : Bytes → ℕ → Option Url) (env : Services) (url : Bytes) (urls : List Bytes)
    (last id other : Bytes)
    → id_of parse env url ≡ some (found id)
    → id_of parse env (second urls last) ≡ some (found other)
    → (ask_urls parse env [] url (init env) ≡ some (some (first_asked env id 1)))
      × (ask_urls parse env (url ∷ urls) last (init env) ≡ none)
unfolding ask_urls
ask_urls-id_of parse env url urls last id other e f = (
  ask_first parse env 1 url id e,
  ap
        (λ m. m >>= λ m. elim m as (λ m. Option (Option (DlCtx env))) [
          | none ↦ some none
          | some c ↦ ask_urls parse env urls last c
        ])
        (ask_first parse env 0 url id e)
      ∙ full_rest parse env urls last id other f,
)
