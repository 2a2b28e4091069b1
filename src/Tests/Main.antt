-- ===== src/Tests/Main.antt =====
-- The command line with one URL and with two.
use libytdl.Base.{ℕ, ◌≡◌, refl, none, some, [], ◌∷◌, Bytes, codes, Option, c_str}
use libytdl.Net.Url.{Url}
use libytdl.Net.VideoId.{found, get_watch_url}
use libytdl.Net.VideoId.Watch.{watch_parts, get_id_from_url-get_watch_url}
use libytdl.Dl.Queue.{init}
use libytdl.Cli.Main.{id_of, ask_urls, first_asked, ask_urls-id_of}
use libytdl.Tests.Queue.{services}

abbrev video_id : Bytes
video_id = codes "dQw4w9WgXcQ"

-- A parser that knows the watch page's URL.
abbrev knows : Bytes → ℕ → Option Url
knows buf len = some watch_parts

video_id_of : id_of knows services (get_watch_url video_id) ≡ some (found video_id)
unfolding get_watch_url c_str
video_id_of =
    get_id_from_url-get_watch_url knows video_id 43 refl
      (refl, (refl, (refl, (refl, (refl, (refl, (refl, (refl, (refl, (refl, (refl, tt)))))))))))
      refl

ask_urls-id_of_example :
    (ask_urls knows services [] (get_watch_url video_id) (init services)
      ≡ some (some (first_asked services video_id 1)))
    × (ask_urls knows services
          (get_watch_url video_id ∷ [])
          (get_watch_url video_id)
          (init services)
        ≡ none)
ask_urls-id_of_example =
    ask_urls-id_of knows services (get_watch_url video_id) [] (get_watch_url video_id) video_id
      video_id video_id_of video_id_of
