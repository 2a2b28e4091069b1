-- ===== src/Cli/Start/Manifest.antt =====
-- `ytdl__dash_manifest_done` of src/cli.c: the downloader of the manifest is forked, the fork for the
-- video, itself for the audio.
use libytdl.Base.{◌≡◌, Bool, true, false, Option, some, Bytes, ◌>>=◌}
use libytdl.Net.Url.{Url}
use libytdl.Dash.{Xml}
use libytdl.Dl.Stream.{StreamCtx, ctx_init, fork, load_fork}
use libytdl.Dl.Stream.Fork.{tracks_of, load_fork-fork}

module _ (xml : Xml) (parse_url : Bytes → Option Url)
    (read_memory : Bytes → Option (Option xml.Node)) where
  abbrev as_video : Bool → StreamCtx xml → StreamCtx xml
  as_video b ctx = record ctx { is_video = b }

  -- The fork, before it is loaded, in a context that was cleared.
  unfoldable pub forked : Bool → StreamCtx xml → StreamCtx xml → StreamCtx xml
  forked client_ok ctx cleared =
      as_video true (fork xml ctx (ctx_init xml client_ok true cleared).0)

  -- `ytdl__dash_manifest_done`: the downloader itself, and the fork.
  unfoldable pub manifest_done :
      Bool → StreamCtx xml → StreamCtx xml → Option (StreamCtx xml × StreamCtx xml)
  manifest_done client_ok ctx cleared =
      load_fork xml parse_url read_memory (forked client_ok ctx cleared) >>= λ video.
      some (as_video false ctx, video)

  -- The fork reads the tracks that the downloader itself would read for the video.
  pub forked-tracks :
      (client_ok : Bool) (ctx cleared : StreamCtx xml)
      → tracks_of xml parse_url read_memory
          (load_fork xml parse_url read_memory (forked client_ok ctx cleared))
        ≡ tracks_of xml parse_url read_memory
            (load_fork xml parse_url read_memory (as_video true ctx))
  unfolding forked fork
  forked-tracks client_ok ctx cleared =
      load_fork-fork xml parse_url read_memory (as_video true ctx)
        (ctx_init xml client_ok true cleared).0
