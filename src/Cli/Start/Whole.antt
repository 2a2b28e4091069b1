-- ===== src/Cli/Start/Whole.antt =====
-- What `ytdl__info_complete` of src/cli.c starts for a video without a DASH manifest.
use libytdl.Base.{ℕ, List, Option, Bytes}
use libytdl.Sig.{Action}
use libytdl.Info.Context.{Tree, InfoCtx}
use libytdl.Info.Response.{extract_formats, extract_video_details}
use libytdl.Info.Response.Lookup.{populated}
use libytdl.Net.Url.{Url}
use libytdl.Dash.{Xml}
use libytdl.Cli.Start.{Calls, Name, Outcome}
use libytdl.Cli.Start.Chosen.{IsUsable, Starts}

module _ (tree : Tree) (xml : Xml) (parse_url : Bytes → Option Url)
    (read_memory : Bytes → Option (Option xml.Node)) (print_name : Name tree xml → Bytes)
    (script : Bytes → Option Bytes) (calls : Calls) (actions : List (Action × ℕ)) where
  open tree use {json}

  abbrev Usable : List json.Value → Type 0
  Usable vs = IsUsable tree xml parse_url read_memory print_name script calls actions vs

  abbrev StartsWith : (vs : List json.Value) → Usable vs → Bytes → Outcome tree xml → Type 0
  StartsWith vs u path o =
      Starts tree xml parse_url read_memory print_name script calls actions path u.entries u.url o

  -- The context after both extractions.
  abbrev read_of : json.Value → InfoCtx tree → InfoCtx tree
  read_of response info =
      extract_video_details tree (extract_formats tree (populated tree response info)).1
