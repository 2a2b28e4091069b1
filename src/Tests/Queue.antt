-- ===== src/Tests/Queue.antt =====
-- The info downloader with small services, from a fresh context to its first outstanding request.
use libytdl.Base.{
  ℕ, ◌≡◌, refl, not, [], ◌∷◌, ◌++◌, Option, none, some, Bytes, codes, bytes_eq, if◌then◌else◌,
}
use libytdl.Dl.Queue.{Services, DlCtx, init, wake, grown, get_info, connected_cb}
use libytdl.Dl.Queue.Events.{asks, step, run}
use libytdl.Dl.Queue.Order.{history, asked, history-run}
use libytdl.Dl.Queue.Phase.{World, Step, ask, connect, Reach, here, next, Phase}
use libytdl.Dl.Queue.Protocol.{queued, start, Reach-Phase}

-- A page is understood if it is not empty, and names its player.
abbrev pub services : Services
services = record {
  Info = Bytes;
  extract_watch_html = λ page. elim page [ [] ↦ none | c ∷ s ↦ some (c ∷ s) ];
  is_playable = λ info. not (bytes_eq info (codes "live"));
  status_message = λ info. some (codes "Not available.");
  player_url = λ info. info;
  SigActions = ℕ;
  sig_actions_extract = λ script. some 7;
  Players = Bytes → Option ℕ;
  no_players = λ k. none;
  hashmap_get = λ m k. m k;
  hashmap_put = λ m k v. some (λ j. if bytes_eq j k then some v else m j);
}

abbrev an_id : Bytes
an_id = codes "dQw4w9WgXcQ"

abbrev asked_world : World services
asked_world = record { ctx = wake services (queued services an_id 1 (init services)); answered = 0 }

abbrev connected_world : World services
connected_world = record { ctx = connected_cb services asked_world.ctx; answered = 0 }

asked_Step : Step services (start services) asked_world
unfolding get_info init grown
asked_Step = ask an_id 1 refl refl

connected_Reach : Reach services (start services) connected_world
unfolding wake init
connected_Reach = next (next here asked_Step) (connect refl refl refl)

history-run_example :
    history services asked_world.ctx
    ≡ history services (init services) ++ asked services (asks an_id 1 ∷ [])
unfolding get_info init grown run step
history-run_example = history-run services (asks an_id 1 ∷ []) (init services) asked_world.ctx refl

Reach-Phase_example : Phase services connected_world
Reach-Phase_example = Reach-Phase services connected_Reach

abbrev roomy : DlCtx services
roomy = record asked_world.ctx { size = 2 }
