-- ===== src/Dl/Queue/Events.antt =====
-- Runs of the info downloader as sequences of what happens to it.
use libytdl.Base.{ℕ, List, [], ◌∷◌, Option, some, Bytes, ◌>>=◌}
use libytdl.Dl.Queue.{Services, DlCtx, get_info, body, message_complete, connected_cb}

-- A call of `ytdl_dl_get_info`, a piece of a response's body, the end of a response, the connection.
pub data Event : Type 0 where
  asks : Bytes → ℕ → Event
  piece : Bytes → Event
  response : Event
  connects : Event

module _ (env : Services) where
  unfoldable pub step : Event → DlCtx env → Option (DlCtx env)
  step (asks id cb) ctx = get_info env id cb ctx
  step (piece at) ctx = body env at ctx
  step response ctx = message_complete env ctx
  step connects ctx = some (connected_cb env ctx)

  unfoldable pub run : List Event → DlCtx env → Option (DlCtx env)
  run [] ctx = some ctx
  run (e ∷ es) ctx = do next ← step e ctx; run es next
