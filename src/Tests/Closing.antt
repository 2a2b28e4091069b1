-- ===== src/Tests/Closing.antt =====
-- The shutdown of an info downloader with a cached player and a queued video, after a connection.
use libytdl.Base.{◌≡◌, refl, true, false, [], ◌∷◌, some, ◌>>=◌, null, held, Returns}
use libytdl.Dl.Queue.Shutdown.{
  Closing, Holdings, dl_shutdown, turn_client, on_close_calls, free_holdings, close_client,
  free_parts, free_all,
}
use libytdl.Dl.Queue.Closed.{IsClosed, IsOpen, dl_shutdown-IsClosed}
use libytdl.Tests.Http.{sample_ssl}
use libytdl.Tests.Shutdown.{connected, results}

-- No response was read for the second video.
abbrev sample_holdings : Holdings
sample_holdings = record {
  player_js = null;
  players = record { first = held; second = held; self = held } ∷ [];
  videos =
      record { first = held; second = held; self = held }
      ∷ (record { first = null; second = held; self = held } ∷ []);
  array = held;
}

abbrev sample_closing : Closing
sample_closing = record {
  is_connected = true;
  has_on_close = true;
  http = connected;
  holdings = sample_holdings;
}

abbrev sample_closing-IsOpen : IsOpen sample_closing
sample_closing-IsOpen = record {
  owned = record {
    player_js = refl;
    players = ((refl, refl, refl), tt);
    videos = ((refl, refl, refl), ((refl, refl, refl), tt));
    array = refl;
  };
  fresh = refl;
  stage = refl;
  owner = record { fresh = refl; with_ctx = λ h. refl };
  whole = record { hostname = refl; bufs = refl; read_buf = refl };
  polled = λ h. refl;
}

dl_shutdown-IsClosed_example : Returns (IsClosed sample_closing) (
    dl_shutdown 0 sample_closing >>= λ d.
    turn_client sample_ssl (results ∷ (results ∷ (results ∷ []))) d)
dl_shutdown-IsClosed_example =
    dl_shutdown-IsClosed sample_ssl 0 results results results [] sample_closing
      sample_closing-IsOpen refl

-- A downloader that was never connected does not tell the user of its end.
never_told :
    (dl_shutdown 0 (record sample_closing { is_connected = false }) >>= λ d.
    some (on_close_calls d))
    ≡ some 0
unfolding dl_shutdown close_client free_holdings free_parts free_all on_close_calls
never_told = refl
