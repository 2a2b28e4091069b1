-- ===== src/Dl/Queue/Shutdown.antt =====
-- `ytdl_dl_shutdown` of src/dl.c: what its idle callback releases, and the shutdown of the client,
-- whose close callback is `ytdl__close_cb`. Memory is slots, so that a second release is a fault,
-- `none`; a player's actions and a video's information are one slot each. What the client's shutdown
-- returns is an argument.
use libytdl.Base.{ℕ, Bool, List, [], ◌∷◌, Option, some, if◌then◌else◌, ◌>>=◌, Slot, free}
use libytdl.Http.{Openssl}
use libytdl.Http.Shutdown.{Teardown, Results, shutdown, run}

-- The parts of a `ytdl_dl_player_t` or of a `ytdl_dl_video_t`, and itself: its actions and its path,
-- or its response and its information.
pub record Parts : Type 0 where
  pub first : Slot
  pub second : Slot
  pub self : Slot

-- What the downloader holds.
pub record Holdings : Type 0 where
  pub player_js : Slot
  pub players : List Parts
  pub videos : List Parts
  pub array : Slot

pub record Closing : Type 0 where
  pub is_connected : Bool
  pub has_on_close : Bool
  pub http : Teardown
  pub holdings : Holdings

unfoldable pub free_parts : Parts → Option Parts
free_parts p = free p.first >>= λ f.
    free p.second >>= λ s. free p.self >>= λ o. some (record { first = f; second = s; self = o })

unfoldable pub free_all : List Parts → Option (List Parts)
free_all [] = some []
free_all (p ∷ ps) = free_parts p >>= λ q. free_all ps >>= λ qs. some (q ∷ qs)

unfoldable pub free_holdings : Holdings → Option Holdings
free_holdings h = free h.player_js >>= λ js. free_all h.players >>= λ ps.
    free_all h.videos >>= λ vs.
    free h.array >>= λ a. some (record { player_js = js; players = ps; videos = vs; array = a })

-- The client is shut down only if the connection was made.
unfoldable pub close_client : ℕ → Closing → Option Closing
close_client reset_err s =
    if s.is_connected
    then (shutdown reset_err s.http >>= λ h. some (record s { http = h }))
    else some s

-- `ytdl__dl_shutdown`, the idle callback.
unfoldable pub dl_shutdown : ℕ → Closing → Option Closing
dl_shutdown reset_err s = close_client reset_err s >>= λ c.
    free_holdings c.holdings >>= λ h. some (record c { holdings = h })

-- The calls of the user's `on_close` by `ytdl__close_cb`.
unfoldable pub on_close_calls : Closing → ℕ
on_close_calls s = if s.has_on_close then s.http.closed else 0

-- The event loop, as far as the client goes.
unfoldable pub turn_client : Openssl → List Results → Closing → Option Closing
turn_client ssl rs s = run ssl rs s.http >>= λ h. some (record s { http = h })
