-- ===== src/Http/Shutdown.antt =====
-- The tear-down of a client in src/http/http.c: `ytdl_http_client_shutdown` and what the event loop
-- calls after it. The pointers of the client are slots, so that a second release is a fault, `none`;
-- so is the closing of a handle that was never initialised. What libuv and OpenSSL return are
-- arguments, the error numbers of libuv without their sign.
pub mod Once
pub mod Stale
use libytdl.Base.{
  Slot, free, held, is_null, null, released, ℕ, suc, Bool, true, false, not, ◌&&◌, ◌||◌, List, [],
  ◌∷◌, Option, some, none, if◌then◌else◌, ◌==◌, ◌>>=◌, ℤ, pos, negsuc,
}
use libytdl.Http.{Openssl}
use libytdl.Http.Connect.{Conn, free_ssl, free_ctx}

-- What the event loop will call next: the callback of the polling handle that is being closed, the
-- idle handle that shuts the session down, or the callback of the TCP handle.
pub data Stage : Type 0 where
  opened closing_poll shutting_down closing_tcp ended : Stage

pub record Teardown : Type 0 where
  pub conn : Conn
  pub hostname : Slot
  pub bufs : Slot
  pub read_buf : Slot
  pub is_poll_init : Bool
  pub stage : Stage
  -- How often the user's `close_cb` was called.
  pub closed : ℕ

-- What the calls return at one step: `uv_tcp_close_reset`, `uv_idle_start`, `SSL_shutdown`.
pub record Results : Type 0 where
  pub reset_err : ℕ
  pub idle_err : ℕ
  pub shutdown_ret : ℤ

abbrev pub close_cb : Teardown → Teardown
close_cb t = record t { closed = suc t.closed; stage = ended }

-- The reset of the connection, or the callback at once if it cannot be made.
unfoldable pub close_tcp : ℕ → Teardown → Teardown
close_tcp reset_err t = if reset_err == 0 then record t { stage = closing_tcp } else close_cb t

unfoldable pub close_poll : Teardown → Option Teardown
close_poll t =
    if t.is_poll_init
    then some (record t { conn = record t.conn { is_polling = false }; stage = closing_poll })
    else none

-- `ytdl_http_client_shutdown`.
unfoldable pub shutdown : ℕ → Teardown → Option Teardown
shutdown reset_err t = free t.hostname >>= λ h.
    if not (is_null t.conn.ssl)
    then close_poll (record t { hostname = h })
    else some (close_tcp reset_err (record t { hostname = h }))

-- `ytdl__tls_poll_close`.
unfoldable pub tls_poll_close : ℕ → Teardown → Option Teardown
tls_poll_close idle_err t = free t.bufs >>= λ b. free t.read_buf >>= λ r.
    let freed = record t { bufs = b; read_buf = r } in
    some (if not (idle_err == 0) then close_cb freed else record freed { stage = shutting_down })

-- The release of the session and of its context.
unfoldable pub free_session : Conn → Option Conn
free_session c = free_ssl c >>= λ d. if not (is_null d.tls_ctx) then free_ctx d else some d

abbrev pub is_negative : ℤ → Bool
is_negative (pos n) = false
is_negative (negsuc n) = true

abbrev pub equals : ℤ → ℕ → Bool
equals (pos m) n = m == n
equals (negsuc m) n = false

module _ (ssl : Openssl) where
  -- The test of a result of `SSL_shutdown`.
  abbrev pub is_again : ℤ → Bool
  is_again ret =
      is_negative ret
      && (equals ret ssl.want_read || equals ret ssl.want_write || equals ret ssl.want_x509_lookup)

  -- `ytdl__http_client_tls_shutdown_cb`.
  unfoldable pub tls_shutdown_cb : ℤ → ℕ → Teardown → Option Teardown
  tls_shutdown_cb ret reset_err t =
      if is_again ret
      then some t
      else free_session t.conn >>= λ c. some (close_tcp reset_err (record t { conn = c }))

  -- A turn of the event loop.
  unfoldable pub step_at : Stage → Results → Teardown → Option Teardown
  step_at opened r t = some t
  step_at closing_poll r t = tls_poll_close r.idle_err t
  step_at shutting_down r t = tls_shutdown_cb r.shutdown_ret r.reset_err t
  step_at closing_tcp r t = some (close_cb t)
  step_at ended r t = some t

  unfoldable pub run : List Results → Teardown → Option Teardown
  run [] t = some t
  run (r ∷ rs) t = step_at t.stage r t >>= λ u. run rs u
