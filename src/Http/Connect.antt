-- ===== src/Http/Connect.antt =====
-- How a client of src/http/http.c and src/http/tcp.c connects: the resolution of the host, the TCP
-- connection, the TLS session and its handshake. The client's pointers to its session and to its TLS
-- context are slots, so that a second release is a fault, `none`. What libuv and OpenSSL return are
-- arguments: a success, or an error number without its sign.
use libytdl.Base.{
  Slot, free, held, is_null, null, ℕ, suc, Bool, true, false, not, ◌&&◌, List, [], ◌∷◌, ◌++◌,
  Option, some, if◌then◌else◌, ◌==◌, ◌>>=◌,
}
use libytdl.Http.{
  Status, Openssl, is_retry, e_getaddrinfo, e_connect_init, e_tcp_connect, e_read_init, e_poll_init,
  e_tls_ctx_method, e_tls_ctx_new, e_tls_ctx_verify_paths, e_tls_ctx_ciphers, e_tls_new,
  e_tls_set_fd, e_tls_session_host, e_tls_session_handshake_failed, e_tls_session_closed,
}

pub record Conn : Type 0 where
  pub is_tls : Bool
  pub ssl : Slot
  pub tls_ctx : Slot
  pub is_handshaking : Bool
  pub is_reading : Bool
  pub is_polling : Bool
  pub statuses : List Status
  -- How often `ready_cb` was called.
  pub ready : ℕ

abbrev pub status : Status → Conn → Conn
status s c = record c { statuses = c.statuses ++ s ∷ [] }

abbrev pub ready_cb : Conn → Conn
ready_cb c = record c { ready = suc c.ready }

-- `ytdl_http_client_init`, over any values.
unfoldable pub init : Conn → Conn
init c = record c { ssl = null; tls_ctx = null; is_tls = false }

unfoldable pub free_ssl : Conn → Option Conn
free_ssl c = free c.ssl >>= λ s. some (record c { ssl = s })

unfoldable pub free_ctx : Conn → Option Conn
free_ctx c = free c.tls_ctx >>= λ s. some (record c { tls_ctx = s })

abbrev pub slot : Bool → Slot
slot true = held
slot false = null

-- What the calls for a TLS session return; `err` is `ERR_get_error` after a failure.
pub record TlsCalls : Type 0 where
  pub method_ok : Bool
  pub ctx_ok : Bool
  pub paths_ok : Bool
  pub ssl_ok : Bool
  pub ciphers_ok : Bool
  pub is_numeric_host : Bool
  pub host_ok : Bool
  pub fd_ok : Bool
  pub err : ℕ

-- The release of a client's earlier session.
unfoldable pub reset_ssl : Conn → Option Conn
reset_ssl c =
    if not (is_null c.ssl)
    then (free_ssl c >>= λ d. if not (is_null d.tls_ctx) then free_ctx d else some d)
    else some c

unfoldable pub free_both : Conn → Option Conn
free_both c = free_ctx c >>= free_ssl

-- The part of the TCP callback that sets a session up, by its stages: the session's file
-- descriptor, its host, its ciphers, the session, the paths, the context, the method.
unfoldable pub set_fd : TlsCalls → Conn → Option Conn
set_fd k c =
    if not k.fd_ok
    then (free_both c >>= λ d. some (status (e_tls_set_fd k.err) (record d { ssl = null })))
    else some (record c { is_handshaking = true })

unfoldable pub set_host : TlsCalls → Conn → Option Conn
set_host k c =
    if not k.is_numeric_host && not k.host_ok
    then (free_both c >>= λ d. some (status (e_tls_session_host k.err) d))
    else set_fd k c

unfoldable pub set_ciphers : TlsCalls → Conn → Option Conn
set_ciphers k c =
    if not k.ciphers_ok
    then (free_both c >>= λ d. some (status (e_tls_ctx_ciphers k.err) d))
    else set_host k c

unfoldable pub new_ssl : TlsCalls → Conn → Option Conn
new_ssl k c =
    let made = record c { ssl = slot k.ssl_ok } in
    if not k.ssl_ok
    then (free_ctx made >>= λ d. some (status (e_tls_new k.err) d))
    else set_ciphers k made

unfoldable pub set_paths : TlsCalls → Conn → Option Conn
set_paths k c =
    if not k.paths_ok
    then (free_ctx c >>= λ d. some (status (e_tls_ctx_verify_paths k.err) d))
    else new_ssl k c

unfoldable pub new_ctx : TlsCalls → Conn → Option Conn
new_ctx k c =
    let made = record c { tls_ctx = slot k.ctx_ok } in
    if not k.ctx_ok then some (status (e_tls_ctx_new k.err) made) else set_paths k made

unfoldable pub set_method : TlsCalls → Conn → Option Conn
set_method k c = if not k.method_ok then some (status (e_tls_ctx_method k.err) c) else new_ctx k c

unfoldable pub start_tls : TlsCalls → Conn → Option Conn
start_tls k c = reset_ssl c >>= set_method k

-- `ytdl__http_client_tcp_connect_cb`; `r` is what `uv_read_start` returns.
unfoldable pub tcp_connect_cb : TlsCalls → ℕ → Conn → Option Conn
tcp_connect_cb k r c =
    if c.is_tls
    then start_tls k c
    else if not (r == 0)
    then some (status (e_read_init r) c)
    else some (ready_cb (record c { is_reading = true }))

-- What `SSL_connect` returns: a negative number, with the `SSL_get_error` after it, or another.
pub data Handshake : Type 0 where
  negative : ℕ → Handshake
  other : Handshake

-- The end of a handshake; the arguments are what `uv_poll_init_socket` and `uv_poll_start` return.
unfoldable pub start_polling : ℕ → ℕ → Conn → Conn
start_polling init_err start_err c =
    if not (init_err == 0)
    then status (e_poll_init init_err) c
    else if not (start_err == 0)
    then status (e_poll_init start_err) c
    else ready_cb (record c { is_polling = true })

module _ (ssl : Openssl) where
  -- `ytdl__http_client_tls_handshake_cb`.
  unfoldable pub handshake_cb : ℕ → ℕ → Handshake → Conn → Conn
  handshake_cb init_err start_err (negative err) c =
      if is_retry ssl err
      then c
      else if err == ssl.zero_return
      then status (e_tls_session_closed err) (record c { is_handshaking = false })
      else status (e_tls_session_handshake_failed err) (record c { is_handshaking = false })
  handshake_cb init_err start_err other c =
      start_polling init_err start_err (record c { is_handshaking = false })

  -- The idle handle calls it back until it is stopped.
  unfoldable pub handshakes : ℕ → ℕ → List Handshake → Conn → Conn
  handshakes init_err start_err [] c = c
  handshakes init_err start_err (h ∷ rest) c =
      let next = handshakes init_err start_err rest (handshake_cb init_err start_err h c) in
      if c.is_handshaking then next else c

-- `ytdl__tcp_client_connect_cb`.
unfoldable pub tcp_client_connect_cb : ℕ → TlsCalls → ℕ → Conn → Option Conn
tcp_client_connect_cb connect_status k r c =
    if not (connect_status == 0)
    then some (status (e_tcp_connect connect_status) c)
    else tcp_connect_cb k r c

-- `ytdl__tcp_client_connect`; `r0` is what `uv_tcp_connect` returns.
unfoldable pub tcp_client_connect : ℕ → ℕ → TlsCalls → ℕ → Conn → Option Conn
tcp_client_connect r0 connect_status k r c =
    if not (r0 == 0)
    then some (status (e_connect_init r0) c)
    else tcp_client_connect_cb connect_status k r c

-- `ytdl__tcp_client_getaddrinfo_cb`; the first argument is its negative status, or 0.
unfoldable pub getaddrinfo_cb : ℕ → ℕ → ℕ → TlsCalls → ℕ → Conn → Option Conn
getaddrinfo_cb lookup r0 connect_status k r c =
    if not (lookup == 0)
    then some (status (e_getaddrinfo lookup) c)
    else tcp_client_connect r0 connect_status k r c

-- A host: a name, with the status of its resolution, or the text of an address, with what the
-- conversion of the address returns.
pub data Host : Type 0 where
  by_name : ℕ → Host
  numeric : ℕ → Host

-- `ytdl_tcp_client_connect`, with a `status_cb`. The conversion is looked at after the connection was
-- started.
unfoldable pub tcp_connect : Host → ℕ → ℕ → TlsCalls → ℕ → Conn → Option Conn
tcp_connect (by_name lookup) r0 connect_status k r c = getaddrinfo_cb lookup r0 connect_status k r c
tcp_connect (numeric conversion) r0 connect_status k r c =
    tcp_client_connect r0 connect_status k r c

-- What it returns, without its sign.
unfoldable pub tcp_connect_result : Host → ℕ
tcp_connect_result (by_name lookup) = 0
tcp_connect_result (numeric conversion) = if not (conversion == 0) then 4 else 0

-- `ytdl_http_client_connect`.
unfoldable pub http_client_connect : Bool → Host → ℕ → ℕ → TlsCalls → ℕ → Conn → Option Conn
http_client_connect is_tls host r0 connect_status k r c =
    tcp_connect host r0 connect_status k r (record c { is_tls = is_tls })
