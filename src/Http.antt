-- ===== src/Http.antt =====
-- The reading and writing of the HTTP client of src/http/http.c, over a TLS session or plain. The
-- TLS write queue holds its last entry first: the code appends and removes at that end. libuv,
-- OpenSSL and the HTTP parser are not modelled: what their calls return are arguments. What the
-- client hands to callbacks is recorded in order: `delivered` to `read_cb`, `statuses` to
-- `status_cb`, `reports` to the callbacks of the write jobs, a number for each. `accepted` is what
-- `SSL_write` or `uv_write` took.
pub mod Drain
pub mod Reading
pub mod Connect
pub mod Ownership
pub mod Attempt
pub mod Shutdown
use libytdl.Base.{
  ℕ, Bool, true, false, not, ◌&&◌, ◌||◌, List, [], ◌∷◌, ◌++◌, if◌then◌else◌, ltb, ◌==◌, length,
  Bytes,
}

-- `ytdl_net_status_t`: its type and its code, the code of a libuv error without its sign.
pub data Status : Type 0 where
  e_ok e_read_cb e_tcp_eof e_write_init e_write_cb e_parse e_protocol_upgrade : ℕ → Status
  e_poll e_tls_session_closed e_tls_session_read_failed : ℕ → Status
  e_tls_session_write_failed : ℕ → Status
  e_getaddrinfo e_connect_init e_tcp_connect e_read_init e_poll_init : ℕ → Status
  e_tls_ctx_method e_tls_ctx_new e_tls_ctx_verify_paths e_tls_ctx_ciphers : ℕ → Status
  e_tls_new e_tls_set_fd e_tls_session_host e_tls_session_handshake_failed : ℕ → Status

-- `ytdl_https_write_job_t`.
pub record Job : Type 0 where
  pub base : Bytes
  pub cb : ℕ

pub record Client : Type 0 where
  pub has_ssl : Bool
  pub bufs : List Job
  pub is_reading : Bool
  pub is_polling : Bool
  pub delivered : List Bytes
  pub statuses : List Status
  pub reports : List (ℕ × Status)
  pub accepted : List Bytes

abbrev pub status_cb : Status → Client → Client
status_cb s c = record c { statuses = c.statuses ++ s ∷ [] }

abbrev pub report : ℕ → Status → Client → Client
report cb s c = record c { reports = c.reports ++ (cb, s) ∷ [] }

abbrev pub read_cb : Bytes → Client → Client
read_cb s c = record c { delivered = c.delivered ++ s ∷ [] }

abbrev accept : Bytes → Client → Client
accept s c = record c { accepted = c.accepted ++ s ∷ [] }

-- `ytdl_http_client_write`, with what `uv_write` returns.
unfoldable pub write : ℕ → Bytes → ℕ → Client → Client
write r buf write_cb c =
    if c.has_ssl
    then record c { bufs = record { base = buf; cb = write_cb } ∷ c.bufs }
    else if not (r == 0)
    then report write_cb (e_write_init r) c
    else accept buf c

-- `ytdl__http_client_write_cb`.
unfoldable pub write_cb : ℕ → ℕ → Client → Client
write_cb cb status c =
    if not (status == 0) then report cb (e_write_cb status) c else report cb (e_ok status) c

-- `ytdl_http_client_parse_read`, with what `llhttp_execute` returns and leaves in `upgrade`.
unfoldable pub parse_read : ℕ → Bool → Client → Client
parse_read err upgrade c =
    let parsed = if not (err == 0) then status_cb (e_parse err) c else c in
    if upgrade then status_cb (e_protocol_upgrade err) parsed else parsed

-- What libuv read: some bytes, the end, or nothing with an error number or 0.
pub data Read : Type 0 where
  read_bytes : Bytes → Read
  read_eof : ℕ → Read
  read_none : ℕ → Read

-- `ytdl__http_client_read_cb`.
unfoldable pub stream_read_cb : Read → Client → Client
stream_read_cb (read_bytes s) c = read_cb s c
stream_read_cb (read_eof code) c = status_cb (e_tcp_eof code) (record c { is_reading = false })
stream_read_cb (read_none code) c = status_cb (e_read_cb code) (record c { is_reading = false })

-- The results of `SSL_read_ex` in the reading loop: data with more pending, the last data, or a
-- failure with its `SSL_get_error` and whether a look at the socket then finds it closed.
pub data Reads : Type 0 where
  more : Bytes → Reads → Reads
  last : Bytes → Reads
  failed : ℕ → Bool → Reads

-- The values of OpenSSL's constants. All are natural numbers, and `SSL_ERROR_NONE` is 0.
pub record Openssl : Type 0 where
  pub want_read : ℕ
  pub want_write : ℕ
  pub want_x509_lookup : ℕ
  pub syscall : ℕ
  pub zero_return : ℕ

-- The local variables of the polling callback, and whether the writing is passed over.
pub record Polled : Type 0 where
  pub client : Client
  pub free_handle : Bool
  pub has_notified_of_closed : Bool
  pub skips_write : Bool

abbrev pub quiet : Client → Polled
quiet c = record {
  client = c;
  free_handle = false;
  has_notified_of_closed = false;
  skips_write = false;
}

module _ (ssl : Openssl) where
  abbrev pub is_retry : ℕ → Bool
  is_retry err = err == ssl.want_read || err == ssl.want_write || err == ssl.want_x509_lookup

  unfoldable pub read_failed : ℕ → Bool → Client → Polled
  read_failed err is_closed c =
      if is_retry err
      then quiet c
      else if err == ssl.zero_return
      then record (quiet (status_cb (e_tls_session_closed err) c)) {
        free_handle = true;
        has_notified_of_closed = true;
      }
      else if err == ssl.syscall && is_closed
      then record {
        client = status_cb (e_tls_session_closed err) c;
        free_handle = true;
        has_notified_of_closed = true;
        skips_write = true;
      }
      else record (quiet (status_cb (e_tls_session_read_failed err) c)) { free_handle = true }

  unfoldable pub read_loop : Reads → Client → Polled
  read_loop (more s rest) c = read_loop rest (read_cb s c)
  read_loop (last s) c = quiet (read_cb s c)
  read_loop (failed err is_closed) c = read_failed err is_closed c

  -- The empty jobs at the end of the queue are dropped.
  unfoldable pub skip_empty : List Job → List Job
  skip_empty [] = []
  skip_empty (job ∷ rest) =
      let skipped = skip_empty rest in if length job.base == 0 then skipped else job ∷ rest

  -- `SSL_write` of one job, with the `SSL_get_error` after it, for which the code tests `err < 0`.
  unfoldable pub write_job : ℕ → Job → List Job → Polled → Polled
  write_job err job rest p =
      let c = if err == 0 then accept job.base p.client else p.client in
      let popped = record c { bufs = rest } in
      if ltb err 0
      then if is_retry err
        then record p { client = record c { bufs = job ∷ rest } }
        else if err == ssl.zero_return
        then (let told = report job.cb (e_tls_session_closed err) popped in
            record p {
              free_handle = true;
              has_notified_of_closed = true;
              client =
                  if not p.has_notified_of_closed
                  then status_cb (e_tls_session_closed err) told
                  else told;
            })
        else record p { client = report job.cb (e_tls_session_write_failed err) popped }
      else record p { client = report job.cb (e_ok err) popped }

  unfoldable pub write_first : ℕ → List Job → Polled → Polled
  write_first err [] p = record p { client = record p.client { bufs = [] } }
  write_first err (job ∷ rest) p = write_job err job rest p

  unfoldable pub write_phase : ℕ → Polled → Polled
  write_phase err p = if p.skips_write then p else write_first err (skip_empty p.client.bufs) p

  -- What epoll reports: an error, or which of reading and writing are possible, with the results
  -- of the calls that the callback then makes.
  pub data Poll : Type 0 where
    poll_failed : ℕ → Poll
    readable : Reads → Poll
    writable : ℕ → Poll
    both : Reads → ℕ → Poll

  abbrev pub finish : Polled → Client
  finish p = if p.free_handle then record p.client { is_polling = false } else p.client

  -- `ytdl__http_client_tls_poll_cb`.
  unfoldable pub tls_poll_cb : Poll → Client → Client
  tls_poll_cb (poll_failed status) c = status_cb (e_poll status) (record c { is_polling = false })
  tls_poll_cb (readable reads) c = finish (read_loop reads c)
  tls_poll_cb (writable err) c = finish (write_phase err (quiet c))
  tls_poll_cb (both reads err) c = finish (write_phase err (read_loop reads c))
