-- ===== src/Tests/Http.antt =====
-- The HTTP client's queue and reading loop at concrete inputs.
use libytdl.Base.{
  held, null, suc, some, ◌>>=◌, Returns, ◌≡◌, refl, arith, true, false, List, [], ◌∷◌, codes,
  reverse,
}
use libytdl.Http.{Client, Job, Openssl}
use libytdl.Http.Connect.{
  Conn, TlsCalls, negative, other, tcp_connect_cb, getaddrinfo_cb, http_client_connect, tcp_connect,
  by_name, handshakes, tcp_client_connect, tcp_client_connect_cb, start_tls, reset_ssl, set_method,
  new_ctx, set_paths, new_ssl, set_ciphers, set_host, set_fd, handshake_cb, start_polling,
}
use libytdl.Http.Ownership.{IsOwner, tally}
use libytdl.Http.Attempt.{attempt-once}
use libytdl.Http.Drain.{IsSent, writes, polls, polls-writes}

abbrev pub sample_ssl : Openssl
sample_ssl = record {
  want_read = 2;
  want_write = 3;
  want_x509_lookup = 4;
  syscall = 5;
  zero_return = 6;
}

abbrev sample_client : Client
sample_client = record {
  has_ssl = true;
  bufs = [];
  is_reading = true;
  is_polling = true;
  delivered = [];
  statuses = [];
  reports = [];
  accepted = [];
}

abbrev sample_jobs : List Job
sample_jobs =
    record { base = codes "first"; cb = 0 } ∷ record { base = codes "second"; cb = 1 } ∷ []

-- The second job is tried first and fails, yet its callback is told of success.
polls-writes_example :
    IsSent sample_ssl sample_client
      (3 ∷ 0 ∷ [])
      (reverse sample_jobs)
      (polls sample_ssl (3 ∷ 0 ∷ []) (writes sample_jobs sample_client))
polls-writes_example =
    polls-writes sample_ssl (3 ∷ 0 ∷ []) sample_jobs sample_client refl refl refl
      ((λ e. absurd (omega arith)), ((λ e. absurd (omega arith)), tt))

-- A client over TLS that was just set up, and calls that all succeed.
abbrev pub sample_conn : Conn
sample_conn = record {
  is_tls = true;
  ssl = null;
  tls_ctx = null;
  is_handshaking = false;
  is_reading = false;
  is_polling = false;
  statuses = [];
  ready = 0;
}

abbrev pub good_calls : TlsCalls
good_calls = record {
  method_ok = true;
  ctx_ok = true;
  paths_ok = true;
  ssl_ok = true;
  ciphers_ok = true;
  is_numeric_host = false;
  host_ok = true;
  fd_ok = true;
  err = 7;
}

-- The host's name is refused.
abbrev pub bad_host : TlsCalls
bad_host = record good_calls { host_ok = false }

pub sample_conn-IsOwner : IsOwner sample_conn
sample_conn-IsOwner = record { fresh = refl; with_ctx = λ h. cc }

-- A handshake that is retried once, fails, and would not be called again.
attempt-once_example :
    Returns
      (λ d.
        tally (handshakes sample_ssl 0 0 (negative 2 ∷ negative 1 ∷ other ∷ []) d)
        ≡ suc (tally sample_conn))
      (http_client_connect true (by_name 0) 0 0 good_calls 0 sample_conn)
attempt-once_example =
    attempt-once true (by_name 0) good_calls 0 sample_conn sample_conn-IsOwner refl sample_ssl 0 0 0
      0 (negative 2 ∷ negative 1 ∷ other ∷ [])

-- The handshake leads to one call of `ready_cb`, with the session and its context held.
attempt_ready :
    (getaddrinfo_cb 0 0 0 good_calls 0 sample_conn >>= λ d.
    some (handshakes sample_ssl 0 0 (negative 2 ∷ other ∷ []) d))
    ≡ some (record sample_conn { ssl = held; tls_ctx = held; is_polling = true; ready = 1 })
unfolding http_client_connect tcp_connect getaddrinfo_cb tcp_client_connect tcp_client_connect_cb
    tcp_connect_cb start_tls reset_ssl set_method new_ctx set_paths new_ssl set_ciphers set_host
    set_fd handshakes handshake_cb start_polling
attempt_ready = refl
