-- ===== src/Tests/Shutdown.antt =====
-- The tear-down of a client with a session, and of one whose session was refused.
use libytdl.Base.{held, ◌≡◌, refl, true, false, [], ◌∷◌, none, ◌>>=◌, Returns, negsuc}
use libytdl.Http.Connect.{tcp_connect_cb}
use libytdl.Http.Shutdown.{Teardown, Results, opened, shutdown, run, close_poll}
use libytdl.Http.Shutdown.Once.{IsOver, shutdown-IsOver}
use libytdl.Http.Shutdown.Stale.{refused_session_faults}
use libytdl.Tests.Http.{sample_ssl, sample_conn, sample_conn-IsOwner, good_calls, bad_host}

-- A client with an open session.
abbrev pub connected : Teardown
connected = record {
  conn = record sample_conn { ssl = held; tls_ctx = held; is_polling = true };
  hostname = held;
  bufs = held;
  read_buf = held;
  is_poll_init = true;
  stage = opened;
  closed = 0;
}

abbrev fresh_client : Teardown
fresh_client = record connected { conn = sample_conn; is_poll_init = false }

-- The peer's session is not shut down yet.
abbrev pub results : Results
results = record { reset_err = 0; idle_err = 0; shutdown_ret = negsuc 0 }

shutdown-IsOver_example :
    Returns
      (IsOver 1)
      (shutdown 0 connected >>= λ v. run sample_ssl (results ∷ (results ∷ (results ∷ []))) v)
shutdown-IsOver_example =
    shutdown-IsOver sample_ssl 0 results results results [] connected
      (record { fresh = refl; with_ctx = λ h. refl })
      (record { hostname = refl; bufs = refl; read_buf = refl }) (λ h. refl) refl

refused_session_faults_example :
    ((tcp_connect_cb bad_host 0 fresh_client.conn >>= λ d. tcp_connect_cb good_calls 0 d) ≡ none)
    × ((tcp_connect_cb bad_host 0 fresh_client.conn >>= λ d.
          shutdown 0 (record fresh_client { conn = d }) >>= λ v.
          run sample_ssl (results ∷ (results ∷ [])) v)
        ≡ none)
refused_session_faults_example =
    refused_session_faults sample_ssl bad_host good_calls 0 0 0 results results [] fresh_client
      sample_conn-IsOwner refl refl (record { hostname = refl; bufs = refl; read_buf = refl }) refl
      refl

-- A client whose handshake is not over has a session, and its polling handle is not initialised.
before_handshake : shutdown 0 (record connected { is_poll_init = false }) ≡ none
unfolding shutdown close_poll
before_handshake = refl
