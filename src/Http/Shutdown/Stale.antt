-- ===== src/Http/Shutdown/Stale.antt =====
-- What follows in src/http/http.c when a session was refused.
use libytdl.Base.{
  Slot, held, is_null, is_released, null, released, ℕ, ◌≡◌, ◌∙◌, refl, subst, ap, arith, true,
  false, not, List, ◌∷◌, Option, none, some, if◌then◌else◌, ◌>>=◌, inl, inr, Bool-cases, Returns,
}
use libytdl.Http.{Openssl}
use libytdl.Http.Connect.{Conn, TlsCalls, free_ssl, tcp_connect_cb}
use libytdl.Http.Ownership.{IsOwner, Ends, leaves_stale, connect-Ends, connect_twice_faults}
use libytdl.Http.Shutdown.{
  closing_poll, shutting_down, Teardown, Results, close_tcp, close_poll, shutdown, free_session,
  tls_shutdown_cb, step_at, run,
}
use libytdl.Http.Shutdown.Once.{
  never_again, freed, free_lem, closing, tls_poll_close_lem, shutdown_session, IsWhole,
}

free_session_stale : (c : Conn) → c.ssl ≡ released → free_session c ≡ none
unfolding free_session free_ssl
free_session_stale c q = ground arith

-- Without an initialised polling handle.
shutdown_unpolled :
    (e : ℕ) (t : Teardown)
    → is_released t.hostname ≡ false
    → is_null t.conn.ssl ≡ false
    → t.is_poll_init ≡ false
    → shutdown e t ≡ none
unfolding shutdown close_poll
shutdown_unpolled e t h q p = ground (arith, free_lem t.hostname h)

released_lem : (x : Slot) → is_released x ≡ true → x ≡ released
released_lem null h = cc
released_lem held h = cc
released_lem released h = refl

module _ (ssl : Openssl) (r s : Results) (rs : List Results) where
  shutting_stale :
      (t : Teardown)
      → t.conn.ssl ≡ released
      → run ssl (s ∷ rs) (record t { stage = shutting_down }) ≡ none
  unfolding run step_at tls_shutdown_cb
  shutting_stale t q =
      let next : Teardown = record t { stage = shutting_down } in
      ap
        (λ b.
          (if b
            then some next
            else free_session t.conn >>= λ c.
                some (close_tcp s.reset_err (record next { conn = c })))
          >>= λ u. run ssl rs u)
        (never_again ssl s.shutdown_ret)
      ∙ ap
          (λ m. (m >>= λ c. some (close_tcp s.reset_err (record next { conn = c }))) >>= λ u.
            run ssl rs u)
          (free_session_stale t.conn q)

  closing_stale :
      (t : Teardown)
      → t.conn.ssl ≡ released
      → is_released t.bufs ≡ false
      → is_released t.read_buf ≡ false
      → r.idle_err ≡ 0
      → run ssl (r ∷ (s ∷ rs)) (record t { stage = closing_poll }) ≡ none
  unfolding run step_at
  closing_stale t q b k i =
      ap (λ m. m >>= λ v. run ssl (s ∷ rs) v)
        (tls_poll_close_lem r.idle_err (record t { stage = closing_poll }) i b k)
      ∙ shutting_stale (record t { bufs = freed t.bufs; read_buf = freed t.read_buf }) q

  shutdown_stale :
      (e : ℕ) (t : Teardown)
      → t.conn.ssl ≡ released
      → IsWhole t
      → r.idle_err ≡ 0
      → (shutdown e t >>= λ v. run ssl (r ∷ (s ∷ rs)) v) ≡ none
  shutdown_stale e t q w i = elim (Bool-cases t.is_poll_init) [
    | inl p ↦
        ap (λ m. m >>= λ v. run ssl (r ∷ (s ∷ rs)) v)
          (shutdown_session e t w.hostname (ap is_null q) p)
        ∙ closing_stale (closing t) q w.bufs w.read_buf i
    | inr p ↦
        ap (λ m. m >>= λ v. run ssl (r ∷ (s ∷ rs)) v)
          (shutdown_unpolled e t w.hostname (ap is_null q) p)
  ]

-- If a client over TLS that owns its pointers and is in no handshake connects, and the ciphers or the
-- host name are refused, or it had an earlier session and the method, the context or its paths fail,
-- then both ways on fault, whatever the calls return: its next attempt releases a session a second
-- time, and so does its shutdown, if the idle handle starts, or it closes a polling handle that was
-- never initialised.
pub refused_session_faults :
    (ssl : Openssl) (k k' : TlsCalls) (n m e : ℕ) (r s : Results) (rs : List Results) (t : Teardown)
    → IsOwner t.conn
    → t.conn.is_tls ≡ true
    → t.conn.is_handshaking ≡ false
    → IsWhole t
    → r.idle_err ≡ 0
    → leaves_stale k (not (is_null t.conn.ssl)) ≡ true
    → ((tcp_connect_cb k n t.conn >>= λ d. tcp_connect_cb k' m d) ≡ none)
      × ((tcp_connect_cb k n t.conn >>= λ d.
            shutdown e (record t { conn = d }) >>= λ v. run ssl (r ∷ (s ∷ rs)) v)
          ≡ none)
refused_session_faults ssl k k' n m e r s rs t owner tls idle w i h =
    (connect_twice_faults k n t.conn owner tls idle k' m h, faults (tcp_connect_cb k n t.conn) ends)
  where
    ends : Returns (Ends t.conn true) (tcp_connect_cb k n t.conn)
    ends =
        subst (λ b. Returns (Ends t.conn b) (tcp_connect_cb k n t.conn)) h
          (connect-Ends k n t.conn owner tls idle)

    faults :
        (o : Option Conn)
        → Returns (Ends t.conn true) o
        → (o >>= λ d. shutdown e (record t { conn = d }) >>= λ v. run ssl (r ∷ (s ∷ rs)) v) ≡ none
    faults none p = refl
    faults (some d) p =
        shutdown_stale ssl r s rs e (record t { conn = d }) (released_lem d.ssl p.1)
          (record { hostname = w.hostname; bufs = w.bufs; read_buf = w.read_buf }) i
