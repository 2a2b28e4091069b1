-- ===== src/Http/Attempt.antt =====
-- A whole attempt to connect, over src/http/tcp.c and src/http/http.c.
use libytdl.Base.{
  is_null, Bool, ℕ, suc, ◌≡◌, refl, sym, subst, ◌∙◌, inl, inr, true, false, not, List, [], ◌∷◌,
  length-append, ◌==◌, Option, if◌then◌else◌, arith, Bool-cases, Returns, Returns-map,
}
use libytdl.Http.{
  Openssl, Status, is_retry, e_read_init, e_tcp_connect, e_connect_init, e_getaddrinfo, e_poll_init,
  e_tls_session_closed, e_tls_session_handshake_failed,
}
use libytdl.Http.Connect.{
  Conn, TlsCalls, Handshake, negative, other, status, tcp_connect_cb, start_polling, handshake_cb,
  handshakes, tcp_client_connect_cb, tcp_client_connect, getaddrinfo_cb, Host, by_name, numeric,
  tcp_connect, http_client_connect,
}
use libytdl.Http.Ownership.{IsOwner, tally, Ends, leaves_stale, connect-Ends}

-- A report adds one.
tally-status : (s : Status) (c : Conn) → tally (status s c) ≡ suc (tally c)
tally-status s c = ground (arith, length-append c.statuses (s ∷ []))

-- A handshake that is over makes room for one.
tally_over :
    (c : Conn)
    → c.is_handshaking ≡ true
    → suc (tally (record c { is_handshaking = false })) ≡ tally c
tally_over c e = ground arith

module _ (ssl : Openssl) (init_err start_err : ℕ) where
  tally-start_polling : (c : Conn) → tally (start_polling init_err start_err c) ≡ suc (tally c)
  unfolding start_polling
  tally-start_polling c = elim (Bool-cases (init_err == 0)) [
    | inl p ↦ rw p (elim (Bool-cases (start_err == 0)) [
      | inl q ↦ rw q (ground arith)
      | inr q ↦ rw q (tally-status (e_poll_init start_err) c)
    ])
    | inr p ↦ rw p (tally-status (e_poll_init init_err) c)
  ]

  tally-handshake_cb :
      (h : Handshake) (c : Conn)
      → c.is_handshaking ≡ true
      → tally (handshake_cb ssl init_err start_err h c) ≡ tally c
  unfolding handshake_cb
  tally-handshake_cb (negative err) c e = elim (Bool-cases (is_retry ssl err)) [
    | inl p ↦ rw p refl
    | inr p ↦ rw p (elim (Bool-cases (err == ssl.zero_return)) [
      | inl q ↦ rw q (
          tally-status (e_tls_session_closed err) (record c { is_handshaking = false })
          ∙ tally_over c e)
      | inr q ↦ rw q (
          tally-status (e_tls_session_handshake_failed err) (record c { is_handshaking = false })
          ∙ tally_over c e)
    ])
  ]
  tally-handshake_cb other c e =
      tally-start_polling (record c { is_handshaking = false }) ∙ tally_over c e

  tally-handshakes :
      (hs : List Handshake) (c : Conn) → tally (handshakes ssl init_err start_err hs c) ≡ tally c
  unfolding handshakes
  tally-handshakes [] c = refl
  tally-handshakes (h ∷ rest) c = elim (Bool-cases c.is_handshaking) [
    | inl e ↦
        subst (λ b. tally (if b then next else c) ≡ tally c) (sym e)
          (tally-handshakes rest (handshake_cb ssl init_err start_err h c)
            ∙ tally-handshake_cb h c e)
    | inr e ↦ subst (λ b. tally (if b then next else c) ≡ tally c) (sym e) refl
  ]
    where
      next : Conn
      next = handshakes ssl init_err start_err rest (handshake_cb ssl init_err start_err h c)

-- What a stage that may fail does to the count.
abbrev Counts : Conn → Option Conn → Type 0
Counts c = Returns (λ d. tally d ≡ suc (tally c))

module _ (k : TlsCalls) (r : ℕ) (c : Conn) (owner : IsOwner c)
    (idle : c.is_handshaking ≡ false) where
  connect-Counts : Counts c (tcp_connect_cb k r c)
  unfolding tcp_connect_cb
  connect-Counts = elim (Bool-cases c.is_tls) [
    | inl e ↦
        Returns-map (Ends c (leaves_stale k (not (is_null c.ssl)))) (λ d. tally d ≡ suc (tally c))
          (tcp_connect_cb k r c) (λ d p. p.0) (connect-Ends k r c owner e idle)
    | inr e ↦ simp e (elim (Bool-cases (r == 0)) [
      | inl q ↦ rw q (ground arith)
      | inr q ↦ rw q (tally-status (e_read_init r) c)
    ])
  ]

  tcp_client_connect-Counts :
      (r0 connect_status : ℕ) → Counts c (tcp_client_connect r0 connect_status k r c)
  unfolding tcp_client_connect tcp_client_connect_cb
  tcp_client_connect-Counts r0 connect_status = elim (Bool-cases (r0 == 0)) [
    | inl q ↦ rw q (elim (Bool-cases (connect_status == 0)) [
      | inl s ↦ rw s connect-Counts
      | inr s ↦ rw s (tally-status (e_tcp_connect connect_status) c)
    ])
    | inr q ↦ rw q (tally-status (e_connect_init r0) c)
  ]

  tcp_connect-Counts :
      (host : Host) (r0 connect_status : ℕ) → Counts c (tcp_connect host r0 connect_status k r c)
  unfolding tcp_connect getaddrinfo_cb
  tcp_connect-Counts (numeric conversion) r0 connect_status =
      tcp_client_connect-Counts r0 connect_status
  tcp_connect-Counts (by_name lookup) r0 connect_status = elim (Bool-cases (lookup == 0)) [
    | inl p ↦ rw p (tcp_client_connect-Counts r0 connect_status)
    | inr p ↦ rw p (tally-status (e_getaddrinfo lookup) c)
  ]

-- An attempt to connect, to a name or an address, with TLS or without it, by a client that owns its
-- pointers and is in no handshake does not fault, whatever the calls return, if the resolution calls
-- back; and after any number of calls of the idle handle it has made exactly one report or one call
-- of `ready_cb`, or it is still in its handshake.
pub attempt-once :
    (is_tls : Bool) (host : Host) (k : TlsCalls) (r : ℕ) (c : Conn)
    → IsOwner c
    → c.is_handshaking ≡ false
    → (ssl : Openssl) (r0 connect_status init_err start_err : ℕ) (hs : List Handshake)
    → Returns
        (λ d. tally (handshakes ssl init_err start_err hs d) ≡ suc (tally c))
        (http_client_connect is_tls host r0 connect_status k r c)
unfolding http_client_connect
attempt-once is_tls host k r c owner idle ssl r0 connect_status init_err start_err hs =
    Returns-map (λ d. tally d ≡ suc (tally c))
      (λ d. tally (handshakes ssl init_err start_err hs d) ≡ suc (tally c))
      (http_client_connect is_tls host r0 connect_status k r c)
      (λ d p. tally-handshakes ssl init_err start_err hs d ∙ p)
      (tcp_connect-Counts k r (record c { is_tls = is_tls })
        (record { fresh = owner.fresh; with_ctx = owner.with_ctx }) idle host r0 connect_status)
