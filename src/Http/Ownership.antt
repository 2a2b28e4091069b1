-- ===== src/Http/Ownership.antt =====
-- Who releases the TLS session and its context in src/http/http.c.
use libytdl.Base.{
  Slot, held, is_null, is_released, null, released, ℕ, suc, ◌+◌, ◌≡◌, ◌≢◌, refl, sym, ap, subst,
  ◌∙◌, inl, inr, Bool, true, false, not, ◌&&◌, [], ◌∷◌, length, length-append, Option, none, some,
  if◌then◌else◌, arith, Bool-cases, ◌>>=◌, Returns, Returns-map,
}
use libytdl.Http.{Status}
use libytdl.Http.Connect.{
  status, Conn, TlsCalls, free_ssl, free_ctx, free_both, reset_ssl, set_fd, set_host, set_ciphers,
  new_ssl, set_paths, new_ctx, set_method, start_tls, tcp_connect_cb,
}

-- The session's pointer is not stale, and a session that is held has its context.
pub record IsOwner (c : Conn) : Type 0 where
  pub fresh : is_released c.ssl ≡ false
  pub with_ctx : c.ssl ≡ held → c.tls_ctx ≡ held

-- The reports made and the calls of `ready_cb`, and one for a handshake that is not over.
abbrev pub tally : Conn → ℕ
tally c = length c.statuses + c.ready + (if c.is_handshaking then 1 else 0)

-- A stage ends with one report, or one handshake; `stale` tells whether it leaves a stale pointer.
abbrev pub Ends : Conn → Bool → Conn → Type 0
Ends c stale d =
    (tally d ≡ suc (tally c))
    × (is_released d.ssl ≡ stale)
    × (d.ssl ≡ held → d.tls_ctx ≡ held)
    × (d.is_tls ≡ c.is_tls)

free_ctx_held : (c : Conn) → c.tls_ctx ≡ held → free_ctx c ≡ some (record c { tls_ctx = released })
unfolding free_ctx
free_ctx_held c e = ground arith

free_ssl_held : (c : Conn) → c.ssl ≡ held → free_ssl c ≡ some (record c { ssl = released })
unfolding free_ssl
free_ssl_held c e = ground arith

free_both_held :
    (c : Conn)
    → c.tls_ctx ≡ held
    → c.ssl ≡ held
    → free_both c ≡ some (record c { tls_ctx = released; ssl = released })
unfolding free_both
free_both_held c e f =
    ap (λ m. m >>= free_ssl) (free_ctx_held c e) ∙ free_ssl_held (record c { tls_ctx = released }) f

-- A stage that reports a failure, whatever it did to the pointers.
failed-Ends :
    (c d : Conn) (s : Status)
    → d.statuses ≡ c.statuses
    → d.ready ≡ c.ready
    → d.is_handshaking ≡ c.is_handshaking
    → d.is_tls ≡ c.is_tls
    → (d.ssl ≢ held)
    → Ends c (is_released d.ssl) (status s d)
failed-Ends c d s e f g i n =
    (ground (arith, length-append c.statuses (s ∷ []), e, f, g), refl, (λ h. absurd (n h)), i)

reset_null : (c : Conn) → c.ssl ≡ null → reset_ssl c ≡ some c
unfolding reset_ssl
reset_null c e = ground arith

reset_held :
    (c : Conn)
    → c.ssl ≡ held
    → c.tls_ctx ≡ held
    → reset_ssl c ≡ some (record c { ssl = released; tls_ctx = released })
unfolding reset_ssl free_ssl free_ctx
reset_held c e f = ground arith

reset_stale : (c : Conn) → is_released c.ssl ≡ true → reset_ssl c ≡ none
unfolding reset_ssl free_ssl
reset_stale c e = ground arith

module _ (k : TlsCalls) where
  set_fd-Ends :
      (c : Conn)
      → c.is_handshaking ≡ false
      → c.tls_ctx ≡ held
      → c.ssl ≡ held
      → Returns (Ends c false) (set_fd k c)
  unfolding set_fd
  set_fd-Ends c i e f = elim (Bool-cases k.fd_ok) [
    | inl q ↦ rw q (ground arith, ap is_released f, (λ _. e), refl)
    | inr q ↦
        rw (q, free_both_held c e f)
          (failed-Ends c (record c { ssl = null; tls_ctx = released }) _ refl refl refl refl
            (λ h. cc))
  ]

  -- Whether the session's pointer is left stale once the session was made.
  abbrev pub host_fails : Bool
  host_fails = not k.is_numeric_host && not k.host_ok

  abbrev pub setup_fails : Bool
  setup_fails = if k.ciphers_ok then host_fails else true

  abbrev pub session_fails : Bool
  session_fails = if k.ssl_ok then setup_fails else false

  -- The same, where a session that the client held before was released.
  abbrev pub leaves_stale : Bool → Bool
  leaves_stale before =
      if k.method_ok
      then (if k.ctx_ok then (if k.paths_ok then session_fails else before) else before)
      else before

  set_host-Ends :
      (c : Conn)
      → c.is_handshaking ≡ false
      → c.tls_ctx ≡ held
      → c.ssl ≡ held
      → Returns (Ends c host_fails) (set_host k c)
  unfolding set_host
  set_host-Ends c i e f = elim (Bool-cases host_fails) [
    | inl q ↦
        rw (q, free_both_held c e f)
          (failed-Ends c (record c { ssl = released; tls_ctx = released }) _ refl refl refl refl
            (λ h. cc))
    | inr q ↦ rw q (set_fd-Ends c i e f)
  ]

  set_ciphers-Ends :
      (c : Conn)
      → c.is_handshaking ≡ false
      → c.tls_ctx ≡ held
      → c.ssl ≡ held
      → Returns (Ends c setup_fails) (set_ciphers k c)
  unfolding set_ciphers
  set_ciphers-Ends c i e f = elim (Bool-cases k.ciphers_ok) [
    | inl q ↦ simp q (set_host-Ends c i e f)
    | inr q ↦
        rw (q, free_both_held c e f)
          (failed-Ends c (record c { ssl = released; tls_ctx = released }) _ refl refl refl refl
            (λ h. cc))
  ]

  new_ssl-Ends :
      (c : Conn)
      → c.is_handshaking ≡ false
      → c.tls_ctx ≡ held
      → Returns (Ends c session_fails) (new_ssl k c)
  unfolding new_ssl
  new_ssl-Ends c i e = elim (Bool-cases k.ssl_ok) [
    | inl q ↦ simp q (set_ciphers-Ends (record c { ssl = held }) i e refl)
    | inr q ↦
        rw (q, free_ctx_held (record c { ssl = null }) e)
          (failed-Ends c (record c { ssl = null; tls_ctx = released }) _ refl refl refl refl
            (λ h. cc))
  ]

  set_paths-Ends :
      (c : Conn)
      → c.is_handshaking ≡ false
      → c.tls_ctx ≡ held
      → c.ssl ≢ held
      → Returns (Ends c (if k.paths_ok then session_fails else is_released c.ssl)) (set_paths k c)
  unfolding set_paths
  set_paths-Ends c i e n = elim (Bool-cases k.paths_ok) [
    | inl q ↦ simp q (new_ssl-Ends c i e)
    | inr q ↦
        rw (q, free_ctx_held c e)
          (failed-Ends c (record c { tls_ctx = released }) _ refl refl refl refl n)
  ]

  set_method-Ends :
      (c : Conn)
      → c.is_handshaking ≡ false
      → c.ssl ≢ held
      → Returns (Ends c (leaves_stale (is_released c.ssl))) (set_method k c)
  unfolding set_method new_ctx
  set_method-Ends c i n = elim (Bool-cases k.method_ok) [
    | inl p ↦ simp p (elim (Bool-cases k.ctx_ok) [
      | inl q ↦ simp q (set_paths-Ends (record c { tls_ctx = held }) i refl n)
      | inr q ↦ simp q (failed-Ends c (record c { tls_ctx = null }) _ refl refl refl refl n)
    ])
    | inr p ↦ rw p (failed-Ends c c _ refl refl refl refl n)
  ]

  start_tls-Ends :
      (c : Conn) (s : Slot)
      → c.ssl ≡ s
      → IsOwner c
      → c.is_handshaking ≡ false
      → Returns (Ends c (leaves_stale (not (is_null s)))) (start_tls k c)
  unfolding start_tls
  start_tls-Ends c null e o i =
      subst (λ m. Returns (Ends c (leaves_stale false)) (m >>= set_method k)) (sym (reset_null c e))
        (subst (λ b. Returns (Ends c (leaves_stale b)) (set_method k c)) (ap is_released e)
          (set_method-Ends c i (λ h. cc)))
  start_tls-Ends c held e o i =
      subst (λ m. Returns (Ends c (leaves_stale true)) (m >>= set_method k))
        (sym (reset_held c e (o.with_ctx e)))
        (set_method-Ends (record c { ssl = released; tls_ctx = released }) i (λ h. cc))
  start_tls-Ends c released e o i = absurd (cc (o.fresh))

-- A session that was left stale is released again.
start_tls_stale : (k : TlsCalls) (d : Conn) → is_released d.ssl ≡ true → start_tls k d ≡ none
unfolding start_tls
start_tls_stale k d e = ap (λ m. m >>= set_method k) (reset_stale d e)

tcp_connect_cb_tls :
    (k : TlsCalls) (r : ℕ) (c : Conn) → c.is_tls ≡ true → tcp_connect_cb k r c ≡ start_tls k c
unfolding tcp_connect_cb
tcp_connect_cb_tls k r c e = simp e refl

module _ (k : TlsCalls) (r : ℕ) (c : Conn) (owner : IsOwner c) (tls : c.is_tls ≡ true)
    (idle : c.is_handshaking ≡ false) where
  pub connect-Ends : Returns (Ends c (leaves_stale k (not (is_null c.ssl)))) (tcp_connect_cb k r c)
  connect-Ends =
      subst (Returns (Ends c (leaves_stale k (not (is_null c.ssl)))))
        (sym (tcp_connect_cb_tls k r c tls)) (start_tls-Ends k c c.ssl refl owner idle)

  -- If a client over TLS that owns its pointers and is in no handshake connects, and the ciphers or
  -- the host name are refused, or it had an earlier session and the method, the context or its paths
  -- fail, then its next attempt, whatever the calls return, releases a session a second time.
  pub connect_twice_faults :
      (k' : TlsCalls) (r' : ℕ)
      → leaves_stale k (not (is_null c.ssl)) ≡ true
      → (tcp_connect_cb k r c >>= tcp_connect_cb k' r') ≡ none
  connect_twice_faults k' r' h =
      faults (tcp_connect_cb k r c)
        (subst (λ b. Returns (Ends c b) (tcp_connect_cb k r c)) h connect-Ends)
    where
      faults : (m : Option Conn) → Returns (Ends c true) m → (m >>= tcp_connect_cb k' r') ≡ none
      faults none p = refl
      faults (some d) p = tcp_connect_cb_tls k' r' d (p.3 ∙ tls) ∙ start_tls_stale k' d p.1

  -- If a client over TLS that owns its pointers and is in no handshake connects, and no failure
  -- after which its session's pointer is stale occurs, then the attempt does not fault and it owns its
  -- pointers afterwards.
  pub connect-IsOwner :
      leaves_stale k (not (is_null c.ssl)) ≡ false → Returns IsOwner (tcp_connect_cb k r c)
  connect-IsOwner h =
      Returns-map (Ends c false) IsOwner (tcp_connect_cb k r c)
        (λ d p. record { fresh = p.1; with_ctx = p.2 })
        (subst (λ b. Returns (Ends c b) (tcp_connect_cb k r c)) h connect-Ends)
