-- ===== src/Http/Shutdown/Once.antt =====
-- The tear-down of a client in src/http/http.c calls the user back once.
use libytdl.Base.{
  Slot, free, held, is_null, is_released, null, released, ℕ, suc, ◌≡◌, ◌≢◌, refl, sym, subst, ap,
  arith, true, false, List, [], ◌∷◌, some, if◌then◌else◌, ◌==◌, ◌>>=◌, ℤ, pos, negsuc, inl, inr,
  Bool-cases, Returns, Returns-bind,
}
use libytdl.Http.{Openssl}
use libytdl.Http.Connect.{Conn, free_ssl, free_ctx}
use libytdl.Http.Ownership.{IsOwner}
use libytdl.Http.Shutdown.{
  closing_poll, shutting_down, ended, Teardown, Results, close_cb, close_tcp, close_poll, shutdown,
  tls_poll_close, free_session, is_again, tls_shutdown_cb, step_at, run,
}

-- The user was called back `n` times, the event loop is over, and no session is held.
abbrev pub IsOver : ℕ → Teardown → Type 0
IsOver n t = (t.closed ≡ n) × (t.stage ≡ ended) × (t.conn.ssl ≢ held)

pub never_again : (ssl : Openssl) (ret : ℤ) → is_again ssl ret ≡ false
never_again ssl (pos n) = refl
never_again ssl (negsuc n) = refl

-- A slot after its release.
abbrev pub freed : Slot → Slot
freed null = null
freed held = released
freed released = released

pub free_lem : (x : Slot) → is_released x ≡ false → free x ≡ some (freed x)
free_lem null h = refl
free_lem held h = refl
free_lem released h = cc

pub tls_poll_close_lem :
    (e : ℕ) (t : Teardown)
    → e ≡ 0
    → is_released t.bufs ≡ false
    → is_released t.read_buf ≡ false
    → tls_poll_close e t
      ≡ some (record t { bufs = freed t.bufs; read_buf = freed t.read_buf; stage = shutting_down })
unfolding tls_poll_close
tls_poll_close_lem e t i b k = ground (arith, free_lem t.bufs b, free_lem t.read_buf k)

-- The memory of the client besides its session was not released.
pub record IsWhole (t : Teardown) : Type 0 where
  pub hostname : is_released t.hostname ≡ false
  pub bufs : is_released t.bufs ≡ false
  pub read_buf : is_released t.read_buf ≡ false

shutdown_plain :
    (e : ℕ) (t : Teardown)
    → is_released t.hostname ≡ false
    → is_null t.conn.ssl ≡ true
    → shutdown e t ≡ some (close_tcp e (record t { hostname = freed t.hostname }))
unfolding shutdown
shutdown_plain e t h q = ground (arith, free_lem t.hostname h)

-- The client before its polling handle is closed.
abbrev pub closing : Teardown → Teardown
closing t = record t {
  hostname = freed t.hostname;
  conn = record t.conn { is_polling = false };
  stage = closing_poll;
}

pub shutdown_session :
    (e : ℕ) (t : Teardown)
    → is_released t.hostname ≡ false
    → is_null t.conn.ssl ≡ false
    → t.is_poll_init ≡ true
    → shutdown e t ≡ some (closing t)
unfolding shutdown close_poll
shutdown_session e t h q p = ground (arith, free_lem t.hostname h)

module _ (ssl : Openssl) where
  run_ended :
      (rs : List Results) (t : Teardown)
      → t.conn.ssl ≢ held
      → Returns (IsOver t.closed) (run ssl rs (record t { stage = ended }))
  unfolding run step_at
  run_ended [] t n = (refl, refl, n)
  run_ended (r ∷ rs) t n = run_ended rs t n

  run_closing :
      (e : ℕ) (r : Results) (rs : List Results) (t : Teardown)
      → t.conn.ssl ≢ held
      → Returns (IsOver (suc t.closed)) (run ssl (r ∷ rs) (close_tcp e t))
  unfolding run step_at close_tcp
  run_closing e r rs t n = elim (Bool-cases (e == 0)) [
    | inl q ↦ rw q (run_ended rs (close_cb t) n)
    | inr q ↦ rw q (run_ended rs (close_cb t) n)
  ]

  free_session_lem :
      (c : Conn)
      → c.ssl ≡ held
      → is_released c.tls_ctx ≡ false
      → Returns (λ d. d.ssl ≡ released) (free_session c)
  unfolding free_session free_ssl free_ctx
  free_session_lem c e f = ground arith

  run_shutting :
      (r s : Results) (rs : List Results) (t : Teardown)
      → t.conn.ssl ≡ held
      → is_released t.conn.tls_ctx ≡ false
      → Returns
          (IsOver (suc t.closed))
          (run ssl (r ∷ (s ∷ rs)) (record t { stage = shutting_down }))
  unfolding run step_at tls_shutdown_cb
  run_shutting r s rs t e f =
      let next : Teardown = record t { stage = shutting_down } in
      subst
        (λ b. Returns (IsOver (suc t.closed)) (
          (if b
            then some next
            else free_session t.conn >>= λ c.
                some (close_tcp r.reset_err (record next { conn = c })))
          >>= λ u. run ssl (s ∷ rs) u))
        (sym (never_again ssl r.shutdown_ret))
        (Returns-bind (λ u. Returns (IsOver (suc t.closed)) (run ssl (s ∷ rs) u))
          (IsOver (suc t.closed))
          (free_session t.conn >>= λ c. some (close_tcp r.reset_err (record next { conn = c })))
          (λ u. run ssl (s ∷ rs) u)
          (Returns-bind (λ (d : Conn). d.ssl ≡ released)
            (λ u. Returns (IsOver (suc t.closed)) (run ssl (s ∷ rs) u)) (free_session t.conn)
            (λ c. some (close_tcp r.reset_err (record next { conn = c })))
            (free_session_lem t.conn e f)
            (λ d q. run_closing r.reset_err s rs (record next { conn = d }) (λ h. cc)))
          (λ u p. p))

  run_poll :
      (r s u : Results) (rs : List Results) (t : Teardown)
      → t.conn.ssl ≡ held
      → is_released t.conn.tls_ctx ≡ false
      → is_released t.bufs ≡ false
      → is_released t.read_buf ≡ false
      → r.idle_err ≡ 0
      → Returns
          (IsOver (suc t.closed))
          (run ssl (r ∷ (s ∷ (u ∷ rs))) (record t { stage = closing_poll }))
  unfolding run step_at
  run_poll r s u rs t e f b k i =
      subst (λ m. Returns (IsOver (suc t.closed)) (m >>= λ v. run ssl (s ∷ (u ∷ rs)) v))
        (sym (tls_poll_close_lem r.idle_err (record t { stage = closing_poll }) i b k))
        (run_shutting s u rs (record t { bufs = freed t.bufs; read_buf = freed t.read_buf }) e f)

  -- A client without a session, and one with a session whose polling was started.
  shut_lem :
      (x : Slot) (e : ℕ) (r s u : Results) (rs : List Results) (t : Teardown)
      → t.conn.ssl ≡ x
      → IsOwner t.conn
      → IsWhole t
      → (t.conn.ssl ≡ held → t.is_poll_init ≡ true)
      → r.idle_err ≡ 0
      → Returns (IsOver (suc t.closed)) (shutdown e t >>= λ v. run ssl (r ∷ (s ∷ (u ∷ rs))) v)
  unfolding shutdown
  shut_lem null e r s u rs t q o w h i =
      subst (λ m. Returns (IsOver (suc t.closed)) (m >>= λ v. run ssl (r ∷ (s ∷ (u ∷ rs))) v))
        (sym (shutdown_plain e t w.hostname (ap is_null q)))
        (run_closing e r (s ∷ (u ∷ rs)) (record t { hostname = freed t.hostname }) (λ k. cc))
  shut_lem held e r s u rs t q o w h i =
      subst (λ m. Returns (IsOver (suc t.closed)) (m >>= λ v. run ssl (r ∷ (s ∷ (u ∷ rs))) v))
        (sym (shutdown_session e t w.hostname (ap is_null q) (h q)))
        (run_poll r s u rs (closing t) q (ap is_released (o.with_ctx q)) w.bufs w.read_buf i)
  shut_lem released e r s u rs t q o w h i = absurd (cc (o.fresh))

-- For a client that owns its session, whose other memory is not released, and whose polling handle
-- was initialised if it holds a session: after the shutdown, whatever the reset of the connection and
-- the shutdown of the session return, and if the idle handle starts, no more than three turns of the
-- event loop call the user back, once, release nothing twice and leave no session held; more turns
-- change nothing of that.
pub shutdown-IsOver :
    (ssl : Openssl) (e : ℕ) (r s u : Results) (rs : List Results) (t : Teardown)
    → IsOwner t.conn
    → IsWhole t
    → (t.conn.ssl ≡ held → t.is_poll_init ≡ true)
    → r.idle_err ≡ 0
    → Returns (IsOver (suc t.closed)) (shutdown e t >>= λ v. run ssl (r ∷ (s ∷ (u ∷ rs))) v)
shutdown-IsOver ssl e r s u rs t o w h i = shut_lem ssl t.conn.ssl e r s u rs t refl o w h i
