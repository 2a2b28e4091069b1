-- ===== src/Dl/Queue/Closed.antt =====
-- After the shutdown of the info downloader of src/dl.c.
use libytdl.Base.{
  arith, Bool-cases, ℕ, suc, ◌≡◌, ◌≢◌, refl, sym, ap, subst, ◌∙◌, ◌⊎◌, inl, inr, Bool, true, false,
  ◌&&◌, List, [], ◌∷◌, Option, none, some, if◌then◌else◌, ◌>>=◌, All, Slot, null, held, released,
  free, is_released, Returns, Returns-bind, Returns-unbind, Returns-map,
}
use libytdl.Http.{Openssl}
use libytdl.Http.Ownership.{IsOwner}
use libytdl.Http.Shutdown.{Teardown, Results, opened, shutdown, run, step_at}
use libytdl.Http.Shutdown.Once.{IsOver, IsWhole, shutdown-IsOver}
use libytdl.Dl.Queue.Shutdown.{
  Parts, Holdings, Closing, free_parts, free_all, free_holdings, close_client, dl_shutdown,
  on_close_calls, turn_client,
}

-- Parts that were not released, and parts of which none is held.
abbrev pub AreOwned : Parts → Type 0
AreOwned p =
    (is_released p.first ≡ false) × (is_released p.second ≡ false) × (is_released p.self ≡ false)

abbrev pub AreFreed : Parts → Type 0
AreFreed p = (p.first ≢ held) × (p.second ≢ held) × (p.self ≢ held)

pub record IsOwned (h : Holdings) : Type 0 where
  pub player_js : is_released h.player_js ≡ false
  pub players : All AreOwned h.players
  pub videos : All AreOwned h.videos
  pub array : is_released h.array ≡ false

pub record IsFreed (h : Holdings) : Type 0 where
  pub player_js : h.player_js ≢ held
  pub players : All AreFreed h.players
  pub videos : All AreFreed h.videos
  pub array : h.array ≢ held

free-ne-held : (x : Slot) → is_released x ≡ false → Returns (λ y. y ≢ held) (free x)
free-ne-held null h = λ e. cc
free-ne-held held h = λ e. cc
free-ne-held released h = cc

free_parts-AreFreed : (p : Parts) → AreOwned p → Returns AreFreed (free_parts p)
unfolding free_parts
free_parts-AreFreed p (a, b, c) =
    Returns-bind (λ y. y ≢ held) AreFreed (free p.first) _ (free-ne-held p.first a)
      (λ f x.
        Returns-bind (λ y. y ≢ held) AreFreed (free p.second) _ (free-ne-held p.second b)
          (λ s y.
            Returns-bind (λ y. y ≢ held) AreFreed (free p.self) _ (free-ne-held p.self c)
              (λ o z. (x, y, z))))

free_all-AreFreed : (ps : List Parts) → All AreOwned ps → Returns (All AreFreed) (free_all ps)
unfolding free_all
free_all-AreFreed [] h = tt
free_all-AreFreed (p ∷ ps) (h, hs) =
    Returns-bind AreFreed (All AreFreed) (free_parts p) _ (free_parts-AreFreed p h) (λ q x.
      Returns-bind (All AreFreed) (All AreFreed) (free_all ps) _ (free_all-AreFreed ps hs)
        (λ qs y. (x, y)))

free_holdings-IsFreed : (h : Holdings) → IsOwned h → Returns IsFreed (free_holdings h)
unfolding free_holdings
free_holdings-IsFreed h o =
    Returns-bind (λ y. y ≢ held) IsFreed (free h.player_js) _ (free-ne-held h.player_js o.player_js)
      (λ js a.
        Returns-bind (All AreFreed) IsFreed (free_all h.players) _
          (free_all-AreFreed h.players o.players)
          (λ ps b.
            Returns-bind (All AreFreed) IsFreed (free_all h.videos) _
              (free_all-AreFreed h.videos o.videos)
              (λ vs c.
                Returns-bind (λ y. y ≢ held) IsFreed (free h.array) _ (free-ne-held h.array o.array)
                  (λ x d. record { player_js = a; players = b; videos = c; array = d }))))

-- The calls of `on_close` that are due.
abbrev pub due : Closing → ℕ
due c = if c.is_connected && c.has_on_close then 1 else 0

-- Nothing of the downloader's own is held, `on_close` was called as often as is due, and a client that was connected holds no
-- session.
pub record IsClosed (c d : Closing) : Type 0 where
  pub freed : IsFreed d.holdings
  pub calls : on_close_calls d ≡ due c
  pub no_session : (c.is_connected ≡ false) ⊎ (d.http.conn.ssl ≢ held)

-- A downloader that holds its memory, whose client was not closed and owns its own.
pub record IsOpen (c : Closing) : Type 0 where
  pub owned : IsOwned c.holdings
  pub fresh : c.http.closed ≡ 0
  pub stage : c.http.stage ≡ opened
  pub owner : IsOwner c.http.conn
  pub whole : IsWhole c.http
  pub polled : c.http.conn.ssl ≡ held → c.http.is_poll_init ≡ true

run_opened :
    (ssl : Openssl) (rs : List Results) (t : Teardown) → t.stage ≡ opened → run ssl rs t ≡ some t
unfolding run step_at
run_opened ssl [] t e = refl
run_opened ssl (r ∷ rs) t e =
    ap (λ x. step_at ssl x r t >>= λ u. run ssl rs u) e ∙ run_opened ssl rs t e

module _ (ssl : Openssl) (rs : List Results) (c : Closing) (open_c : IsOpen c) where
  -- What the client's end has to say of the downloader.
  abbrev Ends : Teardown → Type 0
  Ends u =
      ((if c.has_on_close then u.closed else 0) ≡ due c)
      × ((c.is_connected ≡ false) ⊎ (u.conn.ssl ≢ held))

  finish :
      (h : Teardown)
      → Returns Ends (run ssl rs h)
      → Returns (IsClosed c) (
          (free_holdings c.holdings >>= λ x. some (record c { http = h; holdings = x })) >>= λ d.
          turn_client ssl rs d)
  unfolding turn_client on_close_calls
  finish h p =
      Returns-bind (λ d. Returns (IsClosed c) (turn_client ssl rs d)) (IsClosed c)
        (free_holdings c.holdings >>= λ x. some (record c { http = h; holdings = x }))
        (λ d. turn_client ssl rs d)
        (Returns-bind IsFreed (λ d. Returns (IsClosed c) (turn_client ssl rs d))
          (free_holdings c.holdings) (λ x. some (record c { http = h; holdings = x }))
          (free_holdings-IsFreed c.holdings open_c.owned)
          (λ x freed.
            Returns-bind Ends (IsClosed c) (run ssl rs h)
              (λ u. some (record c { http = u; holdings = x })) p
              (λ u q. record { freed = freed; calls = q.0; no_session = q.1 })))
        (λ d q. q)

  -- The rest of the idle callback, and the event loop.
  abbrev rest : Closing → Option Closing
  rest d = (free_holdings d.holdings >>= λ x. some (record d { holdings = x })) >>= λ d.
      turn_client ssl rs d

  unconnected : c.is_connected ≡ false → Returns (IsClosed c) (rest c)
  unconnected e = finish c.http (
      subst (Returns Ends) (sym (run_opened ssl rs c.http open_c.stage))
        (ground (arith, e, open_c.fresh), inl e))

  connected :
      (e : ℕ)
      → c.is_connected ≡ true
      → Returns (IsOver (suc c.http.closed)) (shutdown e c.http >>= λ h. run ssl rs h)
      → Returns (IsClosed c) ((shutdown e c.http >>= λ h. some (record c { http = h })) >>= rest)
  connected e t over =
      Returns-bind (λ d. Returns (IsClosed c) (rest d)) (IsClosed c)
        (shutdown e c.http >>= λ h. some (record c { http = h })) rest
        (Returns-bind (λ h. Returns Ends (run ssl rs h)) (λ d. Returns (IsClosed c) (rest d))
          (shutdown e c.http) (λ h. some (record c { http = h }))
          (Returns-map (λ h. Returns (IsOver (suc c.http.closed)) (run ssl rs h))
            (λ h. Returns Ends (run ssl rs h)) (shutdown e c.http)
            (λ h.
              Returns-map (IsOver (suc c.http.closed)) Ends (run ssl rs h)
                (λ u o. (ground (arith, t, open_c.fresh, o.0), inr o.2)))
            (Returns-unbind (IsOver (suc c.http.closed)) (shutdown e c.http) (λ h. run ssl rs h)
              over))
          (λ h p. finish h p))
        (λ d q. q)

bind_assoc {ℓ} :
    {A B C : Type ℓ} (m : Option A) (f : A → Option B) (g : B → Option C)
    → ((m >>= f) >>= g) ≡ (m >>= λ a. f a >>= g)
bind_assoc none f g = refl
bind_assoc (some a) f g = refl

-- For a downloader that holds its memory, whose client was not closed, owns its memory and its session,
-- and had its polling handle initialised if it holds one: after the idle callback of the shutdown, and
-- three turns of the event loop or more if its idle handle starts, nothing was released twice, and of
-- the downloader's own memory (the player's script, the players, the videos and the queue's array)
-- nothing is held; `on_close` was called once if the connection was ever made and the user gave it,
-- and never otherwise; and a client that was connected holds no session. Of the client's other memory
-- nothing is said: a client that was never connected is not shut down.
pub dl_shutdown-IsClosed :
    (ssl : Openssl) (e : ℕ) (r s u : Results) (rs : List Results) (c : Closing)
    → IsOpen c
    → r.idle_err ≡ 0
    → Returns (IsClosed c) (dl_shutdown e c >>= λ d. turn_client ssl (r ∷ (s ∷ (u ∷ rs))) d)
unfolding dl_shutdown close_client
dl_shutdown-IsClosed ssl e r s u rs c o i =
    let turns : List Results = r ∷ (s ∷ (u ∷ rs)) in
    subst (Returns (IsClosed c))
      (sym (
        bind_assoc (close_client e c)
          (λ d. free_holdings d.holdings >>= λ h. some (record d { holdings = h }))
          (λ d. turn_client ssl turns d)))
      (elim (Bool-cases c.is_connected) [
        | inl t ↦ at_branch true t (
            connected ssl turns c o e t
              (shutdown-IsOver ssl e r s u rs c.http o.owner o.whole o.polled i))
        | inr t ↦ at_branch false t (unconnected ssl turns c o t)
      ])
  where
    at_branch :
        (b : Bool)
        → c.is_connected ≡ b
        → Returns (IsClosed c) (
            (if b then (shutdown e c.http >>= λ h. some (record c { http = h })) else some c)
            >>= rest ssl (r ∷ (s ∷ (u ∷ rs))) c o)
        → Returns (IsClosed c) (
            (if c.is_connected
              then (shutdown e c.http >>= λ h. some (record c { http = h }))
              else some c)
            >>= rest ssl (r ∷ (s ∷ (u ∷ rs))) c o)
    at_branch b t p =
        subst
          (λ b. Returns (IsClosed c) (
            (if b then (shutdown e c.http >>= λ h. some (record c { http = h })) else some c)
            >>= rest ssl (r ∷ (s ∷ (u ∷ rs))) c o))
          (sym t) p
