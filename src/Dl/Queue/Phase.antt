-- ===== src/Dl/Queue/Phase.antt =====
-- At most one request is unanswered at any time, and it is the one that the handlers expect.
use libytdl.Base.{
  ℕ, ◌+◌, ◌<◌, ◌≡◌, refl, subst, sym, ap, arith, true, false, List, [], ◌∷◌, ◌++◌, some, length,
  length-append, Bytes,
}
use libytdl.Buffer.{contents}
use libytdl.Net.Request.{request_player_js, request_watch_html}
use libytdl.Dl.Queue.{
  Services, DlCtx, Video, watch_html_complete, player_js_complete, player_body, watch_body,
  with_info, write, start_first, wake, get_info, body, message_complete, connected_cb,
}
use libytdl.Dl.Queue.Response.{
  Response, page_failed, unplayable, player_known, player_missing, script_failed, script_done, read,
}

module _ (env : Services) where
  -- A state, with the number of responses that have been read so far.
  pub record World : Type 0 where
    pub ctx : DlCtx env
    pub answered : ℕ

  abbrev pub Unanswered : World → Type 0
  Unanswered w = w.answered < length w.ctx.written

  -- The server answers a request that was written; the user asks; the connection is made once.
  pub data Step (w u : World) : Type 0 where
    ask :
        (id : Bytes) (cb : ℕ)
        → get_info env id cb w.ctx ≡ some u.ctx
        → u.answered ≡ w.answered
        → Step w u
    piece :
        (at : Bytes)
        → Unanswered w
        → body env at w.ctx ≡ some u.ctx
        → u.answered ≡ w.answered
        → Step w u
    answer :
        Unanswered w
        → message_complete env w.ctx ≡ some u.ctx
        → u.answered ≡ w.answered + 1
        → Step w u
    connect :
        w.ctx.is_connected ≡ false
        → connected_cb env w.ctx ≡ u.ctx
        → u.answered ≡ w.answered
        → Step w u

  pub data Reach (w : World) : World → Type 0 where
    here : Reach w w
    next : {u v : World} → Reach w u → Step u v → Reach w v

  -- What is outstanding: nothing, the first video's page, or the script of its player.
  pub data Phase (w : World) : Type 0 where
    quiet :
        length w.ctx.written ≡ w.answered
        → (w.ctx.is_idle ≡ true → w.ctx.videos ≡ [])
        → (w.ctx.is_connected ≡ false → w.ctx.is_idle ≡ false)
        → Phase w
    page :
        (v : Video env) (vs : List (Video env)) (sent : List Bytes)
        → w.ctx.videos ≡ v ∷ vs
        → w.ctx.is_idle ≡ false
        → w.ctx.is_connected ≡ true
        → w.ctx.on_body ≡ watch_body
        → w.ctx.on_message_complete ≡ watch_html_complete
        → w.ctx.written ≡ sent ++ contents (request_watch_html true v.id) ∷ []
        → length sent ≡ w.answered
        → Phase w
    script :
        (v : Video env) (vs : List (Video env)) (info : env.Info) (sent : List Bytes)
        → w.ctx.videos ≡ v ∷ vs
        → w.ctx.is_idle ≡ false
        → w.ctx.is_connected ≡ true
        → w.ctx.on_body ≡ player_body
        → w.ctx.on_message_complete ≡ player_js_complete
        → v.info ≡ some info
        → w.ctx.written ≡ sent ++ contents (request_player_js true (env.player_url info)) ∷ []
        → length sent ≡ w.answered
        → Phase w

  abbrev pub started : Video env → DlCtx env → DlCtx env
  started v ctx = write env (request_watch_html true v.id) (record ctx {
    on_body = watch_body;
    on_message_complete = watch_html_complete;
    is_idle = false;
  })

  pub wake_busy : (ctx : DlCtx env) → ctx.is_idle ≡ false → wake env ctx ≡ ctx
  unfolding wake
  wake_busy ctx i = ground arith

  pub wake_empty : (ctx : DlCtx env) → ctx.is_idle ≡ true → ctx.videos ≡ [] → wake env ctx ≡ ctx
  unfolding wake start_first
  wake_empty ctx i h = ground arith

  pub wake_first :
      (v : Video env) (vs : List (Video env)) (ctx : DlCtx env)
      → ctx.is_idle ≡ true
      → ctx.videos ≡ v ∷ vs
      → wake env ctx ≡ started v ctx
  unfolding wake start_first
  wake_first v vs ctx i h = ground arith

  abbrev PhaseAt : ℕ → DlCtx env → Type 0
  PhaseAt n c = Phase (record { ctx = c; answered = n })

  -- Waking an idle, connected context asks for its first video, if there is one.
  pub wake-Phase :
      (vs : List (Video env)) (ctx : DlCtx env) (n : ℕ)
      → ctx.videos ≡ vs
      → ctx.is_idle ≡ true
      → ctx.is_connected ≡ true
      → length ctx.written ≡ n
      → PhaseAt n (wake env ctx)
  wake-Phase [] ctx n h i k l =
      subst (PhaseAt n) (sym (wake_empty ctx i h)) (quiet l (λ _. h) (λ f. cc))
  wake-Phase (v ∷ vs) ctx n h i k l =
      subst (PhaseAt n) (sym (wake_first v vs ctx i h))
        (page v vs ctx.written h refl k refl refl refl l)

  stays_quiet :
      (c : DlCtx env) (n : ℕ)
      → c.is_idle ≡ false
      → c.is_connected ≡ true
      → length c.written ≡ n
      → PhaseAt n c
  stays_quiet c n i k l = quiet l (λ t. absurd (cc)) (λ f. i)

  -- The response to the one outstanding request leads to the next phase.
  pub Response-Phase :
      (ctx c : DlCtx env) (n : ℕ)
      → ctx.is_idle ≡ false
      → ctx.is_connected ≡ true
      → length ctx.written ≡ n
      → Response env ctx c
      → PhaseAt n c
  Response-Phase ctx c n i k l (page_failed v vs m h x e) =
      subst (PhaseAt n) (sym e) (stays_quiet ctx n i k l)
  Response-Phase ctx c n i k l (unplayable v vs info m h x y e) =
      subst (PhaseAt n) (sym e) (stays_quiet (read env info v vs ctx) n i k l)
  Response-Phase ctx c n i k l (player_known v vs info p m h x y z e) =
      subst (PhaseAt n) (sym e) (wake-Phase vs _ n refl refl k l)
  Response-Phase ctx c n i k l (player_missing v vs info m h x y z e) =
      subst (PhaseAt n) (sym e)
        (script (with_info env info v) vs info ctx.written refl i k refl refl refl refl l)
  Response-Phase ctx c n i k l (script_failed v vs m h e) =
      subst (PhaseAt n) (sym e) (stays_quiet ctx n i k l)
  Response-Phase ctx c n i k l (script_done v vs p pm m h x e) =
      subst (PhaseAt n) (sym e) (wake-Phase vs _ n refl refl k l)

  -- In a phase with an unanswered request there is exactly one.
  pub record Busy (w : World) : Type 0 where
    pub not_idle : w.ctx.is_idle ≡ false
    pub connected : w.ctx.is_connected ≡ true
    pub one : length w.ctx.written ≡ w.answered + 1

  pub Phase-Busy : (w : World) → Phase w → Unanswered w → Busy w
  Phase-Busy w (quiet l i k) u = absurd (omega arith)
  Phase-Busy w (page v vs sent h i k b m s l) u = record {
    not_idle = i;
    connected = k;
    one = omega (
      arith,
      ap (length {A = Bytes}) s,
      length-append sent (contents (request_watch_html true v.id) ∷ []),
      l,
    );
  }
  Phase-Busy w (script v vs info sent h i k b m g s l) u = record {
    not_idle = i;
    connected = k;
    one = omega (
      arith,
      ap (length {A = Bytes}) s,
      length-append sent (contents (request_player_js true (env.player_url info)) ∷ []),
      l,
    );
  }
