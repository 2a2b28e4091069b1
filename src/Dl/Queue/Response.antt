-- ===== src/Dl/Queue/Response.antt =====
-- The outcomes of a complete response, as a relation between the states before and after it.
use libytdl.Base.{
  ◌≡◌, refl, inl, inr, true, false, List, [], ◌∷◌, ◌++◌, Option, none, some, take, Ensures,
  Ensures_elim, Option-cases, Bool-cases,
}
use libytdl.Buffer.{contents}
use libytdl.Net.Request.{request_player_js}
use libytdl.Dl.Queue.{
  Services, DlCtx, Video, CompleteHandler, watch_html_complete, player_js_complete, player_body,
  write, wake, finalize_first, finalize, url_of, store_player, player_js_first,
  player_js_complete_cb, with_info, need_player, watch_html_first, watch_html_complete_cb,
  call_on_complete, message_complete,
}

module _ (env : Services) where
  -- The first video, with its page read, leaves the queue, and the next one is asked for.
  abbrev pub finished : Video env → List (Video env) → env.SigActions → DlCtx env → DlCtx env
  finished v vs player ctx = wake env (record ctx {
    completed = ctx.completed ++ record { video = v; sig_actions = player } ∷ [];
    videos = vs;
    is_idle = true;
  })

  abbrev pub read : env.Info → Video env → List (Video env) → DlCtx env → DlCtx env
  read info v vs ctx = record ctx { videos = with_info env info v ∷ vs }

  abbrev pub asked_script : env.Info → Video env → List (Video env) → DlCtx env → DlCtx env
  asked_script info v vs ctx =
      write env (request_player_js true (env.player_url info)) (record (read info v vs ctx) {
        on_body = player_body;
        on_message_complete = player_js_complete;
      })

  abbrev pub page : Video env → Option env.Info
  page v = env.extract_watch_html (take v.response.len (contents v.response))

  abbrev pub script : DlCtx env → Option env.SigActions
  script ctx = env.sig_actions_extract (take ctx.player_js.len (contents ctx.player_js))

  pub data Response (ctx c : DlCtx env) : Type 0 where
    page_failed :
        (v : Video env) (vs : List (Video env))
        → ctx.on_message_complete ≡ watch_html_complete
        → ctx.videos ≡ v ∷ vs
        → page v ≡ none
        → c ≡ ctx
        → Response ctx c
    unplayable :
        (v : Video env) (vs : List (Video env)) (info : env.Info)
        → ctx.on_message_complete ≡ watch_html_complete
        → ctx.videos ≡ v ∷ vs
        → page v ≡ some info
        → env.is_playable info ≡ false
        → c ≡ read info v vs ctx
        → Response ctx c
    player_known :
        (v : Video env) (vs : List (Video env)) (info : env.Info) (p : env.SigActions)
        → ctx.on_message_complete ≡ watch_html_complete
        → ctx.videos ≡ v ∷ vs
        → page v ≡ some info
        → env.is_playable info ≡ true
        → env.hashmap_get ctx.player_map (env.player_url info) ≡ some p
        → c ≡ finished (with_info env info v) vs p (read info v vs ctx)
        → Response ctx c
    player_missing :
        (v : Video env) (vs : List (Video env)) (info : env.Info)
        → ctx.on_message_complete ≡ watch_html_complete
        → ctx.videos ≡ v ∷ vs
        → page v ≡ some info
        → env.is_playable info ≡ true
        → env.hashmap_get ctx.player_map (env.player_url info) ≡ none
        → c ≡ asked_script info v vs ctx
        → Response ctx c
    script_failed :
        (v : Video env) (vs : List (Video env))
        → ctx.on_message_complete ≡ player_js_complete
        → ctx.videos ≡ v ∷ vs
        → c ≡ ctx
        → Response ctx c
    script_done :
        (v : Video env) (vs : List (Video env)) (p : env.SigActions) (m : env.Players)
        → ctx.on_message_complete ≡ player_js_complete
        → ctx.videos ≡ v ∷ vs
        → script ctx ≡ some p
        → c
          ≡ finished v vs p
              (record ctx { player_map = m; player_js = record ctx.player_js { len = 0 } })
        → Response ctx c

  watch_html_first-Response :
      (vs : List (Video env)) (ctx : DlCtx env)
      → ctx.on_message_complete ≡ watch_html_complete
      → ctx.videos ≡ vs
      → Ensures (Response ctx) (watch_html_first env vs ctx)
  unfolding watch_html_first need_player finalize finalize_first
  watch_html_first-Response [] ctx k h = tt
  watch_html_first-Response (v ∷ vs) ctx k h = elim (Option-cases (page v)) [
    | inl e ↦ rw (e, Ensures, watch_html_first) (page_failed v vs k h e refl)
    | inr (info, e) ↦
        rw (e, Ensures, watch_html_first)
          (elim (Bool-cases (env.is_playable info)) [
            | inl t ↦
                rw (t, Ensures)
                  (elim (Option-cases (env.hashmap_get ctx.player_map (env.player_url info))) [
                    | inl g ↦ rw (g, Ensures, need_player) (player_missing v vs info k h e t g refl)
                    | inr (p, g) ↦
                        rw (g, Ensures, need_player) (player_known v vs info p k h e t g refl)
                  ])
            | inr t ↦
                rw (t, Ensures)
                  (elim (Option-cases (env.status_message info)) [
                    | inl g ↦ rw (g, Ensures) tt
                    | inr (text, g) ↦ rw (g, Ensures) (unplayable v vs info k h e t refl)
                  ])
          ])
  ]

  store_done :
      (v : Video env) (vs : List (Video env)) (ctx : DlCtx env) (p : env.SigActions)
      (m : env.Players)
      → ctx.on_message_complete ≡ player_js_complete
      → ctx.videos ≡ v ∷ vs
      → script ctx ≡ some p
      → (ws : List (Video env)) → ws ≡ v ∷ vs
      → Ensures (Response ctx) (
          finalize_first env ws p
            (record ctx { player_map = m; player_js = record ctx.player_js { len = 0 } }))
  unfolding finalize_first
  store_done v vs ctx p m k h e ws q = rw (q, finalize_first) (script_done v vs p m k h e refl)

  player_js_first-Response :
      (vs : List (Video env)) (ctx : DlCtx env)
      → ctx.on_message_complete ≡ player_js_complete
      → ctx.videos ≡ vs
      → Ensures (Response ctx) (player_js_first env vs ctx)
  unfolding player_js_first store_player finalize
  player_js_first-Response [] ctx k h = tt
  player_js_first-Response (v ∷ vs) ctx k h = elim (Option-cases (script ctx)) [
    | inl e ↦ rw (e, Ensures, player_js_first) (script_failed v vs k h refl)
    | inr (p, e) ↦
        rw (e, Ensures, player_js_first)
          (elim (Option-cases (env.hashmap_put ctx.player_map (url_of env v.info) p)) [
            | inl g ↦ rw (g, Ensures, store_player) (script_failed v vs k h refl)
            | inr (m, g) ↦
                rw (g, Ensures, store_player) (store_done v vs ctx p m k h e ctx.videos h)
          ])
  ]

  call_on_complete-Response :
      (k : CompleteHandler) (ctx : DlCtx env)
      → ctx.on_message_complete ≡ k
      → Ensures (Response ctx) (call_on_complete env k ctx)
  unfolding call_on_complete watch_html_complete_cb player_js_complete_cb
  call_on_complete-Response watch_html_complete ctx h =
      watch_html_first-Response ctx.videos ctx h refl
  call_on_complete-Response player_js_complete ctx h =
      player_js_first-Response ctx.videos ctx h refl

  -- Every complete response that does not fault has one of these outcomes.
  pub message_complete-Response :
      (ctx c : DlCtx env) → message_complete env ctx ≡ some c → Response ctx c
  unfolding message_complete
  message_complete-Response ctx c =
      Ensures_elim (Response ctx) (message_complete env ctx)
        (call_on_complete-Response ctx.on_message_complete ctx refl)
