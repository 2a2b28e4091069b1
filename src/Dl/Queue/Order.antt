-- ===== src/Dl/Queue/Order.antt =====
-- Videos complete in the order in which they were asked for, and none is lost or repeated.
use mathlib.Core.List.{map-append}
use libytdl.Base.{
  ℕ, ◌≡◌, refl, sym, subst, length, ltb, ap, ◌∙◌, not, Bool-cases, inl, inr, List, [], ◌∷◌, ◌++◌,
  append_assoc, append-nil, map, some, take, Bytes, Ensures, Ensures_elim, Ensures-bind,
  Option-cases,
}
use libytdl.Buffer.{contents}
use libytdl.Net.Request.{id_size}
use libytdl.Dl.Queue.{
  Services, DlCtx, Video, Completion, start_first, wake, finalize_first, finalize, store_player,
  player_js_first, player_js_complete_cb, watch_html_first, watch_body_first, player_body_cb,
  url_of, with_info, need_player, watch_html_complete_cb, call_on_complete, message_complete,
  call_on_body, body, get_info, grown, connected_cb, CompleteHandler, watch_html_complete,
  player_js_complete, BodyHandler, watch_body, player_body,
}
use libytdl.Dl.Queue.Events.{Event, asks, piece, response, connects, step, run}

module _ (env : Services) where
  -- The id and the callback of a call of `get_info`.
  abbrev pub key : Video env → Bytes × ℕ
  key v = (v.id, v.on_complete)

  -- The videos done and the videos to do, oldest first.
  abbrev done : Completion env → Bytes × ℕ
  done c = key c.video

  abbrev pub history : DlCtx env → List (Bytes × ℕ)
  history ctx = map done ctx.completed ++ map key ctx.videos

  -- What the events ask for.
  abbrev pub asked : List Event → List (Bytes × ℕ)
  asked [] = []
  asked (asks id cb ∷ es) = (take id_size id, cb) ∷ asked es
  asked (piece at ∷ es) = asked es
  asked (response ∷ es) = asked es
  asked (connects ∷ es) = asked es

  history-start_first :
      (vs : List (Video env)) (ctx : DlCtx env) → history (start_first env vs ctx) ≡ history ctx
  unfolding start_first
  history-start_first [] ctx = refl
  history-start_first (v ∷ vs) ctx = refl

  history-wake : (ctx : DlCtx env) → history (wake env ctx) ≡ history ctx
  unfolding wake
  history-wake ctx = elim (Bool-cases (not ctx.is_idle)) [
    | inl e ↦ rw e
    | inr e ↦ rw e (history-start_first ctx.videos ctx)
  ]

  history-finalize_first :
      (vs : List (Video env)) (p : env.SigActions) (ctx : DlCtx env)
      → ctx.videos ≡ vs
      → Ensures (λ c. history c ≡ history ctx) (finalize_first env vs p ctx)
  unfolding finalize_first
  history-finalize_first [] p ctx e = tt
  history-finalize_first (v ∷ vs) p ctx e =
      history-wake _
      ∙ (ap (λ (l : List (Bytes × ℕ)). l ++ map key vs) (map-append _ ctx.completed _)
          ∙ (append_assoc (map done ctx.completed) (key v ∷ []) (map key vs)
              ∙ ap (λ (l : List (Video env)). map done ctx.completed ++ map key l) (sym e)))

  history-store_player :
      (url : Bytes) (p : env.SigActions) (ctx : DlCtx env)
      → Ensures (λ c. history c ≡ history ctx) (store_player env url p ctx)
  unfolding store_player finalize
  history-store_player url p ctx = elim (Option-cases (env.hashmap_put ctx.player_map url p)) [
    | inl e ↦ rw (e, Ensures, store_player) refl
    | inr (m, e) ↦ rw (e, Ensures, store_player) (history-finalize_first ctx.videos p _ refl)
  ]

  history-player_js_first :
      (vs : List (Video env)) (ctx : DlCtx env)
      → Ensures (λ c. history c ≡ history ctx) (player_js_first env vs ctx)
  unfolding player_js_first
  history-player_js_first [] ctx = tt
  history-player_js_first (v ∷ vs) ctx =
      elim (Option-cases
        (env.sig_actions_extract (take ctx.player_js.len (contents ctx.player_js)))) [
          | inl e ↦ rw (e, Ensures, player_js_first) refl
          | inr (p, e) ↦
              rw (e, Ensures, player_js_first) (history-store_player (url_of env v.info) p ctx)
        ]

  history-need_player :
      (url : Bytes) (ctx : DlCtx env)
      → Ensures (λ c. history c ≡ history ctx) (need_player env url ctx)
  unfolding need_player finalize
  history-need_player url ctx = elim (Option-cases (env.hashmap_get ctx.player_map url)) [
    | inl e ↦ rw (e, Ensures, need_player) refl
    | inr (p, e) ↦ rw (e, Ensures, need_player) (history-finalize_first ctx.videos p ctx refl)
  ]

  -- Reading a page into the first video changes neither its id nor its callback.
  history-read :
      (v : Video env) (vs : List (Video env)) (info : env.Info) (ctx : DlCtx env)
      → ctx.videos ≡ v ∷ vs
      → history (record ctx { videos = with_info env info v ∷ vs }) ≡ history ctx
  history-read v vs info ctx e =
      ap (λ (l : List (Video env)). map done ctx.completed ++ map key l) (sym e)

  history-watch_html_first :
      (vs : List (Video env)) (ctx : DlCtx env)
      → ctx.videos ≡ vs
      → Ensures (λ c. history c ≡ history ctx) (watch_html_first env vs ctx)
  unfolding watch_html_first
  history-watch_html_first [] ctx h = tt
  history-watch_html_first (v ∷ vs) ctx h =
      elim (Option-cases (env.extract_watch_html (take v.response.len (contents v.response)))) [
        | inl e ↦ rw (e, Ensures, watch_html_first) refl
        | inr (info, e) ↦
            rw (e, Ensures, watch_html_first)
              (elim (Bool-cases (env.is_playable info)) [
                | inl t ↦
                    rw (t, Ensures)
                      (subst
                        (λ (l : List (Bytes × ℕ)).
                          Ensures (λ c. history c ≡ l)
                            (need_player env (env.player_url info)
                              (record ctx { videos = with_info env info v ∷ vs })))
                        (history-read v vs info ctx h)
                        (history-need_player (env.player_url info)
                          (record ctx { videos = with_info env info v ∷ vs })))
                | inr t ↦
                    rw (t, Ensures)
                      (elim (Option-cases (env.status_message info)) [
                        | inl g ↦ rw (g, Ensures) tt
                        | inr (text, g) ↦ rw (g, Ensures) (history-read v vs info ctx h)
                      ])
              ])
      ]

  history-call_on_complete :
      (k : CompleteHandler) (ctx : DlCtx env)
      → Ensures (λ c. history c ≡ history ctx) (call_on_complete env k ctx)
  unfolding call_on_complete watch_html_complete_cb player_js_complete_cb
  history-call_on_complete watch_html_complete ctx = history-watch_html_first ctx.videos ctx refl
  history-call_on_complete player_js_complete ctx = history-player_js_first ctx.videos ctx

  history-watch_body_first :
      (vs : List (Video env)) (at : Bytes) (ctx : DlCtx env)
      → ctx.videos ≡ vs
      → Ensures (λ c. history c ≡ history ctx) (watch_body_first env vs at ctx)
  unfolding watch_body_first
  history-watch_body_first [] at ctx h = tt
  history-watch_body_first (v ∷ vs) at ctx h =
      ap (λ (l : List (Video env)). map done ctx.completed ++ map key l) (sym h)

  history-call_on_body :
      (k : BodyHandler) (at : Bytes) (ctx : DlCtx env)
      → Ensures (λ c. history c ≡ history ctx) (call_on_body env k at ctx)
  unfolding call_on_body player_body_cb
  history-call_on_body watch_body at ctx = history-watch_body_first ctx.videos at ctx refl
  history-call_on_body player_body at ctx = refl

  history-get_info :
      (id : Bytes) (cb : ℕ) (ctx : DlCtx env)
      → Ensures
          (λ c. history c ≡ history ctx ++ (take id_size id, cb) ∷ [])
          (get_info env id cb ctx)
  unfolding get_info
  history-get_info id cb ctx = elim (Bool-cases (ltb (length ctx.videos) (grown env ctx))) [
    | inl e ↦
        rw (e, Ensures)
          (history-wake _
            ∙ (ap (λ (l : List (Bytes × ℕ)). map done ctx.completed ++ l)
                  (map-append key ctx.videos _)
                ∙ sym (append_assoc (map done ctx.completed) (map key ctx.videos) _)))
    | inr e ↦ rw (e, Ensures) tt
  ]

  history-step :
      (e : Event) (ctx : DlCtx env)
      → Ensures (λ c. history c ≡ history ctx ++ asked (e ∷ [])) (step env e ctx)
  unfolding step connected_cb body message_complete
  history-step (asks id cb) ctx = history-get_info id cb ctx
  history-step (piece at) ctx = rw append-nil (history-call_on_body ctx.on_body at ctx)
  history-step response ctx = rw append-nil (history-call_on_complete ctx.on_message_complete ctx)
  history-step connects ctx = rw append-nil (history-wake _)

  asked-cons : (e : Event) (es : List Event) → asked (e ∷ []) ++ asked es ≡ asked (e ∷ es)
  asked-cons (asks id cb) es = refl
  asked-cons (piece at) es = refl
  asked-cons response es = refl
  asked-cons connects es = refl

  Ensures-run :
      (es : List Event) (ctx : DlCtx env)
      → Ensures (λ c. history c ≡ history ctx ++ asked es) (run env es ctx)
  unfolding run
  Ensures-run [] ctx = sym (append-nil (history ctx))
  Ensures-run (e ∷ es) ctx =
      Ensures-bind (λ c. history c ≡ history ctx ++ asked (e ∷ []))
        (λ c. history c ≡ history ctx ++ asked (e ∷ es)) (step env e ctx) (run env es)
        (history-step e ctx)
        λ c h.
          subst (λ (l : List (Bytes × ℕ)). Ensures (λ d. history d ≡ l) (run env es c))
            (ap (λ (l : List (Bytes × ℕ)). l ++ asked es) h
              ∙ (append_assoc (history ctx) (asked (e ∷ [])) (asked es)
                  ∙ ap (λ (l : List (Bytes × ℕ)). history ctx ++ l) (asked-cons e es)))
            (Ensures-run es c)

  -- Along any run the videos done, in the order in which they were done, followed by those that wait
  -- are exactly those of before followed by those asked for meanwhile.
  pub history-run :
      (es : List Event) (ctx ctx' : DlCtx env)
      → run env es ctx ≡ some ctx'
      → history ctx' ≡ history ctx ++ asked es
  history-run es ctx ctx' h =
      Ensures_elim (λ c. history c ≡ history ctx ++ asked es) (run env es ctx) (Ensures-run es ctx)
        h
