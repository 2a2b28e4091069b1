-- ===== src/Dl/Queue/Capacity.antt =====
-- The queue's array: its size starts at 1, and half as much again as 1 is still 1.
use libytdl.Base.{
  ℕ, ◌≤◌, ◌≡◌, ◌≢◌, refl, sym, ap, ◌∙◌, arith, not, List, [], ◌∷◌, none, some, length, Bytes,
  Bool-cases, inl, inr, Ensures, Ensures_elim,
}
use libytdl.Dl.Queue.{
  Services, DlCtx, Video, BodyHandler, player_body, watch_body, start_first, wake, init, get_info,
  grown, body, call_on_body, watch_body_first, player_body_cb, connected_cb,
}
use libytdl.Dl.Queue.Response.{
  Response, page_failed, unplayable, player_known, player_missing, script_failed, script_done,
  message_complete-Response,
}
use libytdl.Dl.Queue.Phase.{World, Step, ask, piece, answer, connect, Reach, here, next}
use libytdl.Dl.Queue.Protocol.{queued, get_info-queued, start}

module _ (env : Services) where
  size-start_first :
      (vs : List (Video env)) (ctx : DlCtx env) → (start_first env vs ctx).size ≡ ctx.size
  unfolding start_first
  size-start_first [] ctx = refl
  size-start_first (v ∷ vs) ctx = refl

  size-wake : (ctx : DlCtx env) → (wake env ctx).size ≡ ctx.size
  unfolding wake
  size-wake ctx = elim (Bool-cases (not ctx.is_idle)) [
    | inl e ↦ rw e
    | inr e ↦ rw e (size-start_first ctx.videos ctx)
  ]

  size-Response : (ctx c : DlCtx env) → Response env ctx c → c.size ≡ ctx.size
  size-Response ctx c (page_failed v vs m h x e) = ap (λ (d : DlCtx env). d.size) e
  size-Response ctx c (unplayable v vs info m h x y e) = ap (λ (d : DlCtx env). d.size) e
  size-Response ctx c (player_known v vs info p m h x y z e) =
      ap (λ (d : DlCtx env). d.size) e ∙ size-wake _
  size-Response ctx c (player_missing v vs info m h x y z e) = ap (λ (d : DlCtx env). d.size) e
  size-Response ctx c (script_failed v vs m h e) = ap (λ (d : DlCtx env). d.size) e
  size-Response ctx c (script_done v vs p pm m h x e) =
      ap (λ (d : DlCtx env). d.size) e ∙ size-wake _

  size-watch_body_first :
      (vs : List (Video env)) (at : Bytes) (ctx : DlCtx env)
      → Ensures (λ c. c.size ≡ ctx.size) (watch_body_first env vs at ctx)
  unfolding watch_body_first
  size-watch_body_first [] at ctx = tt
  size-watch_body_first (v ∷ vs) at ctx = refl

  size-call_on_body :
      (k : BodyHandler) (at : Bytes) (ctx : DlCtx env)
      → Ensures (λ c. c.size ≡ ctx.size) (call_on_body env k at ctx)
  unfolding call_on_body player_body_cb
  size-call_on_body watch_body at ctx = size-watch_body_first ctx.videos at ctx
  size-call_on_body player_body at ctx = refl

  grown_one : (ctx : DlCtx env) → ctx.size ≡ 1 → grown env ctx ≡ 1
  unfolding grown
  grown_one ctx h = ground arith

  size-Step : (w u : World env) → Step env w u → w.ctx.size ≡ 1 → u.ctx.size ≡ 1
  unfolding body connected_cb
  size-Step w u (ask id cb e a) h =
      ap (λ (d : DlCtx env). d.size) (get_info-queued env id cb w.ctx u.ctx e)
      ∙ (size-wake (queued env id cb w.ctx) ∙ grown_one w.ctx h)
  size-Step w u (piece at o e a) h =
      Ensures_elim (λ c. c.size ≡ w.ctx.size) (body env at w.ctx)
        (size-call_on_body w.ctx.on_body at w.ctx) e
      ∙ h
  size-Step w u (answer o e a) h =
      size-Response w.ctx u.ctx (message_complete-Response env w.ctx u.ctx e) ∙ h
  size-Step w u (connect d e a) h = ap (λ (d : DlCtx env). d.size) (sym e) ∙ (size-wake _ ∙ h)

  size-Reach : {w : World env} → Reach env (start env) w → w.ctx.size ≡ 1
  unfolding init
  size-Reach here = refl
  size-Reach (next {u = u} {v = v} r s) = size-Step u v s (size-Reach r)

  pub get_info_full :
      (id : Bytes) (cb : ℕ) (ctx : DlCtx env)
      → ctx.size ≡ 1
      → ctx.videos ≢ []
      → get_info env id cb ctx ≡ none
  unfolding get_info grown
  get_info_full id cb ctx h k = ground arith

  -- In every session that begins with a fresh context, asking for a video while another one is in
  -- the queue writes outside the queue's array.
  pub second_video_faults :
      {w : World env} (id : Bytes) (cb : ℕ)
      → Reach env (start env) w
      → w.ctx.videos ≢ []
      → get_info env id cb w.ctx ≡ none
  second_video_faults {w} id cb r h = get_info_full id cb w.ctx (size-Reach r) h

  -- With an array of two entries or more the growth makes room, and asking does not fault.
  pub get_info_room :
      (id : Bytes) (cb : ℕ) (ctx : DlCtx env)
      → 2 ≤ ctx.size
      → length ctx.videos ≤ ctx.size
      → get_info env id cb ctx ≡ some (wake env (queued env id cb ctx))
  unfolding get_info grown
  get_info_room id cb ctx h k = ground arith
