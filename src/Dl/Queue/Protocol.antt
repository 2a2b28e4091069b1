-- ===== src/Dl/Queue/Protocol.antt =====
-- The phases are an invariant of every session, and no response finds the queue empty.
use libytdl.Base.{
  ℕ, ◌+◌, ◌≡◌, refl, subst, sym, ap, arith, true, false, List, [], ◌∷◌, ◌++◌, none, some, length,
  take, ltb, Bytes, Bool-cases, inl, inr, Ensures, Ensures_elim,
}
use libytdl.Buffer.{alloc, append}
use libytdl.Net.Request.{id_size}
use libytdl.Dl.Queue.{
  Services, DlCtx, Video, wake, init, get_info, grown, body, call_on_body, watch_body_first,
  player_body_cb, connected_cb,
}
use libytdl.Dl.Queue.Response.{message_complete-Response}
use libytdl.Dl.Queue.Phase.{
  World, Step, ask, piece, answer, connect, Reach, here, next, Phase, quiet, page, script,
  Unanswered, wake_busy, wake-Phase, Response-Phase, Busy, Phase-Busy,
}

module _ (env : Services) where
  abbrev pub new_video : Bytes → ℕ → Video env
  new_video id cb = record {
    id = take id_size id;
    info = none;
    response = alloc true 1;
    on_complete = cb;
  }

  abbrev pub queued : Bytes → ℕ → DlCtx env → DlCtx env
  queued id cb ctx = record ctx {
    size = grown env ctx;
    videos = ctx.videos ++ new_video id cb ∷ [];
  }

  Ensures-queued :
      (id : Bytes) (cb : ℕ) (ctx : DlCtx env)
      → Ensures (λ c. c ≡ wake env (queued id cb ctx)) (get_info env id cb ctx)
  unfolding get_info
  Ensures-queued id cb ctx = elim (Bool-cases (ltb (length ctx.videos) (grown env ctx))) [
    | inl e ↦ rw (e, Ensures) refl
    | inr e ↦ rw (e, Ensures) tt
  ]

  pub get_info-queued :
      (id : Bytes) (cb : ℕ) (ctx c : DlCtx env)
      → get_info env id cb ctx ≡ some c
      → c ≡ wake env (queued id cb ctx)
  get_info-queued id cb ctx c =
      Ensures_elim (λ d. d ≡ wake env (queued id cb ctx)) (get_info env id cb ctx)
        (Ensures-queued id cb ctx)

  abbrev PhaseAt : ℕ → DlCtx env → Type 0
  PhaseAt n c = Phase env (record { ctx = c; answered = n })

  ask-Phase :
      (id : Bytes) (cb : ℕ) (w : World env)
      → Phase env w
      → PhaseAt w.answered (wake env (queued id cb w.ctx))
  ask-Phase id cb w (quiet l i k) = elim (Bool-cases w.ctx.is_idle) [
    | inl t ↦
        wake-Phase env (queued id cb w.ctx).videos (queued id cb w.ctx) w.answered refl t
          (elim (Bool-cases w.ctx.is_connected) [ inl c ↦ c | inr c ↦ cc (k c) ]) l
    | inr t ↦
        subst (PhaseAt w.answered) (sym (wake_busy env (queued id cb w.ctx) t))
          (quiet l (λ s. cc) (λ s. t))
  ]
  ask-Phase id cb w (page v vs sent h i k b m s l) =
      subst (PhaseAt w.answered) (sym (wake_busy env (queued id cb w.ctx) i)) (
        page v (vs ++ new_video id cb ∷ []) sent
          (ap (λ (x : List (Video env)). x ++ new_video id cb ∷ []) h) i k b m s l)
  ask-Phase id cb w (script v vs info sent h i k b m g s l) =
      subst (PhaseAt w.answered) (sym (wake_busy env (queued id cb w.ctx) i)) (
        script v (vs ++ new_video id cb ∷ []) info sent
          (ap (λ (x : List (Video env)). x ++ new_video id cb ∷ []) h) i k b m g s l)

  -- A piece of a body goes to the first video, or to the script's buffer, and changes no phase.
  body-Phase :
      (at : Bytes) (w : World env)
      → Phase env w
      → Unanswered env w
      → Ensures (PhaseAt w.answered) (body env at w.ctx)
  unfolding body call_on_body watch_body_first player_body_cb
  body-Phase at w (quiet l i k) u = absurd (omega arith)
  body-Phase at w (page v vs sent h i k b m s l) u =
      rw (b, Ensures, call_on_body)
        (rw (h, Ensures, watch_body_first)
          (page (record v { response = append at v.response }) vs sent refl i k refl m s l))
  body-Phase at w (script v vs info sent h i k b m g s l) u =
      rw (b, Ensures, call_on_body) (script v vs info sent h i k refl m g s l)

  connect-Phase :
      (w : World env)
      → Phase env w
      → w.ctx.is_connected ≡ false
      → PhaseAt w.answered (connected_cb env w.ctx)
  unfolding connected_cb
  connect-Phase w (quiet l i k) d = wake-Phase env w.ctx.videos _ w.answered refl refl refl l
  connect-Phase w (page v vs sent h i k b m s l) d = absurd (cc)
  connect-Phase w (script v vs info sent h i k b m g s l) d = absurd (cc)

  at_answered : (w : World env) (n : ℕ) → w.answered ≡ n → PhaseAt n w.ctx → Phase env w
  at_answered w n e p = subst (λ k. PhaseAt k w.ctx) (sym e) p

  Step-Phase : (w u : World env) → Step env w u → Phase env w → Phase env u
  Step-Phase w u (ask id cb e a) p =
      at_answered u w.answered a (
        subst (PhaseAt w.answered) (sym (get_info-queued id cb w.ctx u.ctx e))
          (ask-Phase id cb w p))
  Step-Phase w u (piece at o e a) p =
      at_answered u w.answered a
        (Ensures_elim (PhaseAt w.answered) (body env at w.ctx) (body-Phase at w p o) e)
  Step-Phase w u (answer o e a) p =
      let b : Busy env w = Phase-Busy env w p o in
      at_answered u (w.answered + 1) a (
        Response-Phase env w.ctx u.ctx (w.answered + 1) b.not_idle b.connected b.one
          (message_complete-Response env w.ctx u.ctx e))
  Step-Phase w u (connect d e a) p =
      at_answered u w.answered a (subst (PhaseAt w.answered) e (connect-Phase w p d))

  abbrev pub start : World env
  start = record { ctx = init env; answered = 0 }

  start-Phase : Phase env start
  unfolding init
  start-Phase = quiet refl (λ s. cc) (λ s. refl)

  -- In every session that begins with a fresh context, nothing is outstanding, or one request: the
  -- one for the first video's page or its player's script, with the handlers that expect it.
  pub Reach-Phase : {w : World env} → Reach env start w → Phase env w
  Reach-Phase here = start-Phase
  Reach-Phase (next {u = u} {v = v} r s) = Step-Phase u v s (Reach-Phase r)
