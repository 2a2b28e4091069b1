-- ===== src/Dl/Stream/Session.antt =====
-- A session of the DASH downloader of src/dl.c over the segments of a track.
use libytdl.Base.{
  ℕ, zero, suc, ◌≡◌, refl, sym, ap, subst, ◌∙◌, Bool, true, false, List, [], ◌∷◌, ◌++◌,
  append_assoc, append-nil, map, length, Option, none, some, Bytes, arith,
}
use libytdl.Buffer.{contents}
use libytdl.Dash.{Xml, Track, DashCtx, track, set_track}
use libytdl.Dash.Segments.{
  medias, after, stored, next_segment, next_video_segment, next_audio_segment, next_from_done,
  next_from-after, next_segment-from, next_segment-initial,
}
use libytdl.Dl.Stream.{
  StreamCtx, segment_request, proceed, next_chunk, segment_complete_cb, segment_connected_cb,
  message_complete, segment_complete, echo_body, on_complete,
}

module _ (xml : Xml) where
  -- A number of responses that the parser reads to their ends.
  pub responses : ℕ → StreamCtx xml → StreamCtx xml
  responses zero ctx = ctx
  responses (suc n) ctx = responses n (message_complete xml ctx)

  -- The state of a session of its own accord: it listens to segments, does not pause and does not
  -- report each segment.
  pub record Streams (ctx : StreamCtx xml) : Type 0 where
    pub unpaused : ctx.pause_between_chunks ≡ false
    pub silent : ctx.has_on_segment_complete ≡ false

  abbrev advance : Bool → Track xml → StreamCtx xml → StreamCtx xml
  advance v u ctx = record ctx { dash = set_track xml v u ctx.dash }

  next_chunk_lem :
      (v : Bool) (ctx : StreamCtx xml) (m : Option Bytes) (u : Track xml)
      → ctx.is_video ≡ v
      → next_segment xml (track xml v ctx.dash) ≡ (m, u)
      → next_chunk xml ctx ≡ proceed xml (m, set_track xml v u ctx.dash) ctx
  unfolding next_chunk next_video_segment next_audio_segment
  next_chunk_lem true ctx m u e h =
      rw e (ap (λ r. proceed xml (stored xml true ctx.dash r) (record ctx { is_video = true })) h)
  next_chunk_lem false ctx m u e h =
      rw e (ap (λ r. proceed xml (stored xml false ctx.dash r) (record ctx { is_video = false })) h)

  message_complete_lem :
      (ctx : StreamCtx xml)
      → Streams ctx
      → ctx.on_message_complete ≡ segment_complete
      → message_complete xml ctx ≡ next_chunk xml ctx
  unfolding message_complete segment_complete_cb
  message_complete_lem ctx s e = ground (arith, s.silent, s.unpaused)

  track_set : (v : Bool) (u : Track xml) (d : DashCtx xml) → track xml v (set_track xml v u d) ≡ u
  track_set true u d = refl
  track_set false u d = refl

  abbrev requested : StreamCtx xml → Bytes → Bytes
  requested ctx segment = contents (segment_request xml ctx segment)

  -- What a session has done when it ends: the requests written since, and the one report.
  abbrev Ended : StreamCtx xml → List Bytes → StreamCtx xml → Type 0
  Ended ctx ms c =
      (c.written ≡ ctx.written ++ map (requested ctx) ms)
      × (c.calls ≡ ctx.calls ++ on_complete ∷ [])

  step :
      (v : Bool) (ctx : StreamCtx xml) (m : Option Bytes) (u : Track xml) (n : ℕ)
      → Streams ctx
      → ctx.on_message_complete ≡ segment_complete
      → ctx.is_video ≡ v
      → next_segment xml (track xml v ctx.dash) ≡ (m, u)
      → responses n (proceed xml (m, set_track xml v u ctx.dash) ctx) ≡ responses (suc n) ctx
  unfolding responses
  step v ctx m u n s l e h =
      ap (responses n) (sym (message_complete_lem ctx s l ∙ next_chunk_lem v ctx m u e h))

  session_from :
      (ms : List Bytes) (v : Bool) (ctx : StreamCtx xml) (t : Track xml) (p : Bytes)
      → Streams ctx
      → ctx.on_message_complete ≡ segment_complete
      → ctx.is_video ≡ v
      → track xml v ctx.dash ≡ t
      → t.segment_path ≡ some p
      → medias xml t.segment_list ≡ map some ms
      → Ended ctx ms (responses (suc (length ms)) ctx)
  unfolding responses proceed
  session_from [] v ctx t p s l e f g h =
      subst (Ended ctx [])
        (step v ctx none _ 0 s l e (
          ap (next_segment xml) f
          ∙ next_segment-from xml t p g
          ∙ next_from_done xml t.segment_list t h))
        (sym (append-nil _), refl)
  session_from (m ∷ ms) v ctx t p s l e f g h =
      let (k, r) = next_from-after xml t.segment_list t (some m) (map some ms) h in
      let u = record t { segment_path = some m; segment_list = after xml t.segment_list } in
      let c = proceed xml (some m, set_track xml v u ctx.dash) ctx in
      let (w, q) =
        session_from ms v c u m (record { unpaused = s.unpaused; silent = s.silent }) l e
          (track_set v u ctx.dash) refl r in
      subst (Ended ctx (m ∷ ms))
        (step v ctx (some m) u (suc (length ms)) s l e
          (ap (next_segment xml) f ∙ next_segment-from xml t p g ∙ k))
        (w ∙ append_assoc ctx.written (requested ctx m ∷ []) (map (requested ctx) ms), q)

  -- A session that neither pauses nor reports each segment, on a track at its start that has an
  -- initial segment and a path on each of its segment elements, requests the initial segment when
  -- it is connected, then one segment after each response, in order; after the last response it has
  -- written those requests and no other, and has reported its completion once.
  pub segments-written :
      (ms : List Bytes) (v : Bool) (ctx : StreamCtx xml) (i : Bytes)
      → Streams ctx
      → ctx.is_video ≡ v
      → (track xml v ctx.dash).segment_path ≡ none
      → (track xml v ctx.dash).initial_segment ≡ some i
      → medias xml (track xml v ctx.dash).segment_list ≡ map some ms
      → Ended ctx (i ∷ ms) (responses (suc (length ms)) (segment_connected_cb xml ctx))
  unfolding segment_connected_cb proceed
  segments-written ms v ctx i s e f g h =
      let t = track xml v ctx.dash in
      let u = record t { segment_path = some i } in
      let opened = record ctx { on_body = echo_body; on_message_complete = segment_complete } in
      let c = proceed xml (some i, set_track xml v u ctx.dash) opened in
      let (w, q) =
        session_from ms v c u i (record { unpaused = s.unpaused; silent = s.silent }) refl e
          (track_set v u ctx.dash) refl h in
      subst (λ z. Ended ctx (i ∷ ms) (responses (suc (length ms)) z))
        (sym (next_chunk_lem v opened (some i) u e (next_segment-initial xml t i f g)))
        (w ∙ append_assoc ctx.written (requested ctx i ∷ []) (map (requested ctx) ms), q)
