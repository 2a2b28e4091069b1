-- ===== src/Dash/Segments.antt =====
-- The iterators `ytdl_dash_next_video_segment` and `ytdl_dash_next_audio_segment` of src/dash.c.
use libytdl.Base.{
  ℕ, zero, suc, ◌+◌, ◌≡◌, refl, ap, ◌∙◌, Bool, true, false, List, [], ◌∷◌, ◌++◌, map, Option, none,
  some, inl, inr, if◌then◌else◌, length, Bytes, codes, arith, Bool-cases,
}
use libytdl.Dash.{Xml, Track, DashCtx, set_track, is_named}

module _ (xml : Xml) where
  open xml use {Node, get_prop}

  -- The loop along the list.
  unfoldable pub next_from : List Node → Track xml → Option Bytes × Track xml
  next_from [] t = (none, record t { segment_path = none; segment_list = [] })
  next_from (node ∷ rest) t =
      if is_named xml (codes "SegmentURL") node
      then (
        get_prop node (codes "media"),
        record t { segment_path = get_prop node (codes "media"); segment_list = rest },
      )
      else next_from rest t

  -- With no path yet the first segment is the initial one.
  unfoldable pub next_of : Option Bytes → Option Bytes → Track xml → Option Bytes × Track xml
  next_of none (some initial) t = (some initial, record t { segment_path = some initial })
  next_of none none t = next_from t.segment_list t
  next_of (some path) initial t = next_from t.segment_list t

  -- `ytdl_dash_next_…_segment` on one track.
  unfoldable pub next_segment : Track xml → Option Bytes × Track xml
  next_segment t = next_of t.segment_path t.initial_segment t

  abbrev pub stored : Bool → DashCtx xml → Option Bytes × Track xml → Option Bytes × DashCtx xml
  stored is_video ctx (path, t) = (path, set_track xml is_video t ctx)

  unfoldable pub next_video_segment : DashCtx xml → Option Bytes × DashCtx xml
  next_video_segment ctx = stored true ctx (next_segment ctx.video)

  unfoldable pub next_audio_segment : DashCtx xml → Option Bytes × DashCtx xml
  next_audio_segment ctx = stored false ctx (next_segment ctx.audio)

  -- The results of a number of calls.
  abbrev results_of :
      (Track xml → List (Option Bytes)) → Option Bytes × Track xml → List (Option Bytes)
  results_of k (path, t) = path ∷ k t

  pub results : ℕ → Track xml → List (Option Bytes)
  unfolding next_segment
  results zero t = []
  results (suc n) t = results_of (results n) (next_segment t)

  -- The `media` attributes of the segment elements, in order.
  abbrev pub medias : List Node → List (Option Bytes)
  medias [] = []
  medias (node ∷ rest) =
      if is_named xml (codes "SegmentURL") node
      then get_prop node (codes "media") ∷ medias rest
      else medias rest

  -- The position behind the next segment element.
  pub after : List Node → List Node
  after [] = []
  after (node ∷ rest) = if is_named xml (codes "SegmentURL") node then rest else after rest

  pub next_from_done :
      (nodes : List Node) (t : Track xml)
      → medias nodes ≡ []
      → next_from nodes t ≡ (none, record t { segment_path = none; segment_list = [] })
  unfolding next_from
  next_from_done [] t h = refl
  next_from_done (node ∷ rest) t h = elim (Bool-cases (is_named xml (codes "SegmentURL") node)) [
    | inl e ↦ cc
    | inr e ↦ rw e (next_from_done rest t (cc))
  ]

  pub next_from-after :
      (nodes : List Node) (t : Track xml) (m : Option Bytes) (ms : List (Option Bytes))
      → medias nodes ≡ m ∷ ms
      → (next_from nodes t ≡ (m, record t { segment_path = m; segment_list = after nodes }))
        × (medias (after nodes) ≡ ms)
  unfolding next_from after
  next_from-after [] t m ms h = absurd (cc)
  next_from-after (node ∷ rest) t m ms h =
      elim (Bool-cases (is_named xml (codes "SegmentURL") node)) [
        | inl e ↦ rw e ((cc), (cc))
        | inr e ↦ rw e (next_from-after rest t m ms (cc))
      ]

  pub next_segment-from :
      (t : Track xml) (p : Bytes)
      → t.segment_path ≡ some p
      → next_segment t ≡ next_from t.segment_list t
  unfolding next_segment next_of
  next_segment-from t p f = ground arith

  pub next_segment-initial :
      (t : Track xml) (i : Bytes)
      → t.segment_path ≡ none
      → t.initial_segment ≡ some i
      → next_segment t ≡ (some i, record t { segment_path = some i })
  unfolding next_segment next_of
  next_segment-initial t i f g = ground arith

  results_step :
      (n : ℕ) (t u : Track xml) (m : Option Bytes)
      → next_segment t ≡ (m, u)
      → results (suc n) t ≡ m ∷ results n u
  unfolding results
  results_step n t u m e = ap (results_of (results n)) e

  -- From a path on, the rest of the segments follow, then NULL, then the initial segment.
  results_from :
      (ms : List Bytes) (t : Track xml) (p i : Bytes)
      → t.segment_path ≡ some p
      → t.initial_segment ≡ some i
      → medias t.segment_list ≡ map some ms
      → results (suc (suc (length ms))) t ≡ map some ms ++ none ∷ some i ∷ []
  unfolding results
  results_from [] t p i f g h =
      results_step 1 t _ none (next_segment-from t p f ∙ next_from_done t.segment_list t h)
      ∙ ap (λ r. none ∷ r) (results_step 0 _ _ (some i) (next_segment-initial _ i refl g))
  results_from (m ∷ ms) t p i f g h =
      let (e, r) = next_from-after t.segment_list t (some m) (map some ms) h in
      results_step (suc (suc (length ms))) t _ (some m) (next_segment-from t p f ∙ e)
      ∙ ap (λ r. some m ∷ r) (results_from ms _ m i refl g r)

  -- The calls of an iterator, from its start, on a track that has an initial segment and whose
  -- segment elements all have a path, yield the initial segment, then the segments in their order,
  -- then NULL; the call after that starts again with the initial segment.
  pub next_segment-order :
      (ms : List Bytes) (t : Track xml) (i : Bytes)
      → t.segment_path ≡ none
      → t.initial_segment ≡ some i
      → medias t.segment_list ≡ map some ms
      → results (length ms + 3) t ≡ some i ∷ map some ms ++ none ∷ some i ∷ []
  next_segment-order ms t i f g h =
      ap (λ n. results n t) (omega arith)
      ∙ results_step (suc (suc (length ms))) t _ (some i) (next_segment-initial t i f g)
      ∙ ap (λ r. some i ∷ r) (results_from ms _ i i refl g h)
