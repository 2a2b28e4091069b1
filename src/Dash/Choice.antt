-- ===== src/Dash/Choice.antt =====
-- What `ytdl_dash_get_format` of src/dash.c chooses with
-- `ytdl_dash_get_best_representation`.
use libytdl.Base.{
  ◌≤◌, ◌≡◌, refl, sym, ap, subst, ◌∙◌, inl, inr, Bool, true, false, ◌&&◌, List, [], ◌∷◌, Option,
  none, some, codes, bytes_eq, All, arith, Bool-cases, >>=-eq-some, Ensures_elim, ret_0,
}
use mathlib.Core.Option.{some-injective}
use libytdl.Dash.{
  Xml, Track, DashCtx, init, track, empty_track, get_best_representation, pick_sets, Filter,
  read_representation, count_segments,
}
use libytdl.Dash.Offers.{offers, Among, Improves, bandwidth_of, bandwidth_held}
use libytdl.Dash.Best.{pick_sets-Improves}
use libytdl.Dash.Format.{
  get_format, get_root, get_period, first_element, read_tracks, read_track, count_track, is_some,
  children_of_head,
}

module _ (xml : Xml) where
  open xml use {Node, children, name}

  rep-read_representation :
      (nodes : List Node) (t : Track xml) → (read_representation xml nodes t).rep ≡ t.rep
  unfolding read_representation
  rep-read_representation [] t = refl
  rep-read_representation (node ∷ rest) t = rep-read_representation rest _ ∙ ground arith

  rep-count_segments :
      (nodes : List Node) (t : Track xml) → (count_segments xml nodes t).rep ≡ t.rep
  unfolding count_segments
  rep-count_segments [] t = refl
  rep-count_segments (node ∷ rest) t = rep-count_segments rest _ ∙ ground arith

  rep-read_track :
      (r : Option Node) (t : Track xml) → (count_track xml (read_track xml r t)).rep ≡ t.rep
  unfolding read_track count_track
  rep-read_track none t = rep-count_segments (children_of_head xml t.segment_list) t
  rep-read_track (some n) t =
      rep-count_segments _ (read_representation xml (children n) t)
      ∙ rep-read_representation (children n) t

  read_tracks_inv :
      (c d : DashCtx xml)
      → read_tracks xml c ≡ (ret_0, d)
      → ((is_some c.video.rep && is_some c.audio.rep) ≡ true)
        × (d ≡ record c {
          video = count_track xml (read_track xml c.video.rep c.video);
          audio = count_track xml (read_track xml c.audio.rep c.audio);
        })
  unfolding read_tracks
  read_tracks_inv c d h = (ground arith, ground arith)

  read_tracks_rep :
      (v : Bool) (c d : DashCtx xml)
      → read_tracks xml c ≡ (ret_0, d)
      → ((track xml v d).rep ≡ (track xml v c).rep) × (is_some (track xml v c).rep ≡ true)
  read_tracks_rep true c d h =
      let (g, e) = read_tracks_inv c d h in
      (ap (λ x. x.video.rep) e ∙ rep-read_track c.video.rep c.video, ground arith)
  read_tracks_rep false c d h =
      let (g, e) = read_tracks_inv c d h in
      (ap (λ x. x.audio.rep) e ∙ rep-read_track c.audio.rep c.audio, ground arith)

  chosen :
      (reps : List Node) (r : Option Node) (t : Track xml)
      → Improves xml reps (empty_track xml) t
      → r ≡ t.rep
      → is_some t.rep ≡ true
      → Among xml r reps × All (λ n. bandwidth_of xml n ≤ bandwidth_held xml r) reps
  chosen reps r t (l, p, h, inl e) f s = absurd (cc)
  chosen reps r t (l, p, h, inr m) f s = (
    subst (λ q. Among xml q reps) (sym f) m,
    subst (λ k. All (λ n. bandwidth_of xml n ≤ k) reps)
        (sym (h refl) ∙ ap (bandwidth_held xml) (sym f)) p,
  )

  get_period_inv :
      (filter : Filter xml) (period : Node) (ctx d : DashCtx xml)
      → get_period xml filter period ctx ≡ some (ret_0, d)
      → (c : DashCtx xml) × (pick_sets xml filter (children period) ctx ≡ some c)
        × (read_tracks xml c ≡ (ret_0, d))
  unfolding get_period
  get_period_inv filter period ctx d h =
      elim (Bool-cases (bytes_eq (name period) (codes "Period"))) [
        | inl e ↦
            let (c, p, q) =
              >>=-eq-some (pick_sets xml filter (children period) ctx)
                (λ c. some (read_tracks xml c)) (sym (rw e refl) ∙ h) in
            (c, p, some-injective (read_tracks xml c) (ret_0, d) q)
        | inr e ↦ absurd (cc)
      ]

  get_root_inv :
      (filter : Filter xml) (root period : Node) (ctx d : DashCtx xml)
      → first_element xml (children root) ≡ some period
      → get_root xml filter root ctx ≡ some (ret_0, d)
      → get_period xml filter period ctx ≡ some (ret_0, d)
  unfolding get_root
  get_root_inv filter root period ctx d f h =
      elim (Bool-cases (bytes_eq (name root) (codes "MPD"))) [
        | inl e ↦ sym (rw (e, f) refl) ∙ h
        | inr e ↦ absurd (cc)
      ]

  abbrev parsed : Node → DashCtx xml
  parsed root = record { root = some root; audio = empty_track xml; video = empty_track xml }

  track-parsed : (v : Bool) (root : Node) → track xml v (parsed root) ≡ empty_track xml
  track-parsed true root = refl
  track-parsed false root = refl

  -- If the manifest whose root is given is read without an error, then the representation that is
  -- chosen for the video, and likewise the one for the audio, is one that an adaptation set of its
  -- period offers, and no offered one states a greater bandwidth, as `atoll` reads it: a number that a
  -- `long long` does not hold counts as the greatest of them.
  pub get_format-best :
      (v : Bool) (root period : Node) (d : DashCtx xml)
      → first_element xml (children root) ≡ some period
      → get_format xml (get_best_representation xml) (init xml (some (some root))).1
        ≡ some (ret_0, d)
      → Among xml (track xml v d).rep (offers xml v (children period))
        × All
            (λ n. bandwidth_of xml n ≤ bandwidth_held xml (track xml v d).rep)
            (offers xml v (children period))
  unfolding get_format init
  get_format-best v root period d f h =
      let best = get_best_representation xml in
      let (c, p, q) =
        get_period_inv best period (parsed root) d
          (get_root_inv best root period (parsed root) d f h) in
      let (r, s) = read_tracks_rep v c d q in
      chosen (offers xml v (children period)) (track xml v d).rep (track xml v c)
        (subst (λ t. Improves xml (offers xml v (children period)) t (track xml v c))
          (track-parsed v root)
          (Ensures_elim _ _ (pick_sets-Improves xml v (children period) (parsed root)) p))
        r s
