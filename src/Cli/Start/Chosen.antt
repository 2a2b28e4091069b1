-- ===== src/Cli/Start/Chosen.antt =====
-- The start of the two media downloaders in src/cli.c.
use libytdl.Base.{
  ℕ, ◌⊎◌, zero, suc, ◌<◌, ◌%◌, ◌^◌, ◌≡◌, refl, sym, ap, subst, ◌∙◌, inl, inr, true, false, not,
  ◌||◌, List, [], ◌∷◌, map, Option, some, ◌>>=◌, length, get_elem?, set, Bytes, c_str, All, Returns,
  Returns-bind, Returns_step, Returns_if_true, Option-cases, some-injective,
}
use libytdl.Sig.{Action}
use libytdl.Info.{Format}
use libytdl.Info.Choice.{video_rank, audio_rank, any_unrated, IsSmall}
use libytdl.Info.Context.{Tree, Entry, InfoCtx}
use libytdl.Info.Response.{new_entry}
use libytdl.Info.Select.{populate_first, best_video_format, best_audio_format}
use libytdl.Info.Select.Known.{
  formats, IsChoice, readied, best_video_format-Choice, best_audio_format-Choice,
}
use libytdl.Info.Url.{get_format_url}
use libytdl.Net.Url.{Url}
use libytdl.Dash.{Xml}
use libytdl.Dl.Media.{MediaCtx}
use libytdl.Cli.Start.{
  Calls, Name, Outcome, started, out_of_memory, listed, by_dash, by_media, url_at, start_media,
  with_audio, with_media, find_media,
}

-- Every allocation succeeds, and the clients are initialised.
pub record AllOk (calls : Calls) : Type 0 where
  pub video_ok : calls.video_ok ≡ true
  pub vid_m_ok : calls.vid_m_ok ≡ true
  pub dl_ctx_ok : calls.dl_ctx_ok ≡ true
  pub aud_m_ok : calls.aud_m_ok ≡ true
  pub dl_ctx_a_ok : calls.dl_ctx_a_ok ≡ true
  pub client_ok : calls.client_ok ≡ true

All-get_elem? {ℓ} :
    {A : Type ℓ} (P : A → Type 0) (xs : List A) (i : ℕ) (x : A)
    → All P xs
    → get_elem? xs i ≡ some x
    → P x
All-get_elem? P [] i x h e = cc
All-get_elem? P (y ∷ xs) zero x h e = subst P (some-injective y x e) h.0
All-get_elem? P (y ∷ xs) (suc i) x h e = All-get_elem? P xs i x h.1 e

module _ (tree : Tree) (xml : Xml) (parse_url : Bytes → Option Url)
    (read_memory : Bytes → Option (Option xml.Node)) (print_name : Name tree xml → Bytes)
    (script : Bytes → Option Bytes) (calls : Calls) (actions : List (Action × ℕ)) where
  open tree use {json, members}

  -- The values of formats that can be used: they are read without a fault, an `int` holds the sum and
  -- the product of each, those with only sound state their quality, and each has a URL.
  pub record IsUsable (vs : List json.Value) : Type 0 where
    pub entries : List (Entry tree)
    pub readable : populate_first tree (length vs) (map (new_entry tree) vs) ≡ some entries
    pub small : All IsSmall (formats tree entries)
    pub rated : any_unrated (formats tree entries) ≡ false
    pub url : Entry tree → Bytes
    pub urls :
        All
          (λ e.
            get_format_url actions json (members e.val) script e.url e.format ≡ some (some (url e)))
          entries

  -- A media downloader for a format with a URL, and the total count that is kept of it.
  abbrev MediaFor : Format → Bytes → MediaCtx → ℕ → Type 0
  MediaFor f url m total =
      (m.format_url ≡ c_str url)
      × (m.format_content_length ≡ f.content_length)
      × (m.is_chunked ≡ (not f.flags.has_aud || not f.flags.has_vid))
      × (total ≡ f.content_length % 2 ^ 32)

  start_media-MediaFor :
      (f : Format) (url : Bytes) (memory : MediaCtx)
      → calls.client_ok ≡ true
      → MediaFor f url
          (start_media tree xml parse_url read_memory print_name script calls actions f url memory)
          (f.content_length % 2 ^ 32)
  unfolding start_media libytdl.Dl.Media.ctx_init libytdl.Dl.Media.ctx_connect libytdl.Dl.Media.call
  start_media-MediaFor f url memory ok = elim (Option-cases (parse_url (c_str url))) [
    | inl e ↦ rw (ok, e) (refl, refl, refl, refl)
    | inr (u, e) ↦ rw (ok, e) (refl, refl, refl, refl)
  ]

  -- The place of an entry after the URL of one was kept.
  kept_lem :
      (es : List (Entry tree)) (i j : ℕ) (x y : Entry tree) (w : Bytes)
      → get_elem? es i ≡ some x
      → get_elem? es j ≡ some y
      → (get_elem? (set es i (record x { url = some w })) j ≡ some y)
        ⊎ ((get_elem? (set es i (record x { url = some w })) j ≡ some (record y { url = some w }))
            × (x ≡ y))
  kept_lem [] i j x y w e f = cc
  kept_lem (z ∷ es) zero zero x y w e f =
      inr (ap {A = Entry tree} (λ v. some (record v { url = some w })) (same z e f), same z e f)
    where
      same : (z : Entry tree) → some z ≡ some x → some z ≡ some y → x ≡ y
      same z e f = some-injective _ _ (sym e ∙ f)
  kept_lem (z ∷ es) zero (suc j) x y w e f = inl f
  kept_lem (z ∷ es) (suc i) zero x y w e f = inl f
  kept_lem (z ∷ es) (suc i) (suc j) x y w e f = kept_lem es i j x y w e f

  abbrev url_of : Entry tree → Option (Option Bytes)
  url_of e = get_format_url actions json (members e.val) script e.url e.format

  abbrev at_url : ℕ → InfoCtx tree → Option (Entry tree × Bytes × InfoCtx tree)
  at_url i c = url_at tree xml parse_url read_memory print_name script calls actions i c

  abbrev keep : ℕ → InfoCtx tree → Entry tree → Bytes → InfoCtx tree
  keep i c e w = record c { formats = set c.formats i (record e { url = some w }) }

  url_at_lem :
      (i : ℕ) (c : InfoCtx tree) (e : Entry tree) (w : Bytes)
      → get_elem? c.formats i ≡ some e
      → url_of e ≡ some (some w)
      → at_url i c ≡ some (e, w, keep i c e w)
  unfolding url_at
  url_at_lem i c e w h u =
      ap (λ m. m >>= λ e. url_of e >>= λ m. m >>= λ w. some (e, w, keep i c e w)) h
      ∙ ap (λ m. m >>= λ m. m >>= λ w. some (e, w, keep i c e w)) u

  -- The URL of the second format, which may be the first.
  url_again :
      (i j : ℕ) (c : InfoCtx tree) (x y : Entry tree) (url : Entry tree → Bytes)
      → get_elem? c.formats i ≡ some x
      → get_elem? c.formats j ≡ some y
      → url_of y ≡ some (some (url y))
      → Returns (λ (e, w, d). (e.format ≡ y.format) × (w ≡ url y)) (at_url j (keep i c x (url x)))
  unfolding get_format_url
  url_again i j c x y url h k u = elim (kept_lem c.formats i j x y (url x) h k) [
    | inl e ↦ subst (Returns _) (sym (url_at_lem j (keep i c x (url x)) y (url y) e u)) (refl, refl)
    | inr (e, same) ↦
        subst (Returns _)
          (sym (url_at_lem j (keep i c x (url x)) (record y { url = some (url x) }) (url x) e refl))
          (refl, ap url same)
  ]

  -- One of the entries, with a format of the greatest rank.
  abbrev IsBest : (Format → ℕ) → List (Entry tree) → Entry tree → Type 0
  IsBest rank es e = ((i : ℕ) × (get_elem? es i ≡ some e)) × IsChoice tree rank es e

  -- Two media downloaders are started with the name, for a best format for the video and one for the
  -- audio, each with the format's URL.
  abbrev pub Starts : Bytes → List (Entry tree) → (Entry tree → Bytes) → Outcome tree xml → Type 0
  Starts path es url (started p (by_media v n a m)) =
      (p ≡ path)
      × (x : Entry tree) × (y : Entry tree) × IsBest video_rank es x
      × IsBest audio_rank es y
      × MediaFor x.format (url x) v n
      × MediaFor y.format (url y) a m
  Starts path es url (started p (by_dash s)) = ⊥
  Starts path es url out_of_memory = ⊥
  Starts path es url (listed c) = ⊥

  module _ (ok : AllOk calls) (path : Bytes) (vm am : MediaCtx) (es : List (Entry tree))
      (url : Entry tree → Bytes) where
    with_audio_lem :
        (x y : Entry tree) (v : MediaCtx) (n j : ℕ) (c : InfoCtx tree)
        → IsBest video_rank es x
        → IsBest audio_rank es y
        → MediaFor x.format (url x) v n
        → Returns (λ (e, w, d). (e.format ≡ y.format) × (w ≡ url y)) (at_url j c)
        → Returns (Starts path es url) (
            with_audio tree xml parse_url read_memory print_name script calls actions path v n j am
              c)
    unfolding with_audio
    with_audio_lem x y v n j c bx by mx q =
        Returns_if_true (Starts path es url) calls.aud_m_ok _ _ ok.aud_m_ok (
          Returns_if_true (Starts path es url) calls.dl_ctx_a_ok _ _ ok.dl_ctx_a_ok (
            Returns-bind (λ (e, w, d). (e.format ≡ y.format) × (w ≡ url y)) (Starts path es url)
              (at_url j c) _ q
              (λ (e, w, d) (f, u).
                let m =
                  start_media tree xml parse_url read_memory print_name script calls actions
                    e.format w am in
                let n : ℕ = e.format.content_length % 2 ^ 32 in
                let for_e = start_media-MediaFor e.format w am ok.client_ok in
                (
                  refl,
                  x,
                  y,
                  bx,
                  by,
                  mx,
                  subst (λ w. MediaFor y.format w m n) u (subst (λ f. MediaFor f w m n) f for_e),
                ))))

    with_media_lem :
        (x y : Entry tree) (i j : ℕ) (c : InfoCtx tree)
        → c.formats ≡ es
        → get_elem? es i ≡ some x
        → get_elem? es j ≡ some y
        → IsBest video_rank es x
        → IsBest audio_rank es y
        → url_of x ≡ some (some (url x))
        → url_of y ≡ some (some (url y))
        → Returns (Starts path es url) (
            with_media tree xml parse_url read_memory print_name script calls actions path vm am i j
              c)
    unfolding with_media
    with_media_lem x y i j c s h k bx by ux uy =
        let h2 = subst (λ es. get_elem? es i ≡ some x) (sym s) h in
        let k2 = subst (λ es. get_elem? es j ≡ some y) (sym s) k in
        Returns_if_true (Starts path es url) calls.vid_m_ok _ _ ok.vid_m_ok (
          Returns_if_true (Starts path es url) calls.dl_ctx_ok _ _ ok.dl_ctx_ok (
            Returns_step (Starts path es url) (at_url i c) _ (url_at_lem i c x (url x) h2 ux) (
              with_audio_lem x y _ _ j (keep i c x (url x)) bx by
                (start_media-MediaFor x.format (url x) vm ok.client_ok)
                (url_again i j c x y url h2 k2 uy))))

    pub find_media_lem :
        (c : InfoCtx tree)
        → c.is_fmt_populated ≡ false
        → populate_first tree c.formats_size c.formats ≡ some es
        → c.formats_size ≡ length es
        → All IsSmall (formats tree es)
        → 0 < length es
        → any_unrated (formats tree es) ≡ false
        → All (λ e. url_of e ≡ some (some (url e))) es
        → Returns
            (Starts path es url)
            (find_media tree xml parse_url read_memory print_name script calls actions path vm am c)
    unfolding find_media
    find_media_lem c f r s sm l u urls =
        let (i, v, x_at) = best_video_format-Choice tree c es f r s sm l in
        let (j, a, y_at) = best_audio_format-Choice tree c es f r s sm l u in
        let (x, h, bx) = x_at in
        let (y, k, by) = y_at in
        Returns_step (Starts path es url) (best_video_format tree c) _ v (
          Returns_step (Starts path es url) (get_elem? es i) _ h (
            Returns_step (Starts path es url) (best_audio_format tree (readied tree c es f r s sm))
              _ a
              (Returns_step (Starts path es url) (get_elem? es j) _ k (
                with_media_lem x y i j (readied tree c es f r s sm) refl h k ((i, h), bx)
                  ((j, k), by) (All-get_elem? _ es i x urls h) (All-get_elem? _ es j y urls k)))))
