-- ===== src/Cli/Start/Refused.antt =====
-- The videos for which `ytdl__info_complete` of src/cli.c has nothing to start.
use libytdl.Base.{
  ℕ, zero, suc, ◌≡◌, refl, sym, ap, subst, ◌∙◌, ◌⊎◌, inl, inr, Bool, true, false, List, [], Option,
  none, some, ◌>>=◌, if◌then◌else◌, get_elem?, Bytes, Ensures, Ensures-none, Ensures-bind,
}
use libytdl.Sig.{Action}
use libytdl.Info.Context.{Tree, InfoCtx}
use libytdl.Info.Response.{extract_formats, extract_video_details}
use libytdl.Info.Response.Lookup.{populated}
use libytdl.Info.Response.Formats.{values_of}
use libytdl.Info.Response.Known.{
  IsFresh, IsKnown, FormatsAre, manifest_of, title_of, extracted-IsKnown,
}
use libytdl.Info.Select.{populate_first, populate_all, best_video_format}
use libytdl.Net.Url.{Url}
use libytdl.Dash.{Xml}
use libytdl.Dl.Media.{MediaCtx}
use libytdl.Dl.Stream.{StreamCtx}
use libytdl.Cli.Start.{
  Calls, Name, Outcome, out_of_memory, name_of, find_media, start, info_complete,
}

populate_first_empty : (tree : Tree) (n : ℕ) → Ensures (λ es. es ≡ []) (populate_first tree n [])
unfolding populate_first
populate_first_empty tree zero = refl
populate_first_empty tree (suc n) = tt

populate_all_empty :
    (tree : Tree) (c : InfoCtx tree)
    → c.formats ≡ []
    → Ensures (λ d. d.formats ≡ []) (populate_all tree c)
unfolding populate_all
populate_all_empty tree c e =
    subst
      (λ fs.
        Ensures (λ d. d.formats ≡ [])
          (if c.is_fmt_populated
            then some (record c { formats = fs })
            else populate_first tree c.formats_size fs >>= λ es.
                some (record c { formats = es; is_fmt_populated = true })))
      (sym e) (at_flag c.is_fmt_populated)
  where
    at_flag :
        (b : Bool)
        → Ensures
            (λ d. d.formats ≡ [])
            (if b
              then some (record c { formats = [] })
              else populate_first tree c.formats_size [] >>= λ es.
                  some (record c { formats = es; is_fmt_populated = true }))
    at_flag true = refl
    at_flag false =
        Ensures-bind (λ es. es ≡ []) (λ d. d.formats ≡ []) (populate_first tree c.formats_size []) _
          (populate_first_empty tree c.formats_size) (λ es h. h)

best_video_format_empty :
    (tree : Tree) (c : InfoCtx tree)
    → c.formats ≡ []
    → Ensures (λ p. p.1.formats ≡ []) (best_video_format tree c)
unfolding best_video_format
best_video_format_empty tree c e =
    Ensures-bind (λ d. d.formats ≡ []) (λ p. p.1.formats ≡ []) (populate_all tree c) _
      (populate_all_empty tree c e) (λ d h. h)

module _ (tree : Tree) (xml : Xml) (parse_url : Bytes → Option Url)
    (read_memory : Bytes → Option (Option xml.Node)) (print_name : Name tree xml → Bytes)
    (script : Bytes → Option Bytes) (calls : Calls) (actions : List (Action × ℕ))
    (cleared : StreamCtx xml) (v a : MediaCtx) where
  abbrev try_start : Bytes → InfoCtx tree → Option (Outcome tree xml)
  try_start path c =
      start tree xml parse_url read_memory print_name script calls actions path cleared v a c

  -- The formats of an empty array are read.
  start_empty :
      (path : Bytes) (c : InfoCtx tree)
      → c.dash_manifest_url ≡ none
      → c.formats ≡ []
      → try_start path c ≡ none
  unfolding start find_media
  start_empty path c m e =
      ap
        (λ u. elim u as (λ u. Option (Outcome tree xml)) [
          | some url ↦ some (
              libytdl.Cli.Start.with_dash tree xml parse_url read_memory print_name script calls
                path url cleared)
          | none ↦
              find_media tree xml parse_url read_memory print_name script calls actions path v a c
        ])
        m
      ∙ Ensures-none (λ p. p.1.formats ≡ []) (best_video_format tree c) _
          (best_video_format_empty tree c e)
          (λ (i, d) h.
            Ensures-none (λ f. ⊥) (get_elem? d.formats i) _
              (subst (λ fs. Ensures (λ f. ⊥) (get_elem? fs i)) (sym h) tt) (λ f x. absurd x))

  title_lem :
      (title : Option Bytes) (path : Bytes → Bytes) (c : InfoCtx tree)
      → (title ≡ none) ⊎ ((c.formats ≡ []) × (c.dash_manifest_url ≡ none))
      → (title >>= λ t. try_start (path t) c) ≡ none
  title_lem none path c h = refl
  title_lem (some t) path c (inl e) = absurd (cc (e))
  title_lem (some t) path c (inr (e, m)) = start_empty (path t) c m e

  known_lem :
      (response : tree.json.Value) (c : InfoCtx tree)
      → IsKnown tree response c
      → (title_of tree response ≡ none)
        ⊎ ((values_of tree response ≡ none) × (manifest_of tree response ≡ none))
      → (c.title ≡ none) ⊎ ((c.formats ≡ []) × (c.dash_manifest_url ≡ none))
  known_lem response c k (inl e) = inl (k.title ∙ e)
  known_lem response c k (inr (e, m)) =
      inr (subst (λ vs. FormatsAre tree vs c) e k.formats, k.manifest ∙ m)

  -- For a context from which no formats and no details were extracted, when the player response has no
  -- title, or neither formats nor the URL of a manifest, the callback reads through NULL, if it does not
  -- only list the formats and the video's object is allocated.
  pub info_complete_refused :
      (response : tree.json.Value) (info : InfoCtx tree) (id : Bytes)
      → IsFresh tree info
      → calls.video_ok ≡ true
      → (title_of tree response ≡ none)
        ⊎ ((values_of tree response ≡ none) × (manifest_of tree response ≡ none))
      → info_complete tree xml parse_url read_memory print_name script calls actions false id
          cleared v a
          (populated tree response info)
        ≡ none
  unfolding info_complete
  info_complete_refused response info id fresh ok h =
      let read =
        extract_video_details tree (extract_formats tree (populated tree response info)).1 in
      let path : Bytes → Bytes = λ t.
        print_name
          (name_of tree xml parse_url read_memory print_name script calls actions id t read) in
      ap (λ b. if b then (read.title >>= λ t. try_start (path t) read) else some out_of_memory) ok
      ∙ title_lem read.title path read
          (known_lem response read (extracted-IsKnown tree response info fresh) h)
