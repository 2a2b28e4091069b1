-- ===== src/Info/Response/Known.antt =====
-- What a context of src/info.c holds after the formats and the details were extracted from a player
-- response: the URL of the manifest, the title, and the formats.
use libytdl.Base.{
  ◌<◌, ◌==◌, ◌++◌, Ensures, Ensures_elim, ◌≡◌, refl, sym, ap, subst, ◌∙◌, arith, inl, inr, true,
  false, List, [], ◌∷◌, map, Option, none, some, ◌>>=◌, if◌then◌else◌, length, Bytes, codes,
  bytes_eq, Ret, ret_minus_1, Bool-cases,
}
use libytdl.Info.Context.{Tree, InfoCtx, members_of}
use libytdl.Info.Response.{
  streaming_from, read_streaming, new_entry, fill_formats, read_formats, extract_formats,
  details_key, details_from, extract_video_details,
}
use libytdl.Info.Response.Lookup.{
  last_by, last_of, with_streaming, populated, streaming_from-last_by,
}
use libytdl.Info.Response.Formats.{Extracts, values_of, read_lem}

module _ (tree : Tree) where
  open tree use {json, members}

  -- The fields that neither extraction of formats sets.
  abbrev Kept : InfoCtx tree → InfoCtx tree → Type 0
  Kept a b =
      (b.is_fmt_populated ≡ a.is_fmt_populated)
      × (b.is_details_populated ≡ a.is_details_populated)
      × (b.video_details ≡ a.video_details)
      × (b.title ≡ a.title)
      × (b.dash_manifest_url ≡ a.dash_manifest_url)

  fill_formats-Kept : (info : InfoCtx tree) → Kept info (fill_formats tree info).1
  unfolding fill_formats
  fill_formats-Kept info = ground arith

  -- The array stays as it is after a failure.
  fill_formats_failed :
      (info : InfoCtx tree)
      → (fill_formats tree info).0 ≡ ret_minus_1
      → (fill_formats tree info).1.formats ≡ info.formats
  unfolding fill_formats
  fill_formats_failed info h = ground arith

  key_title :
      (key : Bytes) (val : json.Value) (info : InfoCtx tree)
      → (details_key tree key val info).title
        ≡ (if bytes_eq key (codes "title") then json.get_str val else info.title)
  unfolding details_key
  key_title key val info = ground arith

  details_from-title :
      (ms : List (Bytes × json.Value)) (info : InfoCtx tree)
      → (details_from tree ms info).title ≡ last_by json.get_str (codes "title") ms info.title
  unfolding details_from last_by
  details_from-title [] info = refl
  details_from-title ((key, val) ∷ rest) info =
      details_from-title rest (details_key tree key val info)
      ∙ ap (λ b. last_by json.get_str (codes "title") rest b) (key_title key val info)

  -- The fields that the details leave.
  abbrev Left : InfoCtx tree → InfoCtx tree → Type 0
  Left a b =
      (b.formats ≡ a.formats)
      × (b.formats_size ≡ a.formats_size)
      × (b.is_fmt_populated ≡ a.is_fmt_populated)
      × (b.dash_manifest_url ≡ a.dash_manifest_url)

  key-Left :
      (key : Bytes) (val : json.Value) (info : InfoCtx tree)
      → Left info (details_key tree key val info)
  unfolding details_key
  key-Left key val info = ground arith

  details_from-Left :
      (ms : List (Bytes × json.Value)) (info : InfoCtx tree) → Left info (details_from tree ms info)
  unfolding details_from
  details_from-Left [] info = (refl, refl, refl, refl)
  details_from-Left ((key, val) ∷ rest) info =
      let here = key-Left key val info in
      let there = details_from-Left rest (details_key tree key val info) in
      (there.0 ∙ here.0, there.1 ∙ here.1, there.2 ∙ here.2, there.3 ∙ here.3)

  -- The URL of the manifest in the streaming data, if there is any.
  abbrev manifest_in : Option json.Value → Option Bytes → Option Bytes
  manifest_in none before = before
  manifest_in (some sd) before = last_by json.get_str (codes "dashManifestUrl") (members sd) before

  -- A context whose streaming data was found and not read.
  abbrev unread : Option json.Value → InfoCtx tree → InfoCtx tree
  unread sd info = record info { sd = sd; sd_formats = none; sd_adaptive_formats = none }

  -- What reading the streaming data keeps, with the URL that it finds, and the array after a failure.
  abbrev ReadAs : Option json.Value → InfoCtx tree → Ret × InfoCtx tree → Type 0
  ReadAs sd info (ret, c) =
      Kept (record info { dash_manifest_url = manifest_in sd info.dash_manifest_url }) c
      × (ret ≡ ret_minus_1 → c.formats ≡ info.formats)

  read_formats-ReadAs :
      (sd : Option json.Value) (info : InfoCtx tree)
      → ReadAs sd info (read_formats tree (unread sd info))
  unfolding read_formats read_streaming
  read_formats-ReadAs none info = ((refl, refl, refl, refl, refl), λ h. refl)
  read_formats-ReadAs (some sd) info =
      let read : InfoCtx tree =
        with_streaming tree (last_by some (codes "formats") (members sd) none)
          (last_by some (codes "adaptiveFormats") (members sd) none)
          (last_by json.get_str (codes "dashManifestUrl") (members sd) info.dash_manifest_url)
          (unread (some sd) info) in
      subst (λ c. ReadAs (some sd) info (fill_formats tree c))
        (sym (streaming_from-last_by tree (members sd) (unread (some sd) info)))
        (fill_formats-Kept read, fill_formats_failed read)

  abbrev pub manifest_of : json.Value → Option Bytes
  manifest_of response = manifest_in (last_of (codes "streamingData") (members response) none) none

  abbrev pub title_of : json.Value → Option Bytes
  title_of response =
      last_by json.get_str (codes "title")
        (members_of tree (last_of (codes "videoDetails") (members response) none)) none

  -- A context from which nothing was extracted.
  pub record IsFresh (info : InfoCtx tree) : Type 0 where
    pub unpopulated : info.is_fmt_populated ≡ false
    pub undetailed : info.is_details_populated ≡ false
    pub untitled : info.title ≡ none
    pub no_details : info.video_details ≡ none
    pub no_manifest : info.dash_manifest_url ≡ none
    pub no_formats : info.formats ≡ []

  abbrev pub FormatsAre : Option (List json.Value) → InfoCtx tree → Type 0
  FormatsAre none c = c.formats ≡ []
  FormatsAre (some vs) c = (c.formats ≡ map (new_entry tree) vs) × (c.formats_size ≡ length vs)

  -- What is known of a context after both extractions.
  pub record IsKnown (response : json.Value) (c : InfoCtx tree) : Type 0 where
    pub unpopulated : c.is_fmt_populated ≡ false
    pub title : c.title ≡ title_of response
    pub manifest : c.dash_manifest_url ≡ manifest_of response
    pub formats : FormatsAre (values_of tree response) c

  formats_lem :
      (vs : Option (List json.Value)) (before : InfoCtx tree) (p : Ret × InfoCtx tree)
      → before.formats ≡ []
      → Extracts tree vs p
      → (p.0 ≡ ret_minus_1 → p.1.formats ≡ before.formats)
      → FormatsAre vs p.1
  formats_lem none before (ret, c) e x k = k x ∙ e
  formats_lem (some vs) before (ret, c) e x k = (x.1, x.2)

  details_lem :
      (response : json.Value) (c : InfoCtx tree)
      → c.is_details_populated ≡ false
      → c.video_details ≡ last_of (codes "videoDetails") (members response) none
      → c.title ≡ none
      → c.is_fmt_populated ≡ false
      → c.dash_manifest_url ≡ manifest_of response
      → FormatsAre (values_of tree response) c
      → IsKnown response (extract_video_details tree c)
  unfolding extract_video_details
  details_lem response c d v t f m w =
      let ms = members_of tree c.video_details in
      let (a, b, p, q) = details_from-Left ms c in
      subst
        (λ x.
          IsKnown response
            (if x then c else record (details_from tree ms c) { is_details_populated = true }))
        (sym d)
        (record {
          unpopulated = p ∙ f;
          title =
              details_from-title ms c
              ∙ ap (λ x. last_by json.get_str (codes "title") ms x) t
              ∙ ap (λ x. last_by json.get_str (codes "title") (members_of tree x) none) v;
          manifest = q ∙ m;
          formats =
              moved (values_of tree response) c
                (record (details_from tree ms c) { is_details_populated = true }) a b w;
        })
    where
      moved :
          (vs : Option (List json.Value)) (x y : InfoCtx tree)
          → y.formats ≡ x.formats
          → y.formats_size ≡ x.formats_size
          → FormatsAre vs x
          → FormatsAre vs y
      moved none x y a b w = a ∙ w
      moved (some vs) x y a b w = (a ∙ w.0, b ∙ w.1)

  -- After both extractions from a fresh context, the title and the URL of the manifest are the last
  -- ones of the player response, and the formats are those that it has, or none.
  pub extracted-IsKnown :
      (response : json.Value) (info : InfoCtx tree)
      → IsFresh info
      → IsKnown response
          (extract_video_details tree (extract_formats tree (populated tree response info)).1)
  unfolding extract_formats libytdl.Info.Response.populate_pr_dat
  extracted-IsKnown response info fresh =
      let sd = last_of (codes "streamingData") (members response) none in
      let start = populated tree response info in
      let p = read_formats tree start in
      let ((a, b, c, d, e), k) = read_formats-ReadAs sd start in
      details_lem response p.1 (b ∙ fresh.undetailed)
        (c ∙ ap (λ x. last_of (codes "videoDetails") (members response) x) fresh.no_details)
        (d ∙ fresh.untitled) (a ∙ fresh.unpopulated)
        (e ∙ ap (λ x. manifest_in sd x) fresh.no_manifest)
        (formats_lem (values_of tree response) start p fresh.no_formats (read_lem tree sd start) k)

  -- A response that has formats has at least one.
  pub values_of-some :
      (response : json.Value) (vs : List json.Value)
      → values_of tree response ≡ some vs
      → 0 < length vs
  values_of-some response vs e =
      Ensures_elim (λ vs. 0 < length vs) (values_of tree response)
        (steps (last_of (codes "streamingData") (members response) none) _ (λ sd.
          steps (last_of (codes "formats") (members sd) none) _ (λ f.
            steps (last_of (codes "adaptiveFormats") (members sd) none) _
              (λ a. sized (tree.elements f ++ tree.elements a)))))
        e
    where
      steps :
          (m : Option json.Value) (f : json.Value → Option (List json.Value))
          → ((v : json.Value) → Ensures (λ vs. 0 < length vs) (f v))
          → Ensures (λ vs. 0 < length vs) (m >>= f)
      steps none f k = tt
      steps (some v) f k = k v

      sized :
          (vs : List json.Value)
          → Ensures (λ vs. 0 < length vs) (if length vs == 0 then none else some vs)
      sized [] = tt
      sized (v ∷ vs) = elim (Bool-cases (length (v ∷ vs) == 0)) [
        | inl e ↦ rw e tt
        | inr e ↦ rw e (omega arith)
      ]
