-- ===== src/Info/Response/Lookup.antt =====
-- The loops of src/info.c over the keys of an object, against the last value of each key.
use libytdl.Base.{
  ◌≡◌, refl, ap, ◌∙◌, inl, inr, Bool, true, false, ◌&&◌, List, [], ◌∷◌, Option, none, some,
  if◌then◌else◌, Bytes, codes, bytes_eq, bytes_eq_other, Bool-cases,
}
use libytdl.Info.Context.{Tree, ok, InfoCtx}
use libytdl.Info.Response.{
  populate_pr_dat, populate_pr_key, populate_pr_from, streaming_key, streaming_from,
}

-- The last value of a key, as `f` reads it, or what was there before.
unfoldable pub last_by {ℓ κ} :
    {A : Type ℓ} {B : Type κ} → (A → Option B) → Bytes → List (Bytes × A) → Option B → Option B
last_by f key [] before = before
last_by f key ((k, val) ∷ rest) before =
    last_by f key rest (if bytes_eq k key then f val else before)

abbrev pub last_of {ℓ} : {A : Type ℓ} → Bytes → List (Bytes × A) → Option A → Option A
last_of key ms before = last_by some key ms before

one_key : (k a b : Bytes) → bytes_eq a b ≡ false → (bytes_eq k a && bytes_eq k b) ≡ false
one_key k a b g = elim (Bool-cases (bytes_eq k a)) [
  | inl e ↦ rw e (bytes_eq_other k a b e g)
  | inr e ↦ rw e refl
]

module _ (tree : Tree) where
  open tree use {json, members}

  abbrev pub with_pr :
      Option json.Value → Option json.Value → Option json.Value → InfoCtx tree → InfoCtx tree
  with_pr ps sd details info = record info { ps = ps; sd = sd; video_details = details }

  choose_pr :
      (a b c : Bool) (val : json.Value) (info : InfoCtx tree)
      → (a && b) ≡ false
      → (a && c) ≡ false
      → (b && c) ≡ false
      → (if a
          then record info { ps = some val }
          else if b
          then record info { sd = some val }
          else if c
          then record info { video_details = some val }
          else info)
        ≡ with_pr
            (if a then some val else info.ps)
            (if b then some val else info.sd)
            (if c then some val else info.video_details)
            info
  choose_pr true true c val info p q r = cc
  choose_pr true false true val info p q r = cc
  choose_pr true false false val info p q r = refl
  choose_pr false true true val info p q r = cc
  choose_pr false true false val info p q r = refl
  choose_pr false false true val info p q r = refl
  choose_pr false false false val info p q r = refl

  pub populate_pr_from-last_by :
      (ms : List (Bytes × json.Value)) (info : InfoCtx tree)
      → populate_pr_from tree ms info
        ≡ with_pr
            (last_of (codes "playabilityStatus") ms info.ps)
            (last_of (codes "streamingData") ms info.sd)
            (last_of (codes "videoDetails") ms info.video_details)
            info
  unfolding populate_pr_from populate_pr_key last_by bytes_eq
  populate_pr_from-last_by [] info = refl
  populate_pr_from-last_by ((key, val) ∷ rest) info =
      ap (populate_pr_from tree rest) (
        choose_pr (bytes_eq key (codes "playabilityStatus")) (bytes_eq key (codes "streamingData"))
          (bytes_eq key (codes "videoDetails")) val info (one_key key _ _ refl)
          (one_key key _ _ refl) (one_key key _ _ refl))
      ∙ populate_pr_from-last_by rest _

  abbrev pub with_streaming :
      Option json.Value → Option json.Value → Option Bytes → InfoCtx tree → InfoCtx tree
  with_streaming formats adaptive dash info = record info {
    sd_formats = formats;
    sd_adaptive_formats = adaptive;
    dash_manifest_url = dash;
  }

  choose_streaming :
      (a b c : Bool) (val : json.Value) (info : InfoCtx tree)
      → (a && b) ≡ false
      → (a && c) ≡ false
      → (b && c) ≡ false
      → (if a
          then record info { sd_formats = some val }
          else if b
          then record info { sd_adaptive_formats = some val }
          else if c
          then record info { dash_manifest_url = json.get_str val }
          else info)
        ≡ with_streaming
            (if a then some val else info.sd_formats)
            (if b then some val else info.sd_adaptive_formats)
            (if c then json.get_str val else info.dash_manifest_url)
            info
  choose_streaming true true c val info p q r = cc
  choose_streaming true false true val info p q r = cc
  choose_streaming true false false val info p q r = refl
  choose_streaming false true true val info p q r = cc
  choose_streaming false true false val info p q r = refl
  choose_streaming false false true val info p q r = refl
  choose_streaming false false false val info p q r = refl

  pub streaming_from-last_by :
      (ms : List (Bytes × json.Value)) (info : InfoCtx tree)
      → streaming_from tree ms info
        ≡ with_streaming
            (last_of (codes "formats") ms info.sd_formats)
            (last_of (codes "adaptiveFormats") ms info.sd_adaptive_formats)
            (last_by json.get_str (codes "dashManifestUrl") ms info.dash_manifest_url)
            info
  unfolding streaming_from streaming_key last_by bytes_eq
  streaming_from-last_by [] info = refl
  streaming_from-last_by ((key, val) ∷ rest) info =
      ap (streaming_from tree rest) (
        choose_streaming (bytes_eq key (codes "formats")) (bytes_eq key (codes "adaptiveFormats"))
          (bytes_eq key (codes "dashManifestUrl")) val info (one_key key _ _ refl)
          (one_key key _ _ refl) (one_key key _ _ refl))
      ∙ streaming_from-last_by rest _

  -- A context whose page has just been read, and from which nothing has been taken yet.
  abbrev pub just_read : json.Value → InfoCtx tree → InfoCtx tree
  just_read response info = record info {
    player_response = some response;
    is_pr_populated = false;
    playability_status = ok;
    ps_message = none;
    ps = none;
    sd = none;
    sd_formats = none;
    sd_adaptive_formats = none;
  }

  -- The same context with what the player response holds.
  abbrev pub populated : json.Value → InfoCtx tree → InfoCtx tree
  populated response info = record info {
    player_response = some response;
    is_pr_populated = true;
    playability_status = ok;
    ps_message = none;
    ps = last_of (codes "playabilityStatus") (members response) none;
    sd = last_of (codes "streamingData") (members response) none;
    video_details = last_of (codes "videoDetails") (members response) info.video_details;
    sd_formats = none;
    sd_adaptive_formats = none;
  }

  pub populate_pr_dat-just_read :
      (response : json.Value) (info : InfoCtx tree)
      → populate_pr_dat tree (just_read response info) ≡ populated response info
  unfolding populate_pr_dat
  populate_pr_dat-just_read response info =
      ap {A = InfoCtx tree} (λ c. record c { is_pr_populated = true })
        (populate_pr_from-last_by (members response) (just_read response info))
