-- ===== src/Dl/Stream/Fork.antt =====
-- `ytdl_dl_dash_ctx_fork` and `ytdl_dl_dash_load_fork` of src/dl.c.
use libytdl.Base.{
  ℕ, zero, suc, ◌≡◌, refl, ap, ◌∙◌, inl, inr, Option-cases, Ret, Bool, true, not, List, [], ◌∷◌,
  Option, none, some, take, Bytes, codes, bytes_eq, ◌>>=◌, arith,
}
use libytdl.Buffer.{contents}
use libytdl.Net.Url.{Url}
use libytdl.Dash.{Xml, DashCtx, init}
use libytdl.Dash.Format.{get_format, get_root}
use libytdl.Dl.Stream.{StreamCtx, fork, load_fork, load_format, connect_base, base_url_of}

take-take {ℓ} : {A : Type ℓ} (n : ℕ) (xs : List A) → take n (take n xs) ≡ take n xs
take-take zero xs = refl
take-take (suc n) [] = refl
take-take (suc n) (x ∷ xs) = ap (λ r. x ∷ r) (take-take n xs)

module _ (xml : Xml) (parse_url : Bytes → Option Url)
    (read_memory : Bytes → Option (Option xml.Node)) where
  abbrev pub tracks_of : Option (StreamCtx xml) → Option (DashCtx xml)
  tracks_of run = run >>= λ c. some c.dash

  abbrev manifest_text : StreamCtx xml → Bytes
  manifest_text ctx = take ctx.manifest.len (contents ctx.manifest)

  tracks-connect_base :
      (u : Option Bytes) (a b : StreamCtx xml)
      → a.dash ≡ b.dash
      → tracks_of (connect_base xml parse_url read_memory u a)
        ≡ tracks_of (connect_base xml parse_url read_memory u b)
  unfolding connect_base
  tracks-connect_base none a b e = refl
  tracks-connect_base (some u) a b e = elim (Option-cases (parse_url u)) [
    | inl f ↦ rw f (ap some e)
    | inr (url, f) ↦ rw f (ap some e)
  ]

  tracks-load_format :
      (m : Option (Ret × DashCtx xml)) (a b : StreamCtx xml)
      → a.is_video ≡ b.is_video
      → tracks_of (m >>= load_format xml parse_url read_memory a)
        ≡ tracks_of (m >>= load_format xml parse_url read_memory b)
  tracks-load_format none a b e = refl
  tracks-load_format (some (r, d)) a b e =
      ap
        (λ v. tracks_of (
          connect_base xml parse_url read_memory (base_url_of xml parse_url read_memory v d)
            (record a { dash = d; is_dash_init = true })))
        e
      ∙ tracks-connect_base (base_url_of xml parse_url read_memory b.is_video d) _ _ refl

  -- A fork that is loaded reads the same tracks from its copy of the manifest as the original, or
  -- faults where the original does.
  pub load_fork-fork :
      (ctx to : StreamCtx xml)
      → tracks_of (load_fork xml parse_url read_memory (fork xml ctx to))
        ≡ tracks_of (load_fork xml parse_url read_memory ctx)
  unfolding load_fork fork
  load_fork-fork ctx to = rw (take-take ctx.manifest.len (contents ctx.manifest)) (
      tracks-load_format
        (get_format xml ctx.on_pick_filter (init xml (read_memory (manifest_text ctx))).1)
        (fork xml ctx to) ctx refl)

  -- Whether a text is no document, or one whose root element is not `MPD`.
  abbrev pub is_foreign : Option (Option xml.Node) → Bool
  is_foreign none = true
  is_foreign (some none) = true
  is_foreign (some (some root)) = not (bytes_eq (xml.name root) (codes "MPD"))

  -- The manifest that is not one is read through NULL: its base URL, after the error code of
  -- `ytdl_dash_get_format` was dropped, or its root.
  refused :
      (ctx : StreamCtx xml) (read : Option (Option xml.Node))
      → is_foreign read ≡ true
      → (get_format xml ctx.on_pick_filter (init xml read).1
          >>= load_format xml parse_url read_memory ctx)
        ≡ none
  unfolding get_format get_root init connect_base
  refused ctx none h = refl
  refused ctx (some none) h = refl
  refused ctx (some (some root)) h = ground arith

  -- When the manifest that was received is no document, or one whose root element is not `MPD`,
  -- loading it reads through NULL.
  pub load_fork_foreign :
      (ctx : StreamCtx xml)
      → is_foreign (read_memory (manifest_text ctx)) ≡ true
      → load_fork xml parse_url read_memory ctx ≡ none
  unfolding load_fork
  load_fork_foreign ctx h = refused ctx (read_memory (manifest_text ctx)) h
