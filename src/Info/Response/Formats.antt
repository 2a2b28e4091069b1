-- ===== src/Info/Response/Formats.antt =====
-- `ytdl_info_extract_formats` of src/info.c: the formats of a page whose JSON has just been read.
use libytdl.Base.{
  ℕ, length-append, map-append, ◌+◌, ◌≡◌, refl, sym, subst, inl, inr, List, ◌++◌, map, Option, none,
  some, ◌>>=◌, if◌then◌else◌, ◌==◌, length, codes, Ret, ret_0, ret_minus_1, Bool-cases,
}
use libytdl.Info.Context.{Tree, InfoCtx}
use libytdl.Info.Response.{read_streaming, new_entry, fill_formats, read_formats, extract_formats}
use libytdl.Info.Response.Lookup.{
  last_by, last_of, just_read, populated, populate_pr_dat-just_read, streaming_from-last_by,
}

module _ (tree : Tree) where
  open tree use {json, members, elements}

  abbrev pub some_values : List json.Value → Option (List json.Value)
  some_values vs = if length vs == 0 then none else some vs

  abbrev pub values_in : json.Value → Option (List json.Value)
  values_in sd = last_of (codes "formats") (members sd) none >>= λ f.
      last_of (codes "adaptiveFormats") (members sd) none >>= λ a.
      some_values (elements f ++ elements a)

  -- The values of the formats that a player response has, or nothing.
  abbrev pub values_of : json.Value → Option (List json.Value)
  values_of response =
      last_of (codes "streamingData") (members response) none >>= λ sd. values_in sd

  -- What a result and a context say of those values.
  abbrev pub Extracts : Option (List json.Value) → Ret × InfoCtx tree → Type 0
  Extracts none (ret, info) = ret ≡ ret_minus_1
  Extracts (some vs) (ret, info) =
      (ret ≡ ret_0) × (info.formats ≡ map (new_entry tree) vs) × (info.formats_size ≡ length vs)

  sized_lem :
      (vs : List json.Value) (empty info : InfoCtx tree)
      → Extracts (some_values vs) (
          if length vs == 0
          then (ret_minus_1, empty)
          else (ret_0, record info { formats = map (new_entry tree) vs; formats_size = length vs }))
  sized_lem vs empty info = elim (Bool-cases (length vs == 0)) [
    | inl e ↦ rw e refl
    | inr e ↦ rw e (refl, refl, refl)
  ]

  joined_lem :
      (fs vs : List json.Value) (empty : ℕ → InfoCtx tree) (info : InfoCtx tree)
      → Extracts (some_values (fs ++ vs)) (
          if length fs + length vs == 0 then (ret_minus_1, empty (length fs + length vs)) else (
            ret_0,
            record info {
              formats = map (new_entry tree) fs ++ map (new_entry tree) vs;
              formats_size = length fs + length vs;
            },
          ))
  joined_lem fs vs empty info =
      subst
        (λ n. Extracts (some_values (fs ++ vs)) (
          if n == 0 then (ret_minus_1, empty n) else (
            ret_0,
            record info {
              formats = map (new_entry tree) fs ++ map (new_entry tree) vs;
              formats_size = n;
            },
          )))
        (length-append fs vs)
        (subst
          (λ es. Extracts (some_values (fs ++ vs)) (
            if length (fs ++ vs) == 0
            then (ret_minus_1, empty (length (fs ++ vs)))
            else (ret_0, record info { formats = es; formats_size = length (fs ++ vs) })))
          (map-append (new_entry tree) fs vs)
          (sized_lem (fs ++ vs) (empty (length (fs ++ vs))) info))

  fill_lem :
      (f a : Option json.Value) (info : InfoCtx tree)
      → Extracts
          (f >>= λ f. a >>= λ a. some_values (elements f ++ elements a))
          (fill_formats tree (record info { sd_formats = f; sd_adaptive_formats = a }))
  unfolding fill_formats
  fill_lem none a info = refl
  fill_lem (some f) none info = refl
  fill_lem (some f) (some a) info =
      joined_lem (elements f) (elements a)
        (λ n. record info { sd_formats = some f; sd_adaptive_formats = some a; formats_size = n })
        (record info { sd_formats = some f; sd_adaptive_formats = some a })

  pub read_lem :
      (sd : Option json.Value) (info : InfoCtx tree)
      → Extracts (sd >>= λ sd. values_in sd) (
          read_formats tree
            (record info { sd = sd; sd_formats = none; sd_adaptive_formats = none }))
  unfolding read_formats read_streaming
  read_lem none info = refl
  read_lem (some sd) info =
      let start : InfoCtx tree = record info {
        sd = some sd;
        sd_formats = none;
        sd_adaptive_formats = none;
      } in
      subst (λ c. Extracts (values_in sd) (fill_formats tree c))
        (sym (streaming_from-last_by tree (members sd) start))
        (fill_lem (last_of (codes "formats") (members sd) none)
          (last_of (codes "adaptiveFormats") (members sd) none)
          (record start {
            dash_manifest_url =
                last_by json.get_str (codes "dashManifestUrl") (members sd) info.dash_manifest_url;
          }))

-- For a context whose page has just been read, the result is 0 exactly if the response has
-- streaming data with both kinds of formats and at least one format, by the last value of each key.
-- The formats are then those of the two arrays in order, each new, and their number is kept. Else the
-- result is -1.
pub extract_formats-Extracts :
    (tree : Tree) (response : tree.json.Value) (info : InfoCtx tree)
    → Extracts tree (values_of tree response) (extract_formats tree (just_read tree response info))
unfolding extract_formats
extract_formats-Extracts tree response info =
    subst (λ c. Extracts tree (values_of tree response) (read_formats tree c))
      (sym (populate_pr_dat-just_read tree response info))
      (read_lem tree (last_of (codes "streamingData") (tree.members response) none)
        (populated tree response info))
