-- ===== src/Info/Select/Known.antt =====
-- The choices of src/info.c on a context whose formats can be read.
use libytdl.Base.{
  ℕ, zero, suc, ◌≤◌, ◌<◌, ◌≡◌, refl, ap, subst, ◌∙◌, arith, true, false, List, [], ◌∷◌, map, Option,
  none, some, ◌>>=◌, if◌then◌else◌, length, get_elem?, get_elem?_lt, take, take_all, All, Ensures,
  Ensures-bind,
}
use libytdl.Info.{Format, get_best_video_format, get_best_audio_format}
use libytdl.Info.Choice.{
  video_rank, audio_rank, rank_at, any_unrated, get_best_video_format-best,
  get_best_audio_format-best, get_best_video_format_lt, IsSmall, get_best_audio_format_lt,
}
use libytdl.Info.Context.{Tree, Entry, InfoCtx}
use libytdl.Info.Select.{
  populate_entry, populate_first, populate_all, best_video_format, best_audio_format,
}

module _ (tree : Tree) where
  abbrev pub formats : List (Entry tree) → List Format
  formats es = map (λ e. e.format) es

  length-formats : (es : List (Entry tree)) → length (formats es) ≡ length es
  length-formats [] = refl
  length-formats (e ∷ es) = ap suc (length-formats es)

  rank_at-formats :
      (rank : Format → ℕ) (es : List (Entry tree)) (i : ℕ) (e : Entry tree)
      → get_elem? es i ≡ some e
      → rank_at rank (formats es) i ≡ rank e.format
  rank_at-formats rank [] i e h = cc
  rank_at-formats rank (x ∷ es) zero e h = ap (λ o. elim o [ none ↦ 0 | some y ↦ rank y.format ]) h
  rank_at-formats rank (x ∷ es) (suc i) e h = rank_at-formats rank es i e h

  pub populate_first-length :
      (n : ℕ) (es : List (Entry tree))
      → Ensures (λ fs. length fs ≡ length es) (populate_first tree n es)
  unfolding populate_first
  populate_first-length zero es = refl
  populate_first-length (suc n) [] = tt
  populate_first-length (suc n) (e ∷ es) =
      Ensures-bind (λ f. f ≡ f) (λ fs. length fs ≡ length (e ∷ es)) (populate_entry tree e) _
        (any (populate_entry tree e))
        (λ f u.
          Ensures-bind (λ fs. length fs ≡ length es) (λ fs. length fs ≡ length (e ∷ es))
            (populate_first tree n es) _ (populate_first-length n es) (λ fs h. ap suc h))
    where
      any : (m : Option (Entry tree)) → Ensures (λ f. f ≡ f) m
      any none = tt
      any (some f) = refl

  -- An entry with a format of the greatest rank.
  abbrev pub IsChoice : (Format → ℕ) → List (Entry tree) → Entry tree → Type 0
  IsChoice rank es e = All (λ f. rank f ≤ rank e.format) (formats es)

  -- A place of such an entry.
  abbrev pub Choice : (Format → ℕ) → List (Entry tree) → ℕ → Type 0
  Choice rank es i = (e : Entry tree) × (get_elem? es i ≡ some e) × IsChoice rank es e

  choice_lem :
      (rank : Format → ℕ) (es : List (Entry tree)) (i : ℕ)
      → i < length (formats es)
      → All (λ f. rank f ≤ rank_at rank (formats es) i) (formats es)
      → Choice rank es i
  choice_lem rank es i l h =
      let (e, at) = get_elem?_lt es i (omega (arith, l, length-formats es)) in
      (e, at, subst (λ n. All (λ f. rank f ≤ n) (formats es)) (rank_at-formats rank es i e at) h)

  module _ (c : InfoCtx tree) (es : List (Entry tree)) (unpopulated : c.is_fmt_populated ≡ false)
      (readable : populate_first tree c.formats_size c.formats ≡ some es)
      (size : c.formats_size ≡ length es) (small : All IsSmall (formats es)) where
    -- The context with its formats populated.
    abbrev pub readied : InfoCtx tree
    readied = record c { formats = es; is_fmt_populated = true }

    formats_lem : formats (take c.formats_size es) ≡ formats es
    formats_lem = ap formats (take_all c.formats_size es (omega (arith, size)))

    populate_all_lem : populate_all tree c ≡ some readied
    unfolding populate_all
    populate_all_lem =
        ap
          (λ b.
            if b
            then some c
            else populate_first tree c.formats_size c.formats >>= λ es.
                some (record c { formats = es; is_fmt_populated = true }))
          unpopulated
        ∙ ap (λ m. m >>= λ es. some (record c { formats = es; is_fmt_populated = true })) readable

    pub best_video_format-Choice :
        0 < length es
        → (i : ℕ) × (best_video_format tree c ≡ some (i, readied)) × Choice video_rank es i
    unfolding best_video_format
    best_video_format-Choice h =
        let i = get_best_video_format (formats es) in
        (
          i,
          ap
                (λ m. m >>= λ d.
                  some (get_best_video_format (formats (take d.formats_size d.formats)), d))
                populate_all_lem
              ∙ ap (λ fs. some (get_best_video_format fs, readied)) formats_lem,
          choice_lem video_rank es i
              (get_best_video_format_lt (formats es) small (omega (arith, h, length-formats es)))
              (get_best_video_format-best (formats es) small),
        )

    pub best_audio_format-Choice :
        0 < length es
        → any_unrated (formats es) ≡ false
        → (i : ℕ) × (best_audio_format tree readied ≡ some (i, readied)) × Choice audio_rank es i
    unfolding best_audio_format populate_all
    best_audio_format-Choice h u =
        let (i, e, best) = get_best_audio_format-best (formats es) small u in
        (
          i,
          ap (λ fs. get_best_audio_format fs >>= λ i. some (i, readied)) formats_lem
              ∙ ap (λ m. m >>= λ i. some (i, readied)) e,
          choice_lem audio_rank es i
              (get_best_audio_format_lt (formats es) i small u e
                (omega (arith, h, length-formats es)))
              best,
        )
