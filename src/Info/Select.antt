-- ===== src/Info/Select.antt =====
-- The best formats of a context, as src/info.c chooses them: the formats are populated first, in the
-- context. `none` is undefined behaviour: a read through NULL or behind the array, or a division by 0.
pub mod Known
use libytdl.Base.{
  ℕ, zero, suc, ◌≡◌, refl, ap, true, List, [], ◌∷◌, map, Option, none, some, if◌then◌else◌, take,
  ◌>>=◌,
}
use libytdl.Info.{Format, populate, get_best_video_format, get_best_audio_format}
use libytdl.Info.Context.{Tree, Entry, InfoCtx}

module _ (tree : Tree) where
  open tree use {json, members}

  unfoldable pub populate_entry : Entry tree → Option (Entry tree)
  populate_entry e = populate json (members e.val) e.format >>= λ f. some (record e { format = f })

  -- The first formats of the array.
  unfoldable pub populate_first : ℕ → List (Entry tree) → Option (List (Entry tree))
  populate_first zero es = some es
  populate_first (suc n) [] = none
  populate_first (suc n) (e ∷ es) =
      populate_entry e >>= λ f. populate_first n es >>= λ fs. some (f ∷ fs)

  -- `ytdl__info_format_populate_all`.
  unfoldable pub populate_all : InfoCtx tree → Option (InfoCtx tree)
  populate_all info =
      if info.is_fmt_populated
      then some info
      else populate_first info.formats_size info.formats >>= λ es.
          some (record info { formats = es; is_fmt_populated = true })

  abbrev pub formats_of : InfoCtx tree → List Format
  formats_of info = map (λ e. e.format) (take info.formats_size info.formats)

  -- `ytdl_info_get_best_video_format`.
  unfoldable pub best_video_format : InfoCtx tree → Option (ℕ × InfoCtx tree)
  best_video_format info = populate_all info >>= λ c. some (get_best_video_format (formats_of c), c)

  -- `ytdl_info_get_best_audio_format`.
  unfoldable pub best_audio_format : InfoCtx tree → Option (ℕ × InfoCtx tree)
  best_audio_format info =
      populate_all info >>= λ c. get_best_audio_format (formats_of c) >>= λ i. some (i, c)
