-- ===== src/Info/Choice.antt =====
-- What src/info.c chooses as the best format: one with the greatest rank.
use native.Mathlib.Nat.{mod-eq_of_lt}
use libytdl.Base.{
  ℕ, suc, ◌+◌, ◌%◌, ◌^◌, lt→ltb, ◌*◌, ◌/◌, ◌≤◌, ◌<◌, some-injective, ◌≡◌, refl, sym, ap, subst, ◌∙◌,
  inl, inr, Bool, true, false, not, ◌&&◌, ◌||◌, List, [], ◌∷◌, ◌++◌, append_assoc, length,
  length-append, get_elem?, none, some, if◌then◌else◌, ltb, ltb→lt, ltb→ge, ◌==◌, All, arith,
  Bool-cases,
}
use libytdl.Info.{
  Format, Flags, video_score, kind_score, best_video_from, get_best_video_format, audio_score,
  best_audio_from, get_best_audio_format, is_nonzero, ◌&◌, has_vid_mask, has_aud_mask, pos, negate,
  lt_int, of_int32, minus_quotient,
}

-- The first of the formats with the greatest rank, if that is not 0.
first_best : (Format → ℕ) → ℕ → List Format → ℕ → ℕ → ℕ
first_best rank i [] idx score = idx
first_best rank i (f ∷ rest) idx score =
    let taken = first_best rank (suc i) rest i (rank f) in
    let skipped = first_best rank (suc i) rest idx score in
    if ltb score (rank f) then taken else skipped

-- The rank of the format at a place, 0 behind the last.
abbrev pub rank_at : (Format → ℕ) → List Format → ℕ → ℕ
rank_at rank fs i = elim (get_elem? fs i) [ none ↦ 0 | some f ↦ rank f ]

get_elem?-middle :
    (pre : List Format) (f : Format) (rest : List Format)
    → get_elem? (pre ++ f ∷ rest) (length pre) ≡ some f
get_elem?-middle [] f rest = refl
get_elem?-middle (x ∷ pre) f rest = get_elem?-middle pre f rest

first_best_max :
    (rank : Format → ℕ) (pre fs all : List Format) (i idx score : ℕ)
    → pre ++ fs ≡ all
    → length pre ≡ i
    → score ≤ rank_at rank all idx
    → (score ≤ rank_at rank all (first_best rank i fs idx score))
      × All (λ f. rank f ≤ rank_at rank all (first_best rank i fs idx score)) fs
unfolding first_best
first_best_max rank pre [] all i idx score e l h = (h, tt)
first_best_max rank pre (f ∷ rest) all i idx score e l h =
    let e2 = append_assoc pre (f ∷ []) rest ∙ e in
    let l2 : length (pre ++ f ∷ []) ≡ suc i = length-append pre (f ∷ []) ∙ omega (arith, l) in
    let here : rank_at rank all i ≡ rank f =
      ap (λ o. elim o [ none ↦ 0 | some g ↦ rank g ])
        (subst (λ fs. get_elem? fs i ≡ some f) e
          (subst (λ n. get_elem? (pre ++ f ∷ rest) n ≡ some f) l (get_elem?-middle pre f rest))) in
    let Goal : ℕ → Type 0 =
      λ r. (score ≤ rank_at rank all r) × All (λ g. rank g ≤ rank_at rank all r) (f ∷ rest) in
    elim (Bool-cases (ltb score (rank f))) [
      | inl b ↦
          let (p, q) =
            first_best_max rank (pre ++ f ∷ []) rest all (suc i) i (rank f) e2 l2
              (omega (arith, here)) in
          subst Goal (rw b refl) (omega (arith, ltb→lt score (rank f) b, p), (p, q))
      | inr b ↦
          let (p, q) = first_best_max rank (pre ++ f ∷ []) rest all (suc i) idx score e2 l2 h in
          subst Goal (rw b refl) (p, (omega (arith, ltb→ge score (rank f) b, p), q))
    ]

-- The rank of a format for the video: its score, or 0 if it has no picture.
abbrev pub video_rank : Format → ℕ
video_rank f = if f.flags.has_vid then 2 + (f.width + f.fps + f.bitrate) else 0

-- A format whose sum and product an `int` holds.
abbrev pub IsSmall : Format → Type 0
IsSmall f = (2 + (f.width + f.fps + f.bitrate) < 2 ^ 31) × (f.bitrate * f.audio_channels < 2 ^ 31)

-- The rank of a format for the audio: its bit rate times its channels, divided by its quality; 0 if
-- it has no sound or has a picture.
abbrev pub audio_rank : Format → ℕ
audio_rank f =
    if f.flags.has_aud && not f.flags.has_vid
    then f.bitrate * f.audio_channels / f.audio_quality
    else 0

is_nonzero-vid : (a : Flags) → is_nonzero (a & has_vid_mask) ≡ a.has_vid
is_nonzero-vid a = ground arith

is_nonzero-aud : (a : Flags) → is_nonzero (a & has_aud_mask) ≡ a.has_aud
is_nonzero-aud a = ground arith

kind_score_lem : (a : Flags) → kind_score a ≡ (if a.has_vid then 2 else 0)
unfolding kind_score
kind_score_lem a = ground arith

video_score_lem :
    (f : Format)
    → IsSmall f
    → f.flags.has_vid ≡ true
    → video_score f ≡ pos (2 + (f.width + f.fps + f.bitrate))
unfolding video_score
video_score_lem f (h, p) e =
    let sum = f.width + f.fps + f.bitrate in
    let whole : (2 + sum) % 2 ^ 32 ≡ 2 + sum = omega (arith, h) in
    ap (λ k. of_int32 ((k + sum) % 2 ^ 32)) (kind_score_lem f.flags ∙ rw e refl)
    ∙ ap of_int32 whole
    ∙ rw (lt→ltb (2 + sum) (2 ^ 31) h) refl

video_first_best :
    (i : ℕ) (fs : List Format) (idx score : ℕ)
    → All IsSmall fs
    → best_video_from i fs idx (pos score) ≡ first_best video_rank i fs idx score
unfolding best_video_from first_best
video_first_best i [] idx score h = refl
video_first_best i (f ∷ rest) idx score (s, h) =
    let over = video_first_best (suc i) rest idx score h in
    let here = video_first_best (suc i) rest i (2 + (f.width + f.fps + f.bitrate)) h in
    elim (Bool-cases f.flags.has_vid) [
      | inl v ↦ rw (video_score_lem f s v) (ground (arith, is_nonzero-vid f.flags, over, here))
      | inr v ↦ ground (arith, is_nonzero-vid f.flags, over)
    ]

-- Whether the score of a format divides by 0.
abbrev pub is_unrated : Format → Bool
is_unrated f = f.flags.has_aud && not f.flags.has_vid && f.audio_quality == 0

abbrev pub any_unrated : List Format → Bool
any_unrated [] = false
any_unrated (f ∷ rest) = is_unrated f || any_unrated rest

lt_int-negate : (a b : ℕ) → lt_int (negate a) (negate b) ≡ ltb b a
lt_int-negate a b = ground arith

lt_int_pos : (a b : ℕ) → lt_int (pos a) (negate b) ≡ false
lt_int_pos a b = ground arith

lt_le_trans : {n : ℕ} → n < 2 ^ 31 → n < 2 ^ 32
lt_le_trans h = omega (arith, h)

minus_quotient_lem : (n q : ℕ) → n < 2 ^ 31 → minus_quotient n q ≡ negate (n / q)
unfolding minus_quotient
minus_quotient_lem n q h = rw (lt→ltb n (2 ^ 31) h) refl

audio_score_lem :
    (f : Format)
    → IsSmall f
    → f.flags.has_vid ≡ false
    → audio_score f ≡ (
        if f.audio_quality == 0
        then none
        else some (negate (f.bitrate * f.audio_channels / f.audio_quality)))
unfolding audio_score
audio_score_lem f (s, p) e =
    let product = f.bitrate * f.audio_channels in
    let whole : product % 2 ^ 32 ≡ product = mod-eq_of_lt (lt_le_trans p) in
    let left : minus_quotient (product % 2 ^ 32) f.audio_quality
        ≡ negate (product / f.audio_quality) =
      ap (λ n. minus_quotient n f.audio_quality) whole
      ∙ minus_quotient_lem product f.audio_quality p in
    ground (arith, kind_score_lem f.flags, left)

audio_score_vid :
    (f : Format)
    → IsSmall f
    → f.flags.has_vid ≡ true
    → audio_score f ≡ some (pos (2 + (f.width + f.fps + f.bitrate)))
unfolding audio_score
audio_score_vid f s e = ground (arith, kind_score_lem f.flags, video_score_lem f s e)

audio_first_best :
    (i : ℕ) (fs : List Format) (idx score : ℕ)
    → All IsSmall fs
    → best_audio_from i fs idx (negate score)
      ≡ (if any_unrated fs then none else some (first_best audio_rank i fs idx score))
unfolding best_audio_from first_best
audio_first_best i [] idx score h = refl
audio_first_best i (f ∷ rest) idx score (s, h) =
    let over = audio_first_best (suc i) rest idx score h in
    let here = audio_first_best (suc i) rest i (f.bitrate * f.audio_channels / f.audio_quality) h in
    elim (Bool-cases f.flags.has_aud) [
      | inr a ↦ ground (arith, is_nonzero-aud f.flags, over)
      | inl a ↦ elim (Bool-cases f.flags.has_vid) [
        | inl v ↦
            rw (audio_score_vid f s v, lt_int_pos (2 + (f.width + f.fps + f.bitrate)) score)
              (ground (arith, is_nonzero-aud f.flags, over))
        | inr v ↦ elim (Bool-cases (f.audio_quality == 0)) [
          | inl q ↦ rw (audio_score_lem f s v, q) (ground (arith, is_nonzero-aud f.flags))
          | inr q ↦
              rw
                (
                  audio_score_lem f s v,
                  q,
                  lt_int-negate (f.bitrate * f.audio_channels / f.audio_quality) score,
                )
                (ground (arith, is_nonzero-aud f.flags, over, here))
        ]
      ]
    ]

pub get_best_video_format-best :
    (fs : List Format)
    → All IsSmall fs
    → All (λ f. video_rank f ≤ rank_at video_rank fs (get_best_video_format fs)) fs
unfolding get_best_video_format
get_best_video_format-best fs h =
    let (p, q) = first_best_max video_rank [] fs fs 0 0 0 refl refl (omega arith) in
    subst (λ r. All (λ f. video_rank f ≤ rank_at video_rank fs r) fs)
      (sym (video_first_best 0 fs 0 0 h)) q

-- What the choice for the audio must be: a format of the greatest rank.
abbrev pub IsBestAudio : List Format → ℕ → Type 0
IsBestAudio fs r = All (λ f. audio_rank f ≤ rank_at audio_rank fs r) fs

pub get_best_audio_format-best :
    (fs : List Format)
    → All IsSmall fs
    → any_unrated fs ≡ false
    → (r : ℕ) × (get_best_audio_format fs ≡ some r) × IsBestAudio fs r
unfolding get_best_audio_format
get_best_audio_format-best fs s h =
    let (p, q) = first_best_max audio_rank [] fs fs 0 0 0 refl refl (omega arith) in
    (first_best audio_rank 0 fs 0 0, audio_first_best 0 fs 0 0 s ∙ rw h refl, q)

-- If a format with sound and no picture states no quality, and the sums and products fit, then the choice for the audio divides by
-- 0, whatever the other formats are.
pub get_best_audio_format_unrated :
    (fs : List Format) → All IsSmall fs → any_unrated fs ≡ true → get_best_audio_format fs ≡ none
unfolding get_best_audio_format
get_best_audio_format_unrated fs s h = audio_first_best 0 fs 0 0 s ∙ rw h refl

-- A chosen place is the one at the start or one of a format.
first_best_lt :
    (rank : Format → ℕ) (i n : ℕ) (fs : List Format) (idx score : ℕ)
    → i + length fs ≡ n
    → idx < n
    → first_best rank i fs idx score < n
unfolding first_best
first_best_lt rank i n [] idx score e h = h
first_best_lt rank i n (f ∷ rest) idx score e h = ground (
  arith,
  e,
  h,
  first_best_lt rank (suc i) n rest i (rank f) (omega (arith, e)) (omega (arith, e)),
  first_best_lt rank (suc i) n rest idx score (omega (arith, e)) h,
)

-- The format that is chosen for the video is one of the formats, if there are any.
pub get_best_video_format_lt :
    (fs : List Format) → All IsSmall fs → 0 < length fs → get_best_video_format fs < length fs
unfolding get_best_video_format
get_best_video_format_lt fs s h =
    subst (λ r. r < length fs) (sym (video_first_best 0 fs 0 0 s))
      (first_best_lt video_rank 0 (length fs) fs 0 0 (omega arith) h)

-- So is the one that is chosen for the audio.
pub get_best_audio_format_lt :
    (fs : List Format) (r : ℕ)
    → All IsSmall fs
    → any_unrated fs ≡ false
    → get_best_audio_format fs ≡ some r
    → 0 < length fs
    → r < length fs
unfolding get_best_audio_format
get_best_audio_format_lt fs r s u e h =
    let best = first_best audio_rank 0 fs 0 0 in
    let same : best ≡ r =
      some-injective best r (sym (audio_first_best 0 fs 0 0 s ∙ rw u refl) ∙ e) in
    subst (λ x. x < length fs) same (first_best_lt audio_rank 0 (length fs) fs 0 0 (omega arith) h)
