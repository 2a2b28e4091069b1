-- ===== src/Tests/Info.antt =====
-- The choice of formats on two small lists, percent decoding and the reversal of a text.
use libytdl.Base.{
  inl, inr, ℕ, ◌≡◌, refl, Bool, true, false, List, [], ◌∷◌, none, arith, codes, ◌++◌, Returns,
  c_str, no_nul, no_nul-NoNul,
}
use libytdl.Info.{Format}
use libytdl.Info.Decode.{urldecode, kept, escaped, nothing, urldecode-Encodes}
use libytdl.Sig.{Action}
use libytdl.Info.Decipher.{decipher, act, swap_in, store}
use libytdl.Info.Decipher.Text.{DoesHold, acts_on_all, decipher-DoesHold}

abbrev sample_format : Bool → Bool → ℕ → ℕ → Format
sample_format has_vid has_aud bitrate audio_quality = record {
  flags = record { populated = true; has_vid = has_vid; has_aud = has_aud };
  itag = 1;
  url_untouched = none;
  cipher = none;
  mime_type = none;
  bitrate = bitrate;
  width = 0;
  height = 0;
  content_length = 0;
  quality = none;
  quality_label = none;
  fps = 0;
  average_bitrate = 0;
  audio_channels = 2;
  audio_quality = audio_quality;
  approx_duration_ms = 0;
}

abbrev rated : List Format
rated =
    sample_format true false 5 0 ∷ sample_format false true 7 1 ∷ sample_format true true 9 0 ∷ []

-- Digits in either case.
urldecode-Encodes_example : urldecode (codes "5%2f%2F") ≡ codes "5//"
urldecode-Encodes_example = urldecode-Encodes (codes "5//") (codes "5%2f%2F") (
    kept b'5' (codes "//") (codes "%2f%2F") (λ e. absurd (omega (arith, e)))
      (λ e. absurd (omega (arith, e)))
      (escaped b'/' b'2' b'f' (codes "/") (codes "%2F") (λ e. absurd (omega (arith, e)))
        (omega arith) (inl refl) (inr refl)
        (escaped b'/' b'2' b'F' [] [] (λ e. absurd (omega (arith, e))) (omega arith) (inl refl)
          (inl refl) nothing)))

-- The actions of a script on a signature in its buffer.
abbrev sample_actions : List (Action × ℕ)
sample_actions = (Action.swap, 3) ∷ (Action.reverse, 0) ∷ (Action.splice, 2) ∷ []

decipher-DoesHold_example :
    Returns
      (λ b. DoesHold b (acts_on_all sample_actions (codes "abcdef")))
      (decipher sample_actions (codes "abcdef" ++ 0 ∷ []))
unfolding no_nul
decipher-DoesHold_example =
    decipher-DoesHold sample_actions (codes "abcdef" ++ 0 ∷ []) (codes "abcdef")
      (record {
        tail = [];
        is_at = refl;
        no_nul = no_nul-NoNul (codes "abcdef") refl;
        fits = omega arith;
      })
      (omega arith, (tt, (omega arith, tt)))

acts_sample : acts_on_all sample_actions (codes "abcdef") ≡ codes "acbd"
acts_sample = refl

-- The place of an exchange is reduced for the reading, and not for the writing.
swap_outside : decipher ((Action.swap, 5) ∷ []) (codes "abc" ++ 0 ∷ []) ≡ none
unfolding decipher act swap_in store c_str
swap_outside = refl
