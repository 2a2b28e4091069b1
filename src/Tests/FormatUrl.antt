-- ===== src/Tests/FormatUrl.antt =====
-- The URL of a format with a cipher.
use libytdl.Base.{
  ℕ, ◌≡◌, refl, Bool, true, false, not, ◌&&◌, ◌==◌, List, [], ◌∷◌, none, some, Bytes, codes,
  bytes_eq, starts, strstr,
}
use libytdl.Sig.{Action}
use libytdl.Info.{Json, Format, populate, populate_from, populate_key}
use libytdl.Info.Url.{get_format_url, of_format, from_cipher, cut, stop_of}

abbrev text_json : Json
text_json = record { Value = Bytes; get_int = λ v. 0; get_str = λ v. some v }

abbrev empty_format : Format
empty_format = record {
  flags = record { populated = false; has_vid = false; has_aud = false };
  itag = 0;
  url_untouched = none;
  cipher = none;
  mime_type = none;
  bitrate = 0;
  width = 0;
  height = 0;
  content_length = 0;
  quality = none;
  quality_label = none;
  fps = 0;
  average_bitrate = 0;
  audio_channels = 0;
  audio_quality = 0;
  approx_duration_ms = 0;
}

abbrev sample_cipher : Bytes
sample_cipher = codes "sp=sig&s=abc%64&url=x%253Ay"

abbrev read_format : Format
read_format = record empty_format {
  flags = record { populated = true; has_vid = false; has_aud = false };
  cipher = some sample_cipher;
}

abbrev sample_object : List (Bytes × Bytes)
sample_object = (codes "signatureCipher", sample_cipher) ∷ []

abbrev sample_actions : List (Action × ℕ)
sample_actions = (Action.splice, 1) ∷ (Action.reverse, 0) ∷ (Action.swap, 2) ∷ []

-- Whether a text may be a value.
abbrev are_plain : Bytes → Bool
are_plain [] = true
are_plain (c ∷ s) = not (c == b'=') && not (c == b'&') && not (c == 0) && are_plain s

-- A cipher without one of the keys gives no URL.
no_parameter :
    get_format_url sample_actions text_json
      ((codes "cipher", codes "s=abc&url=x") ∷ [])
      (λ url. none)
      none
      empty_format
    ≡ some none
unfolding get_format_url of_format from_cipher cut stop_of strstr starts populate populate_from
    populate_key bytes_eq
no_parameter = refl
