-- ===== src/Info/Url.antt =====
-- `ytdl_info_get_format_url2` of src/info.c: the URL of a format, from its cipher or as it stands.
-- Allocation succeeds, and a buffer is a list of its bytes; an access outside of it is `none`. The
-- script engine is a parameter: what the script makes of a text, or nothing for an exception.
pub mod Fields
pub mod Split
pub mod Whole
pub mod Signed
use libytdl.Base.{
  ℕ, zero, suc, ◌+◌, ◌-◌, Bool, true, false, List, [], ◌∷◌, ◌++◌, Option, none, some, if◌then◌else◌,
  ltb, ◌>>=◌, length, set, drop, Bytes, codes, c_str, strstr, zeros,
}
use libytdl.Sig.{Action}
use libytdl.Info.{Json, Format, populate}
use libytdl.Info.Decode.{urldecode}
use libytdl.Info.Decipher.{decipher}

-- The value of a key in the cipher: its first byte, and the byte after its last.
pub record Cut : Type 0 where
  pub start : ℕ
  pub stop : ℕ

-- The first `&` from a place on, or the end.
unfoldable pub stop_of : ℕ → Bytes → ℕ
stop_of start cipher = elim (strstr (codes "&") (drop start cipher)) [
  | none ↦ length cipher
  | some n ↦ start + n
]

unfoldable pub cut : Bytes → Bytes → Option Cut
cut key cipher = elim (strstr key cipher) [
  | none ↦ none
  | some p ↦ some (record { start = p + length key; stop = stop_of (p + length key) cipher })
]

-- `calloc` of `size` bytes, and the decoding of a text into them.
unfoldable pub decode_into : ℕ → Bytes → Option Bytes
decode_into size src =
    if ltb (length (urldecode src)) size
    then some (urldecode src ++ zeros (size - length (urldecode src)))
    else none

-- The decoding of the text in a buffer in its own place.
unfoldable pub decode_in_place : Bytes → Option Bytes
decode_in_place buf =
    let text = urldecode (c_str buf) in
    if ltb (length text) (length buf) then some (text ++ 0 ∷ drop (suc (length text)) buf) else none

unfoldable pub decode_value : Bytes → Cut → Option Bytes
decode_value buf c = decode_into (c.stop - c.start + 1) (c_str (drop c.start buf))

-- The reallocation, and the text that is printed into it.
unfoldable pub print_url : Bytes → Bytes → Bytes → Option Bytes
print_url url sp sig =
    let url_len = length (c_str url) + (length (c_str sp) + 2) + length (c_str sig) in
    let text = c_str url ++ (b'&' ∷ (c_str sp ++ (b'=' ∷ c_str sig))) in
    if ltb (length text) (url_len + 2) then some text else none

-- The copy of the cipher, with a NUL after each of the three values.
unfoldable pub split : Bytes → Cut → Cut → Cut → Bytes
split cipher sig sp url = set (set (set (cipher ++ 0 ∷ []) sig.stop 0) sp.stop 0) url.stop 0

-- What the script makes of the URL; the URL stays as it is after an exception.
abbrev pub run_script : (Bytes → Option Bytes) → Bytes → Bytes
run_script script url = elim (script url) [ none ↦ url | some text ↦ text ]

module _ (actions : List (Action × ℕ)) where
  unfoldable pub sign : Bytes → Cut → Cut → Cut → Option Bytes
  sign buf sig sp url = decode_value buf sig >>= λ sig_buf. decode_value buf sp >>= λ sp_buf.
      decode_value buf url >>= λ url_once. decode_in_place url_once >>= λ url_buf.
      decipher actions sig_buf >>= λ signature. print_url url_buf sp_buf signature

  -- The URL from a cipher: nothing if one of the three keys is missing.
  unfoldable pub from_cipher : Bytes → Option (Option Bytes)
  from_cipher cipher = elim (cut (codes "s=") cipher) [
    | none ↦ some none
    | some sig ↦ elim (cut (codes "sp=") cipher) [
      | none ↦ some none
      | some sp ↦ elim (cut (codes "url=") cipher) [
        | none ↦ some none
        | some url ↦ sign (split cipher sig sp url) sig sp url >>= λ text. some (some text)
      ]
    ]
  ]

  unfoldable pub of_format : (Bytes → Option Bytes) → Format → Option (Option Bytes)
  of_format script f = elim f.cipher [
    | some cipher ↦ from_cipher cipher >>= λ m. elim m [
      | none ↦ some none
      | some url ↦ some (some (run_script script url))
    ]
    | none ↦ elim f.url_untouched [
      | none ↦ some none
      | some url ↦
          decode_into (length url + 1) url >>= λ buf. some (some (run_script script (c_str buf)))
    ]
  ]

  -- `ytdl_info_get_format_url2`; `url` is what an earlier call left.
  unfoldable pub get_format_url :
      (json : Json)
      → List (Bytes × json.Value)
      → (Bytes → Option Bytes)
      → Option Bytes
      → Format
      → Option (Option Bytes)
  get_format_url json object script (some url) f = some (some url)
  get_format_url json object script none f = populate json object f >>= λ g. of_format script g
