-- ===== src/Info/Url/Signed.antt =====
-- The URL that `ytdl_info_get_format_url2` of src/info.c makes of a cipher.
use libytdl.Base.{
  ℕ, ◌+◌, ◌^◌, ◌<◌, ◌≡◌, refl, List, ◌∷◌, ◌++◌, some, lt→ltb, length, length-append, Bytes, arith,
  c_str,
}
use libytdl.Sig.{Action}
use libytdl.Info.Decode.{urldecode}
use libytdl.Info.Decipher.Text.{acts_on_all}
use libytdl.Info.Url.{Cut, print_url}
use libytdl.Info.Url.Fields.{sig_key, sp_key, url_key, Field, value_of, IsValue, AreValues, FoundAt}
use libytdl.Info.Url.Whole.{cut_of}

pub print_url_lem :
    (url sp sig u p s : Bytes)
    → c_str url ≡ u
    → c_str sp ≡ p
    → c_str sig ≡ s
    → print_url url sp sig ≡ some (u ++ (b'&' ∷ (p ++ (b'=' ∷ s))))
unfolding print_url
print_url_lem url sp sig u p s e f g =
    rw
      (lt→ltb (length (c_str url ++ (b'&' ∷ (c_str sp ++ (b'=' ∷ c_str sig)))))
        (length (c_str url) + (length (c_str sp) + 2) + length (c_str sig) + 2)
        (omega (
          arith,
          length-append (c_str url) (b'&' ∷ (c_str sp ++ (b'=' ∷ c_str sig))),
          length-append (c_str sp) (b'=' ∷ c_str sig),
        )))
      (rw (e, f, g) refl)

-- The three values of a cipher, each with its place.
module _ (text vs vp vu : Bytes) (hs : IsValue vs) (hp : IsValue vp) (hu : IsValue vu)
    (fs : FoundAt sig_key text vs) (fp : FoundAt sp_key text vp)
    (fu : FoundAt url_key text vu) where
  abbrev cut_s : Cut
  cut_s = cut_of text vs sig_key hs fs

  abbrev cut_p : Cut
  cut_p = cut_of text vp sp_key hp fp

  abbrev cut_u : Cut
  cut_u = cut_of text vu url_key hu fu

  -- The URL of the three values.
  abbrev signed : List (Action × ℕ) → Bytes
  signed actions =
      urldecode (urldecode vu)
      ++ (b'&' ∷ (urldecode vp ++ (b'=' ∷ acts_on_all actions (urldecode vs))))

-- A cipher whose fields have values free of `=`, `&` and NUL, shorter than 2^31 bytes, of which the
-- first with each of the keys `s`, `sp` and `url` are these.
pub record IsCipher (f : Field) (fs : List Field) (vs vp vu : Bytes) : Type 0 where
  pub values : AreValues (f ∷ fs)
  pub sig : value_of sig_key f fs ≡ some vs
  pub sp : value_of sp_key f fs ≡ some vp
  pub url : value_of url_key f fs ≡ some vu
  pub is_sig : IsValue vs
  pub is_sp : IsValue vp
  pub is_url : IsValue vu
  pub fits_sig : length vs < 2 ^ 31
  pub fits_sp : length vp < 2 ^ 31
  pub fits_url : length vu < 2 ^ 31
