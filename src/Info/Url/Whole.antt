-- ===== src/Info/Url/Whole.antt =====
-- The whole of `ytdl_info_get_format_url2` of src/info.c on a cipher.
use libytdl.Base.{
  zeros, ℕ, zero, suc, ◌+◌, ◌-◌, ◌^◌, ◌<◌, ◌≡◌, ◌≢◌, refl, ap, ◌∙◌, inl, inr, [], ◌∷◌, ◌++◌,
  append_assoc, append-nil, none, some, if◌then◌else◌, ltb, lt→ltb, length, length-append,
  length-drop, drop, drop_append_le, Bytes, codes, arith, All, NoNul, c_str, c_str-text, strstr,
  strstr_byte, strstr_no_byte,
}
use libytdl.Info.Decode.{urldecode, urldecode-NoNul, length-urldecode}
use libytdl.Info.Decipher.Text.{DoesHold}
use libytdl.Info.Url.{Cut, stop_of, cut, decode_into, decode_in_place, decode_value}
use libytdl.Info.Url.Fields.{Key, pattern_of, IsValue, IsTail, FoundAt}
use libytdl.Info.Url.Split.{IsStop, Stands, IsNul}

no_separator : (v : Bytes) → IsValue v → All (λ c. c ≢ b'&') v
no_separator [] h = tt
no_separator (c ∷ v) ((e, a, z), h) = (a, no_separator v h)

value-NoNul : (v : Bytes) → IsValue v → NoNul v
value-NoNul [] h = tt
value-NoNul (c ∷ v) ((e, a, z), h) = (z, value-NoNul v h)

-- Where the values of a cipher are.
module _ (text v : Bytes) (k : Key) (is_value : IsValue v) (f : FoundAt k text v) where
  abbrev pub start_of : ℕ
  start_of = f.at + length (pattern_of k)

  stop_lem : stop_of start_of text ≡ start_of + length v
  unfolding stop_of
  stop_lem = by_tail f.tail f.left f.ends
    where
      by_tail :
          (tail : Bytes)
          → drop start_of text ≡ v ++ tail
          → IsTail tail
          → elim (strstr (codes "&") (drop start_of text)) [
            | none ↦ length text
            | some n ↦ start_of + n
          ]
            ≡ start_of + length v
      by_tail [] e t =
          ap (λ d. elim (strstr (codes "&") d) [ none ↦ length text | some n ↦ start_of + n ])
            (e ∙ append-nil v)
          ∙ ap (λ m. elim m [ none ↦ length text | some n ↦ start_of + n ])
              (strstr_no_byte b'&' v (no_separator v is_value))
          ∙ omega (arith, f.within, length-drop start_of text, ap length e, length-append v [])
      by_tail (c ∷ s) e t =
          ap (λ d. elim (strstr (codes "&") d) [ none ↦ length text | some n ↦ start_of + n ])
            (e ∙ ap (λ d. v ++ d ∷ s) t)
          ∙ ap (λ m. elim m [ none ↦ length text | some n ↦ start_of + n ])
              (strstr_byte b'&' v s (no_separator v is_value))

  abbrev pub cut_of : Cut
  cut_of = record { start = start_of; stop = start_of + length v }

  pub cut_lem : cut (pattern_of k) text ≡ some cut_of
  unfolding cut
  cut_lem =
      ap
        (λ m. elim m [
          | none ↦ none
          | some p ↦ some (record {
            start = p + length (pattern_of k);
            stop = stop_of (p + length (pattern_of k)) text;
          })
        ])
        f.found
      ∙ ap (λ n. some (record { start = start_of; stop = n })) stop_lem

  pub stands : Stands IsStop start_of (text ++ 0 ∷ []) v
  stands =
      by_tail f.tail (drop_append_le start_of text (0 ∷ []) f.within ∙ ap (λ d. d ++ 0 ∷ []) f.left)
        f.ends
    where
      by_tail :
          (tail : Bytes)
          → drop start_of (text ++ 0 ∷ []) ≡ (v ++ tail) ++ 0 ∷ []
          → IsTail tail
          → Stands IsStop start_of (text ++ 0 ∷ []) v
      by_tail [] e t = record {
        stop = 0;
        junk = [];
        is_at = e ∙ append_assoc v [] (0 ∷ []);
        stops = inr refl;
      }
      by_tail (c ∷ s) e t = record {
        stop = c;
        junk = s ++ 0 ∷ [];
        is_at = e ∙ append_assoc v (c ∷ s) (0 ∷ []);
        stops = inl t;
      }

-- What the decoding leaves of a value that ends with NUL.
abbrev pub decoded : Bytes → Bytes
decoded v = urldecode v ++ zeros (length v + 1 - length (urldecode v))

decode_into_lem : (v : Bytes) → decode_into (length v + 1) v ≡ some (decoded v)
unfolding decode_into
decode_into_lem v =
    rw (lt→ltb (length (urldecode v)) (length v + 1) (omega (arith, length-urldecode v))) refl

pub decode_value_lem :
    (b v : Bytes) (k : ℕ)
    → IsValue v
    → Stands IsNul k b v
    → decode_value b (record { start = k; stop = k + length v }) ≡ some (decoded v)
unfolding decode_value
decode_value_lem b v k h s =
    ap (λ n. decode_into n (c_str (drop k b))) size
    ∙ ap (λ d. decode_into (length v + 1) (c_str d)) s.is_at
    ∙ ap (λ c. decode_into (length v + 1) (c_str (v ++ c ∷ s.junk))) s.stops
    ∙ ap (decode_into (length v + 1)) (c_str-text v s.junk (value-NoNul v h))
    ∙ decode_into_lem v
  where
    size : k + length v - k + 1 ≡ length v + 1
    size = omega arith

-- The buffer holds the decoded text.
zeros_suc : (t : Bytes) (n : ℕ) → 0 < n → t ++ zeros n ≡ t ++ 0 ∷ zeros (n - 1)
zeros_suc t zero h = absurd (omega arith)
zeros_suc t (suc n) h = ap (λ m. t ++ 0 ∷ zeros m) (omega arith)

pub decoded-DoesHold : (v : Bytes) → length v < 2 ^ 31 → DoesHold (decoded v) (urldecode v)
decoded-DoesHold v l = record {
  tail = zeros (length v + 1 - length (urldecode v) - 1);
  is_at =
      zeros_suc (urldecode v) (length v + 1 - length (urldecode v))
        (omega (arith, length-urldecode v));
  no_nul = urldecode-NoNul v;
  fits = omega (arith, l, length-urldecode v);
}

pub c_str-DoesHold : (b t : Bytes) → DoesHold b t → c_str b ≡ t
c_str-DoesHold b t h = ap c_str h.is_at ∙ c_str-text t h.tail h.no_nul

pub in_place_lem :
    (b t : Bytes)
    → DoesHold b t
    → (c : Bytes) × (decode_in_place b ≡ some c) × (c_str c ≡ urldecode t)
unfolding decode_in_place
in_place_lem b t h = (
  urldecode t ++ 0 ∷ drop (suc (length (urldecode t))) b,
  ap
        (λ s.
          if ltb (length (urldecode s)) (length b)
          then some (urldecode s ++ 0 ∷ drop (suc (length (urldecode s))) b)
          else none)
        (c_str-DoesHold b t h)
      ∙ ap (λ s. if s then some (urldecode t ++ 0 ∷ drop (suc (length (urldecode t))) b) else none)
          (lt→ltb (length (urldecode t)) (length b)
            (omega (arith, length-urldecode t, ap length h.is_at, length-append t (0 ∷ h.tail)))),
  c_str-text (urldecode t) _ (urldecode-NoNul t),
)
