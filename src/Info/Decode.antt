-- ===== src/Info/Decode.antt =====
-- `urldecode` of src/info.c, the percent decoding of a C string, beside the encodings of a text.
use libytdl.Base.{
  ℕ, zero, suc, ◌+◌, ◌-◌, ◌*◌, ◌/◌, ◌%◌, ◌≤◌, ◌<◌, ◌≡◌, ◌≢◌, refl, ap, ◌∙◌, inl, inr, ◌⊎◌, Bool,
  true, ◌&&◌, ◌||◌, [], ◌∷◌, if◌then◌else◌, ltb, leb, ◌==◌, length, Bytes, All, arith, Bool-cases,
}

is_xdigit : ℕ → Bool
is_xdigit c = (leb b'0' c && leb c b'9') || (leb b'A' c && leb c b'F') || (leb b'a' c && leb c b'f')

-- The value of a hexadecimal digit, as the code computes it.
unfoldable pub hex_value : ℕ → ℕ
hex_value a =
    if ltb a b'A' then a - b'0' else if ltb a b'a' then a - (b'A' - 10) else a - (b'a' - 10)

-- The character at the start of a text, after its escape is decoded, and the text behind it.
unfoldable pub read_escape : ℕ → Bytes → ℕ × Bytes
unfolding is_xdigit
read_escape c [] = (c, [])
read_escape c (a ∷ []) = (c, a ∷ [])
read_escape c (a ∷ b ∷ s) =
    if c == b'%' && is_xdigit a && is_xdigit b
    then ((16 * hex_value a + hex_value b) % 256, s)
    else (c, a ∷ b ∷ s)

abbrev emit : (Bytes → Bytes) → ℕ × Bytes → Bytes
emit k (ch, rest) = if ch == 0 then [] else ch ∷ k rest

unfoldable pub decode_from : ℕ → Bytes → Bytes
decode_from zero s = []
decode_from (suc n) [] = []
decode_from (suc n) (c ∷ s) = emit (decode_from n) (read_escape c s)

-- `urldecode`: what it leaves in `dst` before the NUL. One round reads at least one character.
unfoldable pub urldecode : Bytes → Bytes
urldecode src = decode_from (length src) src

-- A digit of the value `d`, in either case.
abbrev upper_digit : ℕ → ℕ
upper_digit d = if ltb d 10 then b'0' + d else b'A' - 10 + d

abbrev lower_digit : ℕ → ℕ
lower_digit d = if ltb d 10 then b'0' + d else b'a' - 10 + d

abbrev pub IsDigit : ℕ → ℕ → Type 0
IsDigit d a = (a ≡ upper_digit d) ⊎ (a ≡ lower_digit d)

-- A text and an encoding of it: each byte is kept, if it is not `%`, or escaped by two digits.
pub data Encodes : Bytes → Bytes → Type 0 where
  nothing : Encodes [] []
  kept : (c : ℕ) (s t : Bytes) → c ≢ 0 → c ≢ b'%' → Encodes s t → Encodes (c ∷ s) (c ∷ t)
  escaped :
      (c a b : ℕ) (s t : Bytes)
      → c ≢ 0
      → c < 256
      → IsDigit (c / 16) a
      → IsDigit (c % 16) b
      → Encodes s t
      → Encodes (c ∷ s) (b'%' ∷ a ∷ b ∷ t)

hex_value-upper_digit : (d : ℕ) → d < 16 → hex_value (upper_digit d) ≡ d
unfolding hex_value
hex_value-upper_digit d h = ground arith

hex_value-lower_digit : (d : ℕ) → d < 16 → hex_value (lower_digit d) ≡ d
unfolding hex_value
hex_value-lower_digit d h = ground arith

is_xdigit-upper_digit : (d : ℕ) → d < 16 → is_xdigit (upper_digit d) ≡ true
unfolding is_xdigit
is_xdigit-upper_digit d h = ground arith

is_xdigit-lower_digit : (d : ℕ) → d < 16 → is_xdigit (lower_digit d) ≡ true
unfolding is_xdigit
is_xdigit-lower_digit d h = ground arith

digit_lem : (d a : ℕ) → d < 16 → IsDigit d a → (is_xdigit a ≡ true) × (hex_value a ≡ d)
digit_lem d a h (inl e) =
    (ap is_xdigit e ∙ is_xdigit-upper_digit d h, ap hex_value e ∙ hex_value-upper_digit d h)
digit_lem d a h (inr e) =
    (ap is_xdigit e ∙ is_xdigit-lower_digit d h, ap hex_value e ∙ hex_value-lower_digit d h)

read_escape_plain : (c : ℕ) (s : Bytes) → c ≢ b'%' → read_escape c s ≡ (c, s)
unfolding read_escape
read_escape_plain c [] h = refl
read_escape_plain c (a ∷ []) h = refl
read_escape_plain c (a ∷ b ∷ s) h = ground arith

read_escape_digits :
    (c a b : ℕ) (s : Bytes)
    → c < 256
    → IsDigit (c / 16) a
    → IsDigit (c % 16) b
    → read_escape b'%' (a ∷ b ∷ s) ≡ (c, s)
unfolding read_escape
read_escape_digits c a b s h p q =
    let (x, v) = digit_lem (c / 16) a (omega arith) p in
    let (y, w) = digit_lem (c % 16) b (omega arith) q in
    rw (x, y, v, w) (ap (λ n. (n, s)) (omega arith))

emit_lem : (k : Bytes → Bytes) (c : ℕ) (s t : Bytes) → c ≢ 0 → k t ≡ s → emit k (c, t) ≡ c ∷ s
emit_lem k c s t z e = ground (arith, e)

decode_from-Encodes : (n : ℕ) {s t : Bytes} → Encodes s t → length t ≤ n → decode_from n t ≡ s
unfolding decode_from
decode_from-Encodes zero nothing l = refl
decode_from-Encodes (suc n) nothing l = refl
decode_from-Encodes zero (kept c s t z p e) l = absurd (omega arith)
decode_from-Encodes (suc n) (kept c s t z p e) l =
    ap (emit (decode_from n)) (read_escape_plain c t p)
    ∙ emit_lem (decode_from n) c s t z (decode_from-Encodes n e (omega arith))
decode_from-Encodes zero (escaped c a b s t z h p q e) l = absurd (omega arith)
decode_from-Encodes (suc n) (escaped c a b s t z h p q e) l =
    ap (emit (decode_from n)) (read_escape_digits c a b t h p q)
    ∙ emit_lem (decode_from n) c s t z (decode_from-Encodes n e (omega arith))

-- Decoding gives back a text of bytes other than NUL from each of its encodings, in which every `%` and
-- any other bytes are escaped, each place on its own, with digits in either case.
pub urldecode-Encodes : (s t : Bytes) → Encodes s t → urldecode t ≡ s
unfolding urldecode
urldecode-Encodes s t e = decode_from-Encodes (length t) e (omega arith)

length-read_escape : (c : ℕ) (s : Bytes) → length (read_escape c s).1 ≤ length s
unfolding read_escape
length-read_escape c [] = omega arith
length-read_escape c (a ∷ []) = omega arith
length-read_escape c (a ∷ b ∷ s) = ground arith

length-decode_from : (n : ℕ) (s : Bytes) → length (decode_from n s) ≤ length s
unfolding decode_from
length-decode_from zero s = omega arith
length-decode_from (suc n) [] = omega arith
length-decode_from (suc n) (c ∷ s) =
    ground (arith, length-read_escape c s, length-decode_from n (read_escape c s).1)

-- The decoded text is never longer than the encoded one.
pub length-urldecode : (src : Bytes) → length (urldecode src) ≤ length src
unfolding urldecode
length-urldecode src = length-decode_from (length src) src

decode_from-NoNul : (n : ℕ) (s : Bytes) → All (λ c. c ≢ 0) (decode_from n s)
unfolding decode_from
decode_from-NoNul zero s = tt
decode_from-NoNul (suc n) [] = tt
decode_from-NoNul (suc n) (c ∷ s) = elim (Bool-cases ((read_escape c s).0 == 0)) [
  | inl e ↦ rw e tt
  | inr e ↦ rw e ((λ z. ground (arith, e, z)), decode_from-NoNul n (read_escape c s).1)
]

-- The decoded text has no NUL.
pub urldecode-NoNul : (s : Bytes) → All (λ c. c ≢ 0) (urldecode s)
unfolding urldecode
urldecode-NoNul s = decode_from-NoNul (length s) s

-- Fuel for the length of the text is enough: more does not change the result.
pub decode_from_enough :
    (n m : ℕ) (s : Bytes) → length s ≤ n → length s ≤ m → decode_from n s ≡ decode_from m s
unfolding decode_from
decode_from_enough zero zero s l k = refl
decode_from_enough zero (suc m) [] l k = refl
decode_from_enough (suc n) zero [] l k = refl
decode_from_enough (suc n) (suc m) [] l k = refl
decode_from_enough zero (suc m) (c ∷ s) l k = absurd (omega arith)
decode_from_enough (suc n) zero (c ∷ s) l k = absurd (omega arith)
decode_from_enough (suc n) (suc m) (c ∷ s) l k =
    let b = length-read_escape c s in
    ap (λ r. if (read_escape c s).0 == 0 then [] else (read_escape c s).0 ∷ r)
      (decode_from_enough n m (read_escape c s).1 (omega (arith, b)) (omega (arith, b)))
