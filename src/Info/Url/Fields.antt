-- ===== src/Info/Url/Fields.antt =====
-- The search of src/info.c for the keys of a cipher.
use libytdl.Base.{
  ℕ, suc, ◌+◌, ◌≡◌, ◌≢◌, refl, sym, ap, ◌∙◌, Bool, true, false, List, [], ◌∷◌, ◌++◌, append-nil,
  append_assoc, Option, none, some, some-injective, inl, inr, subst, Bool-cases, ◌≤◌, length,
  length-append, drop, drop_front, Bytes, codes, arith, All, starts, strstr, further, strstr_value,
}

pub data Key : Type 0 where
  sig_key sp_key url_key : Key

abbrev pub key_text : Key → Bytes
key_text sig_key = codes "s"
key_text sp_key = codes "sp"
key_text url_key = codes "url"

-- The key with its sign, as the code looks for it.
abbrev pub pattern_of : Key → Bytes
pattern_of k = key_text k ++ b'=' ∷ []

abbrev pub Field : Type 0
Field = Key × Bytes

-- A cipher of one field at least.
abbrev pub print_fields : Field → List Field → Bytes
print_fields (k, v) [] = key_text k ++ (b'=' ∷ v)
print_fields (k, v) (f ∷ fs) = key_text k ++ (b'=' ∷ (v ++ (b'&' ∷ print_fields f fs)))

abbrev is_same : Key → Key → Bool
is_same sig_key k = elim k [ sig_key ↦ true | _ ↦ false ]
is_same sp_key k = elim k [ sp_key ↦ true | _ ↦ false ]
is_same url_key k = elim k [ url_key ↦ true | _ ↦ false ]

-- The value of the first field with a key.
abbrev pub value_of : Key → Field → List Field → Option Bytes
value_of k (l, v) [] = elim (is_same k l) [ true ↦ some v | false ↦ none ]
value_of k (l, v) (f ∷ fs) = elim (is_same k l) [ true ↦ some v | false ↦ value_of k f fs ]

-- A value has no sign, no separator and no NUL.
abbrev pub IsValue : Bytes → Type 0
IsValue = All (λ c. (c ≢ b'=') × (c ≢ b'&') × (c ≢ 0))

abbrev pub AreValues : List Field → Type 0
AreValues = All (λ f. IsValue f.1)

no_sign : (v : Bytes) → IsValue v → All (λ c. c ≢ b'=') v
no_sign [] h = tt
no_sign (c ∷ v) ((e, a, z), h) = (e, no_sign v h)

key_plain : (k : Key) → All (λ c. c ≢ b'&') (key_text k)
key_plain sig_key = ((λ e. omega (arith, e)), tt)
key_plain sp_key = ((λ e. omega (arith, e)), ((λ e. omega (arith, e)), tt))
key_plain url_key =
    ((λ e. omega (arith, e)), ((λ e. omega (arith, e)), ((λ e. omega (arith, e)), tt)))

-- A key is found where it stands, and not in another key.
found_key : (k : Key) (s : Bytes) → strstr (pattern_of k) (key_text k ++ (b'=' ∷ s)) ≡ some 0
unfolding strstr starts
found_key sig_key s = refl
found_key sp_key s = refl
found_key url_key s = refl

further_twice : (m : Option ℕ) → further 1 (further 1 m) ≡ further 2 m
further_twice none = refl
further_twice (some p) = ap some (omega arith)

further_thrice : (m : Option ℕ) → further 1 (further 1 (further 1 m)) ≡ further 3 m
further_thrice none = refl
further_thrice (some p) = ap some (omega arith)

further_four : (m : Option ℕ) → further 1 (further 1 (further 1 (further 1 m))) ≡ further 4 m
further_four none = refl
further_four (some p) = ap some (omega arith)

other_key :
    (k l : Key) (s : Bytes)
    → is_same k l ≡ false
    → strstr (pattern_of k) (key_text l ++ (b'=' ∷ s))
      ≡ further (length (pattern_of l)) (strstr (pattern_of k) s)
unfolding strstr starts
other_key sig_key sig_key s e = cc
other_key sig_key sp_key s e = further_thrice (strstr (pattern_of sig_key) s)
other_key sig_key url_key s e = further_four (strstr (pattern_of sig_key) s)
other_key sp_key sig_key s e = further_twice (strstr (pattern_of sp_key) s)
other_key sp_key sp_key s e = cc
other_key sp_key url_key s e = further_four (strstr (pattern_of sp_key) s)
other_key url_key sig_key s e = further_twice (strstr (pattern_of url_key) s)
other_key url_key sp_key s e = further_thrice (strstr (pattern_of url_key) s)
other_key url_key url_key s e = cc

-- What follows a value.
abbrev pub IsTail : Bytes → Type 0
IsTail [] = Unit
IsTail (c ∷ s) = c ≡ b'&'

-- Where a key is found, with its value.
pub record FoundAt (k : Key) (text v : Bytes) : Type 0 where
  pub at : ℕ
  pub found : strstr (pattern_of k) text ≡ some at
  pub within : at + length (pattern_of k) ≤ length text
  pub tail : Bytes
  pub left : drop (at + length (pattern_of k)) text ≡ v ++ tail
  pub ends : IsTail tail

found_first :
    (k : Key) (v tail : Bytes) → IsTail tail → FoundAt k (key_text k ++ (b'=' ∷ (v ++ tail))) v
found_first sig_key v tail h = record {
  at = 0;
  found = found_key sig_key (v ++ tail);
  within = omega arith;
  tail = tail;
  left = refl;
  ends = h;
}
found_first sp_key v tail h = record {
  at = 0;
  found = found_key sp_key (v ++ tail);
  within = omega arith;
  tail = tail;
  left = refl;
  ends = h;
}
found_first url_key v tail h = record {
  at = 0;
  found = found_key url_key (v ++ tail);
  within = omega arith;
  tail = tail;
  left = refl;
  ends = h;
}

is_same-≡ : (k l : Key) → is_same k l ≡ true → k ≡ l
is_same-≡ sig_key sig_key e = refl
is_same-≡ sig_key sp_key e = cc
is_same-≡ sig_key url_key e = cc
is_same-≡ sp_key sig_key e = cc
is_same-≡ sp_key sp_key e = refl
is_same-≡ sp_key url_key e = cc
is_same-≡ url_key sig_key e = cc
is_same-≡ url_key sp_key e = cc
is_same-≡ url_key url_key e = refl

found_later :
    (k l : Key) (u v rest : Bytes)
    → is_same k l ≡ false
    → IsValue u
    → FoundAt k rest v
    → FoundAt k (key_text l ++ (b'=' ∷ (u ++ (b'&' ∷ rest)))) v
found_later k l u v rest e h f = record {
  at = length (pattern_of l) + (suc (length u) + f.at);
  found =
      other_key k l (u ++ (b'&' ∷ rest)) e
      ∙ ap (further (length (pattern_of l))) (
          strstr_value (key_text k) u rest (key_plain k) (no_sign u h)
          ∙ ap (further (suc (length u))) f.found);
  within = omega (arith, f.within, lengths l);
  tail = f.tail;
  left =
      ap (λ n. drop n text) places
      ∙ ap (drop (length (pattern_of l) + (length u + (1 + (f.at + length (pattern_of k))))))
          (sym (as_pattern l))
      ∙ drop_front (pattern_of l) (u ++ (b'&' ∷ rest))
          (length u + (1 + (f.at + length (pattern_of k))))
      ∙ drop_front u (b'&' ∷ rest) (1 + (f.at + length (pattern_of k)))
      ∙ drop_front (b'&' ∷ []) rest (f.at + length (pattern_of k))
      ∙ f.left;
  ends = f.ends;
}
  where
    text : Bytes
    text = key_text l ++ (b'=' ∷ (u ++ (b'&' ∷ rest)))

    places :
        length (pattern_of l) + (suc (length u) + f.at) + length (pattern_of k)
        ≡ length (pattern_of l) + (length u + (1 + (f.at + length (pattern_of k))))
    places = omega arith

    as_pattern :
        (m : Key)
        → pattern_of m ++ (u ++ (b'&' ∷ rest)) ≡ key_text m ++ (b'=' ∷ (u ++ (b'&' ∷ rest)))
    as_pattern m = append_assoc (key_text m) (b'=' ∷ []) (u ++ (b'&' ∷ rest))

    lengths :
        (m : Key)
        → length (key_text m ++ (b'=' ∷ (u ++ (b'&' ∷ rest))))
          ≡ length (pattern_of m) + (length u + suc (length rest))
    lengths m =
        ap length (sym (as_pattern m))
        ∙ length-append (pattern_of m) (u ++ (b'&' ∷ rest))
        ∙ ap (λ n. length (pattern_of m) + n) (length-append u (b'&' ∷ rest))

-- A key that the cipher has is found, with the value of its first field.
pub find_key :
    (k : Key) (f : Field) (fs : List Field) (v : Bytes)
    → AreValues (f ∷ fs)
    → value_of k f fs ≡ some v
    → FoundAt k (print_fields f fs) v
find_key k (l, u) [] v h e = elim (Bool-cases (is_same k l)) [
  | inl s ↦
      subst (λ m. FoundAt k (key_text m ++ (b'=' ∷ u)) v) (is_same-≡ k l s)
        (subst (λ w. FoundAt k (key_text k ++ (b'=' ∷ w)) v) (append-nil u)
          (subst (FoundAt k (key_text k ++ (b'=' ∷ (u ++ [])))) (value s) (found_first k u [] tt)))
  | inr s ↦ absurd (cc (no_value s))
]
  where
    value : is_same k l ≡ true → u ≡ v
    value s = some-injective u v (ap (λ b. elim b [ true ↦ some u | false ↦ none ]) (sym s) ∙ e)

    no_value : is_same k l ≡ false → none ≡ some v
    no_value s = ap (λ b. elim b [ true ↦ some u | false ↦ none ]) (sym s) ∙ e
find_key k (l, u) (f ∷ fs) v (hu, h) e = elim (Bool-cases (is_same k l)) [
  | inl s ↦
      subst (λ m. FoundAt k (key_text m ++ (b'=' ∷ (u ++ (b'&' ∷ print_fields f fs)))) v)
        (is_same-≡ k l s)
        (subst (FoundAt k (key_text k ++ (b'=' ∷ (u ++ (b'&' ∷ print_fields f fs))))) (value s)
          (found_first k u (b'&' ∷ print_fields f fs) refl))
  | inr s ↦ found_later k l u v (print_fields f fs) s hu (find_key k f fs v h (later s))
]
  where
    value : is_same k l ≡ true → u ≡ v
    value s =
        some-injective u v
          (ap (λ b. elim b [ true ↦ some u | false ↦ value_of k f fs ]) (sym s) ∙ e)

    later : is_same k l ≡ false → value_of k f fs ≡ some v
    later s = ap (λ b. elim b [ true ↦ some u | false ↦ value_of k f fs ]) (sym s) ∙ e
