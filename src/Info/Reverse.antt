-- ===== src/Info/Reverse.antt =====
-- `ytdl__strrev` of src/info.c, the loop that reverses a signature in place.
use mathlib.Core.List.{reverse-append, reverse-cons}
use libytdl.Base.{
  ℕ, zero, suc, ◌+◌, ◌-◌, ◌%◌, ◌^◌, ◌<◌, ◌≤◌, ◌≡◌, refl, sym, ap, subst, ◌∙◌, [], ◌∷◌, ◌++◌,
  append_assoc, append-nil, reverse, lt→ltb, ge→ltb, none, some, if◌then◌else◌, ltb, length,
  length-append, get_elem?, set, set_middle, Bytes, arith,
}

abbrev pub byte_at : Bytes → ℕ → ℕ
byte_at s i = elim (get_elem? s i) [ none ↦ 0 | some c ↦ c ]

-- The loop, with fuel for its rounds: it stops when the places have met.
unfoldable pub reverse_from : ℕ → ℕ → ℕ → Bytes → Bytes
reverse_from zero i j str = str
reverse_from (suc n) i j str =
    let swapped = set (set str i (byte_at str j)) j (byte_at str i) in
    let rest = reverse_from n (i - 1) (j + 1) swapped in if ltb j i then rest else str

-- `ytdl__strrev`: the places are `int`s, and a negative one ends the loop.
unfoldable pub strrev : Bytes → Bytes
strrev [] = []
strrev (c ∷ s) =
    let i = (length (c ∷ s) - 1) % 2 ^ 32 in
    if ltb i (2 ^ 31) then reverse_from (length (c ∷ s)) i 0 (c ∷ s) else c ∷ s

byte_at_middle : (a : Bytes) (x : ℕ) (b : Bytes) (i : ℕ) → length a ≡ i → byte_at (a ++ x ∷ b) i ≡ x
byte_at_middle [] x b zero e = refl
byte_at_middle [] x b (suc i) e = absurd (omega arith)
byte_at_middle (c ∷ a) x b zero e = absurd (omega arith)
byte_at_middle (c ∷ a) x b (suc i) e = byte_at_middle a x b i (omega arith)

-- A list that is not empty has a last element.
split_last : (x : ℕ) (xs : Bytes) → (ys : Bytes) × (y : ℕ) × (x ∷ xs ≡ ys ++ y ∷ [])
split_last x [] = ([], x, refl)
split_last x (c ∷ xs) = let (ys, y, e) = split_last c xs in (x ∷ ys, y, ap (λ r. x ∷ r) e)

swap_ends :
    (a : Bytes) (x : ℕ) (ys : Bytes) (y : ℕ) (b : Bytes) (i j : ℕ)
    → length a ≡ j
    → length a + suc (length ys) ≡ i
    → (let str = a ++ (x ∷ (ys ++ (y ∷ b))) in set (set str i (byte_at str j)) j (byte_at str i))
      ≡ a ++ (y ∷ (ys ++ (x ∷ b)))
swap_ends a x ys y b i j d e =
    let str = a ++ (x ∷ (ys ++ (y ∷ b))) in
    let l : length (a ++ (x ∷ ys)) ≡ i = length-append a (x ∷ ys) ∙ e in
    let s : (a ++ (x ∷ ys)) ++ (y ∷ b) ≡ str = append_assoc a (x ∷ ys) (y ∷ b) in
    let p : byte_at str i ≡ y =
      subst (λ r. byte_at r i ≡ y) s (byte_at_middle (a ++ (x ∷ ys)) y b i l) in
    let q : byte_at str j ≡ x = byte_at_middle a x (ys ++ (y ∷ b)) j d in
    let r : set str i x ≡ a ++ (x ∷ (ys ++ (x ∷ b))) =
      subst (λ z. set z i x ≡ a ++ (x ∷ (ys ++ (x ∷ b)))) s
        (set_middle (a ++ (x ∷ ys)) y b x i l ∙ append_assoc a (x ∷ ys) (x ∷ b)) in
    ap (λ v. set (set str i v) j (byte_at str i)) q
    ∙ ap (λ v. set (set str i x) j v) p
    ∙ ap (λ z. set z j y) r
    ∙ set_middle a x (ys ++ (x ∷ b)) y j d

-- The reversal of a list between its ends.
reverse_ends : (x : ℕ) (ys : Bytes) (y : ℕ) → reverse (x ∷ ys ++ y ∷ []) ≡ y ∷ reverse ys ++ x ∷ []
reverse_ends x ys y =
    reverse-cons x (ys ++ y ∷ []) ∙ ap (λ r. r ++ x ∷ []) (reverse-append ys (y ∷ []))

reverse_from_lem :
    (n : ℕ) (a m b : Bytes) (i j : ℕ)
    → length m ≤ n
    → length a ≡ j
    → length a + length m - 1 ≡ i
    → reverse_from n i j (a ++ (m ++ b)) ≡ a ++ (reverse m ++ b)
unfolding reverse_from
reverse_from_lem zero a [] b i j l e f = refl
reverse_from_lem zero a (x ∷ m) b i j l e f = absurd (omega arith)
reverse_from_lem (suc n) a [] b i j l e f = rw (ge→ltb j i (omega arith)) refl
reverse_from_lem (suc n) a (x ∷ []) b i j l e f = rw (ge→ltb j i (omega arith)) refl
reverse_from_lem (suc n) a (x ∷ c ∷ m) b i j l e f =
    let (ys, y, g) = split_last c m in
    let k : length (c ∷ m) ≡ length ys + 1 = ap length g ∙ length-append ys (y ∷ []) in
    let inner =
      reverse_from_lem n (a ++ (y ∷ [])) ys (x ∷ b) (i - 1) (j + 1) (omega (arith, k))
        (length-append a (y ∷ []) ∙ ap (λ z. z + 1) e)
        (omega (arith, k, length-append a (y ∷ []))) in
    let joined : (z : Bytes) → (a ++ (y ∷ [])) ++ z ≡ a ++ (y ∷ z) = append_assoc a (y ∷ []) in
    subst (λ w. reverse_from (suc n) i j (a ++ (x ∷ (w ++ b))) ≡ a ++ (reverse (x ∷ w) ++ b))
      (sym g)
      (ap (λ z. reverse_from (suc n) i j (a ++ (x ∷ z))) (append_assoc ys (y ∷ []) b)
        ∙ rw (lt→ltb j i (omega (arith, k)))
            (ap (reverse_from n (i - 1) (j + 1)) (swap_ends a x ys y b i j e (omega (arith, k))))
        ∙ ap (reverse_from n (i - 1) (j + 1)) (sym (joined (ys ++ (x ∷ b))))
        ∙ inner
        ∙ joined (reverse ys ++ (x ∷ b))
        ∙ ap (λ r. a ++ r)
            (sym
              (ap (λ r. r ++ b) (reverse_ends x ys y) ∙ append_assoc (y ∷ reverse ys) (x ∷ []) b)))

-- The loop leaves the reverse of a text that is not too long.
pub strrev-reverse : (str : Bytes) → length str < 2 ^ 31 → strrev str ≡ reverse str
unfolding strrev
strrev-reverse [] h = refl
strrev-reverse (c ∷ s) h =
    let small : (length (c ∷ s) - 1) % 2 ^ 32 ≡ length (c ∷ s) - 1 = omega (arith, h) in
    ap (λ i. if ltb i (2 ^ 31) then reverse_from (length (c ∷ s)) i 0 (c ∷ s) else c ∷ s) small
    ∙ rw (lt→ltb (length (c ∷ s) - 1) (2 ^ 31) (omega (arith, h))) refl
    ∙ ap (reverse_from (length (c ∷ s)) (length (c ∷ s) - 1) 0) (sym (append-nil (c ∷ s)))
    ∙ reverse_from_lem (length (c ∷ s)) [] (c ∷ s) [] (length (c ∷ s) - 1) 0 (omega arith) refl
        (omega arith)
    ∙ append-nil (reverse (c ∷ s))
