-- ===== src/Base/Lists.antt =====
-- Lists measured and indexed by native numbers, under the library's names.
use Prim.Native.Nat.{ℕ, zero, suc, ◌+◌, ◌-◌, ◌≤◌, ◌<◌, min}
use mathlib.Core.Path.{◌≡◌, refl, sym, ap, ◌∙◌}
use mathlib.Core.List.{List, [], ◌∷◌, ◌++◌, map, reverse, reverse-cons}
use mathlib.Core.Option.{Option, none, some}
use native.Mathlib.Omega.{arith}

module _ {ℓ} {A : Type ℓ} where
  abbrev pub length : List A → ℕ
  length [] = 0
  length (x ∷ xs) = suc (length xs)

  abbrev pub get_elem? : List A → ℕ → Option A
  get_elem? [] i = none
  get_elem? (x ∷ xs) zero = some x
  get_elem? (x ∷ xs) (suc i) = get_elem? xs i

  -- A write out of bounds changes nothing.
  abbrev pub set : List A → ℕ → A → List A
  set [] i v = []
  set (x ∷ xs) zero v = v ∷ xs
  set (x ∷ xs) (suc i) v = x ∷ set xs i v

  abbrev pub take : ℕ → List A → List A
  take zero xs = []
  take (suc n) [] = []
  take (suc n) (x ∷ xs) = x ∷ take n xs

  abbrev pub drop : ℕ → List A → List A
  drop zero xs = xs
  drop (suc n) [] = []
  drop (suc n) (x ∷ xs) = drop n xs

  pub length-append : (xs ys : List A) → length (xs ++ ys) ≡ length xs + length ys
  length-append [] ys = omega arith
  length-append (x ∷ xs) ys = omega (arith, length-append xs ys)

  pub length-reverse : (xs : List A) → length (reverse xs) ≡ length xs
  length-reverse [] = refl
  length-reverse (x ∷ xs) =
      ap length (reverse-cons x xs)
      ∙ omega (arith, length-append (reverse xs) (x ∷ []), length-reverse xs)

  pub length-take : (n : ℕ) (xs : List A) → length (take n xs) ≡ min n (length xs)
  length-take zero xs = omega arith
  length-take (suc n) [] = omega arith
  length-take (suc n) (x ∷ xs) = omega (arith, length-take n xs)

  pub length-drop : (n : ℕ) (xs : List A) → length (drop n xs) ≡ length xs - n
  length-drop zero xs = omega arith
  length-drop (suc n) [] = omega arith
  length-drop (suc n) (x ∷ xs) = omega (arith, length-drop n xs)

  pub drop-append : (xs ys : List A) → drop (length xs) (xs ++ ys) ≡ ys
  drop-append [] ys = refl
  drop-append (x ∷ xs) ys = drop-append xs ys

  drop_to : (i j : ℕ) (xs : List A) → i ≡ j → drop i xs ≡ drop j xs
  drop_to i j xs e = ap (λ k. drop k xs) e

  drop_nil : (n : ℕ) → drop n [] ≡ []
  drop_nil zero = refl
  drop_nil (suc n) = refl

  drop_add : (i n : ℕ) (xs : List A) → drop (i + n) xs ≡ drop n (drop i xs)
  drop_add zero n xs = drop_to (0 + n) n xs (omega arith)
  drop_add (suc i) n [] = drop_nil (suc i + n) ∙ sym (drop_nil n)
  drop_add (suc i) n (x ∷ xs) =
      drop_to (suc i + n) (suc (i + n)) (x ∷ xs) (omega arith) ∙ drop_add i n xs

  pub drop_front : (xs ys : List A) (n : ℕ) → drop (length xs + n) (xs ++ ys) ≡ drop n ys
  drop_front [] ys n = drop_to (0 + n) n ys (omega arith)
  drop_front (x ∷ xs) ys n =
      drop_to (suc (length xs) + n) (suc (length xs + n)) (x ∷ xs ++ ys) (omega arith)
      ∙ drop_front xs ys n

  pub drop_append_le :
      (n : ℕ) (xs ys : List A) → n ≤ length xs → drop n (xs ++ ys) ≡ drop n xs ++ ys
  drop_append_le zero xs ys h = refl
  drop_append_le (suc n) [] ys h = absurd (omega arith)
  drop_append_le (suc n) (x ∷ xs) ys h = drop_append_le n xs ys (omega arith)

  -- What is left past a prefix.
  pub drop_past : (i : ℕ) (f xs ys : List A) → drop i f ≡ xs ++ ys → drop (i + length xs) f ≡ ys
  drop_past i f xs ys e =
      drop_add i (length xs) f ∙ ap (λ l. drop (length xs) l) e ∙ drop-append xs ys

  pub take-append : (xs ys : List A) → take (length xs) (xs ++ ys) ≡ xs
  take-append [] ys = refl
  take-append (x ∷ xs) ys = ap (λ r. x ∷ r) (take-append xs ys)

  pub take-drop : (n : ℕ) (xs : List A) → take n xs ++ drop n xs ≡ xs
  take-drop zero xs = refl
  take-drop (suc n) [] = refl
  take-drop (suc n) (x ∷ xs) = ap (λ r. x ∷ r) (take-drop n xs)

  pub drop_all : (n : ℕ) (xs : List A) → length xs ≤ n → drop n xs ≡ []
  drop_all zero [] h = refl
  drop_all zero (x ∷ xs) h = absurd (omega arith)
  drop_all (suc n) [] h = refl
  drop_all (suc n) (x ∷ xs) h = drop_all n xs (omega arith)

  pub take_all : (n : ℕ) (xs : List A) → length xs ≤ n → take n xs ≡ xs
  take_all zero [] h = refl
  take_all zero (x ∷ xs) h = absurd (omega arith)
  take_all (suc n) [] h = refl
  take_all (suc n) (x ∷ xs) h = ap (λ r. x ∷ r) (take_all n xs (omega arith))

  pub set_middle :
      (a : List A) (x : A) (b : List A) (v : A) (i : ℕ)
      → length a ≡ i
      → set (a ++ x ∷ b) i v ≡ a ++ v ∷ b
  set_middle [] x b v zero e = refl
  set_middle [] x b v (suc i) e = absurd (omega arith)
  set_middle (c ∷ a) x b v zero e = absurd (omega arith)
  set_middle (c ∷ a) x b v (suc i) e = ap (λ r. c ∷ r) (set_middle a x b v i (omega arith))

  pub get_elem?_middle :
      (a : List A) (x : A) (b : List A) (i : ℕ) → length a ≡ i → get_elem? (a ++ x ∷ b) i ≡ some x
  get_elem?_middle [] x b zero e = refl
  get_elem?_middle [] x b (suc i) e = absurd (omega arith)
  get_elem?_middle (c ∷ a) x b zero e = absurd (omega arith)
  get_elem?_middle (c ∷ a) x b (suc i) e = get_elem?_middle a x b i (omega arith)

  pub set-append :
      (xs ys : List A) (i : ℕ) (v : A) → i < length xs → set (xs ++ ys) i v ≡ set xs i v ++ ys
  set-append [] ys i v h = absurd (omega arith)
  set-append (x ∷ xs) ys zero v h = refl
  set-append (x ∷ xs) ys (suc i) v h = ap (λ r. x ∷ r) (set-append xs ys i v (omega arith))

  pub get_elem?_lt : (xs : List A) (i : ℕ) → i < length xs → (x : A) × (get_elem? xs i ≡ some x)
  get_elem?_lt [] i h = absurd (omega arith)
  get_elem?_lt (x ∷ xs) zero h = (x, refl)
  get_elem?_lt (x ∷ xs) (suc i) h = get_elem?_lt xs i (omega arith)

  pub get_elem?-append :
      (xs ys : List A) (i : ℕ) → i < length xs → get_elem? (xs ++ ys) i ≡ get_elem? xs i
  get_elem?-append [] ys i h = absurd (omega arith)
  get_elem?-append (x ∷ xs) ys zero h = refl
  get_elem?-append (x ∷ xs) ys (suc i) h = get_elem?-append xs ys i (omega arith)

  pub length-set : (xs : List A) (i : ℕ) (v : A) → length (set xs i v) ≡ length xs
  length-set [] i v = refl
  length-set (x ∷ xs) zero v = refl
  length-set (x ∷ xs) (suc i) v = ap suc (length-set xs i v)

pub length-map {ℓ κ} :
    {A : Type ℓ} {B : Type κ} (f : A → B) (xs : List A) → length (map f xs) ≡ length xs
length-map f [] = refl
length-map f (x ∷ xs) = ap suc (length-map f xs)

module _ {ℓ κ} {A : Type ℓ} (P : A → Type κ) where
  -- Every element satisfies the predicate.
  abbrev pub All : List A → Type κ
  All [] = Unit
  All (x ∷ xs) = P x × All xs

  pub All-append : (xs ys : List A) → All xs → All ys → All (xs ++ ys)
  All-append [] ys _ hy = hy
  All-append (x ∷ xs) ys (px, hx) hy = (px, All-append xs ys hx hy)

  pub All-take : (n : ℕ) (xs : List A) → All xs → All (take n xs)
  All-take zero xs h = tt
  All-take (suc n) [] h = tt
  All-take (suc n) (x ∷ xs) (p, h) = (p, All-take n xs h)

  pub All-set : (xs : List A) (i : ℕ) (v : A) → All xs → P v → All (set xs i v)
  All-set [] i v h p = tt
  All-set (x ∷ xs) zero v (q, h) p = (p, h)
  All-set (x ∷ xs) (suc i) v (q, h) p = (q, All-set xs i v h p)

  pub All-drop : (n : ℕ) (xs : List A) → All xs → All (drop n xs)
  All-drop zero xs h = h
  All-drop (suc n) [] h = tt
  All-drop (suc n) (x ∷ xs) (p, h) = All-drop n xs h
