-- ===== src/Base/Text.antt =====
-- C text as lists of bytes: what `strlen`, `snprintf` with a bound and `%zu` do.
use Prim.Native.Nat.{ℕ, zero, suc, ◌+◌, ◌-◌, ◌*◌, ◌/◌, ◌%◌, ◌^◌, ◌≤◌, ◌<◌}
use Prim.Native.Char.{code}
use Prim.Native.String.{String}
use mathlib.Core.Path.{◌≡◌, refl, sym, subst, ap, ◌∙◌}
use mathlib.Core.Logic.{◌≢◌, inl, inr}
use mathlib.Core.Bool.{Bool, true, false, ◌&&◌, not}
use mathlib.Core.List.{List, [], ◌∷◌, ◌++◌, foldl, foldl-append}
use native.Mathlib.Nat.{pow-suc}
use native.Mathlib.Omega.{arith}
use libytdl.Base.Tests.{lt→ltb, if◌then◌else◌, ltb, ltb→lt, ◌==◌, Bool-cases}
use libytdl.Base.Lists.{length, take, length-take, take_all, length-append, All, All-append}

abbrev pub Bytes : Type 0
Bytes = List ℕ

-- The bytes of an ASCII literal.
abbrev pub codes : String → Bytes
codes String.[] = []
codes (String.◌∷◌ c s) = code c ∷ codes s

-- The text that a C function sees behind a pointer: the bytes before the first NUL.
unfoldable pub c_str : Bytes → Bytes
c_str [] = []
c_str (c ∷ s) = if c == 0 then [] else c ∷ c_str s

-- No byte of the text is NUL.
abbrev pub NoNul : Bytes → Type 0
NoNul = All (λ c. c ≢ 0)

-- The same as a test, which evaluates on a literal.
unfoldable pub no_nul : Bytes → Bool
no_nul [] = true
no_nul (c ∷ s) = not (c == 0) && no_nul s

pub no_nul-NoNul : (s : Bytes) → no_nul s ≡ true → NoNul s
unfolding no_nul
no_nul-NoNul [] h = tt
no_nul-NoNul (c ∷ s) h = ground (arith, no_nul-NoNul s)

-- A text written piece by piece, as a format string is expanded.
unfoldable pub concat : List Bytes → Bytes
concat [] = []
concat (p ∷ ps) = p ++ concat ps

abbrev pub total_length : List Bytes → ℕ
total_length [] = 0
total_length (p ∷ ps) = length p + total_length ps

pub length-concat : (ps : List Bytes) → length (concat ps) ≡ total_length ps
unfolding concat
length-concat [] = refl
length-concat (p ∷ ps) = omega (arith, length-append p (concat ps), length-concat ps)

pub concat-NoNul : (ps : List Bytes) → All NoNul ps → NoNul (concat ps)
unfolding concat
concat-NoNul [] h = tt
concat-NoNul (p ∷ ps) (hp, hps) = All-append (λ c. c ≢ 0) p (concat ps) hp (concat-NoNul ps hps)

pub c_str-NoNul : (s : Bytes) → NoNul (c_str s)
unfolding c_str
c_str-NoNul [] = tt
c_str-NoNul (c ∷ s) = ground (arith, c_str-NoNul s)

pub c_str_id : (s : Bytes) → NoNul s → c_str s ≡ s
unfolding c_str
c_str_id [] h = refl
c_str_id (c ∷ s) (p, h) = ground (arith, c_str_id s h)

-- The text before a NUL.
pub c_str-text : (t tail : Bytes) → NoNul t → c_str (t ++ 0 ∷ tail) ≡ t
unfolding c_str
c_str-text [] tail h = refl
c_str-text (c ∷ t) tail (p, h) = ground (arith, c_str-text t tail h)

pub length-c_str : (s : Bytes) → length (c_str s) ≤ length s
unfolding c_str
length-c_str [] = omega arith
length-c_str (c ∷ s) = ground (arith, length-c_str s)

-- What `snprintf(base, size, …)` leaves before the NUL, for a text of any length and a size > 0.
unfoldable pub snprintf : ℕ → Bytes → Bytes
snprintf size text = c_str (take (size - 1) text)

pub snprintf_fits : (size : ℕ) (t : Bytes) → NoNul t → length t < size → snprintf size t ≡ t
unfolding snprintf
snprintf_fits size t h l = ap c_str (take_all (size - 1) t (omega arith)) ∙ c_str_id t h

pub snprintf_bound : (size : ℕ) (t : Bytes) → length (snprintf size t) ≤ size - 1
unfolding snprintf
snprintf_bound size t = omega (arith, length-c_str (take (size - 1) t), length-take (size - 1) t)

-- The `%.*s` directive, none from a NUL on. The precision is read as an `int` from the `size_t` or
-- the `ptrdiff_t` that the code passes: a negative one is as if there were none.
unfoldable pub precision : ℕ → Bytes → Bytes
precision n s = if ltb (n % 2 ^ 32) (2 ^ 31) then c_str (take (n % 2 ^ 32) s) else c_str s

-- A precision that an `int` holds bounds the text.
pub precision-take : (n : ℕ) (s : Bytes) → n < 2 ^ 31 → precision n s ≡ c_str (take n s)
unfolding precision
precision-take n s h =
    let small : n % 2 ^ 32 ≡ n = omega (arith, h) in
    ap (λ m. if ltb m (2 ^ 31) then c_str (take m s) else c_str s) small
    ∙ rw (lt→ltb n (2 ^ 31) h) refl

pub precision-NoNul : (n : ℕ) (s : Bytes) → NoNul (precision n s)
unfolding precision
precision-NoNul n s = elim (Bool-cases (ltb (n % 2 ^ 32) (2 ^ 31))) [
  | inl e ↦ rw e (c_str-NoNul (take (n % 2 ^ 32) s))
  | inr e ↦ rw e (c_str-NoNul s)
]

pub length-precision : (n : ℕ) (s : Bytes) → n < 2 ^ 31 → length (precision n s) ≤ n
length-precision n s h =
    omega (arith, ap length (precision-take n s h), length-c_str (take n s), length-take n s)

-- The `%zu` directive: decimal digits, with fuel for the digits of a 64-bit number.
decimal_from : ℕ → ℕ → Bytes
decimal_from zero n = []
decimal_from (suc f) n =
    let high = decimal_from f (n / 10) in
    if ltb n 10 then (b'0' + n) ∷ [] else high ++ (b'0' + n % 10) ∷ []

unfoldable pub decimal : ℕ → Bytes
unfolding decimal_from
decimal n = decimal_from 20 n

-- The number that digits spell.
abbrev pub value : ℕ → Bytes → ℕ
value = foldl (λ n c. n * 10 + (c - b'0'))

decimal_from-NoNul : (f n : ℕ) → NoNul (decimal_from f n)
unfolding decimal_from
decimal_from-NoNul zero n = tt
decimal_from-NoNul (suc f) n = elim (Bool-cases (ltb n 10)) [
  | inl e ↦ rw e ((λ z. absurd (omega arith)), tt)
  | inr e ↦ rw e (
      All-append (λ c. c ≢ 0) (decimal_from f (n / 10)) _ (decimal_from-NoNul f (n / 10))
        ((λ z. absurd (omega arith)), tt))
]

length-decimal_from : (f n : ℕ) → length (decimal_from f n) ≤ f
unfolding decimal_from
length-decimal_from zero n = omega arith
length-decimal_from (suc f) n = ground (
  arith,
  length-append (decimal_from f (n / 10)) ((b'0' + n % 10) ∷ []),
  length-decimal_from f (n / 10),
)

pub decimal-NoNul : (n : ℕ) → NoNul (decimal n)
unfolding decimal
decimal-NoNul n = decimal_from-NoNul 20 n

pub length-decimal : (n : ℕ) → length (decimal n) ≤ 20
unfolding decimal
length-decimal n = length-decimal_from 20 n

value-decimal_from : (f n : ℕ) → n < 10 ^ f → value 0 (decimal_from f n) ≡ n
unfolding decimal_from
value-decimal_from zero n h = omega arith
value-decimal_from (suc f) n h = elim (Bool-cases (ltb n 10)) [
  | inl e ↦ rw e (omega (arith, ltb→lt n 10 e))
  | inr e ↦ rw e (
      rw (foldl-append (λ n c. n * 10 + (c - b'0')) 0 (decimal_from f (n / 10)))
        (rw (value-decimal_from f (n / 10) (omega (arith, pow-suc 10 f))) (omega arith)))
]

abbrev pub IsDigit : ℕ → Type 0
IsDigit c = (b'0' ≤ c) × (c ≤ b'9')

decimal_from-IsDigit : (f n : ℕ) → All IsDigit (decimal_from f n)
unfolding decimal_from
decimal_from-IsDigit zero n = tt
decimal_from-IsDigit (suc f) n = elim (Bool-cases (ltb n 10)) [
  | inl e ↦ rw e ((omega arith, omega (arith, ltb→lt n 10 e)), tt)
  | inr e ↦ rw e (
      All-append IsDigit (decimal_from f (n / 10)) _ (decimal_from-IsDigit f (n / 10))
        ((omega arith, omega arith), tt))
]

pub decimal-IsDigit : (n : ℕ) → All IsDigit (decimal n)
unfolding decimal
decimal-IsDigit n = decimal_from-IsDigit 20 n

-- A number has a digit at least.
pub decimal_nonempty : (n : ℕ) → 0 < length (decimal n)
unfolding decimal decimal_from
decimal_nonempty n = elim (Bool-cases (ltb n 10)) [
  | inl e ↦ rw e (omega arith)
  | inr e ↦ rw e (omega (arith, length-append (decimal_from 19 (n / 10)) ((b'0' + n % 10) ∷ [])))
]

-- Every 64-bit number is printed in full.
pub value-decimal : (n : ℕ) → n < 2 ^ 64 → value 0 (decimal n) ≡ n
unfolding decimal
value-decimal n h = value-decimal_from 20 n (omega arith)

abbrev pub zeros : ℕ → Bytes
zeros zero = []
zeros (suc n) = 0 ∷ zeros n

-- Whether two texts are the same, byte by byte.
unfoldable pub bytes_eq : Bytes → Bytes → Bool
bytes_eq [] [] = true
bytes_eq [] (d ∷ t) = false
bytes_eq (c ∷ s) [] = false
bytes_eq (c ∷ s) (d ∷ t) = c == d && bytes_eq s t

pub bytes_eq→≡ : (s t : Bytes) → bytes_eq s t ≡ true → s ≡ t
unfolding bytes_eq
bytes_eq→≡ [] [] h = refl
bytes_eq→≡ [] (d ∷ t) h = cc
bytes_eq→≡ (c ∷ s) [] h = cc
bytes_eq→≡ (c ∷ s) (d ∷ t) h = ground (arith, bytes_eq→≡ s t)

pub bytes_eq_refl : (s : Bytes) → bytes_eq s s ≡ true
unfolding bytes_eq
bytes_eq_refl [] = refl
bytes_eq_refl (c ∷ s) = ground (arith, bytes_eq_refl s)

-- A text that is one literal is no other.
pub bytes_eq_other :
    (s a b : Bytes) → bytes_eq s a ≡ true → bytes_eq a b ≡ false → bytes_eq s b ≡ false
bytes_eq_other s a b h g = subst (λ r. bytes_eq r b ≡ false) (sym (bytes_eq→≡ s a h)) g
