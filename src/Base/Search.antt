-- ===== src/Base/Search.antt =====
-- The search for a text in a text, `strstr`.
use Prim.Native.Nat.{ℕ, suc, ◌+◌}
use mathlib.Core.Path.{◌≡◌, refl, sym, ap, ◌∙◌}
use mathlib.Core.Logic.{◌≢◌}
use mathlib.Core.Bool.{Bool, true, false, not, ◌&&◌}
use mathlib.Core.List.{[], ◌∷◌, ◌++◌, append-nil, append_assoc}
use mathlib.Core.Option.{Option, none, some}
use native.Mathlib.Omega.{arith}
use libytdl.Base.Tests.{if◌then◌else◌, ◌==◌, ltb}
use libytdl.Base.Lists.{length, length-append, All, take, drop, drop-append, take-append}
use libytdl.Base.Text.{Bytes, NoNul}

-- Whether a text starts with another.
unfoldable pub starts : Bytes → Bytes → Bool
starts [] s = true
starts (c ∷ pat) [] = false
starts (c ∷ pat) (d ∷ s) = c == d && starts pat s

-- The place that is so much further.
abbrev pub further : ℕ → Option ℕ → Option ℕ
further n none = none
further n (some p) = some (n + p)

-- The first place of a text that is not empty.
unfoldable pub strstr : Bytes → Bytes → Option ℕ
strstr pat [] = none
strstr pat (c ∷ s) = if starts pat (c ∷ s) then some 0 else further 1 (strstr pat s)

further-further : (a b : ℕ) (m : Option ℕ) → further a (further b m) ≡ further (a + b) m
further-further a b none = refl
further-further a b (some p) = ap some (omega arith)

-- A byte that a text does not have is found behind it.
pub strstr_byte :
    (c : ℕ) (p s : Bytes) → All (λ d. d ≢ c) p → strstr (c ∷ []) (p ++ c ∷ s) ≡ some (length p)
unfolding strstr starts
strstr_byte c [] s h = ground arith
strstr_byte c (d ∷ p) s (n, h) = ground (arith, strstr_byte c p s h)

pub strstr_no_byte : (c : ℕ) (p : Bytes) → All (λ d. d ≢ c) p → strstr (c ∷ []) p ≡ none
unfolding strstr starts
strstr_no_byte c [] h = refl
strstr_no_byte c (d ∷ p) (n, h) = ground (arith, strstr_no_byte c p h)

-- A key of a URL's query with its sign: no key is found in a value before the next field.
starts-value :
    (key : Bytes) (p s : Bytes)
    → All (λ d. d ≢ b'&') key
    → All (λ d. d ≢ b'=') p
    → starts (key ++ b'=' ∷ []) (p ++ b'&' ∷ s) ≡ false
unfolding starts
starts-value [] [] s k h = refl
starts-value [] (d ∷ p) s k (n, h) = ground arith
starts-value (c ∷ key) [] s (m, k) h = ground arith
starts-value (c ∷ key) (d ∷ p) s (m, k) (n, h) = ground (arith, starts-value key p s k h)

pub strstr_value :
    (key : Bytes) (p s : Bytes)
    → All (λ d. d ≢ b'&') key
    → All (λ d. d ≢ b'=') p
    → strstr (key ++ b'=' ∷ []) (p ++ b'&' ∷ s)
      ≡ further (suc (length p)) (strstr (key ++ b'=' ∷ []) s)
unfolding strstr
strstr_value key [] s k h =
    ap (λ b. if b then some 0 else further 1 (strstr (key ++ b'=' ∷ []) s))
      (starts-value key [] s k h)
strstr_value key (d ∷ p) s k (n, h) =
    ap (λ b. if b then some 0 else further 1 (strstr (key ++ b'=' ∷ []) (p ++ b'&' ∷ s)))
      (starts-value key (d ∷ p) s k (n, h))
    ∙ ap (further 1) (strstr_value key p s k h)
    ∙ further-further 1 (suc (length p)) (strstr (key ++ b'=' ∷ []) s)
    ∙ ap (λ n. further n (strstr (key ++ b'=' ∷ []) s)) (omega arith)

-- `strnstr` with the text's length as its bound: the search for `c ∷ find`, and for any text. What is
-- searched for has no NUL.
unfoldable pub strnstr_from : ℕ → Bytes → Bytes → Option ℕ
strnstr_from c find [] = none
strnstr_from c find (d ∷ s) =
    let rest = further 1 (strnstr_from c find s) in
    if d == 0
    then none
    else if not (d == c)
    then rest
    else if ltb (length s) (length find)
    then none
    else if starts find s
    then some 0
    else rest

unfoldable pub strnstr : Bytes → Bytes → Option ℕ
strnstr [] s = some 0
strnstr (c ∷ find) s = strnstr_from c find s

-- No place of `key` in `before ++ tail` lies in `before`.
abbrev pub NotBefore : Bytes → Bytes → Bytes → Type 0
NotBefore key [] tail = Unit
NotBefore key (c ∷ before) tail =
    (starts key (c ∷ (before ++ tail)) ≡ false) × NotBefore key before tail

starts-append : (key s : Bytes) → starts key (key ++ s) ≡ true
unfolding starts
starts-append [] s = refl
starts-append (c ∷ key) s = ground (arith, starts-append key s)

pub strnstr_first :
    (c : ℕ) (find before after : Bytes)
    → c ≢ 0
    → NoNul before
    → NotBefore (c ∷ find) before ((c ∷ find) ++ after)
    → strnstr (c ∷ find) (before ++ ((c ∷ find) ++ after)) ≡ some (length before)
unfolding strnstr strnstr_from starts
strnstr_first c find [] after n h b =
    ground (arith, starts-append find after, length-append find after)
strnstr_first c find (d ∷ before) after n (m, h) (e, b) = ground (
  arith,
  strnstr_first c find before after n h b,
  length-append before ((c ∷ find) ++ after),
  length-append (c ∷ find) after,
)

pub strnstr_nowhere :
    (c : ℕ) (find s : Bytes) → NotBefore (c ∷ find) s [] → strnstr (c ∷ find) s ≡ none
unfolding strnstr strnstr_from starts
strnstr_nowhere c find [] h = refl
strnstr_nowhere c find (d ∷ s) (e, h) = ground (arith, strnstr_nowhere c find s h, append-nil s)

-- The first place of a key in a text, with no NUL before it.
pub record Found (key text before after : Bytes) : Type 0 where
  pub whole : text ≡ before ++ (key ++ after)
  pub no_nul : NoNul before
  pub first : NotBefore key before (key ++ after)

pub strnstr-Found :
    (c : ℕ) (find text before after : Bytes)
    → c ≢ 0
    → Found (c ∷ find) text before after
    → strnstr (c ∷ find) text ≡ some (length before)
strnstr-Found c find text before after n f =
    ap (strnstr (c ∷ find)) f.whole ∙ strnstr_first c find before after n f.no_nul f.first

pub drop-Found :
    (key text before after : Bytes)
    → Found key text before after
    → drop (length before + length key) text ≡ after
drop-Found key text before after f =
    ap (λ n. drop n text) (sym (length-append before key))
    ∙ ap (drop (length (before ++ key))) (f.whole ∙ sym (append_assoc before key after))
    ∙ drop-append (before ++ key) after

pub take-Found :
    (key text before after : Bytes)
    → Found key text before after
    → take (length before) text ≡ before
take-Found key text before after f =
    ap (take (length before)) f.whole ∙ take-append before (key ++ after)
