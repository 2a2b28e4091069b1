-- ===== src/Base/Compare.antt =====
-- The comparison of C texts that stops at a bound, `strncmp`.
use Prim.Native.Nat.{ℕ, zero, suc, ◌≤◌}
use mathlib.Core.Path.{◌≡◌, refl}
use mathlib.Core.Logic.{inl, inr}
use mathlib.Core.Bool.{Bool, true, false}
use mathlib.Core.List.{[], ◌∷◌, ◌++◌}
use mathlib.Core.Option.{Option, none, some}
use native.Mathlib.Omega.{arith}
use libytdl.Base.Tests.{if◌then◌else◌, ◌==◌, Bool-cases}
use libytdl.Base.Lists.{length}
use libytdl.Base.Text.{Bytes, NoNul, bytes_eq}
use libytdl.Base.Faults.{Returns}

-- `!strncmp(s, t, n)` of buffers that end with the lists; `none` is a read past the end of one.
unfoldable pub strncmp_eq : ℕ → Bytes → Bytes → Option Bool
strncmp_eq zero s t = some true
strncmp_eq (suc n) [] t = none
strncmp_eq (suc n) (c ∷ s) [] = none
strncmp_eq (suc n) (c ∷ s) (d ∷ t) =
    if c == d then (if c == 0 then some true else strncmp_eq n s t) else some false

pub strncmp_eq_reads :
    (n : ℕ) (s t : Bytes) → n ≤ length s → n ≤ length t → Returns (λ _. Unit) (strncmp_eq n s t)
unfolding strncmp_eq
strncmp_eq_reads zero s t h l = tt
strncmp_eq_reads (suc n) [] t h l = absurd (omega arith)
strncmp_eq_reads (suc n) (c ∷ s) [] h l = absurd (omega arith)
strncmp_eq_reads (suc n) (c ∷ s) (d ∷ t) h l = elim (Bool-cases (c == d)) [
  | inl e ↦ rw e (elim (Bool-cases (c == 0)) [
    | inl f ↦ rw f tt
    | inr f ↦ rw f (strncmp_eq_reads n s t (omega arith) (omega arith))
  ])
  | inr e ↦ rw e tt
]

-- Two texts of a length, each before some other text.
pub strncmp_eq-texts :
    (x y r t : Bytes)
    → length x ≡ length y
    → NoNul x
    → strncmp_eq (length x) (x ++ r) (y ++ t) ≡ some (bytes_eq x y)
unfolding strncmp_eq bytes_eq
strncmp_eq-texts [] [] r t e n = refl
strncmp_eq-texts [] (d ∷ y) r t e n = absurd (omega arith)
strncmp_eq-texts (c ∷ x) [] r t e n = absurd (omega arith)
strncmp_eq-texts (c ∷ x) (d ∷ y) r t e (p, n) = elim (Bool-cases (c == d)) [
  | inl f ↦ rw f (ground (arith, strncmp_eq-texts x y r t (omega arith) n))
  | inr f ↦ rw f refl
]

-- A comparison with a text that ends in NUL.
pub strncmp_eq_stops :
    (n : ℕ) (s t : Bytes) → n ≤ length s → Returns (λ _. Unit) (strncmp_eq n s (t ++ 0 ∷ []))
unfolding strncmp_eq
strncmp_eq_stops zero s t h = tt
strncmp_eq_stops (suc n) [] t h = absurd (omega arith)
strncmp_eq_stops (suc n) (c ∷ s) [] h = elim (Bool-cases (c == 0)) [
  | inl e ↦ rw e tt
  | inr e ↦ rw e tt
]
strncmp_eq_stops (suc n) (c ∷ s) (d ∷ t) h = elim (Bool-cases (c == d)) [
  | inl e ↦ rw e (elim (Bool-cases (c == 0)) [
    | inl f ↦ rw f tt
    | inr f ↦ rw f (strncmp_eq_stops n s t (omega arith))
  ])
  | inr e ↦ rw e tt
]
