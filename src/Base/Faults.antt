-- ===== src/Base/Faults.antt =====
-- Runs that may fault: `none` is undefined behaviour, such as an access outside an allocation.
use libytdl.Base.Tests.{if◌then◌else◌}
use mathlib.Core.Bool.{Bool, true, false}
use mathlib.Core.Option.{Option, none, some, some-injective}
use mathlib.Core.Path.{◌≡◌, refl, sym, subst}

infixl 5 ◌>>=◌
abbrev pub ◌>>=◌ {ℓ κ} : {A : Type ℓ} {B : Type κ} → Option A → (A → Option B) → Option B
none >>= f = none
some a >>= f = f a

-- Inversion of a run that does not fault.
pub >>=-eq-some {ℓ κ} :
    {A : Type ℓ} {B : Type κ} (m : Option A) (f : A → Option B) {b : B}
    → (m >>= f) ≡ some b
    → (a : A) × (m ≡ some a) × (f a ≡ some b)
>>=-eq-some none f h = cc
>>=-eq-some (some a) f h = (a, refl, h)

-- What holds of the result of a run, if it does not fault.
abbrev pub Ensures {ℓ κ} : {A : Type ℓ} → (A → Type κ) → Option A → Type κ
Ensures P none = Unit
Ensures P (some a) = P a

pub Ensures_elim {ℓ κ} :
    {A : Type ℓ} (P : A → Type κ) (m : Option A) {a : A} → Ensures P m → m ≡ some a → P a
Ensures_elim P none h e = cc
Ensures_elim P (some b) {a} h e = subst P (some-injective b a e) h

pub Ensures-bind {ℓ κ μ ν} :
    {A : Type ℓ} {B : Type κ} (P : A → Type μ) (Q : B → Type ν) (m : Option A) (f : A → Option B)
    → Ensures P m
    → ((a : A) → P a → Ensures Q (f a))
    → Ensures Q (m >>= f)
Ensures-bind P Q none f h k = tt
Ensures-bind P Q (some a) f h k = k a h

pub Ensures-map {ℓ μ ν} :
    {A : Type ℓ} (P : A → Type μ) (Q : A → Type ν) (m : Option A)
    → ((a : A) → P a → Q a)
    → Ensures P m
    → Ensures Q m
Ensures-map P Q none f h = tt
Ensures-map P Q (some a) f h = f a h

-- A run does not fault, and what it returns has the property.
abbrev pub Returns {ℓ} : {A : Type ℓ} → (A → Type 0) → Option A → Type 0
Returns P none = ⊥
Returns P (some a) = P a

pub Returns-bind {ℓ κ} :
    {A : Type ℓ} {B : Type κ} (P : A → Type 0) (Q : B → Type 0) (m : Option A) (f : A → Option B)
    → Returns P m
    → ((a : A) → P a → Returns Q (f a))
    → Returns Q (m >>= f)
Returns-bind P Q none f h k = absurd h
Returns-bind P Q (some a) f h k = k a h

pub Returns-map {ℓ} :
    {A : Type ℓ} (P Q : A → Type 0) (m : Option A)
    → ((a : A) → P a → Q a)
    → Returns P m
    → Returns Q m
Returns-map P Q none f h = h
Returns-map P Q (some a) f h = f a h

pub Returns-unbind {ℓ κ} :
    {A : Type ℓ} {B : Type κ} (Q : B → Type 0) (m : Option A) (f : A → Option B)
    → Returns Q (m >>= f)
    → Returns (λ a. Returns Q (f a)) m
Returns-unbind Q none f h = h
Returns-unbind Q (some a) f h = h

pub Ensures-none {ℓ κ μ} :
    {A : Type ℓ} {B : Type κ} (P : A → Type μ) (m : Option A) (f : A → Option B)
    → Ensures P m
    → ((a : A) → P a → f a ≡ none)
    → (m >>= f) ≡ none
Ensures-none P none f h k = refl
Ensures-none P (some a) f h k = k a h

-- One step of a run that is known to return a value.
pub Returns_step {ℓ κ} :
    {A : Type ℓ} {B : Type κ} (P : B → Type 0) (m : Option A) (f : A → Option B) {a : A}
    → m ≡ some a
    → Returns P (f a)
    → Returns P (m >>= f)
Returns_step P none f e h = cc
Returns_step P (some b) f {a} e h = subst (λ x. Returns P (f x)) (some-injective a b (sym e)) h

pub Returns_if_true {ℓ} :
    {A : Type ℓ} (P : A → Type 0) (b : Bool) (m n : Option A)
    → b ≡ true
    → Returns P m
    → Returns P (if b then m else n)
Returns_if_true P true m n e h = h
Returns_if_true P false m n e h = cc
