-- ===== src/Info/Url/Split.antt =====
-- The NULs that src/info.c writes behind the values of a cipher.
use libytdl.Base.{
  ℕ, zero, suc, ◌+◌, ◌≡◌, refl, sym, ap, subst, ◌∙◌, ◌⊎◌, inl, inr, [], ◌∷◌, ◌++◌, some,
  some-injective, length, get_elem?, get_elem?_middle, set, set_middle, drop, Bytes, arith,
}
use libytdl.Info.Url.Fields.{IsValue}

-- What stands behind a value.
abbrev pub IsStop : ℕ → Type 0
IsStop c = (c ≡ b'&') ⊎ (c ≡ 0)

-- A value from a place on, and a byte behind it.
pub record Stands (P : ℕ → Type 0) (k : ℕ) (b v : Bytes) : Type 0 where
  pub stop : ℕ
  pub junk : Bytes
  pub is_at : drop k b ≡ v ++ stop ∷ junk
  pub stops : P stop

-- A value that ends with NUL.
abbrev pub IsNul : ℕ → Type 0
IsNul c = c ≡ 0

-- A place of a buffer at which there is such a byte.
abbrev pub IsStopAt : Bytes → ℕ → Type 0
IsStopAt b i = (c : ℕ) × (get_elem? b i ≡ some c) × IsStop c

get_elem?-drop : (k n : ℕ) (b : Bytes) → get_elem? b (k + n) ≡ get_elem? (drop k b) n
get_elem?-drop zero n b = ap (get_elem? b) (omega arith)
get_elem?-drop (suc k) n [] = refl
get_elem?-drop (suc k) n (x ∷ b) = ap (get_elem? (x ∷ b)) (plus_suc k n) ∙ get_elem?-drop k n b
  where
    plus_suc : (k n : ℕ) → suc k + n ≡ suc (k + n)
    plus_suc k n = omega arith

drop-set : (k n x : ℕ) (b : Bytes) → drop k (set b (k + n) x) ≡ set (drop k b) n x
drop-set zero n x b = ap (λ i. set b i x) (omega arith)
drop-set (suc k) n x [] = refl
drop-set (suc k) n x (y ∷ b) =
    ap (λ i. drop (suc k) (set (y ∷ b) i x)) (plus_suc k n) ∙ drop-set k n x b
  where
    plus_suc : (k n : ℕ) → suc k + n ≡ suc (k + n)
    plus_suc k n = omega arith

pub stop_at : (k : ℕ) (b v : Bytes) → Stands IsStop k b v → IsStopAt b (k + length v)
stop_at k b v s = (
  s.stop,
  get_elem?-drop k (length v) b
      ∙ ap (λ t. get_elem? t (length v)) s.is_at
      ∙ get_elem?_middle v s.stop s.junk (length v) refl,
  s.stops,
)

-- The value's own NUL.
pub set_own :
    (k : ℕ) (b v : Bytes) → Stands IsStop k b v → Stands IsNul k (set b (k + length v) 0) v
set_own k b v s = record {
  stop = 0;
  junk = s.junk;
  is_at =
      drop-set k (length v) 0 b
      ∙ ap (λ t. set t (length v) 0) s.is_at
      ∙ set_middle v s.stop s.junk 0 (length v) refl;
  stops = refl;
}

-- A NUL that replaces such a byte leaves every value as it is.
set_behind :
    (P : ℕ → Type 0) (v : Bytes) (c i : ℕ) (junk : Bytes)
    → P 0
    → P c
    → IsValue v
    → IsStopAt (v ++ c ∷ junk) i
    → Stands P 0 (set (v ++ c ∷ junk) i 0) v
set_behind P [] c zero junk z p h s = record { stop = 0; junk = junk; is_at = refl; stops = z }
set_behind P [] c (suc i) junk z p h s = record {
  stop = c;
  junk = set junk i 0;
  is_at = refl;
  stops = p;
}
set_behind P (y ∷ v) c zero junk z p ((e, a, n), h) (x, g, inl q) =
    absurd (a (some-injective y x g ∙ q))
set_behind P (y ∷ v) c zero junk z p ((e, a, n), h) (x, g, inr q) =
    absurd (n (some-injective y x g ∙ q))
set_behind P (y ∷ v) c (suc i) junk z p (_, h) s =
    let r = set_behind P v c i junk z p h s in
    record { stop = r.stop; junk = r.junk; is_at = ap (λ t. y ∷ t) r.is_at; stops = r.stops }

pub set_keeps :
    (P : ℕ → Type 0) (k : ℕ) (b v : Bytes) (i : ℕ)
    → P 0
    → IsValue v
    → Stands P k b v
    → IsStopAt b i
    → Stands P k (set b i 0) v
set_keeps P zero b v i z h s t =
    subst (λ c. Stands P 0 (set c i 0) v) (sym s.is_at)
      (set_behind P v s.stop i s.junk z s.stops h (subst (λ c. IsStopAt c i) s.is_at t))
set_keeps P (suc k) [] v i z h s t = s
set_keeps P (suc k) (x ∷ b) v zero z h s t = record {
  stop = s.stop;
  junk = s.junk;
  is_at = s.is_at;
  stops = s.stops;
}
set_keeps P (suc k) (x ∷ b) v (suc i) z h s t =
    let r =
      set_keeps P k b v i z h
        (record { stop = s.stop; junk = s.junk; is_at = s.is_at; stops = s.stops }) t in
    record { stop = r.stop; junk = r.junk; is_at = r.is_at; stops = r.stops }

-- The other places stay such bytes.
pub set_keeps_stop : (b : Bytes) (i j : ℕ) → IsStopAt b j → IsStopAt (set b i 0) j
set_keeps_stop [] i j s = s
set_keeps_stop (x ∷ b) zero zero s = (0, refl, inr refl)
set_keeps_stop (x ∷ b) zero (suc j) s = s
set_keeps_stop (x ∷ b) (suc i) zero s = s
set_keeps_stop (x ∷ b) (suc i) (suc j) s = set_keeps_stop b i j s
