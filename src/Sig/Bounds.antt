-- ===== src/Sig/Bounds.antt =====
-- The scan of the object's body in src/sig.c, and where the keys lie that it finds.
use libytdl.Base.{
  ℕ, zero, suc, ◌+◌, ◌≤◌, ◌≡◌, refl, inl, inr, Bool, true, false, List, [], ◌∷◌, Option, none, some,
  if◌then◌else◌, ◌==◌, length, Bytes, strncmp_eq, arith, Bool-cases, Ensures, Ensures-bind,
}
use libytdl.Sig.{
  Action, swap, reverse, slice, splice, Range, Keys, set_key, ObjScan, bodies, name_key, new_line,
  after_colon, obj_step, obj_next, scan_object_from, no_keys, scan_object,
}

-- A key lies within a text of `n` bytes.
abbrev pub IsInside : ℕ → Range → Type 0
IsInside n r = (r.start ≤ r.stop) × (r.stop ≤ n)

abbrev pub AreInside : ℕ → Keys → Type 0
AreInside n keys =
    IsInside n keys.swap_key
    × IsInside n keys.splice_key
    × IsInside n keys.reverse_key
    × IsInside n keys.slice_key

set_key-AreInside :
    (n : ℕ) (a : Action) (r : Range) (keys : Keys)
    → IsInside n r
    → AreInside n keys
    → AreInside n (set_key a r keys)
set_key-AreInside n swap r keys h (w, p, v, l) = (h, p, v, l)
set_key-AreInside n splice r keys h (w, p, v, l) = (w, h, v, l)
set_key-AreInside n reverse r keys h (w, p, v, l) = (w, p, h, l)
set_key-AreInside n slice r keys h (w, p, v, l) = (w, p, v, h)

any_result : (m : Option Bool) → Ensures {_, 0} (λ _. Unit) m
any_result none = tt
any_result (some a) = tt

name_key-AreInside :
    (n : ℕ) (kinds : List (Bytes × Action)) (body : Bytes) (r : Range) (keys : Keys)
    → IsInside n r
    → AreInside n keys
    → Ensures (AreInside n) (name_key kinds body r keys)
unfolding name_key
name_key-AreInside n [] body r keys h k = k
name_key-AreInside n ((begin, a) ∷ more) body r keys h k =
    Ensures-bind (λ _. Unit) (AreInside n) (strncmp_eq 24 begin body) _
      (any_result (strncmp_eq 24 begin body))
      (λ b _.
        elim b
          as (λ b.
            Ensures (AreInside n)
              (if b then some (set_key a r keys) else name_key more body r keys)) [
                | true ↦ set_key-AreInside n a r keys h k
                | false ↦ name_key-AreInside n more body r keys h k
              ])

-- Between two rounds of the scan of the object, at `idx`.
abbrev ObjOk : ℕ → ℕ → ObjScan → Type 0
ObjOk n idx s = AreInside n s.keys × (s.kstart ≤ idx + s.skip)

new_line-ObjOk :
    (n i j c : ℕ) (s : ObjScan) → ObjOk n i s → j ≤ i + s.skip → ObjOk n i (new_line j c s)
unfolding new_line
new_line-ObjOk n i j c s (k, h) l = elim (Bool-cases (c == b'\n')) [
  | inl e ↦ rw e (k, omega arith)
  | inr e ↦ rw e (k, h)
]

after_colon-ObjOk :
    (n idx : ℕ) (rest : Bytes) (s : ObjScan)
    → AreInside n s.keys
    → s.kstart ≤ idx
    → Ensures (ObjOk n (suc idx)) (after_colon idx rest s)
unfolding after_colon
after_colon-ObjOk n idx [] s k h = tt
after_colon-ObjOk n idx (d ∷ rest) s k h =
    new_line-ObjOk n (suc idx) (suc idx) d (record s { skip = 1 }) (k, omega arith) (omega arith)

obj_step-ObjOk :
    (n idx c : ℕ) (rest : Bytes) (s : ObjScan)
    → idx ≤ n
    → s.skip ≡ 0
    → ObjOk n idx s
    → Ensures (ObjOk n (suc idx)) (obj_step idx c rest s)
unfolding obj_step
obj_step-ObjOk n idx c rest s l e (k, h) = elim (Bool-cases (c == b':')) [
  | inl f ↦ rw f (
      Ensures-bind (AreInside n) (ObjOk n (suc idx)) (name_key bodies rest _ s.keys) _
        (name_key-AreInside n bodies rest (record { start = s.kstart; stop = idx }) s.keys
          (omega arith, l) k)
        (λ keys q. after_colon-ObjOk n idx rest (record s { keys = keys }) q (omega arith)))
  | inr f ↦ rw f (new_line-ObjOk n (suc idx) idx c s (k, omega arith) (omega arith))
]

obj_next-ObjOk :
    (n idx c : ℕ) (rest : Bytes) (skip : ℕ) (s : ObjScan)
    → idx ≤ n
    → s.skip ≡ skip
    → ObjOk n idx s
    → Ensures (ObjOk n (suc idx)) (obj_next idx c rest skip s)
unfolding obj_next
obj_next-ObjOk n idx c rest zero s l e o = obj_step-ObjOk n idx c rest s l e o
obj_next-ObjOk n idx c rest (suc k) s l e (i, h) = (i, omega arith)

scan_object_from-AreInside :
    (n idx : ℕ) (rest : Bytes) (s : ObjScan)
    → idx + length rest ≤ n
    → ObjOk n idx s
    → Ensures (λ t. AreInside n t.keys) (scan_object_from idx rest s)
unfolding scan_object_from
scan_object_from-AreInside n idx [] s l o = o.0
scan_object_from-AreInside n idx (c ∷ rest) s l o =
    Ensures-bind (ObjOk n (suc idx)) (λ t. AreInside n t.keys) (obj_next idx c rest s.skip s) _
      (obj_next-ObjOk n idx c rest s.skip s (omega arith) refl o)
      (λ t q. scan_object_from-AreInside n (suc idx) rest t (omega arith) q)

-- The keys that the scan finds lie within the object.
pub scan_object-AreInside : (obj : Bytes) → Ensures (AreInside (length obj)) (scan_object obj)
unfolding scan_object
scan_object-AreInside obj =
    Ensures-bind (λ s. AreInside (length obj) s.keys) (AreInside (length obj))
      (scan_object_from 0 obj (record { skip = 0; kstart = 0; keys = no_keys })) _
      (scan_object_from-AreInside (length obj) 0 obj _ (omega arith) (
        (
          (omega arith, omega arith),
          (omega arith, omega arith),
          (omega arith, omega arith),
          (omega arith, omega arith),
        ),
        omega arith,
      ))
      (λ s q. q)
