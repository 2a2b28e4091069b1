-- ===== src/Buffer/Append.antt =====
-- The buffer of src/buffer.c, as a response is appended to it piece by piece.
use libytdl.Base.{
  ◌+◌, ◌≤◌, ◌≡◌, refl, sym, ap, ◌∙◌, inl, inr, List, [], ◌∷◌, ◌++◌, append_assoc, append-nil, ltb,
  length, length-append, take, take_all, Bytes, concat, arith, Bool-cases,
}
use libytdl.Buffer.{Buf, contents, append, realloc}

-- The pieces of a response, in order.
abbrev pub append_all : List Bytes → Buf → Buf
append_all [] b = b
append_all (at ∷ rest) b = append_all rest (append at b)

-- A buffer whose written bytes are its contents and fit its allocation.
abbrev pub IsValid : Buf → Type 0
IsValid b = (length (contents b) ≡ b.len) × (b.len ≤ b.size)

contents-append : (at : Bytes) (b : Buf) → IsValid b → contents (append at b) ≡ contents b ++ at
unfolding append realloc
contents-append at b (e, l) = elim (Bool-cases (ltb b.size (b.len + length at))) [
  | inl f ↦ rw f (
      ap (λ s. take b.len s ++ at) (take_all (b.len + length at) (contents b) (omega (arith, e)))
      ∙ ap (λ s. s ++ at) (take_all b.len (contents b) (omega (arith, e))))
  | inr f ↦ rw f (ap (λ s. s ++ at) (take_all b.len (contents b) (omega (arith, e))))
]

len-append : (at : Bytes) (b : Buf) → (append at b).len ≡ b.len + length at
unfolding append
len-append at b = refl

size-append : (at : Bytes) (b : Buf) → IsValid b → (append at b).len ≤ (append at b).size
unfolding append realloc
size-append at b v = ground arith

-- A valid buffer stays valid while pieces are appended, and then holds what it held before and the
-- pieces, in order.
pub append_all-concat :
    (ps : List Bytes) (b : Buf)
    → IsValid b
    → (contents (append_all ps b) ≡ contents b ++ concat ps) × IsValid (append_all ps b)
unfolding concat
append_all-concat [] b v = (sym (append-nil (contents b)), v)
append_all-concat (at ∷ rest) b v =
    let e = contents-append at b v in
    let w : IsValid (append at b) = (
      ap length e ∙ length-append (contents b) at ∙ omega (arith, v.0, len-append at b),
      size-append at b v,
    ) in
    let (p, q) = append_all-concat rest (append at b) w in
    (p ∙ ap (λ s. s ++ concat rest) e ∙ append_assoc (contents b) at (concat rest), q)
