-- ===== src/Info/Decipher/Shift.antt =====
-- The loop of src/info.c that removes the first characters of a signature.
use libytdl.Base.{
  ℕ, zero, suc, ◌+◌, ◌≤◌, ◌<◌, ◌≡◌, refl, sym, ap, ◌∙◌, [], ◌∷◌, ◌++◌, append_assoc, some, lt→ltb,
  ◌>>=◌, length, length-append, get_elem?, get_elem?_middle, set, set_middle, take, Bytes, arith,
}
use libytdl.Info.Decipher.{store, copy_down}

pub store_lem : (buf : Bytes) (i c : ℕ) → i < length buf → store buf i c ≡ some (set buf i c)
unfolding store
store_lem buf i c h = rw (lt→ltb i (length buf) h) refl

-- A round moves the gap before what is left by one place.
shift :
    (pre gap rest : Bytes) (r x : ℕ)
    → length pre ≡ x
    → (gap' : Bytes) × (length gap' ≡ length gap)
      × (set (pre ++ (gap ++ (r ∷ rest))) x r ≡ (pre ++ r ∷ []) ++ (gap' ++ rest))
shift pre [] rest r x e =
    ([], refl, set_middle pre r rest r x e ∙ sym (append_assoc pre (r ∷ []) rest))
shift pre (g ∷ gap) rest r x e = (
  gap ++ r ∷ [],
  omega (arith, length-append gap (r ∷ [])),
  set_middle pre g (gap ++ (r ∷ rest)) r x e
      ∙ sym (
          append_assoc pre (r ∷ []) ((gap ++ r ∷ []) ++ rest)
          ∙ ap (λ w. pre ++ (r ∷ w)) (append_assoc gap (r ∷ []) rest)),
)

pub copy_down_lem :
    (k n x : ℕ) (pre gap rest : Bytes)
    → length gap ≡ n
    → length pre ≡ x
    → k ≤ length rest
    → (junk : Bytes) × (copy_down n x k (pre ++ (gap ++ rest))
        ≡ some (pre ++ (take k rest ++ junk)))
unfolding copy_down
copy_down_lem zero n x pre gap rest g e h = (gap ++ rest, refl)
copy_down_lem (suc k) n x pre gap [] g e h = absurd (omega arith)
copy_down_lem (suc k) n x pre gap (r ∷ rest) g e h =
    let (gap', l, s) = shift pre gap rest r x e in
    let (junk, q) =
      copy_down_lem k n (suc x) (pre ++ r ∷ []) gap' rest (l ∙ g)
        (omega (arith, length-append pre (r ∷ []))) (omega arith) in
    (
      junk,
      ap (λ m. m >>= λ c. store buf x c >>= λ b. copy_down n (suc x) k b) read
          ∙ ap (λ m. m >>= λ b. copy_down n (suc x) k b) (store_lem buf x r (omega (arith, len)))
          ∙ ap (λ b. copy_down n (suc x) k b) s
          ∙ q
          ∙ ap some (append_assoc pre (r ∷ []) (take k rest ++ junk)),
    )
  where
    buf : Bytes
    buf = pre ++ (gap ++ (r ∷ rest))

    len : length buf ≡ length pre + (length gap + suc (length rest))
    len =
        length-append pre (gap ++ (r ∷ rest))
        ∙ ap (λ w. length pre + w) (length-append gap (r ∷ rest))

    read : get_elem? buf (n + x) ≡ some r
    read =
        ap (λ b. get_elem? b (n + x)) (sym (append_assoc pre gap (r ∷ rest)))
        ∙ get_elem?_middle (pre ++ gap) r rest (n + x) (omega (arith, length-append pre gap))
