-- ===== src/Sig/Calls.antt =====
-- The calls that the scan of the function's body in src/sig.c finds in a printed body.
use libytdl.Base.{
  ℕ, suc, ◌+◌, ◌-◌, ◌*◌, ◌^◌, ◌≤◌, ◌<◌, ◌≡◌, refl, ap, ◌∙◌, Bool, true, not, ◌&&◌, [], ◌∷◌, ◌++◌,
  ◌==◌, length, Bytes, arith, All, IsDigit, value,
}
use libytdl.Sig.{
  Keys, str2int_from, FuncScan, Scanned, scanned, overflow, faults, func_step, func_next, scan_from,
}

-- Digits are read back.
value_ge : (ret : ℕ) (s : Bytes) → ret ≤ value ret s
value_ge ret [] = omega arith
value_ge ret (c ∷ s) = omega (arith, value_ge (ret * 10 + (c - b'0')) s)

pub str2int_from-value :
    (ret : ℕ) (s : Bytes) → All IsDigit s → value ret s < 2 ^ 32 → str2int_from ret s ≡ value ret s
unfolding str2int_from
str2int_from-value ret [] d h = refl
str2int_from-value ret (c ∷ s) ((l, u), d) h =
    ap (λ r. str2int_from r s) (omega (arith, value_ge (ret * 10 + (c - b'0')) s))
    ∙ str2int_from-value (ret * 10 + (c - b'0')) s d h

-- A byte that the scan passes over.
abbrev pub is_plain : ℕ → Bool
is_plain c =
    not (c == 0)
    && not (c == b'.')
    && not (c == b'(')
    && not (c == b'[')
    && not (c == b'"')
    && not (c == b'\'')
    && not (c == b',')
    && not (c == b')')

abbrev pub IsPlain : Bytes → Type 0
IsPlain = All (λ c. is_plain c ≡ true)

module _ (func obj : Bytes) (keys : Keys) where
  -- What follows a step.
  abbrev continue : ℕ → Bytes → Scanned → Scanned
  continue idx rest m = elim m [
    | scanned t ↦ scan_from func obj keys (suc idx) rest t
    | overflow acts ↦ overflow acts
    | faults ↦ faults
  ]

  pub scan_step :
      (idx c : ℕ) (rest : Bytes) (s t : FuncScan)
      → func_next func obj keys idx c s.skip s ≡ scanned t
      → scan_from func obj keys idx (c ∷ rest) s ≡ scan_from func obj keys (suc idx) rest t
  unfolding scan_from
  scan_step idx c rest s t e = ap (continue idx rest) e

  pub next_lem :
      (idx c : ℕ) (s : FuncScan) (m : Scanned)
      → s.skip ≡ 0
      → func_step func obj keys idx c s ≡ m
      → func_next func obj keys idx c s.skip s ≡ m
  unfolding func_next
  next_lem idx c s m e h = ap (λ k. func_next func obj keys idx c k s) e ∙ h

  step_plain :
      (idx c : ℕ) (s : FuncScan) → is_plain c ≡ true → func_step func obj keys idx c s ≡ scanned s
  unfolding func_step
  step_plain idx c s h = ground arith

  pub at_index :
      (i j : ℕ) (rest : Bytes) (s : FuncScan)
      → i ≡ j
      → scan_from func obj keys i rest s ≡ scan_from func obj keys j rest s
  at_index i j rest s e = ap (λ k. scan_from func obj keys k rest s) e

  -- Plain text changes nothing.
  pub scan_plain :
      (p rest : Bytes) (idx : ℕ) (s : FuncScan)
      → IsPlain p
      → s.skip ≡ 0
      → scan_from func obj keys idx (p ++ rest) s ≡ scan_from func obj keys (idx + length p) rest s
  scan_plain [] rest idx s h e = at_index idx (idx + 0) rest s (omega arith)
  scan_plain (c ∷ p) rest idx s (q, h) e =
      scan_step idx c (p ++ rest) s s (next_lem idx c s (scanned s) e (step_plain idx c s q))
      ∙ scan_plain p rest (suc idx) s h e
      ∙ at_index (suc idx + length p) (idx + suc (length p)) rest s (omega arith)

  -- The first byte of a name or of a number is passed over, and the others are plain.
  pub scan_skipped :
      (p rest : Bytes) (idx : ℕ) (s : FuncScan)
      → IsPlain p
      → 0 < length p
      → s.skip ≡ 1
      → scan_from func obj keys idx (p ++ rest) s
        ≡ scan_from func obj keys (idx + length p) rest (record s { skip = 0 })
  unfolding func_next
  scan_skipped [] rest idx s h l e = absurd (omega arith)
  scan_skipped (c ∷ p) rest idx s (q, h) l e =
      scan_step idx c (p ++ rest) s (record s { skip = 0 })
        (ap (λ k. func_next func obj keys idx c k s) e)
      ∙ scan_plain p rest (suc idx) (record s { skip = 0 }) h refl
      ∙ at_index (suc idx + length p) (idx + suc (length p)) rest _ (omega arith)
