-- ===== src/Sig/Reads.antt =====
-- The reads and the writes of the scan of the function's body in src/sig.c.
use libytdl.Base.{
  ℕ, zero, suc, ◌+◌, ◌-◌, ◌^◌, ◌≤◌, ◌<◌, ◌≡◌, ◌≢◌, refl, subst, inl, inr, true, false, not, ◌&&◌,
  List, [], ◌∷◌, Option, none, some, if◌then◌else◌, ◌==◌, length, length-append, drop, length-drop,
  Bytes, strncmp_eq_reads, arith, Bool-cases, Returns, Returns-bind, Ensures, All,
}
use libytdl.Sig.{
  Action, Range, Keys, scan_object, FuncScan, Scanned, scanned, overflow, faults, size_sub, is_key,
  find_action, tests, add_action, arg_of, close_call, func_step, func_next, scan_from, scan_start,
  scan_function, max_sig, extract_actions, Extracted, extracted, gives_up, reads_past, stored,
}
use libytdl.Sig.Bounds.{IsInside, AreInside, scan_object-AreInside}

-- A difference that does not wrap, and equals one that does not wrap, is of numbers in order.
size_sub-eq :
    (a b v w : ℕ)
    → b ≤ a
    → a + w < 2 ^ 63
    → v < 2 ^ 63
    → size_sub a b ≡ size_sub v w
    → (size_sub v w ≡ a - b) × (w + (a - b) ≡ v)
size_sub-eq a b v w l h k e = (omega arith, omega arith)

-- What a run that does not fault returns, and what it wrote.
abbrev IsFine : ℕ → Scanned → Type 0
IsFine idx (scanned s) = (s.v_end ≤ idx) × (s.v_start ≤ suc idx) × (length s.actions ≤ max_sig)
IsFine idx (overflow acts) = Unit
IsFine idx faults = ⊥

module _ (func obj : Bytes) (fits : length func + length obj < 2 ^ 62) where
  is_key-Returns :
      (r : Range) (s : FuncScan) (idx : ℕ)
      → IsInside (length obj) r
      → idx < length func
      → IsFine idx (scanned s)
      → Returns (λ _. Unit) (is_key func obj r s)
  unfolding is_key
  is_key-Returns r s idx (i, j) l (e, v, _) =
      elim (Bool-cases
        (not (r.stop == 0) && size_sub r.stop r.start == size_sub s.v_end s.v_start)) [
          | inl h ↦
              let k =
                size_sub-eq r.stop r.start s.v_end s.v_start i (omega arith) (omega arith)
                  (ground (arith, h)) in
              rw h (
                strncmp_eq_reads (size_sub s.v_end s.v_start) (drop s.v_start func)
                  (drop r.start obj) (omega (arith, k, length-drop s.v_start func))
                  (omega (arith, k, length-drop r.start obj)))
          | inr h ↦ rw h tt
        ]

  find_action-Returns :
      (rs : List (Range × Action)) (s : FuncScan) (idx : ℕ)
      → All (λ ra. IsInside (length obj) ra.0) rs
      → idx < length func
      → IsFine idx (scanned s)
      → Returns (λ _. Unit) (find_action func obj rs s)
  unfolding find_action
  find_action-Returns [] s idx h l f = tt
  find_action-Returns ((r, a) ∷ more) s idx (i, h) l f =
      Returns-bind (λ _. Unit) (λ _. Unit) (is_key func obj r s) _ (is_key-Returns r s idx i l f)
        (λ b _.
          elim b
            as (λ b.
              Returns (λ _. Unit) (if b then some (some a) else find_action func obj more s)) [
                | true ↦ tt
                | false ↦ find_action-Returns more s idx h l f
              ])

  add_action-IsFine :
      (s : FuncScan) (idx : ℕ) (m : Option (Option Action))
      → length s.actions ≢ max_sig
      → IsFine idx (scanned s)
      → Returns (λ _. Unit) m
      → IsFine (suc idx) (add_action func obj idx s m)
  unfolding add_action
  add_action-IsFine s idx none n f r = r
  add_action-IsFine s idx (some none) n (e, v, l) r = (omega arith, omega arith, l)
  add_action-IsFine s idx (some (some a)) n (e, v, l) r = (
    omega arith,
    omega arith,
    omega (arith, length-append s.actions ((a, arg_of func obj idx s a) ∷ [])),
  )

  module _ (keys : Keys) (inside : AreInside (length obj) keys) where
    close_call-IsFine :
        (idx : ℕ) (s : FuncScan)
        → idx < length func
        → IsFine idx (scanned s)
        → IsFine (suc idx) (close_call func obj keys idx s)
    unfolding close_call
    close_call-IsFine idx s l f = elim (Bool-cases (length s.actions == max_sig)) [
      | inl e ↦ rw e tt
      | inr e ↦ rw e (
          add_action-IsFine s idx (find_action func obj (tests func obj keys) s)
            (λ h. ground (arith, h)) f
            (find_action-Returns (tests func obj keys) s idx
              (inside.0, (inside.1, (inside.3, (inside.2, tt)))) l f))
    ]

    func_step-IsFine :
        (idx c : ℕ) (s : FuncScan)
        → idx < length func
        → IsFine idx (scanned s)
        → IsFine (suc idx) (func_step func obj keys idx c s)
    unfolding func_step
    func_step-IsFine idx c s l f = ground (arith, close_call-IsFine idx s l f)

    func_next-IsFine :
        (idx c skip : ℕ) (s : FuncScan)
        → idx < length func
        → IsFine idx (scanned s)
        → IsFine (suc idx) (func_next func obj keys idx c skip s)
    unfolding func_next
    func_next-IsFine idx c zero s l f = func_step-IsFine idx c s l f
    func_next-IsFine idx c (suc k) s l (e, v, a) = (omega arith, omega arith, a)

    scan_from-IsFine :
        (idx : ℕ) (rest : Bytes) (s : FuncScan)
        → idx + length rest ≡ length func
        → IsFine idx (scanned s)
        → IsFine (length func) (scan_from func obj keys idx rest s)
    unfolding scan_from
    scan_from-IsFine idx [] s e f = subst (λ n. IsFine n (scanned s)) (omega arith) f
    scan_from-IsFine idx (c ∷ rest) s e f =
        goes (func_next func obj keys idx c s.skip s)
          (func_next-IsFine idx c s.skip s (omega arith) f)
          (λ t g. scan_from-IsFine (suc idx) rest t (omega arith) g)
      where
        goes :
            (m : Scanned)
            → IsFine (suc idx) m
            → ((t : FuncScan)
                → IsFine (suc idx) (scanned t)
                → IsFine (length func) (scan_from func obj keys (suc idx) rest t))
            → IsFine (length func) (elim m [
              | scanned t ↦ scan_from func obj keys (suc idx) rest t
              | overflow acts ↦ overflow acts
              | faults ↦ faults
            ])
        goes (scanned t) g k = k t g
        goes (overflow acts) g k = g
        goes faults g k = g

    scan_function-IsFine : IsFine (length func) (scan_function func obj keys)
    unfolding scan_function
    scan_function-IsFine =
        scan_from-IsFine 0 func (scan_start func obj) (omega arith)
          (omega arith, omega arith, omega arith)

-- What is stored fits the arrays, and nothing is read past the buffers.
abbrev pub Fits : Extracted → Type 0
Fits (extracted actions) = length actions ≤ max_sig
Fits (gives_up acts) = Unit
Fits reads_past = ⊥

-- If the scan of the object stays within its buffer, then so does the scan of the function, over
-- any two texts together shorter than 2^62 bytes: it stores at most 20 actions or gives up.
pub extract_actions-Fits :
    (obj func : Bytes)
    → length func + length obj < 2 ^ 62
    → scan_object obj ≢ none
    → Fits (extract_actions obj func)
unfolding extract_actions
extract_actions-Fits obj func fits n = goes (scan_object obj) (scan_object-AreInside obj) n
  where
    stores : (m : Scanned) → IsFine (length func) m → Fits (stored m)
    stores (scanned s) (e, v, l) = l
    stores (overflow acts) f = tt
    stores faults f = f

    goes :
        (m : Option Keys)
        → Ensures (AreInside (length obj)) m
        → m ≢ none
        → Fits (elim m [ some keys ↦ stored (scan_function func obj keys) | none ↦ reads_past ])
    goes none i n = absurd (n refl)
    goes (some keys) i n =
        stores (scan_function func obj keys) (scan_function-IsFine func obj fits keys i)
