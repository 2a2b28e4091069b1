-- ===== src/Sig/Printed.antt =====
-- A function's body as the player's script writes it, and what the scan of src/sig.c stores of it.
use libytdl.Base.{
  ℕ, suc, ◌+◌, ◌^◌, ◌≤◌, ◌<◌, ◌≡◌, refl, sym, ap, ◌∙◌, ◌⊎◌, inl, inr, true, false, List, [], ◌∷◌,
  ◌++◌, append_assoc, append-nil, map, length, length-append, drop, drop_past, Bytes, arith, All,
  IsDigit, decimal, decimal-IsDigit, decimal_nonempty,
}
use libytdl.Sig.{
  Action, Keys, FuncScan, scanned, func_step, func_next, scan_from, scan_start, scan_function,
  max_sig, extracted, stored,
}
use libytdl.Sig.Calls.{IsPlain, scan_plain, scan_skipped, scan_step, next_lem}
use libytdl.Sig.Names.{AreNamed, Calls, kept_arg, close_call_lem}

-- How a call names its property.
pub data Form : Type 0 where
  dotted : Form
  quoted : ℕ → Form

abbrev pub IsForm : Form → Type 0
IsForm dotted = Unit
IsForm (quoted q) = (q ≡ b'"') ⊎ (q ≡ b'\'')

-- A call: what stands before its property's name and before the comma, and the number.
pub record Call : Type 0 where
  pub before : Bytes
  pub form : Form
  pub action : Action
  pub subject : Bytes
  pub number : ℕ

pub record IsCall (c : Call) : Type 0 where
  pub before_plain : IsPlain c.before
  pub is_form : IsForm c.form
  pub subject_plain : IsPlain c.subject
  pub fits : c.number < 2 ^ 31

abbrev pub print_head : Form → Bytes → Bytes → Bytes
print_head dotted name rest = b'.' ∷ (name ++ (b'(' ∷ rest))
print_head (quoted q) name rest = b'[' ∷ (q ∷ (name ++ (q ∷ (b']' ∷ (b'(' ∷ rest)))))

module _ (names : Action → Bytes) where
  abbrev pub print_call : Call → Bytes → Bytes
  print_call c rest =
      c.before
      ++ print_head c.form (names c.action)
          (c.subject ++ (b',' ∷ (decimal c.number ++ (b')' ∷ rest))))

  abbrev pub print_calls : List Call → Bytes → Bytes
  print_calls [] after = after
  print_calls (c ∷ cs) after = print_call c (print_calls cs after)

-- The action that is stored for a call, with its argument.
abbrev pub kept : Call → Action × ℕ
kept c = (c.action, kept_arg c.action c.number)

digit-IsPlain : (s : Bytes) → All IsDigit s → IsPlain s
digit-IsPlain [] h = tt
digit-IsPlain (c ∷ s) ((l, u), h) = (ground arith, digit-IsPlain s h)

one_more : (i : ℕ) → suc i ≡ i + 1
one_more i = omega arith

module _ (func obj : Bytes) (keys : Keys) where
  -- The scan gets from one place to another.
  record Reaches (i : ℕ) (text : Bytes) (s : FuncScan) (j : ℕ) (rest : Bytes) (t : FuncScan)
      : Type 0 where
    scan : scan_from func obj keys i text s ≡ scan_from func obj keys j rest t
    left : drop j func ≡ rest

  reach_plain :
      (p rest : Bytes) (i : ℕ) (s : FuncScan)
      → IsPlain p
      → s.skip ≡ 0
      → drop i func ≡ p ++ rest
      → Reaches i (p ++ rest) s (i + length p) rest s
  reach_plain p rest i s h e d = record {
    scan = scan_plain func obj keys p rest i s h e;
    left = drop_past i func p rest d;
  }

  reach_skipped :
      (p rest : Bytes) (i : ℕ) (s : FuncScan)
      → IsPlain p
      → 0 < length p
      → s.skip ≡ 1
      → drop i func ≡ p ++ rest
      → Reaches i (p ++ rest) s (i + length p) rest (record s { skip = 0 })
  reach_skipped p rest i s h l e d = record {
    scan = scan_skipped func obj keys p rest i s h l e;
    left = drop_past i func p rest d;
  }

  drop_next : (i c : ℕ) (rest : Bytes) → drop i func ≡ c ∷ rest → drop (suc i) func ≡ rest
  drop_next i c rest d = ap (λ j. drop j func) (one_more i) ∙ drop_past i func (c ∷ []) rest d

  reach_byte :
      (c : ℕ) (rest : Bytes) (i : ℕ) (s t : FuncScan)
      → s.skip ≡ 0
      → func_step func obj keys i c s ≡ scanned t
      → drop i func ≡ c ∷ rest
      → Reaches i (c ∷ rest) s (suc i) rest t
  reach_byte c rest i s t e h d = record {
    scan = scan_step func obj keys i c rest s t (next_lem func obj keys i c s (scanned t) e h);
    left = drop_next i c rest d;
  }

  -- A byte that is passed over, before another.
  reach_over :
      (c : ℕ) (rest : Bytes) (i k : ℕ) (s : FuncScan)
      → s.skip ≡ suc k
      → drop i func ≡ c ∷ rest
      → Reaches i (c ∷ rest) s (suc i) rest (record s { skip = k })
  unfolding func_next
  reach_over c rest i k s e d = record {
    scan =
        scan_step func obj keys i c rest s (record s { skip = k })
          (ap (λ n. func_next func obj keys i c n s) e);
    left = drop_next i c rest d;
  }

  reach_on :
      {i j k : ℕ} {t u w : Bytes} {s v x : FuncScan}
      → Reaches i t s j u v
      → Reaches j u v k w x
      → Reaches i t s k w x
  reach_on a b = record { scan = a.scan ∙ b.scan; left = b.left }

  -- Where the name of a call starts, and where the bracket after it has been read.
  abbrev name_at : Form → ℕ → ℕ
  name_at dotted i = suc i
  name_at (quoted q) i = suc (suc i)

  abbrev head_end : Form → ℕ → ℕ
  head_end dotted e = suc e
  head_end (quoted q) e = suc (suc (suc e))

  -- The state after the name from `v` to `e`.
  abbrev named_state : FuncScan → ℕ → ℕ → FuncScan
  named_state s v e = record s { skip = 0; v_start = v; v_end = e; prop_type = true }

  step_quote :
      (i q : ℕ) (s : FuncScan)
      → IsForm (quoted q)
      → func_step func obj keys i q s ≡ scanned (record s { v_end = i })
  unfolding func_step
  step_quote i q s (inl e) = rw e refl
  step_quote i q s (inr e) = rw e refl

  reach_head :
      (form : Form) (name rest : Bytes) (i : ℕ) (s : FuncScan)
      → IsForm form
      → IsPlain name
      → 0 < length name
      → s.skip ≡ 0
      → drop i func ≡ print_head form name rest
      → let v = name_at form i in
        let e = v + length name in
        Reaches i (print_head form name rest) s (head_end form e) rest (named_state s v e)
        × ((tail : Bytes) × (drop v func ≡ name ++ tail))
  unfolding func_step
  reach_head dotted name rest i s f h l e d =
      let a =
        reach_byte b'.' (name ++ (b'(' ∷ rest)) i s
          (record s { v_start = suc i; skip = 1; prop_type = true }) e refl d in
      let b =
        reach_skipped name (b'(' ∷ rest) (suc i)
          (record s { v_start = suc i; skip = 1; prop_type = true }) h l refl a.left in
      let c =
        reach_byte b'(' rest (suc i + length name)
          (record s { v_start = suc i; skip = 0; prop_type = true })
          (named_state s (suc i) (suc i + length name)) refl refl b.left in
      (reach_on a (reach_on b c), (b'(' ∷ rest, a.left))
  reach_head (quoted q) name rest i s f h l e d =
      let v = suc (suc i) in
      let opened = record s { v_start = v; skip = 2; prop_type = false } in
      let a = reach_byte b'[' (q ∷ (name ++ (q ∷ (b']' ∷ (b'(' ∷ rest))))) i s opened e refl d in
      let b = reach_over q (name ++ (q ∷ (b']' ∷ (b'(' ∷ rest)))) (suc i) 1 opened refl a.left in
      let c =
        reach_skipped name (q ∷ (b']' ∷ (b'(' ∷ rest))) v (record opened { skip = 1 }) h l refl
          b.left in
      let started = record opened { skip = 0 } in
      let ended = record started { v_end = v + length name } in
      let g =
        reach_byte q (b']' ∷ (b'(' ∷ rest)) (v + length name) started ended refl
          (step_quote (v + length name) q started f) c.left in
      let k = reach_byte b']' (b'(' ∷ rest) (suc (v + length name)) ended ended refl refl g.left in
      let m =
        reach_byte b'(' rest (suc (suc (v + length name))) ended (named_state s v (v + length name))
          refl refl k.left in
      (
        reach_on a (reach_on b (reach_on c (reach_on g (reach_on k m)))),
        (q ∷ (b']' ∷ (b'(' ∷ rest)), b.left),
      )

  module _ (names : Action → Bytes) (named : AreNamed obj keys names)
      (plain : (a : Action) → IsPlain (names a)) where
    -- After a call's name, its arguments and the bracket that closes it.
    reach_arguments :
        (c : Call) (rest : Bytes) (i : ℕ) (s : FuncScan)
        → IsCall c
        → s.skip ≡ 0
        → Calls func obj keys names named s c.action
        → length s.actions < max_sig
        → drop i func ≡ c.subject ++ (b',' ∷ (decimal c.number ++ (b')' ∷ rest)))
        → let n = suc (i + length c.subject) in
          Reaches i
            (c.subject ++ (b',' ∷ (decimal c.number ++ (b')' ∷ rest))))
            s
            (suc (n + length (decimal c.number)))
            rest
            (record s { skip = 0; n_start = n; actions = s.actions ++ kept c ∷ [] })
    unfolding func_step
    reach_arguments c rest i s h e k room d =
        let n = suc (i + length c.subject) in
        let comma = record s { n_start = n; skip = 1 } in
        let digits = record s { n_start = n; skip = 0 } in
        let a =
          reach_plain c.subject (b',' ∷ (decimal c.number ++ (b')' ∷ rest))) i s h.subject_plain e
            d in
        let b =
          reach_byte b',' (decimal c.number ++ (b')' ∷ rest)) (i + length c.subject) s comma e refl
            a.left in
        let g =
          reach_skipped (decimal c.number) (b')' ∷ rest) n comma
            (digit-IsPlain (decimal c.number) (decimal-IsDigit c.number))
            (decimal_nonempty c.number) refl b.left in
        let m =
          reach_byte b')' rest (n + length (decimal c.number)) digits
            (record digits { actions = s.actions ++ kept c ∷ [] }) refl
            (close_call_lem func obj keys names named digits (n + length (decimal c.number))
              c.number c.action (b')' ∷ rest) (record { tail = k.tail; at = k.at; stop = k.stop })
              b.left refl (omega (arith, h.fits)) room)
            g.left in
        reach_on a (reach_on b (reach_on g m))

    reach_call :
        (c : Call) (rest : Bytes) (i : ℕ) (s : FuncScan)
        → IsCall c
        → s.skip ≡ 0
        → length s.actions < max_sig
        → drop i func ≡ print_call names c rest
        → (j : ℕ) × (t : FuncScan) × Reaches i (print_call names c rest) s j rest t
          × (t.skip ≡ 0)
          × (t.actions ≡ s.actions ++ kept c ∷ [])
    reach_call c rest i s h e room d =
        let name = names c.action in
        let args = c.subject ++ (b',' ∷ (decimal c.number ++ (b')' ∷ rest))) in
        let k = i + length c.before in
        let v = name_at c.form k in
        let a = reach_plain c.before (print_head c.form name args) i s h.before_plain e d in
        let b =
          reach_head c.form name args k s h.is_form (plain c.action)
            (named.ranges c.action).nonempty e a.left in
        let m =
          reach_arguments c rest (head_end c.form (v + length name))
            (named_state s v (v + length name)) h refl
            (record { tail = b.1.0; at = b.1.1; stop = refl }) room b.0.left in
        (_, _, reach_on a (reach_on b.0 m), refl, refl)

    scan_calls :
        (cs : List Call) (after : Bytes) (i : ℕ) (s : FuncScan)
        → All IsCall cs
        → IsPlain after
        → s.skip ≡ 0
        → length s.actions + length cs ≤ max_sig
        → drop i func ≡ print_calls names cs after
        → stored (scan_from func obj keys i (print_calls names cs after) s)
          ≡ extracted (s.actions ++ map kept cs)
    unfolding scan_from
    scan_calls [] after i s h p e room d =
        ap (λ t. stored (scan_from func obj keys i t s)) (sym (append-nil after))
        ∙ ap stored (scan_plain func obj keys after [] i s p e)
        ∙ ap extracted (sym (append-nil s.actions))
    scan_calls (c ∷ cs) after i s (h, hs) p e room d =
        let (j, t, r, skip, actions) =
          reach_call c (print_calls names cs after) i s h e (omega arith) d in
        ap stored r.scan
        ∙ scan_calls cs after j t hs p skip
            (omega (arith, ap length actions, length-append s.actions (kept c ∷ []))) r.left
        ∙ ap (λ l. extracted (l ++ map kept cs)) actions
        ∙ ap extracted (append_assoc s.actions (kept c ∷ []) (map kept cs))

-- If the keys of the object stand for the names of the operations, which differ and are not empty,
-- the names and the other text of the calls are free of NUL and of the delimiters, the numbers are
-- below 2^31, the names shorter than 2^62 bytes, and a function's body consists of at most 20 calls
-- and such a text, then the scan stores these calls in their order, each with its number, or with 0
-- if it is a reversal. A property may be named after a dot or in quotes in brackets.
pub scan_function-print_calls :
    (obj : Bytes) (keys : Keys) (names : Action → Bytes) (cs : List Call) (after : Bytes)
    → AreNamed obj keys names
    → ((a : Action) → IsPlain (names a))
    → All IsCall cs
    → IsPlain after
    → length cs ≤ max_sig
    → stored (scan_function (print_calls names cs after) obj keys) ≡ extracted (map kept cs)
unfolding scan_function
scan_function-print_calls obj keys names cs after named plain h p room =
    scan_calls (print_calls names cs after) obj keys names named plain cs after 0
      (scan_start (print_calls names cs after) obj) h p refl (omega (arith, room)) refl
