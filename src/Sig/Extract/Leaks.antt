-- ===== src/Sig/Extract/Leaks.antt =====
-- What `ytdl_sig_actions_extract` of src/sig.c does with its memory.
use libytdl.Base.{
  take, length, length-take, arith, ◌+◌, ◌^◌, ◌<◌, ◌≤◌, ◌≡◌, ◌≢◌, refl, sym, subst, Bool, true,
  false, Option, none, some, length, Bytes, Ret, ret_0, ret_minus_1, Slot, null, held, released,
  Returns, inl, inr, Bool-cases, Option-cases,
}
use libytdl.Sig.{Extracted, extracted, gives_up, reads_past, extract_actions, scan_object, max_sig}
use libytdl.Sig.Reads.{Fits, extract_actions-Fits}
use libytdl.Sig.Script.{extract_script}
use libytdl.Sig.Extract.{
  Regex, Compiler, Allocs, Memory, no_memory, Extraction, Result, regex_exec, free_capture,
  free_obj, free_obj_body, free_func_body, free_js_func, fails, fail, fail_malloc2, fail_malloc3,
  fail1, free_bodies, run_script, with_bytecode, compile, store_actions, copy_func, func_group,
  find_func, copy_obj, obj_groups, find_obj, sig_actions_extract,
}

-- The end of a run: the three copies are not held, a success holds nothing, and the actions fit their
-- arrays.
pub record IsClean (r : Result) : Type 0 where
  pub no_obj : r.2.obj ≢ held
  pub no_obj_body : r.2.obj_body ≢ held
  pub no_func_body : r.2.func_body ≢ held
  pub success : r.0 ≡ ret_0 → (r.2.capture ≢ held) × (r.2.js_func ≢ held)
  pub fit : length r.1.actions ≤ max_sig

-- The memory after the scans, without the text for the engine and with it.
abbrev scanned : Memory
scanned = record {
  capture = released;
  obj = released;
  obj_body = released;
  func_body = released;
  js_func = null;
}

abbrev printed : Memory
printed = record scanned { js_func = released }

-- The memory with the copies of the object.
abbrev with_copies : Slot → Memory
with_copies capture = record no_memory { capture = capture; obj = held; obj_body = held }

printed-IsClean :
    (ret : Ret) (f : Extraction) → length f.actions ≤ max_sig → IsClean (ret, f, printed)
printed-IsClean ret f l = record {
  no_obj = λ h. cc;
  no_obj_body = λ h. cc;
  no_func_body = λ h. cc;
  success = λ h. ((λ k. cc), (λ k. cc));
  fit = l;
}

-- A failure with the three copies not held.
failed-IsClean :
    (f : Extraction) (m : Memory)
    → length f.actions ≤ max_sig
    → m.obj ≢ held
    → m.obj_body ≢ held
    → m.func_body ≢ held
    → IsClean (ret_minus_1, f, m)
failed-IsClean f m l a b c = record {
  no_obj = a;
  no_obj_body = b;
  no_func_body = c;
  success = λ h. absurd (cc (h));
  fit = l;
}

-- Two groups that are not too long, with colons followed by enough of the object's text.
abbrev pub AreReadable : Bytes → Bytes → Type 0
AreReadable obj func = (length func + length obj < 2 ^ 62) × (scan_object obj ≢ none)

module _ (compiler : Compiler) (allocs : Allocs) (js_ok : allocs.js_func_ok ≡ true) where
  run_script-IsClean :
      (text : Bytes) (f : Extraction)
      → length f.actions ≤ max_sig
      → Returns IsClean (run_script compiler allocs text f printed)
  unfolding run_script
  run_script-IsClean text f l = elim (Bool-cases (compiler.is_refused text)) [
    | inl a ↦ rw a (printed-IsClean ret_minus_1 f l)
    | inr a ↦ rw a (elim (Bool-cases (compiler.throws text)) [
      | inl b ↦ rw b (printed-IsClean ret_minus_1 (record f { func = some text }) l)
      | inr b ↦ rw b (elim (Bool-cases (compiler.is_function text)) [
        | inl c ↦ rw c (printed-IsClean ret_0 (record f { func = some text }) l)
        | inr c ↦ rw c (printed-IsClean ret_minus_1 (record f { func = some text }) l)
      ])
    ])
  ]

  with_bytecode-IsClean :
      (code : Option Bytes) (text : Bytes) (f : Extraction)
      → length f.actions ≤ max_sig
      → Returns IsClean
          (with_bytecode compiler allocs code text f (record scanned { js_func = held }))
  unfolding free_js_func
  with_bytecode-IsClean none text f l =
      failed-IsClean f (record scanned { js_func = held }) l (λ h. cc) (λ h. cc) (λ h. cc)
  with_bytecode-IsClean (some code) text f l =
      run_script-IsClean text (record f { bytecode = some code }) l

  compile-IsClean :
      (text : Option Bytes) (f : Extraction)
      → length f.actions ≤ max_sig
      → Returns IsClean (compile compiler allocs text f scanned)
  unfolding compile
  compile-IsClean none f l = failed-IsClean f scanned l (λ h. cc) (λ h. cc) (λ h. cc)
  compile-IsClean (some text) f l =
      simp js_ok (with_bytecode-IsClean (compiler.write_object text) text f l)

  store-IsClean :
      (buf : Bytes) (e : Extracted) (f : Extraction)
      → Fits e
      → length f.actions ≤ max_sig
      → Returns IsClean (
          store_actions compiler allocs buf e f
            (record (with_copies released) { func_body = held }))
  unfolding store_actions free_bodies free_func_body free_obj free_obj_body
  store-IsClean buf (extracted actions) f h l =
      compile-IsClean (extract_script buf) (record f { actions = actions }) h
  store-IsClean buf (gives_up acts) f h l =
      failed-IsClean (record f { actions = take (length f.actions) acts }) scanned
        (omega (arith, l, length-take (length f.actions) acts)) (λ h. cc) (λ h. cc) (λ h. cc)
  store-IsClean buf reads_past f h l = absurd h

  func_group-IsClean :
      (is_match : Bool) (g : Option Bytes) (buf obj : Bytes) (f : Extraction)
      → ((func : Bytes) → g ≡ some func → AreReadable obj func)
      → length f.actions ≤ max_sig
      → Returns IsClean (func_group compiler allocs is_match g buf obj f (with_copies held))
  unfolding fail1 free_obj free_obj_body copy_func free_capture fail_malloc3 fail_malloc2 fail
  func_group-IsClean true (some func) buf obj f r l = elim (Bool-cases allocs.func_body_ok) [
    | inl a ↦ simp a (
        store-IsClean buf (extract_actions obj func) f
          (extract_actions-Fits obj func (r func refl).0 (r func refl).1) l)
    | inr a ↦ simp a (failed-IsClean f _ l (λ h. cc) (λ h. cc) (λ h. cc))
  ]
  func_group-IsClean true none buf obj f r l = failed-IsClean f _ l (λ h. cc) (λ h. cc) (λ h. cc)
  func_group-IsClean false g buf obj f r l = failed-IsClean f _ l (λ h. cc) (λ h. cc) (λ h. cc)

  find_func-IsClean :
      (re : Regex) (buf obj : Bytes) (f : Extraction)
      → ((func : Bytes) → re.group_1 ≡ some func → AreReadable obj func)
      → length f.actions ≤ max_sig
      → Returns IsClean (find_func compiler allocs re buf obj f (with_copies released))
  unfolding find_func regex_exec fail1 free_obj free_obj_body
  find_func-IsClean re buf obj f r l = elim (Bool-cases re.malloc_ok) [
    | inl a ↦ simp a (func_group-IsClean re.is_match re.group_1 buf obj f r l)
    | inr a ↦ simp a (
        failed-IsClean f
          (record (with_copies released) { capture = null; obj = released; obj_body = released }) l
          (λ h. cc) (λ h. cc) (λ h. cc))
  ]

  obj_groups-IsClean :
      (is_match : Bool) (name obj : Option Bytes) (re : Regex) (buf : Bytes) (f : Extraction)
      → ((obj' func : Bytes) → obj ≡ some obj' → re.group_1 ≡ some func → AreReadable obj' func)
      → length f.actions ≤ max_sig
      → Returns IsClean (
          obj_groups compiler allocs is_match name obj re buf f
            (record no_memory { capture = held }))
  unfolding fail free_capture copy_obj fail_malloc2 free_obj
  obj_groups-IsClean true (some name) (some obj) re buf f r l = elim (Bool-cases allocs.obj_ok) [
    | inl a ↦ simp a (elim (Bool-cases allocs.obj_body_ok) [
      | inl b ↦ simp b (find_func-IsClean re buf obj f (λ func e. r obj func refl e) l)
      | inr b ↦ simp b (failed-IsClean f _ l (λ h. cc) (λ h. cc) (λ h. cc))
    ])
    | inr a ↦ simp a (failed-IsClean f _ l (λ h. cc) (λ h. cc) (λ h. cc))
  ]
  obj_groups-IsClean true (some name) none re buf f r l =
      failed-IsClean f _ l (λ h. cc) (λ h. cc) (λ h. cc)
  obj_groups-IsClean true none obj re buf f r l = failed-IsClean f _ l (λ h. cc) (λ h. cc) (λ h. cc)
  obj_groups-IsClean false name obj re buf f r l =
      failed-IsClean f _ l (λ h. cc) (λ h. cc) (λ h. cc)

  find_obj-IsClean :
      (obj_re func_re : Regex) (buf : Bytes) (f : Extraction)
      → ((obj func : Bytes)
          → obj_re.group_2 ≡ some obj
          → func_re.group_1 ≡ some func
          → AreReadable obj func)
      → length f.actions ≤ max_sig
      → Returns IsClean (find_obj compiler allocs obj_re func_re buf f)
  unfolding find_obj regex_exec fail free_capture
  find_obj-IsClean obj_re func_re buf f r l = elim (Bool-cases obj_re.malloc_ok) [
    | inl a ↦
        simp a (obj_groups-IsClean obj_re.is_match obj_re.group_1 obj_re.group_2 func_re buf f r l)
    | inr a ↦ simp a (failed-IsClean f no_memory l (λ h. cc) (λ h. cc) (λ h. cc))
  ]

-- Where the groups of the two expressions are together shorter than 2^62 bytes and each colon of the
-- object is followed by enough of its text, and the text for the engine is allocated: whatever the
-- expressions match, whatever else is allocated and whatever the engine returns, nothing is released
-- twice and nothing is read past a buffer. The three copies are released at the end, at most 20 actions
-- are stored if the context held no more before, and a success holds no memory of its own.
pub sig_actions_extract-IsClean :
    (compiler : Compiler) (allocs : Allocs) (obj_re func_re : Regex) (buf : Bytes) (f : Extraction)
    → allocs.js_func_ok ≡ true
    → ((obj func : Bytes)
        → obj_re.group_2 ≡ some obj
        → func_re.group_1 ≡ some func
        → AreReadable obj func)
    → length f.actions ≤ max_sig
    → Returns IsClean (sig_actions_extract compiler allocs obj_re func_re buf f)
unfolding sig_actions_extract
sig_actions_extract-IsClean compiler allocs obj_re func_re buf f js r l =
    elim (Option-cases f.bytecode) [
      | inl e ↦
          subst
            (λ c. Returns IsClean (elim c as (λ c. Option Result) [
              | some code ↦ fails f no_memory
              | none ↦ find_obj compiler allocs obj_re func_re buf f
            ]))
            (sym e) (find_obj-IsClean compiler allocs js obj_re func_re buf f r l)
      | inr (code, e) ↦
          subst
            (λ c. Returns IsClean (elim c as (λ c. Option Result) [
              | some code ↦ fails f no_memory
              | none ↦ find_obj compiler allocs obj_re func_re buf f
            ]))
            (sym e) (failed-IsClean f no_memory l (λ h. cc) (λ h. cc) (λ h. cc))
    ]
