-- ===== src/Sig/Extract.antt =====
-- `ytdl_sig_actions_extract` of src/sig.c: the regular expressions, the scans, and the script. What
-- the regular expressions match, what is allocated and what the script engine returns are arguments.
-- The memory of the function is slots, so that a second release is a fault, `none`; so is a read
-- past a buffer and a write through NULL.
pub mod Leaks
pub mod Success
use libytdl.Base.{
  take, length, ℕ, Bool, true, false, not, ◌&&◌, ◌||◌, List, [], ◌∷◌, Option, none, some,
  if◌then◌else◌, ◌>>=◌, Bytes, Ret, ret_0, ret_minus_1, Slot, null, held, released, free,
}
use libytdl.Sig.{Action, Extracted, extracted, gives_up, reads_past, extract_actions}
use libytdl.Sig.Script.{extract_script}

-- What a regular expression does: whether its captures are allocated, whether it matches, and the
-- texts of its first two groups, or NULL. It has groups.
pub record Regex : Type 0 where
  pub malloc_ok : Bool
  pub is_match : Bool
  pub group_1 : Option Bytes
  pub group_2 : Option Bytes

-- The script engine: the bytecode of a text, or NULL, whether the text cannot be compiled, whether it
-- throws when it is run, and whether its value is a function.
pub record Compiler : Type 0 where
  pub write_object : Bytes → Option Bytes
  pub is_refused : Bytes → Bool
  pub throws : Bytes → Bool
  pub is_function : Bytes → Bool

-- Which of the allocations succeed.
pub record Allocs : Type 0 where
  pub obj_ok : Bool
  pub obj_body_ok : Bool
  pub func_body_ok : Bool
  pub js_func_ok : Bool

-- The local pointers.
pub record Memory : Type 0 where
  pub capture : Slot
  pub obj : Slot
  pub obj_body : Slot
  pub func_body : Slot
  pub js_func : Slot

abbrev pub no_memory : Memory
no_memory = record { capture = null; obj = null; obj_body = null; func_body = null; js_func = null }

-- The actions as the function leaves them, with the text of the script that was run last.
pub record Extraction : Type 0 where
  pub actions : List (Action × ℕ)
  pub bytecode : Option Bytes
  pub func : Option Bytes

abbrev pub Result : Type 0
Result = Ret × Extraction × Memory

-- `ytdl__regex_exec`: whether it matched, with the captures.
unfoldable pub regex_exec : Regex → Bool × Slot
regex_exec r = if r.malloc_ok then (r.is_match, held) else (false, null)

unfoldable pub free_capture : Memory → Option Memory
free_capture m = free m.capture >>= λ s. some (record m { capture = s })

unfoldable pub free_obj : Memory → Option Memory
free_obj m = free m.obj >>= λ s. some (record m { obj = s })

unfoldable pub free_obj_body : Memory → Option Memory
free_obj_body m = free m.obj_body >>= λ s. some (record m { obj_body = s })

unfoldable pub free_func_body : Memory → Option Memory
free_func_body m = free m.func_body >>= λ s. some (record m { func_body = s })

unfoldable pub free_js_func : Memory → Option Memory
free_js_func m = free m.js_func >>= λ s. some (record m { js_func = s })

abbrev pub fails : Extraction → Memory → Option Result
fails f m = some (ret_minus_1, f, m)

-- The labels at the end of the function.
unfoldable pub fail : Extraction → Memory → Option Result
fail f m = free_capture m >>= fails f

unfoldable pub fail_malloc2 : Extraction → Memory → Option Result
fail_malloc2 f m = free_obj m >>= fail f

unfoldable pub fail_malloc3 : Extraction → Memory → Option Result
fail_malloc3 f m = free_obj_body m >>= fail_malloc2 f

unfoldable pub fail1 : Extraction → Memory → Option Result
fail1 f m = free_obj m >>= free_obj_body >>= fails f

unfoldable pub free_bodies : Memory → Option Memory
free_bodies m = free_func_body m >>= free_obj >>= free_obj_body

module _ (compiler : Compiler) (allocs : Allocs) where
  -- The end of the function, with the script run.
  unfoldable pub run_script : Bytes → Extraction → Memory → Option Result
  run_script text f m =
      if compiler.is_refused text
      then fails f m
      else let ran = record f { func = some text } in
        if compiler.throws text
        then fails ran m
        else if not (compiler.is_function text)
        then fails ran m
        else some (ret_0, ran, m)

  abbrev pub with_bytecode : Option Bytes → Bytes → Extraction → Memory → Option Result
  with_bytecode none text f m = fails f m
  with_bytecode (some code) text f m =
      free_js_func m >>= run_script text (record f { bytecode = some code })

  -- The part with the text for the engine, if it was found.
  unfoldable pub compile : Option Bytes → Extraction → Memory → Option Result
  compile none f m = fails f m
  compile (some text) f m =
      if allocs.js_func_ok
      then with_bytecode (compiler.write_object text) text f (record m { js_func = held })
      else none

  -- The part after the scans. With too many actions the arrays are overwritten, and their number
  -- stays.
  unfoldable pub store_actions : Bytes → Extracted → Extraction → Memory → Option Result
  store_actions buf (extracted actions) f m =
      free_bodies m >>= compile (extract_script buf) (record f { actions = actions })
  store_actions buf (gives_up acts) f m =
      free_bodies m >>= fails (record f { actions = take (length f.actions) acts })
  store_actions buf reads_past f m = none

  -- The part with the group of the second expression.
  unfoldable pub copy_func : Bytes → Bytes → Bytes → Extraction → Memory → Option Result
  copy_func buf obj func f m =
      if allocs.func_body_ok
      then (free_capture (record m { func_body = held })
          >>= store_actions buf (extract_actions obj func) f)
      else fail_malloc3 f m

  abbrev pub func_group : Bool → Option Bytes → Bytes → Bytes → Extraction → Memory → Option Result
  func_group true (some func) buf obj f m = copy_func buf obj func f m
  func_group true none buf obj f m = fail1 f m
  func_group false g buf obj f m = fail1 f m

  unfoldable pub find_func : Regex → Bytes → Bytes → Extraction → Memory → Option Result
  find_func re buf obj f m =
      let (is_match, capture) = regex_exec re in
      func_group is_match re.group_1 buf obj f (record m { capture = capture })

  -- The part with the two groups of the first expression.
  unfoldable pub copy_obj : Regex → Bytes → Bytes → Extraction → Memory → Option Result
  copy_obj re buf obj f m =
      if allocs.obj_ok
      then (let copied = record m { obj = held } in
          if allocs.obj_body_ok
          then (free_capture (record copied { obj_body = held }) >>= find_func re buf obj f)
          else fail_malloc2 f copied)
      else fail f m

  abbrev pub obj_groups :
      Bool → Option Bytes → Option Bytes → Regex → Bytes → Extraction → Memory → Option Result
  obj_groups true (some name) (some obj) re buf f m = copy_obj re buf obj f m
  obj_groups true (some name) none re buf f m = fail f m
  obj_groups true none g re buf f m = fail f m
  obj_groups false n g re buf f m = fail f m

  unfoldable pub find_obj : Regex → Regex → Bytes → Extraction → Option Result
  find_obj obj_re func_re buf f =
      let (is_match, capture) = regex_exec obj_re in
      obj_groups is_match obj_re.group_1 obj_re.group_2 func_re buf f
        (record no_memory { capture = capture })

  -- `ytdl_sig_actions_extract`.
  unfoldable pub sig_actions_extract : Regex → Regex → Bytes → Extraction → Option Result
  sig_actions_extract obj_re func_re buf f = elim f.bytecode [
    | some code ↦ fails f no_memory
    | none ↦ find_obj obj_re func_re buf f
  ]
