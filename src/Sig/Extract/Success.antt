-- ===== src/Sig/Extract/Success.antt =====
-- `ytdl_sig_actions_extract` of src/sig.c on a player that has the operations and the script.
use libytdl.Base.{◌≤◌, ◌≡◌, true, false, List, Option, some, length, Bytes, All, released}
use libytdl.Sig.{Action, Keys, scan_object, max_sig}
use libytdl.Sig.Calls.{IsPlain}
use libytdl.Sig.Names.{AreNamed}
use libytdl.Sig.Printed.{Call, IsCall, print_calls}
use libytdl.Sig.Script.Whole.{HasScript}
use libytdl.Sig.Extract.{Regex, Compiler, Allocs, Memory}

-- An expression that matches, with its first two groups.
abbrev pub matches : Bytes → Option Bytes → Regex
matches g h = record { malloc_ok = true; is_match = true; group_1 = some g; group_2 = h }

-- A player's object, the calls in its function, and its script.
pub record IsPlayer (obj func buf : Bytes) (cs : List Call) (name body : Bytes) : Type 0 where
  pub keys : Keys
  pub names : Action → Bytes
  pub after : Bytes
  pub is_func : func ≡ print_calls names cs after
  pub has_keys : scan_object obj ≡ some keys
  pub named : AreNamed obj keys names
  pub plain : (a : Action) → IsPlain (names a)
  pub are_calls : All IsCall cs
  pub after_plain : IsPlain after
  pub room : length cs ≤ max_sig
  pub script : HasScript buf name body

-- The engine makes a function of a text, by way of some bytecode.
pub record Compiles (compiler : Compiler) (text code : Bytes) : Type 0 where
  pub writes : compiler.write_object text ≡ some code
  pub accepted : compiler.is_refused text ≡ false
  pub quiet : compiler.throws text ≡ false
  pub function : compiler.is_function text ≡ true

abbrev pub all_ok : Allocs
all_ok = record { obj_ok = true; obj_body_ok = true; func_body_ok = true; js_func_ok = true }

abbrev pub all_released : Memory
all_released = record {
  capture = released;
  obj = released;
  obj_body = released;
  func_body = released;
  js_func = released;
}
