-- ===== src/Tests/Extract.antt =====
-- A player's actions and its script, and one with a call too many.
use libytdl.Base.{
  ◌≡◌, ◌≢◌, refl, sym, subst, arith, true, false, [], ◌++◌, none, some, Bytes, codes, Returns,
  some-injective,
}
use libytdl.Sig.Script.{script_text, join_end}
use libytdl.Sig.Extract.{Compiler, Extraction, sig_actions_extract}
use libytdl.Sig.Extract.Leaks.{IsClean, AreReadable, sig_actions_extract-IsClean}
use libytdl.Sig.Extract.Success.{matches, all_ok}
use libytdl.Tests.Sig.{sample_obj, sample_func, object_keys}
use libytdl.Tests.Script.{sample_player}

-- An engine that takes each text for a function and keeps the text as its bytecode.
abbrev engine : Compiler
engine = record {
  write_object = λ t. some t;
  is_refused = λ t. false;
  throws = λ t. false;
  is_function = λ t. true;
}

abbrev no_actions : Extraction
no_actions = record { actions = []; bytecode = none; func = none }

abbrev sample_script : Bytes
sample_script = script_text (codes "function(a){return a" ++ join_end)

readable :
    (obj func : Bytes)
    → some sample_obj ≡ some obj
    → some sample_func ≡ some func
    → AreReadable obj func
readable obj func e g =
    subst (λ t. AreReadable obj t) (some-injective _ _ g)
      (subst (λ t. AreReadable t sample_func) (some-injective _ _ e)
        (omega arith, subst (λ m. m ≢ none) (sym object_keys) (λ h. cc)))

-- The buffer for the function cannot be allocated.
sig_actions_extract-IsClean_example : Returns IsClean (
    sig_actions_extract engine
      (record all_ok { func_body_ok = false })
      (matches (codes "XY") (some sample_obj))
      (matches sample_func none)
      sample_player
      no_actions)
sig_actions_extract-IsClean_example =
    sig_actions_extract-IsClean engine (record all_ok { func_body_ok = false })
      (matches (codes "XY") (some sample_obj)) (matches sample_func none) sample_player no_actions
      refl readable (omega arith)
