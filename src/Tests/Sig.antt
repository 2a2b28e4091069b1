-- ===== src/Tests/Sig.antt =====
-- The signature actions of a small script.
use libytdl.Base.{
  All, ℕ, ◌≡◌, refl, sym, ap, ◌∙◌, if◌then◌else◌, arith, inl, List, [], ◌∷◌, ◌++◌, drop, some,
  Bytes, codes, bytes_eq, decimal, no_nul, no_nul-NoNul, strncmp_eq,
}
use libytdl.Sig.{
  Action, swap, reverse, slice, splice, Keys, str2int, str2int_from, name_key, new_line,
  after_colon, obj_step, obj_next, scan_object_from, scan_object, is_key, find_action, add_action,
  close_call, func_step, func_next, scan_from, scan_function, extracted, extract_actions, stored,
}
use libytdl.Sig.Calls.{IsPlain}
use libytdl.Sig.Names.{IsRange, key_of, AreNamed}
use libytdl.Sig.Printed.{Form, dotted, quoted, Call, IsCall, print_calls, scan_function-print_calls}

abbrev pub sample_obj : Bytes
sample_obj =
    codes "rv:function(a){a.reverse()},"
    ++ (b'\n' ∷ codes "sp:function(a,b){a.splice(0,b)},")
    ++ (b'\n' ∷ codes "sw:function(a,b){var c=a[0];a[0]=a[b%a.length];a[b]=c},")
    ++ (b'\n' ∷ codes "sl:function(a,b){return a.slice(b)}")

abbrev pub sample_keys : Keys
sample_keys = record {
  swap_key = record { start = 62; stop = 64 };
  splice_key = record { start = 29; stop = 31 };
  reverse_key = record { start = 0; stop = 2 };
  slice_key = record { start = 118; stop = 120 };
}

pub object_keys : scan_object sample_obj ≡ some sample_keys
unfolding scan_object scan_object_from obj_next obj_step after_colon new_line name_key strncmp_eq
object_keys = refl

abbrev pub sample_names : Action → Bytes
sample_names swap = codes "sw"
sample_names reverse = codes "rv"
sample_names slice = codes "sl"
sample_names splice = codes "sp"

sample-IsRange : (a : Action) → IsRange sample_obj (key_of a sample_keys) (sample_names a)
unfolding no_nul
sample-IsRange swap = record {
  tail = drop 64 sample_obj;
  starts = refl;
  stops = refl;
  nonempty = omega arith;
  no_nul = no_nul-NoNul (codes "sw") refl;
  fits = omega arith;
}
sample-IsRange reverse = record {
  tail = drop 2 sample_obj;
  starts = refl;
  stops = refl;
  nonempty = omega arith;
  no_nul = no_nul-NoNul (codes "rv") refl;
  fits = omega arith;
}
sample-IsRange slice = record {
  tail = drop 120 sample_obj;
  starts = refl;
  stops = refl;
  nonempty = omega arith;
  no_nul = no_nul-NoNul (codes "sl") refl;
  fits = omega arith;
}
sample-IsRange splice = record {
  tail = drop 31 sample_obj;
  starts = refl;
  stops = refl;
  nonempty = omega arith;
  no_nul = no_nul-NoNul (codes "sp") refl;
  fits = omega arith;
}

-- The names are told apart by a test.
abbrev action_named : Bytes → Action
action_named s =
    if bytes_eq s (codes "sw")
    then swap
    else if bytes_eq s (codes "rv")
    then reverse
    else if bytes_eq s (codes "sl")
    then slice
    else splice

action_named_lem : (a : Action) → action_named (sample_names a) ≡ a
unfolding bytes_eq
action_named_lem swap = refl
action_named_lem reverse = refl
action_named_lem slice = refl
action_named_lem splice = refl

pub sample_named : AreNamed sample_obj sample_keys sample_names
sample_named = record {
  ranges = sample-IsRange;
  distinct = λ a b e. sym (action_named_lem a) ∙ ap action_named e ∙ action_named_lem b;
}

abbrev sample_call : Bytes → Form → Action → ℕ → Call
sample_call before form action number = record {
  before = before;
  form = form;
  action = action;
  subject = codes "a";
  number = number;
}

abbrev pub sample_calls : List Call
sample_calls =
    sample_call (codes "XY") dotted swap 12
    ∷ sample_call (codes ";XY") (quoted b'"') reverse 55
    ∷ sample_call (codes ";XY") dotted splice 3
    ∷ []

abbrev pub sample_func : Bytes
sample_func = codes "XY.sw(a,12);XY[\"rv\"](a,55);XY.sp(a,3);"

pub sample_text : print_calls sample_names sample_calls (codes ";") ≡ sample_func
unfolding decimal
sample_text = refl

abbrev sample_actions : List (Action × ℕ)
sample_actions = (swap, 12) ∷ (reverse, 0) ∷ (splice, 3) ∷ []

pub sample_names-IsPlain : (a : Action) → IsPlain (sample_names a)
sample_names-IsPlain swap = (refl, (refl, tt))
sample_names-IsPlain reverse = (refl, (refl, tt))
sample_names-IsPlain slice = (refl, (refl, tt))
sample_names-IsPlain splice = (refl, (refl, tt))

pub sample_calls-IsCall : All IsCall sample_calls
sample_calls-IsCall = (
  record {
    before_plain = (refl, (refl, tt));
    is_form = tt;
    subject_plain = (refl, tt);
    fits = omega arith;
  },
  (
    record {
      before_plain = (refl, (refl, (refl, tt)));
      is_form = inl refl;
      subject_plain = (refl, tt);
      fits = omega arith;
    },
    (
      record {
        before_plain = (refl, (refl, (refl, tt)));
        is_form = tt;
        subject_plain = (refl, tt);
        fits = omega arith;
      },
      tt,
    ),
  ),
)

scan_function-print_calls_example :
    stored
      (scan_function (print_calls sample_names sample_calls (codes ";")) sample_obj sample_keys)
    ≡ extracted sample_actions
scan_function-print_calls_example =
    scan_function-print_calls sample_obj sample_keys sample_names sample_calls (codes ";")
      sample_named sample_names-IsPlain sample_calls-IsCall (refl, tt) (omega arith)

sample_extracted : extract_actions sample_obj sample_func ≡ extracted sample_actions
unfolding extract_actions scan_object scan_object_from obj_next obj_step after_colon new_line
    name_key strncmp_eq scan_function scan_from func_next func_step close_call find_action is_key
    add_action str2int str2int_from
sample_extracted = refl
