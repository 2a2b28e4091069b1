-- ===== src/Sig/Script.antt =====
-- The script that src/sig.c makes of the player's function for the parameter `n`. The player is a
-- buffer of just its bytes, and `none` is the result -1.
pub mod Whole
use libytdl.Base.{
  ℕ, suc, ◌+◌, ◌≤◌, ◌<◌, ◌≡◌, ◌≢◌, refl, sym, ap, subst, ◌∙◌, arith, List, [], ◌∷◌, ◌++◌,
  append_assoc, Option, none, some, ◌>>=◌, length, length-append, take, take-append, drop, Bytes,
  codes, NoNul, no_nul-NoNul, no_nul, All-append, c_str, c_str_id, snprintf, snprintf_fits,
  precision, strnstr, Found, strnstr-Found, drop-Found, take-Found,
}

abbrev pub var_key : Bytes
var_key = codes ".get(\"n\"))&&(b="

abbrev pub open_paren : Bytes
open_paren = codes "("

abbrev pub join_end : Bytes
join_end = codes ".join(\"\")}"

-- YTDL_SIG_JS_FUNC, before and after its directive.
abbrev pub script_head : Bytes
script_head =
    codes
      "function y (z){const s=z.split('&');const i=s.findIndex(e=>e.startsWith('n='));const n=s[i].substr(2);s.splice(i,1,'n='+("

abbrev pub script_tail : Bytes
script_tail = codes ")(n));return s.join('&');};y;"

abbrev pub script_text : Bytes → Bytes
script_text func = script_head ++ (func ++ script_tail)

-- `sizeof` of the format, with its directive and its NUL.
abbrev pub sizeof_format : ℕ
sizeof_format = length script_head + 4 + length script_tail + 1

-- The text of the function up to the end of its call of `join`, printed into its buffer.
unfoldable pub print_script : Option ℕ → Bytes → Option Bytes
print_script none s = none
print_script (some e) s =
    let len = e + length join_end in
    some (snprintf (sizeof_format + len) (script_text (precision len s)))

unfoldable pub find_function : Bytes → Bytes → Option Bytes
find_function prefix buf = elim (strnstr prefix buf) [
  | none ↦ none
  | some p ↦ let s = drop (p + length prefix) buf in print_script (strnstr join_end s) s
]

-- The name of the function with its sign, in an array of 10 bytes.
abbrev pub func_prefix : ℕ → Bytes → Bytes
func_prefix len s = snprintf 10 (precision len s ++ b'=' ∷ [])

unfoldable pub name_function : Option ℕ → Bytes → Bytes → Option Bytes
name_function none s buf = none
name_function (some e) s buf = find_function (func_prefix e s) buf

-- What `ytdl_sig_actions_extract` hands to the script engine.
unfoldable pub extract_script : Bytes → Option Bytes
extract_script buf = elim (strnstr var_key buf) [
  | none ↦ none
  | some p ↦ let s = drop (p + length var_key) buf in name_function (strnstr open_paren s) s buf
]
