-- ===== src/Tests/Script.antt =====
-- A player with a function for the parameter `n`.
use libytdl.Base.{
  ◌≡◌, refl, arith, ◌++◌, some, Bytes, codes, no_nul, starts, strnstr, strnstr_from, snprintf,
  precision, c_str,
}
use libytdl.Sig.Script.{
  var_key, open_paren, join_end, script_text, extract_script, print_script, find_function,
  name_function,
}
use libytdl.Sig.Script.Whole.{HasScript}
use libytdl.Tests.Page.{found_at, is_first}

abbrev call_end : Bytes
call_end = codes "Xa(b)&&c;Xa=function(a){return a" ++ (join_end ++ codes ";")

abbrev pub sample_player : Bytes
sample_player = codes "a" ++ (var_key ++ call_end)

pub sample_player-HasScript : HasScript sample_player (codes "Xa") (codes "function(a){return a")
unfolding is_first no_nul starts
sample_player-HasScript = record {
  before = codes "a";
  rest = call_end;
  call = found_at var_key (codes "a") call_end refl refl;
  name_after = codes "b)&&c;Xa=function(a){return a" ++ (join_end ++ codes ";");
  name_end =
      found_at open_paren (codes "Xa")
        (codes "b)&&c;Xa=function(a){return a" ++ (join_end ++ codes ";")) refl refl;
  short = omega arith;
  func_before = codes "a" ++ (var_key ++ codes "Xa(b)&&c;");
  func_rest = codes "function(a){return a" ++ (join_end ++ codes ";");
  func_start =
      found_at (codes "Xa=") (codes "a" ++ (var_key ++ codes "Xa(b)&&c;"))
        (codes "function(a){return a" ++ (join_end ++ codes ";")) refl refl;
  body_after = codes ";";
  body_end = found_at join_end (codes "function(a){return a") (codes ";") refl refl;
  fits = omega arith;
}

-- A name of nine bytes loses its sign, and its call is taken for its definition.
abbrev long_player : Bytes
long_player =
    var_key
    ++ codes "abcdefghi(b);x"
    ++ join_end
    ++ codes ";abcdefghi=function(a){return a"
    ++ join_end

long_name : extract_script long_player ≡ some (script_text (codes "(b);x" ++ join_end))
unfolding extract_script print_script find_function name_function strnstr strnstr_from starts
    snprintf precision c_str
long_name = refl
