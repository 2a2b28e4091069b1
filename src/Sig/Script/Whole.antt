-- ===== src/Sig/Script/Whole.antt =====
-- The script of src/sig.c for a player that has all that the code looks for.
use libytdl.Base.{◌+◌, ◌<◌, ◌^◌, ◌≤◌, [], ◌∷◌, ◌++◌, length, Bytes, Found}
use libytdl.Sig.Script.{var_key, open_paren, join_end}

-- A player whose function for the parameter has a name of at most eight bytes and is shorter than 2^31
-- bytes, by first places.
pub record HasScript (buf name body : Bytes) : Type 0 where
  pub before : Bytes
  pub rest : Bytes
  pub call : Found var_key buf before rest
  pub name_after : Bytes
  pub name_end : Found open_paren rest name name_after
  pub short : length name ≤ 8
  pub func_before : Bytes
  pub func_rest : Bytes
  pub func_start : Found (name ++ b'=' ∷ []) buf func_before func_rest
  pub body_after : Bytes
  pub body_end : Found join_end func_rest body body_after
  pub fits : length body + length join_end < 2 ^ 31
