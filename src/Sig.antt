-- ===== src/Sig.antt =====
-- `ytdl_sig_actions_extract` of src/sig.c: the names of the operations in the player's object, and
-- the calls of them in its function. Both texts are found by regular expressions, which are
-- parameters, as is the JavaScript engine. The buffers are not terminated, and a read past one of
-- them is a fault. What the code passes over by an `idx++` of its own is counted in `skip`.
pub mod Bounds
pub mod Reads
pub mod Calls
pub mod Names
pub mod Printed
pub mod File
pub mod Script
pub mod Extract
use libytdl.Base.{
  ℕ, zero, suc, ◌+◌, ◌-◌, ◌*◌, ◌%◌, ◌^◌, Bool, true, false, not, ◌&&◌, ◌||◌, List, [], ◌∷◌, ◌++◌,
  Option, none, some, if◌then◌else◌, ◌==◌, ◌>>=◌, length, take, drop, Bytes, codes, strncmp_eq,
}

-- `ytdl_sig_action_t`.
pub data Action : Type 0 where
  swap reverse slice splice : Action

-- A key of the object, by its first byte and the byte after its last.
pub record Range : Type 0 where
  pub start : ℕ
  pub stop : ℕ

-- The keys that were found; the range 0 to 0 stands for none.
pub record Keys : Type 0 where
  pub swap_key : Range
  pub splice_key : Range
  pub reverse_key : Range
  pub slice_key : Range

-- `str2int`: the bits of an `int`, which wraps around.
unfoldable pub str2int_from : ℕ → Bytes → ℕ
str2int_from ret [] = ret
str2int_from ret (c ∷ s) = str2int_from ((ret * 10 + (c + 2 ^ 32 - b'0')) % 2 ^ 32) s

unfoldable pub str2int : Bytes → ℕ
str2int s = str2int_from 0 s

-- The scan of the object's body.
pub record ObjScan : Type 0 where
  pub skip : ℕ
  pub kstart : ℕ
  pub keys : Keys

-- How the operations' bodies begin, in the order of the tests.
abbrev pub bodies : List (Bytes × Action)
bodies =
    (codes "function(a,b){var c=a[0]", swap)
    ∷ (codes "function(a,b){a.splice(0", splice)
    ∷ (codes "function(a){a.reverse()}", reverse)
    ∷ (codes "function(a){return a.rev", reverse)
    ∷ (codes "function(a,b){return a.s", slice)
    ∷ []

abbrev pub set_key : Action → Range → Keys → Keys
set_key swap r keys = record keys { swap_key = r }
set_key splice r keys = record keys { splice_key = r }
set_key reverse r keys = record keys { reverse_key = r }
set_key slice r keys = record keys { slice_key = r }

unfoldable pub name_key : List (Bytes × Action) → Bytes → Range → Keys → Option Keys
name_key [] body r keys = some keys
name_key ((begin, a) ∷ more) body r keys = strncmp_eq 24 begin body >>= λ b.
    if b then some (set_key a r keys) else name_key more body r keys

-- The test for a new line, at `idx`.
unfoldable pub new_line : ℕ → ℕ → ObjScan → ObjScan
new_line idx c s = if c == b'\n' then record s { kstart = suc idx; skip = suc s.skip } else s

-- The same for the byte after a colon.
unfoldable pub after_colon : ℕ → Bytes → ObjScan → Option ObjScan
after_colon idx [] s = none
after_colon idx (d ∷ rest) s = some (new_line (suc idx) d (record s { skip = 1 }))

unfoldable pub obj_step : ℕ → ℕ → Bytes → ObjScan → Option ObjScan
obj_step idx c rest s =
    if c == b':'
    then (name_key bodies rest (record { start = s.kstart; stop = idx }) s.keys >>= λ keys.
        after_colon idx rest (record s { keys = keys }))
    else some (new_line idx c s)

unfoldable pub obj_next : ℕ → ℕ → Bytes → ℕ → ObjScan → Option ObjScan
obj_next idx c rest zero s = obj_step idx c rest s
obj_next idx c rest (suc k) s = some (record s { skip = k })

unfoldable pub scan_object_from : ℕ → Bytes → ObjScan → Option ObjScan
scan_object_from idx [] s = some s
scan_object_from idx (c ∷ rest) s =
    obj_next idx c rest s.skip s >>= λ t. scan_object_from (suc idx) rest t

abbrev pub no_key : Range
no_key = record { start = 0; stop = 0 }

abbrev pub no_keys : Keys
no_keys = record {
  swap_key = no_key;
  splice_key = no_key;
  reverse_key = no_key;
  slice_key = no_key;
}

unfoldable pub scan_object : Bytes → Option Keys
scan_object obj =
    scan_object_from 0 obj (record { skip = 0; kstart = 0; keys = no_keys }) >>= λ s. some s.keys

-- The scan of the function's body.
pub record FuncScan : Type 0 where
  pub skip : ℕ
  pub v_start : ℕ
  pub v_end : ℕ
  pub n_start : ℕ
  pub prop_type : Bool
  pub actions : List (Action × ℕ)

-- `overflow`: more calls than `YTDL_MAX_SIG`, with those that the arrays were overwritten with.
pub data Scanned : Type 0 where
  scanned : FuncScan → Scanned
  overflow : List (Action × ℕ) → Scanned
  faults : Scanned

abbrev pub max_sig : ℕ
max_sig = 20

-- The difference of two `size_t`.
abbrev pub size_sub : ℕ → ℕ → ℕ
size_sub a b = (a + 2 ^ 64 - b) % 2 ^ 64

module _ (func obj : Bytes) where
  -- Whether a call's name is that of a key.
  unfoldable pub is_key : Range → FuncScan → Option Bool
  is_key r s =
      if not (r.stop == 0) && size_sub r.stop r.start == size_sub s.v_end s.v_start
      then strncmp_eq (size_sub s.v_end s.v_start) (drop s.v_start func) (drop r.start obj)
      else some false

  abbrev pub arg_of : ℕ → FuncScan → Action → ℕ
  arg_of n_end s reverse = 0
  arg_of n_end s swap = str2int (take (n_end - s.n_start) (drop s.n_start func))
  arg_of n_end s slice = str2int (take (n_end - s.n_start) (drop s.n_start func))
  arg_of n_end s splice = str2int (take (n_end - s.n_start) (drop s.n_start func))

  -- The keys in the order of the tests.
  abbrev pub tests : Keys → List (Range × Action)
  tests keys =
      (keys.swap_key, swap)
      ∷ (keys.splice_key, splice)
      ∷ (keys.slice_key, slice)
      ∷ (keys.reverse_key, reverse)
      ∷ []

  unfoldable pub find_action : List (Range × Action) → FuncScan → Option (Option Action)
  find_action [] s = some none
  find_action ((r, a) ∷ more) s =
      is_key r s >>= λ b. if b then some (some a) else find_action more s

  unfoldable pub add_action : ℕ → FuncScan → Option (Option Action) → Scanned
  add_action n_end s none = faults
  add_action n_end s (some none) = scanned s
  add_action n_end s (some (some a)) =
      scanned (record s { actions = s.actions ++ (a, arg_of n_end s a) ∷ [] })

  module _ (keys : Keys) where
    unfoldable pub close_call : ℕ → FuncScan → Scanned
    close_call idx s =
        if length s.actions == max_sig
        then overflow s.actions
        else add_action idx s (find_action (tests keys) s)

    unfoldable pub func_step : ℕ → ℕ → FuncScan → Scanned
    func_step idx c s =
        if c == b'.'
        then scanned (record s { v_start = suc idx; skip = 1; prop_type = true })
        else if c == b'('
        then scanned (record s { v_end = if s.prop_type then idx else s.v_end; prop_type = true })
        else if c == b'['
        then scanned (record s { v_start = suc (suc idx); skip = 2; prop_type = false })
        else if c == b'"' || c == b'\''
        then scanned (record s { v_end = idx })
        else if c == b','
        then scanned (record s { n_start = suc idx; skip = 1 })
        else if c == b')'
        then close_call idx s
        else scanned s

    unfoldable pub func_next : ℕ → ℕ → ℕ → FuncScan → Scanned
    func_next idx c zero s = func_step idx c s
    func_next idx c (suc k) s = scanned (record s { skip = k })

    unfoldable pub scan_from : ℕ → Bytes → FuncScan → Scanned
    scan_from idx [] s = scanned s
    scan_from idx (c ∷ rest) s = elim (func_next idx c s.skip s) [
      | scanned t ↦ scan_from (suc idx) rest t
      | overflow acts ↦ overflow acts
      | faults ↦ faults
    ]

  abbrev pub scan_start : FuncScan
  scan_start = record {
    skip = 0;
    v_start = 0;
    v_end = 0;
    n_start = 0;
    prop_type = true;
    actions = [];
  }

  unfoldable pub scan_function : Keys → Scanned
  scan_function keys = scan_from keys 0 func scan_start

-- The two scans, and the actions that are stored; where the code gives up, their number is not.
pub data Extracted : Type 0 where
  extracted : List (Action × ℕ) → Extracted
  gives_up : List (Action × ℕ) → Extracted
  reads_past : Extracted

abbrev pub stored : Scanned → Extracted
stored (scanned s) = extracted s.actions
stored (overflow acts) = gives_up acts
stored faults = reads_past

unfoldable pub extract_actions : Bytes → Bytes → Extracted
extract_actions obj func = elim (scan_object obj) [
  | some keys ↦ stored (scan_function func obj keys)
  | none ↦ reads_past
]
