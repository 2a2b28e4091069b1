-- ===== src/Sig/File.antt =====
-- The file format of the actions in src/sig.c, on a machine whose `int` has 4 bytes and whose
-- `size_t` has 8, the lowest first. The script engine and the allocation are parameters. What is left
-- to read of a file is a list of bytes; a write behind a variable is `none`.
use native.Mathlib.Nat.{pow-suc}
use libytdl.Base.{
  zeros, ℕ, zero, suc, ◌+◌, ◌*◌, ◌/◌, ◌%◌, ◌^◌, ◌≤◌, ◌<◌, ◌≡◌, refl, sym, ap, ◌∙◌, Bool, true,
  false, [], ◌∷◌, ◌++◌, append_assoc, append-nil, Option, none, some, if◌then◌else◌, leb, length,
  take, take-append, take_all, drop, drop-append, drop_all, Bytes, arith,
}

-- `ytdl_sig_actions_t`: the bytes of its head, the length of the bytecode, and the bytecode.
pub record Actions : Type 0 where
  pub head : Bytes
  pub bc_len : ℕ
  pub bytecode : Option Bytes

abbrev pub head_size : ℕ
head_size = 164

-- What the engine does: whether it allocates, what new memory holds, and whether it reads a text.
pub record Engine : Type 0 where
  pub malloc_ok : ℕ → Bool
  pub fresh : ℕ → Bytes
  pub reads : Bytes → Bool

-- `ytdl_sig_actions_init`.
abbrev pub init_actions : Actions
init_actions = record { head = zeros head_size; bc_len = 0; bytecode = none }

-- The bytes of a number, and the number of bytes.
unfoldable pub size_bytes : ℕ → ℕ → Bytes
size_bytes zero n = []
size_bytes (suc k) n = n % 256 ∷ size_bytes k (n / 256)

unfoldable pub of_bytes : Bytes → ℕ
of_bytes [] = 0
of_bytes (c ∷ s) = c + 256 * of_bytes s

abbrev pub text_of : Option Bytes → Bytes
text_of none = []
text_of (some code) = code

-- `ytdl_sig_actions_save_file`: the bytes that it writes.
unfoldable pub save_file : Actions → Bytes
save_file a = a.head ++ (8 ∷ (size_bytes 8 a.bc_len ++ take a.bc_len (text_of a.bytecode)))

-- `fread` of `n` bytes into a variable: what it then holds, and what is left of the file.
abbrev pub fread : ℕ → Bytes → Bytes → Bytes × Bytes
fread n old file = (take n file ++ drop (length (take n file)) old, drop n file)

-- A load's result, whether it was 0, with the actions and the rest of the file.
abbrev pub Load : Type 0
Load = Bool × Actions × Bytes

module _ (engine : Engine) where
  unfoldable pub load_code : Actions → Bytes → Load
  load_code a file =
      if engine.malloc_ok a.bc_len
      then (let (code, rest) = fread a.bc_len (engine.fresh a.bc_len) file in
          (engine.reads code, record a { bytecode = some code }, rest))
      else (false, a, file)

  -- The length, after its own size was read, if the file had not ended.
  unfoldable pub load_size : Actions → Bytes → Option Load
  load_size a [] = some (load_code a [])
  load_size a (s_size ∷ file) =
      let (size, rest) = fread s_size (size_bytes 8 a.bc_len) file in
      if leb (length size) 8
      then some (load_code (record a { bc_len = of_bytes size }) rest)
      else none

  -- `ytdl_sig_actions_load_file`.
  unfoldable pub load_file : Actions → Bytes → Option Load
  load_file a file = elim a.bytecode [
    | some code ↦ some (false, a, file)
    | none ↦
        let (head, rest) = fread head_size a.head file in load_size (record a { head = head }) rest
  ]

of_bytes-size_bytes : (k n : ℕ) → n < 256 ^ k → of_bytes (size_bytes k n) ≡ n
unfolding of_bytes size_bytes
of_bytes-size_bytes zero n h = omega arith
of_bytes-size_bytes (suc k) n h =
    ap (λ m. n % 256 + 256 * m) (of_bytes-size_bytes k (n / 256) (omega (arith, pow-suc 256 k)))
    ∙ omega arith

length-size_bytes : (k n : ℕ) → length (size_bytes k n) ≡ k
unfolding size_bytes
length-size_bytes zero n = refl
length-size_bytes (suc k) n = ap suc (length-size_bytes k (n / 256))

-- A whole variable is read back.
fread_lem :
    (n : ℕ) (old x rest : Bytes)
    → length x ≡ n
    → length old ≤ n
    → fread n old (x ++ rest) ≡ (x, rest)
fread_lem n old x rest e l =
    ap (λ k. fread k old (x ++ rest)) (sym e)
    ∙ ap (λ t. (t ++ drop (length t) old, drop (length x) (x ++ rest))) (take-append x rest)
    ∙ ap (λ t. (x ++ t, drop (length x) (x ++ rest)))
        (drop_all (length x) old (omega (arith, e, l)))
    ∙ ap (λ t. (t, drop (length x) (x ++ rest))) (append-nil x)
    ∙ ap (λ t. (x, t)) (drop-append x rest)

-- Actions that were loaded or extracted.
pub record AreActions (engine : Engine) (a : Actions) (code : Bytes) : Type 0 where
  pub holds : a.bytecode ≡ some code
  pub length-head : length a.head ≡ head_size
  pub length-code : length code ≡ a.bc_len
  pub fits : a.bc_len < 2 ^ 64
  pub allocates : engine.malloc_ok a.bc_len ≡ true
  pub length-fresh : length (engine.fresh a.bc_len) ≡ a.bc_len

module _ (engine : Engine) (a : Actions) (code : Bytes) (h : AreActions engine a code) where
  load_code_lem :
      (rest : Bytes)
      → load_code engine (record a { bytecode = none }) (code ++ rest)
        ≡ (engine.reads code, record a { bytecode = some code }, rest)
  unfolding load_code
  load_code_lem rest =
      ap
        (λ b.
          if b
          then (let (c, r) = fread a.bc_len (engine.fresh a.bc_len) (code ++ rest) in
              (engine.reads c, record a { bytecode = some c }, r))
          else (false, record a { bytecode = none }, code ++ rest))
        h.allocates
      ∙ ap (λ p. let (c, r) = p in (engine.reads c, record a { bytecode = some c }, r))
          (fread_lem a.bc_len (engine.fresh a.bc_len) code rest h.length-code
            (omega (arith, h.length-fresh)))

  load_size_lem :
      (rest : Bytes)
      → load_size engine
          (record a { bc_len = 0; bytecode = none })
          (8 ∷ (size_bytes 8 a.bc_len ++ (code ++ rest)))
        ≡ some (engine.reads code, record a { bytecode = some code }, rest)
  unfolding load_size
  load_size_lem rest =
      ap
        (λ p.
          let (size, r) = p in
          if leb (length size) 8
          then some (load_code engine (record a { bc_len = of_bytes size; bytecode = none }) r)
          else none)
        (fread_lem 8 (size_bytes 8 0) (size_bytes 8 a.bc_len) (code ++ rest)
          (length-size_bytes 8 a.bc_len) (omega (arith, length-size_bytes 8 0)))
      ∙ ap
          (λ n.
            if leb n 8
            then some (
                load_code engine
                  (record a { bc_len = of_bytes (size_bytes 8 a.bc_len); bytecode = none })
                  (code ++ rest))
            else none)
          (length-size_bytes 8 a.bc_len)
      ∙ ap (λ n. some (load_code engine (record a { bc_len = n; bytecode = none }) (code ++ rest)))
          (of_bytes-size_bytes 8 a.bc_len (omega (arith, h.fits)))
      ∙ ap some (load_code_lem rest)

  -- The text of the actions before the rest of a file.
  saved :
      (rest : Bytes)
      → save_file a ++ rest ≡ a.head ++ (8 ∷ (size_bytes 8 a.bc_len ++ (code ++ rest)))
  unfolding save_file
  saved rest =
      ap (λ c. (a.head ++ (8 ∷ (size_bytes 8 a.bc_len ++ take a.bc_len (text_of c)))) ++ rest)
        h.holds
      ∙ ap (λ c. (a.head ++ (8 ∷ (size_bytes 8 a.bc_len ++ c))) ++ rest)
          (take_all a.bc_len code (omega (arith, h.length-code)))
      ∙ append_assoc a.head (8 ∷ (size_bytes 8 a.bc_len ++ code)) rest
      ∙ ap (λ c. a.head ++ (8 ∷ c)) (append_assoc (size_bytes 8 a.bc_len) code rest)

  pub load_file-save_file :
      (rest : Bytes)
      → load_file engine init_actions (save_file a ++ rest) ≡ some (engine.reads code, a, rest)
  unfolding load_file
  load_file-save_file rest =
      ap (load_file engine init_actions) (saved rest)
      ∙ ap (λ p. let (head, r) = p in load_size engine (record init_actions { head = head }) r)
          (fread_lem head_size (zeros head_size) a.head _ h.length-head (omega arith))
      ∙ load_size_lem rest
      ∙ ap (λ c. some (engine.reads code, record a { bytecode = c }, rest)) (sym h.holds)
