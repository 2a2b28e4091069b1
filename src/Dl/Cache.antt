-- ===== src/Dl/Cache.antt =====
-- The file of the player cache in src/dl.c: each player's path and the actions of its script. The
-- hash map is the list of the players that were put into it.
use libytdl.Base.{
  ℕ, zero, suc, ◌-◌, ◌≤◌, ◌<◌, ◌≡◌, refl, sym, ap, subst, ◌∙◌, inl, inr, Bool, true, false, List,
  [], ◌∷◌, ◌++◌, append_assoc, append-nil, Option, none, some, if◌then◌else◌, ◌==◌, ◌>>=◌, length,
  length-append, Bytes, c_str, c_str_id, NoNul, All, arith, Bool-cases,
}
use libytdl.Sig.File.{
  Actions, Engine, Load, init_actions, save_file, load_file, AreActions, load_file-save_file,
}

-- `ytdl_dl_player_t`.
pub record Player : Type 0 where
  pub player_path : Bytes
  pub sig_actions : Actions

-- `ytdl_dl_player_cache_save_file`: the bytes that it writes.
unfoldable pub save : List Player → Bytes
save [] = []
save (p ∷ ps) = c_str p.player_path ++ (0 ∷ (save_file p.sig_actions ++ save ps))

-- The path, in an array of which `room` bytes are left; `fgetc` gives -1, a byte 255, at the end of
-- the file. Nothing for a path that does not fit.
unfoldable pub read_path : ℕ → Bytes → Bytes → Option (Bytes × Bytes)
read_path zero path file = none
read_path (suc room) path [] = read_path room (path ++ 255 ∷ []) []
read_path (suc room) path (c ∷ file) =
    let rest = read_path room (path ++ c ∷ []) file in if c == 0 then some (path, file) else rest

abbrev pub path_size : ℕ
path_size = 100

-- What a load returns, whether it is 0, and the players that it put into the map.
abbrev pub Loaded : Type 0
Loaded = Bool × List Player

module _ (engine : Engine) where
  -- The rounds of the loop, with fuel, from the bytes of a path that were read and the players that
  -- were loaded. The result of the actions' own load is not looked at.
  unfoldable pub load_from : ℕ → Bytes → List Player → Bytes → Option Loaded
  load_from zero path players file = none
  load_from (suc fuel) path players file = elim (read_path (path_size - length path) path file) [
    | none ↦ some (false, players)
    | some (name, f) ↦ load_file engine init_actions f >>= λ (ret, actions, rest).
        let loaded = players ++ record { player_path = c_str name; sig_actions = actions } ∷ [] in
        elim rest [ [] ↦ some (true, loaded) | c ∷ more ↦ load_from fuel (c ∷ []) loaded more ]
  ]

  -- `ytdl_dl_player_cache_load_file`; each round reads a byte at least.
  unfoldable pub load : Bytes → Option Loaded
  load file = load_from (suc (length file)) [] [] file

  -- A player with a path that fits the array.
  pub record IsSaved (p : Player) : Type 0 where
    pub code : Bytes
    pub actions : AreActions engine p.sig_actions code
    pub no_nul : NoNul p.player_path
    pub nonempty : 0 < length p.player_path
    pub fits : length p.player_path < path_size

read_path_lem :
    (room : ℕ) (pre post file : Bytes)
    → NoNul post
    → length post < room
    → read_path room pre (post ++ 0 ∷ file) ≡ some (pre ++ post, file)
unfolding read_path
read_path_lem zero pre post file h l = absurd (omega arith)
read_path_lem (suc room) pre [] file h l = ap (λ p. some (p, file)) (sym (append-nil pre))
read_path_lem (suc room) pre (c ∷ post) file (n, h) l = elim (Bool-cases (c == 0)) [
  | inl e ↦ absurd (n (ground (arith, e)))
  | inr e ↦ rw e (
      read_path_lem room (pre ++ c ∷ []) post file h (omega arith)
      ∙ ap (λ p. some (p, file)) (append_assoc pre (c ∷ []) post))
]

length-save : (ps : List Player) → length ps ≤ length (save ps)
unfolding save
length-save [] = omega arith
length-save (p ∷ ps) = omega (
  arith,
  length-append (c_str p.player_path) (0 ∷ (save_file p.sig_actions ++ save ps)),
  length-append (save_file p.sig_actions) (save ps),
  length-save ps,
)

module _ (engine : Engine) where
  -- What follows a path and its actions.
  abbrev go_on : ℕ → List Player → Bytes → Load → Option Loaded
  go_on fuel players name (ret, actions, rest) =
      let loaded = players ++ record { player_path = c_str name; sig_actions = actions } ∷ [] in
      elim rest [ [] ↦ some (true, loaded) | c ∷ more ↦ load_from engine fuel (c ∷ []) loaded more ]

  load_round :
      (fuel : ℕ) (p : Player) (h : IsSaved engine p) (pre post : Bytes) (players : List Player)
      (rest : Bytes)
      → pre ++ post ≡ p.player_path
      → NoNul post
      → load_from engine (suc fuel) pre players (post ++ (0 ∷ (save_file p.sig_actions ++ rest)))
        ≡ elim rest [
          | [] ↦ some (true, players ++ p ∷ [])
          | c ∷ more ↦ load_from engine fuel (c ∷ []) (players ++ p ∷ []) more
        ]
  unfolding load_from
  load_round fuel p h pre post players rest e n =
      ap
        (λ m. elim m [
          | none ↦ some (false, players)
          | some (name, f) ↦ load_file engine init_actions f >>= go_on fuel players name
        ])
        (read_path_lem (path_size - length pre) pre post (save_file p.sig_actions ++ rest) n
          (omega (arith, h.fits, ap length e, length-append pre post)))
      ∙ ap (λ m. m >>= go_on fuel players (pre ++ post))
          (load_file-save_file engine p.sig_actions h.code h.actions rest)
      ∙ ap (λ s. go_on fuel players s (engine.reads h.code, p.sig_actions, rest)) e
      ∙ ap
          (λ s. elim rest [
            | [] ↦
                some (true, players ++ record { player_path = s; sig_actions = p.sig_actions } ∷ [])
            | c ∷ more ↦
                load_from engine fuel (c ∷ [])
                  (players ++ record { player_path = s; sig_actions = p.sig_actions } ∷ []) more
          ])
          (c_str_id p.player_path h.no_nul)

  save-cons :
      (q : Player) (qs : List Player) (c : ℕ) (s : Bytes)
      → IsSaved engine q
      → c ∷ s ≡ q.player_path
      → save (q ∷ qs) ≡ c ∷ (s ++ (0 ∷ (save_file q.sig_actions ++ save qs)))
  unfolding save
  save-cons q qs c s h e =
      ap (λ t. t ++ (0 ∷ (save_file q.sig_actions ++ save qs)))
        (c_str_id q.player_path h.no_nul ∙ sym e)

  first_byte : (s : Bytes) → 0 < length s → (c : ℕ) × (t : Bytes) × (c ∷ t ≡ s)
  first_byte [] h = absurd (omega arith)
  first_byte (c ∷ t) h = (c, t, refl)

  load_rounds :
      (ps : List Player) (fuel : ℕ) (p : Player) (pre post : Bytes) (players : List Player)
      → IsSaved engine p
      → All (IsSaved engine) ps
      → length ps ≤ fuel
      → pre ++ post ≡ p.player_path
      → NoNul post
      → load_from engine (suc fuel) pre players (post ++ (0 ∷ (save_file p.sig_actions ++ save ps)))
        ≡ some (true, players ++ p ∷ ps)
  unfolding save
  load_rounds [] fuel p pre post players h hs l e n = load_round fuel p h pre post players [] e n
  load_rounds (q ∷ qs) zero p pre post players h hs l e n = absurd (omega arith)
  load_rounds (q ∷ qs) (suc fuel) p pre post players h (k, hs) l e n =
      let (c, s, f) = first_byte q.player_path k.nonempty in
      load_round (suc fuel) p h pre post players (save (q ∷ qs)) e n
      ∙ ap
          (λ t. elim t [
            | [] ↦ some (true, players ++ p ∷ [])
            | d ∷ more ↦ load_from engine (suc fuel) (d ∷ []) (players ++ p ∷ []) more
          ])
          (save-cons q qs c s k f)
      ∙ load_rounds qs fuel q (c ∷ []) s (players ++ p ∷ []) k hs (omega arith) f
          (subst NoNul (sym f) k.no_nul).1
      ∙ ap (λ t. some (true, t)) (append_assoc players (p ∷ []) (q ∷ qs))

  -- If the cache has a player, and each player's path is a text of 1 to 99 bytes and its actions have
  -- a head of its size and as much bytecode as they say, less than 2^64 bytes, which the engine can
  -- allocate, then the file that is saved is loaded in full, with the same players in their order.
  pub load-save :
      (p : Player) (ps : List Player)
      → IsSaved engine p
      → All (IsSaved engine) ps
      → load engine (save (p ∷ ps)) ≡ some (true, p ∷ ps)
  unfolding load save
  load-save p ps h hs =
      ap
        (λ s.
          load_from engine (suc (length (s ++ (0 ∷ (save_file p.sig_actions ++ save ps))))) [] []
            (s ++ (0 ∷ (save_file p.sig_actions ++ save ps))))
        (c_str_id p.player_path h.no_nul)
      ∙ load_rounds ps (length (p.player_path ++ (0 ∷ (save_file p.sig_actions ++ save ps)))) p []
          p.player_path [] h hs
          (omega (
            arith,
            length-append p.player_path (0 ∷ (save_file p.sig_actions ++ save ps)),
            length-append (save_file p.sig_actions) (save ps),
            length-save ps,
          ))
          refl h.no_nul
