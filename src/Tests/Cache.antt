-- ===== src/Tests/Cache.antt =====
-- The file of a small player cache.
use libytdl.Base.{
  ℕ, zero, suc, ◌≡◌, refl, arith, true, false, [], ◌∷◌, ◌++◌, some, Bytes, codes, c_str, no_nul,
  no_nul-NoNul,
}
use libytdl.Sig.File.{Actions, Engine, save_file, size_bytes}
use libytdl.Dl.Cache.{Player, save, load, load_from, read_path, load-save}

abbrev copies : ℕ → ℕ → Bytes
copies zero c = []
copies (suc n) c = c ∷ copies n c

abbrev sample_engine : Engine
sample_engine = record { malloc_ok = λ n. true; fresh = λ n. copies n 7; reads = λ code. false }

abbrev sample_actions : Bytes → Actions
sample_actions code = record { head = copies 164 1; bc_len = 3; bytecode = some code }

abbrev sample_player : Bytes → Bytes → Player
sample_player path code = record { player_path = path; sig_actions = sample_actions code }

abbrev first_player : Player
first_player = sample_player (codes "/s/player/a.js") (codes "abc")

abbrev second_player : Player
second_player = sample_player (codes "/b.js") (codes "de" ++ 0 ∷ [])

load-save_example :
    load sample_engine (save (first_player ∷ second_player ∷ []))
    ≡ some (true, first_player ∷ second_player ∷ [])
unfolding no_nul
load-save_example =
    load-save sample_engine first_player (second_player ∷ [])
      (record {
        code = codes "abc";
        actions = record {
          holds = refl;
          length-head = refl;
          length-code = refl;
          fits = omega arith;
          allocates = refl;
          length-fresh = refl;
        };
        no_nul = no_nul-NoNul (codes "/s/player/a.js") refl;
        nonempty = omega arith;
        fits = omega arith;
      })
      (
        record {
          code = codes "de" ++ 0 ∷ [];
          actions = record {
            holds = refl;
            length-head = refl;
            length-code = refl;
            fits = omega arith;
            allocates = refl;
            length-fresh = refl;
          };
          no_nul = no_nul-NoNul (codes "/b.js") refl;
          nonempty = omega arith;
          fits = omega arith;
        },
        tt,
      )

-- A path of 100 bytes is saved and not loaded, and an empty cache is saved and not loaded.
long_path_lost :
    load sample_engine (save (sample_player (copies 100 b'a') (codes "abc") ∷ []))
    ≡ some (false, [])
unfolding load load_from read_path save save_file size_bytes c_str
long_path_lost = refl

empty_lost : load sample_engine (save []) ≡ some (false, [])
unfolding load load_from read_path save
empty_lost = refl
