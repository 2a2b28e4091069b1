-- ===== src/Info/Page.antt =====
-- `ytdl_info_extract_watch_html` of src/info.c: what is cut out of the watch page. The page is a
-- buffer of just its bytes; `none` is a read outside of it, also through the NULL of a search that
-- failed. The result is the number that the code returns, with the context.
pub mod Extract
use libytdl.Base.{
  ℤ, pos, negsuc, ℕ, zero, suc, ◌+◌, List, [], ◌∷◌, Option, none, some, ◌>>=◌, if◌then◌else◌, ltb,
  ◌==◌, length, take, drop, Bytes, codes, strnstr,
}
use libytdl.Info.{Json}
use libytdl.Info.Context.{Tree, InfoCtx}

abbrev pub cver_key : Bytes
cver_key = codes "{\"key\":\"cver\",\"value\":\""

abbrev pub js_key : Bytes
js_key = codes "\"jsUrl\":\""

abbrev pub data_key : Bytes
data_key = codes " ytInitialData = "

abbrev pub player_key : Bytes
player_key = codes " ytInitialPlayerResponse = "

abbrev pub script_end : Bytes
script_end = codes ";</script>"

abbrev pub var_start : Bytes
var_start = codes ";var "

-- The text behind the first place of a key that is known to be there.
unfoldable pub after_key : Bytes → Bytes → Option Bytes
after_key key page = elim (strnstr key page) [
  | none ↦ none
  | some p ↦ some (drop (p + length key) page)
]

-- The loop that copies a value of at most so many bytes to its array, to the closing quote, for
-- which a NUL is written.
unfoldable pub copy_value : ℕ → Bytes → Bytes → Option Bytes
copy_value zero src dst = some dst
copy_value (suc n) [] dst = none
copy_value (suc n) (c ∷ src) dst =
    let rest = copy_value n src (drop 1 dst) in
    if c == b'"' then some (0 ∷ drop 1 dst) else rest >>= λ t. some (c ∷ t)

abbrev pub shorter : ℕ → ℕ → ℕ
shorter a b = if ltb a b then a else b

module _ (tree : Tree) where
  open tree use {json, read}

  abbrev pub with_player : Option json.Value → InfoCtx tree → ℤ × InfoCtx tree
  with_player none info = (negsuc 0, record info { player_response = none })
  with_player (some root) info = (pos 0, record info { player_response = some root })

  -- The cutting of the player response at the nearer of the two ends that were looked for.
  unfoldable pub cut_player : Option ℕ → Option ℕ → Bytes → InfoCtx tree → ℤ × InfoCtx tree
  cut_player none end_2 s info = (pos 5, info)
  cut_player (some end_1) none s info = (pos 6, info)
  cut_player (some end_1) (some end_2) s info =
      with_player (read (take (shorter end_1 end_2) s)) info

  abbrev pub player_at : Option ℕ → Bytes → InfoCtx tree → ℤ × InfoCtx tree
  player_at none page info = (pos 4, info)
  player_at (some p) page info =
      let s = drop (p + length player_key) page in
      cut_player (strnstr script_end s) (strnstr var_start s) s info

  -- The player response of a page whose initial data was read.
  unfoldable pub read_player : Bytes → InfoCtx tree → ℤ × InfoCtx tree
  read_player page info = player_at (strnstr player_key page) page info

  abbrev pub with_initial : Option json.Value → Bytes → InfoCtx tree → ℤ × InfoCtx tree
  with_initial none page info = (pos 3, record info { response = none })
  with_initial (some root) page info = read_player page (record info { response = some root })

  unfoldable pub cut_initial : Option ℕ → Bytes → Bytes → InfoCtx tree → ℤ × InfoCtx tree
  cut_initial none s page info = (pos 2, info)
  cut_initial (some e) s page info = with_initial (read (take e s)) page info

  abbrev pub initial_at : Option ℕ → Bytes → InfoCtx tree → ℤ × InfoCtx tree
  initial_at none page info = (pos 1, info)
  initial_at (some p) page info =
      let s = drop (p + length data_key) page in cut_initial (strnstr script_end s) s page info

  unfoldable pub read_documents : Bytes → InfoCtx tree → ℤ × InfoCtx tree
  read_documents page info = initial_at (strnstr data_key page) page info

  -- `ytdl_info_extract_watch_html`.
  unfoldable pub extract_watch_html : Bytes → InfoCtx tree → Option (ℤ × InfoCtx tree)
  extract_watch_html page info = after_key cver_key page >>= λ s.
      copy_value 20 s info.cver >>= λ cver. after_key js_key page >>= λ s.
      copy_value 150 s info.player_url >>= λ url.
      some (read_documents page (record info { cver = cver; player_url = url }))
