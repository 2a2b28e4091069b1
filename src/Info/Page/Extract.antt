-- ===== src/Info/Page/Extract.antt =====
-- What src/info.c cuts out of a watch page that has all that it looks for, and of one without a key.
use libytdl.Base.{
  Found, strnstr-Found, drop-Found, take-Found, ℤ, pos, negsuc, inl, inr, Bool-cases, ℕ, zero, suc,
  ◌+◌, ◌<◌, ◌≡◌, ◌≢◌, refl, sym, ap, ◌∙◌, arith, [], ◌∷◌, ◌++◌, Option, none, some, ◌>>=◌,
  if◌then◌else◌, ltb, length, take, drop, Bytes, All, strnstr, strnstr_nowhere, NotBefore,
}
use libytdl.Info.Context.{Tree, InfoCtx}
use libytdl.Info.Page.{
  cver_key, js_key, data_key, player_key, script_end, var_start, after_key, copy_value, shorter,
  with_player, cut_player, player_at, read_player, with_initial, cut_initial, initial_at,
  read_documents, extract_watch_html,
}

after_key-Found :
    (c : ℕ) (find text before after : Bytes)
    → c ≢ 0
    → Found (c ∷ find) text before after
    → after_key (c ∷ find) text ≡ some after
unfolding after_key
after_key-Found c find text before after n f =
    ap
      (λ m. elim m as (λ m. Option Bytes) [
        | none ↦ none
        | some p ↦ some (drop (p + length (c ∷ find)) text)
      ])
      (strnstr-Found c find text before after n f)
    ∙ ap some (drop-Found (c ∷ find) text before after f)

drop_more : (n : ℕ) (s : Bytes) → drop (suc n) (drop 1 s) ≡ drop (suc (suc n)) s
drop_more n [] = refl
drop_more n (c ∷ []) = refl
drop_more n (c ∷ (d ∷ s)) = refl

-- A value with a quote behind it, in an array that holds it and a NUL.
copy_value_lem :
    (n : ℕ) (value rest dst : Bytes)
    → All (λ c. c ≢ b'"') value
    → length value < n
    → copy_value n (value ++ (b'"' ∷ rest)) dst
      ≡ some (value ++ (0 ∷ drop (suc (length value)) dst))
unfolding copy_value
copy_value_lem zero value rest dst h l = absurd (omega (arith, l))
copy_value_lem (suc n) [] rest dst h l = refl
copy_value_lem (suc n) (c ∷ value) rest dst (e, h) l = ground (
  arith,
  copy_value_lem n value rest (drop 1 dst) h (omega (arith, l)),
  drop_more (length value) dst,
)

-- An array with a text and its NUL at its front.
abbrev pub stored : Bytes → Bytes → Bytes
stored value dst = value ++ (0 ∷ drop (suc (length value)) dst)

-- A text up to the closing quote that fits in an array of `size` bytes.
pub record Quoted (size : ℕ) (key page value : Bytes) : Type 0 where
  pub before : Bytes
  pub after : Bytes
  pub found : Found key page before (value ++ (b'"' ∷ after))
  pub unquoted : All (λ c. c ≢ b'"') value
  pub fits : length value < size

-- A page with the two texts, the initial data and the player response.
pub record IsPage (page cver url initial player : Bytes) : Type 0 where
  pub cver_text : Quoted 20 cver_key page cver
  pub url_text : Quoted 150 js_key page url
  pub data_before : Bytes
  pub data_rest : Bytes
  pub data_after : Bytes
  pub data_start : Found data_key page data_before data_rest
  pub data_end : Found script_end data_rest initial data_after
  pub player_before : Bytes
  pub player_rest : Bytes
  pub player_start : Found player_key page player_before player_rest
  -- The text before the script's end, and before a further variable.
  pub script : Bytes
  pub script_after : Bytes
  pub script_found : Found script_end player_rest script script_after
  pub var : Bytes
  pub var_after : Bytes
  pub var_found : Found var_start player_rest var var_after
  pub is_shorter : player ≡ (if ltb (length script) (length var) then script else var)

value_lem :
    {A : Type 0} (size c : ℕ) (find page value dst : Bytes) (next : Bytes → Option A)
    → c ≢ 0
    → Quoted size (c ∷ find) page value
    → (after_key (c ∷ find) page >>= λ s. copy_value size s dst >>= λ v. next v)
      ≡ next (stored value dst)
value_lem size c find page value dst next n q =
    ap (λ m. m >>= λ s. copy_value size s dst >>= λ v. next v)
      (after_key-Found c find page q.before _ n q.found)
    ∙ ap (λ m. m >>= λ v. next v) (copy_value_lem size value q.after dst q.unquoted q.fits)

module _ (tree : Tree) where
  open tree use {json, read}

  -- The result and the context, by what the JSON library makes of the two documents.
  abbrev pub outcome : Option json.Value → Option json.Value → InfoCtx tree → ℤ × InfoCtx tree
  outcome none player info = (pos 3, record info { response = none })
  outcome (some root) none info =
      (negsuc 0, record info { response = some root; player_response = none })
  outcome (some root) (some player) info =
      (pos 0, record info { response = some root; player_response = some player })

  cut_lem :
      (s script script_after var var_after player : Bytes) (info : InfoCtx tree)
      → Found script_end s script script_after
      → Found var_start s var var_after
      → player ≡ (if ltb (length script) (length var) then script else var)
      → cut_player tree (strnstr script_end s) (strnstr var_start s) s info
        ≡ with_player tree (read player) info
  unfolding cut_player
  cut_lem s script script_after var var_after player info f g e =
      ap (λ m. cut_player tree m (strnstr var_start s) s info)
        (strnstr-Found _ _ s script script_after (λ e. omega (arith, e)) f)
      ∙ ap (λ m. cut_player tree (some (length script)) m s info)
          (strnstr-Found _ _ s var var_after (λ e. omega (arith, e)) g)
      ∙ ap (λ t. with_player tree (read t) info) (nearer ∙ sym e)
    where
      nearer :
          take (shorter (length script) (length var)) s
          ≡ (if ltb (length script) (length var) then script else var)
      nearer = elim (Bool-cases (ltb (length script) (length var))) [
        | inl e ↦ rw e (take-Found script_end s script script_after f)
        | inr e ↦ rw e (take-Found var_start s var var_after g)
      ]

  player_lem :
      (page cver url initial player : Bytes) (info : InfoCtx tree)
      → IsPage page cver url initial player
      → read_player tree page info ≡ with_player tree (read player) info
  unfolding read_player
  player_lem page cver url initial player info p =
      ap (λ m. player_at tree m page info)
        (strnstr-Found _ _ page p.player_before p.player_rest (λ e. omega (arith, e))
          p.player_start)
      ∙ ap (λ s. cut_player tree (strnstr script_end s) (strnstr var_start s) s info)
          (drop-Found player_key page p.player_before p.player_rest p.player_start)
      ∙ cut_lem p.player_rest p.script p.script_after p.var p.var_after player info p.script_found
          p.var_found p.is_shorter

  initial_lem :
      (page cver url initial player : Bytes) (info : InfoCtx tree)
      → IsPage page cver url initial player
      → read_documents tree page info ≡ with_initial tree (read initial) page info
  unfolding read_documents cut_initial
  initial_lem page cver url initial player info p =
      ap (λ m. initial_at tree m page info)
        (strnstr-Found _ _ page p.data_before p.data_rest (λ e. omega (arith, e)) p.data_start)
      ∙ ap (λ s. cut_initial tree (strnstr script_end s) s page info)
          (drop-Found data_key page p.data_before p.data_rest p.data_start)
      ∙ ap (λ m. cut_initial tree m p.data_rest page info)
          (strnstr-Found _ _ p.data_rest initial p.data_after (λ e. omega (arith, e)) p.data_end)
      ∙ ap (λ t. with_initial tree (read t) page info)
          (take-Found script_end p.data_rest initial p.data_after p.data_end)

  outcome_lem :
      (m : Option json.Value) (page cver url initial player : Bytes) (info : InfoCtx tree)
      → IsPage page cver url initial player
      → with_initial tree m page info ≡ outcome m (read player) info
  outcome_lem none page cver url initial player info p = refl
  outcome_lem (some root) page cver url initial player info p =
      player_lem page cver url initial player (record info { response = some root }) p
      ∙ parsed (read player)
    where
      parsed :
          (m : Option json.Value)
          → with_player tree m (record info { response = some root }) ≡ outcome (some root) m info
      parsed none = refl
      parsed (some v) = refl

-- For a page in which each of the four keys has a first place with no NUL before it, the version and
-- the player's path end with a quote and fit in their arrays with a NUL, the initial data ends with
-- the script, and the player response has both an end of the script and a further variable behind it:
-- nothing is read outside the page, the two texts are stored with a NUL, and the two documents are
-- parsed from just their texts, the player response up to the nearer end. The result is 0 if both are
-- JSON, 3 if the initial data is not, where the documentation in info.h says 1, and else -1.
pub extract_watch_html-IsPage :
    (tree : Tree) (page cver url initial player : Bytes) (info : InfoCtx tree)
    → IsPage page cver url initial player
    → extract_watch_html tree page info
      ≡ some (
          outcome tree
            (tree.read initial)
            (tree.read player)
            (record info { cver = stored cver info.cver; player_url = stored url info.player_url }))
unfolding extract_watch_html
extract_watch_html-IsPage tree page cver url initial player info p =
    let ctx : InfoCtx tree = record info {
      cver = stored cver info.cver;
      player_url = stored url info.player_url;
    } in
    value_lem 20 _ _ page cver info.cver _ (λ e. omega (arith, e)) p.cver_text
    ∙ value_lem 150 _ _ page url info.player_url _ (λ e. omega (arith, e)) p.url_text
    ∙ ap some (
        initial_lem tree page cver url initial player ctx p
        ∙ outcome_lem tree (tree.read initial) page cver url initial player ctx p)

-- A page without the key of the version is read through NULL.
pub extract_watch_html_no_key :
    (tree : Tree) (page : Bytes) (info : InfoCtx tree)
    → NotBefore cver_key page []
    → extract_watch_html tree page info ≡ none
unfolding extract_watch_html after_key
extract_watch_html_no_key tree page info n =
    ap
      (λ m.
        (elim m as (λ m. Option Bytes) [
          | none ↦ none
          | some p ↦ some (drop (p + length cver_key) page)
        ])
        >>= λ s. copy_value 20 s info.cver >>= λ cver. after_key js_key page >>= λ s.
            copy_value 150 s info.player_url >>= λ url.
            some (read_documents tree page (record info { cver = cver; player_url = url })))
      (strnstr_nowhere _ _ page n)
