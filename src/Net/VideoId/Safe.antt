-- ===== src/Net/VideoId/Safe.antt =====
-- The reads of `ytdl_net_get_id_from_url` of src/net.c, through the query.
use libytdl.Base.{
  ℕ, zero, suc, ◌+◌, ◌-◌, ◌≤◌, ◌<◌, ◌≡◌, refl, ap, ◌∙◌, ◌⊎◌, inl, inr, Bool, true, false, ◌&&◌,
  ◌||◌, List, [], ◌∷◌, map, Option, none, some, if◌then◌else◌, ◌==◌, leb, leb→le, ◌>>=◌, length,
  length-take, length-drop, get_elem?, take, drop, Bytes, arith, Bool-cases, All, All-drop, Returns,
  Returns-bind, Returns-map,
}
use libytdl.Net.Url.{Field}
use libytdl.Net.Request.{id_len}
use libytdl.Net.VideoId.{
  yt_valid_id_map, byte_at, are_valid, copy_id, Found, parse_error, not_found, found, id_at, is_v,
  search_query, from_query,
}

-- The characters of an id.
abbrev pub is_id_char : ℕ → Bool
is_id_char c =
    (leb b'0' c && leb c b'9')
    || (leb b'A' c && leb c b'Z')
    || (leb b'a' c && leb c b'z')
    || c == b'-'
    || c == b'_'

abbrev pub IsIdText : Bytes → Type 0
IsIdText = All (λ c. is_id_char c ≡ true)

abbrev pub IsAscii : Bytes → Type 0
IsAscii = All (λ c. c < 128)

count_up : ℕ → ℕ → List ℕ
count_up k zero = []
count_up k (suc n) = k ∷ count_up (suc k) n

get_elem?-count_up :
    (f : ℕ → Bool) (k n i : ℕ) → i < n → get_elem? (map f (count_up k n)) i ≡ some (f (k + i))
unfolding count_up
get_elem?-count_up f k zero i h = absurd (omega arith)
get_elem?-count_up f k (suc n) zero h = ap (λ c. some (f c)) (omega arith)
get_elem?-count_up f k (suc n) (suc i) h =
    get_elem?-count_up f (suc k) n i (omega arith) ∙ ap (λ c. some (f c)) (omega arith)

-- The table is of these characters.
table_lem : yt_valid_id_map ≡ map is_id_char (count_up 0 128)
unfolding count_up
table_lem = refl

zero_more : (c : ℕ) → 0 + c ≡ c
zero_more c = omega arith

pub table_at : (c : ℕ) → c < 128 → get_elem? yt_valid_id_map c ≡ some (is_id_char c)
table_at c h =
    ap (λ t. get_elem? t c) table_lem
    ∙ get_elem?-count_up is_id_char 0 128 c h
    ∙ ap (λ k. some (is_id_char k)) (zero_more c)

-- The test of `n` characters does not fault, and accepts these.
pub are_valid_lem :
    (n : ℕ) (s : Bytes)
    → n ≤ length s
    → IsAscii s
    → Returns (λ b. (b ≡ false) ⊎ IsIdText (take n s)) (are_valid n s)
unfolding are_valid
are_valid_lem zero s h a = inr tt
are_valid_lem (suc n) [] h a = absurd (omega arith)
are_valid_lem (suc n) (c ∷ s) h (p, a) = rw (table_at c p) (elim (Bool-cases (is_id_char c)) [
  | inl e ↦ rw e (
      Returns-map (λ b. (b ≡ false) ⊎ IsIdText (take n s)) _ (are_valid n s)
        (λ b q. elim q [ inl f ↦ inl f | inr t ↦ inr (refl, t) ])
        (are_valid_lem n s (omega arith) a))
  | inr e ↦ rw e (inl refl)
])

-- A result, and an id where the text allows it.
abbrev pub IsText : Found → Type 0
IsText parse_error = Unit
IsText not_found = Unit
IsText (found id) = (length id ≡ id_len) × IsIdText id

pub copy_id_lem : (s : Bytes) → id_len ≤ length s → copy_id s ≡ some (take id_len s)
unfolding copy_id
copy_id_lem s h = ground arith

pub length-id : (s : Bytes) → id_len ≤ length s → length (take id_len s) ≡ id_len
length-id s h = omega (arith, length-take id_len s)

pub id_at-IsText : (s : Bytes) → id_len ≤ length s → IsAscii s → Returns IsText (id_at s)
unfolding id_at
id_at-IsText s h a =
    Returns-bind (λ b. (b ≡ false) ⊎ IsIdText (take id_len s)) IsText (are_valid id_len s) _
      (are_valid_lem id_len s h a)
      (λ b q.
        elim b
            as (λ b.
              ((b ≡ false) ⊎ IsIdText (take id_len s))
              → Returns IsText
                  (if b then (copy_id s >>= λ id. some (found id)) else some not_found)) [
                    | true ↦ λ q.
                        rw (copy_id_lem s h)
                          (length-id s h, elim q [ inl f ↦ absurd cc | inr t ↦ t ])
                    | false ↦ λ q. tt
                  ]
          q)

pub byte_at-Returns : (i : ℕ) (s : Bytes) → i < length s → Returns (λ _. Unit) (byte_at i s)
unfolding byte_at
byte_at-Returns i [] h = absurd (omega arith)
byte_at-Returns zero (c ∷ s) h = tt
byte_at-Returns (suc i) (c ∷ s) h = byte_at-Returns i s (omega arith)

pub is_v-Returns : (s : Bytes) → 2 ≤ length s → Returns (λ _. Unit) (is_v s)
unfolding is_v byte_at
is_v-Returns [] h = absurd (omega arith)
is_v-Returns (c ∷ []) h = absurd (omega arith)
is_v-Returns (c ∷ d ∷ s) h = elim (Bool-cases (c == b'v')) [ inl e ↦ rw e tt | inr e ↦ rw e tt ]

-- A test that does not fault, before two ways to go on.
pub test-Returns :
    (P : Found → Type 0) (m : Option Bool) (x y : Option Found)
    → Returns (λ _. Unit) m
    → Returns P x
    → Returns P y
    → Returns P (m >>= λ b. if b then x else y)
test-Returns P none x y h p q = absurd h
test-Returns P (some true) x y h p q = p
test-Returns P (some false) x y h p q = q

search_query-IsText :
    (n : ℕ) (s : Bytes) → n + id_len + 1 ≤ length s → IsAscii s → Returns IsText (search_query n s)
unfolding search_query
search_query-IsText zero s h a = tt
search_query-IsText (suc n) s h a =
    test-Returns IsText (is_v s) _ _ (is_v-Returns s (omega arith))
      (id_at-IsText (drop 2 s) (omega (arith, length-drop 2 s)) (All-drop (λ c. c < 128) 2 s a))
      (search_query-IsText n (drop 1 s) (omega (arith, length-drop 1 s))
        (All-drop (λ c. c < 128) 1 s a))

pub from_query-IsText :
    (buf : Bytes) (query : Field)
    → query.off + query.len < length buf
    → IsAscii buf
    → Returns IsText (from_query buf query)
unfolding from_query
from_query-IsText buf query h a =
    let s = drop query.off buf in
    let l = length-drop query.off buf in
    let as_s = All-drop (λ c. c < 128) query.off buf a in
    elim (Bool-cases (leb (id_len + 2) query.len)) [
      | inl e ↦ rw e (
          test-Returns IsText (is_v s) _ _
            (is_v-Returns s (omega (arith, leb→le (id_len + 2) query.len e)))
            (id_at-IsText (drop 2 s)
              (omega (arith, length-drop 2 s, leb→le (id_len + 2) query.len e))
              (All-drop (λ c. c < 128) 2 s as_s))
            (search_query-IsText (query.len - id_len) s
              (omega (arith, leb→le (id_len + 2) query.len e)) as_s))
      | inr e ↦ rw e tt
    ]
