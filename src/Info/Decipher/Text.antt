-- ===== src/Info/Decipher/Text.antt =====
-- The actions of src/info.c in a buffer, and on the text that it holds.
use mathlib.Core.List.{reverse-cons}
use native.Mathlib.Nat.{mod-eq_of_lt}
use libytdl.Base.{
  ℕ, zero, suc, ◌+◌, ◌-◌, ◌%◌, ◌^◌, ◌≤◌, ◌<◌, ◌≡◌, ◌≢◌, refl, sym, ap, subst, ◌∙◌, false, List, [],
  ◌∷◌, ◌++◌, append_assoc, reverse, none, some, if◌then◌else◌, ◌==◌, ◌>>=◌, length, length-append,
  length-set, length-drop, length-take, get_elem?, get_elem?-append, set, set-append, take,
  take-append, take-drop, drop, drop-append, Bytes, arith, All-set, All-drop, All-append, NoNul,
  c_str, c_str-text, Returns, Returns-bind,
}
use libytdl.Sig.{Action}
use libytdl.Info.Reverse.{byte_at, strrev, strrev-reverse}
use libytdl.Info.Decipher.{store, swap_in, copy_down, drop_in, reverse_in, act, decipher}
use libytdl.Info.Decipher.Shift.{store_lem, copy_down_lem}

-- The exchange of the first character with another.
abbrev pub exchange : ℕ → Bytes → Bytes
exchange n [] = []
exchange n (c ∷ s) = let i = n % length (c ∷ s) in set (set (c ∷ s) 0 (byte_at (c ∷ s) i)) i c

-- What the player's script does to the text.
abbrev pub acts_on : Action → ℕ → Bytes → Bytes
acts_on Action.reverse n t = reverse t
acts_on Action.swap n t = exchange n t
acts_on Action.splice n t = drop n t
acts_on Action.slice n t = drop n t

abbrev pub acts_on_all : List (Action × ℕ) → Bytes → Bytes
acts_on_all [] t = t
acts_on_all ((a, n) ∷ more) t = acts_on_all more (acts_on a n t)

-- An argument names a character of the text, or a number of characters that it has.
abbrev pub IsWithin : Action → ℕ → Bytes → Type 0
IsWithin Action.reverse n t = Unit
IsWithin Action.swap n t = n < length t
IsWithin Action.splice n t = n ≤ length t
IsWithin Action.slice n t = n ≤ length t

abbrev pub AreWithin : List (Action × ℕ) → Bytes → Type 0
AreWithin [] t = Unit
AreWithin ((a, n) ∷ more) t = IsWithin a n t × AreWithin more (acts_on a n t)

-- A buffer holds a text and its NUL.
pub record DoesHold (buf t : Bytes) : Type 0 where
  pub tail : Bytes
  pub is_at : buf ≡ t ++ 0 ∷ tail
  pub no_nul : NoNul t
  pub fits : length t < 2 ^ 31

byte_at-NoNul : (t : Bytes) (i : ℕ) → NoNul t → i < length t → byte_at t i ≢ 0
byte_at-NoNul [] i h l = absurd (omega arith)
byte_at-NoNul (c ∷ t) zero (p, h) l = p
byte_at-NoNul (c ∷ t) (suc i) (p, h) l = byte_at-NoNul t i h (omega arith)

get_elem?-byte_at : (t : Bytes) (i : ℕ) → i < length t → get_elem? t i ≡ some (byte_at t i)
get_elem?-byte_at [] i h = absurd (omega arith)
get_elem?-byte_at (c ∷ t) zero h = refl
get_elem?-byte_at (c ∷ t) (suc i) h = get_elem?-byte_at t i (omega arith)

-- The removal of characters.
drop_in_lem :
    (n : ℕ) (t tail : Bytes)
    → NoNul t
    → length t < 2 ^ 31
    → n ≤ length t
    → (junk : Bytes) × (drop_in n (t ++ 0 ∷ tail) ≡ some (drop n t ++ 0 ∷ junk))
unfolding drop_in
drop_in_lem n t tail h l w =
    let (junk, e) =
      copy_down_lem k n 0 [] (take n t) (drop n t ++ 0 ∷ tail) (omega (arith, length-take n t)) refl
        (omega (arith, length-append (drop n t) (0 ∷ tail), length-append (drop n t) (0 ∷ []))) in
    (
      junk,
      ap (λ s. copy_down n 0 ((length s + 2 ^ 64 - n + 1) % 2 ^ 64) (t ++ 0 ∷ tail))
            (c_str-text t tail h)
          ∙ ap (λ m. copy_down n 0 m (t ++ 0 ∷ tail)) rounds
          ∙ ap (copy_down n 0 k) (
              ap (λ s. s ++ 0 ∷ tail) (sym (take-drop n t))
              ∙ append_assoc (take n t) (drop n t) (0 ∷ tail))
          ∙ e
          ∙ ap (λ s. some (s ++ junk)) taken
          ∙ ap some (append_assoc (drop n t) (0 ∷ []) junk),
    )
  where
    k : ℕ
    k = length (drop n t ++ 0 ∷ [])

    rounds : (length t + 2 ^ 64 - n + 1) % 2 ^ 64 ≡ k
    rounds = omega (arith, l, w, length-append (drop n t) (0 ∷ []), length-drop n t)

    taken : take k (drop n t ++ 0 ∷ tail) ≡ drop n t ++ 0 ∷ []
    taken =
        ap (take k) (sym (append_assoc (drop n t) (0 ∷ []) tail))
        ∙ take-append (drop n t ++ 0 ∷ []) tail

-- The exchange, where its argument is a place of the text.
swap_in_lem :
    (n c : ℕ) (s tail : Bytes)
    → NoNul (c ∷ s)
    → n < length (c ∷ s)
    → swap_in n (c ∷ s ++ 0 ∷ tail) ≡ some (exchange n (c ∷ s) ++ 0 ∷ tail)
unfolding swap_in
swap_in_lem n c s tail h w =
    ap
      (λ u.
        if length u == 0
        then none
        else (get_elem? (t ++ 0 ∷ tail) (n % length u) >>= λ d.
            store (t ++ 0 ∷ tail) 0 d >>= λ b. store b n c))
      (c_str-text t tail h)
    ∙ ap
        (λ b.
          if b
          then none
          else (get_elem? (t ++ 0 ∷ tail) (n % length t) >>= λ d.
              store (t ++ 0 ∷ tail) 0 d >>= λ b. store b n c))
        {x = length t == 0} {y = false} (ground arith)
    ∙ ap (λ m. m >>= λ d. store (t ++ 0 ∷ tail) 0 d >>= λ b. store b n c) read
    ∙ ap (λ m. m >>= λ b. store b n c) (store_lem (t ++ 0 ∷ tail) 0 (byte_at t i) (omega arith))
    ∙ store_lem (set (t ++ 0 ∷ tail) 0 (byte_at t i)) n c
        (omega (arith, w, length-set (t ++ 0 ∷ tail) 0 (byte_at t i), length-append t (0 ∷ tail)))
    ∙ ap (λ b. some (set b n c)) (set-append t (0 ∷ tail) 0 (byte_at t i) (omega arith))
    ∙ ap some (
        set-append (set t 0 (byte_at t i)) (0 ∷ tail) n c
          (omega (arith, w, length-set t 0 (byte_at t i))))
    ∙ ap (λ k. some (set (set t 0 (byte_at t i)) k c ++ 0 ∷ tail)) (sym same)
  where
    t : Bytes
    t = c ∷ s

    i : ℕ
    i = n % length t

    same : i ≡ n
    same = mod-eq_of_lt w

    read : get_elem? (t ++ 0 ∷ tail) i ≡ some (byte_at t i)
    read =
        get_elem?-append t (0 ∷ tail) i (omega (arith, same, w))
        ∙ get_elem?-byte_at t i (omega (arith, same, w))

reverse-NoNul : (t : Bytes) → NoNul t → NoNul (reverse t)
reverse-NoNul [] h = tt
reverse-NoNul (c ∷ t) (p, h) =
    subst NoNul (sym (reverse-cons c t))
      (All-append (λ c. c ≢ 0) (reverse t) (c ∷ []) (reverse-NoNul t h) (p, tt))

length-reverse : (t : Bytes) → length (reverse t) ≡ length t
length-reverse [] = refl
length-reverse (c ∷ t) =
    ap length (reverse-cons c t)
    ∙ omega (arith, length-append (reverse t) (c ∷ []), length-reverse t)

dropped-DoesHold :
    (n : ℕ) (buf t : Bytes)
    → DoesHold buf t
    → n ≤ length t
    → Returns (λ b. DoesHold b (drop n t)) (drop_in n buf)
dropped-DoesHold n buf t h w =
    let (junk, e) = drop_in_lem n t h.tail h.no_nul h.fits w in
    subst (Returns (λ b. DoesHold b (drop n t))) (sym (ap (drop_in n) h.is_at ∙ e)) (record {
      tail = junk;
      is_at = refl;
      no_nul = All-drop (λ c. c ≢ 0) n t h.no_nul;
      fits = omega (arith, h.fits, length-drop n t);
    })

-- One action.
act-DoesHold :
    (a : Action) (n : ℕ) (buf t : Bytes)
    → DoesHold buf t
    → IsWithin a n t
    → Returns (λ b. DoesHold b (acts_on a n t)) (act a n buf)
unfolding act reverse_in
act-DoesHold Action.reverse n buf t h w = record {
  tail = h.tail;
  is_at =
      ap (λ s. strrev (c_str s) ++ drop (length (c_str s)) s) h.is_at
      ∙ ap (λ s. strrev s ++ drop (length s) (t ++ 0 ∷ h.tail)) (c_str-text t h.tail h.no_nul)
      ∙ ap (λ s. s ++ drop (length t) (t ++ 0 ∷ h.tail)) (strrev-reverse t h.fits)
      ∙ ap (λ s. reverse t ++ s) (drop-append t (0 ∷ h.tail));
  no_nul = reverse-NoNul t h.no_nul;
  fits = omega (arith, h.fits, length-reverse t);
}
act-DoesHold Action.swap n buf [] h w = absurd (omega arith)
act-DoesHold Action.swap n buf (c ∷ s) h w =
    subst (Returns (λ b. DoesHold b (exchange n (c ∷ s))))
      (sym (ap (swap_in n) h.is_at ∙ swap_in_lem n c s h.tail h.no_nul w))
      (record {
        tail = h.tail;
        is_at = refl;
        no_nul =
            All-set (λ c. c ≢ 0) (set (c ∷ s) 0 (byte_at (c ∷ s) (n % length (c ∷ s))))
              (n % length (c ∷ s)) c
              (All-set (λ c. c ≢ 0) (c ∷ s) 0 (byte_at (c ∷ s) (n % length (c ∷ s))) h.no_nul
                (byte_at-NoNul (c ∷ s) (n % length (c ∷ s)) h.no_nul
                  (omega (arith, w, mod-eq_of_lt w))))
              h.no_nul.0;
        fits = omega (
          arith,
          h.fits,
          length-set (set (c ∷ s) 0 (byte_at (c ∷ s) (n % length (c ∷ s)))) (n % length (c ∷ s)) c,
          length-set (c ∷ s) 0 (byte_at (c ∷ s) (n % length (c ∷ s))),
        );
      })
act-DoesHold Action.splice n buf t h w = dropped-DoesHold n buf t h w
act-DoesHold Action.slice n buf t h w = dropped-DoesHold n buf t h w

-- If a buffer holds a text of less than 2^31 bytes and its NUL, and each argument of an exchange is a
-- place of the text that is there then, and each of a removal is not more than its length, then no
-- access is outside of the buffer, and after all the actions it holds what the player's script makes
-- of the text.
pub decipher-DoesHold :
    (actions : List (Action × ℕ)) (buf t : Bytes)
    → DoesHold buf t
    → AreWithin actions t
    → Returns (λ b. DoesHold b (acts_on_all actions t)) (decipher actions buf)
unfolding decipher
decipher-DoesHold [] buf t h w = h
decipher-DoesHold ((a, n) ∷ more) buf t h (w, ws) =
    Returns-bind (λ b. DoesHold b (acts_on a n t))
      (λ b. DoesHold b (acts_on_all more (acts_on a n t))) (act a n buf) _
      (act-DoesHold a n buf t h w) (λ b g. decipher-DoesHold more b (acts_on a n t) g ws)
