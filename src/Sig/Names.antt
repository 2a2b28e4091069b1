-- ===== src/Sig/Names.antt =====
-- How the scan of the function's body in src/sig.c tells the operations by their names.
use libytdl.Base.{
  ℕ, ◌+◌, ◌-◌, ◌^◌, ◌<◌, ◌≡◌, ◌≢◌, refl, sym, ap, ◌∙◌, inl, inr, true, false, [], ◌∷◌, ◌++◌, some,
  if◌then◌else◌, ◌==◌, length, take, drop, take-append, Bytes, arith, Bool-cases, NoNul,
  value-decimal, decimal, decimal-IsDigit, bytes_eq, bytes_eq→≡, bytes_eq_refl, strncmp_eq-texts,
}
use libytdl.Sig.{
  Action, swap, reverse, slice, splice, Range, Keys, str2int, FuncScan, scanned, overflow, size_sub,
  is_key, find_action, tests, add_action, arg_of, close_call, max_sig,
}
use libytdl.Sig.Calls.{str2int_from-value}

-- The range of the object that holds a name.
pub record IsRange (obj : Bytes) (r : Range) (name : Bytes) : Type 0 where
  pub tail : Bytes
  pub starts : drop r.start obj ≡ name ++ tail
  pub stops : r.stop ≡ r.start + length name
  pub nonempty : 0 < length name
  pub no_nul : NoNul name
  pub fits : length name < 2 ^ 62

abbrev pub key_of : Action → Keys → Range
key_of swap keys = keys.swap_key
key_of reverse keys = keys.reverse_key
key_of slice keys = keys.slice_key
key_of splice keys = keys.splice_key

-- The keys stand for names that differ.
pub record AreNamed (obj : Bytes) (keys : Keys) (names : Action → Bytes) : Type 0 where
  pub ranges : (a : Action) → IsRange obj (key_of a keys) (names a)
  pub distinct : (a b : Action) → names a ≡ names b → a ≡ b

size_sub_add : (v n : ℕ) → n < 2 ^ 62 → size_sub (v + n) v ≡ n
size_sub_add v n h = omega arith

-- What is stored as the argument of a call that is printed with `n`.
abbrev pub kept_arg : Action → ℕ → ℕ
kept_arg swap n = n
kept_arg reverse n = 0
kept_arg slice n = n
kept_arg splice n = n

module _ (func obj : Bytes) where
  is_key_lem :
      (r : Range) (s : FuncScan) (x y tail : Bytes)
      → IsRange obj r y
      → drop s.v_start func ≡ x ++ tail
      → s.v_end ≡ s.v_start + length x
      → NoNul x
      → length x < 2 ^ 62
      → is_key func obj r s ≡ some (bytes_eq x y)
  unfolding is_key
  is_key_lem r s x y tail k at stop nn l =
      rw (key_size, call_size, found)
        (elim (Bool-cases (length y == length x)) [
          | inl e ↦ rw (e, at, k.starts) (strncmp_eq-texts x y tail k.tail (ground (arith, e)) nn)
          | inr e ↦ rw e (
              ap some (elim (Bool-cases (bytes_eq x y)) [
                | inl f ↦ absurd (ground (arith, e, ap length (bytes_eq→≡ x y f)))
                | inr f ↦ sym f
              ]))
        ])
    where
      key_size : size_sub r.stop r.start ≡ length y
      key_size = ap (λ n. size_sub n r.start) k.stops ∙ size_sub_add r.start (length y) k.fits

      call_size : size_sub s.v_end s.v_start ≡ length x
      call_size = ap (λ n. size_sub n s.v_start) stop ∙ size_sub_add s.v_start (length x) l

      found : (r.stop == 0) ≡ false
      found = ground (arith, k.stops, k.nonempty)

  module _ (keys : Keys) (names : Action → Bytes) (named : AreNamed obj keys names) where
    -- A call of an operation's name, before other text.
    pub record Calls (s : FuncScan) (a : Action) : Type 0 where
      pub tail : Bytes
      pub at : drop s.v_start func ≡ names a ++ tail
      pub stop : s.v_end ≡ s.v_start + length (names a)

    key_other :
        (s : FuncScan) (a b : Action)
        → Calls s a
        → a ≢ b
        → is_key func obj (key_of b keys) s ≡ some false
    key_other s a b c n =
        is_key_lem (key_of b keys) s (names a) (names b) c.tail (named.ranges b) c.at c.stop
          (named.ranges a).no_nul (named.ranges a).fits
        ∙ ap some (elim (Bool-cases (bytes_eq (names a) (names b))) [
          | inl e ↦ absurd (n (named.distinct a b (bytes_eq→≡ (names a) (names b) e)))
          | inr e ↦ e
        ])

    key_same :
        (s : FuncScan) (a : Action) → Calls s a → is_key func obj (key_of a keys) s ≡ some true
    key_same s a c =
        is_key_lem (key_of a keys) s (names a) (names a) c.tail (named.ranges a) c.at c.stop
          (named.ranges a).no_nul (named.ranges a).fits
        ∙ ap some (bytes_eq_refl (names a))

    find_action_lem :
        (s : FuncScan) (a : Action)
        → Calls s a
        → find_action func obj (tests func obj keys) s ≡ some (some a)
    unfolding find_action
    find_action_lem s swap c = rw (key_same s swap c) refl
    find_action_lem s splice c = rw (key_other s splice swap c (λ e. cc), key_same s splice c) refl
    find_action_lem s slice c =
        rw
          (
            key_other s slice swap c (λ e. cc),
            key_other s slice splice c (λ e. cc),
            key_same s slice c,
          )
          refl
    find_action_lem s reverse c =
        rw
          (
            key_other s reverse swap c (λ e. cc),
            key_other s reverse splice c (λ e. cc),
            key_other s reverse slice c (λ e. cc),
            key_same s reverse c,
          )
          refl

    read_arg :
        (s : FuncScan) (idx n : ℕ) (tail : Bytes)
        → drop s.n_start func ≡ decimal n ++ tail
        → idx ≡ s.n_start + length (decimal n)
        → n < 2 ^ 32
        → str2int (take (idx - s.n_start) (drop s.n_start func)) ≡ n
    unfolding str2int
    read_arg s idx n tail e i l =
        ap (λ k. str2int (take k (drop s.n_start func))) width
        ∙ ap (λ d. str2int (take (length (decimal n)) d)) e
        ∙ ap str2int (take-append (decimal n) tail)
        ∙ str2int_from-value 0 (decimal n) (decimal-IsDigit n)
            (omega (arith, l, value-decimal n (omega (arith, l))))
        ∙ value-decimal n (omega arith)
      where
        width : idx - s.n_start ≡ length (decimal n)
        width = omega (arith, i)

    arg_of_lem :
        (s : FuncScan) (idx n : ℕ) (a : Action)
        → str2int (take (idx - s.n_start) (drop s.n_start func)) ≡ n
        → arg_of func obj idx s a ≡ kept_arg a n
    arg_of_lem s idx n swap e = e
    arg_of_lem s idx n reverse e = refl
    arg_of_lem s idx n slice e = e
    arg_of_lem s idx n splice e = e

    pub close_call_lem :
        (s : FuncScan) (idx n : ℕ) (a : Action) (tail : Bytes)
        → Calls s a
        → drop s.n_start func ≡ decimal n ++ tail
        → idx ≡ s.n_start + length (decimal n)
        → n < 2 ^ 32
        → length s.actions < max_sig
        → close_call func obj keys idx s
          ≡ scanned (record s { actions = s.actions ++ (a, kept_arg a n) ∷ [] })
    unfolding close_call add_action
    close_call_lem s idx n a tail c e i l room =
        ap
          (λ b.
            if b
            then overflow s.actions
            else add_action func obj idx s (find_action func obj (tests func obj keys) s))
          free
        ∙ ap (add_action func obj idx s) (find_action_lem s a c)
        ∙ ap (λ k. scanned (record s { actions = s.actions ++ (a, k) ∷ [] }))
            (arg_of_lem s idx n a (read_arg s idx n tail e i l))
      where
        free : (length s.actions == max_sig) ≡ false
        free = ground (arith, room)
