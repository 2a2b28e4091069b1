-- ===== src/Dash/Offers.antt =====
-- What a period of a manifest offers for a track, beside the choice that src/dash.c makes.
use libytdl.Base.{
  ℕ, ◌≤◌, ◌≡◌, refl, sym, subst, ◌∙◌, ◌⊎◌, inl, inr, Bool, true, false, List, [], ◌∷◌, ◌++◌, Option,
  none, some, if◌then◌else◌, Bytes, codes, bytes_eq, take, All, All-append, arith,
}
use libytdl.Dash.{Xml, Track, is_named, atoll}

module _ (xml : Xml) where
  open xml use {Node, children, properties, get_prop}

  abbrev pub bandwidth_in : Option Bytes → ℕ
  bandwidth_in none = 0
  bandwidth_in (some attr) = atoll attr

  -- The bandwidth that a representation states, or 0.
  abbrev pub bandwidth_of : Node → ℕ
  bandwidth_of node = bandwidth_in (get_prop node (codes "bandwidth"))

  abbrev pub representations : List Node → List Node
  representations [] = []
  representations (node ∷ rest) =
      if is_named xml (codes "Representation") node
      then node ∷ representations rest
      else representations rest

  abbrev pub prefix : Bool → Bytes
  prefix true = codes "video"
  prefix false = codes "audio"

  abbrev pub is_kind : Bool → Option Bytes → Bool
  is_kind v none = false
  is_kind v (some mime) = bytes_eq (take 5 mime) (prefix v)

  -- The representations that an adaptation set offers for the video, or for the audio.
  abbrev pub offers_by : Bool → List Node → List (Bytes × Option Bytes) → List Node
  offers_by v reps [] = []
  offers_by v reps ((n, value) ∷ rest) =
      (if bytes_eq n (codes "mimeType") then (if is_kind v value then reps else []) else [])
      ++ offers_by v reps rest

  -- All that a period offers.
  abbrev pub offers : Bool → List Node → List Node
  offers v [] = []
  offers v (node ∷ rest) =
      (if is_named xml (codes "AdaptationSet") node
        then offers_by v (representations (children node)) (properties node)
        else [])
      ++ offers v rest

  abbrev pub bandwidth_held : Option Node → ℕ
  bandwidth_held none = 0
  bandwidth_held (some n) = bandwidth_of n

  abbrev pub Among : Option Node → List Node → Type 0
  Among rep [] = ⊥
  Among rep (n ∷ ns) = (rep ≡ some n) ⊎ Among rep ns

  -- The track `u` holds the best of what the track `t` held and of the representations given.
  abbrev pub Improves : List Node → Track xml → Track xml → Type 0
  Improves reps t u =
      (t.bandwidth ≤ u.bandwidth)
      × All (λ n. bandwidth_of n ≤ u.bandwidth) reps
      × (bandwidth_held t.rep ≡ t.bandwidth → bandwidth_held u.rep ≡ u.bandwidth)
      × ((u.rep ≡ t.rep) ⊎ Among u.rep reps)

  Among-left : (r : Option Node) (a b : List Node) → Among r a → Among r (a ++ b)
  Among-left r [] b h = absurd h
  Among-left r (n ∷ a) b (inl e) = inl e
  Among-left r (n ∷ a) b (inr h) = inr (Among-left r a b h)

  Among-right : (r : Option Node) (a b : List Node) → Among r b → Among r (a ++ b)
  Among-right r [] b h = h
  Among-right r (n ∷ a) b h = inr (Among-right r a b h)

  All-mono :
      (k l : ℕ) (ns : List Node)
      → k ≤ l
      → All (λ n. bandwidth_of n ≤ k) ns
      → All (λ n. bandwidth_of n ≤ l) ns
  All-mono k l [] h _ = tt
  All-mono k l (n ∷ ns) h (p, q) = (omega arith, All-mono k l ns h q)

  Among-trans :
      (a b : List Node) (t u w : Track xml)
      → (u.rep ≡ t.rep) ⊎ Among u.rep a
      → (w.rep ≡ u.rep) ⊎ Among w.rep b
      → (w.rep ≡ t.rep) ⊎ Among w.rep (a ++ b)
  Among-trans a b t u w h (inr k) = inr (Among-right w.rep a b k)
  Among-trans a b t u w (inl e) (inl f) = inl (f ∙ e)
  Among-trans a b t u w (inr h) (inl f) =
      inr (Among-left w.rep a b (subst (λ r. Among r a) (sym f) h))

  pub Improves-refl : (t : Track xml) → Improves [] t t
  Improves-refl t = (omega arith, tt, λ h. h, inl refl)

  pub Improves-trans :
      (a b : List Node) (t u w : Track xml)
      → Improves a t u
      → Improves b u w
      → Improves (a ++ b) t w
  Improves-trans a b t u w (l, p, h, m) (k, q, g, n) = (
    omega arith,
    All-append (λ n. bandwidth_of n ≤ w.bandwidth) a b (All-mono u.bandwidth w.bandwidth a k p) q,
    λ e. g (h e),
    Among-trans a b t u w m n,
  )
