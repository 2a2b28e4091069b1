-- ===== src/Dash/Best.antt =====
-- The choice by `ytdl_dash_get_best_representation` of src/dash.c over a whole period.
use libytdl.Base.{
  ℕ, ◌≤◌, ◌<◌, ◌≡◌, refl, sym, subst, ◌∙◌, inl, inr, Bool, true, false, List, [], ◌∷◌, ◌++◌, Option,
  none, some, if◌then◌else◌, ltb, ltb→lt, ltb→ge, Bytes, codes, bytes_eq, take, bytes_eq_other, not,
  arith, Bool-cases, ◌>>=◌, Ensures, Ensures-bind, Ensures-map,
}
use libytdl.Dash.{
  Xml, Track, DashCtx, track, is_named, atoll, better, get_best_representation, picked, pick_from,
  representation_pick, mime_pick, pick_attributes, pick_sets,
}
use libytdl.Dash.Offers.{
  bandwidth_in, bandwidth_of, representations, is_kind, offers_by, offers, Improves, Improves-refl,
  Improves-trans,
}

module _ (xml : Xml) where
  open xml use {Node, children, properties, get_prop}

  -- The step at one representation.
  pick_one : Bool → Node → Option Bytes → DashCtx xml → DashCtx xml
  pick_one v node attr ctx = picked xml v node (better xml v attr ctx)

  lost-Improves :
      (node : Node) (t : Track xml)
      → bandwidth_of xml node ≤ t.bandwidth
      → Improves xml (node ∷ []) t t
  lost-Improves node t l = (omega arith, (l, tt), λ h. h, inl refl)

  won-Improves :
      (node : Node) (t : Track xml) (k : ℕ)
      → bandwidth_of xml node ≡ k
      → t.bandwidth < k
      → Improves xml (node ∷ []) t (record t { rep = some node; bandwidth = k })
  won-Improves node t k e l = (omega arith, (omega arith, tt), λ h. e, inr (inl refl))

  pick_one-Improves :
      (v : Bool) (node : Node) (ctx : DashCtx xml) (attr : Option Bytes)
      → bandwidth_of xml node ≡ bandwidth_in xml attr
      → Improves xml (node ∷ []) (track xml v ctx) (track xml v (pick_one v node attr ctx))
  unfolding pick_one better picked
  pick_one-Improves v node ctx none e = lost-Improves node (track xml v ctx) (omega arith)
  pick_one-Improves true node ctx (some attr) e =
      elim (Bool-cases (ltb ctx.video.bandwidth (atoll attr))) [
        | inl l ↦
            rw l (
              won-Improves node ctx.video (atoll attr) e
                (ltb→lt ctx.video.bandwidth (atoll attr) l))
        | inr l ↦ rw l (
            lost-Improves node ctx.video (
              subst (λ n. n ≤ ctx.video.bandwidth) (sym e)
                (ltb→ge ctx.video.bandwidth (atoll attr) l)))
      ]
  pick_one-Improves false node ctx (some attr) e =
      elim (Bool-cases (ltb ctx.audio.bandwidth (atoll attr))) [
        | inl l ↦
            rw l (
              won-Improves node ctx.audio (atoll attr) e
                (ltb→lt ctx.audio.bandwidth (atoll attr) l))
        | inr l ↦ rw l (
            lost-Improves node ctx.audio (
              subst (λ n. n ≤ ctx.audio.bandwidth) (sym e)
                (ltb→ge ctx.audio.bandwidth (atoll attr) l)))
      ]

  pick_one_other :
      (v : Bool) (node : Node) (attr : Option Bytes) (ctx : DashCtx xml)
      → track xml (not v) (pick_one v node attr ctx) ≡ track xml (not v) ctx
  unfolding pick_one better picked
  pick_one_other true node none ctx = refl
  pick_one_other false node none ctx = refl
  pick_one_other true node (some attr) ctx = ground arith
  pick_one_other false node (some attr) ctx = ground arith

  pick_from-Improves :
      (v : Bool) (ad : Node) (nodes : List Node) (ctx : DashCtx xml)
      → Improves xml
          (representations xml nodes)
          (track xml v ctx)
          (track xml v (pick_from xml (get_best_representation xml) ad v nodes ctx))
  unfolding pick_from get_best_representation pick_one
  pick_from-Improves v ad [] ctx = Improves-refl xml (track xml v ctx)
  pick_from-Improves v ad (node ∷ rest) ctx =
      elim (Bool-cases (is_named xml (codes "Representation") node)) [
        | inl e ↦ rw e (
            Improves-trans xml (node ∷ []) (representations xml rest) (track xml v ctx)
              (track xml v (pick_one v node (get_prop node (codes "bandwidth")) ctx))
              (track xml v (
                pick_from xml (get_best_representation xml) ad v rest
                  (pick_one v node (get_prop node (codes "bandwidth")) ctx)))
              (pick_one-Improves v node ctx (get_prop node (codes "bandwidth")) refl)
              (pick_from-Improves v ad rest
                (pick_one v node (get_prop node (codes "bandwidth")) ctx)))
        | inr e ↦ rw e (pick_from-Improves v ad rest ctx)
      ]

  pick_from_other :
      (v : Bool) (ad : Node) (nodes : List Node) (ctx : DashCtx xml)
      → track xml (not v) (pick_from xml (get_best_representation xml) ad v nodes ctx)
        ≡ track xml (not v) ctx
  unfolding pick_from get_best_representation pick_one
  pick_from_other v ad [] ctx = refl
  pick_from_other v ad (node ∷ rest) ctx =
      elim (Bool-cases (is_named xml (codes "Representation") node)) [
        | inl e ↦ rw e (
            pick_from_other v ad rest (pick_one v node (get_prop node (codes "bandwidth")) ctx)
            ∙ pick_one_other v node (get_prop node (codes "bandwidth")) ctx)
        | inr e ↦ rw e (pick_from_other v ad rest ctx)
      ]

  -- The kinds exclude each other.
  is_kind_not :
      (mime : Bytes) → is_kind xml false (some mime) ≡ true → is_kind xml true (some mime) ≡ false
  unfolding bytes_eq
  is_kind_not mime h = bytes_eq_other (take 5 mime) (codes "audio") (codes "video") h refl

  abbrev choose : Node → Option Bytes → DashCtx xml → Option (DashCtx xml)
  choose = mime_pick xml (get_best_representation xml)

  mime_pick-Improves :
      (v : Bool) (ad : Node) (value : Option Bytes) (ctx : DashCtx xml)
      → Ensures
          (λ c.
            Improves xml
              (if is_kind xml v value then representations xml (children ad) else [])
              (track xml v ctx)
              (track xml v c))
          (choose ad value ctx)
  unfolding mime_pick representation_pick
  mime_pick-Improves v ad none ctx = tt
  mime_pick-Improves true ad (some mime) ctx = elim (Bool-cases (is_kind xml false (some mime))) [
    | inl e ↦
        rw (e, is_kind_not mime e, pick_from_other false ad (children ad) ctx)
          (Improves-refl xml ctx.video)
    | inr e ↦ rw e (elim (Bool-cases (is_kind xml true (some mime))) [
      | inl f ↦ rw f (pick_from-Improves true ad (children ad) ctx)
      | inr f ↦ rw f (Improves-refl xml ctx.video)
    ])
  ]
  mime_pick-Improves false ad (some mime) ctx = elim (Bool-cases (is_kind xml false (some mime))) [
    | inl e ↦ rw e (pick_from-Improves false ad (children ad) ctx)
    | inr e ↦ rw e (elim (Bool-cases (is_kind xml true (some mime))) [
      | inl f ↦ rw (f, pick_from_other true ad (children ad) ctx) (Improves-refl xml ctx.audio)
      | inr f ↦ rw f (Improves-refl xml ctx.audio)
    ])
  ]

  Chain : Bool → List Node → DashCtx xml → DashCtx xml → Type 0
  Chain v reps ctx c = Improves xml reps (track xml v ctx) (track xml v c)

  -- Two runs, one after the other.
  Improves-bind :
      (v : Bool) (a b : List Node) (ctx : DashCtx xml) (m : Option (DashCtx xml))
      (f : DashCtx xml → Option (DashCtx xml))
      → Ensures (Chain v a ctx) m
      → ((c : DashCtx xml) → Ensures (Chain v b c) (f c))
      → Ensures (Chain v (a ++ b) ctx) (m >>= f)
  unfolding Chain
  Improves-bind v a b ctx m f h k =
      Ensures-bind (Chain v a ctx) (Chain v (a ++ b) ctx) m f h (λ c p.
        Ensures-map (Chain v b c) (Chain v (a ++ b) ctx) (f c)
          (λ d q. Improves-trans xml a b (track xml v ctx) (track xml v c) (track xml v d) p q)
          (k c))

  pick_attributes-Improves :
      (v : Bool) (ad : Node) (props : List (Bytes × Option Bytes)) (ctx : DashCtx xml)
      → Ensures
          (Chain v (offers_by xml v (representations xml (children ad)) props) ctx)
          (pick_attributes xml (get_best_representation xml) ad props ctx)
  unfolding pick_attributes Chain
  pick_attributes-Improves v ad [] ctx = Improves-refl xml (track xml v ctx)
  pick_attributes-Improves v ad ((n, value) ∷ rest) ctx =
      Improves-bind v _ (offers_by xml v (representations xml (children ad)) rest) ctx _ _
        (elim (Bool-cases (bytes_eq n (codes "mimeType"))) [
          | inl e ↦ rw e (mime_pick-Improves v ad value ctx)
          | inr e ↦ rw e (Improves-refl xml (track xml v ctx))
        ])
        (pick_attributes-Improves v ad rest)

  -- The choice over the children of a period.
  pub pick_sets-Improves :
      (v : Bool) (nodes : List Node) (ctx : DashCtx xml)
      → Ensures
          (λ c. Improves xml (offers xml v nodes) (track xml v ctx) (track xml v c))
          (pick_sets xml (get_best_representation xml) nodes ctx)
  unfolding pick_sets Chain
  pick_sets-Improves v [] ctx = Improves-refl xml (track xml v ctx)
  pick_sets-Improves v (node ∷ rest) ctx =
      Improves-bind v _ (offers xml v rest) ctx _ _
        (elim (Bool-cases (is_named xml (codes "AdaptationSet") node)) [
          | inl e ↦ rw e (pick_attributes-Improves v node (properties node) ctx)
          | inr e ↦ rw e (Improves-refl xml (track xml v ctx))
        ])
        (pick_sets-Improves v rest)
