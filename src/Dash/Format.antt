-- ===== src/Dash/Format.antt =====
-- `ytdl_dash_get_format` of src/dash.c: the tracks of a manifest.
use libytdl.Base.{
  Bool, true, false, not, ◌&&◌, List, [], ◌∷◌, Option, none, some, if◌then◌else◌, codes, bytes_eq,
  ◌>>=◌, Ret, ret_0, ret_minus_1,
}
use libytdl.Dash.{Xml, Track, DashCtx, Filter, pick_sets, read_representation, count_segments}

abbrev pub is_some {ℓ} : {A : Type ℓ} → Option A → Bool
is_some none = false
is_some (some a) = true

module _ (xml : Xml) where
  open xml use {Node, is_element, name, children}

  -- The first element of the children; `none` when the code reads the name of NULL.
  unfoldable pub first_element : List Node → Option Node
  first_element [] = none
  first_element (node ∷ rest) = if is_element node then some node else first_element rest

  -- A track without a segment list has no first child to count.
  abbrev pub children_of_head : List Node → List Node
  children_of_head [] = []
  children_of_head (node ∷ rest) = children node

  abbrev pub has_segments : List Node → Bool
  has_segments [] = false
  has_segments (node ∷ rest) = true

  -- What is read of the chosen representation.
  unfoldable pub read_track : Option Node → Track xml → Track xml
  read_track none t = t
  read_track (some rep) t = read_representation xml (children rep) t

  abbrev pub is_usable : Track xml → Bool
  is_usable t = is_some t.base_url && has_segments t.segment_list

  -- The counting of the segments, and the move to the first child of the list.
  unfoldable pub count_track : Track xml → Track xml
  count_track t = record (count_segments xml (children_of_head t.segment_list) t) {
    segment_list = children_of_head t.segment_list;
  }

  -- From the choice of the representations on.
  unfoldable pub read_tracks : DashCtx xml → Ret × DashCtx xml
  read_tracks ctx =
      if not (is_some ctx.video.rep && is_some ctx.audio.rep)
      then (ret_minus_1, ctx)
      else let video = read_track ctx.video.rep ctx.video in
        let audio = read_track ctx.audio.rep ctx.audio in
        if not (is_usable audio && is_usable video)
        then (ret_minus_1, record ctx { video = video; audio = audio })
        else (ret_0, record ctx { video = count_track video; audio = count_track audio })

  unfoldable pub get_period : Filter xml → Node → DashCtx xml → Option (Ret × DashCtx xml)
  get_period filter period ctx =
      if not (bytes_eq (name period) (codes "Period"))
      then some (ret_minus_1, ctx)
      else pick_sets xml filter (children period) ctx >>= λ c. some (read_tracks c)

  unfoldable pub get_root : Filter xml → Node → DashCtx xml → Option (Ret × DashCtx xml)
  get_root filter root ctx =
      if not (bytes_eq (name root) (codes "MPD"))
      then some (ret_minus_1, ctx)
      else first_element (children root) >>= λ period. get_period filter period ctx

  -- `ytdl_dash_get_format`.
  unfoldable pub get_format : Filter xml → DashCtx xml → Option (Ret × DashCtx xml)
  get_format filter ctx = ctx.root >>= λ root. get_root filter root ctx
