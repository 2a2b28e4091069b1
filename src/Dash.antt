-- ===== src/Dash.antt =====
-- The DASH manifest of src/dash.c and include/ytdl/dash.h: the choice of one representation for the
-- video and one for the audio, and the iterators over their segments. The XML tree is libxml's, a
-- parameter. The fields `v_…` and `a_…` of `ytdl_dash_ctx_t` are one record, `Track`, twice. A
-- pointer to a node that the code moves along `next` is the list of that node and its later
-- siblings, and `[]` is NULL. A result `none` is a read through NULL.
pub mod Segments
pub mod Offers
pub mod Best
pub mod Choice
pub mod Count
pub mod Format
use Prim.Native.Nat.{min}
use libytdl.Base.{
  ℕ, zero, suc, ◌+◌, ◌-◌, ◌*◌, ◌^◌, Bool, true, false, not, ◌&&◌, ◌||◌, List, [], ◌∷◌, Option, none,
  some, if◌then◌else◌, ltb, leb, ◌==◌, take, Bytes, codes, bytes_eq, ◌>>=◌, Ret, ret_0, ret_minus_1,
}

-- What the code uses of libxml.
pub record Xml : Type 1 where
  pub Node : Type 0
  -- `type == XML_ELEMENT_NODE`.
  pub is_element : Node → Bool
  pub name : Node → Bytes
  -- The children, along `next`.
  pub children : Node → List Node
  -- The attributes along `next`: each one's name, and the text of its children.
  pub properties : Node → List (Bytes × Option Bytes)
  -- `xmlGetProp`.
  pub get_prop : Node → Bytes → Option Bytes
  -- `xmlNodeListGetString` of the children.
  pub content : Node → Option Bytes

is_digit : ℕ → Bool
is_digit c = leb b'0' c && leb c b'9'

is_space : ℕ → Bool
is_space c = c == b' ' || (leb 9 c && leb c 13)

digits_from : ℕ → Bytes → ℕ
unfolding is_digit
digits_from n [] = n
digits_from n (c ∷ s) = if is_digit c then digits_from (n * 10 + (c - b'0')) s else n

number_in : Bytes → ℕ
unfolding is_space digits_from
number_in [] = 0
number_in (c ∷ s) =
    if is_space c then number_in s else if c == b'+' then digits_from 0 s else digits_from 0 (c ∷ s)

-- `atoll` of glibc, which gives LLONG_MAX for a number that a `long long` does not hold; with 0 for a
-- negative one, which the code takes for no number either.
unfoldable pub atoll : Bytes → ℕ
unfolding number_in
atoll s = min (2 ^ 63 - 1) (number_in s)

module _ (xml : Xml) where
  open xml use {Node, is_element, name, children, properties, get_prop, content}

  pub record Track : Type 0 where
    pub rep : Option Node
    pub bandwidth : ℕ
    pub base_url : Option Bytes
    pub segment_path : Option Bytes
    pub initial_segment : Option Bytes
    pub segment_list : List Node
    pub segment_count : ℕ

  -- `ytdl_dash_ctx_t`, with the document as its root element.
  pub record DashCtx : Type 0 where
    pub root : Option Node
    pub audio : Track
    pub video : Track

  abbrev pub empty_track : Track
  empty_track = record {
    rep = none;
    bandwidth = 0;
    base_url = none;
    segment_path = none;
    initial_segment = none;
    segment_list = [];
    segment_count = 0;
  }

  -- `ytdl_dash_ctx_init`, for a document that libxml reads; `none` is the document it refuses.
  unfoldable pub init : Option (Option Node) → Ret × DashCtx
  init none = (ret_minus_1, record { root = none; audio = empty_track; video = empty_track })
  init (some root) = (ret_0, record { root = root; audio = empty_track; video = empty_track })

  abbrev pub track : Bool → DashCtx → Track
  track true ctx = ctx.video
  track false ctx = ctx.audio

  abbrev pub set_track : Bool → Track → DashCtx → DashCtx
  set_track true t ctx = record ctx { video = t }
  set_track false t ctx = record ctx { audio = t }

  -- An element of the name.
  unfoldable pub is_named : Bytes → Node → Bool
  is_named n node = is_element node && bytes_eq (name node) n

  -- `ytdl_dash_get_best_representation`.
  unfoldable pub better : Bool → Option Bytes → DashCtx → DashCtx × Bool
  better is_video none ctx = (ctx, false)
  better is_video (some attr) ctx =
      if ltb (track is_video ctx).bandwidth (atoll attr)
      then (set_track is_video (record (track is_video ctx) { bandwidth = atoll attr }) ctx, true)
      else (ctx, false)

  unfoldable pub get_best_representation : DashCtx → Node → Node → Bool → DashCtx × Bool
  get_best_representation ctx adaptation representation is_video =
      better is_video (get_prop representation (codes "bandwidth")) ctx

  -- The user's `on_pick_filter`.
  abbrev pub Filter : Type 0
  Filter = DashCtx → Node → Node → Bool → DashCtx × Bool

  unfoldable pub picked : Bool → Node → DashCtx × Bool → DashCtx
  picked is_video node (ctx, true) =
      set_track is_video (record (track is_video ctx) { rep = some node }) ctx
  picked is_video node (ctx, false) = ctx

  -- `ytdl__dash_representation_pick`, from a child on.
  unfoldable pub pick_from : Filter → Node → Bool → List Node → DashCtx → DashCtx
  pick_from filter adaptation is_video [] ctx = ctx
  pick_from filter adaptation is_video (node ∷ rest) ctx =
      pick_from filter adaptation is_video rest (
        if is_named (codes "Representation") node
        then picked is_video node (filter ctx adaptation node is_video)
        else ctx)

  unfoldable pub representation_pick : Filter → DashCtx → Node → Bool → DashCtx
  representation_pick filter ctx adaptation is_video =
      pick_from filter adaptation is_video (children adaptation) ctx

  -- The body of the loop over the attributes of an adaptation set, at a `mimeType`.
  unfoldable pub mime_pick : Filter → Node → Option Bytes → DashCtx → Option DashCtx
  mime_pick filter node none ctx = none
  mime_pick filter node (some mime) ctx = some (
      if bytes_eq (take 5 mime) (codes "audio")
      then representation_pick filter ctx node false
      else if bytes_eq (take 5 mime) (codes "video")
      then representation_pick filter ctx node true
      else ctx)

  unfoldable pub pick_attributes :
      Filter → Node → List (Bytes × Option Bytes) → DashCtx → Option DashCtx
  pick_attributes filter node [] ctx = some ctx
  pick_attributes filter node ((n, value) ∷ rest) ctx =
      (if bytes_eq n (codes "mimeType") then mime_pick filter node value ctx else some ctx) >>= λ c.
      pick_attributes filter node rest c

  -- The loop over the children of the period.
  unfoldable pub pick_sets : Filter → List Node → DashCtx → Option DashCtx
  pick_sets filter [] ctx = some ctx
  pick_sets filter (node ∷ rest) ctx =
      (if is_named (codes "AdaptationSet") node
        then pick_attributes filter node (properties node) ctx
        else some ctx)
      >>= λ c. pick_sets filter rest c

  -- The loop over the children of the chosen representation.
  unfoldable pub read_representation : List Node → Track → Track
  read_representation [] t = t
  read_representation (node ∷ rest) t = read_representation rest (
      if is_named (codes "BaseURL") node
      then record t { base_url = content node }
      else if is_named (codes "SegmentList") node
      then record t { segment_list = node ∷ rest }
      else t)

  -- The loop over the children of its segment list.
  unfoldable pub count_segments : List Node → Track → Track
  count_segments [] t = t
  count_segments (node ∷ rest) t = count_segments rest (
      if is_named (codes "Initialization") node
      then record t {
        initial_segment = get_prop node (codes "sourceURL");
        segment_count = suc t.segment_count;
      }
      else if is_named (codes "SegmentURL") node
      then record t { segment_count = suc t.segment_count }
      else t)
