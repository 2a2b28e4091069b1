-- ===== src/Dash/Count.antt =====
-- The count of the segments that `ytdl_dash_get_format` of src/dash.c makes, beside the iterators.
use libytdl.Base.{
  ℕ, suc, ◌+◌, ◌≡◌, refl, ap, ◌∙◌, true, false, List, [], ◌∷◌, ◌++◌, map, length-map, Option, none,
  some, inl, inr, if◌then◌else◌, length, Bytes, codes, bytes_eq, bytes_eq_other, arith, Bool-cases,
}
use libytdl.Dash.{Xml, Track, is_named, count_segments}
use libytdl.Dash.Segments.{medias, results, next_segment-order}
use libytdl.Dash.Format.{count_track, children_of_head}

module _ (xml : Xml) where
  open xml use {Node, is_element, name, get_prop, children}

  -- The `sourceURL` attributes of the initialization elements, in order.
  abbrev pub initial_urls : List Node → List (Option Bytes)
  initial_urls [] = []
  initial_urls (node ∷ rest) =
      if is_named xml (codes "Initialization") node
      then get_prop node (codes "sourceURL") ∷ initial_urls rest
      else initial_urls rest

  abbrev last_or : Option Bytes → List (Option Bytes) → Option Bytes
  last_or u [] = u
  last_or u (v ∷ vs) = last_or v vs

  initial_no_segment :
      (node : Node)
      → is_named xml (codes "Initialization") node ≡ true
      → is_named xml (codes "SegmentURL") node ≡ false
  unfolding is_named bytes_eq
  initial_no_segment node h = ground (
    arith,
    bytes_eq_other (name node) (codes "Initialization") (codes "SegmentURL") (ground arith) refl,
  )

  abbrev counted : Track xml → Option Bytes → ℕ → Track xml
  counted t initial n = record t { initial_segment = initial; segment_count = n }

  count_segments_lem :
      (nodes : List Node) (t : Track xml)
      → count_segments xml nodes t
        ≡ counted t
            (last_or t.initial_segment (initial_urls nodes))
            (length (initial_urls nodes) + length (medias xml nodes) + t.segment_count)
  unfolding count_segments
  count_segments_lem [] t = ap (counted t t.initial_segment) (omega arith)
  count_segments_lem (node ∷ rest) t =
      elim (Bool-cases (is_named xml (codes "Initialization") node)) [
        | inl e ↦
            rw (e, initial_no_segment node e)
              (count_segments_lem rest _ ∙ ap (counted t _) (omega arith))
        | inr e ↦ rw e (elim (Bool-cases (is_named xml (codes "SegmentURL") node)) [
          | inl f ↦ rw f (count_segments_lem rest _ ∙ ap (counted t _) (omega arith))
          | inr f ↦ rw f (count_segments_lem rest t)
        ])
      ]

  abbrev counted_track : List Node → List Bytes → Track xml → Bytes → Track xml
  counted_track nodes ms t i = record t {
    initial_segment = some i;
    segment_count = suc (length ms);
    segment_list = nodes;
  }

  count_track_lem :
      (nodes : List Node) (ms : List Bytes) (t : Track xml) (i : Bytes)
      → children_of_head xml t.segment_list ≡ nodes
      → t.segment_count ≡ 0
      → initial_urls nodes ≡ some i ∷ []
      → medias xml nodes ≡ map some ms
      → count_track xml t ≡ counted_track nodes ms t i
  unfolding count_track
  count_track_lem nodes ms t i e g h k =
      rw (e, count_segments_lem nodes t, h, k, g, length-map (λ m. some m) ms)
        (ap (λ n. record t { initial_segment = some i; segment_list = nodes; segment_count = n })
          (omega arith))

  -- On a track that has been read, with one initialization element and a path on each of the segment
  -- elements, the counted number of calls of the iterator yields each segment once, the initial one
  -- first and the others in order, and the call after these yields NULL.
  pub count_track_complete :
      (nodes : List Node) (ms : List Bytes) (t : Track xml) (i : Bytes)
      → children_of_head xml t.segment_list ≡ nodes
      → t.segment_path ≡ none
      → t.segment_count ≡ 0
      → initial_urls nodes ≡ some i ∷ []
      → medias xml nodes ≡ map some ms
      → results xml (suc (suc (count_track xml t).segment_count)) (count_track xml t)
        ≡ some i ∷ map some ms ++ none ∷ some i ∷ []
  count_track_complete nodes ms t i e f g h k = rw (count_track_lem nodes ms t i e g h k) (
      ap (λ n. results xml n (counted_track nodes ms t i)) (omega arith)
      ∙ next_segment-order xml ms (counted_track nodes ms t i) i f refl k)
