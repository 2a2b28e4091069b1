-- ===== src/Tests/Dash.antt =====
-- The DASH manifest and its downloader on a small document.
use libytdl.Dl.Stream.{load_fork}
use libytdl.Dl.Stream.Fork.{load_fork_foreign}
use libytdl.Dash.Segments.{next_segment-order}
use libytdl.Base.{
  ℕ, ◌+◌, ◌≡◌, ◌≤◌, refl, true, false, List, [], ◌∷◌, ◌++◌, map, All, Option, none, some, Bytes,
  codes, bytes_eq, ret_0,
}
use libytdl.Buffer.{contents}
use libytdl.Dash.{
  Xml, Track, DashCtx, empty_track, init, get_best_representation, pick_sets, atoll, is_named,
  pick_attributes, mime_pick, representation_pick, pick_from, picked, better, count_segments,
  read_representation,
}
use libytdl.Dash.Segments.{results}
use libytdl.Dash.Count.{count_track_complete}
use libytdl.Dash.Format.{
  get_format, count_track, get_root, first_element, get_period, read_tracks, read_track,
}
use libytdl.Dash.Offers.{offers, Among, bandwidth_of, bandwidth_held}
use libytdl.Dash.Choice.{get_format-best}
use libytdl.Dl.Stream.{
  StreamCtx, no_body, no_message, on_complete, segment_connected_cb, segment_request,
}
use libytdl.Dl.Stream.Session.{responses, segments-written}

-- The elements of the document.
pub data Element : Type 0 where
  mpd period video_set audio_set small large sound base_el list_el initial_el segment_el : Element

abbrev sample_name : Element → Bytes
sample_name mpd = codes "MPD"
sample_name period = codes "Period"
sample_name video_set = codes "AdaptationSet"
sample_name audio_set = codes "AdaptationSet"
sample_name small = codes "Representation"
sample_name large = codes "Representation"
sample_name sound = codes "Representation"
sample_name base_el = codes "BaseURL"
sample_name list_el = codes "SegmentList"
sample_name initial_el = codes "Initialization"
sample_name segment_el = codes "SegmentURL"

abbrev sample_children : Element → List Element
sample_children mpd = period ∷ []
sample_children period = video_set ∷ audio_set ∷ []
sample_children video_set = small ∷ large ∷ []
sample_children audio_set = sound ∷ []
sample_children list_el = initial_el ∷ segment_el ∷ []
sample_children base_el = []
sample_children initial_el = []
sample_children segment_el = []
sample_children small = base_el ∷ list_el ∷ []
sample_children large = base_el ∷ list_el ∷ []
sample_children sound = base_el ∷ list_el ∷ []

abbrev sample_properties : Element → List (Bytes × Option Bytes)
sample_properties e = elim e [
  | video_set ↦ (codes "mimeType", some (codes "video/mp4")) ∷ []
  | audio_set ↦ (codes "mimeType", some (codes "audio/mp4")) ∷ []
  | _ ↦ []
]

abbrev sample_prop : Element → Bytes → Option Bytes
sample_prop e p = elim e [
  | small ↦ some (codes "10")
  | large ↦ some (codes "20")
  | sound ↦ some (codes "7")
  | initial_el ↦ some (codes "i")
  | segment_el ↦ some (codes "s")
  | _ ↦ none
]

abbrev pub sample_xml : Xml
sample_xml = record {
  Node = Element;
  is_element = λ n. true;
  name = sample_name;
  children = sample_children;
  properties = sample_properties;
  get_prop = sample_prop;
  content = λ n. some (codes "b");
}

abbrev sample_track : Track sample_xml
sample_track = record (empty_track sample_xml) {
  initial_segment = some (codes "i");
  segment_list = initial_el ∷ segment_el ∷ segment_el ∷ [];
}

abbrev unread_track : Track sample_xml
unread_track = record (empty_track sample_xml) { segment_list = list_el ∷ [] }

count_track_complete_example :
    results sample_xml
      (2 + (count_track sample_xml unread_track).segment_count)
      (count_track sample_xml unread_track)
    ≡ some (codes "i") ∷ some (codes "s") ∷ none ∷ some (codes "i") ∷ []
unfolding is_named bytes_eq count_track count_segments
count_track_complete_example =
    count_track_complete sample_xml (initial_el ∷ segment_el ∷ []) (codes "s" ∷ []) unread_track
      (codes "i") refl refl refl refl refl

abbrev sample_track_read : Element → ℕ → Track sample_xml
sample_track_read rep bandwidth = record {
  rep = some rep;
  bandwidth = bandwidth;
  base_url = some (codes "b");
  segment_path = none;
  initial_segment = some (codes "i");
  segment_list = initial_el ∷ segment_el ∷ [];
  segment_count = 2;
}

abbrev sample_read : DashCtx sample_xml
sample_read = record {
  root = some mpd;
  audio = sample_track_read sound 7;
  video = sample_track_read large 20;
}

sample_get_format :
    get_format sample_xml (get_best_representation sample_xml) (init sample_xml (some (some mpd))).1
    ≡ some (ret_0, sample_read)
unfolding get_format init get_root bytes_eq first_element get_period pick_sets is_named
    pick_attributes mime_pick read_tracks representation_pick pick_from picked
    get_best_representation better atoll count_track read_track count_segments read_representation
sample_get_format = refl

get_format-best_example :
    Among sample_xml (some large) (offers sample_xml true (video_set ∷ audio_set ∷ []))
    × All
        (λ n. bandwidth_of sample_xml n ≤ bandwidth_held sample_xml (some large))
        (offers sample_xml true (video_set ∷ audio_set ∷ []))
unfolding first_element
get_format-best_example =
    get_format-best sample_xml true mpd period sample_read refl sample_get_format

abbrev pub sample_stream : StreamCtx sample_xml
sample_stream = record {
  manifest = record { base = some (codes "m"); len = 1; size = 1 };
  has_on_data = false;
  has_on_segment_complete = false;
  has_on_manifest = false;
  on_pick_filter = get_best_representation sample_xml;
  dash = sample_read;
  manifest_path = [];
  manifest_host = [];
  host = codes "h";
  path = codes "/p";
  is_shutdown = false;
  is_dash_init = true;
  is_video = true;
  pause_between_chunks = false;
  on_body = no_body;
  on_message_complete = no_message;
  written = [];
  calls = [];
}

segments-written_example :
    let c = responses sample_xml 2 (segment_connected_cb sample_xml sample_stream) in
    (c.written
      ≡ []
        ++ map
            (λ s. contents (segment_request sample_xml sample_stream s))
            (codes "i" ∷ codes "s" ∷ []))
    × (c.calls ≡ [] ++ on_complete ∷ [])
unfolding is_named bytes_eq
segments-written_example =
    segments-written sample_xml (codes "s" ∷ []) true sample_stream (codes "i")
      (record { unpaused = refl; silent = refl }) refl refl refl refl

load_fork_foreign_example :
    load_fork sample_xml (λ u. none) (λ s. some (some period)) sample_stream ≡ none
unfolding bytes_eq
load_fork_foreign_example =
    load_fork_foreign sample_xml (λ u. none) (λ s. some (some period)) sample_stream refl

next_segment-order_example :
    results sample_xml 5 sample_track
    ≡ some (codes "i") ∷ some (codes "s") ∷ some (codes "s") ∷ none ∷ some (codes "i") ∷ []
unfolding is_named bytes_eq
next_segment-order_example =
    next_segment-order sample_xml (codes "s" ∷ codes "s" ∷ []) sample_track (codes "i") refl refl
      refl
