-- ===== src/Tests/Start.antt =====
-- What is started for a video with a format with a picture and one with sound, and for one without a
-- title.
use libytdl.Base.{
  arith, ℕ, ◌≡◌, refl, inl, true, false, List, [], ◌∷◌, Option, none, some, Bytes, codes, All,
  bytes_eq, c_str,
}
use libytdl.Info.{Format, populate, populate_from, populate_key, last_byte}
use libytdl.Info.Context.{Tree, Entry, zero_format, ctx_init}
use libytdl.Info.Select.{populate_first, populate_entry}
use libytdl.Info.Response.Lookup.{last_by, populated}
use libytdl.Info.Response.Known.{IsFresh}
use libytdl.Info.Decode.{urldecode, decode_from, read_escape}
use libytdl.Info.Url.{get_format_url, of_format, decode_into}
use libytdl.Cli.Start.{Calls, Name, info_complete}
use libytdl.Cli.Start.Chosen.{IsUsable}
use libytdl.Cli.Start.Refused.{info_complete_refused}
use libytdl.Tests.Dash.{sample_xml, sample_stream}
use libytdl.Tests.Media.{sample_url, sample_ctx}

data Value : Type 0 where
  titled untitled streaming details formats adaptive picture sound : Value
  text : Bytes → Value
  number : ℕ → Value

abbrev members_of : Value → List (Bytes × Value)
members_of titled = (codes "streamingData", streaming) ∷ (codes "videoDetails", details) ∷ []
members_of untitled = (codes "streamingData", streaming) ∷ []
members_of streaming = (codes "formats", formats) ∷ (codes "adaptiveFormats", adaptive) ∷ []
members_of details = (codes "title", text (codes "a/b")) ∷ []
members_of picture = (codes "url", text (codes "https://h/p?q")) ∷ (codes "width", number 5) ∷ []
members_of sound =
    (codes "url", text (codes "https://h/s?q"))
    ∷ (codes "bitrate", number 7)
    ∷ (codes "audioChannels", number 2)
    ∷ (codes "audioQuality", text (codes "LOW"))
    ∷ []
members_of v = []

abbrev elements_of : Value → List Value
elements_of adaptive = sound ∷ picture ∷ []
elements_of v = []

abbrev int_of : Value → ℕ
int_of (number n) = n
int_of v = 0

abbrev str_of : Value → Option Bytes
str_of (text t) = some t
str_of v = none

abbrev start_tree : Tree
start_tree = record {
  json = record { Value = Value; get_int = int_of; get_str = str_of };
  members = members_of;
  elements = elements_of;
  obj_get = λ v key. none;
  equals_str = λ v s. false;
  Real = ℕ;
  real_zero = 0;
  get_real = λ v. 0;
  read = λ s. none;
}

abbrev sound_format : Format
sound_format = record zero_format {
  flags = record { populated = true; has_vid = false; has_aud = true };
  url_untouched = some (codes "https://h/s?q");
  bitrate = 7;
  audio_channels = 2;
  audio_quality = 2;
}

abbrev picture_format : Format
picture_format = record zero_format {
  flags = record { populated = true; has_vid = true; has_aud = false };
  url_untouched = some (codes "https://h/p?q");
  width = 5;
}

abbrev start_entries : List (Entry start_tree)
start_entries =
    record { val = sound; url = none; format = sound_format }
    ∷ record { val = picture; url = none; format = picture_format }
    ∷ []

abbrev url_for : Entry start_tree → Bytes
url_for e = elim e.format.url_untouched [ none ↦ [] | some u ↦ u ]

abbrev all_calls : Calls
all_calls = record {
  video_ok = true;
  dash_ok = true;
  vid_m_ok = true;
  dl_ctx_ok = true;
  aud_m_ok = true;
  dl_ctx_a_ok = true;
  client_ok = true;
  manifest_ok = true;
}

abbrev print_title : Name start_tree sample_xml → Bytes
print_title n = n.title

start_readable :
    populate_first start_tree 2 (
      record { val = sound; url = none; format = zero_format }
      ∷ (record { val = picture; url = none; format = zero_format } ∷ []))
    ≡ some start_entries
unfolding populate_first populate_entry populate populate_from populate_key bytes_eq last_byte
start_readable = refl

start_urls :
    All
      (λ e.
        get_format_url [] start_tree.json (members_of e.val) (λ u. none) e.url e.format
        ≡ some (some (url_for e)))
      start_entries
unfolding get_format_url of_format populate decode_into urldecode decode_from read_escape c_str
start_urls = (refl, (refl, tt))

abbrev start_usable :
    IsUsable start_tree sample_xml
      (λ u. some sample_url)
      (λ s. none)
      print_title
      (λ u. none)
      all_calls
      []
      (sound ∷ picture ∷ [])
start_usable = record {
  entries = start_entries;
  readable = start_readable;
  small = ((omega arith, omega arith), ((omega arith, omega arith), tt));
  rated = refl;
  url = url_for;
  urls = start_urls;
}

start-IsFresh : IsFresh start_tree (ctx_init start_tree)
start-IsFresh = record {
  unpopulated = refl;
  undetailed = refl;
  untitled = refl;
  no_details = refl;
  no_manifest = refl;
  no_formats = refl;
}

info_complete_refused_example :
    info_complete start_tree sample_xml
      (λ u. some sample_url)
      (λ s. none)
      print_title
      (λ u. none)
      all_calls
      []
      false
      (codes "id")
      sample_stream
      (sample_ctx 1)
      (sample_ctx 2)
      (populated start_tree untitled (ctx_init start_tree))
    ≡ none
unfolding last_by bytes_eq
info_complete_refused_example =
    info_complete_refused start_tree sample_xml (λ u. some sample_url) (λ s. none) print_title
      (λ u. none) all_calls [] sample_stream (sample_ctx 1) (sample_ctx 2) untitled
      (ctx_init start_tree) (codes "id") start-IsFresh refl (inl refl)
