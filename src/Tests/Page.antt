-- ===== src/Tests/Page.antt =====
-- A watch page, and the JSON of its player response.
use libytdl.Base.{
  Found, ℕ, ◌≡◌, ◌≢◌, refl, arith, Bool, true, false, not, ◌&&◌, ◌==◌, if◌then◌else◌, List, [], ◌∷◌,
  ◌++◌, Option, none, some, Bytes, codes, bytes_eq, All, no_nul, no_nul-NoNul, starts, NotBefore,
  zeros,
}
use libytdl.Info.Context.{Tree, ctx_init}
use libytdl.Info.Response.{extract_formats}
use libytdl.Info.Response.Lookup.{just_read, last_by}
use libytdl.Info.Response.Formats.{Extracts, values_of, extract_formats-Extracts}
use libytdl.Info.Page.{
  cver_key, js_key, data_key, player_key, script_end, var_start, extract_watch_html,
}
use libytdl.Info.Page.Extract.{
  IsPage, stored, outcome, extract_watch_html-IsPage, extract_watch_html_no_key,
}

-- The values of one document.
data Node : Type 0 where
  response_node ps_node sd_node formats_node adaptive_node plain_format sound_format details_node :
      Node
  text_node : Bytes → Node

abbrev node_members : Node → List (Bytes × Node)
node_members response_node =
    (codes "playabilityStatus", ps_node)
    ∷ (codes "streamingData", sd_node)
    ∷ (codes "videoDetails", details_node)
    ∷ []
node_members ps_node = (codes "status", text_node (codes "LOGIN_REQUIRED")) ∷ []
node_members sd_node =
    (codes "expiresInSeconds", text_node (codes "1"))
    ∷ (codes "formats", formats_node)
    ∷ (codes "adaptiveFormats", adaptive_node)
    ∷ []
node_members details_node = (codes "title", text_node (codes "A")) ∷ []
node_members n = []

abbrev node_elements : Node → List Node
node_elements formats_node = plain_format ∷ []
node_elements adaptive_node = plain_format ∷ sound_format ∷ []
node_elements n = []

abbrev node_text : Node → Option Bytes
node_text (text_node t) = some t
node_text n = none

abbrev node_is : Node → Bytes → Bool
node_is (text_node t) s = bytes_eq t s
node_is n s = false

abbrev first_value : Bytes → List (Bytes × Node) → Option Node
first_value key [] = none
first_value key ((k, v) ∷ ms) = if bytes_eq k key then some v else first_value key ms

abbrev sample_tree : Tree
sample_tree = record {
  json = record { Value = Node; get_int = λ v. 0; get_str = node_text };
  members = node_members;
  elements = node_elements;
  obj_get = λ v key. first_value key (node_members v);
  equals_str = node_is;
  Real = ℕ;
  real_zero = 0;
  get_real = λ v. 0;
  read = λ s.
      if bytes_eq s (codes "[]")
      then some formats_node
      else if bytes_eq s (codes "{}")
      then some response_node
      else none;
}

extract_formats-Extracts_example :
    Extracts sample_tree
      (values_of sample_tree response_node)
      (extract_formats sample_tree (just_read sample_tree response_node (ctx_init sample_tree)))
extract_formats-Extracts_example =
    extract_formats-Extracts sample_tree response_node (ctx_init sample_tree)

three_formats :
    values_of sample_tree response_node ≡ some (plain_format ∷ plain_format ∷ sound_format ∷ [])
unfolding last_by bytes_eq
three_formats = refl

has_no_quote : Bytes → Bool
has_no_quote [] = true
has_no_quote (c ∷ s) = not (c == b'"') && has_no_quote s

has_no_quote-All : (s : Bytes) → has_no_quote s ≡ true → All (λ c. c ≢ b'"') s
unfolding has_no_quote
has_no_quote-All [] h = tt
has_no_quote-All (c ∷ s) h = ground (arith, has_no_quote-All s)

-- A page whose reading ends with the status 0.
unfoldable pub is_first : Bytes → Bytes → Bytes → Bool
is_first key [] tail = true
is_first key (c ∷ before) tail = not (starts key (c ∷ (before ++ tail))) && is_first key before tail

is_first-NotBefore :
    (key before tail : Bytes) → is_first key before tail ≡ true → NotBefore key before tail
unfolding is_first
is_first-NotBefore key [] tail h = tt
is_first-NotBefore key (c ∷ before) tail h = ground (arith, is_first-NotBefore key before tail)

pub found_at :
    (key before after : Bytes)
    → no_nul before ≡ true
    → is_first key before (key ++ after) ≡ true
    → Found key (before ++ (key ++ after)) before after
found_at key before after n f = record {
  whole = refl;
  no_nul = no_nul-NoNul before n;
  first = is_first-NotBefore key before (key ++ after) f;
}

abbrev player_end : Bytes
player_end = codes "{};var a=1;</script>"

abbrev data_end_text : Bytes
data_end_text = codes "[];</script>" ++ (player_key ++ player_end)

abbrev url_end : Bytes
url_end = codes "/s/p.js\"}" ++ (data_key ++ data_end_text)

abbrev cver_end : Bytes
cver_end = codes "2.0\"}, " ++ (js_key ++ url_end)

abbrev sample_page : Bytes
sample_page = codes "<html>" ++ (cver_key ++ cver_end)

sample_page-IsPage : IsPage sample_page (codes "2.0") (codes "/s/p.js") (codes "[]") (codes "{}")
unfolding is_first no_nul starts has_no_quote
sample_page-IsPage = record {
  cver_text = record {
    before = codes "<html>";
    after = codes "}, " ++ (js_key ++ url_end);
    found = found_at cver_key (codes "<html>") cver_end refl refl;
    unquoted = has_no_quote-All (codes "2.0") refl;
    fits = omega arith;
  };
  url_text = record {
    before = codes "<html>" ++ (cver_key ++ codes "2.0\"}, ");
    after = codes "}" ++ (data_key ++ data_end_text);
    found = found_at js_key (codes "<html>" ++ (cver_key ++ codes "2.0\"}, ")) url_end refl refl;
    unquoted = has_no_quote-All (codes "/s/p.js") refl;
    fits = omega arith;
  };
  data_before =
      codes "<html>" ++ (cver_key ++ (codes "2.0\"}, " ++ (js_key ++ codes "/s/p.js\"}")));
  data_rest = data_end_text;
  data_after = player_key ++ player_end;
  data_start =
      found_at data_key
        (codes "<html>" ++ (cver_key ++ (codes "2.0\"}, " ++ (js_key ++ codes "/s/p.js\"}"))))
        data_end_text refl refl;
  data_end = found_at script_end (codes "[]") (player_key ++ player_end) refl refl;
  player_before =
      codes "<html>"
      ++ (cver_key
          ++ (codes "2.0\"}, "
              ++ (js_key ++ (codes "/s/p.js\"}" ++ (data_key ++ codes "[];</script>")))));
  player_rest = player_end;
  player_start =
      found_at player_key
        (codes "<html>"
          ++ (cver_key
              ++ (codes "2.0\"}, "
                  ++ (js_key ++ (codes "/s/p.js\"}" ++ (data_key ++ codes "[];</script>"))))))
        player_end refl refl;
  script = codes "{};var a=1";
  script_after = [];
  script_found = found_at script_end (codes "{};var a=1") [] refl refl;
  var = codes "{}";
  var_after = codes "a=1;</script>";
  var_found = found_at var_start (codes "{}") (codes "a=1;</script>") refl refl;
  is_shorter = refl;
}

extract_watch_html-IsPage_example :
    extract_watch_html sample_tree sample_page (ctx_init sample_tree)
    ≡ some (
        outcome sample_tree
          (some formats_node)
          (some response_node)
          (record (ctx_init sample_tree) {
            cver = stored (codes "2.0") (zeros 20);
            player_url = stored (codes "/s/p.js") (zeros 150);
          }))
unfolding bytes_eq
extract_watch_html-IsPage_example =
    extract_watch_html-IsPage sample_tree sample_page (codes "2.0") (codes "/s/p.js") (codes "[]")
      (codes "{}") (ctx_init sample_tree) sample_page-IsPage

extract_watch_html_no_key_example :
    extract_watch_html sample_tree (codes "<html>captcha</html>") (ctx_init sample_tree) ≡ none
unfolding is_first starts
extract_watch_html_no_key_example =
    extract_watch_html_no_key sample_tree (codes "<html>captcha</html>") (ctx_init sample_tree)
      (is_first-NotBefore cver_key (codes "<html>captcha</html>") [] refl)
