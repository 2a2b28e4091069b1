-- ===== src/Tests/Net.antt =====
-- The request builders at concrete inputs.
use libytdl.Base.{arith, ◌+◌, ◌≤◌, ◌≡◌, refl, true, length, Bytes, codes, concat, c_str, decimal}
use libytdl.Net.Request.{
  Slice, innertube_body, innertube_head, innertube_content_len, request_innertube_player,
  range_text,
}
use libytdl.Net.Innertube.{request_innertube_player_cut}

abbrev sample_id : Bytes
sample_id = codes "dQw4w9WgXcQ"

abbrev sample_path : Slice
sample_path = record { bytes = codes "/videoplayback?x"; size = 14 }

abbrev sample_host : Slice
sample_host = record { bytes = codes "youtube.com/a"; size = 11 }

range_open : range_text 131_073 0 ≡ codes "131073-"
unfolding range_text concat decimal
range_open = refl

request_innertube_player_cut_example :
    (length (innertube_body sample_id (codes "2.1")) ≡ innertube_content_len (codes "2.1"))
    × ((request_innertube_player true sample_id (codes "2.1")).len + 19
        ≤ length (innertube_head (innertube_content_len (codes "2.1")))
          + length (innertube_body sample_id (codes "2.1")))
unfolding c_str
request_innertube_player_cut_example =
    request_innertube_player_cut sample_id (codes "2.1") refl (omega arith)
