-- ===== src/Tests/Media.antt =====
-- The media downloader and the request builders at concrete inputs.
use libytdl.Base.{ℕ, ◌≡◌, refl, true, false, [], ◌∷◌, ◌++◌, arith, length, codes}
use libytdl.Net.Url.{Url}
use libytdl.Dl.Media.{MediaCtx, chunk_complete, on_complete, connected_cb}
use libytdl.Dl.Media.Ranges.{session_ranges, Streams, requests, respond, session-written}

abbrev pub sample_url : Url
sample_url = record {
  host = record { off = 8; len = 1 };
  path = record { off = 9; len = 2 };
  query = record { off = 12; len = 1 };
}

abbrev pub sample_ctx : ℕ → MediaCtx
sample_ctx size = record {
  url = sample_url;
  format_url = codes "https://h/p?q";
  format_content_length = size;
  has_on_data = false;
  has_on_complete = true;
  has_on_chunk_complete = false;
  pause_between_chunks = false;
  is_chunked = true;
  want_redirect = false;
  redirect_was_location = false;
  last_chunk_end = 0;
  on_message_complete = chunk_complete;
  on_header_field = false;
  on_header_value = false;
  written = [];
  calls = [];
}

sample-Streams : Streams (sample_ctx 300_000)
sample-Streams = record {
  chunked = refl;
  unpaused = refl;
  silent = refl;
  listened = refl;
  fresh = refl;
  fits = omega arith;
}

aligned-Streams : Streams (sample_ctx 262_145)
aligned-Streams = record {
  chunked = refl;
  unpaused = refl;
  silent = refl;
  listened = refl;
  fresh = refl;
  fits = omega arith;
}

session-written_example :
    let rs = session_ranges 300_000 in
    let ctx = sample_ctx 300_000 in
    let c = respond (length rs) (connected_cb true ctx) in
    (c.written ≡ [] ++ requests ctx rs) × (c.calls ≡ [] ++ on_complete ∷ [])
session-written_example = session-written (sample_ctx 300_000) sample-Streams (omega arith)
