-- ===== src/Net/Url.antt =====
-- What the code reads of `struct http_parser_url` (include/ytdl/url_parser.h): the runs of the host,
-- the path and the query in the parsed text. The parser itself is http_parser's and is a parameter
-- of the definitions that call it.
use libytdl.Base.{ℕ, drop, Bytes}
use libytdl.Net.Request.{Slice}

pub record Field : Type 0 where
  pub off : ℕ
  pub len : ℕ

pub record Url : Type 0 where
  pub host : Field
  pub path : Field
  pub query : Field

-- `http_parser_url_init`.
abbrev pub no_field : Field
no_field = record { off = 0; len = 0 }

abbrev pub empty_url : Url
empty_url = record { host = no_field; path = no_field; query = no_field }

-- `buf + field_data[…].off` with `field_data[…].len`.
abbrev pub field_slice : Bytes → Field → Slice
field_slice buf f = record { bytes = drop f.off buf; size = f.len }
