-- ===== src/Net/Tests.antt =====
-- Responses of src/tests/test_net.cpp, whole and in pieces.
use stok.Base.{ℕ, ◌≡◌, refl, true, false, some, [], ◌++◌, arith}
use stok.Base.Int.{pos}
use stok.Util.Ascii.{Bytes, codes}
use stok.Net.Chunked.{
  Chunks, Result, need_more, done, size_line, chunk_data, trailer, parse_chunked,
}
use stok.Net.Chunked.Resume.{parse_chunked-parse_chunked, parse_chunked-append}
use stok.Net.Chunked.Total.{parse_chunked-total}
use stok.Net.Response.{ResponseParser, reset, body, finished}
use stok.Net.Response.Feed.{feed}
use stok.Net.Url.{Url, parse_url}
use stok.Net.Url.Parts.{IsSendable, parse_url-IsSendable}
use stok.Net.Response.Feed.Total.{feed_total}
use stok.Net.Response.Feed.Pieces.{answer}
use stok.Net.Response.Feed.Whole.{feed-feed, feed-append}

abbrev wire : Bytes
wire = codes "5;ext=1\r\nhello\r\n6\r\n world\r\n0\r\nX-Trailer: y\r\n\r\n"

abbrev begin : Chunks
begin = record { cs = size_line; cpos = 0; chunk_left = 0; dechunked = [] }

abbrev ended : Chunks
ended = record { cs = trailer; cpos = 46; chunk_left = 0; dechunked = codes "hello world" }

dechunked : parse_chunked wire begin ≡ some (done, ended)
unfolding parse_chunked
dechunked = refl

abbrev first_part : Bytes
first_part = codes "5\r\nhel"

abbrev stopped : Chunks
stopped = record { cs = chunk_data; cpos = 6; chunk_left = 2; dechunked = codes "hel" }

parse_chunked-total_example : (r : Result × Chunks) × (parse_chunked wire begin ≡ some r)
parse_chunked-total_example = parse_chunked-total wire begin

parse_chunked-parse_chunked_example :
    parse_chunked (first_part ++ codes "lo\r\n0\r\n\r\n") stopped
    ≡ parse_chunked (first_part ++ codes "lo\r\n0\r\n\r\n") begin
unfolding parse_chunked
parse_chunked-parse_chunked_example =
    parse_chunked-parse_chunked first_part (codes "lo\r\n0\r\n\r\n") begin stopped (omega arith)
      refl

parse_chunked-append_example : parse_chunked (wire ++ codes "HTTP/1.1 ") begin ≡ some (done, ended)
parse_chunked-append_example =
    parse_chunked-append wire (codes "HTTP/1.1 ") begin ended done (omega arith) (λ e. cc) dechunked

abbrev block_start : Bytes
block_start = codes "HTTP/1.1 200 OK\r\nETag: v1\r\nContent-Length: 2\r\n\r"

abbrev rest : Bytes
rest = codes "\nok"

abbrev answered : ResponseParser
unfolding reset
answered = record (reset false) {
  status = pos 200;
  etag = codes "v1";
  content_length = some 2;
  phase = finished;
  body_start = 48;
  body_len = 2;
  chunks = record begin { cpos = 48 };
}

waits : feed block_start false 0 (reset false) ≡ some (need_more, 47, reset false)
unfolding feed reset
waits = refl

complete : feed (block_start ++ rest) false 0 (reset false) ≡ some (done, 0, answered)
unfolding feed reset
complete = refl

body_read : body (block_start ++ rest) answered ≡ codes "ok"
unfolding body reset
body_read = refl

feed_total_example :
    (r : Result × ℕ × ResponseParser) × (feed (block_start ++ rest) true 0 (reset false) ≡ some r)
feed_total_example = feed_total (block_start ++ rest) true 0 (reset false)

feed-feed_example :
    answer (feed (block_start ++ rest) false 47 (reset false))
    ≡ answer (feed (block_start ++ rest) false 0 (reset false))
unfolding reset
feed-feed_example =
    feed-feed block_start rest false 0 47 (reset false) (reset false) (omega arith) (omega arith)
      waits

feed-append_example :
    feed ((block_start ++ rest) ++ codes "HTTP/1.1") true 0 (reset false) ≡ some (done, 0, answered)
unfolding reset
feed-append_example =
    feed-append (block_start ++ rest) (codes "HTTP/1.1") true 0 0 (reset false) answered
      (omega arith) (omega arith) complete

abbrev news_feed : Url
news_feed = record {
  tls = true;
  host = codes "example.com";
  port = 8443;
  target = codes "/rss?n=1";
  host_header = codes "example.com:8443";
}

parse_url-IsSendable_example : IsSendable news_feed
unfolding parse_url
parse_url-IsSendable_example =
    parse_url-IsSendable (codes " https://Example.com:8443/rss?n=1#top") news_feed refl

-- A fragment that follows the host at once stays in it.
fragment_in_host :
    parse_url (codes "http://example.com#top")
    ≡ some (record {
      tls = false;
      host = codes "example.com#top";
      port = 80;
      target = codes "/";
      host_header = codes "example.com#top";
    })
unfolding parse_url
fragment_in_host = refl
