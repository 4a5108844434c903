-- ===== src/Net/Response.antt =====
-- `ResponseParser` of src/net/http.cpp and http.hpp: the header block and the body's three kinds. The
-- parser is given the whole receive buffer each time; the buffer's bytes stand for `in_data_`.
pub mod Head
pub mod Feed
use stok.Base.{ℕ, Bool, true, false, Option, none, some, List, [], take, drop, if◌then◌else◌}
use stok.Base.Int.{ℤ, pos}
use stok.Util.Ascii.{Bytes}
use stok.Net.Chunked.{Chunks, ChunkState, size_line}

pub data Phase : Type 0 where
  headers length_body chunked_body until_close finished : Phase

-- The members but `scan_`, which only the search for the end of the header block uses; a content length
-- or a timeout of -1 is `none`.
pub record ResponseParser : Type 0 where
  pub status : ℤ
  pub keep_alive : Bool
  pub keep_alive_timeout_s : Option ℕ
  pub gzip : Bool
  pub deflate : Bool
  pub etag : Bytes
  pub last_modified : Bytes
  pub location : Bytes
  pub content_type : Bytes
  pub phase : Phase
  pub head : Bool
  pub body_start : ℕ
  pub content_length : Option ℕ
  pub chunks : Chunks
  pub use_dechunked : Bool
  pub body_len : ℕ

-- `reset`; the strings and the dechunked bytes are cleared. `scan_` is 0 then.
unfoldable pub reset : Bool → ResponseParser
reset head_request = record {
  status = pos 0;
  keep_alive = true;
  keep_alive_timeout_s = none;
  gzip = false;
  deflate = false;
  etag = [];
  last_modified = [];
  location = [];
  content_type = [];
  phase = headers;
  head = head_request;
  body_start = 0;
  content_length = none;
  chunks = record { cs = size_line; cpos = 0; chunk_left = 0; dechunked = [] };
  use_dechunked = false;
  body_len = 0;
}

-- `body`, of the buffer that `feed` saw last.
unfoldable pub body : Bytes → ResponseParser → Bytes
body s p = if p.use_dechunked then p.chunks.dechunked else take p.body_len (drop p.body_start s)
