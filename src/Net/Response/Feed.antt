-- ===== src/Net/Response/Feed.antt =====
-- `ResponseParser::feed` of src/net/http.cpp: the phases of a response over the receive buffer.
pub mod Total
pub mod Resume
pub mod Pieces
pub mod Whole
use stok.Base.{
  ℕ, zero, suc, ◌+◌, ◌-◌, ◌*◌, ◌^◌, ◌<◌, ◌≡◌, refl, Bool, true, false, ◌&&◌, ◌||◌, not, Option,
  none, some, List, [], ◌∷◌, ltb, leb, ◌==◌, if◌then◌else◌, length, take, drop, get_or,
}
use mathlib.Core.Option
use stok.Util.Ascii.{Bytes, lower_prefix}
use stok.Net.Chunked.{
  Chunks, Result, need_more, done, error, headers_too_large, eof_in_headers,
  eof_before_content_length, eof_inside_chunked, parse_chunked,
}
use stok.Net.Response.{
  ResponseParser, Phase, headers, length_body, chunked_body, until_close, finished,
}
use stok.Net.Response.Head.{Parsed, refused, parsed, parse_headers, between}

-- `s.find("\r\n\r\n")`
pub find_blank : Bytes → Option ℕ
unfolding lower_prefix
find_blank [] = none
find_blank (c ∷ s) =
    let later = Option.map suc (find_blank s) in
    if lower_prefix (b'\r' ∷ b'\n' ∷ b'\r' ∷ b'\n' ∷ []) (c ∷ s) then some 0 else later

-- What one round of the loop does, with `scan_` after it.
pub data Round : Type 0 where
  again : ℕ → ResponseParser → Round
  out : Result → ℕ → ResponseParser → Round

abbrev interim : ResponseParser → Bool
interim p = between 100 200 p.status && not (between 101 102 p.status)

-- The end of the block is at `e`, which counts from the buffer's start.
abbrev head_parsed : ℕ → ℕ → Parsed → Round
head_parsed scan e (refused m p) = out (error m) scan p
head_parsed scan e (parsed ch p) =
    let q = record p { body_start = e + 4 } in
    if interim p
    then again (e + 4) (record q { phase = headers })
    else again scan (record q { chunks = record p.chunks { cpos = e + 4 } })

-- `Phase::Headers`; the search starts at `from`.
abbrev on_headers : Bytes → Bool → ℕ → ResponseParser → ℕ → Option ℕ → Round
on_headers s eof scan p from none =
    if ltb (2 ^ 20) (length s)
    then out (error headers_too_large) (length s) p
    else if eof
    then out (error eof_in_headers) (length s) p
    else out need_more (length s) p
on_headers s eof scan p from (some k) =
    head_parsed scan (from + k)
      (parse_headers (take (from + k + 2 - p.body_start) (drop p.body_start s)) p)

-- `Phase::Length`; the phase has a content length.
abbrev on_length : Bytes → Bool → ℕ → ResponseParser → ℕ → Round
on_length s eof scan p n =
    if ltb (length s - p.body_start) n
    then out (if eof then error eof_before_content_length else need_more) scan p
    else out done scan (record p { body_len = n; phase = finished })

abbrev or_zero : Option ℕ → ℕ
or_zero none = 0
or_zero (some n) = n

-- `Phase::Chunked`; a loop that has not returned would go on.
abbrev on_chunks : Bool → ℕ → ResponseParser → Option (Result × Chunks) → Round
on_chunks eof scan p none = again scan p
on_chunks eof scan p (some (need_more, c)) =
    out (if eof then error eof_inside_chunked else need_more) scan (record p { chunks = c })
on_chunks eof scan p (some (done, c)) = out done scan (record p { chunks = c; phase = finished })
on_chunks eof scan p (some (error m, c)) = out (error m) scan (record p { chunks = c })

-- `Phase::UntilClose`
abbrev on_close : Bytes → Bool → ℕ → ResponseParser → Round
on_close s eof scan p =
    if eof
    then out done scan (record p { body_len = length s - p.body_start; phase = finished })
    else out need_more scan p

pub in_phase : Bytes → Bool → ℕ → ResponseParser → Phase → Round
unfolding find_blank parse_headers parse_chunked
in_phase s eof scan p headers = on_headers s eof scan p (scan - 3) (find_blank (drop (scan - 3) s))
in_phase s eof scan p length_body = on_length s eof scan p (or_zero p.content_length)
in_phase s eof scan p chunked_body = on_chunks eof scan p (parse_chunked s p.chunks)
in_phase s eof scan p until_close = on_close s eof scan p
in_phase s eof scan p finished = out done scan p

-- The result, `scan_` and the other members.
abbrev pub Fed : Type 0
Fed = Option (Result × ℕ × ResponseParser)

abbrev resume : (ℕ → ResponseParser → Fed) → Round → Fed
resume more (again scan p) = more scan p
resume more (out r scan p) = some (r, scan, p)

-- The loop, for so many rounds; `none` is a loop that has not returned.
pub feed_rounds : ℕ → Bytes → Bool → ℕ → ResponseParser → Fed
unfolding in_phase
feed_rounds zero s eof scan p = none
feed_rounds (suc n) s eof scan p =
    resume (λ scan' q. feed_rounds n s eof scan' q) (in_phase s eof scan p p.phase)

-- A round that goes on takes four bytes of header, or is the last that does.
unfoldable pub feed : Bytes → Bool → ℕ → ResponseParser → Fed
unfolding feed_rounds
feed s eof scan p = feed_rounds (length s + 3) s eof scan p
