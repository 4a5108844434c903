-- ===== src/Net/Response/Head.antt =====
-- `ResponseParser::parse_headers` of src/net/http.cpp: the status line, the header lines and the body
-- that they announce.
use stok.Base.{
  ℕ, zero, suc, ◌+◌, ◌-◌, ◌^◌, Bool, true, false, ◌&&◌, ◌||◌, not, Option, none, some, [], ◌∷◌, ltb,
  leb, ◌==◌, if◌then◌else◌, length, take, drop, get_or,
}
use stok.Base.Int.{ℤ, pos, negsuc}
use stok.Util.Ascii.{
  Bytes, codes, is_digit, to_lower, trim, iequals, istarts_with, ifind, find_byte, find_crlf,
  parse_signed, parse_unsigned,
}
use stok.Net.Chunked.{Error, bad_status_line, bad_status_code, bad_content_length}
use stok.Net.Response.{ResponseParser, length_body, chunked_body, until_close, finished}

-- What the function returns: `false` with the error's text, or `true`. In the loop, the flag is the
-- local `chunked`.
pub data Parsed : Type 0 where
  refused : Error → ResponseParser → Parsed
  parsed : Bool → ResponseParser → Parsed

abbrev pub present : Option ℕ → Bool
present none = false
present (some i) = true

-- `find(...) != npos` on a header's value.
abbrev has : Bytes → Bytes → Bool
has value word = present (ifind value word)

-- `std::min(npos, size)`: the end of a text.
abbrev pub or_end : Bytes → Option ℕ → ℕ
or_end s none = length s
or_end s (some i) = i

-- The digits that a text begins with.
pub leading_digits : Bytes → Bytes
unfolding is_digit
leading_digits [] = []
leading_digits (c ∷ s) = let rest = leading_digits s in if is_digit c then c ∷ rest else []

abbrev length_from : Bool → ResponseParser → Option ℤ → Parsed
length_from ch p (some (pos n)) = parsed ch (record p { content_length = some n })
length_from ch p (some (negsuc n)) = refused bad_content_length p
length_from ch p none = refused bad_content_length p

abbrev timeout_from : ResponseParser → Option ℕ → ResponseParser
timeout_from p none = p
timeout_from p (some v) = record p { keep_alive_timeout_s = some v }

abbrev timeout_at : ResponseParser → Bytes → Option ℕ → ResponseParser
timeout_at p value none = p
timeout_at p value (some t) =
    timeout_from p (parse_unsigned (2 ^ 31 - 1) (leading_digits (drop (t + 8) value)))

-- One header; the test of its first letter.
pub on_header : Bytes → Bytes → Bool → ResponseParser → Parsed
unfolding to_lower iequals ifind parse_signed parse_unsigned leading_digits
on_header name value ch p =
    let first = to_lower (get_or name 0 b' ') in
    if first == b'c'
    then (if iequals name (codes "content-length")
        then length_from ch p (parse_signed (2 ^ 63 - 1) value)
        else if iequals name (codes "content-encoding")
        then parsed ch (
            if has value (codes "gzip")
            then record p { gzip = true }
            else if has value (codes "deflate")
            then record p { deflate = true }
            else p)
        else if iequals name (codes "connection")
        then parsed ch (
            if has value (codes "close")
            then record p { keep_alive = false }
            else if has value (codes "keep-alive")
            then record p { keep_alive = true }
            else p)
        else if iequals name (codes "content-type")
        then parsed ch (record p { content_type = value })
        else parsed ch p)
    else if first == b't'
    then parsed (ch || iequals name (codes "transfer-encoding") && has value (codes "chunked")) p
    else if first == b'e'
    then parsed ch (if iequals name (codes "etag") then record p { etag = value } else p)
    else if first == b'l'
    then parsed ch (
        if iequals name (codes "last-modified")
        then record p { last_modified = value }
        else if iequals name (codes "location")
        then record p { location = value }
        else p)
    else if first == b'k'
    then parsed ch (
        if iequals name (codes "keep-alive")
        then timeout_at p value (ifind value (codes "timeout="))
        else p)
    else parsed ch p

abbrev split_header : Bytes → Bool → ResponseParser → Option ℕ → Parsed
split_header h ch p none = parsed ch p
split_header h ch p (some colon) = on_header (trim (take colon h)) (trim (drop (colon + 1) h)) ch p

-- One line of the block; a line without a colon is passed over.
pub on_line : Bytes → Bool → ResponseParser → Parsed
unfolding on_header trim find_byte
on_line h ch p = split_header h ch p (find_byte b':' h)

abbrev pub and_then : Parsed → (Bool → ResponseParser → Parsed) → Parsed
and_then (refused e p) next = refused e p
and_then (parsed ch p) next = next ch p

-- The loop over what is left of the block, for at most so many lines.
pub header_lines : ℕ → Bytes → Bool → ResponseParser → Parsed
unfolding on_line find_crlf
header_lines zero rest ch p = parsed ch p
header_lines (suc n) [] ch p = parsed ch p
header_lines (suc n) (c ∷ s) ch p =
    let e = or_end (c ∷ s) (find_crlf (c ∷ s)) in
    and_then (on_line (take e (c ∷ s)) ch p)
      (λ ch' p'. header_lines n (drop (e + 2) (c ∷ s)) ch' p')

abbrev pub between : ℕ → ℕ → ℤ → Bool
between low high (pos n) = leb low n && ltb n high
between low high (negsuc n) = false

abbrev pub is_status : ℕ → ℤ → Bool
is_status k (pos n) = n == k
is_status k (negsuc n) = false

-- The body that the block announces.
unfoldable pub announce : Bool → ResponseParser → ResponseParser
announce ch p =
    if p.head || is_status 204 p.status || is_status 304 p.status || between 100 200 p.status
    then record p { phase = finished }
    else if ch
    then record p { phase = chunked_body; use_dechunked = true }
    else if present p.content_length
    then record p { phase = length_body }
    else record p { phase = until_close; keep_alive = false }

abbrev pub announced : Parsed → Parsed
announced (refused e p) = refused e p
announced (parsed ch p) = parsed ch (announce ch p)

abbrev pub coded : Bytes → ResponseParser → Option ℤ → Parsed
coded lines p none = refused bad_status_code p
coded lines p (some code) =
    announced (header_lines (length lines) lines false (record p { status = code }))

abbrev pub status_at : Bytes → Bytes → ResponseParser → Option ℕ → Parsed
status_at line lines p none = refused bad_status_line p
status_at line lines p (some sp) =
    if ltb (length line) (sp + 4)
    then refused bad_status_line p
    else coded lines p (parse_signed (2 ^ 31 - 1) (take 3 (drop (sp + 1) line)))

abbrev pub begun : Bytes → Bytes → ResponseParser → Parsed
begun line lines p =
    if not (istarts_with line (codes "http/1."))
    then refused bad_status_line p
    else status_at line lines
        (record p { keep_alive = not (ltb 7 (length line) && (get_or line 7 0 == b'0')) })
        (find_byte b' ' line)

-- `parse_headers`
unfoldable pub parse_headers : Bytes → ResponseParser → Parsed
unfolding header_lines announce istarts_with find_byte parse_signed find_crlf
parse_headers block p =
    let eol = or_end block (find_crlf block) in begun (take eol block) (drop (eol + 2) block) p
