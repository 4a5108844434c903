-- ===== src/Net/Chunked.antt =====
-- `ResponseParser::parse_chunked` of src/net/http.cpp: the chunked body, read from the whole receive
-- buffer each time more bytes have come. A `size_t` here stays below 2^48, so no sum of it wraps.
pub mod Total
pub mod Resume
use stok.Base.{
  ℕ, zero, suc, ◌+◌, ◌-◌, ◌*◌, ◌^◌, ◌<◌, ◌≡◌, refl, Bool, true, false, ◌&&◌, ◌||◌, not, Option,
  none, some, List, [], ◌∷◌, ◌++◌, ltb, leb, ◌==◌, if◌then◌else◌, length, take, drop, get_or,
}
use stok.Util.Ascii.{Bytes, is_digit, trim, find_byte, find_crlf}

pub data ChunkState : Type 0 where
  size_line chunk_data data_crlf trailer : ChunkState

-- The texts that the member `error` can point to.
pub data Error : Type 0 where
  bad_status_line bad_status_code bad_content_length headers_too_large eof_in_headers : Error
  eof_before_content_length eof_inside_chunked bad_chunk_size chunk_too_large missing_chunk_crlf :
      Error

-- `Result`, with the text that an error leaves in the member `error`.
pub data Result : Type 0 where
  need_more done : Result
  error : Error → Result

-- The members that `parse_chunked` reads and writes.
pub record Chunks : Type 0 where
  pub cs : ChunkState
  pub cpos : ℕ
  pub chunk_left : ℕ
  pub dechunked : Bytes

-- The value of a hexadecimal digit; `none` is the error.
pub hex_digit : ℕ → Option ℕ
unfolding is_digit
hex_digit c =
    if is_digit c
    then some (c - b'0')
    else if leb b'a' c && leb c b'f'
    then some (c - b'a' + 10)
    else if leb b'A' c && leb c b'F'
    then some (c - b'A' + 10)
    else none

abbrev shifted : Option ℕ → ℕ → Option ℕ
shifted none n = none
shifted (some d) n = some (n * 16 + d)

abbrev hex_from : Bytes → Option ℕ → Option ℕ
hex_from [] n = n
hex_from (c ∷ s) none = none
hex_from (c ∷ s) (some n) = hex_from s (shifted (hex_digit c) n)

-- A line up to its first ';'.
abbrev before_semi : Bytes → Option ℕ → Bytes
before_semi line none = line
before_semi line (some i) = take i line

-- The size that a chunk's first line gives; `none` is an error.
pub chunk_size : Bytes → Option ℕ
unfolding hex_digit find_byte trim
chunk_size line0 =
    let line = trim (before_semi line0 (find_byte b';' line0)) in
    if length line == 0 || ltb 12 (length line) then none else hex_from line (some 0)

-- What one round of the loop does: it goes on, or returns.
pub data Outcome : Type 0 where
  continue : Chunks → Outcome
  return : Result → Chunks → Outcome

abbrev sized : Chunks → ℕ → Option ℕ → Outcome
sized c e none = return (error bad_chunk_size) c
sized c e (some n) =
    if ltb (512 * 2 ^ 20) n
    then return (error chunk_too_large) c
    else if n == 0
    then continue (record c { cs = trailer; cpos = c.cpos + e + 2 })
    else continue (record c { cs = chunk_data; cpos = c.cpos + e + 2; chunk_left = n })

-- `ChunkState::Size`; the index of the line's end counts from `cpos`.
pub on_size : Bytes → Chunks → Option ℕ → Outcome
unfolding chunk_size
on_size s c none = return need_more c
on_size s c (some e) = sized c e (chunk_size (take e (drop c.cpos s)))

-- The next `n` bytes taken into the body.
abbrev pub taken : Bytes → Chunks → ℕ → Chunks
taken s c n = record c {
  dechunked = c.dechunked ++ take n (drop c.cpos s);
  cpos = c.cpos + n;
  chunk_left = c.chunk_left - n;
}

abbrev pub settled : Chunks → Outcome
settled c =
    if ltb 0 c.chunk_left then return need_more c else continue (record c { cs = data_crlf })

-- `ChunkState::Data`
pub on_chunk : Bytes → Chunks → Outcome
on_chunk s c =
    let avail = length s - c.cpos in
    settled (taken s c (if ltb avail c.chunk_left then avail else c.chunk_left))

-- `ChunkState::DataCrlf`
pub on_crlf : Bytes → Chunks → Outcome
on_crlf s c =
    if ltb (length s - c.cpos) 2
    then return need_more c
    else if not (get_or s c.cpos 0 == b'\r') || not (get_or s (c.cpos + 1) 0 == b'\n')
    then return (error missing_chunk_crlf) c
    else continue (record c { cpos = c.cpos + 2; cs = size_line })

-- `ChunkState::Trailer`
pub on_trailer : Chunks → Option ℕ → Outcome
on_trailer c none = return need_more c
on_trailer c (some e) =
    let c' = record c { cpos = c.cpos + e + 2 } in if e == 0 then return done c' else continue c'

abbrev dispatch : Bytes → Chunks → ChunkState → Outcome
dispatch s c size_line = on_size s c (find_crlf (drop c.cpos s))
dispatch s c chunk_data = on_chunk s c
dispatch s c data_crlf = on_crlf s c
dispatch s c trailer = on_trailer c (find_crlf (drop c.cpos s))

pub step : Bytes → Chunks → Outcome
unfolding on_size on_chunk on_crlf on_trailer find_crlf
step s c = dispatch s c c.cs

abbrev after : (Chunks → Option (Result × Chunks)) → Outcome → Option (Result × Chunks)
after more (return r c) = some (r, c)
after more (continue c) = more c

-- The loop, for so many rounds; `none` is a loop that has not returned.
pub rounds : ℕ → Bytes → Chunks → Option (Result × Chunks)
unfolding step
rounds zero s c = none
rounds (suc n) s c = after (λ c'. rounds n s c') (step s c)

-- Every second round takes a byte at least.
unfoldable pub parse_chunked : Bytes → Chunks → Option (Result × Chunks)
unfolding rounds
parse_chunked s c = rounds (2 * length s + 2) s c
