-- ===== src/Net/Response/Feed/Total.antt =====
-- Termination of the loop of `ResponseParser::feed`, by the header blocks that the buffer has room for.
use stok.Base.{
  ℕ, zero, suc, ◌+◌, ◌-◌, ◌^◌, ◌≤◌, ◌<◌, ◌≡◌, refl, Bool, true, false, ◌&&◌, ◌||◌, not, Option,
  none, some, [], ◌∷◌, ltb, ◌==◌, if◌then◌else◌, length, take, drop, get_or, branch, arith,
  length-drop,
}
use mathlib.Core.Option
use stok.Base.Int.{ℤ}
use stok.Util.Ascii.{Bytes, codes, lower_prefix, find_byte, find_crlf, parse_signed, istarts_with}
use stok.Net.Chunked.{Chunks, Result, need_more, done, error, parse_chunked}
use stok.Net.Chunked.Total.{parse_chunked-total}
use stok.Net.Response.{
  ResponseParser, Phase, headers, length_body, chunked_body, until_close, finished,
}
use stok.Net.Response.Head.{
  Parsed, refused, parsed, parse_headers, announce, announced, coded, status_at, begun,
  header_lines, is_status, between, present, or_end,
}
use stok.Net.Response.Feed.{
  find_blank, Round, again, out, interim, head_parsed, on_headers, on_chunks, in_phase, or_zero,
  resume, feed_rounds, feed, Fed,
}

lower_prefix-lt : (n s : Bytes) → lower_prefix n s ≡ true → length n ≤ length s
unfolding lower_prefix
lower_prefix-lt [] s h = omega arith
lower_prefix-lt (n ∷ ns) [] h = cc
lower_prefix-lt (n ∷ ns) (c ∷ s) h = ground (arith, lower_prefix-lt ns s)

-- A search that finds its word here or further on.
here_or_later :
    (b : Bool) (o : Option ℕ) (n : ℕ) {e : ℕ}
    → (b ≡ true → 4 ≤ suc n)
    → ((k : ℕ) → o ≡ some k → k + 4 ≤ n)
    → (if b then some 0 else Option.map suc o) ≡ some e
    → e + 4 ≤ suc n
here_or_later true o n f g h = ground (arith, f refl)
here_or_later false none n f g h = cc
here_or_later false (some k) n f g h = ground (arith, g k refl)

pub find_blank-lt : (s : Bytes) {e : ℕ} → find_blank s ≡ some e → e + 4 ≤ length s
unfolding find_blank
find_blank-lt [] h = cc
find_blank-lt (c ∷ s) h =
    here_or_later (lower_prefix (b'\r' ∷ b'\n' ∷ b'\r' ∷ b'\n' ∷ []) (c ∷ s)) (find_blank s)
      (length s) (λ b. lower_prefix-lt (b'\r' ∷ b'\n' ∷ b'\r' ∷ b'\n' ∷ []) (c ∷ s) b)
      (λ k f. find_blank-lt s f) h

-- The header rounds that the buffer has room for, and the body's round.
abbrev pub cost : Phase → ℕ → ℕ
cost headers n = n + 2
cost other n = 1

abbrev pub measure : Bytes → ℕ → ResponseParser → ℕ
measure s scan p = cost p.phase (length s - scan)

announce-cost : (ch : Bool) (p : ResponseParser) (n : ℕ) → cost (announce ch p).phase n ≡ 1
unfolding announce
announce-cost ch p n =
    branch (λ (q : ResponseParser). cost q.phase n ≡ 1)
      (p.head || is_status 204 p.status || is_status 304 p.status || between 100 200 p.status)
      (λ _. refl)
      (λ _.
        branch (λ (q : ResponseParser). cost q.phase n ≡ 1) ch (λ _. refl)
          (λ _.
            branch (λ (q : ResponseParser). cost q.phase n ≡ 1) (present p.content_length)
              (λ _. refl) (λ _. refl)))

-- A block that is accepted has announced its body.
abbrev pub Announced : Parsed → Type 0
Announced (refused m p) = 0 ≤ 1
Announced (parsed ch p) = (n : ℕ) → cost p.phase n ≡ 1

announced-Announced : (o : Parsed) → Announced (announced o)
announced-Announced (refused m p) = omega arith
announced-Announced (parsed ch p) = announce-cost ch p

coded-Announced : (lines : Bytes) (p : ResponseParser) (o : Option ℤ) → Announced (coded lines p o)
coded-Announced lines p none = omega arith
coded-Announced lines p (some code) =
    announced-Announced (header_lines (length lines) lines false (record p { status = code }))

status_at-Announced :
    (line lines : Bytes) (p : ResponseParser) (o : Option ℕ) → Announced (status_at line lines p o)
status_at-Announced line lines p none = omega arith
status_at-Announced line lines p (some sp) =
    branch Announced (ltb (length line) (sp + 4)) (λ _. omega arith)
      (λ _. coded-Announced lines p (parse_signed (2 ^ 31 - 1) (take 3 (drop (sp + 1) line))))

begun-Announced : (line lines : Bytes) (p : ResponseParser) → Announced (begun line lines p)
begun-Announced line lines p =
    branch Announced (not (istarts_with line (codes "http/1."))) (λ _. omega arith)
      (λ _.
        status_at-Announced line lines
          (record p { keep_alive = not (ltb 7 (length line) && (get_or line 7 0 == b'0')) })
          (find_byte b' ' line))

pub parse_headers-Announced :
    (block : Bytes) (p : ResponseParser) → Announced (parse_headers block p)
unfolding parse_headers
parse_headers-Announced block p =
    begun-Announced (take (or_end block (find_crlf block)) block)
      (drop (or_end block (find_crlf block) + 2) block) p

-- A round that goes on costs less than `n`.
abbrev pub CostsBelow : ℕ → Bytes → Round → Type 0
CostsBelow n s (again scan q) = measure s scan q < n
CostsBelow n s (out r scan q) = 0 ≤ n

head_parsed-CostsBelow :
    (s : Bytes) (n scan e : ℕ) (o : Parsed)
    → Announced o
    → e + 4 ≤ length s
    → length s - (e + 4) + 2 < n
    → CostsBelow n s (head_parsed scan e o)
head_parsed-CostsBelow s n scan e (refused m p) a h k = omega arith
head_parsed-CostsBelow s n scan e (parsed ch p) a h k =
    branch (CostsBelow n s) (interim p) (λ _. omega arith)
      (λ _. ground (arith, a (length s - scan)))

on_headers-CostsBelow :
    (s : Bytes) (eof : Bool) (scan : ℕ) (p : ResponseParser) (o : Option ℕ)
    → find_blank (drop (scan - 3) s) ≡ o
    → CostsBelow (length s - scan + 2) s (on_headers s eof scan p (scan - 3) o)
on_headers-CostsBelow s eof scan p none h =
    branch (CostsBelow (length s - scan + 2) s) (ltb (2 ^ 20) (length s)) (λ _. omega arith)
      (λ _. branch (CostsBelow (length s - scan + 2) s) eof (λ _. omega arith) (λ _. omega arith))
on_headers-CostsBelow s eof scan p (some k) h =
    head_parsed-CostsBelow s (length s - scan + 2) scan (scan - 3 + k)
      (parse_headers (take (scan - 3 + k + 2 - p.body_start) (drop p.body_start s)) p)
      (parse_headers-Announced (take (scan - 3 + k + 2 - p.body_start) (drop p.body_start s)) p)
      (omega (arith, find_blank-lt (drop (scan - 3) s) h, length-drop (scan - 3) s))
      (omega (arith, find_blank-lt (drop (scan - 3) s) h, length-drop (scan - 3) s))

on_chunks-CostsBelow :
    (s : Bytes) (eof : Bool) (scan : ℕ) (p : ResponseParser) (o : Option (Result × Chunks))
    (r : Result × Chunks)
    → o ≡ some r
    → CostsBelow 1 s (on_chunks eof scan p o)
on_chunks-CostsBelow s eof scan p none r h = cc
on_chunks-CostsBelow s eof scan p (some (need_more, c)) r h = omega arith
on_chunks-CostsBelow s eof scan p (some (done, c)) r h = omega arith
on_chunks-CostsBelow s eof scan p (some (error m, c)) r h = omega arith

pub in_phase-CostsBelow :
    (s : Bytes) (eof : Bool) (scan : ℕ) (p : ResponseParser) (k : Phase)
    → CostsBelow (cost k (length s - scan)) s (in_phase s eof scan p k)
unfolding in_phase
in_phase-CostsBelow s eof scan p headers =
    on_headers-CostsBelow s eof scan p (find_blank (drop (scan - 3) s)) refl
in_phase-CostsBelow s eof scan p length_body =
    branch (CostsBelow 1 s) (ltb (length s - p.body_start) (or_zero p.content_length))
      (λ _. omega arith) (λ _. omega arith)
in_phase-CostsBelow s eof scan p chunked_body =
    on_chunks-CostsBelow s eof scan p (parse_chunked s p.chunks) (parse_chunked-total s p.chunks).0
      (parse_chunked-total s p.chunks).1
in_phase-CostsBelow s eof scan p until_close =
    branch (CostsBelow 1 s) eof (λ _. omega arith) (λ _. omega arith)
in_phase-CostsBelow s eof scan p finished = omega arith

resume-total :
    (n : ℕ) (s : Bytes) (more : ℕ → ResponseParser → Fed)
    → ((scan : ℕ) (q : ResponseParser)
        → measure s scan q < n
        → (r : Result × ℕ × ResponseParser) × (more scan q ≡ some r))
    → (o : Round) → CostsBelow n s o
    → (r : Result × ℕ × ResponseParser) × (resume more o ≡ some r)
resume-total n s more f (again scan q) h = f scan q h
resume-total n s more f (out r scan q) h = ((r, scan, q), refl)

pub measure_positive : (s : Bytes) (scan : ℕ) (p : ResponseParser) → measure s scan p ≤ 0 → ⊥
measure_positive s scan p h = nothing p.phase h
  where
    nothing : (k : Phase) → cost k (length s - scan) ≤ 0 → ⊥
    nothing headers l = omega arith
    nothing length_body l = omega arith
    nothing chunked_body l = omega arith
    nothing until_close l = omega arith
    nothing finished l = omega arith

pub measure_bound : (s : Bytes) (scan : ℕ) (p : ResponseParser) → measure s scan p ≤ length s + 3
measure_bound s scan p = enough p.phase
  where
    enough : (k : Phase) → cost k (length s - scan) ≤ length s + 3
    enough headers = omega arith
    enough length_body = omega arith
    enough chunked_body = omega arith
    enough until_close = omega arith
    enough finished = omega arith

feed_rounds-total :
    (n : ℕ) (s : Bytes) (eof : Bool) (scan : ℕ) (p : ResponseParser)
    → measure s scan p ≤ n
    → (r : Result × ℕ × ResponseParser) × (feed_rounds n s eof scan p ≡ some r)
unfolding feed_rounds
feed_rounds-total zero s eof scan p h = absurd (measure_positive s scan p h)
feed_rounds-total (suc n) s eof scan p h =
    resume-total (measure s scan p) s (λ scan' q. feed_rounds n s eof scan' q)
      (λ scan' q l. feed_rounds-total n s eof scan' q (ground arith))
      (in_phase s eof scan p p.phase) (in_phase-CostsBelow s eof scan p p.phase)

-- For every buffer, with or without the end of the stream, and every state of the parser, `feed` returns.
pub feed_total :
    (s : Bytes) (eof : Bool) (scan : ℕ) (p : ResponseParser)
    → (r : Result × ℕ × ResponseParser) × (feed s eof scan p ≡ some r)
unfolding feed
feed_total s eof scan p = feed_rounds-total (length s + 3) s eof scan p (measure_bound s scan p)
