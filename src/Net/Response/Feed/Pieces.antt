-- ===== src/Net/Response/Feed/Pieces.antt =====
-- `ResponseParser::feed` when a response comes in pieces: the phase of the headers.
use stok.Base.{
  ℕ, ◌+◌, ◌-◌, ◌^◌, ◌≤◌, ◌≡◌, refl, sym, ◌∙◌, ap, Bool, true, false, Option, none, some, ◌++◌, ltb,
  if◌then◌else◌, length, take, drop, branch, arith, length-drop, drop-append, take-append,
}
use mathlib.Core.Path.{subst}
use stok.Util.Ascii.{Bytes}
use stok.Net.Chunked.{Chunks, Result, need_more, done, error, parse_chunked}
use stok.Net.Chunked.Total.{parse_chunked-total}
use stok.Net.Response.{
  ResponseParser, Phase, headers, length_body, chunked_body, until_close, finished,
}
use stok.Net.Response.Head.{Parsed, refused, parsed, parse_headers}
use stok.Net.Response.Feed.{
  find_blank, Round, again, out, interim, head_parsed, on_headers, on_chunks, in_phase, or_zero,
  resume, feed, Fed,
}
use stok.Net.Response.Feed.Total.{find_blank-lt, cost, Announced, parse_headers-Announced}
use stok.Net.Response.Feed.Resume.{find_blank-resumed, find_blank-found, feed-in_phase, raised}

-- What a call gives its caller: the result and the members, without `scan_`.
abbrev pub answer : Fed → Option (Result × ResponseParser)
answer none = none
answer (some (r, scan, p)) = some (r, p)

pub feed-at :
    (s : Bytes) (eof : Bool) (scan : ℕ) (p : ResponseParser) (k : Phase)
    → p.phase ≡ k
    → feed s eof scan p ≡ resume (feed s eof) (in_phase s eof scan p k)
feed-at s eof scan p k h =
    feed-in_phase s eof scan p ∙ ap (λ j. resume (feed s eof) (in_phase s eof scan p j)) h

module _ (s : Bytes) (eof : Bool) where
  -- Rounds after which the caller is given the same.
  abbrev pub Alike : Round → Round → Type 0
  Alike x y = answer (resume (feed s eof) x) ≡ answer (resume (feed s eof) y)

  chunks-Alike :
      (a b : ℕ) (p : ResponseParser) (o : Option (Result × Chunks)) {r : Result × Chunks}
      → o ≡ some r
      → Alike (on_chunks eof a p o) (on_chunks eof b p o)
  chunks-Alike a b p none h = cc
  chunks-Alike a b p (some (need_more, c)) h = refl
  chunks-Alike a b p (some (done, c)) h = refl
  chunks-Alike a b p (some (error m, c)) h = refl

  either :
      (t : Bool) (w x y z : Round)
      → Alike w x
      → Alike y z
      → Alike (if t then w else y) (if t then x else z)
  either true w x y z f g = f
  either false w x y z f g = g

  -- A body does not look at `scan_`.
  phase-Alike :
      (a b : ℕ) (p : ResponseParser) (k : Phase)
      → cost k 0 ≡ 1
      → Alike (in_phase s eof a p k) (in_phase s eof b p k)
  unfolding in_phase
  phase-Alike a b p headers h = ground arith
  phase-Alike a b p length_body h =
      either (ltb (length s - p.body_start) (or_zero p.content_length)) _ _ _ _ refl refl
  phase-Alike a b p chunked_body h =
      chunks-Alike a b p (parse_chunked s p.chunks) (parse_chunked-total s p.chunks).1
  phase-Alike a b p until_close h = either eof _ _ _ _ refl refl
  phase-Alike a b p finished h = refl

  body_alike :
      (a b : ℕ) (p : ResponseParser)
      → cost p.phase 0 ≡ 1
      → answer (feed s eof a p) ≡ answer (feed s eof b p)
  body_alike a b p h =
      rw (feed-in_phase s eof a p, feed-in_phase s eof b p) (phase-Alike a b p p.phase h)

  head-Alike :
      (a b e : ℕ) (o : Parsed) → Announced o → Alike (head_parsed a e o) (head_parsed b e o)
  head-Alike a b e (refused m p) h = refl
  head-Alike a b e (parsed ch p) h = either (interim p) _ _ _ _ refl (
      body_alike a b (record p { body_start = e + 4; chunks = record p.chunks { cpos = e + 4 } })
        (h 0))

  headers-Alike :
      (a b : ℕ) (p : ResponseParser) (from k : ℕ) (o : Option ℕ)
      → Alike (on_headers s eof a p (from + k) o) (on_headers s eof b p from (raised k o))
  headers-Alike a b p from k none = refl
  headers-Alike a b p from k (some j) =
      subst
        (λ e.
          Alike
            (head_parsed a (from + k + j)
              (parse_headers (take (from + k + j + 2 - p.body_start) (drop p.body_start s)) p))
            (head_parsed b e (parse_headers (take (e + 2 - p.body_start) (drop p.body_start s)) p)))
        place
        (head-Alike a b (from + k + j)
          (parse_headers (take (from + k + j + 2 - p.body_start) (drop p.body_start s)) p)
          (parse_headers-Announced (take (from + k + j + 2 - p.body_start) (drop p.body_start s))
            p))
    where
      place : from + k + j ≡ from + (k + j)
      place = omega arith

-- Where the body's bytes start, and those that are still to come in chunks.
abbrev pub Placed : Bytes → ResponseParser → Phase → Type 0
Placed s p chunked_body = p.chunks.cpos ≤ length s
Placed s p other = p.body_start ≤ length s

-- What a round over the part `s` says of the round `whole` over all the bytes.
abbrev pub Continues : Bytes → Bytes → Bool → Round → Round → Type 0
Continues s t eof whole (again scan q) =
    (whole ≡ again scan q) × (scan ≤ length s) × Placed s q q.phase
Continues s t eof whole (out need_more scan q) =
    answer (feed (s ++ t) eof scan q) ≡ answer (resume (feed (s ++ t) eof) whole)
Continues s t eof whole (out done scan q) = whole ≡ out done scan q
Continues s t eof whole (out (error m) scan q) = 0 ≤ 1

module _ (s t : Bytes) (eof : Bool) (scan : ℕ) where
  head-Continues :
      (e : ℕ) (o : Parsed)
      → Announced o
      → e + 4 ≤ length s
      → scan ≤ length s
      → Continues s t eof (head_parsed scan e o) (head_parsed scan e o)
  head-Continues e (refused m p) a h k = omega arith
  head-Continues e (parsed ch p) a h k =
      branch (λ o. Continues s t eof o o) (interim p) (λ _. (refl, h, h))
        (λ _. (refl, k, placed p.phase))
    where
      placed :
          (j : Phase)
          → Placed s (record p { body_start = e + 4; chunks = record p.chunks { cpos = e + 4 } }) j
      placed headers = h
      placed length_body = h
      placed chunked_body = h
      placed until_close = h
      placed finished = h

  pub headers_continue :
      (p : ResponseParser) (o : Option ℕ)
      → p.phase ≡ headers
      → scan ≤ length s
      → p.body_start ≤ length s
      → find_blank (drop (scan - 3) s) ≡ o
      → Continues s t eof
          (on_headers (s ++ t) eof scan p (scan - 3) (find_blank (drop (scan - 3) (s ++ t))))
          (on_headers s false scan p (scan - 3) o)
  unfolding in_phase
  headers_continue p none i h b e =
      branch
        (Continues s t eof
          (on_headers (s ++ t) eof scan p (scan - 3) (find_blank (drop (scan - 3) (s ++ t)))))
        (ltb (2 ^ 20) (length s)) (λ _. omega arith)
        (λ _.
          ap answer (feed-at (s ++ t) eof (length s) p headers i)
          ∙ later (find_blank-resumed s t scan h e))
    where
      later :
          (k : ℕ) × (find_blank (drop (scan - 3) (s ++ t))
              ≡ raised k (find_blank (drop (length s - 3) (s ++ t))))
            × (scan - 3 + k ≡ length s - 3)
          → Alike
              (s ++ t)
              eof
              (on_headers
                (s ++ t)
                eof
                (length s)
                p
                (length s - 3)
                (find_blank (drop (length s - 3) (s ++ t))))
              (on_headers (s ++ t) eof scan p (scan - 3) (find_blank (drop (scan - 3) (s ++ t))))
      later (k, f, l) = rw f (
          subst
            (λ n.
              Alike (s ++ t) eof
                (on_headers (s ++ t) eof (length s) p n (find_blank (drop (length s - 3) (s ++ t))))
                (on_headers (s ++ t) eof scan p (scan - 3)
                  (raised k (find_blank (drop (length s - 3) (s ++ t))))))
            l
            (headers-Alike (s ++ t) eof (length s) scan p (scan - 3) k
              (find_blank (drop (length s - 3) (s ++ t)))))
  headers_continue p (some k) i h b e =
      let there : find_blank (drop (scan - 3) (s ++ t)) ≡ some k =
        ap find_blank (drop-append (scan - 3) s t (omega arith))
        ∙ find_blank-found (drop (scan - 3) s) t e in
      let room : scan - 3 + k + 4 ≤ length s =
        omega (arith, find_blank-lt (drop (scan - 3) s) e, length-drop (scan - 3) s) in
      let block : take (scan - 3 + k + 2 - p.body_start) (drop p.body_start (s ++ t))
          ≡ take (scan - 3 + k + 2 - p.body_start) (drop p.body_start s) =
        rw (drop-append p.body_start s t b) (
          take-append (scan - 3 + k + 2 - p.body_start) (drop p.body_start s) t
            (omega (arith, length-drop p.body_start s))) in
      subst
        (λ o.
          Continues s t eof (on_headers (s ++ t) eof scan p (scan - 3) o)
            (on_headers s false scan p (scan - 3) (some k)))
        (sym there)
        (subst
          (λ v.
            Continues s t eof (head_parsed scan (scan - 3 + k) (parse_headers v p))
              (on_headers s false scan p (scan - 3) (some k)))
          (sym block)
          (head-Continues (scan - 3 + k)
            (parse_headers (take (scan - 3 + k + 2 - p.body_start) (drop p.body_start s)) p)
            (parse_headers-Announced (take (scan - 3 + k + 2 - p.body_start) (drop p.body_start s))
              p)
            room h))
