-- ===== src/Net/Response/Feed/Whole.antt =====
-- `ResponseParser::feed` over a part of a response, and over all of it from the state that was kept.
use stok.Base.{
  ℕ, zero, suc, ◌+◌, ◌-◌, ◌≤◌, ◌≡◌, refl, ◌∙◌, ap, Bool, false, Option, none, some, ◌++◌, ltb,
  length, drop, branch, arith, length-append,
}
use mathlib.Core.Path.{subst}
use stok.Util.Ascii.{Bytes}
use stok.Net.Chunked.{Chunks, Result, need_more, done, error, parse_chunked}
use stok.Net.Chunked.Total.{parse_chunked-total}
use stok.Net.Chunked.Resume.{parse_chunked-parse_chunked, parse_chunked-append}
use stok.Net.Response.{
  ResponseParser, Phase, headers, length_body, chunked_body, until_close, finished,
}
use stok.Net.Response.Feed.{
  find_blank, Round, again, out, on_length, on_chunks, in_phase, or_zero, resume, feed, feed_rounds,
  Fed,
}
use stok.Net.Response.Feed.Resume.{feed-in_phase}
use stok.Net.Response.Feed.Pieces.{answer, feed-at, Placed, Continues, headers_continue}

module _ (s t : Bytes) (eof : Bool) (scan : ℕ) where
  length-Continues :
      (p : ResponseParser)
      → p.phase ≡ length_body
      → p.body_start ≤ length s
      → Continues s t eof
          (on_length (s ++ t) eof scan p (or_zero p.content_length))
          (on_length s false scan p (or_zero p.content_length))
  unfolding in_phase
  length-Continues p i b =
      branch (Continues s t eof (on_length (s ++ t) eof scan p (or_zero p.content_length)))
        (ltb (length s - p.body_start) (or_zero p.content_length))
        (λ _. ap answer (feed-at (s ++ t) eof scan p length_body i))
        (λ e.
          branch
            (λ o.
              o
              ≡ out done scan (record p { body_len = or_zero p.content_length; phase = finished }))
            (ltb (length (s ++ t) - p.body_start) (or_zero p.content_length))
            (λ f. ground (arith, length-append s t)) (λ _. refl))

  -- Only the state of the chunks has changed.
  chunks_kept :
      (p : ResponseParser) (c : Chunks) (o : Option (Result × Chunks)) {r : Result × Chunks}
      → o ≡ some r
      → on_chunks eof scan (record p { chunks = c }) o ≡ on_chunks eof scan p o
  chunks_kept p c none h = cc
  chunks_kept p c (some (need_more, d)) h = refl
  chunks_kept p c (some (done, d)) h = refl
  chunks_kept p c (some (error m, d)) h = refl

  chunked-Continues :
      (p : ResponseParser) (o : Option (Result × Chunks)) {r : Result × Chunks}
      → p.phase ≡ chunked_body
      → p.chunks.cpos ≤ length s
      → parse_chunked s p.chunks ≡ o
      → o ≡ some r
      → Continues s t eof
          (on_chunks eof scan p (parse_chunked (s ++ t) p.chunks))
          (on_chunks false scan p o)
  unfolding in_phase
  chunked-Continues p none i b e h = cc
  chunked-Continues p (some (need_more, c)) i b e h = ap answer (
      feed-at (s ++ t) eof scan (record p { chunks = c }) chunked_body i
      ∙ ap (resume (feed (s ++ t) eof)) (
          chunks_kept p c (parse_chunked (s ++ t) c) (parse_chunked-total (s ++ t) c).1
          ∙ ap (on_chunks eof scan p) (parse_chunked-parse_chunked s t p.chunks c b e)))
  chunked-Continues p (some (done, c)) i b e h =
      ap (on_chunks eof scan p) (parse_chunked-append s t p.chunks c done b (λ k. cc) e)
  chunked-Continues p (some (error m, c)) i b e h = omega arith

  phase-Continues :
      (p : ResponseParser) (k : Phase)
      → p.phase ≡ k
      → scan ≤ length s
      → Placed s p k
      → Continues s t eof (in_phase (s ++ t) eof scan p k) (in_phase s false scan p k)
  unfolding in_phase
  phase-Continues p headers i h b =
      headers_continue s t eof scan p (find_blank (drop (scan - 3) s)) i h b refl
  phase-Continues p length_body i h b = length-Continues p i b
  phase-Continues p chunked_body i h b =
      chunked-Continues p (parse_chunked s p.chunks) i b refl (parse_chunked-total s p.chunks).1
  phase-Continues p until_close i h b = ap answer (feed-at (s ++ t) eof scan p until_close i)
  phase-Continues p finished i h b = refl

-- What the call over the part says of the call over all the bytes.
abbrev Carries : Bytes → Bytes → Bool → Fed → Fed → Type 0
Carries s t eof whole none = 0 ≤ 1
Carries s t eof whole (some (need_more, scan, q)) = answer (feed (s ++ t) eof scan q) ≡ answer whole
Carries s t eof whole (some (done, scan, q)) = whole ≡ some (done, scan, q)
Carries s t eof whole (some (error m, scan, q)) = 0 ≤ 1

resume-Carries :
    (s t : Bytes) (eof : Bool) (more : ℕ → ResponseParser → Fed) (whole : Round)
    → ((scan : ℕ) (q : ResponseParser)
        → scan ≤ length s
        → Placed s q q.phase
        → Carries s t eof (feed (s ++ t) eof scan q) (more scan q))
    → (o : Round) → Continues s t eof whole o
    → Carries s t eof (resume (feed (s ++ t) eof) whole) (resume more o)
resume-Carries s t eof more whole f (again scan q) (e, h, b) = rw e (f scan q h b)
resume-Carries s t eof more whole f (out need_more scan q) e = e
resume-Carries s t eof more whole f (out done scan q) e = rw e refl
resume-Carries s t eof more whole f (out (error m) scan q) e = e

feed_rounds-Carries :
    (n : ℕ) (s t : Bytes) (eof : Bool) (scan : ℕ) (p : ResponseParser)
    → scan ≤ length s
    → Placed s p p.phase
    → Carries s t eof (feed (s ++ t) eof scan p) (feed_rounds n s false scan p)
unfolding feed_rounds
feed_rounds-Carries zero s t eof scan p h b = omega arith
feed_rounds-Carries (suc n) s t eof scan p h b = rw (feed-in_phase (s ++ t) eof scan p) (
    resume-Carries s t eof (λ a q. feed_rounds n s false a q) (in_phase (s ++ t) eof scan p p.phase)
      (λ a q k c. feed_rounds-Carries n s t eof a q k c) (in_phase s false scan p p.phase)
      (phase-Continues s t eof scan p p.phase refl h b))

feed-Carries :
    (s t : Bytes) (eof : Bool) (scan : ℕ) (p : ResponseParser)
    → scan ≤ length s
    → Placed s p p.phase
    → Carries s t eof (feed (s ++ t) eof scan p) (feed s false scan p)
unfolding feed
feed-Carries s t eof scan p h b = feed_rounds-Carries (length s + 3) s t eof scan p h b

-- For a parser whose search and body positions lie within the buffer: after bytes that are not a whole
-- response, the call that goes on from what the parser kept, with more bytes and perhaps the end of the stream,
-- gives the result and the members (apart from the search position) of a call that gets all the bytes at once.
pub feed-feed :
    (s t : Bytes) (eof : Bool) (scan scan' : ℕ) (p p' : ResponseParser)
    → scan ≤ length s
    → Placed s p p.phase
    → feed s false scan p ≡ some (need_more, scan', p')
    → answer (feed (s ++ t) eof scan' p') ≡ answer (feed (s ++ t) eof scan p)
feed-feed s t eof scan scan' p p' h b e =
    subst (λ o. Carries s t eof (feed (s ++ t) eof scan p) o) e (feed-Carries s t eof scan p h b)

-- For a parser whose search and body positions lie within the buffer: a response that is complete is the same,
-- whatever bytes follow it and whether or not the stream ends.
pub feed-append :
    (s t : Bytes) (eof : Bool) (scan scan' : ℕ) (p p' : ResponseParser)
    → scan ≤ length s
    → Placed s p p.phase
    → feed s false scan p ≡ some (done, scan', p')
    → feed (s ++ t) eof scan p ≡ some (done, scan', p')
feed-append s t eof scan scan' p p' h b e =
    subst (λ o. Carries s t eof (feed (s ++ t) eof scan p) o) e (feed-Carries s t eof scan p h b)
