-- ===== src/Net/Chunked/Resume.antt =====
-- `parse_chunked` over a part of its input, and over all of it.
use stok.Base.{
  ℕ, zero, suc, ◌+◌, ◌-◌, ◌*◌, ◌^◌, ◌≤◌, branch, ◌<◌, ◌≡◌, refl, ◌≢◌, sym, ◌∙◌, ap, Bool, true,
  false, ◌&&◌, ◌||◌, not, Option, none, some, [], ◌∷◌, ◌++◌, arith, ltb, leb, ◌==◌, if◌then◌else◌,
  Bool-cases, inl, inr, length, take, drop, get_or, length-drop, length-append, drop-append,
  take-append, append_assoc, drop-drop, take_add, get_or-append,
}
use stok.Util.Ascii.{Bytes, find_crlf}
use stok.Net.Chunked.{
  ChunkState, size_line, chunk_data, data_crlf, trailer, Result, need_more, done, error, Chunks,
  Outcome, continue, return, chunk_size, on_size, sized, taken, settled, on_chunk, on_crlf,
  on_trailer, dispatch, step, rounds, after, parse_chunked,
}
use mathlib.Core.Option
use mathlib.Core.Path.{subst}
use stok.Net.Chunked.Total.{
  find_crlf-lt, measure, step-FallsBelow, rounds_more, measure_bound, after-alike,
}

later-alike :
    (b : Bool) (x y : Option ℕ) {e : ℕ}
    → ((k : ℕ) → x ≡ some k → y ≡ some k)
    → (if b then some 0 else Option.map suc x) ≡ some e
    → (if b then some 0 else Option.map suc y) ≡ some e
later-alike true x y f h = h
later-alike false none y f h = cc
later-alike false (some k) y f h = rw (f k refl) h

find_crlf-append : (s t : Bytes) {e : ℕ} → find_crlf s ≡ some e → find_crlf (s ++ t) ≡ some e
unfolding find_crlf
find_crlf-append [] t h = cc
find_crlf-append (c ∷ []) t h = cc
find_crlf-append (c ∷ d ∷ s) t h =
    later-alike ((c == b'\r') && (d == b'\n')) (find_crlf (d ∷ s)) (find_crlf (d ∷ (s ++ t)))
      (λ k f. find_crlf-append (d ∷ s) t f) h

-- What a round over the part `s` says of the round over the whole input: `again` is a round over the whole from another state.
abbrev Extends : (Chunks → Outcome) → Bytes → Outcome → Outcome → Type 0
Extends again s whole (continue c') = (whole ≡ continue c') × (c'.cpos ≤ length s)
Extends again s whole (return need_more c') = (again c' ≡ whole) × (c'.cpos ≤ length s)
Extends again s whole (return done c') = whole ≡ return done c'
Extends again s whole (return (error m) c') = whole ≡ return (error m) c'

module _ (again : Chunks → Outcome) (s t : Bytes) where
  sized-Extends :
      (c : Chunks) (e : ℕ) (n : Option ℕ)
      → c.cpos + e + 2 ≤ length s
      → Extends again s (sized c e n) (sized c e n)
  sized-Extends c e none h = refl
  sized-Extends c e (some n) h =
      branch (λ o. Extends again s o o) (ltb (512 * 2 ^ 20) n) (λ _. refl)
        (λ _. branch (λ o. Extends again s o o) (n == 0) (λ _. (refl, h)) (λ _. (refl, h)))

  on_size-Extends :
      (c : Chunks) (f : Option ℕ)
      → find_crlf (drop c.cpos s) ≡ f
      → c.cpos ≤ length s
      → again c ≡ on_size (s ++ t) c (find_crlf (drop c.cpos (s ++ t)))
      → Extends again s (on_size (s ++ t) c (find_crlf (drop c.cpos (s ++ t)))) (on_size s c f)
  unfolding on_size
  on_size-Extends c none e h k = (k, h)
  on_size-Extends c (some n) e h k =
      let line : take n (drop c.cpos (s ++ t)) ≡ take n (drop c.cpos s) =
        rw
          (
            drop-append c.cpos s t h,
            take-append n (drop c.cpos s) t (ground (arith, find_crlf-lt (drop c.cpos s) e)),
          )
          refl in
      let found : find_crlf (drop c.cpos (s ++ t)) ≡ some n =
        rw (drop-append c.cpos s t h) (find_crlf-append (drop c.cpos s) t e) in
      subst (λ f. Extends again s (on_size (s ++ t) c f) (on_size s c (some n))) (sym found)
        (subst
          (λ l.
            Extends again s (sized c n (chunk_size l))
              (sized c n (chunk_size (take n (drop c.cpos s)))))
          (sym line)
          (sized-Extends c n (chunk_size (take n (drop c.cpos s)))
            (ground (arith, find_crlf-lt (drop c.cpos s) e, length-drop c.cpos s))))

  on_trailer-Extends :
      (c : Chunks) (f : Option ℕ)
      → find_crlf (drop c.cpos s) ≡ f
      → c.cpos ≤ length s
      → again c ≡ on_trailer c (find_crlf (drop c.cpos (s ++ t)))
      → Extends again s (on_trailer c (find_crlf (drop c.cpos (s ++ t)))) (on_trailer c f)
  unfolding on_trailer
  on_trailer-Extends c none e h k = (k, h)
  on_trailer-Extends c (some n) e h k =
      rw (drop-append c.cpos s t h, find_crlf-append (drop c.cpos s) t e)
        (branch (λ o. Extends again s o o) (n == 0) (λ _. refl)
          (λ _. (refl, ground (arith, find_crlf-lt (drop c.cpos s) e, length-drop c.cpos s))))

  on_crlf-Extends :
      (c : Chunks)
      → c.cpos ≤ length s
      → again c ≡ on_crlf (s ++ t) c
      → Extends again s (on_crlf (s ++ t) c) (on_crlf s c)
  unfolding on_crlf
  on_crlf-Extends c h k =
      branch (λ o. Extends again s (on_crlf (s ++ t) c) o) (ltb (length s - c.cpos) 2) (λ _. (k, h))
        (λ l.
          rw
            (
              wide l,
              get_or-append c.cpos s t 0 (ground arith),
              get_or-append (c.cpos + 1) s t 0 (ground arith),
            )
            (branch (λ o. Extends again s o o)
              (not (get_or s c.cpos 0 == b'\r') || not (get_or s (c.cpos + 1) 0 == b'\n'))
              (λ _. refl) (λ _. (refl, ground arith))))
    where
      wide : ltb (length s - c.cpos) 2 ≡ false → ltb (length (s ++ t) - c.cpos) 2 ≡ false
      wide l = ground (arith, length-append s t)

-- Bytes taken in two steps.
taken_twice :
    (s t : Bytes) (c : Chunks) (n m : ℕ)
    → n ≤ length s - c.cpos
    → c.cpos ≤ length s
    → taken (s ++ t) (taken s c n) m ≡ taken (s ++ t) c (n + m)
taken_twice s t c n m h k =
    let places : c.cpos + n + m ≡ c.cpos + (n + m) = omega arith in
    let left : c.chunk_left - n - m ≡ c.chunk_left - (n + m) = omega arith in
    let bytes : (c.dechunked ++ take n (drop c.cpos s)) ++ take m (drop (c.cpos + n) (s ++ t))
        ≡ c.dechunked ++ take (n + m) (drop c.cpos (s ++ t)) =
      rw
        (
          append_assoc c.dechunked (take n (drop c.cpos s)) (take m (drop (c.cpos + n) (s ++ t))),
          ← take_add n m (drop c.cpos (s ++ t)),
          drop-drop c.cpos n (s ++ t),
          drop-append c.cpos s t k,
          take-append n (drop c.cpos s) t (ground (arith, length-drop c.cpos s)),
        )
        refl in
    rw (places, left, bytes) refl

-- How many bytes of the chunk `s` has.
abbrev ready : Bytes → Chunks → ℕ
ready s c = if ltb (length s - c.cpos) c.chunk_left then length s - c.cpos else c.chunk_left

taken_append :
    (s t : Bytes) (c : Chunks) (n : ℕ)
    → n ≤ length s - c.cpos
    → c.cpos ≤ length s
    → taken (s ++ t) c n ≡ taken s c n
taken_append s t c n h k =
    rw
      (
        drop-append c.cpos s t k,
        take-append n (drop c.cpos s) t (ground (arith, length-drop c.cpos s)),
      )
      refl

settled-true : (c : Chunks) → 0 < c.chunk_left → settled c ≡ return need_more c
settled-true c h =
    branch (λ o. o ≡ return need_more c) (ltb 0 c.chunk_left) (λ _. refl) (λ f. ground arith)

settled-false : (c : Chunks) → c.chunk_left ≡ 0 → settled c ≡ continue (record c { cs = data_crlf })
settled-false c h =
    branch (λ o. o ≡ continue (record c { cs = data_crlf })) (ltb 0 c.chunk_left)
      (λ f. ground arith) (λ _. refl)

module _ (again : Chunks → Outcome) (s t : Bytes) (c : Chunks) where
  abbrev Enough : Type 0
  Enough = Extends again s (on_chunk (s ++ t) c) (on_chunk s c)

  -- The chunk's bytes are all there.
  whole_chunk : c.cpos ≤ length s → c.chunk_left ≤ length s - c.cpos → Enough
  unfolding on_chunk
  whole_chunk h k =
      let n : ready s c ≡ c.chunk_left = ground arith in
      let m : ready (s ++ t) c ≡ c.chunk_left = ground (arith, length-append s t) in
      let over : settled (taken s c c.chunk_left)
          ≡ continue (record (taken s c c.chunk_left) { cs = data_crlf }) =
        settled-false (taken s c c.chunk_left) (omega arith) in
      rw (n, m, over) (ap settled (taken_append s t c c.chunk_left k h) ∙ over, ground arith)

  -- Some of them are still to come.
  part_chunk :
      c.cpos ≤ length s
      → length s - c.cpos < c.chunk_left
      → again (taken s c (length s - c.cpos)) ≡ on_chunk (s ++ t) (taken s c (length s - c.cpos))
      → Enough
  unfolding on_chunk
  part_chunk h k a =
      let n : ready s c ≡ length s - c.cpos = ground arith in
      let m : ready (s ++ t) c
          ≡ (length s - c.cpos) + ready (s ++ t) (taken s c (length s - c.cpos)) =
        ground (arith, length-append s t) in
      rw (n, m, settled-true (taken s c (length s - c.cpos)) (omega arith))
        (
          a
              ∙ ap settled (
                  taken_twice s t c (length s - c.cpos)
                    (ready (s ++ t) (taken s c (length s - c.cpos))) (omega arith) h),
          ground arith,
        )

dispatch-Extends :
    (s t : Bytes) (c : Chunks) (k : ChunkState)
    → c.cs ≡ k
    → c.cpos ≤ length s
    → Extends (step (s ++ t)) s (dispatch (s ++ t) c k) (dispatch s c k)
unfolding step
dispatch-Extends s t c size_line e h =
    on_size-Extends (step (s ++ t)) s t c (find_crlf (drop c.cpos s)) refl h
      (ap (λ k. dispatch (s ++ t) c k) e)
dispatch-Extends s t c data_crlf e h =
    on_crlf-Extends (step (s ++ t)) s t c h (ap (λ k. dispatch (s ++ t) c k) e)
dispatch-Extends s t c trailer e h =
    on_trailer-Extends (step (s ++ t)) s t c (find_crlf (drop c.cpos s)) refl h
      (ap (λ k. dispatch (s ++ t) c k) e)
dispatch-Extends s t c chunk_data e h = elim (Bool-cases (leb c.chunk_left (length s - c.cpos))) [
  | inl l ↦ whole_chunk (step (s ++ t)) s t c h (ground arith)
  | inr g ↦
      part_chunk (step (s ++ t)) s t c h (ground arith)
        (ap (λ k. dispatch (s ++ t) (taken s c (length s - c.cpos)) k) e)
]

step-Extends :
    (s t : Bytes) (c : Chunks)
    → c.cpos ≤ length s
    → Extends (step (s ++ t)) s (step (s ++ t) c) (step s c)
unfolding step
step-Extends s t c h = dispatch-Extends s t c c.cs refl h

-- The loop by its next round.
parse_chunked-step :
    (s : Bytes) (c : Chunks) → parse_chunked s c ≡ after (parse_chunked s) (step s c)
unfolding parse_chunked rounds
parse_chunked-step s c = rw (fuel) (
    after-alike (λ c'. rounds (suc (2 * length s)) s c') (λ c'. rounds (2 * length s + 2) s c')
      (measure s c) s
      (λ c' b.
        rounds_more (suc (2 * length s)) (2 * length s + 2) s c' (ground (arith, measure_bound s c))
          (measure_bound s c'))
      (step s c) (step-FallsBelow s c))
  where
    fuel : 2 * length s + 2 ≡ suc (suc (2 * length s))
    fuel = omega arith

-- What the loop over the part `s` says of the loop over the whole input.
abbrev Carries :
    (Chunks → Option (Result × Chunks))
    → Option (Result × Chunks)
    → Option (Result × Chunks)
    → Type 0
Carries again whole none = 0 ≤ 1
Carries again whole (some (need_more, c')) = again c' ≡ whole
Carries again whole (some (done, c')) = whole ≡ some (done, c')
Carries again whole (some (error m, c')) = whole ≡ some (error m, c')

after-Carries :
    (s t : Bytes) (more : Chunks → Option (Result × Chunks)) (whole : Outcome)
    → ((c' : Chunks)
        → c'.cpos ≤ length s
        → Carries (parse_chunked (s ++ t)) (parse_chunked (s ++ t) c') (more c'))
    → (o : Outcome) → Extends (step (s ++ t)) s whole o
    → Carries (parse_chunked (s ++ t)) (after (parse_chunked (s ++ t)) whole) (after more o)
after-Carries s t more whole f (continue c') (e, h) = rw e (f c' h)
after-Carries s t more whole f (return need_more c') (e, h) =
    rw (parse_chunked-step (s ++ t) c') (ap (λ o. after (parse_chunked (s ++ t)) o) e)
after-Carries s t more whole f (return done c') e = rw e refl
after-Carries s t more whole f (return (error m) c') e = rw e refl

rounds-Carries :
    (n : ℕ) (s t : Bytes) (c : Chunks)
    → c.cpos ≤ length s
    → Carries (parse_chunked (s ++ t)) (parse_chunked (s ++ t) c) (rounds n s c)
unfolding rounds
rounds-Carries zero s t c h = omega arith
rounds-Carries (suc n) s t c h = rw (parse_chunked-step (s ++ t) c) (
    after-Carries s t (rounds n s) (step (s ++ t) c) (λ c' k. rounds-Carries n s t c' k) (step s c)
      (step-Extends s t c h))

parse_chunked-Carries :
    (s t : Bytes) (c : Chunks)
    → c.cpos ≤ length s
    → Carries (parse_chunked (s ++ t)) (parse_chunked (s ++ t) c) (parse_chunked s c)
unfolding parse_chunked
parse_chunked-Carries s t c h = rounds-Carries (2 * length s + 2) s t c h

-- For a state whose position lies within the bytes `s`: when they are not the whole body and the bytes `t`
-- follow, the parser that goes on from the state it kept gives what one that has all the bytes from the start
-- gives.
pub parse_chunked-parse_chunked :
    (s t : Bytes) (c c' : Chunks)
    → c.cpos ≤ length s
    → parse_chunked s c ≡ some (need_more, c')
    → parse_chunked (s ++ t) c' ≡ parse_chunked (s ++ t) c
parse_chunked-parse_chunked s t c c' h e =
    subst (λ o. Carries (parse_chunked (s ++ t)) (parse_chunked (s ++ t) c) o) e
      (parse_chunked-Carries s t c h)

-- For a state whose position lies within the bytes `s`: a body that is complete in them, or wrong, is so with
-- the same result whatever follows.
pub parse_chunked-append :
    (s t : Bytes) (c c' : Chunks) (r : Result)
    → c.cpos ≤ length s
    → r ≢ need_more
    → parse_chunked s c ≡ some (r, c')
    → parse_chunked (s ++ t) c ≡ some (r, c')
parse_chunked-append s t c c' need_more h n e = absurd (n refl)
parse_chunked-append s t c c' done h n e =
    subst (λ o. Carries (parse_chunked (s ++ t)) (parse_chunked (s ++ t) c) o) e
      (parse_chunked-Carries s t c h)
parse_chunked-append s t c c' (error m) h n e =
    subst (λ o. Carries (parse_chunked (s ++ t)) (parse_chunked (s ++ t) c) o) e
      (parse_chunked-Carries s t c h)
