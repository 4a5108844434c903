-- ===== src/Net/Chunked/Total.antt =====
-- Termination of the loop of `parse_chunked`, by what is left to read.
use stok.Base.{
  ℕ, zero, suc, ◌+◌, ◌-◌, ◌*◌, ◌^◌, ◌≤◌, branch, ◌<◌, ◌≡◌, refl, Option, none, some, [], ◌∷◌, arith,
  ltb, ◌==◌, Option-cases, inl, inr, length, take, drop, length-drop,
}
use stok.Util.Ascii.{Bytes, find_crlf}
use stok.Net.Chunked.{
  ChunkState, size_line, chunk_data, data_crlf, trailer, Result, Chunks, Outcome, continue, return,
  chunk_size, on_size, sized, on_chunk, on_crlf, on_trailer, dispatch, step, rounds, after,
  parse_chunked,
}

pub find_crlf-lt : (s : Bytes) {e : ℕ} → find_crlf s ≡ some e → e + 2 ≤ length s
unfolding find_crlf
find_crlf-lt [] h = cc
find_crlf-lt (c ∷ []) h = cc
find_crlf-lt (c ∷ d ∷ s) {e} h = elim (Option-cases (find_crlf (d ∷ s))) [
  | inl n ↦ ground arith
  | inr (k, f) ↦ ground (arith, find_crlf-lt (d ∷ s) f)
]

abbrev rank : ChunkState → ℕ
rank chunk_data = 1
rank other = 0

-- What is left to read, twice, and one for a chunk that is being read.
abbrev pub measure : Bytes → Chunks → ℕ
measure s c = 2 * (length s - c.cpos) + rank c.cs

-- What a round leaves to do is below the bound `m`.
abbrev pub FallsBelow : ℕ → Bytes → Outcome → Type 0
FallsBelow m s (return r c') = 0 ≤ m
FallsBelow m s (continue c') = measure s c' < m

sized-FallsBelow :
    (s : Bytes) (c : Chunks) (e : ℕ) (n : Option ℕ)
    → e + 2 ≤ length s - c.cpos
    → FallsBelow (2 * (length s - c.cpos) + 0) s (sized c e n)
sized-FallsBelow s c e none h = ground arith
sized-FallsBelow s c e (some n) h =
    branch (FallsBelow (2 * (length s - c.cpos) + 0) s) (ltb (512 * 2 ^ 20) n) (λ _. ground arith)
      (λ _.
        branch (FallsBelow (2 * (length s - c.cpos) + 0) s) (n == 0) (λ _. ground arith)
          (λ _. ground arith))

on_size-FallsBelow :
    (s : Bytes) (c : Chunks) (f : Option ℕ)
    → find_crlf (drop c.cpos s) ≡ f
    → FallsBelow (2 * (length s - c.cpos) + 0) s (on_size s c f)
unfolding on_size
on_size-FallsBelow s c none h = ground arith
on_size-FallsBelow s c (some e) h =
    sized-FallsBelow s c e (chunk_size (take e (drop c.cpos s)))
      (ground (arith, find_crlf-lt (drop c.cpos s) h, length-drop c.cpos s))

on_chunk-FallsBelow :
    (s : Bytes) (c : Chunks) → FallsBelow (2 * (length s - c.cpos) + 1) s (on_chunk s c)
unfolding on_chunk
on_chunk-FallsBelow s c = ground arith

on_crlf-FallsBelow :
    (s : Bytes) (c : Chunks) → FallsBelow (2 * (length s - c.cpos) + 0) s (on_crlf s c)
unfolding on_crlf
on_crlf-FallsBelow s c = ground arith

on_trailer-FallsBelow :
    (s : Bytes) (c : Chunks) (f : Option ℕ)
    → find_crlf (drop c.cpos s) ≡ f
    → FallsBelow (2 * (length s - c.cpos) + 0) s (on_trailer c f)
unfolding on_trailer
on_trailer-FallsBelow s c none h = ground arith
on_trailer-FallsBelow s c (some e) h =
    ground (arith, find_crlf-lt (drop c.cpos s) h, length-drop c.cpos s)

dispatch-FallsBelow :
    (s : Bytes) (c : Chunks) (k : ChunkState)
    → FallsBelow (2 * (length s - c.cpos) + rank k) s (dispatch s c k)
dispatch-FallsBelow s c size_line = on_size-FallsBelow s c (find_crlf (drop c.cpos s)) refl
dispatch-FallsBelow s c chunk_data = on_chunk-FallsBelow s c
dispatch-FallsBelow s c data_crlf = on_crlf-FallsBelow s c
dispatch-FallsBelow s c trailer = on_trailer-FallsBelow s c (find_crlf (drop c.cpos s)) refl

-- A round that goes on lowers the measure.
pub step-FallsBelow : (s : Bytes) (c : Chunks) → FallsBelow (measure s c) s (step s c)
unfolding step
step-FallsBelow s c = dispatch-FallsBelow s c c.cs

-- A property of the results that a round which goes on has, from what lies below its bound.
after-all :
    (P : Option (Result × Chunks) → Type 0) (more : Chunks → Option (Result × Chunks)) (m : ℕ)
    (s : Bytes)
    → ((r : Result × Chunks) → P (some r))
    → ((c' : Chunks) → measure s c' < m → P (more c'))
    → (o : Outcome) → FallsBelow m s o
    → P (after more o)
after-all P more m s f g (return r c') b = f (r, c')
after-all P more m s f g (continue c') b = g c' b

-- Enough rounds give a result.
pub rounds_total :
    (n : ℕ) (s : Bytes) (c : Chunks)
    → measure s c < n
    → (r : Result × Chunks) × (rounds n s c ≡ some r)
unfolding rounds
rounds_total zero s c h = ground arith
rounds_total (suc n) s c h =
    after-all (λ o. (r : Result × Chunks) × (o ≡ some r)) (λ c'. rounds n s c') (measure s c) s
      (λ r. (r, refl)) (λ c' b. rounds_total n s c' (ground arith)) (step s c) (step-FallsBelow s c)

pub after-alike :
    (f g : Chunks → Option (Result × Chunks)) (m : ℕ) (s : Bytes)
    → ((c' : Chunks) → measure s c' < m → f c' ≡ g c')
    → (o : Outcome) → FallsBelow m s o
    → after f o ≡ after g o
after-alike f g m s h (return r c') b = refl
after-alike f g m s h (continue c') b = h c' b

-- Further rounds change nothing.
pub rounds_more :
    (m n : ℕ) (s : Bytes) (c : Chunks)
    → measure s c < m
    → measure s c < n
    → rounds m s c ≡ rounds n s c
unfolding rounds
rounds_more zero n s c h k = ground arith
rounds_more (suc m) zero s c h k = ground arith
rounds_more (suc m) (suc n) s c h k =
    after-alike (λ c'. rounds m s c') (λ c'. rounds n s c') (measure s c) s
      (λ c' b. rounds_more m n s c' (ground arith) (ground arith)) (step s c) (step-FallsBelow s c)

pub measure_bound : (s : Bytes) (c : Chunks) → measure s c < 2 * length s + 2
measure_bound s c = bound c.cs
  where
    bound : (k : ChunkState) → 2 * (length s - c.cpos) + rank k < 2 * length s + 2
    bound chunk_data = omega arith
    bound size_line = omega arith
    bound data_crlf = omega arith
    bound trailer = omega arith

-- For every buffer and every state the loop of `parse_chunked` returns.
pub parse_chunked-total :
    (s : Bytes) (c : Chunks) → (r : Result × Chunks) × (parse_chunked s c ≡ some r)
unfolding parse_chunked
parse_chunked-total s c = rounds_total (2 * length s + 2) s c (measure_bound s c)
