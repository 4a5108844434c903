-- ===== src/Core/Histogram.antt =====
-- `LatencyHistogram` of src/core/histogram.hpp. Counts and figures are uint64_t, with their wrap-around.
pub mod Precision
pub mod Merge
mod Tests
use stok.Base.{
  ℕ, zero, suc, ◌+◌, ◌-◌, ◌*◌, ◌/◌, ◌%◌, ◌^◌, max, min, Bool, true, false, Option, none, some, List,
  [], ◌∷◌, ltb, leb, ◌==◌, if◌then◌else◌, get_or, set, replicate,
}

abbrev pub n_buckets : ℕ
n_buckets = 1024

-- `63 - __builtin_clzll(v)` of a word of at most k + 1 bits that is not 0: the place of its highest bit.
unfoldable pub msb : ℕ → ℕ → ℕ
msb zero v = 0
msb (suc k) v = let above = suc (msb k (v / 2)) in if ltb v 2 then 0 else above

-- `index`: a shift to the right is a division, the mask a remainder.
unfoldable pub index : ℕ → ℕ
unfolding msb
index v =
    if ltb v 16 then v else (let shift = msb 63 v - 4 in (shift + 1) * 16 + v / 2 ^ shift % 16)

-- `upper_bound`: `16 | sub` is `16 + sub`, since `sub` is below 16.
unfoldable pub upper_bound : ℕ → ℕ
upper_bound idx =
    if ltb idx 16
    then idx
    else (let shift = idx / 16 - 1 in ((16 + idx % 16) * 2 ^ shift + (2 ^ shift - 1)) % 2 ^ 64)

pub record LatencyHistogram : Type 0 where
  pub counts : List ℕ
  pub n : ℕ
  pub high : ℕ
  pub low : ℕ
  pub sum : ℕ

-- `reset`, and the state of a new histogram.
unfoldable pub reset : LatencyHistogram
reset = record { counts = replicate n_buckets 0; n = 0; high = 0; low = 2 ^ 64 - 1; sum = 0 }

abbrev pub add_word : ℕ → ℕ → ℕ
add_word a b = (a + b) % 2 ^ 64

-- `record`
unfoldable pub put : LatencyHistogram → ℕ → LatencyHistogram
unfolding index
put h v = record {
  counts = set h.counts (index v) (add_word (get_or h.counts (index v) 0) 1);
  n = add_word h.n 1;
  high = if ltb h.high v then v else h.high;
  low = if ltb v h.low then v else h.low;
  sum = add_word h.sum v;
}

-- `max` and `min`
unfoldable pub highest : LatencyHistogram → ℕ
highest h = if h.n == 0 then 0 else h.high

unfoldable pub lowest : LatencyHistogram → ℕ
lowest h = if h.n == 0 then 0 else h.low

abbrev pub add_counts : List ℕ → List ℕ → List ℕ
add_counts [] ys = []
add_counts (x ∷ xs) [] = x ∷ xs
add_counts (x ∷ xs) (y ∷ ys) = add_word x y ∷ add_counts xs ys

unfoldable pub merge : LatencyHistogram → LatencyHistogram → LatencyHistogram
merge h o = record {
  counts = add_counts h.counts o.counts;
  n = add_word h.n o.n;
  high = max h.high o.high;
  low = min h.low o.low;
  sum = add_word h.sum o.sum;
}

-- The loop of `percentile` from bucket `i`, with `acc` counted so far.
abbrev pub reach : ℕ → ℕ → ℕ → ℕ → List ℕ → ℕ
reach target high i acc [] = high
reach target high i acc (c ∷ cs) =
    let later = reach target high (suc i) (add_word acc c) cs in
    if leb target (add_word acc c) then min (upper_bound i) high else later

-- `percentile`, for the rank that it computes from its argument in double precision.
unfoldable pub percentile_at : LatencyHistogram → ℕ → ℕ
percentile_at h target = if h.n == 0 then 0 else reach target h.high 0 0 h.counts
