-- ===== src/Core/Histogram/Merge.antt =====
-- `merge` of src/core/histogram.hpp against `record`.
use stok.Base.{
  ℕ, zero, suc, ◌≡◌, refl, ap, max, min, List, [], ◌∷◌, ltb, if◌then◌else◌, length, get_or, set,
  arith,
}
use stok.Core.Histogram.{LatencyHistogram, index, put, merge, add_word, add_counts}

counted_twice :
    (xs ys : List ℕ) (i : ℕ)
    → length xs ≡ length ys
    → add_counts xs (set ys i (add_word (get_or ys i 0) 1))
      ≡ set (add_counts xs ys) i (add_word (get_or (add_counts xs ys) i 0) 1)
counted_twice [] [] i h = refl
counted_twice [] (y ∷ ys) i h = ground arith
counted_twice (x ∷ xs) [] i h = ground arith
counted_twice (x ∷ xs) (y ∷ ys) zero h = ap (λ (w : ℕ). w ∷ add_counts xs ys) (omega arith)
counted_twice (x ∷ xs) (y ∷ ys) (suc i) h =
    ap (λ s. add_word x y ∷ s) (counted_twice xs ys i (omega arith))

-- Of histograms with as many buckets: a value that is recorded in one before it is merged counts as one that is
-- recorded after the merge.
pub merge-put :
    (h o : LatencyHistogram) (v : ℕ)
    → length h.counts ≡ length o.counts
    → merge h (put o v) ≡ put (merge h o) v
unfolding merge put
merge-put h o v e = rw (counted_twice h.counts o.counts (index v) e, n, sum, high, low) refl
  where
    n : add_word h.n (add_word o.n 1) ≡ add_word (add_word h.n o.n) 1
    n = omega arith

    sum : add_word h.sum (add_word o.sum v) ≡ add_word (add_word h.sum o.sum) v
    sum = omega arith

    high :
        max h.high (if ltb o.high v then v else o.high)
        ≡ (if ltb (max h.high o.high) v then v else max h.high o.high)
    high = ground arith

    low :
        min h.low (if ltb v o.low then v else o.low)
        ≡ (if ltb v (min h.low o.low) then v else min h.low o.low)
    low = ground arith
