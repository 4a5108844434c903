-- ===== src/Core/Histogram/Tests.antt =====
-- Values and histograms at which the theorems are applied.
use stok.Base.{◌<◌, ◌≡◌, refl, arith}
use stok.Core.Histogram.{index, upper_bound, n_buckets, reset, put, merge, percentile_at}
use stok.Core.Histogram.Precision.{IsBoundOf, upper_bound-index}
use stok.Core.Histogram.Merge.{merge-put}

upper_bound-index_example : (index 1000 < n_buckets) × IsBoundOf 1000 (upper_bound (index 1000))
upper_bound-index_example = upper_bound-index 1000 (omega arith)

merge-put_example : merge (put reset 5) (put reset 1000) ≡ put (merge (put reset 5) reset) 1000
unfolding reset put index
merge-put_example = merge-put (put reset 5) reset 1000 refl

ranked : percentile_at (merge (put reset 5) (put reset 1000)) 1 ≡ 5
unfolding percentile_at merge put reset upper_bound
ranked = refl
