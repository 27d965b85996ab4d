-- ===== src/Meter/Tests.antt =====
-- The theorems of the meters at concrete inputs.
use skywalking_python.Prelude.{◌≡◌, refl, [], ◌∷◌, List, some, get_elem?}
use skywalking_python.Prelude.Int.{pos}
use skywalking_python.Prelude.Result.{ok}
use skywalking_python.Meter.Histogram.{Bucket, new, find_bucket, predecessor}
use skywalking_python.Meter.Histogram.Bisect.{
  IsSorted, bounds, count_below, find_bucket_scan, new-IsSorted,
}

-- Bounds 0, 5 and 10.
abbrev buckets : List Bucket
buckets =
    record { bucket = pos 0; count = 0 }
    ∷ record { bucket = pos 5; count = 0 }
    ∷ record { bucket = pos 10; count = 0 }
    ∷ []

built : new (pos 10 ∷ pos 5 ∷ pos 10 ∷ []) (pos 0) ≡ ok buckets
unfolding new
built = refl

buckets-IsSorted : IsSorted (bounds buckets) × (get_elem? (bounds buckets) 0 ≡ some (pos 0))
buckets-IsSorted = new-IsSorted (pos 10 ∷ pos 5 ∷ pos 10 ∷ []) (pos 0) buckets built

find_bucket_scan_example : find_bucket buckets (pos 7) ≡ predecessor (count_below (pos 7) buckets)
find_bucket_scan_example = find_bucket_scan (pos 7) buckets buckets-IsSorted.0
