-- ===== src/Meter/Histogram.antt =====
-- skywalking/meter/histogram.py, over whole numbers. `increment` of a bucket holds its lock.
pub mod Bisect
use skywalking_python.Prelude.{
  ℕ, zero, suc, ◌+◌, ◌-◌, ◌/◌, Bool, true, false, Option, none, some, List, [], ◌∷◌, map, length,
  get_elem?, set, ltb, if◌then◌else◌,
}
use skywalking_python.Prelude.Int.{ℤ, ltb_ℤ, eqb_ℤ}
use skywalking_python.Prelude.Result.{Result, ok, err, bad_steps}

-- `Histogram.Bucket`
pub record Bucket : Type 0 where
  pub bucket : ℤ
  pub count : ℕ

-- `Bucket.increment`
abbrev increment : ℕ → Bucket → Bucket
increment n b = record b { count = b.count + n }

-- One more element for `sorted(set(...))`
abbrev pub insert_sorted : ℤ → List ℤ → List ℤ
insert_sorted a [] = a ∷ []
insert_sorted a (x ∷ xs) =
    let rest = insert_sorted a xs in
    if ltb_ℤ a x then a ∷ x ∷ xs else if eqb_ℤ a x then x ∷ xs else x ∷ rest

-- `sorted(set(steps))`
abbrev pub sorted_set : List ℤ → List ℤ
sorted_set [] = []
sorted_set (x ∷ xs) = insert_sorted x (sorted_set xs)

with_min : ℤ → List ℤ → Result (List ℤ)
with_min min_value [] = err bad_steps
with_min min_value (x ∷ xs) =
    if ltb_ℤ x min_value
    then err bad_steps
    else ok (if eqb_ℤ x min_value then x ∷ xs else min_value ∷ x ∷ xs)

-- `init_bucks`
abbrev pub init_bucks : List ℤ → List Bucket
init_bucks [] = []
init_bucks (s ∷ steps) = record { bucket = s; count = 0 } ∷ init_bucks steps

buckets_of : Result (List ℤ) → Result (List Bucket)
buckets_of (err e) = err e
buckets_of (ok steps) = ok (init_bucks steps)

-- `Histogram.__init__`: the buckets.
unfoldable pub new : List ℤ → ℤ → Result (List Bucket)
unfolding with_min buckets_of
new steps min_value = buckets_of (with_min min_value (sorted_set steps))

bound_below : ℤ → Option Bucket → Bool
bound_below value none = false
bound_below value (some b) = ltb_ℤ b.bucket value

-- `self.buckets[i].bucket < value`
pub is_below : List Bucket → ℤ → ℕ → Bool
unfolding bound_below
is_below buckets value i = bound_below value (get_elem? buckets i)

-- The loop of `find_bucket`, which ends with `left`; the fuel is the number of rounds.
unfoldable pub bisect : (ℕ → Bool) → ℕ → ℕ → ℕ → ℕ
bisect below zero left right = left
bisect below (suc fuel) left right =
    let mid = (left + right) / 2 in
    elim (ltb left right) [
      | true ↦ elim (below mid) [
        | true ↦ bisect below fuel (mid + 1) right
        | false ↦ bisect below fuel left mid
      ]
      | false ↦ left
    ]

-- `find_bucket`: the index of the bucket.
pub predecessor : ℕ → Option ℕ
predecessor zero = none
predecessor (suc i) = some i

unfoldable pub find_bucket : List Bucket → ℤ → Option ℕ
unfolding bisect predecessor
find_bucket buckets value =
    predecessor (bisect (is_below buckets value) (length buckets) 0 (length buckets))

increment_at : Option ℕ → List Bucket → List Bucket
increment_at none buckets = buckets
increment_at (some zero) [] = []
increment_at (some zero) (b ∷ buckets) = increment 1 b ∷ buckets
increment_at (some (suc i)) [] = []
increment_at (some (suc i)) (b ∷ buckets) = b ∷ increment_at (some i) buckets

-- `add_value`
unfoldable pub add_value : ℤ → List Bucket → List Bucket
unfolding increment_at
add_value value buckets = increment_at (find_bucket buckets value) buckets
