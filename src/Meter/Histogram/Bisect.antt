-- ===== src/Meter/Histogram/Bisect.antt =====
-- The search of `find_bucket` in skywalking/meter/histogram.py, and a linear scan.
use skywalking_python.Prelude.{
  ℕ, zero, suc, ◌+◌, ◌/◌, ◌≤◌, ◌<◌, ◌≡◌, refl, Bool, true, false, Option, none, some, List, [], ◌∷◌,
  All, arith, length, get_elem?, min, ap, if◌then◌else◌,
}
use skywalking_python.Prelude.Int.{ℤ, ltb_ℤ, ◌<ℤ◌, eq_of_parts}
use skywalking_python.Prelude.Result.{Result, ok, err}
use skywalking_python.Meter.Histogram.{
  Bucket, bisect, is_below, find_bucket, insert_sorted, sorted_set, new, init_bucks, add_value,
  increment_at, bound_below, predecessor, with_min, buckets_of,
}

-- Strictly increasing.
pub IsSorted : List ℤ → Type 0
IsSorted [] = Unit
IsSorted (x ∷ xs) = All (λ y. x <ℤ y) xs × IsSorted xs

pub bounds : List Bucket → List ℤ
bounds [] = []
bounds (b ∷ bs) = b.bucket ∷ bounds bs

-- How many buckets lie below a value.
pub count_below : ℤ → List Bucket → ℕ
count_below value [] = 0
count_below value (b ∷ bs) =
    if ltb_ℤ b.bucket value then suc (count_below value bs) else count_below value bs

module _ (below : ℕ → Bool) (n : ℕ) (low : (i : ℕ) → i < n → below i ≡ true)
    (high : (i : ℕ) → n ≤ i → below i ≡ false) where
  bisect_finds :
      (fuel left right : ℕ)
      → right ≤ left + fuel
      → left ≤ n
      → n ≤ right
      → bisect below fuel left right ≡ n
  unfolding bisect
  bisect_finds zero left right f l r = omega arith
  bisect_finds (suc fuel) left right f l r =
      let mid = (left + right) / 2 in
      ground
        (arith, low mid, high mid, bisect_finds fuel (mid + 1) right, bisect_finds fuel left mid)

module _ (value : ℤ) where
  count_below-length : (bs : List Bucket) → count_below value bs ≤ length bs
  unfolding count_below
  count_below-length [] = omega arith
  count_below-length (b ∷ bs) = ground (arith, count_below-length bs)

  none_below :
      (x : ℤ) (bs : List Bucket)
      → All (λ y. x <ℤ y) (bounds bs)
      → ltb_ℤ x value ≡ false
      → count_below value bs ≡ 0
  unfolding count_below bounds
  none_below x [] h e = refl
  none_below x (b ∷ bs) h e = ground (arith, none_below x bs h.1 e)

  below_low :
      (bs : List Bucket)
      → IsSorted (bounds bs)
      → (i : ℕ) → i < count_below value bs
      → is_below bs value i ≡ true
  unfolding IsSorted bounds count_below is_below bound_below
  below_low [] h i lt = ground arith
  below_low (b ∷ bs) h zero lt = ground (arith, none_below b.bucket bs h.0)
  below_low (b ∷ bs) h (suc i) lt = ground (arith, none_below b.bucket bs h.0, below_low bs h.1 i)

  below_high :
      (bs : List Bucket)
      → IsSorted (bounds bs)
      → (i : ℕ) → count_below value bs ≤ i
      → is_below bs value i ≡ false
  unfolding IsSorted bounds count_below is_below bound_below
  below_high [] h i le = refl
  below_high (b ∷ bs) h zero le = ground arith
  below_high (b ∷ bs) h (suc i) le = ground (arith, none_below b.bucket bs h.0, below_high bs h.1 i)

  -- In sorted buckets `find_bucket` finds the last bucket whose bound is below the value, as a
  -- linear scan does, and `None` if there is none.
  pub find_bucket_scan :
      (bs : List Bucket)
      → IsSorted (bounds bs)
      → find_bucket bs value ≡ predecessor (count_below value bs)
  unfolding find_bucket
  find_bucket_scan bs h =
      rw
        (bisect_finds (is_below bs value) (count_below value bs) (below_low bs h) (below_high bs h)
          (length bs) 0 (length bs) (omega arith) (omega arith) (count_below-length bs))
        refl

pub total : List Bucket → ℕ
total [] = 0
total (b ∷ bs) = b.count + total bs

increment_at-total :
    (n : ℕ) (bs : List Bucket)
    → n ≤ length bs
    → total (increment_at (predecessor n) bs) ≡ total bs + min n 1
unfolding total increment_at predecessor
increment_at-total zero bs h = ground arith
increment_at-total (suc zero) (b ∷ bs) h = omega arith
increment_at-total (suc (suc n)) (b ∷ bs) h = omega (arith, increment_at-total (suc n) bs)
increment_at-total (suc n) [] h = omega arith

increment_at-bounds : (o : Option ℕ) (bs : List Bucket) → bounds (increment_at o bs) ≡ bounds bs
unfolding bounds increment_at
increment_at-bounds none bs = refl
increment_at-bounds (some zero) [] = refl
increment_at-bounds (some zero) (b ∷ bs) = refl
increment_at-bounds (some (suc i)) [] = refl
increment_at-bounds (some (suc i)) (b ∷ bs) =
    ap (λ l. b.bucket ∷ l) (increment_at-bounds (some i) bs)

-- A value that is added to sorted buckets is counted once if some bound is below it, and else in
-- no bucket; the bounds stay as they are.
pub add_value-total :
    (value : ℤ) (bs : List Bucket)
    → IsSorted (bounds bs)
    → (total (add_value value bs) ≡ total bs + min (count_below value bs) 1)
      × (bounds (add_value value bs) ≡ bounds bs)
unfolding add_value
add_value-total value bs h = (
  rw (find_bucket_scan value bs h)
      (increment_at-total (count_below value bs) bs (count_below-length value bs)),
  increment_at-bounds (find_bucket bs value) bs,
)

insert_sorted-above :
    (y a : ℤ) (xs : List ℤ) → y <ℤ a → All (λ z. y <ℤ z) xs → All (λ z. y <ℤ z) (insert_sorted a xs)
insert_sorted-above y a [] h k = (h, tt)
insert_sorted-above y a (x ∷ xs) h k = ground (arith, insert_sorted-above y a xs h k.1)

All-above : (y x : ℤ) (xs : List ℤ) → y <ℤ x → All (λ z. x <ℤ z) xs → All (λ z. y <ℤ z) xs
All-above y x [] h k = tt
All-above y x (z ∷ xs) h k = (omega (arith, k.0), All-above y x xs h k.1)

insert_sorted-IsSorted : (a : ℤ) (xs : List ℤ) → IsSorted xs → IsSorted (insert_sorted a xs)
unfolding IsSorted
insert_sorted-IsSorted a [] h = (tt, tt)
insert_sorted-IsSorted a (x ∷ xs) h =
    ground (arith, All-above a x xs, insert_sorted-above x a xs, insert_sorted-IsSorted a xs h.1)

sorted_set-IsSorted : (xs : List ℤ) → IsSorted (sorted_set xs)
unfolding IsSorted
sorted_set-IsSorted [] = tt
sorted_set-IsSorted (x ∷ xs) = insert_sorted-IsSorted x (sorted_set xs) (sorted_set-IsSorted xs)

init_bucks-bounds : (xs : List ℤ) → bounds (init_bucks xs) ≡ xs
unfolding bounds
init_bucks-bounds [] = refl
init_bucks-bounds (x ∷ xs) = ap (λ l. x ∷ l) (init_bucks-bounds xs)

with_min-IsSorted :
    (m : ℤ) (xs ys : List ℤ)
    → IsSorted xs
    → with_min m xs ≡ ok ys
    → IsSorted ys × (get_elem? ys 0 ≡ some m)
unfolding with_min IsSorted
with_min-IsSorted m [] ys h e = ground arith
with_min-IsSorted m (x ∷ xs) ys h e = ground (arith, All-above m x xs, eq_of_parts x m)

buckets_of-bounds :
    (r : Result (List ℤ)) (bs : List Bucket) → buckets_of r ≡ ok bs → r ≡ ok (bounds bs)
unfolding buckets_of
buckets_of-bounds (ok xs) bs e = ground (arith, init_bucks-bounds xs)
buckets_of-bounds (err x) bs e = ground arith

-- A histogram that can be built has strictly increasing bounds, the minimum first.
pub new-IsSorted :
    (steps : List ℤ) (min_value : ℤ) (bs : List Bucket)
    → new steps min_value ≡ ok bs
    → IsSorted (bounds bs) × (get_elem? (bounds bs) 0 ≡ some min_value)
unfolding new
new-IsSorted steps min_value bs e =
    with_min-IsSorted min_value (sorted_set steps) (bounds bs) (sorted_set-IsSorted steps)
      (buckets_of-bounds (with_min min_value (sorted_set steps)) bs e)
