-- ===== src/Profile/Context/Slots.antt =====
-- Counting in skywalking/profile/profile_context.py: the slots that are occupied and the attempts
-- that look for one, from an index on.
use skywalking_python.Prelude.{
  ℕ, zero, suc, ◌+◌, ◌≤◌, ◌≡◌, refl, Option, none, some, List, [], ◌∷◌, ◌++◌, arith, if◌then◌else◌,
  leb, get_elem?, set, replicate,
}
use skywalking_python.Profile.Context.{
  Stage, entered, counted, allowed, seeking, returned, raised, finished, Attempt,
}

module _ {A : Type 0} where
  unfoldable pub sum_by : (A → ℕ) → List A → ℕ
  sum_by w [] = 0
  sum_by w (x ∷ xs) = w x + sum_by w xs

  pub sum_by-set :
      (w : A → ℕ) (xs : List A) (i : ℕ) (old new : A)
      → get_elem? xs i ≡ some old
      → sum_by w (set xs i new) + w old ≡ sum_by w xs + w new
  unfolding sum_by
  sum_by-set w [] i old new h = cc h
  sum_by-set w (x ∷ xs) zero old new h = grind arith
  sum_by-set w (x ∷ xs) (suc i) old new h = omega (arith, sum_by-set w xs i old new h)

  pub sum_by-append_one :
      (w : A → ℕ) (xs : List A) (a : A) → sum_by w (xs ++ a ∷ []) ≡ sum_by w xs + w a
  unfolding sum_by
  sum_by-append_one w [] a = omega arith
  sum_by-append_one w (x ∷ xs) a = omega (arith, sum_by-append_one w xs a)

  pub sum_by_elem :
      (w : A → ℕ) (xs : List A) (i : ℕ) (a : A) → get_elem? xs i ≡ some a → w a ≤ sum_by w xs
  unfolding sum_by
  sum_by_elem w [] i a h = cc h
  sum_by_elem w (x ∷ xs) zero a h = grind arith
  sum_by_elem w (x ∷ xs) (suc i) a h = omega (arith, sum_by_elem w xs i a h)

  pub sum_by_mono : (v w : A → ℕ) (xs : List A) → ((a : A) → v a ≤ w a) → sum_by v xs ≤ sum_by w xs
  unfolding sum_by
  sum_by_mono v w [] h = omega arith
  sum_by_mono v w (x ∷ xs) h = omega (arith, h x, sum_by_mono v w xs h)

abbrev pub taken : Option ℕ → ℕ
taken none = 0
taken (some p) = 1

pub occupied_from : ℕ → List (Option ℕ) → ℕ
occupied_from k [] = 0
occupied_from zero (o ∷ os) = taken o + occupied_from zero os
occupied_from (suc k) (o ∷ os) = occupied_from k os

pub occupied_from-set :
    (k i : ℕ) (l : List (Option ℕ)) (old new : Option ℕ)
    → get_elem? l i ≡ some old
    → occupied_from k (set l i new) + (if leb k i then taken old else 0)
      ≡ occupied_from k l + (if leb k i then taken new else 0)
unfolding occupied_from
occupied_from-set k i [] old new h = cc h
occupied_from-set zero zero (o ∷ os) old new h = grind arith
occupied_from-set zero (suc i) (o ∷ os) old new h =
    ground (arith, occupied_from-set zero i os old new h)
occupied_from-set (suc k) zero (o ∷ os) old new h = ground arith
occupied_from-set (suc k) (suc i) (o ∷ os) old new h =
    ground (arith, occupied_from-set k i os old new h)

-- An occupied slot counts from its index on, and not from the next.
pub occupied_from_at :
    (i p : ℕ) (l : List (Option ℕ))
    → get_elem? l i ≡ some (some p)
    → occupied_from i l ≡ suc (occupied_from (suc i) l)
unfolding occupied_from
occupied_from_at i p [] h = cc h
occupied_from_at zero p (none ∷ os) h = cc h
occupied_from_at zero p (some q ∷ os) h = omega arith
occupied_from_at (suc i) p (o ∷ os) h = occupied_from_at i p os h

-- Whether an attempt looks for a slot from the index on.
abbrev pub seeks : ℕ → Stage → ℕ
seeks k (seeking p idx) = if leb k idx then 1 else 0
seeks k _ = 0

abbrev pub seeking_from : ℕ → List Attempt → ℕ
seeking_from k attempts = sum_by (λ a. seeks k a.stage) attempts

seeks_next : (k : ℕ) (stage : Stage) → seeks (suc k) stage ≤ seeks k stage
seeks_next k entered = omega arith
seeks_next k (counted n) = omega arith
seeks_next k (allowed n) = omega arith
seeks_next k (seeking p idx) = ground arith
seeks_next k (returned b r) = omega arith
seeks_next k raised = omega arith
seeks_next k (finished b) = omega arith

pub seeking_from_next :
    (k : ℕ) (attempts : List Attempt) → seeking_from (suc k) attempts ≤ seeking_from k attempts
seeking_from_next k attempts = sum_by_mono _ _ attempts (λ a. seeks_next k a.stage)

-- Of a new array no slot is occupied.
pub occupied_from-empty : (k n : ℕ) → occupied_from k (replicate n none) ≡ 0
unfolding occupied_from
occupied_from-empty k zero = refl
occupied_from-empty zero (suc n) = omega (arith, occupied_from-empty zero n)
occupied_from-empty (suc k) (suc n) = occupied_from-empty k n
