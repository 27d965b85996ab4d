-- ===== src/Agent/Backoff.antt =====
-- `report_with_backoff` of skywalking/agent/__init__.py: the wait between the calls of a reporter.
-- Waits are in milliseconds, so the sources' 0.02 and 0.5 seconds are 20 and 500.
use Prim.Native.Nat.{◌^◌}
use native.Mathlib.Decide.{dec_le}
use native.Mathlib.Nat.{pow-suc}
use skywalking_python.Prelude.{
  ◌∙◌, ℕ, zero, suc, ◌*◌, ◌≤◌, ◌<◌, ◌≡◌, refl, Bool, true, false, List, [], ◌∷◌, ◌++◌, arith,
  if◌then◌else◌, min, ◌==◌, replicate,
}

-- How one call of the reporter ends: it returns a flag (`None` counts as false), or it raises.
pub data Outcome : Type 0 where
  returns : Bool → Outcome
  raises : Outcome

-- `wait * 2 or 1`, in seconds
abbrev double : ℕ → ℕ
double wait = if wait * 2 == 0 then 1000 else wait * 2

-- The wait after a call.
pub next_wait : ℕ → ℕ → Outcome → ℕ
next_wait base wait (returns flag) = if flag then 0 else base
next_wait base wait raises = min 60000 (double wait)

-- The loop: the waits that the calls with these outcomes lead to, until `_finished` is set.
pub waits : ℕ → ℕ → List Outcome → List ℕ
waits base wait [] = []
waits base wait (o ∷ os) = next_wait base wait o ∷ waits base (next_wait base wait o) os

-- `backoff_wrapper` begins at the base wait.
pub backoff : ℕ → List Outcome → List ℕ
backoff init_wait os = waits init_wait init_wait os

abbrev after : ℕ → ℕ → List Outcome → ℕ
after base wait [] = wait
after base wait (o ∷ os) = after base (next_wait base wait o) os

-- The wait that the loop is at after calls with these outcomes.
pub wait_after : ℕ → List Outcome → ℕ
wait_after init_wait os = after init_wait init_wait os

abbrev failures : ℕ → List Outcome
failures k = replicate k raises

pow_pos : (k : ℕ) → 0 < 2 ^ k
pow_pos zero = omega arith
pow_pos (suc k) = omega (arith, pow-suc 2 k, pow_pos k)

-- Doubling once more, under the cap.
capped_double : (w p : ℕ) → 0 < p → min 60000 (min 60000 (w * 2) * p) ≡ min 60000 (w * (p * 2))
capped_double w p h = elim (dec_le (w * 2) 60000) [
  | yes small ↦ rw (min_right small) (omega arith)
  | no large ↦ rw (min_left large) (grind (arith, large, h))
]
  where
    min_right : w * 2 ≤ 60000 → min 60000 (w * 2) ≡ w * 2
    min_right le = omega arith

    min_left : ¬ (w * 2 ≤ 60000) → min 60000 (w * 2) ≡ 60000
    min_left gt = omega arith

after-failures :
    (base w k : ℕ) → 0 < w → w ≤ 60000 → after base w (failures k) ≡ min 60000 (w * 2 ^ k)
unfolding next_wait
after-failures base w zero h le = omega arith
after-failures base w (suc k) h le =
    after-failures base (min 60000 (double w)) k (ground arith) (omega arith)
    ∙ (rw (doubled, pow-suc 2 k) (capped_double w (2 ^ k) (pow_pos k)))
  where
    doubled : double w ≡ w * 2
    doubled = ground arith

after-append :
    (base w : ℕ) (os ps : List Outcome) → after base w (os ++ ps) ≡ after base (after base w os) ps
after-append base w [] ps = refl
after-append base w (o ∷ os) ps = after-append base (next_wait base w o) os ps

-- With a base wait that is not 0: after a call that returned, and then one failure or more in a
-- row, the wait does not depend on the history before it: it is the base (or half a second after
-- a call that left work in the queue) doubled once for each failure, never more than a minute.
pub wait_after-failures :
    (base k : ℕ) (os : List Outcome) (flag : Bool)
    → 0 < base
    → wait_after base (os ++ returns flag ∷ failures (suc k))
      ≡ min 60000 ((if flag then 500 else base) * 2 ^ suc k)
unfolding wait_after next_wait
wait_after-failures base k os true h =
    after-append base base os (returns true ∷ failures (suc k))
    ∙ after-failures base 1000 k (omega arith) (omega arith)
    ∙ rw (pow-suc 2 k) (omega arith)
wait_after-failures base k os false h =
    after-append base base os (returns false ∷ failures (suc k))
    ∙ after-failures base (min 60000 (double base)) k (ground arith) (omega arith)
    ∙ rw (doubled, pow-suc 2 k) (capped_double base (2 ^ k) (pow_pos k))
  where
    doubled : double base ≡ base * 2
    doubled = ground arith
