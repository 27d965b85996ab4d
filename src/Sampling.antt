-- ===== src/Sampling.antt =====
-- skywalking/sampling/sampling_service.py: the factor that counts sampled traces. The lock of `SamplingService` makes each method one step; the async service has the
-- same bodies.
mod Tests
use skywalking_python.Prelude.{
  ℕ, zero, suc, ◌+◌, ◌-◌, ◌*◌, ◌≤◌, ◌≡◌, Bool, true, false, List, [], ◌∷◌, arith, ltb,
  if◌then◌else◌, min,
}

pub record Sampler : Type 0 where
  pub sampling_factor : ℕ

-- `SamplingServiceBase.__init__`
abbrev pub init : Sampler
init = record { sampling_factor = 0 }

-- `can_sampling`
abbrev pub can_sampling : ℕ → Sampler → Bool
can_sampling n s = ltb s.sampling_factor n

-- `_set_sampling_factor`, `_incr_sampling_factor`
abbrev pub set_sampling_factor : ℕ → Sampler → Sampler
set_sampling_factor v s = record s { sampling_factor = v }

abbrev pub incr_sampling_factor : Sampler → Sampler
incr_sampling_factor s = record s { sampling_factor = s.sampling_factor + 1 }

-- `try_sampling`, with the configured `sample_n_per_3_secs` as its first argument.
unfoldable pub try_sampling : ℕ → Sampler → Bool × Sampler
try_sampling n s = if can_sampling n s then (true, incr_sampling_factor s) else (false, s)

-- `force_sampled`
unfoldable pub force_sampled : Sampler → Sampler
force_sampled s = incr_sampling_factor s

-- `reset_sampling_factor`
unfoldable pub reset_sampling_factor : Sampler → Sampler
reset_sampling_factor s = set_sampling_factor 0 s

-- What the threads of the process do to the sampler, in the order of the lock.
pub data Event : Type 0 where
  try force reset : Event

unfoldable pub apply : ℕ → Event → Sampler → Sampler
apply n try s = (try_sampling n s).1
apply n force s = force_sampled s
apply n reset s = reset_sampling_factor s

-- How often `try_sampling` answers that the trace is sampled, in a run.
unfoldable pub accepted : ℕ → List Event → Sampler → ℕ
unfolding apply try_sampling
accepted n [] s = 0
accepted n (try ∷ es) s = (if (try_sampling n s).0 then 1 else 0) + accepted n es (apply n try s)
accepted n (force ∷ es) s = accepted n es (apply n force s)
accepted n (reset ∷ es) s = accepted n es (apply n reset s)

abbrev resets : List Event → ℕ
resets [] = 0
resets (reset ∷ es) = resets es + 1
resets (try ∷ es) = resets es
resets (force ∷ es) = resets es

-- Whatever the interleaving of tries, forced samples and resets, the tries to which `try_sampling`
-- answers that the trace is sampled are at most what was left of the quota, plus one quota for each reset.
pub accepted_bounded :
    (n : ℕ) (es : List Event) (s : Sampler)
    → accepted n es s ≤ (n - s.sampling_factor) + n * resets es
unfolding accepted apply try_sampling force_sampled reset_sampling_factor
accepted_bounded n [] s = omega arith
accepted_bounded n (try ∷ es) s = ground (arith, accepted_bounded n es (apply n try s))
accepted_bounded n (force ∷ es) s = ground (arith, accepted_bounded n es (apply n force s))
accepted_bounded n (reset ∷ es) s = ground (arith, accepted_bounded n es (apply n reset s))

abbrev tries : ℕ → List Event
tries zero = []
tries (suc k) = try ∷ tries k

-- Within one window k tries are answered with true until the quota is used up, and no further.
pub accepted-tries :
    (n k : ℕ) (s : Sampler) → accepted n (tries k) s ≡ min k (n - s.sampling_factor)
unfolding accepted apply try_sampling
accepted-tries n zero s = omega arith
accepted-tries n (suc k) s = ground (arith, accepted-tries n k (apply n try s))
