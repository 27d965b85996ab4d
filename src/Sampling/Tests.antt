-- ===== src/Sampling/Tests.antt =====
-- The bound of the sampler at a concrete run.
use skywalking_python.Prelude.{◌+◌, ◌*◌, ◌≤◌, ◌-◌, ◌∷◌, []}
use skywalking_python.Sampling.{init, try, force, reset, accepted, accepted_bounded}

accepted_bounded_example : accepted 2 (try ∷ force ∷ try ∷ reset ∷ try ∷ []) init ≤ (2 - 0) + 2 * 1
accepted_bounded_example = accepted_bounded 2 (try ∷ force ∷ try ∷ reset ∷ try ∷ []) init
