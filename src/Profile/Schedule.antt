-- ===== src/Profile/Schedule.antt =====
-- All threads of an execution context of skywalking/profile/profile_context.py, interleaved.
use skywalking_python.Prelude.{
  ℕ, ◌≤◌, ◌≡◌, refl, Bool, true, false, Option, none, some, List, [], ◌∷◌, ◌++◌, arith, Text,
  get_elem?, ap, length-replicate, All,
}
use skywalking_python.Prelude.Int.{ℤ, pos}
use skywalking_python.Utils.AtomicArray
use skywalking_python.Utils.AtomicArray.{AtomicArray, compare_and_set_at, set_at, get_item_cases}
use skywalking_python.Profile.Task.{ProfileTask}
use skywalking_python.Profile.Context.{
  Shared, new_execution_context, Stage, entered, counted, allowed, seeking, returned, raised,
  finished, Attempt,
}
use skywalking_python.Profile.Profiler.{visiting, System, profile_step}
use skywalking_python.Profile.Context.Slots.{
  sum_by, sum_by-append_one, seeks, seeking_from, occupied_from-empty,
}
use skywalking_python.Profile.Sharing.{IsSound, in_use, faults}
use skywalking_python.Profile.Profiler.Releasing.{profiled}
use skywalking_python.Profile.Context.Attempting.{stepped_at, stepped-IsSound}
use skywalking_python.Profile.Profiler.Stepping.{profile-IsSound}

-- A thread enters `attempt_profiling`; the i-th that did makes a step; the profiling thread makes a
-- step, at a time and with a thread that can be read or not; `stop_profiling` is called.
pub data Event : Type 0 where
  begins : ℕ → Text → Bool → Event
  steps : ℕ → Event
  profiles : ℤ → Bool → Event
  stops : Event

-- A new execution context, and its profiling thread at its start.
pub started : ℕ → Shared → System
started n s = record { shared = new_execution_context n s; attempts = []; thread = visiting 0 }

module _ (n : ℕ) (task : ProfileTask) where
  step_at : Option Attempt → ℕ → System → System
  step_at none i s = s
  step_at (some a) i s = stepped_at n task a.stage i a s

  pub apply : Event → System → System
  apply (begins c op recheck) s = record s {
    attempts =
        s.attempts
        ++ record { trace_context = c; first_span_opname = op; recheck = recheck; stage = entered }
          ∷ [];
  }
  apply (steps i) s = step_at (get_elem? s.attempts i) i s
  apply (profiles now readable) s = profiled (profile_step n task now readable s.thread s.shared) s
  apply stops s = record s { shared = record s.shared { stop_event = true } }

  pub history : List Event → System → System
  history [] s = s
  history (e ∷ es) s = history es (apply e s)

  begins-IsSound :
      (c : ℕ) (op : Text) (recheck : Bool) (s : System)
      → IsSound n s
      → IsSound n (apply (begins c op recheck) s)
  unfolding apply in_use
  begins-IsSound c op recheck s h =
      let a : Attempt = record {
        trace_context = c;
        first_span_opname = op;
        recheck = recheck;
        stage = entered;
      } in
      let same : (k : ℕ) → seeking_from k (s.attempts ++ a ∷ []) ≡ seeking_from k s.attempts =
        λ k. omega (arith, sum_by-append_one (λ b. seeks k b.stage) s.attempts a) in
      record {
        size = h.size;
        valid = h.valid;
        counts = rw (same 0) h.counts;
        limited = rw (same 0) h.limited;
        fits = λ k b. rw (same k) (h.fits k b);
        found = omega (arith, sum_by-append_one (λ b. faults n b.stage) s.attempts a, h.found);
      }

  steps-IsSound :
      (o : Option Attempt) (i : ℕ) (s : System)
      → get_elem? s.attempts i ≡ o
      → IsSound n s
      → IsSound n (step_at o i s)
  unfolding step_at
  steps-IsSound none i s e h = h
  steps-IsSound (some a) i s e h = stepped-IsSound n task i a s e h a.stage refl

  apply-IsSound : (e : Event) (s : System) → IsSound n s → IsSound n (apply e s)
  unfolding apply in_use
  apply-IsSound (begins c op recheck) s h = begins-IsSound c op recheck s h
  apply-IsSound (steps i) s h = steps-IsSound (get_elem? s.attempts i) i s refl h
  apply-IsSound (profiles now readable) s h = profile-IsSound n task now readable s h s.thread refl
  apply-IsSound stops s h = record {
    size = h.size;
    valid = h.valid;
    counts = h.counts;
    limited = h.limited;
    fits = h.fits;
    found = h.found;
  }

  schedule-IsSound : (es : List Event) (s : System) → IsSound n s → IsSound n (history es s)
  unfolding history
  schedule-IsSound [] s h = h
  schedule-IsSound (e ∷ es) s h = schedule-IsSound es (apply e s) (apply-IsSound e s h)

started-IsSound : (n : ℕ) (s : Shared) → IsSound n (started n s)
unfolding started new_execution_context AtomicArray.create in_use sum_by
started-IsSound n s = record {
  size = refl;
  valid = length-replicate n none;
  counts = ap pos (omega (arith, occupied_from-empty 0 n));
  limited = omega (arith, occupied_from-empty 0 n);
  fits = λ k b. omega (arith, b, occupied_from-empty k n);
  found = refl;
}

-- The last `return` of `attempt_profiling`, for want of a slot.
abbrev pub out_of_slots : Stage → Bool
out_of_slots (returned lost r) = lost
out_of_slots (finished lost) = lost
out_of_slots _ = false

sound_stage : (n : ℕ) (stage : Stage) → faults n stage ≡ 0 → out_of_slots stage ≡ false
sound_stage n entered h = refl
sound_stage n (counted u) h = refl
sound_stage n (allowed u) h = refl
sound_stage n (seeking p idx) h = refl
sound_stage n (returned true r) h = cc h
sound_stage n (returned false r) h = refl
sound_stage n raised h = refl
sound_stage n (finished true) h = cc h
sound_stage n (finished false) h = refl

sound_stages :
    (n : ℕ) (attempts : List Attempt)
    → sum_by (λ a. faults n a.stage) attempts ≡ 0
    → All (λ a. out_of_slots a.stage ≡ false) attempts
unfolding sum_by
sound_stages n [] h = tt
sound_stages n (a ∷ attempts) h =
    (sound_stage n a.stage (omega (arith, h)), sound_stages n attempts (omega (arith, h)))

-- From a new execution context on, in any interleaving of any number of attempts, the profiling
-- thread and a stop: the count is the number of the occupied slots, of the attempts that look for
-- a slot and of the slot being released; it is never above the number of slots; and no attempt
-- that counted itself in ends without a slot.
pub history-shares :
    (n : ℕ) (task : ProfileTask) (s : Shared) (es : List Event)
    → let after = history n task es (started n s) in
      (after.shared.current_profiling_cnt.var ≡ pos (in_use after))
      × (in_use after ≤ n)
      × All (λ a. out_of_slots a.stage ≡ false) after.attempts
history-shares n task s es =
    let h = schedule-IsSound n task es (started n s) (started-IsSound n s) in
    (h.counts, h.limited, sound_stages n _ h.found)
