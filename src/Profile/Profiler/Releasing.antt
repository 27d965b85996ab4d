-- ===== src/Profile/Profiler/Releasing.antt =====
-- Each kind of step of the profiling thread of skywalking/profile/profile_context.py.
use skywalking_python.Prelude.{ℕ, suc, ◌≡◌, none, some, arith, get_elem?, set, length-set, ap, ◌∙◌}
use skywalking_python.Prelude.Int.{ℤ, pos, negsuc, ◌+ℤ◌}
use skywalking_python.Profile.Context.{Shared}
use skywalking_python.Profile.Profiler.{Pc, System}
use skywalking_python.Profile.Context.Slots.{occupied_from-set}
use skywalking_python.Profile.Sharing.{IsSound, in_use, held_by, slots}

one_less : (u : ℤ) (m : ℕ) → u ≡ pos (suc m) → u +ℤ negsuc 0 ≡ pos m
unfolding ◌+ℤ◌
one_less u m e = rw e (ground arith)

-- The profiling thread.
abbrev pub profiled : Pc × Shared → System → System
profiled r s = record s { shared = r.1; thread = r.0 }

-- A step of the profiling thread that clears nothing and releases nothing.
abbrev pub Idle : Pc → Shared → Pc × Shared → Type 0
Idle old s r =
    (r.1.current_profiling_cnt ≡ s.current_profiling_cnt)
    × (r.1.profiling_segment_slots ≡ s.profiling_segment_slots)
    × (held_by r.0 ≡ held_by old)

module _ (n : ℕ) (s : System) (h : IsSound n s) where
  pub idle-IsSound : (r : Pc × Shared) → Idle s.thread s.shared r → IsSound n (profiled r s)
  unfolding in_use
  idle-IsSound (pc, t) (c, p, l) = record {
    size = rw p h.size;
    valid = rw p h.valid;
    counts = rw c (rw p (rw l h.counts));
    limited = rw p (rw l h.limited);
    fits = λ k b. rw p (h.fits k b);
    found = h.found;
  }

  -- A slot is cleared: it still counts, as the one being released.
  pub clears-IsSound :
      (idx p : ℕ) (pc : Pc) (t : Shared)
      → get_elem? (slots s) idx ≡ some (some p)
      → held_by s.thread ≡ 0
      → held_by pc ≡ 1
      → t.current_profiling_cnt ≡ s.shared.current_profiling_cnt
      → t.profiling_segment_slots
        ≡ record s.shared.profiling_segment_slots { array = set (slots s) idx none }
      → IsSound n (profiled (pc, t) s)
  unfolding in_use
  clears-IsSound idx p pc t full before after c q =
      let fewer = λ (k : ℕ). occupied_from-set k idx (slots s) (some p) none full in
      record {
        size = rw q h.size;
        valid = rw q (length-set (slots s) idx none ∙ h.valid);
        counts = rw c (rw q (h.counts ∙ ap pos (ground (arith, before, after, fewer 0))));
        limited = rw q (ground (arith, before, after, fewer 0, h.limited));
        fits = λ k b. rw q (ground (arith, fewer k, h.fits k b));
        found = h.found;
      }

  pub releases-IsSound :
      (pc : Pc) (t : Shared)
      → held_by s.thread ≡ 1
      → held_by pc ≡ 0
      → t.current_profiling_cnt.var ≡ s.shared.current_profiling_cnt.var +ℤ negsuc 0
      → t.profiling_segment_slots ≡ s.shared.profiling_segment_slots
      → IsSound n (profiled (pc, t) s)
  unfolding in_use
  releases-IsSound pc t before after c q = record {
    size = rw q h.size;
    valid = rw q h.valid;
    counts = rw q (
        c
        ∙ one_less s.shared.current_profiling_cnt.var _
            (h.counts ∙ ap pos (omega (arith, before, after))));
    limited = rw q (omega (arith, before, after, h.limited));
    fits = λ k b. rw q (h.fits k b);
    found = h.found;
  }
