-- ===== src/Profile/Profiler/Stepping.antt =====
-- The steps of `ProfileThread` and `stop_tracing_profile` in skywalking/profile/profile_context.py.
use skywalking_python.Prelude.{
  ℕ, suc, ◌<◌, ◌≡◌, refl, Bool, true, false, ◌&&◌, not, Option, none, some, arith, if◌then◌else◌,
  ◌==◌, get_elem?, set, ap, ◌∙◌, sym, inl, inr, get_elem?_bound,
}
use skywalking_python.Prelude.Int.{ℤ, pos, ◌-ℤ◌, ltb_ℤ}
use skywalking_python.Prelude.Result.{Result, ok, err}
use skywalking_python.Utils.AtomicArray
use skywalking_python.Utils.AtomicArray.{AtomicArray, compare_and_set_at, set_at, get_item_cases}
use skywalking_python.Trace.Model.{put_at}
use skywalking_python.Profile.Task.{Status, none_status, pending, profiling, stopped, ProfileTask}
use skywalking_python.Profile.Context.{Shared}
use skywalking_python.Profile.Profiler.{
  Pc, visiting, scanning, releasing, ended, System, profile_step, proceed, set_status,
  start_profiling_if_need, dump, build_snapshot, is_start_profileable, visit_by, visit, clear, scan,
}
use skywalking_python.Profile.Sharing.{IsSound, held_by, slots}
use skywalking_python.Profile.Profiler.Releasing.{
  profiled, Idle, idle-IsSound, clears-IsSound, releases-IsSound,
}

if-Idle :
    (old : Pc) (s : Shared) (c : Bool) (x y : Pc × Shared)
    → Idle old s x
    → Idle old s y
    → Idle old s (if c then x else y)
if-Idle old s true x y h k = h
if-Idle old s false x y h k = k

module _ (n : ℕ) (task : ProfileTask) (now : ℤ) (readable : Bool) where
  proceed-Idle :
      (o : Option ℕ) (v : Status) (idx : ℕ) (s : Shared)
      → Idle
          (visiting idx)
          s
          (proceed n task (set_status n task o v s) false (visiting (suc idx)) s)
  unfolding proceed set_status
  proceed-Idle none v idx s = (refl, refl, refl)
  proceed-Idle (some r) v idx s = (refl, refl, refl)

  start-Idle :
      (p idx : ℕ) (s : Shared) → Idle (visiting idx) s (start_profiling_if_need n task now p idx s)
  unfolding start_profiling_if_need
  start-Idle p idx s =
      let profiler = s.profilers p in
      let context = s.contexts profiler.trace_context in
      let started : Shared = record s {
        profilers = put_at p (record profiler { profile_start_time = now }) s.profilers;
      } in
      if-Idle (visiting idx) s (ltb_ℤ task.min_duration_threshold (now -ℤ context.create_time)) _ _
        (proceed-Idle context.profile_status profiling idx started) (refl, refl, refl)

  dump-Idle :
      (may : Bool) (p idx : ℕ) (s : Shared) → Idle (visiting idx) s (dump n task may p idx s)
  unfolding dump
  dump-Idle true p idx s = (refl, refl, refl)
  dump-Idle false p idx s = (refl, refl, refl)

  build-Idle :
      (p idx : ℕ) (s : Shared) → Idle (visiting idx) s (build_snapshot n task readable p idx s)
  unfolding build_snapshot is_start_profileable
  build-Idle p idx s =
      let (may, t) = is_start_profileable n task s in
      if-Idle (visiting idx) s (not readable) _ _ (dump-Idle false p idx s) (
        if-Idle (visiting idx) s ((s.profilers p).dump_sequence == 0) _ _ (dump-Idle may p idx t)
          (dump-Idle true p idx s))

  visit_by-Idle :
      (status : Status) (p idx : ℕ) (s : Shared)
      → Idle (visiting idx) s (visit_by n task status now readable p idx s)
  unfolding visit_by
  visit_by-Idle none_status p idx s = (refl, refl, refl)
  visit_by-Idle pending p idx s = start-Idle p idx s
  visit_by-Idle profiling p idx s = build-Idle p idx s
  visit_by-Idle stopped p idx s = (refl, refl, refl)

  visit-Idle :
      (idx : ℕ) (r : Result (Option ℕ)) (s : Shared)
      → Idle (visiting idx) s (visit n task now readable idx r s)
  unfolding visit
  visit-Idle idx (err x) s = (refl, refl, refl)
  visit-Idle idx (ok none) s = (refl, refl, refl)
  visit-Idle idx (ok (some p)) s = visit_by-Idle (s.statuses (s.profilers p).profile_status) p idx s

  module _ (s : System) (h : IsSound n s) where
    idle :
        (old : Pc) (r : Pc × Shared)
        → s.thread ≡ old
        → Idle old s.shared r
        → IsSound n (profiled r s)
    idle old r th (c, p, l) = idle-IsSound n s h r (c, p, l ∙ sym (ap held_by th))

    -- The slot is cleared, whether the status of its context can be set or not.
    clear-IsSound :
        (c idx resume p : ℕ) (own : Option ℕ) (t : Shared)
        → s.thread ≡ scanning c idx resume
        → get_elem? (slots s) idx ≡ some (some p)
        → t ≡ record s.shared {
          profiling_segment_slots = record s.shared.profiling_segment_slots {
            array = set (slots s) idx none;
          };
        }
        → IsSound n (
            profiled (proceed n task (set_status n task own stopped t) true (releasing resume) t) s)
    unfolding proceed set_status
    clear-IsSound c idx resume p none t th full e =
        clears-IsSound n s h idx p _ _ full (ap held_by th) refl
          (ap (λ x. x.current_profiling_cnt) e) (ap (λ x. x.profiling_segment_slots) e)
    clear-IsSound c idx resume p (some r) t th full e =
        clears-IsSound n s h idx p _ _ full (ap held_by th) refl
          (ap (λ x. x.current_profiling_cnt) e) (ap (λ x. x.profiling_segment_slots) e)

    scan-IsSound :
        (c idx resume : ℕ) (v : Option ℕ)
        → s.thread ≡ scanning c idx resume
        → get_elem? (slots s) idx ≡ some v
        → IsSound n (profiled (scan n task c idx resume (ok v) s.shared) s)
    unfolding scan clear
    scan-IsSound c idx resume none th at = idle (scanning c idx resume) _ th (refl, refl, refl)
    scan-IsSound c idx resume (some p) th at = by_match ((s.shared.profilers p).trace_context == c)
      where
        array : AtomicArray ℕ
        array = s.shared.profiling_segment_slots

        inside : idx < array.size
        inside = omega (arith, get_elem?_bound (slots s) idx (some p) at, h.valid)

        by_match :
            (same : Bool)
            → IsSound n (
                profiled
                  (if same
                    then clear n task p idx resume (AtomicArray.set (pos idx) none array) s.shared
                    else (scanning c (suc idx) resume, s.shared))
                  s)
        by_match true = rw (set_at idx none array inside) (
            clear-IsSound c idx resume p
              (s.shared.contexts (s.shared.profilers p).trace_context).profile_status _ th at refl)
        by_match false = idle (scanning c idx resume) _ th (refl, refl, refl)

    pub profile-IsSound :
        (pc : Pc)
        → s.thread ≡ pc
        → IsSound n (profiled (profile_step n task now readable pc s.shared) s)
    unfolding profile_step
    profile-IsSound (visiting idx) th = idle (visiting idx) _ th (
        if-Idle (visiting idx) s.shared (idx == 0 && s.shared.stop_event) _ _ (refl, refl, refl)
          (visit-Idle idx (AtomicArray.get_item (pos idx) s.shared.profiling_segment_slots)
            s.shared))
    profile-IsSound (scanning c idx resume) th =
        elim (get_item_cases idx s.shared.profiling_segment_slots) [
          | inl e ↦ rw e (idle (scanning c idx resume) _ th (refl, refl, refl))
          | inr (v, e, at) ↦ rw e (scan-IsSound c idx resume v th at)
        ]
    profile-IsSound (releasing resume) th =
        releases-IsSound n s h _ _ (ap held_by th) refl refl refl
    profile-IsSound (ended held) th = idle (ended held) _ th (refl, refl, refl)
