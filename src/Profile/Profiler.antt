-- ===== src/Profile/Profiler.antt =====
-- skywalking/profile/profile_context.py in the thread model: `ProfileThread`, what it does to the
-- profilers, and `stop_tracing_profile`, which only this thread calls; a step at a time.
pub mod Releasing
pub mod Stepping
use skywalking_python.Prelude.{
  ℕ, suc, ◌+◌, Bool, true, false, ◌||◌, not, Option, none, some, List, [], ◌∷◌, ◌++◌, if◌then◌else◌,
  ◌&&◌, ltb, leb, ◌==◌, Text, text_eq, get_elem?, set,
}
use skywalking_python.Prelude.Int.{ℤ, pos, negsuc, ◌+ℤ◌, ◌-ℤ◌, ltb_ℤ, leb_ℤ, eqb_ℤ}
use skywalking_python.Prelude.Result.{Result, ok, err}
use skywalking_python.Utils.AtomicRef
use skywalking_python.Utils.AtomicRef.{AtomicRef, add_and_get}
use skywalking_python.Utils.AtomicArray
use skywalking_python.Utils.AtomicArray.{AtomicArray}
use skywalking_python.Trace.Model.{put_at}
use skywalking_python.Profile.Task.{
  Status, none_status, pending, profiling, stopped, is_being_watched, ProfileTask,
}
use skywalking_python.Profile.Context.{Shared, ThreadProfiler, TraceContext, Snapshot, Attempt}

-- How far the profiling thread is: at a slot of its loop, in the loop of `stop_tracing_profile`, or
-- before the count goes down there. `ended` says whether that was still to come.
pub data Pc : Type 0 where
  visiting : (idx : ℕ) → Pc
  scanning : (trace_context idx resume : ℕ) → Pc
  releasing : (resume : ℕ) → Pc
  ended : (held : Bool) → Pc

module _ (max_parallel : ℕ) (task : ProfileTask) where
  -- `update_status` on the status of a trace context: `AttributeError` where it has none.
  set_status : Option ℕ → Status → Shared → Option Shared
  set_status none v s = none
  set_status (some r) v s = some (record s { statuses = put_at r v s.statuses })

  proceed : Option Shared → Bool → Pc → Shared → Pc × Shared
  proceed none held next s = (ended held, s)
  proceed (some t) held next s = (next, t)

  -- `start_profiling_if_need`
  start_profiling_if_need : ℤ → ℕ → ℕ → Shared → Pc × Shared
  unfolding set_status proceed
  start_profiling_if_need now p idx s =
      let profiler = s.profilers p in
      let context = s.contexts profiler.trace_context in
      let started = record s {
        profilers = put_at p (record profiler { profile_start_time = now }) s.profilers;
      } in
      if ltb_ℤ task.min_duration_threshold (now -ℤ context.create_time)
      then proceed (set_status context.profile_status profiling started) false (visiting (suc idx))
          started
      else (visiting (suc idx), s)

  -- `is_start_profileable`
  unfoldable pub is_start_profileable : Shared → Bool × Shared
  is_start_profileable s =
      let (v, total) = add_and_get (pos 1) s.total_started_profiling_cnt in
      (leb_ℤ v task.max_sampling_count, record s { total_started_profiling_cnt = total })

  -- A snapshot, or none where a first dump is one too many; then the tracing is stopped.
  dump : Bool → ℕ → ℕ → Shared → Pc × Shared
  dump false p idx s = (scanning (s.profilers p).trace_context 0 idx, s)
  dump true p idx s =
      let profiler = s.profilers p in
      let next = record profiler { dump_sequence = profiler.dump_sequence + 1 } in
      (
        visiting (suc idx),
        record s {
          snapshots =
              s.snapshots ++ record { profiler = p; sequence = profiler.dump_sequence } ∷ [];
          profilers = put_at p next s.profilers;
        },
      )

  -- `build_snapshot`, where `readable` says that the thread lives and has a stack
  build_snapshot : Bool → ℕ → ℕ → Shared → Pc × Shared
  unfolding dump
  build_snapshot readable p idx s =
      if not readable
      then dump false p idx s
      else if (s.profilers p).dump_sequence == 0
      then (let (may, t) = is_start_profileable s in dump may p idx t)
      else dump true p idx s

  -- One slot of the loop of `profiling`
  visit_by : Status → ℤ → Bool → ℕ → ℕ → Shared → Pc × Shared
  unfolding start_profiling_if_need build_snapshot
  visit_by pending now readable p idx s = start_profiling_if_need now p idx s
  visit_by profiling now readable p idx s = build_snapshot readable p idx s
  visit_by _ now readable p idx s = (visiting (suc idx), s)

  -- The end of the slots ends the loop; the thread sleeps and begins again.
  visit : ℤ → Bool → ℕ → Result (Option ℕ) → Shared → Pc × Shared
  unfolding visit_by
  visit now readable idx (err e) s = (visiting 0, s)
  visit now readable idx (ok none) s = (visiting (suc idx), s)
  visit now readable idx (ok (some p)) s =
      visit_by (s.statuses (s.profilers p).profile_status) now readable p idx s

  -- One slot of the loop of `stop_tracing_profile`
  clear : ℕ → ℕ → ℕ → Result (AtomicArray ℕ) → Shared → Pc × Shared
  unfolding set_status proceed
  clear p idx resume (err e) s = (ended false, s)
  clear p idx resume (ok slots) s =
      let t = record s { profiling_segment_slots = slots } in
      let own = (s.contexts (s.profilers p).trace_context).profile_status in
      proceed (set_status own stopped t) true (releasing resume) t

  scan : ℕ → ℕ → ℕ → Result (Option ℕ) → Shared → Pc × Shared
  unfolding clear
  scan c idx resume (err e) s = (visiting (suc resume), s)
  scan c idx resume (ok none) s = (scanning c (suc idx) resume, s)
  scan c idx resume (ok (some p)) s =
      if (s.profilers p).trace_context == c
      then clear p idx resume (AtomicArray.set (pos idx) none s.profiling_segment_slots) s
      else (scanning c (suc idx) resume, s)

  -- One step of the profiling thread at a time
  unfoldable pub profile_step : ℤ → Bool → Pc → Shared → Pc × Shared
  unfolding visit scan
  profile_step now readable (visiting idx) s =
      if idx == 0 && s.stop_event
      then (ended false, s)
      else visit now readable idx (AtomicArray.get_item (pos idx) s.profiling_segment_slots) s
  profile_step now readable (scanning c idx resume) s =
      scan c idx resume (AtomicArray.get_item (pos idx) s.profiling_segment_slots) s
  profile_step now readable (releasing resume) s =
      let (v, cnt) = add_and_get (negsuc 0) s.current_profiling_cnt in
      (visiting (suc resume), record s { current_profiling_cnt = cnt })
  profile_step now readable (ended held) s = (ended held, s)

-- The context and all threads that use it.
pub record System : Type 0 where
  pub shared : Shared
  pub attempts : List Attempt
  pub thread : Pc
