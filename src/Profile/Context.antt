-- ===== src/Profile/Context.antt =====
-- skywalking/profile/profile_context.py in the thread model: an execution context that application
-- threads and its profiling thread share, and `attempt_profiling`. Each access of an atomic cell or slot is a step, and the
-- steps of all threads interleave. Profilers, statuses and trace contexts are addresses.
pub mod Slots
pub mod Attempting
use skywalking_python.Prelude.{
  ℕ, suc, ◌+◌, Bool, true, false, ◌||◌, not, Option, none, some, List, [], ◌∷◌, ◌++◌, if◌then◌else◌,
  ◌&&◌, ltb, leb, ◌==◌, Text, text_eq, get_elem?, set,
}
use skywalking_python.Prelude.Int.{ℤ, pos, negsuc, ◌+ℤ◌, ◌-ℤ◌, ltb_ℤ, leb_ℤ, eqb_ℤ}
use skywalking_python.Prelude.Result.{Result, ok, err}
use skywalking_python.Utils.AtomicRef
use skywalking_python.Utils.AtomicRef.{AtomicRef, add_and_get}
use skywalking_python.Utils.AtomicArray
use skywalking_python.Utils.AtomicArray.{AtomicArray}
use skywalking_python.Trace.Model.{put_at}
use skywalking_python.Profile.Task.{
  Status, none_status, pending, profiling, stopped, is_being_watched, ProfileTask,
}

-- What the profiler reads of a `SpanContext`.
pub record TraceContext : Type 0 where
  pub create_time : ℤ
  pub profile_status : Option ℕ

-- `ThreadProfiler`
pub record ThreadProfiler : Type 0 where
  pub trace_context : ℕ
  pub profile_status : ℕ
  pub profile_start_time : ℤ
  pub dump_sequence : ℕ

-- A `TracingThreadSnapshot` that went to the agent: its profiler and its sequence.
pub record Snapshot : Type 0 where
  pub profiler : ℕ
  pub sequence : ℕ

-- `ProfileTaskExecutionContext`, with the objects that it reaches.
pub record Shared : Type 0 where
  pub current_profiling_cnt : AtomicRef ℤ
  pub total_started_profiling_cnt : AtomicRef ℤ
  pub profiling_segment_slots : AtomicArray ℕ
  pub stop_event : Bool
  pub profilers : ℕ → ThreadProfiler
  pub next_profiler : ℕ
  pub contexts : ℕ → TraceContext
  pub statuses : ℕ → Status
  pub next_status : ℕ
  pub snapshots : List Snapshot

-- `ProfileTaskExecutionContext.__init__`, with `config.agent_profile_max_parallel`
unfoldable pub new_execution_context : ℕ → Shared → Shared
new_execution_context max_parallel s = record s {
  current_profiling_cnt = record { var = pos 0 };
  total_started_profiling_cnt = record { var = pos 0 };
  profiling_segment_slots = AtomicArray.create max_parallel;
  stop_event = false;
}

-- How far a thread is in `attempt_profiling`: in the slots it holds its profiler and the index that
-- it tries next. `out_of_slots` marks the last `return`, after the loop.
pub data Stage : Type 0 where
  entered : Stage
  counted : (using_slot_cnt : ℤ) → Stage
  allowed : (using_slot_cnt : ℤ) → Stage
  seeking : (profiler idx : ℕ) → Stage
  returned : (out_of_slots : Bool) → (status : ℕ) → Stage
  raised : Stage
  finished : (out_of_slots : Bool) → Stage

-- A call of `attempt_profiling`, by `add_profiling` or by `profiling_recheck`.
pub record Attempt : Type 0 where
  pub trace_context : ℕ
  pub first_span_opname : Text
  pub recheck : Bool
  pub stage : Stage

-- A new status reference
new_status : Status → Shared → ℕ × Shared
new_status v s = (
  s.next_status,
  record s { statuses = put_at s.next_status v s.statuses; next_status = s.next_status + 1 },
)

return_none : Bool → Shared → Stage × Shared
unfolding new_status
return_none lost s = let (r, t) = new_status none_status s in (returned lost r, t)

-- `ThreadProfiler.__init__`: the status of the trace context, or a new one, is pending.
pending_status : Option ℕ → Shared → ℕ × Shared
unfolding new_status
pending_status none s = new_status pending s
pending_status (some r) s = (r, record s { statuses = put_at r pending s.statuses })

new_profiler : ℕ → Shared → ℕ × Shared
unfolding pending_status
new_profiler c s =
    let (r, t) = pending_status (s.contexts c).profile_status s in
    let profiler : ThreadProfiler = record {
      trace_context = c;
      profile_status = r;
      profile_start_time = negsuc 0;
      dump_sequence = 0;
    } in
    (
      t.next_profiler,
      record t {
        profilers = put_at t.next_profiler profiler t.profilers;
        next_profiler = t.next_profiler + 1;
      },
    )

-- After the swap of the count
occupy : ℕ → Bool × AtomicRef ℤ → Shared → Stage × Shared
unfolding new_profiler return_none
occupy c (false, cnt) s = return_none false (record s { current_profiling_cnt = cnt })
occupy c (true, cnt) s =
    let (p, t) = new_profiler c (record s { current_profiling_cnt = cnt }) in (seeking p 0, t)

abbrev same_slot : Option ℕ → Option ℕ → Bool
same_slot none none = true
same_slot (some a) (some b) = a == b
same_slot _ _ = false

-- After the swap of a slot
take_slot : ℕ → ℕ → Result (Bool × AtomicArray ℕ) → Shared → Stage × Shared
take_slot p idx (err e) s = (raised, s)
take_slot p idx (ok (true, slots)) s =
    (returned false (s.profilers p).profile_status, record s { profiling_segment_slots = slots })
take_slot p idx (ok (false, slots)) s =
    (seeking p (suc idx), record s { profiling_segment_slots = slots })

-- `profiling_recheck` before the attempt: nothing to do, or `AttributeError`, or on with it.
recheck_by : Option ℕ → Shared → Option Bool
recheck_by none s = none
recheck_by (some r) s = some (is_being_watched (s.statuses r))

update_by : Option ℕ → Status → Shared → Shared
update_by none v s = s
update_by (some own) v s = record s { statuses = put_at own v s.statuses }

-- What the caller does with the status that is returned.
store_status : Bool → ℕ → ℕ → Shared → Shared
unfolding update_by
store_status false c r s = record s {
  contexts = put_at c (record (s.contexts c) { profile_status = some r }) s.contexts;
}
store_status true c r s = update_by (s.contexts c).profile_status (s.statuses r) s

module _ (max_parallel : ℕ) (task : ProfileTask) where
  begin_attempt : Text → Shared → Stage × Shared
  unfolding return_none
  begin_attempt op s =
      let using_slot_cnt = AtomicRef.get s.current_profiling_cnt in
      if leb_ℤ (pos max_parallel) using_slot_cnt || not (text_eq task.first_span_op_name op)
      then return_none false s
      else (counted using_slot_cnt, s)

  enter : Option Bool → Text → Shared → Stage × Shared
  unfolding begin_attempt
  enter none op s = (raised, s)
  enter (some true) op s = (finished false, s)
  enter (some false) op s = begin_attempt op s

  -- One step of `attempt_profiling` in the thread that traces `c`.
  unfoldable pub attempt_step : ℕ → Text → Bool → Stage → Shared → Stage × Shared
  unfolding enter recheck_by return_none occupy take_slot store_status
  attempt_step c op recheck entered s =
      if recheck
      then enter (recheck_by (s.contexts c).profile_status s) op s
      else begin_attempt op s
  attempt_step c op recheck (counted using_slot_cnt) s =
      if ltb_ℤ task.max_sampling_count (AtomicRef.get s.total_started_profiling_cnt)
      then return_none false s
      else (allowed using_slot_cnt, s)
  attempt_step c op recheck (allowed using_slot_cnt) s =
      occupy c
        (AtomicRef.compare_and_set eqb_ℤ using_slot_cnt (using_slot_cnt +ℤ pos 1)
          s.current_profiling_cnt)
        s
  attempt_step c op recheck (seeking p idx) s =
      if ltb idx s.profiling_segment_slots.size
      then take_slot p idx
          (AtomicArray.compare_and_set same_slot (pos idx) none (some p) s.profiling_segment_slots)
          s
      else return_none true s
  attempt_step c op recheck (returned lost r) s = (finished lost, store_status recheck c r s)
  attempt_step c op recheck raised s = (raised, s)
  attempt_step c op recheck (finished lost) s = (finished lost, s)
