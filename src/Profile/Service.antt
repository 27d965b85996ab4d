-- ===== src/Profile/Service.antt =====
-- skywalking/profile/profile_service.py: `ProfileTaskExecutionService` and its `Scheduler`. Each
-- method that holds `_rlock` or `queue_lock` is one step. A task is an object: it has an address,
-- and `==` of tasks compares addresses. Of a `ProfileTaskExecutionContext` its task and its stop
-- event are kept, in the thread model.
pub mod Stopping
use skywalking_python.Prelude.{
  ℕ, suc, ◌+◌, Bool, true, false, Option, none, some, List, [], ◌∷◌, ◌++◌, map, ◌==◌, if◌then◌else◌,
}
use skywalking_python.Prelude.Int.{ℤ, pos, negsuc, ◌-ℤ◌, ltb_ℤ}
use skywalking_python.Utils.AtomicRef
use skywalking_python.Utils.AtomicRef.{AtomicRef}
use skywalking_python.Trace.Model.{put_at}
use skywalking_python.Profile.Task.{ProfileTask, Reason, check_profile_task, minutes}

pub record TaskObject : Type 0 where
  pub address : ℕ
  pub task : ProfileTask

-- `ProfileTaskExecutionContext`
pub record ExecutionContext : Type 0 where
  pub task : TaskObject
  pub stop_event : Bool

-- What a timer calls.
pub data TimerCall : Type 0 where
  process : TaskObject → TimerCall
  stop : ℕ → TimerCall

pub record Timer : Type 0 where
  pub milliseconds : ℤ
  pub func : TimerCall

-- `notified` holds the contexts for whose task `agent.notify_profile_finish` was called.
pub record Service : Type 0 where
  pub profile_task_list : List TaskObject
  pub last_command_create_time : ℤ
  pub task_execution_context : AtomicRef (Option ℕ)
  pub contexts : ℕ → ExecutionContext
  pub next_context : ℕ
  pub timers : List Timer
  pub notified : List ℕ

-- `Scheduler.schedule`
schedule : ℤ → TimerCall → Service → Service
schedule milliseconds func s =
    let delay = if ltb_ℤ milliseconds (pos 0) then pos 0 else milliseconds in
    record s { timers = s.timers ++ record { milliseconds = delay; func = func } ∷ [] }

-- The loop of `remove_from_profile_task_list`: whether the task was found, and what is left.
unfoldable pub remove_task : TaskObject → List TaskObject → Bool × List TaskObject
remove_task t [] = (false, [])
remove_task t (item ∷ items) =
    let (found, left) = remove_task t items in
    if item.address == t.address then (true, left) else (found, item ∷ left)

-- `add_profile_task`, at time `now`
enqueue : TaskObject → ℤ → Option Reason → Service → Service
unfolding schedule
enqueue t now (some reason) s = s
enqueue t now none s =
    schedule (t.task.start_time -ℤ now) (process t)
      (record s { profile_task_list = s.profile_task_list ++ t ∷ [] })

listed_tasks : List TaskObject → List ProfileTask
listed_tasks [] = []
listed_tasks (t ∷ ts) = t.task ∷ listed_tasks ts

unfoldable pub add_profile_task : TaskObject → ℤ → Service → Service
unfolding enqueue listed_tasks
add_profile_task t now s =
    enqueue t now (check_profile_task t.task (listed_tasks s.profile_task_list)) (record s {
      last_command_create_time =
          if ltb_ℤ s.last_command_create_time t.task.create_time
          then t.task.create_time
          else s.last_command_create_time;
    })

-- `==` on what the reference holds
same_context : Option ℕ → Option ℕ → Bool
same_context none none = true
same_context (some a) (some b) = a == b
same_context _ _ = false

-- The part of `stop_current_profile_task` behind the test: `stop_profiling` sets the event.
stop_context : ℕ → Service → Service
unfolding remove_task
stop_context c s =
    let x = s.contexts c in
    record s {
      contexts = put_at c (record x { stop_event = true }) s.contexts;
      profile_task_list = (remove_task x.task s.profile_task_list).1;
      notified = c ∷ s.notified;
    }

stop_if : Bool → ℕ → Service → Service
unfolding stop_context
stop_if true c s = stop_context c s
stop_if false c s = s

-- `stop_current_profile_task`
unfoldable pub stop_current_profile_task : Option ℕ → Service → Service
unfolding stop_if same_context
stop_current_profile_task none s = s
stop_current_profile_task (some c) s =
    let (swapped, ref) =
      AtomicRef.compare_and_set same_context (some c) none s.task_execution_context in
    stop_if swapped c (record s { task_execution_context = ref })

-- `process_profile_task`: `start_profiling` makes the event, which is not set.
start_context : TaskObject → Service → Service
unfolding schedule
start_context t s = schedule (minutes t.task.duration) (stop s.next_context) (record s {
  contexts = put_at s.next_context (record { task = t; stop_event = false }) s.contexts;
  next_context = s.next_context + 1;
  task_execution_context = AtomicRef.set (some s.next_context) s.task_execution_context;
})

unfoldable pub process_profile_task : TaskObject → Service → Service
unfolding start_context
process_profile_task t s =
    start_context t (stop_current_profile_task (AtomicRef.get s.task_execution_context) s)
