-- ===== src/Agent/Tasks.antt =====
-- The background tasks of the asyncio agent in skywalking/agent/__init__.py: how their outcomes are
-- retrieved and logged, the supervisor that waits for the first, and the clean-up at shutdown. A task
-- is the address of its `asyncio.Task`. The tasks of a set come as a list, in any order.
pub mod Logging
pub mod Cleanup
pub mod Outcomes
use skywalking_python.Prelude.{
  ℕ, Bool, true, false, ◌&&◌, ◌||◌, not, Option, none, some, List, [], ◌∷◌, ◌==◌, if◌then◌else◌,
  remove,
}
use skywalking_python.Trace.Model.{put_at}

-- Whether a task is done, and how; an exception is its address.
pub data Outcome : Type 0 where
  running cancelled completed : Outcome
  failed : (exception : ℕ) → Outcome

abbrev pub done : Outcome → Bool
done running = false
done _ = true

-- `_sw_outcome_handled` is an attribute that the logging sets.
pub record Task : Type 0 where
  pub outcome : Outcome
  pub outcome_handled : Bool

-- What is logged of a task.
pub data Report : Type 0 where
  cancelled_unexpectedly finished_unexpectedly : Report
  raised : (exception : ℕ) → Report

-- The tasks, those that the supervisor still waits for, the event `finished`, and the lines of the
-- log, the last first.
pub record Loop : Type 0 where
  pub tasks : ℕ → Task
  pub pending : List ℕ
  pub finished : Bool
  pub lines : List (ℕ × Report)

-- `_retrieve_background_task_outcome`
unfoldable pub retrieve_outcome : Bool → Bool → Outcome → Option Report
retrieve_outcome completion cancellation running = none
retrieve_outcome completion cancellation cancelled =
    if cancellation then some cancelled_unexpectedly else none
retrieve_outcome completion cancellation completed =
    if completion then some finished_unexpectedly else none
retrieve_outcome completion cancellation (failed e) = some (raised e)

log_retrieved : Option Report → ℕ → Loop → Bool × Loop
log_retrieved none i l = (false, l)
log_retrieved (some r) i l = (
  true,
  record l {
    tasks = put_at i (record (l.tasks i) { outcome_handled = true }) l.tasks;
    lines = (i, r) ∷ l.lines;
  },
)

-- `_log_background_task_outcome`: whether it was logged.
unfoldable pub log_outcome : Bool → Bool → ℕ → Loop → Bool × Loop
unfolding log_retrieved
log_outcome completion cancellation i l =
    if (l.tasks i).outcome_handled
    then (false, l)
    else log_retrieved (retrieve_outcome completion cancellation (l.tasks i).outcome) i l

-- The loop `for task in done` of the supervisor: whether it returns.
unfoldable pub supervise_done : List ℕ → Loop → Bool × Loop
supervise_done [] l = (false, l)
supervise_done (i ∷ more) l =
    let (logged, next) = log_outcome true true i (record l { pending = remove i l.pending }) in
    let rest = supervise_done more next in
    if logged then (true, record next { finished = true }) else rest

-- `_await_shutdown_or_background_failure`, each time that its wait is over: by the shutdown, or with
-- the tasks that are done.
unfoldable pub supervise : Bool → List ℕ → Loop → Bool × Loop
supervise shutdown finished_tasks l =
    if shutdown || l.finished then (true, l) else supervise_done finished_tasks l

-- `_cancel_pending_tasks`: the done ones are logged first.
log_done : ℕ → List ℕ → Loop → Loop
log_done current [] l = l
log_done current (i ∷ more) l =
    let next = (log_outcome false false i l).1 in
    if i == current || not (done (l.tasks i).outcome)
    then log_done current more l
    else log_done current more next

still_pending : ℕ → List ℕ → Loop → List ℕ
still_pending current [] l = []
still_pending current (i ∷ more) l =
    let rest = still_pending current more l in
    if i == current || done (l.tasks i).outcome then rest else i ∷ rest

-- The tasks are cancelled and waited for: what has become of each when the wait is over.
cancel_all : (ℕ → Outcome) → List ℕ → Loop → Loop
cancel_all settle [] l = l
cancel_all settle (i ∷ more) l =
    cancel_all settle more
      (record l { tasks = put_at i (record (l.tasks i) { outcome = settle i }) l.tasks })

log_all : List ℕ → Loop → Loop
log_all [] l = l
log_all (i ∷ more) l = log_all more (log_outcome false false i l).1

unfoldable pub cancel_pending_tasks : ℕ → (ℕ → Outcome) → List ℕ → Loop → Loop
unfolding log_done still_pending cancel_all log_all
cancel_pending_tasks current settle ids l =
    let logged = log_done current ids l in
    let pending = still_pending current ids logged in
    log_all pending (cancel_all settle pending logged)
