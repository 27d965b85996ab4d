-- ===== src/Profile/Service/Stopping.antt =====
-- Which contexts of skywalking/profile/profile_service.py are stopped, and when.
use skywalking_python.Prelude.{
  ℕ, ◌<◌, ◌≡◌, ◌≢◌, refl, true, false, Option, none, some, List, [], ◌∷◌, All, arith, if◌then◌else◌,
  inl, inr, Bool-cases,
}
use skywalking_python.Prelude.Int.{ℤ, ltb_ℤ}
use skywalking_python.Profile.Task.{Reason, check_profile_task}
use skywalking_python.Profile.Service.{
  Service, TaskObject, add_profile_task, process_profile_task, stop_current_profile_task,
  stop_context, stop_if, same_context, enqueue, schedule, listed_tasks, start_context,
}

-- The calls that timers, commands and profiling threads make, in any order.
pub data Event : Type 0 where
  adds : TaskObject → ℤ → Event
  processes : TaskObject → Event
  stops : Option ℕ → Event

pub apply : Event → Service → Service
apply (adds t now) s = add_profile_task t now s
apply (processes t) s = process_profile_task t s
apply (stops c) s = stop_current_profile_task c s

pub calls : List Event → Service → Service
calls [] s = s
calls (e ∷ es) s = calls es (apply e s)

abbrev pub IsNoDup : List ℕ → Type 0
IsNoDup [] = Unit
IsNoDup (x ∷ xs) = All (λ y. x ≢ y) xs × IsNoDup xs

-- The current context was made and runs; those that were reported as finished were made, have
-- stopped, and were reported once.
pub record IsSound (s : Service) : Type 0 where
  pub current_runs :
      (c : ℕ)
      → s.task_execution_context.var ≡ some c
      → (c < s.next_context) × ((s.contexts c).stop_event ≡ false)
  pub notified_stopped :
      All (λ c. (c < s.next_context) × ((s.contexts c).stop_event ≡ true)) s.notified
  pub notified_once : IsNoDup s.notified

same_context-ne : (a : Option ℕ) (c : ℕ) → a ≢ some c → same_context a (some c) ≡ false
unfolding same_context
same_context-ne none c h = refl
same_context-ne (some a) c h = ground arith

same_context-eq : (a : Option ℕ) (c : ℕ) → same_context a (some c) ≡ true → a ≡ some c
unfolding same_context
same_context-eq none c h = ground arith
same_context-eq (some a) c h = ground arith

All-weaken : (P Q : ℕ → Type 0) (xs : List ℕ) → ((x : ℕ) → P x → Q x) → All P xs → All Q xs
All-weaken P Q [] f h = tt
All-weaken P Q (x ∷ xs) f h = (f x h.0, All-weaken P Q xs f h.1)

-- A stop of a context that is not the current one, any more or yet, does nothing.
pub stop_stale :
    (c : ℕ) (s : Service)
    → s.task_execution_context.var ≢ some c
    → stop_current_profile_task (some c) s ≡ s
unfolding stop_current_profile_task stop_if same_context
stop_stale c s h = rw (same_context-ne s.task_execution_context.var c h) refl

enqueue-IsSound :
    (t : TaskObject) (now : ℤ) (r : Option Reason) (s : Service)
    → IsSound s
    → IsSound (enqueue t now r s)
unfolding enqueue schedule
enqueue-IsSound t now none s h = record {
  current_runs = h.current_runs;
  notified_stopped = h.notified_stopped;
  notified_once = h.notified_once;
}
enqueue-IsSound t now (some reason) s h = h

add-IsSound :
    (t : TaskObject) (now : ℤ) (s : Service) → IsSound s → IsSound (add_profile_task t now s)
unfolding add_profile_task
add-IsSound t now s h =
    enqueue-IsSound t now (check_profile_task t.task (listed_tasks s.profile_task_list))
      (record s {
        last_command_create_time =
            if ltb_ℤ s.last_command_create_time t.task.create_time
            then t.task.create_time
            else s.last_command_create_time;
      })
      (record {
        current_runs = h.current_runs;
        notified_stopped = h.notified_stopped;
        notified_once = h.notified_once;
      })

stop_context-IsSound :
    (c : ℕ) (s : Service)
    → IsSound s
    → s.task_execution_context.var ≡ some c
    → IsSound (stop_context c (record s { task_execution_context = record { var = none } }))
unfolding stop_context
stop_context-IsSound c s h e = record {
  current_runs = λ d k. ground arith;
  notified_stopped = (
    ((h.current_runs c e).0, ground arith),
    All-weaken _ _ s.notified (λ d k. (k.0, ground arith)) h.notified_stopped,
  );
  notified_once = (
    All-weaken _ _ s.notified (λ d k. ground (arith, h.current_runs c e)) h.notified_stopped,
    h.notified_once,
  );
}

stop-IsSound : (c : Option ℕ) (s : Service) → IsSound s → IsSound (stop_current_profile_task c s)
unfolding stop_current_profile_task stop_if
stop-IsSound none s h = h
stop-IsSound (some c) s h = elim (Bool-cases (same_context s.task_execution_context.var (some c))) [
  | inl same ↦
      rw same (stop_context-IsSound c s h (same_context-eq s.task_execution_context.var c same))
  | inr other ↦ rw other h
]

start-IsSound : (t : TaskObject) (s : Service) → IsSound s → IsSound (start_context t s)
unfolding start_context schedule
start-IsSound t s h = record {
  current_runs = λ d k. ground arith;
  notified_stopped = All-weaken _ _ s.notified (λ d k. ground arith) h.notified_stopped;
  notified_once = h.notified_once;
}

process-IsSound : (t : TaskObject) (s : Service) → IsSound s → IsSound (process_profile_task t s)
unfolding process_profile_task
process-IsSound t s h =
    start-IsSound t (stop_current_profile_task s.task_execution_context.var s)
      (stop-IsSound s.task_execution_context.var s h)

-- From a sound state of the service (the current context runs, and those reported as finished
-- have stopped and were reported once), whatever the order of commands, timers and threads: the
-- finish of a context is reported at most once, only for contexts that were stopped, and never
-- for the one that runs.
pub calls-IsSound : (es : List Event) (s : Service) → IsSound s → IsSound (calls es s)
unfolding calls apply
calls-IsSound [] s h = h
calls-IsSound (adds t now ∷ es) s h =
    calls-IsSound es (add_profile_task t now s) (add-IsSound t now s h)
calls-IsSound (processes t ∷ es) s h =
    calls-IsSound es (process_profile_task t s) (process-IsSound t s h)
calls-IsSound (stops c ∷ es) s h =
    calls-IsSound es (stop_current_profile_task c s) (stop-IsSound c s h)
