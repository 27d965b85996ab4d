-- ===== src/Profile/Tests.antt =====
-- The theorems of the profiling service at concrete inputs.
use skywalking_python.Prelude.{
  ◌≡◌, ◌↔◌, refl, true, false, some, none, [], ◌∷◌, codes, arith, List, All, ◌≤◌,
}
use skywalking_python.Prelude.Int.{pos, negsuc}
use skywalking_python.Profile.Task.{
  ProfileTask, none_status, check_profile_task, IsAcceptable, check_profile_task_iff,
}
use skywalking_python.Profile.Context.{Shared}
use skywalking_python.Profile.Sharing.{in_use}
use skywalking_python.Profile.Schedule
use skywalking_python.Profile.Schedule.{started, out_of_slots, history-shares}
use skywalking_python.Profile.Service.{Service, TaskObject}
use skywalking_python.Profile.Service.Stopping.{
  adds, processes, stops, calls, IsSound, calls-IsSound,
}

abbrev task : ProfileTask
task = record {
  task_id = codes "1";
  first_span_op_name = codes "/op";
  duration = pos 5;
  min_duration_threshold = pos 0;
  thread_dump_period = pos 10;
  max_sampling_count = pos 5;
  start_time = pos 1000;
  create_time = pos 900;
}

check_profile_task_iff_example :
    (check_profile_task task (task ∷ []) ≡ none) ↔ IsAcceptable task (task ∷ [])
check_profile_task_iff_example = check_profile_task_iff task (task ∷ [])

abbrev first : TaskObject
first = record { address = 0; task = task }

abbrev second : TaskObject
second = record { address = 1; task = task }

-- Context 0 runs the first task.
abbrev service : Service
service = record {
  profile_task_list = first ∷ second ∷ [];
  last_command_create_time = pos 900;
  task_execution_context = record { var = some 0 };
  contexts = λ c. record { task = first; stop_event = false };
  next_context = 1;
  timers = [];
  notified = [];
}

service-IsSound : IsSound service
service-IsSound = record {
  current_runs = λ c e. (ground arith, refl);
  notified_stopped = tt;
  notified_once = tt;
}

calls-IsSound_example :
    IsSound (calls (processes second ∷ stops (some 0) ∷ adds first (pos 950) ∷ []) service)
calls-IsSound_example =
    calls-IsSound (processes second ∷ stops (some 0) ∷ adds first (pos 950) ∷ []) service
      service-IsSound

-- No profiler yet, and trace contexts without a status.
abbrev shared : Shared
shared = record {
  current_profiling_cnt = record { var = pos 0 };
  total_started_profiling_cnt = record { var = pos 0 };
  profiling_segment_slots = record { size = 0; array = [] };
  stop_event = false;
  profilers = λ p. record {
    trace_context = 0;
    profile_status = 0;
    profile_start_time = negsuc 0;
    dump_sequence = 0;
  };
  next_profiler = 0;
  contexts = λ c. record { create_time = pos 0; profile_status = none };
  statuses = λ r. none_status;
  next_status = 0;
  snapshots = [];
}

-- Two attempts side by side, the profiling thread between them.
abbrev threads : List Schedule.Event
threads =
    Schedule.begins 0 (codes "/op") false
    ∷ Schedule.begins 1 (codes "/op") false
    ∷ Schedule.steps 0
    ∷ Schedule.steps 1
    ∷ Schedule.steps 0
    ∷ Schedule.steps 1
    ∷ Schedule.steps 0
    ∷ Schedule.steps 1
    ∷ Schedule.steps 0
    ∷ Schedule.profiles (pos 5000) true
    ∷ Schedule.steps 0
    ∷ []

history-shares_example :
    let after = Schedule.history 2 task threads (started 2 shared) in
    (after.shared.current_profiling_cnt.var ≡ pos (in_use after))
    × (in_use after ≤ 2)
    × All (λ a. out_of_slots a.stage ≡ false) after.attempts
history-shares_example = history-shares 2 task shared threads
