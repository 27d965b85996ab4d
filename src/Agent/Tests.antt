-- ===== src/Agent/Tests.antt =====
-- The theorems of the agent at concrete inputs.
use Prim.Native.Nat.{◌^◌}
use skywalking_python.Agent.Backoff.{raises, returns, wait_after, wait_after-failures}
use skywalking_python.Prelude.{
  ◌++◌, ◌*◌, min, replicate, ℕ, ◌+◌, ◌≡◌, refl, true, false, some, none, List, [], ◌∷◌, arith,
  codes, false, ◌≤◌,
}
use skywalking_python.Prelude.Queue
use skywalking_python.Prelude.Weights.{Weight, one}
use skywalking_python.Prelude.Queue.{Queue}
use skywalking_python.Prelude.Result.{ok}
use skywalking_python.Agent.DropLog
use skywalking_python.Agent.DropLog.{
  DropLog, Call, IsConsistent, dropped, run, pending, run_conserves,
}
use skywalking_python.Agent.Queues.{Agent, Config, grpc}
use skywalking_python.Agent.Tasks
use skywalking_python.Agent.Tasks.{
  Loop, failed, cancel_pending_tasks, supervise, supervise_done, log_outcome, retrieve_outcome,
}
use skywalking_python.Agent.Tasks.Logging.{lines_of, fresh-IsSound}
use skywalking_python.Agent.Tasks.Outcomes
use skywalking_python.Agent.Tasks.Outcomes.{failures_logged_once}
use skywalking_python.Agent.Aio
use skywalking_python.Agent.Aio.{AioAgent}
use skywalking_python.Agent.Aio.Segments.{IsOpen, accounted, total, weigh_segments}
use skywalking_python.Agent.Aio.Handing
use skywalking_python.Agent.Aio.Handing.{handed, handing_accounts}
use skywalking_python.Agent.Lifecycle.{start}
use skywalking_python.Agent.Lifecycle.Lineage.{
  created, starts, forks, prefork_master, history, IsSound, history-IsSound,
}
use skywalking_python.Agent.Lifecycle.Starting.{start-IsIdle}
use skywalking_python.Agent.Lifecycle.Restart.{start_unstarted}
use skywalking_python.Agent.Shutdown.{abandon_rounds, abandon_ends, Taken, fini, Flush}
use skywalking_python.Agent.Shutdown.Drain.{IsIdle, IsDrained, Optional, fini_drains}

-- Profiles and logs are on, meters off, and forks are supported.
abbrev config : Config
config = record {
  agent_protocol = grpc;
  agent_name = codes "service";
  agent_namespace = [];
  agent_instance_name = codes "instance";
  agent_profile_active = true;
  agent_meter_reporter_active = false;
  agent_pvm_meter_reporter_active = false;
  agent_log_reporter_active = true;
  agent_experimental_fork_support = true;
  agent_trace_reporter_max_buffer_size = 2;
  agent_log_reporter_max_buffer_size = 2;
  agent_meter_reporter_max_buffer_size = 2;
  agent_profile_snapshot_transport_buffer_size = 2;
  sample_n_per_3_secs = 0;
  kafka_namespace = [];
  kafka_topic_management = [];
  kafka_topic_meter = [];
  kafka_topic_log = [];
  kafka_topic_segment = [];
}

history-IsSound_example : IsSound (
    history
      (prefork_master 100 ∷ forks 101 (codes "c") ∷ starts 101 ∷ starts 102 ∷ [])
      (created config))
history-IsSound_example =
    history-IsSound config
      (prefork_master 100 ∷ forks 101 (codes "c") ∷ starts 101 ∷ starts 102 ∷ [])

-- It runs in process 100.
abbrev running : Agent
running = record (created config) { started = true; started_pid = some 100 }

first_start : (start 100 (created config)).0 ≡ ok tt
first_start = start_unstarted 100 (created config) refl

start-IsIdle_example :
    ((start 100 (created config)).1.reporting ≡ true) × IsIdle (start 100 (created config)).1
start-IsIdle_example = start-IsIdle 100 (created config) first_start

-- One payload is taken before the call fails.
abbrev failing : Flush
failing = record { taken = 1; failed_call = true }

abbrev one_taken : Taken
one_taken = record { segment = failing; log = failing; snapshot = failing; meter = failing }

-- Two payloads stand in the queue.
abbrev two_items : Queue ℕ
two_items = record { maxsize = 2; items = 7 ∷ 8 ∷ []; unfinished = 2 }

abbrev reporting : Agent
reporting = record running {
  reporting = true;
  segment_queue = two_items;
  log_queue = some two_items;
  snapshot_queue = some (Queue.fresh 2);
}

reporting-IsIdle : IsIdle reporting
reporting-IsIdle = record {
  segments = refl;
  logs = refl;
  snapshots = refl;
  meters = tt;
  log_made = refl;
  snapshot_made = refl;
  meter_made = refl;
}

fini_drains_example :
    let b = fini false one_taken 5 reporting in
    (b.finished ≡ true)
    × IsDrained b.segment_queue
    × Optional IsDrained b.log_queue
    × Optional IsDrained b.snapshot_queue
    × Optional IsDrained b.meter_queue
fini_drains_example = fini_drains false one_taken 5 reporting refl reporting-IsIdle

abbrev calls : List Call
calls =
    record { count = 3; force = false; now = 40000 }
    ∷ record { count = 2; force = false; now = 40001 }
    ∷ record { count = 1; force = true; now = 40002 }
    ∷ []

run_conserves_example :
    pending (codes "log") DropLog.fresh + 6
    ≡ (run (codes "log") calls DropLog.fresh).0
      + pending (codes "log") (run (codes "log") calls DropLog.fresh).1
run_conserves_example =
    run_conserves (codes "log") calls DropLog.fresh (record { logged_le = omega arith })

wait_after-failures_example :
    wait_after 3000 ((raises ∷ []) ++ returns false ∷ replicate 3 raises) ≡ min 60000 (3000 * 2 ^ 3)
wait_after-failures_example = wait_after-failures 3000 2 (raises ∷ []) false (omega arith)

-- Two tasks, of which one fails before the shutdown and one while it is cancelled.
abbrev tasks : Loop
tasks = record {
  tasks = λ i. record { outcome = Tasks.running; outcome_handled = false };
  pending = 0 ∷ 1 ∷ [];
  finished = false;
  lines = [];
}

abbrev life : List Outcomes.Event
life = Outcomes.ends 1 (failed 7) ∷ Outcomes.wakes false (1 ∷ []) ∷ []

fails_late :
    ((cancel_pending_tasks 5 (λ i. failed 9) (0 ∷ 1 ∷ []) (Outcomes.history life tasks)).tasks
      0).outcome
    ≡ failed 9
unfolding cancel_pending_tasks supervise supervise_done log_outcome retrieve_outcome
    Outcomes.history Outcomes.apply
fails_late = refl

failures_logged_once_example :
    let after = cancel_pending_tasks 5 (λ i. failed 9) (0 ∷ 1 ∷ []) (Outcomes.history life tasks) in
    (lines_of 0 after.lines ≡ 1) × ((i : ℕ) → lines_of i after.lines ≤ 1)
failures_logged_once_example =
    failures_logged_once life tasks 5 (λ i. failed 9) (0 ∷ 1 ∷ []) 0 9
      (fresh-IsSound tasks refl (λ i. refl)) refl refl fails_late

abandon_ends_example :
    abandon_rounds 9 0 (record { maxsize = 5; items = 4 ∷ 6 ∷ []; unfinished = 2 })
    ≡ (2, record { maxsize = 5; items = []; unfinished = 0 })
abandon_ends_example =
    abandon_ends 9 (record { maxsize = 5; items = 4 ∷ 6 ∷ []; unfinished = 2 }) (omega arith)

-- A loop with room for one segment and no other queues.
abbrev loop : AioAgent
loop = record {
  config = config;
  loop_closed = false;
  queues = Aio.put_queue Aio.segment (Queue.fresh 1) (λ k. none);
  scheduled = [];
  raised = 0;
  drops = DropLog.fresh;
  discarded = [];
}

abbrev traffic : List Handing.Event
traffic =
    Handing.archives Aio.segment 1
    ∷ Handing.archives Aio.segment 2
    ∷ Handing.runs 5
    ∷ Handing.runs 6
    ∷ Handing.cleans 7
    ∷ Handing.archives Aio.segment 3
    ∷ []

handing_accounts_example :
    IsOpen (Handing.history traffic loop)
    × ((w : Weight)
        → accounted w (Handing.history traffic loop)
          ≡ accounted w loop + weigh_segments w (handed traffic))
    × (total (Handing.history traffic loop) + weigh_segments one loop.discarded
        ≡ total loop + weigh_segments one (Handing.history traffic loop).discarded)
handing_accounts_example = handing_accounts traffic loop (record { made = refl; running = refl })
