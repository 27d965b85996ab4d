-- ===== src/Agent/Lifecycle.antt =====
-- The life of the agent in skywalking/agent/__init__.py: `start`, `start_prefork_master`, the fork
-- hooks, over the processes that `os.fork` makes. What the modules it starts do is in
-- their own models; here each is counted.
pub mod Lineage
pub mod Starting
pub mod Restart
use skywalking_python.Prelude.{
  ℕ, zero, suc, ◌+◌, ◌-◌, ◌≤◌, ◌≡◌, refl, Bool, true, false, ◌&&◌, ◌||◌, not, Option, none, some,
  List, [], ◌∷◌, ◌++◌, arith, if◌then◌else◌, Text, codes, is_empty, ◌==◌, ltb,
}
use skywalking_python.Prelude.Queue
use skywalking_python.Prelude.Queue.{Queue}
use skywalking_python.Prelude.Result.{Result, ok, err, runtime_error}
use skywalking_python.Prelude.Exec.{Exec}
use skywalking_python.Agent.DropLog
use skywalking_python.Agent.Queues.{
  Agent, Config, Protocol, grpc, http, kafka, unsupported, Worker, heartbeat, segment_report,
  meter_report, log_report, command_dispatch, query_profile, send_profile,
}

-- `finalize_feature` of skywalking/config.py
finalize_by : Protocol → Config → Config
finalize_by http c =
    if c.agent_profile_active || c.agent_meter_reporter_active
    then record c { agent_profile_active = false; agent_meter_reporter_active = false }
    else c
finalize_by kafka c =
    if c.agent_profile_active then record c { agent_profile_active = false } else c
finalize_by grpc c = c
finalize_by unsupported c = c

unfoldable pub finalize_feature : Config → Config
unfolding finalize_by
finalize_feature c = finalize_by c.agent_protocol c

name_service : Config → Config
name_service c =
    if is_empty c.agent_namespace
    then c
    else record c { agent_name = c.agent_name ++ (codes "|" ++ c.agent_namespace) }

prefix_topics : Config → Config
prefix_topics c = if is_empty c.kafka_namespace then c else record c {
  kafka_topic_management = c.kafka_namespace ++ (codes "-" ++ c.kafka_topic_management);
  kafka_topic_meter = c.kafka_namespace ++ (codes "-" ++ c.kafka_topic_meter);
  kafka_topic_log = c.kafka_namespace ++ (codes "-" ++ c.kafka_topic_log);
  kafka_topic_segment = c.kafka_namespace ++ (codes "-" ++ c.kafka_topic_segment);
}

-- `finalize_name` of skywalking/config.py
unfoldable pub finalize_name : Config → Config
unfolding name_service prefix_topics
finalize_name c = prefix_topics (name_service c)

-- `__init_instrumentation`
pub init_instrumentation : Agent → Agent
init_instrumentation a = record a {
  config = finalize_name (finalize_feature a.config);
  started = true;
  installs = a.installs + 1;
}

optional_queue : Bool → ℕ → Option (Queue ℕ)
optional_queue active size = if active then some (Queue.fresh size) else none

-- `__init_queues`
pub init_queues : Agent → Agent
unfolding optional_queue
init_queues a =
    let c = a.config in
    record a {
      segment_queue = Queue.fresh c.agent_trace_reporter_max_buffer_size;
      meter_queue =
          optional_queue c.agent_meter_reporter_active c.agent_meter_reporter_max_buffer_size;
      log_queue = optional_queue c.agent_log_reporter_active c.agent_log_reporter_max_buffer_size;
      snapshot_queue =
          optional_queue c.agent_profile_active c.agent_profile_snapshot_transport_buffer_size;
    }

workers_of : Config → List Worker
workers_of c =
    heartbeat
    ∷ segment_report
    ∷ ((if c.agent_meter_reporter_active then meter_report ∷ [] else [])
        ++ ((if c.agent_log_reporter_active then log_report ∷ [] else [])
            ++ (if c.agent_profile_active
                then command_dispatch ∷ query_profile ∷ send_profile ∷ []
                else [])))

-- `__init_threading`
pub init_threading : Agent → Agent
unfolding workers_of
init_threading a =
    let c = a.config in
    record a {
      finished = false;
      workers = workers_of c;
      pvm_sources =
          if c.agent_meter_reporter_active && c.agent_pvm_meter_reporter_active
          then a.pvm_sources + 4
          else a.pvm_sources;
    }

-- The client of the configured protocol; any other name leaves the attribute as it was.
client : Protocol → Option Protocol → Option Protocol
client unsupported old = old
client p old = some p

-- `__bootstrap`
pub bootstrap : Agent → Agent
unfolding init_queues init_threading client
bootstrap a =
    let b = init_queues a in
    record (init_threading (record b { protocol = client b.config.agent_protocol b.protocol })) {
      reporting = true;
    }

-- `__register_fork_hooks`, where the platform has `os.register_at_fork`
pub register_fork_hooks : Agent → Agent
register_fork_hooks a =
    if a.at_fork_registered
    then a
    else record a { at_fork_registered = true; fork_hooks = a.fork_hooks + 1 }

set_grpc_fork : Protocol → Agent → Agent
set_grpc_fork grpc a =
    if a.config.agent_experimental_fork_support then record a { grpc_fork_support = true } else a
set_grpc_fork _ a = a

-- `profile.init`, `meter.init(force=True)`, `sampling.init(force=True)`
init_services : Agent → Agent
init_services a =
    let c = a.config in
    record a {
      profile_services =
          if c.agent_profile_active && a.profile_services == 0 then 1 else a.profile_services;
      meter_services =
          if c.agent_meter_reporter_active then a.meter_services + 1 else a.meter_services;
      sampling_services =
          if ltb 0 c.sample_n_per_3_secs then a.sampling_services + 1 else a.sampling_services;
    }

register_fini : Agent → Agent
register_fini a =
    if a.fini_registered
    then a
    else record a { fini_registered = true; atexit_handlers = a.atexit_handlers + 1 }

-- `start` from the check for an earlier start on.
start_in : ℕ → Agent → Agent
start_in pid a =
    let b = register_fini (bootstrap (init_services (record a { started_pid = some pid }))) in
    if b.config.agent_experimental_fork_support then register_fork_hooks b else b

same_pid : ℕ → Option ℕ → Bool
same_pid pid none = false
same_pid pid (some p) = pid == p

-- The branches of `start` on `__started` and on the process being the same.
start_checked : Bool → Bool → ℕ → Exec Agent (Unit {0})
start_checked false same pid b = (ok tt, start_in pid (init_instrumentation b))
start_checked true true pid b = (err runtime_error, b)
start_checked true false pid b = (ok tt, start_in pid b)

-- `start`, in the process `pid`
pub start : ℕ → Exec Agent (Unit {0})
start pid a =
    let b = set_grpc_fork a.config.agent_protocol a in
    start_checked b.started (same_pid pid b.started_pid) pid b

-- `__fork_after_in_child`: the child process `pid`, whose suffix to the instance name is `child`
pub fork_after_in_child : ℕ → Text → Exec Agent (Unit {0})
fork_after_in_child pid child a = start pid (record a {
  config = record a.config { agent_instance_name = a.config.agent_instance_name ++ child };
})

-- `start_prefork_master`
pub start_prefork_master : ℕ → Agent → Agent
start_prefork_master pid a =
    let b = set_grpc_fork a.config.agent_protocol a in
    let c = record (if b.started then b else init_instrumentation b) { started_pid = some pid } in
    if c.config.agent_experimental_fork_support then register_fork_hooks c else c
