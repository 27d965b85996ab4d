-- ===== src/Agent/Queues.antt =====
-- The state of `SkyWalkingAgent` in skywalking/agent/__init__.py, its options, and the methods by
-- which the rest of the library hands it telemetry. Payloads are the addresses of their objects.
use skywalking_python.Prelude.{
  ℕ, suc, length, length-append, ◌+◌, ◌≡◌, Bool, true, false, Option, none, some, List, [], ◌∷◌,
  ◌++◌, arith, if◌then◌else◌, Text, codes,
}
use skywalking_python.Prelude.Queue
use skywalking_python.Prelude.Queue.{Queue, IsBounded}
use skywalking_python.Prelude.Result.{ok, err, attribute_error}
use skywalking_python.Prelude.Exec.{Exec}
use skywalking_python.Agent.DropLog.{
  DropLog, log_dropped_throttled, get_or_zero, drop_totals-log_dropped,
}

-- `agent_protocol`; `unsupported` is any other text.
pub data Protocol : Type 0 where
  grpc http kafka unsupported : Protocol

-- The options of skywalking/config.py that the agent reads.
pub record Config : Type 0 where
  pub agent_protocol : Protocol
  pub agent_name : Text
  pub agent_namespace : Text
  pub agent_instance_name : Text
  pub agent_profile_active : Bool
  pub agent_meter_reporter_active : Bool
  pub agent_pvm_meter_reporter_active : Bool
  pub agent_log_reporter_active : Bool
  pub agent_experimental_fork_support : Bool
  pub agent_trace_reporter_max_buffer_size : ℕ
  pub agent_log_reporter_max_buffer_size : ℕ
  pub agent_meter_reporter_max_buffer_size : ℕ
  pub agent_profile_snapshot_transport_buffer_size : ℕ
  pub sample_n_per_3_secs : ℕ
  pub kafka_namespace : Text
  pub kafka_topic_management : Text
  pub kafka_topic_meter : Text
  pub kafka_topic_log : Text
  pub kafka_topic_segment : Text

-- The threads that `__init_threading` starts.
pub data Worker : Type 0 where
  heartbeat segment_report meter_report log_report : Worker
  command_dispatch query_profile send_profile : Worker

pub record Agent : Type 0 where
  pub config : Config
  pub started : Bool
  pub started_pid : Option ℕ
  pub reporting : Bool
  pub finished : Bool
  pub at_fork_registered : Bool
  pub fini_registered : Bool
  pub protocol : Option Protocol
  pub segment_queue : Queue ℕ
  pub log_queue : Option (Queue ℕ)
  pub meter_queue : Option (Queue ℕ)
  pub snapshot_queue : Option (Queue ℕ)
  pub workers : List Worker
  pub drops : DropLog
  -- The process outside the agent: calls of `plugins.install`, handlers that `atexit` and
  -- `os.register_at_fork` hold, instances of the services, and the fork switch of grpc.
  pub installs : ℕ
  pub atexit_handlers : ℕ
  pub fork_hooks : ℕ
  pub profile_services : ℕ
  pub meter_services : ℕ
  pub sampling_services : ℕ
  pub grpc_fork_support : Bool
  pub pvm_sources : ℕ

-- `is_segment_queue_full`
abbrev pub is_segment_queue_full : Agent → Bool
is_segment_queue_full a = if a.reporting then Queue.full a.segment_queue else true

note_drop : Text → ℕ → Agent → Agent
note_drop kind now a = record a { drops = (log_dropped_throttled kind 1 false now a.drops).1 }

put_segment : ℕ → Agent → Option (Queue ℕ) → Agent
put_segment now a none = note_drop (codes "segment") now a
put_segment now a (some q) = record a { segment_queue = q }

-- `archive_segment`, at time `now`
unfoldable pub archive_segment : ℕ → ℕ → Agent → Agent
unfolding put_segment note_drop
archive_segment segment now a =
    if a.reporting then put_segment now a (Queue.put segment a.segment_queue) else a

-- An optional queue takes one more payload: a queue that was never made is `None`, and `None.put`
-- raises `AttributeError`.
put_optional : ℕ → Option (Queue ℕ) → (Option (Queue ℕ) → Agent) → Agent → Exec Agent (Unit {0})
put_optional x none store dropped a = (err attribute_error, a)
put_optional x (some q) store dropped a = (ok tt, put_or_drop (Queue.put x q))
  where
    put_or_drop : Option (Queue ℕ) → Agent
    put_or_drop none = dropped
    put_or_drop (some r) = store (some r)

-- `archive_log`
unfoldable pub archive_log : ℕ → ℕ → Exec Agent (Unit {0})
unfolding put_optional note_drop
archive_log x now a =
    if a.reporting
    then put_optional x a.log_queue (λ q. record a { log_queue = q })
        (note_drop (codes "log") now a) a
    else (ok tt, a)

-- `archive_meter`
unfoldable pub archive_meter : ℕ → ℕ → Exec Agent (Unit {0})
unfolding put_optional note_drop
archive_meter x now a =
    if a.reporting
    then put_optional x a.meter_queue (λ q. record a { meter_queue = q })
        (note_drop (codes "meter") now a) a
    else (ok tt, a)

-- `add_profiling_snapshot`
unfoldable pub add_profiling_snapshot : ℕ → ℕ → Exec Agent (Unit {0})
unfolding put_optional note_drop
add_profiling_snapshot x now a =
    if a.reporting
    then put_optional x a.snapshot_queue (λ q. record a { snapshot_queue = q })
        (note_drop (codes "snapshot") now a) a
    else (ok tt, a)

-- Archiving a segment is exactly one of three things: an agent that does not report is left
-- alone; a queue that is not full ends with the segment; and a full queue is left as it is.
pub archive_segment_cases :
    (x now : ℕ) (a : Agent)
    → let b = archive_segment x now a in
      (a.reporting ≡ false → b ≡ a)
      × (is_segment_queue_full a ≡ false → b.segment_queue.items ≡ a.segment_queue.items ++ x ∷ [])
      × (a.reporting ≡ true → is_segment_queue_full a ≡ true → b.segment_queue ≡ a.segment_queue)
unfolding archive_segment
archive_segment_cases x now a = (λ h. ground arith, λ h. ground arith, λ h k. ground arith)

-- What an agent that reports does with one more segment: the queue keeps to its bound and to its
-- count, and the segment is in the queue or among what was dropped.
pub record Takes (a b : Agent) : Type 0 where
  pub reporting : b.reporting ≡ true
  pub bounded : IsBounded b.segment_queue
  pub quiet : b.segment_queue.unfinished ≡ length b.segment_queue.items
  pub accounts :
      get_or_zero (codes "segment") b.drops.drop_totals + length b.segment_queue.items
      ≡ suc (get_or_zero (codes "segment") a.drops.drop_totals + length a.segment_queue.items)

pub archive_segment-Takes :
    (x now : ℕ) (a : Agent)
    → a.reporting ≡ true
    → IsBounded a.segment_queue
    → a.segment_queue.unfinished ≡ length a.segment_queue.items
    → Takes a (archive_segment x now a)
unfolding archive_segment
archive_segment-Takes x now a h b q =
    let more = length-append a.segment_queue.items (x ∷ []) in
    let counted = drop_totals-log_dropped (codes "segment") 1 false now a.drops in
    record {
      reporting = ground arith;
      bounded = ground (arith, more);
      quiet = ground (arith, more);
      accounts = ground (arith, more, counted);
    }
