-- ===== src/Agent/Aio.antt =====
-- The queues of `SkyWalkingAgentAsync` in skywalking/agent/__init__.py. Other threads hand telemetry
-- to the event loop as callbacks, which the loop runs later; at shutdown the queues are abandoned.
pub mod Segments
pub mod Callbacks
pub mod Handing
use skywalking_python.Prelude.{
  ℕ, ◌+◌, Bool, true, false, ◌&&◌, not, Option, none, some, List, [], ◌∷◌, ◌++◌, map, ◌==◌,
  if◌then◌else◌, Text, codes,
}
use skywalking_python.Prelude.Queue
use skywalking_python.Prelude.Queue.{Queue}
use skywalking_python.Prelude.Result.{ok, err, runtime_error}
use skywalking_python.Prelude.Exec.{Exec}
use skywalking_python.Agent.DropLog.{DropLog, log_dropped_throttled}
use skywalking_python.Agent.Queues.{Config}
use skywalking_python.Agent.Shutdown.{abandon_sync_queue}

-- Which queue
pub data Kind : Type 0 where
  segment log meter snapshot : Kind

abbrev pub label : Kind → Text
label segment = codes "segment"
label log = codes "log"
label meter = codes "meter"
label snapshot = codes "snapshot"

abbrev pub same_kind : Kind → Kind → Bool
same_kind segment segment = true
same_kind log log = true
same_kind meter meter = true
same_kind snapshot snapshot = true
same_kind _ _ = false

-- The queues of the running loop, where a queue whose option is off was never made; the callbacks
-- that wait to be run, the first first; how many of them raised, for want of a queue; and what was
-- counted as dropped.
pub record AioAgent : Type 0 where
  pub config : Config
  pub loop_closed : Bool
  pub queues : Kind → Option (Queue ℕ)
  pub scheduled : List (Kind × ℕ)
  pub raised : ℕ
  pub drops : DropLog
  pub discarded : List (Kind × ℕ)

abbrev pub call_soon : Kind → ℕ → AioAgent → AioAgent
call_soon k x a = record a { scheduled = a.scheduled ++ (k, x) ∷ [] }

-- `archive_segment`, `archive_log` and `archive_meter`
unfoldable pub archive : Kind → ℕ → AioAgent → AioAgent
archive k x a = if a.loop_closed then a else call_soon k x a

-- `add_profiling_snapshot`, which does not ask whether the loop is closed
unfoldable pub add_profiling_snapshot : ℕ → Exec AioAgent (Unit {0})
add_profiling_snapshot x a =
    if a.loop_closed then (err runtime_error, a) else (ok tt, call_soon snapshot x a)

abbrev pub put_queue : Kind → Queue ℕ → (Kind → Option (Queue ℕ)) → Kind → Option (Queue ℕ)
put_queue k q queues j = if same_kind k j then some q else queues j

-- `__asyncio_queue_put_nowait`, with the outcome of `put_nowait`
put_or_drop : Kind → ℕ → ℕ → Option (Queue ℕ) → AioAgent → AioAgent
put_or_drop k x now none a = record a {
  drops = (log_dropped_throttled (label k) 1 false now a.drops).1;
  discarded = a.discarded ++ (k, x) ∷ [];
}
put_or_drop k x now (some q) a = record a { queues = put_queue k q a.queues }

put_nowait : Kind → ℕ → ℕ → Option (Queue ℕ) → AioAgent → AioAgent
unfolding put_or_drop
put_nowait k x now none a = record a { raised = a.raised + 1 }
put_nowait k x now (some q) a = put_or_drop k x now (Queue.put x q) a

-- The loop runs its next callback.
pub run_from : List (Kind × ℕ) → ℕ → AioAgent → AioAgent
unfolding put_nowait
run_from [] now a = a
run_from ((k, x) ∷ more) now a = put_nowait k x now (a.queues k) (record a { scheduled = more })

unfoldable pub run_callback : ℕ → AioAgent → AioAgent
unfolding run_from
run_callback now a = run_from a.scheduled now a

-- `_shutdown_async_queue`: `_abandon_async_queue` has the body of `_abandon_sync_queue`.
note_lost : Kind → ℕ → ℕ → DropLog → DropLog
note_lost k n now s = if n == 0 then s else (log_dropped_throttled (label k) n true now s).1

pub shutdown_made : Kind → ℕ → Option (Queue ℕ) → AioAgent → AioAgent
unfolding note_lost
shutdown_made k now none a = a
shutdown_made k now (some q) a =
    let (n, r) = abandon_sync_queue q in
    record a {
      queues = put_queue k r a.queues;
      drops = note_lost k n now a.drops;
      discarded = a.discarded ++ map (λ x. (k, x)) q.items;
    }

pub shutdown_async_queue : Bool → Kind → ℕ → AioAgent → AioAgent
unfolding shutdown_made
shutdown_async_queue active k now a = if active then shutdown_made k now (a.queues k) a else a

-- The queues in `__async_shutdown_cleanup`
unfoldable pub async_shutdown_cleanup : ℕ → AioAgent → AioAgent
unfolding shutdown_async_queue
async_shutdown_cleanup now a =
    let c = a.config in
    shutdown_async_queue c.agent_meter_reporter_active meter now (
      shutdown_async_queue c.agent_profile_active snapshot now (
        shutdown_async_queue c.agent_log_reporter_active log now
          (shutdown_async_queue true segment now a)))
