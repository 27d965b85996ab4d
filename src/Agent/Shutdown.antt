-- ===== src/Agent/Shutdown.antt =====
-- The end of the agent in skywalking/agent/__init__.py: the queues are flushed while the backend
-- is ready, then drained, and `stop` forgets the start. The flush runs on a thread of its own with
-- a time limit: how many payloads the protocol has taken by then, and whether its call has failed, is
-- an argument.
pub mod Drain
use skywalking_python.Prelude.{
  ℕ, zero, suc, ◌+◌, ◌-◌, ◌≤◌, ◌<◌, ◌≡◌, refl, Bool, true, false, ◌&&◌, not, Option, none, some,
  List, [], ◌∷◌, arith, if◌then◌else◌, Text, codes, length, ◌==◌, ap, ◌∙◌,
}
use skywalking_python.Prelude.Queue
use skywalking_python.Prelude.Queue.{Queue}
use skywalking_python.Agent.DropLog
use skywalking_python.Agent.DropLog.{DropLog, log_dropped_throttled}
use skywalking_python.Agent.Queues.{Agent}

-- The loop of `_abandon_sync_queue`, for at most so many rounds.
pub abandon_rounds : ℕ → ℕ → Queue ℕ → ℕ × Queue ℕ
abandon_rounds zero n q = (n, q)
abandon_rounds (suc fuel) n q = elim (Queue.get q) [
  | none ↦ (n, q)
  | some (x, r) ↦ abandon_rounds fuel (n + 1) (Queue.task_done r)
]

-- `_abandon_sync_queue`: the payloads dropped, and the queue. One round more than there are
-- payloads is enough.
unfoldable pub abandon_sync_queue : Queue ℕ → ℕ × Queue ℕ
unfolding abandon_rounds
abandon_sync_queue q = abandon_rounds (suc (length q.items)) 0 q

-- What the flush thread has done to the queue: so many times `get` and `task_done`.
pub flush : ℕ → Queue ℕ → Queue ℕ
flush zero q = q
flush (suc n) q = elim (Queue.get q) [ none ↦ q | some (x, r) ↦ flush n (Queue.task_done r) ]

-- A flush: how many payloads it takes, and whether its call raises `grpc.RpcError` in time, where the
-- report itself counts what it took as dropped.
pub record Flush : Type 0 where
  pub taken : ℕ
  pub failed_call : Bool

count_failed : Text → Bool → ℕ → ℕ → DropLog → DropLog
count_failed kind false n now s = s
count_failed kind true n now s = if n == 0 then s else (log_dropped_throttled kind n false now s).1

note_abandoned : Text → ℕ → ℕ → DropLog → DropLog
note_abandoned kind n now s = if n == 0 then s else (log_dropped_throttled kind n true now s).1

-- `_shutdown_sync_queue` at time `now`: the queue, and the log of drops.
unfoldable pub shutdown_sync_queue : Text → Bool → Flush → ℕ → Queue ℕ → DropLog → Queue ℕ × DropLog
unfolding note_abandoned count_failed
shutdown_sync_queue kind may_send f now q s =
    let left = if may_send && not (Queue.empty q) then flush f.taken q else q in
    let sent = length q.items - length left.items in
    let (n, r) = abandon_sync_queue left in
    (r, note_abandoned kind n now (count_failed kind f.failed_call sent now s))

-- `_join_sync_queue`: `join` returns at once if nothing is unfinished, and else waits in vain.
abbrev pub join_sync_queue : Queue ℕ → Bool
join_sync_queue q = q.unfinished == 0

-- The flush of each queue.
pub record Taken : Type 0 where
  pub segment : Flush
  pub log : Flush
  pub snapshot : Flush
  pub meter : Flush

shutdown_segments : Bool → Taken → ℕ → Agent → Agent
shutdown_segments may_send t now a =
    let (q, s) =
      shutdown_sync_queue (codes "segment") may_send t.segment now a.segment_queue a.drops in
    record a { segment_queue = q; drops = s }

-- A queue that was never made is `None`; its option is off then.
shutdown_optional :
    Text → Bool → Flush → ℕ → Option (Queue ℕ) → DropLog → Option (Queue ℕ) × DropLog
shutdown_optional kind may_send taken now none s = (none, s)
shutdown_optional kind may_send taken now (some q) s =
    let (r, s') = shutdown_sync_queue kind may_send taken now q s in (some r, s')

-- `if config.…_active: _shutdown_sync_queue(…)`
shutdown_if :
    Bool → Text → Bool → Flush → ℕ → Option (Queue ℕ) → DropLog → Option (Queue ℕ) × DropLog
unfolding shutdown_optional
shutdown_if active kind may_send taken now q s =
    if active then shutdown_optional kind may_send taken now q s else (q, s)

shutdown_logs : Bool → Taken → ℕ → Agent → Agent
unfolding shutdown_if
shutdown_logs may_send t now a =
    let (q, s) =
      shutdown_if a.config.agent_log_reporter_active (codes "log") may_send t.log now a.log_queue
        a.drops in
    record a { log_queue = q; drops = s }

shutdown_snapshots : Bool → Taken → ℕ → Agent → Agent
unfolding shutdown_if
shutdown_snapshots may_send t now a =
    let (q, s) =
      shutdown_if a.config.agent_profile_active (codes "snapshot") may_send t.snapshot now
        a.snapshot_queue a.drops in
    record a { snapshot_queue = q; drops = s }

shutdown_meters : Bool → Taken → ℕ → Agent → Agent
unfolding shutdown_if
shutdown_meters may_send t now a =
    let (q, s) =
      shutdown_if a.config.agent_meter_reporter_active (codes "meter") may_send t.meter now
        a.meter_queue a.drops in
    record a { meter_queue = q; drops = s }

-- `__fini`, where `ready` is what the protocol's `is_ready` answers.
unfoldable pub fini : Bool → Taken → ℕ → Agent → Agent
unfolding shutdown_segments shutdown_logs shutdown_snapshots shutdown_meters
fini ready t now a =
    if a.reporting
    then shutdown_meters ready t now (
        shutdown_snapshots ready t now (
          shutdown_logs ready t now (shutdown_segments ready t now (record a { finished = true }))))
    else a

-- `stop`
unfoldable pub stop : Bool → Taken → ℕ → Agent → Agent
stop ready t now a =
    record (fini ready t now (record a { atexit_handlers = 0; fini_registered = false })) {
      reporting = false;
      started = false;
    }

abandon_list_ends :
    (fuel n m u : ℕ) (l : List ℕ)
    → length l < fuel
    → abandon_rounds fuel n (record { maxsize = m; items = l; unfinished = u })
      ≡ (n + length l, record { maxsize = m; items = []; unfinished = u - length l })
unfolding abandon_rounds
abandon_list_ends zero n m u l h = elim h [ ]
abandon_list_ends (suc fuel) n m u [] h = ground arith
abandon_list_ends (suc fuel) n m u (x ∷ l) h =
    abandon_list_ends fuel (n + 1) m (u - 1) l (omega arith) ∙ ground arith

-- The loop that abandons a queue comes to its end in as many rounds as the queue has payloads and
-- one more: with any number of rounds above that of the payloads, the count is theirs, and the queue
-- is empty, with so many unfinished tasks less.
pub abandon_ends :
    (fuel : ℕ) (q : Queue ℕ)
    → length q.items < fuel
    → abandon_rounds fuel 0 q
      ≡ (length q.items, record q { items = []; unfinished = q.unfinished - length q.items })
abandon_ends fuel q h = abandon_list_ends fuel 0 q.maxsize q.unfinished q.items h ∙ ground arith

-- Abandoning a queue takes out everything, counts each payload once, and tells the queue that
-- each is done.
pub abandon_sync_queue_lem :
    (q : Queue ℕ)
    → abandon_sync_queue q
      ≡ (length q.items, record q { items = []; unfinished = q.unfinished - length q.items })
unfolding abandon_sync_queue
abandon_sync_queue_lem q = abandon_ends (suc (length q.items)) q (omega arith)
