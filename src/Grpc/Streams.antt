-- ===== src/Grpc/Streams.antt =====
-- The reports of skywalking/agent/protocol/grpc.py and grpc_aio.py, of each kind, beside those that put
-- more into the queue. grpc runs the generator of a report on a thread, or in a task, of its own: what
-- the generator has taken out of the queue is in its hand until it is yielded, and the generator may
-- outlive the call. Those of grpc.py stop at the end of their batch, those of grpc_aio.py wait for the
-- next payload. Times are milliseconds of the monotonic clock.
pub mod Generators
pub mod Balance
pub mod Accounting
mod Tests
use skywalking_python.Prelude.{
  ℕ, zero, suc, ◌+◌, ◌*◌, Bool, true, false, ◌&&◌, not, Option, none, some, List, [], ◌∷◌, ◌++◌,
  if◌then◌else◌, leb,
}
use skywalking_python.Prelude.Queue
use skywalking_python.Prelude.Queue.{Queue}
use skywalking_python.Agent.DropLog.{DropLog, log_dropped_throttled}
use skywalking_python.Agent.Aio.{Kind, label}

-- The variables of a report and of its generator: what was taken and not yielded yet, what was yielded,
-- and whether the generator has returned.
pub record Batch : Type 0 where
  pub batch_deadline : Option ℕ
  pub first_get : Bool
  pub sent : ℕ
  pub hand : Option ℕ
  pub yielded : List ℕ
  pub ended : Bool

-- One kind of payload: its queue, the log of what is dropped, the report whose call is under way, the
-- generators of calls that are over, what the collector has taken, what was counted as dropped, and what
-- was neither: yielded to a call that is over, or to one that was cancelled.
pub record Stream : Type 0 where
  pub queue : Queue ℕ
  pub drops : DropLog
  pub batch : Option Batch
  pub strays : List Batch
  pub delivered : List ℕ
  pub discarded : List ℕ
  pub lost : List ℕ

-- `_queue_get_within_batch`, with the queue at the time that the `get` returns
unfoldable pub queue_get_within_batch : ℕ → ℕ → Bool → Queue ℕ → Option (ℕ × Queue ℕ)
queue_get_within_batch now batch_deadline allow_immediate q =
    if leb batch_deadline now && not allow_immediate then none else Queue.get q

-- A report up to the call of the stub; one is under way at a time, and the generator does not run before
-- grpc asks for the first payload.
unfoldable pub begin_if : Bool → Option Batch → Option Batch
begin_if ready (some b) = some b
begin_if false none = none
begin_if true none = some (record {
  batch_deadline = none;
  first_get = true;
  sent = 0;
  hand = none;
  yielded = [];
  ended = false;
})

-- The deadline is set when the generator starts, with `config.agent_queue_timeout` in seconds.
abbrev pub until : Option ℕ → ℕ → ℕ → ℕ
until none timeout now = now + timeout * 1000
until (some d) timeout now = d

abbrev pub free : Bool → Option ℕ → Bool
free false none = true
free _ _ = false

unfoldable pub took : Option (ℕ × Queue ℕ) → Bool → Batch → Queue ℕ → Batch × Queue ℕ
took none ends b q = (record b { ended = ends }, q)
took (some (x, r)) ends b q = (record b { hand = some x }, r)

-- The generator of grpc.py gets a payload, or returns: at the end of its batch, or where the queue has
-- nothing.
unfoldable pub next : ℕ → ℕ → Batch → Queue ℕ → Batch × Queue ℕ
unfolding took queue_get_within_batch
next timeout now b q =
    let d = until b.batch_deadline timeout now in
    let item = queue_get_within_batch now d b.first_get q in
    if free b.ended b.hand
    then took item true (record b { batch_deadline = some d; first_get = false }) q
    else (b, q)

-- The generator of grpc_aio.py goes on where there is a payload.
unfoldable pub awaited : Batch → Queue ℕ → Batch × Queue ℕ
unfolding took
awaited b q = if free b.ended b.hand then took (Queue.get q) false b q else (b, q)

-- `task_done`, `sent += 1`, and the `yield`
unfoldable pub yield_hand : Option ℕ → Batch → Queue ℕ → Batch × Queue ℕ
yield_hand none b q = (b, q)
yield_hand (some x) b q =
    (record b { hand = none; sent = b.sent + 1; yielded = b.yielded ++ x ∷ [] }, Queue.task_done q)

-- A step of one of the generators
abbrev pub Step : Type 0
Step = Batch → Queue ℕ → Batch × Queue ℕ

unfoldable pub running_of : Step → Option Batch → Stream → Stream
running_of f none s = s
running_of f (some b) s = let (c, q) = f b s.queue in record s { batch = some c; queue = q }

unfoldable pub running : Step → Stream → Stream
unfolding running_of
running f s = running_of f s.batch s

unfoldable pub step_at : Step → ℕ → List Batch → Queue ℕ → List Batch × Queue ℕ
step_at f n [] q = ([], q)
step_at f zero (b ∷ bs) q = let (c, r) = f b q in (c ∷ bs, r)
step_at f (suc n) (b ∷ bs) q = let (cs, r) = step_at f n bs q in (b ∷ cs, r)

unfoldable pub straying : Step → ℕ → Stream → Stream
unfolding step_at
straying f n s = let (bs, q) = step_at f n s.strays s.queue in record s { strays = bs; queue = q }

unfoldable pub release_hand : Option ℕ → Batch → List Batch → Option ℕ × List Batch
release_hand none b bs = (none, b ∷ bs)
release_hand (some x) b bs = (some x, bs)

unfoldable pub release : ℕ → List Batch → Option ℕ × List Batch
unfolding release_hand
release n [] = (none, [])
release zero (b ∷ bs) = release_hand b.hand b bs
release (suc n) (b ∷ bs) = let (x, cs) = release n bs in (x, b ∷ cs)

unfoldable pub lose : Option ℕ × List Batch → Stream → Stream
lose (none, bs) s = record s { strays = bs }
lose (some x, bs) s = record s {
  strays = bs;
  queue = Queue.task_done s.queue;
  lost = s.lost ++ x ∷ [];
}

-- A generator yields when its call is over: grpc takes the payload, and asks for no more.
unfoldable pub stray_yields : ℕ → Stream → Stream
unfolding release lose
stray_yields n s = lose (release n s.strays) s

module _ (k : Kind) where
  unfoldable pub note_drop : ℕ → ℕ → DropLog → DropLog
  note_drop zero now d = d
  note_drop (suc n) now d = (log_dropped_throttled (label k) (suc n) false now d).1

  unfoldable pub offered : Option (Queue ℕ) → ℕ → ℕ → Stream → Stream
  unfolding note_drop
  offered none x now s = record s {
    drops = note_drop 1 now s.drops;
    discarded = s.discarded ++ x ∷ [];
  }
  offered (some q) x now s = record s { queue = q }

  -- One more payload for the queue, or for the log.
  unfoldable pub offer : ℕ → ℕ → Stream → Stream
  unfolding offered
  offer x now s = offered (Queue.put x s.queue) x now s

  unfoldable pub begin : Bool → Stream → Stream
  unfolding begin_if
  begin ready s = record s { batch = begin_if ready s.batch }

  unfoldable pub completed_of : Option Batch → Stream → Stream
  completed_of none s = s
  completed_of (some b) s = record s {
    batch = none;
    strays = b ∷ s.strays;
    delivered = s.delivered ++ b.yielded;
  }

  -- The call of the stub returns.
  unfoldable pub completed : Stream → Stream
  unfolding completed_of
  completed s = completed_of s.batch s

  unfoldable pub rpc_failed_of : Option Batch → ℕ → Stream → Stream
  unfolding note_drop
  rpc_failed_of none now s = s
  rpc_failed_of (some b) now s = record s {
    batch = none;
    strays = b ∷ s.strays;
    drops = note_drop b.sent now s.drops;
    discarded = s.discarded ++ b.yielded;
  }

  -- It raises `grpc.RpcError`: what was yielded is counted as dropped.
  unfoldable pub rpc_failed : ℕ → Stream → Stream
  unfolding rpc_failed_of
  rpc_failed now s = rpc_failed_of s.batch now s

  unfoldable pub cancelled_of : Option Batch → Stream → Stream
  cancelled_of none s = s
  cancelled_of (some b) s = record s {
    batch = none;
    strays = b ∷ s.strays;
    lost = s.lost ++ b.yielded;
  }

  -- It raises `CancelledError`, which is not caught.
  unfoldable pub cancelled : Stream → Stream
  unfolding cancelled_of
  cancelled s = cancelled_of s.batch s
