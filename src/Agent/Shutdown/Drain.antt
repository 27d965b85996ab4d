-- ===== src/Agent/Shutdown/Drain.antt =====
-- About the queues of the agent at its shutdown, in skywalking/agent/__init__.py.
use skywalking_python.Prelude.{
  ℕ, zero, suc, ◌+◌, ◌-◌, ◌≡◌, refl, Bool, true, false, ◌&&◌, not, Option, none, some, List, [],
  ◌∷◌, arith, if◌then◌else◌, Text, length, ◌∙◌, min,
}
use skywalking_python.Prelude.Queue
use skywalking_python.Prelude.Queue.{Queue}
use skywalking_python.Agent.DropLog.{
  DropLog, log_dropped_throttled, get_or_zero, drop_totals-log_dropped, get_or_zero-insert_self,
}
use skywalking_python.Agent.Queues.{Agent}
use skywalking_python.Agent.Shutdown.{
  abandon_sync_queue_lem, flush, Flush, count_failed, note_abandoned, shutdown_sync_queue, Taken,
  join_sync_queue, fini, shutdown_if,
}

-- No payload is in flight: each that is unfinished still stands in the queue.
abbrev pub IsQuiet : Queue ℕ → Type 0
IsQuiet q = q.unfinished ≡ length q.items

flush-IsQuiet : (n : ℕ) (q : Queue ℕ) → IsQuiet q → IsQuiet (flush n q)
unfolding flush
flush-IsQuiet zero q h = h
flush-IsQuiet (suc n) q h = go n q.maxsize q.items q.unfinished h (flush-IsQuiet n)
  where
    go :
        (n m : ℕ) (l : List ℕ) (u : ℕ)
        → u ≡ length l
        → ((r : Queue ℕ) → IsQuiet r → IsQuiet (flush n r))
        → IsQuiet (flush (suc n) (record { maxsize = m; items = l; unfinished = u }))
    go n m [] u e ih = e
    go n m (x ∷ l) u e ih = ih (record { maxsize = m; items = l; unfinished = u - 1 }) (omega arith)

length-flush :
    (n m u : ℕ) (l : List ℕ)
    → length (flush n (record { maxsize = m; items = l; unfinished = u })).items ≡ length l - n
unfolding flush
length-flush zero m u l = omega arith
length-flush (suc n) m u [] = omega arith
length-flush (suc n) m u (x ∷ l) = length-flush n m (u - 1) l ∙ omega arith

-- How many of the payloads the flush takes.
abbrev pub flushed : Bool → ℕ → Queue ℕ → ℕ
flushed may_send taken q = if may_send then min taken (length q.items) else 0

-- The queue when the flush is over.
abbrev flushed_queue : Bool → ℕ → Queue ℕ → Queue ℕ
flushed_queue may_send taken q = if may_send && not (Queue.empty q) then flush taken q else q

flushed_queue-IsQuiet :
    (may_send : Bool) (taken : ℕ) (q : Queue ℕ)
    → IsQuiet q
    → IsQuiet (flushed_queue may_send taken q)
flushed_queue-IsQuiet may_send taken q h = ground (arith, flush-IsQuiet taken q)

length-flushed_queue :
    (may_send : Bool) (taken : ℕ) (q : Queue ℕ)
    → length (flushed_queue may_send taken q).items + flushed may_send taken q ≡ length q.items
length-flushed_queue may_send taken q =
    ground (arith, length-flush taken q.maxsize q.unfinished q.items)

totals-note_abandoned :
    (kind : Text) (n now : ℕ) (s : DropLog)
    → get_or_zero kind (note_abandoned kind n now s).drop_totals
      ≡ get_or_zero kind s.drop_totals + n
unfolding note_abandoned log_dropped_throttled
totals-note_abandoned kind n now s =
    ground (arith, get_or_zero-insert_self kind (get_or_zero kind s.drop_totals + n) s.drop_totals)

-- The payloads that the flush takes and does not count as dropped itself.
abbrev pub sent_off : Bool → Flush → Queue ℕ → ℕ
sent_off may_send f q = if f.failed_call then 0 else flushed may_send f.taken q

totals-count_failed :
    (kind : Text) (failed_call : Bool) (n now : ℕ) (s : DropLog)
    → get_or_zero kind (count_failed kind failed_call n now s).drop_totals
      ≡ get_or_zero kind s.drop_totals + (if failed_call then n else 0)
unfolding count_failed
totals-count_failed kind false n now s = omega arith
totals-count_failed kind true n now s = ground (arith, drop_totals-log_dropped kind n false now s)

taken_or_counted :
    (failed_call : Bool) (n m l : ℕ)
    → m + n ≡ l
    → (if failed_call then l - m else 0) + m + (if failed_call then 0 else n) ≡ l
taken_or_counted true n m l e = omega arith
taken_or_counted false n m l e = omega arith

module _ (kind : Text) (may_send : Bool) (f : Flush) (now : ℕ) (q : Queue ℕ) (s : DropLog) where
  abbrev result : Queue ℕ × DropLog
  result = shutdown_sync_queue kind may_send f now q s

  pub shutdown_accounts :
      IsQuiet q
      → (result.0.items ≡ [])
        × (join_sync_queue result.0 ≡ true)
        × (get_or_zero kind result.1.drop_totals + sent_off may_send f q
            ≡ get_or_zero kind s.drop_totals + length q.items)
  unfolding shutdown_sync_queue
  shutdown_accounts quiet =
      let r = flushed_queue may_send f.taken q in
      let sent = length q.items - length r.items in
      (
        rw abandon_sync_queue_lem,
        rw abandon_sync_queue_lem (ground (arith, flushed_queue-IsQuiet may_send f.taken q quiet)),
        rw abandon_sync_queue_lem (
            omega (
              arith,
              taken_or_counted f.failed_call (flushed may_send f.taken q) (length r.items)
                  (length q.items) (length-flushed_queue may_send f.taken q),
              totals-count_failed kind f.failed_call sent now s,
              totals-note_abandoned kind (length r.items) now
                  (count_failed kind f.failed_call sent now s),
            )),
      )

-- A queue is over: empty, and nothing unfinished.
abbrev pub IsDrained : Queue ℕ → Type 0
IsDrained q = (q.items ≡ []) × (join_sync_queue q ≡ true)

-- So is an optional queue, where it was made.
abbrev pub Optional : (Queue ℕ → Type 0) → Option (Queue ℕ) → Type 0
Optional P none = Unit
Optional P (some q) = P q

-- An optional queue is there just when its option is on.
abbrev pub Matches : Bool → Option (Queue ℕ) → Type 0
Matches active none = active ≡ false
Matches active (some q) = active ≡ true

pub record IsIdle (a : Agent) : Type 0 where
  pub segments : IsQuiet a.segment_queue
  pub logs : Optional IsQuiet a.log_queue
  pub snapshots : Optional IsQuiet a.snapshot_queue
  pub meters : Optional IsQuiet a.meter_queue
  pub log_made : Matches a.config.agent_log_reporter_active a.log_queue
  pub snapshot_made : Matches a.config.agent_profile_active a.snapshot_queue
  pub meter_made : Matches a.config.agent_meter_reporter_active a.meter_queue

drains :
    (kind : Text) (may_send : Bool) (f : Flush) (now : ℕ) (q : Queue ℕ) (s : DropLog)
    → IsQuiet q
    → IsDrained (shutdown_sync_queue kind may_send f now q s).0
drains kind may_send f now q s h = let r = shutdown_accounts kind may_send f now q s h in (r.0, r.1)

Optional-drains :
    (kind : Text) (active may_send : Bool) (f : Flush) (now : ℕ) (o : Option (Queue ℕ))
    (s : DropLog)
    → Optional IsQuiet o
    → Matches active o
    → Optional IsDrained (shutdown_if active kind may_send f now o s).0
unfolding shutdown_if
Optional-drains kind active may_send f now none s h m = rw m tt
Optional-drains kind active may_send f now (some q) s h m = rw m (drains kind may_send f now q s h)

-- When a reporting agent with nothing in flight shuts down, every queue that it has ends empty
-- and joined, whether or not the backend is ready, and the reporter loops are told to end.
pub fini_drains :
    (ready : Bool) (t : Taken) (now : ℕ) (a : Agent)
    → a.reporting ≡ true
    → IsIdle a
    → let b = fini ready t now a in
      (b.finished ≡ true)
      × IsDrained b.segment_queue
      × Optional IsDrained b.log_queue
      × Optional IsDrained b.snapshot_queue
      × Optional IsDrained b.meter_queue
unfolding fini
fini_drains ready t now a on idle = rw on (
  refl,
  drains _ ready t.segment now a.segment_queue _ idle.segments,
  Optional-drains _ _ ready t.log now a.log_queue _ idle.logs idle.log_made,
  Optional-drains _ _ ready t.snapshot now a.snapshot_queue _ idle.snapshots idle.snapshot_made,
  Optional-drains _ _ ready t.meter now a.meter_queue _ idle.meters idle.meter_made,
)
