-- ===== src/Agent/Aio/Handing.antt =====
-- Segments handed to the asyncio agent of skywalking/agent/__init__.py, callbacks that the loop runs,
-- and the clean-up, in any order.
use skywalking_python.Prelude.{
  ℕ, ◌+◌, ◌≡◌, refl, Bool, true, false, List, [], ◌∷◌, ◌++◌, arith, if◌then◌else◌,
}
use skywalking_python.Prelude.Result.{Result, ok, err, runtime_error}
use skywalking_python.Prelude.Weights.{Weight, one}
use skywalking_python.Agent.Aio.{
  Kind, segment, log, meter, snapshot, AioAgent, call_soon, archive, add_profiling_snapshot,
  run_callback, shutdown_async_queue, async_shutdown_cleanup,
}
use skywalking_python.Agent.Aio.Segments.{
  weigh_segments, weigh_segments-append, accounted, total, IsOpen, Adds,
}
use skywalking_python.Agent.Aio.Callbacks.{
  call_soon-Adds, run_from-Adds, shutdown_segments-Adds, shutdown_other-Adds, if-Adds,
}

pub data Event : Type 0 where
  archives : Kind → ℕ → Event
  snapshots : ℕ → Event
  runs : ℕ → Event
  cleans : ℕ → Event

unfoldable pub apply : Event → AioAgent → AioAgent
apply (archives k x) a = archive k x a
apply (snapshots x) a = (add_profiling_snapshot x a).1
apply (runs now) a = run_callback now a
apply (cleans now) a = async_shutdown_cleanup now a

unfoldable pub history : List Event → AioAgent → AioAgent
history [] a = a
history (e ∷ es) a = history es (apply e a)

abbrev handed_by : Event → List (Kind × ℕ)
handed_by (archives k x) = (k, x) ∷ []
handed_by _ = []

-- What is archived.
unfoldable pub handed : List Event → List (Kind × ℕ)
handed [] = []
handed (e ∷ es) = handed_by e ++ handed es

Adds-trans : (a b c : AioAgent) → Adds [] a b → Adds [] b c → Adds [] a c
Adds-trans a b c s t = record {
  stays = t.stays;
  moved = λ w. omega (arith, s.moved w, t.moved w);
  counted = omega (arith, s.counted, t.counted);
}

-- The loop is open.
open_loop :
    (a : AioAgent) (n : List (Kind × ℕ)) (b c : AioAgent)
    → IsOpen a
    → Adds n a c
    → Adds n a (if a.loop_closed then b else c)
open_loop a n b c h k = by_closed a.loop_closed h.running
  where
    by_closed : (closed : Bool) → closed ≡ false → Adds n a (if closed then b else c)
    by_closed true e = cc e
    by_closed false e = k

archive-Adds : (k : Kind) (x : ℕ) (a : AioAgent) → IsOpen a → Adds ((k, x) ∷ []) a (archive k x a)
unfolding archive
archive-Adds k x a h = open_loop a ((k, x) ∷ []) a (call_soon k x a) h (call_soon-Adds k x a h)

-- A snapshot weighs nothing.
snapshot_only : (x : ℕ) (a b : AioAgent) → Adds ((snapshot, x) ∷ []) a b → Adds [] a b
snapshot_only x a b t = record {
  stays = t.stays;
  moved = λ w. omega (arith, t.moved w);
  counted = t.counted;
}

snapshot-Adds : (x : ℕ) (a : AioAgent) → IsOpen a → Adds [] a (add_profiling_snapshot x a).1
unfolding add_profiling_snapshot
snapshot-Adds x a h = by_closed a.loop_closed h.running
  where
    by_closed :
        (closed : Bool)
        → closed ≡ false
        → let r : Result (Unit {0}) × AioAgent =
            if closed then (err runtime_error, a) else (ok tt, call_soon snapshot x a) in
          Adds [] a r.1
    by_closed true e = cc e
    by_closed false e = snapshot_only x a _ (call_soon-Adds snapshot x a h)

shutdown-Adds :
    (active : Bool) (k : Kind) (now : ℕ) (a : AioAgent)
    → IsOpen a
    → Adds [] a (shutdown_async_queue active k now a)
unfolding shutdown_async_queue
shutdown-Adds active segment now a h =
    if-Adds active a _ h (shutdown_segments-Adds now (a.queues segment) a refl h)
shutdown-Adds active log now a h =
    if-Adds active a _ h (shutdown_other-Adds log now (a.queues log) a refl refl h)
shutdown-Adds active meter now a h =
    if-Adds active a _ h (shutdown_other-Adds meter now (a.queues meter) a refl refl h)
shutdown-Adds active snapshot now a h =
    if-Adds active a _ h (shutdown_other-Adds snapshot now (a.queues snapshot) a refl refl h)

cleanup-Adds : (now : ℕ) (a : AioAgent) → IsOpen a → Adds [] a (async_shutdown_cleanup now a)
unfolding async_shutdown_cleanup
cleanup-Adds now a h =
    let c = a.config in
    let one_less = shutdown_async_queue true segment now a in
    let two_less = shutdown_async_queue c.agent_log_reporter_active log now one_less in
    let three_less = shutdown_async_queue c.agent_profile_active snapshot now two_less in
    let four_less = shutdown_async_queue c.agent_meter_reporter_active meter now three_less in
    let s1 = shutdown-Adds true segment now a h in
    let s2 = shutdown-Adds c.agent_log_reporter_active log now one_less s1.stays in
    let s3 = shutdown-Adds c.agent_profile_active snapshot now two_less s2.stays in
    let s4 = shutdown-Adds c.agent_meter_reporter_active meter now three_less s3.stays in
    Adds-trans a three_less four_less
      (Adds-trans a two_less three_less (Adds-trans a one_less two_less s1 s2) s3) s4

apply-Adds : (e : Event) (a : AioAgent) → IsOpen a → Adds (handed_by e) a (apply e a)
unfolding apply run_callback
apply-Adds (archives k x) a h = archive-Adds k x a h
apply-Adds (snapshots x) a h = snapshot-Adds x a h
apply-Adds (runs now) a h = run_from-Adds a.scheduled now a refl h
apply-Adds (cleans now) a h = cleanup-Adds now a h

-- While the loop is open and the queue of segments was made: after telemetry that other threads
-- archive, callbacks that the loop runs, and clean-ups, in any order, the loop is open still; by any
-- weight of segments, those that the agent had and those archived since weigh as much as those that
-- were dropped, are in the queue, or wait to be put there; and the drop count has grown by the number of
-- segments dropped since.
pub handing_accounts :
    (es : List Event) (a : AioAgent)
    → IsOpen a
    → IsOpen (history es a)
      × ((w : Weight) → accounted w (history es a) ≡ accounted w a + weigh_segments w (handed es))
      × (total (history es a) + weigh_segments one a.discarded
          ≡ total a + weigh_segments one (history es a).discarded)
unfolding history handed
handing_accounts [] a h = (h, λ w. omega arith, refl)
handing_accounts (e ∷ es) a h =
    let t = apply-Adds e a h in
    let (u, v, c) = handing_accounts es (apply e a) t.stays in
    (
      u,
      λ w. omega (arith, t.moved w, v w, weigh_segments-append w (handed_by e) (handed es)),
      omega (arith, t.counted, c),
    )
