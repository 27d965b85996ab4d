-- ===== src/Trace/Live/Stopping.antt =====
-- About `stop` of a span in skywalking/trace/span.py and context.py.
use skywalking_python.Prelude.{ℕ, suc, ◌≡◌, ◌≢◌, true, false, [], ◌∷◌, ◌++◌, arith, remove}
use skywalking_python.Prelude.Int.{pos, ◌-ℤ◌}
use skywalking_python.Prelude.Result.{ok}
use skywalking_python.Agent.Queues.{archive_segment, is_segment_queue_full}
use skywalking_python.Trace.Model.{Context, put_at}
use skywalking_python.Trace.Env.{Env, State}
use skywalking_python.Trace.Live.{stop}

module _ (env : Env) (thread span : ℕ) (w : State env) where
  -- Stopping an inner layer of a span that was started more than once takes one from its depth,
  -- answers false, and changes nothing else.
  pub stop_inner :
      (d : ℕ)
      → (w.spans span).depth ≡ pos (suc (suc d))
      → stop env thread span w ≡ (
        ok false,
        record w { spans = put_at span (record (w.spans span) { depth = pos (suc d) }) w.spans },
      )
  unfolding stop ◌-ℤ◌
  stop_inner d e = rw e (ground arith)

  abbrev context : Context
  context = w.contexts (w.spans span).context

  -- Stopping the outer layer of a span of a context that records, while other spans of the
  -- context live: the span is finished into the segment and leaves the stack, the context counts
  -- one less, and the agent gets nothing.
  pub stop_outer :
      (n : ℕ)
      → (w.spans span).depth ≡ pos 1
      → context.is_noop ≡ false
      → context.nspans ≡ pos (suc (suc n))
      → let (r, v) = stop env thread span w in
        let c = v.contexts (w.spans span).context in
        (r ≡ ok false)
        × (v.agent ≡ w.agent)
        × (v.stacks thread ≡ remove span (w.stacks thread))
        × (c.nspans ≡ pos (suc n))
        × (c.segment.spans ≡ context.segment.spans ++ span ∷ [])
  unfolding stop ◌-ℤ◌
  stop_outer n e rec more = ground arith

  -- Stopping the last live span of a context that records hands the segment to the agent, once,
  -- with this span as its last.
  pub stop_last :
      (w.spans span).depth ≡ pos 1
      → context.is_noop ≡ false
      → context.nspans ≡ pos 1
      → let (r, v) = stop env thread span w in
        let c = v.contexts (w.spans span).context in
        (r ≡ ok true)
        × (v.agent ≡ archive_segment (w.spans span).context w.now w.agent)
        × (v.stacks thread ≡ remove span (w.stacks thread))
        × (c.segment.spans ≡ context.segment.spans ++ span ∷ [])
        × (c.segment.is_size_limited ≡ is_segment_queue_full w.agent)
  unfolding stop ◌-ℤ◌
  stop_last e rec last = ground arith

  -- On every branch the outer stop takes the span off the stack of its thread.
  pub stop_stack :
      (w.spans span).depth ≡ pos 1
      → (stop env thread span w).1.stacks thread ≡ remove span (w.stacks thread)
  unfolding stop ◌-ℤ◌
  stop_stack e = ground arith

  -- Whatever its depth, stopping a span of a no-op context gives the agent nothing.
  pub stop_noop :
      context.is_noop ≡ true
      → ((stop env thread span w).1.agent ≡ w.agent)
        × ((stop env thread span w).1.contexts (w.spans span).context).segment ≡ context.segment
  unfolding stop ◌-ℤ◌
  stop_noop rec = ground arith

  -- Stopping a span in one thread does not touch the live spans of another.
  pub stop_other_thread :
      (other : ℕ) → thread ≢ other → (stop env thread span w).1.stacks other ≡ w.stacks other
  unfolding stop ◌-ℤ◌
  stop_other_thread other ne = ground arith
