-- ===== src/Trace/Live/Starting.antt =====
-- About `start` of a span in skywalking/trace/span.py, alone and followed by `stop`.
use skywalking_python.Prelude.{
  ℕ, suc, ◌≡◌, false, [], ◌∷◌, ◌++◌, arith, contains, remove, remove-append_one, ap, ◌∙◌,
}
use skywalking_python.Prelude.Int.{pos, ◌+ℤ◌}
use skywalking_python.Trace.Component.{unknown}
use skywalking_python.Trace.Model.{
  Context, SpanClass, span_class, entry_class, exit_class, noop_class,
}
use skywalking_python.Trace.Env.{Env, State}
use skywalking_python.Trace.Live.{start, start_by, base_start, context_start, stop}
use skywalking_python.Trace.Live.Stopping.{stop_stack}

module _ (env : Env) (thread span : ℕ) (w : State env) where
  abbrev context : Context
  context = w.contexts (w.spans span).context

  base_start_first :
      (w.spans span).depth ≡ pos 0
      → contains span (w.stacks thread) ≡ false
      → let v = (base_start env thread span w).1 in
        (v.stacks thread ≡ w.stacks thread ++ span ∷ [])
        × ((v.spans span).depth ≡ pos 1)
        × ((v.spans span).start_time ≡ w.now)
        × ((v.spans span).context ≡ (w.spans span).context)
        × ((v.contexts (w.spans span).context).nspans ≡ context.nspans +ℤ pos 1)
        × (v.agent ≡ w.agent)
  unfolding base_start context_start ◌+ℤ◌
  base_start_first e new = ground arith

  -- The first start of a span of any class.
  start_by_first :
      (class : SpanClass)
      → (w.spans span).depth ≡ pos 0
      → contains span (w.stacks thread) ≡ false
      → let v = (start_by env class thread span w).1 in
        (v.stacks thread ≡ w.stacks thread ++ span ∷ [])
        × ((v.spans span).depth ≡ pos 1)
        × ((v.spans span).start_time ≡ w.now)
        × ((v.spans span).context ≡ (w.spans span).context)
        × ((v.contexts (w.spans span).context).nspans ≡ context.nspans +ℤ pos 1)
        × (v.agent ≡ w.agent)
  unfolding start_by base_start context_start ◌+ℤ◌
  start_by_first entry_class e new = ground arith
  start_by_first span_class e new = ground arith
  start_by_first exit_class e new = ground arith
  start_by_first noop_class e new = ground arith

  -- The first start of a span that is not live puts it on top of the stack of its thread, dates
  -- it, and counts it in its context; nothing goes to the agent.
  pub start_first :
      (w.spans span).depth ≡ pos 0
      → contains span (w.stacks thread) ≡ false
      → let v = (start env thread span w).1 in
        (v.stacks thread ≡ w.stacks thread ++ span ∷ [])
        × ((v.spans span).depth ≡ pos 1)
        × ((v.spans span).start_time ≡ w.now)
        × ((v.spans span).context ≡ (w.spans span).context)
        × ((v.contexts (w.spans span).context).nspans ≡ context.nspans +ℤ pos 1)
        × (v.agent ≡ w.agent)
  unfolding start
  start_first e new = start_by_first (w.spans span).class e new

  -- Starting an entry span that is already live, as a framework on top of another does, adds a
  -- layer and clears the component, the layer, the logs and the tags; the stack stays.
  pub start_entry_again :
      (d : ℕ)
      → (w.spans span).depth ≡ pos (suc d)
      → (w.spans span).class ≡ entry_class
      → let v = (start env thread span w).1 in
        let s = v.spans span in
        (s.depth ≡ pos (suc (suc d)))
        × (s.max_depth ≡ pos (suc (suc d)))
        × (s.component ≡ unknown)
        × (s.logs ≡ [])
        × (s.tags ≡ [])
        × (v.stacks ≡ w.stacks)
        × (v.contexts ≡ w.contexts)
  unfolding start base_start ◌+ℤ◌
  start_entry_again d e cls = ground arith

  -- A span of depth 0 that is not live, started and then stopped, leaves the stack of its thread
  -- as it was.
  pub start-stop_stack :
      (w.spans span).depth ≡ pos 0
      → contains span (w.stacks thread) ≡ false
      → (stop env thread span (start env thread span w).1).1.stacks thread ≡ w.stacks thread
  start-stop_stack e new =
      let started = start_first e new in
      stop_stack env thread span (start env thread span w).1 started.1
      ∙ ap (remove span) started.0
      ∙ remove-append_one span (w.stacks thread) new
