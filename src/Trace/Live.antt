-- ===== src/Trace/Live.antt =====
-- skywalking/trace/context.py and span.py: exit spans, the start and the stop of spans, and
-- `get_context`.
pub mod Stopping
pub mod Starting
use skywalking_python.Prelude.{
  ℕ, zero, suc, ◌≡◌, refl, Bool, true, false, ◌&&◌, ◌||◌, not, Option, none, some, List, [], ◌∷◌,
  ◌++◌, arith, if◌then◌else◌, Text, codes, ◌+◌, ◌==◌, contains, remove, last?, length, is_some,
}
use skywalking_python.Prelude.Int.{ℤ, pos, negsuc, eqb_ℤ, ltb_ℤ, ◌+ℤ◌, ◌-ℤ◌}
use skywalking_python.Prelude.Result.{Result, ok, err}
use skywalking_python.Prelude.Exec.{Exec, pure, raise, lift, modify, gets, ◌>>=◌, ◌>>◌}
use skywalking_python.Sampling
use skywalking_python.Sampling.{Sampler}
use skywalking_python.Agent.Queues.{is_segment_queue_full, archive_segment}
use skywalking_python.Trace.Component
use skywalking_python.Trace.Component.{Component, unknown}
use skywalking_python.Trace.Model.{
  World, Span, Segment, Context, SpanClass, span_class, entry_class, exit_class, noop_class, Kind,
  Layer, is_entry, is_exit, put_at,
}
use skywalking_python.Trace.Env.{Env, State, M, modify_span, modify_context}
use skywalking_python.Trace.Spans.{raised}
use skywalking_python.Trace.Contexts.{
  new_context, new_noop_context, noop_span, ignore_check, peek, new_span, or_else, unless_noop,
  span_at, component_is,
}

module _ (env : Env) where
  -- `component == parent.inherit`, where `component` may be `None`
  abbrev inherits_exit : Option Component → Option Span → Bool
  inherits_exit component none = false
  inherits_exit component (some s) = is_exit s.kind && component_is env component s.inherit

  -- An exit span is only taken over with a component, so the first case is never read.
  component_or_none : Option Component → Component → Component
  component_or_none none c = unknown
  component_or_none (some c) _ = c

  exit_span_from : ℕ → Text → Text → Option Component → Bool → Option ℕ → M env ℕ
  exit_span_from self op peer component true (some parent) = do
    modify_span env parent λ s. record s {
      op = op;
      peer = some peer;
      component = component_or_none component s.component;
    }
    pure parent
  exit_span_from self op peer component _ parent =
      new_span env self parent exit_class op (some peer) Kind.exit component

  set_inherit : Option Component → ℕ → M env (Unit {0})
  set_inherit none span = pure tt
  set_inherit (some i) span = modify_span env span (λ s. record s { inherit = i })

  -- `new_exit_span`
  unfoldable pub new_exit_span : ℕ → ℕ → Text → Text → Option Component → Option Component → M env ℕ
  unfolding or_else unless_noop exit_span_from set_inherit span_at component_is component_or_none
  new_exit_span thread self op peer component inherit = unless_noop env self do
    ignored ← ignore_check env op none
    or_else env ignored do
      parent ← peek env thread
      s ← gets (span_at env parent)
      span ← exit_span_from self op peer component (inherits_exit component s) parent
      set_inherit inherit span
      pure span

  -- `PrimaryEndpoint.set_primary_endpoint`, and its creation: the span that names the endpoint.
  pub primary : (ℕ → Span) → ℕ → Option ℕ → Option ℕ
  primary spans span none = some span
  primary spans span (some p) =
      if not (is_entry (spans p).kind) && is_entry (spans span).kind then some span else some p

  -- `SpanContext.start`
  unfoldable pub context_start : ℕ → ℕ → ℕ → M env (Unit {0})
  unfolding primary
  context_start thread self span = do
    modify_context env self (λ c. record c { nspans = c.nspans +ℤ pos 1 })
    w ← gets (λ w. w)
    if contains span (w.stacks thread) then pure tt else (do
      modify (λ w. record w { stacks = put_at thread (w.stacks thread ++ span ∷ []) w.stacks })
      modify_context env self
          (λ c. record c { primary_endpoint = primary w.spans span c.primary_endpoint }))

  -- `Span.start`
  base_start : ℕ → ℕ → M env (Unit {0})
  base_start thread span = do
    modify_span env span (λ s. record s { depth = s.depth +ℤ pos 1 })
    s ← gets (λ w. w.spans span)
    if not (eqb_ℤ s.depth (pos 1)) then pure tt else (do
      now ← gets (λ w. w.now)
      modify_span env span (λ s. record s { start_time = now })
      context_start thread s.context span)

  start_by : SpanClass → ℕ → ℕ → M env (Unit {0})
  start_by entry_class thread span = do
    base_start thread span
    modify_span env span λ s. record s {
      max_depth = s.depth;
      component = unknown;
      layer = Layer.unknown;
      logs = [];
      tags = [];
    }
  start_by _ thread span = base_start thread span

  -- `start`: an `EntrySpan` clears what its outer layers set.
  unfoldable pub start : ℕ → ℕ → M env (Unit {0})
  unfolding base_start start_by
  start thread span = do s ← gets (λ w. w.spans span); start_by s.class thread span

  -- `agent.archive_segment(self.segment)`: the queue holds the address of the context.
  archive : ℕ → M env (Unit {0})
  archive self = modify (λ w. record w { agent = archive_segment self w.now w.agent })

  -- `Span.finish`
  finish : ℕ → ℕ → M env (Unit {0})
  finish self span = do
    now ← gets (λ w. w.now)
    modify_span env span (λ s. record s { end_time = now })
    modify_context env self
        (λ c. record c { segment = record c.segment { spans = c.segment.spans ++ span ∷ [] } })

  pop_span : ℕ → ℕ → M env (Unit {0})
  pop_span thread span =
      modify (λ w. record w { stacks = put_at thread (remove span (w.stacks thread)) w.stacks })

  -- `SpanContext.stop` and `NoopContext.stop`
  context_stop : Bool → ℕ → ℕ → ℕ → M env Bool
  context_stop true thread self span = do
    pop_span thread span
    modify_context env self (λ c. record c { nspans = c.nspans -ℤ pos 1 })
    c ← gets (λ w. w.contexts self)
    pure (eqb_ℤ c.nspans (pos 0))
  context_stop false thread self span = do
    finish self span
    pop_span thread span
    modify_context env self (λ c. record c { nspans = c.nspans -ℤ pos 1 })
    c ← gets (λ w. w.contexts self)
    if not (eqb_ℤ c.nspans (pos 0)) then pure false else (do
      full ← gets (λ w. is_segment_queue_full w.agent)
      modify_context env self
          (λ c. record c { segment = record c.segment { is_size_limited = full } })
      archive self
      pure true)

  -- `Span.stop`
  unfoldable pub stop : ℕ → ℕ → M env Bool
  unfolding context_stop finish pop_span archive
  stop thread span = do
    modify_span env span (λ s. record s { depth = s.depth -ℤ pos 1 })
    s ← gets (λ w. w.spans span)
    if not (eqb_ℤ s.depth (pos 0))
        then pure false
        else (do c ← gets (λ w. w.contexts s.context); context_stop c.is_noop thread s.context span)

  raised_if : Option Text → ℕ → M env (Unit {0})
  raised_if none span = pure tt
  raised_if (some traceback) span = raised env traceback span

  -- `Span.__exit__`, with the traceback text where an `Exception` came out of the block; the
  -- result says whether the exception is swallowed.
  unfoldable pub exit : ℕ → ℕ → Option Text → Bool → M env Bool
  unfolding raised_if
  exit thread span exception has_traceback = do
    raised_if exception span
    stop thread span
    pure (not has_traceback)

  sampled : Option Sampler → Bool × Option Sampler
  sampled none = (true, none)
  sampled (some s) = let (b, s') = Sampling.try_sampling env.sample_n_per_3_secs s in (b, some s')

  context_from : Option ℕ → M env ℕ
  context_from (some span) = gets (λ w. (w.spans span).context)
  context_from none = do
    sampling ← gets (λ w. w.sampling)
    modify (λ w. record w { sampling = (sampled sampling).1 })
    if (sampled sampling).0 then new_context env else new_noop_context env

  -- `get_context`
  unfoldable pub get_context : ℕ → M env ℕ
  unfolding context_from sampled
  get_context thread = do top ← peek env thread; context_from top
