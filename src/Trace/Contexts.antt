-- ===== src/Trace/Contexts.antt =====
-- skywalking/trace/context.py: `SpanContext` and `NoopContext`, and the spans they make.
-- The first argument of what reads the stack of live spans is the thread (or task) that runs it.
pub mod Spawning
use skywalking_python.Prelude.{
  ℕ, zero, suc, ◌≡◌, refl, Bool, true, false, ◌&&◌, ◌||◌, not, Option, none, some, List, [], ◌∷◌,
  ◌++◌, arith, if◌then◌else◌, Text, codes, text_eq, is_empty, ◌+◌, ◌==◌, contains, remove, last?,
  length, is_some,
}
use skywalking_python.Prelude.Int.{ℤ, pos, negsuc, eqb_ℤ, ltb_ℤ, ◌+ℤ◌, ◌-ℤ◌}
use skywalking_python.Prelude.Dict.{Dict, lookup, insert, erase, update}
use skywalking_python.Prelude.Result.{Result, ok, err, attribute_error, index_error, illegal_state}
use skywalking_python.Prelude.Exec.{Exec, pure, raise, lift, modify, gets, ◌>>=◌, ◌>>◌}
use skywalking_python.Utils.Counter
use skywalking_python.Sampling
use skywalking_python.Sampling.{Sampler}
use skywalking_python.Agent.Queues.{is_segment_queue_full, archive_segment}
use skywalking_python.Trace.Component
use skywalking_python.Trace.Component.{Component, unknown}
use skywalking_python.Trace.Model.{
  World, Span, Segment, SegmentRef, Context, cross_thread, Snapshot, Identifier, fresh, plain, noop,
  id_text, SpanClass, span_class, entry_class, exit_class, noop_class, Kind, Layer, is_entry,
  is_exit, put_at,
}
use skywalking_python.Trace.Carrier.{Carrier, is_valid, is_suppressed}
use skywalking_python.Trace.Env.{Env, State, M, modify_span, modify_context}
use skywalking_python.Trace.Spans.{
  new_span_object, make_id, relate, extract, extract_span, carrier_of, new_dict, raised,
}

module _ (env : Env) where
  -- A new object in the store.
  alloc_context : Context → M env ℕ
  alloc_context c w = (
    ok w.next_context,
    record w { contexts = put_at w.next_context c w.contexts; next_context = w.next_context + 1 },
  )

  alloc_span : Span → M env ℕ
  alloc_span s w = (
    ok w.next_span,
    record w { spans = put_at w.next_span s w.spans; next_span = w.next_span + 1 },
  )

  -- A text of `uuid1`.
  draw : M env Text
  draw w = (ok (env.uuid w.uuids), record w { uuids = w.uuids + 1 })

  -- `SpanContext.__init__`
  unfoldable pub new_context : M env ℕ
  unfolding alloc_context draw new_dict
  new_context = do
    segment_id ← draw
    trace_id ← draw
    d ← new_dict env
    now ← gets (λ w. w.now)
    alloc_context (record {
      is_noop = false;
      segment = record {
        segment_id = plain segment_id;
        spans = [];
        timestamp = now;
        related_traces = fresh trace_id ∷ [];
        is_size_limited = false;
      };
      sid = Counter.init;
      correlation = d;
      nspans = pos 0;
      profile_status = none;
      create_time = now;
      primary_endpoint = none;
    })

  -- `NoopContext.__init__`
  unfoldable pub new_noop_context : M env ℕ
  unfolding alloc_context new_dict
  new_noop_context = do
    d ← new_dict env
    alloc_context (record {
      is_noop = true;
      segment = record {
        segment_id = noop [];
        spans = [];
        timestamp = 0;
        related_traces = noop [] ∷ [];
        is_size_limited = false;
      };
      sid = Counter.init;
      correlation = d;
      nspans = pos 0;
      profile_status = none;
      create_time = 0;
      primary_endpoint = none;
    })

  -- `NoopSpan(context)`
  unfoldable pub noop_span : ℕ → M env ℕ
  unfolding alloc_span new_span_object
  noop_span context =
      alloc_span (new_span_object noop_class context (negsuc 0) (negsuc 0) [] none Kind.local none)

  suppressed : Option Carrier → M env Bool
  suppressed none = pure false
  suppressed (some c) = lift (is_suppressed env.unicode c)

  -- `ignore_check`: a span that records nothing, if the operation is ignored, the queue is full or
  -- the carrier is suppressed.
  unfoldable pub ignore_check : Text → Option Carrier → M env (Option ℕ)
  unfolding suppressed
  ignore_check op carrier = do
    full ← gets (λ w. is_segment_queue_full w.agent)
    ignored ← if env.ignore_path op || full then pure true else suppressed carrier
    if ignored
        then (do context ← new_noop_context; span ← noop_span context; pure (some span))
        else pure none

  -- `peek`
  unfoldable pub peek : ℕ → M env (Option ℕ)
  peek thread = gets (λ w. last? (w.stacks thread))

  next_sid : ℕ → M env ℤ
  next_sid context = do
    c ← gets (λ w. w.contexts context)
    modify_context env context (λ c. record c { sid = (Counter.next c.sid).1 })
    pure (Counter.next c.sid).0

  -- A span under the context `self`, with this parent.
  child_span : ℕ → ℤ → SpanClass → Text → Option Text → Kind → Option Component → M env ℕ
  unfolding next_sid alloc_span
  child_span self pid class op peer kind component = do
    sid ← next_sid self
    alloc_span (new_span_object class self sid pid op peer kind component)

  -- `new_span`
  new_span_from :
      ℕ
      → Option ℕ
      → Option Span
      → SpanClass
      → Text
      → Option Text
      → Kind
      → Option Component
      → M env ℕ
  unfolding child_span
  new_span_from self (some parent) (some s) class op peer kind component =
      if eqb_ℤ s.depth (pos 0)
      then (do
        context ← new_context
        span ← child_span context (negsuc 0) class op peer kind component
        carrier ← carrier_of env parent
        extract env carrier span
        pure span)
      else child_span self s.sid class op peer kind component
  new_span_from self _ _ class op peer kind component =
      child_span self (negsuc 0) class op peer kind component

  unfoldable pub span_at : Option ℕ → State env → Option Span
  span_at none w = none
  span_at (some a) w = some (w.spans a)

  unfoldable pub new_span :
      ℕ → Option ℕ → SpanClass → Text → Option Text → Kind → Option Component → M env ℕ
  unfolding new_span_from span_at
  new_span self parent class op peer kind component = do
    s ← gets (span_at parent)
    new_span_from self parent s class op peer kind component

  -- `if span is not None: return span`, else go on.
  unfoldable pub or_else : Option ℕ → M env ℕ → M env ℕ
  or_else (some span) k = pure span
  or_else none k = k

  -- `NoopContext` answers every request for a span with a `NoopSpan` of its own.
  unfoldable pub unless_noop : ℕ → M env ℕ → M env ℕ
  unless_noop self k = do c ← gets (λ w. w.contexts self); if c.is_noop then noop_span self else k

  -- `new_local_span`
  unfoldable pub new_local_span : ℕ → ℕ → Text → M env ℕ
  unfolding or_else unless_noop
  new_local_span thread self op = unless_noop self do
    ignored ← ignore_check op none
    or_else ignored do parent ← peek thread; new_span self parent span_class op none Kind.local none

  -- A call of the profiling service.
  profiling : {A : Type 0} → Exec env.profiler.State A → M env A
  profiling f w = let (r, p) = f w.profile in (r, record w { profile = p })

  -- `profile_status` is asked for once for each context, if profiling is on.
  start_profiling : ℕ → Text → M env (Unit {0})
  unfolding profiling
  start_profiling self op = do
    c ← gets (λ w. w.contexts self)
    if env.agent_profile_active && not (is_some c.profile_status)
        then (do
          status ← profiling (
              env.profiler.add_profiling self c.create_time c.profile_status
                (id_text c.segment.segment_id) op)
          modify_context env self (λ c. record c { profile_status = some status }))
        else pure tt

  -- `SpanContext.profiling_recheck`
  unfoldable pub profiling_recheck : ℕ → ℕ → Text → M env (Unit {0})
  unfolding profiling
  profiling_recheck self span op = do
    c ← gets (λ w. w.contexts self)
    s ← gets (λ w. w.spans span)
    if not env.agent_profile_active || not (eqb_ℤ s.sid (pos 0))
        then pure tt
        else profiling (
            env.profiler.profiling_recheck self c.create_time c.profile_status
              (id_text c.segment.segment_id) op)

  -- `inherit == parent.component`, where `inherit` may be `None`
  unfoldable pub component_is : Option Component → Component → Bool
  component_is none c = false
  component_is (some i) c = Component.same i c

  -- The test by which an entry span takes over its parent.
  abbrev inherits_entry : Option Component → Option Span → Bool
  inherits_entry inherit none = false
  inherits_entry inherit (some s) = is_entry s.kind && component_is inherit s.component

  extract_valid : Option Carrier → ℕ → M env (Unit {0})
  extract_valid none span = pure tt
  extract_valid (some c) span = do
    valid ← lift (is_valid env.unicode c)
    if valid then extract_span env c span else pure tt

  entry_span_from : ℕ → Text → Option Carrier → Bool → Option ℕ → M env ℕ
  unfolding extract_valid
  entry_span_from self op carrier true (some parent) = do
    profiling_recheck self parent op
    modify_span env parent (λ s. record s { op = op })
    pure parent
  entry_span_from self op carrier _ parent = do
    span ← new_span self parent entry_class op none Kind.entry none
    extract_valid carrier span
    pure span

  -- `new_entry_span`
  unfoldable pub new_entry_span : ℕ → ℕ → Text → Option Carrier → Option Component → M env ℕ
  unfolding or_else unless_noop start_profiling entry_span_from component_is span_at
  new_entry_span thread self op carrier inherit = unless_noop self do
    ignored ← ignore_check op carrier
    or_else ignored do
      parent ← peek thread
      start_profiling self op
      s ← gets (span_at parent)
      entry_span_from self op carrier (inherits_entry inherit s) parent
