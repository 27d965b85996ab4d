-- ===== src/Trace/Contexts/Spawning.antt =====
-- What a context gives when it is asked for a span.
use skywalking_python.Prelude.{ℕ, suc, ◌≡◌, ◌≢◌, true, false, ◌||◌, Option, some, arith, Text}
use skywalking_python.Prelude.Int.{pos, ◌+ℤ◌}
use skywalking_python.Prelude.Result.{ok}
use skywalking_python.Utils.Counter
use skywalking_python.Agent.Queues.{is_segment_queue_full}
use skywalking_python.Trace.Component.{Component}
use skywalking_python.Trace.Model.{SpanClass, noop_class, Kind}
use skywalking_python.Trace.Carrier.{Carrier}
use skywalking_python.Trace.Env.{Env, State}
use skywalking_python.Trace.Spans.{new_span_object}
use skywalking_python.Trace.Contexts.{
  new_span, noop_span, ignore_check, new_entry_span, new_noop_context,
}

module _ (env : Env) (w : State env) where
  -- A span under a parent that is live, whose address is not the next free one, is a new object
  -- of the same context, with the next number of the context as its id and the id of the parent
  -- as its parent's; the stacks, the agent and the parent are as they were.
  pub new_span_live :
      (self parent : ℕ) (class : SpanClass) (op : Text) (peer : Option Text) (kind : Kind)
      (component : Option Component) (d : ℕ)
      → (w.spans parent).depth ≡ pos (suc d)
      → parent ≢ w.next_span
      → let (r, v) = new_span env self (some parent) class op peer kind component w in
        (r ≡ ok w.next_span)
        × (v.spans w.next_span
            ≡ new_span_object class self
                ((w.contexts self).sid.value +ℤ pos 1)
                (w.spans parent).sid
                op
                peer
                kind
                component)
        × ((v.contexts self).sid.value ≡ (w.contexts self).sid.value +ℤ pos 1)
        × (v.spans parent ≡ w.spans parent)
        × (v.stacks ≡ w.stacks)
        × (v.agent ≡ w.agent)
  unfolding new_span Counter.next
  new_span_live self parent class op peer kind component d e ne = ground arith

  -- For an ignored operation, or when the queue of segments is full (or the agent does not report),
  -- an entry span is a no-op span of a no-op context: no id is drawn, and the stacks and the agent
  -- are as they were.
  pub new_entry_span_ignored :
      (thread self : ℕ) (op : Text) (carrier : Option Carrier) (inherit : Option Component)
      → (w.contexts self).is_noop ≡ false
      → (env.ignore_path op || is_segment_queue_full w.agent) ≡ true
      → let (r, v) = new_entry_span env thread self op carrier inherit w in
        (r ≡ ok w.next_span)
        × ((v.spans w.next_span).class ≡ noop_class)
        × ((v.contexts (v.spans w.next_span).context).is_noop ≡ true)
        × (v.stacks ≡ w.stacks)
        × (v.agent ≡ w.agent)
        × (v.uuids ≡ w.uuids)
  unfolding new_entry_span ignore_check new_noop_context noop_span new_span_object
  new_entry_span_ignored thread self op carrier inherit live ignored =
      rw live (rw ignored (ground arith))
