-- ===== src/Trace/Snapshots.antt =====
-- skywalking/trace/context.py and snapshot.py: the correlation of a context, and how a trace goes on
-- in another thread.
pub mod Continuing
use skywalking_python.Prelude.{
  ℕ, zero, suc, ◌≡◌, refl, Bool, true, false, ◌&&◌, ◌||◌, not, Option, none, some, List, [], ◌∷◌,
  ◌++◌, arith, if◌then◌else◌, Text, codes, text_eq, ◌+◌, ◌==◌, last?, length, is_some,
}
use skywalking_python.Prelude.Int.{ℤ, pos, negsuc, eqb_ℤ, ltb_ℤ}
use skywalking_python.Prelude.Dict.{Dict, lookup, insert, erase, update}
use skywalking_python.Prelude.Result.{Result, ok, err, attribute_error, index_error}
use skywalking_python.Prelude.Exec.{Exec, pure, raise, lift, modify, gets, ◌>>=◌, ◌>>◌}
use skywalking_python.Trace.Model.{
  World, Span, Segment, SegmentRef, Context, cross_thread, Snapshot, Identifier, fresh, plain, noop,
  id_text, put_at,
}
use skywalking_python.Trace.Env.{Env, State, M, modify_span, modify_context}
use skywalking_python.Trace.Spans.{make_id, relate}

-- `put_correlation` on the dict: `None` as the value takes the key out; a value that is too long,
-- or a dict that is over the number, leaves it alone.
put_entry : ℤ → ℤ → Text → Option Text → Dict Text → Dict Text
put_entry max_number max_length key none d = erase key d
put_entry max_number max_length key (some value) d =
    if ltb_ℤ max_length (pos (length value))
    then d
    else if ltb_ℤ max_number (pos (length d))
    then d
    else insert key value d

module _ (env : Env) where
  -- `get_correlation`
  unfoldable pub get_correlation : ℕ → Text → M env (Option Text)
  get_correlation self key = gets (λ w. lookup key (w.dicts (w.contexts self).correlation))

  modify_dict : ℕ → (Dict Text → Dict Text) → M env (Unit {0})
  modify_dict a f = modify (λ w. record w { dicts = put_at a (f (w.dicts a)) w.dicts })

  -- `put_correlation`, where the key may be `None` too
  unfoldable pub put_correlation : ℕ → Option Text → Option Text → M env (Unit {0})
  unfolding put_entry modify_dict
  put_correlation self none value = pure tt
  put_correlation self (some key) value = do
    c ← gets (λ w. w.contexts self)
    modify_dict c.correlation
        (put_entry env.correlation_element_max_number env.correlation_value_max_length key value)

  first_trace : List Identifier → Result Identifier
  first_trace [] = err index_error
  first_trace (t ∷ _) = ok t

  snapshot_from : Context → List ℕ → Option ℕ → M env (Option Snapshot)
  unfolding first_trace
  snapshot_from c (bottom ∷ _) (some top) = do
    first ← gets (λ w. w.spans bottom)
    active ← gets (λ w. w.spans top)
    t ← lift (first_trace c.segment.related_traces)
    d ← gets (λ w. w.dicts c.correlation)
    pure (
        some (record {
          trace_id = some t;
          segment_id = some (id_text c.segment.segment_id);
          span_id = active.sid;
          endpoint = some first.op;
          correlation = d;
        }))
  snapshot_from c _ _ = pure none

  capture_by : Bool → ℕ → Context → M env (Option Snapshot)
  unfolding snapshot_from
  capture_by true thread c = do
    d ← gets (λ w. w.dicts c.correlation)
    pure (
        some (record {
          trace_id = none;
          segment_id = none;
          span_id = negsuc 0;
          endpoint = none;
          correlation = d;
        }))
  capture_by false thread c = do
    spans ← gets (λ w. w.stacks thread)
    snapshot_from c spans (last? spans)

  -- `SpanContext.capture` and `NoopContext.capture`
  unfoldable pub capture : ℕ → ℕ → M env (Option Snapshot)
  unfolding capture_by
  capture thread self = do c ← gets (λ w. w.contexts self); capture_by c.is_noop thread c

  same_segment : Text → Option Snapshot → Result Bool
  same_segment id none = err attribute_error
  same_segment id (some s) = ok (text_option id s.segment_id)
    where
      text_option : Text → Option Text → Bool
      text_option a none = false
      text_option a (some b) = text_eq a b

  -- `Snapshot.is_from_current`
  is_from_current : ℕ → ℕ → Option Text → M env Bool
  unfolding same_segment
  is_from_current thread self none = pure false
  is_from_current thread self (some id) = do
    current ← capture thread self
    lift (same_segment id current)

  -- `Snapshot.is_valid`
  is_valid_snapshot : Snapshot → Bool
  is_valid_snapshot s = is_some s.segment_id && (ltb_ℤ (negsuc 0) s.span_id && is_some s.trace_id)

  -- `str` of what may be `None`
  text_or_none : Option Text → Text
  text_or_none none = codes "None"
  text_or_none (some t) = t

  id_or_none : Option Identifier → Text
  id_or_none none = codes "None"
  id_or_none (some t) = id_text t

  endpoint_or_empty : Option Text → Text
  endpoint_or_empty none = []
  endpoint_or_empty (some t) = t

  -- `SegmentRef.build_ref`
  pub build_ref : Snapshot → SegmentRef
  unfolding text_or_none id_or_none endpoint_or_empty
  build_ref s = record {
    ref_type = cross_thread;
    trace_id = id_or_none s.trace_id;
    segment_id = text_or_none s.segment_id;
    span_id = s.span_id;
    service = env.agent_name;
    service_instance = env.agent_instance_name;
    endpoint = endpoint_or_empty s.endpoint;
    client_address = some [];
  }

  append_ref : Option ℕ → SegmentRef → M env (Unit {0})
  append_ref none r = raise attribute_error
  append_ref (some span) r = modify_span env span (λ s. record s { refs = s.refs ++ r ∷ [] })

  continue_trace : ℕ → ℕ → Snapshot → M env (Unit {0})
  unfolding append_ref build_ref modify_dict
  continue_trace thread self s = do
    active ← gets (λ w. last? (w.stacks thread))
    append_ref active (build_ref s)
    t ← make_id env (build_ref s).trace_id
    relate env self t
    c ← gets (λ w. w.contexts self)
    modify_dict c.correlation (λ d. update d s.correlation)

  continued_by : Bool → ℕ → ℕ → Option Snapshot → M env (Unit {0})
  unfolding is_from_current is_valid_snapshot continue_trace
  continued_by true thread self none = raise attribute_error
  continued_by true thread self (some s) = do
    c ← gets (λ w. w.contexts self)
    modify_dict c.correlation (λ d. update d s.correlation)
  continued_by false thread self none = pure tt
  continued_by false thread self (some s) = do
    current ← is_from_current thread self s.segment_id
    if not current && is_valid_snapshot s then continue_trace thread self s else pure tt

  -- `SpanContext.continued` and `NoopContext.continued`
  unfoldable pub continued : ℕ → ℕ → Option Snapshot → M env (Unit {0})
  unfolding continued_by
  continued thread self s = do c ← gets (λ w. w.contexts self); continued_by c.is_noop thread self s
