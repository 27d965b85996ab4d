-- ===== src/Trace/Spans/Extracting.antt =====
-- What `extract` does with a carrier.
use skywalking_python.Prelude.{
  ℕ, ◌≡◌, refl, true, false, Option, none, some, List, [], ◌∷◌, ◌++◌, arith, Text, is_empty,
  text_eq_self,
}
use skywalking_python.Prelude.Int.{ℤ}
use skywalking_python.Prelude.Result.{ok}
use skywalking_python.Trace.Model.{
  Span, SegmentRef, RefType, cross_process, cross_thread, ref_type_eq, Context, fresh, plain,
}
use skywalking_python.Trace.Carrier.{Carrier, is_valid, int_of_text}
use skywalking_python.Trace.Env.{Env, State}
use skywalking_python.Trace.Spans.{
  extract, make_id, relate, relate_ids, ref_of_carrier, has_ref, ref_eq, option_eq, add_ref,
}

option_eq_self : (o : Option Text) → option_eq o o ≡ true
unfolding option_eq
option_eq_self none = refl
option_eq_self (some a) = text_eq_self a

ref_type_eq_self : (r : RefType) → ref_type_eq r r ≡ true
ref_type_eq_self cross_process = refl
ref_type_eq_self cross_thread = refl

pub ref_eq_self : (r : SegmentRef) → ref_eq r r ≡ true
unfolding ref_eq
ref_eq_self r = ground (
  arith,
  ref_type_eq_self r.ref_type,
  text_eq_self r.trace_id,
  text_eq_self r.segment_id,
  text_eq_self r.service,
  text_eq_self r.service_instance,
  text_eq_self r.endpoint,
  option_eq_self r.client_address,
)

has_ref-append : (r : SegmentRef) (l : List SegmentRef) → has_ref r (l ++ r ∷ []) ≡ true
unfolding has_ref
has_ref-append r [] = rw (ref_eq_self r)
has_ref-append r (x ∷ l) = ground (arith, has_ref-append r l)

has_ref-add_ref : (r : SegmentRef) (s : Span) → has_ref r (add_ref r s).refs ≡ true
unfolding add_ref
has_ref-add_ref r s = ground (arith, has_ref-append r s.refs)

module _ (env : Env) (c : Carrier) (span : ℕ) (w : State env) (n : ℤ) where
  abbrev context : Context
  context = w.contexts (w.spans span).context

  -- Extracting a valid carrier, with a trace id that is not empty and a span id that is a number
  -- for `int`, into a span of a segment that has only the id it made for itself: the trace of the
  -- carrier becomes the trace of the segment, the correlation of the context is the carrier's
  -- dict from then on, the span refers to the carrier's span, and the agent is as it was.
  pub extract_joins :
      (own : Text)
      → is_valid env.unicode c ≡ ok true
      → int_of_text env.unicode c.span_id ≡ ok n
      → is_empty c.trace_id ≡ false
      → context.segment.related_traces ≡ fresh own ∷ []
      → let (r, v) = extract env c span w in
        let d = v.contexts (w.spans span).context in
        (r ≡ ok tt)
        × (d.segment.related_traces ≡ plain c.trace_id ∷ [])
        × (d.correlation ≡ c.correlation)
        × (has_ref (ref_of_carrier c n) (v.spans span).refs ≡ true)
        × (v.agent ≡ w.agent)
  unfolding extract make_id relate relate_ids
  extract_joins own valid number full own_id =
      ground (arith, has_ref-add_ref (ref_of_carrier c n) (w.spans span))
