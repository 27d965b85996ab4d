-- ===== src/Trace/Message/Tests.antt =====
-- Messages at concrete inputs.
use skywalking_python.Prelude.{◌≡◌, refl, ◌↔◌, true, false, none, some, [], ◌∷◌, Text, codes, map}
use skywalking_python.Prelude.Int.{pos}
use skywalking_python.Trace.Component.{of_value}
use skywalking_python.Trace.Fixtures
use skywalking_python.Trace.Model.{
  cross_process, cross_thread, RefType, SegmentRef, Span, Segment, plain, fresh,
}
use skywalking_python.Trace.Message.{segment_object, http_segment, span_object}
use skywalking_python.Trace.Message.Reading.{
  all_cross_process, http_agrees, kind_of, layer_of, ref_of, traced, span_object_reads,
}

abbrev ref : Text → RefType → SegmentRef
ref trace t = record {
  ref_type = t;
  trace_id = trace;
  segment_id = codes "segment";
  span_id = pos 1;
  service = codes "service";
  service_instance = codes "instance";
  endpoint = codes "/";
  client_address = none;
}

abbrev span : Span
span = record (Fixtures.span (pos 1)) {
  refs = ref (codes "t") cross_thread ∷ ref [] cross_process ∷ [];
}

abbrev segment : Segment
segment = record {
  segment_id = plain (codes "s");
  spans = 0 ∷ [];
  timestamp = 0;
  related_traces = fresh (codes "t") ∷ [];
  is_size_limited = false;
}

http_agrees_example :
    (http_segment (codes "a") (codes "b") segment (span ∷ [])
      ≡ segment_object (codes "a") (codes "b") segment (span ∷ []))
    ↔ (all_cross_process (span ∷ []) ≡ true)
http_agrees_example =
    http_agrees (codes "a") (codes "b") segment (span ∷ []) (fresh (codes "t")) [] refl

span_object_reads_example :
    (kind_of (span_object span).span_type ≡ some span.kind)
    × (layer_of (span_object span).span_layer ≡ some span.layer)
    × (of_value (span_object span).component_id ≡ some span.component)
    × (map ref_of (span_object span).refs ≡ traced span.refs)
span_object_reads_example = span_object_reads span
