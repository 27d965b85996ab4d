-- ===== src/Trace/Message.antt =====
-- The message that a segment becomes: the `SegmentObject` of skywalking/agent/protocol/grpc.py, as
-- grpc_aio.py, kafka.py and kafka_aio.py build it too, and the JSON of skywalking/client/http.py, which
-- has the same fields. Times are milliseconds, so that those of logs are whole as they are.
pub mod Reading
mod Tests
use skywalking_python.Prelude.{
  ℕ, Bool, true, false, ◌&&◌, not, Option, none, some, List, [], ◌∷◌, map, if◌then◌else◌, ◌==◌,
  Text, codes, text_eq, is_empty,
}
use skywalking_python.Prelude.Int.{ℤ}
use skywalking_python.Prelude.Result.{Result, ok, err, index_error}
use skywalking_python.Agent.Queues.{Config}
use skywalking_python.Trace.Component.{value}
use skywalking_python.Trace.Model.{
  Layer, unknown, database, rpc_framework, http, mq, cache, Kind, local, entry, exit, LogItem, Log,
  Tag, Identifier, id_text, RefType, cross_process, cross_thread, ref_type_eq, SegmentRef, Span,
  Segment,
}
use skywalking_python.Trace.Spans.{iter_tags}

pub record KeyStringValuePair : Type 0 where
  pub key : Text
  pub value : Text

pub record LogObject : Type 0 where
  pub time : ℕ
  pub entries : List KeyStringValuePair

-- `SegmentReference`
pub record Reference : Type 0 where
  pub ref_type : ℕ
  pub trace_id : Text
  pub parent_trace_segment_id : Text
  pub parent_span_id : ℤ
  pub parent_service : Text
  pub parent_service_instance : Text
  pub parent_endpoint : Text
  pub network_address_used_at_peer : Option Text

pub record SpanObject : Type 0 where
  pub span_id : ℤ
  pub parent_span_id : ℤ
  pub start_time : ℕ
  pub end_time : ℕ
  pub operation_name : Text
  pub peer : Option Text
  pub span_type : Text
  pub span_layer : Text
  pub component_id : ℕ
  pub is_error : Bool
  pub logs : List LogObject
  pub tags : List KeyStringValuePair
  pub refs : List Reference

pub record SegmentObject : Type 0 where
  pub trace_id : Text
  pub trace_segment_id : Text
  pub service : Text
  pub service_instance : Text
  pub is_size_limited : Bool
  pub spans : List SpanObject

-- `kind.name` and `layer.name`
unfoldable pub kind_name : Kind → Text
kind_name local = codes "Local"
kind_name entry = codes "Entry"
kind_name exit = codes "Exit"

unfoldable pub layer_name : Layer → Text
layer_name unknown = codes "Unknown"
layer_name database = codes "Database"
layer_name rpc_framework = codes "RPCFramework"
layer_name http = codes "Http"
layer_name mq = codes "MQ"
layer_name cache = codes "Cache"

unfoldable pub item_of : LogItem → KeyStringValuePair
item_of i = record { key = i.key; value = i.val }

unfoldable pub tag_of : Tag → KeyStringValuePair
tag_of t = record { key = t.key; value = t.val }

unfoldable pub log_of : Log → LogObject
unfolding item_of
log_of l = record { time = l.timestamp; entries = map item_of l.items }

-- `0 if ref.ref_type == 'CrossProcess' else 1`
unfoldable pub grpc_ref_type : RefType → ℕ
grpc_ref_type cross_process = 0
grpc_ref_type cross_thread = 1

unfoldable pub reference_of : SegmentRef → Reference
unfolding grpc_ref_type
reference_of r = record {
  ref_type = grpc_ref_type r.ref_type;
  trace_id = r.trace_id;
  parent_trace_segment_id = r.segment_id;
  parent_span_id = r.span_id;
  parent_service = r.service;
  parent_service_instance = r.service_instance;
  parent_endpoint = r.endpoint;
  network_address_used_at_peer = r.client_address;
}

-- `[… for ref in span.refs if ref.trace_id]`
unfoldable pub references_of : List SegmentRef → List Reference
unfolding reference_of
references_of [] = []
references_of (r ∷ rs) =
    if is_empty r.trace_id then references_of rs else reference_of r ∷ references_of rs

unfoldable pub span_object : Span → SpanObject
unfolding kind_name layer_name log_of tag_of iter_tags references_of
span_object s = record {
  span_id = s.sid;
  parent_span_id = s.pid;
  start_time = s.start_time;
  end_time = s.end_time;
  operation_name = s.op;
  peer = s.peer;
  span_type = kind_name s.kind;
  span_layer = layer_name s.layer;
  component_id = value s.component;
  is_error = s.error_occurred;
  logs = map log_of s.logs;
  tags = map tag_of (iter_tags s.tags);
  refs = references_of s.refs;
}

segment_with : Text → Text → Segment → List Span → List Identifier → Result SegmentObject
unfolding span_object
segment_with service service_instance g spans [] = err index_error
segment_with service service_instance g spans (id ∷ _) = ok (record {
  trace_id = id_text id;
  trace_segment_id = id_text g.segment_id;
  service = service;
  service_instance = service_instance;
  is_size_limited = g.is_size_limited;
  spans = map span_object spans;
})

-- The message of a segment, with its spans and the two names of the agent; `related_traces[0]` raises
-- where there is none.
unfoldable pub segment_object : Text → Text → Segment → List Span → Result SegmentObject
unfolding segment_with
segment_object service service_instance g spans =
    segment_with service service_instance g spans g.related_traces

-- The dictionaries that the HTTP client builds. Its reference type is always 0.
unfoldable pub http_item_of : LogItem → KeyStringValuePair
http_item_of item = record { key = item.key; value = item.val }

unfoldable pub http_tag_of : Tag → KeyStringValuePair
http_tag_of tag = record { key = tag.key; value = tag.val }

unfoldable pub http_log_of : Log → LogObject
unfolding http_item_of
http_log_of l = record { time = l.timestamp; entries = map http_item_of l.items }

unfoldable pub http_reference : SegmentRef → Reference
http_reference r = record {
  ref_type = 0;
  trace_id = r.trace_id;
  parent_trace_segment_id = r.segment_id;
  parent_span_id = r.span_id;
  parent_service = r.service;
  parent_service_instance = r.service_instance;
  parent_endpoint = r.endpoint;
  network_address_used_at_peer = r.client_address;
}

unfoldable pub http_references : List SegmentRef → List Reference
unfolding http_reference
http_references [] = []
http_references (r ∷ rs) =
    if is_empty r.trace_id then http_references rs else http_reference r ∷ http_references rs

unfoldable pub http_span : Span → SpanObject
unfolding kind_name layer_name http_log_of http_tag_of iter_tags http_references
http_span s = record {
  span_id = s.sid;
  parent_span_id = s.pid;
  start_time = s.start_time;
  end_time = s.end_time;
  operation_name = s.op;
  peer = s.peer;
  span_type = kind_name s.kind;
  span_layer = layer_name s.layer;
  component_id = value s.component;
  is_error = s.error_occurred;
  logs = map http_log_of s.logs;
  tags = map http_tag_of (iter_tags s.tags);
  refs = http_references s.refs;
}

http_segment_with : Text → Text → Segment → List Span → List Identifier → Result SegmentObject
unfolding http_span
http_segment_with service service_instance g spans [] = err index_error
http_segment_with service service_instance g spans (id ∷ _) = ok (record {
  trace_id = id_text id;
  trace_segment_id = id_text g.segment_id;
  service = service;
  service_instance = service_instance;
  is_size_limited = g.is_size_limited;
  spans = map http_span spans;
})

-- The body of the post for a segment
unfoldable pub http_segment : Text → Text → Segment → List Span → Result SegmentObject
unfolding http_segment_with
http_segment service service_instance g spans =
    http_segment_with service service_instance g spans g.related_traces
