-- ===== src/Trace/Message/Reading.antt =====
-- What a backend reads in the messages of skywalking/agent/protocol/grpc.py and of
-- skywalking/client/http.py.
use skywalking_python.Prelude.{
  ℕ, ◌≡◌, refl, Bool, true, false, ◌&&◌, ◌||◌, ◌↔◌, not, Option, none, some, List, [], ◌∷◌, map,
  arith, if◌then◌else◌, ◌==◌, Text, codes, text_eq, is_empty, ap,
}
use skywalking_python.Prelude.Result.{Result, ok, err}
use skywalking_python.Trace.Component.{of_value, of_value-value}
use skywalking_python.Trace.Model.{
  Layer, unknown, database, rpc_framework, http, mq, cache, Kind, local, entry, exit, Identifier,
  RefType, cross_process, cross_thread, ref_type_eq, SegmentRef, Span, Segment, LogItem, Log, Tag,
}
use skywalking_python.Trace.Spans.{iter_tags}
use skywalking_python.Trace.Message.{
  Reference, SpanObject, SegmentObject, kind_name, layer_name, grpc_ref_type, http_reference,
  http_references, http_span, http_segment_with, http_segment, http_item_of, http_log_of,
  http_tag_of, item_of, log_of, tag_of, reference_of, references_of, span_object, segment_with,
  segment_object,
}

-- No reference that is sent comes from another thread.
abbrev refs_cross_process : List SegmentRef → Bool
refs_cross_process [] = true
refs_cross_process (r ∷ rs) =
    (is_empty r.trace_id || ref_type_eq r.ref_type cross_process) && refs_cross_process rs

abbrev pub all_cross_process : List Span → Bool
all_cross_process [] = true
all_cross_process (s ∷ ss) = refs_cross_process s.refs && all_cross_process ss

-- Some reference in a message is of the number of another thread.
abbrev ref_of_thread : List Reference → Bool
ref_of_thread [] = false
ref_of_thread (r ∷ rs) = not (r.ref_type == 0) || ref_of_thread rs

abbrev span_of_thread : List SpanObject → Bool
span_of_thread [] = false
span_of_thread (s ∷ ss) = ref_of_thread s.refs || span_of_thread ss

number_of : (t : RefType) → (grpc_ref_type t == 0) ≡ ref_type_eq t cross_process
unfolding grpc_ref_type
number_of cross_process = refl
number_of cross_thread = refl

number_same : (t : RefType) → ref_type_eq t cross_process ≡ true → 0 ≡ grpc_ref_type t
unfolding grpc_ref_type
number_same cross_process h = refl
number_same cross_thread h = cc h

grpc_refs : (rs : List SegmentRef) → ref_of_thread (references_of rs) ≡ not (refs_cross_process rs)
unfolding references_of reference_of
grpc_refs [] = refl
grpc_refs (r ∷ rs) = ground (arith, grpc_refs rs, number_of r.ref_type)

http_refs : (rs : List SegmentRef) → ref_of_thread (http_references rs) ≡ false
unfolding http_references http_reference
http_refs [] = refl
http_refs (r ∷ rs) = ground (arith, http_refs rs)

grpc_spans : (ss : List Span) → span_of_thread (map span_object ss) ≡ not (all_cross_process ss)
unfolding span_object
grpc_spans [] = refl
grpc_spans (s ∷ ss) = ground (arith, grpc_refs s.refs, grpc_spans ss)

http_spans : (ss : List Span) → span_of_thread (map http_span ss) ≡ false
unfolding http_span
http_spans [] = refl
http_spans (s ∷ ss) = ground (arith, http_refs s.refs, http_spans ss)

-- The logs and tags of both clients.
items_same : (l : List LogItem) → map http_item_of l ≡ map item_of l
unfolding http_item_of item_of
items_same [] = refl
items_same (x ∷ l) = ap (λ t. item_of x ∷ t) (items_same l)

logs_same : (l : List Log) → map http_log_of l ≡ map log_of l
unfolding http_log_of log_of
logs_same [] = refl
logs_same (x ∷ l) = rw (items_same x.items) (ap (λ t. log_of x ∷ t) (logs_same l))

tags_same : (l : List Tag) → map http_tag_of l ≡ map tag_of l
unfolding http_tag_of tag_of
tags_same [] = refl
tags_same (x ∷ l) = ap (λ t. tag_of x ∷ t) (tags_same l)

ref_same :
    (r : SegmentRef)
    → ref_type_eq r.ref_type cross_process ≡ true
    → http_reference r ≡ reference_of r
unfolding http_reference reference_of
ref_same r h = ap (λ n. record (reference_of r) { ref_type = n }) (number_same r.ref_type h)

-- Where all are of another process, the references are the same.
same_refs :
    (rs : List SegmentRef) → refs_cross_process rs ≡ true → http_references rs ≡ references_of rs
unfolding references_of http_references
same_refs [] h = refl
same_refs (r ∷ rs) h = ground (arith, same_refs rs, ref_same r)

span_same : (s : Span) → refs_cross_process s.refs ≡ true → http_span s ≡ span_object s
unfolding span_object http_span
span_same s h =
    rw (same_refs s.refs h) (rw (logs_same s.logs) (rw (tags_same (iter_tags s.tags)) refl))

same_spans : (ss : List Span) → all_cross_process ss ≡ true → map http_span ss ≡ map span_object ss
same_spans [] h = refl
same_spans (s ∷ ss) h = ground (arith, same_spans ss, span_same s)

-- What `span_of_thread` says of a message that is built.
abbrev of_thread : Result SegmentObject → Bool
of_thread (ok m) = span_of_thread m.spans
of_thread (err e) = false

module _ (service service_instance : Text) (g : Segment) (id : Identifier)
    (ids : List Identifier) where
  built_same :
      (ss : List Span)
      → all_cross_process ss ≡ true
      → http_segment_with service service_instance g ss (id ∷ ids)
        ≡ segment_with service service_instance g ss (id ∷ ids)
  unfolding segment_with http_segment_with
  built_same ss h = rw (same_spans ss h) refl

  built_only :
      (ss : List Span)
      → http_segment_with service service_instance g ss (id ∷ ids)
        ≡ segment_with service service_instance g ss (id ∷ ids)
      → all_cross_process ss ≡ true
  unfolding segment_with http_segment_with
  built_only ss e =
      let same : span_of_thread (map http_span ss) ≡ span_of_thread (map span_object ss) =
        ap of_thread e in
      ground (arith, same, grpc_spans ss, http_spans ss)

-- For a segment with a trace id: the body that the HTTP client builds has the same values in each field,
-- of the segment, its spans, their logs, tags and references, as the message of the grpc client if, and
-- only if, each reference that is sent, of any of its spans, is to another process.
pub http_agrees :
    (service service_instance : Text) (g : Segment) (ss : List Span) (id : Identifier)
    (ids : List Identifier)
    → g.related_traces ≡ id ∷ ids
    → (http_segment service service_instance g ss ≡ segment_object service service_instance g ss)
      ↔ (all_cross_process ss ≡ true)
unfolding segment_object http_segment
http_agrees service service_instance g ss id ids e = rw e (
    (
      built_only service service_instance g id ids ss,
      built_same service service_instance g id ids ss,
    ))

-- The names are read back.
pub kind_of : Text → Option Kind
kind_of t =
    if text_eq t (codes "Local")
    then some local
    else if text_eq t (codes "Entry")
    then some entry
    else if text_eq t (codes "Exit")
    then some exit
    else none

kind_of-kind_name : (k : Kind) → kind_of (kind_name k) ≡ some k
unfolding kind_of kind_name
kind_of-kind_name local = refl
kind_of-kind_name entry = refl
kind_of-kind_name exit = refl

pub layer_of : Text → Option Layer
layer_of t =
    if text_eq t (codes "Unknown")
    then some unknown
    else if text_eq t (codes "Database")
    then some database
    else if text_eq t (codes "RPCFramework")
    then some rpc_framework
    else if text_eq t (codes "Http")
    then some http
    else if text_eq t (codes "MQ")
    then some mq
    else if text_eq t (codes "Cache")
    then some cache
    else none

layer_of-layer_name : (l : Layer) → layer_of (layer_name l) ≡ some l
unfolding layer_of layer_name
layer_of-layer_name unknown = refl
layer_of-layer_name database = refl
layer_of-layer_name rpc_framework = refl
layer_of-layer_name http = refl
layer_of-layer_name mq = refl
layer_of-layer_name cache = refl

type_of : ℕ → RefType
type_of n = if n == 0 then cross_process else cross_thread

pub ref_of : Reference → SegmentRef
ref_of r = record {
  ref_type = type_of r.ref_type;
  trace_id = r.trace_id;
  segment_id = r.parent_trace_segment_id;
  span_id = r.parent_span_id;
  service = r.parent_service;
  service_instance = r.parent_service_instance;
  endpoint = r.parent_endpoint;
  client_address = r.network_address_used_at_peer;
}

-- The references with a trace id.
pub traced : List SegmentRef → List SegmentRef
traced [] = []
traced (r ∷ rs) = if is_empty r.trace_id then traced rs else r ∷ traced rs

type_of-grpc_ref_type : (t : RefType) → type_of (grpc_ref_type t) ≡ t
unfolding type_of grpc_ref_type
type_of-grpc_ref_type cross_process = refl
type_of-grpc_ref_type cross_thread = refl

ref_of-reference_of : (r : SegmentRef) → ref_of (reference_of r) ≡ r
unfolding ref_of reference_of
ref_of-reference_of r = ap (λ t. record r { ref_type = t }) (type_of-grpc_ref_type r.ref_type)

refs_back : (rs : List SegmentRef) → map ref_of (references_of rs) ≡ traced rs
unfolding references_of traced
refs_back [] = refl
refs_back (r ∷ rs) = ground (arith, refs_back rs, ref_of-reference_of r)

-- A backend that reads the message of the grpc client finds the kind, the layer and the component of
-- each span by their names and number, and exactly the references that have a trace id, in their order.
pub span_object_reads :
    (s : Span)
    → let m = span_object s in
      (kind_of m.span_type ≡ some s.kind)
      × (layer_of m.span_layer ≡ some s.layer)
      × (of_value m.component_id ≡ some s.component)
      × (map ref_of m.refs ≡ traced s.refs)
unfolding span_object
span_object_reads s = (
  kind_of-kind_name s.kind,
  layer_of-layer_name s.layer,
  of_value-value s.component,
  refs_back s.refs,
)
