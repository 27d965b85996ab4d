-- ===== src/Trace/Spans.antt =====
-- skywalking/trace/span.py and segment.py: what the methods of a span do to the span itself and to
-- the segment of its context. Starting and stopping are with the contexts.
pub mod Extracting
use skywalking_python.Prelude.{
  ℕ, ◌≡◌, refl, Bool, true, false, ◌&&◌, ◌||◌, Option, none, some, List, [], ◌∷◌, ◌++◌, arith,
  if◌then◌else◌, Text, codes, text_eq, text_eq_iff, is_empty, init, ◌+◌, ◌==◌, inl, inr, ◌↔◌,
  text_eq_self,
}
use skywalking_python.Prelude.Int.{ℤ, pos, negsuc, eqb_ℤ}
use skywalking_python.Prelude.Dict.{Dict, lookup, insert, update}
use skywalking_python.Prelude.Result.{Result, ok, err, attribute_error, index_error, illegal_state}
use skywalking_python.Prelude.Exec.{Exec, pure, raise, lift, modify, gets, ◌>>=◌, ◌>>◌}
use skywalking_python.Prelude.Decimal.{text_of_int}
use skywalking_python.Trace.Component.{Component, unknown}
use skywalking_python.Trace.Model.{
  SpanClass, noop_class, World, Span, Segment, SegmentRef, Context, RefType, cross_process,
  cross_thread, ref_type_eq, Log, LogItem, Tag, Tags, one, many, Identifier, fresh, plain, id_text,
  SpanClass, span_class, entry_class, exit_class, noop_class, Kind, Layer, put_at,
}
use skywalking_python.Trace.Carrier.{Carrier, blank, is_valid, int_of_text}
use skywalking_python.Trace.Env.{Env, State, M, modify_span, modify_context}

option_eq : Option Text → Option Text → Bool
option_eq none none = true
option_eq (some a) (some b) = text_eq a b
option_eq _ _ = false

-- `SegmentRef.__eq__`
unfoldable pub ref_eq : SegmentRef → SegmentRef → Bool
unfolding option_eq
ref_eq a b =
    ref_type_eq a.ref_type b.ref_type
    && (text_eq a.trace_id b.trace_id
        && (text_eq a.segment_id b.segment_id
            && (eqb_ℤ a.span_id b.span_id
                && (text_eq a.service b.service
                    && (text_eq a.service_instance b.service_instance
                        && (text_eq a.endpoint b.endpoint
                            && option_eq a.client_address b.client_address))))))

-- `ref in refs`
unfoldable pub has_ref : SegmentRef → List SegmentRef → Bool
has_ref r [] = false
has_ref r (x ∷ xs) = ref_eq x r || has_ref r xs

-- `Segment.relate`: the id that the segment made for itself gives way to the first that comes.
unfoldable pub relate_ids : Identifier → List Identifier → Result (List Identifier)
relate_ids t [] = err index_error
relate_ids t (fresh x ∷ rest) = ok (init (fresh x ∷ rest) ++ t ∷ [])
relate_ids t (first ∷ rest) = ok ((first ∷ rest) ++ t ∷ [])

-- `span.tag(tag)` on the tags: a tag that is not overridable is appended to the list of its key,
-- and `append` on a `Tag` raises `AttributeError`.
append_tag : Tag → Option Tags → Result Tags
append_tag t none = ok (many (t ∷ []))
append_tag t (some (many ts)) = ok (many (ts ++ t ∷ []))
append_tag t (some (one _)) = err attribute_error

insert_tag : Text → Result Tags → Dict Tags → Result (Dict Tags)
insert_tag k (ok v) d = ok (insert k v d)
insert_tag k (err e) d = err e

unfoldable pub tag_into : Tag → Dict Tags → Result (Dict Tags)
unfolding append_tag insert_tag
tag_into t d =
    if t.overridable
    then ok (insert t.key (one t) d)
    else insert_tag t.key (append_tag t (lookup t.key d)) d

-- `iter_tags`
tags_of : Tags → List Tag
tags_of (one t) = t ∷ []
tags_of (many ts) = ts

unfoldable pub iter_tags : Dict Tags → List Tag
unfolding tags_of
iter_tags [] = []
iter_tags ((k, v) ∷ d) = tags_of v ++ iter_tags d

or_unknown : Option Component → Component
or_unknown none = unknown
or_unknown (some c) = c

-- `Span.__init__`
unfoldable pub new_span_object :
    SpanClass → ℕ → ℤ → ℤ → Text → Option Text → Kind → Option Component → Span
unfolding or_unknown
new_span_object class context sid pid op peer kind component = record {
  class = class;
  depth = pos 0;
  max_depth = pos 0;
  context = context;
  sid = sid;
  pid = pid;
  op = op;
  peer = peer;
  kind = kind;
  component = or_unknown component;
  layer = Layer.unknown;
  inherit = unknown;
  tags = [];
  logs = [];
  refs = [];
  start_time = 0;
  end_time = 0;
  error_occurred = false;
}

-- `SegmentRef.__init__`, which reads the span id of the carrier as a number.
unfoldable pub ref_of_carrier : Carrier → ℤ → SegmentRef
ref_of_carrier c span_id = record {
  ref_type = cross_process;
  trace_id = c.trace_id;
  segment_id = c.segment_id;
  span_id = span_id;
  service = c.service;
  service_instance = c.service_instance;
  endpoint = c.endpoint;
  client_address = c.client_address;
}

add_ref : SegmentRef → Span → Span
add_ref r s = record s { refs = if has_ref r s.refs then s.refs else s.refs ++ r ∷ [] }

module _ (env : Env) where
  -- `ID(raw_id)`: an empty text gives a new id, like no text.
  unfoldable pub make_id : Text → M env Identifier
  make_id raw w =
      if is_empty raw
      then (ok (plain (env.uuid w.uuids)), record w { uuids = w.uuids + 1 })
      else (ok (plain raw), w)

  -- `context.segment.relate(trace_id)`
  unfoldable pub relate : ℕ → Identifier → M env (Unit {0})
  relate context t = do
    c ← gets (λ w. w.contexts context)
    ids ← lift (relate_ids t c.segment.related_traces)
    modify_context env context
        (λ c. record c { segment = record c.segment { related_traces = ids } })

  -- `raised`, with the text of `sw_traceback()`
  unfoldable pub raised : Text → ℕ → M env (Unit {0})
  raised traceback span = modify_span env span λ s. record s {
    error_occurred = true;
    logs =
        record {
          timestamp = env.import_time;
          items = record { key = codes "Traceback"; val = traceback } ∷ [];
        }
        ∷ [];
  }

  -- `log`, with `str(ex)`
  unfoldable pub log : Text → ℕ → M env (Unit {0})
  log message span = modify_span env span λ s. record s {
    error_occurred = true;
    logs =
        s.logs
        ++ record {
          timestamp = env.import_time;
          items = record { key = codes "Traceback"; val = message } ∷ [];
        }
          ∷ [];
  }

  -- `tag`
  unfoldable pub tag : Tag → ℕ → M env (Unit {0})
  tag t span = do
    s ← gets (λ w. w.spans span)
    tags ← lift (tag_into t s.tags)
    modify_span env span (λ s. record s { tags = tags })

  -- The part of `extract` behind the test of the carrier.
  extract_ref : Carrier → ℕ → Bool → M env (Unit {0})
  unfolding add_ref
  extract_ref c span false = pure tt
  extract_ref c span true = do
    n ← lift (int_of_text env.unicode c.span_id)
    modify_span env span (add_ref (ref_of_carrier c n))

  -- `Span.extract` of a carrier that is not `None`
  unfoldable pub extract : Carrier → ℕ → M env (Unit {0})
  unfolding extract_ref
  extract c span = do
    context ← gets (λ w. (w.spans span).context)
    t ← make_id c.trace_id
    relate context t
    modify_context env context (λ x. record x { correlation = c.correlation })
    valid ← lift (is_valid env.unicode c)
    extract_ref c span valid

  -- `extract` of a span of either class: `NoopSpan` returns at once.
  abbrev pub extract_by : SpanClass → Carrier → ℕ → M env (Unit {0})
  extract_by noop_class c span = pure tt
  extract_by _ c span = extract c span

  unfoldable pub extract_span : Carrier → ℕ → M env (Unit {0})
  extract_span c span = do s ← gets (λ w. w.spans span); extract_by s.class c span

  trace_of : List Identifier → Result Identifier
  trace_of [] = err index_error
  trace_of (t ∷ _) = ok t

  -- The carrier that `ExitSpan.inject` and `new_span` build of a span.
  unfoldable pub carrier_of : ℕ → M env Carrier
  unfolding trace_of
  carrier_of span = do
    s ← gets (λ w. w.spans span)
    c ← gets (λ w. w.contexts s.context)
    t ← lift (trace_of c.segment.related_traces)
    pure (record {
      trace_id = id_text t;
      segment_id = id_text c.segment.segment_id;
      span_id = text_of_int s.sid;
      service = env.agent_name;
      service_instance = env.agent_instance_name;
      endpoint = s.op;
      client_address = s.peer;
      correlation = c.correlation;
      raw = none;
    })

  -- A new dict.
  unfoldable pub new_dict : M env ℕ
  new_dict w = (
    ok w.next_dict,
    record w { dicts = put_at w.next_dict [] w.dicts; next_dict = w.next_dict + 1 },
  )

  inject_by : SpanClass → ℕ → M env Carrier
  inject_by exit_class span = carrier_of span
  inject_by noop_class span = do d ← new_dict; pure (blank d)
  inject_by _ span = raise illegal_state

  -- `inject`
  unfoldable pub inject : ℕ → M env Carrier
  unfolding inject_by
  inject span = do class ← gets (λ w. (w.spans span).class); inject_by class span
