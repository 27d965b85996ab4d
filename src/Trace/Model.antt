-- ===== src/Trace/Model.antt =====
-- The objects of skywalking/trace and the enums and logs of skywalking/__init__.py that they hold.
-- Objects that are shared are named by addresses into the store, `World`.
use skywalking_python.Prelude.{ℕ, Bool, Option, List, ◌==◌, if◌then◌else◌, Text, true, false}
use skywalking_python.Prelude.Int.{ℤ}
use skywalking_python.Prelude.Dict.{Dict}
use skywalking_python.Utils.Counter.{Counter}
use skywalking_python.Sampling.{Sampler}
use skywalking_python.Agent.Queues.{Agent}
use skywalking_python.Trace.Component.{Component}

pub data Layer : Type 0 where
  unknown database rpc_framework http mq cache : Layer

pub data Kind : Type 0 where
  local entry exit : Kind

-- `is_entry` and `is_exit`
abbrev pub is_entry : Kind → Bool
is_entry entry = true
is_entry _ = false

abbrev pub is_exit : Kind → Bool
is_exit exit = true
is_exit _ = false

pub record LogItem : Type 0 where
  pub key : Text
  pub val : Text

pub record Log : Type 0 where
  pub timestamp : ℕ
  pub items : List LogItem

-- A tag, with the key and the `overridable` of its class.
pub record Tag : Type 0 where
  pub key : Text
  pub val : Text
  pub overridable : Bool

-- What `span.tags` holds for a key.
pub data Tags : Type 0 where
  one : Tag → Tags
  many : List Tag → Tags

-- `ID`, with the subclass that made it: `_NewID`, `ID` itself or `_NewNoopID`.
pub data Identifier : Type 0 where
  fresh plain noop : Text → Identifier

-- `str(id)`
abbrev pub id_text : Identifier → Text
id_text (fresh t) = t
id_text (plain t) = t
id_text (noop t) = t

pub data RefType : Type 0 where
  cross_process cross_thread : RefType

abbrev pub ref_type_eq : RefType → RefType → Bool
ref_type_eq cross_process cross_process = true
ref_type_eq cross_thread cross_thread = true
ref_type_eq _ _ = false

-- `client_address` is `None` where the peer of a span was never set.
pub record SegmentRef : Type 0 where
  pub ref_type : RefType
  pub trace_id : Text
  pub segment_id : Text
  pub span_id : ℤ
  pub service : Text
  pub service_instance : Text
  pub endpoint : Text
  pub client_address : Option Text

-- The classes of spans.
pub data SpanClass : Type 0 where
  span_class entry_class exit_class noop_class : SpanClass

pub record Span : Type 0 where
  pub class : SpanClass
  pub depth : ℤ
  pub max_depth : ℤ
  pub context : ℕ
  pub sid : ℤ
  pub pid : ℤ
  pub op : Text
  pub peer : Option Text
  pub kind : Kind
  pub component : Component
  pub layer : Layer
  pub inherit : Component
  pub tags : Dict Tags
  pub logs : List Log
  pub refs : List SegmentRef
  pub start_time : ℕ
  pub end_time : ℕ
  pub error_occurred : Bool

-- `spans` holds the addresses of the finished spans.
pub record Segment : Type 0 where
  pub segment_id : Identifier
  pub spans : List ℕ
  pub timestamp : ℕ
  pub related_traces : List Identifier
  pub is_size_limited : Bool

-- `SpanContext`, or `NoopContext` where `is_noop`. The correlation is the address of a dict,
-- which contexts and carriers share; the primary endpoint is the address of its span.
pub record Context : Type 0 where
  pub is_noop : Bool
  pub segment : Segment
  pub sid : Counter
  pub correlation : ℕ
  pub nspans : ℤ
  pub profile_status : Option ℕ
  pub create_time : ℕ
  pub primary_endpoint : Option ℕ

-- `Snapshot`: its dict is a copy, so it is held by value.
pub record Snapshot : Type 0 where
  pub trace_id : Option Identifier
  pub segment_id : Option Text
  pub span_id : ℤ
  pub endpoint : Option Text
  pub correlation : Dict Text

-- The store: the objects, the next free addresses, the ids drawn from `uuid1`, the time in
-- milliseconds, the stack of live spans of each thread or task, and the other components.
pub record World (P : Type 0) : Type 0 where
  pub contexts : ℕ → Context
  pub spans : ℕ → Span
  pub dicts : ℕ → Dict Text
  pub next_context : ℕ
  pub next_span : ℕ
  pub next_dict : ℕ
  pub uuids : ℕ
  pub now : ℕ
  pub stacks : ℕ → List ℕ
  pub agent : Agent
  pub sampling : Option Sampler
  pub profile : P

-- A store with one address written.
abbrev pub put_at {ℓ} : {A : Type ℓ} → ℕ → A → (ℕ → A) → ℕ → A
put_at k v f j = if k == j then v else f j
