-- ===== src/Trace/Fixtures.antt =====
-- Concrete instances of what the tracer takes as given, and a store with one recording context.
use skywalking_python.Prelude.{
  ℕ, ◌+◌, ◌-◌, ◌<◌, ◌≡◌, refl, Bool, true, false, ◌||◌, ◌&&◌, Option, none, some, List, [], ◌∷◌,
  arith, if◌then◌else◌, ◌==◌, leb, ltb, Text, codes, Avoids,
}
use skywalking_python.Prelude.Int.{ℤ, pos, negsuc}
use skywalking_python.Prelude.Queue
use skywalking_python.Prelude.Result
use skywalking_python.Prelude.Result.{Result, ok, err, value_error}
use skywalking_python.Agent.Queues.{Agent, Config, grpc}
use skywalking_python.Agent.Lifecycle.Lineage.{created}
use skywalking_python.Trace.Component.{unknown}
use skywalking_python.Trace.Model.{Span, Context, fresh, entry_class, Kind, Layer}
use skywalking_python.Trace.Carrier.{Base64, Unicode, Carrier}
use skywalking_python.Trace.Env.{Env, Profiler, State}

-- An encoding whose letters all lie past the separators.
abbrev pub encode : Text → Text
encode [] = []
encode (c ∷ s) = (c + 128) ∷ encode s

abbrev pub decode : Text → Result Text
decode [] = ok []
decode (c ∷ s) =
    let rest = decode s in
    if ltb c 128 then err value_error else Result.◌>>=◌ rest (λ t. ok ((c - 128) ∷ t))

pub decode-encode : (t : Text) → decode (encode t) ≡ ok t
decode-encode [] = refl
decode-encode (c ∷ s) = ground (arith, decode-encode s)

pub encode-Avoids : (c : ℕ) (t : Text) → c < 128 → Avoids c (encode t)
encode-Avoids c [] h = tt
encode-Avoids c (x ∷ s) h = (ground arith, encode-Avoids c s h)

abbrev pub base64 : Base64
base64 = record {
  encode = encode;
  decode = decode;
  decode-encode = decode-encode;
  no_dash = λ t. encode-Avoids b'-' t (omega arith);
  no_comma = λ t. encode-Avoids b',' t (omega arith);
  no_colon = λ t. encode-Avoids b':' t (omega arith);
}

abbrev is_digit : ℕ → Bool
is_digit c = leb 48 c && leb c 57

abbrev digit : ℕ → Option ℕ
digit c = if is_digit c then some (c - 48) else none

-- The digits, and superscript two, three and one.
abbrev is_numeric : ℕ → Bool
is_numeric c = is_digit c || (c == 178 || (c == 179 || c == 185))

pub ascii_digit : (d : ℕ) → d < 10 → digit (b'0' + d) ≡ some d
ascii_digit d h = ground arith

pub digit_numeric : (c d : ℕ) → digit c ≡ some d → is_numeric c ≡ true
digit_numeric c d h = ground arith

abbrev pub unicode : Unicode
unicode = record {
  is_numeric = is_numeric;
  digit = digit;
  ascii_digit = ascii_digit;
  digit_numeric = digit_numeric;
}

abbrev pub profiler : Profiler
profiler = record {
  State = ℕ;
  add_profiling = λ context created status segment op n. (ok n, n + 1);
  profiling_recheck = λ context created status segment op n. (ok tt, n);
}

abbrev pub env : Env
env = record {
  agent_name = codes "service";
  agent_instance_name = codes "instance";
  agent_profile_active = true;
  correlation_element_max_number = pos 3;
  correlation_value_max_length = pos 128;
  sample_n_per_3_secs = 0;
  ignore_path = λ op. false;
  uuid = λ n. b'u' ∷ n ∷ [];
  import_time = 5;
  unicode = unicode;
  profiler = profiler;
}

abbrev pub config : Config
config = record {
  agent_protocol = grpc;
  agent_name = codes "service";
  agent_namespace = [];
  agent_instance_name = codes "instance";
  agent_profile_active = true;
  agent_meter_reporter_active = false;
  agent_pvm_meter_reporter_active = false;
  agent_log_reporter_active = true;
  agent_experimental_fork_support = true;
  agent_trace_reporter_max_buffer_size = 2;
  agent_log_reporter_max_buffer_size = 2;
  agent_meter_reporter_max_buffer_size = 2;
  agent_profile_snapshot_transport_buffer_size = 2;
  sample_n_per_3_secs = 0;
  kafka_namespace = [];
  kafka_topic_management = [];
  kafka_topic_meter = [];
  kafka_topic_log = [];
  kafka_topic_segment = [];
}

-- An agent that reports, with room for two segments.
abbrev pub agent : Agent
agent = record (created config) {
  started = true;
  started_pid = some 100;
  reporting = true;
  segment_queue = Queue.fresh 2;
}

abbrev pub context : ℤ → Context
context nspans = record {
  is_noop = false;
  segment = record {
    segment_id = fresh (codes "s");
    spans = [];
    timestamp = 0;
    related_traces = fresh (codes "t") ∷ [];
    is_size_limited = false;
  };
  sid = record { value = pos 0 };
  correlation = 0;
  nspans = nspans;
  profile_status = none;
  create_time = 0;
  primary_endpoint = none;
}

abbrev pub span : ℤ → Span
span depth = record {
  class = entry_class;
  depth = depth;
  max_depth = depth;
  context = 0;
  sid = pos 0;
  pid = negsuc 0;
  op = codes "/op";
  peer = none;
  kind = Kind.entry;
  component = unknown;
  layer = Layer.unknown;
  inherit = unknown;
  tags = [];
  logs = [];
  refs = [];
  start_time = 0;
  end_time = 0;
  error_occurred = false;
}

-- Context 0 counts so many spans, and span 0 has this depth; thread 0 runs these.
abbrev pub world : ℤ → ℤ → List ℕ → State env
world nspans depth live = record {
  contexts = λ a. context nspans;
  spans = λ a. span depth;
  dicts = λ a. [];
  next_context = 1;
  next_span = 1;
  next_dict = 1;
  uuids = 0;
  now = 10;
  stacks = λ thread. live;
  agent = agent;
  sampling = none;
  profile = 0;
}

abbrev pub carrier : Text → Carrier
carrier span_id = record {
  trace_id = codes "trace";
  segment_id = codes "segment";
  span_id = span_id;
  service = codes "caller";
  service_instance = codes "caller-1";
  endpoint = codes "/call";
  client_address = some (codes "host:80");
  correlation = 7;
  raw = none;
}
