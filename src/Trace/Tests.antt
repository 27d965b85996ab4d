-- ===== src/Trace/Tests.antt =====
-- The theorems of the tracer at concrete inputs.
use skywalking_python.Prelude.{
  ◌≡◌, refl, true, false, some, [], ◌∷◌, ◌++◌, Text, codes, join, remove, arith,
}
use skywalking_python.Prelude.Int.{pos}
use skywalking_python.Prelude.Dict.{Dict, lookup}
use skywalking_python.Prelude.Result.{ok}
use skywalking_python.Agent.Queues.{archive_segment, is_segment_queue_full}
use skywalking_python.Trace.Model.{plain}
use skywalking_python.Trace.Carrier.{
  blank, val, set_val, is_valid, int_of_text, correlation_val, set_correlation_val,
}
use skywalking_python.Trace.Carrier.Correlation.{Apart, set_correlation_val-val}
use skywalking_python.Trace.Carrier.RoundTrip.{set_val-val}
use skywalking_python.Trace.Spans.{extract, has_ref, ref_of_carrier}
use skywalking_python.Trace.Spans.Extracting.{extract_joins}
use skywalking_python.Trace.Live.{start, stop}
use skywalking_python.Trace.Live.Stopping.{stop_last}
use skywalking_python.Trace.Live.Starting.{start-stop_stack}
use skywalking_python.Trace.Env.{State}
use skywalking_python.Trace.Fixtures.{base64, encode, unicode, env, agent, world, carrier}

-- One span is live, at depth 1.
abbrev last_one : State env
last_one = world (pos 1) (pos 1) (0 ∷ [])

stop_last_example :
    let (r, v) = stop env 0 0 last_one in
    let c = v.contexts 0 in
    (r ≡ ok true)
    × (v.agent ≡ archive_segment 0 10 agent)
    × (v.stacks 0 ≡ remove 0 (0 ∷ []))
    × (c.segment.spans ≡ [] ++ 0 ∷ [])
    × (c.segment.is_size_limited ≡ is_segment_queue_full agent)
stop_last_example = stop_last env 0 0 last_one refl refl refl

start-stop_stack_example :
    (stop env 0 0 (start env 0 0 (world (pos 0) (pos 0) (5 ∷ []))).1).1.stacks 0 ≡ 5 ∷ []
start-stop_stack_example = start-stop_stack env 0 0 (world (pos 0) (pos 0) (5 ∷ [])) refl refl

-- The agent does not report.
abbrev silent : State env
silent = record last_one { agent = record agent { reporting = false } }

caller_valid : is_valid unicode (carrier (codes "3")) ≡ ok true
unfolding is_valid
caller_valid = refl

caller_number : int_of_text unicode (codes "3") ≡ ok (pos 3)
unfolding int_of_text
caller_number = refl

extract_joins_example :
    let (r, v) = extract env (carrier (codes "3")) 0 last_one in
    let d = v.contexts 0 in
    (r ≡ ok tt)
    × (d.segment.related_traces ≡ plain (codes "trace") ∷ [])
    × (d.correlation ≡ 7)
    × (has_ref (ref_of_carrier (carrier (codes "3")) (pos 3)) (v.spans 0).refs ≡ true)
    × (v.agent ≡ agent)
extract_joins_example =
    extract_joins env (carrier (codes "3")) 0 last_one (pos 3) (codes "t") caller_valid
      caller_number refl refl

abbrev header : Text
header = join (codes "-") (
    codes "1"
    ∷ encode (codes "trace")
    ∷ encode (codes "segment")
    ∷ codes "3"
    ∷ encode (codes "caller")
    ∷ encode (codes "caller-1")
    ∷ encode (codes "/call")
    ∷ encode (codes "host:80")
    ∷ [])

written : val base64 (carrier (codes "3")) ≡ ok header
unfolding val
written = refl

set_val-val_example :
    set_val base64 header (blank 9)
    ≡ (ok tt, record (carrier (codes "3")) { correlation = 9; raw = some header })
set_val-val_example = set_val-val base64 (carrier (codes "3")) (blank 9) header (refl, tt) written

abbrev two : Dict Text
two = (codes "k", codes "v") ∷ (codes "l", codes "w") ∷ []

two-Apart : Apart [] two
unfolding lookup
two-Apart = (refl, (refl, tt))

set_correlation_val-val_example :
    set_correlation_val base64 (pos 3) (correlation_val base64 two) [] ≡ (ok tt, two)
set_correlation_val-val_example = set_correlation_val-val base64 3 two two-Apart (omega arith)
