-- ===== src/Http/Aio.antt =====
-- report_log of skywalking/agent/protocol/http_aio.py with HttpLogDataReportServiceAsync of
-- skywalking/client/http_aio.py, as steps of the event loop. The generator there has no deadline and
-- waits for the next log where the queue is empty.
pub mod Held
use skywalking_python.Prelude.{ℕ, Bool, true, false, List, [], ◌∷◌}
use skywalking_python.Prelude.Queue
use skywalking_python.Http.{Reports, accepted, take_after, post_batch}

-- What `async for` meets when it asks the generator: a log, a wait, or the end.
pub data Signal : Type 0 where
  yields waits stops : Signal

unfoldable pub signal : Bool × Reports → Signal × Reports
signal (true, r) = (yields, r)
signal (false, r) = (waits, r)

-- The generator of the report, up to its next `yield` or to its wait
unfoldable pub resume : Reports → Signal × Reports
unfolding signal
resume r = signal (take_after r)

-- The list of all that the generator yields, and the post when it ends, which returns or raises
unfoldable pub collect : Bool → Signal × Reports → Reports
collect answers (yields, r) = r
collect answers (waits, r) = r
collect answers (stops, r) = post_batch answers r

-- The event loop: a log is offered to the queue, or the report runs on.
pub data Event : Type 0 where
  offers : ℕ → Event
  resumes : Bool → Event

unfoldable pub step : Event → Reports → Reports
unfolding resume collect
step (offers x) r = accepted (Queue.put x r.queue) x r
step (resumes answers) r = collect answers (resume r)

unfoldable pub history : List Event → Reports → Reports
unfolding step
history [] r = r
history (e ∷ es) r = history es (step e r)
