-- ===== src/Http/Aio/Held.antt =====
-- Where the logs are that a report of skywalking/agent/protocol/http_aio.py takes.
use skywalking_python.Prelude.{
  ℕ, ◌≡◌, refl, sym, ap, ◌∙◌, Bool, true, false, List, [], ◌∷◌, ◌++◌, length,
}
use skywalking_python.Prelude.Queue
use skywalking_python.Prelude.Queue.{Queue}
use skywalking_python.Http.{Reports, fresh, take_after}
use skywalking_python.Http.Running.{
  IsRunning, accepted-IsRunning, take_after-IsRunning, fresh-IsRunning,
}
use skywalking_python.Http.Logs.{accepted-posted, taken-posted, fresh-posted}
use skywalking_python.Http.Aio.{signal, resume, collect, Event, offers, resumes, step, history}

take_after-posted : (r : Reports) → (take_after r).1.posted ≡ r.posted
unfolding take_after
take_after-posted r = taken-posted (Queue.get r.queue) r

-- The generator never ends, so nothing comes after a resumption but what it took.
collect-signal : (answers : Bool) (o : Bool × Reports) → collect answers (signal o) ≡ o.1
unfolding collect signal
collect-signal answers (true, r) = refl
collect-signal answers (false, r) = refl

step-IsRunning :
    (e : Event) (before : List ℕ) (r : Reports) → IsRunning before r → IsRunning before (step e r)
unfolding step resume
step-IsRunning (offers x) before r h = accepted-IsRunning (Queue.put x r.queue) x before r refl h
step-IsRunning (resumes answers) before r h =
    rw (collect-signal answers (take_after r)) (take_after-IsRunning before r h)

step-posted : (e : Event) (r : Reports) → (step e r).posted ≡ r.posted
unfolding step resume
step-posted (offers x) r = accepted-posted (Queue.put x r.queue) x r
step-posted (resumes answers) r =
    ap (λ t. t.posted) (collect-signal answers (take_after r)) ∙ take_after-posted r

history-IsRunning :
    (es : List Event) (before : List ℕ) (r : Reports)
    → IsRunning before r
    → IsRunning before (history es r)
unfolding history
history-IsRunning [] before r h = h
history-IsRunning (e ∷ es) before r h =
    history-IsRunning es before (step e r) (step-IsRunning e before r h)

history-posted : (es : List Event) (r : Reports) → (history es r).posted ≡ r.posted
unfolding history
history-posted [] r = refl
history-posted (e ∷ es) r = history-posted es (step e r) ∙ step-posted e r

-- From a queue that counts as unfinished what it holds, and for logs offered and resumptions of the
-- report in any order: nothing is ever posted, and the logs that the report holds and those in the
-- queue are, in this order, those that were in the queue and those that it has accepted since.
pub logs_held :
    (es : List Event) (q : Queue ℕ)
    → q.unfinished ≡ length q.items
    → ((history es (fresh q)).posted ≡ [])
      × ((history es (fresh q)).batch ++ (history es (fresh q)).queue.items
          ≡ q.items ++ (history es (fresh q)).came)
logs_held es q e =
    let r : Reports = history es (fresh q) in
    let p : r.posted ≡ [] = history-posted es (fresh q) ∙ fresh-posted q in
    let h = history-IsRunning es q.items (fresh q) (fresh-IsRunning q e) in
    (p, ap (λ t. t ++ (r.batch ++ r.queue.items)) (sym p) ∙ h.in_order)
