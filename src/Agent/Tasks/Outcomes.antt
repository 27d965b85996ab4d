-- ===== src/Agent/Tasks/Outcomes.antt =====
-- The background tasks of skywalking/agent/__init__.py from their start to the end of the clean-up.
use skywalking_python.Prelude.{
  ℕ, ◌≤◌, ◌≡◌, refl, Bool, true, false, ◌||◌, List, [], ◌∷◌, ◌==◌, arith, if◌then◌else◌, contains,
  remove, ◌∙◌,
}
use skywalking_python.Trace.Model.{put_at}
use skywalking_python.Agent.Tasks.{
  Outcome, failed, done, Loop, log_outcome, supervise_done, supervise, cancel_pending_tasks,
}
use skywalking_python.Agent.Tasks.Logging.{lines_of, IsSound, log-IsSound}
use skywalking_python.Agent.Tasks.Cleanup.{cancel-IsSound, cancel_failed}

-- A task ends; the supervisor's wait is over; the tasks are cancelled.
pub data Event : Type 0 where
  ends : ℕ → Outcome → Event
  wakes : Bool → List ℕ → Event
  cleans : ℕ → (ℕ → Outcome) → List ℕ → Event

-- What has ended does not end again.
end_task : ℕ → Outcome → Loop → Loop
end_task i o l =
    if done (l.tasks i).outcome
    then l
    else record l { tasks = put_at i (record (l.tasks i) { outcome = o }) l.tasks }

unfoldable pub apply : Event → Loop → Loop
unfolding end_task
apply (ends i o) l = end_task i o l
apply (wakes shutdown finished_tasks) l = (supervise shutdown finished_tasks l).1
apply (cleans current settle ids) l = cancel_pending_tasks current settle ids l

unfoldable pub history : List Event → Loop → Loop
history [] l = l
history (e ∷ es) l = history es (apply e l)

end-IsSound : (i : ℕ) (o : Outcome) (l : Loop) → IsSound l → IsSound (end_task i o l)
unfolding end_task
end-IsSound i o l h = by_done (done (l.tasks i).outcome)
  where
    ended : Loop
    ended = record l { tasks = put_at i (record (l.tasks i) { outcome = o }) l.tasks }

    by_done : (b : Bool) → IsSound (if b then l else ended)
    by_done true = h
    by_done false = record { once = λ j. ground (arith, h.once j) }

supervise_done-IsSound : (ids : List ℕ) (l : Loop) → IsSound l → IsSound (supervise_done ids l).1
unfolding supervise_done
supervise_done-IsSound [] l h = h
supervise_done-IsSound (i ∷ more) l h =
    let taken : Loop = record l { pending = remove i l.pending } in
    let (logged, next) = log_outcome true true i taken in
    let sound = log-IsSound true true i taken (record { once = h.once }) in
    by_logged logged next (supervise_done more next) sound (supervise_done-IsSound more next sound)
  where
    by_logged :
        (b : Bool) (next : Loop) (rest : Bool × Loop)
        → IsSound next
        → IsSound rest.1
        → IsSound (if b then (true, record next { finished = true }) else rest).1
    by_logged true next rest s r = record { once = s.once }
    by_logged false next rest s r = r

supervise-IsSound :
    (shutdown : Bool) (ids : List ℕ) (l : Loop) → IsSound l → IsSound (supervise shutdown ids l).1
unfolding supervise
supervise-IsSound shutdown ids l h =
    by_over (shutdown || l.finished) (supervise_done-IsSound ids l h)
  where
    by_over :
        (b : Bool)
        → IsSound (supervise_done ids l).1
        → IsSound (if b then (true, l) else supervise_done ids l).1
    by_over true s = h
    by_over false s = s

apply-IsSound : (e : Event) (l : Loop) → IsSound l → IsSound (apply e l)
unfolding apply
apply-IsSound (ends i o) l h = end-IsSound i o l h
apply-IsSound (wakes shutdown ids) l h = supervise-IsSound shutdown ids l h
apply-IsSound (cleans current settle ids) l h = cancel-IsSound current settle ids l h

lifetime-IsSound : (es : List Event) (l : Loop) → IsSound l → IsSound (history es l)
unfolding history
lifetime-IsSound [] l h = h
lifetime-IsSound (e ∷ es) l h = lifetime-IsSound es (apply e l) (apply-IsSound e l h)

at_most_once : (l : Loop) → IsSound l → (i : ℕ) → lines_of i l.lines ≤ 1
at_most_once l h i = ground (arith, h.once i)

-- Where each task had one line if its outcome was handled and else none: after tasks that ended in
-- any way, waits of the supervisor and clean-ups in any order, a last clean-up leaves no task with
-- two lines, and a task among those it was given, other than the current one, that has ended with
-- an exception has exactly one.
pub failures_logged_once :
    (es : List Event) (l : Loop) (current : ℕ) (settle : ℕ → Outcome) (ids : List ℕ) (j x : ℕ)
    → IsSound l
    → contains j ids ≡ true
    → j == current ≡ false
    → ((cancel_pending_tasks current settle ids (history es l)).tasks j).outcome ≡ failed x
    → let after = cancel_pending_tasks current settle ids (history es l) in
      (lines_of j after.lines ≡ 1) × ((i : ℕ) → lines_of i after.lines ≤ 1)
failures_logged_once es l current settle ids j x h m ne e =
    let before = history es l in
    let after = cancel_pending_tasks current settle ids before in
    let sound = cancel-IsSound current settle ids before (lifetime-IsSound es l h) in
    let handled = cancel_failed current settle ids j x before m ne e in
    (sound.once j ∙ rw handled refl, at_most_once after sound)
