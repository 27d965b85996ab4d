-- ===== src/Agent/Tasks/Cleanup.antt =====
-- The clean-up of the background tasks of skywalking/agent/__init__.py.
use skywalking_python.Prelude.{
  ℕ, ◌≡◌, refl, Bool, true, false, ◌||◌, not, List, [], ◌∷◌, ◌==◌, arith, if◌then◌else◌, contains,
  sym, ◌∙◌, Bool-cases, inl, inr,
}
use skywalking_python.Trace.Model.{put_at}
use skywalking_python.Agent.Tasks.{
  Outcome, failed, done, Loop, log_outcome, log_done, still_pending, cancel_all, log_all,
  cancel_pending_tasks,
}
use skywalking_python.Agent.Tasks.Logging.{
  IsSound, Keeps, Keeps-trans, log-Keeps, log-outcome, log_failed,
}

-- What holds of both branches of a test.
if_both : (P : Loop → Type 0) (b : Bool) (l m : Loop) → P l → P m → P (if b then l else m)
if_both P true l m h k = h
if_both P false l m h k = k

log_done-Keeps : (current : ℕ) (ids : List ℕ) (l : Loop) → Keeps l (log_done current ids l)
unfolding log_done
log_done-Keeps current [] l = (λ h. h, λ i h. h)
log_done-Keeps current (i ∷ more) l =
    let next = (log_outcome false false i l).1 in
    if_both (Keeps l) (i == current || not (done (l.tasks i).outcome)) _ _
      (log_done-Keeps current more l)
      (Keeps-trans l next (log_done current more next) (log-Keeps i l)
        (log_done-Keeps current more next))

log_done-outcome :
    (current : ℕ) (ids : List ℕ) (j : ℕ) (l : Loop)
    → ((log_done current ids l).tasks j).outcome ≡ (l.tasks j).outcome
unfolding log_done
log_done-outcome current [] j l = refl
log_done-outcome current (i ∷ more) j l =
    let next = (log_outcome false false i l).1 in
    if_both (λ m. (m.tasks j).outcome ≡ (l.tasks j).outcome)
      (i == current || not (done (l.tasks i).outcome)) _ _ (log_done-outcome current more j l)
      (log_done-outcome current more j next ∙ log-outcome false false i j l)

log_done_failed :
    (current : ℕ) (ids : List ℕ) (j x : ℕ) (l : Loop)
    → contains j ids ≡ true
    → j == current ≡ false
    → (l.tasks j).outcome ≡ failed x
    → ((log_done current ids l).tasks j).outcome_handled ≡ true
unfolding log_done
log_done_failed current [] j x l m ne e = cc m
log_done_failed current (i ∷ more) j x l m ne e = elim (Bool-cases (j == i)) [
  | inl same ↦
      let at : i ≡ j = ground arith in
      rw at (
        rw ne (
          rw e (
            (log_done-Keeps current more (log_outcome false false j l).1).1 j
              (log_failed false false j x l e))))
  | inr other ↦
      let later : contains j more ≡ true = ground arith in
      if_both (λ m. (m.tasks j).outcome_handled ≡ true)
        (i == current || not (done (l.tasks i).outcome)) _ _
        (log_done_failed current more j x l later ne e)
        (log_done_failed current more j x (log_outcome false false i l).1 later ne
          (log-outcome false false i j l ∙ e))
]

cancel_all-Keeps :
    (settle : ℕ → Outcome) (ids : List ℕ) (l : Loop) → Keeps l (cancel_all settle ids l)
unfolding cancel_all
cancel_all-Keeps settle [] l = (λ h. h, λ i h. h)
cancel_all-Keeps settle (i ∷ more) l =
    let next : Loop = record l {
      tasks = put_at i (record (l.tasks i) { outcome = settle i }) l.tasks;
    } in
    Keeps-trans l next (cancel_all settle more next)
      (λ h. record { once = λ j. ground (arith, h.once j) }, λ j h. ground arith)
      (cancel_all-Keeps settle more next)

-- Only the tasks that are cancelled change.
cancel_all_other :
    (settle : ℕ → Outcome) (ids : List ℕ) (j : ℕ) (l : Loop)
    → contains j ids ≡ false
    → ((cancel_all settle ids l).tasks j).outcome ≡ (l.tasks j).outcome
unfolding cancel_all
cancel_all_other settle [] j l m = refl
cancel_all_other settle (i ∷ more) j l m =
    let next : Loop = record l {
      tasks = put_at i (record (l.tasks i) { outcome = settle i }) l.tasks;
    } in
    cancel_all_other settle more j next (ground arith) ∙ ground arith

log_all-Keeps : (ids : List ℕ) (l : Loop) → Keeps l (log_all ids l)
unfolding log_all
log_all-Keeps [] l = (λ h. h, λ i h. h)
log_all-Keeps (i ∷ more) l =
    let next = (log_outcome false false i l).1 in
    Keeps-trans l next (log_all more next) (log-Keeps i l) (log_all-Keeps more next)

log_all-outcome :
    (ids : List ℕ) (j : ℕ) (l : Loop) → ((log_all ids l).tasks j).outcome ≡ (l.tasks j).outcome
unfolding log_all
log_all-outcome [] j l = refl
log_all-outcome (i ∷ more) j l =
    log_all-outcome more j (log_outcome false false i l).1 ∙ log-outcome false false i j l

log_all_failed :
    (ids : List ℕ) (j x : ℕ) (l : Loop)
    → contains j ids ≡ true
    → (l.tasks j).outcome ≡ failed x
    → ((log_all ids l).tasks j).outcome_handled ≡ true
unfolding log_all
log_all_failed [] j x l m e = cc m
log_all_failed (i ∷ more) j x l m e =
    let next = (log_outcome false false i l).1 in
    elim (Bool-cases (j == i)) [
      | inl same ↦
          let at : i ≡ j = ground arith in
          (log_all-Keeps more next).1 j (rw at (log_failed false false j x l e))
      | inr other ↦ log_all_failed more j x next (ground arith) (log-outcome false false i j l ∙ e)
    ]

-- What is still running and not the current task is cancelled.
still_pending_running :
    (current : ℕ) (ids : List ℕ) (j : ℕ) (l : Loop)
    → contains j ids ≡ true
    → j == current ≡ false
    → done (l.tasks j).outcome ≡ false
    → contains j (still_pending current ids l) ≡ true
unfolding still_pending
still_pending_running current [] j l m ne r = cc m
still_pending_running current (i ∷ more) j l m ne r =
    ground (arith, still_pending_running current more j l)

still_pending_over :
    (current : ℕ) (ids : List ℕ) (j : ℕ) (l : Loop)
    → done (l.tasks j).outcome ≡ true
    → contains j (still_pending current ids l) ≡ false
unfolding still_pending
still_pending_over current [] j l d = refl
still_pending_over current (i ∷ more) j l d = ground (arith, still_pending_over current more j l d)

cancel-Keeps :
    (current : ℕ) (settle : ℕ → Outcome) (ids : List ℕ) (l : Loop)
    → Keeps l (cancel_pending_tasks current settle ids l)
unfolding cancel_pending_tasks
cancel-Keeps current settle ids l =
    let logged = log_done current ids l in
    let pending = still_pending current ids logged in
    let waited = cancel_all settle pending logged in
    Keeps-trans l logged (log_all pending waited) (log_done-Keeps current ids l) (
      Keeps-trans logged waited (log_all pending waited) (cancel_all-Keeps settle pending logged)
        (log_all-Keeps pending waited))

pub cancel-IsSound :
    (current : ℕ) (settle : ℕ → Outcome) (ids : List ℕ) (l : Loop)
    → IsSound l
    → IsSound (cancel_pending_tasks current settle ids l)
cancel-IsSound current settle ids l h = (cancel-Keeps current settle ids l).0 h

pub cancel_failed :
    (current : ℕ) (settle : ℕ → Outcome) (ids : List ℕ) (j x : ℕ) (l : Loop)
    → contains j ids ≡ true
    → j == current ≡ false
    → ((cancel_pending_tasks current settle ids l).tasks j).outcome ≡ failed x
    → ((cancel_pending_tasks current settle ids l).tasks j).outcome_handled ≡ true
unfolding cancel_pending_tasks
cancel_failed current settle ids j x l m ne e =
    let logged = log_done current ids l in
    let pending = still_pending current ids logged in
    let waited = cancel_all settle pending logged in
    let ended : (waited.tasks j).outcome ≡ failed x = sym (log_all-outcome pending j waited) ∙ e in
    elim (Bool-cases (done (logged.tasks j).outcome)) [
      | inl over ↦
          let before : (l.tasks j).outcome ≡ failed x =
            sym (log_done-outcome current ids j l)
            ∙ (sym (
                  cancel_all_other settle pending j logged
                    (still_pending_over current ids j logged over))
                ∙ ended) in
          (log_all-Keeps pending waited).1 j (
            (cancel_all-Keeps settle pending logged).1 j
              (log_done_failed current ids j x l m ne before))
      | inr active ↦
          log_all_failed pending j x waited (still_pending_running current ids j logged m ne active)
            ended
    ]
