-- ===== src/Agent/Tasks/Logging.antt =====
-- What the logging of an outcome does, in skywalking/agent/__init__.py.
use skywalking_python.Prelude.{
  ℕ, ◌+◌, ◌≡◌, refl, Bool, true, false, Option, none, some, List, [], ◌∷◌, ◌==◌, arith,
  if◌then◌else◌,
}
use skywalking_python.Agent.Tasks.{
  failed, Report, raised, Loop, retrieve_outcome, log_retrieved, log_outcome,
}

-- How many lines of the log are about a task.
pub lines_of : ℕ → List (ℕ × Report) → ℕ
lines_of i [] = 0
lines_of i ((j, r) ∷ lines) = (if j == i then 1 else 0) + lines_of i lines

-- A task has one line if its outcome is marked as handled, and else none.
pub record IsSound (l : Loop) : Type 0 where
  pub once : (i : ℕ) → lines_of i l.lines ≡ (if (l.tasks i).outcome_handled then 1 else 0)

pub log-IsSound :
    (completion cancellation : Bool) (i : ℕ) (l : Loop)
    → IsSound l
    → IsSound (log_outcome completion cancellation i l).1
unfolding log_outcome lines_of
log-IsSound completion cancellation i l h =
    by_handled (l.tasks i).outcome_handled refl
      (retrieve_outcome completion cancellation (l.tasks i).outcome)
  where
    retrieved :
        (o : Option Report) → (l.tasks i).outcome_handled ≡ false → IsSound (log_retrieved o i l).1
    retrieved none e = h
    retrieved (some r) e = record { once = λ j. ground (arith, h.once j) }

    by_handled :
        (b : Bool)
        → (l.tasks i).outcome_handled ≡ b
        → (o : Option Report) → IsSound (if b then (false, l) else log_retrieved o i l).1
    by_handled true e o = h
    by_handled false e o = retrieved o e

abbrev pub Keeps : Loop → Loop → Type 0
Keeps l m =
    (IsSound l → IsSound m)
    × ((i : ℕ) → (l.tasks i).outcome_handled ≡ true → (m.tasks i).outcome_handled ≡ true)

pub Keeps-trans : (l m o : Loop) → Keeps l m → Keeps m o → Keeps l o
Keeps-trans l m o (s, t) (u, v) = (λ h. u (s h), λ i h. v i (t i h))

pub log_handles :
    (completion cancellation : Bool) (i j : ℕ) (l : Loop)
    → (l.tasks j).outcome_handled ≡ true
    → ((log_outcome completion cancellation i l).1.tasks j).outcome_handled ≡ true
unfolding log_outcome
log_handles completion cancellation i j l h =
    by_handled (l.tasks i).outcome_handled
      (retrieve_outcome completion cancellation (l.tasks i).outcome)
  where
    by_handled :
        (b : Bool) (o : Option Report)
        → ((if b then (false, l) else log_retrieved o i l).1.tasks j).outcome_handled ≡ true
    by_handled true o = h
    by_handled false none = h
    by_handled false (some r) = ground arith

pub log-outcome :
    (completion cancellation : Bool) (i j : ℕ) (l : Loop)
    → ((log_outcome completion cancellation i l).1.tasks j).outcome ≡ (l.tasks j).outcome
unfolding log_outcome
log-outcome completion cancellation i j l =
    by_handled (l.tasks i).outcome_handled
      (retrieve_outcome completion cancellation (l.tasks i).outcome)
  where
    by_handled :
        (b : Bool) (o : Option Report)
        → ((if b then (false, l) else log_retrieved o i l).1.tasks j).outcome ≡ (l.tasks j).outcome
    by_handled true o = refl
    by_handled false none = refl
    by_handled false (some r) = ground arith

-- An exception does not go by unlogged.
pub log_failed :
    (completion cancellation : Bool) (i x : ℕ) (l : Loop)
    → (l.tasks i).outcome ≡ failed x
    → ((log_outcome completion cancellation i l).1.tasks i).outcome_handled ≡ true
unfolding log_outcome retrieve_outcome log_retrieved
log_failed completion cancellation i x l e = rw e (by_handled (l.tasks i).outcome_handled refl)
  where
    by_handled :
        (b : Bool)
        → (l.tasks i).outcome_handled ≡ b
        → ((if b then (false, l) else log_retrieved (some (raised x)) i l).1.tasks
            i).outcome_handled
          ≡ true
    by_handled true h = h
    by_handled false h = ground arith

pub log-Keeps : (i : ℕ) (l : Loop) → Keeps l (log_outcome false false i l).1
log-Keeps i l = (log-IsSound false false i l, λ j. log_handles false false i j l)

-- Nothing is logged and no outcome handled.
pub fresh-IsSound :
    (l : Loop) → l.lines ≡ [] → ((i : ℕ) → (l.tasks i).outcome_handled ≡ false) → IsSound l
unfolding lines_of
fresh-IsSound l none_yet h = record { once = λ i. rw none_yet (rw (h i) refl) }
