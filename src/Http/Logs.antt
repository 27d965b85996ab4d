-- ===== src/Http/Logs.antt =====
-- report_log of skywalking/agent/protocol/http.py: one post of all the logs that a report takes.
use mathlib.Core.List.{append_assoc}
use skywalking_python.Prelude.{
  ℕ, ◌≡◌, refl, sym, ap, ◌∙◌, Bool, true, false, Option, none, some, List, [], ◌∷◌, ◌++◌,
  if◌then◌else◌, length,
}
use skywalking_python.Prelude.Queue
use skywalking_python.Prelude.Queue.{Queue}
use skywalking_python.Http.{
  Round, Reports, fresh, accepted, arrive, is_over, started, taken, take_after, take_one, post,
  go_on, log_batch, post_batch, report_log,
}
use skywalking_python.Http.Running.{IsRunning, take_one-IsRunning, fresh-IsRunning}

pub fresh-posted : (q : Queue ℕ) → (fresh q).posted ≡ []
unfolding fresh
fresh-posted q = refl

pub accepted-posted :
    (o : Option (Queue ℕ)) (x : ℕ) (r : Reports) → (accepted o x r).posted ≡ r.posted
unfolding accepted
accepted-posted none x r = refl
accepted-posted (some q) x r = refl

arrive-posted : (xs : List ℕ) (r : Reports) → (arrive xs r).posted ≡ r.posted
unfolding arrive
arrive-posted [] r = refl
arrive-posted (x ∷ xs) r =
    arrive-posted xs (accepted (Queue.put x r.queue) x r)
    ∙ accepted-posted (Queue.put x r.queue) x r

pub taken-posted : (o : Option (ℕ × Queue ℕ)) (r : Reports) → (taken o r).1.posted ≡ r.posted
unfolding taken
taken-posted none r = refl
taken-posted (some (x, q)) r = refl

if-posted :
    (c : Bool) (r s : Bool × Reports) (p : List ℕ)
    → r.1.posted ≡ p
    → s.1.posted ≡ p
    → (if c then r else s).1.posted ≡ p
if-posted true r s p h j = h
if-posted false r s p h j = j

take_one-posted :
    (timeout : ℕ) (start : Option ℕ) (round : Round) (r : Reports)
    → (take_one timeout start round r).1.posted ≡ r.posted
unfolding take_one take_after
take_one-posted timeout start round r =
    let full = arrive round.arrivals r in
    if-posted (is_over timeout start round.now) (false, r) (take_after full) r.posted refl
      (taken-posted (Queue.get full.queue) full ∙ arrive-posted round.arrivals r)

-- How the report of logs ends, with a post that returns, and with one that raises.
pub record IsBatched (answers : Bool) (before : List ℕ) (r : Reports) : Type 0 where
  pub all_kept : (if answers then r.posted else r.lost) ++ r.queue.items ≡ before ++ r.came
  pub none_else : (if answers then r.lost else r.posted) ≡ []
  pub nothing_held : r.batch ≡ []
  pub unfinished_kept : r.queue.unfinished ≡ length r.queue.items

go_on-IsRunning :
    (next : Reports → Reports) (before : List ℕ) (o : Bool × Reports)
    → ((r : Reports) → IsRunning before r → IsRunning before (next r))
    → IsRunning before o.1
    → IsRunning before (go_on next o)
unfolding go_on
go_on-IsRunning next before (false, r) f h = h
go_on-IsRunning next before (true, r) f h = f r h

go_on-posted :
    (next : Reports → Reports) (o : Bool × Reports)
    → ((r : Reports) → r.posted ≡ [] → (next r).posted ≡ [])
    → o.1.posted ≡ []
    → (go_on next o).posted ≡ []
unfolding go_on
go_on-posted next (false, r) f h = h
go_on-posted next (true, r) f h = f r h

abbrev reports : Queue ℕ → List ℕ → List ℕ → List ℕ → List ℕ → Reports
reports q c b p l = record { queue = q; came = c; batch = b; posted = p; lost = l }

kept_lost :
    (q : Queue ℕ) (c b p l before : List ℕ)
    → IsRunning before (reports q c b p l)
    → p ≡ []
    → l ++ b ++ q.items ≡ before ++ c
kept_lost q c b p l before h e =
    ap (λ t. t ++ b ++ q.items) h.nothing_lost ∙ ap (λ t. t ++ (b ++ q.items)) (sym e) ∙ h.in_order

post_batch-IsBatched :
    (answers : Bool) (q : Queue ℕ) (c b p l before : List ℕ)
    → IsRunning before (reports q c b p l)
    → p ≡ []
    → IsBatched answers before (post_batch answers (reports q c b p l))
unfolding post_batch post
post_batch-IsBatched true q c [] p l before h e = record {
  all_kept = h.in_order;
  none_else = h.nothing_lost;
  nothing_held = refl;
  unfinished_kept = h.still;
}
post_batch-IsBatched true q c (x ∷ b) p l before h e = record {
  all_kept = append_assoc p (x ∷ b) q.items ∙ h.in_order;
  none_else = h.nothing_lost;
  nothing_held = refl;
  unfinished_kept = h.still;
}
post_batch-IsBatched false q c [] p l before h e = record {
  all_kept = ap (λ t. t ++ q.items) h.nothing_lost ∙ ap (λ t. t ++ q.items) (sym e) ∙ h.in_order;
  none_else = e;
  nothing_held = refl;
  unfinished_kept = h.still;
}
post_batch-IsBatched false q c (x ∷ b) p l before h e = record {
  all_kept = kept_lost q c (x ∷ b) p l before h e;
  none_else = e;
  nothing_held = refl;
  unfinished_kept = h.still;
}

module _ (timeout : ℕ) where
  log_batch-IsRunning :
      (start : Option ℕ) (rounds : List Round) (before : List ℕ) (r : Reports)
      → IsRunning before r
      → IsRunning before (log_batch timeout start rounds r)
  unfolding log_batch
  log_batch-IsRunning start [] before r h = h
  log_batch-IsRunning start (round ∷ rounds) before r h =
      let later : Option ℕ = some (started start round.now) in
      go_on-IsRunning (log_batch timeout later rounds) before (take_one timeout start round r)
        (log_batch-IsRunning later rounds before)
        (take_one-IsRunning timeout start round before r h)

  log_batch-posted :
      (start : Option ℕ) (rounds : List Round) (r : Reports)
      → r.posted ≡ []
      → (log_batch timeout start rounds r).posted ≡ []
  unfolding log_batch
  log_batch-posted start [] r h = h
  log_batch-posted start (round ∷ rounds) r h =
      let later : Option ℕ = some (started start round.now) in
      go_on-posted (log_batch timeout later rounds) (take_one timeout start round r)
        (log_batch-posted later rounds) (take_one-posted timeout start round r ∙ h)

  -- For any timeout and any rounds of the generator, from a queue that counts as unfinished what it
  -- holds: where the post returns, the logs posted and those in the queue after the report are, in
  -- this order, those that were in the queue and those that it has accepted since, and none is lost;
  -- where it raises, the same holds of the logs lost, and none is posted. The queue still counts as
  -- unfinished what it holds.
  pub report_log-IsBatched :
      (answers : Bool) (rounds : List Round) (q : Queue ℕ)
      → q.unfinished ≡ length q.items
      → IsBatched answers q.items (report_log timeout answers rounds q)
  unfolding report_log
  report_log-IsBatched answers rounds q e =
      let r : Reports = log_batch timeout none rounds (fresh q) in
      post_batch-IsBatched answers r.queue r.came r.batch r.posted r.lost q.items
        (log_batch-IsRunning none rounds q.items (fresh q) (fresh-IsRunning q e))
        (log_batch-posted none rounds (fresh q) (fresh-posted q))
