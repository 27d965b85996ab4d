-- ===== src/Http/Segments.antt =====
-- report_segment of skywalking/agent/protocol/http.py: what it posts, in which order, and what it loses.
use skywalking_python.Prelude.{
  ℕ, ◌≡◌, ◌≤◌, refl, ap, ◌∙◌, Bool, true, false, Option, none, some, List, [], ◌∷◌, ◌++◌, arith,
  if◌then◌else◌, length, length-append,
}
use skywalking_python.Prelude.Queue
use skywalking_python.Prelude.Queue.{Queue}
use skywalking_python.Http.{
  Round, Reports, fresh, accepted, arrive, is_over, started, taken, take_after, take_one, post,
  post_and, segments_from, report_segment,
}
use skywalking_python.Http.Running.{
  IsAccounted, IsRunning, take_one-IsRunning, accounted, posted-IsRunning, lost-IsAccounted,
  fresh-IsRunning,
}

accepted-batch : (o : Option (Queue ℕ)) (x : ℕ) (r : Reports) → (accepted o x r).batch ≡ r.batch
unfolding accepted
accepted-batch none x r = refl
accepted-batch (some q) x r = refl

arrive-batch : (xs : List ℕ) (r : Reports) → (arrive xs r).batch ≡ r.batch
unfolding arrive
arrive-batch [] r = refl
arrive-batch (x ∷ xs) r =
    arrive-batch xs (accepted (Queue.put x r.queue) x r) ∙ accepted-batch (Queue.put x r.queue) x r

-- What a round has taken, beside that it has.
abbrev IsOne : Bool × Reports → Type 0
IsOne (false, r) = r.batch ≡ []
IsOne (true, r) = length r.batch ≡ 1

taken-IsOne : (o : Option (ℕ × Queue ℕ)) (r : Reports) → r.batch ≡ [] → IsOne (taken o r)
unfolding taken
taken-IsOne none r e = e
taken-IsOne (some (x, q)) r e = ap (λ t. length (t ++ x ∷ [])) e

if-IsOne : (c : Bool) (r s : Bool × Reports) → IsOne r → IsOne s → IsOne (if c then r else s)
if-IsOne true r s h j = h
if-IsOne false r s h j = j

take_one-IsOne :
    (timeout : ℕ) (start : Option ℕ) (round : Round) (r : Reports)
    → r.batch ≡ []
    → IsOne (take_one timeout start round r)
unfolding take_one take_after
take_one-IsOne timeout start round r e =
    let full = arrive round.arrivals r in
    if-IsOne (is_over timeout start round.now) (false, r) (take_after full) e
      (taken-IsOne (Queue.get full.queue) full (arrive-batch round.arrivals r ∙ e))

-- How the report of segments ends.
pub record IsReported (before : List ℕ) (r : Reports) : Type 0 where
  pub all_found : IsAccounted before r
  pub at_most_one : length r.lost ≤ 1
  pub none_held : r.batch ≡ []

done-IsReported :
    (before : List ℕ) (r : Reports) → IsRunning before r → r.batch ≡ [] → IsReported before r
done-IsReported before r h e = record {
  all_found = accounted before r h;
  at_most_one = omega (arith, ap length h.nothing_lost);
  none_held = e;
}

lost-IsReported :
    (before : List ℕ) (r : Reports)
    → IsRunning before r
    → length r.batch ≡ 1
    → IsReported before (post false r)
unfolding post
lost-IsReported before r h e = record {
  all_found = lost-IsAccounted before r h;
  at_most_one = omega (arith, length-append r.lost r.batch, ap length h.nothing_lost, e);
  none_held = refl;
}

fresh-batch : (q : Queue ℕ) → (fresh q).batch ≡ []
unfolding fresh
fresh-batch q = refl

post_and-IsReported :
    (next : Reports → Reports) (answers : Bool) (before : List ℕ) (o : Bool × Reports)
    → ((r : Reports) → IsRunning before r → r.batch ≡ [] → IsReported before (next r))
    → IsRunning before o.1
    → IsOne o
    → IsReported before (post_and next answers o)
unfolding post_and post
post_and-IsReported next answers before (false, r) f h e = done-IsReported before r h e
post_and-IsReported next true before (true, r) f h e =
    f (post true r) (posted-IsRunning before r h) refl
post_and-IsReported next false before (true, r) f h e = lost-IsReported before r h e

module _ (timeout : ℕ) where
  segments_from-IsReported :
      (start : Option ℕ) (rounds : List Round) (before : List ℕ) (r : Reports)
      → IsRunning before r
      → r.batch ≡ []
      → IsReported before (segments_from timeout start rounds r)
  unfolding segments_from
  segments_from-IsReported start [] before r h e = done-IsReported before r h e
  segments_from-IsReported start (round ∷ rounds) before r h e =
      let later : Option ℕ = some (started start round.now) in
      post_and-IsReported (segments_from timeout later rounds) round.answers before
        (take_one timeout start round r) (segments_from-IsReported later rounds before)
        (take_one-IsRunning timeout start round before r h) (take_one-IsOne timeout start round r e)

  -- For any timeout and any rounds of the generator, from a queue that counts as unfinished what it
  -- holds: the segments that the report has posted, the one at most that a failed post had, and those
  -- that are in the queue after it are, in this order, those that were in the queue and those that it
  -- has accepted since; none is left in between, and the queue still counts as unfinished what it
  -- holds.
  pub report_segment-IsReported :
      (rounds : List Round) (q : Queue ℕ)
      → q.unfinished ≡ length q.items
      → IsReported q.items (report_segment timeout rounds q)
  unfolding report_segment
  report_segment-IsReported rounds q e =
      segments_from-IsReported none rounds q.items (fresh q) (fresh-IsRunning q e) (fresh-batch q)
