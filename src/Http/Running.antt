-- ===== src/Http/Running.antt =====
-- What holds of a report of skywalking/agent/protocol/http.py while no post has raised.
use mathlib.Core.List.{append_assoc, append-nil}
use skywalking_python.Prelude.{
  ℕ, suc, ◌+◌, ◌≡◌, refl, sym, ap, ◌∙◌, Bool, true, false, Option, none, some, List, [], ◌∷◌, ◌++◌,
  arith, if◌then◌else◌, length, length-append,
}
use skywalking_python.Prelude.Queue
use skywalking_python.Prelude.Queue.{Queue}
use skywalking_python.Http.{
  Round, Reports, fresh, accepted, arrive, is_over, taken, take_after, take_one, post,
}

-- All that was in the queue is posted, lost, or still there, in this order, and the queue counts as
-- unfinished what it holds.
pub record IsAccounted (before : List ℕ) (r : Reports) : Type 0 where
  pub order : r.posted ++ (r.lost ++ (r.batch ++ r.queue.items)) ≡ before ++ r.came
  pub quiet : r.queue.unfinished ≡ length r.queue.items

-- So far no post has raised.
pub record IsRunning (before : List ℕ) (r : Reports) : Type 0 where
  pub nothing_lost : r.lost ≡ []
  pub in_order : r.posted ++ (r.batch ++ r.queue.items) ≡ before ++ r.came
  pub still : r.queue.unfinished ≡ length r.queue.items

put-items : (x : ℕ) (q s : Queue ℕ) → Queue.put x q ≡ some s → s.items ≡ q.items ++ x ∷ []
put-items x q s e = ground arith

put-unfinished : (x : ℕ) (q s : Queue ℕ) → Queue.put x q ≡ some s → s.unfinished ≡ q.unfinished + 1
put-unfinished x q s e = ground arith

pub accepted-IsRunning :
    (o : Option (Queue ℕ)) (x : ℕ) (before : List ℕ) (r : Reports)
    → Queue.put x r.queue ≡ o
    → IsRunning before r
    → IsRunning before (accepted o x r)
unfolding accepted
accepted-IsRunning none x before r e h = h
accepted-IsRunning (some q) x before r e h =
    let i : q.items ≡ r.queue.items ++ x ∷ [] = put-items x r.queue q e in
    let n : q.unfinished ≡ r.queue.unfinished + 1 = put-unfinished x r.queue q e in
    let more = length-append r.queue.items (x ∷ []) in
    record {
      nothing_lost = h.nothing_lost;
      in_order = simp (i, sym (append_assoc before r.came (x ∷ [])), sym h.in_order, append_assoc);
      still = omega (arith, n, h.still, more, ap length i);
    }

arrive-IsRunning :
    (xs before : List ℕ) (r : Reports) → IsRunning before r → IsRunning before (arrive xs r)
unfolding arrive
arrive-IsRunning [] before r h = h
arrive-IsRunning (x ∷ xs) before r h =
    arrive-IsRunning xs before (accepted (Queue.put x r.queue) x r)
      (accepted-IsRunning (Queue.put x r.queue) x before r refl h)

take-IsRunning :
    (l before : List ℕ) (r : Reports)
    → r.queue.items ≡ l
    → IsRunning before r
    → IsRunning before (taken (Queue.get_from r.queue l) r).1
unfolding taken
take-IsRunning [] before r e h = h
take-IsRunning (x ∷ l) before r e h =
    let n : length r.queue.items ≡ suc (length l) = ap length e in
    record {
      nothing_lost = h.nothing_lost;
      in_order =
          ap (λ t. r.posted ++ t) (append_assoc r.batch (x ∷ []) l ∙ ap (λ t. r.batch ++ t) (sym e))
          ∙ h.in_order;
      still = omega (arith, h.still, n);
    }

pub take_after-IsRunning :
    (before : List ℕ) (r : Reports) → IsRunning before r → IsRunning before (take_after r).1
unfolding take_after
take_after-IsRunning before r h = take-IsRunning r.queue.items before r refl h

if-IsRunning :
    (c : Bool) (before : List ℕ) (r s : Bool × Reports)
    → IsRunning before r.1
    → IsRunning before s.1
    → IsRunning before (if c then r else s).1
if-IsRunning true before r s h j = h
if-IsRunning false before r s h j = j

pub take_one-IsRunning :
    (timeout : ℕ) (start : Option ℕ) (round : Round) (before : List ℕ) (r : Reports)
    → IsRunning before r
    → IsRunning before (take_one timeout start round r).1
unfolding take_one take_after
take_one-IsRunning timeout start round before r h =
    let full = arrive round.arrivals r in
    if-IsRunning (is_over timeout start round.now) before (false, r) (take_after full) h
      (take_after-IsRunning before full (arrive-IsRunning round.arrivals before r h))

pub accounted : (before : List ℕ) (r : Reports) → IsRunning before r → IsAccounted before r
accounted before r h = record {
  order = ap (λ t. r.posted ++ (t ++ (r.batch ++ r.queue.items))) h.nothing_lost ∙ h.in_order;
  quiet = h.still;
}

pub posted-IsRunning :
    (before : List ℕ) (r : Reports) → IsRunning before r → IsRunning before (post true r)
unfolding post
posted-IsRunning before r h = record {
  nothing_lost = h.nothing_lost;
  in_order = append_assoc r.posted r.batch r.queue.items ∙ h.in_order;
  still = h.still;
}

pub lost-IsAccounted :
    (before : List ℕ) (r : Reports) → IsRunning before r → IsAccounted before (post false r)
unfolding post
lost-IsAccounted before r h = record {
  order =
      ap (λ t. r.posted ++ t) (append_assoc r.lost r.batch r.queue.items)
      ∙ (accounted before r h).order;
  quiet = h.still;
}

pub fresh-IsRunning : (q : Queue ℕ) → q.unfinished ≡ length q.items → IsRunning q.items (fresh q)
unfolding fresh
fresh-IsRunning q e = record { nothing_lost = refl; in_order = sym (append-nil q.items); still = e }
