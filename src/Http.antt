-- ===== src/Http.antt =====
-- skywalking/agent/protocol/http.py with the report services of skywalking/client/http.py: payloads are
-- taken out of a queue until it is empty or the time is up, and posted; an exception ends the report.
-- That of a post stands for all that go with a segment; a log is converted without one. Times are
-- milliseconds.
pub mod Running
pub mod Segments
pub mod Logs
pub mod Aio
mod Tests
use skywalking_python.Prelude.{
  ℕ, ◌+◌, ◌-◌, ◌*◌, ◌/◌, Bool, true, false, Option, none, some, List, [], ◌∷◌, ◌++◌, if◌then◌else◌,
  leb, is_empty,
}
use skywalking_python.Prelude.Queue
use skywalking_python.Prelude.Queue.{Queue}

-- A round of the generator: the time at its start, the payloads that other threads offer to the queue
-- by the time that `get` returns, and whether a post that follows returns, rather than raises.
pub record Round : Type 0 where
  pub now : ℕ
  pub arrivals : List ℕ
  pub answers : Bool

-- A report under way: the queue, what the queue has accepted since the report began, what the
-- generator has yielded and is not posted yet, what was posted, and what a post that raised had.
pub record Reports : Type 0 where
  pub queue : Queue ℕ
  pub came : List ℕ
  pub batch : List ℕ
  pub posted : List ℕ
  pub lost : List ℕ

unfoldable pub fresh : Queue ℕ → Reports
fresh q = record { queue = q; came = []; batch = []; posted = []; lost = [] }

unfoldable pub accepted : Option (Queue ℕ) → ℕ → Reports → Reports
accepted none x r = r
accepted (some q) x r = record r { queue = q; came = r.came ++ x ∷ [] }

unfoldable pub arrive : List ℕ → Reports → Reports
unfolding accepted
arrive [] r = r
arrive (x ∷ xs) r = arrive xs (accepted (Queue.put x r.queue) x r)

-- `timeout -= int(time() - start)`, with the timeout in seconds, comes to zero or less; the first round
-- only notes the time.
abbrev is_over : ℕ → Option ℕ → ℕ → Bool
is_over timeout none now = false
is_over timeout (some start) now = leb timeout ((now - start) / 1000)

abbrev started : Option ℕ → ℕ → ℕ
started none now = now
started (some start) now = start

unfoldable pub taken : Option (ℕ × Queue ℕ) → Reports → Bool × Reports
taken none r = (false, r)
taken (some (x, q)) r = (true, record r { queue = Queue.task_done q; batch = r.batch ++ x ∷ [] })

unfoldable pub take_after : Reports → Bool × Reports
unfolding taken
take_after r = taken (Queue.get r.queue) r

-- A round of the generator; `false` where it returns.
unfoldable pub take_one : ℕ → Option ℕ → Round → Reports → Bool × Reports
unfolding arrive take_after
take_one timeout start round r =
    if is_over timeout start round.now then (false, r) else take_after (arrive round.arrivals r)

-- A post of what was yielded.
unfoldable pub post : Bool → Reports → Reports
post true r = record r { posted = r.posted ++ r.batch; batch = [] }
post false r = record r { lost = r.lost ++ r.batch; batch = [] }

unfoldable pub post_and : (Reports → Reports) → Bool → Bool × Reports → Reports
unfolding post
post_and next answers (false, r) = r
post_and next true (true, r) = next (post true r)
post_and next false (true, r) = post false r

unfoldable pub go_on : (Reports → Reports) → Bool × Reports → Reports
go_on next (false, r) = r
go_on next (true, r) = next r

-- One post, unless the batch is empty
unfoldable pub post_batch : Bool → Reports → Reports
unfolding post
post_batch answers r = if is_empty r.batch then r else post answers r

module _ (timeout : ℕ) where
  -- Each segment is posted as it is yielded.
  unfoldable pub segments_from : Option ℕ → List Round → Reports → Reports
  unfolding take_one post_and
  segments_from start [] r = r
  segments_from start (round ∷ rounds) r =
      post_and (segments_from (some (started start round.now)) rounds) round.answers
        (take_one timeout start round r)

  unfoldable pub report_segment : List Round → Queue ℕ → Reports
  unfolding segments_from fresh
  report_segment rounds q = segments_from none rounds (fresh q)

  -- The list of all that the generator yields
  unfoldable pub log_batch : Option ℕ → List Round → Reports → Reports
  unfolding take_one go_on
  log_batch start [] r = r
  log_batch start (round ∷ rounds) r =
      go_on (log_batch (some (started start round.now)) rounds) (take_one timeout start round r)

  unfoldable pub report_log : Bool → List Round → Queue ℕ → Reports
  unfolding log_batch post_batch fresh
  report_log answers rounds q = post_batch answers (log_batch none rounds (fresh q))
