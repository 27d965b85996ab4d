-- ===== src/Http/Tests.antt =====
-- Reports over HTTP at concrete inputs.
use skywalking_python.Prelude.{ℕ, ◌≡◌, refl, true, false, List, [], ◌∷◌, ◌++◌}
use skywalking_python.Prelude.Queue.{Queue}
use skywalking_python.Http.{Round, fresh, report_segment, report_log}
use skywalking_python.Http.Segments.{IsReported, report_segment-IsReported}
use skywalking_python.Http.Logs.{IsBatched, report_log-IsBatched}
use skywalking_python.Http.Aio.{Event, offers, resumes, history}
use skywalking_python.Http.Aio.Held.{logs_held}

abbrev waiting : Queue ℕ
waiting = record { maxsize = 3; items = 7 ∷ 8 ∷ []; unfinished = 2 }

-- The second post raises; the fourth round would come after the timeout of a second.
abbrev rounds : List Round
rounds =
    record { now = 5000; arrivals = 9 ∷ 10 ∷ []; answers = true }
    ∷ record { now = 5400; arrivals = []; answers = false }
    ∷ record { now = 5900; arrivals = []; answers = true }
    ∷ record { now = 6000; arrivals = 11 ∷ []; answers = true }
    ∷ []

segments_posted : (report_segment 1 rounds waiting).posted ≡ 7 ∷ []
unfolding report_segment
segments_posted = refl

segments_lost : (report_segment 1 rounds waiting).lost ≡ 8 ∷ []
unfolding report_segment
segments_lost = refl

logs_posted : (report_log 1 true rounds waiting).posted ≡ 7 ∷ 8 ∷ 9 ∷ []
unfolding report_log
logs_posted = refl

report_segment-IsReported_example : IsReported (7 ∷ 8 ∷ []) (report_segment 1 rounds waiting)
report_segment-IsReported_example = report_segment-IsReported 1 rounds waiting refl

report_log-IsBatched_example : IsBatched false (7 ∷ 8 ∷ []) (report_log 1 false rounds waiting)
report_log-IsBatched_example = report_log-IsBatched 1 false rounds waiting refl

abbrev events : List Event
events = offers 9 ∷ resumes true ∷ resumes true ∷ resumes true ∷ resumes true ∷ offers 10 ∷ []

logs_held_example :
    ((history events (fresh waiting)).posted ≡ [])
    × ((history events (fresh waiting)).batch ++ (history events (fresh waiting)).queue.items
        ≡ 7 ∷ 8 ∷ [] ++ (history events (fresh waiting)).came)
logs_held_example = logs_held events waiting refl
