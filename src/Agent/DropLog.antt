-- ===== src/Agent/DropLog.antt =====
-- skywalking/utils/reporter_log.py: what was dropped is counted at once and logged at most once in
-- thirty seconds. Times are milliseconds of the monotonic clock; a kind that was never logged
-- counts as logged at time 0, as in the source.
use skywalking_python.Prelude.{
  ℕ, ◌+◌, ◌-◌, ◌≤◌, ◌<◌, ◌≡◌, Bool, true, false, ◌&&◌, not, Option, none, some, List, [], ◌∷◌,
  arith, leb, ltb, if◌then◌else◌, Text, text_eq_self, text_eq,
}
use skywalking_python.Prelude.Dict.{Dict, lookup, insert, lookup-insert}

-- `_last_drop_log_at`, `_drop_totals`, `_drop_logged_totals`, `_last_reporter_log_at`
pub record DropLog : Type 0 where
  pub last_drop_log_at : Dict ℕ
  pub drop_totals : Dict ℕ
  pub drop_logged_totals : Dict ℕ
  pub last_reporter_log_at : Dict ℕ

abbrev pub fresh : DropLog
fresh = record {
  last_drop_log_at = [];
  drop_totals = [];
  drop_logged_totals = [];
  last_reporter_log_at = [];
}

-- `d.get(kind, 0)`
abbrev or_zero : Option ℕ → ℕ
or_zero none = 0
or_zero (some n) = n

pub get_or_zero : Text → Dict ℕ → ℕ
unfolding lookup
get_or_zero k d = or_zero (lookup k d)

abbrev pub interval : ℕ
interval = 30000

-- A line of the log: the increment since the last line, and the total.
pub record Line : Type 0 where
  pub delta : ℕ
  pub total : ℕ

-- `log_dropped_throttled(kind, count, force=force)` at time `now`, with the line that it logs.
unfoldable pub log_dropped_throttled : Text → ℕ → Bool → ℕ → DropLog → Option Line × DropLog
log_dropped_throttled kind count force now s =
    if leb count 0
    then (none, s)
    else let total = get_or_zero kind s.drop_totals + count in
      let counted = record s { drop_totals = insert kind total s.drop_totals } in
      if not force && ltb (now - get_or_zero kind s.last_drop_log_at) interval
      then (none, counted)
      else (
        some (record { delta = total - get_or_zero kind s.drop_logged_totals; total = total }),
        record counted {
          drop_logged_totals = insert kind total s.drop_logged_totals;
          last_drop_log_at = insert kind now s.last_drop_log_at;
        },
      )

-- `log_reporter_exception_throttled`: whether the exception is logged.
unfoldable pub log_reporter_exception_throttled : Text → ℕ → DropLog → Bool × DropLog
log_reporter_exception_throttled reporter_name now s =
    if ltb (now - get_or_zero reporter_name s.last_reporter_log_at) interval
    then (false, s)
    else (true, record s { last_reporter_log_at = insert reporter_name now s.last_reporter_log_at })

-- One call: its count, whether it is forced, and its time.
pub record Call : Type 0 where
  pub count : ℕ
  pub force : Bool
  pub now : ℕ

-- What a run of calls for one kind drops, and what its lines report.
abbrev pub dropped : List Call → ℕ
dropped [] = 0
dropped (c ∷ cs) = c.count + dropped cs

abbrev pub reported_by : Option Line → ℕ
reported_by none = 0
reported_by (some l) = l.delta

pub run : Text → List Call → DropLog → ℕ × DropLog
run kind [] s = (0, s)
run kind (c ∷ cs) s =
    let (line, s') = log_dropped_throttled kind c.count c.force c.now s in
    let (rest, s'') = run kind cs s' in (reported_by line + rest, s'')

-- What is counted for a kind and not yet in a line.
pub pending : Text → DropLog → ℕ
pending kind s = get_or_zero kind s.drop_totals - get_or_zero kind s.drop_logged_totals

-- No kind has more logged than counted.
pub record IsConsistent (kind : Text) (s : DropLog) : Type 0 where
  pub logged_le : get_or_zero kind s.drop_logged_totals ≤ get_or_zero kind s.drop_totals

pub get_or_zero-insert_self : (k : Text) (v : ℕ) (d : Dict ℕ) → get_or_zero k (insert k v d) ≡ v
unfolding get_or_zero
get_or_zero-insert_self k v d = ground (arith, lookup-insert k k v d, text_eq_self k)

-- What is counted, whether it is logged or not.
pub drop_totals-log_dropped :
    (kind : Text) (n : ℕ) (force : Bool) (now : ℕ) (s : DropLog)
    → get_or_zero kind (log_dropped_throttled kind n force now s).1.drop_totals
      ≡ get_or_zero kind s.drop_totals + n
unfolding log_dropped_throttled
drop_totals-log_dropped kind n force now s = grind (arith, get_or_zero-insert_self)

get_or_zero-insert_other :
    (k j : Text) (v : ℕ) (d : Dict ℕ)
    → text_eq k j ≡ false
    → get_or_zero j (insert k v d) ≡ get_or_zero j d
unfolding get_or_zero
get_or_zero-insert_other k j v d h = ground (arith, lookup-insert k j v d)

-- Another kind is not counted.
pub drop_totals_other :
    (kind other : Text) (n : ℕ) (force : Bool) (now : ℕ) (s : DropLog)
    → text_eq kind other ≡ false
    → get_or_zero other (log_dropped_throttled kind n force now s).1.drop_totals
      ≡ get_or_zero other s.drop_totals
unfolding log_dropped_throttled
drop_totals_other kind other n force now s h = ground (
  arith,
  get_or_zero-insert_other kind other (get_or_zero kind s.drop_totals + n) s.drop_totals h,
)

module _ (kind : Text) (c : Call) (s : DropLog) where
  abbrev step : Option Line × DropLog
  step = log_dropped_throttled kind c.count c.force c.now s

  step-IsConsistent : IsConsistent kind s → IsConsistent kind step.1
  unfolding log_dropped_throttled
  step-IsConsistent h = grind (arith, get_or_zero-insert_self)

  -- Every drop is either in the line of its call or still pending.
  step_conserves :
      IsConsistent kind s → pending kind s + c.count ≡ reported_by step.0 + pending kind step.1
  unfolding log_dropped_throttled pending
  step_conserves h = grind (arith, get_or_zero-insert_self)

-- Where no more of a kind was logged than counted, the lines of any run of calls for the kind
-- report each drop exactly once: what was pending before and what was dropped is what the lines
-- say, and what is still pending.
pub run_conserves :
    (kind : Text) (cs : List Call) (s : DropLog)
    → IsConsistent kind s
    → pending kind s + dropped cs ≡ (run kind cs s).0 + pending kind (run kind cs s).1
unfolding run
run_conserves kind [] s h = omega arith
run_conserves kind (c ∷ cs) s h =
    let next = (log_dropped_throttled kind c.count c.force c.now s).1 in
    omega
      (arith, step_conserves kind c s h, run_conserves kind cs next (step-IsConsistent kind c s h))

-- A forced call leaves nothing pending, whenever it comes.
pub force_flushes :
    (kind : Text) (count now : ℕ) (s : DropLog)
    → 0 < count
    → pending kind (log_dropped_throttled kind count true now s).1 ≡ 0
unfolding log_dropped_throttled pending
force_flushes kind count now s h = grind (arith, get_or_zero-insert_self)
