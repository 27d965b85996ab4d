-- ===== src/Profile/Task.antt =====
-- skywalking/profile/profile_task.py and profile_constants.py, `_check_profile_task` of
-- profile_service.py, and the status of profile_status.py.
use skywalking_python.Prelude.{
  ◌+◌, ◌*◌, ◌≡◌, refl, Bool, true, false, ◌&&◌, ◌||◌, Option, none, some, List, [], ◌∷◌, All, arith,
  if◌then◌else◌, Text, is_empty, ◌↔◌,
}
use skywalking_python.Prelude.Int.{ℤ, pos, negsuc, ◌+ℤ◌, ◌<ℤ◌, ◌≤ℤ◌, ltb_ℤ, leb_ℤ, +ℤ_parts}

-- `ProfileStatus`
pub data Status : Type 0 where
  none_status pending profiling stopped : Status

-- `ProfileStatusReference.is_being_watched`
abbrev pub is_being_watched : Status → Bool
is_being_watched none_status = false
is_being_watched _ = true

-- `ProfileTask`, whose numbers have been through `int`
pub record ProfileTask : Type 0 where
  pub task_id : Text
  pub first_span_op_name : Text
  pub duration : ℤ
  pub min_duration_threshold : ℤ
  pub thread_dump_period : ℤ
  pub max_sampling_count : ℤ
  pub start_time : ℤ
  pub create_time : ℤ

-- `ProfileConstants`
abbrev pub task_duration_min_minute : ℤ
task_duration_min_minute = pos 1

abbrev pub task_duration_max_minute : ℤ
task_duration_max_minute = pos 15

abbrev pub task_dump_period_min_millis : ℤ
task_dump_period_min_millis = pos 10

abbrev pub task_max_sampling_count : ℤ
task_max_sampling_count = pos 10

-- `MINUTE_TO_MILLIS` times a number of minutes
abbrev pub minutes : ℤ → ℤ
minutes (pos n) = pos (n * 60000)
minutes (negsuc n) = negsuc (n * 60000 + 59999)

-- `_cal_profile_task_finish_time`
pub finish_time : ProfileTask → ℤ
finish_time t = t.start_time +ℤ minutes t.duration

-- Why a task is refused.
pub data Reason : Type 0 where
  endpoint_name duration_min duration_max threshold dump_period : Reason
  sampling_min sampling_max overlap : Reason

-- The loop over the tasks of the list.
overlaps : ProfileTask → List ProfileTask → Bool
overlaps t [] = false
overlaps t (p ∷ ps) =
    (leb_ℤ t.start_time (finish_time t) && leb_ℤ (finish_time t) (finish_time p)) || overlaps t ps

-- `_check_profile_task`: `none` is `(True, '')`.
unfoldable pub check_profile_task : ProfileTask → List ProfileTask → Option Reason
unfolding overlaps
check_profile_task t listed =
    if is_empty t.first_span_op_name
    then some endpoint_name
    else if ltb_ℤ t.duration task_duration_min_minute
    then some duration_min
    else if ltb_ℤ task_duration_max_minute t.duration
    then some duration_max
    else if ltb_ℤ t.min_duration_threshold (pos 0)
    then some threshold
    else if ltb_ℤ t.thread_dump_period task_dump_period_min_millis
    then some dump_period
    else if leb_ℤ t.max_sampling_count (pos 0)
    then some sampling_min
    else if leb_ℤ task_max_sampling_count t.max_sampling_count
    then some sampling_max
    else if overlaps t listed
    then some overlap
    else none

-- A task that the check accepts, beside the tasks of the list.
pub record IsAcceptable (t : ProfileTask) (listed : List ProfileTask) : Type 0 where
  pub named : is_empty t.first_span_op_name ≡ false
  pub lasts : (pos 1 ≤ℤ t.duration) × (t.duration ≤ℤ pos 15)
  pub waits : pos 0 ≤ℤ t.min_duration_threshold
  pub dumps : pos 10 ≤ℤ t.thread_dump_period
  pub samples : (pos 1 ≤ℤ t.max_sampling_count) × (t.max_sampling_count ≤ℤ pos 9)
  pub ends_last : All (λ p. finish_time p <ℤ finish_time t) listed

overlaps_none :
    (t : ProfileTask) (listed : List ProfileTask)
    → t.start_time ≤ℤ finish_time t
    → (overlaps t listed ≡ false) ↔ All (λ p. finish_time p <ℤ finish_time t) listed
unfolding overlaps
overlaps_none t [] h = (λ e. tt, λ e. refl)
overlaps_none t (p ∷ ps) h =
    let rest = overlaps_none t ps h in
    (λ e. ground (arith, rest.0), λ e. ground (arith, rest.1 e.1))

minutes_pos : (n : ℤ) → pos 1 ≤ℤ n → pos 0 ≤ℤ minutes n
minutes_pos (pos n) h = omega arith
minutes_pos (negsuc n) h = omega arith

finish_time-ge : (t : ProfileTask) → pos 1 ≤ℤ t.duration → t.start_time ≤ℤ finish_time t
unfolding finish_time
finish_time-ge t h =
    ground (arith, +ℤ_parts t.start_time (minutes t.duration), minutes_pos t.duration h)

-- The check accepts a task exactly when it has a name, its duration is from 1 to 15 minutes, both
-- included, its other numbers are in their ranges, and it ends after every task of the list. Two
-- comments of the source say otherwise: that a duration is greater than 1 minute, and that a task is
-- refused for an end during another task.
pub check_profile_task_iff :
    (t : ProfileTask) (listed : List ProfileTask)
    → (check_profile_task t listed ≡ none) ↔ IsAcceptable t listed
unfolding check_profile_task
check_profile_task_iff t listed = (
  λ e. record {
    named = ground arith;
    lasts = ground arith;
    waits = ground arith;
    dumps = ground arith;
    samples = ground arith;
    ends_last = (overlaps_none t listed (finish_time-ge t (ground arith))).0 (ground arith);
  },
  λ h. ground (
    arith,
    h.named,
    h.lasts,
    h.waits,
    h.dumps,
    h.samples,
    (overlaps_none t listed (finish_time-ge t h.lasts.0)).1 h.ends_last,
  ),
)
