-- ===== src/Command.antt =====
-- skywalking/command: commands from the backend, from their deserialization to their execution.
pub mod Dispatch
mod Tests
use skywalking_python.Prelude.{
  ℕ, suc, ◌+◌, ◌≡◌, Bool, true, false, ◌||◌, Option, none, some, List, [], ◌∷◌, ◌++◌, length,
  if◌then◌else◌, ltb, Text, codes, text_eq, ◌==◌,
}
use skywalking_python.Prelude.Int.{ℤ, pos, ◌-ℤ◌}
use skywalking_python.Prelude.Result.{Result, ok, err, type_error, value_error, ◌>>=◌}
use skywalking_python.Trace.Carrier.{Unicode, int_of_text}
use skywalking_python.Profile.Task.{ProfileTask}
use skywalking_python.Profile.Service.{Service, add_profile_task}

-- `Command` of the protocol: its name and its pairs
pub record Message : Type 0 where
  pub command : Text
  pub args : List (Text × Text)

-- `ProfileTaskCommand`, whose fields are the texts of the pairs
pub record ProfileTaskCommand : Type 0 where
  pub serial_number : Option Text
  pub task_id : Option Text
  pub endpoint_name : Option Text
  pub duration : Option Text
  pub min_duration_threshold : Option Text
  pub dump_period : Option Text
  pub max_sampling_count : Option Text
  pub start_time : Option Text
  pub create_time : Option Text

blank : ProfileTaskCommand
blank = record {
  serial_number = none;
  task_id = none;
  endpoint_name = none;
  duration = none;
  min_duration_threshold = none;
  dump_period = none;
  max_sampling_count = none;
  start_time = none;
  create_time = none;
}

read_pair : Text → Text → ProfileTaskCommand → ProfileTaskCommand
read_pair key value c =
    if text_eq key (codes "SerialNumber")
    then record c { serial_number = some value }
    else if text_eq key (codes "EndpointName")
    then record c { endpoint_name = some value }
    else if text_eq key (codes "TaskId")
    then record c { task_id = some value }
    else if text_eq key (codes "Duration")
    then record c { duration = some value }
    else if text_eq key (codes "MinDurationThreshold")
    then record c { min_duration_threshold = some value }
    else if text_eq key (codes "DumpPeriod")
    then record c { dump_period = some value }
    else if text_eq key (codes "MaxSamplingCount")
    then record c { max_sampling_count = some value }
    else if text_eq key (codes "StartTime")
    then record c { start_time = some value }
    else if text_eq key (codes "CreateTime")
    then record c { create_time = some value }
    else c

-- `ProfileTaskCommand.deserialize`
pub read_pairs : List (Text × Text) → ProfileTaskCommand → ProfileTaskCommand
unfolding read_pair
read_pairs [] c = c
read_pairs ((key, value) ∷ args) c = read_pairs args (read_pair key value c)

-- `CommandDeserializer.deserialize`: `none` is `UnsupportedCommandException`.
pub deserialize : Message → Option ProfileTaskCommand
unfolding read_pairs blank
deserialize m =
    if text_eq m.command (codes "ProfileTaskQuery") then some (read_pairs m.args blank) else none

same_serial : Option Text → Option Text → Bool
same_serial none none = true
same_serial (some a) (some b) = text_eq a b
same_serial _ _ = false

-- `CommandSerialNumberCache`
abbrev pub Cache : Type 0
Cache = List (Option Text)

abbrev pub maxlen : ℕ
maxlen = 64

drop_first : Cache → Cache
drop_first [] = []
drop_first (x ∷ xs) = xs

-- `CommandSerialNumberCache.add`: a full deque gives up its first.
pub add : Option Text → Cache → Cache
unfolding drop_first
add number q = (if ltb (length q) maxlen then q else drop_first q) ++ number ∷ []

-- `CommandSerialNumberCache.contains`
unfoldable pub contains : Option Text → Cache → Bool
unfolding same_serial
contains number [] = false
contains number (x ∷ xs) = same_serial x number || contains number xs

pub record CommandService : Type 0 where
  pub commands : List ProfileTaskCommand
  pub cache : Cache
  pub profile : Service
  pub next_task : ℕ

-- The loop of `receive_command`: an unsupported command, or one that was executed, is skipped.
accept : Option ProfileTaskCommand → CommandService → CommandService
accept none s = s
accept (some c) s =
    if contains c.serial_number s.cache then s else record s { commands = s.commands ++ c ∷ [] }

pub receive_command : List Message → CommandService → CommandService
unfolding accept
receive_command [] s = s
receive_command (m ∷ ms) s = receive_command ms (accept (deserialize m) s)

module _ (u : Unicode) where
  negate_int : Result ℤ → Result ℤ
  negate_int (ok n) = ok (pos 0 -ℤ n)
  negate_int (err e) = err e

  -- `int(s)` of digits with a sign before them or none. Spaces around a number and underscores
  -- within, which `int` also reads, are not modelled: they are a `ValueError` here.
  unfoldable pub signed_int : Text → Result ℤ
  unfolding negate_int
  signed_int [] = err value_error
  signed_int (c ∷ s) =
      if c == b'-'
      then negate_int (int_of_text u s)
      else if c == b'+'
      then int_of_text u s
      else int_of_text u (c ∷ s)

  -- `int(x)` of a field, which is a text or `None`
  int_field : Option Text → Result ℤ
  int_field none = err type_error
  int_field (some t) = signed_int t

  -- `str(x)` of a field
  str_field : Option Text → Text
  str_field none = codes "None"
  str_field (some t) = t

  -- `ProfileTaskCommandExecutor.execute`: the task, as `ProfileTask.__init__` makes it.
  unfoldable pub task_of_command : ProfileTaskCommand → Result ProfileTask
  unfolding int_field str_field signed_int
  task_of_command c = do
    duration ← int_field c.duration
    min_duration_threshold ← int_field c.min_duration_threshold
    thread_dump_period ← int_field c.dump_period
    max_sampling_count ← int_field c.max_sampling_count
    start_time ← int_field c.start_time
    create_time ← int_field c.create_time
    ok (record {
      task_id = str_field c.task_id;
      first_span_op_name = str_field c.endpoint_name;
      duration = duration;
      min_duration_threshold = min_duration_threshold;
      thread_dump_period = thread_dump_period;
      max_sampling_count = max_sampling_count;
      start_time = start_time;
      create_time = create_time;
    })

  execute_task :
      Option Text → ℤ → Result ProfileTask → CommandService → Result (Unit {0}) × CommandService
  execute_task serial now (err e) s = (err e, s)
  execute_task serial now (ok t) s = (
    ok tt,
    record s {
      profile = add_profile_task (record { address = s.next_task; task = t }) now s.profile;
      next_task = s.next_task + 1;
      cache = add serial s.cache;
    },
  )

  -- One round of `dispatch` at time `now`: the queue blocks while it is empty, and an exception
  -- ends the thread.
  dispatch_from : ℤ → List ProfileTaskCommand → CommandService → Result (Unit {0}) × CommandService
  unfolding execute_task
  dispatch_from now [] s = (ok tt, s)
  dispatch_from now (c ∷ rest) s =
      let t = record s { commands = rest } in
      if contains c.serial_number s.cache
      then (ok tt, t)
      else execute_task c.serial_number now (task_of_command c) t

  unfoldable pub dispatch : ℤ → CommandService → Result (Unit {0}) × CommandService
  unfolding dispatch_from execute_task
  dispatch now s = dispatch_from now s.commands s
