-- ===== src/Command/Tests.antt =====
-- The theorems of the command service at concrete inputs.
use skywalking_python.Prelude.{false, some, none, [], ◌∷◌, codes, arith}
use skywalking_python.Prelude.Int.{pos, negsuc}
use skywalking_python.Trace.Fixtures.{unicode}
use skywalking_python.Profile.Service.{Service}
use skywalking_python.Command.{Message, ProfileTaskCommand, CommandService}
use skywalking_python.Command.Dispatch.{receives, dispatches, traffic, IsSound, traffic-IsSound}

abbrev service : Service
service = record {
  profile_task_list = [];
  last_command_create_time = negsuc 0;
  task_execution_context = record { var = none };
  contexts = λ c. record {
    task = record {
      address = 0;
      task = record {
        task_id = [];
        first_span_op_name = [];
        duration = pos 0;
        min_duration_threshold = pos 0;
        thread_dump_period = pos 0;
        max_sampling_count = pos 0;
        start_time = pos 0;
        create_time = pos 0;
      };
    };
    stop_event = false;
  };
  next_context = 0;
  timers = [];
  notified = [];
}

abbrev command : ProfileTaskCommand
command = record {
  serial_number = some (codes "n1");
  task_id = some (codes "1");
  endpoint_name = some (codes "/op");
  duration = some (codes "5");
  min_duration_threshold = some (codes "0");
  dump_period = some (codes "10");
  max_sampling_count = some (codes "5");
  start_time = some (codes "1000");
  create_time = some (codes "900");
}

abbrev idle : CommandService
idle = record { commands = command ∷ command ∷ []; cache = []; profile = service; next_task = 0 }

message : Message
message = record {
  command = codes "ProfileTaskQuery";
  args = (codes "SerialNumber", codes "n2") ∷ [];
}

idle-IsSound : IsSound []
idle-IsSound = record { distinct = tt; bounded = omega arith }

traffic-IsSound_example :
    IsSound
      (traffic unicode
        (dispatches (pos 950) ∷ receives (message ∷ []) ∷ dispatches (pos 960) ∷ [])
        idle).cache
traffic-IsSound_example =
    traffic-IsSound unicode
      (dispatches (pos 950) ∷ receives (message ∷ []) ∷ dispatches (pos 960) ∷ []) idle idle-IsSound
