-- ===== src/Grpc/Aio.antt =====
-- skywalking/agent/protocol/grpc_aio.py and skywalking/client/grpc_aio.py: the connection of the
-- asyncio agent. The heartbeat is a task that waits for its calls, and the watch of the channel runs
-- between: each stretch from one `await` to the next is a step.
pub mod Watching
mod Tests
use skywalking_python.Prelude.{
  ℕ, zero, suc, ◌+◌, ◌%◌, Bool, true, false, ◌&&◌, not, Option, none, some, List, [], ◌∷◌,
  if◌then◌else◌, ◌==◌, is_some,
}
use skywalking_python.Grpc.Connectivity.{
  Connectivity, idle, is_ready_state, StatusCode, ConnectivityLog, apply_connectivity_transition,
  is_auth_rpc_error, log_auth_failure_throttled,
}
use skywalking_python.Grpc.Connection.{Entry, properties, ping, left_ready, is_ready_option}

-- What the heartbeat waits for: the registration, the refresh of the properties, or the ping.
pub data Stage : Type 0 where
  resting registering refreshing pinging : Stage

-- The fields of `GrpcProtocolAsync` and of its service management client, the heartbeat, how many
-- heartbeats raised, and what happened on the connection, the newest first.
pub record AioConnection : Type 0 where
  pub properties_sent : Bool
  pub state : Option Connectivity
  pub sent_properties_counter : ℕ
  pub log : ConnectivityLog
  pub now : ℕ
  pub stage : Stage
  pub raised : ℕ
  pub entries : List Entry

-- `_on_connectivity`
unfoldable pub on_connectivity : Connectivity → AioConnection → AioConnection
on_connectivity s c =
    let left = is_ready_option c.state && not (is_ready_state s) in
    record c {
      log = apply_connectivity_transition c.state s c.now c.log;
      properties_sent = if left then false else c.properties_sent;
      sent_properties_counter = if left then 0 else c.sent_properties_counter;
      entries = if left then left_ready ∷ c.entries else c.entries;
      state = some s;
    }

-- `self.state in (None, IDLE)`
abbrev pub wants_peek : Option Connectivity → Bool
wants_peek none = true
wants_peek (some idle) = true
wants_peek _ = false

abbrev pub peek_from : Option Connectivity → AioConnection → AioConnection
peek_from none c = c
peek_from (some s) c = on_connectivity s c

-- `is_ready`, with what `get_state` answers: `none` is no state, or an exception.
unfoldable pub peeked : Option Connectivity → AioConnection → AioConnection
unfolding on_connectivity
peeked peek c = if wants_peek c.state then peek_from peek c else c

-- From the `try` around `send_heart_beat` to the first call that is awaited; the modulus `factor` is
-- `config.agent_collector_properties_report_period_factor`.
unfoldable pub beat : ℕ → AioConnection → AioConnection
beat zero c = record c {
  sent_properties_counter = c.sent_properties_counter + 1;
  stage = resting;
  raised = c.raised + 1;
}
beat (suc m) c =
    let counter = c.sent_properties_counter + 1 in
    record c {
      sent_properties_counter = counter;
      stage = if counter % suc m == 0 then refreshing else pinging;
    }

register_or_beat : ℕ → AioConnection → AioConnection
unfolding beat
register_or_beat factor c =
    if c.properties_sent then beat factor c else record c { stage = registering }

start_at : Stage → ℕ → Option Connectivity → AioConnection → AioConnection
unfolding peeked register_or_beat
start_at resting factor peek c =
    let d = peeked peek c in if is_ready_option d.state then register_or_beat factor d else d
start_at _ factor peek c = c

-- `heartbeat` up to its first `await`; the next one starts when the last has ended.
unfoldable pub start : ℕ → Option Connectivity → AioConnection → AioConnection
unfolding start_at
start factor peek c = start_at c.stage factor peek c

-- `handle_rpc_error`, where `on_error` only prints
unfoldable pub handle_rpc_error : Option StatusCode → AioConnection → AioConnection
handle_rpc_error e c =
    if is_auth_rpc_error e then record c { log = log_auth_failure_throttled c.now c.log } else c

noted : Entry → AioConnection → AioConnection
noted e c = record c { entries = e ∷ c.entries }

-- The registration has ended: an error is handled, and the ping follows.
registered_by : ℕ → Option (Option StatusCode) → AioConnection → AioConnection
unfolding beat handle_rpc_error
registered_by factor none c = beat factor (record c { properties_sent = true })
registered_by factor (some e) c = beat factor (handle_rpc_error e c)

-- The ping has ended: an error is handled and raised.
pinged_by : Option (Option StatusCode) → AioConnection → AioConnection
unfolding handle_rpc_error
pinged_by none c = c
pinged_by (some e) c = let d = handle_rpc_error e c in record d { raised = d.raised + 1 }

-- The call that the heartbeat waits for ends: `none` is an answer, and else an `RpcError`.
ended_at : Stage → ℕ → Option (Option StatusCode) → AioConnection → AioConnection
unfolding registered_by pinged_by noted
ended_at resting factor r c = c
ended_at registering factor r c = registered_by factor r (noted (properties (not (is_some r))) c)
ended_at refreshing factor r c = record (noted (properties (not (is_some r))) c) { stage = pinging }
ended_at pinging factor r c =
    pinged_by r (record (noted (ping (not (is_some r))) c) { stage = resting })

unfoldable pub call_ends : ℕ → Option (Option StatusCode) → AioConnection → AioConnection
unfolding ended_at
call_ends factor r c = ended_at c.stage factor r c

-- The task of the heartbeat is cancelled.
unfoldable pub cancel : AioConnection → AioConnection
cancel c = record c { stage = resting }
