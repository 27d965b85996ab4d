-- ===== src/Grpc/Connection.antt =====
-- skywalking/agent/protocol/grpc.py and skywalking/client/grpc.py: the connection to the collector,
-- as `GrpcProtocol` sees it, with registration and heartbeats. Neither holds a lock: the heartbeat is a
-- thread that takes steps, from one access of a shared field or call of a stub to the next, and the
-- callback of grpc's thread runs between them. Which calls of the stubs fail, and how, is an argument.
pub mod Registration
use skywalking_python.Prelude.{
  ℕ, zero, suc, ◌+◌, ◌-◌, ◌%◌, Bool, true, false, ◌&&◌, not, Option, none, some, List, [], ◌∷◌,
  if◌then◌else◌, ◌==◌, is_some,
}
use skywalking_python.Grpc.Connectivity.{
  Connectivity, idle, ready, is_ready_state, StatusCode, ConnectivityLog,
  apply_connectivity_transition, is_auth_rpc_error, log_auth_failure_throttled,
}

-- What happened on the connection, the newest first: a call of `reportInstanceProperties` or of
-- `keepAlive` that was answered or failed, the loss of READY, and the flag being set.
pub data Entry : Type 0 where
  properties : (answered : Bool) → Entry
  ping : (answered : Bool) → Entry
  left_ready marked : Entry

-- Where the heartbeat is: at rest; behind `is_ready`; in the call of `send_instance_props`; behind its
-- answer; before `send_heart_beat`; in its refresh of the properties; and in its ping.
pub data Stage : Type 0 where
  resting gated registering answered beating refreshing pinging : Stage

-- The fields of `GrpcProtocol` and of its `GrpcServiceManagementClient`, the state that a callback under
-- way will store, the heartbeat and how many heartbeats raised, how often the callback is subscribed,
-- and the time.
pub record Connection : Type 0 where
  pub properties_sent : Bool
  pub state : Option Connectivity
  pub sent_properties_counter : ℕ
  pub noticing : Option Connectivity
  pub stage : Stage
  pub raised : ℕ
  pub subscriptions : ℕ
  pub nudges : ℕ
  pub log : ConnectivityLog
  pub now : ℕ
  pub entries : List Entry

-- A state that may not be known yet, as `None`
abbrev pub is_ready_option : Option Connectivity → Bool
is_ready_option none = false
is_ready_option (some s) = is_ready_state s

abbrev pub is_idle_option : Option Connectivity → Bool
is_idle_option (some idle) = true
is_idle_option _ = false

-- `_cb` but for its last line; grpc makes one call of it at a time.
unfoldable pub cb : Connectivity → Connection → Connection
cb s c =
    let left = is_ready_option c.state && not (is_ready_state s) in
    if is_some c.noticing then c else record c {
      log = apply_connectivity_transition c.state s c.now c.log;
      properties_sent = if left then false else c.properties_sent;
      sent_properties_counter = if left then 0 else c.sent_properties_counter;
      entries = if left then left_ready ∷ c.entries else c.entries;
      noticing = some s;
    }

cb_state_of : Option Connectivity → Connection → Connection
cb_state_of none c = c
cb_state_of (some s) c = record c { state = some s; noticing = none }

-- `self.state = state`
unfoldable pub cb_state : Connection → Connection
unfolding cb_state_of
cb_state c = cb_state_of c.noticing c

-- `on_error`: the callback is taken off the channel and put on it again.
unfoldable pub on_error : Connection → Connection
on_error c = record c { subscriptions = c.subscriptions - 1 + 1 }

-- `handle_rpc_error`
unfoldable pub handle_rpc_error : Option StatusCode → Connection → Connection
unfolding on_error
handle_rpc_error e c =
    if is_auth_rpc_error e
    then record c { log = log_auth_failure_throttled c.now c.log }
    else on_error c

-- `is_ready`, at the start of the heartbeat: an idle channel is asked to connect; the state is what the
-- callback last stored.
unfoldable pub is_ready : Connection → Connection
is_ready c = record c {
  nudges = if is_idle_option c.state then c.nudges + 1 else c.nudges;
  stage = if is_ready_option c.state then gated else resting;
}

-- `refresh_instance_props` up to its call, where the modulus `factor` is
-- `config.agent_collector_properties_report_period_factor`
unfoldable pub refresh_instance_props : ℕ → Connection → Connection
refresh_instance_props zero c = record c {
  sent_properties_counter = c.sent_properties_counter + 1;
  stage = resting;
  raised = c.raised + 1;
}
refresh_instance_props (suc m) c = record c {
  sent_properties_counter = c.sent_properties_counter + 1;
  stage = if (c.sent_properties_counter + 1) % suc m == 0 then refreshing else pinging;
}

heartbeat_at : Stage → ℕ → Connection → Connection
unfolding is_ready refresh_instance_props
heartbeat_at resting factor c = is_ready c
heartbeat_at gated factor c = record c {
  stage = if c.properties_sent then beating else registering;
}
heartbeat_at answered factor c = record c {
  properties_sent = true;
  entries = marked ∷ c.entries;
  stage = beating;
}
heartbeat_at beating factor c = refresh_instance_props factor c
heartbeat_at _ factor c = c

-- The next step of `heartbeat`, unless it waits for a call
unfoldable pub heartbeat : ℕ → Connection → Connection
unfolding heartbeat_at
heartbeat factor c = heartbeat_at c.stage factor c

noted : Entry → Connection → Connection
noted e c = record c { entries = e ∷ c.entries }

-- The registration ends: an error is handled and gone.
registered_by : Option (Option StatusCode) → Connection → Connection
unfolding noted handle_rpc_error
registered_by none c = record (noted (properties true) c) { stage = answered }
registered_by (some e) c = record (handle_rpc_error e (noted (properties false) c)) {
  stage = beating;
}

-- The ping ends: an error is handled and raised.
pinged_by : Option (Option StatusCode) → Connection → Connection
unfolding noted handle_rpc_error
pinged_by none c = record (noted (ping true) c) { stage = resting }
pinged_by (some e) c = record (handle_rpc_error e (noted (ping false) c)) {
  stage = resting;
  raised = c.raised + 1;
}

call_ends_at : Stage → Option (Option StatusCode) → Connection → Connection
unfolding registered_by pinged_by noted
call_ends_at registering r c = registered_by r c
call_ends_at refreshing r c = record (noted (properties (not (is_some r))) c) { stage = pinging }
call_ends_at pinging r c = pinged_by r c
call_ends_at _ r c = c

-- The call that the heartbeat waits for ends: `none` is an answer, and else a `grpc.RpcError` with or
-- without a code. An error of the refresh is logged and gone.
unfoldable pub call_ends : Option (Option StatusCode) → Connection → Connection
unfolding call_ends_at
call_ends r c = call_ends_at c.stage r c
