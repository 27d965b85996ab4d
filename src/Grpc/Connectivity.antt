-- ===== src/Grpc/Connectivity.antt =====
-- skywalking/utils/grpc_channel.py: what a change of the channel's connectivity, or a failed call,
-- leads to. Times are milliseconds of the monotonic clock.
use skywalking_python.Prelude.{
  ℕ, ◌+◌, ◌-◌, ◌*◌, Bool, true, false, Option, some, List, ◌∷◌, if◌then◌else◌, ltb, max, Text,
  codes,
}
use skywalking_python.Prelude.Dict.{Dict, insert}
use skywalking_python.Agent.DropLog.{get_or_zero}

-- `grpc.ChannelConnectivity`
pub data Connectivity : Type 0 where
  idle connecting ready transient_failure shutdown : Connectivity

abbrev pub is_ready_state : Connectivity → Bool
is_ready_state ready = true
is_ready_state _ = false

-- What `code()` of an error answers, where it can be called: the codes that are told apart.
pub data StatusCode : Type 0 where
  unauthenticated permission_denied other_code : StatusCode

-- `grpc_call_timeout`, in milliseconds, of an `agent_queue_timeout` in seconds
pub grpc_call_timeout : ℕ → ℕ
grpc_call_timeout agent_queue_timeout = max 10000 (agent_queue_timeout * 1000 + 5000)

-- `_last_auth_log_at` and `_last_connectivity_log_at`, and the lines logged
pub record ConnectivityLog : Type 0 where
  pub last_auth_log_at : ℕ
  pub last_connectivity_log_at : Dict ℕ
  pub lines : List Text

-- `log_connectivity_event`
unfoldable pub log_connectivity_event : Text → ℕ → ConnectivityLog → ConnectivityLog
log_connectivity_event kind now l =
    if ltb (now - get_or_zero kind l.last_connectivity_log_at) 30000 then l else record l {
      last_connectivity_log_at = insert kind now l.last_connectivity_log_at;
      lines = kind ∷ l.lines;
    }

-- `apply_connectivity_transition`
unfoldable pub apply_connectivity_transition :
    Option Connectivity → Connectivity → ℕ → ConnectivityLog → ConnectivityLog
apply_connectivity_transition prev transient_failure now l =
    log_connectivity_event (codes "transient_failure") now l
apply_connectivity_transition (some ready) idle now l = log_connectivity_event (codes "idle") now l
apply_connectivity_transition (some ready) ready now l = l
apply_connectivity_transition (some shutdown) ready now l = l
apply_connectivity_transition _ ready now l = log_connectivity_event (codes "recovered") now l
apply_connectivity_transition _ _ now l = l

-- `is_auth_rpc_error`, where `none` is an error without a usable `code`
pub is_auth_rpc_error : Option StatusCode → Bool
is_auth_rpc_error (some unauthenticated) = true
is_auth_rpc_error (some permission_denied) = true
is_auth_rpc_error _ = false

-- `log_auth_failure_throttled`
unfoldable pub log_auth_failure_throttled : ℕ → ConnectivityLog → ConnectivityLog
log_auth_failure_throttled now l =
    if ltb (now - l.last_auth_log_at) 60000
    then l
    else record l { last_auth_log_at = now; lines = codes "authentication" ∷ l.lines }
