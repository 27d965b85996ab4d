-- ===== src/Agent/Lifecycle/Lineage.antt =====
-- What holds of the agent over a lineage of processes: starts, forks and pre-fork masters in
-- any order, in skywalking/agent/__init__.py.
use skywalking_python.Prelude.{
  ℕ, ◌≡◌, refl, Bool, true, false, none, some, List, [], ◌∷◌, arith, if◌then◌else◌, Text, ltb,
  Bool-cases, inl, inr, ◌∙◌,
}
use skywalking_python.Prelude.Queue
use skywalking_python.Prelude.Queue.{Queue}
use skywalking_python.Agent.DropLog
use skywalking_python.Agent.Queues.{Agent, Config, Protocol, grpc, Worker}
use skywalking_python.Agent.Lifecycle.{
  start, start_in, start_checked, fork_after_in_child, start_prefork_master, set_grpc_fork,
  init_instrumentation, init_services, bootstrap, register_fini, register_fork_hooks,
}

-- `SkyWalkingAgent.__init__`, before any start in the process.
abbrev pub created : Config → Agent
created c = record {
  config = c;
  started = false;
  started_pid = none;
  reporting = false;
  finished = false;
  at_fork_registered = false;
  fini_registered = false;
  protocol = none;
  segment_queue = Queue.fresh 0;
  log_queue = none;
  meter_queue = none;
  snapshot_queue = none;
  workers = [];
  drops = DropLog.fresh;
  installs = 0;
  atexit_handlers = 0;
  fork_hooks = 0;
  profile_services = 0;
  meter_services = 0;
  sampling_services = 0;
  grpc_fork_support = false;
  pvm_sources = 0;
}

-- What happens to the agent: a start, a fork followed into the child (whose threads are gone, and
-- where the hook runs if it was registered), or the set-up of a pre-fork master.
pub data Event : Type 0 where
  starts : ℕ → Event
  forks : ℕ → Text → Event
  prefork_master : ℕ → Event

pub apply : Event → Agent → Agent
apply (starts pid) a = (start pid a).1
apply (forks pid child) a =
    let b = record a { workers = [] } in
    if ltb 0 b.fork_hooks then (fork_after_in_child pid child b).1 else b
apply (prefork_master pid) a = start_prefork_master pid a

pub history : List Event → Agent → Agent
history [] a = a
history (e ∷ es) a = history es (apply e a)

abbrev once : Bool → ℕ
once b = if b then 1 else 0

-- Each registration and the instrumentation were made once if their flag is set, and never if it
-- is not; only a started agent reports.
pub record IsSound (a : Agent) : Type 0 where
  pub handlers : a.atexit_handlers ≡ once a.fini_registered
  pub hooks : a.fork_hooks ≡ once a.at_fork_registered
  pub instrumented : a.installs ≡ once a.started
  pub reporting_started : a.reporting ≡ true → a.started ≡ true

set_grpc_fork-IsSound : (p : Protocol) (a : Agent) → IsSound a → IsSound (set_grpc_fork p a)
unfolding set_grpc_fork
set_grpc_fork-IsSound grpc a h = ground arith
set_grpc_fork-IsSound _ a h = h

init_instrumentation-IsSound :
    (a : Agent) → a.started ≡ false → IsSound a → IsSound (init_instrumentation a)
unfolding init_instrumentation
init_instrumentation-IsSound a e h = ground arith

register_fork_hooks-IsSound : (a : Agent) → IsSound a → IsSound (register_fork_hooks a)
unfolding register_fork_hooks
register_fork_hooks-IsSound a h = ground arith

register_fini-IsSound : (a : Agent) → IsSound a → IsSound (register_fini a)
unfolding register_fini
register_fini-IsSound a h = ground arith

bootstrap-IsSound : (a : Agent) → a.started ≡ true → IsSound a → IsSound (bootstrap a)
unfolding bootstrap
bootstrap-IsSound a e h = record {
  handlers = h.handlers;
  hooks = h.hooks;
  instrumented = h.instrumented;
  reporting_started = λ _. e;
}

init_services-IsSound : (a : Agent) → IsSound a → IsSound (init_services a)
unfolding init_services
init_services-IsSound a h = record {
  handlers = h.handlers;
  hooks = h.hooks;
  instrumented = h.instrumented;
  reporting_started = h.reporting_started;
}

pid-IsSound : (pid : ℕ) (a : Agent) → IsSound a → IsSound (record a { started_pid = some pid })
pid-IsSound pid a h = record {
  handlers = h.handlers;
  hooks = h.hooks;
  instrumented = h.instrumented;
  reporting_started = h.reporting_started;
}

started-init_services : (a : Agent) → (init_services a).started ≡ a.started
unfolding init_services
started-init_services a = refl

hooks_if-IsSound :
    (b : Bool) (a : Agent) → IsSound a → IsSound (if b then register_fork_hooks a else a)
hooks_if-IsSound true a h = register_fork_hooks-IsSound a h
hooks_if-IsSound false a h = h

start_in-IsSound : (pid : ℕ) (a : Agent) → a.started ≡ true → IsSound a → IsSound (start_in pid a)
unfolding start_in
start_in-IsSound pid a e h =
    let b = record a { started_pid = some pid } in
    hooks_if-IsSound _ _ (
      register_fini-IsSound _ (
        bootstrap-IsSound (init_services b) (started-init_services b ∙ e)
          (init_services-IsSound b (pid-IsSound pid a h))))

start_checked-IsSound :
    (started same : Bool) (pid : ℕ) (a : Agent)
    → a.started ≡ started
    → IsSound a
    → IsSound (start_checked started same pid a).1
unfolding start_checked
start_checked-IsSound false same pid a e h =
    start_in-IsSound pid (init_instrumentation a) (unfold init_instrumentation in refl)
      (init_instrumentation-IsSound a e h)
start_checked-IsSound true true pid a e h = h
start_checked-IsSound true false pid a e h = start_in-IsSound pid a e h

start-IsSound : (pid : ℕ) (a : Agent) → IsSound a → IsSound (start pid a).1
unfolding start
start-IsSound pid a h =
    start_checked-IsSound _ _ pid _ refl (set_grpc_fork-IsSound a.config.agent_protocol a h)

prefork-IsSound : (pid : ℕ) (a : Agent) → IsSound a → IsSound (start_prefork_master pid a)
unfolding start_prefork_master set_grpc_fork
prefork-IsSound pid a h =
    let b = set_grpc_fork a.config.agent_protocol a in
    let hb : IsSound b = set_grpc_fork-IsSound a.config.agent_protocol a h in
    elim (Bool-cases b.started) [
      | inl on ↦ rw on (hooks_if-IsSound _ _ (pid-IsSound pid b hb))
      | inr off ↦
          rw off (hooks_if-IsSound _ _ (pid-IsSound pid _ (init_instrumentation-IsSound b off hb)))
    ]

child-IsSound :
    (c : Config) (ws : List Worker) (a : Agent)
    → IsSound a
    → IsSound (record a { config = c; workers = ws })
child-IsSound c ws a h = record {
  handlers = h.handlers;
  hooks = h.hooks;
  instrumented = h.instrumented;
  reporting_started = h.reporting_started;
}

fork-IsSound :
    (pid : ℕ) (child : Text) (a : Agent) → IsSound a → IsSound (apply (forks pid child) a)
unfolding apply fork_after_in_child
fork-IsSound pid child a h = elim (Bool-cases (ltb 0 a.fork_hooks)) [
  | inl on ↦ rw on (start-IsSound pid _ (child-IsSound _ [] a h))
  | inr off ↦ rw off (child-IsSound a.config [] a h)
]

apply-IsSound : (e : Event) (a : Agent) → IsSound a → IsSound (apply e a)
unfolding apply
apply-IsSound (starts pid) a h = start-IsSound pid a h
apply-IsSound (forks pid child) a h = fork-IsSound pid child a h
apply-IsSound (prefork_master pid) a h = prefork-IsSound pid a h

-- After any starts, forks and pre-fork set-ups, in any order and in any processes, from a new
-- agent: the plugins are installed once if the agent was started and never if it was not, and so
-- are the exit handler and the fork hook registered by their flags; only a started agent reports.
pub history-IsSound : (c : Config) (es : List Event) → IsSound (history es (created c))
unfolding history
history-IsSound c es =
    go es (created c)
      (record { handlers = refl; hooks = refl; instrumented = refl; reporting_started = λ e. cc })
  where
    go : (es : List Event) (a : Agent) → IsSound a → IsSound (history es a)
    go [] a h = h
    go (e ∷ es) a h = go es (apply e a) (apply-IsSound e a h)
