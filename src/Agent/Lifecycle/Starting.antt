-- ===== src/Agent/Lifecycle/Starting.antt =====
-- What one `start` does: in a process that has started already, and in one that has not
-- (skywalking/agent/__init__.py).
use skywalking_python.Prelude.{ℕ, ◌≡◌, refl, Bool, true, false, some, arith, if◌then◌else◌, ap, ◌∙◌}
use skywalking_python.Prelude.Result.{ok, err, runtime_error}
use skywalking_python.Agent.Queues.{Agent, Protocol, grpc}
use skywalking_python.Agent.Lifecycle.{
  start, start_in, start_checked, set_grpc_fork, init_instrumentation, same_pid, bootstrap,
  register_fini, register_fork_hooks,
}
use skywalking_python.Agent.Shutdown.Drain.{IsIdle}

set_grpc_fork_keeps :
    (p : Protocol) (a : Agent)
    → record (set_grpc_fork p a) { grpc_fork_support = a.grpc_fork_support } ≡ a
unfolding set_grpc_fork
set_grpc_fork_keeps grpc a = ground arith
set_grpc_fork_keeps _ a = refl

started_again :
    (started same : Bool) (pid : ℕ) (a b : Agent)
    → started ≡ true
    → same ≡ true
    → record b { grpc_fork_support = a.grpc_fork_support } ≡ a
    → ((start_checked started same pid b).0 ≡ err runtime_error)
      × (record (start_checked started same pid b).1 { grpc_fork_support = a.grpc_fork_support }
          ≡ a)
unfolding start_checked
started_again true true pid a b on e h = (refl, h)
started_again true false pid a b on e h = cc
started_again false same pid a b on e h = cc

same_pid_self : (pid : ℕ) → same_pid pid (some pid) ≡ true
unfolding same_pid
same_pid_self pid = ground arith

-- A second start in the same process raises `RuntimeError`, and but for the fork switch of grpc
-- the agent is as it was.
pub start_again_raises :
    (pid : ℕ) (a : Agent)
    → a.started ≡ true
    → a.started_pid ≡ some pid
    → ((start pid a).0 ≡ err runtime_error)
      × (record (start pid a).1 { grpc_fork_support = a.grpc_fork_support } ≡ a)
unfolding start
start_again_raises pid a on same =
    let kept = set_grpc_fork_keeps a.config.agent_protocol a in
    let b = set_grpc_fork a.config.agent_protocol a in
    started_again b.started (same_pid pid b.started_pid) pid a b
      (ap (λ (r : Agent). r.started) kept ∙ on)
      (ap (λ (r : Agent). same_pid pid r.started_pid) kept ∙ (rw same (same_pid_self pid))) kept

-- A reporting agent whose queues are fresh.
abbrev IsReady : Agent → Type 0
IsReady a = (a.reporting ≡ true) × IsIdle a

bootstrap-IsReady : (a : Agent) → IsReady (bootstrap a)
unfolding bootstrap
bootstrap-IsReady a = (refl, ground arith)

register_fini-IsReady : (a : Agent) → IsReady a → IsReady (register_fini a)
unfolding register_fini
register_fini-IsReady a h = ground arith

register_fork_hooks-IsReady :
    (b : Bool) (a : Agent) → IsReady a → IsReady (if b then register_fork_hooks a else a)
unfolding register_fork_hooks
register_fork_hooks-IsReady b a h = ground arith

start_in-IsReady : (pid : ℕ) (a : Agent) → IsReady (start_in pid a)
unfolding start_in
start_in-IsReady pid a =
    register_fork_hooks-IsReady _ _ (register_fini-IsReady _ (bootstrap-IsReady _))

start_checked-IsReady :
    (started same : Bool) (pid : ℕ) (a : Agent)
    → (start_checked started same pid a).0 ≡ ok tt
    → IsReady (start_checked started same pid a).1
unfolding start_checked
start_checked-IsReady false same pid a e = start_in-IsReady pid (init_instrumentation a)
start_checked-IsReady true true pid a e = cc
start_checked-IsReady true false pid a e = start_in-IsReady pid a

-- A start that does not raise leaves the agent reporting, with nothing in flight: the queue of
-- segments is there always, each other queue just when its option is on.
pub start-IsIdle :
    (pid : ℕ) (a : Agent)
    → (start pid a).0 ≡ ok tt
    → ((start pid a).1.reporting ≡ true) × IsIdle (start pid a).1
unfolding start
start-IsIdle pid a e = start_checked-IsReady _ _ pid _ e
