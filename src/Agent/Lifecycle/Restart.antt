-- ===== src/Agent/Lifecycle/Restart.antt =====
-- `stop` and then `start` again, in skywalking/agent/__init__.py.
use skywalking_python.Prelude.{ℕ, ◌+◌, ◌≡◌, refl, Bool, true, false, arith, ◌∙◌, ap}
use skywalking_python.Prelude.Result.{ok}
use skywalking_python.Agent.Queues.{Agent, Protocol, grpc}
use skywalking_python.Agent.Lifecycle.{
  start, start_in, start_checked, set_grpc_fork, init_instrumentation, init_services, bootstrap,
  register_fini, register_fork_hooks,
}
use skywalking_python.Agent.Shutdown.{Taken, stop, fini}

installs-start_in : (pid : ℕ) (a : Agent) → (start_in pid a).installs ≡ a.installs
unfolding start_in init_services bootstrap register_fini register_fork_hooks
installs-start_in pid a = ground arith

installs-fini :
    (ready : Bool) (t : Taken) (now : ℕ) (a : Agent) → (fini ready t now a).installs ≡ a.installs
unfolding fini
installs-fini ready t now a = ground arith

installs-set_grpc_fork : (p : Protocol) (a : Agent) → (set_grpc_fork p a).installs ≡ a.installs
unfolding set_grpc_fork
installs-set_grpc_fork grpc a = ground arith
installs-set_grpc_fork _ a = refl

started-set_grpc_fork : (p : Protocol) (a : Agent) → (set_grpc_fork p a).started ≡ a.started
unfolding set_grpc_fork
started-set_grpc_fork grpc a = ground arith
started-set_grpc_fork _ a = refl

fresh_start :
    (started same : Bool) (pid : ℕ) (a : Agent)
    → started ≡ false
    → (start_checked started same pid a).1.installs ≡ a.installs + 1
unfolding start_checked init_instrumentation
fresh_start false same pid a e = installs-start_in pid _
fresh_start true same pid a e = cc

unstarted_ok :
    (started same : Bool) (pid : ℕ) (a : Agent)
    → started ≡ false
    → (start_checked started same pid a).0 ≡ ok tt
unfolding start_checked
unstarted_ok false same pid a e = refl
unstarted_ok true same pid a e = cc

-- An agent that has not started starts.
pub start_unstarted : (pid : ℕ) (a : Agent) → a.started ≡ false → (start pid a).0 ≡ ok tt
unfolding start
start_unstarted pid a e =
    unstarted_ok _ _ pid _ (started-set_grpc_fork a.config.agent_protocol a ∙ e)

installs-start :
    (pid : ℕ) (a : Agent) → a.started ≡ false → (start pid a).1.installs ≡ a.installs + 1
unfolding start
installs-start pid a e =
    fresh_start _ _ pid _ (started-set_grpc_fork a.config.agent_protocol a ∙ e)
    ∙ ap (λ n. n + 1) (installs-set_grpc_fork a.config.agent_protocol a)

installs-stop :
    (ready : Bool) (t : Taken) (now : ℕ) (a : Agent) → (stop ready t now a).installs ≡ a.installs
unfolding stop
installs-stop ready t now a =
    installs-fini ready t now (record a { atexit_handlers = 0; fini_registered = false })

started-stop :
    (ready : Bool) (t : Taken) (now : ℕ) (a : Agent) → (stop ready t now a).started ≡ false
unfolding stop
started-stop ready t now a = refl

-- A start that follows `stop`, in the same process or another, calls `plugins.install` once more,
-- whether the agent was started before or not.
pub restart_installs_again :
    (ready : Bool) (t : Taken) (now pid : ℕ) (a : Agent)
    → (start pid (stop ready t now a)).1.installs ≡ a.installs + 1
restart_installs_again ready t now pid a =
    installs-start pid (stop ready t now a) (started-stop ready t now a)
    ∙ ap (λ n. n + 1) (installs-stop ready t now a)
