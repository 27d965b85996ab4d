-- ===== src/Trace/Env.antt =====
-- What the tracer uses and does not implement, or implements elsewhere: the options, the compiled
-- pattern of ignored paths, the source of ids, and the profiling service behind its interface.
use skywalking_python.Prelude.{ℕ, Bool, Option, Text}
use skywalking_python.Prelude.Int.{ℤ}
use skywalking_python.Prelude.Exec.{Exec, modify}
use skywalking_python.Trace.Model.{World, Span, Context, put_at}
use skywalking_python.Trace.Carrier.{Unicode}

-- The two calls of `profile_task_execution_service` that a context makes. They get the address of
-- the context, when it was created and its status reference; `add_profiling` returns the status
-- reference to keep. Profile models the service apart from these two.
pub record Profiler : Type 1 where
  pub State : Type 0
  pub add_profiling : ℕ → ℕ → Option ℕ → Text → Text → Exec State ℕ
  pub profiling_recheck : ℕ → ℕ → Option ℕ → Text → Text → Exec State (Unit {0})

pub record Env : Type 1 where
  pub agent_name : Text
  pub agent_instance_name : Text
  pub agent_profile_active : Bool
  pub correlation_element_max_number : ℤ
  pub correlation_value_max_length : ℤ
  pub sample_n_per_3_secs : ℕ
  -- `RE_IGNORE_PATH.match`
  pub ignore_path : Text → Bool
  -- The n-th `str(uuid.uuid1()).replace('-', '')`
  pub uuid : ℕ → Text
  -- When skywalking/__init__.py was loaded, in milliseconds.
  pub import_time : ℕ
  pub unicode : Unicode
  pub profiler : Profiler

module _ (env : Env) where
  abbrev pub State : Type 0
  State = World env.profiler.State

  abbrev pub M : Type 0 → Type 0
  M A = Exec State A

  abbrev pub modify_span : ℕ → (Span → Span) → M (Unit {0})
  modify_span a f = modify (λ w. record w { spans = put_at a (f (w.spans a)) w.spans })

  abbrev pub modify_context : ℕ → (Context → Context) → M (Unit {0})
  modify_context a f = modify (λ w. record w { contexts = put_at a (f (w.contexts a)) w.contexts })
