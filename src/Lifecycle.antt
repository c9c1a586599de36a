-- ===== src/Lifecycle.antt =====
-- core/agent/lifecycle.py: `LifecycleManager`. The agent, the middlewares, the state store and the
-- observability client are outside: a `World` says which of their calls raise. What the constructor
-- of `LifecyclePhase` accepts is a parameter, and `enum_phase` is the enumeration of the source.
pub mod Methods
pub mod Restart
pub mod Bounds
pub mod Attempts
pub mod Ends
pub mod Table
pub mod Moves
pub mod Stuck
pub mod Director
mod Samples
use Prim.Native.String
use kuva_ai.Prelude.{
  ℕ, zero, suc, ◌+◌, String, Bool, true, false, not, Option, none, some, List, [], ◌∷◌, ◌++◌, ◌==◌,
  ltb, leb, if◌then◌else◌, length, drop,
}
use kuva_ai.Exec.{
  Result, ok, err, Exec, pure, raise, lift, gets, modify, guard, continue, ◌>>=◌, ◌>>◌,
}

pub data LifecyclePhase : Type 0 where
  pre_init post_init pre_start post_start pre_stop post_stop : LifecyclePhase
  pre_pause post_pause pre_resume post_resume : LifecyclePhase

pub data AgentState : Type 0 where
  created initializing initialized starting running pausing paused resuming : AgentState
  stopping stopped error : AgentState

-- `new_state.value`
unfoldable pub state_value : AgentState → String
state_value created = "created"
state_value initializing = "initializing"
state_value initialized = "initialized"
state_value starting = "starting"
state_value running = "running"
state_value pausing = "pausing"
state_value paused = "paused"
state_value resuming = "resuming"
state_value stopping = "stopping"
state_value stopped = "stopped"
state_value error = "error"

unfoldable pub phase_value : LifecyclePhase → String
phase_value pre_init = "pre_initialization"
phase_value post_init = "post_initialization"
phase_value pre_start = "pre_start"
phase_value post_start = "post_start"
phase_value pre_stop = "pre_stop"
phase_value post_stop = "post_stop"
phase_value pre_pause = "pre_pause"
phase_value post_pause = "post_pause"
phase_value pre_resume = "pre_resume"
phase_value post_resume = "post_resume"

-- The members of `LifecyclePhase`, in the order of the class.
abbrev pub phases : List LifecyclePhase
phases =
    pre_init ∷ post_init ∷ pre_start ∷ post_start ∷ pre_stop ∷ post_stop ∷ pre_pause ∷ post_pause
    ∷ pre_resume ∷ post_resume ∷ []

unfoldable pub find_phase : List LifecyclePhase → String → Option LifecyclePhase
find_phase [] v = none
find_phase (p ∷ ps) v = if phase_value p == v then some p else find_phase ps v

-- `LifecyclePhase(f"transition_to_{new_state.value}")`; `none` stands for `ValueError`.
unfoldable pub enum_phase : AgentState → Option LifecyclePhase
enum_phase s = find_phase phases (String.◌++◌ "transition_to_" (state_value s))

pub data Health : Type 0 where
  unknown down : Health

-- `LifecycleConfig`, and whether a state store and an observability client were given.
pub record Config : Type 0 where
  pub max_restart_attempts : ℕ
  pub state_persistence : Bool
  pub enable_graceful_shutdown : Bool
  pub has_state_store : Bool
  pub has_observability : Bool

-- The calls that leave the module.
pub data Call : Type 0 where
  load_state save_state construct post_init : Call
  agent_start agent_stop agent_graceful_stop agent_pause agent_resume : Call
  emit_event capture_exception on_phase : Call

-- `fails c n`: the `n`-th outgoing call, which is `c`, raises. `dependencies` is what the class
-- declares, and `agent_exists` the registry's answer.
pub record World : Type 0 where
  pub fails : Call → ℕ → Bool
  pub dependencies : List String
  pub agent_exists : String → Bool

pub data Error : Type 0 where
  already_initialized initialization_failed start_failed stop_failed pause_failed : Error
  resume_failed not_initialized max_restarts_reached : Error
  cannot_start cannot_stop cannot_pause cannot_resume : AgentState → Error
  restart_failed : ℕ → Error
  dependency_not_registered : String → Error
  invalid_phase no_instance lock_already_held : Error
  call_failed : Call → Error

-- `dependencies` counts the managers in `_dependencies`; `held` is the state of `_state_lock`, and
-- `calls` counts the outgoing calls so far.
pub record Manager : Type 0 where
  pub state : AgentState
  pub has_instance : Bool
  pub dependencies : ℕ
  pub health : Health
  pub events : List AgentState
  pub middlewares : ℕ
  pub monitoring : Bool
  pub restart_count : ℕ
  pub held : Bool
  pub calls : ℕ

-- `LifecycleManager.__init__`, and then `register_middleware` for each middleware
unfoldable pub new_manager : (middlewares : ℕ) → Manager
new_manager n = record {
  state = created;
  has_instance = false;
  dependencies = 0;
  health = unknown;
  events = [];
  middlewares = n;
  monitoring = false;
  restart_count = 0;
  held = false;
  calls = 0;
}

abbrev pub Action : Type 0
Action = Exec Manager Error Unit
