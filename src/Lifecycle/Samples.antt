-- ===== src/Lifecycle/Samples.antt =====
-- Runs of core/agent/lifecycle.py, with phases for every state and with those of the source.
use kuva_ai.Prelude.{ℕ, Bool, true, false, Option, some, List, [], ◌∷◌, ◌≡◌, refl}
use kuva_ai.Lifecycle.{
  LifecyclePhase, pre_init, AgentState, created, initialized, running, Config, World, Call,
  agent_graceful_stop, error, Manager, new_manager, enum_phase,
}
use kuva_ai.Lifecycle.Restart.{
  Op, initialize_op, start_op, stop_op, restart_op, restart, restart_inside, perform, perform_all,
}
use kuva_ai.Lifecycle.Methods.{
  restart_with, stop_and_start, count_attempt, initialize, start, stop, transition, locked, catch,
  recover, handle_error, set_state, call, run_middlewares, resolve_dependencies, start_dependencies,
  stop_dependencies, initialize_body, start_body, stop_body, append_event, is_created, is_startable,
  is_stoppable,
}
use kuva_ai.Lifecycle.Bounds.{IsBounded}
use kuva_ai.Lifecycle.Attempts.{perform_all-IsBounded}
use kuva_ai.Lifecycle.Director.{Director}
use kuva_ai.Lifecycle.Stuck.{perform_all-stuck}

-- An enumeration that has a member for every transition
abbrev every_phase : AgentState → Option LifecyclePhase
every_phase s = some pre_init

abbrev config : Config
config = record {
  max_restart_attempts = 2;
  state_persistence = true;
  enable_graceful_shutdown = true;
  has_state_store = false;
  has_observability = false;
}

abbrev calm : World
calm = record { fails = λ c n. false; dependencies = []; agent_exists = λ d. true }

abbrev is_stop : Call → Bool
is_stop agent_graceful_stop = true
is_stop _ = false

-- Stopping the agent raises.
abbrev broken : World
broken = record { fails = λ c n. is_stop c; dependencies = []; agent_exists = λ d. true }

abbrev ready : Manager
ready = record (new_manager 1) { state = initialized; has_instance = true; calls = 3 }

-- What a manager shows after a run: its state and its count of restarts.
abbrev shown : World → List Op → AgentState × ℕ
shown w os =
    let s = perform_all every_phase config w os (new_manager 1) in (s.state, s.restart_count)

started_run : shown calm (initialize_op ∷ start_op ∷ []) ≡ (running, 0)
unfolding perform_all perform restart restart_inside restart_with stop_and_start count_attempt
    initialize start stop transition locked catch recover handle_error set_state call
    run_middlewares resolve_dependencies start_dependencies stop_dependencies initialize_body
    start_body stop_body append_event new_manager is_created is_startable is_stoppable
started_run = refl

-- One failed stop and one restart count three restarts, over the limit of two.
over_the_limit : shown broken (initialize_op ∷ start_op ∷ stop_op ∷ restart_op ∷ []) ≡ (error, 3)
unfolding perform_all perform restart restart_inside restart_with stop_and_start count_attempt
    initialize start stop transition locked catch recover handle_error set_state call
    run_middlewares resolve_dependencies start_dependencies stop_dependencies initialize_body
    start_body stop_body append_event new_manager is_created is_startable is_stoppable
over_the_limit = refl

perform_all-IsBounded_example : IsBounded false 3 (
    perform_all every_phase config broken
      (initialize_op ∷ start_op ∷ stop_op ∷ restart_op ∷ [])
      (new_manager 1))
perform_all-IsBounded_example =
    perform_all-IsBounded every_phase config broken
      (initialize_op ∷ start_op ∷ stop_op ∷ restart_op ∷ []) 1

perform_all-stuck_example :
    let s =
      perform_all enum_phase config calm
        (initialize_op ∷ start_op ∷ restart_op ∷ [])
        (new_manager 1) in
    (s.state ≡ created) × (s.events ≡ []) × (s.has_instance ≡ false) × (s.calls ≡ 0)
unfolding new_manager
perform_all-stuck_example =
    perform_all-stuck config calm (initialize_op ∷ start_op ∷ restart_op ∷ []) (new_manager 1)

abbrev director : Director
director = record { agents = []; dependency_graph = ("loop", "loop" ∷ []) ∷ [] }
