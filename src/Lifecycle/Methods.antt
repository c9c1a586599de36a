-- ===== src/Lifecycle/Methods.antt =====
-- core/agent/lifecycle.py: the methods of `LifecycleManager`. The methods are called by one task,
-- which is not the health monitor's.
use kuva_ai.Prelude.{
  ◌+◌, Bool, true, false, ◌&&◌, Option, none, some, List, [], ◌∷◌, ◌++◌, ltb, eqb, if◌then◌else◌,
  length, drop,
}
use kuva_ai.Exec.{
  Result, ok, err, pure, raise, gets, modify, guard, continue, ◌>>=◌, ◌>>◌, for_each,
}
use kuva_ai.Lifecycle.{
  LifecyclePhase, AgentState, created, initializing, initialized, starting, running, pausing,
  paused, resuming, stopping, stopped, error, down, Config, Call, load_state, save_state, construct,
  post_init, agent_start, agent_stop, agent_graceful_stop, agent_pause, agent_resume, emit_event,
  capture_exception, World, Error, already_initialized, initialization_failed, start_failed,
  stop_failed, pause_failed, resume_failed, not_initialized, max_restarts_reached, cannot_start,
  cannot_stop, cannot_pause, cannot_resume, restart_failed, dependency_not_registered,
  invalid_phase, no_instance, lock_already_held, call_failed, Manager, Action,
}

-- `deque(maxlen=1000).append`
unfoldable pub append_event : List AgentState → AgentState → List AgentState
append_event es e = if ltb (length es) 1000 then es ++ e ∷ [] else drop 1 es ++ e ∷ []

-- `anyio.Lock` does not let its holder acquire it again; it is released on the way out.
abbrev pub release : Result Error Unit × Manager → Result Error Unit × Manager
release (r, s) = (r, record s { held = false })

abbrev pub enter : Bool → Action → Action
enter true m s = (err lock_already_held, s)
enter false m s = release (m (record s { held = true }))

unfoldable pub locked : Action → Action
locked m s = enter s.held m s

abbrev pub when : Bool → Action → Action
when true m = m
when false m = pure tt

unfoldable pub is_startable : AgentState → Bool
is_startable initialized = true
is_startable stopped = true
is_startable _ = false

unfoldable pub is_stoppable : AgentState → Bool
is_stoppable running = true
is_stoppable paused = true
is_stoppable error = true
is_stoppable _ = false

unfoldable pub is_created : AgentState → Bool
is_created created = true
is_created _ = false

unfoldable pub is_running : AgentState → Bool
is_running running = true
is_running _ = false

unfoldable pub is_paused : AgentState → Bool
is_paused paused = true
is_paused _ = false

-- The `except` clause of `restart`.
unfoldable pub count_attempt : Result Error Unit × Manager → Result Error Unit × Manager
count_attempt (ok a, s) = (ok a, record s { restart_count = 0 })
count_attempt (err e, s) =
    (err (restart_failed (s.restart_count + 1)), record s { restart_count = s.restart_count + 1 })

module _ (phase_of : AgentState → Option LifecyclePhase) (cfg : Config) (w : World) where
  unfoldable pub call : Call → Action
  call c s =
      let s' : Manager = record s { calls = s.calls + 1 } in
      elim (w.fails c s.calls) [ true ↦ (err (call_failed c), s') | false ↦ (ok tt, s') ]

  -- `_set_state`
  unfoldable pub set_state : AgentState → Action
  set_state new = elim (phase_of new) [
    | none ↦ raise invalid_phase
    | some phase ↦ (do
      modify (λ s. record s { state = new; events = append_event s.events new })
      when cfg.has_observability (call emit_event))
  ]

  -- `_run_middlewares`: what a middleware raises is logged.
  unfoldable pub run_middlewares : Action
  run_middlewares = modify (λ s. record s { calls = s.calls + s.middlewares })

  -- `_resolve_dependencies`; a new manager for each dependency, which stays `CREATED`.
  unfoldable pub resolve_dependencies : Action
  resolve_dependencies = for_each w.dependencies λ d. do
    guard (w.agent_exists d) (dependency_not_registered d)
    modify (λ s. record s { dependencies = s.dependencies + 1 })

  -- `dep.start` and `dep.stop` of managers that are `CREATED`; there may be none.
  unfoldable pub start_dependencies : Action
  start_dependencies s = guard (eqb s.dependencies 0) (cannot_start created) s

  unfoldable pub stop_dependencies : Action
  stop_dependencies s = guard (eqb s.dependencies 0) (cannot_stop created) s

  abbrev pub persists : Bool
  persists = cfg.state_persistence && cfg.has_state_store

  abbrev pub with_instance : Error → Action
  with_instance e s = guard s.has_instance e s

  -- The bodies of the `try` statements.
  unfoldable pub initialize_body : Action
  initialize_body = do
    when persists (call load_state)
    resolve_dependencies
    run_middlewares
    call construct
    modify (λ s. record s { has_instance = true })
    call post_init
    when persists (call save_state)
    run_middlewares
    set_state initialized

  unfoldable pub start_body : Action
  start_body = do
    start_dependencies
    run_middlewares
    with_instance not_initialized
    call agent_start
    modify (λ s. record s { monitoring = true })
    run_middlewares
    set_state running

  unfoldable pub stop_body : Action
  stop_body = do
    run_middlewares
    with_instance no_instance
    call (if cfg.enable_graceful_shutdown then agent_graceful_stop else agent_stop)
    modify (λ s. record s { monitoring = false })
    stop_dependencies
    when persists (call save_state)
    run_middlewares
    set_state stopped

  unfoldable pub pause_body : Action
  pause_body = do
    run_middlewares
    with_instance no_instance
    call agent_pause
    run_middlewares
    set_state paused

  unfoldable pub resume_body : Action
  resume_body = do
    run_middlewares
    with_instance no_instance
    call agent_resume
    run_middlewares
    set_state running

  -- `rec` is the call of `restart` in `_handle_error`.
  module _ (rec : Action) where
    unfoldable pub handle_error : Action
    handle_error = do
      modify (λ s. record s { health = down })
      set_state error
      when cfg.has_observability (call capture_exception)
      when (ltb 0 cfg.max_restart_attempts) rec

    -- `except Exception as e: await self._handle_error(e); raise failure from e`
    unfoldable pub recover : Error → Result Error Unit × Manager → Result Error Unit × Manager
    recover failure (ok a, s) = (ok a, s)
    recover failure (err e, s) = continue (λ _. raise failure) (handle_error s)

    unfoldable pub catch : Error → Action → Action
    catch failure body s = recover failure (body s)

    -- A method that moves the state: what it requires of the state, the state while it works, and
    -- its `try` statement, under the state lock.
    unfoldable pub transition :
        (AgentState → Bool) → (AgentState → Error) → AgentState → Error → Action → Action
    transition allowed refused working failure body = locked do
      state ← gets (λ s. s.state)
      guard (allowed state) (refused state)
      set_state working
      catch failure body

    unfoldable pub initialize : Action
    initialize =
        transition is_created (λ _. already_initialized) initializing initialization_failed
          initialize_body

    unfoldable pub start : Action
    start = transition is_startable cannot_start starting start_failed start_body

    unfoldable pub stop : Action
    stop = transition is_stoppable cannot_stop stopping stop_failed stop_body

    unfoldable pub pause : Action
    pause = transition is_running cannot_pause pausing pause_failed pause_body

    unfoldable pub resume : Action
    resume = transition is_paused cannot_resume resuming resume_failed resume_body

    unfoldable pub stop_and_start : Action
    stop_and_start = do stop; initialize; start

    unfoldable pub restart_with : Action
    restart_with s = elim (ltb s.restart_count cfg.max_restart_attempts) [
      | false ↦ (err max_restarts_reached, s)
      | true ↦ count_attempt (stop_and_start s)
    ]
