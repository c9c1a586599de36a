-- ===== src/Lifecycle/Restart.antt =====
-- core/agent/lifecycle.py: `restart`, `_handle_unhealthy`, and the methods as operations of a task
-- that calls one after the other. `restart` calls `stop`, whose `_handle_error` calls `restart`
-- under the lock: that call gets no further than its own `stop`, so two levels are all there are.
use kuva_ai.Prelude.{
  true, false, Option, List, [], ◌∷◌, ltb, ◌≡◌, refl, ap, ◌⊎◌, inl, inr, Bool-cases,
}
use kuva_ai.Exec.{Result, ok, err, raise, pure}
use kuva_ai.Lifecycle.{
  LifecyclePhase, AgentState, error, Config, World, Error, lock_already_held, max_restarts_reached,
  Manager, Action,
}
use kuva_ai.Lifecycle.Methods.{
  set_state, transition, initialize, start, stop, pause, resume, restart_with, enter, locked,
  count_attempt, stop_and_start,
}

pub data Op : Type 0 where
  initialize_op start_op stop_op pause_op resume_op restart_op unhealthy_op : Op

module _ (phase_of : AgentState → Option LifecyclePhase) (cfg : Config) (w : World) where
  -- `restart`, where the state lock is held
  unfoldable pub restart_inside : Action
  restart_inside = restart_with phase_of cfg w (raise lock_already_held)

  -- `restart`, and under its `except` clause the calls of `restart` in `_handle_error`
  unfoldable pub restart : Action
  restart = restart_with phase_of cfg w restart_inside

  -- `except LifecycleError`: all that `restart` raises is one.
  unfoldable pub after_restart : Result Error Unit × Manager → Result Error Unit × Manager
  after_restart (ok a, s) = (ok a, s)
  after_restart (err e, s) = set_state phase_of cfg w error s

  unfoldable pub handle_unhealthy : Action
  handle_unhealthy s = elim (ltb 0 cfg.max_restart_attempts) [
    | true ↦ after_restart (restart s)
    | false ↦ pure tt s
  ]

  unfoldable pub perform : Op → Action
  perform initialize_op = initialize phase_of cfg w restart_inside
  perform start_op = start phase_of cfg w restart_inside
  perform stop_op = stop phase_of cfg w restart_inside
  perform pause_op = pause phase_of cfg w restart_inside
  perform resume_op = resume phase_of cfg w restart_inside
  perform restart_op = restart
  perform unhealthy_op = handle_unhealthy

  -- The caller goes on after an exception.
  unfoldable pub perform_all : List Op → Manager → Manager
  perform_all [] s = s
  perform_all (o ∷ os) s = perform_all os (perform o s).1

  locked-held : (m : Action) (s : Manager) → s.held ≡ true → locked m s ≡ (err lock_already_held, s)
  unfolding locked
  locked-held m s h = ap (λ b. enter b m s) h

  -- Where the lock is held, `restart` only counts, whatever `_handle_error` would call.
  pub restart-held :
      (rec : Action) (s : Manager)
      → s.held ≡ true
      → ((restart_with phase_of cfg w rec s ≡ (err max_restarts_reached, s))
          × (ltb s.restart_count cfg.max_restart_attempts ≡ false))
        ⊎ ((restart_with phase_of cfg w rec s ≡ count_attempt (err lock_already_held, s))
            × (ltb s.restart_count cfg.max_restart_attempts ≡ true))
  unfolding restart_with stop_and_start stop transition
  restart-held rec s h = elim (Bool-cases (ltb s.restart_count cfg.max_restart_attempts)) [
    | inl e ↦ inr (rw (e, restart_with, locked-held _ s h) refl, e)
    | inr e ↦ inl (rw (e, restart_with) refl, e)
  ]
