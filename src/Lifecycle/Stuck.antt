-- ===== src/Lifecycle/Stuck.antt =====
-- core/agent/lifecycle.py with the source's `LifecyclePhase`: what `_set_state` then does.
use kuva_ai.Prelude.{Bool, true, false, none, List, [], ◌∷◌, ltb, ◌≡◌, refl, Bool-cases, inl, inr}
use kuva_ai.Exec.{Result, ok, err, guard, continue, ◌>>◌}
use kuva_ai.Exec.Ensures.{Keeps, Ensures-then, Keeps-of_state}
use kuva_ai.Lifecycle.{
  AgentState, created, initializing, initialized, starting, running, pausing, paused, resuming,
  stopping, stopped, error, Config, World, Error, invalid_phase, Manager, Action, enum_phase,
  find_phase, phase_value, state_value,
}
use kuva_ai.Lifecycle.Methods.{
  enter, locked, set_state, catch, transition, initialize, start, stop, pause, resume, restart_with,
  count_attempt, stop_and_start,
}
use kuva_ai.Lifecycle.Restart.{
  Op, initialize_op, start_op, stop_op, pause_op, resume_op, restart_op, unhealthy_op,
  restart_inside, restart, after_restart, handle_unhealthy, perform, perform_all,
}

-- No value of `LifecyclePhase` starts with "transition_to_".
enum_phase-none : (s : AgentState) → enum_phase s ≡ none
unfolding enum_phase find_phase phase_value state_value
enum_phase-none created = refl
enum_phase-none initializing = refl
enum_phase-none initialized = refl
enum_phase-none starting = refl
enum_phase-none running = refl
enum_phase-none pausing = refl
enum_phase-none paused = refl
enum_phase-none resuming = refl
enum_phase-none stopping = refl
enum_phase-none stopped = refl
enum_phase-none error = refl

-- Nothing of the transitions has happened.
record IsStuck (old s : Manager) : Type 0 where
  state : s.state ≡ old.state
  history : s.events ≡ old.events
  agent : s.has_instance ≡ old.has_instance
  calls : s.calls ≡ old.calls

module _ (cfg : Config) (w : World) (old : Manager) where
  set_state_failure :
      (new : AgentState) (s : Manager) → set_state enum_phase cfg w new s ≡ (err invalid_phase, s)
  unfolding set_state
  set_state_failure new s = rw (enum_phase-none new, set_state) refl

  guard-IsStuck :
      (b : Bool) (e : Error) (new : AgentState) (k : Action) (s : Manager)
      → IsStuck old s
      → IsStuck old (continue (λ _. set_state enum_phase cfg w new >> k) (guard b e s)).1
  guard-IsStuck true e new k s h = rw (set_state_failure new s) h
  guard-IsStuck false e new k s h = h

  enter-IsStuck :
      (allowed : AgentState → Bool) (refused : AgentState → Error) (new : AgentState) (k : Action)
      (b : Bool) (s : Manager)
      → IsStuck old s
      → IsStuck old
          (enter b
            (λ s'.
              continue
                (λ _. set_state enum_phase cfg w new >> k)
                (guard (allowed s'.state) (refused s'.state) s'))
            s).1
  enter-IsStuck allowed refused new k true s h = h
  enter-IsStuck allowed refused new k false s h =
      let i =
        guard-IsStuck (allowed s.state) (refused s.state) new k (record s { held = true })
          (record { state = h.state; history = h.history; agent = h.agent; calls = h.calls }) in
      record { state = i.state; history = i.history; agent = i.agent; calls = i.calls }

  module _ (rec : Action) where
    Keeps-transition :
        (allowed : AgentState → Bool) (refused : AgentState → Error) (working : AgentState)
        (failure : Error) (body : Action)
        → Keeps (IsStuck old) (transition enum_phase cfg w rec allowed refused working failure body)
    unfolding transition locked
    Keeps-transition allowed refused working failure body = Keeps-of_state _ λ s h.
        enter-IsStuck allowed refused working (catch enum_phase cfg w rec failure body) s.held s h

    Keeps-initialize : Keeps (IsStuck old) (initialize enum_phase cfg w rec)
    unfolding initialize
    Keeps-initialize = Keeps-transition _ _ _ _ _

    Keeps-start : Keeps (IsStuck old) (start enum_phase cfg w rec)
    unfolding start
    Keeps-start = Keeps-transition _ _ _ _ _

    Keeps-stop : Keeps (IsStuck old) (stop enum_phase cfg w rec)
    unfolding stop
    Keeps-stop = Keeps-transition _ _ _ _ _

    Keeps-pause : Keeps (IsStuck old) (pause enum_phase cfg w rec)
    unfolding pause
    Keeps-pause = Keeps-transition _ _ _ _ _

    Keeps-resume : Keeps (IsStuck old) (resume enum_phase cfg w rec)
    unfolding resume
    Keeps-resume = Keeps-transition _ _ _ _ _

    Keeps-stop_and_start : Keeps (IsStuck old) (stop_and_start enum_phase cfg w rec)
    unfolding stop_and_start
    Keeps-stop_and_start =
        Ensures-then _ _ Keeps-stop (Ensures-then _ _ Keeps-initialize Keeps-start)

    count_attempt-IsStuck :
        (x : Result Error Unit × Manager) → IsStuck old x.1 → IsStuck old (count_attempt x).1
    unfolding count_attempt
    count_attempt-IsStuck (ok a, s) h = record {
      state = h.state;
      history = h.history;
      agent = h.agent;
      calls = h.calls;
    }
    count_attempt-IsStuck (err e, s) h = record {
      state = h.state;
      history = h.history;
      agent = h.agent;
      calls = h.calls;
    }

    Keeps-restart_with : Keeps (IsStuck old) (restart_with enum_phase cfg w rec)
    unfolding restart_with
    Keeps-restart_with = Keeps-of_state _ λ s h.
        elim (Bool-cases (ltb s.restart_count cfg.max_restart_attempts)) [
          | inl e ↦
              rw (e, restart_with)
                (count_attempt-IsStuck (stop_and_start enum_phase cfg w rec s)
                  ((Keeps-stop_and_start.run s h).0))
          | inr e ↦ rw (e, restart_with) h
        ]

  after_restart-IsStuck :
      (x : Result Error Unit × Manager)
      → IsStuck old x.1
      → IsStuck old (after_restart enum_phase cfg w x).1
  unfolding after_restart
  after_restart-IsStuck (ok a, s) h = h
  after_restart-IsStuck (err e, s) h = rw (set_state_failure error s) h

  Keeps-handle_unhealthy : Keeps (IsStuck old) (handle_unhealthy enum_phase cfg w)
  unfolding handle_unhealthy restart
  Keeps-handle_unhealthy = Keeps-of_state _ λ s h.
      elim (Bool-cases (ltb 0 cfg.max_restart_attempts)) [
        | inl e ↦
            rw (e, handle_unhealthy)
              (after_restart-IsStuck (restart enum_phase cfg w s)
                (((Keeps-restart_with (restart_inside enum_phase cfg w)).run s h).0))
        | inr e ↦ rw (e, handle_unhealthy) h
      ]

  Keeps-perform : (o : Op) → Keeps (IsStuck old) (perform enum_phase cfg w o)
  unfolding perform restart
  Keeps-perform initialize_op = Keeps-initialize _
  Keeps-perform start_op = Keeps-start _
  Keeps-perform stop_op = Keeps-stop _
  Keeps-perform pause_op = Keeps-pause _
  Keeps-perform resume_op = Keeps-resume _
  Keeps-perform restart_op = Keeps-restart_with _
  Keeps-perform unhealthy_op = Keeps-handle_unhealthy

  perform_all-IsStuck :
      (os : List Op) (s : Manager) → IsStuck old s → IsStuck old (perform_all enum_phase cfg w os s)
  unfolding perform_all
  perform_all-IsStuck [] s h = h
  perform_all-IsStuck (o ∷ os) s h = perform_all-IsStuck os _ (((Keeps-perform o).run s h).0)

-- With the phases of the source, no sequence of operations on a manager changes its state or its
-- history, creates an agent or makes an outgoing call.
pub perform_all-stuck :
    (cfg : Config) (w : World) (os : List Op) (s : Manager)
    → let s' = perform_all enum_phase cfg w os s in
      (s'.state ≡ s.state)
      × (s'.events ≡ s.events)
      × (s'.has_instance ≡ s.has_instance)
      × (s'.calls ≡ s.calls)
perform_all-stuck cfg w os s =
    let h =
      perform_all-IsStuck cfg w s os s
        (record { state = refl; history = refl; agent = refl; calls = refl }) in
    (h.state, h.history, h.agent, h.calls)
