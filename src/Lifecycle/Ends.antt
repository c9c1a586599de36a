-- ===== src/Lifecycle/Ends.antt =====
-- Where the methods of core/agent/lifecycle.py leave the state when they return.
use kuva_ai.Prelude.{
  if◌then◌else◌, Bool, true, false, Option, ◌≡◌, refl, ◌∙◌, Bool-cases, Option-cases, inl, inr,
}
use kuva_ai.Exec.{Result, ok, err, raise, modify, continue, ◌>>◌}
use kuva_ai.Lifecycle.{
  LifecyclePhase, AgentState, initialized, running, paused, stopped, Config, World, Call,
  emit_event, load_state, save_state, construct, post_init, agent_start, agent_stop,
  agent_graceful_stop, agent_pause, agent_resume, not_initialized, no_instance, Error, Manager,
  Action,
}
use kuva_ai.Lifecycle.Methods.{
  with_instance, persists, resolve_dependencies, start_dependencies, stop_dependencies, when, call,
  set_state, run_middlewares, initialize_body, start_body, stop_body, pause_body, resume_body,
  handle_error, recover,
}

-- If the method returned, the state is `st`.
abbrev pub EndsIn : AgentState → Result Error Unit × Manager → Type 0
EndsIn st (ok a, s) = s.state ≡ st
EndsIn st (err e, s) = Unit

pub continue-EndsIn :
    (st : AgentState) (k : Action)
    → ((s : Manager) → EndsIn st (k s))
    → (x : Result Error Unit × Manager) → EndsIn st (continue (λ _. k) x)
continue-EndsIn st k h (ok a, s) = h s
continue-EndsIn st k h (err e, s) = tt

pub record Ends (st : AgentState) (m : Action) : Type 0 where
  pub run : (s : Manager) → EndsIn st (m s)

-- Only the last call of a sequence decides where it ends.
Ends-then : {st : AgentState} (m k : Action) → Ends st k → Ends st (m >> k)
Ends-then {st} m k h = record { run = λ s. continue-EndsIn st k h.run (m s) }

module _ (phase_of : AgentState → Option LifecyclePhase) (cfg : Config) (w : World) where
  call-state : (c : Call) (s : Manager) → (call phase_of cfg w c s).1.state ≡ s.state
  unfolding call
  call-state c s = elim (Bool-cases (w.fails c s.calls)) [
    | inl e ↦ rw (e, call) refl
    | inr e ↦ rw (e, call) refl
  ]

  EndsIn-of : (st : AgentState) (x : Result Error Unit × Manager) → x.1.state ≡ st → EndsIn st x
  EndsIn-of st (ok a, s) h = h
  EndsIn-of st (err e, s) h = tt

  emit-EndsIn :
      (b : Bool) (st : AgentState) (s : Manager)
      → s.state ≡ st
      → EndsIn st (when b (call phase_of cfg w emit_event) s)
  emit-EndsIn true st s h = EndsIn-of st _ (call-state emit_event s ∙ h)
  emit-EndsIn false st s h = h

  pub set_state-EndsIn : (st : AgentState) (s : Manager) → EndsIn st (set_state phase_of cfg w st s)
  unfolding set_state
  set_state-EndsIn st s = elim (Option-cases (phase_of st)) [
    | inl e ↦ rw (e, set_state) tt
    | inr (p, e) ↦ rw (e, set_state) (emit-EndsIn cfg.has_observability st _ refl)
  ]

  module _ (rec : Action) where
    pub recover-EndsIn :
        (failure : Error) (st : AgentState) (x : Result Error Unit × Manager)
        → EndsIn st x
        → EndsIn st (recover phase_of cfg w rec failure x)
    unfolding recover
    recover-EndsIn failure st (ok a, s) h = h
    recover-EndsIn failure st (err e, s) h =
        continue-EndsIn st (raise failure) (λ _. tt) (handle_error phase_of cfg w rec s)

  set_state-Ends : (st : AgentState) → Ends st (set_state phase_of cfg w st)
  set_state-Ends st = record { run = set_state-EndsIn st }

  pub initialize_body-Ends : Ends initialized (initialize_body phase_of cfg w)
  unfolding initialize_body
  initialize_body-Ends =
      Ends-then (when (persists phase_of cfg w) (call phase_of cfg w load_state)) _ (
        Ends-then (resolve_dependencies phase_of cfg w) _ (
          Ends-then (run_middlewares phase_of cfg w) _ (
            Ends-then (call phase_of cfg w construct) _ (
              Ends-then (modify (λ s. record s { has_instance = true })) _ (
                Ends-then (call phase_of cfg w post_init) _ (
                  Ends-then (when (persists phase_of cfg w) (call phase_of cfg w save_state)) _ (
                    Ends-then (run_middlewares phase_of cfg w) _ (set_state-Ends initialized))))))))

  pub start_body-Ends : Ends running (start_body phase_of cfg w)
  unfolding start_body
  start_body-Ends = Ends-then (start_dependencies phase_of cfg w) _ (
      Ends-then (run_middlewares phase_of cfg w) _ (
        Ends-then (with_instance phase_of cfg w not_initialized) _ (
          Ends-then (call phase_of cfg w agent_start) _ (
            Ends-then (modify (λ s. record s { monitoring = true })) _
              (Ends-then (run_middlewares phase_of cfg w) _ (set_state-Ends running))))))

  pub stop_body-Ends : Ends stopped (stop_body phase_of cfg w)
  unfolding stop_body
  stop_body-Ends = Ends-then (run_middlewares phase_of cfg w) _ (
      Ends-then (with_instance phase_of cfg w no_instance) _ (
        Ends-then
          (call phase_of cfg w
            (if cfg.enable_graceful_shutdown then agent_graceful_stop else agent_stop))
          _
          (Ends-then (modify (λ s. record s { monitoring = false })) _ (
            Ends-then (stop_dependencies phase_of cfg w) _ (
              Ends-then (when (persists phase_of cfg w) (call phase_of cfg w save_state)) _
                (Ends-then (run_middlewares phase_of cfg w) _ (set_state-Ends stopped)))))))

  pub pause_body-Ends : Ends paused (pause_body phase_of cfg w)
  unfolding pause_body
  pause_body-Ends = Ends-then (run_middlewares phase_of cfg w) _ (
      Ends-then (with_instance phase_of cfg w no_instance) _ (
        Ends-then (call phase_of cfg w agent_pause) _
          (Ends-then (run_middlewares phase_of cfg w) _ (set_state-Ends paused))))

  pub resume_body-Ends : Ends running (resume_body phase_of cfg w)
  unfolding resume_body
  resume_body-Ends = Ends-then (run_middlewares phase_of cfg w) _ (
      Ends-then (with_instance phase_of cfg w no_instance) _ (
        Ends-then (call phase_of cfg w agent_resume) _
          (Ends-then (run_middlewares phase_of cfg w) _ (set_state-Ends running))))
