-- ===== src/Lifecycle/Moves.antt =====
-- Which moves of the state core/agent/lifecycle.py makes: where an operation that returns starts
-- and ends.
use mathlib.Core.Path.{subst}
use kuva_ai.Prelude.{
  Bool, true, false, Option, ltb, ◌≡◌, ◌≢◌, refl, sym, ap, ◌∙◌, Bool-cases, inl, inr,
}
use kuva_ai.Exec.{Result, ok, err, guard, continue, ◌>>◌}
use kuva_ai.Lifecycle.{
  LifecyclePhase, AgentState, initialized, running, paused, stopped, Config, World, Error, Manager,
  Action,
}
use kuva_ai.Lifecycle.Methods.{
  release, enter, locked, is_created, is_startable, is_stoppable, is_running, is_paused, set_state,
  catch, transition, initialize, start, stop, pause, resume, restart_with, count_attempt,
  stop_and_start,
}
use kuva_ai.Lifecycle.Restart.{
  Op, initialize_op, start_op, stop_op, pause_op, resume_op, restart_op, unhealthy_op,
  restart_inside, restart, perform,
}
use kuva_ai.Lifecycle.Ends.{
  EndsIn, continue-EndsIn, recover-EndsIn, initialize_body-Ends, start_body-Ends, stop_body-Ends,
  pause_body-Ends, resume_body-Ends,
}
use kuva_ai.Lifecycle.Table.{
  IsMove, no_report, initialize_moves, start_moves, stop_moves, pause_moves, resume_moves,
}

true-ne-false : true ≢ false
true-ne-false p = cc

-- If the method returned, it was allowed, and the state is `st`.
abbrev Moved : (AgentState → Bool) → AgentState → AgentState → Result Error Unit × Manager → Type 0
Moved allowed st from (ok a, s) = (allowed from ≡ true) × (s.state ≡ st)
Moved allowed st from (err e, s) = Unit

Moved-of :
    (allowed : AgentState → Bool) (st from : AgentState)
    → allowed from ≡ true
    → (x : Result Error Unit × Manager) → EndsIn st x
    → Moved allowed st from (release x)
Moved-of allowed st from a (ok u, s) h = (a, h)
Moved-of allowed st from a (err e, s) h = tt

guard-Moved :
    (allowed : AgentState → Bool) (st from : AgentState) (k : Action) (e : Error)
    → ((s : Manager) → EndsIn st (k s))
    → (b : Bool) → allowed from ≡ b
    → (s : Manager) → Moved allowed st from (release (continue (λ _. k) (guard b e s)))
guard-Moved allowed st from k e h true a s = Moved-of allowed st from a (k s) (h s)
guard-Moved allowed st from k e h false a s = tt

enter-Moved :
    (allowed : AgentState → Bool) (refused : AgentState → Error) (st : AgentState) (k : Action)
    → ((s : Manager) → EndsIn st (k s))
    → (b : Bool) (s : Manager)
    → Moved allowed st s.state
        (enter b (λ s'. continue (λ _. k) (guard (allowed s'.state) (refused s'.state) s')) s)
enter-Moved allowed refused st k h true s = tt
enter-Moved allowed refused st k h false s =
    guard-Moved allowed st s.state k (refused s.state) h (allowed s.state) refl
      (record s { held = true })

Moved-ok :
    (allowed : AgentState → Bool) (o : Op) (st from : AgentState) (x : Result Error Unit × Manager)
    → (allowed from ≡ true → IsMove o from st)
    → Moved allowed st from x
    → x.0 ≡ ok tt
    → IsMove o from x.1.state
Moved-ok allowed o st from (ok a, s) h m e = subst (IsMove o from) (sym (m.1)) (h (m.0))
Moved-ok allowed o st from (err e, s) h m p = cc

abbrev Fails : Result Error Unit → Type 0
Fails (ok a) = ⊥
Fails (err e) = Unit

Fails-ne : (x : Result Error Unit) → Fails x → x ≢ ok tt
Fails-ne (ok a) f p = elim f [ ]
Fails-ne (err e) f p = cc

Fails-continue :
    (k : Action) (x : Result Error Unit × Manager) → Fails x.0 → Fails (continue (λ _. k) x).0
Fails-continue k (ok a, s) f = elim f [ ]
Fails-continue k (err e, s) f = tt

Fails-count : (x : Result Error Unit × Manager) → Fails x.0 → Fails (count_attempt x).0
unfolding count_attempt
Fails-count (ok a, s) f = elim f [ ]
Fails-count (err e, s) f = tt

Moved-Fails :
    (allowed : AgentState → Bool) (st from : AgentState) (x : Result Error Unit × Manager)
    → allowed from ≡ false
    → Moved allowed st from x
    → Fails x.0
Moved-Fails allowed st from (ok a, s) h m = absurd (true-ne-false (sym (m.0) ∙ h))
Moved-Fails allowed st from (err e, s) h m = tt

module _ (phase_of : AgentState → Option LifecyclePhase) (cfg : Config) (w : World) where
  module _ (rec : Action) where
    transition-Moved :
        (allowed : AgentState → Bool) (refused : AgentState → Error) (working : AgentState)
        (failure : Error) (body : Action) (st : AgentState)
        → ((s : Manager) → EndsIn st (body s))
        → (s : Manager)
        → Moved allowed st s.state
            (transition phase_of cfg w rec allowed refused working failure body s)
    unfolding transition locked catch
    transition-Moved allowed refused working failure body st h s =
        enter-Moved allowed refused st
          (set_state phase_of cfg w working >> catch phase_of cfg w rec failure body)
          (λ s'.
            continue-EndsIn st (catch phase_of cfg w rec failure body)
              (λ t. recover-EndsIn phase_of cfg w rec failure st (body t) (h t))
              (set_state phase_of cfg w working s'))
          s.held s

  module _ (rec : Action) where
    initialize-Moved :
        (s : Manager) → Moved is_created initialized s.state (initialize phase_of cfg w rec s)
    unfolding initialize
    initialize-Moved s =
        transition-Moved rec _ _ _ _ _ initialized (initialize_body-Ends phase_of cfg w).run s

    start-Moved : (s : Manager) → Moved is_startable running s.state (start phase_of cfg w rec s)
    unfolding start
    start-Moved s = transition-Moved rec _ _ _ _ _ running (start_body-Ends phase_of cfg w).run s

    stop-Moved : (s : Manager) → Moved is_stoppable stopped s.state (stop phase_of cfg w rec s)
    unfolding stop
    stop-Moved s = transition-Moved rec _ _ _ _ _ stopped (stop_body-Ends phase_of cfg w).run s

    pause-Moved : (s : Manager) → Moved is_running paused s.state (pause phase_of cfg w rec s)
    unfolding pause
    pause-Moved s = transition-Moved rec _ _ _ _ _ paused (pause_body-Ends phase_of cfg w).run s

    resume-Moved : (s : Manager) → Moved is_paused running s.state (resume phase_of cfg w rec s)
    unfolding resume
    resume-Moved s = transition-Moved rec _ _ _ _ _ running (resume_body-Ends phase_of cfg w).run s

    -- If `stop` returned, `initialize` refuses.
    stopped_again :
        (s : Manager) (x : Result Error Unit × Manager)
        → Moved is_stoppable stopped s.state x
        → Fails (continue (λ _. initialize phase_of cfg w rec >> start phase_of cfg w rec) x).0
    unfolding is_created
    stopped_again s (ok a, t) m =
        Fails-continue (start phase_of cfg w rec) (initialize phase_of cfg w rec t)
          (Moved-Fails is_created initialized t.state _ (ap is_created (m.1)) (initialize-Moved t))
    stopped_again s (err e, t) m = tt

    restart_with-Fails : (s : Manager) → Fails (restart_with phase_of cfg w rec s).0
    unfolding restart_with stop_and_start
    restart_with-Fails s = elim (Bool-cases (ltb s.restart_count cfg.max_restart_attempts)) [
      | inl e ↦
          rw (e, restart_with)
            (Fails-count _ (stopped_again s (stop phase_of cfg w rec s) (stop-Moved s)))
      | inr e ↦ rw (e, restart_with) tt
    ]

  -- An operation that returns has made one of the moves of `IsMove`; `restart` never returns.
  pub perform-IsMove :
      (o : Op) (s : Manager)
      → (perform phase_of cfg w o s).0 ≡ ok tt
      → IsMove o s.state (perform phase_of cfg w o s).1.state
  unfolding perform restart
  perform-IsMove initialize_op s e =
      Moved-ok is_created initialize_op initialized s.state _ (initialize_moves s.state)
        (initialize-Moved _ s) e
  perform-IsMove start_op s e =
      Moved-ok is_startable start_op running s.state _ (start_moves s.state) (start-Moved _ s) e
  perform-IsMove stop_op s e =
      Moved-ok is_stoppable stop_op stopped s.state _ (stop_moves s.state) (stop-Moved _ s) e
  perform-IsMove pause_op s e =
      Moved-ok is_running pause_op paused s.state _ (pause_moves s.state) (pause-Moved _ s) e
  perform-IsMove resume_op s e =
      Moved-ok is_paused resume_op running s.state _ (resume_moves s.state) (resume-Moved _ s) e
  perform-IsMove restart_op s e =
      absurd (Fails-ne _ (restart_with-Fails (restart_inside phase_of cfg w) s) e)
  perform-IsMove unhealthy_op s e = no_report

  -- `restart` never returns, whatever the state, the configuration and the agent.
  pub restart_failure : (s : Manager) → (restart phase_of cfg w s).0 ≢ ok tt
  unfolding restart
  restart_failure s = Fails-ne _ (restart_with-Fails (restart_inside phase_of cfg w) s)
