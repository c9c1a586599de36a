-- ===== src/Lifecycle/Attempts.antt =====
-- The bounds of core/agent/lifecycle.py over sequences of operations: what `_handle_error` and
-- `restart` do to the count of restarts.
use kuva_ai.Prelude.{
  ℕ, ◌+◌, ◌≤◌, arith, Bool, true, false, Option, List, [], ◌∷◌, ltb, refl, Bool-cases, inl, inr,
  ltb→lt,
}
use kuva_ai.Exec.{Result, ok, err, raise, guard}
use kuva_ai.Exec.Ensures.{Keeps, Always, Ensures-then, Ensures-raise, Keeps-of_state}
use kuva_ai.Lifecycle.{
  LifecyclePhase, AgentState, lock_already_held, new_manager, error, Config, World, Error, Manager,
  Action,
}
use kuva_ai.Lifecycle.Methods.{
  locked, handle_error, recover, catch, stop_and_start, transition, initialize, start, stop, pause,
  resume, restart_with, count_attempt,
}
use kuva_ai.Lifecycle.Restart.{
  Op, initialize_op, start_op, stop_op, pause_op, resume_op, restart_op, unhealthy_op,
  restart_inside, restart, after_restart, handle_unhealthy, perform, perform_all, restart-held,
}
use kuva_ai.Lifecycle.Bounds.{
  IsBounded, KeepsBounds-call, KeepsBounds-set_state, KeepsBounds-modify, KeepsBounds-when,
  KeepsBounds-guard, KeepsBounds-initialize_body, KeepsBounds-start_body, KeepsBounds-stop_body,
  KeepsBounds-pause_body, KeepsBounds-resume_body,
}

module _ (phase_of : AgentState → Option LifecyclePhase) (cfg : Config) (w : World) (n : ℕ)
    (limit : cfg.max_restart_attempts ≤ n) where
  Keeps-restart_inside : Keeps (IsBounded true n) (restart_inside phase_of cfg w)
  unfolding restart_inside count_attempt
  Keeps-restart_inside = Keeps-of_state _ λ s h.
      elim (restart-held phase_of cfg w (raise lock_already_held) s h.held) [
        | inl (e, _) ↦ rw (e, restart_inside) h
        | inr (e, b) ↦
            rw (e, restart_inside)
              (record {
                held = h.held;
                count = omega (arith, limit, ltb→lt s.restart_count cfg.max_restart_attempts b);
                history = h.history;
              })
      ]

  Keeps-handle_error :
      Keeps (IsBounded true n) (handle_error phase_of cfg w (restart_inside phase_of cfg w))
  unfolding handle_error
  Keeps-handle_error =
      Ensures-then _ _
        (KeepsBounds-modify phase_of cfg w true n _
          (λ s h. record { held = h.held; count = h.count; history = h.history }))
        (Ensures-then _ _ (KeepsBounds-set_state phase_of cfg w true n _) (
          Ensures-then _ _
            (KeepsBounds-when phase_of cfg w true n _ _ (KeepsBounds-call phase_of cfg w true n _))
            (KeepsBounds-when phase_of cfg w true n _ _ Keeps-restart_inside)))

  recover-IsBounded :
      (failure : Error) (x : Result Error Unit × Manager)
      → IsBounded true n x.1
      → IsBounded true n (recover phase_of cfg w (restart_inside phase_of cfg w) failure x).1
  unfolding recover
  recover-IsBounded failure (ok a, s) h = h
  recover-IsBounded failure (err e, s) h =
      ((Ensures-then {R = Always} _ (raise failure) Keeps-handle_error (Ensures-raise failure)).run
        s h).0

  Keeps-catch :
      (failure : Error) (body : Action)
      → Keeps (IsBounded true n) body
      → Keeps (IsBounded true n) (catch phase_of cfg w (restart_inside phase_of cfg w) failure body)
  unfolding catch
  Keeps-catch failure body hb =
      Keeps-of_state _ λ s h. recover-IsBounded failure (body s) ((hb.run s h).0)

  Keeps-guard_of :
      (f : Manager → Bool) (e : Manager → Error)
      → Keeps (IsBounded true n) (λ s. guard (f s) (e s) s)
  Keeps-guard_of f e =
      Keeps-of_state _ λ s h. ((KeepsBounds-guard phase_of cfg w true n (f s) (e s)).run s h).0

  Keeps-locked : (m : Action) → Keeps (IsBounded true n) m → Keeps (IsBounded false n) (locked m)
  unfolding locked
  Keeps-locked m hm = Keeps-of_state _ λ s h.
      rw (h.held, locked)
        (let i =
            (hm.run (record s { held = true })
              (record { held = refl; count = h.count; history = h.history })).0 in
          record { held = refl; count = i.count; history = i.history })

  Keeps-transition :
      (allowed : AgentState → Bool) (refused : AgentState → Error) (working : AgentState)
      (failure : Error) (body : Action)
      → Keeps (IsBounded true n) body
      → Keeps (IsBounded false n) (
          transition phase_of cfg w
            (restart_inside phase_of cfg w)
            allowed
            refused
            working
            failure
            body)
  unfolding transition
  Keeps-transition allowed refused working failure body hb = Keeps-locked _ (
      Keeps-of_state _ λ s h.
        ((Ensures-then (guard (allowed s.state) (refused s.state)) _
            (KeepsBounds-guard phase_of cfg w true n _ _)
            (Ensures-then _ _ (KeepsBounds-set_state phase_of cfg w true n working)
              (Keeps-catch failure body hb))).run
          s h).0)

  Keeps-initialize :
      Keeps (IsBounded false n) (initialize phase_of cfg w (restart_inside phase_of cfg w))
  unfolding initialize
  Keeps-initialize = Keeps-transition _ _ _ _ _ (KeepsBounds-initialize_body phase_of cfg w true n)

  Keeps-start : Keeps (IsBounded false n) (start phase_of cfg w (restart_inside phase_of cfg w))
  unfolding start
  Keeps-start = Keeps-transition _ _ _ _ _ (KeepsBounds-start_body phase_of cfg w true n)

  Keeps-stop : Keeps (IsBounded false n) (stop phase_of cfg w (restart_inside phase_of cfg w))
  unfolding stop
  Keeps-stop = Keeps-transition _ _ _ _ _ (KeepsBounds-stop_body phase_of cfg w true n)

  Keeps-pause : Keeps (IsBounded false n) (pause phase_of cfg w (restart_inside phase_of cfg w))
  unfolding pause
  Keeps-pause = Keeps-transition _ _ _ _ _ (KeepsBounds-pause_body phase_of cfg w true n)

  Keeps-resume : Keeps (IsBounded false n) (resume phase_of cfg w (restart_inside phase_of cfg w))
  unfolding resume
  Keeps-resume = Keeps-transition _ _ _ _ _ (KeepsBounds-resume_body phase_of cfg w true n)

  Keeps-stop_and_start :
      Keeps (IsBounded false n) (stop_and_start phase_of cfg w (restart_inside phase_of cfg w))
  unfolding stop_and_start
  Keeps-stop_and_start = Ensures-then _ _ Keeps-stop (Ensures-then _ _ Keeps-initialize Keeps-start)

module _ (phase_of : AgentState → Option LifecyclePhase) (cfg : Config) (w : World) where
  abbrev top : ℕ
  top = cfg.max_restart_attempts + 1

  counted :
      (x : Result Error Unit × Manager)
      → IsBounded false cfg.max_restart_attempts x.1
      → IsBounded false top (count_attempt x).1
  unfolding count_attempt
  counted (ok a, s) h = record { held = h.held; count = omega arith; history = h.history }
  counted (err e, s) h = record {
    held = h.held;
    count = omega (arith, h.count);
    history = h.history;
  }

  Keeps-restart : Keeps (IsBounded false top) (restart phase_of cfg w)
  unfolding restart restart_with
  Keeps-restart = Keeps-of_state _ λ s h.
      elim (Bool-cases (ltb s.restart_count cfg.max_restart_attempts)) [
        | inl e ↦
            rw (e, restart, restart_with)
              (counted _ (
                ((Keeps-stop_and_start phase_of cfg w cfg.max_restart_attempts (omega arith)).run s
                  (record {
                    held = h.held;
                    count = omega (arith, ltb→lt s.restart_count cfg.max_restart_attempts e);
                    history = h.history;
                  })).0))
        | inr e ↦ rw (e, restart, restart_with) h
      ]

  Keeps-handled :
      (x : Result Error Unit × Manager)
      → IsBounded false top x.1
      → IsBounded false top (after_restart phase_of cfg w x).1
  unfolding after_restart
  Keeps-handled (ok a, s) h = h
  Keeps-handled (err e, s) h = ((KeepsBounds-set_state phase_of cfg w false top error).run s h).0

  Keeps-handle_unhealthy : Keeps (IsBounded false top) (handle_unhealthy phase_of cfg w)
  unfolding handle_unhealthy
  Keeps-handle_unhealthy = Keeps-of_state _ λ s h.
      elim (Bool-cases (ltb 0 cfg.max_restart_attempts)) [
        | inl e ↦
            rw (e, handle_unhealthy)
              (Keeps-handled (restart phase_of cfg w s) ((Keeps-restart.run s h).0))
        | inr e ↦ rw (e, handle_unhealthy) h
      ]

  Keeps-perform : (o : Op) → Keeps (IsBounded false top) (perform phase_of cfg w o)
  unfolding perform
  Keeps-perform initialize_op = Keeps-initialize phase_of cfg w top (omega arith)
  Keeps-perform start_op = Keeps-start phase_of cfg w top (omega arith)
  Keeps-perform stop_op = Keeps-stop phase_of cfg w top (omega arith)
  Keeps-perform pause_op = Keeps-pause phase_of cfg w top (omega arith)
  Keeps-perform resume_op = Keeps-resume phase_of cfg w top (omega arith)
  Keeps-perform restart_op = Keeps-restart
  Keeps-perform unhealthy_op = Keeps-handle_unhealthy

  IsBounded-all :
      (os : List Op) (s : Manager)
      → IsBounded false top s
      → IsBounded false top (perform_all phase_of cfg w os s)
  unfolding perform_all
  IsBounded-all [] s h = h
  IsBounded-all (o ∷ os) s h = IsBounded-all os _ (((Keeps-perform o).run s h).0)

  -- After any sequence of operations on a new manager, and whatever raises, the state lock is free,
  -- the history holds at most 1000 events, and the restart count is at most one over its limit.
  pub perform_all-IsBounded :
      (os : List Op) (middlewares : ℕ)
      → IsBounded false
          (cfg.max_restart_attempts + 1)
          (perform_all phase_of cfg w os (new_manager middlewares))
  unfolding new_manager
  perform_all-IsBounded os n =
      IsBounded-all os (new_manager n)
        (record { held = refl; count = omega arith; history = omega arith })
