-- ===== src/Lifecycle/Bounds.antt =====
-- What every method of core/agent/lifecycle.py keeps: the bounds of the history and of the count of
-- restarts, and the lock.
use kuva_ai.Prelude.{
  ℕ, ◌≤◌, arith, Bool, true, false, Option, List, [], ◌∷◌, length, length-append, ◌≡◌, Bool-cases,
  Option-cases, inl, inr,
}
use kuva_ai.Exec.{modify, guard, ◌>>◌}
use kuva_ai.Exec.Ensures.{
  Keeps, Ensures-then, Ensures-pure, Ensures-raise, Keeps-modify, Keeps-for_each, Keeps-of_state,
}
use kuva_ai.Lifecycle.{LifecyclePhase, AgentState, Config, World, Call, Error, Manager, Action}
use kuva_ai.Lifecycle.Methods.{
  append_event, when, call, set_state, run_middlewares, resolve_dependencies, start_dependencies,
  stop_dependencies, initialize_body, start_body, stop_body, pause_body, resume_body, with_instance,
}

length-append_event :
    (es : List AgentState) (e : AgentState) → length es ≤ 1000 → length (append_event es e) ≤ 1000
unfolding append_event
length-append_event [] e h = omega arith
length-append_event (x ∷ es) e h =
    ground (arith, length-append (x ∷ es) (e ∷ []), length-append es (e ∷ []))

pub record IsBounded (locked : Bool) (n : ℕ) (s : Manager) : Type 0 where
  pub held : s.held ≡ locked
  pub count : s.restart_count ≤ n
  pub history : length s.events ≤ 1000

module _ (phase_of : AgentState → Option LifecyclePhase) (cfg : Config) (w : World) (l : Bool)
    (n : ℕ) where
  abbrev KeepsBounds : Action → Type 0
  KeepsBounds m = Keeps (IsBounded l n) m

  KeepsBounds-then : (m k : Action) → KeepsBounds m → KeepsBounds k → KeepsBounds (m >> k)
  KeepsBounds-then m k hm hk = Ensures-then m k hm hk

  pub KeepsBounds-call : (c : Call) → KeepsBounds (call phase_of cfg w c)
  unfolding call
  KeepsBounds-call c = Keeps-of_state (call phase_of cfg w c) λ s h.
      elim (Bool-cases (w.fails c s.calls)) [
        | inl e ↦ rw (e, call) (record { held = h.held; count = h.count; history = h.history })
        | inr e ↦ rw (e, call) (record { held = h.held; count = h.count; history = h.history })
      ]

  pub KeepsBounds-when : (b : Bool) (m : Action) → KeepsBounds m → KeepsBounds (when b m)
  KeepsBounds-when true m h = h
  KeepsBounds-when false m h = Ensures-pure tt tt

  pub KeepsBounds-guard : (b : Bool) (e : Error) → KeepsBounds (guard b e)
  KeepsBounds-guard true e = Ensures-pure tt tt
  KeepsBounds-guard false e = Ensures-raise e

  pub KeepsBounds-modify :
      (f : Manager → Manager)
      → ((s : Manager) → IsBounded l n s → IsBounded l n (f s))
      → KeepsBounds (modify f)
  KeepsBounds-modify f h = Keeps-modify f h

  pub KeepsBounds-set_state : (new : AgentState) → KeepsBounds (set_state phase_of cfg w new)
  unfolding set_state
  KeepsBounds-set_state new = elim (Option-cases (phase_of new)) [
    | inl e ↦ rw (e, set_state) (Ensures-raise _)
    | inr (p, e) ↦
        rw (e, set_state)
          (KeepsBounds-then _ _
            (KeepsBounds-modify _ (λ s h. record {
              held = h.held;
              count = h.count;
              history = length-append_event s.events new h.history;
            }))
            (KeepsBounds-when _ _ (KeepsBounds-call _)))
  ]

  KeepsBounds-middlewares : KeepsBounds (run_middlewares phase_of cfg w)
  unfolding run_middlewares
  KeepsBounds-middlewares =
      KeepsBounds-modify _ (λ s h. record { held = h.held; count = h.count; history = h.history })

  KeepsBounds-dependencies : KeepsBounds (resolve_dependencies phase_of cfg w)
  unfolding resolve_dependencies
  KeepsBounds-dependencies = Keeps-for_each w.dependencies _ (λ d.
      KeepsBounds-then _ _ (KeepsBounds-guard _ _) (
        KeepsBounds-modify _
          (λ s h. record { held = h.held; count = h.count; history = h.history })))

  KeepsBounds-instance : (e : Error) → KeepsBounds (with_instance phase_of cfg w e)
  KeepsBounds-instance e = Keeps-of_state _ λ s h. ((KeepsBounds-guard s.has_instance e).run s h).0

  KeepsBounds-start_dependencies : KeepsBounds (start_dependencies phase_of cfg w)
  unfolding start_dependencies
  KeepsBounds-start_dependencies = Keeps-of_state _ λ s h. ((KeepsBounds-guard _ _).run s h).0

  KeepsBounds-stop_dependencies : KeepsBounds (stop_dependencies phase_of cfg w)
  unfolding stop_dependencies
  KeepsBounds-stop_dependencies = Keeps-of_state _ λ s h. ((KeepsBounds-guard _ _).run s h).0

  pub KeepsBounds-initialize_body : KeepsBounds (initialize_body phase_of cfg w)
  unfolding initialize_body
  KeepsBounds-initialize_body = KeepsBounds-then _ _ (KeepsBounds-when _ _ (KeepsBounds-call _)) (
      KeepsBounds-then _ _ KeepsBounds-dependencies (
        KeepsBounds-then _ _ KeepsBounds-middlewares (
          KeepsBounds-then _ _ (KeepsBounds-call _) (
            KeepsBounds-then _ _
              (KeepsBounds-modify _
                (λ s h. record { held = h.held; count = h.count; history = h.history }))
              (KeepsBounds-then _ _ (KeepsBounds-call _) (
                KeepsBounds-then _ _ (KeepsBounds-when _ _ (KeepsBounds-call _))
                  (KeepsBounds-then _ _ KeepsBounds-middlewares (KeepsBounds-set_state _))))))))

  pub KeepsBounds-start_body : KeepsBounds (start_body phase_of cfg w)
  unfolding start_body
  KeepsBounds-start_body = KeepsBounds-then _ _ KeepsBounds-start_dependencies (
      KeepsBounds-then _ _ KeepsBounds-middlewares (
        KeepsBounds-then _ _ (KeepsBounds-instance _) (
          KeepsBounds-then _ _ (KeepsBounds-call _) (
            KeepsBounds-then _ _
              (KeepsBounds-modify _
                (λ s h. record { held = h.held; count = h.count; history = h.history }))
              (KeepsBounds-then _ _ KeepsBounds-middlewares (KeepsBounds-set_state _))))))

  pub KeepsBounds-stop_body : KeepsBounds (stop_body phase_of cfg w)
  unfolding stop_body
  KeepsBounds-stop_body = KeepsBounds-then _ _ KeepsBounds-middlewares (
      KeepsBounds-then _ _ (KeepsBounds-instance _) (
        KeepsBounds-then _ _ (KeepsBounds-call _) (
          KeepsBounds-then _ _
            (KeepsBounds-modify _
              (λ s h. record { held = h.held; count = h.count; history = h.history }))
            (KeepsBounds-then _ _ KeepsBounds-stop_dependencies (
              KeepsBounds-then _ _ (KeepsBounds-when _ _ (KeepsBounds-call _))
                (KeepsBounds-then _ _ KeepsBounds-middlewares (KeepsBounds-set_state _)))))))

  pub KeepsBounds-pause_body : KeepsBounds (pause_body phase_of cfg w)
  unfolding pause_body
  KeepsBounds-pause_body = KeepsBounds-then _ _ KeepsBounds-middlewares (
      KeepsBounds-then _ _ (KeepsBounds-instance _) (
        KeepsBounds-then _ _ (KeepsBounds-call _)
          (KeepsBounds-then _ _ KeepsBounds-middlewares (KeepsBounds-set_state _))))

  pub KeepsBounds-resume_body : KeepsBounds (resume_body phase_of cfg w)
  unfolding resume_body
  KeepsBounds-resume_body = KeepsBounds-then _ _ KeepsBounds-middlewares (
      KeepsBounds-then _ _ (KeepsBounds-instance _) (
        KeepsBounds-then _ _ (KeepsBounds-call _)
          (KeepsBounds-then _ _ KeepsBounds-middlewares (KeepsBounds-set_state _))))
