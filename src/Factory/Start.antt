-- ===== src/Factory/Start.antt =====
-- core/agent/factory.py: no call of `create` returns, from the initialization on.
use kuva_ai.Prelude.{
  ℕ, ◌≡◌, refl, String, Bool, true, false, Option, none, some, List, all, Bool-cases, inl, inr,
  if◌then◌else◌,
}
use kuva_ai.Exec.{ok, gets, modify}
use kuva_ai.Exec.Ensures.{
  Always, Keeps, Ensures-pure, Ensures-raise, Ensures-bind, Ensures-then, Keeps-modify,
  Keeps-for_each, Keeps-of_state,
}
use kuva_ai.Factory.{FactoryConfig, AgentClass, Arguments, Outside, new_factory}
use kuva_ai.Factory.Config.{
  register, register_if, discovered, discover, discover_agents, initialize_if, initialize,
  setup_config_loaders,
}
use kuva_ai.Factory.Create.{create_all}
use kuva_ai.Factory.Never.{IsEmpty, get-Keeps, is_error, create_all-errors}

module _ (out : Outside) where
  register-Keeps : (c : AgentClass) → Keeps IsEmpty (register out c)
  unfolding register
  register-Keeps c = Keeps-of_state _ (λ f h. elim (Bool-cases c.is_agent) [
    | inl e ↦ rw e (record { no_cache = h.no_cache; no_memo = h.no_memo })
    | inr e ↦ rw e h
  ])

  register_if-Keeps : (c : AgentClass) → Keeps IsEmpty (register_if out c)
  register_if-Keeps c = Keeps-of_state _ (λ f h.
      elim c.is_agent as (λ b. IsEmpty (if b then register out c f else (ok tt, f)).1) [
        | true ↦ ((register-Keeps c).run f h).0
        | false ↦ h
      ])

  discovered-Keeps : (o : Option (List AgentClass)) (b : Bool) → Keeps IsEmpty (discovered out o b)
  discovered-Keeps none true = Ensures-raise _
  discovered-Keeps none false = Ensures-pure tt tt
  discovered-Keeps (some cs) b = Keeps-for_each cs _ register_if-Keeps

  discover-Keeps : (path : String) → Keeps IsEmpty (discover out path)
  discover-Keeps path = record {
    run = λ f h. (discovered-Keeps (out.modules path) f.config.strict_mode).run f h;
  }

  agents-Keeps : Keeps IsEmpty (discover_agents out)
  unfolding discover_agents
  agents-Keeps = record {
    run = λ f h. (Keeps-for_each f.config.auto_discovery_paths _ discover-Keeps).run f h;
  }

  initialize_if-Keeps : (b : Bool) (cfg : FactoryConfig) → Keeps IsEmpty (initialize_if out b cfg)
  unfolding setup_config_loaders
  initialize_if-Keeps true cfg = Ensures-pure tt tt
  initialize_if-Keeps false cfg =
      Ensures-then (modify (λ f. record f { config = cfg })) _
        (Keeps-modify (λ f. record f { config = cfg })
          (λ f h. record { no_cache = h.no_cache; no_memo = h.no_memo }))
        (Ensures-then (modify (setup_config_loaders out)) _
          (Keeps-modify (setup_config_loaders out)
            (λ f h. record { no_cache = h.no_cache; no_memo = h.no_memo }))
          (Ensures-then _ _ agents-Keeps (
            Keeps-modify (λ f. record f { initialized = true })
              (λ f h. record { no_cache = h.no_cache; no_memo = h.no_memo }))))

  initialize-Keeps : (cfg : FactoryConfig) → Keeps IsEmpty (initialize out cfg)
  unfolding initialize
  initialize-Keeps cfg =
      Ensures-bind Always (gets (λ f. f.initialized)) _ (get-Keeps _)
        (λ b _. initialize_if-Keeps b cfg)

  -- After `initialize`, no call of `create` returns an agent, whatever classes, loaders and configurations
  -- there are and whatever was called before.
  pub create_all-never :
      (cfg : FactoryConfig) (depth : ℕ) (as_ : List Arguments)
      → all is_error (create_all out depth as_ (initialize out cfg new_factory).1).0 ≡ true
  create_all-never cfg depth as_ =
      create_all-errors out depth as_ (initialize out cfg new_factory).1
        ((initialize-Keeps cfg).run new_factory (record { no_cache = refl; no_memo = refl })).0
