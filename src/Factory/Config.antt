-- ===== src/Factory/Config.antt =====
-- core/agent/factory.py: the registry, the loaders, and how a configuration is resolved.
use kuva_ai.Prelude.{
  String, Bool, true, false, Option, none, some, List, [], ◌∷◌, ◌++◌, ◌==◌, contains, filter,
  if◌then◌else◌,
}
use kuva_ai.Dict.{Dict, lookup, insert, remove}
use kuva_ai.Exec.{Result, ok, err, pure, raise, gets, modify, ◌>>=◌, ◌>>◌, for_each}
use kuva_ai.Factory.{
  Error, configuration_error, load_error, FactoryConfig, AgentClass, AgentConfig, Outside,
  AgentFactory, Action,
}

-- `dict.update`
unfoldable pub update : Dict String → Dict String → Dict String
update d [] = d
update d ((k, v) ∷ e) = update (insert k v d) e

abbrev pub loader_names : List String
loader_names = "env" ∷ "vault" ∷ "consul" ∷ []

module _ (out : Outside) where
  -- `_setup_config_loaders`
  unfoldable pub setup_config_loaders : AgentFactory → AgentFactory
  setup_config_loaders f = record f {
    loaders = f.loaders ++ filter (λ n. contains n loader_names) f.config.config_loader_priority;
  }

  -- `register`, of a class that may be no agent's
  unfoldable pub register : AgentClass → Action Unit
  register c f =
      if c.is_agent
      then (ok tt, record f { registry = insert c.name c f.registry })
      else (err configuration_error, f)

  -- `_register_module_agents`: what is no agent class is passed over.
  abbrev pub register_if : AgentClass → Action Unit
  register_if c f = if c.is_agent then register c f else (ok tt, f)

  abbrev pub discovered : Option (List AgentClass) → Bool → Action Unit
  discovered none true = raise configuration_error
  discovered none false = pure tt
  discovered (some cs) strict = for_each cs register_if

  abbrev pub discover : String → Action Unit
  discover path f = discovered (out.modules path) f.config.strict_mode f

  unfoldable pub discover_agents : Action Unit
  discover_agents f = for_each f.config.auto_discovery_paths discover f

  abbrev pub set_initialized : Action Unit
  set_initialized = modify (λ f. record f { initialized = true })

  -- `initialize`: an instance that is initialized stays as it is.
  abbrev pub initialize_if : Bool → FactoryConfig → Action Unit
  initialize_if true cfg = pure tt
  initialize_if false cfg = do
    modify (λ f. record f { config = cfg })
    modify setup_config_loaders
    discover_agents
    set_initialized

  unfoldable pub initialize : FactoryConfig → Action Unit
  initialize cfg = do done ← gets (λ f. f.initialized); initialize_if done cfg

  abbrev pub loaded :
      Option (Dict String) → (strict : Bool) → Dict String → Result Error (Dict String)
  loaded none true d = err load_error
  loaded none false d = ok d
  loaded (some e) strict d = ok (update d e)

  abbrev pub then_load :
      (Dict String → Result Error (Dict String))
      → Result Error (Dict String)
      → Result Error (Dict String)
  then_load rest (err e) = err e
  then_load rest (ok d) = rest d

  abbrev pub skip_or :
      Bool
      → (Dict String → Result Error (Dict String))
      → Result Error (Dict String)
      → Dict String
      → Result Error (Dict String)
  skip_or true rest r d = then_load rest r
  skip_or false rest r d = rest d

  -- The loop over the loaders in `_resolve_config`.
  unfoldable pub load_all :
      List String → List String → Bool → String → Dict String → Result Error (Dict String)
  load_all loaders [] strict source d = ok d
  load_all loaders (n ∷ ns) strict source d =
      skip_or (contains n loaders) (load_all loaders ns strict source)
        (loaded (out.load n source) strict d) d

  -- `if config_source`: an empty source is as good as none.
  abbrev pub load_from : AgentFactory → Option String → Result Error (Dict String)
  load_from f none = ok []
  load_from f (some source) =
      if source == ""
      then ok []
      else load_all f.loaders f.config.config_loader_priority f.config.strict_mode source []

  abbrev pub validated : Option AgentConfig → Result Error AgentConfig
  validated none = err configuration_error
  validated (some c) = ok c

  abbrev pub validated_for : String → Option AgentClass → Dict String → Result Error AgentConfig
  validated_for agent_type none d = err configuration_error
  validated_for agent_type (some c) d = validated (out.validate agent_type d)

  abbrev pub configured :
      String → Option AgentClass → Result Error (Dict String) → Result Error AgentConfig
  configured agent_type c (err e) = err e
  configured agent_type c (ok d) = validated_for agent_type c d

  -- `_resolve_config`
  unfoldable pub resolve_config : String → Option String → AgentFactory → Result Error AgentConfig
  resolve_config agent_type source f =
      configured agent_type (lookup agent_type f.registry) (load_from f source)

  -- `invalidate_cache`: without a name, or with an empty one, the whole cache.
  unfoldable pub invalidate_cache : Option String → AgentFactory → AgentFactory
  invalidate_cache none f = record f { cache = [] }
  invalidate_cache (some n) f = record f { cache = if n == "" then [] else remove n f.cache }

  abbrev pub class_or : Option AgentClass → Result Error AgentClass
  class_or none = err configuration_error
  class_or (some c) = ok c

  unfoldable pub get_agent_class : String → AgentFactory → Result Error AgentClass
  get_agent_class agent_type f = class_or (lookup agent_type f.registry)
