-- ===== src/Factory/Create.antt =====
-- core/agent/factory.py: `create`, with its `lru_cache`, and the resolving of dependencies. A RecursionError
-- stands for what Python raises when the nesting of calls gets too deep.
use kuva_ai.Prelude.{
  ℕ, zero, suc, String, Bool, true, false, ◌&&◌, Option, none, some, List, [], ◌∷◌, if◌then◌else◌,
}
use kuva_ai.Dict.{Dict, lookup, insert, keys}
use kuva_ai.Exec.{Result, ok, err, pure, raise, gets, modify, ◌>>=◌, ◌>>◌}
use kuva_ai.Factory.{
  Error, configuration_error, dependency_error, runtime_error, type_error, key_error,
  recursion_error, AgentClass, AgentConfig, Agent, Arguments, Outside, AgentFactory, Action,
}
use kuva_ai.Factory.Graph.{add_dependency}
use kuva_ai.Factory.Config.{resolve_config}

abbrev pub required : {A : Type 0} → Error → Option A → Action A
required e none = raise e
required e (some a) = pure a

-- The errors of `create`'s `except` clause
abbrev pub as_factory_error : Error → Error
as_factory_error configuration_error = configuration_error
as_factory_error dependency_error = dependency_error
as_factory_error e = runtime_error

abbrev pub reported : Result Error Agent × AgentFactory → Result Error Agent × AgentFactory
reported (ok a, f) = (ok a, f)
reported (err e, f) = (err (as_factory_error e), f)

-- `add_dependency(agent_type, *names)`: a call with one name.
abbrev pub add_names : String → List String → Action Unit
add_names agent_type [] = raise type_error
add_names agent_type (n ∷ []) =
    modify (λ f. record f { dependency_graph = add_dependency agent_type n f.dependency_graph })
add_names agent_type (n ∷ m ∷ ns) = raise type_error

-- What `lru_cache` has for these arguments.
abbrev pub recall : (Arguments → Bool) → List (Arguments × Agent) → Option Agent
recall same [] = none
recall same ((b, x) ∷ ms) = if same b then some x else recall same ms

module _ (out : Outside) where
  abbrev pub config_hashes : Option AgentConfig → Bool
  config_hashes none = true
  config_hashes (some c) = out.can_hash c

  -- A dictionary, also an empty one, cannot be hashed.
  abbrev pub dict_hashes : Option (Dict Agent) → Bool
  dict_hashes none = true
  dict_hashes (some d) = false

  abbrev pub hashes : Arguments → Bool
  hashes a = config_hashes a.config && dict_hashes a.dependencies

  abbrev pub arguments_for : String → AgentConfig → Arguments
  arguments_for agent_type c = record {
    agent_type = agent_type;
    config = some c;
    config_source = none;
    dependencies = some [];
  }

  abbrev pub store_if : Bool → String → Agent → Action Unit
  store_if false n a = pure tt
  store_if true n a = modify (λ f. record f { cache = insert n a f.cache })

  abbrev pub count_error : Action Unit
  count_error = modify (λ f. record f { dependency_errors = suc f.dependency_errors })

  -- The `except` clause in the loop of `_resolve_dependencies`
  abbrev pub as_dependency_error :
      {A : Type 0} → Result Error A × AgentFactory → Result Error A × AgentFactory
  as_dependency_error (ok a, f) = (ok a, f)
  as_dependency_error (err e, f) =
      (err dependency_error, record f { dependency_errors = suc f.dependency_errors })

  module _ (call : Arguments → Action Agent) where
    -- A dependency that is not in the cache.
    unfoldable pub make_dependency : AgentConfig → String → String → Action Agent
    make_dependency cfg n dep_type = do
      modify (λ f. record f { cache_misses = suc f.cache_misses })
      source ← required key_error (lookup n cfg.sources)
      dep_config ← (λ f. (resolve_config out dep_type (some source) f, f))
      a ← call (arguments_for dep_type dep_config)
      enabled ← gets (λ f. f.config.cache_enabled)
      store_if enabled n a
      pure a

    abbrev pub cached_or_made : Option Agent → Bool → AgentConfig → String → String → Action Agent
    cached_or_made (some a) true cfg n dep_type = do
      modify (λ f. record f { cache_hits = suc f.cache_hits })
      pure a
    cached_or_made (some a) false cfg n dep_type = make_dependency cfg n dep_type
    cached_or_made none enabled cfg n dep_type = make_dependency cfg n dep_type

    abbrev pub one_dependency : AgentConfig → String → String → Action Agent
    one_dependency cfg n dep_type f =
        as_dependency_error
          (cached_or_made (lookup n f.cache) f.config.cache_enabled cfg n dep_type f)

    -- The loop of `_resolve_dependencies`
    unfoldable pub dependency_loop : AgentConfig → Dict String → Dict Agent → Action (Dict Agent)
    dependency_loop cfg [] found = pure found
    dependency_loop cfg ((n, dep_type) ∷ ds) found = do
      a ← one_dependency cfg n dep_type
      dependency_loop cfg ds (insert n a found)

    unfoldable pub resolve_dependencies : String → AgentConfig → Action (Dict Agent)
    resolve_dependencies agent_type cfg = do
      o ← gets (λ f. lookup agent_type f.registry)
      c ← required key_error o
      dependency_loop cfg c.dependencies []

    -- `dependencies or self._resolve_dependencies(...)`
    abbrev pub given_or_resolved : Option (Dict Agent) → String → AgentConfig → Action (Dict Agent)
    given_or_resolved none agent_type cfg = resolve_dependencies agent_type cfg
    given_or_resolved (some []) agent_type cfg = resolve_dependencies agent_type cfg
    given_or_resolved (some (x ∷ d)) agent_type cfg = pure (x ∷ d)

    -- `config or self._resolve_config(...)`
    abbrev pub final_config : Arguments → Option AgentConfig → Action AgentConfig
    final_config a (some c) f = (ok c, f)
    final_config a none f = (resolve_config out a.agent_type a.config_source f, f)

    abbrev pub construct : Bool → String → AgentConfig → Action Agent
    construct true agent_type cfg = pure (record { agent_type = agent_type; config = cfg })
    construct false agent_type cfg = raise runtime_error

    -- The rest of `create`, once the instance is there.
    abbrev pub enter : String → List String → Agent → Action Agent
    enter agent_type names x = do
      add_names agent_type names
      modify (λ f. record f { created = suc f.created })
      pure x

    abbrev pub instantiate : String → AgentConfig → Dict Agent → Option AgentClass → Action Agent
    instantiate agent_type cfg deps o = do
      c ← required key_error o
      x ← construct (out.constructs agent_type cfg deps) agent_type cfg
      enter agent_type (keys deps) x

    -- The body of `create`.
    unfoldable pub create_body : Arguments → Action Agent
    create_body a = do
      cfg ← final_config a a.config
      deps ← given_or_resolved a.dependencies a.agent_type cfg
      o ← gets (λ f. lookup a.agent_type f.registry)
      instantiate a.agent_type cfg deps o

    abbrev pub remember :
        Arguments → Result Error Agent × AgentFactory → Result Error Agent × AgentFactory
    remember a (ok x, f) = (ok x, record f { memo = (a, x) ∷ f.memo })
    remember a (err e, f) = (err e, f)

    abbrev pub recalled : Option Agent → Arguments → Action Agent
    recalled (some x) a f = (ok x, f)
    recalled none a f = remember a (reported (create_body a f))

    abbrev pub called : Bool → Arguments → Action Agent
    called false a f = (err type_error, f)
    called true a f = recalled (recall (out.same_call a) f.memo) a f

  -- `create`, as `lru_cache` wraps it, to a depth of nested calls
  unfoldable pub create : ℕ → Arguments → Action Agent
  create zero a = raise recursion_error
  create (suc depth) a = called (create depth) (hashes a) a

  -- Calls of `create` one after the other, whatever they raise: what they return, and the factory.
  unfoldable pub create_all :
      ℕ → List Arguments → AgentFactory → List (Result Error Agent) × AgentFactory
  create_all depth [] f = ([], f)
  create_all depth (a ∷ as_) f =
      let (r, f1) = create depth a f in let (rs, f2) = create_all depth as_ f1 in (r ∷ rs, f2)
