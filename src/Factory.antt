-- ===== src/Factory.antt =====
-- core/agent/factory.py: the state of `AgentFactory`, its configuration and what it calls.
pub mod Graph
pub mod Config
pub mod Create
pub mod Merge
pub mod Never
pub mod Start
mod Samples
use kuva_ai.Prelude.{ℕ, String, Bool, true, false, Option, List, [], ◌∷◌}
use kuva_ai.Dict.{Dict}
use kuva_ai.Exec.{Exec}

pub data Error : Type 0 where
  configuration_error dependency_error runtime_error type_error key_error load_error
        recursion_error :
      Error

pub record FactoryConfig : Type 0 where
  pub auto_discovery_paths : List String
  pub cache_enabled : Bool
  pub strict_mode : Bool
  pub config_loader_priority : List String

-- `dependencies()` of an agent class: the types by the names
pub record AgentClass : Type 0 where
  pub name : String
  pub is_agent : Bool
  pub dependencies : Dict String

-- The values of a configuration are texts; a configuration names the source of each dependency's.
pub record AgentConfig : Type 0 where
  pub fields : Dict String
  pub sources : Dict String

pub record Agent : Type 0 where
  pub agent_type : String
  pub config : AgentConfig

-- `DependencyGraph`: two dictionaries of sets
pub record DependencyGraph : Type 0 where
  pub graph : Dict (List String)
  pub reverse_graph : Dict (List String)

-- The arguments of `create`, without the context
pub record Arguments : Type 0 where
  pub agent_type : String
  pub config : Option AgentConfig
  pub config_source : Option String
  pub dependencies : Option (Dict Agent)

-- What the classes and libraries answer: what a loader loads from a source (none where it raises), the
-- validated configuration, whether the constructor returns, the classes of a module (none where its import
-- fails), whether a configuration can be hashed, and whether `lru_cache` takes two calls for one.
pub record Outside : Type 0 where
  pub load : String → String → Option (Dict String)
  pub validate : String → Dict String → Option AgentConfig
  pub constructs : String → AgentConfig → Dict Agent → Bool
  pub modules : String → Option (List AgentClass)
  pub can_hash : AgentConfig → Bool
  pub same_call : Arguments → Arguments → Bool

-- `memo` is what `lru_cache` keeps of the calls of `create` that returned.
pub record AgentFactory : Type 0 where
  pub registry : Dict AgentClass
  pub loaders : List String
  pub config : FactoryConfig
  pub dependency_graph : DependencyGraph
  pub cache : Dict Agent
  pub memo : List (Arguments × Agent)
  pub created : ℕ
  pub cache_hits : ℕ
  pub cache_misses : ℕ
  pub dependency_errors : ℕ
  pub initialized : Bool

abbrev pub default_config : FactoryConfig
default_config = record {
  auto_discovery_paths = "kuva.agents" ∷ [];
  cache_enabled = true;
  strict_mode = true;
  config_loader_priority = "vault" ∷ "consul" ∷ "env" ∷ [];
}

abbrev pub new_factory : AgentFactory
new_factory = record {
  registry = [];
  loaders = [];
  config = default_config;
  dependency_graph = record { graph = []; reverse_graph = [] };
  cache = [];
  memo = [];
  created = 0;
  cache_hits = 0;
  cache_misses = 0;
  dependency_errors = 0;
  initialized = false;
}

abbrev pub Action : Type 0 → Type 0
Action A = Exec AgentFactory Error A
