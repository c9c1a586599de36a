-- ===== src/Agent/Setup.antt =====
-- core/agent/registry.py: `initialize` with the modules that it loads, the decorator
-- `register_agent`, and `RegistryMiddleware`. What the import system returns is an argument.
pub mod Ready
use kuva_ai.Prelude.{
  String, Bool, true, false, ◌&&◌, not, Option, none, some, List, [], ◌∷◌, ◌==◌, if◌then◌else◌, add,
  filter,
}
use kuva_ai.Dict.{keys}
use kuva_ai.Exec.{ok, Exec, pure, raise, gets, modify, continue, ◌>>=◌, ◌>>◌, for_each}
use kuva_ai.Agent.Cycles.{Graph, detect_circular_dependencies}
use kuva_ai.Agent.Registry.{
  AgentClass, Object, value, class, PluginSpec, Error, circular_dependencies, missing_dependencies,
  AgentRegistry, Action, register, agent_exists,
}

-- The attributes of a module, in the order of `dir`.
abbrev pub Module : Type 0
Module = List Object

-- `none`: importing the built-in agents raises `ImportError`, or loading the plugin raises.
pub record Importer : Type 0 where
  pub builtin : Option Module
  pub plugin : String → Option Module

abbrev pub is_concrete : AgentClass → Bool
is_concrete c = c.extends_agent_base && not c.is_agent_base

-- The body of the loop in `_register_module`.
unfoldable pub register_attribute : Object → Action Unit
register_attribute value = pure tt
register_attribute (class c) = elim (is_concrete c) [
  | true ↦ (register (class c) none false >>= λ _. pure tt)
  | false ↦ pure tt
]

unfoldable pub register_module : Module → Action Unit
register_module m = for_each m register_attribute

unfoldable pub load_builtin_agents : Importer → Action Unit
load_builtin_agents i = elim i.builtin [ none ↦ pure tt | some m ↦ register_module m ]

-- `try: … except Exception: logger.error(…)`
abbrev pub attempt : Action Unit → Action Unit
attempt m r = (ok tt, (m r).1)

unfoldable pub load_plugin : Importer → String → Action Unit
load_plugin i path = elim (i.plugin path) [ none ↦ pure tt | some m ↦ attempt (register_module m) ]

unfoldable pub discover_plugins : Importer → Action Unit
discover_plugins i r = for_each r.plugin_paths (load_plugin i) r

-- Fuel that runs out would count as no cycle; Cycles/Fuel is about the fuel.
abbrev pub cycles_of : Option (List (List String)) → List (List String)
cycles_of none = []
cycles_of (some cycles) = cycles

unfoldable pub validate_registry : Action Unit
validate_registry = do
  cycles ←
      gets (λ r. cycles_of (detect_circular_dependencies r.reverse_dependencies (keys r.registry)))
  elim cycles [ [] ↦ pure tt | c ∷ cs ↦ raise (circular_dependencies (c ∷ cs)) ]

-- `{Path(p) for p in plugin_paths}`, in the order of first appearance
unfoldable pub path_set : List String → List String → List String
path_set seen [] = seen
path_set seen (p ∷ ps) = path_set (add p seen) ps

unfoldable pub set_up : Importer → List String → Action Unit
set_up i paths = do
  modify (λ r. record r { plugin_paths = path_set [] paths })
  load_builtin_agents i
  discover_plugins i
  validate_registry
  modify (λ r. record r { initialized = true })

unfoldable pub initialize : Importer → List String → Action Unit
initialize i paths = do
  done ← gets (λ r. r.initialized)
  elim done [ true ↦ pure tt | false ↦ set_up i paths ]

-- `n or default`, for texts
abbrev pub or_text : String → String → String
or_text n default = if n == "" then default else n

-- `register_agent`: `name` and `description` fall back to the class's own.
unfoldable pub register_agent :
    AgentClass
    → (doc : Option String) → (name : Option String) → (version : String)
    → (description : Option String) → (override : Bool) → Action AgentClass
register_agent c doc name version description override = do
  register (class c)
      (some (record {
        name = elim name [ none ↦ c.name | some n ↦ or_text n c.name ];
        version = version;
        description = elim description [ none ↦ doc | some d ↦ if d == "" then doc else some d ];
      }))
      override
  pure c

-- `RegistryMiddleware.dependency_validator`: `func` runs only if every name in `deps` is registered.
unfoldable pub dependency_validator : {A : Type 0} → List String → Action A → Action A
dependency_validator deps func r = elim (filter (λ d. not (agent_exists r d)) deps) [
  | [] ↦ func r
  | m ∷ ms ↦ raise (missing_dependencies (m ∷ ms)) r
]
