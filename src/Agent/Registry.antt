-- ===== src/Agent/Registry.antt =====
-- core/agent/registry.py. A method of `AgentRegistry` is an action on the registry's fields. The
-- locks serialise the methods, so each is one step. `plugin` is `none` for the entry that is
-- registered with the default `PluginSpec()`, a class of `kuva.core.interfaces`.
pub mod Effects
pub mod Consistent
use kuva_ai.Prelude.{String, Bool, false, ◌&&◌, not, Option, none, some, List, [], ◌∷◌, map, add}
use kuva_ai.Dict.{Dict, lookup, insert, remove, is_some}
use kuva_ai.Exec.{
  Result, ok, err, Exec, pure, raise, lift, gets, modify, guard, continue, ◌>>=◌, ◌>>◌,
}
use kuva_ai.Agent.Cycles.{Graph, dependents}

-- The attribute `ConfigModel` of a class, as `hasattr` and `issubclass(…, BaseModel)` see it.
pub data ConfigModel : Type 0 where
  absent other_class base_model : ConfigModel

-- What the registry reads of a class. `dependencies` is what the class method of that name
-- returns, and `none` if it raises.
pub record AgentClass : Type 0 where
  pub name : String
  pub extends_agent_base : Bool
  pub is_agent_base : Bool
  pub config_model : ConfigModel
  pub dependencies : Option (List (String × String))

pub data Object : Type 0 where
  value : Object
  class : AgentClass → Object

pub record PluginSpec : Type 0 where
  pub name : String
  pub version : String
  pub description : Option String

pub record Entry : Type 0 where
  pub class : AgentClass
  pub plugin : Option PluginSpec

-- The exceptions, with what their messages name. The first six are `RegistrationError`, the next
-- three `DependencyConflictError`; `dependencies_failed` is what `dependencies()` raised.
pub data Error : Type 0 where
  non_class_object : Error
  invalid_agent_class already_registered missing_config_model invalid_config_model : String → Error
  not_registered : String → Error
  required_by : String → List String → Error
  circular_dependencies : List (List String) → Error
  missing_dependencies : List String → Error
  dependencies_failed : Error
  import_failed : Error

pub record AgentRegistry : Type 0 where
  pub registry : Dict Entry
  pub reverse_dependencies : Graph
  pub initialized : Bool
  pub plugin_paths : List String

abbrev pub new_registry : AgentRegistry
new_registry = record {
  registry = [];
  reverse_dependencies = [];
  initialized = false;
  plugin_paths = [];
}

abbrev pub Action : Type 0 → Type 0
Action A = Exec AgentRegistry Error A

unfoldable pub validate_agent_config_model : AgentClass → Result Error Unit
validate_agent_config_model c = elim c.config_model [
  | absent ↦ err (missing_config_model c.name)
  | other_class ↦ err (invalid_config_model c.name)
  | base_model ↦ ok tt
]

-- `self._reverse_dependencies[dep_type].add(agent_type)` for each dependency
unfoldable pub add_dependents : String → List (String × String) → Graph → Graph
add_dependents agent_type [] g = g
add_dependents agent_type ((dep_name, dep_type) ∷ deps) g =
    add_dependents agent_type deps (insert dep_type (add agent_type (dependents g dep_type)) g)

unfoldable pub update_dependency_graph : AgentClass → Action Unit
update_dependency_graph c = elim c.dependencies [
  | none ↦ raise dependencies_failed
  | some deps ↦
      modify
        (λ r. record r { reverse_dependencies = add_dependents c.name deps r.reverse_dependencies })
]

unfoldable pub register_class : AgentClass → Option PluginSpec → Bool → Action AgentClass
register_class c plugin_meta override = do
  guard c.extends_agent_base (invalid_agent_class c.name)
  existing ← gets (λ r. lookup c.name r.registry)
  guard (not (is_some existing && not override)) (already_registered c.name)
  lift (validate_agent_config_model c)
  modify (λ r. record r {
    registry = insert c.name (record { class = c; plugin = plugin_meta }) r.registry;
  })
  update_dependency_graph c
  pure c

-- `register`, `_unsafe_register`
unfoldable pub register : Object → Option PluginSpec → Bool → Action AgentClass
register value plugin_meta override = raise non_class_object
register (class c) plugin_meta override = register_class c plugin_meta override

unfoldable pub unregister : String → Action Unit
unregister agent_type = do
  known ← gets (λ r. is_some (lookup agent_type r.registry))
  guard known (not_registered agent_type)
  dependents ← gets (λ r. dependents r.reverse_dependencies agent_type)
  elim dependents [ [] ↦ pure tt | d ∷ ds ↦ raise (required_by agent_type (d ∷ ds)) ]
  modify (λ r. record r { registry = remove agent_type r.registry })

abbrev entry_of : String → Option Entry → Result Error Entry
entry_of agent_type none = err (not_registered agent_type)
entry_of agent_type (some e) = ok e

unfoldable pub get : String → Action AgentClass
get agent_type r =
    continue (λ e. pure e.class) (entry_of agent_type (lookup agent_type r.registry), r)

unfoldable pub get_plugin_spec : String → Action (Option PluginSpec)
get_plugin_spec agent_type r =
    continue (λ e. pure e.plugin) (entry_of agent_type (lookup agent_type r.registry), r)

unfoldable pub get_all_agents : AgentRegistry → Dict AgentClass
get_all_agents r = map (λ (k, e). (k, e.class)) r.registry

-- `agent_exists`, `__contains__`
unfoldable pub agent_exists : AgentRegistry → String → Bool
agent_exists r agent_type = is_some (lookup agent_type r.registry)

unfoldable pub get_dependents : AgentRegistry → String → List String
get_dependents r agent_type = dependents r.reverse_dependencies agent_type
