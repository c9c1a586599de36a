-- ===== src/Agent/Samples.antt =====
-- Runs of the registry on small inputs, and its theorems at them.
use mathlib.Core.Path.{subst}
use kuva_ai.Prelude.{String, ◌≡◌, refl, inl, true, false, none, some, List, [], ◌∷◌, add}
use kuva_ai.Dict.{lookup, insert, remove}
use kuva_ai.Exec.{ok, err}
use kuva_ai.Agent.Cycles.{Graph, dependents, detect_circular_dependencies}
use kuva_ai.Agent.Cycles.Fuel.{detect_total}
use kuva_ai.Agent.Cycles.Found.{AllCycles, detect_sound}
use kuva_ai.Agent.Cycles.Order.{Walk, detect_complete}
use kuva_ai.Agent.Registry.{
  AgentClass, base_model, class, required_by, dependencies_failed, AgentRegistry, new_registry,
  register, register_class, validate_agent_config_model, update_dependency_graph, add_dependents,
  unregister,
}
use kuva_ai.Agent.Registry.Effects.{entry}
use kuva_ai.Agent.Registry.Consistent.{
  IsConsistent, IsConsistent-new, register-IsConsistent, unregister-IsConsistent,
}
use kuva_ai.Agent.Setup.{
  Importer, initialize, set_up, path_set, load_builtin_agents, register_module, register_attribute,
  discover_plugins, load_plugin, validate_registry,
}
use kuva_ai.Agent.Setup.Ready.{IsReady, initialize-IsReady}

-- `b` depends on `a`, `c` on `b`, and in `circle` also `a` on `c`.
abbrev line : Graph
line = ("a", "b" ∷ []) ∷ ("b", "c" ∷ []) ∷ []

abbrev circle : Graph
circle = ("c", "a" ∷ []) ∷ line

abbrev roots : List String
roots = "a" ∷ "b" ∷ "c" ∷ []

circle_found : detect_circular_dependencies circle roots ≡ some (("a" ∷ "b" ∷ "c" ∷ "a" ∷ []) ∷ [])
unfolding detect_circular_dependencies lookup
circle_found = refl

line_clear : detect_circular_dependencies line roots ≡ some []
unfolding detect_circular_dependencies lookup
line_clear = refl

detect_total_example :
    (cycles : List (List String)) × (detect_circular_dependencies circle roots ≡ some cycles)
detect_total_example = detect_total circle roots

detect_sound_example : AllCycles circle (("a" ∷ "b" ∷ "c" ∷ "a" ∷ []) ∷ [])
detect_sound_example = detect_sound circle roots (("a" ∷ "b" ∷ "c" ∷ "a" ∷ []) ∷ []) circle_found

detect_complete_example : ¬ Walk line "c" "c"
detect_complete_example = detect_complete line roots "c" line_clear ("c", refl, inl refl)

abbrev agent : String → List (String × String) → AgentClass
agent name deps = record {
  name = name;
  extends_agent_base = true;
  is_agent_base = false;
  config_model = base_model;
  dependencies = some deps;
}

abbrev store : AgentClass
store = agent "Store" []

abbrev worker : AgentClass
worker = agent "Worker" (("storage", "Store") ∷ [])

abbrev broken : AgentClass
broken = record store { dependencies = none }

-- `Store`, then `Worker`, are registered.
abbrev with_store : AgentRegistry
with_store = record new_registry { registry = ("Store", entry store none) ∷ [] }

abbrev with_both : AgentRegistry
with_both = record {
  registry = ("Store", entry store none) ∷ ("Worker", entry worker none) ∷ [];
  reverse_dependencies = ("Store", "Worker" ∷ []) ∷ [];
  initialized = false;
  plugin_paths = [];
}

-- `Worker` is unregistered again, and its record as a dependent is left.
abbrev after_worker : AgentRegistry
after_worker = record with_both { registry = ("Store", entry store none) ∷ [] }

register-store : register (class store) none false new_registry ≡ (ok store, with_store)
unfolding register register_class validate_agent_config_model update_dependency_graph add_dependents
    lookup insert
register-store = refl

register-worker : register (class worker) none false with_store ≡ (ok worker, with_both)
unfolding register register_class validate_agent_config_model update_dependency_graph add_dependents
    dependents lookup insert add
register-worker = refl

unregister-worker : unregister "Worker" with_both ≡ (ok tt, after_worker)
unfolding unregister dependents lookup remove
unregister-worker = refl

unregister_blocked :
    unregister "Store" with_both ≡ (err (required_by "Store" ("Worker" ∷ [])), with_both)
unfolding unregister dependents lookup remove
unregister_blocked = refl

register-broken : register (class broken) none false new_registry ≡ (
  err dependencies_failed,
  record new_registry { registry = ("Store", entry broken none) ∷ [] },
)
unfolding register register_class validate_agent_config_model update_dependency_graph lookup insert
register-broken = refl

register-IsConsistent_example : IsConsistent (register (class store) none false new_registry).1
register-IsConsistent_example =
    register-IsConsistent (class store) none false new_registry IsConsistent-new

with_store-IsConsistent : IsConsistent with_store
with_store-IsConsistent = subst (λ x. IsConsistent x.1) register-store register-IsConsistent_example

with_both-IsConsistent : IsConsistent with_both
with_both-IsConsistent =
    subst (λ x. IsConsistent x.1) register-worker
      (register-IsConsistent (class worker) none false with_store with_store-IsConsistent)

unregister-IsConsistent_example : IsConsistent (unregister "Worker" with_both).1
unregister-IsConsistent_example = unregister-IsConsistent "Worker" with_both with_both-IsConsistent

-- The built-in agents are the two classes; one plugin path, whose module cannot be loaded.
abbrev importer : Importer
importer = record { builtin = some (class worker ∷ class store ∷ []); plugin = λ _. none }

abbrev initialised : AgentRegistry
initialised = record {
  registry = ("Worker", entry worker none) ∷ ("Store", entry store none) ∷ [];
  reverse_dependencies = ("Store", "Worker" ∷ []) ∷ [];
  initialized = true;
  plugin_paths = "p.py" ∷ [];
}

initialize_run : initialize importer ("p.py" ∷ "p.py" ∷ []) new_registry ≡ (ok tt, initialised)
unfolding initialize set_up path_set load_builtin_agents register_module register_attribute
    discover_plugins load_plugin validate_registry detect_circular_dependencies register
    register_class validate_agent_config_model update_dependency_graph add_dependents dependents
    lookup insert add
initialize_run = refl

initialize-IsReady_example : IsReady initialised
initialize-IsReady_example =
    initialize-IsReady importer ("p.py" ∷ "p.py" ∷ []) new_registry initialised refl initialize_run
