-- ===== src/Agent/Registry/Effects.antt =====
-- What `register` and `unregister` of core/agent/registry.py do to the two maps of the registry.
use kuva_ai.Prelude.{
  inl, inr, ◌⊎◌, List-cases, String, ◌≡◌, refl, ap, Bool, true, false, ◌&&◌, ◌||◌, not, Option,
  none, some, List, [], ◌∷◌, arith, ◌==◌, eq_iff, if◌then◌else◌, Bool-cases, Option-cases, contains,
  add, contains-add,
}
use kuva_ai.Dict.{lookup, insert, remove, is_some, lookup-insert}
use kuva_ai.Exec.{Result, Result-cases, ok, err}
use kuva_ai.Agent.Cycles.{Graph, dependents}
use kuva_ai.Agent.Registry.{
  AgentClass, base_model, Object, class, value, Entry, PluginSpec, Error, AgentRegistry,
  required_by, not_registered, dependencies_failed, add_dependents, update_dependency_graph,
  register_class, register, unregister, validate_agent_config_model,
}

-- The agent types that a class names as its dependencies.
abbrev pub dep_types : List (String × String) → List String
dep_types [] = []
dep_types ((n, d) ∷ deps) = d ∷ dep_types deps

pub dependents-insert :
    (g : Graph) (k j : String) (v : List String)
    → dependents (insert k v g) j ≡ (if k == j then v else dependents g j)
unfolding dependents
dependents-insert g k j v = ground (arith, lookup-insert k j v g)

pub contains-add_dependents :
    (g : Graph) (agent : String) (deps : List (String × String)) (d a : String)
    → contains a (dependents (add_dependents agent deps g) d)
      ≡ (contains a (dependents g d) || (agent == a && contains d (dep_types deps)))
unfolding add_dependents
contains-add_dependents g agent [] d a = ground arith
contains-add_dependents g agent ((n, e) ∷ deps) d a =
    let one = add agent (dependents g e) in
    ground (
      arith,
      contains-add_dependents (insert e one g) agent deps d a,
      dependents-insert g e d one,
      contains-add agent a (dependents g e),
      ap (λ x. contains a (dependents g x)) {x = e} {y = d},
      eq_iff e d,
    )

-- The entry that `register` writes.
abbrev pub entry : AgentClass → Option PluginSpec → Entry
entry c plugin = record { class = c; plugin = plugin }

-- The registry after a successful registration of `c`, and what `c` must be for it to succeed.
pub record Registered (c : AgentClass) (plugin : Option PluginSpec) (override : Bool)
    (r r' : AgentRegistry) : Type 0 where
  pub is_agent : c.extends_agent_base ≡ true
  pub has_model : c.config_model ≡ base_model
  pub is_new : (is_some (lookup c.name r.registry) && not override) ≡ false
  pub deps : List (String × String)
  pub deps_eq : c.dependencies ≡ some deps
  pub result : r' ≡ record r {
    registry = insert c.name (entry c plugin) r.registry;
    reverse_dependencies = add_dependents c.name deps r.reverse_dependencies;
  }

pub register-Registered :
    (c : AgentClass) (plugin : Option PluginSpec) (override : Bool) (r r' : AgentRegistry)
    {x : AgentClass}
    → register (class c) plugin override r ≡ (ok x, r')
    → Registered c plugin override r r'
unfolding register register_class validate_agent_config_model update_dependency_graph
register-Registered c plugin override r r' h = elim (Option-cases c.dependencies) [
  | inl e ↦ ground (arith)
  | inr (deps, e) ↦ record {
    is_agent = ground arith;
    has_model = ground arith;
    is_new = ground arith;
    deps = deps;
    deps_eq = e;
    result = ground arith;
  }
]

-- A `register` that raises leaves the registry as it was, but for one case: where `dependencies()`
-- of a valid agent class raises, its entry stays written and nothing else has changed.
pub register_failure :
    (o : Object) (plugin : Option PluginSpec) (override : Bool) (r r' : AgentRegistry) (e : Error)
    → register o plugin override r ≡ (err e, r')
    → (r' ≡ r)
      ⊎ ((c : AgentClass) × (o ≡ class c)
          × (c.extends_agent_base ≡ true)
          × (c.config_model ≡ base_model)
          × (c.dependencies ≡ none)
          × (e ≡ dependencies_failed)
          × (r' ≡ record r { registry = insert c.name (entry c plugin) r.registry }))
unfolding register register_class validate_agent_config_model update_dependency_graph
register_failure value plugin override r r' e h = inl (ground arith)
register_failure (class c) plugin override r r' e h = elim (Option-cases c.dependencies) [
  | inl n ↦ elim (Bool-cases c.extends_agent_base) [
    | inl a ↦ elim (Bool-cases (not (is_some (lookup c.name r.registry) && not override))) [
      | inl b ↦ elim (Result-cases (validate_agent_config_model c)) [
        | inl (u, v) ↦ inr (c, refl, a, ground arith, n, ground arith, ground arith)
        | inr (u, v) ↦ inl (ground arith)
      ]
      | inr b ↦ inl (ground arith)
    ]
    | inr a ↦ inl (ground arith)
  ]
  | inr (deps, n) ↦ inl (ground arith)
]

-- The outcomes of `unregister`: their premises exclude one another.
pub data Unregistered (k : String) (r : AgentRegistry)
    : Result Error Unit × AgentRegistry → Type 0 where
  absent : is_some (lookup k r.registry) ≡ false → Unregistered k r (err (not_registered k), r)
  required :
      (d : String) (ds : List String)
      → is_some (lookup k r.registry) ≡ true
      → dependents r.reverse_dependencies k ≡ d ∷ ds
      → Unregistered k r (err (required_by k (d ∷ ds)), r)
  removed :
      is_some (lookup k r.registry) ≡ true
      → dependents r.reverse_dependencies k ≡ []
      → Unregistered k r (ok tt, record r { registry = remove k r.registry })

-- `unregister` succeeds exactly for an agent type that is registered and has no recorded dependent.
-- Then it removes that agent type and changes nothing else; if it raises, it changes nothing.
pub unregister_lem : (k : String) (r : AgentRegistry) → Unregistered k r (unregister k r)
unfolding unregister
unregister_lem k r = elim (Bool-cases (is_some (lookup k r.registry))) [
  | inl known ↦ elim (List-cases (dependents r.reverse_dependencies k)) [
    | inl nobody ↦ rw (known, nobody) (removed known nobody)
    | inr (d, ds, e) ↦ rw (known, e) (required d ds known e)
  ]
  | inr unknown ↦ rw unknown (absent unknown)
]

pub unregister-ok :
    (k : String) (r r' : AgentRegistry)
    → unregister k r ≡ (ok tt, r')
    → (is_some (lookup k r.registry) ≡ true)
      × (dependents r.reverse_dependencies k ≡ [])
      × (r' ≡ record r { registry = remove k r.registry })
unfolding unregister
unregister-ok k r r' h = elim (Bool-cases (is_some (lookup k r.registry))) [
  | inl known ↦ elim (List-cases (dependents r.reverse_dependencies k)) [
    | inl nobody ↦ ground arith
    | inr (d, ds, e) ↦ ground arith
  ]
  | inr unknown ↦ ground arith
]

pub unregister-required :
    (k a : String) (r : AgentRegistry)
    → is_some (lookup k r.registry) ≡ true
    → contains a (dependents r.reverse_dependencies k) ≡ true
    → unregister k r ≡ (err (required_by k (dependents r.reverse_dependencies k)), r)
unfolding unregister
unregister-required k a r known m = elim (List-cases (dependents r.reverse_dependencies k)) [
  | inl nobody ↦ cc (ap (contains a) nobody)
  | inr (d, ds, e) ↦ rw (known, e)
]
