-- ===== src/Agent/Setup/Ready.antt =====
-- What holds when `initialize` of core/agent/registry.py has returned.
use mathlib.Core.Path.{subst}
use kuva_ai.Prelude.{
  String, ◌≡◌, refl, sym, ap, ◌∙◌, ◌≢◌, ◌⊎◌, inl, inr, true, false, none, some, List, [], ◌∷◌,
  Bool-cases, Option-cases, List-cases,
}
use kuva_ai.Dict.{keys}
use kuva_ai.Exec.{Result, ok, err, pure, modify, continue, ◌>>◌, for_each}
use kuva_ai.Agent.Cycles.{detect_circular_dependencies}
use kuva_ai.Agent.Cycles.Fuel.{detect_total}
use kuva_ai.Agent.Cycles.Order.{Walk, Reached, detect_complete}
use kuva_ai.Agent.Registry.{
  Object, value, class, Error, circular_dependencies, AgentRegistry, Action, register,
}
use kuva_ai.Agent.Registry.Consistent.{IsConsistent, register-IsConsistent}
use kuva_ai.Agent.Setup.{
  Module, Importer, is_concrete, path_set, register_attribute, register_module, load_builtin_agents,
  load_plugin, discover_plugins, cycles_of, validate_registry, set_up, initialize,
}

err-ne-ok : {e : Error} → ◌≢◌ {A = Result Error Unit} (err e) (ok tt)
err-ne-ok p = cc

-- The action keeps the invariant of the registry, whether it returns or raises.
abbrev Keeps : Action Unit → Type 0
Keeps m = (r : AgentRegistry) → IsConsistent r → IsConsistent (m r).1

Keeps-continue :
    (m k : Action Unit)
    → Keeps m
    → Keeps k
    → (r : AgentRegistry) → IsConsistent r
    → IsConsistent (continue (λ _. k) (m r)).1
Keeps-continue m k hm hk r inv = go (m r) (hm r inv)
  where
    go :
        (x : Result Error Unit × AgentRegistry)
        → IsConsistent x.1
        → IsConsistent (continue (λ _. k) x).1
    go (ok a, s) h = hk s h
    go (err e, s) h = h

Keeps-for_each :
    {A : Type 0} (xs : List A) (f : A → Action Unit)
    → ((x : A) → Keeps (f x))
    → Keeps (for_each xs f)
Keeps-for_each [] f h = λ r inv. inv
Keeps-for_each (x ∷ xs) f h = Keeps-continue (f x) (for_each xs f) (h x) (Keeps-for_each xs f h)

ignore-state :
    {A : Type 0} (x : Result Error A × AgentRegistry) → (continue (λ _. pure tt) x).1 ≡ x.1
ignore-state (ok a, s) = refl
ignore-state (err e, s) = refl

register_attribute-Keeps : (o : Object) → Keeps (register_attribute o)
unfolding register_attribute
register_attribute-Keeps value r inv = inv
register_attribute-Keeps (class c) r inv = elim (Bool-cases (is_concrete c)) [
  | inl e ↦
      rw (e, register_attribute)
        (subst IsConsistent (sym (ignore-state (register (class c) none false r)))
          (register-IsConsistent (class c) none false r inv))
  | inr e ↦ rw (e, register_attribute) inv
]

register_module-Keeps : (m : Module) → Keeps (register_module m)
unfolding register_module
register_module-Keeps m = Keeps-for_each m register_attribute register_attribute-Keeps

load_builtin_agents-Keeps : (i : Importer) → Keeps (load_builtin_agents i)
unfolding load_builtin_agents
load_builtin_agents-Keeps i r inv = elim (Option-cases i.builtin) [
  | inl e ↦ rw (e, load_builtin_agents) inv
  | inr (m, e) ↦ rw (e, load_builtin_agents) (register_module-Keeps m r inv)
]

load_plugin-Keeps : (i : Importer) (path : String) → Keeps (load_plugin i path)
unfolding load_plugin
load_plugin-Keeps i path r inv = elim (Option-cases (i.plugin path)) [
  | inl e ↦ rw (e, load_plugin) inv
  | inr (m, e) ↦ rw (e, load_plugin) (register_module-Keeps m r inv)
]

discover_plugins-Keeps : (i : Importer) → Keeps (discover_plugins i)
unfolding discover_plugins
discover_plugins-Keeps i r inv =
    Keeps-for_each r.plugin_paths (load_plugin i) (load_plugin-Keeps i) r inv

abbrev search_of : AgentRegistry → List (List String)
search_of r = cycles_of (detect_circular_dependencies r.reverse_dependencies (keys r.registry))

-- `_validate_registry` changes nothing, and returns exactly if the search reports nothing.
validate_registry_lem :
    (r : AgentRegistry)
    → ((search_of r ≡ []) × (validate_registry r ≡ (ok tt, r)))
      ⊎ ((search_of r ≢ [])
          × (validate_registry r ≡ (err (circular_dependencies (search_of r)), r)))
unfolding validate_registry
validate_registry_lem r = elim (List-cases (search_of r)) [
  | inl e ↦ inl (e, rw e)
  | inr (c, cs, e) ↦ inr (λ n. cc, rw e)
]

validate_registry-Keeps : Keeps validate_registry
validate_registry-Keeps r inv = elim (validate_registry_lem r) [
  | inl (_, e) ↦ rw e inv
  | inr (_, e) ↦ rw e inv
]

abbrev ready : Action Unit
ready = modify (λ r. record r { initialized = true })

abbrev after_builtin : Importer → Action Unit
after_builtin i = discover_plugins i >> (validate_registry >> ready)

abbrev after_paths : Importer → Action Unit
after_paths i = load_builtin_agents i >> after_builtin i

initialize-done :
    (i : Importer) (paths : List String) (r : AgentRegistry)
    → r.initialized ≡ true
    → initialize i paths r ≡ (ok tt, r)
unfolding initialize
initialize-done i paths r e = simp e

initialize-new :
    (i : Importer) (paths : List String) (r : AgentRegistry)
    → r.initialized ≡ false
    → initialize i paths r ≡ set_up i paths r
unfolding initialize
initialize-new i paths r e = simp e

set_up-Keeps : (i : Importer) (paths : List String) → Keeps (set_up i paths)
unfolding set_up
set_up-Keeps i paths =
    Keeps-continue (modify (λ s. record s { plugin_paths = path_set [] paths })) (after_paths i)
      (λ s h. record { entries = h.entries })
      (Keeps-continue (load_builtin_agents i) (after_builtin i) (load_builtin_agents-Keeps i) (
        Keeps-continue (discover_plugins i) (validate_registry >> ready) (discover_plugins-Keeps i)
          (Keeps-continue validate_registry ready validate_registry-Keeps
            (λ s h. record { entries = h.entries }))))

-- `initialize` keeps the invariant of the registry, whether it returns or raises.
pub initialize-IsConsistent :
    (i : Importer) (paths : List String) (r : AgentRegistry)
    → IsConsistent r
    → IsConsistent (initialize i paths r).1
initialize-IsConsistent i paths r inv = elim (Bool-cases r.initialized) [
  | inl e ↦ rw (initialize-done i paths r e) inv
  | inr e ↦ rw (initialize-new i paths r e) (set_up-Keeps i paths r inv)
]

-- No agent type that is registered, or depends on a registered one, depends on itself.
pub record IsReady (r : AgentRegistry) : Type 0 where
  pub done : r.initialized ≡ true
  pub acyclic :
      (x : String)
      → Reached r.reverse_dependencies (keys r.registry) x
      → ¬ Walk r.reverse_dependencies x x

nothing_found :
    (r : AgentRegistry)
    → search_of r ≡ []
    → detect_circular_dependencies r.reverse_dependencies (keys r.registry) ≡ some []
nothing_found r e =
    let (cycles, p) = detect_total r.reverse_dependencies (keys r.registry) in
    p ∙ ap some (ap cycles_of (sym p) ∙ e)

-- The last two steps of `initialize`.
checked-IsReady : (r r' : AgentRegistry) → (validate_registry >> ready) r ≡ (ok tt, r') → IsReady r'
checked-IsReady r r' h = elim (validate_registry_lem r) [
  | inl (none_found, e) ↦
      let p : record r { initialized = true } ≡ r' =
        ap (λ x. x.1) (sym (ap (continue (λ _. ready)) e) ∙ h) in
      subst IsReady p (record {
        done = refl;
        acyclic = λ x m.
            detect_complete r.reverse_dependencies (keys r.registry) x (nothing_found r none_found)
              m;
      })
  | inr (some_found, e) ↦
      absurd (err-ne-ok (ap (λ x. x.0) (sym (ap (continue (λ _. ready)) e) ∙ h)))
]

-- Peels one step off a run that returns.
after :
    {P : AgentRegistry → Type 0} (m k : Action Unit)
    → ((s r' : AgentRegistry) → k s ≡ (ok tt, r') → P r')
    → (r r' : AgentRegistry) → (m >> k) r ≡ (ok tt, r')
    → P r'
after {P} m k h r r' e = go (m r) e
  where
    go : (x : Result Error Unit × AgentRegistry) → continue (λ _. k) x ≡ (ok tt, r') → P r'
    go (ok a, s) p = h s r' p
    go (err f, s) p = absurd (err-ne-ok (ap (λ x. x.0) p))

-- When `initialize` returns on a registry that is not yet initialised, the registry is initialised
-- and has no circular dependency.
pub initialize-IsReady :
    (i : Importer) (paths : List String) (r r' : AgentRegistry)
    → r.initialized ≡ false
    → initialize i paths r ≡ (ok tt, r')
    → IsReady r'
unfolding set_up
initialize-IsReady i paths r r' new h =
    after (modify (λ s. record s { plugin_paths = path_set [] paths })) (after_paths i)
      (after (load_builtin_agents i) (after_builtin i)
        (after (discover_plugins i) (validate_registry >> ready) checked-IsReady))
      r r' (sym (initialize-new i paths r new) ∙ h)
