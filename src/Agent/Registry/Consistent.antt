-- ===== src/Agent/Registry/Consistent.antt =====
-- The invariant of core/agent/registry.py: what is registered is a valid agent class under its own
-- name, and is recorded as a dependent of each of its dependencies.
use kuva_ai.Prelude.{
  String, ◌≡◌, refl, sym, ap, ◌∙◌, ◌≢◌, inl, inr, Bool, true, false, Option, none, some, List,
  arith, ◌==◌, eq_iff, Bool-cases, contains,
}
use mathlib.Core.Path.{subst}
use kuva_ai.Dict.{lookup, insert, remove, is_some, lookup-insert, lookup-remove}
use kuva_ai.Exec.{Result, ok, err, Result-cases}
use kuva_ai.Agent.Cycles.{Graph, dependents}
use kuva_ai.Agent.Registry.{
  AgentClass, base_model, Object, class, value, Entry, PluginSpec, Error, AgentRegistry,
  required_by, new_registry, add_dependents, register, unregister,
}
use kuva_ai.Agent.Registry.Effects.{
  dep_types, contains-add_dependents, entry, Registered, register-Registered, register_failure,
  unregister-ok, Unregistered, absent, required, removed, unregister_lem, unregister-required,
}

none-ne-some {ℓ} : {A : Type ℓ} {a : A} → none ≢ some a
none-ne-some e = cc

-- What holds of the entry under the key `k`.
pub record IsEntry (g : Graph) (k : String) (e : Entry) : Type 0 where
  pub name : e.class.name ≡ k
  pub is_agent : e.class.extends_agent_base ≡ true
  pub has_model : e.class.config_model ≡ base_model
  pub recorded :
      (deps : List (String × String)) (d : String)
      → e.class.dependencies ≡ some deps
      → contains d (dep_types deps) ≡ true
      → contains k (dependents g d) ≡ true

pub record IsConsistent (r : AgentRegistry) : Type 0 where
  pub entries :
      (k : String) (e : Entry) → lookup k r.registry ≡ some e → IsEntry r.reverse_dependencies k e

pub IsConsistent-new : IsConsistent new_registry
unfolding lookup
IsConsistent-new = record { entries = λ k e h. cc }

-- The invariant after the entry of `c` is written over a map `g` of dependents that has lost nothing.
module _ (r : AgentRegistry) (g : Graph) (c : AgentClass) (plugin : Option PluginSpec)
    (more : (d a : String)
      → contains a (dependents r.reverse_dependencies d) ≡ true
      → contains a (dependents g d) ≡ true)
    (fresh : IsEntry g c.name (entry c plugin)) (inv : IsConsistent r) where
  written :
      (k : String) (e : Entry)
      → lookup k (insert c.name (entry c plugin) r.registry) ≡ some e
      → IsEntry g k e
  written k e h = elim (Bool-cases (c.name == k)) [
    | inl p ↦
        let q : c.name ≡ k = (eq_iff c.name k).0 p in
        let s : entry c plugin ≡ e =
          ground (arith, lookup-insert c.name k (entry c plugin) r.registry) in
        subst (λ x. IsEntry g k x) s (subst (λ x. IsEntry g x (entry c plugin)) q fresh)
    | inr p ↦
        let i =
          inv.entries k e (ground (arith, lookup-insert c.name k (entry c plugin) r.registry)) in
        record {
          name = i.name;
          is_agent = i.is_agent;
          has_model = i.has_model;
          recorded = λ ds d f m. more d k (i.recorded ds d f m);
        }
  ]

Registered-IsConsistent :
    (c : AgentClass) (plugin : Option PluginSpec) (override : Bool) (r r' : AgentRegistry)
    → Registered c plugin override r r'
    → IsConsistent r
    → IsConsistent r'
Registered-IsConsistent c plugin override r r' h inv = rw (h.result) (record {
  entries =
      written r (add_dependents c.name h.deps r.reverse_dependencies) c plugin
        (λ d a m. ground (arith, contains-add_dependents r.reverse_dependencies c.name h.deps d a))
        (record {
          name = refl;
          is_agent = h.is_agent;
          has_model = h.has_model;
          recorded = λ ds d e m.
              let p : h.deps ≡ ds = cc (h.deps_eq) in
              ground (
                arith,
                contains-add_dependents r.reverse_dependencies c.name h.deps d c.name,
                eq_iff c.name c.name,
                ap (λ x. contains d (dep_types x)) p,
              );
        })
        inv;
})

failed-IsConsistent :
    (o : Object) (plugin : Option PluginSpec) (override : Bool) (r r' : AgentRegistry) (e : Error)
    → register o plugin override r ≡ (err e, r')
    → IsConsistent r
    → IsConsistent r'
failed-IsConsistent o plugin override r r' e h inv =
    elim (register_failure o plugin override r r' e h) [
      | inl same ↦ rw same inv
      | inr (c, is, agent, model, no_deps, raised, p) ↦ rw p (record {
        entries =
            written r r.reverse_dependencies c plugin (λ d a m. m)
              (record {
                name = refl;
                is_agent = agent;
                has_model = model;
                recorded = λ ds d f m. absurd (none-ne-some (sym no_deps ∙ f));
              })
              inv;
      })
    ]

-- `register` keeps the invariant, whether it returns or raises.
pub register-IsConsistent :
    (o : Object) (plugin : Option PluginSpec) (override : Bool) (r : AgentRegistry)
    → IsConsistent r
    → IsConsistent (register o plugin override r).1
register-IsConsistent value plugin override r inv = unfold register in inv
register-IsConsistent (class c) plugin override r inv =
    let (x, r') = register (class c) plugin override r in
    elim (Result-cases x) [
      | inl (a, p) ↦
          Registered-IsConsistent c plugin override r r'
            (register-Registered c plugin override r r' (λ i. (p i, r'))) inv
      | inr (e, p) ↦ failed-IsConsistent (class c) plugin override r r' e (λ i. (p i, r')) inv
    ]

removed-IsConsistent :
    (k : String) (r : AgentRegistry)
    → IsConsistent r
    → IsConsistent (record r { registry = remove k r.registry })
removed-IsConsistent k r inv = record {
  entries = λ j e h. elim (Bool-cases (k == j)) [
    | inl p ↦ absurd (none-ne-some {a = e} (ground (arith, lookup-remove k j r.registry)))
    | inr p ↦ inv.entries j e (ground (arith, lookup-remove k j r.registry))
  ];
}

-- `unregister` keeps the invariant, whether it returns or raises.
pub unregister-IsConsistent :
    (k : String) (r : AgentRegistry) → IsConsistent r → IsConsistent (unregister k r).1
unregister-IsConsistent k r inv = go (unregister_lem k r)
  where
    go : {o : Result Error Unit × AgentRegistry} → Unregistered k r o → IsConsistent o.1
    go (absent _) = inv
    go (required _ _ _ _) = inv
    go (removed _ _) = removed-IsConsistent k r inv

-- From a consistent registry, an `unregister` that succeeds leaves no registered class that has the
-- removed agent type among its dependencies.
pub unregister-no_dangling :
    (k : String) (r r' : AgentRegistry)
    → IsConsistent r
    → unregister k r ≡ (ok tt, r')
    → (j : String) (e : Entry) (deps : List (String × String)) → lookup j r'.registry ≡ some e
    → e.class.dependencies ≡ some deps
    → contains k (dep_types deps) ≡ false
unregister-no_dangling k r r' inv h j e deps at has =
    let (known, nobody, same) = unregister-ok k r r' h in
    let before : lookup j r.registry ≡ some e =
      ground (
        arith,
        lookup-remove k j r.registry,
        ap (λ (x : AgentRegistry). lookup j x.registry) same,
      ) in
    elim (Bool-cases (contains k (dep_types deps))) [
      | inl m ↦
          let listed = (inv.entries j e before).recorded deps k has m in
          let empty : contains j (dependents r.reverse_dependencies k) ≡ false =
            ap (contains j) nobody in
          cc
      | inr m ↦ m
    ]

-- A class that was registered and then unregistered still counts as a dependent: a dependency of
-- it that is registered can not be unregistered any more.
pub unregister_stale :
    (c : AgentClass) (plugin : Option PluginSpec) (override : Bool) (r r' r'' : AgentRegistry)
    (deps : List (String × String)) (d : String)
    → register (class c) plugin override r ≡ (ok c, r')
    → unregister c.name r' ≡ (ok tt, r'')
    → c.dependencies ≡ some deps
    → contains d (dep_types deps) ≡ true
    → is_some (lookup d r''.registry) ≡ true
    → (ds : List String) × (contains c.name ds ≡ true)
      × (unregister d r'' ≡ (err (required_by d ds), r''))
unregister_stale c plugin override r r' r'' deps d reg unreg has m known =
    let h = register-Registered c plugin override r r' reg in
    let (_, _, same) = unregister-ok c.name r' r'' unreg in
    let p : h.deps ≡ deps = cc (h.deps_eq) in
    let q : r''.reverse_dependencies ≡ add_dependents c.name h.deps r.reverse_dependencies =
      ap (λ x. x.reverse_dependencies) same ∙ ap (λ x. x.reverse_dependencies) h.result in
    let listed : contains c.name (dependents r''.reverse_dependencies d) ≡ true = rw q (
      ground (
        arith,
        contains-add_dependents r.reverse_dependencies c.name h.deps d c.name,
        eq_iff c.name c.name,
        ap (λ x. contains d (dep_types x)) p,
      )) in
    (dependents r''.reverse_dependencies d, listed, unregister-required d c.name r'' known listed)
