-- ===== src/Topology/Keeps.antt =====
-- core/orchestration/scheduler/graph_based/topology_manager.py: migrations, balancing and failover keep
-- each agent on as many nodes as it was on.
use mathlib.Core.Path.{subst}
use kuva_ai.Prelude.{
  count-add, count_absent, ℕ, ◌+◌, ◌≤◌, arith, ◌≡◌, refl, sym, ◌∙◌, String, Bool, true, false, some,
  List, [], ◌∷◌, ◌==◌, eq_iff, contains, eqb, Bool-cases, Option-cases, inl, inr, count,
}
use kuva_ai.Dict.{Dict, lookup, keys, contains-keys}
use kuva_ai.Exec.{gets, ◌>>◌}
use kuva_ai.Exec.Ensures.{Ensures, Keeps, Ensures-raise, Keeps-modify, Keeps-of_state}
use kuva_ai.Topology.{
  NodeState, NetworkTopology, Answer, status, unreachable, Outside, Event, migration, Error,
  client_error, Action, adjust, values, load_of, without,
}
use kuva_ai.Topology.Migrate.{
  least_of, node_at, record_event, remove_agent, add_agent, leave, arrive, moved, moved_if, post,
  find_optimal_node,
}
use kuva_ai.Topology.Placed.{
  placed, count-without, placed-adjust, keys-adjust, count-le-placed, is_keyed, least_of-known,
}

-- Each agent is on as many nodes as `p` says, each state carries its name, and the nodes and the graph
-- are these.
pub record IsPlaced {G : Type 0} (p : String → ℕ) (ks : List String) (g : G) (s : NetworkTopology G)
    : Type 0 where
  pub spread : (a : String) → placed a s.node_states ≡ p a
  pub keyed : is_keyed s.node_states ≡ true
  pub same_keys : keys s.node_states ≡ ks
  pub same_graph : s.graph ≡ g

is_keyed-adjust :
    (f : NodeState → NodeState)
    → ((v : NodeState) → (f v).node_id ≡ v.node_id)
    → (k : String) (d : Dict NodeState) → is_keyed (adjust k f d) ≡ is_keyed d
unfolding adjust
is_keyed-adjust f h k [] = refl
is_keyed-adjust f h k ((j, w) ∷ d) = elim (Bool-cases (j == k)) [
  | inl e ↦ rw (e, h w) refl
  | inr e ↦ rw (e, is_keyed-adjust f h k d) refl
]

lookup_known :
    (k : String) (d : Dict NodeState)
    → contains k (keys d) ≡ true
    → (v : NodeState) × (lookup k d ≡ some v)
lookup_known k d h = elim (Option-cases (lookup k d)) [
  | inl e ↦ let no : false ≡ true = rw (contains-keys k d, e) at h in absurd (cc)
  | inr x ↦ x
]

known_lookup :
    (k : String) (v : NodeState) (d : Dict NodeState)
    → lookup k d ≡ some v
    → contains k (keys d) ≡ true
known_lookup k v d h = contains-keys k d ∙ rw h refl

-- An agent that one node gives to another, which has none, is on as many nodes as before; so are the
-- other agents.
placed-move :
    (b source target : String) (v w : NodeState) (d : Dict NodeState)
    → ((a : String) → placed a d ≤ 1)
    → lookup source d ≡ some v
    → contains b v.agents ≡ true
    → lookup target (adjust source (remove_agent b) d) ≡ some w
    → (a : String)
    → placed a (adjust target (add_agent b) (adjust source (remove_agent b) d)) ≡ placed a d
placed-move b source target v w d unique hv hb hw a =
    let d1 = adjust source (remove_agent b) d in
    let out_a = placed-adjust (remove_agent b) a source v d hv in
    let out_b = placed-adjust (remove_agent b) b source v d hv in
    let self : (b == b) ≡ true = ground (arith, eq_iff b b) in
    let less_b : count b (without b v.agents) + 1 ≡ count b v.agents =
      rw self at (count-without b b v.agents hb) in
    let none_left : placed b d1 ≡ 0 = omega (arith, unique b, out_b, less_b) in
    let absent : contains b w.agents ≡ false =
      count_absent b w.agents (omega (arith, count-le-placed b target w d1 hw, none_left)) in
    omega (
      arith,
      out_a,
      placed-adjust (add_agent b) a target w d1 hw,
      count-without a b v.agents hb,
      count-add a b w.agents absent,
    )

module _ {G : Type 0} (out : Outside) (p : String → ℕ) (ks : List String) (g : G) where
  abbrev pub Inv : NetworkTopology G → Type 0
  Inv = IsPlaced p ks g

  abbrev pub Known : String → Type 0
  Known t = contains t ks ≡ true

  pub node_at-Keeps : (k : String) → Ensures Inv (λ v. Known k) (node_at k)
  node_at-Keeps k = record {
    run = λ s h. elim (Option-cases (lookup k s.node_states)) [
      | inl e ↦ rw e (h, tt)
      | inr (v, e) ↦
          rw e (h, subst (λ l. contains k l ≡ true) h.same_keys (known_lookup k v s.node_states e))
    ];
  }

  pub gets-Keeps : {A : Type 0} (f : NetworkTopology G → A) → Keeps Inv (gets {E = Error} f)
  gets-Keeps f = record { run = λ s h. (h, tt) }

  pub record_event-Keeps : (e : Event) → Keeps Inv (record_event e)
  record_event-Keeps e = Keeps-modify _ (λ s h. record {
    spread = h.spread;
    keyed = h.keyed;
    same_keys = h.same_keys;
    same_graph = h.same_graph;
  })

  pub post-Keeps : Keeps Inv (post out)
  post-Keeps = record {
    run = λ s h. (
      record {
        spread = h.spread;
        keyed = h.keyed;
        same_keys = h.same_keys;
        same_graph = h.same_graph;
      },
      tt,
    );
  }

  pub find_optimal_node-Ensures : (key : String) → Ensures Inv Known (find_optimal_node out key)
  unfolding find_optimal_node
  find_optimal_node-Ensures key = record {
    run = λ s h. elim (Option-cases (least_of (load_of key) (values s.node_states))) [
      | inl e ↦ rw e (h, tt)
      | inr (n, e) ↦ rw e (
        h,
        subst (λ l. contains n.node_id l ≡ true) h.same_keys
            (least_of-known (load_of key) s.node_states n h.keyed e),
      )
    ];
  }

  module _ (unique : (a : String) → p a ≤ 1) where
    -- The three changes after an accepted migration
    abbrev relocate : String → String → String → Action G Unit
    relocate a source target =
        (leave a source >> (arrive a target >> record_event (migration true)))

    relocated :
        (a source target : String) (s : NetworkTopology G)
        → Known target
        → Inv s
        → Inv (relocate a source target s).1
    unfolding leave arrive
    relocated a source target s known h = elim (Option-cases (lookup source s.node_states)) [
      | inl e ↦ rw e h
      | inr (v, e) ↦ elim (Bool-cases (contains a v.agents)) [
        | inr f ↦ rw (e, f) h
        | inl f ↦
            let d1 = adjust source (remove_agent a) s.node_states in
            let same = keys-adjust (remove_agent a) source s.node_states ∙ h.same_keys in
            let (w, found_target) =
              lookup_known target d1 (subst (λ l. contains target l ≡ true) (sym same) known) in
            rw (e, f, found_target)
              (record {
                spread = λ b.
                    placed-move a source target v w s.node_states
                      (λ c. subst (λ n. n ≤ 1) (sym (h.spread c)) (unique c)) e f found_target b
                    ∙ h.spread b;
                keyed =
                    is_keyed-adjust (add_agent a) (λ x. refl) target d1
                    ∙ is_keyed-adjust (remove_agent a) (λ x. refl) source s.node_states
                    ∙ h.keyed;
                same_keys = keys-adjust (add_agent a) target d1 ∙ same;
                same_graph = h.same_graph;
              })
      ]
    ]

    moved_if-Keeps :
        (b : Bool) (a source target : String)
        → Known target
        → Keeps Inv (moved_if b a source target)
    moved_if-Keeps true a source target known =
        Keeps-of_state (relocate a source target) (λ s h. relocated a source target s known h)
    moved_if-Keeps false a source target known = record_event-Keeps (migration false)

    pub moved-Keeps :
        (a source target : String) (r : Answer) → Known target → Keeps Inv (moved a source target r)
    moved-Keeps a source target unreachable known = Ensures-raise client_error
    moved-Keeps a source target (status n) known = moved_if-Keeps (eqb n 202) a source target known
