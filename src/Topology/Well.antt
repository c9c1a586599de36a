-- ===== src/Topology/Well.antt =====
-- core/orchestration/scheduler/graph_based/topology_manager.py: the invariant of the topology, and what
-- insertions and removals of nodes do to it.
use mathlib.Core.Path.{subst}
use kuva_ai.Prelude.{
  ℕ, ◌+◌, ◌≤◌, arith, ◌≡◌, refl, sym, ap, String, true, false, none, some, List, [], ◌∷◌, ◌==◌,
  eq_iff, contains, Bool-cases, inl, inr, count,
}
use kuva_ai.Dict.{Dict, lookup, insert, remove, keys, contains-keys, lookup-remove}
use kuva_ai.Exec.Ensures.{Keeps, Keeps-of_state}
use kuva_ai.Topology.{NodeState, NetworkTopology, GraphLibrary, TopologyConfig, Outside, Action}
use kuva_ai.Topology.Control.{fresh_state}
use kuva_ai.Topology.Placed.{placed, is_keyed}
use kuva_ai.Topology.Keeps.{IsPlaced}

-- No agent is on two nodes, each state carries the name it stands under, and that is a node of the graph.
pub record IsWell {G : Type 0} (lib : GraphLibrary G) (s : NetworkTopology G) : Type 0 where
  pub unique : (a : String) → placed a s.node_states ≤ 1
  pub keyed : is_keyed s.node_states ≡ true
  pub in_graph :
      (k : String) → contains k (keys s.node_states) ≡ true → contains k (lib.nodes s.graph) ≡ true

pub placed-insert :
    (a n : String) (d : Dict NodeState)
    → lookup n d ≡ none
    → placed a (insert n (fresh_state n) d) ≡ placed a d
unfolding placed insert lookup count
placed-insert a n [] h = refl
placed-insert a n ((j, w) ∷ d) h = elim (Bool-cases (j == n)) [
  | inl e ↦ let no : some w ≡ none = rw e at h in cc
  | inr e ↦
      let rest : lookup n d ≡ none = rw e at h in
      rw e (ap (λ (k : ℕ). count a w.agents + k) (placed-insert a n d rest))
]

pub is_keyed-insert :
    (n : String) (d : Dict NodeState)
    → lookup n d ≡ none
    → is_keyed (insert n (fresh_state n) d) ≡ is_keyed d
unfolding insert lookup
is_keyed-insert n [] h = ground (arith, eq_iff n n)
is_keyed-insert n ((j, w) ∷ d) h = elim (Bool-cases (j == n)) [
  | inl e ↦ let no : some w ≡ none = rw e at h in cc
  | inr e ↦ let rest : lookup n d ≡ none = rw e at h in rw (e, is_keyed-insert n d rest) refl
]

pub placed-remove : (a n : String) (d : Dict NodeState) → placed a (remove n d) ≤ placed a d
unfolding placed remove
placed-remove a n [] = omega arith
placed-remove a n ((j, w) ∷ d) = elim (Bool-cases (j == n)) [
  | inl e ↦ rw e (omega (arith, placed-remove a n d))
  | inr e ↦ rw e (omega (arith, placed-remove a n d))
]

pub is_keyed-remove :
    (n : String) (d : Dict NodeState) → is_keyed d ≡ true → is_keyed (remove n d) ≡ true
unfolding remove
is_keyed-remove n [] h = refl
is_keyed-remove n ((j, w) ∷ d) h = ground (arith, is_keyed-remove n d)

pub kept_key :
    (n k : String) (d : Dict NodeState)
    → contains k (keys (remove n d)) ≡ true
    → ((n == k) ≡ false) × (contains k (keys d) ≡ true)
kept_key n k d h =
    ground (arith, contains-keys k (remove n d), contains-keys k d, lookup-remove n k d)

module _ {G : Type 0} (lib : GraphLibrary G) (out : Outside) (cfg : TopologyConfig) where
  abbrev pub Well : NetworkTopology G → Type 0
  Well = IsWell lib

  -- What keeps every placement keeps the invariant.
  pub lifted :
      {A : Type 0} (m : Action G A)
      → ((p : String → ℕ) (ks : List String) (g : G)
          → ((a : String) → p a ≤ 1)
          → Keeps (IsPlaced p ks g) m)
      → Keeps Well m
  lifted m h = Keeps-of_state m (λ s w.
      let r =
        ((h (λ a. placed a s.node_states) (keys s.node_states) s.graph w.unique).run s (record {
          spread = λ a. refl;
          keyed = w.keyed;
          same_keys = refl;
          same_graph = refl;
        })).0 in
      record {
        unique = λ a. subst (λ n. n ≤ 1) (sym (r.spread a)) (w.unique a);
        keyed = r.keyed;
        in_graph = λ k i.
            subst (λ g. contains k (lib.nodes g) ≡ true) (sym r.same_graph)
              (w.in_graph k (subst (λ l. contains k l ≡ true) r.same_keys i));
      })
