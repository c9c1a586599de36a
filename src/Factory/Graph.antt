-- ===== src/Factory/Graph.antt =====
-- core/agent/factory.py: `DependencyGraph`, whose two dictionaries are each other's converse.
use kuva_ai.Prelude.{
  ◌≡◌, ◌∙◌, String, Bool, false, ◌&&◌, ◌||◌, Option, none, some, List, [], ◌∷◌, ◌==◌, eq_iff, arith,
  contains, add, contains-add, Bool-cases, inl, inr,
}
use kuva_ai.Dict.{Dict, lookup, insert, lookup-insert}
use kuva_ai.Factory.{DependencyGraph}

-- A value of a `defaultdict(set)`
abbrev pub set_of : Option (List String) → List String
set_of none = []
set_of (some xs) = xs

abbrev pub add_to : String → String → Dict (List String) → Dict (List String)
add_to k x d = insert k (add x (set_of (lookup k d))) d

unfoldable pub add_dependency : String → String → DependencyGraph → DependencyGraph
add_dependency dependent dependency g = record {
  graph = add_to dependent dependency g.graph;
  reverse_graph = add_to dependency dependent g.reverse_graph;
}

unfoldable pub get_dependencies : String → DependencyGraph → List String
get_dependencies agent_type g = set_of (lookup agent_type g.graph)

unfoldable pub get_dependents : String → DependencyGraph → List String
get_dependents agent_type g = set_of (lookup agent_type g.reverse_graph)

-- Calls of `add_dependency`, each with the dependent and the dependency
unfoldable pub add_all : List (String × String) → DependencyGraph → DependencyGraph
add_all [] g = g
add_all ((a, b) ∷ ps) g = add_all ps (add_dependency a b g)

abbrev pub empty_graph : DependencyGraph
empty_graph = record { graph = []; reverse_graph = [] }

-- Whether a pair is among the calls.
abbrev pub is_added : String → String → List (String × String) → Bool
is_added a b [] = false
is_added a b ((c, d) ∷ ps) = (c == a && d == b) || is_added a b ps

contains-add_to :
    (k x j y : String) (d : Dict (List String))
    → contains y (set_of (lookup j (add_to k x d)))
      ≡ (contains y (set_of (lookup j d)) || (k == j && x == y))
contains-add_to k x j y d = elim (Bool-cases (k == j)) [
  | inl e ↦
      let same : k ≡ j = ground (arith, eq_iff k j) in
      rw (lookup-insert k j (add x (set_of (lookup k d))) d, e, same) (contains-add x y _)
  | inr e ↦ rw (lookup-insert k j (add x (set_of (lookup k d))) d, e) (ground arith)
]

dependencies-add :
    (a b c d : String) (g : DependencyGraph)
    → contains d (get_dependencies c (add_dependency a b g))
      ≡ (contains d (get_dependencies c g) || (a == c && b == d))
unfolding get_dependencies add_dependency
dependencies-add a b c d g = contains-add_to a b c d g.graph

dependents-add :
    (a b c d : String) (g : DependencyGraph)
    → contains c (get_dependents d (add_dependency a b g))
      ≡ (contains c (get_dependents d g) || (b == d && a == c))
unfolding get_dependents add_dependency
dependents-add a b c d g = contains-add_to b a d c g.reverse_graph

dependencies-add_all :
    (ps : List (String × String)) (c d : String) (g : DependencyGraph)
    → contains d (get_dependencies c (add_all ps g))
      ≡ (contains d (get_dependencies c g) || is_added c d ps)
unfolding add_all
dependencies-add_all [] c d g = ground arith
dependencies-add_all ((a, b) ∷ ps) c d g =
    dependencies-add_all ps c d (add_dependency a b g)
    ∙ rw (dependencies-add a b c d g) (ground arith)

dependents-add_all :
    (ps : List (String × String)) (c d : String) (g : DependencyGraph)
    → contains c (get_dependents d (add_all ps g))
      ≡ (contains c (get_dependents d g) || is_added c d ps)
unfolding add_all
dependents-add_all [] c d g = ground arith
dependents-add_all ((a, b) ∷ ps) c d g =
    dependents-add_all ps c d (add_dependency a b g) ∙ rw (dependents-add a b c d g) (ground arith)

-- After any calls of `add_dependency`, an agent type is among the dependencies of another exactly when the
-- other is among its dependents, and both exactly when that pair was added.
pub add_all-converse :
    (ps : List (String × String)) (c d : String)
    → (contains d (get_dependencies c (add_all ps empty_graph)) ≡ is_added c d ps)
      × (contains c (get_dependents d (add_all ps empty_graph)) ≡ is_added c d ps)
unfolding get_dependencies get_dependents lookup
add_all-converse ps c d =
    (dependencies-add_all ps c d empty_graph, dependents-add_all ps c d empty_graph)
