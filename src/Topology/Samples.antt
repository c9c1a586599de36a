-- ===== src/Topology/Samples.antt =====
-- Runs of core/orchestration/scheduler/graph_based/topology_manager.py, with the list of its nodes for a
-- graph.
use kuva_ai.Prelude.{
  ℕ, ◌≡◌, refl, String, Bool, true, false, Option, none, some, List, [], ◌∷◌, length, ◌==◌,
  contains, add, if◌then◌else◌,
}
use kuva_ai.Dict.{lookup}
use kuva_ai.Topology.{
  Strategy, round_robin, TopologyConfig, NodeState, GraphLibrary, status, unreachable, Outside,
  NetworkTopology, new_topology, adjust, without,
}
use kuva_ai.Topology.Migrate.{source_of, leave, arrive, migrate_agent, place, place_all}
use kuva_ai.Topology.Control.{rebalance, round_robin_balance, Step, monitor_step, failure_step}

abbrev erase : String → List String → List String
erase n [] = []
erase n (x ∷ xs) = if n == x then erase n xs else x ∷ erase n xs

abbrev remove_if : Bool → String → List String → Option (List String)
remove_if true n g = some (erase n g)
remove_if false n g = none

abbrev toy_graph : GraphLibrary (List String)
toy_graph = record {
  empty = [];
  nodes = λ g. g;
  add_node = add;
  add_edge = λ a b l g. add a (add b g);
  remove_node = λ n g. remove_if (contains n g) n g;
  components = length;
  shortest_path = λ a b g. some (a ∷ b ∷ []);
}

abbrev config : Strategy → TopologyConfig
config st = record {
  max_partitions = 3;
  balancing_strategy = st;
  enable_auto_scaling = true;
  min_node_count = 3;
  max_node_count = 100;
}

abbrev accepting : ℕ → Outside
accepting code = record {
  migrate_answer = λ n. status code;
  health_answer = λ n. status 500;
  kube_ok = λ n. true;
  is_open = λ n fs. false;
}

abbrev silent : Outside
silent = record (accepting 202) { migrate_answer = λ n. unreachable }

abbrev node : String → List String → ℕ → String × NodeState
node n agents cpu = (n, record { node_id = n; agents = agents; resources = ("cpu", cpu) ∷ [] })

-- Two nodes, all agents on the first
abbrev two : NetworkTopology (List String)
two = record (new_topology toy_graph) {
  graph = "n1" ∷ "n2" ∷ [];
  node_states = node "n1" ("a" ∷ "b" ∷ []) 90 ∷ node "n2" [] 10 ∷ [];
}

-- Round robin gives every second agent to the second node.
balanced :
    (rebalance toy_graph (accepting 202) (config round_robin) round_robin two).1.node_states
    ≡ node "n1" ("a" ∷ []) 90 ∷ node "n2" ("b" ∷ []) 10 ∷ []
unfolding round_robin_balance place_all place migrate_agent source_of leave arrive adjust lookup
    without add
balanced = refl

-- The agents are balanced, a node joins, one that is only linked joins the graph, and the first fails.
abbrev steps : List Step
steps =
    monitor_step (
      some (record {
        nodes = "n4" ∷ "n5" ∷ [];
        links = record { source = "n1"; target = "n3"; latency = 5 } ∷ [];
        removed_nodes = "n5" ∷ [];
      }))
    ∷ failure_step 3 "n1"
    ∷ monitor_step none
    ∷ []
