-- ===== src/Topology.antt =====
-- core/orchestration/scheduler/graph_based/topology_manager.py: the configuration, the node states and
-- the topology that `NetworkTopology` keeps. The graph is networkx's, behind an interface; loads are
-- natural numbers, in the unit of the thresholds.
pub mod Migrate
pub mod Control
pub mod Placed
pub mod Keeps
pub mod Balance
pub mod Well
pub mod Runs
pub mod Failover
pub mod Scale
mod Samples
use kuva_ai.Prelude.{
  ℕ, ◌+◌, String, ◌≡◌, Bool, true, false, ◌||◌, ◌&&◌, not, Option, none, some, List, [], ◌∷◌, ◌++◌,
  ◌==◌, if◌then◌else◌, contains,
}
use kuva_ai.Dict.{Dict, lookup}
use kuva_ai.Exec.{Exec, Result, ok, err}

pub data Strategy : Type 0 where
  round_robin latency_aware resource_based geo_affinity : Strategy

pub record TopologyConfig : Type 0 where
  pub max_partitions : ℕ
  pub balancing_strategy : Strategy
  pub enable_auto_scaling : Bool
  pub min_node_count : ℕ
  pub max_node_count : ℕ

-- `agents` is a set, in the order of its iteration.
pub record NodeState : Type 0 where
  pub node_id : String
  pub agents : List String
  pub resources : Dict ℕ

-- What networkx does: `remove_node` is none where it raises; a connected component counts as one;
-- `shortest_path` is none without a path, for two nodes of the graph.
pub record GraphLibrary (G : Type 0) : Type 0 where
  pub empty : G
  pub nodes : G → List String
  pub add_node : String → G → G
  pub add_edge : String → String → ℕ → G → G
  pub remove_node : String → G → Option G
  pub components : G → ℕ
  pub shortest_path : String → String → G → Option (List String)

-- What is documented of it, for the nodes.
pub record IsGraph {G : Type 0} (lib : GraphLibrary G) : Type 0 where
  pub added :
      (n k : String) (g : G)
      → contains k (lib.nodes (lib.add_node n g)) ≡ (n == k || contains k (lib.nodes g))
  pub linked :
      (a b k : String) (l : ℕ) (g : G)
      → contains k (lib.nodes (lib.add_edge a b l g))
        ≡ (a == k || (b == k || contains k (lib.nodes g)))
  pub removed :
      (n k : String) (g g2 : G)
      → lib.remove_node n g ≡ some g2
      → contains k (lib.nodes g2) ≡ (not (n == k) && contains k (lib.nodes g))

-- What a request over HTTP ends in.
pub data Answer : Type 0 where
  status : ℕ → Answer
  unreachable : Answer

-- The answers of the nodes and of Kubernetes by the number of the call, and the circuit breakers, by
-- the failures that were recorded.
pub record Outside : Type 0 where
  pub migrate_answer : ℕ → Answer
  pub health_answer : ℕ → Answer
  pub kube_ok : ℕ → Bool
  pub is_open : String → List String → Bool

-- What the metrics record, and the pods that are asked for: by number, as `kuva-node-<number>`.
pub data Event : Type 0 where
  migration : Bool → Event
  partition : ℕ → Event
  scale_up_event : ℕ → Bool → Event
  scale_down_event : String → Bool → Event
  heartbeat : Bool → Event

pub data Error : Type 0 where
  key_error stop_iteration zero_division value_error client_error health_error network_error : Error

pub record NetworkTopology (G : Type 0) : Type 0 where
  pub graph : G
  pub node_states : Dict NodeState
  pub failures : List String
  pub posts : ℕ
  pub gets : ℕ
  pub kube_calls : ℕ
  pub events : List Event

abbrev pub new_topology : {G : Type 0} → GraphLibrary G → NetworkTopology G
new_topology lib = record {
  graph = lib.empty;
  node_states = [];
  failures = [];
  posts = 0;
  gets = 0;
  kube_calls = 0;
  events = [];
}

abbrev pub Action : Type 0 → Type 0 → Type 0
Action G A = Exec (NetworkTopology G) Error A

-- `node_states[k]` after a change of the object under that key
unfoldable pub adjust : String → (NodeState → NodeState) → Dict NodeState → Dict NodeState
adjust k f [] = []
adjust k f ((j, v) ∷ d) = if j == k then (j, f v) ∷ d else (j, v) ∷ adjust k f d

-- `dict.values()`
abbrev pub values : Dict NodeState → List NodeState
values [] = []
values ((k, v) ∷ d) = v ∷ values d

-- `set.remove` of an element
unfoldable pub without : String → List String → List String
without a [] = []
without a (x ∷ xs) = if x == a then xs else x ∷ without a xs

-- `resources.get(key, 0)`
abbrev pub or_zero : Option ℕ → ℕ
or_zero none = 0
or_zero (some n) = n

abbrev pub load_of : String → NodeState → ℕ
load_of key n = or_zero (lookup key n.resources)
