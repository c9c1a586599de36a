-- ===== src/Topology/Runs.antt =====
-- core/orchestration/scheduler/graph_based/topology_manager.py: what holds after any rounds of the monitor
-- and any failures of nodes.
use kuva_ai.Prelude.{arith, refl}
use kuva_ai.Exec.Ensures.{Keeps}
use kuva_ai.Topology.{
  NetworkTopology, new_topology, GraphLibrary, IsGraph, TopologyConfig, Strategy, Outside,
}
use kuva_ai.Topology.Control.{rebalance}
use kuva_ai.Topology.Placed.{placed}
use kuva_ai.Topology.Balance.{rebalance-Keeps}
use kuva_ai.Topology.Well.{IsWell, Well, lifted}

module _ {G : Type 0} (lib : GraphLibrary G) (law : IsGraph lib) (out : Outside)
    (cfg : TopologyConfig) where
  abbrev W : NetworkTopology G → Type 0
  W = Well lib out cfg

  pub rebalance-Well : (st : Strategy) → Keeps W (rebalance lib out cfg st)
  rebalance-Well st = lifted lib out cfg _ (λ p ks g u. rebalance-Keeps out p ks g u lib cfg st)

  -- The empty topology is such a state.
  pub new_topology-IsWell : IsWell lib (new_topology lib)
  unfolding placed
  new_topology-IsWell = record {
    unique = λ a. omega arith;
    keyed = refl;
    in_graph = λ k i. absurd (cc);
  }
