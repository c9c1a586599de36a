-- ===== src/Topology/Balance.antt =====
-- core/orchestration/scheduler/graph_based/topology_manager.py: migrations, balancing and failover keep
-- each agent on as many nodes as it was on, and take none off a node that is there.
use kuva_ai.Prelude.{ℕ, zero, suc, ◌≤◌, String, Option, none, some, List, [], ◌∷◌, contains, take}
use kuva_ai.Dict.{keys}
use kuva_ai.Exec.{gets}
use kuva_ai.Exec.Ensures.{
  Always, Keeps, Ensures-pure, Ensures-raise, Ensures-elim, Ensures-bind, Ensures-then,
  Keeps-for_each,
}
use kuva_ai.Topology.{
  NodeState, NetworkTopology, GraphLibrary, TopologyConfig, Strategy, round_robin, latency_aware,
  resource_based, geo_affinity, Outside, Error, stop_iteration, zero_division, Action, values,
  load_of,
}
use kuva_ai.Topology.Migrate.{
  found, migrate_agent, evict_agent, evict_agents, target_at, place_at, place, place_all,
  all_agents, overloaded, relieve,
}
use kuva_ai.Topology.Control.{
  round_robin_balance, resource_based_balance, rebalance, caught, left, failover_loop,
  failover_agents,
}
use kuva_ai.Topology.Keeps.{
  Inv, Known, node_at-Keeps, gets-Keeps, post-Keeps, find_optimal_node-Ensures, moved-Keeps,
}

pub found-Keeps :
    {G A : Type 0} {P : NetworkTopology G → Type 0} (e : Error) (o : Option A)
    → Keeps P (found {G = G} e o)
found-Keeps e none = Ensures-raise e
found-Keeps e (some a) = Ensures-pure a tt

module _ {G : Type 0} (out : Outside) (p : String → ℕ) (ks : List String) (g : G)
    (unique : (a : String) → p a ≤ 1) where
  migrate_agent-Keeps :
      (a target : String)
      → Known out p ks g target
      → Keeps (Inv out p ks g) (migrate_agent out a target)
  unfolding migrate_agent
  migrate_agent-Keeps a target known = Ensures-bind Always _ _ (gets-Keeps out p ks g _) (λ o _.
      Ensures-bind Always _ _ (found-Keeps stop_iteration o) (λ source _.
        Ensures-bind Always _ _ (post-Keeps out p ks g)
          (λ r _. moved-Keeps out p ks g unique a source target r known)))

  evict_agent-Keeps : (pressure a : String) → Keeps (Inv out p ks g) (evict_agent out pressure a)
  evict_agent-Keeps pressure a =
      Ensures-bind (Known out p ks g) _ _ (find_optimal_node-Ensures out p ks g pressure)
        (λ t known. migrate_agent-Keeps a t known)

  evict_agents-Keeps :
      (node pressure : String) → Keeps (Inv out p ks g) (evict_agents out node pressure)
  unfolding evict_agents
  evict_agents-Keeps node pressure =
      Ensures-bind _ _ _ (node_at-Keeps out p ks g node)
        (λ v _. Keeps-for_each (take 5 v.agents) _ (evict_agent-Keeps pressure))

  place_at-Keeps :
      (a target : String) (v : NodeState)
      → Known out p ks g target
      → Keeps (Inv out p ks g) (place_at out a target v)
  place_at-Keeps a target v known =
      Ensures-elim (contains a v.agents) _ _ (λ _. Ensures-pure tt tt)
        (λ _. migrate_agent-Keeps a target known)

  place-Keeps :
      (nodes : List String) (i : ℕ) (a : String) → Keeps (Inv out p ks g) (place out nodes i a)
  unfolding place
  place-Keeps nodes i a =
      Ensures-bind Always _ _ (found-Keeps zero_division (target_at nodes i)) (λ target _.
        Ensures-bind _ _ _ (node_at-Keeps out p ks g target)
          (λ v known. place_at-Keeps a target v known))

  place_all-Keeps :
      (nodes : List String) (i : ℕ) (agents : List String)
      → Keeps (Inv out p ks g) (place_all out nodes i agents)
  unfolding place_all
  place_all-Keeps nodes i [] = Ensures-pure tt tt
  place_all-Keeps nodes i (a ∷ agents) =
      Ensures-then _ _ (place-Keeps nodes i a) (place_all-Keeps nodes (suc i) agents)

  relieve-Keeps : (node : String) → Keeps (Inv out p ks g) (relieve out node)
  unfolding relieve
  relieve-Keeps node = Ensures-bind _ _ _ (node_at-Keeps out p ks g node) (λ v _.
      Ensures-elim (overloaded (load_of "cpu" v) (load_of "memory" v)) _ _
        (λ _. evict_agents-Keeps node _) (λ _. Ensures-pure tt tt))

  module _ (lib : GraphLibrary G) (cfg : TopologyConfig) where
    pub rebalance-Keeps : (s : Strategy) → Keeps (Inv out p ks g) (rebalance lib out cfg s)
    unfolding round_robin_balance resource_based_balance
    rebalance-Keeps round_robin =
        Ensures-bind Always (gets (λ s. lib.nodes s.graph)) _ (gets-Keeps out p ks g _) (λ nodes _.
          Ensures-bind Always (gets (λ s. all_agents (values s.node_states))) _
            (gets-Keeps out p ks g _) (λ agents _. place_all-Keeps nodes 0 agents))
    rebalance-Keeps latency_aware = Ensures-pure tt tt
    rebalance-Keeps resource_based =
        Ensures-bind Always (gets (λ s. keys s.node_states)) _ (gets-Keeps out p ks g _)
          (λ nodes _. Keeps-for_each nodes _ relieve-Keeps)
    rebalance-Keeps geo_affinity = Ensures-pure tt tt

    caught-Keeps :
        (m : Action G Unit)
        → Keeps (Inv out p ks g) m
        → Keeps (Inv out p ks g) (caught lib out cfg m)
    caught-Keeps m h = record { run = λ s i. ((h.run s i).0, tt) }

    failover_loop-Keeps :
        (fuel : ℕ) (agents : List String)
        → Keeps (Inv out p ks g) (failover_loop lib out cfg fuel agents)
    unfolding failover_loop
    failover_loop-Keeps zero agents = Ensures-pure agents tt
    failover_loop-Keeps (suc fuel) [] = Ensures-pure [] tt
    failover_loop-Keeps (suc fuel) (a ∷ rest) =
        Ensures-bind (Known out p ks g) _ _ (find_optimal_node-Ensures out p ks g "cpu") (λ t known.
          Ensures-bind Always _ _ (caught-Keeps _ (migrate_agent-Keeps a t known))
            (λ r _. failover_loop-Keeps fuel (left lib out cfg a rest r)))

    pub failover_agents-Keeps :
        (fuel : ℕ) (failed : String)
        → Keeps (Inv out p ks g) (failover_agents lib out cfg fuel failed)
    unfolding failover_agents
    failover_agents-Keeps fuel failed =
        Ensures-bind _ _ _ (node_at-Keeps out p ks g failed)
          (λ v _. failover_loop-Keeps fuel v.agents)
