-- ===== src/Topology/Scale.antt =====
-- core/orchestration/scheduler/graph_based/topology_manager.py: what automatic scaling asks for, and where
-- routing looks.
use kuva_ai.Prelude.{ℕ, suc, ◌*◌, ◌<◌, ◌≡◌, ◌⊎◌, Bool, some, [], ◌∷◌, ◌++◌, length}
use kuva_ai.Dict.{Dict}
use kuva_ai.Exec.{Result, ok, err}
use kuva_ai.Topology.{
  NodeState, NetworkTopology, GraphLibrary, TopologyConfig, Outside, Event, Error, zero_division,
  values, scale_up_event, scale_down_event,
}
use kuva_ai.Topology.Migrate.{least_of}
use kuva_ai.Topology.Control.{double_load}

module _ {G : Type 0} (lib : GraphLibrary G) (out : Outside) (cfg : TopologyConfig) where
  abbrev pub count_nodes : NetworkTopology G → ℕ
  count_nodes s = length s.node_states

  abbrev pub load2 : NetworkTopology G → ℕ
  load2 s = double_load (values s.node_states)

  -- A request to Kubernetes, and its record.
  abbrev pub asked : (Bool → Event) → NetworkTopology G → NetworkTopology G
  asked e s = record s {
    kube_calls = suc s.kube_calls;
    events = s.events ++ e (out.kube_ok s.kube_calls) ∷ [];
  }

  -- A pod with the next number, within the maximum and over a mean load of 80.
  pub record ScaledUp (s s1 : NetworkTopology G) : Type 0 where
    pub room : count_nodes s < cfg.max_node_count
    pub loaded : 160 * count_nodes s < load2 s
    pub result : s1 ≡ asked (scale_up_event (suc (count_nodes s))) s

  -- The deletion of a node's pod, over the minimum and under a mean load of 20.
  pub record ScaledDown (s s1 : NetworkTopology G) : Type 0 where
    pub node : NodeState
    pub spare : cfg.min_node_count < count_nodes s
    pub idle : load2 s < 40 * count_nodes s
    pub chosen : least_of (λ n. length n.agents) (values s.node_states) ≡ some node
    pub result : s1 ≡ asked (scale_down_event node.node_id) s

  -- What `_auto_scale_nodes` may do.
  abbrev pub Scaled : NetworkTopology G → Result Error Unit × NetworkTopology G → Type 0
  Scaled s (r, s1) =
      ((count_nodes s ≡ 0) × (r ≡ err zero_division) × (s1 ≡ s))
      ⊎ ((r ≡ ok tt) × ((s1 ≡ s) ⊎ (ScaledUp s s1 ⊎ ScaledDown s s1)))
