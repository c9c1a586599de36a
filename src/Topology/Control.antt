-- ===== src/Topology/Control.antt =====
-- core/orchestration/scheduler/graph_based/topology_manager.py: updates, scaling, failures, routing and
-- the monitoring loop.
use kuva_ai.Prelude.{
  ℕ, zero, suc, ◌+◌, ◌*◌, String, Bool, true, false, ◌&&◌, Option, none, some, List, [], ◌∷◌, ◌++◌,
  ltb, eqb, length,
}
use kuva_ai.Dict.{Dict, lookup, insert, remove, keys}
use kuva_ai.Exec.{Result, ok, err, pure, raise, gets, modify, ◌>>=◌, ◌>>◌, for_each}
use kuva_ai.Topology.{
  Strategy, round_robin, latency_aware, resource_based, geo_affinity, TopologyConfig, NodeState,
  GraphLibrary, Answer, status, unreachable, Outside, Event, partition, scale_up_event,
  scale_down_event, heartbeat, Error, stop_iteration, zero_division, value_error, network_error,
  NetworkTopology, Action, values, load_of,
}
use kuva_ai.Topology.Migrate.{
  found, record_event, set_states, node_at, source_of, least_of, find_optimal_node, migrate_agent,
  place_all, all_agents, relieve,
}

pub record Link : Type 0 where
  pub source : String
  pub target : String
  pub latency : ℕ

-- What discovery reports: the nodes by name, the links, the nodes that went.
pub record TopologyUpdate : Type 0 where
  pub nodes : List String
  pub links : List Link
  pub removed_nodes : List String

-- What happens to a topology: a round of the monitor, or the failure of a node, of which at most that many
-- rounds of the failover loop have run.
pub data Step : Type 0 where
  monitor_step : Option TopologyUpdate → Step
  failure_step : ℕ → String → Step

-- `cpu * 0.5 + memory * 0.5`, twice
abbrev pub double_load : List NodeState → ℕ
double_load [] = 0
double_load (n ∷ ns) = (load_of "cpu" n + load_of "memory" n) + double_load ns

abbrev pub fresh_state : String → NodeState
fresh_state n = record { node_id = n; agents = []; resources = [] }

abbrev pub with_state : String → Option NodeState → Dict NodeState → Dict NodeState
with_state n none d = insert n (fresh_state n) d
with_state n (some v) d = d

module _ {G : Type 0} (lib : GraphLibrary G) (out : Outside) (cfg : TopologyConfig) where
  abbrev pub set_graph : (G → G) → Action G Unit
  set_graph f = modify (λ s. record s { graph = f s.graph })

  -- The bodies of the three loops in `_apply_update`.
  unfoldable pub add_node : String → Action G Unit
  add_node n = do set_graph (lib.add_node n); set_states (λ d. with_state n (lookup n d) d)

  abbrev pub add_link : Link → Action G Unit
  add_link l = set_graph (lib.add_edge l.source l.target l.latency)

  unfoldable pub drop_node : String → Action G Unit
  drop_node n = do
    o ← gets (λ s. lib.remove_node n s.graph)
    g ← found network_error o
    set_graph (λ old. g)
    set_states (remove n)

  unfoldable pub apply_update : TopologyUpdate → Action G Unit
  apply_update u = do
    for_each u.nodes add_node
    for_each u.links add_link
    for_each u.removed_nodes drop_node

  unfoldable pub round_robin_balance : Action G Unit
  round_robin_balance = do
    nodes ← gets (λ s. lib.nodes s.graph)
    agents ← gets (λ s. all_agents (values s.node_states))
    place_all out nodes 0 agents

  unfoldable pub resource_based_balance : Action G Unit
  resource_based_balance = do nodes ← gets (λ s. keys s.node_states); for_each nodes (relieve out)

  -- `_rebalance_clusters`; two of the strategies have an empty body.
  abbrev pub rebalance : Strategy → Action G Unit
  rebalance round_robin = round_robin_balance
  rebalance latency_aware = pure tt
  rebalance resource_based = resource_based_balance
  rebalance geo_affinity = pure tt

  unfoldable pub detect_partitions : Action G Unit
  detect_partitions = do
    n ← gets (λ s. lib.components s.graph)
    elim (ltb cfg.max_partitions n) [ true ↦ record_event (partition n) | false ↦ pure tt ]

  -- A call of Kubernetes, whose exceptions are logged.
  abbrev pub kube : (Bool → Event) → Action G Unit
  kube e s =
      record_event (e (out.kube_ok s.kube_calls)) (record s { kube_calls = suc s.kube_calls })

  unfoldable pub scale_up : Action G Unit
  scale_up = do n ← gets (λ s. suc (length s.node_states)); kube (scale_up_event n)

  unfoldable pub scale_down : Action G Unit
  scale_down = do
    o ← gets (λ s. least_of (λ n. length n.agents) (values s.node_states))
    n ← found value_error o
    kube (scale_down_event n.node_id)

  -- The tests of `_auto_scale_nodes`, for that many nodes with this total load, doubled; the code divides
  -- the load by the nodes.
  abbrev pub is_overloaded : ℕ → ℕ → Bool
  is_overloaded load n = ltb (160 * n) load && ltb n cfg.max_node_count

  abbrev pub is_underloaded : ℕ → ℕ → Bool
  is_underloaded load n = ltb load (40 * n) && ltb cfg.min_node_count n

  abbrev pub scale_by : (up down : Bool) → Action G Unit
  scale_by true down = scale_up
  scale_by false true = scale_down
  scale_by false false = pure tt

  abbrev pub scale : ℕ → ℕ → Action G Unit
  scale load zero = raise zero_division
  scale load (suc n) = scale_by (is_overloaded load (suc n)) (is_underloaded load (suc n))

  abbrev pub scale_if : Bool → Action G Unit
  scale_if false = pure tt
  scale_if true = do
    load ← gets (λ s. double_load (values s.node_states))
    current ← gets (λ s. length s.node_states)
    scale load current

  unfoldable pub auto_scale_nodes : Action G Unit
  auto_scale_nodes = scale_if cfg.enable_auto_scaling

  unfoldable pub update_topology : TopologyUpdate → Action G Unit
  update_topology u = do
    apply_update u
    rebalance cfg.balancing_strategy
    detect_partitions
    auto_scale_nodes

  -- `try` around an action whose exceptions are logged
  abbrev pub caught : Action G Unit → Action G (Result Error Unit)
  caught m s = (ok (m s).0, (m s).1)

  -- What comes back into `agents_to_move` where the migration raised.
  abbrev pub left : String → List String → Result Error Unit → List String
  left a rest (ok u) = rest
  left a rest (err e) = rest ++ a ∷ []

  -- The loop of `_failover_agents`, for at most that many rounds: the agents that are still to move.
  -- `_find_optimal_node` stands outside the `try`.
  unfoldable pub failover_loop : ℕ → List String → Action G (List String)
  failover_loop zero agents = pure agents
  failover_loop (suc fuel) [] = pure []
  failover_loop (suc fuel) (a ∷ rest) = do
    target ← find_optimal_node out "cpu"
    r ← caught (migrate_agent out a target)
    failover_loop fuel (left a rest r)

  unfoldable pub failover_agents : ℕ → String → Action G (List String)
  failover_agents fuel failed = do v ← node_at failed; failover_loop fuel v.agents

  abbrev pub get_health : Action G Answer
  get_health s = (ok (out.health_answer s.gets), record s { gets = suc s.gets })

  abbrev pub record_failure : String → Action G Unit
  record_failure n = modify (λ s. record s { failures = s.failures ++ n ∷ [] })

  abbrev pub is_fine : Answer → Bool
  is_fine (status n) = eqb n 200
  is_fine unreachable = false

  abbrev pub failed : ℕ → String → Action G (List String)
  failed fuel node = do record_failure node; failover_agents fuel node

  abbrev pub check_health : ℕ → String → Bool → Action G (List String)
  check_health fuel node true = pure []
  check_health fuel node false = do
    a ← get_health
    elim (is_fine a) [ true ↦ pure [] | false ↦ failed fuel node ]

  -- `handle_node_failure`, with at most that many rounds of the failover loop
  unfoldable pub handle_node_failure : ℕ → String → Action G (List String)
  handle_node_failure fuel node = do
    tripped ← gets (λ s. out.is_open node s.failures)
    check_health fuel node tripped

  abbrev pub beat : Result Error Unit → Action G Unit
  beat (ok u) = record_event (heartbeat true)
  beat (err e) = record_event (heartbeat false)

  -- A round of `monitor_topology`; discovery gives an update, or raises.
  unfoldable pub monitor_round : Option TopologyUpdate → Action G Unit
  monitor_round none = record_event (heartbeat false)
  monitor_round (some u) = do r ← caught (update_topology u); beat r

  abbrev pub path_or_empty : Option (List String) → List String
  path_or_empty none = []
  path_or_empty (some p) = p

  unfoldable pub get_routing_path : String → String → Action G (List String)
  get_routing_path source destination = do
    o ← gets (λ s. source_of source s.node_states)
    a ← found stop_iteration o
    o2 ← gets (λ s. source_of destination s.node_states)
    b ← found stop_iteration o2
    p ← gets (λ s. lib.shortest_path a b s.graph)
    pure (path_or_empty p)

  abbrev pub step : Step → NetworkTopology G → NetworkTopology G
  step (monitor_step o) s = (monitor_round o s).1
  step (failure_step fuel node) s = (handle_node_failure fuel node s).1

  unfoldable pub run_steps : List Step → NetworkTopology G → NetworkTopology G
  run_steps [] s = s
  run_steps (e ∷ es) s = run_steps es (step e s)
