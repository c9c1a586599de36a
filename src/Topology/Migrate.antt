-- ===== src/Topology/Migrate.antt =====
-- core/orchestration/scheduler/graph_based/topology_manager.py: the migration of agents and the
-- strategies that balance them.
use kuva_ai.Prelude.{
  ℕ, zero, suc, ◌%◌, String, Bool, true, false, ◌||◌, Option, none, some, List, [], ◌∷◌, ◌++◌, ltb,
  eqb, length, take, contains, add, if◌then◌else◌,
}
use kuva_ai.Dict.{Dict, lookup}
use kuva_ai.Exec.{ok, pure, raise, gets, modify, ◌>>=◌, ◌>>◌, for_each}
use kuva_ai.Topology.{
  NodeState, Answer, status, unreachable, Outside, Event, migration, Error, key_error,
  stop_iteration, zero_division, value_error, client_error, Action, adjust, values, without,
  load_of,
}

-- `next(nid for nid, state in node_states.items() if agent_id in state.agents)`
unfoldable pub source_of : String → Dict NodeState → Option String
source_of a [] = none
source_of a ((k, v) ∷ d) = if contains a v.agents then some k else source_of a d

-- `min(node_states.values(), key=...)`: the first of the least
unfoldable pub least : (NodeState → ℕ) → NodeState → List NodeState → NodeState
least key best [] = best
least key best (n ∷ ns) = least key (if ltb (key n) (key best) then n else best) ns

abbrev pub least_of : (NodeState → ℕ) → List NodeState → Option NodeState
least_of key [] = none
least_of key (n ∷ ns) = some (least key n ns)

abbrev pub remove_agent : String → NodeState → NodeState
remove_agent a v = record v { agents = without a v.agents }

abbrev pub add_agent : String → NodeState → NodeState
add_agent a v = record v { agents = add a v.agents }

-- `nodes[i]`, for an index within
abbrev pub nth : List String → ℕ → Option String
nth [] i = none
nth (n ∷ ns) zero = some n
nth (n ∷ ns) (suc i) = nth ns i

-- `nodes[i % len(nodes)]`
abbrev pub target_at : List String → ℕ → Option String
target_at [] i = none
target_at (n ∷ ns) i = nth (n ∷ ns) (i % length (n ∷ ns))

abbrev pub all_agents : List NodeState → List String
all_agents [] = []
all_agents (v ∷ vs) = v.agents ++ all_agents vs

abbrev pub overloaded : ℕ → ℕ → Bool
overloaded cpu mem = ltb 80 cpu || ltb 80 mem

module _ {G : Type 0} where
  abbrev pub found : {A : Type 0} → Error → Option A → Action G A
  found e none = raise e
  found e (some a) = pure a

  -- `self.node_states[k]`
  abbrev pub node_at : String → Action G NodeState
  node_at k s = found key_error (lookup k s.node_states) s

  abbrev pub record_event : Event → Action G Unit
  record_event e = modify (λ s. record s { events = s.events ++ e ∷ [] })

  abbrev pub set_states : (Dict NodeState → Dict NodeState) → Action G Unit
  set_states f = modify (λ s. record s { node_states = f s.node_states })

  -- `self.node_states[source].agents.remove(agent_id)`, where a set without it raises
  abbrev pub take_if : Bool → String → String → Action G Unit
  take_if true a source = set_states (adjust source (remove_agent a))
  take_if false a source = raise key_error

  unfoldable pub leave : String → String → Action G Unit
  leave a source = do v ← node_at source; take_if (contains a v.agents) a source

  -- `self.node_states[target].agents.add(agent_id)`
  unfoldable pub arrive : String → String → Action G Unit
  arrive a target = do v ← node_at target; set_states (adjust target (add_agent a))

  abbrev pub moved_if : Bool → String → String → String → Action G Unit
  moved_if true a source target = do leave a source; arrive a target; record_event (migration true)
  moved_if false a source target = record_event (migration false)

  -- What `_migrate_agent` does with the answer of the target.
  abbrev pub moved : String → String → String → Answer → Action G Unit
  moved a source target unreachable = raise client_error
  moved a source target (status n) = moved_if (eqb n 202) a source target

  module _ (out : Outside) where
    abbrev pub post : Action G Answer
    post s = (ok (out.migrate_answer s.posts), record s { posts = suc s.posts })

    -- `_migrate_agent`. A `StopIteration` leaves a coroutine as a `RuntimeError`, which nothing here
    -- tells from it.
    unfoldable pub migrate_agent : String → String → Action G Unit
    migrate_agent a target = do
      o ← gets (λ s. source_of a s.node_states)
      source ← found stop_iteration o
      answer ← post
      moved a source target answer

    -- `_find_optimal_node`
    unfoldable pub find_optimal_node : String → Action G String
    find_optimal_node pressure = do
      o ← gets (λ s. least_of (load_of pressure) (values s.node_states))
      n ← found value_error o
      pure n.node_id

    abbrev pub evict_agent : String → String → Action G Unit
    evict_agent pressure a = do target ← find_optimal_node pressure; migrate_agent a target

    -- `_evict_agents`
    unfoldable pub evict_agents : String → String → Action G Unit
    evict_agents node pressure = do
      v ← node_at node
      for_each (take 5 v.agents) (evict_agent pressure)

    abbrev pub place_at : String → String → NodeState → Action G Unit
    place_at a target v = elim (contains a v.agents) [
      | true ↦ pure tt
      | false ↦ migrate_agent a target
    ]

    -- The body of the loop in `_round_robin_balance`.
    unfoldable pub place : List String → ℕ → String → Action G Unit
    place nodes i a = do
      target ← found zero_division (target_at nodes i)
      v ← node_at target
      place_at a target v

    unfoldable pub place_all : List String → ℕ → List String → Action G Unit
    place_all nodes i [] = pure tt
    place_all nodes i (a ∷ agents) = do place nodes i a; place_all nodes (suc i) agents

    -- The body of the loop in `_resource_based_balance`.
    unfoldable pub relieve : String → Action G Unit
    relieve node = do
      v ← node_at node
      let cpu = load_of "cpu" v
      let mem = load_of "memory" v
      elim (overloaded cpu mem) [
        | true ↦ evict_agents node (if ltb mem cpu then "cpu" else "memory")
        | false ↦ pure tt
      ]
