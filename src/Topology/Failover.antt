-- ===== src/Topology/Failover.antt =====
-- core/orchestration/scheduler/graph_based/topology_manager.py: what balancing and failover do to agents.
use mathlib.Core.Path.{subst}
use kuva_ai.Prelude.{
  ℕ, zero, suc, ◌≤◌, arith, ◌≡◌, refl, sym, ap, ◌∙◌, String, true, false, Option, none, some, List,
  [], ◌∷◌, ◌++◌, length, ◌==◌, eq_iff, contains, eqb, Bool-cases, inl, inr,
}
use kuva_ai.Dict.{Dict, lookup}
use kuva_ai.Exec.{ok, err}
use kuva_ai.Topology.{
  NodeState, NetworkTopology, GraphLibrary, TopologyConfig, status, unreachable, Outside, Error,
  stop_iteration, client_error, values, load_of, migration,
}
use kuva_ai.Topology.Migrate.{source_of, least, migrate_agent, find_optimal_node}
use kuva_ai.Topology.Control.{failover_loop, failover_agents}
use kuva_ai.Topology.Placed.{placed}

abbrev pub here : {G : Type 0} (s : NetworkTopology G) → (a : String) → ℕ
here s a = placed a s.node_states

source_of-found :
    (a k : String) (v : NodeState) (d : Dict NodeState)
    → lookup k d ≡ some v
    → contains a v.agents ≡ true
    → (n : String) × (source_of a d ≡ some n)
unfolding source_of lookup
source_of-found a k v [] h c = absurd (cc)
source_of-found a k v ((j, w) ∷ d) h c = elim (Bool-cases (contains a w.agents)) [
  | inl e ↦ rw e (j, refl)
  | inr e ↦ elim (Bool-cases (j == k)) [
    | inl f ↦
        let same : some w ≡ some v = rw f at h in
        let no : contains a w.agents ≡ true = ground (arith, same) in absurd (cc)
    | inr f ↦ let rest : lookup k d ≡ some v = rw f at h in rw e (source_of-found a k v d rest c)
  ]
]

module _ {G : Type 0} (lib : GraphLibrary G) (out : Outside) (cfg : TopologyConfig) where
  optimal_found :
      (key : String) (s : NetworkTopology G) (j : String) (v : NodeState) (d : Dict NodeState)
      → s.node_states ≡ (j, v) ∷ d
      → find_optimal_node out key s ≡ (ok (least (load_of key) v (values d)).node_id, s)
  unfolding find_optimal_node
  optimal_found key s j v d e = rw e refl

  -- Where no target answers, a round of the loop changes nothing but the number of requests.
  abbrev after_posts : ℕ → NetworkTopology G → NetworkTopology G
  after_posts n s = record s { posts = n }

  unanswered_by :
      ((n : ℕ) → out.migrate_answer n ≡ unreachable)
      → (a target : String) (s : NetworkTopology G) (o : Option String)
      → source_of a s.node_states ≡ o
      → (n : ℕ) × (e : Error) × (migrate_agent out a target s ≡ (err e, after_posts n s))
  unfolding migrate_agent
  unanswered_by silent a target s none e = (s.posts, stop_iteration, rw e refl)
  unanswered_by silent a target s (some source) e =
      (suc s.posts, client_error, rw (e, silent s.posts) refl)

  loop_unanswered :
      ((n : ℕ) → out.migrate_answer n ≡ unreachable)
      → (fuel : ℕ) (a : String) (agents : List String) (s : NetworkTopology G) (j : String)
        (v : NodeState) (d : Dict NodeState)
      → s.node_states ≡ (j, v) ∷ d
      → (b : String) × (rest : List String) × ((failover_loop lib out cfg fuel (a ∷ agents) s).0
          ≡ ok (b ∷ rest))
        × ((failover_loop lib out cfg fuel (a ∷ agents) s).1.node_states ≡ s.node_states)
  unfolding failover_loop
  loop_unanswered silent zero a agents s j v d e = (a, agents, refl, refl)
  loop_unanswered silent (suc fuel) a [] s j v d e =
      let target = (least (load_of "cpu") v (values d)).node_id in
      let (n, x, m) = unanswered_by silent a target s (source_of a s.node_states) refl in
      rw (optimal_found "cpu" s j v d e, m)
        (loop_unanswered silent fuel a [] (after_posts n s) j v d e)
  loop_unanswered silent (suc fuel) a (c ∷ agents) s j v d e =
      let target = (least (load_of "cpu") v (values d)).node_id in
      let (n, x, m) = unanswered_by silent a target s (source_of a s.node_states) refl in
      rw (optimal_found "cpu" s j v d e, m)
        (loop_unanswered silent fuel c (agents ++ a ∷ []) (after_posts n s) j v d e)

  refused_by :
      ((n : ℕ) → (k : ℕ) × (out.migrate_answer n ≡ status k) × (eqb k 202 ≡ false))
      → (a target source : String) (s : NetworkTopology G) → source_of a s.node_states ≡ some source
      → migrate_agent out a target s
        ≡ (ok tt, record s { posts = suc s.posts; events = s.events ++ migration false ∷ [] })
  unfolding migrate_agent
  refused_by refuses a target source s e =
      let (k, answer, other) = refuses s.posts in rw (e, answer, other) refl

  loop_refused :
      ((n : ℕ) → (k : ℕ) × (out.migrate_answer n ≡ status k) × (eqb k 202 ≡ false))
      → (fuel : ℕ) (agents : List String) (s : NetworkTopology G) (j : String) (v : NodeState)
        (d : Dict NodeState)
      → s.node_states ≡ (j, v) ∷ d
      → length agents ≤ fuel
      → ((a : String)
          → contains a agents ≡ true
          → (source : String) × (source_of a ((j, v) ∷ d) ≡ some source))
      → ((failover_loop lib out cfg fuel agents s).0 ≡ ok [])
        × ((failover_loop lib out cfg fuel agents s).1.node_states ≡ (j, v) ∷ d)
  unfolding failover_loop
  loop_refused refuses zero [] s j v d e l h = (refl, e)
  loop_refused refuses zero (a ∷ agents) s j v d e l h = absurd (omega arith)
  loop_refused refuses (suc fuel) [] s j v d e l h = (refl, e)
  loop_refused refuses (suc fuel) (a ∷ agents) s j v d e l h =
      let target = (least (load_of "cpu") v (values d)).node_id in
      let (source, from) = h a (ground (arith, eq_iff a a)) in
      let m = refused_by refuses a target source s (ap (source_of a) e ∙ from) in
      let later = λ (b : String) (c : contains b agents ≡ true). h b (ground (arith, c)) in
      rw (optimal_found "cpu" s j v d e, m)
        (loop_refused refuses fuel agents
          (record s { posts = suc s.posts; events = s.events ++ migration false ∷ [] }) j v d e
          (omega arith) later)

  states_cases :
      (k : String) (v : NodeState) (e : Dict NodeState)
      → lookup k e ≡ some v
      → (j : String) × (w : NodeState) × (d : Dict NodeState) × (e ≡ (j, w) ∷ d)
  unfolding lookup
  states_cases k v [] h = absurd (cc)
  states_cases k v ((j, w) ∷ d) h = (j, w, d, refl)

  -- If no target answers, the failover of a node with agents still has agents to move after any number of
  -- rounds, and has moved none.
  pub failover_agents-unanswered :
      (s : NetworkTopology G) (node a : String) (v : NodeState) (agents : List String)
      → ((n : ℕ) → out.migrate_answer n ≡ unreachable)
      → lookup node s.node_states ≡ some v
      → v.agents ≡ a ∷ agents
      → (fuel : ℕ)
      → (b : String) × (rest : List String) × ((failover_agents lib out cfg fuel node s).0
          ≡ ok (b ∷ rest))
        × ((failover_agents lib out cfg fuel node s).1.node_states ≡ s.node_states)
  unfolding failover_agents
  failover_agents-unanswered s node a v agents silent found_node has fuel =
      let (j, w, d, e) = states_cases node v s.node_states found_node in
      rw (found_node, has) (loop_unanswered silent fuel a agents s j w d e)

  -- If every target answers with another status than 202, the failover ends, with as many rounds as the
  -- node has agents, without an error and with every agent where it was.
  pub failover_agents-refused :
      (s : NetworkTopology G) (node : String) (v : NodeState) (fuel : ℕ)
      → ((n : ℕ) → (k : ℕ) × (out.migrate_answer n ≡ status k) × (eqb k 202 ≡ false))
      → lookup node s.node_states ≡ some v
      → length v.agents ≤ fuel
      → ((failover_agents lib out cfg fuel node s).0 ≡ ok [])
        × ((failover_agents lib out cfg fuel node s).1.node_states ≡ s.node_states)
  unfolding failover_agents
  failover_agents-refused s node v fuel refuses found_node enough =
      let (j, w, d, e) = states_cases node v s.node_states found_node in
      let sources = λ (a : String) (c : contains a v.agents ≡ true).
        source_of-found a node v ((j, w) ∷ d) (subst (λ x. lookup node x ≡ some v) e found_node)
          c in
      let (ends, same) = loop_refused refuses fuel v.agents s j w d e enough sources in
      rw found_node (ends, same ∙ sym e)
