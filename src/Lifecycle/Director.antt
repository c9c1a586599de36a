-- ===== src/Lifecycle/Director.antt =====
-- core/agent/lifecycle.py: `LifecycleDirector`, and the context manager of `LifecycleManager`.
use kuva_ai.Prelude.{
  ℕ, zero, suc, String, Option, none, some, List, [], ◌∷◌, ◌≡◌, ◌≢◌, refl, sym, ap, ◌∙◌,
}
use kuva_ai.Dict.{Dict, lookup, insert}
use kuva_ai.Exec.{Result, ok, err, ◌>>◌}
use kuva_ai.Lifecycle.{
  LifecyclePhase, AgentState, created, initialized, Config, World, Error, Manager, Action,
  new_manager, enum_phase,
}
use kuva_ai.Lifecycle.Restart.{initialize_op, start_op, stop_op, perform, perform_all}
use kuva_ai.Lifecycle.Table.{IsMove, set_up}
use kuva_ai.Lifecycle.Moves.{perform-IsMove}
use kuva_ai.Lifecycle.Stuck.{perform_all-stuck}

pub record Director : Type 0 where
  pub agents : Dict Manager
  pub dependency_graph : Dict (List String)

-- `get_dependency_tree`: an agent with the trees of its dependencies.
mutual
  pub data Tree : Type 0 where
    agent : String → Forest → Tree

  pub data Forest : Type 0 where
    leaves : Forest
    beside : Tree → Forest → Forest

abbrev edges : Option (List String) → List String
edges none = []
edges (some ds) = ds

abbrev consed : Option Tree → Option Forest → Option Forest
consed none ts = none
consed (some t) none = none
consed (some t) (some ts) = some (beside t ts)

abbrev each : (String → Option Tree) → List String → Option Forest
each f [] = some leaves
each f (d ∷ ds) = consed (f d) (each f ds)

abbrev rooted : String → Option Forest → Option Tree
rooted id none = none
rooted id (some ts) = some (agent id ts)

-- `none`: the recursion is deeper than `fuel`.
unfoldable pub get_dependency_tree : ℕ → Dict (List String) → String → Option Tree
get_dependency_tree zero g id = none
get_dependency_tree (suc fuel) g id =
    rooted id (each (get_dependency_tree fuel g) (edges (lookup id g)))

module _ (phase_of : AgentState → Option LifecyclePhase) (cfg : Config) (w : World) where
  abbrev pub deployed :
      String → Result Error Unit × Manager → Director → Result Error Unit × Director
  deployed id (ok u, m) d = (ok u, record d { agents = insert id m d.agents })
  deployed id (err e, m) d = (err e, d)

  -- `deploy_agent`: the dependencies are registered beside the initialization, which awaits the lock.
  unfoldable pub deploy_agent : String → List String → Director → Result Error Unit × Director
  deploy_agent id dependencies d =
      deployed id (perform phase_of cfg w initialize_op (new_manager 0))
        (record d { dependency_graph = insert id dependencies d.dependency_graph })

  -- `__aenter__` and `__aexit__`
  unfoldable pub enter_context : Action
  enter_context = perform phase_of cfg w initialize_op >> perform phase_of cfg w start_op

  unfoldable pub exit_context : Action
  exit_context = perform phase_of cfg w stop_op

created-ne-initialized : created ≢ initialized
created-ne-initialized h = cc

move-initialized : (a b : AgentState) → IsMove initialize_op a b → b ≡ initialized
move-initialized a b set_up = refl

module _ (cfg : Config) (w : World) where
  stays : (m : Manager) → (perform enum_phase cfg w initialize_op m).1.state ≡ m.state
  unfolding perform_all
  stays m = (perform_all-stuck cfg w (initialize_op ∷ []) m).0

  deployed-fails :
      (id : String) (x : Result Error Unit × Manager) (d : Director)
      → x.0 ≢ ok tt
      → (deployed enum_phase cfg w id x d).1 ≡ d
  deployed-fails id (ok u, m) d h = absurd (h refl)
  deployed-fails id (err e, m) d h = refl

  initialize-fails : (perform enum_phase cfg w initialize_op (new_manager 0)).0 ≢ ok tt
  unfolding new_manager
  initialize-fails h = created-ne-initialized (
      sym (stays (new_manager 0))
      ∙ move-initialized _ _ (perform-IsMove enum_phase cfg w initialize_op (new_manager 0) h))

  -- With the phases of the source, `deploy_agent` deploys no agent: it only records dependencies.
  pub deploy_agent-none :
      (id : String) (dependencies : List String) (d : Director)
      → (deploy_agent enum_phase cfg w id dependencies d).1
        ≡ record d { dependency_graph = insert id dependencies d.dependency_graph }
  unfolding deploy_agent
  deploy_agent-none id dependencies d = deployed-fails id _ _ initialize-fails

each-none :
    (f : String → Option Tree) (k : String) (ds : List String) → f k ≡ none → each f (k ∷ ds) ≡ none
each-none f k ds h = ap (λ o. consed o (each f ds)) h

-- The tree of an agent whose first dependency is itself is never found, however deep the recursion.
pub get_dependency_tree-never :
    (g : Dict (List String)) (id : String) (ds : List String)
    → lookup id g ≡ some (id ∷ ds)
    → (fuel : ℕ) → get_dependency_tree fuel g id ≡ none
unfolding get_dependency_tree
get_dependency_tree-never g id ds h zero = refl
get_dependency_tree-never g id ds h (suc n) =
    ap (λ o. rooted id (each (get_dependency_tree n g) (edges o))) h
    ∙ ap (rooted id)
        (each-none (get_dependency_tree n g) id ds (get_dependency_tree-never g id ds h n))
