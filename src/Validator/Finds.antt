-- ===== src/Validator/Finds.antt =====
-- core/orchestration/workflow/validator.py: `find_strongly_connected_components` as a whole.
use kuva_ai.Prelude.{
  ℕ, ◌≤◌, arith, ◌≡◌, refl, String, Bool, true, false, List, [], ◌∷◌, length, filter, contains,
  contains_self, ◌++◌,
}
use kuva_ai.Dict.{keys}
use kuva_ai.Exec.{Result, ok, err, gets, continue}
use kuva_ai.Validator.{
  Error, Tarjan, new_search, connect_if, connect_all, is_cycle, find_components,
}
use kuva_ai.Validator.Synced.{IsSynced, new_search-IsSynced}
use kuva_ai.Validator.Returns.{
  unvisited, unvisited-le_length, unvisited-Grows, Returns, Returns-then, pure-Returns,
}
use kuva_ai.Validator.Total.{strongconnect-Connects}

module _ (nodes : List String) (successors : String → List String)
    (closed : (n w : String)
      → contains n nodes ≡ true
      → contains w (successors n) ≡ true
      → contains w nodes ≡ true) where
  connect_if-Returns :
      (v : Bool) (depth : ℕ) (n : String) (above : List String) (s : Tarjan)
      → contains n (keys s.indices) ≡ v
      → contains n nodes ≡ true
      → unvisited nodes (keys s.indices) ≤ depth
      → s.stack ≡ above ++ []
      → IsSynced s
      → Returns [] s (connect_if nodes successors v depth n s)
        × (contains n (keys (connect_if nodes successors v depth n s).1.indices) ≡ true)
  connect_if-Returns true depth n above s v mem few h synced = (pure-Returns [] above s h synced, v)
  connect_if-Returns false depth n above s v mem few h synced =
      (strongconnect-Connects nodes successors closed depth).run n [] above s mem v few h synced

  connect_all-Returns :
      (depth : ℕ) (ns above : List String) (s : Tarjan)
      → ((n : String) → contains n ns ≡ true → contains n nodes ≡ true)
      → unvisited nodes (keys s.indices) ≤ depth
      → s.stack ≡ above ++ []
      → IsSynced s
      → Returns [] s (connect_all nodes successors depth ns s)
  unfolding connect_all
  connect_all-Returns depth [] above s mem few h synced = pure-Returns [] above s h synced
  connect_all-Returns depth (n ∷ ns) above s mem few h synced =
      Returns-then [] s (connect_all nodes successors depth ns)
        (connect_if nodes successors (contains n (keys s.indices)) depth n s)
        (connect_if-Returns (contains n (keys s.indices)) depth n above s refl
          (mem n (contains_self n ns)) few h synced).0
        (λ up t stack sync grows.
          connect_all-Returns depth ns up t (λ x e. mem x (ground (arith, e)))
            (omega (arith, few, unvisited-Grows nodes (keys s.indices) (keys t.indices) grows))
            stack sync)

  filtered :
      (s : Tarjan) (x : Result Error Unit × Tarjan)
      → Returns [] s x
      → (comps : List (List String)) × ((continue
            (λ _. gets (λ t. filter (is_cycle nodes successors) t.sccs))
            x).0
          ≡ ok comps)
  filtered s (ok u, t) r = (filter (is_cycle nodes successors) t.sccs, refl)
  filtered s (err e, t) r = absurd (let same = r.result in cc)

  -- Where the successors of a node are nodes, and Python allows as many nested calls as there are nodes,
  -- the search returns: it raises no IndexError, no KeyError and no RecursionError.
  pub find_components-returns :
      (depth : ℕ)
      → length nodes ≤ depth
      → (comps : List (List String)) × ((find_components nodes successors depth).0 ≡ ok comps)
  unfolding find_components
  find_components-returns depth enough =
      filtered new_search (connect_all nodes successors depth nodes new_search) (
        connect_all-Returns depth nodes [] new_search (λ n e. e)
          (omega (arith, enough, unvisited-le_length nodes (keys new_search.indices))) refl
          new_search-IsSynced)
