-- ===== src/Validator/Samples.antt =====
-- Runs of the search in core/orchestration/workflow/validator.py.
use kuva_ai.Prelude.{
  ◌≡◌, contains, arith, refl, ◌≤◌, ◌||◌, add, String, true, List, [], ◌∷◌, all, if◌then◌else◌, ◌==◌,
}
use kuva_ai.Dict.{insert, lookup}
use kuva_ai.Exec.{ok, err}
use kuva_ai.Validator.{
  recursion_error, enter, pop_until, drop_from, close, visit_all, strongconnect, connect_all,
  is_cycle, find_components,
}
use kuva_ai.Validator.Counts.{count_all}
use kuva_ai.Validator.Disjoint.{find_components-disjoint}
use kuva_ai.Validator.Finds.{find_components-returns}

-- a → b → c → a, and d → a
abbrev nodes : List String
nodes = "d" ∷ "a" ∷ "b" ∷ "c" ∷ []

abbrev successors : String → List String
successors n =
    if n == "a"
    then "b" ∷ []
    else if n == "b"
    then "c" ∷ []
    else if n == "c" || n == "d"
    then "a" ∷ []
    else []

abbrev cycle : List (List String)
cycle = ("c" ∷ "b" ∷ "a" ∷ []) ∷ []

finds_cycle : (find_components nodes successors 5).0 ≡ ok cycle
unfolding find_components connect_all strongconnect visit_all enter close pop_until drop_from insert
    lookup add
finds_cycle = refl

too_deep : (find_components nodes successors 2).0 ≡ err recursion_error
unfolding find_components connect_all strongconnect visit_all enter close pop_until drop_from insert
    lookup add
too_deep = refl

find_components-disjoint_example :
    ((a : String) → count_all a cycle ≤ 1) × (all (is_cycle nodes successors) cycle ≡ true)
find_components-disjoint_example = find_components-disjoint nodes successors 5 cycle finds_cycle

closed :
    (n w : String)
    → contains n nodes ≡ true
    → contains w (successors n) ≡ true
    → contains w nodes ≡ true
closed n w mem next = ground (arith, mem, next)

find_components-returns_example :
    (comps : List (List String)) × ((find_components nodes successors 4).0 ≡ ok comps)
find_components-returns_example = find_components-returns nodes successors closed 4 (omega arith)
