-- ===== src/Agent/Cycles.antt =====
-- core/agent/registry.py, `_detect_circular_dependencies`: a depth-first search over the map from
-- an agent type to the agent types that depend on it. `none` means that the fuel ran out.
pub mod Fuel
pub mod Found
mod Quiet
pub mod Order
use kuva_ai.Prelude.{
  ℕ, zero, suc, String, ◌≡◌, Bool, true, false, Option, none, some, List, [], ◌∷◌, ◌++◌, ◌==◌,
  if◌then◌else◌, contains, length,
}
use kuva_ai.Dict.{Dict, lookup, keys}

-- `_reverse_dependencies`
abbrev pub Graph : Type 0
Graph = Dict (List String)

abbrev listed : Option (List String) → List String
listed none = []
listed (some ds) = ds

-- `self._reverse_dependencies.get(node, [])`
unfoldable pub dependents : Graph → String → List String
dependents g node = listed (lookup node g)

-- The variables that `dfs` shares with its caller.
pub record Search : Type 0 where
  pub visited : List String
  pub stack : List String
  pub cycles : List (List String)

-- `stack[stack.index(x):]`
from_index : String → List String → List String
from_index x [] = []
from_index x (y ∷ ys) = if y == x then y ∷ ys else from_index x ys

-- `stack.pop()`, without the popped element
pub drop_last : List String → List String
drop_last [] = []
drop_last (x ∷ []) = []
drop_last (x ∷ y ∷ ys) = x ∷ drop_last (y ∷ ys)

enter : String → Search → Search
enter node s = record s { visited = node ∷ s.visited; stack = s.stack ++ node ∷ [] }

leave : Search → Search
leave s = record s { stack = drop_last s.stack }

report : String → Search → Search
report d s = record s { cycles = s.cycles ++ (from_index d s.stack ++ d ∷ []) ∷ [] }

-- The body of the loop over the dependents; `rec` is the recursive call.
pub step : (String → Search → Option Search) → String → Search → Option Search
step rec d s =
    if contains d s.stack
    then some (report d s)
    else if contains d s.visited
    then some s
    else rec d s

pub scan : (String → Search → Option Search) → List String → Search → Option Search
scan rec [] s = some s
scan rec (d ∷ ds) s = elim (step rec d s) [ none ↦ none | some s' ↦ scan rec ds s' ]

left : Option Search → Option Search
left none = none
left (some s) = some (leave s)

pub dfs : Graph → ℕ → String → Search → Option Search
dfs g zero node s = none
dfs g (suc fuel) node s = elim (contains node s.visited) [
  | true ↦ some s
  | false ↦ left (scan (dfs g fuel) (dependents g node) (enter node s))
]

pub dfs_all : Graph → ℕ → List String → Search → Option Search
dfs_all g fuel [] s = some s
dfs_all g fuel (k ∷ ks) s = elim (dfs g fuel k s) [ none ↦ none | some s' ↦ dfs_all g fuel ks s' ]

all_dependents : Graph → List String
all_dependents [] = []
all_dependents ((k, ds) ∷ g) = ds ++ all_dependents g

-- Every node that the search can meet.
nodes : Graph → List String → List String
nodes g roots = roots ++ all_dependents g

abbrev start : Search
start = record { visited = []; stack = []; cycles = [] }

abbrev found : Option Search → Option (List (List String))
found none = none
found (some s) = some s.cycles

unfoldable pub detect_circular_dependencies : Graph → List String → Option (List (List String))
unfolding dfs_all dfs scan step report from_index left leave drop_last enter dependents nodes
    all_dependents
detect_circular_dependencies g roots = found (dfs_all g (suc (length (nodes g roots))) roots start)
