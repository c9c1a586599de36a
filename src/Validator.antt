-- ===== src/Validator.antt =====
-- core/orchestration/workflow/validator.py: the state of `TarjanCycleDetector`, and the search for strongly
-- connected components. networkx gives the nodes and the successors of each; of the stack the top comes
-- first.
pub mod Counts
pub mod Disjoint
pub mod Stack
pub mod Synced
pub mod Returns
pub mod Total
pub mod Finds
mod Samples
use kuva_ai.Prelude.{
  ℕ, zero, suc, ◌+◌, String, Bool, true, false, not, Option, none, some, List, [], ◌∷◌, ◌++◌, ◌==◌,
  ltb, eqb, length, filter, contains, add, if◌then◌else◌,
}
use kuva_ai.Dict.{Dict, lookup, insert, keys}
use kuva_ai.Exec.{Exec, Result, ok, err, pure, raise, gets, modify, continue, ◌>>=◌, ◌>>◌}

-- An IndexError of `stack.pop`, a KeyError of a dict or of `on_stack.remove`, and what Python raises when
-- the recursion gets too deep
pub data Error : Type 0 where
  index_error key_error recursion_error : Error

pub record Tarjan : Type 0 where
  pub index : ℕ
  pub indices : Dict ℕ
  pub lowlink : Dict ℕ
  pub stack : List String
  pub on_stack : List String
  pub sccs : List (List String)

abbrev pub new_search : Tarjan
new_search = record { index = 0; indices = []; lowlink = []; stack = []; on_stack = []; sccs = [] }

abbrev pub Action : Type 0 → Type 0
Action A = Exec Tarjan Error A

-- `d[k]`, of a dict `d` of the state
abbrev pub found : Option ℕ → Action ℕ
found none = raise key_error
found (some n) = pure n

abbrev pub read : (Tarjan → Option ℕ) → Action ℕ
read f s = found (f s) s

abbrev pub smaller : ℕ → ℕ → ℕ
smaller a b = if ltb b a then b else a

-- `set.remove` of an element that is there (`pop_until` tests it)
unfoldable pub drop_from : String → List String → List String
drop_from a [] = []
drop_from a (x ∷ xs) = if x == a then xs else x ∷ drop_from a xs

-- What the loop that pops a component leaves: the stack, the set, and the component.
pub record Popped : Type 0 where
  pub stack : List String
  pub on_stack : List String
  pub scc : List String

-- The first six lines of `strongconnect`
unfoldable pub enter : String → Action Unit
enter node = modify (λ s. record s {
  indices = insert node s.index s.indices;
  lowlink = insert node s.index s.lowlink;
  index = suc s.index;
  stack = node ∷ s.stack;
  on_stack = add node s.on_stack;
})

-- `lowlink[node] = min(lowlink[node], ...)`
abbrev pub lower : String → (Tarjan → Option ℕ) → Action Unit
lower node f = do
  low ← read (λ s. lookup node s.lowlink)
  n ← read f
  modify (λ s. record s { lowlink = insert node (smaller low n) s.lowlink })

-- `while True: ...`
unfoldable pub pop_until : String → List String → List String → List String → Result Error Popped
pop_until node [] on_stack scc = err index_error
pop_until node (x ∷ stack) on_stack scc =
    let rest = pop_until node stack (drop_from x on_stack) (scc ++ x ∷ []) in
    if contains x on_stack
    then (if x == node
        then ok (record { stack = stack; on_stack = drop_from x on_stack; scc = scc ++ x ∷ [] })
        else rest)
    else err key_error

abbrev pub add_component : Result Error Popped → Action Unit
add_component (err e) = raise e
add_component (ok p) =
    modify (λ s. record s { stack = p.stack; on_stack = p.on_stack; sccs = s.sccs ++ p.scc ∷ [] })

abbrev pub close_if : Bool → String → Action Unit
close_if false node = pure tt
close_if true node = do p ← gets (λ s. pop_until node s.stack s.on_stack []); add_component p

-- The end of `strongconnect`
unfoldable pub close : String → Action Unit
close node = do
  low ← read (λ s. lookup node s.lowlink)
  index ← read (λ s. lookup node s.indices)
  close_if (eqb low index) node

module _ (nodes : List String) (successors : String → List String) where
  module _ (call : String → Action Unit) where
    -- The body of the loop over the successors, by whether the successor was visited.
    abbrev pub visit_by : (visited on_stack : Bool) → String → String → Action Unit
    visit_by false on node w = do call w; lower node (λ s. lookup w s.lowlink)
    visit_by true true node w = lower node (λ s. lookup w s.indices)
    visit_by true false node w = pure tt

    abbrev pub visit : String → String → Action Unit
    visit node w s = visit_by (contains w (keys s.indices)) (contains w s.on_stack) node w s

    unfoldable pub visit_all : String → List String → Action Unit
    visit_all node [] = pure tt
    visit_all node (w ∷ ws) = do visit node w; visit_all node ws

  -- `strongconnect`, to a depth of nested calls
  unfoldable pub strongconnect : ℕ → String → Action Unit
  strongconnect zero node = raise recursion_error
  strongconnect (suc depth) node = do
    enter node
    visit_all (strongconnect depth) node (successors node)
    close node

  abbrev pub connect_if : (visited : Bool) → ℕ → String → Action Unit
  connect_if true depth node = pure tt
  connect_if false depth node = strongconnect depth node

  unfoldable pub connect_all : ℕ → List String → Action Unit
  connect_all depth [] = pure tt
  connect_all depth (n ∷ ns) = do
    visited ← gets (λ s. contains n (keys s.indices))
    connect_if visited depth n
    connect_all depth ns

  abbrev pub is_cycle : List String → Bool
  is_cycle scc = ltb 1 (length scc)

  -- `find_strongly_connected_components`
  unfoldable pub find_components : ℕ → Result Error (List (List String)) × Tarjan
  find_components depth = (connect_all depth nodes >> gets (λ s. filter is_cycle s.sccs)) new_search
