-- ===== src/Validator/Returns.antt =====
-- core/orchestration/workflow/validator.py: with as many nested calls as there are nodes, the search of
-- `TarjanCycleDetector` returns.
use kuva_ai.Prelude.{
  ℕ, suc, ◌≤◌, arith, ◌≡◌, refl, sym, ◌∙◌, String, true, false, Option, none, some, List, [], ◌∷◌,
  ◌++◌, ◌==◌, eq_iff, length, contains, Bool-cases, inl, inr, if◌then◌else◌,
}
use kuva_ai.Dict.{lookup, insert, keys, is_some, contains-keys, contains-keys-insert}
use kuva_ai.Exec.{Result, ok, err, continue}
use kuva_ai.Validator.{Error, Tarjan, Action, found, smaller, lower}
use kuva_ai.Validator.Synced.{IsSynced}

-- How many of these are not among the keys.
unfoldable pub unvisited : (nodes ks : List String) → ℕ
unvisited [] ks = 0
unvisited (n ∷ ns) ks = if contains n ks then unvisited ns ks else suc (unvisited ns ks)

pub unvisited-le_length : (ns ks : List String) → unvisited ns ks ≤ length ns
unfolding unvisited
unvisited-le_length [] ks = omega arith
unvisited-le_length (n ∷ ns) ks = ground (arith, unvisited-le_length ns ks)

abbrev pub Grows : List String → List String → Type 0
Grows ks ls = (a : String) → contains a ks ≡ true → contains a ls ≡ true

pub unvisited-Grows : (ns ks ls : List String) → Grows ks ls → unvisited ns ls ≤ unvisited ns ks
unfolding unvisited
unvisited-Grows [] ks ls g = omega arith
unvisited-Grows (n ∷ ns) ks ls g = ground (arith, g n, unvisited-Grows ns ks ls g)

pub unvisited-visited :
    (a : String) (ns ks ls : List String)
    → Grows ks ls
    → contains a ns ≡ true
    → contains a ks ≡ false
    → contains a ls ≡ true
    → suc (unvisited ns ls) ≤ unvisited ns ks
unfolding unvisited
unvisited-visited a [] ks ls g mem new old = absurd (cc)
unvisited-visited a (n ∷ ns) ks ls g mem new old = elim (Bool-cases (n == a)) [
  | inl e ↦
      let same : n ≡ a = ground (arith, eq_iff n a, e) in
      let here : contains n ks ≡ false = rw same new in
      let there : contains n ls ≡ true = rw same old in
      ground (arith, here, there, unvisited-Grows ns ks ls g)
  | inr e ↦
      let rest : contains a ns ≡ true = rw e at mem in
      ground (arith, g n, unvisited-visited a ns ks ls g rest new old)
]

-- The action that ended here returned, left this at the bottom of the stack, and forgot no node.
pub record Returns (below : List String) (s : Tarjan) (x : Result Error Unit × Tarjan)
    : Type 0 where
  pub result : x.0 ≡ ok tt
  pub above : List String
  pub stack : x.1.stack ≡ above ++ below
  pub synced : IsSynced x.1
  pub grows : Grows (keys s.indices) (keys x.1.indices)

abbrev pub Returning : (below : List String) (s : Tarjan) → Action Unit → Type 0
Returning below s k =
    (above : List String) (t : Tarjan)
    → t.stack ≡ above ++ below
    → IsSynced t
    → Grows (keys s.indices) (keys t.indices)
    → Returns below t (k t)

pub Returns-later :
    (below : List String) (s t : Tarjan) (x : Result Error Unit × Tarjan)
    → Grows (keys s.indices) (keys t.indices)
    → Returns below t x
    → Returns below s x
Returns-later below s t x g r = record {
  result = r.result;
  above = r.above;
  stack = r.stack;
  synced = r.synced;
  grows = λ a e. r.grows a (g a e);
}

pub Returns-then :
    (below : List String) (s : Tarjan) (k : Action Unit) (x : Result Error Unit × Tarjan)
    → Returns below s x
    → Returning below s k
    → Returns below s (continue (λ _. k) x)
Returns-then below s k (err e, t) h hk = absurd (let same = h.result in cc)
Returns-then below s k (ok u, t) h hk =
    Returns-later below s t (k t) h.grows (hk h.above t h.stack h.synced h.grows)

pub found-Returns :
    (below : List String) (s : Tarjan) (o : Option ℕ) (k : ℕ → Action Unit)
    → is_some o ≡ true
    → ((n : ℕ) → Returns below s (k n s))
    → Returns below s (continue k (found o s))
found-Returns below s none k h hk = absurd (cc)
found-Returns below s (some n) k h hk = hk n

pub is_there :
    (w : String) (s : Tarjan)
    → IsSynced s
    → contains w (keys s.indices) ≡ true
    → is_some (lookup w s.lowlink) ≡ true
is_there w s h e = sym (contains-keys w s.lowlink) ∙ h.lowlinks w ∙ e

pub pure-Returns :
    (below above : List String) (s : Tarjan)
    → s.stack ≡ above ++ below
    → IsSynced s
    → Returns below s (ok tt, s)
pure-Returns below above s h synced = record {
  result = refl;
  above = above;
  stack = h;
  synced = synced;
  grows = λ a e. e;
}

same_keys :
    (node a : String) (n : ℕ) (s : Tarjan)
    → IsSynced s
    → contains node (keys s.indices) ≡ true
    → contains a (keys (insert node n s.lowlink)) ≡ contains a (keys s.indices)
same_keys node a n s h e =
    ground (arith, e, contains-keys-insert node a n s.lowlink, h.lowlinks a, eq_iff node a)

pub lower-Returns :
    (node : String) (f : Tarjan → Option ℕ) (below above : List String) (s : Tarjan)
    → contains node (keys s.indices) ≡ true
    → is_some (f s) ≡ true
    → s.stack ≡ above ++ below
    → IsSynced s
    → Returns below s (lower node f s)
lower-Returns node f below above s node_there there h synced =
    found-Returns below s (lookup node s.lowlink) _ (is_there node s synced node_there) (λ low.
      found-Returns below s (f s) _ there (λ n. record {
        result = refl;
        above = above;
        stack = h;
        synced = record {
          conserved = record { conserved = synced.conserved.conserved };
          on_stack = synced.on_stack;
          lowlinks = λ a. same_keys node a (smaller low n) s synced node_there;
        };
        grows = λ a e. e;
      }))
