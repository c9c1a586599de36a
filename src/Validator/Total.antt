-- ===== src/Validator/Total.antt =====
-- core/orchestration/workflow/validator.py: `strongconnect` returns where the depth covers the nodes that are
-- not visited yet.
use mathlib.Core.Path.{subst}
use kuva_ai.Prelude.{
  ℕ, zero, suc, ◌≤◌, arith, ◌≡◌, refl, sym, ap, ◌∙◌, String, Bool, true, false, List, [], ◌∷◌, ◌++◌,
  append_assoc, eq_iff, eqb, contains, contains_self, count,
}
use kuva_ai.Dict.{lookup, keys, contains-keys, contains-keys-insert}
use kuva_ai.Exec.{Result, ok, err, continue}
use kuva_ai.Validator.{
  Error, Popped, Tarjan, Action, enter, lower, pop_until, add_component, close_if, close, visit_by,
  visit, visit_all, strongconnect,
}
use kuva_ai.Validator.Disjoint.{popped-IsConserved}
use kuva_ai.Validator.Synced.{IsSynced, IsTaken, taken, pop_until-IsTaken, enter-IsSynced}
use kuva_ai.Validator.Returns.{
  unvisited, unvisited-Grows, unvisited-visited, Grows, Returns, Returns-later, Returns-then,
  found-Returns, is_there, pure-Returns, lower-Returns,
}

-- Once the call for a successor has returned, its lowlink is there to be read.
after_call :
    (node w : String) (below : List String) (s : Tarjan) (x : Result Error Unit × Tarjan)
    → Returns below s x
    → contains node (keys s.indices) ≡ true
    → contains w (keys x.1.indices) ≡ true
    → Returns below s (continue (λ _. lower node (λ t. lookup w t.lowlink)) x)
after_call node w below s (ok u, t) r there w_there =
    Returns-later below s t (lower node (λ v. lookup w v.lowlink) t) r.grows (
      lower-Returns node (λ v. lookup w v.lowlink) below r.above t (r.grows node there)
        (is_there w t r.synced w_there) r.stack r.synced)
after_call node w below s (err e, t) r there w_there = absurd (let same = r.result in cc)

-- The other nodes of a call are below its own node.
lift_above :
    (above below : List String) (s : Tarjan) (x : Result Error Unit × Tarjan)
    → Returns (above ++ below) s x
    → Returns below s x
lift_above above below s x r = record {
  result = r.result;
  above = r.above ++ above;
  stack = r.stack ∙ sym (append_assoc r.above above below);
  synced = r.synced;
  grows = r.grows;
}

module _ (nodes : List String) (successors : String → List String) where
  add_component-Returns :
      (node : String) (below : List String) (s : Tarjan) (o : Result Error Popped)
      → pop_until node s.stack s.on_stack [] ≡ o
      → IsTaken below o
      → IsSynced s
      → Returns below s (add_component o s)
  add_component-Returns node below s (ok p) e (taken _ ys stack counts) synced = record {
    result = refl;
    above = ys;
    stack = stack;
    synced = record {
      conserved = popped-IsConserved nodes successors (ok p) node s e synced.conserved;
      on_stack = counts;
      lowlinks = synced.lowlinks;
    };
    grows = λ a e. e;
  }
  add_component-Returns node below s (err _) e missing synced = elim missing [ ]

  close_if-Returns :
      (b : Bool) (node : String) (below above : List String) (s : Tarjan)
      → s.stack ≡ above ++ node ∷ below
      → IsSynced s
      → Returns below s (close_if b node s)
  close_if-Returns false node below above s h synced =
      pure-Returns below (above ++ node ∷ []) s (h ∙ sym (append_assoc above (node ∷ []) below))
        synced
  close_if-Returns true node below above s h synced =
      add_component-Returns node below s _ refl
        (subst (λ st. IsTaken below (pop_until node st s.on_stack [])) (sym h)
          (pop_until-IsTaken node above below s.on_stack []
            (λ a. synced.on_stack a ∙ ap (count a) h)))
        synced

  close-Returns :
      (node : String) (below above : List String) (s : Tarjan)
      → s.stack ≡ above ++ node ∷ below
      → contains node (keys s.indices) ≡ true
      → IsSynced s
      → Returns below s (close node s)
  unfolding close
  close-Returns node below above s h there synced =
      found-Returns below s (lookup node s.lowlink) _ (is_there node s synced there) (λ low.
        found-Returns below s (lookup node s.indices) _ (sym (contains-keys node s.indices) ∙ there)
          (λ i. close_if-Returns (eqb low i) node below above s h synced))

  -- What a nested call on a node that is not visited does, to this depth.
  pub record Connects (depth : ℕ) (call : String → Action Unit) : Type 0 where
    pub run :
        (w : String) (below above : List String) (s : Tarjan)
        → contains w nodes ≡ true
        → contains w (keys s.indices) ≡ false
        → unvisited nodes (keys s.indices) ≤ depth
        → s.stack ≡ above ++ below
        → IsSynced s
        → Returns below s (call w s) × (contains w (keys (call w s).1.indices) ≡ true)

  module _ (depth : ℕ) (call : String → Action Unit) (good : Connects depth call) where
    visit_by-Returns :
        (v o : Bool) (node w : String) (below above : List String) (s : Tarjan)
        → contains w (keys s.indices) ≡ v
        → contains w nodes ≡ true
        → contains node (keys s.indices) ≡ true
        → unvisited nodes (keys s.indices) ≤ depth
        → s.stack ≡ above ++ below
        → IsSynced s
        → Returns below s (visit_by nodes successors call v o node w s)
    visit_by-Returns false o node w below above s v mem there few h synced =
        let (r, w_there) = good.run w below above s mem v few h synced in
        after_call node w below s (call w s) r there w_there
    visit_by-Returns true true node w below above s v mem there few h synced =
        lower-Returns node (λ t. lookup w t.indices) below above s there
          (sym (contains-keys w s.indices) ∙ v) h synced
    visit_by-Returns true false node w below above s v mem there few h synced =
        pure-Returns below above s h synced

    visit_all-Returns :
        (node : String) (ws below above : List String) (s : Tarjan)
        → ((w : String) → contains w ws ≡ true → contains w nodes ≡ true)
        → contains node (keys s.indices) ≡ true
        → unvisited nodes (keys s.indices) ≤ depth
        → s.stack ≡ above ++ below
        → IsSynced s
        → Returns below s (visit_all nodes successors call node ws s)
    unfolding visit_all
    visit_all-Returns node [] below above s mem there few h synced =
        pure-Returns below above s h synced
    visit_all-Returns node (w ∷ ws) below above s mem there few h synced =
        Returns-then below s (visit_all nodes successors call node ws)
          (visit nodes successors call node w s)
          (visit_by-Returns (contains w (keys s.indices)) (contains w s.on_stack) node w below above
            s refl (mem w (contains_self w ws)) there few h synced)
          (λ up t stack sync grows.
            visit_all-Returns node ws below up t (λ x e. mem x (ground (arith, e)))
              (grows node there)
              (omega (arith, few, unvisited-Grows nodes (keys s.indices) (keys t.indices) grows))
              stack sync)

  close_after :
      (node : String) (below : List String) (s : Tarjan) (x : Result Error Unit × Tarjan)
      → Returns (node ∷ below) s x
      → contains node (keys s.indices) ≡ true
      → Returns below s (continue (λ _. close node) x)
  close_after node below s (ok u, t) r there =
      Returns-later below s t (close node t) r.grows
        (close-Returns node below r.above t r.stack (r.grows node there) r.synced)
  close_after node below s (err e, t) r there = absurd (let same = r.result in cc)

  enter-Grows :
      (node : String) (s : Tarjan) → Grows (keys s.indices) (keys (enter node s).1.indices)
  unfolding enter
  enter-Grows node s a e = ground (arith, e, contains-keys-insert node a s.index s.indices)

  enter-contains :
      (node : String) (s : Tarjan) → contains node (keys (enter node s).1.indices) ≡ true
  unfolding enter
  enter-contains node s =
      ground (arith, eq_iff node node, contains-keys-insert node node s.index s.indices)

  entered :
      (node : String) (s : Tarjan) (below : List String)
      → s.stack ≡ below
      → (enter node s).1.stack ≡ node ∷ below
  unfolding enter
  entered node s below h = ap (λ st. node ∷ st) h

  module _
      (closed : (n w : String)
        → contains n nodes ≡ true
        → contains w (successors n) ≡ true
        → contains w nodes ≡ true) where
    pub strongconnect-Connects : (depth : ℕ) → Connects depth (strongconnect nodes successors depth)
    unfolding strongconnect enter
    strongconnect-Connects zero = record {
      run = λ w below above s mem new few h synced. absurd (
          omega (
            arith,
            few,
            unvisited-visited w nodes (keys s.indices) (keys (enter w s).1.indices)
                (enter-Grows w s) mem new (enter-contains w s),
          ));
    }
    strongconnect-Connects (suc depth) = record {
      run = λ w below above s mem new few h synced.
          let t = (enter w s).1 in
          let fewer : unvisited nodes (keys t.indices) ≤ depth = omega (
            arith,
            few,
            unvisited-visited w nodes (keys s.indices) (keys t.indices) (enter-Grows w s) mem new
                (enter-contains w s),
          ) in
          let r =
            visit_all-Returns depth (strongconnect nodes successors depth)
              (strongconnect-Connects depth) w (successors w) (w ∷ (above ++ below)) [] t
              (λ v e. closed w v mem e) (enter-contains w s) fewer (entered w s (above ++ below) h)
              (enter-IsSynced w s new synced) in
          let q = close_after w (above ++ below) t _ r (enter-contains w s) in
          (
            Returns-later below s t _ (enter-Grows w s) (lift_above above below t _ q),
            q.grows w (enter-contains w s),
          );
    }
