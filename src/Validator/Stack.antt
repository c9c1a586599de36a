-- ===== src/Validator/Stack.antt =====
-- core/orchestration/workflow/validator.py: `strongconnect` pops its own node, and nothing below it.
use mathlib.Core.Path.{subst}
use kuva_ai.Prelude.{
  ℕ, zero, suc, ◌≡◌, ◌≢◌, refl, sym, ap, ◌∙◌, eqb, String, Bool, true, false, Option, none, some,
  List, [], ◌∷◌, ◌++◌, append_assoc, ◌==◌, eq_iff, arith, contains, filter, Bool-cases, inl, inr,
}
use kuva_ai.Dict.{lookup, keys}
use kuva_ai.Exec.{Result, ok, err, gets, continue, ◌>>=◌}
use kuva_ai.Validator.{
  Error, index_error, key_error, recursion_error, Tarjan, new_search, Action, read, found,
  drop_from, Popped, enter, lower, pop_until, add_component, close_if, close, visit_by, visit,
  visit_all, strongconnect, connect_if, connect_all, is_cycle, find_components,
}

-- Popping fails for an element that is not in the set, or leaves what was below the node.
data IsPopped (below : List String) : Result Error Popped → Type 0 where
  popped : (p : Popped) (ys : List String) → p.stack ≡ ys ++ below → IsPopped below (ok p)
  missing : IsPopped below (err key_error)

pop_until-IsPopped :
    (node : String) (xs below on scc : List String)
    → IsPopped below (pop_until node (xs ++ node ∷ below) on scc)
unfolding pop_until
pop_until-IsPopped node [] below on scc =
    let self : (node == node) ≡ true = ground (arith, eq_iff node node) in
    elim (Bool-cases (contains node on)) [
      | inl there ↦ rw (there, self) (popped _ [] refl)
      | inr gone ↦ rw gone missing
    ]
pop_until-IsPopped node (x ∷ xs) below on scc = elim (Bool-cases (contains x on)) [
  | inl there ↦ elim (Bool-cases (x == node)) [
    | inl e ↦ rw (there, e) (popped _ (xs ++ node ∷ []) (sym (append_assoc xs (node ∷ []) below)))
    | inr e ↦ rw (there, e) (pop_until-IsPopped node xs below (drop_from x on) (scc ++ x ∷ []))
  ]
  | inr gone ↦ rw gone missing
]

-- The stack still has this at its bottom, and nothing was popped from an empty one.
pub record IsKept (below : List String) (x : Result Error Unit × Tarjan) : Type 0 where
  pub above : List String
  pub stack : x.1.stack ≡ above ++ below
  pub no_index_error : x.0 ≢ err index_error

abbrev Safe : Action Unit → Type 0
Safe m = (below above : List String) (s : Tarjan) → s.stack ≡ above ++ below → IsKept below (m s)

continue-Safe :
    (k : Action Unit) (below : List String) (x : Result Error Unit × Tarjan)
    → Safe k
    → IsKept below x
    → IsKept below (continue (λ _. k) x)
continue-Safe k below (ok u, s) hk h = hk below h.above s h.stack
continue-Safe k below (err e, s) hk h = record {
  above = h.above;
  stack = h.stack;
  no_index_error = λ same. h.no_index_error (cc);
}

pure-Safe :
    (below above : List String) (s : Tarjan) → s.stack ≡ above ++ below → IsKept below (ok tt, s)
pure-Safe below above s h = record { above = above; stack = h; no_index_error = λ same. cc }

module _ (below above : List String) (s : Tarjan) (h : s.stack ≡ above ++ below) where
  found-Safe :
      (o : Option ℕ) (k : ℕ → Action Unit)
      → ((n : ℕ) → IsKept below (k n s))
      → IsKept below (continue k (found o s))
  found-Safe none k hk = record { above = above; stack = h; no_index_error = λ same. cc }
  found-Safe (some n) k hk = hk n

read-Safe :
    (f : Tarjan → Option ℕ) (k : ℕ → Action Unit) → ((n : ℕ) → Safe (k n)) → Safe (read f >>= k)
read-Safe f k hk below above s h = found-Safe below above s h (f s) k (λ n. hk n below above s h)

lower-Safe : (node : String) (f : Tarjan → Option ℕ) → Safe (lower node f)
lower-Safe node f =
    read-Safe (λ s. lookup node s.lowlink) _
      (λ low.
        read-Safe f _
          (λ n below above s h. record { above = above; stack = h; no_index_error = λ same. cc }))

module _ (nodes : List String) (successors : String → List String) where
  module _ (call : String → Action Unit) (good : (w : String) → Safe (call w)) where
    visit_by-Safe :
        (v o : Bool) (node w : String) → Safe (visit_by nodes successors call v o node w)
    visit_by-Safe false o node w below above s h =
        continue-Safe (lower node (λ t. lookup w t.lowlink)) below (call w s)
          (lower-Safe node (λ t. lookup w t.lowlink)) (good w below above s h)
    visit_by-Safe true true node w below above s h =
        lower-Safe node (λ t. lookup w t.indices) below above s h
    visit_by-Safe true false node w below above s h = pure-Safe below above s h

    visit_all-Safe :
        (node : String) (ws : List String) → Safe (visit_all nodes successors call node ws)
    unfolding visit_all
    visit_all-Safe node [] below above s h = pure-Safe below above s h
    visit_all-Safe node (w ∷ ws) below above s h =
        continue-Safe (visit_all nodes successors call node ws) below
          (visit nodes successors call node w s) (visit_all-Safe node ws)
          (visit_by-Safe _ _ node w below above s h)

  add_component-Safe :
      (below above : List String) (s : Tarjan) (o : Result Error Popped)
      → s.stack ≡ above ++ below
      → IsPopped below o
      → IsKept below (add_component o s)
  add_component-Safe below above s (ok p) h (popped _ ys stack) = record {
    above = ys;
    stack = stack;
    no_index_error = λ f. cc;
  }
  add_component-Safe below above s (err key_error) h missing = record {
    above = above;
    stack = h;
    no_index_error = λ f. cc;
  }
  add_component-Safe below above s (err index_error) h kept = elim kept [ ]
  add_component-Safe below above s (err recursion_error) h kept = elim kept [ ]

  close_if-Safe :
      (b : Bool) (node : String) (below above : List String) (s : Tarjan)
      → s.stack ≡ above ++ node ∷ below
      → IsKept below (close_if b node s)
  close_if-Safe false node below above s h =
      pure-Safe below (above ++ node ∷ []) s (h ∙ sym (append_assoc above (node ∷ []) below))
  close_if-Safe true node below above s h =
      add_component-Safe below (above ++ node ∷ []) s _
        (h ∙ sym (append_assoc above (node ∷ []) below))
        (subst (λ st. IsPopped below (pop_until node st s.on_stack [])) (sym h)
          (pop_until-IsPopped node above below s.on_stack []))

  close-Safe :
      (node : String) (below above : List String) (s : Tarjan)
      → s.stack ≡ above ++ node ∷ below
      → IsKept below (close node s)
  unfolding close
  close-Safe node below above s h =
      let bottom : s.stack ≡ (above ++ node ∷ []) ++ below =
        h ∙ sym (append_assoc above (node ∷ []) below) in
      found-Safe below (above ++ node ∷ []) s bottom (lookup node s.lowlink) _ (λ low.
        found-Safe below (above ++ node ∷ []) s bottom (lookup node s.indices) _
          (λ i. close_if-Safe (eqb low i) node below above s h))

  close_after :
      (node : String) (below : List String) (x : Result Error Unit × Tarjan)
      → IsKept (node ∷ below) x
      → IsKept below (continue (λ _. close node) x)
  unfolding close
  close_after node below (ok u, s) h = close-Safe node below h.above s h.stack
  close_after node below (err e, s) h = record {
    above = h.above ++ node ∷ [];
    stack = h.stack ∙ sym (append_assoc h.above (node ∷ []) below);
    no_index_error = λ same. h.no_index_error (cc);
  }

  -- On a stack `above ++ below` the call leaves `below` where it is.
  strongconnect-Safe :
      (depth : ℕ) (node : String) → Safe (strongconnect nodes successors depth node)
  unfolding strongconnect enter
  strongconnect-Safe zero node below above s h = record {
    above = above;
    stack = h;
    no_index_error = λ same. cc;
  }
  strongconnect-Safe (suc depth) node below above s h =
      let r =
        close_after node (above ++ below)
          (visit_all nodes successors (strongconnect nodes successors depth) node (successors node)
            (enter node s).1)
          (visit_all-Safe (strongconnect nodes successors depth) (strongconnect-Safe depth) node
            (successors node) (node ∷ (above ++ below)) [] (enter node s).1
            (ap (λ (st : List String). node ∷ st) h)) in
      record {
        above = r.above ++ above;
        stack = r.stack ∙ sym (append_assoc r.above above below);
        no_index_error = r.no_index_error;
      }

  connect_if-Safe :
      (b : Bool) (depth : ℕ) (node : String) → Safe (connect_if nodes successors b depth node)
  connect_if-Safe true depth node below above s h = pure-Safe below above s h
  connect_if-Safe false depth node below above s h = strongconnect-Safe depth node below above s h

  connect_all-Safe : (depth : ℕ) (ns : List String) → Safe (connect_all nodes successors depth ns)
  unfolding connect_all
  connect_all-Safe depth [] below above s h = pure-Safe below above s h
  connect_all-Safe depth (n ∷ ns) below above s h =
      continue-Safe (connect_all nodes successors depth ns) below
        (connect_if nodes successors (contains n (keys s.indices)) depth n s)
        (connect_all-Safe depth ns) (connect_if-Safe _ depth n below above s h)

  kept_by_filter :
      (x : Result Error Unit × Tarjan)
      → IsKept [] x
      → (continue (λ _. gets (λ s. filter (is_cycle nodes successors) s.sccs)) x).0
        ≢ err index_error
  kept_by_filter (ok u, s) h = λ same. cc
  kept_by_filter (err e, s) h = λ same. h.no_index_error (cc)

  -- `stack.pop` is never called on an empty stack.
  pub find_components-no_index_error :
      (depth : ℕ) → (find_components nodes successors depth).0 ≢ err index_error
  unfolding find_components
  find_components-no_index_error depth =
      kept_by_filter _ (connect_all-Safe depth nodes [] [] new_search refl)
