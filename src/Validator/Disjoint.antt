-- ===== src/Validator/Disjoint.antt =====
-- core/orchestration/workflow/validator.py: the components that `TarjanCycleDetector` finds share no node.
use kuva_ai.Prelude.{
  ℕ, zero, suc, ◌+◌, ◌≤◌, arith, ◌≡◌, refl, sym, String, Bool, true, false, Option, none, some,
  List, [], ◌∷◌, eq_iff, eqb, filter, contains, count, one_if, count-cons, all, all-filter,
}
use kuva_ai.Dict.{lookup, insert, keys, contains-keys-insert}
use kuva_ai.Exec.{Result, ok, err, gets, modify, continue, ◌>>=◌}
use kuva_ai.Exec.Ensures.{
  Always, Keeps, Ensures-pure, Ensures-bind, Ensures-then, Keeps-modify, Keeps-of_state,
}
use kuva_ai.Validator.{
  Error, Tarjan, new_search, Action, read, found, smaller, Popped, enter, lower, pop_until,
  add_component, close_if, close, visit_by, visit, visit_all, strongconnect, connect_if,
  connect_all, is_cycle, find_components,
}
use kuva_ai.Validator.Counts.{
  count_all, count_all-append, count_all-one, count_all-filter_le, count-pop_until,
}

-- Each visited node is once on the stack or in a component, and no other node is.
pub record IsConserved (s : Tarjan) : Type 0 where
  pub conserved :
      (a : String) → count a s.stack + count_all a s.sccs ≡ one_if (contains a (keys s.indices))

pub enter-IsConserved :
    (node : String) (s : Tarjan)
    → contains node (keys s.indices) ≡ false
    → IsConserved s
    → IsConserved (enter node s).1
unfolding enter
enter-IsConserved node s new h = record {
  conserved = λ a. ground (
    arith,
    h.conserved a,
    count-cons a node s.stack,
    contains-keys-insert node a s.index s.indices,
    eq_iff node a,
  );
}

pub new_search-IsConserved : IsConserved new_search
unfolding count count_all
new_search-IsConserved = record { conserved = λ a. refl }

module _ (nodes : List String) (successors : String → List String) where
  found-IsConserved : (o : Option ℕ) (s : Tarjan) → IsConserved s → IsConserved (found o s).1
  found-IsConserved none s h = h
  found-IsConserved (some n) s h = h

  read-Keeps : (f : Tarjan → Option ℕ) → Keeps IsConserved (read f)
  read-Keeps f = Keeps-of_state (read f) (λ s h. found-IsConserved (f s) s h)

  lower-Keeps : (node : String) (f : Tarjan → Option ℕ) → Keeps IsConserved (lower node f)
  lower-Keeps node f =
      Ensures-bind Always (read (λ s. lookup node s.lowlink))
        (λ low. read f >>= λ n.
          modify (λ s. record s { lowlink = insert node (smaller low n) s.lowlink }))
        (read-Keeps _)
        (λ low _.
          Ensures-bind Always (read f)
            (λ n. modify (λ s. record s { lowlink = insert node (smaller low n) s.lowlink }))
            (read-Keeps f) (λ n _. Keeps-modify _ (λ s h. record { conserved = h.conserved })))

  pub popped-IsConserved :
      (o : Result Error Popped) (node : String) (s : Tarjan)
      → pop_until node s.stack s.on_stack [] ≡ o
      → IsConserved s
      → IsConserved (add_component o s).1
  unfolding count
  popped-IsConserved (err x) node s e h = h
  popped-IsConserved (ok p) node s e h = record {
    conserved = λ a. omega (
      arith,
      h.conserved a,
      count-pop_until a node s.stack s.on_stack [] p e,
      count_all-append a s.sccs (p.scc ∷ []),
      count_all-one a p.scc,
    );
  }

  close_if-Keeps : (b : Bool) (node : String) → Keeps IsConserved (close_if b node)
  close_if-Keeps false node = Ensures-pure tt tt
  close_if-Keeps true node = Keeps-of_state _ (λ s h. popped-IsConserved _ node s refl h)

  close-Keeps : (node : String) → Keeps IsConserved (close node)
  unfolding close
  close-Keeps node =
      Ensures-bind Always (read (λ s. lookup node s.lowlink))
        (λ low. read (λ s. lookup node s.indices) >>= λ i. close_if (eqb low i) node) (read-Keeps _)
        (λ low _.
          Ensures-bind Always (read (λ s. lookup node s.indices)) (λ i. close_if (eqb low i) node)
            (read-Keeps _) (λ i _. close_if-Keeps (eqb low i) node))

  module _ (call : String → Action Unit)
      (good : (w : String) (s : Tarjan)
        → contains w (keys s.indices) ≡ false
        → IsConserved s
        → IsConserved (call w s).1) where
    then_lowered :
        (node : String) (f : Tarjan → Option ℕ) (x : Result Error Unit × Tarjan)
        → IsConserved x.1
        → IsConserved (continue (λ _. lower node f) x).1
    then_lowered node f (ok u, s) h = ((lower-Keeps node f).run s h).0
    then_lowered node f (err e, s) h = h

    visit_by-IsConserved :
        (v o : Bool) (node w : String) (s : Tarjan)
        → contains w (keys s.indices) ≡ v
        → IsConserved s
        → IsConserved (visit_by nodes successors call v o node w s).1
    visit_by-IsConserved false o node w s new h =
        then_lowered node (λ t. lookup w t.lowlink) (call w s) (good w s new h)
    visit_by-IsConserved true true node w s new h =
        ((lower-Keeps node (λ t. lookup w t.indices)).run s h).0
    visit_by-IsConserved true false node w s new h = h

    visit_all-Keeps :
        (node : String) (ws : List String)
        → Keeps IsConserved (visit_all nodes successors call node ws)
    unfolding visit_all
    visit_all-Keeps node [] = Ensures-pure tt tt
    visit_all-Keeps node (w ∷ ws) =
        Ensures-then (visit nodes successors call node w) _
          (Keeps-of_state _ (λ s h. visit_by-IsConserved _ _ node w s refl h))
          (visit_all-Keeps node ws)

  connect-IsConserved :
      (depth : ℕ) (node : String) (s : Tarjan)
      → contains node (keys s.indices) ≡ false
      → IsConserved s
      → IsConserved (strongconnect nodes successors depth node s).1
  unfolding strongconnect enter
  connect-IsConserved zero node s new h = h
  connect-IsConserved (suc depth) node s new h =
      ((Ensures-then
          (visit_all nodes successors (strongconnect nodes successors depth) node (successors node))
          (close node)
          (visit_all-Keeps (strongconnect nodes successors depth) (connect-IsConserved depth) node
            (successors node))
          (close-Keeps node)).run
        (enter node s).1 (enter-IsConserved node s new h)).0

  connect_if-IsConserved :
      (b : Bool) (depth : ℕ) (node : String) (s : Tarjan)
      → contains node (keys s.indices) ≡ b
      → IsConserved s
      → IsConserved (connect_if nodes successors b depth node s).1
  connect_if-IsConserved true depth node s e h = h
  connect_if-IsConserved false depth node s e h = connect-IsConserved depth node s e h

  connect_all-Keeps :
      (depth : ℕ) (ns : List String) → Keeps IsConserved (connect_all nodes successors depth ns)
  unfolding connect_all
  connect_all-Keeps depth [] = Ensures-pure tt tt
  connect_all-Keeps depth (n ∷ ns) =
      Ensures-then _ (connect_all nodes successors depth ns)
        (Keeps-of_state
          (gets (λ s. contains n (keys s.indices)) >>= λ v. connect_if nodes successors v depth n)
          (λ s h. connect_if-IsConserved _ depth n s refl h))
        (connect_all-Keeps depth ns)

  abbrev is_cycle_ : List String → Bool
  is_cycle_ = is_cycle nodes successors

  at_most_one : (b : Bool) → one_if b ≤ 1
  at_most_one true = omega arith
  at_most_one false = omega arith

  few : (a : String) (s : Tarjan) → IsConserved s → count_all a (filter is_cycle_ s.sccs) ≤ 1
  few a s h = omega (
    arith,
    count_all-filter_le a is_cycle_ s.sccs,
    h.conserved a,
    at_most_one (contains a (keys s.indices)),
  )

  returned :
      (x : Result Error Unit × Tarjan) (comps : List (List String))
      → IsConserved x.1
      → (continue (λ _. gets (λ s. filter is_cycle_ s.sccs)) x).0 ≡ ok comps
      → ((a : String) → count_all a comps ≤ 1) × (all is_cycle_ comps ≡ true)
  returned (err e, s) comps h f = absurd (cc)
  returned (ok u, s) comps h f =
      let same : filter is_cycle_ s.sccs ≡ comps = cc in
      rw (sym same) (λ a. few a s h, all-filter is_cycle_ s.sccs)

  -- The components that are found have at least two nodes each; no node is in two of them, nor twice in
  -- one.
  pub find_components-disjoint :
      (depth : ℕ) (comps : List (List String))
      → (find_components nodes successors depth).0 ≡ ok comps
      → ((a : String) → count_all a comps ≤ 1) × (all (is_cycle nodes successors) comps ≡ true)
  unfolding find_components
  find_components-disjoint depth comps f =
      returned (connect_all nodes successors depth nodes new_search) comps
        ((connect_all-Keeps depth nodes).run new_search new_search-IsConserved).0 f
