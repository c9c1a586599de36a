-- ===== src/Validator/Synced.antt =====
-- core/orchestration/workflow/validator.py: the set of what is on the stack and the two dicts of `TarjanCycleDetector`
-- agree with the stack.
use kuva_ai.Prelude.{
  ◌+◌, ◌≤◌, arith, ◌≡◌, refl, sym, ap, ◌∙◌, String, true, false, ◌||◌, List, [], ◌∷◌, ◌++◌,
  append_assoc, ◌==◌, eq_iff, contains, count, one_if, count-cons, count-add, count_absent,
  Bool-cases, inl, inr,
}
use kuva_ai.Dict.{keys, contains-keys-insert}
use kuva_ai.Exec.{Result, ok}
use kuva_ai.Validator.{Error, Tarjan, new_search, drop_from, Popped, enter, pop_until}
use kuva_ai.Validator.Disjoint.{IsConserved, enter-IsConserved, new_search-IsConserved}

pub contains-of_count : (a : String) (xs : List String) → 1 ≤ count a xs → contains a xs ≡ true
unfolding count
contains-of_count a [] h = absurd (omega (arith, h))
contains-of_count a (x ∷ xs) h = ground (arith, h, contains-of_count a xs)

count-drop_from :
    (x a : String) (xs : List String)
    → contains x xs ≡ true
    → count a (drop_from x xs) + one_if (x == a) ≡ count a xs
unfolding count drop_from
count-drop_from x a [] h = absurd (cc)
count-drop_from x a (y ∷ ys) h = elim (Bool-cases (y == x)) [
  | inl e ↦ ground (arith, e, eq_iff y x, eq_iff y a, eq_iff x a)
  | inr e ↦ ground (arith, e, h, count-drop_from x a ys)
]

-- The pop goes well, leaves what was below the node, and keeps the set in step.
pub data IsTaken (below : List String) : Result Error Popped → Type 0 where
  taken :
      (p : Popped) (ys : List String)
      → p.stack ≡ ys ++ below
      → ((a : String) → count a p.on_stack ≡ count a p.stack)
      → IsTaken below (ok p)

pub pop_until-IsTaken :
    (node : String) (xs below on scc : List String)
    → ((a : String) → count a on ≡ count a (xs ++ node ∷ below))
    → IsTaken below (pop_until node (xs ++ node ∷ below) on scc)
unfolding pop_until
pop_until-IsTaken node [] below on scc h =
    let self : (node == node) ≡ true = ground (arith, eq_iff node node) in
    let there : contains node on ≡ true =
      contains-of_count node on (ground (arith, h node, count-cons node node below, self)) in
    rw (there, self)
      (taken _ [] refl
        (λ a. omega (arith, h a, count-cons a node below, count-drop_from node a on there)))
pop_until-IsTaken node (x ∷ xs) below on scc h =
    let self : (x == x) ≡ true = ground (arith, eq_iff x x) in
    let there : contains x on ≡ true =
      contains-of_count x on (ground (arith, h x, count-cons x x (xs ++ node ∷ below), self)) in
    let rest : (a : String) → count a (drop_from x on) ≡ count a (xs ++ node ∷ below) =
      λ a. omega (arith, h a, count-cons a x (xs ++ node ∷ below), count-drop_from x a on there) in
    elim (Bool-cases (x == node)) [
      | inl e ↦
          rw (there, e) (taken _ (xs ++ node ∷ []) (sym (append_assoc xs (node ∷ []) below)) rest)
      | inr e ↦
          rw (there, e) (pop_until-IsTaken node xs below (drop_from x on) (scc ++ x ∷ []) rest)
    ]

pub record IsSynced (s : Tarjan) : Type 0 where
  pub conserved : IsConserved s
  pub on_stack : (a : String) → count a s.on_stack ≡ count a s.stack
  pub lowlinks : (a : String) → contains a (keys s.lowlink) ≡ contains a (keys s.indices)

pub enter-IsSynced :
    (node : String) (s : Tarjan)
    → contains node (keys s.indices) ≡ false
    → IsSynced s
    → IsSynced (enter node s).1
unfolding enter
enter-IsSynced node s new h =
    let none_yet : count node s.on_stack ≡ 0 =
      ground (arith, h.on_stack node, h.conserved.conserved node, new) in
    record {
      conserved = unfold enter in enter-IsConserved node s new h.conserved;
      on_stack = λ a. omega (
        arith,
        h.on_stack a,
        count-cons a node s.stack,
        count-add a node s.on_stack (count_absent node s.on_stack none_yet),
      );
      lowlinks = λ a.
          contains-keys-insert node a s.index s.lowlink
          ∙ ap (λ b. node == a || b) (h.lowlinks a)
          ∙ sym (contains-keys-insert node a s.index s.indices);
    }

pub new_search-IsSynced : IsSynced new_search
unfolding count
new_search-IsSynced = record {
  conserved = new_search-IsConserved;
  on_stack = λ a. refl;
  lowlinks = λ a. refl;
}
