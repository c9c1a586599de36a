-- ===== src/Validator/Counts.antt =====
-- core/orchestration/workflow/validator.py: how often a node is on the stack of `TarjanCycleDetector` and in its
-- components.
use kuva_ai.Prelude.{
  ℕ, ◌+◌, ◌≤◌, arith, ◌≡◌, sym, String, Bool, List, [], ◌∷◌, ◌++◌, ◌==◌, filter, contains, count,
  count-cons, count-snoc, Bool-cases, inl, inr,
}
use kuva_ai.Exec.{Result, ok, err}
use kuva_ai.Validator.{Error, key_error, drop_from, Popped, pop_until}

-- How often a node is in the components.
unfoldable pub count_all : String → List (List String) → ℕ
count_all a [] = 0
count_all a (c ∷ cs) = count a c + count_all a cs

pub count_all-append :
    (a : String) (xs ys : List (List String))
    → count_all a (xs ++ ys) ≡ count_all a xs + count_all a ys
unfolding count_all
count_all-append a [] ys = omega arith
count_all-append a (x ∷ xs) ys = omega (arith, count_all-append a xs ys)

pub count_all-one : (a : String) (c : List String) → count_all a (c ∷ []) ≡ count a c
unfolding count_all
count_all-one a c = omega arith

pub count_all-filter_le :
    (a : String) (p : List String → Bool) (xs : List (List String))
    → count_all a (filter p xs) ≤ count_all a xs
unfolding count_all
count_all-filter_le a p [] = omega arith
count_all-filter_le a p (x ∷ xs) = elim (Bool-cases (p x)) [
  | inl e ↦ rw e (omega (arith, count_all-filter_le a p xs))
  | inr e ↦ rw e (omega (arith, count_all-filter_le a p xs))
]

-- Popping moves nodes from the stack to the component.
pub count-pop_until :
    (a node : String) (st on scc : List String) (p : Popped)
    → pop_until node st on scc ≡ ok p
    → count a p.stack + count a p.scc ≡ count a st + count a scc
unfolding pop_until
count-pop_until a node [] on scc p h = absurd (cc)
count-pop_until a node (x ∷ st) on scc p h = elim (Bool-cases (contains x on)) [
  | inl there ↦ elim (Bool-cases (x == node)) [
    | inl e ↦
        let same : ◌≡◌ {A = Result Error Popped}
            (ok (record { stack = st; on_stack = drop_from x on; scc = scc ++ x ∷ [] })) (ok p) =
          rw (there, e) at h in
        let st_same : st ≡ p.stack = cc in
        let scc_same : scc ++ x ∷ [] ≡ p.scc = cc in
        rw (sym st_same, sym scc_same) (omega (arith, count-snoc a x scc, count-cons a x st))
    | inr e ↦
        let rest : pop_until node st (drop_from x on) (scc ++ x ∷ []) ≡ ok p = rw (there, e) at h in
        omega (
          arith,
          count-pop_until a node st (drop_from x on) (scc ++ x ∷ []) p rest,
          count-snoc a x scc,
          count-cons a x st,
        )
  ]
  | inr gone ↦
      let same : ◌≡◌ {A = Result Error Popped} (err key_error) (ok p) = rw gone at h in absurd (cc)
]
