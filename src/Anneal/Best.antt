-- ===== src/Anneal/Best.antt =====
-- simulated_annealing.py: what `run` reports as the best solution.
use kuva_ai.Prelude.{
  if-both, ℕ, zero, suc, ◌-◌, Bool, true, false, not, some, List, [], ◌∷◌, ◌++◌, map, all, arith,
  ◌≡◌, refl, sym, Bool-cases, inl, inr,
}
use mathlib.Core.Path.{subst}
use kuva_ai.Anneal.{Floats, Problem, SaConfig}
use kuva_ai.Anneal.Run.{
  state_of-end_if, Outcome, goes_on, ended, state_of, State, range_from, initialize_state,
  candidates, least, update_state, adjust, adapt, cool, count_stagnation, finish_round,
  cool_and_check, evaluate, rated, choose, round, loop, run,
}

-- What `run` compares: a strict order. The laws are those of numbers without NaN.
pub record IsOrder (F : Floats) : Type 0 where
  pub irreflexive : (a : F.Float) → F.lt a a ≡ false
  pub transitive : (a b c : F.Float) → F.lt a b ≡ true → F.lt b c ≡ true → F.lt a c ≡ true

pub some-injective : {A : Type 0} {a b : A} → some a ≡ some b → a ≡ b
some-injective h = cc

module _ (F : Floats) (p : Problem F) (cfg : SaConfig F) where
  -- No recorded energy is less than the best one, which is the best solution's.
  pub record IsBest (a : State F p cfg) : Type 0 where
    pub solved : a.state.best_energy ≡ p.calculate a.state.best_solution
    pub current : a.state.current_energy ≡ p.calculate a.state.current_solution
    pub least_of : all (λ e. not (F.lt e a.state.best_energy)) a.energies ≡ true

  count_stagnation-IsBest : (a : State F p cfg) → IsBest a → IsBest (count_stagnation F p cfg a)
  unfolding count_stagnation
  count_stagnation-IsBest a h =
      elim (Bool-cases (F.lt a.state.best_energy a.state.current_energy)) [
        | inl e ↦
            rw (e, count_stagnation)
              (record { solved = h.solved; current = h.current; least_of = h.least_of })
        | inr e ↦
            rw (e, count_stagnation)
              (record { solved = h.solved; current = h.current; least_of = h.least_of })
      ]

  finish_round-IsBest : (a : State F p cfg) → IsBest a → IsBest (state_of (finish_round F p cfg a))
  unfolding finish_round
  finish_round-IsBest a h = subst IsBest (sym (state_of-end_if _ a)) h

  cool-IsBest : (a : State F p cfg) → IsBest a → IsBest (cool F p cfg a)
  unfolding cool
  cool-IsBest a h = record { solved = h.solved; current = h.current; least_of = h.least_of }

  adjust-IsBest : (a : State F p cfg) → IsBest a → IsBest (state_of (adjust F p cfg a))
  unfolding adjust
  adjust-IsBest a h =
      subst IsBest (sym (state_of-end_if _ _))
        (record { solved = h.solved; current = h.current; least_of = h.least_of })

  adapt-IsBest : (a : State F p cfg) → IsBest a → IsBest (state_of (adapt F p cfg a))
  unfolding adapt
  adapt-IsBest a h =
      if-both (λ o. IsBest (state_of o)) cfg.adaptive_cooling (adjust F p cfg a) (goes_on a)
        (adjust-IsBest a h) h

  module _ (order : IsOrder F) where
    all-less :
        (b e : F.Float)
        → F.lt e b ≡ true
        → (xs : List F.Float) → all (λ x. not (F.lt x b)) xs ≡ true
        → all (λ x. not (F.lt x e)) xs ≡ true
    all-less b e l [] h = refl
    all-less b e l (x ∷ xs) h = ground (arith, all-less b e l xs, order.transitive x e b)

    all-snoc :
        (q : F.Float → Bool) (xs : List F.Float) (x : F.Float)
        → all q xs ≡ true
        → q x ≡ true
        → all q (xs ++ x ∷ []) ≡ true
    all-snoc q [] x h g = ground arith
    all-snoc q (y ∷ xs) x h g = ground (arith, all-snoc q xs x)

    update_state-IsBest :
        (e : F.Float) (x : p.Solution) (acc : Bool) (a : State F p cfg)
        → e ≡ p.calculate x
        → IsBest a
        → IsBest (update_state F p cfg e x acc a)
    unfolding update_state
    update_state-IsBest e x acc a q h = elim (Bool-cases (F.lt e a.state.best_energy)) [
      | inl l ↦
          rw (l, update_state)
            (record {
              solved = q;
              current = q;
              least_of =
                  all-snoc _ a.energies e (all-less a.state.best_energy e l a.energies h.least_of)
                    (ground (arith, order.irreflexive e));
            })
      | inr l ↦
          rw (l, update_state)
            (record {
              solved = h.solved;
              current = q;
              least_of = all-snoc _ a.energies e h.least_of (ground (arith, l));
            })
    ]

    evaluate-IsBest :
        (c : F.Float × p.Solution) (a : State F p cfg)
        → c.0 ≡ p.calculate (c.1)
        → IsBest a
        → IsBest (evaluate F p cfg c a)
    unfolding evaluate
    evaluate-IsBest (e, x) a q h =
        update_state-IsBest e x _ _ q
          (record { solved = h.solved; current = h.current; least_of = h.least_of })

    cool_and_check-IsBest :
        (o : Outcome (State F p cfg))
        → IsBest (state_of o)
        → IsBest (state_of (cool_and_check F p cfg o))
    cool_and_check-IsBest (ended a) h = h
    cool_and_check-IsBest (goes_on a) h =
        finish_round-IsBest _ (count_stagnation-IsBest _ (cool-IsBest a h))

    least-rated :
        (x : p.Solution) (ks : List ℕ) (c : F.Float × p.Solution)
        → c.0 ≡ p.calculate (c.1)
        → let b = least F p cfg c (map (rated F p cfg x) ks) in b.0 ≡ p.calculate (b.1)
    unfolding least
    least-rated x [] c q = q
    least-rated x (k ∷ ks) c q =
        least-rated x ks _
          (if-both (λ (d : F.Float × p.Solution). d.0 ≡ p.calculate (d.1)) _ _ _ refl q)

    choose-IsBest :
        (x : p.Solution) (ks : List ℕ) (a : State F p cfg)
        → IsBest a
        → IsBest (state_of (choose F p cfg (map (rated F p cfg x) ks) a))
    unfolding choose
    choose-IsBest x [] a h = h
    choose-IsBest x (k ∷ ks) a h =
        let i =
          evaluate-IsBest (least F p cfg (rated F p cfg x k) (map (rated F p cfg x) ks)) a
            (least-rated x ks (rated F p cfg x k) refl) h in
        cool_and_check-IsBest (adapt F p cfg _) (adapt-IsBest _ i)

    round-IsBest : (a : State F p cfg) → IsBest a → IsBest (state_of (round F p cfg a))
    unfolding round candidates
    round-IsBest a h =
        choose-IsBest a.state.current_solution (range_from a.neighbors cfg.workers) a h

    next-IsBest :
        (n : ℕ)
        → ((b : State F p cfg) → IsBest b → IsBest (loop F p cfg n b))
        → (o : Outcome (State F p cfg)) → IsBest (state_of o)
        → IsBest (elim o as (λ _. State F p cfg) [ goes_on b ↦ loop F p cfg n b | ended b ↦ b ])
    next-IsBest n h (goes_on b) i = h b i
    next-IsBest n h (ended b) i = i

    loop-IsBest : (n : ℕ) (a : State F p cfg) → IsBest a → IsBest (loop F p cfg n a)
    unfolding loop
    loop-IsBest zero a h = h
    loop-IsBest (suc n) a h = elim (Bool-cases (F.lt cfg.min_temperature a.state.temperature)) [
      | inl t ↦
          rw (t, loop)
            (next-IsBest n (λ b i. loop-IsBest n b i) (round F p cfg a) (round-IsBest a h))
      | inr t ↦ rw (t, loop) h
    ]

    -- When `run` returns, the best energy is that of the best solution, the current energy that of
    -- the current solution, and no energy that the run recorded is less than the best one.
    pub run-IsBest :
        (c : Bool) (x : p.Solution) (a : State F p cfg) → run F p cfg c x ≡ some a → IsBest a
    unfolding run initialize_state
    run-IsBest true x a h = cc
    run-IsBest false x a h = subst IsBest (some-injective h) (
        loop-IsBest (cfg.max_iterations - 0) _
          (record { solved = refl; current = refl; least_of = refl }))
