-- ===== src/Anneal/Route.antt =====
-- simulated_annealing.py: `TSPSolver`, and what a run keeps of its solutions.
use mathlib.Core.List.{Perm, reverse, reverse_perm}
use mathlib.Core.List.Perm
use mathlib.Core.Path.{subst}
use kuva_ai.Prelude.{
  if-both, ℕ, zero, suc, ◌+◌, ◌-◌, ◌≤◌, arith, Bool, true, false, some, List, [], ◌∷◌, ◌++◌, map,
  take, drop, ◌≡◌, refl, sym, ap, ◌∙◌, Bool-cases, inl, inr,
}
use kuva_ai.Anneal.{Floats, Problem, SaConfig, Annealer}
use kuva_ai.Anneal.Run.{
  state_of-end_if, Outcome, goes_on, ended, state_of, State, range_from, initial, initialize_state,
  candidates, rated, least, update_state, adjust, adapt, cool, count_stagnation, finish_round,
  cool_and_check, evaluate, choose, round, loop, run,
}
use kuva_ai.Anneal.Best.{some-injective}

module _ (F : Floats) (p : Problem F) (cfg : SaConfig F) (P : p.Solution → Type 0)
    (closed : (x : p.Solution) (k : ℕ) → P x → P (p.generate_neighbor x k)) where
  record Within (a : State F p cfg) : Type 0 where
    best : P a.state.best_solution
    current : P a.state.current_solution

  count_stagnation-Within : (a : State F p cfg) → Within a → Within (count_stagnation F p cfg a)
  unfolding count_stagnation
  count_stagnation-Within a h =
      elim (Bool-cases (F.lt a.state.best_energy a.state.current_energy)) [
        | inl e ↦ rw (e, count_stagnation) (record { best = h.best; current = h.current })
        | inr e ↦ rw (e, count_stagnation) (record { best = h.best; current = h.current })
      ]

  cool_and_check-Within :
      (o : Outcome (State F p cfg))
      → Within (state_of o)
      → Within (state_of (cool_and_check F p cfg o))
  unfolding finish_round cool
  cool_and_check-Within (ended a) h = h
  cool_and_check-Within (goes_on a) h =
      subst Within (sym (state_of-end_if _ (count_stagnation F p cfg (cool F p cfg a))))
        (count_stagnation-Within _ (record { best = h.best; current = h.current }))

  adapt-Within : (a : State F p cfg) → Within a → Within (state_of (adapt F p cfg a))
  unfolding adapt adjust
  adapt-Within a h =
      if-both (λ o. Within (state_of o)) cfg.adaptive_cooling (adjust F p cfg a) (goes_on a)
        (subst Within (sym (state_of-end_if _ _)) (record { best = h.best; current = h.current })) h

  evaluate-Within :
      (c : F.Float × p.Solution) (a : State F p cfg)
      → P (c.1)
      → Within a
      → Within (evaluate F p cfg c a)
  unfolding evaluate update_state
  evaluate-Within (e, x) a q h = record { best = if-both P _ x _ q h.best; current = q }

  least-within :
      (x : p.Solution)
      → P x
      → (ks : List ℕ) (c : F.Float × p.Solution) → P (c.1)
      → P ((least F p cfg c (map (rated F p cfg x) ks)).1)
  unfolding least
  least-within x h [] c q = q
  least-within x h (k ∷ ks) c q =
      least-within x h ks _ (if-both (λ (d : F.Float × p.Solution). P (d.1)) _ _ _ (closed x k h) q)

  choose-Within :
      (x : p.Solution)
      → P x
      → (ks : List ℕ) (a : State F p cfg) → Within a
      → Within (state_of (choose F p cfg (map (rated F p cfg x) ks) a))
  unfolding choose
  choose-Within x q [] a h = h
  choose-Within x q (k ∷ ks) a h = cool_and_check-Within (adapt F p cfg _) (
      adapt-Within _ (
        evaluate-Within (least F p cfg (rated F p cfg x k) (map (rated F p cfg x) ks)) a
          (least-within x q ks (rated F p cfg x k) (closed x k q)) h))

  round-Within : (a : State F p cfg) → Within a → Within (state_of (round F p cfg a))
  unfolding round candidates
  round-Within a h =
      choose-Within a.state.current_solution h.current (range_from a.neighbors cfg.workers) a h

  next-Within :
      (n : ℕ)
      → ((b : State F p cfg) → Within b → Within (loop F p cfg n b))
      → (o : Outcome (State F p cfg)) → Within (state_of o)
      → Within (elim o as (λ _. State F p cfg) [ goes_on b ↦ loop F p cfg n b | ended b ↦ b ])
  next-Within n h (goes_on b) i = h b i
  next-Within n h (ended b) i = i

  loop-Within : (n : ℕ) (a : State F p cfg) → Within a → Within (loop F p cfg n a)
  unfolding loop
  loop-Within zero a h = h
  loop-Within (suc n) a h = elim (Bool-cases (F.lt cfg.min_temperature a.state.temperature)) [
    | inl t ↦
        rw (t, loop) (next-Within n (λ b i. loop-Within n b i) (round F p cfg a) (round-Within a h))
    | inr t ↦ rw (t, loop) h
  ]

  run-within :
      (c : Bool) (x : p.Solution) (a : State F p cfg)
      → P x
      → run F p cfg c x ≡ some a
      → P a.state.best_solution × P a.state.current_solution
  unfolding run initialize_state
  run-within true x a q h = cc
  run-within false x a q h =
      let w = subst Within (some-injective h) (
        loop-Within (cfg.max_iterations - 0) (initial F p cfg x)
          (record { best = q; current = q })) in
      (w.best, w.current)

-- `new_solution[i:j+1] = new_solution[i:j+1][::-1]`
unfoldable pub two_opt : ℕ → ℕ → List ℕ → List ℕ
two_opt i j xs = take i xs ++ (reverse (take (j + 1 - i) (drop i xs)) ++ drop (j + 1) xs)

module _ (F : Floats) where
  -- `TSPSolver.calculate`, from a total on
  unfoldable pub route_length : (ℕ → ℕ → F.Float) → F.Float → List ℕ → F.Float
  route_length d total [] = total
  route_length d total (a ∷ []) = total
  route_length d total (a ∷ b ∷ xs) = route_length d (F.add total (d a b)) (b ∷ xs)

  -- `TSPSolver`; `sample` draws the two positions, sorted.
  abbrev pub tsp : (ℕ → ℕ → F.Float) → (sample : ℕ → ℕ × ℕ) → (random : ℕ → F.Float) → Problem F
  tsp d sample random = record {
    Solution = List ℕ;
    calculate = λ xs. route_length d (F.decimal 0 0) xs;
    generate_neighbor = λ xs k. let (i, j) = sample k in two_opt i j xs;
    random = random;
  }

take-drop : (i : ℕ) (xs : List ℕ) → take i xs ++ drop i xs ≡ xs
take-drop zero xs = refl
take-drop (suc i) [] = refl
take-drop (suc i) (x ∷ xs) = ap (λ r. x ∷ r) (take-drop i xs)

drop-nil : (n : ℕ) → drop {A = ℕ} n [] ≡ []
drop-nil zero = refl
drop-nil (suc n) = refl

drop-drop : (i n k : ℕ) (xs : List ℕ) → k ≡ i + n → drop n (drop i xs) ≡ drop k xs
drop-drop zero n k xs e = ap (λ t. drop t xs) (omega (arith, e))
drop-drop (suc i) n zero xs e = absurd (omega (arith, e))
drop-drop (suc i) n (suc k) [] e = drop-nil n
drop-drop (suc i) n (suc k) (x ∷ xs) e = drop-drop i n k xs (omega (arith, e))

-- The 2-opt move permutes a route.
pub two_opt-Perm : (i j : ℕ) (xs : List ℕ) → i ≤ j → Perm (two_opt i j xs) xs
unfolding two_opt
two_opt-Perm i j xs h =
    let m = drop i xs in
    let n = j + 1 - i in
    let e : drop n m ≡ drop (j + 1) xs = drop-drop i n (j + 1) xs (omega (arith, h)) in
    let whole : take i xs ++ (take n m ++ drop (j + 1) xs) ≡ xs =
      ap (λ r. take i xs ++ (take n m ++ r)) (sym e)
      ∙ ap (λ r. take i xs ++ r) (take-drop n m)
      ∙ take-drop i xs in
    subst (Perm (two_opt i j xs)) whole (
      Perm.append (Perm.refl (take i xs))
        (Perm.append (reverse_perm (take n m)) (Perm.refl (drop (j + 1) xs))))

-- The best and the last route that a run of `TSPSolver` returns permute the initial one.
pub run-Perm :
    (F : Floats) (d : ℕ → ℕ → F.Float) (sample : ℕ → ℕ × ℕ) (random : ℕ → F.Float)
    (sorted : (k : ℕ) → (sample k).0 ≤ (sample k).1) (cfg : SaConfig F) (c : Bool) (x : List ℕ)
    (a : Annealer F (List ℕ))
    → run F (tsp F d sample random) cfg c x ≡ some a
    → Perm a.state.best_solution x × Perm a.state.current_solution x
run-Perm F d sample random sorted cfg c x a h =
    run-within F (tsp F d sample random) cfg (λ y. Perm y x)
      (λ y k q. Perm.trans (two_opt-Perm ((sample k).0) ((sample k).1) y (sorted k)) q) c x a
      (Perm.refl x) h
