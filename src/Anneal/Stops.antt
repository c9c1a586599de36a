-- ===== src/Anneal/Stops.antt =====
-- simulated_annealing.py: when `run` ends.
use kuva_ai.Prelude.{
  if-both, ℕ, zero, suc, ◌+◌, ◌-◌, ◌%◌, ◌≤◌, ◌<◌, arith, Bool, true, false, some, List, [], ◌∷◌,
  eqb, eqb_iff, ltb, ltb→lt, ◌∙◌, ◌≢◌, ◌≡◌, refl, sym, ap, Bool-cases, inl, inr,
}
use native.Mathlib.Nat.{mod_self}
use mathlib.Core.Path.{subst}
use kuva_ai.Anneal.{Floats, Problem, SaConfig}
use kuva_ai.Anneal.Run.{
  state_of-end_if, end_if, Outcome, goes_on, ended, state_of, State, initialize_state, update_state,
  adjust, adapt, cool, count_stagnation, finish_round, cool_and_check, evaluate, choose, round,
  loop, run,
}
use kuva_ai.Anneal.Best.{some-injective}

true-ne-false : true ≢ false
true-ne-false p = cc

module _ (F : Floats) (p : Problem F) (cfg : SaConfig F) where
  abbrev iter : State F p cfg → ℕ
  iter a = a.state.iteration

  -- A round counts by one at most, and goes on only between two checkpoints.
  abbrev Counts : ℕ → Outcome (State F p cfg) → Type 0
  Counts i (goes_on b) = (iter b ≡ i + 1) × (eqb (iter b % cfg.state_interval) 0 ≡ false)
  Counts i (ended b) = iter b ≤ i + 1

  Counts-end_if :
      (i : ℕ) (c : Bool) (a : State F p cfg)
      → iter a ≡ i + 1
      → (c ≡ false → eqb (iter a % cfg.state_interval) 0 ≡ false)
      → Counts i (end_if c a)
  unfolding end_if
  Counts-end_if i true a e h = omega (arith, e)
  Counts-end_if i false a e h = (e, h refl)

  iter-count_stagnation : (a : State F p cfg) → iter (count_stagnation F p cfg a) ≡ iter a
  unfolding count_stagnation
  iter-count_stagnation a = if-both (λ b. iter b ≡ iter a) _ _ _ refl refl

  Counts-check :
      (i : ℕ) (o : Outcome (State F p cfg))
      → iter (state_of o) ≡ i
      → Counts i (cool_and_check F p cfg o)
  unfolding finish_round cool
  Counts-check i (ended a) e = omega (arith, e)
  Counts-check i (goes_on a) e =
      let b = count_stagnation F p cfg (cool F p cfg a) in
      Counts-end_if i _ b (ground (arith, iter-count_stagnation (cool F p cfg a), e))
        (λ h. ground arith)

  iter-adjust : (a : State F p cfg) → iter (state_of (adjust F p cfg a)) ≡ iter a
  unfolding adjust
  iter-adjust a = ap iter (state_of-end_if _ _)

  iter-adapt : (a : State F p cfg) → iter (state_of (adapt F p cfg a)) ≡ iter a
  unfolding adapt
  iter-adapt a =
      if-both (λ o. iter (state_of o) ≡ iter a) cfg.adaptive_cooling (adjust F p cfg a) (goes_on a)
        (iter-adjust a) refl

  Counts-choose :
      (cs : List (F.Float × p.Solution)) (a : State F p cfg) → Counts (iter a) (choose F p cfg cs a)
  unfolding choose evaluate update_state
  Counts-choose [] a = omega arith
  Counts-choose (c ∷ cs) a = Counts-check (iter a) (adapt F p cfg _) (iter-adapt _)

  Counts-round : (a : State F p cfg) → Counts (iter a) (round F p cfg a)
  unfolding round
  Counts-round a = Counts-choose _ a

  below :
      (i : ℕ)
      → i ≤ cfg.state_interval
      → eqb (i % cfg.state_interval) 0 ≡ false
      → i < cfg.state_interval
  below i l f = elim (Bool-cases (ltb i cfg.state_interval)) [
    | inl h ↦ ltb→lt i cfg.state_interval h
    | inr h ↦
        let e : i ≡ cfg.state_interval = ground arith in
        let z : i % cfg.state_interval ≡ 0 =
          ap (λ k. k % cfg.state_interval) e ∙ mod_self cfg.state_interval in
        absurd (true-ne-false (sym ((eqb_iff (i % cfg.state_interval) 0).1 z) ∙ f))
  ]

  -- Where the loop ends, `n` rounds before it must, if no checkpoint is due at the start.
  abbrev Ends : ℕ → ℕ → State F p cfg → Type 0
  Ends n i b = (iter b ≤ i + n) × (i < cfg.state_interval → iter b ≤ cfg.state_interval)

  Ends-next :
      (n : ℕ) (i : ℕ)
      → ((b : State F p cfg) → Ends n (iter b) (loop F p cfg n b))
      → (o : Outcome (State F p cfg)) → Counts i o
      → Ends
          (n + 1)
          i
          (elim o as (λ _. State F p cfg) [ goes_on b ↦ loop F p cfg n b | ended b ↦ b ])
  Ends-next n i h (goes_on b) (e, f) =
      (omega (arith, e, (h b).0), λ l. (h b).1 (below (iter b) (omega (arith, e, l)) f))
  Ends-next n i h (ended b) e = (omega (arith, e), λ l. omega (arith, e, l))

  Ends-loop : (n : ℕ) (a : State F p cfg) → Ends n (iter a) (loop F p cfg n a)
  unfolding loop
  Ends-loop zero a = (omega arith, λ l. omega (arith, l))
  Ends-loop (suc n) a = elim (Bool-cases (F.lt cfg.min_temperature a.state.temperature)) [
    | inl t ↦
        rw (t, loop)
          (let (x, y) =
              Ends-next n (iter a) (λ b. Ends-loop n b) (round F p cfg a) (Counts-round a) in
            (omega (arith, x), y))
    | inr t ↦ rw (t, loop) (omega arith, λ l. omega (arith, l))
  ]

  -- If `run` returns, it has counted at most `max_iterations` rounds, and with a positive
  -- `state_interval` at most that many: the first checkpoint ends it.
  pub run-stops :
      (c : Bool) (x : p.Solution) (a : State F p cfg)
      → run F p cfg c x ≡ some a
      → (a.state.iteration ≤ cfg.max_iterations)
        × (0 < cfg.state_interval → a.state.iteration ≤ cfg.state_interval)
  unfolding run initialize_state
  run-stops true x a h = cc
  run-stops false x a h =
      let (l, m) =
        subst (Ends (cfg.max_iterations - 0) 0) (some-injective h)
          (Ends-loop (cfg.max_iterations - 0) _) in
      (omega (arith, l), m)
