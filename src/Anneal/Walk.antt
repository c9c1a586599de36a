-- ===== src/Anneal/Walk.antt =====
-- simulated_annealing.py without adaptive cooling, against a walk that has no acceptance test.
use kuva_ai.Prelude.{
  ℕ, zero, suc, ◌+◌, ◌%◌, Bool, true, false, ◌||◌, List, [], ◌∷◌, leb, eqb, if◌then◌else◌,
}
use kuva_ai.Anneal.{Floats, Problem, SaConfig}
use kuva_ai.Anneal.Run.{end_if, Outcome, goes_on, ended, State, candidates, least}

both : {A B : Type 0} → (A → B) → Outcome A → Outcome B
both f (goes_on a) = goes_on (f a)
both f (ended a) = ended (f a)

module _ (F : Floats) (p : Problem F) (cfg : SaConfig F) where
  -- What the walk remembers.
  pub record Walker : Type 0 where
    pub position : p.Solution
    pub energy : F.Float
    pub best : p.Solution
    pub best_energy : F.Float
    pub rounds : ℕ
    pub temperature : F.Float
    pub rate : F.Float
    pub stale : ℕ
    pub neighbors : ℕ

  abbrev pub view : State F p cfg → Walker
  view a = record {
    position = a.state.current_solution;
    energy = a.state.current_energy;
    best = a.state.best_solution;
    best_energy = a.state.best_energy;
    rounds = a.state.iteration;
    temperature = a.state.temperature;
    rate = a.cooling_rate;
    stale = a.stagnation_counter;
    neighbors = a.neighbors;
  }

  -- The walk moves to the candidate, better or worse.
  unfoldable pub move : F.Float × p.Solution → Walker → Walker
  move (e, x) w =
      let lowest = if F.lt e w.best_energy then e else w.best_energy in
      record {
        position = x;
        energy = e;
        best = if F.lt e w.best_energy then x else w.best;
        best_energy = lowest;
        rounds = w.rounds + 1;
        temperature = F.mul w.temperature w.rate;
        rate = w.rate;
        stale = if F.lt lowest e then 0 else w.stale + 1;
        neighbors = w.neighbors + cfg.workers;
      }

  unfoldable pub is_over : Walker → Bool
  is_over w =
      leb cfg.max_stagnation w.stale
      || eqb cfg.state_interval 0
      || eqb (w.rounds % cfg.state_interval) 0

  unfoldable pub walk_to : List (F.Float × p.Solution) → Walker → Outcome Walker
  walk_to [] w = ended w
  walk_to (c ∷ cs) w = let w' = move (least F p cfg c cs) w in end_if (is_over w') w'

  unfoldable pub walk : ℕ → Walker → Walker
  walk zero w = w
  walk (suc n) w = elim (F.lt cfg.min_temperature w.temperature) [
    | true ↦ elim (walk_to (candidates F p cfg w.position w.neighbors) w) [
      | goes_on v ↦ walk n v
      | ended v ↦ v
    ]
    | false ↦ w
  ]
