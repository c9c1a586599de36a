-- ===== src/Anneal/Run.antt =====
-- core/orchestration/workflow/optimizer/simulated_annealing.py: `SimulatedAnnealing`. The `finally`
-- of `run` returns the state whatever was raised, so an exception in the loop ends it. The module
-- does not import `json`: `save_state` and `load_latest_state` raise where they call it.
use kuva_ai.Prelude.{
  ℕ, zero, suc, ◌+◌, ◌-◌, ◌%◌, Bool, true, false, Option, none, some, List, [], ◌∷◌, ◌++◌, map, ltb,
  leb, eqb, ◌&&◌, ◌||◌, ◌≡◌, refl, if◌then◌else◌, length, drop,
}
use kuva_ai.Anneal.{Floats, Problem, SaConfig, Annealer}

-- `xs[-w:]`
unfoldable pub last_of {ℓ} : {A : Type ℓ} → ℕ → List A → List A
last_of w xs = if eqb w 0 then xs else drop (length xs - w) xs

-- `range(n)`, from `i` on
unfoldable pub range_from : ℕ → ℕ → List ℕ
range_from i zero = []
range_from i (suc n) = i ∷ range_from (i + 1) n

-- How the body of the loop ends: with the loop going on, or with a `break` or an exception.
pub data Outcome {ℓ} (A : Type ℓ) : Type ℓ where
  goes_on : A → Outcome A
  ended : A → Outcome A

abbrev pub state_of {ℓ} : {A : Type ℓ} → Outcome A → A
state_of (goes_on a) = a
state_of (ended a) = a

unfoldable pub end_if {ℓ} : {A : Type ℓ} → Bool → A → Outcome A
end_if true a = ended a
end_if false a = goes_on a

pub state_of-end_if {ℓ} : {A : Type ℓ} (b : Bool) (a : A) → state_of (end_if b a) ≡ a
unfolding end_if
state_of-end_if true a = refl
state_of-end_if false a = refl

module _ (F : Floats) (p : Problem F) (cfg : SaConfig F) where
  abbrev pub State : Type 0
  State = Annealer F p.Solution

  -- A new annealer, with the state that `initialize_state` returns
  abbrev pub initial : p.Solution → State
  initial x = record {
    state = record {
      current_energy = p.calculate x;
      best_energy = p.calculate x;
      current_solution = x;
      best_solution = x;
      iteration = 0;
      acceptance_rate = F.decimal 0 0;
      temperature = cfg.initial_temperature;
    };
    cooling_rate = cfg.cooling_rate;
    energy_history = [];
    acceptance_history = [];
    energies = [];
    temperatures = [];
    acceptance_rates = [];
    stagnation_counter = 0;
    last_improvement = 0;
    neighbors = 0;
    draws = 0;
  }

  -- `none`: there is a checkpoint, and loading it raises.
  unfoldable pub initialize_state : (has_checkpoint : Bool) → p.Solution → Option State
  initialize_state true x = none
  initialize_state false x = some (initial x)

  -- A candidate with its energy
  abbrev pub rated : p.Solution → ℕ → F.Float × p.Solution
  rated x k = let y = p.generate_neighbor x k in (p.calculate y, y)

  unfoldable pub candidates : p.Solution → ℕ → List (F.Float × p.Solution)
  candidates x n = map (rated x) (range_from n cfg.workers)

  -- `np.argmin`, which takes the first of the smallest
  unfoldable pub least : F.Float × p.Solution → List (F.Float × p.Solution) → F.Float × p.Solution
  least b [] = b
  least b (c ∷ cs) = least (if F.lt (c.0) (b.0) then c else b) cs

  unfoldable pub acceptance_probability : F.Float → F.Float → F.Float → F.Float
  acceptance_probability current candidate temperature =
      if F.lt candidate current
      then F.decimal 1 0
      else F.exp (F.div (F.sub current candidate) temperature)

  -- `0.9 * rate + 0.1 * float(accepted)`
  unfoldable pub new_rate : F.Float → Bool → F.Float
  new_rate rate accepted =
      F.add (F.mul (F.decimal 9 1) rate)
        (F.mul (F.decimal 1 1) (if accepted then F.decimal 1 0 else F.decimal 0 0))

  unfoldable pub update_state : F.Float → p.Solution → (accepted : Bool) → State → State
  update_state e x accepted a =
      let s = a.state in
      let better = F.lt e s.best_energy in
      let rate = new_rate s.acceptance_rate accepted in
      record a {
        state = record s {
          current_energy = e;
          current_solution = x;
          best_energy = if better then e else s.best_energy;
          best_solution = if better then x else s.best_solution;
          acceptance_rate = rate;
        };
        energies = a.energies ++ e ∷ [];
        temperatures = a.temperatures ++ s.temperature ∷ [];
        acceptance_rates = a.acceptance_rates ++ rate ∷ [];
      }

  -- `min(a, b)` and `max(a, b)`
  abbrev smaller : F.Float → F.Float → F.Float
  smaller a b = if F.lt b a then b else a

  abbrev larger : F.Float → F.Float → F.Float
  larger a b = if F.lt a b then b else a

  unfoldable pub adjusted_rate : F.Float → F.Float → F.Float
  adjusted_rate trend rate =
      if F.lt trend (F.decimal 1 1)
      then smaller (F.decimal 99 2) (F.mul rate (F.decimal 105 2))
      else if F.lt (F.decimal 4 1) trend
      then larger (F.decimal 5 1) (F.mul rate (F.decimal 95 2))
      else rate

  -- `AdaptiveParameterController.update`. Where the energies are level it reads
  -- `config.temperature`, which `SAConfig` does not have.
  unfoldable pub adjust : State → Outcome State
  adjust a =
      let energies = a.energy_history ++ a.state.current_energy ∷ [] in
      let rates = a.acceptance_history ++ a.state.acceptance_rate ∷ [] in
      let a' : State = record a { energy_history = energies; acceptance_history = rates } in
      let full = ltb cfg.energy_window (length energies) in
      let trend = F.mean (last_of cfg.energy_window rates) in
      end_if (full && F.lt (F.std (last_of cfg.energy_window energies)) (F.decimal 1 5))
        (record a' {
          cooling_rate = if full then adjusted_rate trend a.cooling_rate else a.cooling_rate;
        })

  unfoldable pub adapt : State → Outcome State
  adapt a = if cfg.adaptive_cooling then adjust a else goes_on a

  unfoldable pub cooling_schedule : F.Float → F.Float → ℕ → F.Float
  cooling_schedule rate temperature iteration = F.mul temperature (
      if cfg.adaptive_cooling
      then F.pow rate (F.add (F.decimal 1 0) (F.div (F.of_nat iteration) (F.of_nat 10000)))
      else rate)

  unfoldable pub cool : State → State
  cool a = record a {
    state = record a.state {
      temperature = cooling_schedule a.cooling_rate a.state.temperature a.state.iteration;
      iteration = a.state.iteration + 1;
    };
  }

  -- The stagnation check. `metrics['energy'][-1]` is the current energy.
  unfoldable pub count_stagnation : State → State
  count_stagnation a =
      if F.lt a.state.best_energy a.state.current_energy
      then record a { stagnation_counter = 0; last_improvement = a.state.iteration }
      else record a { stagnation_counter = a.stagnation_counter + 1 }

  -- The break, and the state persistence: `iteration % 0` raises, and so does `save_state`.
  unfoldable pub finish_round : State → Outcome State
  finish_round a =
      end_if
        (leb cfg.max_stagnation a.stagnation_counter
          || eqb cfg.state_interval 0
          || eqb (a.state.iteration % cfg.state_interval) 0)
        a

  abbrev pub cool_and_check : Outcome State → Outcome State
  cool_and_check (ended a) = ended a
  cool_and_check (goes_on a) = finish_round (count_stagnation (cool a))

  unfoldable pub evaluate : F.Float × p.Solution → State → State
  evaluate (e, x) a =
      let s = a.state in
      let accepted =
        F.lt (p.random a.draws) (acceptance_probability s.current_energy e s.temperature) in
      update_state e x accepted
        (record a { neighbors = a.neighbors + cfg.workers; draws = a.draws + 1 })

  -- The body of the loop, once the candidates are rated; `np.argmin` of none raises.
  unfoldable pub choose : List (F.Float × p.Solution) → State → Outcome State
  choose [] a = ended a
  choose (c ∷ cs) a = cool_and_check (adapt (evaluate (least c cs) a))

  unfoldable pub round : State → Outcome State
  round a = choose (candidates a.state.current_solution a.neighbors) a

  -- The loop, for at most `n` rounds more.
  unfoldable pub loop : ℕ → State → State
  loop zero a = a
  loop (suc n) a = elim (F.lt cfg.min_temperature a.state.temperature) [
    | true ↦ elim (round a) [ goes_on b ↦ loop n b | ended b ↦ b ]
    | false ↦ a
  ]

  -- `run`, which is `none` where `initialize_state` raises
  unfoldable pub run : (has_checkpoint : Bool) → p.Solution → Option State
  run c x = elim (initialize_state c x) [
    | none ↦ none
    | some a ↦ some (loop (cfg.max_iterations - a.state.iteration) a)
  ]
