-- ===== src/Anneal.antt =====
-- core/orchestration/workflow/optimizer/simulated_annealing.py: the state of `SimulatedAnnealing`.
-- The floating-point numbers, the problem's `EnergyCalculator` and the random numbers are outside.
pub mod Run
pub mod Best
pub mod Stops
pub mod Walk
pub mod Route
mod Samples
use kuva_ai.Prelude.{ℕ, Bool, List}

-- The numbers, with `decimal m k` for the literal m / 10^k.
pub record Floats : Type 1 where
  pub Float : Type 0
  pub lt : Float → Float → Bool
  pub add : Float → Float → Float
  pub sub : Float → Float → Float
  pub mul : Float → Float → Float
  pub div : Float → Float → Float
  pub pow : Float → Float → Float
  pub exp : Float → Float
  pub decimal : ℕ → ℕ → Float
  pub of_nat : ℕ → Float
  pub mean : List Float → Float
  pub std : List Float → Float

module _ (F : Floats) where
  -- `EnergyCalculator`, the arrays that it works on, and `random.random()`; the second argument of
  -- `generate_neighbor` and the argument of `random` count the calls.
  pub record Problem : Type 1 where
    pub Solution : Type 0
    pub calculate : Solution → F.Float
    pub generate_neighbor : Solution → ℕ → Solution
    pub random : ℕ → F.Float

  pub record SaConfig : Type 0 where
    pub initial_temperature : F.Float
    pub cooling_rate : F.Float
    pub min_temperature : F.Float
    pub max_iterations : ℕ
    pub max_stagnation : ℕ
    pub adaptive_cooling : Bool
    pub parallel_evaluation : Bool
    pub workers : ℕ
    pub state_interval : ℕ
    pub energy_window : ℕ

  pub record SaState (S : Type 0) : Type 0 where
    pub current_energy : F.Float
    pub best_energy : F.Float
    pub current_solution : S
    pub best_solution : S
    pub iteration : ℕ
    pub acceptance_rate : F.Float
    pub temperature : F.Float

  -- The annealer: its state, what the controller and `metrics` record, the cooling rate in force,
  -- the local counters of `run`, and the calls of the generators so far.
  pub record Annealer (S : Type 0) : Type 0 where
    pub state : SaState S
    pub cooling_rate : F.Float
    pub energy_history : List F.Float
    pub acceptance_history : List F.Float
    pub energies : List F.Float
    pub temperatures : List F.Float
    pub acceptance_rates : List F.Float
    pub stagnation_counter : ℕ
    pub last_improvement : ℕ
    pub neighbors : ℕ
    pub draws : ℕ
