-- ===== src/Anneal/Samples.antt =====
-- Runs of simulated_annealing.py on a square of four cities, with natural numbers for the floats:
-- a temperature falls by the cooling rate.
use mathlib.Core.List.{Perm}
use kuva_ai.Prelude.{ℕ, ◌+◌, ◌-◌, arith, true, false, some, List, [], ◌∷◌, ltb, ◌≡◌, refl}
use kuva_ai.Anneal.{Floats, Problem, SaConfig, Annealer}
use kuva_ai.Anneal.Run.{
  end_if, last_of, range_from, initialize_state, candidates, least, acceptance_probability,
  new_rate, update_state, adjusted_rate, adjust, adapt, cool, cooling_schedule, count_stagnation,
  finish_round, evaluate, choose, round, loop, run,
}
use kuva_ai.Anneal.Best.{IsOrder, IsBest, run-IsBest}
use kuva_ai.Anneal.Walk.{Walker}
use kuva_ai.Anneal.Route.{two_opt, route_length, tsp, run-Perm}

abbrev numbers : Floats
numbers = record {
  Float = ℕ;
  lt = ltb;
  add = λ a b. a + b;
  sub = λ a b. a - b;
  mul = λ a b. a - b;
  div = λ a b. a;
  pow = λ a b. a;
  exp = λ a. 0;
  decimal = λ m k. m;
  of_nat = λ n. n;
  mean = λ xs. 0;
  std = λ xs. 1;
}

ltb-IsOrder : IsOrder numbers
ltb-IsOrder = record { irreflexive = λ a. ground arith; transitive = λ a b c h k. ground arith }

abbrev distance : ℕ → ℕ → ℕ
distance a b = (a - b) + (b - a)

abbrev sample : ℕ → ℕ × ℕ
sample k = (1, 2)

abbrev square : Problem numbers
square = tsp numbers distance sample (λ n. 0)

abbrev config : SaConfig numbers
config = record {
  initial_temperature = 9;
  cooling_rate = 1;
  min_temperature = 0;
  max_iterations = 50;
  max_stagnation = 20;
  adaptive_cooling = false;
  parallel_evaluation = true;
  workers = 2;
  state_interval = 4;
  energy_window = 100;
}

abbrev crossed : List ℕ
crossed = 0 ∷ 2 ∷ 1 ∷ 3 ∷ []

-- The run ends with the first checkpoint, on a route that is longer than the best.
abbrev result : Annealer numbers (List ℕ)
result = record {
  state = record {
    current_energy = 5;
    best_energy = 3;
    current_solution = crossed;
    best_solution = 0 ∷ 1 ∷ 2 ∷ 3 ∷ [];
    iteration = 4;
    acceptance_rate = 2;
    temperature = 5;
  };
  cooling_rate = 1;
  energy_history = [];
  acceptance_history = [];
  energies = 3 ∷ 5 ∷ 3 ∷ 5 ∷ [];
  temperatures = 9 ∷ 8 ∷ 7 ∷ 6 ∷ [];
  acceptance_rates = 9 ∷ 1 ∷ 8 ∷ 2 ∷ [];
  stagnation_counter = 0;
  last_improvement = 4;
  neighbors = 8;
  draws = 4;
}

finished : run numbers square config false crossed ≡ some result
unfolding end_if last_of range_from initialize_state candidates least acceptance_probability
    new_rate update_state adjusted_rate adjust adapt cool cooling_schedule count_stagnation
    finish_round evaluate choose round loop run two_opt route_length
finished = refl

run-IsBest_example : IsBest numbers square config result
run-IsBest_example = run-IsBest numbers square config ltb-IsOrder false crossed result finished

abbrev start : Walker numbers square config
start = record {
  position = crossed;
  energy = 5;
  best = crossed;
  best_energy = 5;
  rounds = 0;
  temperature = 9;
  rate = 1;
  stale = 0;
  neighbors = 0;
}

run-Perm_example : Perm (0 ∷ 1 ∷ 2 ∷ 3 ∷ []) crossed × Perm crossed crossed
run-Perm_example =
    run-Perm numbers distance sample (λ n. 0) (λ k. omega arith) config false crossed result
      finished
