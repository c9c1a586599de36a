-- ===== src/Pool/Samples.antt =====
-- The theorems on the channel pool at small inputs.
use mathlib.Core.Path.{subst}
use kuva_ai.Prelude.{
  ℕ, zero, suc, String, ◌≡◌, refl, false, some, List, [], ◌∷◌, arith, eqb, true, ◌||◌,
}
use kuva_ai.Dict.{lookup, insert}
use kuva_ai.Exec.{ok}
use kuva_ai.Exec.Ensures.{Ensures}
use kuva_ai.Pool.{
  Config, World, check_failed, responded, serving, not_serving, Channel, ClientPool, round_robin,
  new_pool, create_load_balancer, nth, is_healthy, pool_of, set_pool, open_channel, check_health,
  append, extend,
}
use kuva_ai.Pool.Methods.{
  evict_loop, warm_once, evict_unhealthy_connections, warm_pool, acquire, release,
  check_endpoint_health,
}
use kuva_ai.Pool.Bounds.{IsSound, IsValid, Healthy}
use kuva_ai.Pool.Acquire.{
  Reach, here, next, checks, acquires, releases, acquire-Ensures, Reach-IsSound,
}
use kuva_ai.Pool.Warm.{warm_pool-never_ends}
use kuva_ai.Pool.Exhaust.{IsIdle}

abbrev config : Config
config = record {
  max_conn_per_endpoint = 2;
  max_idle_conn = 1;
  retry_count = 3;
  load_balancing_strategy = "round_robin";
}

-- A network on which every channel is healthy, and one on which every check raises.
abbrev healthy : World
healthy = record { now = 7; connect = λ _. responded serving; service = λ _. true; draw = λ n. n }

abbrev broken : World
broken = record { now = 7; connect = λ _. check_failed; service = λ _. true; draw = λ n. n }

abbrev hosts : List String
hosts = "a" ∷ "b" ∷ []

abbrev sample : ClientPool
sample = record {
  endpoints = hosts;
  pools = ("a", []) ∷ ("b", []) ∷ [];
  load_balancer = round_robin 0;
  metrics = record {
    connection_created = 0;
    connection_closed = 0;
    connection_failed = 0;
    connection_reused = 0;
  };
  opened = 0;
  closed = [];
}

abbrev channel : ℕ → Channel
channel n = record {
  id = n;
  endpoint = "a";
  last_used = 7;
  health_status = serving;
  failure_count = 0;
}

abbrev stale : Channel
stale = record (channel 5) { health_status = not_serving }

abbrev mixed : ClientPool
mixed = record sample { pools = ("a", stale ∷ channel 6 ∷ []) ∷ ("b", []) ∷ [] }

acquire-Ensures_example : Ensures (IsValid config) Healthy (acquire config healthy)
acquire-Ensures_example = acquire-Ensures config healthy

-- A check of endpoint `a`, an `acquire`, and the release of a channel that no longer serves.
abbrev checked : ClientPool
checked =
    (release config healthy stale
      (acquire config healthy
        (check_endpoint_health config healthy 5 "a" (new_pool config hosts)).1).1).1

reached : Reach config healthy (new_pool config hosts) (stale ∷ []) checked
reached = next (next (next here (checks 5 "a")) acquires) (releases stale)

Reach-IsSound_example : IsSound (λ c. eqb c.last_used 7 || is_healthy c) config checked
Reach-IsSound_example =
    Reach-IsSound config healthy hosts reached (λ c. eqb c.last_used 7 || is_healthy c)
      (λ c h. ground (arith, h)) refl

abbrev warmed : ClientPool
warmed = (check_endpoint_health config healthy 5 "a" (new_pool config hosts)).1

warmed_a : lookup "a" warmed.pools ≡ some (channel 0 ∷ channel 1 ∷ [])
unfolding check_endpoint_health evict_unhealthy_connections evict_loop warm_pool warm_once pool_of
    set_pool open_channel check_health append extend new_pool create_load_balancer lookup insert
warmed_a = refl

warm_pool-never_ends_example : (warm_pool config broken 100 "a" sample).0 ≡ ok false
unfolding lookup
warm_pool-never_ends_example =
    warm_pool-never_ends config broken 100 "a" [] sample refl (omega arith) (λ n _. refl)

sample-IsIdle : IsIdle sample
unfolding lookup
sample-IsIdle = record { index = 0; in_turn = refl; some_endpoint = omega arith; empty = idle }
  where
    idle : (j : ℕ) (e : String) → nth hosts j ≡ some e → lookup e sample.pools ≡ some []
    idle zero e h = let p : "a" ≡ e = cc in subst (λ x. lookup x sample.pools ≡ some []) p refl
    idle (suc zero) e h =
        let p : "b" ≡ e = cc in subst (λ x. lookup x sample.pools ≡ some []) p refl
    idle (suc (suc j)) e h = cc
