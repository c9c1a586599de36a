-- ===== src/Base/Samples.antt =====
-- Runs of core/agent/base.py.
use kuva_ai.Prelude.{ℕ, ◌≡◌, refl, true, [], ◌∷◌, eqb, if◌then◌else◌}
use kuva_ai.Exec.{Result, ok, err}
use kuva_ai.Base.{
  Error, agent_error, other_error, attribute_error, AgentBase, new_agent, Outside, transition,
  start, stop, start_step, stop_step, publish_step, run, retry_loop, wrapper,
}
use kuva_ai.Base.Retry.{IsRetried, wrapper-IsRetried}
use kuva_ai.Base.Heartbeat.{IsLost, run-IsLost, stop_unstarted}

-- Two failures that may be retried, then a result.
abbrev third : ℕ → Result Error ℕ
third n = if eqb n 2 then ok 7 else err (agent_error true "BUSY")

third_result : (wrapper 3 third).result ≡ ok 7
unfolding wrapper retry_loop
third_result = refl

third_slept : (wrapper 3 third).slept ≡ 3
unfolding wrapper retry_loop
third_slept = refl

-- With one retry the second failure is raised.
third_raises : (wrapper 1 third).result ≡ err (agent_error true "BUSY")
unfolding wrapper retry_loop
third_raises = refl

wrapper-IsRetried_example : IsRetried 3 third 0 0 (wrapper 3 third)
wrapper-IsRetried_example = wrapper-IsRetried 3 third

abbrev world : Outside
world = record { awaits = λ n. true; unsubscribes = λ n. true }

-- The handle of the first heartbeat is lost in the second start.
abbrev twice : AgentBase
twice = run world (start_step ∷ start_step ∷ []) new_agent

twice-IsLost : IsLost 0 twice
unfolding run start transition
twice-IsLost = record { going = refl; other = λ h. cc }

run-IsLost_example :
    IsLost 0 (run world (stop_step ∷ publish_step 1 ∷ start_step ∷ stop_step ∷ []) twice)
run-IsLost_example =
    run-IsLost world 0 (stop_step ∷ publish_step 1 ∷ start_step ∷ stop_step ∷ []) twice refl
      twice-IsLost

-- A stop after `publish` has raised in the heartbeat raises that.
stop_failed :
    (stop world (run world (start_step ∷ publish_step 0 ∷ []) new_agent)).0 ≡ err other_error
unfolding run start stop transition
stop_failed = refl

stop_unstarted_test :
    ((stop world new_agent).0 ≡ err attribute_error) × ((stop world new_agent).1.state ≡ "STOPPING")
stop_unstarted_test = stop_unstarted world new_agent refl
