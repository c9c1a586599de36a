-- ===== src/Base.antt =====
-- core/agent/base.py: the life cycle, the heartbeat and the retry policy of `AgentBase`. The message bus,
-- the dependencies and the decorated functions answer as parameters.
pub mod Retry
pub mod Heartbeat
mod Samples
use Prim.Native.Nat.{◌^◌}
use kuva_ai.Prelude.{
  ℕ, zero, suc, ◌+◌, ◌-◌, String, Bool, true, false, ◌&&◌, ◌||◌, not, Option, none, some, List, [],
  ◌∷◌, ◌++◌, length, contains, eqb, if◌then◌else◌,
}
use kuva_ai.Exec.{Result, ok, err, Exec, pure, raise, gets, modify, continue, ◌>>=◌, ◌>>◌}

-- `AgentError`, and what else a function, a dependency or the bus raises
pub data Error : Type 0 where
  agent_error : (retryable : Bool) (code : String) → Error
  other_error attribute_error : Error

abbrev pub states : List String
states = "INIT" ∷ "STARTING" ∷ "RUNNING" ∷ "PAUSED" ∷ "STOPPING" ∷ "TERMINATED" ∷ []

-- A heartbeat runs, has ended after its cancellation, or has ended with what `publish` raised.
pub data Task : Type 0 where
  runs ended failed : Task

-- `tasks` are the heartbeats that were created, in order; `heartbeat_task` is the number of one of them, and
-- none before the first start.
pub record AgentBase : Type 0 where
  pub state : String
  pub heartbeat_task : Option ℕ
  pub tasks : List Task
  pub calls : ℕ

abbrev pub new_agent : AgentBase
new_agent = record { state = "INIT"; heartbeat_task = none; tasks = []; calls = 0 }

abbrev pub task_at : List Task → ℕ → Option Task
task_at [] i = none
task_at (t ∷ ts) zero = some t
task_at (t ∷ ts) (suc i) = task_at ts i

abbrev pub set_task : ℕ → Task → List Task → List Task
set_task i t [] = []
set_task zero t (x ∷ xs) = t ∷ xs
set_task (suc i) t (x ∷ xs) = x ∷ set_task i t xs

abbrev pub Action : Type 0 → Type 0
Action A = Exec AgentBase Error A

-- By the number of the call: whether the dependencies of a start can be awaited, and whether the bus
-- takes back the subscriptions.
pub record Outside : Type 0 where
  pub awaits : ℕ → Bool
  pub unsubscribes : ℕ → Bool

-- A call, or an exception of `publish` in this heartbeat
pub data Step : Type 0 where
  start_step stop_step : Step
  publish_step : ℕ → Step

-- `AgentLifecycleState.transition`
abbrev pub transition_if : Bool → String → Action Unit
transition_if true new_state = modify (λ a. record a { state = new_state })
transition_if false new_state = raise (agent_error false "AGENT_ERROR")

unfoldable pub transition : String → Action Unit
transition new_state = transition_if (contains new_state states) new_state

module _ (out : Outside) where
  abbrev pub answered : (ℕ → Bool) → Action Unit
  answered f a = (if f a.calls then ok tt else err other_error, record a { calls = suc a.calls })

  -- `asyncio.create_task(self._heartbeat())`
  abbrev pub create_heartbeat : Action Unit
  create_heartbeat =
      modify
        (λ a. record a { heartbeat_task = some (length a.tasks); tasks = a.tasks ++ runs ∷ [] })

  unfoldable pub start : Action Unit
  start = do transition "STARTING"; answered out.awaits; create_heartbeat; transition "RUNNING"

  -- `self._heartbeat_task.cancel()` and the wait for its end, which raises what the task raised.
  abbrev pub cancel_task : ℕ → Option Task → Action Unit
  cancel_task i (some runs) = modify (λ a. record a { tasks = set_task i ended a.tasks })
  cancel_task i (some ended) = pure tt
  cancel_task i (some failed) = raise other_error
  cancel_task i none = pure tt

  abbrev pub cancel : Option ℕ → Action Unit
  cancel none = raise attribute_error
  cancel (some i) = do t ← gets (λ a. task_at a.tasks i); cancel_task i t

  unfoldable pub stop : Action Unit
  stop = do
    transition "STOPPING"
    t ← gets (λ a. a.heartbeat_task)
    cancel t
    answered out.unsubscribes
    transition "TERMINATED"

  -- In `_heartbeat`, `publish` raises: only a cancellation is caught.
  abbrev pub publish_fails : ℕ → Option Task → AgentBase → AgentBase
  publish_fails i (some runs) a = record a { tasks = set_task i failed a.tasks }
  publish_fails i t a = a

  -- The caller goes on after an exception.
  abbrev pub step : Step → AgentBase → AgentBase
  step start_step a = (start a).1
  step stop_step a = (stop a).1
  step (publish_step i) a = publish_fails i (task_at a.tasks i) a

  unfoldable pub run : List Step → AgentBase → AgentBase
  run [] a = a
  run (e ∷ es) a = run es (step e a)

-- `retry_policy`: the wrapper of a function, by the results of its attempts; what it returns or raises,
-- the number of attempts and the seconds that it slept.
module _ {A : Type 0} (max_retries : ℕ) (func : ℕ → Result Error A) where
  pub record Retried : Type 0 where
    pub result : Result Error A
    pub attempts : ℕ
    pub slept : ℕ

  abbrev pub gives_up : Bool → ℕ → Bool
  gives_up retryable attempt = not retryable || eqb attempt max_retries

  abbrev pub retry_or : Bool → Error → ℕ → ℕ → Retried → Retried
  retry_or true e attempt slept later = record {
    result = err e;
    attempts = suc attempt;
    slept = slept;
  }
  retry_or false e attempt slept later = later

  -- What an attempt leads to; `later` is the rest of the loop.
  abbrev pub attempted : Result Error A → ℕ → ℕ → Retried → Retried
  attempted (ok a) attempt slept later = record {
    result = ok a;
    attempts = suc attempt;
    slept = slept;
  }
  attempted (err (agent_error retryable code)) attempt slept later =
      retry_or (gives_up retryable attempt) (agent_error retryable code) attempt slept later
  attempted (err other_error) attempt slept later = record {
    result = err other_error;
    attempts = suc attempt;
    slept = slept;
  }
  attempted (err attribute_error) attempt slept later = record {
    result = err attribute_error;
    attempts = suc attempt;
    slept = slept;
  }

  -- The loop over `range(max_retries + 1)`, with the attempts that are left
  unfoldable pub retry_loop : ℕ → ℕ → ℕ → Retried
  retry_loop zero attempt slept = record {
    result = err (agent_error false "RETRY_LIMIT");
    attempts = attempt;
    slept = slept;
  }
  retry_loop (suc n) attempt slept =
      let later = retry_loop n (suc attempt) (slept + 2 ^ attempt) in
      attempted (func attempt) attempt slept later

  unfoldable pub wrapper : Retried
  wrapper = retry_loop (suc max_retries) 0 0
