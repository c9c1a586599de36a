-- ===== src/Base/Heartbeat.antt =====
-- core/agent/base.py: what becomes of the heartbeat of an agent that is started again.
use kuva_ai.Prelude.{
  ℕ, zero, suc, ◌<◌, arith, ◌≡◌, ◌≢◌, refl, ap, ◌∙◌, String, Bool, true, false, not, Option, none,
  some, List, [], ◌∷◌, ◌++◌, eqb, length, all, contains, Bool-cases, inl, inr,
}
use kuva_ai.Exec.{Result, ok, err, continue}
use kuva_ai.Base.{
  Error, attribute_error, Task, runs, ended, failed, AgentBase, Action, Outside, states, task_at,
  set_task, transition, transition_if, answered, create_heartbeat, start, cancel_task, cancel, stop,
  publish_fails, Step, start_step, stop_step, publish_step, step, run,
}

some-injective : {a b : ℕ} → some a ≡ some b → a ≡ b
some-injective h = cc

task_at-within : (i : ℕ) (t : Task) (ts : List Task) → task_at ts i ≡ some t → i < length ts
task_at-within i t [] h = absurd (cc)
task_at-within zero t (x ∷ xs) h = omega arith
task_at-within (suc i) t (x ∷ xs) h = omega (arith, task_at-within i t xs h)

task_at-append :
    (i : ℕ) (t u : Task) (ts : List Task)
    → task_at ts i ≡ some t
    → task_at (ts ++ u ∷ []) i ≡ some t
task_at-append i t u [] h = absurd (cc)
task_at-append zero t u (x ∷ xs) h = h
task_at-append (suc i) t u (x ∷ xs) h = task_at-append i t u xs h

task_at-set :
    (i j : ℕ) (t : Task) (ts : List Task)
    → eqb j i ≡ false
    → task_at (set_task j t ts) i ≡ task_at ts i
task_at-set i j t [] h = refl
task_at-set zero zero t (x ∷ xs) h = absurd (cc)
task_at-set zero (suc j) t (x ∷ xs) h = refl
task_at-set (suc i) zero t (x ∷ xs) h = refl
task_at-set (suc i) (suc j) t (x ∷ xs) h = task_at-set i j t xs (ground (arith, h))

-- The heartbeat runs, and the agent has lost its handle.
pub record IsLost (i : ℕ) (a : AgentBase) : Type 0 where
  pub going : task_at a.tasks i ≡ some runs
  pub other : a.heartbeat_task ≢ some i

-- Its own `publish` does not raise in this step.
abbrev pub spares : ℕ → Step → Bool
spares i start_step = true
spares i stop_step = true
spares i (publish_step j) = not (eqb j i)

module _ (out : Outside) (i : ℕ) where
  then-IsLost :
      (x : Result Error Unit × AgentBase) (k : Action Unit)
      → IsLost i x.1
      → ((a : AgentBase) → IsLost i a → IsLost i (k a).1)
      → IsLost i (continue (λ _. k) x).1
  then-IsLost (ok u, a) k h hk = hk a h
  then-IsLost (err e, a) k h hk = h

  transition_if-IsLost :
      (b : Bool) (s : String) (a : AgentBase) → IsLost i a → IsLost i (transition_if b s a).1
  transition_if-IsLost true s a h = record { going = h.going; other = h.other }
  transition_if-IsLost false s a h = h

  transition-IsLost : (s : String) (a : AgentBase) → IsLost i a → IsLost i (transition s a).1
  unfolding transition
  transition-IsLost s a h = transition_if-IsLost (contains s states) s a h

  create-IsLost : (a : AgentBase) → IsLost i a → IsLost i (create_heartbeat out a).1
  create-IsLost a h = record {
    going = task_at-append i runs runs a.tasks h.going;
    other = λ e. absurd (omega (arith, some-injective e, task_at-within i runs a.tasks h.going));
  }

  start-IsLost : (a : AgentBase) → IsLost i a → IsLost i (start out a).1
  unfolding start
  start-IsLost a h =
      then-IsLost (transition "STARTING" a) _ (transition-IsLost "STARTING" a h) (λ b g.
        then-IsLost (answered out out.awaits b) _ (record { going = g.going; other = g.other })
          (λ c f. transition-IsLost "RUNNING" _ (create-IsLost c f)))

  cancel_task-IsLost :
      (j : ℕ) (t : Option Task) (a : AgentBase)
      → eqb j i ≡ false
      → IsLost i a
      → IsLost i (cancel_task out j t a).1
  cancel_task-IsLost j (some runs) a e h = record {
    going = task_at-set i j ended a.tasks e ∙ h.going;
    other = h.other;
  }
  cancel_task-IsLost j (some ended) a e h = h
  cancel_task-IsLost j (some failed) a e h = h
  cancel_task-IsLost j none a e h = h

  cancel-IsLost :
      (o : Option ℕ) (a : AgentBase) → o ≢ some i → IsLost i a → IsLost i (cancel out o a).1
  cancel-IsLost none a n h = h
  cancel-IsLost (some j) a n h = elim (Bool-cases (eqb j i)) [
    | inl e ↦ absurd (n (ap some (ground (arith, e))))
    | inr e ↦ cancel_task-IsLost j (task_at a.tasks j) a e h
  ]

  stop-IsLost : (a : AgentBase) → IsLost i a → IsLost i (stop out a).1
  unfolding stop
  stop-IsLost a h =
      then-IsLost (transition "STOPPING" a) _ (transition-IsLost "STOPPING" a h) (λ b g.
        then-IsLost (cancel out b.heartbeat_task b) _ (cancel-IsLost b.heartbeat_task b g.other g)
          (λ c f.
            then-IsLost (answered out out.unsubscribes c) _
              (record { going = f.going; other = f.other }) (transition-IsLost "TERMINATED")))

  publish-IsLost :
      (j : ℕ) (t : Option Task) (a : AgentBase)
      → eqb j i ≡ false
      → IsLost i a
      → IsLost i (publish_fails out j t a)
  publish-IsLost j (some runs) a e h = record {
    going = task_at-set i j failed a.tasks e ∙ h.going;
    other = h.other;
  }
  publish-IsLost j (some ended) a e h = h
  publish-IsLost j (some failed) a e h = h
  publish-IsLost j none a e h = h

  step-IsLost :
      (e : Step) (a : AgentBase) → spares i e ≡ true → IsLost i a → IsLost i (step out e a)
  step-IsLost start_step a s h = start-IsLost a h
  step-IsLost stop_step a s h = stop-IsLost a h
  step-IsLost (publish_step j) a s h = publish-IsLost j (task_at a.tasks j) a (ground (arith, s)) h

  -- A heartbeat that runs and whose handle the agent has replaced runs on after any calls of `start` and
  -- `stop` and any failures of other heartbeats.
  pub run-IsLost :
      (es : List Step) (a : AgentBase)
      → all (spares i) es ≡ true
      → IsLost i a
      → IsLost i (run out es a)
  unfolding run
  run-IsLost [] a s h = h
  run-IsLost (e ∷ es) a s h =
      run-IsLost es (step out e a) (ground (arith, s)) (step-IsLost e a (ground (arith, s)) h)

module _ (out : Outside) where
  -- An agent that was never started cannot be stopped: `stop` raises an `AttributeError`, and the agent
  -- stays in the state STOPPING.
  pub stop_unstarted :
      (a : AgentBase)
      → a.heartbeat_task ≡ none
      → ((stop out a).0 ≡ err attribute_error) × ((stop out a).1.state ≡ "STOPPING")
  unfolding stop transition
  stop_unstarted a t = rw t (refl, refl)
