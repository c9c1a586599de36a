-- ===== src/Base/Retry.antt =====
-- core/agent/base.py: the wrapper of `retry_policy`.
use Prim.Native.Nat.{◌^◌}
use native.Mathlib.Numerals.{unary_clauses}
use mathlib.Core.Path.{subst}
use kuva_ai.Prelude.{
  ℕ, zero, suc, ◌+◌, ◌≤◌, ◌<◌, arith, ◌≡◌, ◌≢◌, refl, sym, ap, ◌∙◌, ◌⊎◌, inl, inr, true, false, eqb,
  Bool-cases, String,
}
use kuva_ai.Exec.{Result, ok, err}
use kuva_ai.Base.{
  Error, agent_error, other_error, attribute_error, Retried, attempted, retry_loop, wrapper,
}

pow_suc : (n : ℕ) → 2 ^ suc n ≡ 2 ^ n + 2 ^ n
pow_suc n = simp unary_clauses (omega arith)

module _ {A : Type 0} (max_retries : ℕ) (func : ℕ → Result Error A) where
  -- The attempt raised an `AgentError` that may be retried.
  abbrev pub IsRetryable : Result Error A → Type 0
  IsRetryable r = (code : String) × (r ≡ err (agent_error true code))

  -- The result is that of the last attempt; each one before it raised what may be retried; the last is
  -- within the limit, and after each of the others the wrapper slept twice as long as before.
  pub record IsRetried (from slept : ℕ) (r : Retried max_retries func) : Type 0 where
    pub last : ℕ
    pub bound : last ≤ max_retries
    pub after : from ≤ last
    pub ended : (last ≡ max_retries) ⊎ (¬ IsRetryable (func last))
    pub result : r.result ≡ func last
    pub attempts : r.attempts ≡ suc last
    pub before : (j : ℕ) → from ≤ j → j < last → IsRetryable (func j)
    pub sleep : r.slept + 2 ^ from ≡ slept + 2 ^ last

  stops :
      (attempt slept : ℕ) (x : Result Error A)
      → func attempt ≡ x
      → attempt ≤ max_retries
      → (attempt ≡ max_retries) ⊎ (¬ IsRetryable x)
      → IsRetried attempt slept (record { result = x; attempts = suc attempt; slept = slept })
  stops attempt slept x e b ends = record {
    last = attempt;
    bound = b;
    ended = subst (λ r. (attempt ≡ max_retries) ⊎ (¬ IsRetryable r)) (sym e) ends;
    after = omega arith;
    result = sym e;
    attempts = refl;
    before = λ j p q. absurd (omega (arith, p, q));
    sleep = refl;
  }

  goes_on :
      (attempt slept : ℕ) (code : String) (later : Retried max_retries func)
      → func attempt ≡ err (agent_error true code)
      → IsRetried (suc attempt) (slept + 2 ^ attempt) later
      → IsRetried attempt slept later
  goes_on attempt slept code later e h = record {
    last = h.last;
    bound = h.bound;
    ended = h.ended;
    after = omega (arith, h.after);
    result = h.result;
    attempts = h.attempts;
    before = λ j p q. elim (Bool-cases (eqb attempt j)) [
      | inl same ↦ let here : attempt ≡ j = ground arith in (code, ap func (sym here) ∙ e)
      | inr other ↦ h.before j (ground arith) q
    ];
    sleep = omega (arith, h.sleep, pow_suc attempt);
  }

  by_result :
      (attempt slept : ℕ) (x : Result Error A) (later : Retried max_retries func)
      → func attempt ≡ x
      → attempt ≤ max_retries
      → (attempt ≢ max_retries → IsRetried (suc attempt) (slept + 2 ^ attempt) later)
      → IsRetried attempt slept (attempted max_retries func x attempt slept later)
  by_result attempt slept (ok a) later e b h = stops attempt slept (ok a) e b (inr (λ (c, q). cc))
  by_result attempt slept (err other_error) later e b h =
      stops attempt slept (err other_error) e b (inr (λ (c, q). cc))
  by_result attempt slept (err attribute_error) later e b h =
      stops attempt slept (err attribute_error) e b (inr (λ (c, q). cc))
  by_result attempt slept (err (agent_error false code)) later e b h =
      stops attempt slept (err (agent_error false code)) e b (inr (λ (c, q). cc))
  by_result attempt slept (err (agent_error true code)) later e b h =
      elim (Bool-cases (eqb attempt max_retries)) [
        | inl last ↦
            rw last (stops attempt slept (err (agent_error true code)) e b (inl (ground arith)))
        | inr more ↦ rw more (goes_on attempt slept code later e (h (λ same. ground arith)))
      ]

  loop-IsRetried :
      (n attempt slept : ℕ)
      → attempt + n ≡ max_retries
      → IsRetried attempt slept (retry_loop max_retries func (suc n) attempt slept)
  unfolding retry_loop
  loop-IsRetried zero attempt slept b =
      by_result attempt slept (func attempt) _ refl (omega (arith, b))
        (λ other. absurd (other (omega (arith, b))))
  loop-IsRetried (suc n) attempt slept b =
      by_result attempt slept (func attempt) _ refl (omega (arith, b))
        (λ other. loop-IsRetried n (suc attempt) (slept + 2 ^ attempt) (omega (arith, b)))

  -- The wrapper ends with the result of one of its first `max_retries + 1` attempts, the first that
  -- returns or raises what may not be retried, or else the last of them; it sleeps 2 ^ k - 1 seconds where
  -- that is attempt k, counted from 0.
  pub wrapper-IsRetried : IsRetried 0 0 (wrapper max_retries func)
  unfolding wrapper
  wrapper-IsRetried = loop-IsRetried max_retries 0 0 (omega arith)
