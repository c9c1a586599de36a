-- ===== src/Pool/Rotation.antt =====
-- `RoundRobinStrategy` of communication/grpc/client_pool.py over many selections.
use native.Mathlib.Nat.{add-zero, mod-eq-sub-mod, mod-add-mod, mod-eq_of_lt, mod-lt}
use kuva_ai.Prelude.{
  ℕ, zero, suc, ◌+◌, ◌-◌, ◌%◌, ◌<◌, String, ◌≡◌, ◌≢◌, refl, sym, ap, ◌∙◌, inl, inr, some, List, [],
  ◌∷◌, arith, if◌then◌else◌, Bool-cases, ltb, ltb→lt, length,
}
use kuva_ai.Exec.{ok}
use kuva_ai.Pool.{World, ClientPool, round_robin, nth, or_no_endpoints, select_endpoint}

module _ (w : World) where
  -- The pool after `k` selections.
  unfoldable pub selections : ℕ → ClientPool → ClientPool
  selections zero p = p
  selections (suc k) p = selections k (select_endpoint w p).1

  pub select-round_robin :
      (i : ℕ) (p : ClientPool)
      → p.load_balancer ≡ round_robin i
      → p.endpoints ≢ []
      → select_endpoint w p ≡ (
        or_no_endpoints (nth p.endpoints ((i + 1) % length p.endpoints)),
        record p { load_balancer = round_robin ((i + 1) % length p.endpoints) },
      )
  unfolding select_endpoint
  select-round_robin i p h some_endpoint = ground arith

  selections-round_robin :
      (k i : ℕ) (p : ClientPool)
      → p.load_balancer ≡ round_robin i
      → p.endpoints ≢ []
      → i < length p.endpoints
      → selections k p ≡ record p { load_balancer = round_robin ((i + k) % length p.endpoints) }
  unfolding selections
  selections-round_robin zero i p h some_endpoint lt =
      let e : (i + 0) % length p.endpoints ≡ i =
        ap (λ x. x % length p.endpoints) (add-zero i) ∙ mod-eq_of_lt lt in
      λ t. record p { load_balancer = (h ∙ ap round_robin (sym e)) t }
  selections-round_robin (suc k) i p h some_endpoint lt =
      let m = length p.endpoints in
      let e : ((i + 1) % m + k) % m ≡ (i + suc k) % m =
        mod-add-mod (i + 1) m k ∙ ap (λ x. x % m) (omega arith) in
      ap (λ x. selections k x.1) (select-round_robin i p h some_endpoint)
      ∙ selections-round_robin k ((i + 1) % m)
          (record p { load_balancer = round_robin ((i + 1) % m) }) refl some_endpoint
          (mod-lt (i + 1) (omega arith))
      ∙ (λ t. record p { load_balancer = round_robin (e t) })

  -- The selections that lead from the index `i` to the index `j`, both below `m`.
  abbrev steps : ℕ → ℕ → ℕ → ℕ
  steps m i j = if ltb i j then j - i - 1 else m + j - i - 1

  steps_lem : (m i j : ℕ) → i < m → j < m → (steps m i j < m) × ((i + steps m i j + 1) % m ≡ j)
  steps_lem m i j hi hj = elim (Bool-cases (ltb i j)) [
    | inl lt ↦ rw lt (
      ground arith,
      ap (λ x. x % m) (let q : i + (j - i - 1) + 1 ≡ j = omega (arith, ltb→lt i j lt) in q)
          ∙ mod-eq_of_lt hj,
    )
    | inr ge ↦ rw ge (
      ground arith,
      ap (λ x. x % m) (let q : i + (m + j - i - 1) + 1 ≡ m + j = omega arith in q)
          ∙ mod-eq-sub-mod {n = m + j} {m = m} (omega arith)
          ∙ ap (λ x. x % m) (let q : m + j - m ≡ j = omega arith in q)
          ∙ mod-eq_of_lt hj,
    )
  ]

  nth-lt : (xs : List String) (j : ℕ) (e : String) → nth xs j ≡ some e → j < length xs
  nth-lt [] j e h = cc
  nth-lt (x ∷ xs) zero e h = omega arith
  nth-lt (x ∷ xs) (suc j) e h = omega (arith, nth-lt xs j e h)

  -- With the round-robin strategy every endpoint comes up: the one at position `j` is what the next
  -- selection returns after some number of selections below the number of endpoints.
  pub round_robin-reaches :
      (i j : ℕ) (e : String) (p : ClientPool)
      → p.load_balancer ≡ round_robin i
      → i < length p.endpoints
      → nth p.endpoints j ≡ some e
      → (k : ℕ) × (k < length p.endpoints) × ((select_endpoint w (selections k p)).0 ≡ ok e)
  round_robin-reaches i j e p h lt at =
      let m = length p.endpoints in
      let some_endpoint : p.endpoints ≢ [] = λ n. absurd (omega (arith, ap length n)) in
      let k = steps m i j in
      let (less, hits) = steps_lem m i j lt (nth-lt p.endpoints j e at) in
      let q : ((i + k) % m + 1) % m ≡ j = mod-add-mod (i + k) m 1 ∙ hits in
      (
        k,
        less,
        ap (λ x. (select_endpoint w x).0) (selections-round_robin k i p h some_endpoint lt)
            ∙ ap (λ x. x.0)
                (select-round_robin ((i + k) % m)
                  (record p { load_balancer = round_robin ((i + k) % m) }) refl some_endpoint)
            ∙ ap (λ x. or_no_endpoints (nth p.endpoints x)) q
            ∙ ap or_no_endpoints at,
      )
