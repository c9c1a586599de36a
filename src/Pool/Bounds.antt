-- ===== src/Pool/Bounds.antt =====
-- The invariant of communication/grpc/client_pool.py: a pool never holds more than
-- `max_conn_per_endpoint` channels, and only channels whose recorded status is serving.
use mathlib.Core.Path.{subst}
use kuva_ai.Prelude.{
  ℕ, zero, suc, ◌≤◌, String, ◌≡◌, refl, sym, ap, ◌∙◌, inl, inr, Bool, true, false, Option, none,
  some, List, [], ◌∷◌, arith, ◌==◌, Bool-cases, Option-cases, ltb, length, all, length-filter-le,
  all-append, filter,
}
use kuva_ai.Dict.{lookup, lookup-insert}
use kuva_ai.Exec.Ensures.{
  Ensures, Always, Keeps, Ensures-pure, Ensures-elim, Ensures-bind, Ensures-then, Keeps-modify,
  Keeps-of_state,
}
use kuva_ai.Pool.{
  Config, World, Channel, ClientPool, is_healthy, append, extend, pool_of, set_pool, close,
  count_closed, count_created, count_failed, count_reused, select_endpoint, open_channel,
  check_health,
}
use kuva_ai.Pool.Methods.{evict_loop, evict_unhealthy_connections, warm_once, warm_pool}
use kuva_ai.Pool.Health.{evict_loop_lem, extend-append, length-append_le}

-- Within the limit, and all pass the test.
abbrev pub Good : (Channel → Bool) → ℕ → List Channel → Type 0
Good q n cs = (length cs ≤ n) × (all q cs ≡ true)

pub record IsSound (q : Channel → Bool) (cfg : Config) (p : ClientPool) : Type 0 where
  pub good :
      (e : String) (cs : List Channel)
      → lookup e p.pools ≡ some cs
      → Good q cfg.max_conn_per_endpoint cs

-- Every pooled channel is recorded as serving.
abbrev pub IsValid : Config → ClientPool → Type 0
IsValid = IsSound is_healthy

abbrev pub Healthy : Channel → Type 0
Healthy c = is_healthy c ≡ true

abbrev pub HealthyIfAny : Option Channel → Type 0
HealthyIfAny none = Unit
HealthyIfAny (some c) = Healthy c

pub Good-append :
    (q : Channel → Bool) (n : ℕ) (c : Channel) (cs : List Channel)
    → q c ≡ true
    → Good q n cs
    → Good q n (append n c cs)
unfolding append
Good-append q n c cs h g = (length-append_le n c cs g.0, passes n cs g.1)
  where
    passes : (k : ℕ) (ds : List Channel) → all q ds ≡ true → all q (append k c ds) ≡ true
    passes zero ds a = refl
    passes (suc k) [] a = ground (arith, h)
    passes (suc k) (d ∷ ds) a =
        ground (arith, h, all-append q (d ∷ ds) (c ∷ []), all-append q ds (c ∷ []))

-- A test that all healthy channels pass
module _ (q : Channel → Bool) (law : (c : Channel) → is_healthy c ≡ true → q c ≡ true) where
  all-filter_healthy : (cs : List Channel) → all q (filter is_healthy cs) ≡ true
  all-filter_healthy [] = refl
  all-filter_healthy (c ∷ cs) = elim (Bool-cases (is_healthy c)) [
    | inl e ↦ rw e (ground (arith, law c e, all-filter_healthy cs))
    | inr e ↦ rw e (all-filter_healthy cs)
  ]

module _ (q : Channel → Bool) (law : (c : Channel) → is_healthy c ≡ true → q c ≡ true)
    (cfg : Config) (w : World) where
  abbrev pub Inv : ClientPool → Type 0
  Inv = IsSound q cfg

  abbrev pub max_conn : ℕ
  max_conn = cfg.max_conn_per_endpoint

  pub pool_of-Ensures : (e : String) → Ensures Inv (Good q max_conn) (pool_of e)
  unfolding pool_of
  pool_of-Ensures e = record {
    run = λ p v. elim (Option-cases (lookup e p.pools)) [
      | inl n ↦ rw (n, pool_of) (v, tt)
      | inr (cs, s) ↦ rw (s, pool_of) (v, v.good e cs s)
    ];
  }

  pub set_pool-Keeps :
      (e : String) (cs : List Channel) → Good q max_conn cs → Keeps Inv (set_pool e cs)
  unfolding set_pool
  set_pool-Keeps e cs g = Keeps-modify _ λ p v. record {
    good = λ j ds h. elim (Bool-cases (e == j)) [
      | inl same ↦
          let s : cs ≡ ds = ground (arith, lookup-insert e j cs p.pools) in
          subst (Good q max_conn) s g
      | inr other ↦ v.good j ds (ground (arith, lookup-insert e j cs p.pools))
    ];
  }

  pub close-Keeps : (c : Channel) → Keeps Inv (close c)
  unfolding close
  close-Keeps c = Keeps-modify _ λ p v. record { good = v.good }

  pub count_closed-Keeps : Keeps Inv count_closed
  count_closed-Keeps = Keeps-modify _ λ p v. record { good = v.good }

  pub count_created-Keeps : Keeps Inv count_created
  count_created-Keeps = Keeps-modify _ λ p v. record { good = v.good }

  pub count_failed-Keeps : Keeps Inv count_failed
  count_failed-Keeps = Keeps-modify _ λ p v. record { good = v.good }

  pub count_reused-Keeps : Keeps Inv count_reused
  count_reused-Keeps = Keeps-modify _ λ p v. record { good = v.good }

  pub IsValid-same : (p q : ClientPool) → q.pools ≡ p.pools → Inv p → Inv q
  IsValid-same p q e v = record { good = λ j cs h. v.good j cs (ap (lookup j) (sym e) ∙ h) }

  pools-select_endpoint : (p : ClientPool) → (select_endpoint w p).1.pools ≡ p.pools
  unfolding select_endpoint
  pools-select_endpoint p = ground arith

  pools-open_channel : (e : String) (p : ClientPool) → (open_channel w e p).1.pools ≡ p.pools
  unfolding open_channel
  pools-open_channel e p = ground arith

  pub select_endpoint-Keeps : Keeps Inv (select_endpoint w)
  select_endpoint-Keeps =
      Keeps-of_state (select_endpoint w) (λ p. IsValid-same p _ (pools-select_endpoint p))

  pub open_channel-Keeps : (e : String) → Keeps Inv (open_channel w e)
  open_channel-Keeps e =
      Keeps-of_state (open_channel w e) (λ p. IsValid-same p _ (pools-open_channel e p))

  evict_loop-Ensures :
      (cs : List Channel)
      → Good q max_conn cs
      → Ensures Inv (λ valid. Good q max_conn valid) (evict_loop cs [])
  evict_loop-Ensures cs g = record {
    run = λ p v. rw (evict_loop_lem cs [] p) (
      IsValid-same p _ refl v,
      (omega (arith, length-filter-le is_healthy cs, g.0), all-filter_healthy q law cs),
    );
  }

  Good-extend : (cs : List Channel) → Good q max_conn cs → Good q max_conn (extend max_conn cs [])
  Good-extend cs g = rw (extend-append max_conn cs [] (omega (arith, g.0))) g

  -- `_evict_unhealthy_connections` keeps the invariant.
  pub evict-IsValid : (e : String) → Keeps Inv (evict_unhealthy_connections cfg w e)
  unfolding evict_unhealthy_connections
  evict-IsValid e = Ensures-bind (Good q max_conn) (pool_of e) _ (pool_of-Ensures e) λ cs g.
      Ensures-bind (Good q max_conn) (evict_loop cs []) _ (evict_loop-Ensures cs g)
        λ valid h. set_pool-Keeps e (extend max_conn valid []) (Good-extend valid h)

  warm_once-Keeps : (e : String) → Keeps Inv (warm_once cfg w e)
  unfolding warm_once
  warm_once-Keeps e = Ensures-bind Always (open_channel w e) _ (open_channel-Keeps e) λ c _.
      Ensures-elim (is_healthy (check_health w c)) _ _
        (λ h. Ensures-bind (Good q max_conn) (pool_of e) _ (pool_of-Ensures e) λ cs g.
          Ensures-then (set_pool e (append max_conn (check_health w c) cs)) count_created
            (set_pool-Keeps e _ (Good-append q max_conn (check_health w c) cs (law _ h) g))
            count_created-Keeps)
        (λ _.
          Ensures-then (close (check_health w c)) count_failed (close-Keeps _) count_failed-Keeps)

  pub warm_pool-Keeps : (fuel : ℕ) (e : String) → Keeps Inv (warm_pool cfg w fuel e)
  unfolding warm_pool
  warm_pool-Keeps zero e = Ensures-pure false tt
  warm_pool-Keeps (suc fuel) e =
      Ensures-bind (Good q max_conn) (pool_of e) _ (pool_of-Ensures e) λ cs g.
        Ensures-elim (ltb (length cs) max_conn) _ _
          (λ _.
            Ensures-then (warm_once cfg w e) (warm_pool cfg w fuel e) (warm_once-Keeps e)
              (warm_pool-Keeps fuel e))
          (λ _. Ensures-pure true tt)
