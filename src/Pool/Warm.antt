-- ===== src/Pool/Warm.antt =====
-- The loop of `_warm_pool` in communication/grpc/client_pool.py: when it ends, and when it does not.
use kuva_ai.Prelude.{
  ℕ, zero, suc, ◌+◌, ◌≤◌, ◌<◌, String, ◌≡◌, refl, ap, ◌∙◌, Bool, true, false, not, some, List, [],
  ◌∷◌, ◌++◌, arith, eq_iff, length, length-append,
}
use kuva_ai.Dict.{lookup, insert, lookup-insert}
use kuva_ai.Exec.{ok}
use kuva_ai.Pool.{
  Config, World, Connect, create_failed, check_failed, responded, serving, Channel, ClientPool,
  is_serving, append, pool_of, set_pool, close, open_channel, check_health,
}
use kuva_ai.Pool.Methods.{warm_once, warm_pool}

-- The channel opens, and its first check does not find it serving.
abbrev pub opens_unhealthy : Connect → Bool
opens_unhealthy create_failed = false
opens_unhealthy check_failed = true
opens_unhealthy (responded s) = not (is_serving s)

append-room :
    (n : ℕ) (c : Channel) (cs : List Channel) → length cs < n → append n c cs ≡ cs ++ c ∷ []
unfolding append
append-room zero c cs h = absurd (omega arith)
append-room (suc n) c cs h = ground arith

module _ (cfg : Config) (w : World) where
  -- From the next opening on, every channel opens and is not healthy.
  abbrev pub NeverServes : ClientPool → Type 0
  NeverServes p = (n : ℕ) → p.opened ≤ n → opens_unhealthy (w.connect n) ≡ true

  -- From the next opening on, every channel opens and is healthy.
  abbrev pub AlwaysServes : ClientPool → Type 0
  AlwaysServes p = (n : ℕ) → p.opened ≤ n → w.connect n ≡ responded serving

  warm_once-never :
      (e : String) (p : ClientPool)
      → opens_unhealthy (w.connect p.opened) ≡ true
      → (q : ClientPool) × (warm_once cfg w e p ≡ (ok tt, q))
        × (q.pools ≡ p.pools)
        × (q.opened ≡ p.opened + 1)
  unfolding warm_once open_channel check_health close
  warm_once-never e p h = (
    record p {
      opened = p.opened + 1;
      closed = p.opened ∷ p.closed;
      metrics = record p.metrics { connection_failed = p.metrics.connection_failed + 1 };
    },
    ground arith,
    refl,
    refl,
  )

  warm_pool-again :
      (fuel : ℕ) (e : String) (cs : List Channel) (p q : ClientPool)
      → lookup e p.pools ≡ some cs
      → length cs < cfg.max_conn_per_endpoint
      → warm_once cfg w e p ≡ (ok tt, q)
      → warm_pool cfg w (suc fuel) e p ≡ warm_pool cfg w fuel e q
  unfolding warm_pool pool_of
  warm_pool-again fuel e cs p q h lt once = ground arith

  -- While every new channel opens unhealthy, the loop of `_warm_pool` on a pool that is not full
  -- does not end, however many rounds it runs.
  pub warm_pool-never_ends :
      (fuel : ℕ) (e : String) (cs : List Channel) (p : ClientPool)
      → lookup e p.pools ≡ some cs
      → length cs < cfg.max_conn_per_endpoint
      → NeverServes p
      → (warm_pool cfg w fuel e p).0 ≡ ok false
  unfolding warm_pool
  warm_pool-never_ends zero e cs p h lt never = refl
  warm_pool-never_ends (suc fuel) e cs p h lt never =
      let (q, once, same, more) = warm_once-never e p (never p.opened (omega arith)) in
      rw (warm_pool-again fuel e cs p q h lt once) (
        warm_pool-never_ends fuel e cs q (ap (lookup e) same ∙ h) lt
          (λ n le. never n (omega (arith, more))))

  warm_once-always :
      (e : String) (cs : List Channel) (p : ClientPool)
      → lookup e p.pools ≡ some cs
      → length cs < cfg.max_conn_per_endpoint
      → w.connect p.opened ≡ responded serving
      → (q : ClientPool) × (c : Channel) × (warm_once cfg w e p ≡ (ok tt, q))
        × (lookup e q.pools ≡ some (cs ++ c ∷ []))
        × (q.opened ≡ p.opened + 1)
  unfolding warm_once open_channel check_health pool_of set_pool append
  warm_once-always e cs p h lt s =
      let c : Channel = record {
        id = p.opened;
        endpoint = e;
        last_used = w.now;
        health_status = serving;
        failure_count = 0;
      } in
      let q : ClientPool = record p {
        opened = p.opened + 1;
        pools = insert e (cs ++ c ∷ []) p.pools;
        metrics = record p.metrics { connection_created = p.metrics.connection_created + 1 };
      } in
      let full : append cfg.max_conn_per_endpoint c cs ≡ cs ++ c ∷ [] =
        append-room cfg.max_conn_per_endpoint c cs lt in
      (
        q,
        c,
        ground (arith, full),
        ground (arith, lookup-insert e e (cs ++ c ∷ []) p.pools, eq_iff e e),
        refl,
      )

  -- While every new channel opens healthy, the loop of `_warm_pool` ends after one round for each
  -- channel that is missing, with exactly `max_conn_per_endpoint` channels in the pool.
  pub warm_pool-fills :
      (k : ℕ) (e : String) (cs : List Channel) (p : ClientPool)
      → lookup e p.pools ≡ some cs
      → length cs + k ≡ cfg.max_conn_per_endpoint
      → AlwaysServes p
      → (q : ClientPool) × (ds : List Channel) × (warm_pool cfg w (suc k) e p ≡ (ok true, q))
        × (lookup e q.pools ≡ some ds)
        × (length ds ≡ cfg.max_conn_per_endpoint)
        × (q.opened ≡ p.opened + k)
  unfolding warm_pool pool_of
  warm_pool-fills zero e cs p h full always = (p, cs, ground arith, h, omega arith, omega arith)
  warm_pool-fills (suc k) e cs p h full always =
      let (q, c, once, now, more) =
        warm_once-always e cs p h (omega arith) (always p.opened (omega arith)) in
      let (r, ds, run, last, size, count) =
        warm_pool-fills k e (cs ++ c ∷ []) q now (omega (arith, length-append cs (c ∷ [])))
          (λ n le. always n (omega (arith, more))) in
      (
        r,
        ds,
        warm_pool-again (suc k) e cs p q h (omega arith) once ∙ run,
        last,
        size,
        omega (arith, more, count),
      )
