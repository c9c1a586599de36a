-- ===== src/Pool/Acquire.antt =====
-- communication/grpc/client_pool.py: what `acquire` hands out, and the invariant of the pools over
-- any sequence of operations.
use kuva_ai.Prelude.{
  ℕ, zero, suc, String, ◌≡◌, refl, ◌∙◌, inl, inr, Bool, true, Option, none, some, List, [], ◌∷◌,
  arith, ◌==◌, Bool-cases, ltb, length, filter, all, all-append, sym, ◌&&◌, ◌++◌,
}
use kuva_ai.Dict.{Dict, lookup, insert, lookup-insert, insert_same}
use kuva_ai.Exec.{Result, ok, err, pure}
use kuva_ai.Exec.Ensures.{
  Ensures, Always, Keeps, Ensures-pure, Ensures-raise, Ensures-elim, Ensures-bind, Ensures-then,
  Keeps-for_each,
}
use kuva_ai.Pool.{
  Config, World, Channel, Error, no_connection, service_failed, ClientPool, is_healthy, append,
  new_pool, empty_pools, pool_of, set_pool, close, count_closed, count_created, count_failed,
  count_reused, select_endpoint, open_channel, check_health,
}
use kuva_ai.Pool.Methods.{
  evict_unhealthy_connections, warm_pool, check_endpoint_health, take_pooled, take_from, use_new,
  or_open, open_new, attempt, attempts, acquire, release, close_all, shut_down,
}
use kuva_ai.Pool.Health.{unhealthy, evict_unhealthy_connections_lem}
use mathlib.Core.Path.{subst}
use kuva_ai.Pool.Bounds.{
  Good, IsSound, IsValid, Healthy, HealthyIfAny, Good-append, pool_of-Ensures, set_pool-Keeps,
  close-Keeps, count_closed-Keeps, count_created-Keeps, count_failed-Keeps, count_reused-Keeps,
  select_endpoint-Keeps, open_channel-Keeps, evict-IsValid, warm_pool-Keeps,
}

both : (a b : Bool) → (a && b) ≡ true → (a ≡ true) × (b ≡ true)
both a b h = (ground (arith, h), ground (arith, h))

Good-tail :
    (q : Channel → Bool) (n : ℕ) (c : Channel) (cs : List Channel) → Good q n (c ∷ cs) → Good q n cs
Good-tail q n c cs g = (omega (arith, g.0), ground (arith, g.1))

module _ (q : Channel → Bool) (law : (c : Channel) → is_healthy c ≡ true → q c ≡ true)
    (cfg : Config) (w : World) where
  take_from-Ensures :
      (e : String) (cs : List Channel)
      → Good q cfg.max_conn_per_endpoint cs
      → Ensures (IsSound q cfg) HealthyIfAny (take_from cfg w e cs)
  unfolding take_from
  take_from-Ensures e [] g = Ensures-pure none tt
  take_from-Ensures e (c ∷ cs) g =
      Ensures-then (set_pool e cs) _ (set_pool-Keeps q law cfg w e cs (Good-tail q _ c cs g)) (
        Ensures-elim (is_healthy c) _ _
          (λ h.
            Ensures-elim (w.service c.id) _ _ (λ _. Ensures-pure _ h)
              (λ _. Ensures-raise service_failed))
          (λ _.
            Ensures-then (close c) _ (close-Keeps q law cfg w c) (
              Ensures-then count_closed _ (count_closed-Keeps q law cfg w) (Ensures-pure none tt))))

  use_new-Ensures :
      (r : Result Error Channel) → Ensures (IsSound q cfg) HealthyIfAny (use_new cfg w r)
  unfolding use_new
  use_new-Ensures (err e) =
      Ensures-then count_failed _ (count_failed-Keeps q law cfg w) (Ensures-pure none tt)
  use_new-Ensures (ok c) =
      Ensures-elim (is_healthy (check_health w c)) _ _
        (λ h.
          Ensures-elim (w.service c.id) _ _
            (λ _. Ensures-then count_created _ (count_created-Keeps q law cfg w) (Ensures-pure _ h))
            (λ _.
              Ensures-then count_failed _ (count_failed-Keeps q law cfg w) (Ensures-pure none tt)))
        (λ _. Ensures-pure none tt)

  open_new-Ensures : (e : String) → Ensures (IsSound q cfg) HealthyIfAny (open_new cfg w e)
  unfolding open_new
  open_new-Ensures e = record {
    run = λ p v.
        (use_new-Ensures (open_channel w e p).0).run (open_channel w e p).1
          ((open_channel-Keeps q law cfg w e).run p v).0;
  }

  or_open-Ensures :
      (e : String) (o : Option Channel)
      → HealthyIfAny o
      → Ensures (IsSound q cfg) HealthyIfAny (or_open cfg w e o)
  unfolding or_open
  or_open-Ensures e none h = open_new-Ensures e
  or_open-Ensures e (some c) h = Ensures-pure (some c) h

  attempt-Ensures : Ensures (IsSound q cfg) HealthyIfAny (attempt cfg w)
  unfolding attempt take_pooled
  attempt-Ensures =
      Ensures-bind Always (select_endpoint w) _ (select_endpoint-Keeps q law cfg w) λ e _.
        Ensures-bind HealthyIfAny (take_pooled cfg w e) _
          (Ensures-bind (Good q cfg.max_conn_per_endpoint) (pool_of e) _
            (pool_of-Ensures q law cfg w e) (take_from-Ensures e))
          (or_open-Ensures e)

  attempts-Ensures : (n : ℕ) → Ensures (IsSound q cfg) Healthy (attempts cfg w n)
  unfolding attempts
  attempts-Ensures zero = Ensures-raise no_connection
  attempts-Ensures (suc n) =
      Ensures-bind HealthyIfAny (attempt cfg w) _ attempt-Ensures (again (attempts-Ensures n))
    where
      again :
          Ensures (IsSound q cfg) Healthy (attempts cfg w n)
          → (o : Option Channel) → HealthyIfAny o
          → Ensures (IsSound q cfg) Healthy (elim o [ some c ↦ pure c | none ↦ attempts cfg w n ])
      again m none h = m
      again m (some c) h = Ensures-pure c h

  acquire-Sound : Ensures (IsSound q cfg) Healthy (acquire cfg w)
  unfolding acquire
  acquire-Sound = attempts-Ensures cfg.retry_count

  release-Keeps : (c : Channel) → q c ≡ true → Keeps (IsSound q cfg) (release cfg w c)
  unfolding release
  release-Keeps c h =
      Ensures-bind (Good q cfg.max_conn_per_endpoint) (pool_of c.endpoint) _
        (pool_of-Ensures q law cfg w c.endpoint)
        λ cs g.
          Ensures-elim (ltb (length cs) cfg.max_idle_conn) _ _
            (λ _.
              Ensures-then (set_pool c.endpoint (append cfg.max_conn_per_endpoint c cs))
                count_reused (set_pool-Keeps q law cfg w c.endpoint _ (Good-append q _ c cs h g))
                (count_reused-Keeps q law cfg w))
            (λ _.
              Ensures-then (close c) count_closed (close-Keeps q law cfg w c)
                (count_closed-Keeps q law cfg w))

  check-Keeps : (fuel : ℕ) (e : String) → Keeps (IsSound q cfg) (check_endpoint_health cfg w fuel e)
  unfolding check_endpoint_health
  check-Keeps fuel e = record {
    run = λ p v. (
      ((Ensures-then (evict_unhealthy_connections cfg w e) (warm_pool cfg w fuel e)
            (evict-IsValid q law cfg w e) (warm_pool-Keeps q law cfg w fuel e)).run
          p v).0,
      tt,
    );
  }

  shut_down-Keeps : Keeps (IsSound q cfg) (shut_down cfg w)
  unfolding shut_down close_all
  shut_down-Keeps = record {
    run = λ p v.
        (Keeps-for_each p.endpoints _ λ e.
            Ensures-bind (Good q cfg.max_conn_per_endpoint) (pool_of e) _
              (pool_of-Ensures q law cfg w e)
              λ cs _.
                Ensures-then (set_pool e []) _ (set_pool-Keeps q law cfg w e [] (omega arith, refl))
                  (Keeps-for_each cs _ λ c.
                    Ensures-then (close c) count_closed (close-Keeps q law cfg w c)
                      (count_closed-Keeps q law cfg w))).run
          p v;
  }

-- The operations on a pool, with the channels that they release; a caller may release any channel.
module _ (cfg : Config) (w : World) where
  pub data Step (p : ClientPool) : List Channel → ClientPool → Type 0 where
    acquires : Step p [] (acquire cfg w p).1
    releases : (c : Channel) → Step p (c ∷ []) (release cfg w c p).1
    checks : (fuel : ℕ) (e : String) → Step p [] (check_endpoint_health cfg w fuel e p).1
    exits : Step p [] (shut_down cfg w p).1

  pub data Reach (p : ClientPool) : List Channel → ClientPool → Type 0 where
    here : Reach p [] p
    next :
        {released more : List Channel} {q r : ClientPool}
        → Reach p released q
        → Step q more r
        → Reach p (more ++ released) r

  -- From valid pools, `acquire` leaves valid pools, and a channel that it returns is healthy.
  pub acquire-Ensures : Ensures (IsValid cfg) Healthy (acquire cfg w)
  acquire-Ensures = acquire-Sound is_healthy (λ c h. h) cfg w

module _ (q : Channel → Bool) (law : (c : Channel) → is_healthy c ≡ true → q c ≡ true)
    (cfg : Config) (w : World) where
  Step-IsSound :
      {more : List Channel} {p r : ClientPool}
      → Step cfg w p more r
      → all q more ≡ true
      → IsSound q cfg p
      → IsSound q cfg r
  Step-IsSound {p = p} acquires a v = ((acquire-Sound q law cfg w).run p v).0
  Step-IsSound {p = p} (releases c) a v =
      ((release-Keeps q law cfg w c (ground (arith, a))).run p v).0
  Step-IsSound {p = p} (checks fuel e) a v = ((check-Keeps q law cfg w fuel e).run p v).0
  Step-IsSound {p = p} exits a v = ((shut_down-Keeps q law cfg w).run p v).0

  Reach-keeps :
      {p : ClientPool} {released : List Channel} {r : ClientPool}
      → Reach cfg w p released r
      → all q released ≡ true
      → IsSound q cfg p
      → IsSound q cfg r
  Reach-keeps here a v = v
  Reach-keeps (next {released} {more} r s) a v =
      let (first, rest) =
        both (all q more) (all q released) (sym (all-append q more released) ∙ a) in
      Step-IsSound s first (Reach-keeps r rest v)

empty_pools-Good :
    (q : Channel → Bool) (n : ℕ) (es : List String) (d : Dict (List Channel))
    → ((e : String) (cs : List Channel) → lookup e d ≡ some cs → Good q n cs)
    → (e : String) (cs : List Channel) → lookup e (empty_pools es d) ≡ some cs
    → Good q n cs
unfolding empty_pools
empty_pools-Good q n [] d h = h
empty_pools-Good q n (k ∷ es) d h = empty_pools-Good q n es (insert k [] d) λ e cs m.
    elim (Bool-cases (k == e)) [
      | inl p ↦
          let s : [] ≡ cs = ground (arith, lookup-insert k e [] d) in
          subst (Good q n) s (omega arith, refl)
      | inr p ↦ h e cs (ground (arith, lookup-insert k e [] d))
    ]

new_pool-IsSound :
    (q : Channel → Bool) (cfg : Config) (es : List String) → IsSound q cfg (new_pool cfg es)
unfolding new_pool lookup
new_pool-IsSound q cfg es = record {
  good = empty_pools-Good q cfg.max_conn_per_endpoint es [] (λ e cs m. cc);
}

-- After any sequence of operations on a new pool, no endpoint has more pooled channels than
-- `max_conn_per_endpoint`, and a test that all serving channels and all released channels pass is passed by
-- every pooled channel.
pub Reach-IsSound :
    (cfg : Config) (w : World) (es : List String) {released : List Channel} {p : ClientPool}
    → Reach cfg w (new_pool cfg es) released p
    → (q : Channel → Bool) → ((c : Channel) → is_healthy c ≡ true → q c ≡ true)
    → all q released ≡ true
    → IsSound q cfg p
Reach-IsSound cfg w es r q law a = Reach-keeps q law cfg w r a (new_pool-IsSound q cfg es)

filter-all : (q : Channel → Bool) (cs : List Channel) → all q cs ≡ true → filter q cs ≡ cs
filter-all q [] a = refl
filter-all q (c ∷ cs) a = ground (arith, filter-all q cs)

filter-not_all : (cs : List Channel) → all is_healthy cs ≡ true → filter unhealthy cs ≡ []
filter-not_all [] a = refl
filter-not_all (c ∷ cs) a = ground (arith, filter-not_all cs)

-- Since a pooled channel is never checked again, the periodic eviction closes none where all released
-- channels were serving: it leaves every endpoint's pool, and the rest of the state, as it was.
pub evict_noop :
    (cfg : Config) (w : World) (es : List String) {released : List Channel} {p : ClientPool}
    (e : String) (cs : List Channel)
    → Reach cfg w (new_pool cfg es) released p
    → all is_healthy released ≡ true
    → lookup e p.pools ≡ some cs
    → evict_unhealthy_connections cfg w e p ≡ (ok tt, p)
evict_noop cfg w es {released} {p} e cs r a h =
    let g = (Reach-IsSound cfg w es r is_healthy (λ c k. k) a).good e cs h in
    evict_unhealthy_connections_lem cfg w e cs p h g.0
    ∙ ground (arith, filter-all is_healthy cs g.1, filter-not_all cs g.1, insert_same e cs p.pools)
