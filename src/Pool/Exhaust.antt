-- ===== src/Pool/Exhaust.antt =====
-- `acquire` of communication/grpc/client_pool.py when no channel can be had.
use native.Mathlib.Nat.{mod-lt}
use kuva_ai.Prelude.{
  ℕ, zero, suc, ◌+◌, ◌%◌, ◌<◌, String, ◌≡◌, refl, ap, ◌∙◌, true, none, some, List, [], ◌∷◌, arith,
  length,
}
use kuva_ai.Dict.{lookup}
use kuva_ai.Exec.{ok, err}
use kuva_ai.Pool.{
  Config, World, no_connection, ClientPool, round_robin, nth, or_no_endpoints, pool_of,
  select_endpoint, open_channel, check_health,
}
use kuva_ai.Pool.Methods.{
  take_pooled, take_from, use_new, open_new, or_open, attempt, attempts, acquire,
}
use kuva_ai.Pool.Rotation.{select-round_robin}
use kuva_ai.Pool.Warm.{opens_unhealthy, NeverServes}

-- The endpoints are taken in turn, there is at least one, and none has a pooled channel.
pub record IsIdle (p : ClientPool) : Type 0 where
  pub index : ℕ
  pub in_turn : p.load_balancer ≡ round_robin index
  pub some_endpoint : 0 < length p.endpoints
  pub empty : (j : ℕ) (e : String) → nth p.endpoints j ≡ some e → lookup e p.pools ≡ some []

nth-some : (xs : List String) (j : ℕ) → j < length xs → (e : String) × (nth xs j ≡ some e)
nth-some [] j h = absurd (omega arith)
nth-some (x ∷ xs) zero h = (x, refl)
nth-some (x ∷ xs) (suc j) h = nth-some xs j (omega arith)

module _ (cfg : Config) (w : World) where
  open_new-unhealthy :
      (e : String) (p : ClientPool)
      → opens_unhealthy (w.connect p.opened) ≡ true
      → open_new cfg w e p ≡ (ok none, record p { opened = p.opened + 1 })
  unfolding open_new use_new open_channel check_health
  open_new-unhealthy e p h = ground arith

  take_pooled-empty :
      (e : String) (p : ClientPool)
      → lookup e p.pools ≡ some []
      → take_pooled cfg w e p ≡ (ok none, p)
  unfolding take_pooled take_from pool_of
  take_pooled-empty e p h = ground arith

  attempt-idle :
      (e : String) (i : ℕ) (p : ClientPool)
      → select_endpoint w p ≡ (ok e, record p { load_balancer = round_robin i })
      → lookup e p.pools ≡ some []
      → opens_unhealthy (w.connect p.opened) ≡ true
      → attempt cfg w p
        ≡ (ok none, record p { load_balancer = round_robin i; opened = p.opened + 1 })
  unfolding attempt or_open
  attempt-idle e i p sel none_pooled bad =
      let p' : ClientPool = record p { load_balancer = round_robin i } in
      ground (arith, take_pooled-empty e p', open_new-unhealthy e p')

  attempts-again :
      (n : ℕ) (p p' : ClientPool)
      → attempt cfg w p ≡ (ok none, p')
      → attempts cfg w (suc n) p ≡ attempts cfg w n p'
  unfolding attempts
  attempts-again n p p' h = rw h

  attempts-idle :
      (n : ℕ) (p : ClientPool)
      → IsIdle p
      → NeverServes cfg w p
      → (q : ClientPool) × (attempts cfg w n p ≡ (err no_connection, q))
        × (q.opened ≡ p.opened + n)
        × (q.closed ≡ p.closed)
        × (q.pools ≡ p.pools)
  unfolding attempts
  attempts-idle zero p idle never = (p, refl, omega arith, refl, refl)
  attempts-idle (suc n) p idle never =
      let m = length p.endpoints in
      let j = (idle.index + 1) % m in
      let (e, at) = nth-some p.endpoints j (mod-lt (idle.index + 1) idle.some_endpoint) in
      let sel =
        select-round_robin w idle.index p idle.in_turn
          (λ n. absurd (omega (arith, idle.some_endpoint, ap length n)))
        ∙ ap (λ x. (or_no_endpoints x, record p { load_balancer = round_robin j })) at in
      let one = attempt-idle e j p sel (idle.empty j e at) (never p.opened (omega arith)) in
      let p' : ClientPool = record p { load_balancer = round_robin j; opened = p.opened + 1 } in
      let (q, run, count, shut, same) =
        attempts-idle n p'
          (record {
            index = j;
            in_turn = refl;
            some_endpoint = idle.some_endpoint;
            empty = idle.empty;
          })
          (λ k le. never k (omega arith)) in
      (q, attempts-again n p p' one ∙ run, omega (arith, count), shut, same)

  -- When no endpoint has a pooled channel and every new channel opens unhealthy, `acquire` opens
  -- `retry_count` channels and raises `RpcError`; none of them is pooled or closed.
  pub acquire_exhausted :
      (p : ClientPool)
      → IsIdle p
      → NeverServes cfg w p
      → (q : ClientPool) × (acquire cfg w p ≡ (err no_connection, q))
        × (q.opened ≡ p.opened + cfg.retry_count)
        × (q.closed ≡ p.closed)
        × (q.pools ≡ p.pools)
  unfolding acquire
  acquire_exhausted p idle never = attempts-idle cfg.retry_count p idle never
