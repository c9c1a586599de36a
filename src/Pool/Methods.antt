-- ===== src/Pool/Methods.antt =====
-- communication/grpc/client_pool.py: the methods of `ClientPool`.
use kuva_ai.Prelude.{
  ℕ, zero, suc, String, Bool, true, false, Option, none, some, List, [], ◌∷◌, ◌++◌, ltb, length,
}
use kuva_ai.Exec.{Result, ok, err, pure, raise, continue, ◌>>=◌, ◌>>◌, for_each}
use kuva_ai.Pool.{
  Config, World, Channel, Error, no_connection, service_failed, Action, is_healthy, append, extend,
  pool_of, set_pool, close, count_created, count_closed, count_failed, count_reused,
  select_endpoint, open_channel, check_health,
}

-- The loop of `_evict_unhealthy_connections`: `valid` is what it keeps.
unfoldable pub evict_loop : List Channel → List Channel → Action (List Channel)
evict_loop [] valid p = (ok valid, p)
evict_loop (c ∷ cs) valid p = elim (is_healthy c) [
  | true ↦ evict_loop cs (valid ++ c ∷ []) p
  | false ↦ continue (λ _. evict_loop cs valid) ((close c >> count_closed) p)
]

module _ (cfg : Config) (w : World) where
  -- `_evict_unhealthy_connections`
  unfoldable pub evict_unhealthy_connections : String → Action Unit
  evict_unhealthy_connections e = do
    cs ← pool_of e
    valid ← evict_loop cs []
    set_pool e (extend cfg.max_conn_per_endpoint valid [])

  -- The body of the loop in `_warm_pool`.
  unfoldable pub warm_once : String → Action Unit
  warm_once e = do
    opened ← open_channel w e
    let c = check_health w opened
    elim (is_healthy c) [
      | true ↦ (do
        cs ← pool_of e
        set_pool e (append cfg.max_conn_per_endpoint c cs)
        count_created)
      | false ↦ (close c >> count_failed)
    ]

  -- `_warm_pool`, for at most `fuel` rounds; the result says whether the loop has ended.
  unfoldable pub warm_pool : ℕ → String → Action Bool
  warm_pool zero e = pure false
  warm_pool (suc fuel) e = do
    cs ← pool_of e
    elim (ltb (length cs) cfg.max_conn_per_endpoint) [
      | true ↦ (warm_once e >> warm_pool fuel e)
      | false ↦ pure true
    ]

  abbrev ended : Result Error Bool → Bool
  ended (ok b) = b
  ended (err _) = true

  -- `_check_endpoint_health`: what it awaits may raise, and is logged.
  unfoldable pub check_endpoint_health : ℕ → String → Action Bool
  check_endpoint_health fuel e p =
      let (r, p') = (evict_unhealthy_connections e >> warm_pool fuel e) p in (ok (ended r), p')

  unfoldable pub take_from : String → List Channel → Action (Option Channel)
  take_from e [] = pure none
  take_from e (c ∷ rest) = do
    set_pool e rest
    elim (is_healthy c) [
      | true ↦ elim (w.service c.id) [
        | true ↦ pure (some (record c { last_used = w.now }))
        | false ↦ raise service_failed
      ]
      | false ↦ (do close c; count_closed; pure none)
    ]

  -- The first half of an attempt of `acquire`: a pooled channel, if it is healthy.
  unfoldable pub take_pooled : String → Action (Option Channel)
  take_pooled e = do cs ← pool_of e; take_from e cs

  -- A new channel is handed out if it is healthy. What the opening or the
  -- making of its stub raises is logged and counted.
  unfoldable pub use_new : Result Error Channel → Action (Option Channel)
  use_new (err _) = do count_failed; pure none
  use_new (ok opened) =
      let c = check_health w opened in
      elim (is_healthy c) [
        | true ↦ elim (w.service opened.id) [
          | true ↦ (do count_created; pure (some c))
          | false ↦ (do count_failed; pure none)
        ]
        | false ↦ pure none
      ]

  -- The second half of an attempt.
  unfoldable pub open_new : String → Action (Option Channel)
  open_new e p = let (r, p') = open_channel w e p in use_new r p'

  unfoldable pub or_open : String → Option Channel → Action (Option Channel)
  or_open e none = open_new e
  or_open e (some c) = pure (some c)

  unfoldable pub attempt : Action (Option Channel)
  attempt = do e ← select_endpoint w; pooled ← take_pooled e; or_open e pooled

  -- The loop of `acquire`, with the attempts that are left.
  unfoldable pub attempts : ℕ → Action Channel
  attempts zero = raise no_connection
  attempts (suc n) = do got ← attempt; elim got [ some c ↦ pure c | none ↦ attempts n ]

  -- `acquire`
  unfoldable pub acquire : Action Channel
  acquire = attempts cfg.retry_count

  -- `release`
  unfoldable pub release : Channel → Action Unit
  release c = do
    cs ← pool_of c.endpoint
    elim (ltb (length cs) cfg.max_idle_conn) [
      | true ↦ (set_pool c.endpoint (append cfg.max_conn_per_endpoint c cs) >> count_reused)
      | false ↦ (close c >> count_closed)
    ]

  unfoldable pub close_all : List Channel → Action Unit
  close_all cs = for_each cs (λ c. close c >> count_closed)

  -- The loop of `__aexit__`, after the health check is cancelled.
  unfoldable pub shut_down : Action Unit
  shut_down p = for_each p.endpoints (λ e. do cs ← pool_of e; set_pool e []; close_all cs) p
