-- ===== src/Pool.antt =====
-- communication/grpc/client_pool.py: the pool of gRPC channels. What the network and the files
-- answer is a `World`. A method is an action on the pool; the places where the event loop may run
-- another task in between are not modelled, nor is the semaphore, which only delays.
pub mod Methods
pub mod Health
pub mod Bounds
pub mod Acquire
pub mod Warm
pub mod Rotation
pub mod Exhaust
pub mod Samples
use kuva_ai.Prelude.{
  ℕ, zero, suc, ◌+◌, ◌%◌, String, Bool, true, false, Option, none, some, List, [], ◌∷◌, ◌++◌, ◌==◌,
  if◌then◌else◌, ltb, length, drop,
}
use kuva_ai.Dict.{Dict, lookup, insert}
use kuva_ai.Exec.{
  Result, ok, err, Exec, pure, raise, lift, gets, modify, continue, ◌>>=◌, ◌>>◌, for_each,
}

-- The attributes of a configuration that the pool reads. A negative `max_idle_conn` or `retry_count` does
-- what 0 does, and with a negative `max_conn_per_endpoint` the constructor of the pool raises.
pub record Config : Type 0 where
  pub max_conn_per_endpoint : ℕ
  pub max_idle_conn : ℕ
  pub retry_count : ℕ
  pub load_balancing_strategy : String

-- `HealthCheckResponse`
pub data Status : Type 0 where
  unknown serving not_serving : Status

-- What comes of opening a channel and of its first health check: `ChannelWrapper(…)` raises, the
-- check raises, or the check answers with a status.
pub data Connect : Type 0 where
  create_failed check_failed : Connect
  responded : Status → Connect

-- The answer to each opening in turn, whether `service(channel.channel)` makes a stub for the channel that
-- was opened then, the numbers that `random.choice` draws, and the clock.
pub record World : Type 0 where
  pub now : ℕ
  pub connect : ℕ → Connect
  pub service : ℕ → Bool
  pub draw : ℕ → ℕ

-- `ChannelWrapper`; `id` stands for the object.
pub record Channel : Type 0 where
  pub id : ℕ
  pub endpoint : String
  pub last_used : ℕ
  pub health_status : Status
  pub failure_count : ℕ

pub data Strategy : Type 0 where
  round_robin : (index : ℕ) → Strategy
  random : (drawn : ℕ) → Strategy
  least_connections latency_aware : Strategy

-- `RpcError`; `ZeroDivisionError` or `IndexError`; `KeyError`; what `ChannelWrapper(…)` and
-- `service(…)` raise; the `NameError` of `ClientConfig()`.
pub data Error : Type 0 where
  no_connection no_endpoints unknown_endpoint connect_failed service_failed name_error : Error

-- `ClientConfig()`: `os` is not imported, so any other object with its attributes has to be used.
abbrev pub client_config : Result Error Config
client_config = err name_error

pub record Metrics : Type 0 where
  pub connection_created : ℕ
  pub connection_closed : ℕ
  pub connection_failed : ℕ
  pub connection_reused : ℕ

-- `opened` counts the openings so far, and `closed` lists the channels that were closed.
pub record ClientPool : Type 0 where
  pub endpoints : List String
  pub pools : Dict (List Channel)
  pub load_balancer : Strategy
  pub metrics : Metrics
  pub opened : ℕ
  pub closed : List ℕ

abbrev pub Action : Type 0 → Type 0
Action A = Exec ClientPool Error A

-- `_create_load_balancer`
unfoldable pub create_load_balancer : String → Strategy
create_load_balancer s =
    if s == "random"
    then random 0
    else if s == "least_connections"
    then least_connections
    else if s == "latency_aware"
    then latency_aware
    else round_robin 0

abbrev pub is_serving : Status → Bool
is_serving serving = true
is_serving _ = false

abbrev pub is_healthy : Channel → Bool
is_healthy c = is_serving c.health_status

-- `append` of a `deque(maxlen=n)`: a full one drops its first element.
unfoldable pub append : ℕ → Channel → List Channel → List Channel
append zero c cs = []
append (suc n) c cs = if ltb (length cs) (suc n) then cs ++ c ∷ [] else drop 1 cs ++ c ∷ []

unfoldable pub extend : ℕ → List Channel → List Channel → List Channel
extend n [] cs = cs
extend n (x ∷ xs) cs = extend n xs (append n x cs)

pub empty_pools : List String → Dict (List Channel) → Dict (List Channel)
empty_pools [] d = d
empty_pools (e ∷ es) d = empty_pools es (insert e [] d)

-- `endpoints[i]`
abbrev pub nth : List String → ℕ → Option String
nth [] i = none
nth (x ∷ xs) zero = some x
nth (x ∷ xs) (suc i) = nth xs i

abbrev zero_metrics : Metrics
zero_metrics = record {
  connection_created = 0;
  connection_closed = 0;
  connection_failed = 0;
  connection_reused = 0;
}

-- `ClientPool.__init__`
unfoldable pub new_pool : Config → List String → ClientPool
unfolding empty_pools
new_pool cfg endpoints = record {
  endpoints = endpoints;
  pools = empty_pools endpoints [];
  load_balancer = create_load_balancer cfg.load_balancing_strategy;
  metrics = zero_metrics;
  opened = 0;
  closed = [];
}

-- `self._pools[endpoint]`
unfoldable pub pool_of : String → Action (List Channel)
pool_of e p = elim (lookup e p.pools) [ none ↦ (err unknown_endpoint, p) | some cs ↦ (ok cs, p) ]

unfoldable pub set_pool : String → List Channel → Action Unit
set_pool e cs = modify (λ p. record p { pools = insert e cs p.pools })

-- `channel.close()`
unfoldable pub close : Channel → Action Unit
close c = modify (λ p. record p { closed = c.id ∷ p.closed })

abbrev count_created : Action Unit
count_created = modify (λ p. record p {
  metrics = record p.metrics { connection_created = p.metrics.connection_created + 1 };
})

abbrev count_closed : Action Unit
count_closed = modify (λ p. record p {
  metrics = record p.metrics { connection_closed = p.metrics.connection_closed + 1 };
})

abbrev count_failed : Action Unit
count_failed = modify (λ p. record p {
  metrics = record p.metrics { connection_failed = p.metrics.connection_failed + 1 };
})

abbrev count_reused : Action Unit
count_reused = modify (λ p. record p {
  metrics = record p.metrics { connection_reused = p.metrics.connection_reused + 1 };
})

abbrev pub or_no_endpoints : Option String → Result Error String
or_no_endpoints none = err no_endpoints
or_no_endpoints (some e) = ok e

module _ (w : World) where
  -- `select_endpoint`; the two strategies that are not written return `None`, which is no key.
  unfoldable pub select_endpoint : Action String
  select_endpoint p = elim p.load_balancer [
    | round_robin i ↦ elim p.endpoints [
      | [] ↦ (err no_endpoints, p)
      | e ∷ es ↦
          let j = (i + 1) % length (e ∷ es) in
          (or_no_endpoints (nth (e ∷ es) j), record p { load_balancer = round_robin j })
    ]
    | random n ↦ elim p.endpoints [
      | [] ↦ (err no_endpoints, p)
      | e ∷ es ↦ (
        or_no_endpoints (nth (e ∷ es) (w.draw n % length (e ∷ es))),
        record p { load_balancer = random (n + 1) },
      )
    ]
    | least_connections ↦ (err unknown_endpoint, p)
    | latency_aware ↦ (err unknown_endpoint, p)
  ]

  -- `ChannelWrapper.__init__`
  unfoldable pub open_channel : String → Action Channel
  open_channel e p =
      let p' : ClientPool = record p { opened = p.opened + 1 } in
      elim (w.connect p.opened) [
        | create_failed ↦ (err connect_failed, p')
        | _ ↦ (
          ok (record {
            id = p.opened;
            endpoint = e;
            last_used = w.now;
            health_status = unknown;
            failure_count = 0;
          }),
          p',
        )
      ]

  -- `check_health`; its only calls follow the opening at once.
  unfoldable pub check_health : Channel → Channel
  check_health c = elim (w.connect c.id) [
    | responded s ↦ record c { health_status = s; failure_count = 0 }
    | _ ↦ record c { health_status = not_serving; failure_count = c.failure_count + 1 }
  ]
