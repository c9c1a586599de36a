-- ===== src/Pool/Health.antt =====
-- The health checks of communication/grpc/client_pool.py: what the eviction keeps, and that the
-- pools hold only channels whose recorded status is serving.
use kuva_ai.Prelude.{
  ℕ, zero, suc, ◌+◌, ◌≤◌, String, ◌≡◌, sym, Bool, not, some, List, [], ◌∷◌, ◌++◌, arith, length,
  filter, append_assoc, append-nil, length-append, length-filter-le,
}
use kuva_ai.Dict.{lookup, insert}
use kuva_ai.Exec.{ok}
use kuva_ai.Pool.{
  Config, World, Channel, ClientPool, is_healthy, append, extend, pool_of, set_pool, close,
}
use kuva_ai.Pool.Methods.{evict_loop, evict_unhealthy_connections}

abbrev pub unhealthy : Channel → Bool
unhealthy c = not (is_healthy c)

-- The identities of channels, in the order in which they are closed one after the other.
abbrev pub closed_ids : List Channel → List ℕ → List ℕ
closed_ids [] ids = ids
closed_ids (c ∷ cs) ids = closed_ids cs (c.id ∷ ids)

-- The pool after `cs` are closed one after the other.
abbrev pub closes : List Channel → ClientPool → ClientPool
closes cs p = record p {
  closed = closed_ids cs p.closed;
  metrics = record p.metrics { connection_closed = p.metrics.connection_closed + length cs };
}

pub evict_loop_lem :
    (cs valid : List Channel) (p : ClientPool)
    → evict_loop cs valid p ≡ (ok (valid ++ filter is_healthy cs), closes (filter unhealthy cs) p)
unfolding evict_loop close
evict_loop_lem [] valid p = ground (arith, append-nil valid)
evict_loop_lem (c ∷ cs) valid p = ground (
  arith,
  evict_loop_lem cs (valid ++ c ∷ []) p,
  evict_loop_lem cs valid (closes (c ∷ []) p),
  append_assoc valid (c ∷ []) (filter is_healthy cs),
)

pub length-append_le :
    (n : ℕ) (c : Channel) (cs : List Channel) → length cs ≤ n → length (append n c cs) ≤ n
unfolding append
length-append_le zero c cs h = omega arith
length-append_le (suc n) c [] h = ground arith
length-append_le (suc n) c (x ∷ cs) h =
    ground (arith, length-append cs (c ∷ []), length-append (x ∷ cs) (c ∷ []))

-- A deque with room for all takes all.
pub extend-append :
    (n : ℕ) (xs cs : List Channel) → length cs + length xs ≤ n → extend n xs cs ≡ cs ++ xs
unfolding extend append
extend-append n [] cs h = sym (append-nil cs)
extend-append zero (x ∷ xs) cs h = absurd (omega arith)
extend-append (suc n) (x ∷ xs) cs h = ground (
  arith,
  extend-append (suc n) xs (cs ++ x ∷ []),
  length-append cs (x ∷ []),
  append_assoc cs (x ∷ []) xs,
)

pub evict_unhealthy_connections_lem :
    (cfg : Config) (w : World) (e : String) (cs : List Channel) (p : ClientPool)
    → lookup e p.pools ≡ some cs
    → length cs ≤ cfg.max_conn_per_endpoint
    → evict_unhealthy_connections cfg w e p ≡ (
      ok tt,
      record (closes (filter unhealthy cs) p) { pools = insert e (filter is_healthy cs) p.pools },
    )
unfolding evict_unhealthy_connections pool_of set_pool
evict_unhealthy_connections_lem cfg w e cs p h le = ground (
  arith,
  evict_loop_lem cs [] p,
  extend-append cfg.max_conn_per_endpoint (filter is_healthy cs) [],
  length-filter-le is_healthy cs,
)
