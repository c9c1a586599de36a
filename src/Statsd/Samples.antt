-- ===== src/Statsd/Samples.antt =====
-- Runs of observability/metrics/statsd.py, with the sizes of metrics for metrics.
use kuva_ai.Prelude.{
  ℕ, arith, Bool, true, Option, none, some, List, [], ◌∷◌, all, eqb, not, ◌⊎◌, ◌++◌, ◌≡◌, refl,
}
use kuva_ai.Statsd.{
  send_failed, Protocol, udp, StatsdConfig, StatsdClient, new_client, chunks_of, append_metric,
  submit, flush, clear_buffer, run_all,
}
use kuva_ai.Exec.{err}
use kuva_ai.Statsd.Chunks.{concat, fits}
use kuva_ai.Statsd.Client.{IsCounted, run_all-IsCounted, flush-sends}

abbrev size : ℕ → ℕ
size n = n

abbrev config : Protocol → StatsdConfig
config p = record { protocol = p; buffer_size = 4; mtu = 10 }

-- A first metric over the limit leaves an empty chunk before it.
chunked :
    chunks_of ℕ size (config udp) [] 0 (12 ∷ 4 ∷ 5 ∷ 3 ∷ [])
    ≡ [] ∷ (12 ∷ []) ∷ (4 ∷ 5 ∷ []) ∷ (3 ∷ []) ∷ []
unfolding chunks_of
chunked = refl

-- The second send raises.
abbrev second : ℕ → Bool
second n = eqb n 1

abbrev calls : List (Option ℕ)
calls = some 6 ∷ some 6 ∷ some 6 ∷ none ∷ some 2 ∷ []

-- A metric of no length has no encoding.
abbrev encodes : ℕ → Bool
encodes n = not (eqb n 0)

run_all-IsCounted_example :
    IsCounted ℕ size
      (config udp)
      second
      encodes
      (run_all ℕ size (config udp) second encodes calls (new_client ℕ))
run_all-IsCounted_example =
    run_all-IsCounted ℕ size (config udp) second encodes (omega arith) calls refl

-- What is behind a metric without an encoding is counted as dropped.
drops :
    (run_all ℕ size
      (config udp)
      second
      encodes
      (some 6 ∷ some 0 ∷ some 2 ∷ none ∷ [])
      (new_client ℕ)).dropped
    ≡ 1
unfolding run_all submit append_metric flush clear_buffer
drops = refl

abbrev full : StatsdClient ℕ
full = record (new_client ℕ) { buffer = 12 ∷ 4 ∷ 5 ∷ 3 ∷ [] }

flush-sends_example :
    (sent unsent : List (List ℕ)) × ((flush ℕ size (config udp) second encodes full).1.wire
      ≡ full.wire ++ sent)
    × (concat ℕ size (config udp) (sent ++ unsent) ≡ full.buffer)
    × (all (fits ℕ size (config udp)) (sent ++ unsent) ≡ true)
    × ((unsent ≡ []) ⊎ ((flush ℕ size (config udp) second encodes full).0 ≡ err send_failed))
flush-sends_example = flush-sends ℕ size (config udp) second encodes refl full refl
