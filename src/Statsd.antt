-- ===== src/Statsd.antt =====
-- observability/metrics/statsd.py: `StatsDClient`. The text of a metric is of any type, with the
-- length of its encoding; whether a metric is sampled, and which calls of the socket raise, is outside.
pub mod Chunks
pub mod Client
mod Samples
use kuva_ai.Prelude.{
  ℕ, zero, suc, ◌+◌, Bool, true, false, ◌&&◌, Option, none, some, List, [], ◌∷◌, ◌++◌, ltb, leb,
  if◌then◌else◌, length, drop,
}
use kuva_ai.Exec.{Result, ok, err, continue}

pub data Protocol : Type 0 where
  udp tcp tls : Protocol

pub record StatsdConfig : Type 0 where
  pub protocol : Protocol
  pub buffer_size : ℕ
  pub mtu : ℕ

-- `encode_failed`: `metric.encode()` raises a UnicodeEncodeError. `lock_never_released`: `_ensure_connection` waits for `_conn_lock`, which its caller `flush` holds.
pub data Error : Type 0 where
  send_failed encode_failed lock_never_released : Error

module _ (M : Type 0) where
  -- The buffer, the counters, and what the socket has taken.
  pub record StatsdClient : Type 0 where
    pub buffer : List M
    pub sent : ℕ
    pub dropped : ℕ
    pub errors : ℕ
    pub wire : List (List M)
    pub sends : ℕ
    pub is_open : Bool

  abbrev pub new_client : StatsdClient
  new_client = record {
    buffer = [];
    sent = 0;
    dropped = 0;
    errors = 0;
    wire = [];
    sends = 0;
    is_open = true;
  }

  -- `get_metrics`: sent, dropped, errors
  unfoldable pub get_metrics : StatsdClient → ℕ × ℕ × ℕ
  get_metrics c = (c.sent, c.dropped, c.errors)

  module _ (size : M → ℕ) (cfg : StatsdConfig) where
    -- The loop of `_flush` that fills the chunks.
    unfoldable pub chunks_of : List M → ℕ → List M → List (List M)
    chunks_of [] total [] = []
    chunks_of (c ∷ cs) total [] = (c ∷ cs) ∷ []
    chunks_of current total (m ∷ ms) =
        let fresh = chunks_of (m ∷ []) (size m + 1) ms in
        let grown = chunks_of (current ++ m ∷ []) (total + size m + 1) ms in
        if ltb cfg.mtu (total + size m) then current ∷ fresh else grown

    -- `fails` tells which sends raise, and `encodes` which metrics have an encoding.
    module _ (fails : ℕ → Bool) (encodes : M → Bool) where
      abbrev pub attempt :
          (fails_now : Bool) → List M → StatsdClient → Result Error Unit × StatsdClient
      attempt true chunk c =
          (err send_failed, record c { errors = c.errors + 1; sends = c.sends + 1 })
      attempt false chunk c =
          (ok tt, record c { sent = c.sent + 1; wire = c.wire ++ chunk ∷ []; sends = c.sends + 1 })

      abbrev pub send_over : Protocol → List M → StatsdClient → Result Error Unit × StatsdClient
      send_over udp chunk c = attempt (fails c.sends) chunk c
      send_over tcp chunk c = (err lock_never_released, c)
      send_over tls chunk c = (err lock_never_released, c)

      -- `_send`, called while `flush` holds the lock
      unfoldable pub send : List M → StatsdClient → Result Error Unit × StatsdClient
      send chunk c = send_over cfg.protocol chunk c

      unfoldable pub send_all : List (List M) → StatsdClient → Result Error Unit × StatsdClient
      send_all [] c = (ok tt, c)
      send_all (k ∷ ks) c = continue (λ _. send_all ks) (send k c)

      -- The `except` clause of `_flush`; a wait without end never gets there.
      unfoldable pub clear_buffer :
          Result Error Unit × StatsdClient → Result Error Unit × StatsdClient
      clear_buffer (err send_failed, c) =
          (err send_failed, record c { dropped = c.dropped + length c.buffer; buffer = [] })
      clear_buffer (err encode_failed, c) =
          (err encode_failed, record c { dropped = c.dropped + length c.buffer; buffer = [] })
      clear_buffer (r, c) = (r, c)

      -- What is left in the buffer where `metric.encode()` raises; the chunks so far are lost then.
      abbrev pub left_at_error : List M → Option (List M)
      left_at_error [] = none
      left_at_error (m ∷ ms) = if encodes m then left_at_error ms else some ms

      -- The `try` of `_flush`
      abbrev pub send_or_fail : Option (List M) → StatsdClient → Result Error Unit × StatsdClient
      send_or_fail (some rest) c = (err encode_failed, record c { buffer = rest })
      send_or_fail none c = send_all (chunks_of [] 0 c.buffer) (record c { buffer = [] })

      -- `flush`, `_flush`
      unfoldable pub flush : StatsdClient → Result Error Unit × StatsdClient
      flush c = clear_buffer (send_or_fail (left_at_error c.buffer) c)

      abbrev after_flush : Result Error Unit × StatsdClient → Result Error Unit × StatsdClient
      after_flush (ok u, c) = (ok u, record c { is_open = false })
      after_flush (err e, c) = (err e, c)

      -- `close`: a flush that raises leaves the socket open.
      unfoldable pub close : StatsdClient → Result Error Unit × StatsdClient
      close c = after_flush (flush c)

      -- `deque(maxlen=buffer_size).append`
      unfoldable pub append_metric : M → List M → List M
      append_metric m ms =
          if ltb (length ms) cfg.buffer_size then ms ++ m ∷ [] else drop 1 ms ++ m ∷ []

      -- `_submit` of a metric that is sampled; the flush that it starts when the buffer is full runs
      -- later, as a call of its own.
      unfoldable pub submit : M → StatsdClient → StatsdClient
      submit m c = record c { buffer = append_metric m c.buffer }

      -- Submissions and flushes in any order; `none` is a flush. Over UDP no flush waits without end;
      -- over TCP and TLS nothing is said of what comes after the first that does.
      unfoldable pub run_all : List (Option M) → StatsdClient → StatsdClient
      run_all [] c = c
      run_all (some m ∷ os) c = run_all os (submit m c)
      run_all (none ∷ os) c = run_all os (flush c).1
