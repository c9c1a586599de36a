-- ===== src/Syslog/Process.antt =====
-- security/audit/syslog_handler.py: what the worker does with one message.
use mathlib.Core.Path.{subst}
use kuva_ai.Prelude.{
  ℕ, zero, suc, ◌+◌, ◌*◌, ◌≤◌, arith, ◌≡◌, refl, sym, ap, ◌∙◌, Bool, true, false, List, [], ◌∷◌,
  ◌++◌, append-nil, eqb,
}
use kuva_ai.Exec.{Result, ok, err, continue, ◌>>=◌, ◌>>◌}
use kuva_ai.Syslog.{
  Failure, call_failed, lock_never_released, SyslogHandler, Action, ask, connected_if, connect_if,
  connect, sent_if, send, give_up_or_wait, retry_or, send_loop,
}

module _ {M : Type 0} where
  -- From `s` to `t`: what the socket took, how many were counted as sent and as failed, and at most this many
  -- calls of the socket; the queue is as before.
  pub record Changed (taken : List M) (sent failed budget : ℕ) (s t : SyslogHandler M)
      : Type 0 where
    pub queue : t.queue ≡ s.queue
    pub queue_drops : t.queue_drops ≡ s.queue_drops
    pub wire : t.wire ≡ s.wire ++ taken
    pub counts : (t.sent ≡ s.sent + sent) × (t.failed ≡ s.failed + failed)
    pub calls : t.calls ≤ s.calls + budget

  Changed-after :
      {w : List M} {a b c d : ℕ} {s t u : SyslogHandler M}
      → Changed [] 0 0 c s t
      → Changed w a b d t u
      → Changed w a b (c + d) s u
  Changed-after {w} {s = s} h r = record {
    queue = r.queue ∙ h.queue;
    queue_drops = r.queue_drops ∙ h.queue_drops;
    wire = r.wire ∙ ap (λ xs. xs ++ w) (h.wire ∙ append-nil s.wire);
    counts = (omega (arith, r.counts.0, h.counts.0), omega (arith, r.counts.1, h.counts.1));
    calls = omega (arith, r.calls, h.calls);
  }

  Changed-more :
      {w : List M} {a b c d : ℕ} {s t : SyslogHandler M}
      → c ≤ d
      → Changed w a b c s t
      → Changed w a b d s t
  Changed-more le h = record {
    queue = h.queue;
    queue_drops = h.queue_drops;
    wire = h.wire;
    counts = h.counts;
    calls = omega (arith, le, h.calls);
  }

  -- An attempt
  data Attempted (m : M) (s : SyslogHandler M)
      : Result Failure Unit × SyslogHandler M → Type 0 where
    delivered : (t : SyslogHandler M) → Changed (m ∷ []) 1 0 2 s t → Attempted m s (ok tt, t)
    broken : (t : SyslogHandler M) → Changed [] 0 0 2 s t → Attempted m s (err call_failed, t)
    blocked :
        (t : SyslogHandler M) → Changed [] 0 0 2 s t → Attempted m s (err lock_never_released, t)

  -- A message: it was sent, or counted as failed, or the thread waits for ever.
  pub data IsSettled (m : M) (budget : ℕ) (s : SyslogHandler M)
      : Result Failure Unit × SyslogHandler M → Type 0 where
    was_sent :
        (t : SyslogHandler M) → Changed (m ∷ []) 1 0 budget s t → IsSettled m budget s (ok tt, t)
    was_failed : (t : SyslogHandler M) → Changed [] 0 1 budget s t → IsSettled m budget s (ok tt, t)
    hangs :
        (t : SyslogHandler M)
        → Changed [] 0 0 budget s t
        → IsSettled m budget s (err lock_never_released, t)

  later :
      (m : M) (c d : ℕ) (s t : SyslogHandler M) (x : Result Failure Unit × SyslogHandler M)
      → Changed [] 0 0 c s t
      → IsSettled m d t x
      → IsSettled m (c + d) s x
  later m c d s t _ h (was_sent u r) = was_sent u (Changed-after h r)
  later m c d s t _ h (was_failed u r) = was_failed u (Changed-after h r)
  later m c d s t _ h (hangs u r) = hangs u (Changed-after h r)

  module _ (works : ℕ → Bool) (retries queue_size : ℕ) where
    unchanged :
        (s : SyslogHandler M) (is_connected : Bool) (n : ℕ)
        → n ≤ 2 + s.calls
        → Changed [] 0 0 2 s (record s { is_connected = is_connected; calls = n })
    unchanged s b n h = record {
      queue = refl;
      queue_drops = refl;
      wire = sym (append-nil s.wire);
      counts = (omega arith, omega arith);
      calls = omega (arith, h);
    }

    sent_if-Attempted :
        (w b : Bool) (n : ℕ) (m : M) (s : SyslogHandler M)
        → n ≤ 2 + s.calls
        → Attempted m s
            (sent_if M works retries queue_size m w (record s { is_connected = b; calls = n }))
    sent_if-Attempted true b n m s h = delivered _ (record {
      queue = refl;
      queue_drops = refl;
      wire = refl;
      counts = (omega arith, omega arith);
      calls = omega (arith, h);
    })
    sent_if-Attempted false b n m s h = broken _ (unchanged s b n h)

    connected :
        (w : Bool) (m : M) (s : SyslogHandler M)
        → Attempted m s (
            continue
              (λ _. ask M works retries queue_size >>= sent_if M works retries queue_size m)
              (connected_if M works retries queue_size w (record s { calls = suc s.calls })))
    connected true m s =
        sent_if-Attempted (works (suc s.calls)) true (suc (suc s.calls)) m s (omega arith)
    connected false m s = blocked _ (unchanged s s.is_connected (suc s.calls) (omega arith))

    attempted :
        (b : Bool) (m : M) (s : SyslogHandler M)
        → s.is_connected ≡ b
        → Attempted m s (
            continue
              (λ _. ask M works retries queue_size >>= sent_if M works retries queue_size m)
              (connect_if M works retries queue_size b s))
    attempted true m s e =
        sent_if-Attempted (works s.calls) s.is_connected (suc s.calls) m s (omega arith)
    attempted false m s e = connected (works s.calls) m s

    send-Attempted :
        (m : M) (s : SyslogHandler M) → Attempted m s (send M works retries queue_size m s)
    unfolding send connect
    send-Attempted m s = attempted s.is_connected m s refl

    lost :
        (m : M) (c : ℕ) (s t : SyslogHandler M)
        → Changed [] 0 0 c s t
        → IsSettled m c s (ok tt, record t { failed = suc t.failed; is_connected = false })
    lost m c s t h = was_failed _ (record {
      queue = h.queue;
      queue_drops = h.queue_drops;
      wire = h.wire;
      counts = (h.counts.0, omega (arith, h.counts.1));
      calls = h.calls;
    })

    cut :
        (s t : SyslogHandler M) (c : ℕ)
        → Changed [] 0 0 c s t
        → Changed [] 0 0 c s (record t { is_connected = false })
    cut s t c h = record {
      queue = h.queue;
      queue_drops = h.queue_drops;
      wire = h.wire;
      counts = h.counts;
      calls = h.calls;
    }

    last_attempt :
        (b : Bool) (c attempt : ℕ) (m : M) (s t : SyslogHandler M)
        → b ≡ true
        → Changed [] 0 0 c s t
        → IsSettled m c s (
            (give_up_or_wait M works retries queue_size b
                >> send_loop M works retries queue_size m zero attempt)
              t)
    unfolding send_loop
    last_attempt true c attempt m s t e h = lost m c s t h
    last_attempt false c attempt m s t e h = absurd (cc)

    by_last :
        (attempt c : ℕ) (m : M) (s : SyslogHandler M) (x : Result Failure Unit × SyslogHandler M)
        → attempt ≡ retries
        → 2 ≤ c
        → Attempted m s x
        → IsSettled m c s (
            retry_or M works retries queue_size attempt
              (send_loop M works retries queue_size m zero (suc attempt))
              x)
    by_last attempt c m s _ e le (delivered t h) = was_sent t (Changed-more le h)
    by_last attempt c m s _ e le (blocked t h) = hangs t (Changed-more le h)
    by_last attempt c m s _ e le (broken t h) =
        last_attempt (eqb attempt retries) c (suc attempt) m s t (ground (arith, e))
          (Changed-more le h)

    next_attempt :
        (b : Bool) (c d : ℕ) (k : Action M Unit) (m : M) (s t : SyslogHandler M)
        → b ≡ false
        → ((u : SyslogHandler M) → IsSettled m d u (k u))
        → Changed [] 0 0 c s t
        → IsSettled m (c + d) s ((give_up_or_wait M works retries queue_size b >> k) t)
    next_attempt true c d k m s t e rest h = absurd (cc)
    next_attempt false c d k m s t e rest h = later m c d s _ _ (cut s t c h) (rest _)

    by_next :
        (attempt d : ℕ) (k : Action M Unit) (m : M) (s : SyslogHandler M)
        (x : Result Failure Unit × SyslogHandler M)
        → eqb attempt retries ≡ false
        → ((u : SyslogHandler M) → IsSettled m d u (k u))
        → Attempted m s x
        → IsSettled m (2 + d) s (retry_or M works retries queue_size attempt k x)
    by_next attempt d k m s _ e rest (delivered t h) = was_sent t (Changed-more (omega arith) h)
    by_next attempt d k m s _ e rest (blocked t h) = hangs t (Changed-more (omega arith) h)
    by_next attempt d k m s _ e rest (broken t h) =
        next_attempt (eqb attempt retries) 2 d k m s t e rest h

    -- A loop that begins with attempt 0 settles the message.
    pub send_loop-IsSettled :
        (left attempt : ℕ) (m : M) (s : SyslogHandler M)
        → attempt + left ≡ retries
        → IsSettled m (2 * suc left) s (send_loop M works retries queue_size m (suc left) attempt s)
    unfolding send_loop
    send_loop-IsSettled zero attempt m s e =
        by_last attempt (2 * 1) m s (send M works retries queue_size m s) (omega (arith, e))
          (omega arith) (send-Attempted m s)
    send_loop-IsSettled (suc left) attempt m s e =
        subst
          (λ c. IsSettled m c s (send_loop M works retries queue_size m (suc (suc left)) attempt s))
          (omega arith)
          (by_next attempt (2 * suc left) _ m s (send M works retries queue_size m s)
            (ground (arith, e)) (λ u. send_loop-IsSettled left (suc attempt) m u (omega (arith, e)))
            (send-Attempted m s))
