-- ===== src/Statsd/Client.antt =====
-- observability/metrics/statsd.py: what the client counts, and what a connection does to it.
use kuva_ai.Prelude.{
  ℕ, ◌+◌, ◌≤◌, ◌<◌, arith, Bool, true, false, Option, none, some, List, [], ◌∷◌, length,
  length-append, ◌⊎◌, inl, inr, ◌&&◌, ◌++◌, all, all-append, append-nil, append_assoc, sym, ◌≡◌,
  ◌≢◌, refl, ap, ◌∙◌,
}
use kuva_ai.Exec.{Result, ok, err, continue}
use mathlib.Core.Path.{subst}
use kuva_ai.Statsd.Chunks.{concat, fits, chunks_of-fits, chunks_of-nonempty}
use kuva_ai.Statsd.{
  Protocol, attempt, send_over, StatsdConfig, udp, tcp, tls, Error, send_failed, encode_failed,
  left_at_error, send_or_fail, lock_never_released, StatsdClient, new_client, chunks_of, send,
  send_all, clear_buffer, flush, append_metric, submit, run_all,
}

module _ (M : Type 0) (size : M → ℕ) (cfg : StatsdConfig) (fails : ℕ → Bool)
    (encodes : M → Bool) where
  -- The counter `dropped` is zero, the buffer is within its size, and its metrics have an encoding.
  pub record IsCounted (c : StatsdClient M) : Type 0 where
    pub encodable : all encodes c.buffer ≡ true
    pub dropped : c.dropped ≡ 0
    pub room : length c.buffer ≤ cfg.buffer_size

  abbrev Drained : StatsdClient M → Type 0
  Drained c = (c.buffer ≡ []) × (c.dropped ≡ 0)

  attempt-Drained :
      (b : Bool) (k : List M) (c : StatsdClient M)
      → Drained c
      → Drained (attempt M size cfg fails encodes b k c).1
  attempt-Drained true k c h = h
  attempt-Drained false k c h = h

  over-Drained :
      (p : Protocol) (k : List M) (c : StatsdClient M)
      → Drained c
      → Drained (send_over M size cfg fails encodes p k c).1
  over-Drained udp k c h = attempt-Drained (fails c.sends) k c h
  over-Drained tcp k c h = h
  over-Drained tls k c h = h

  send-Drained :
      (k : List M) (c : StatsdClient M) → Drained c → Drained (send M size cfg fails encodes k c).1
  unfolding send
  send-Drained k c h = over-Drained cfg.protocol k c h

  continue-Drained :
      (k : StatsdClient M → Result Error Unit × StatsdClient M)
      → ((c : StatsdClient M) → Drained c → Drained (k c).1)
      → (x : Result Error Unit × StatsdClient M) → Drained x.1
      → Drained (continue (λ _. k) x).1
  continue-Drained k h (ok u, c) d = h c d
  continue-Drained k h (err e, c) d = d

  send_all-Drained :
      (ks : List (List M)) (c : StatsdClient M)
      → Drained c
      → Drained (send_all M size cfg fails encodes ks c).1
  unfolding send_all
  send_all-Drained [] c h = h
  send_all-Drained (k ∷ ks) c h =
      continue-Drained _ (send_all-Drained ks) (send M size cfg fails encodes k c)
        (send-Drained k c h)

  clear-Drained :
      (x : Result Error Unit × StatsdClient M)
      → Drained x.1
      → Drained (clear_buffer M size cfg fails encodes x).1
  unfolding clear_buffer
  clear-Drained (ok u, c) h = h
  clear-Drained (err send_failed, c) (b, d) =
      (refl, ap (λ l. c.dropped + length l) b ∙ ap (λ n. n + 0) d)
  clear-Drained (err encode_failed, c) (b, d) =
      (refl, ap (λ l. c.dropped + length l) b ∙ ap (λ n. n + 0) d)
  clear-Drained (err lock_never_released, c) h = h

  length-append_metric :
      (m : M) (ms : List M)
      → 0 < cfg.buffer_size
      → length ms ≤ cfg.buffer_size
      → length (append_metric M size cfg fails encodes m ms) ≤ cfg.buffer_size
  unfolding append_metric
  length-append_metric m [] p h = ground arith
  length-append_metric m (n ∷ ms) p h =
      ground (arith, length-append (n ∷ ms) (m ∷ []), length-append ms (m ∷ []))

  left_at_error-none :
      (ms : List M) → all encodes ms ≡ true → left_at_error M size cfg fails encodes ms ≡ none
  left_at_error-none [] h = refl
  left_at_error-none (m ∷ ms) h = ground (arith, h, left_at_error-none ms)

  all-drop_append :
      (m : M) (ms : List M)
      → encodes m ≡ true
      → all encodes ms ≡ true
      → all encodes (append_metric M size cfg fails encodes m ms) ≡ true
  unfolding append_metric
  all-drop_append m [] e h = ground (arith, e)
  all-drop_append m (n ∷ ms) e h =
      ground (arith, e, h, all-append encodes ms (m ∷ []), all-append encodes (n ∷ ms) (m ∷ []))

  -- Where all metrics have an encoding, `flush` sends the chunks.
  flush_encoded :
      (c : StatsdClient M)
      → all encodes c.buffer ≡ true
      → flush M size cfg fails encodes c
        ≡ clear_buffer M size cfg fails encodes (
            send_all M size cfg fails encodes
              (chunks_of M size cfg [] 0 c.buffer)
              (record c { buffer = [] }))
  unfolding flush
  flush_encoded c h =
      ap (λ o. clear_buffer M size cfg fails encodes (send_or_fail M size cfg fails encodes o c))
        (left_at_error-none c.buffer h)

  flush-IsCounted :
      (c : StatsdClient M) → IsCounted c → IsCounted (flush M size cfg fails encodes c).1
  flush-IsCounted c h =
      let x =
        send_all M size cfg fails encodes (chunks_of M size cfg [] 0 c.buffer)
          (record c { buffer = [] }) in
      let (b, d) = clear-Drained x (send_all-Drained _ _ (refl, h.dropped)) in
      subst (λ (y : Result Error Unit × StatsdClient M). IsCounted y.1)
        (sym (flush_encoded c h.encodable))
        (record { encodable = ap (all encodes) b; dropped = d; room = omega (arith, ap length b) })

  -- All metrics that are submitted have an encoding.
  abbrev pub all_encode : List (Option M) → Bool
  all_encode [] = true
  all_encode (some m ∷ os) = encodes m && all_encode os
  all_encode (none ∷ os) = all_encode os

  run-IsCounted :
      0 < cfg.buffer_size
      → (os : List (Option M)) (c : StatsdClient M) → all_encode os ≡ true
      → IsCounted c
      → IsCounted (run_all M size cfg fails encodes os c)
  unfolding run_all submit
  run-IsCounted p [] c e h = h
  run-IsCounted p (some m ∷ os) c e h = run-IsCounted p os _ (ground (arith, e)) (record {
    encodable = all-drop_append m c.buffer (ground (arith, e)) h.encodable;
    dropped = h.dropped;
    room = length-append_metric m c.buffer p h.room;
  })
  run-IsCounted p (none ∷ os) c e h = run-IsCounted p os _ e (flush-IsCounted c h)

  -- With a positive `buffer_size`, after any submissions of metrics that have an encoding and any flushes,
  -- whatever the socket raises, the buffer is within its size, and the counter of dropped metrics is zero.
  pub run_all-IsCounted :
      0 < cfg.buffer_size
      → (os : List (Option M)) → all_encode os ≡ true
      → IsCounted (run_all M size cfg fails encodes os (new_client M))
  run_all-IsCounted p os e =
      run-IsCounted p os (new_client M) e
        (record { encodable = refl; dropped = refl; room = omega arith })

  -- What was sent, and what was not since a send raised.
  pub record IsSplit (ks : List (List M)) (c : StatsdClient M)
      (x : Result Error Unit × StatsdClient M) : Type 0 where
    pub sent : List (List M)
    pub unsent : List (List M)
    pub parts : ks ≡ sent ++ unsent
    pub wire : x.1.wire ≡ c.wire ++ sent
    pub ending : (unsent ≡ []) ⊎ (x.0 ≡ err send_failed)

  after_send :
      (b : Bool) (k : List M) (ks : List (List M)) (c : StatsdClient M)
      → ((d : StatsdClient M) → IsSplit ks d (send_all M size cfg fails encodes ks d))
      → IsSplit (k ∷ ks) c (
          continue
            (λ _. send_all M size cfg fails encodes ks)
            (attempt M size cfg fails encodes b k c))
  after_send true k ks c h = record {
    sent = [];
    unsent = k ∷ ks;
    parts = refl;
    wire = sym (append-nil c.wire);
    ending = inr refl;
  }
  after_send false k ks c h =
      let r = h (record c { sent = c.sent + 1; wire = c.wire ++ k ∷ []; sends = c.sends + 1 }) in
      record {
        sent = k ∷ r.sent;
        unsent = r.unsent;
        parts = ap (λ xs. k ∷ xs) r.parts;
        wire = r.wire ∙ append_assoc c.wire (k ∷ []) r.sent;
        ending = r.ending;
      }

  over_udp :
      (p : Protocol) (k : List M) (c : StatsdClient M)
      → p ≡ udp
      → send_over M size cfg fails encodes p k c
        ≡ attempt M size cfg fails encodes (fails c.sends) k c
  over_udp udp k c e = refl
  over_udp tcp k c e = absurd (cc)
  over_udp tls k c e = absurd (cc)

  send_all-IsSplit :
      cfg.protocol ≡ udp
      → (ks : List (List M)) (c : StatsdClient M)
      → IsSplit ks c (send_all M size cfg fails encodes ks c)
  unfolding send_all send
  send_all-IsSplit e [] c = record {
    sent = [];
    unsent = [];
    parts = refl;
    wire = sym (append-nil c.wire);
    ending = inl refl;
  }
  send_all-IsSplit e (k ∷ ks) c =
      subst (λ x. IsSplit (k ∷ ks) c (continue (λ _. send_all M size cfg fails encodes ks) x))
        (sym (over_udp cfg.protocol k c e))
        (after_send (fails c.sends) k ks c (send_all-IsSplit e ks))

  with_buffer :
      (ks : List (List M)) (c : StatsdClient M) (x : Result Error Unit × StatsdClient M)
      → IsSplit ks (record c { buffer = [] }) x
      → IsSplit ks c x
  with_buffer ks c x h = record {
    sent = h.sent;
    unsent = h.unsent;
    parts = h.parts;
    wire = h.wire;
    ending = h.ending;
  }

  clear-IsSplit :
      (ks : List (List M)) (c : StatsdClient M) (x : Result Error Unit × StatsdClient M)
      → IsSplit ks c x
      → IsSplit ks c (clear_buffer M size cfg fails encodes x)
  unfolding clear_buffer
  clear-IsSplit ks c (ok u, d) h = h
  clear-IsSplit ks c (err send_failed, d) h = record {
    sent = h.sent;
    unsent = h.unsent;
    parts = h.parts;
    wire = h.wire;
    ending = h.ending;
  }
  clear-IsSplit ks c (err encode_failed, d) h = record {
    sent = h.sent;
    unsent = h.unsent;
    parts = h.parts;
    wire = h.wire;
    ending = h.ending;
  }
  clear-IsSplit ks c (err lock_never_released, d) h = h

  -- Over UDP a flush of metrics that have an encoding sends the first of some chunks; these hold every
  -- buffered metric once, in order, and each fits into a datagram or is a single metric. All were
  -- sent, or the flush raises what a send raised.
  pub flush-sends :
      cfg.protocol ≡ udp
      → (c : StatsdClient M) → all encodes c.buffer ≡ true
      → (sent unsent : List (List M)) × ((flush M size cfg fails encodes c).1.wire ≡ c.wire ++ sent)
        × (concat M size cfg (sent ++ unsent) ≡ c.buffer)
        × (all (fits M size cfg) (sent ++ unsent) ≡ true)
        × ((unsent ≡ []) ⊎ ((flush M size cfg fails encodes c).0 ≡ err send_failed))
  flush-sends e c h =
      let (whole, fitting) = chunks_of-fits M size cfg c.buffer in
      let r = subst (IsSplit (chunks_of M size cfg [] 0 c.buffer) c) (sym (flush_encoded c h)) (
        clear-IsSplit _ c _
          (with_buffer _ c _ (send_all-IsSplit e _ (record c { buffer = [] })))) in
      (
        r.sent,
        r.unsent,
        r.wire,
        ap (concat M size cfg) (sym r.parts) ∙ whole,
        ap (all (fits M size cfg)) (sym r.parts) ∙ fitting,
        r.ending,
      )

  over-blocks :
      (p : Protocol) (k : List M) (c : StatsdClient M)
      → p ≢ udp
      → send_over M size cfg fails encodes p k c ≡ (err lock_never_released, c)
  over-blocks udp k c h = absurd (h refl)
  over-blocks tcp k c h = refl
  over-blocks tls k c h = refl

  -- With TCP or TLS a flush of a buffer that is not empty, with metrics that have an encoding, never
  -- returns, and sends nothing: it waits for the lock that it holds.
  pub flush_blocks :
      (c : StatsdClient M) (m : M) (ms : List M)
      → cfg.protocol ≢ udp
      → c.buffer ≡ m ∷ ms
      → all encodes c.buffer ≡ true
      → flush M size cfg fails encodes c ≡ (err lock_never_released, record c { buffer = [] })
  unfolding send_all send clear_buffer
  flush_blocks c m ms h e g =
      let d : StatsdClient M = record c { buffer = [] } in
      let (k, ks, f) = chunks_of-nonempty M size cfg m ms in
      flush_encoded c g
      ∙ ap
          (λ b.
            clear_buffer M size cfg fails encodes
              (send_all M size cfg fails encodes (chunks_of M size cfg [] 0 b) d))
          e
      ∙ ap (λ l. clear_buffer M size cfg fails encodes (send_all M size cfg fails encodes l d)) f
      ∙ ap
          (λ x.
            clear_buffer M size cfg fails encodes
              (continue (λ _. send_all M size cfg fails encodes ks) x))
          (over-blocks cfg.protocol k d h)
