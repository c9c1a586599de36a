-- ===== src/Syslog/Silence.antt =====
-- security/audit/syslog_handler.py: what ends the worker for good.
use kuva_ai.Prelude.{
  ℕ, suc, ◌≡◌, refl, ap, ◌∙◌, Bool, true, false, List, [], ◌∷◌, ltb, length, Bool-cases, inl, inr,
}
use kuva_ai.Syslog.{
  WorkerState, testing, getting, hanging, dead, returned, SyslogHandler, connect, send, send_loop,
  process, test_flag, get_from, time_out, emit, joined, Step, emitted, closed, join, tested, got,
  timed_out, step, run,
}

-- The thread will not run again.
abbrev pub is_over : WorkerState → Bool
is_over testing = false
is_over getting = false
is_over hanging = true
is_over dead = true
is_over returned = true

module _ {M : Type 0} where
  -- The worker did nothing between these states.
  pub record IsIdle (s t : SyslogHandler M) : Type 0 where
    pub worker : t.worker ≡ s.worker
    pub wire : t.wire ≡ s.wire
    pub sent : t.sent ≡ s.sent
    pub failed : t.failed ≡ s.failed
    pub calls : t.calls ≡ s.calls

  same : (s : SyslogHandler M) → IsIdle s s
  same s = record { worker = refl; wire = refl; sent = refl; failed = refl; calls = refl }

  IsIdle_trans : (s t u : SyslogHandler M) → IsIdle s t → IsIdle t u → IsIdle s u
  IsIdle_trans s t u g h = record {
    worker = h.worker ∙ g.worker;
    wire = h.wire ∙ g.wire;
    sent = h.sent ∙ g.sent;
    failed = h.failed ∙ g.failed;
    calls = h.calls ∙ g.calls;
  }

  module _ (works : ℕ → Bool) (retries queue_size : ℕ) where
    emit-IsIdle : (m : M) (s : SyslogHandler M) → IsIdle s (emit M works retries queue_size m s)
    unfolding emit
    emit-IsIdle m s = elim (Bool-cases (ltb (length s.queue) queue_size)) [
      | inl e ↦
          rw e (record { worker = refl; wire = refl; sent = refl; failed = refl; calls = refl })
      | inr e ↦
          rw e (record { worker = refl; wire = refl; sent = refl; failed = refl; calls = refl })
    ]

    joined-IsIdle :
        (w : WorkerState) (s : SyslogHandler M) → IsIdle s (joined M works retries queue_size w s)
    joined-IsIdle dead s = record {
      worker = refl;
      wire = refl;
      sent = refl;
      failed = refl;
      calls = refl;
    }
    joined-IsIdle returned s = record {
      worker = refl;
      wire = refl;
      sent = refl;
      failed = refl;
      calls = refl;
    }
    joined-IsIdle testing s = same s
    joined-IsIdle getting s = same s
    joined-IsIdle hanging s = same s

    over-IsIdle :
        (w : WorkerState) (q : List M) (s : SyslogHandler M)
        → is_over w ≡ true
        → IsIdle s (test_flag M works retries queue_size w s)
          × IsIdle s (get_from M works retries queue_size w q s)
          × IsIdle s (time_out M works retries queue_size w q s)
    over-IsIdle testing q s e = absurd (cc)
    over-IsIdle getting q s e = absurd (cc)
    over-IsIdle hanging q s e = (same s, same s, same s)
    over-IsIdle dead q s e = (same s, same s, same s)
    over-IsIdle returned q s e = (same s, same s, same s)

    step-IsIdle :
        (e : Step M) (s : SyslogHandler M)
        → is_over s.worker ≡ true
        → IsIdle s (step M works retries queue_size e s)
    unfolding step
    step-IsIdle (emitted m) s h = emit-IsIdle m s
    step-IsIdle closed s h = record {
      worker = refl;
      wire = refl;
      sent = refl;
      failed = refl;
      calls = refl;
    }
    step-IsIdle join s h = joined-IsIdle s.worker s
    step-IsIdle tested s h = (over-IsIdle s.worker s.queue s h).0
    step-IsIdle got s h = (over-IsIdle s.worker s.queue s h).1
    step-IsIdle timed_out s h = (over-IsIdle s.worker s.queue s h).2

    run-IsIdle :
        (es : List (Step M)) (s : SyslogHandler M)
        → is_over s.worker ≡ true
        → IsIdle s (run M works retries queue_size es s)
    unfolding run
    run-IsIdle [] s h = same s
    run-IsIdle (e ∷ es) s h =
        let g = step-IsIdle e s h in
        IsIdle_trans s _ _ g (run-IsIdle es _ (ap (λ w. is_over w) g.worker ∙ h))

    timed_out_over :
        (s : SyslogHandler M)
        → s.worker ≡ getting
        → s.queue ≡ []
        → step M works retries queue_size timed_out s ≡ record s { worker = dead }
    unfolding step
    timed_out_over s w q = rw (w, q) refl

    got_blocked :
        (s : SyslogHandler M) (m : M) (q : List M)
        → s.worker ≡ getting
        → s.queue ≡ m ∷ q
        → s.is_connected ≡ false
        → works s.calls ≡ false
        → step M works retries queue_size got s
          ≡ record s { queue = q; calls = suc s.calls; worker = hanging }
    unfolding step process send_loop send connect
    got_blocked s m q w e c f = rw (w, e, c, f) refl

    -- Once `queue.get` has waited for a second without a message, or a connection has failed, nothing is ever
    -- sent again.
    pub run-silent :
        (es : List (Step M)) (s : SyslogHandler M)
        → s.worker ≡ getting
        → s.queue ≡ []
        → (run M works retries queue_size (timed_out ∷ es) s).wire ≡ s.wire
    unfolding run
    run-silent es s w q =
        ap (λ t. (run M works retries queue_size es t).wire) (timed_out_over s w q)
        ∙ (run-IsIdle es (record s { worker = dead }) refl).wire

    pub run-blocked :
        (es : List (Step M)) (m : M) (q : List M) (s : SyslogHandler M)
        → s.worker ≡ getting
        → s.queue ≡ m ∷ q
        → s.is_connected ≡ false
        → works s.calls ≡ false
        → (run M works retries queue_size (got ∷ es) s).wire ≡ s.wire
    unfolding run
    run-blocked es m q s w e c f =
        ap (λ t. (run M works retries queue_size es t).wire) (got_blocked s m q w e c f)
        ∙ (run-IsIdle es (record s { queue = q; calls = suc s.calls; worker = hanging }) refl).wire
