-- ===== src/Syslog/Runs.antt =====
-- security/audit/syslog_handler.py: what holds of the handler after any steps of its callers and its worker.
use kuva_ai.Prelude.{
  ℕ, suc, ◌+◌, ◌≤◌, arith, ◌≡◌, refl, sym, ap, ◌∙◌, Bool, true, false, List, [], ◌∷◌, ◌++◌,
  append-nil, append_assoc, ltb, length, length-append, Bool-cases, inl, inr,
}
use mathlib.Core.Path.{subst}
use kuva_ai.Syslog.{
  WorkerState, testing, getting, hanging, dead, returned, SyslogHandler, new_handler, process,
  test_flag, get_from, time_out, emit, joined, Step, emitted, closed, join, tested, got, timed_out,
  step, run,
}
use kuva_ai.Syslog.Process.{send_loop-IsSettled}
use kuva_ai.Syslog.Accounts.{
  Sublist, nothing, skip_last, keep_last, held, IsAccounted, messages, settled,
}

module _ {M : Type 0} where
  -- What is emitted in a step
  abbrev message : Step M → List M
  message (emitted m) = m ∷ []
  message closed = []
  message join = []
  message tested = []
  message got = []
  message timed_out = []

  messages-cons : (e : Step M) (es : List (Step M)) → messages (e ∷ es) ≡ message e ++ messages es
  messages-cons (emitted m) es = refl
  messages-cons closed es = refl
  messages-cons join es = refl
  messages-cons tested es = refl
  messages-cons got es = refl
  messages-cons timed_out es = refl

  module _ (works : ℕ → Bool) (retries queue_size : ℕ) where
    emit-IsAccounted :
        (b : Bool) (past : List M) (m : M) (s : SyslogHandler M)
        → ltb (length s.queue) queue_size ≡ b
        → IsAccounted queue_size past s
        → IsAccounted queue_size (past ++ m ∷ []) (emit M works retries queue_size m s)
    unfolding emit
    emit-IsAccounted true past m s e a =
        let more : length (past ++ m ∷ []) ≡ length past + 1 = length-append past (m ∷ []) in
        let queued : length (s.queue ++ m ∷ []) ≡ length s.queue + 1 =
          length-append s.queue (m ∷ []) in
        let room : suc (length s.queue) ≤ queue_size = ground (arith, e) in
        rw e (record {
          counted = omega (arith, a.counted, more, queued);
          taken = a.taken;
          bounded = omega (arith, queued, room);
          ordered =
              subst (λ xs. Sublist xs (past ++ m ∷ [])) (append_assoc s.wire s.queue (m ∷ []))
                (keep_last m _ _ a.ordered);
        })
    emit-IsAccounted false past m s e a =
        let more : length (past ++ m ∷ []) ≡ length past + 1 = length-append past (m ∷ []) in
        rw e (record {
          counted = omega (arith, a.counted, more);
          taken = a.taken;
          bounded = a.bounded;
          ordered = skip_last m _ _ a.ordered;
        })

    -- A step that emits nothing and touches neither counters nor queue
    resumed :
        (past : List M) (s : SyslogHandler M) (v : WorkerState) (c f : Bool)
        → held v ≡ held s.worker
        → IsAccounted queue_size past s
        → IsAccounted queue_size past (record s { worker = v; is_connected = c; shutdown_flag = f })
    resumed past s v c f e a = record {
      counted = omega (arith, a.counted, e);
      taken = a.taken;
      bounded = a.bounded;
      ordered = a.ordered;
    }

    joined-IsAccounted :
        (w : WorkerState) (past : List M) (s : SyslogHandler M)
        → IsAccounted queue_size past s
        → IsAccounted queue_size past (joined M works retries queue_size w s)
    joined-IsAccounted dead past s a = resumed past s s.worker false s.shutdown_flag refl a
    joined-IsAccounted returned past s a = resumed past s s.worker false s.shutdown_flag refl a
    joined-IsAccounted testing past s a = a
    joined-IsAccounted getting past s a = a
    joined-IsAccounted hanging past s a = a

    test_flag-IsAccounted :
        (w : WorkerState) (past : List M) (s : SyslogHandler M)
        → s.worker ≡ w
        → IsAccounted queue_size past s
        → IsAccounted queue_size past (test_flag M works retries queue_size w s)
    test_flag-IsAccounted testing past s e a = elim (Bool-cases s.shutdown_flag) [
      | inl f ↦ rw f (resumed past s returned s.is_connected true (sym (ap (λ v. held v) e)) a)
      | inr f ↦ rw f (resumed past s getting s.is_connected false (sym (ap (λ v. held v) e)) a)
    ]
    test_flag-IsAccounted dead past s e a = a
    test_flag-IsAccounted returned past s e a = a
    test_flag-IsAccounted getting past s e a = a
    test_flag-IsAccounted hanging past s e a = a

    time_out-IsAccounted :
        (w : WorkerState) (q past : List M) (s : SyslogHandler M)
        → s.worker ≡ w
        → IsAccounted queue_size past s
        → IsAccounted queue_size past (time_out M works retries queue_size w q s)
    time_out-IsAccounted getting [] past s e a =
        resumed past s dead s.is_connected s.shutdown_flag (sym (ap (λ v. held v) e)) a
    time_out-IsAccounted getting (m ∷ q) past s e a = a
    time_out-IsAccounted testing q past s e a = a
    time_out-IsAccounted dead q past s e a = a
    time_out-IsAccounted returned q past s e a = a
    time_out-IsAccounted hanging q past s e a = a

    get_from-IsAccounted :
        (w : WorkerState) (q past : List M) (s : SyslogHandler M)
        → s.worker ≡ w
        → s.queue ≡ q
        → IsAccounted queue_size past s
        → IsAccounted queue_size past (get_from M works retries queue_size w q s)
    unfolding process
    get_from-IsAccounted getting (m ∷ q) past s w e a =
        settled queue_size past m q s e w a works retries _ _ (
          send_loop-IsSettled works retries queue_size retries 0 m (record s { queue = q })
            (omega arith))
    get_from-IsAccounted getting [] past s w e a = a
    get_from-IsAccounted testing q past s w e a = a
    get_from-IsAccounted dead q past s w e a = a
    get_from-IsAccounted returned q past s w e a = a
    get_from-IsAccounted hanging q past s w e a = a

    step-IsAccounted :
        (e : Step M) (past : List M) (s : SyslogHandler M)
        → IsAccounted queue_size past s
        → IsAccounted queue_size (past ++ message e) (step M works retries queue_size e s)
    unfolding step
    step-IsAccounted (emitted m) past s a = emit-IsAccounted _ past m s refl a
    step-IsAccounted closed past s a =
        rw (append-nil past) (resumed past s s.worker s.is_connected true refl a)
    step-IsAccounted join past s a = rw (append-nil past) (joined-IsAccounted s.worker past s a)
    step-IsAccounted tested past s a =
        rw (append-nil past) (test_flag-IsAccounted s.worker past s refl a)
    step-IsAccounted got past s a =
        rw (append-nil past) (get_from-IsAccounted s.worker s.queue past s refl refl a)
    step-IsAccounted timed_out past s a =
        rw (append-nil past) (time_out-IsAccounted s.worker s.queue past s refl a)

    run_from-IsAccounted :
        (es : List (Step M)) (past : List M) (s : SyslogHandler M)
        → IsAccounted queue_size past s
        → IsAccounted queue_size (past ++ messages es) (run M works retries queue_size es s)
    unfolding run
    run_from-IsAccounted [] past s a = rw (append-nil past) a
    run_from-IsAccounted (e ∷ es) past s a =
        subst (λ xs. IsAccounted queue_size xs (run M works retries queue_size (e ∷ es) s))
          (append_assoc past (message e) (messages es)
            ∙ ap (λ v. past ++ v) (sym (messages-cons e es)))
          (run_from-IsAccounted es (past ++ message e) (step M works retries queue_size e s)
            (step-IsAccounted e past s a))

    -- After any steps each emitted message is sent, failed, dropped, queued or held by a hanging thread; the
    -- queue is within its size, the socket took as many as were sent, and what it took and what is queued stand
    -- in the order in which they were emitted.
    pub run-IsAccounted :
        (es : List (Step M))
        → IsAccounted queue_size (messages es) (run M works retries queue_size es (new_handler M))
    run-IsAccounted es =
        run_from-IsAccounted es [] (new_handler M)
          (record { counted = omega arith; taken = refl; bounded = omega arith; ordered = nothing })
