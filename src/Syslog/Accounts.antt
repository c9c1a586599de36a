-- ===== src/Syslog/Accounts.antt =====
-- security/audit/syslog_handler.py: no message is lost without being counted, or overtakes another.
use kuva_ai.Prelude.{
  ℕ, suc, ◌+◌, ◌≤◌, arith, ◌≡◌, refl, sym, ap, ◌∙◌, Bool, List, [], ◌∷◌, ◌++◌, append-nil,
  append_assoc, length, length-append,
}
use mathlib.Core.Path.{subst}
use kuva_ai.Exec.{Result}
use kuva_ai.Syslog.{
  Failure, WorkerState, testing, getting, hanging, dead, returned, SyslogHandler, after_message,
  Step, emitted, closed, join, tested, got, timed_out,
}
use kuva_ai.Syslog.Process.{Changed, IsSettled, was_sent, was_failed, hangs}

-- The message that a hanging thread holds
abbrev pub held : WorkerState → ℕ
held hanging = 1
held testing = 0
held getting = 0
held dead = 0
held returned = 0

module _ {M : Type 0} where
  -- The first list is the second less some of its elements.
  pub data Sublist : List M → List M → Type 0 where
    nothing : Sublist [] []
    keep : (x : M) {xs ys : List M} → Sublist xs ys → Sublist (x ∷ xs) (x ∷ ys)
    skip : (y : M) {xs ys : List M} → Sublist xs ys → Sublist xs (y ∷ ys)

  without_middle :
      (xs : List M) (m : M) (q ys : List M) → Sublist (xs ++ m ∷ q) ys → Sublist (xs ++ q) ys
  without_middle [] m q [] h = elim h [ ]
  without_middle (x ∷ xs) m q [] h = elim h [ ]
  without_middle [] m q (y ∷ ys) (keep _ h) = skip y h
  without_middle [] m q (y ∷ ys) (skip _ h) = skip y (without_middle [] m q ys h)
  without_middle (x ∷ xs) m q (y ∷ ys) (keep _ h) = keep x (without_middle xs m q ys h)
  without_middle (x ∷ xs) m q (y ∷ ys) (skip _ h) = skip y (without_middle (x ∷ xs) m q ys h)

  pub skip_last : (m : M) (xs ys : List M) → Sublist xs ys → Sublist xs (ys ++ m ∷ [])
  skip_last m _ _ nothing = skip m nothing
  skip_last m _ _ (keep x h) = keep x (skip_last m _ _ h)
  skip_last m _ _ (skip y h) = skip y (skip_last m _ _ h)

  pub keep_last : (m : M) (xs ys : List M) → Sublist xs ys → Sublist (xs ++ m ∷ []) (ys ++ m ∷ [])
  keep_last m _ _ nothing = keep m nothing
  keep_last m _ _ (keep x h) = keep x (keep_last m _ _ h)
  keep_last m _ _ (skip y h) = skip y (keep_last m _ _ h)

  -- What was emitted is sent, failed, dropped, queued or held; the socket got what was sent, and what it got
  -- and what is queued stand in the order of the calls of `emit`.
  pub record IsAccounted (queue_size : ℕ) (past : List M) (s : SyslogHandler M) : Type 0 where
    pub counted : length past ≡ s.sent + s.failed + s.queue_drops + length s.queue + held s.worker
    pub taken : length s.wire ≡ s.sent
    pub bounded : length s.queue ≤ queue_size
    pub ordered : Sublist (s.wire ++ s.queue) past

  abbrev pub messages : List (Step M) → List M
  messages [] = []
  messages (emitted m ∷ es) = m ∷ messages es
  messages (closed ∷ es) = messages es
  messages (join ∷ es) = messages es
  messages (tested ∷ es) = messages es
  messages (got ∷ es) = messages es
  messages (timed_out ∷ es) = messages es

  module _ (queue_size : ℕ) (past : List M) (m : M) (q : List M) (s : SyslogHandler M)
      (e : s.queue ≡ m ∷ q) (w : s.worker ≡ getting) (a : IsAccounted queue_size past s) where
    moved :
        (took : List M) (sent failed c : ℕ) (t : SyslogHandler M) (v : WorkerState)
        → Changed took sent failed c (record s { queue = q }) t
        → sent + failed + held v ≡ 1
        → length took ≡ sent
        → Sublist (t.wire ++ t.queue) past
        → IsAccounted queue_size past (record t { worker = v })
    moved took sent failed c t v h one same ordered =
        let queued : length s.queue ≡ suc (length q) = ap (λ (xs : List M). length xs) e in
        let none_held : held s.worker ≡ 0 = ap (λ v. held v) w in
        let same_queue : length t.queue ≡ length q = ap (λ (xs : List M). length xs) h.queue in
        let wire : length t.wire ≡ length s.wire + length took =
          ap (λ (xs : List M). length xs) h.wire ∙ length-append s.wire took in
        record {
          counted = omega (
            arith, a.counted, queued, none_held, same_queue, h.counts.0, h.counts.1, h.queue_drops,
            one,
          );
          taken = omega (arith, wire, a.taken, h.counts.0, same);
          bounded = omega (arith, a.bounded, queued, same_queue);
          ordered = ordered;
        }

    passed_over :
        (c failed : ℕ) (t : SyslogHandler M)
        → Changed [] 0 failed c (record s { queue = q }) t
        → Sublist (t.wire ++ t.queue) past
    passed_over c failed t h =
        let wire : t.wire ≡ s.wire = h.wire ∙ append-nil s.wire in
        rw (wire, h.queue)
          (without_middle s.wire m q past (subst (λ xs. Sublist (s.wire ++ xs) past) e a.ordered))

    pub settled :
        (works : ℕ → Bool) (retries c : ℕ) (x : Result Failure Unit × SyslogHandler M)
        → IsSettled m c (record s { queue = q }) x
        → IsAccounted queue_size past (after_message M works retries queue_size x)
    settled works retries c _ (was_sent t h) = moved (m ∷ []) 1 0 c t testing h (omega arith) refl (
        subst (λ xs. Sublist xs past)
          (sym (
            ap (λ v. v ++ t.queue) h.wire
            ∙ ap (λ v. (s.wire ++ m ∷ []) ++ v) h.queue
            ∙ append_assoc s.wire (m ∷ []) q))
          (subst (λ xs. Sublist (s.wire ++ xs) past) e a.ordered))
    settled works retries c _ (was_failed t h) =
        moved [] 0 1 c t testing h (omega arith) refl (passed_over c 1 t h)
    settled works retries c _ (hangs t h) =
        moved [] 0 0 c t hanging h (omega arith) refl (passed_over c 0 t h)
