-- ===== src/Kafka/Loop.antt =====
-- communication/event_stream/kafka/consumer_group.py: the loop, as far as the offsets show it, and its end.
use mathlib.Core.Path.{subst}
use kuva_ai.Prelude.{
  ℕ, ◌≡◌, refl, sym, ap, ◌∙◌, String, Bool, true, false, some, List, [], ◌∷◌, Bool-cases, inl, inr,
}
use kuva_ai.Dict.{Dict}
use kuva_ai.Exec.{Result, ok, err, raise, modify, continue, Result-cases}
use kuva_ai.Kafka.{
  Message, invalid, Poll, idle, consumer_error, close_call, polled, ConsumerConfig, Outside, Error,
  name_error, Position, Partitions, ConsumerGroup, Action,
}
use kuva_ai.Kafka.Group.{
  topic_partition, partition_list, commit_list, commit_offsets, send_to_dlq, process_message, close,
  close_if, consume, if_running, loop, run_consumption_loop,
}
use kuva_ai.Kafka.Commits.{noted, commit_offsets-same, commit_list-ok}
use kuva_ai.Kafka.Offsets.{last_processed, OnReturn, consume-Return}

module _ (out : Outside) (cfg : ConsumerConfig) where
  close_if-offsets :
      (b : Bool) (s : ConsumerGroup)
      → ((close_if out cfg b s).1.running ≡ s.running)
        × ((close_if out cfg b s).1.offset_commits ≡ s.offset_commits)
  close_if-offsets false s = (refl, refl)
  close_if-offsets true s = after (commit_offsets s) (commit_offsets-same s)
    where
      after :
          (x : Result Error Unit × ConsumerGroup)
          → x.1 ≡ s
          → ((continue (λ _. modify (λ c. record c { closed = true })) x).1.running ≡ s.running)
            × ((continue {B = Unit}
                  (λ _. modify (λ c. record c { closed = true }))
                  x).1.offset_commits
                ≡ s.offset_commits)
      after (ok u, c) e =
          (ap (λ (k : ConsumerGroup). k.running) e, ap (λ (k : ConsumerGroup). k.offset_commits) e)
      after (err f, c) e =
          (ap (λ (k : ConsumerGroup). k.running) e, ap (λ (k : ConsumerGroup). k.offset_commits) e)

  close-offsets :
      (s : ConsumerGroup)
      → ((close out cfg s).1.running ≡ false)
        × ((close out cfg s).1.offset_commits ≡ s.offset_commits)
  unfolding close
  close-offsets s = close_if-offsets s.has_consumer (record s { running = false })

  if_running-true :
      (b : Bool) (m : Action Bool) (s : ConsumerGroup) → b ≡ true → if_running out cfg b m s ≡ m s
  if_running-true true m s e = refl
  if_running-true false m s e = absurd (cc)

  if_running-false :
      (b : Bool) (m : Action Bool) (s : ConsumerGroup)
      → b ≡ false
      → (if_running out cfg b m s).1 ≡ s
  if_running-false true m s e = absurd (cc)
  if_running-false false m s e = refl

  loop_stopped :
      (ps : List Poll) (s : ConsumerGroup) → s.running ≡ false → (loop out cfg ps s).1 ≡ s
  unfolding loop
  loop_stopped [] s e = refl
  loop_stopped (p ∷ ps) s e = if_running-false s.running _ s e

  loop_step :
      (p : Poll) (ps : List Poll) (s : ConsumerGroup)
      → s.running ≡ true
      → loop out cfg (p ∷ ps) s ≡ continue (λ _. loop out cfg ps) (consume out cfg p s)
  unfolding loop
  loop_step p ps s e = if_running-true s.running _ s e

  module _ (t : String) (p : ℕ) where
    abbrev pub Noted : List Poll → ConsumerGroup → Result Error Bool × ConsumerGroup → Type 0
    Noted ps s x =
        (b : Bool)
        → x.0 ≡ ok b
        → noted t p x.1.offset_commits
          ≡ last_processed out cfg t p s.seen ps (noted t p s.offset_commits)

    taken :
        (m : Message) (ps : List Poll) (s : ConsumerGroup)
        → s.running ≡ true
        → ((s1 : ConsumerGroup) → s1.running ≡ true → Noted ps s1 (loop out cfg ps s1))
        → (x : Result Error Unit × ConsumerGroup) → OnReturn out cfg t p (out.outcome s.seen) m s x
        → Noted (polled m ∷ ps) s (continue (λ _. loop out cfg ps) x)
    unfolding last_processed
    taken m ps s r ih (err e, s1) h b f = absurd (cc)
    taken m ps s r ih (ok u, s1) h b f = ih s1 (h.runs ∙ r) b f ∙ rw (h.one_more, h.notes) refl

    loop-Noted :
        (ps : List Poll) (s : ConsumerGroup) → s.running ≡ true → Noted ps s (loop out cfg ps s)
    unfolding last_processed loop consume
    loop-Noted [] s r = λ b f. refl
    loop-Noted (idle ∷ ps) s r =
        subst (Noted (idle ∷ ps) s) (sym (loop_step idle ps s r)) (loop-Noted ps s r)
    loop-Noted (consumer_error ∷ ps) s r =
        subst (Noted (consumer_error ∷ ps) s) (sym (loop_step consumer_error ps s r))
          (loop-Noted ps s r)
    loop-Noted (close_call ∷ ps) s r =
        let (stopped, same) = close-offsets s in
        subst (Noted (close_call ∷ ps) s) (sym (loop_step close_call ps s r)) (λ b f.
          ap (noted t p) (
            ap (λ (k : ConsumerGroup). k.offset_commits)
              (loop_stopped ps (close out cfg s).1 stopped)
            ∙ same))
    loop-Noted (polled m ∷ ps) s r =
        subst (Noted (polled m ∷ ps) s) (sym (loop_step (polled m) ps s r)) (
          taken m ps s r (loop-Noted ps) (consume out cfg (polled m) s)
            (consume-Return out cfg t p m s))

    -- As long as nothing is raised, the offset that is noted for a partition is that of its last message
    -- whose first attempt succeeded, also if messages before it failed; a message that a retry processed
    -- leaves none.
    pub loop-noted :
        (ps : List Poll) (s : ConsumerGroup) (b : Bool)
        → s.running ≡ true
        → (loop out cfg ps s).0 ≡ ok b
        → noted t p (loop out cfg ps s).1.offset_commits
          ≡ last_processed out cfg t p s.seen ps (noted t p s.offset_commits)
    loop-noted ps s b r f = loop-Noted ps s r b f

  partition_list-error :
      (t : String) (d : List (ℕ × ℕ)) (rest : Result Error (List Position)) (e : Error)
      → ((f : Error) → rest ≡ err f → f ≡ name_error)
      → partition_list t d rest ≡ err e
      → e ≡ name_error
  unfolding partition_list topic_partition
  partition_list-error t [] rest e h f = h e f
  partition_list-error t ((p, o) ∷ d) rest e h f = cc

  commit_list-error : (d : Dict Partitions) (e : Error) → commit_list d ≡ err e → e ≡ name_error
  unfolding commit_list
  commit_list-error [] e f = absurd (cc)
  commit_list-error ((t, d) ∷ ts) e f =
      partition_list-error t d (commit_list ts) e (commit_list-error ts) f

  commit_offsets-error :
      (s : ConsumerGroup) (e : Error) → (commit_offsets s).0 ≡ err e → e ≡ name_error
  unfolding commit_offsets
  commit_offsets-error s e h = elim (Bool-cases s.has_consumer) [
    | inr f ↦ let bad : ◌≡◌ {A = Result Error Unit} (ok tt) (err e) = rw f at h in absurd (cc)
    | inl f ↦ elim (Result-cases (commit_list s.offset_commits)) [
      | inl (l, g) ↦
          let bad : ◌≡◌ {A = Result Error Unit} (ok tt) (err e) =
            rw (f, g, (commit_list-ok s.offset_commits l g).0) at h in
          absurd (cc)
      | inr (x, g) ↦
          let same : ◌≡◌ {A = Result Error Unit} (err x) (err e) = rw (f, g) at h in
          let known = commit_list-error s.offset_commits x g in cc
    ]
  ]

  finally_raises :
      (x : Result Error Unit × ConsumerGroup)
      → ((e : Error) → x.0 ≡ err e → e ≡ name_error)
      → (continue {B = Bool} (λ _. raise name_error) x).0 ≡ err name_error
  finally_raises (ok u, s) h = refl
  finally_raises (err e, s) h = ap err (h e refl)

  -- With a dead letter topic, the first message that the circuit breaker lets in and that is invalid ends
  -- the loop of a connected group with a `NameError`.
  pub run_consumption_loop-invalid :
      (m : Message) (ps : List Poll) (s : ConsumerGroup) (topic : String)
      → s.has_consumer ≡ true
      → s.running ≡ true
      → cfg.dead_letter_topic ≡ some topic
      → out.admits s.seen ≡ true
      → out.outcome s.seen ≡ invalid
      → (run_consumption_loop out cfg (polled m ∷ ps) s).0 ≡ err name_error
  unfolding run_consumption_loop loop consume process_message send_to_dlq
  run_consumption_loop-invalid m ps s topic has r dead lets bad =
      simp (has, r, dead, lets, bad) (finally_raises (commit_offsets _) (commit_offsets-error _))
