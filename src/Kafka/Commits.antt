-- ===== src/Kafka/Commits.antt =====
-- communication/event_stream/kafka/consumer_group.py: what becomes of the offsets that are noted.
use kuva_ai.Prelude.{
  ℕ, suc, ◌≡◌, ◌≢◌, refl, sym, ◌∙◌, String, Bool, true, false, ◌&&◌, Option, none, some, List, [],
  ◌∷◌, eqb, ◌==◌, if◌then◌else◌, Bool-cases, inl, inr,
}
use kuva_ai.Dict.{Dict, lookup, is_some}
use kuva_ai.Exec.{Result, ok, err, pure, raise, continue, Result-cases}
use kuva_ai.Kafka.{
  Message, Outcome, processed, invalid, failing, Poll, idle, consumer_error, close_call, polled,
  ConsumerConfig, Outside, Error, Position, Partitions, ConsumerGroup, Action,
}
use kuva_ai.Kafka.Group.{
  or_empty, topic_partition, partition_list, commit_list, commit_offsets, dlq_if, send_to_dlq,
  retry_loop, retry_if, finish, admitted, process_message, close, close_if, full, commit_full,
  consume, if_running, loop, finally_commit, run_if, run_consumption_loop,
}

-- A list of positions can only be made of nothing.
partition_list-ok :
    (t : String) (d : Partitions) (rest : Result Error (List Position)) (l : List Position)
    → partition_list t d rest ≡ ok l
    → (d ≡ []) × (rest ≡ ok l)
unfolding partition_list topic_partition
partition_list-ok t [] rest l h = (refl, h)
partition_list-ok t ((p, o) ∷ d) rest l h = absurd (cc)

-- The offset that is noted for a partition.
abbrev pub find_offset : ℕ → Partitions → Option ℕ
find_offset p [] = none
find_offset p ((q, o) ∷ d) = if eqb q p then some o else find_offset p d

unfoldable pub noted : String → ℕ → Dict Partitions → Option ℕ
noted t p d = find_offset p (or_empty (lookup t d))

-- Where the list of positions is made, it is empty, and nothing is noted for any partition.
pub commit_list-ok :
    (d : Dict Partitions) (l : List Position)
    → commit_list d ≡ ok l
    → (l ≡ []) × ((t : String) (p : ℕ) → noted t p d ≡ none)
unfolding commit_list noted lookup
commit_list-ok [] l h = (let same : [] ≡ l = cc in sym same, λ t p. refl)
commit_list-ok ((j, ps) ∷ d) l h =
    let (no_parts, rest) = partition_list-ok j ps (commit_list d) l h in
    let (nothing, others) = commit_list-ok d l rest in
    (
      nothing,
      λ t p. elim (Bool-cases (j == t)) [
        | inl e ↦ rw (e, no_parts) refl
        | inr e ↦ rw e (others t p)
      ],
    )

-- `_commit_offsets` changes nothing, whether it raises or not.
pub commit_offsets-same : (s : ConsumerGroup) → (commit_offsets s).1 ≡ s
unfolding commit_offsets
commit_offsets-same s = elim (Bool-cases s.has_consumer) [
  | inr e ↦ rw e refl
  | inl e ↦ elim (Result-cases (commit_list s.offset_commits)) [
    | inr (x, f) ↦ rw (e, f) refl
    | inl (l, f) ↦ rw (e, f, (commit_list-ok s.offset_commits l f).0) refl
  ]
]

module _ (out : Outside) (cfg : ConsumerConfig) where
  -- Nothing was ever committed.
  abbrev Same : ConsumerGroup → ConsumerGroup → Type 0
  Same s s1 = (s1.commits ≡ s.commits) × (s1.has_consumer ≡ s.has_consumer)

  dlq-Same : (m : Message) (b : Bool) (s : ConsumerGroup) → (dlq_if out cfg b m s).1 ≡ s
  dlq-Same m true s = refl
  dlq-Same m false s = refl

  retry_loop-same :
      (m : Message) (rs : List (Bool × Bool)) (s : ConsumerGroup)
      → (retry_loop out cfg m rs s).1 ≡ s
  unfolding retry_loop send_to_dlq
  retry_loop-same m [] s = refl
  retry_loop-same m ((true, g) ∷ rs) s = refl
  retry_loop-same m ((false, true) ∷ rs) s = refl
  retry_loop-same m ((false, false) ∷ rs) s = refl

  retry_if-same :
      (b : Bool) (m : Message) (rs : List (Bool × Bool)) (s : ConsumerGroup)
      → (retry_if out cfg b m rs s).1 ≡ s
  retry_if-same true m rs s = retry_loop-same m rs s
  retry_if-same false m rs s = refl

  finish-Same :
      (m : Message) (rs : List (Bool × Bool)) (o : Outcome) (s : ConsumerGroup)
      → Same s (finish out cfg m rs o s).1
  unfolding send_to_dlq
  finish-Same m rs processed s = (refl, refl)
  finish-Same m rs invalid s =
      rw (dlq-Same m (is_some cfg.dead_letter_topic && s.has_consumer) s) (refl, refl)
  finish-Same m rs failing s = rw (retry_if-same cfg.has_retry_policy m rs s) (refl, refl)

  admitted-Same :
      (b : Bool) (n : ℕ) (m : Message) (s : ConsumerGroup) → Same s (admitted out cfg b n m s).1
  admitted-Same false n m s = (refl, refl)
  admitted-Same true n m s = finish-Same m (out.retries n) (out.outcome n) s

  process-Same : (m : Message) (s : ConsumerGroup) → Same s (process_message out cfg m s).1
  unfolding process_message
  process-Same m s = admitted-Same (out.admits s.seen) s.seen m (record s { seen = suc s.seen })

  commit_full-same : (b : Bool) (s : ConsumerGroup) → (commit_full out cfg b s).1 ≡ s
  commit_full-same false s = refl
  commit_full-same true s = commit_offsets-same s

  Same-trans : (s s1 s2 : ConsumerGroup) → Same s s1 → Same s1 s2 → Same s s2
  Same-trans s s1 s2 a b = (b.0 ∙ a.0, b.1 ∙ a.1)

  Same-continue :
      {A B : Type 0} (f : A → Action B) (s : ConsumerGroup)
      → ((a : A) (t : ConsumerGroup) → Same t (f a t).1)
      → (x : Result Error A × ConsumerGroup) → Same s x.1
      → Same s (continue f x).1
  Same-continue f s h (ok a, t) i = Same-trans s t (f a t).1 i (h a t)
  Same-continue f s h (err e, t) i = i

  commit-Same : (s : ConsumerGroup) → Same s (commit_offsets s).1
  commit-Same s = rw (commit_offsets-same s) (refl, refl)

  commit_full-Same : (b : Bool) (s : ConsumerGroup) → Same s (commit_full out cfg b s).1
  commit_full-Same b s = rw (commit_full-same b s) (refl, refl)

  close_if-Same : (b : Bool) (s : ConsumerGroup) → Same s (close_if out cfg b s).1
  close_if-Same false s = (refl, refl)
  close_if-Same true s = Same-continue _ s (λ _ t. (refl, refl)) (commit_offsets s) (commit-Same s)

  close-Same : (s : ConsumerGroup) → Same s (close out cfg s).1
  unfolding close
  close-Same s = close_if-Same s.has_consumer (record s { running = false })

  consume-Same : (p : Poll) (s : ConsumerGroup) → Same s (consume out cfg p s).1
  unfolding consume
  consume-Same idle s = (refl, refl)
  consume-Same consumer_error s = (refl, refl)
  consume-Same close_call s = close-Same s
  consume-Same (polled m) s =
      Same-continue _ s (λ _ t. commit_full-Same (full out cfg t) t) (process_message out cfg m s)
        (process-Same m s)

  if_running-Same :
      (b : Bool) (m : Action Bool) (s : ConsumerGroup)
      → Same s (m s).1
      → Same s (if_running out cfg b m s).1
  if_running-Same true m s h = h
  if_running-Same false m s h = (refl, refl)

  loop-Same : (ps : List Poll) (s : ConsumerGroup) → Same s (loop out cfg ps s).1
  unfolding loop
  loop-Same [] s = (refl, refl)
  loop-Same (p ∷ ps) s = if_running-Same s.running _ s (
      Same-continue (λ _. loop out cfg ps) s (λ _ t. loop-Same ps t) (consume out cfg p s)
        (consume-Same p s))

  nothing_noted :
      (s : ConsumerGroup)
      → s.has_consumer ≡ true
      → (commit_offsets s).0 ≡ ok tt
      → (t : String) (p : ℕ) → noted t p s.offset_commits ≡ none
  unfolding commit_offsets
  nothing_noted s has h = elim (Result-cases (commit_list s.offset_commits)) [
    | inl (l, f) ↦ (commit_list-ok s.offset_commits l f).1
    | inr (x, f) ↦
        let bad : ◌≡◌ {A = Result Error Unit} (err x) (ok tt) = rw (has, f) at h in absurd (cc)
  ]

  raised_again :
      (e : Error) (x : Result Error Unit × ConsumerGroup)
      → (continue {B = Bool} (λ _. raise e) x).0 ≢ ok false
  raised_again e (ok u, s) h = cc
  raised_again e (err f, s) h = cc

  returned :
      (x : Result Error Unit × ConsumerGroup)
      → (continue (λ _. pure false) x).0 ≡ ok false
      → (x.0 ≡ ok tt) × ((continue {B = Bool} (λ _. pure false) x).1 ≡ x.1)
  returned (ok tt, s) h = (refl, refl)
  returned (err e, s) h = absurd (cc)

  finally_returns :
      (x : Result Error Bool × ConsumerGroup)
      → x.1.has_consumer ≡ true
      → (finally_commit out cfg x).0 ≡ ok false
      → (t : String) (p : ℕ) → noted t p (finally_commit out cfg x).1.offset_commits ≡ none
  finally_returns (ok true, s) has h t p = absurd (cc)
  finally_returns (err e, s) has h t p = absurd (raised_again e (commit_offsets s) h)
  finally_returns (ok false, s) has h t p =
      let (fine, same) = returned (commit_offsets s) h in
      rw (same, commit_offsets-same s) (nothing_noted s has fine t p)

  run_if_returns :
      (b : Bool) (ps : List Poll) (s : ConsumerGroup)
      → b ≡ true
      → s.has_consumer ≡ true
      → (run_if out cfg b ps s).0 ≡ ok false
      → (t : String) (p : ℕ) → noted t p (run_if out cfg b ps s).1.offset_commits ≡ none
  run_if_returns false ps s e has h = absurd (cc)
  run_if_returns true ps s e has h =
      finally_returns (loop out cfg ps s) ((loop-Same ps s).1 ∙ has) h

  -- When the loop of a connected group returns, no offset is noted: it raises if any message was
  -- processed.
  pub run_consumption_loop-returns :
      (ps : List Poll) (s : ConsumerGroup)
      → s.has_consumer ≡ true
      → (run_consumption_loop out cfg ps s).0 ≡ ok false
      → (t : String) (p : ℕ) → noted t p (run_consumption_loop out cfg ps s).1.offset_commits ≡ none
  unfolding run_consumption_loop
  run_consumption_loop-returns ps s has h = run_if_returns s.has_consumer ps s has has h
