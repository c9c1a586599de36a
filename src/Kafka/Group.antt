-- ===== src/Kafka/Group.antt =====
-- communication/event_stream/kafka/consumer_group.py: the methods of `KafkaConsumerGroup`.
use kuva_ai.Prelude.{
  ℕ, suc, ◌+◌, String, Bool, true, false, ◌&&◌, Option, none, some, List, [], ◌∷◌, ◌++◌, leb, eqb,
  length, if◌then◌else◌,
}
use kuva_ai.Dict.{Dict, lookup, insert, is_some}
use kuva_ai.Exec.{Result, ok, err, pure, raise, gets, modify, continue, ◌>>=◌, ◌>>◌}
use kuva_ai.Kafka.{
  Message, Outcome, processed, invalid, failing, Poll, idle, consumer_error, close_call, polled,
  ConsumerConfig, Outside, Error, name_error, runtime_error, type_error, circuit_open, Position,
  Partitions, ConsumerGroup, Action,
}

-- `partitions[k] = v`
unfoldable pub set_offset : ℕ → ℕ → Partitions → Partitions
set_offset k v [] = (k, v) ∷ []
set_offset k v ((j, w) ∷ d) = if eqb j k then (j, v) ∷ d else (j, w) ∷ set_offset k v d

-- An entry of a `defaultdict(dict)`
abbrev pub or_empty : {A : Type 0} → Option (List A) → List A
or_empty none = []
or_empty (some d) = d

-- `self._offset_commits[topic][partition] = offset`
unfoldable pub note_offset : Message → Dict Partitions → Dict Partitions
note_offset m d = insert m.topic (set_offset m.partition m.offset (or_empty (lookup m.topic d))) d

-- `TopicPartition(topic, partition, offset)`: the module never imports the name.
unfoldable pub topic_partition : String → ℕ → ℕ → Result Error Position
topic_partition t p o = err name_error

abbrev pub followed :
    Result Error Position → Result Error (List Position) → Result Error (List Position)
followed (err e) rest = err e
followed (ok x) (err e) = err e
followed (ok x) (ok xs) = ok (x ∷ xs)

-- The inner loop of `_commit_offsets`, before what the outer loop goes on with.
unfoldable pub partition_list :
    String → Partitions → Result Error (List Position) → Result Error (List Position)
partition_list t [] rest = rest
partition_list t ((p, o) ∷ d) rest =
    followed (topic_partition t p (o + 1)) (partition_list t d rest)

unfoldable pub commit_list : Dict Partitions → Result Error (List Position)
commit_list [] = ok []
commit_list ((t, d) ∷ ts) = partition_list t d (commit_list ts)

abbrev pub commit : Result Error (List Position) → Action Unit
commit (err e) = raise e
commit (ok []) = pure tt
commit (ok (x ∷ xs)) =
    modify (λ s. record s { commits = s.commits ++ (x ∷ xs) ∷ []; offset_commits = [] })

abbrev pub commit_if : Bool → Action Unit
commit_if false = pure tt
commit_if true = do l ← gets (λ s. commit_list s.offset_commits); commit l

unfoldable pub commit_offsets : Action Unit
commit_offsets = do has ← gets (λ s. s.has_consumer); commit_if has

module _ (out : Outside) (cfg : ConsumerConfig) where
  -- `_send_to_dlq`: its list of headers names `e`, which is no variable of the method.
  abbrev pub dlq_if : Bool → Message → Action Unit
  dlq_if false m = pure tt
  dlq_if true m = raise name_error

  unfoldable pub send_to_dlq : Message → Action Unit
  send_to_dlq m = do
    has ← gets (λ s. s.has_consumer)
    dlq_if (is_some cfg.dead_letter_topic && has) m

  -- `self.logger.warning(..., error=...)`: a logger of the standard library takes no such keyword.
  abbrev pub warn : Action Unit
  warn = raise type_error

  -- The loop of `_handle_retry`; nothing is left to try where the policy gives no more attempts.
  unfoldable pub retry_loop : Message → List (Bool × Bool) → Action Unit
  retry_loop m [] = pure tt
  retry_loop m ((true, goes_on) ∷ rest) = pure tt
  retry_loop m ((false, true) ∷ rest) = warn >> retry_loop m rest
  retry_loop m ((false, false) ∷ rest) = warn >> send_to_dlq m

  abbrev pub retry_if : Bool → Message → List (Bool × Bool) → Action Unit
  retry_if false m rs = pure tt
  retry_if true m rs = retry_loop m rs

  -- The end of `_process_message`, by how the attempt ended.
  abbrev pub finish : Message → List (Bool × Bool) → Outcome → Action Unit
  finish m rs processed = modify (λ s. record s { offset_commits = note_offset m s.offset_commits })
  finish m rs invalid = send_to_dlq m
  finish m rs failing = retry_if cfg.has_retry_policy m rs

  abbrev pub admitted : Bool → ℕ → Message → Action Unit
  admitted false n m = raise circuit_open
  admitted true n m = finish m (out.retries n) (out.outcome n)

  unfoldable pub process_message : Message → Action Unit
  process_message m = do
    n ← gets (λ s. s.seen)
    modify (λ s. record s { seen = suc s.seen })
    admitted (out.admits n) n m

  -- `_handle_rebalance`
  abbrev pub clear_assignments : Action Unit
  clear_assignments = modify (λ s. record s { assignments = [] })

  unfoldable pub partitions_revoked : Action Unit
  partitions_revoked = do commit_offsets; clear_assignments

  abbrev pub assign : List (String × ℕ) → Dict (List ℕ) → Dict (List ℕ)
  assign [] d = d
  assign ((t, p) ∷ ps) d = assign ps (insert t (or_empty (lookup t d) ++ p ∷ []) d)

  unfoldable pub partitions_assigned : List (String × ℕ) → Action Unit
  partitions_assigned ps = modify (λ s. record s { assignments = assign ps s.assignments })

  abbrev pub close_if : Bool → Action Unit
  close_if false = pure tt
  close_if true = do commit_offsets; modify (λ s. record s { closed = true })

  -- `close`
  unfoldable pub close : Action Unit
  close = do
    modify (λ s. record s { running = false })
    has ← gets (λ s. s.has_consumer)
    close_if has

  abbrev pub in_task : Action Unit → Action Unit
  in_task m s = (ok tt, (m s).1)

  -- A round of `run_consumption_loop`. What a `close` of another task raises stays there.
  abbrev pub full : ConsumerGroup → Bool
  full s = leb cfg.max_batch_size (length s.offset_commits)

  abbrev pub commit_full : Bool → Action Unit
  commit_full false = pure tt
  commit_full true = commit_offsets

  unfoldable pub consume : Poll → Action Unit
  consume idle = pure tt
  consume consumer_error = pure tt
  consume close_call = in_task close
  consume (polled m) = do process_message m; batch ← gets full; commit_full batch

  abbrev pub if_running : Bool → Action Bool → Action Bool
  if_running true m = m
  if_running false m = pure false

  -- The loop, for what the polls give: it has ended, or goes on after them.
  unfoldable pub loop : List Poll → Action Bool
  loop [] s = (ok s.running, s)
  loop (p ∷ ps) s = if_running s.running (consume p >> loop ps) s

  -- `finally`: an exception in it takes the place of the first.
  abbrev pub finally_commit : Result Error Bool × ConsumerGroup → Result Error Bool × ConsumerGroup
  finally_commit (ok true, s) = (ok true, s)
  finally_commit (ok false, s) = continue (λ _. pure false) (commit_offsets s)
  finally_commit (err e, s) = continue (λ _. raise e) (commit_offsets s)

  abbrev pub run_if : Bool → List Poll → Action Bool
  run_if false ps s = (err runtime_error, s)
  run_if true ps s = finally_commit (loop ps s)

  unfoldable pub run_consumption_loop : List Poll → Action Bool
  run_consumption_loop ps = do has ← gets (λ s. s.has_consumer); run_if has ps
