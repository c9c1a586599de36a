-- ===== src/Kafka/Samples.antt =====
-- Runs of communication/event_stream/kafka/consumer_group.py.
use kuva_ai.Prelude.{
  ℕ, ◌≡◌, refl, String, true, false, Option, none, some, List, [], ◌∷◌, eqb, if◌then◌else◌,
}
use kuva_ai.Exec.{ok, err}
use kuva_ai.Kafka.{
  Message, processed, failing, Poll, idle, close_call, polled, ConsumerConfig, Outside, connected,
  type_error,
}
use kuva_ai.Dict.{lookup, insert}
use kuva_ai.Kafka.Group.{
  set_offset, note_offset, commit_list, commit_offsets, send_to_dlq, retry_loop, process_message,
  close, consume, loop, run_consumption_loop,
}
use kuva_ai.Kafka.Commits.{noted}
use kuva_ai.Kafka.Offsets.{last_processed}
use kuva_ai.Kafka.Loop.{loop-noted}

-- The second message fails in the first attempt and is processed in the first retry.
abbrev second_fails : Outside
second_fails = record {
  admits = λ n. true;
  outcome = λ n. if eqb n 1 then failing else processed;
  retries = λ n. (true, true) ∷ [];
}

abbrev config : Option String → ConsumerConfig
config dead = record { max_batch_size = 1000; dead_letter_topic = dead; has_retry_policy = true }

abbrev message : ℕ → Message
message n = record { topic = "orders"; partition = 0; offset = n }

abbrev three : List Poll
three = polled (message 7) ∷ idle ∷ polled (message 8) ∷ polled (message 9) ∷ []

-- The first retry fails, so the policy would go on.
abbrev retry_fails : Outside
retry_fails = record second_fails { retries = λ n. (false, true) ∷ (true, true) ∷ [] }

retry_raises : (loop retry_fails (config none) three connected).0 ≡ err type_error
unfolding loop consume process_message note_offset retry_loop send_to_dlq lookup insert set_offset
retry_raises = refl

-- The offset after the failed message is noted.
overtaken :
    noted "orders" 0 (loop second_fails (config none) three connected).1.offset_commits ≡ some 9
unfolding noted loop consume process_message note_offset retry_loop send_to_dlq lookup insert
    set_offset
overtaken = refl

three_ends : (loop second_fails (config none) three connected).0 ≡ ok true
unfolding loop consume process_message note_offset retry_loop send_to_dlq lookup insert set_offset
three_ends = refl

loop-noted_example :
    noted "orders" 0 (loop second_fails (config none) three connected).1.offset_commits
    ≡ last_processed second_fails
        (config none)
        "orders"
        0
        0
        three
        (noted "orders" 0 connected.offset_commits)
loop-noted_example =
    loop-noted second_fails (config none) "orders" 0 three connected true refl three_ends

idle_ends :
    (run_consumption_loop second_fails (config none) (idle ∷ close_call ∷ []) connected).0
    ≡ ok false
unfolding run_consumption_loop loop consume close commit_offsets commit_list
idle_ends = refl
