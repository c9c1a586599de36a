-- ===== src/Kafka.antt =====
-- communication/event_stream/kafka/consumer_group.py: the state of `KafkaConsumerGroup`, its messages and
-- what the broker and the processor answer.
pub mod Group
pub mod Offsets
pub mod Commits
pub mod Loop
mod Samples
use kuva_ai.Prelude.{ℕ, String, Bool, true, false, Option, List, []}
use kuva_ai.Dict.{Dict}
use kuva_ai.Exec.{Exec}

pub record Message : Type 0 where
  pub topic : String
  pub partition : ℕ
  pub offset : ℕ

-- How deserializing, validating and processing a message end: it is processed, a `ValidationError` is
-- raised, or another exception.
pub data Outcome : Type 0 where
  processed invalid failing : Outcome

-- What `poll` gives, and a call of `close` from another task between two polls.
pub data Poll : Type 0 where
  idle consumer_error close_call : Poll
  polled : Message → Poll

pub record ConsumerConfig : Type 0 where
  pub max_batch_size : ℕ
  pub dead_letter_topic : Option String
  pub has_retry_policy : Bool

-- By the number of the message: whether the circuit breaker lets it in, how its first attempt ends, and
-- for the attempts of the retry policy how the processor ends and whether the policy goes on after it.
pub record Outside : Type 0 where
  pub admits : ℕ → Bool
  pub outcome : ℕ → Outcome
  pub retries : ℕ → List (Bool × Bool)

pub data Error : Type 0 where
  name_error runtime_error type_error circuit_open : Error

-- A `TopicPartition` with the offset to commit
pub record Position : Type 0 where
  pub topic : String
  pub partition : ℕ
  pub offset : ℕ

abbrev pub Partitions : Type 0
Partitions = List (ℕ × ℕ)

-- `commits` are what the broker was asked to commit.
pub record ConsumerGroup : Type 0 where
  pub has_consumer : Bool
  pub running : Bool
  pub assignments : Dict (List ℕ)
  pub offset_commits : Dict Partitions
  pub seen : ℕ
  pub commits : List (List Position)
  pub closed : Bool

-- A group after `_connect`
abbrev pub connected : ConsumerGroup
connected = record {
  has_consumer = true;
  running = true;
  assignments = [];
  offset_commits = [];
  seen = 0;
  commits = [];
  closed = false;
}

abbrev pub Action : Type 0 → Type 0
Action A = Exec ConsumerGroup Error A
