-- ===== src/Lib.antt =====
-- A model of the core of KUVA-AI, a Python framework for agents, and proofs about it.
--
-- The parts of the program that are modelled, and the files that model them:
--
-- * Agent, the registry of agent classes (core/agent/registry.py). A process has one registry; the
--   decorator `register_agent` and the modules that `initialize` imports fill it, a middleware
--   asks it before a call. Agent/Cycles is `_detect_circular_dependencies`, the depth-first search
--   over `_reverse_dependencies`; Agent/Registry the methods of `AgentRegistry` on its fields;
--   Agent/Setup `initialize`, the decorator and the middleware. The import system is an `Importer`.
-- * Pool, the gRPC client pool (communication/grpc/client_pool.py). The state is the pools of
--   channels by endpoint with the counters of `ClientMetrics`; Pool/Methods has one action for each
--   method of `ClientPool`. The answers of the network, the clock and the random numbers are a
--   `World`.
-- * Lifecycle, the state machine of one agent (core/agent/lifecycle.py). It stands between the
--   registry, which it asks for dependencies, and the agent's own code. Lifecycle/Methods has the
--   methods of `LifecycleManager`, Lifecycle/Restart those that restart and the sequences of calls,
--   Lifecycle/Director the `LifecycleDirector`. Which outgoing call raises is a `World`; what the
--   constructor of `LifecyclePhase` accepts is a parameter, and `enum_phase` is that of the source.
-- * Anneal, simulated annealing (core/orchestration/workflow/optimizer/simulated_annealing.py).
--   Anneal/Run is `SimulatedAnnealing` with its adaptive controller, over any `Floats` and any
--   `Problem`; Anneal/Route the traveling-salesman problem.
-- * Audit, the audit log (security/audit/auditor.py). `AuditLogger.log` chains each record to the
--   one before and hands it to `LocalAuditStorage.persist`; the state is the chain hash, the buffer
--   and the lines of the files. The digest, the JSON encoding and the signature are a `Crypto`.
--   Audit/Log is about the files, Audit/Tamper about the chain.
-- * Policy, the policy engine (security/authn_authz/policy_enforcer.py). Policy.antt is
--   `evaluate_access` with what it calls, over the values of attributes (`Values`) and over what
--   `items()` gives for a target (`Items`; `list_items` is that of the source). Policy/Order is the
--   order of priorities, Policy/Decide the decision.
-- * Trust, the zero-trust engine (security/authn_authz/zta_engine.py). Trust.antt is `authenticate`
--   and `monitor_session` with what they call, over the state of a session cache; Trust/Decide is
--   about the decision, Trust/Monitor about a session over time.
-- * Statsd, the metrics client (observability/metrics/statsd.py). Statsd.antt is the buffer, the
--   packing of metrics into datagrams and the sends; Statsd/Chunks is about the packing,
--   Statsd/Client about the sends, the counters and the lock.
-- * Tdf, the trusted data format (security/crypto/tdf.py). Tdf/Engine is `CryptoEngine` with its
--   cache of keys, Tdf/Client `OpenTDFClient` with the envelope, Tdf/Bytes the slices and splits that
--   they use. AES-GCM, digests, addresses and random bytes are a `Library`, and `IsSound` what is
--   documented of them. Tdf/Keys is about the cache, Tdf/Runs about calls in between, Tdf/Roundtrip
--   about decryption after encryption, Tdf/Integrity and Tdf/Envelope about errors and formats.
-- * Topology, the topology of nodes and agents
--   (core/orchestration/scheduler/graph_based/topology_manager.py). Topology/Migrate is the migration
--   of agents and the strategies that balance them, Topology/Control updates, scaling, failover and
--   the monitor. networkx is a `GraphLibrary` with the laws `IsGraph`; what nodes and Kubernetes answer
--   is an `Outside`. Topology/Placed counts on how many nodes an agent is, Topology/Keeps and
--   Topology/Balance are about what migrations keep, Topology/Well and Topology/Runs about the
--   invariant, Topology/Failover and Topology/Scale about the operations they name.
-- * Kafka, the consumer group (communication/event_stream/kafka/consumer_group.py). Kafka/Group has
--   the methods of `KafkaConsumerGroup`, over polls that are given as a list; Kafka/Commits is about
--   what is committed, Kafka/Offsets and Kafka/Loop about the offsets that are noted.
-- * Factory, the agent factory (core/agent/factory.py), which makes the agents of the registered
--   classes. Factory/Graph is `DependencyGraph`, Factory/Config the registry and the configurations,
--   Factory/Create `create` with its `lru_cache`; Factory/Merge is about the loaders, Factory/Never
--   and Factory/Start about `create`.
-- * Base, the base class of agents (core/agent/base.py): its states, heartbeat and retry policy.
--   Base/Retry and Base/Heartbeat are about these.
-- * Validator, the search for strongly connected components in the validator of workflows
--   (core/orchestration/workflow/validator.py). Validator.antt is `TarjanCycleDetector`, over the
--   nodes and the successors that networkx gives; Validator/Counts and Validator/Disjoint are about
--   the components, Validator/Stack and Validator/Synced about the stack, Validator/Returns,
--   Validator/Total and Validator/Finds about a search that returns.
-- * Syslog, the handler of syslog messages (security/audit/syslog_handler.py). Syslog.antt is the
--   queue, the worker thread and the connection, with which calls of the socket work as a parameter;
--   Syslog/Process is about one message, Syslog/Accounts and Syslog/Runs about the counters and the
--   queue, Syslog/Silence about the end of the worker, Syslog/Priority about the PRI field.
--
-- Prelude, Dict and Exec are shared: native numbers and lists, Python's dictionaries with text keys,
-- and methods that mutate their object and may raise. `Exec S E A` keeps the state beside the error,
-- since what was written before an exception stays written; Exec/Ensures has the rules for what an
-- action keeps.
--
-- Loops. The search for cycles runs on fuel, one more than the entries that it can meet: each call
-- visits another of them. `acquire` makes `retry_count` attempts, as in the source. `_warm_pool` has
-- no bound in the source: it runs on fuel, and its result says whether the loop has ended. The loop of
-- the annealer runs on the rounds that `max_iterations` leaves, which its guard tests. The failover
-- loop of the topology has no bound in the source: it runs on a number of rounds, and gives the agents
-- that are left. `create` of the factory runs to a depth of nested calls, after which Python raises a
-- RecursionError, and so does `strongconnect`, for which a depth of the number of nodes is enough. The
-- wrapper of the retry policy makes `max_retries + 1` attempts and the syslog worker `retries + 1`, as
-- in the source. All other loops follow a list.
--
-- Not modelled: the other components of the repository, most of which call services and SDKs,
-- among them the parser of workflows, the learning schedulers, the clients of Vault
-- and KMIP, the producers of events, the tracing and the cloud adapters. Within the modelled files:
-- timeouts, the health monitor's loop and the director's `teardown_all` and
-- `restart_failed_agents`, the interleaving of tasks at an `await` where no lock excludes it, the
-- semaphore of the pool, the expiry of the factory's cache, the placeholder classes of the topology, and
-- what only logs or exports metrics.
mod Prelude
mod Dict
mod Exec
pub mod Agent
pub mod Pool
pub mod Lifecycle
pub mod Anneal
pub mod Audit
pub mod Policy
pub mod Trust
pub mod Statsd
pub mod Tdf
pub mod Topology
pub mod Kafka
pub mod Factory
pub mod Base
pub mod Validator
pub mod Syslog
