-- ===== src/Lib.antt =====
-- The verification library of the kc toolkit (github.com/project-kgo/kc): generators of IDs, leases
-- and message stores that several processes share through a database, the balancer of its service
-- registry and the watch that feeds it, a cache with its invalidation, the client of a message queue,
-- and the registry of resources within a process. Definitions are translated from the Go
-- code; a theorem is about what several of them do together.
--
-- The parts, and the code that they are about:
--
-- Snowflake: pkg/idgen/snowflake. Snowflake.Node is node.go, a generator of IDs that packs a
-- timestamp, a worker ID and a sequence (`generate`, `retire`, `new_node`). Snowflake.Leases is the
-- worker table of storage.go (`allocate_worker_once`, `allocate_worker`, `heartbeat`, `release`) with
-- the waits of snowflake.go (`startup_clock_wait`, `wait_for_clock`). Snowflake.Generator is
-- snowflake.go: a node under a lease (`generate`, `update_heartbeat`, `recover_lease`, `close`).
--
-- Segment: pkg/idgen/segment. Segment.Store is the interface `segmentStore`; Segment.Buffer and
-- Segment.System are the double buffer of segment.go with the task that preloads it, which stand on
-- the interface; Segment.Sql is storage.go, which fills the interface for both SQL dialects.
--
-- Balancer: pkg/registry/etcd/balancer.go, with the instances and results of
-- pkg/registry/registry.go. Balancer.Topology is the index of the instances of a service and the
-- events that change it (`put_locked`, `remove_locked`, `replace_locked` and the forms with a
-- revision), Balancer.Pick is the choice (`pick`, `reserve`), Balancer.Report the feedback
-- (`report`, `complete`).
--
-- EtcdRegistry: pkg/registry/etcd/registry.go. What a load and a response of the watch do to that
-- index (`load`, `handle_response`), and the watch with its new starts and the refreshes beside it as
-- moves on the cache (`EtcdRegistry.Following.apply`), where etcd is the history of its changes.
--
-- Outbox: pkg/outbox. Outbox.Store is the message table of storage.go, Outbox.Shards the leases on
-- shards there (`lock_shard`, `coordinate_release` and `coordinate_acquire` for the two transactions
-- of coordinate, `assignment`), Outbox.Transactions is Tx and Transaction of outbox.go,
-- Outbox.Backoff the waits of worker.go and Outbox.Config the settings of types.go.
--
-- Idempotency: pkg/idempotency. A call of Execute with its transaction (`execute`, `insert`,
-- `validate_execution_arguments`).
--
-- Compensator: pkg/compensator. Compensator.Store is the task table of storage.go (`claim`, `finish`,
-- `abandon`, `retry`, `cleanup`), Compensator.Worker runs a claimed task (`invoke`, `outcome`,
-- `execute` of worker.go), Compensator.Pool is the scan loop with its workers, as a step relation on
-- what the channels hold, and Compensator.Transactions the registry, Add and Transaction of
-- compensator.go.
--
-- MqRuntime: internal/mqruntime/mqruntime.go. The client of a message queue with its operations and
-- subscriptions (`begin`, `track_in`, `start_finish`), and the calls of Close and Stop that wait for
-- them (`close_from`, `stop_from`), whose steps MqRuntime.Steps interleaves in any order.
--
-- Cache: pkg/cache/cache.go. The instances of a local cache on one channel, with the messages by which
-- Delete drops a key in all of them (`set`, `delete`, `receive`); the store and the codec are the
-- interfaces `Local` and `Codec`.
--
-- Resource: pkg/resource/resource.go. The maps of the package and the calls of GetOrCreate as a state
-- machine (`get_or_create`, `set_resource`, `get_resource`, `shutdown`).
--
-- Prelude: Boolean tests, lists, results, integers and names that the parts share.
--
-- How the state of the code stands in the model:
--
-- A method that holds a mutex and a transaction that holds its row locks are one step each, a
-- function on the state; the orders in which callers and processes take their steps are lists of
-- steps. A transaction that fails is rolled back and is no step. Rows that other transactions have
-- locked are a parameter of the queries that skip them.
--
-- Objects that are shared by pointer (the states of instances in the balancer, the subscriptions of a
-- message queue) stand in a heap. An
-- index out of range, at which Go panics, is `none`.
--
-- Where no lock spans a method, what the others do between its parts is an argument (`meanwhile`): in
-- pick, which holds a read lock alone, between the choice and the swap, and in Generate between the
-- check of the heartbeat and the node. The reads within the choice of pick are of one moment.
--
-- Clocks, random draws, tokens and the answers of the database are arguments. Theorems that need
-- tokens to be fresh, a random number to be below its bound, or clocks to agree up to a bound say so
-- in a hypothesis. Times are numbers; in the parts on tables they are milliseconds.
--
-- int64 arithmetic that can wrap does so in Snowflake.Node and in the random generator of
-- Balancer.Pick. Elsewhere the numbers are unbounded: counters of failures and of attempts stay below
-- their thresholds, and the sums of times and durations are far from 2^63.
--
-- float64 in Balancer is an interface (`Floats`) without laws.
--
-- Fuel: `stride` of Outbox.Shards runs at most 64 rounds, one for each shard, which is enough since
-- each round moves on by one node at least; the partition theorem is about the function as it stands.
-- The draws of `pick` are eight, as in the code. Loops over readings of a clock run as long as the
-- readings, and the theorems on them say what happens when they end.
--
-- Not modelled: DDL and catalog checks, the text of SQL statements, regular expressions on names, the
-- cut of long error texts, pauses between attempts, cancellation of a context within a call (but for Close and Stop of MqRuntime), logging,
-- and the parts of the toolkit that wrap third-party clients.
pub mod Prelude
pub mod Snowflake
pub mod Segment
pub mod Balancer
pub mod Outbox
pub mod Idempotency
pub mod Resource
pub mod Compensator
pub mod EtcdRegistry
pub mod MqRuntime
pub mod Cache
