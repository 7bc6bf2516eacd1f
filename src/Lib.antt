-- ===== src/Lib.antt =====
-- A model of the core of a crypto exchange's backend, written in Go, and what is proved of it.
--
-- The program takes orders into one order book per symbol, matches them, writes events with
-- sequence numbers to a log, and hands partitions of symbols from node to node. The parts that are
-- modelled, with the file of the model and the code it is about:
--   Ownership: the state machine of a partition's owner, biz/model/partition_ownership.go. Types has
--     its data (`OwnershipMetadata`, `OwnershipStateMachine`), Guards has the closures of
--     `registerTransitions`, Machine has the methods (`Transition` is `transition`, and so on),
--     Calls has histories of calls, with the two locked sections of `StartMigration` and `Rollback`
--     apart. `TransferCoordinator` of biz/model/transfer_coordinator.go is a
--     record of two functions, and Coordinator has its methods over the table of transfers,
--     biz/service/db_transfer_coordinator.go.
--   Protocol: the messages of biz/model/transfer_protocol.go (Messages) and the methods that take
--     them (Handler), which drive the state machine; a nil machine is `none`.
--   Sequencer: the global and per-symbol numbers of biz/service/sequencer.go.
--   Events: the events of biz/model/event.go.
--   Book: biz/service/orderbook.go. Levels is the ordered map, Types the data and the comparators,
--     Matching the two loops as one function with the side as its argument, Orders `MatchOrder`,
--     `addOrderToBook`, `GetDepth` and `CancelOrder`. The book draws its numbers from Sequencer.
--   EventLog: the envelopes of biz/model/event.go (Envelope) and the log of
--     biz/service/event_log_memory.go (Log, with its indexes in Index and its queries in Query).
--   Offsets: biz/service/kafka_offset_tracker.go.
--   Partition: the table of partitions, biz/model/partition.go.
--   Pipeline: the event contexts of biz/model/event_context.go (Context), the rows and the statements
--     of biz/model/checkpoint.go and biz/dal/pg/checkpoint_repo.go (Rows), the manager of
--     biz/service/checkpoint_manager.go (Checkpoints), and biz/service/event_pipeline.go: Dispatch
--     has `dispatchToProcessorsInternal`, Process the methods that take events.
--   Recovery: `WithLock` and its kin of biz/service/redis_lock_manager.go (Lock), and
--     biz/service/recovery_executor.go: Executor has `recoverSingleProcessor`, Plan the pending list
--     and `ExecuteRecovery`.
--   Engine: biz/service/match_engine.go over the book and the pipeline. Submit has `SubmitOrder` and
--     `enqueueOrder`, Match has `processOrder`, a turn of `matchWorker` and the notices.
--   Position: the processor of biz/service/event_processor_position.go (Handler), as one of the
--     pipeline's processors.
--   Snapshot: biz/service/state_snapshot.go, with the checksum in Checksum, the searches in Find and
--     `CompareSnapshots` in Compare, and biz/service/state_validator.go (Validator).
--   NodeIds: biz/service/node_id_manager.go. Manager has `GetOrAllocateNodeID` as stages from one
--     request to Consul to the next, Cluster the nodes whose requests interleave, with restarts.
--   Epoch: biz/service/ownership_epoch_manager.go over a Redis whose keys expire (Manager, and the
--     local cache in Cache), and biz/handler/order_fencing.go (Order).
--   Outbox: biz/model/outbox.go and biz/dal/pg/outbox_repo.go (Repo), and
--     biz/service/outbox_dispatcher.go (Topic, Dispatcher), with `GetWriter` of biz/dal/kafka/init.go.
--   Partition also has biz/service/partition_manager.go (Manager) and, in Aware, the rounds of the
--     loop and the SubmitOrder of biz/service/partition_aware_match_engine.go. Setup has
--     biz/service/setup_coordinators.go.
-- Base has the shared notation, the int64, the maps and the lemmas on lists; Examples applies the
-- theorems to concrete values.
--
-- A method that runs under its lock, or as one atomic operation, is one step. Readings of the clock
-- and answers from outside (the coordinator, Postgres) are arguments. An int64 is an integer over
-- the native numbers and its sums wrap at 64 bits; a uint64 is a number with `% 2 ^ 64`. Errors are
-- values. The skip list of github.com/huandu/skiplist, float64 and the JSON codec are parameters:
-- the skip list with its documented behaviour as laws, JSON with the round trip as a hypothesis. The
-- laws leave the order of the levels open, since Compare and CalcScore of the code disagree on it.
--
-- The pipeline appends to an EventLog through the interface `EventStore` of biz/model/event.go (Store),
-- and hands each event to its processors, which are functions on a world of any type. The goroutines
-- of one dispatch share no entry of the pipeline but its counters, so that they are taken one after
-- another, in an order that the theorems leave open. A panic is `none`, or `panicked`: no state
-- outlives it. A processor may panic, and so does a write to the progress of one that was never
-- registered. The statements of Postgres are a parameter, with what they promise in `KeepsProgress`;
-- hashes are parameters, and of redsync its answers.
--
-- The matching loop runs on fuel: the number of the orders on the other side, plus two. Each round
-- that goes on takes an order out of the book or fills the taker, so this is enough.
--
-- Consul and Redis are records of operations with their documented laws: a check-and-set writes
-- exactly if the index is the key's own, and the fields of a hash stay until its key expires. A request
-- may be lost, or done with its answer lost.
--
-- A transaction is rolled back when its function fails; its commit is done, refused, or done with its
-- answer lost.
--
-- Not modelled: the autoscaler, the processors of rows and of websockets, the drivers of Postgres, Redis,
-- Kafka and RocksDB, klines, HTTP and websocket handlers, configuration and the frontend: calls of
-- drivers and frameworks, or parts that are not yet written down here. Dispatches that overlap in time, and recoveries of several items at once, are
-- taken one after another. Of the parts above, texts for logs and reports and the printing of
-- statuses are left out.
pub mod Base
pub mod Ownership
pub mod Protocol
pub mod Sequencer
pub mod Events
pub mod Book
pub mod EventLog
pub mod Offsets
pub mod Partition
pub mod Pipeline
pub mod Recovery
pub mod Snapshot
pub mod Engine
pub mod Position
pub mod NodeIds
pub mod Epoch
pub mod Outbox
pub mod Examples
