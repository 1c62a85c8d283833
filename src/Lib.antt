-- ===== src/Lib.antt =====
-- The distributed algorithms of go-async-practice, a collection of Go exercises in concurrency with
-- their solutions.
--
-- The program is a set of parts that do not call one another: each solution file holds a few
-- services, guarded by a mutex and called by many goroutines. The parts modelled are these.
--
--   Locks          solutions/challenge09_solution.go: locks for distributed clients
--     Fencing        solution1_TTLWithFencingToken: acquire, release, extend, and the cleanup
--     Redlock        solution2_Redlock: acquireRedlock with lockSingleNode, unlockSingleNode, and
--                    releaseRedlock
--     Lease          solution3_LeaseBasedLock: acquireLease, renewLease, releaseLease, the cleanup
--   Events         event sourcing
--     Snapshots      solutions/challenge13_solution.go: appendEvent and getStream with snapshots
--     ReadModel      solutions/challenge12_solution.go: createUser, updateUser, projectEvent,
--                    replayEvents, getUser
--   Transactions   solutions/challenge12_solution.go
--     TwoPhase       prepare, commit, abort, executeTx over the participants
--     Saga           executeSaga with its compensation, over any state
--     Order          createOrderSaga, the steps of an order, run by Saga
--   Consensus
--     ProofOfWork    solutions/solution20_blockchain_consensus.go: PoWBlockchain
--     Pbft           solutions/solution20_blockchain_consensus.go: PBFTConsensus
--     Raft           challenges/challenge32_consensus_raft.go: RaftNode
--   Bus            solutions/solution17_event_bus.go
--     Ring           RingBuffer, the history of the bounded bus
--     Priority       BoundedEventBus: Subscribe and processEvent
--     Breaker        CircuitBreaker, and CircuitBreakerEventBus with its dead letters
--   Limits         solutions/solution04_rate_limiter.go
--     SlidingWindow  Allow and WaitForSlot of the sliding window
--   Ordering       solutions/challenge10_solution.go
--     SequenceBuffer solution3_SequenceNumberBuffer: addMessage over the buffers of the partitions
--       Timeouts       checkTimeouts, one tick of it
--   Messages       solutions/solution18_message_bus.go
--     Bus            PartitionedMessageBus: CreateTopic and Send
--     Transactional  ExactlyOnceMessageBus: BeginTransaction, SendTransactional, CommitTransaction
--     Consumer       FaultTolerantMessageBus: consumePartition with commitOffset and the dead letters
--   Graphs         solutions/solution21_graph_database.go
--     Optimistic     OptimisticGraph: BeginTransaction, ReadNode, UpdateNode and Commit
--   Storage
--     ConsistentHash solutions/solution23_columnar_storage.go: hash, search and GetNodes
--       Ring           NewConsistentHash, AddNode with updateSortedKeys, and GetNodes on the ring
--     Columns        solutions/solution23_columnar_storage.go: ColumnarStorage with CreateColumn,
--                    Insert, updateColumnStats and Query
--     Buckets        solutions/solution24_object_storage.go: S3CompatibleStorage with CreateBucket,
--                    PutObject, GetObject and the uploads in parts
--     Content        solutions/solution24_object_storage.go: Store, Retrieve and Delete of
--                    ContentAddressableStorage, compress and decompress
--     Erasure        solutions/solution24_object_storage.go: encode and decode of ErasureCoder, and
--                    the check at the end of Get
--   Streams        solutions/challenge16_solution.go
--     Windows        solution1_WindowManagement: addEvent, getOrCreateWindow and
--                    closeAndEvictOldWindows
--     Watermark      solution2_LateDataHandling: updateWatermark and processEvent
--     Checkpoint     solution3_CheckpointRecovery: processEvent, createCheckpoint and
--                    recoverFromCheckpoint
--   Common         sorting, lists, maps with keys that are texts (Dict) or numbers (Table), Boolean tests
--
-- A component's module holds its state as a record, with the fields of the Go struct, and one
-- function for each handler, named as in the source with underscores: acquireLease is acquire_lease.
-- Its children hold the proofs, each named for what it is about, and the Checks module of a part
-- applies the theorems at concrete inputs.
--
-- Conventions:
--   * A handler that holds the mutex of its component is one step. Where several clients are about,
--     a list of calls in any order stands for what they do, so a theorem about all lists of calls is
--     one about all interleavings of whole handlers. MineBlock drops its mutex before the search, and
--     is cut there into a start and rounds. Redlock's clients interleave at each node.
--     updateWatermark and processEvent of the watermarks are cut behind their unlocked loads.
--   * Some handlers take locks piece by piece, and are one step all the same: executeTx, the commands
--     createUser and updateUser, Insert and Query of the columns, the methods of the circuit breaker,
--     and Commit of the graph transactions. What is shown of them is shown of calls that do not
--     overlap.
--   * time.Now is an argument: every reading of the clock in a handler is a number of nanoseconds
--     that the caller gives, and a theorem says what order of readings it needs, if any.
--   * A pointer that two parts share is an address on a heap: the leases, and the maps of the events.
--   * A Go map is an association list; a write replaces the entry in place, so iteration has a fixed
--     order, and no theorem depends on which.
--   * Fencing tokens and Raft terms wrap around at 64 bits, the order's amounts are int32 bit
--     patterns; other counters, which only count calls, do not wrap.
--   * The values of columns are only compared, and stand as natural numbers; a window of the streams is
--     known by the instant at which it starts, for the text of that instant.
--   * Raft's indices begin at -1 in the source and are one larger here.
--   * SHA-256 with the printing of a block is a parameter of ProofOfWork, any function from the
--     fields of a block to bytes, and of Content and Erasure, any function from bytes to numbers. So
--     are FNV-1a of the Go library for the message bus, MD5 for Buckets, and for the ring the text
--     that Sprintf makes of a node and a number. Where a theorem needs that contents do not
--     collide, it says so of a class of contents. Handlers of the buses and steps of a saga are
--     functions of the caller.
--
-- Bounds: all loops recurse on their list, on a number that the source counts itself (the retries
-- of Redlock and of consumePartition, the events that GetRecent reads), or, for the search of
-- MineBlock, are runs of any length of single rounds. Two loops take fuel. The binary search on the
-- ring takes the number of the keys: each round shortens the range by one key at least, and the
-- theorem on it holds with that fuel. The loop of addMessage takes the number of pending messages:
-- each round delivers one of them.
--
-- Not modelled: goroutine scheduling below a handler, channels, tickers and timeouts, since they
-- only choose which handler runs when; the printed output; the demonstrations behind each component
-- that call it with fixed inputs; broadcast, which sends nothing in the source; the amounts in
-- float64 of the event versioning; the assignment of the partitions of the message bus to
-- consumers; where the chunks of an object are kept; commits of graph transactions that interleave
-- within one another; the row groups of the columns with their encodings, which nothing decodes,
-- and the wide columns; the listing of a bucket and the rules of its lifecycle; and the parts that
-- are clients of external servers.
pub mod Bus
pub mod Ordering
pub mod Graphs
pub mod Messages
pub mod Common
pub mod Limits
pub mod Storage
pub mod Streams
pub mod Locks
pub mod Events
pub mod Transactions
pub mod Consensus
