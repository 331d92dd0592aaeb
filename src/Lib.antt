-- ===== src/Lib.antt =====
-- gomembase: an in-memory database server written in Go. Engines keep values under keys with
-- expirations and log every change; a persistence manager replays the log after a restart;
-- transactions group calls, with undo.
--
-- The parts and their files:
-- - Prelude: notation, lists, texts, 64-bit integers and Go maps. Stdlib: what the engines use of
--   Go's standard library on texts and times, as a parameter with named laws.
-- - Errors: pkg/errors/errors.go. Each operation that fails returns the Go error as a value.
-- - Logger: the interface WalLogger of pkg/persistence/persistence.go, an operation on the state
--   of an implementation, and its implementations pkg/multiplexer/scoped_logger.go and
--   pkg/multiplexer/tx_wal_logger.go.
-- - Transaction: pkg/transaction/transaction.go. An operation of a transaction acts on a world of
--   any type, the state of the server that its closure captures.
-- - Wal: pkg/wal/wal.go (Wal/File, over an operating system file as a parameter, with
--   bufio.Scanner in Wal/Lines) and pkg/wal/buffered_wal.go (Wal/Buffered, over any physical log,
--   and Wal/Durable, over the log file).
-- - Snapshot: pkg/snapshot/snapshot.go, values and sections as bytes.
-- - Persistence: pkg/persistence/persistence.go, the line format and the two passes of Restore
--   over the log; Persistence/State has SaveSnapshot, the part of Restore that loads the snapshot,
--   Reset and Clear. The engines are operations on the state of the whole server.
-- - Expirations: pkg/storage/heap.go, which pkg/list_storage/heap.go, pkg/set_storage/heap.go and
--   pkg/zset_storage/heap.go repeat, with container/heap over it and the map from keys to entries
--   beside it. An entry is shared by address.
-- - Storage: pkg/storage/storage.go and pkg/storage/payload.go, the key-value engine: Storage/Ops
--   (keys), Storage/Patterns (prefixes, suffixes, regular expressions), Storage/Wal (replay),
--   Storage/Codec (snapshots), Storage/Cleanup (CleanupExpired), Storage/Calls (sequences of
--   calls).
-- - Collection: what pkg/list_storage, pkg/set_storage and pkg/zset_storage repeat over the type
--   of what is stored under a key: the struct, deletion and expirations, Collection/Patterns
--   (searches by key), Collection/Codec (snapshots), Collection/Replay (arguments of a line).
--   Collection/Contents is the view of an engine as a map.
-- - ListStorage: pkg/list_storage/list_storage.go, the list engine: ListStorage/Elements (the
--   loops over one list), ListStorage/Ops (keys), ListStorage/Wal (replay), ListStorage/Keys
--   (searches and snapshots), ListStorage/Calls and ListStorage/Edits (sequences of calls),
--   ListStorage/Clock (time that passes within a call), ListStorage/Replayed and
--   ListStorage/Logged (calls and the replay of their lines).
-- - SetStorage: pkg/set_storage/set_storage.go, the set engine: SetStorage/Members (the loops over
--   members), SetStorage/Ops (keys), SetStorage/Algebra (intersection, union and difference),
--   SetStorage/Wal (replay), SetStorage/Keys (searches and snapshots), SetStorage/Calls (sequences
--   of calls), SetStorage/Clock (time that passes within a call).
--
-- How the code is read. A method takes the state and returns it beside its result. A mutex is left
-- out, as each method holds it for its whole body; where a method lets it go in between (Get,
-- Exists, Mget, the searches, the store methods of the set engine), the model runs its parts
-- without another call between them. A call of time.Now gives one time for the whole of an
-- operation, but in Move of the list engine and SInterStore of the set engine, which read the
-- clock again where it matters, a second one; a time is a number of nanoseconds since January 1 of
-- year 1, UTC. A Go map is an association list whose order stands for the order of an iteration,
-- which Go leaves open. A text is the list of its bytes. A list of container/list and the members
-- of a set are lists; a method that can panic, on a nil list or an index of an empty slice,
-- returns an option, and none is the panic.
--
-- Fuel: up of container/heap has the index plus one and down more than the distance to the end,
-- and more fuel changes nothing (Expirations/Fuel); CleanupExpired has the length of the heap, of
-- which each round takes one. The loops of the log and of snapshots are by recursion on the lines,
-- the entries, and the counts that are read.
--
-- Not modelled: the sorted set engine (pkg/zset_storage), MemoryUsageBytes, which estimates from
-- the capacities of slices, the multiplexer of databases with its transaction builder
-- (pkg/multiplexer/multiplexer.go, pkg/multiplexer/tx_builder.go), the request router and
-- protocol, publish and subscribe, and the servers, which are input and output around the parts
-- above.
pub mod Prelude
pub mod Errors
pub mod Logger
pub mod Transaction
pub mod Wal
pub mod Snapshot
pub mod Persistence
pub mod Storage
pub mod ListStorage
pub mod Collection
pub mod Expirations
pub mod SetStorage
pub mod Stdlib
