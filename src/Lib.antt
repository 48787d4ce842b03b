-- ===== src/Lib.antt =====
-- Sententia: a replicated order matching engine in C++20.
--
-- The engine (include/sententia/engine.hpp, src/engine.cpp) is a state machine from commands to
-- events over a price-time priority book (include/sententia/order_book.hpp, src/order_book.cpp).
-- Nodes that replicate it elect a leader (include/sententia/consensus/election.hpp, src/consensus/election.cpp),
-- which is a state machine of its own from messages and ticks to actions that apps/node/main.cpp
-- performs. The leader ships commands through its log, and each node applies what a majority holds
-- (include/sententia/replication/replicator.hpp, src/replication/replicator.cpp).
--
--   Types             types.hpp, command.hpp, event.hpp: the values
--   Book              order_book.cpp: the book's two maps of levels and its id index, every operation;
--                     its child modules have the hash and the lemmas on queues, levels and sides
--   Engine            engine.cpp: apply, match, applyNewOrder, applyCancel as functions on a run, the
--                     engine together with the events appended so far
--   Engine/Priority   matching with no book, on the list of opposite orders: the specification
--   Engine/Snapshot   snapshot, restore, stateChecksum
--   Election          consensus/election.cpp: a node's election state machine, with the actions it asks
--                     for; Election/Effect has the inputs of a node
--   Election/Cluster  nodes that exchange vote responses as apps/node/main.cpp sends them, as a step
--                     relation; Quorum, Invariant, Step and Safety carry its proof
--   CommandLog        replication/command_log.cpp: the log of commands that nodes agree on, oldest entry
--                     first; an index past its entries, undefined in C++, gives no entry
--   Replicator        replication/replicator.cpp: Follower has handleAppendEntries, Commit the commit point
--                     and compactLog, Backups the map of backups, Sending sendAppend, Leader the rest;
--                     the other child modules carry proofs
--   Network           net/transport.hpp: the two calls that the replicator makes, an interface over any
--                     state of a transport
--   Wal               storage/wal.cpp: the frames of records and the loop that reads them back;
--                     Wal/Operations has the methods, over any disk whose calls may fail
--   Storage           storage/stable_store.cpp, storage/snapshot.cpp, storage/durable_state.cpp: the files of
--                     a node. Storage/Promises says what the system's calls on files do; StableStore has
--                     the term and the vote, SnapshotFile the snapshot, DurableState what ties them to
--                     the log; the other child modules carry proofs
--   Wire              net/wire.hpp: integers and strings as bytes, and the checked reader
--   Message           net/message.cpp: every message as bytes and back
--   Framing           net/framing.cpp: the reader of frames, and in Framing/Writer the writer; Receiving
--                     feeds the reader as the transport does
--   Transport         net/transport.cpp: the table of connections and the handling of hellos;
--                     Transport/Sending has the reads, writes and sends and the retiring, Dialing the
--                     dials, Operations all that can happen to a transport; the other child modules
--                     carry proofs
--   Examples          runs on small inputs
--   Prelude           shared names, Boolean tests, signed numbers, lists
--
-- A std::map is the list of its entries in its comparator's order; the unordered_map of locators is an
-- association list; a list iterator is named by the id of the order that it points to. Ids,
-- quantities and sequence numbers are numbers, and the counters wrap at 2^64; prices are signed.
-- The loop of match runs on fuel, one round more than the opposite side has orders; each round but the
-- last takes an order off the book, so the loop ends by its own tests.
-- In a cluster every input of a node may be anything, but a vote response was sent to it before; it
-- may be lost, late or repeated. The model of a cluster has no restart (resetVolatileState is a
-- definition), and counts terms as 64-bit numbers that wrap.
-- The loops of the replicator run on fuel, one round for each number to apply or to replay; on a log
-- that holds every entry from the first, each round does one of them. Its map of backups is a list in
-- the order of ids, and a pass over it that sends returns the list again. It writes no text.
-- The loop of the write-ahead log's replay has a round for each byte of the file, and a round takes
-- sixteen bytes at least. A write, a cut and a flush of its file go through whole or fail; a read of it
-- gives all its bytes or fails.
-- What a socket answers to reads and writes is a list; where it ends, the next call would block. The loop
-- that takes frames off a connection has a round for each byte that its reader holds, and one more. What
-- the owner's handlers are told is a list of events; a send that a handler makes is not inside the loop,
-- but an input behind it. A connection is named by its place in the table.
-- A crash in src/storage is a state from which every call fails: what a file holds then is what the
-- calls before have left in it. The file of the write-ahead log is apart from the other files.
-- The parts of poll are inputs of their own: the dials at its beginning, what the sockets report, and the
-- retiring at its end; its counter of rounds does not overflow.
-- Not modelled: the parser of the cluster's configuration; the call of poll that waits for the sockets,
-- and the sockets themselves, which are the system's; the command lines under apps; the rendering of
-- events as text; and the asserts, which the invariants make true.
pub mod Prelude
pub mod Types
pub mod Book
pub mod Engine
pub mod Election
pub mod CommandLog
pub mod Wire
pub mod Framing
pub mod Message
pub mod Network
pub mod Transport
pub mod Wal
pub mod Storage
pub mod Replicator
mod Examples
