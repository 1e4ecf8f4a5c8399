-- ===== src/Lib.antt =====
-- Queuemaxxing: a durable message queue server. A queue lives in memory and in one append-only log
-- file; a message that a client saw accepted is in the file, synced, and a restart replays the file.
--
-- The parts, from the bottom:
--
-- Storage (internal/storage) is the log. Record is record.go: Header, Enqueue, Ack and Nack, the
-- frames of encodeFrame and decodePayload, and the file header. encoding/json and hash/crc32 are the
-- parameter Codec, with the laws that the log relies on: what was marshalled is read back, and a
-- checksum can be continued over further bytes. Disk is the part of the data directory that one log
-- lives in: contents by inode, and what the log's name and the temporary's name lead to. Log is
-- log.go: Append, rollback and Close; Create is its Create and discard, and Directory its EnsureDir,
-- Remove, ListLogs and CleanTemps on the entries of the data directory. Scanner and Recovery are
-- recovery.go: scanner.next, restIsZero, Open and truncate. Compaction is compaction.go. What the
-- operating system answers is an argument of each operation (AppendEnv, CreateEnv, OpenEnv,
-- CompactEnv, DirEnv), so the theorems quantify over all failures.
--
-- Queue (internal/queue) is the engine. Message is message.go, Tokens its newID and newReceipt on the
-- bytes of crypto/rand, Heap is msgHeap of ready_heap.go, delayed_heap.go and expiry_heap.go with the
-- standard library's container/heap,
-- Engine.State the Queue struct of queue.go, Engine.Operations its Enqueue, popReady, Receive, Ack,
-- Nack, Close and Stats, Engine.Compact is compaction.go, Engine.Scheduler processDue of
-- scheduler.go, and Replay openQueue. A message is an address in a store, since the heaps and the
-- in-flight map share it. Each operation holds the mutex, so it is one function from state to state;
-- one round of Receive's loop is such a function, up to the wait. The clock, the random token and the
-- log's errors are the argument CallEnv. The engine uses the log through logStore, here the list of the records that
-- it has accepted: a failed Append or Compact leaves that list as it is. What such a call leaves in the
-- file, and the log that is broken from then on, are Storage's.
-- Counters follows the sequence floor and the counters through any run of calls, Receipts (of Engine)
-- the receipts. Heap has child modules on the order, the positions and the contents under Push, Pop and
-- Remove. Places states the invariant of the Queue struct, of its heaps and its in-flight map, and
-- follows it from openQueue through the calls. The token that a call draws is there no receipt in use
-- (IsFresh), which crypto/rand gives but with negligible probability.
--
-- Queue.Scheduling is the rest of scheduler.go: Goroutine has start, runScheduler and stopTimer as a
-- step relation over the queue, the clock, the timer and the goroutine's place in its loop. Between two
-- of its steps run whole calls of clients, ticks of the clock and the critical sections of Close, in
-- any order. Alarm, Alert and Clients follow what the timer has to cover through the calls.
--
-- Queue.Waiting is Receive with a wait: Receiver has its loop, the timer of time.AfterFunc and the
-- watcher of the context as a step relation, again with calls, scheduler rounds and closing between
-- the steps. The queue's flag `signalled` stands for a broadcast since the call went to sleep.
--
-- Queue.Restart sets the log against the memory: the messages that replaying the log leaves live and
-- those that stand in the heaps. Live and Changes have them behind each record, Snapshot and Compacted
-- behind a compaction, Moves, Sends, Returns and Runs behind calls. Bodies has what JSON makes of a
-- body on its way through the log. The token that a call draws is there not the id of a message either
-- (IsUnused).
--
-- Queue.Manager is manager.go, with createQueue of queue.go: the registry, a map from names to queues,
-- and the data directory, a map from names to what storage.Open makes of the file (LogFile). The file
-- of an open queue is its queue's own. What storage.Open makes of it where the queue is closed is an
-- argument (`left`), by the records that the log has accepted. Manager.Startup is NewManager and Close,
-- Manager.Listing List, over sort.Slice as a parameter. Each method holds the registry's lock.
--
-- Api (internal/api) is handlers.go and routes.go: Seconds the conversion of durations, Handlers and
-- Messages the handlers, Router the table of routes. A handler takes the registry and what decodeBody
-- finds, and gives the answer and the registry. Receive is followed there to the end of its first
-- round. Service follows the registry through every request.
--
-- Server (cmd/server) is main.go: Process has main as a step relation, from the check of the threshold
-- over NewManager, the listener and Shutdown to Close and the end. A request is one step, and so is a
-- round of a queue's scheduler; both go on until the end.
--
-- Base holds the helpers: tests and lists over native numbers, integers, results. Examples holds a
-- codec, a log and a queue at which the theorems are applied.
--
-- Fuel: the loop of Open has one round more than the file has bytes, and each round consumes at
-- least ten. The loops of container/heap have as many rounds as the heap has items, where they need
-- at most its depth, and those of processDue as many as their heap has items, since each round takes
-- one out of it and puts none in.
--
-- Integers: uint64 counters and the int64 of a duration keep their wrap-around; the uint32 length of
-- a frame is bounded by the record size. Times are unbounded nanoseconds.
--
-- Not modelled: the parsing of flags, the delivery of signals and net/http, whose outcomes are the
-- steps that they allow main; the web page of routes.go, and the matching of its patterns by
-- net/http. Go ranges over a map in any order; the models take the order of first
-- insertion for the replayed messages and for the registry, and that of the association list for the
-- messages in flight.
pub mod Base
pub mod Storage
pub mod Queue
pub mod Api
pub mod Server
pub mod Examples
