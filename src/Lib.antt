-- ===== src/Lib.antt =====
-- StreamForge, a message broker: topics have partitions, a partition is a log of segments on disk,
-- clients speak a framed binary protocol over TCP, and consumer groups share the partitions.
--
-- What is modelled, and where:
--   Status        include/streamforge/Status.hpp: StatusCode, and Result<T> as `Result`. Its third case,
--                 `fault`, is no value of the program: memory outside a buffer was read.
--   Storage/Crc32         src/Crc32.cpp: the table and update, calculate, finalize.
--   Storage/RecordCodec   src/RecordCodec.cpp: encode and decode of one record.
--   Storage/File          include/streamforge/FileHandle.hpp: a file is its bytes; a write is given its
--                         outcome, `written` or `failed n` after n bytes; read_at and truncate.
--   Storage/OffsetIndex   src/OffsetIndex.cpp: the sparse index in memory and its file.
--   Storage/LogSegment    src/LogSegment.cpp: a segment as a record of its members and of the bytes of
--                         its three files; append, read, lookup, sealing and its marker. In
--                         Storage/LogSegment/Scan the three scans: recover_and_rebuild_index,
--                         verify_and_rebuild_full, verify_quick.
--   Storage/Partition     src/Partition.cpp: the list of segments with the next offset; append, batches,
--                         rolling, read (Storage/Partition/Read), retention (Storage/Partition/Retention)
--                         and start-up (Storage/Partition/Startup).
--   Wire/ByteOrder        htonl, ntohl, htons and ntohs of winsock2: a parameter with their effect on
--                         bytes as laws, which a little-endian host satisfies.
--   Wire/FrameCodec       src/FrameCodec.cpp: encode and the frames that the broker makes itself.
--   Wire/FrameAssembler   src/FrameAssembler.cpp: the buffer with its read offset. Its contract is
--                         `parse` (Wire/FrameAssembler/Parse), which knows no offsets; the loop that
--                         src/TcpServer.cpp runs over it, without the handling of a frame, is `drain`
--                         (Wire/FrameAssembler/Deliver).
--   Wire/Body             include/streamforge/BodyReaderWriter.hpp: a reader is the bytes and a cursor, and
--                         each read gives the reader after it; a writer is its buffer.
--   Wire/ErrorCode        the error codes of include/streamforge/FrameCodec.hpp.
--   Wire/Messages         include/streamforge/ProtocolMessages.hpp: every request and response as a chain
--                         of reads (Wire/Body/Reads) and of writes; those of groups in
--                         Wire/Messages/Groups, other responses in Wire/Messages/Responses.
--   Topics                src/Topic.cpp, src/TopicManager.cpp: topics as lists of partitions, the choice of
--                         a partition (Topics/Partitioner, src/Partitioner.cpp), and the manager as a map
--                         from names to topics with its rules for names (Topics/Manager).
--   Group/Assignor        src/Assignor.cpp: the Range and the RoundRobin strategies.
--   Group/Coordinator     src/GroupCoordinator.cpp: groups and their members; heartbeat, leave and the
--                         sharing out (rebalance); join (Joining), expiry (Expiry), commit and
--                         fetch_offsets (Commit), describe and debug_check_invariants (Inspection). The
--                         operations that change a group are the steps of a relation (Steps).
--   Group/OffsetStore     src/OffsetStore.cpp: the table of offsets with the partition that it is
--                         written to; the keys of its records (Group/OffsetStore/Key).
--   Server/Handler        src/MessageHandler.cpp: a function for each request, and handle_request (Dispatch).
--                         The broker is the topic manager, the coordinator and the offset store that the
--                         handler refers to; a handler gives the broker after it and the answer. A topic is
--                         shared with the manager's map, so that it is put back there after a batch.
--   Server/Tcp            src/TcpServer.cpp: the connections, which one thread owns, with the task queue and
--                         the completion queue; a turn of the event loop for one connection (Input); the
--                         workers of src/ThreadPool.cpp (Workers). The actions of the thread and of the
--                         workers are the steps of a relation (Steps), with handle_request as one step.
--   Base                  what all share: tests, lists, bytes and words.
--
-- A segment's contract is `Holds` (Storage/LogSegment/Contents): the log file is the concatenated
-- encodings of a list of records, and size, checksum, counters and index agree with this list. Appends
-- keep it (Append), reads rely on it (Read), recovery restores it from whole records and a torn one
-- (Recovery).
--
-- A partition's contract is `Contains` (Storage/Partition/Contents): its segments, the last of which is
-- the open one, hold lists of records under consecutive offsets up to the next offset. An append adds one
-- at the end (Append, Batch), a read takes them from an offset on (Reading), retention removes some in
-- front (Keeping).
--
-- A group's contract is `IsGroup` (Group/Coordinator/Invariant), for topics that stay as they are: its
-- members share out the partitions of its topics. The store's contract is `Synced`
-- (Group/OffsetStore/Durable): its table is what the records of its partition make. The coordinator uses
-- the topic manager and the store as the source does, by lookups and by its commits; the store has its
-- partition, which is the topic's own in the source: after a commit the broker puts it back into the topic
-- (`set_offsets` in Server/Handler/GroupRequests).
--
-- A connection's contract is `InOrder` (Server/Tcp/Order) with `Flows` (Server/Tcp/Flow): its requests are
-- answered one at a time and in their order, and its socket and buffer hold the answers one after
-- another. The two history fields of a connection, which no operation reads, say what has come and what
-- was answered. The moves of the workers and the taking of completions are a part of the steps
-- (Server/Tcp/Progress); what is left to do is measured in Server/Tcp/Work.
--
-- Numbers are natural numbers. The uint32_t and uint64_t of the source are kept below 2 ^ 32 and 2 ^ 64
-- by `%` where the source's arithmetic wraps; an int64_t is its bit pattern, compared by `signed_lt`.
-- memcpy of a word is little-endian, as on the x86-64 machines that the broker is built for. A string is
-- its bytes. The structures of the standard library are lists: vector, unordered_map (an association
-- list) and the results of upper_bound and sort.
--
-- Loops are structural recursion, but for five with fuel. The scan of a log file takes as much as the
-- file has bytes, where each round reads 28 of them at least; `drain` takes one more than the buffer has
-- bytes, where each round hands out a frame of nine at least; a read of a segment takes one more than
-- the segment has bytes, where each round goes on by 28 of them; the loading of the offsets takes one
-- more than the partition has offsets, where each round reads one record at least. The loop over the
-- frames that have come in (`extract_all`) takes what `drain` does. The theorems that use them include
-- that this is enough.
--
-- Not modelled: messages of errors and the log (the text of an error frame is an argument of the
-- handlers); opening, flushing and closing of files, of which only the outcome of a write is seen; locks:
-- an operation is one step; the listing of a partition's directory, which is given as its segment files
-- in order; of the server the calls of the sockets, of which only the outcome is seen, the polling, and
-- the end of the threads; src/Connection.cpp, which the server does not use; the metadata file of the
-- topics and the start of the topic manager from it; the thread of src/RetentionManager.cpp, which calls
-- the retention of each partition (Storage/Partition/Retention); the programs.
pub mod Base
pub mod Status
pub mod Storage
pub mod Wire
pub mod Topics
pub mod Group
pub mod Server
