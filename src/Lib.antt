-- ===== src/Lib.antt =====
-- The append-log queue of pqueue: what is written to flash, how it is read back after a power loss,
-- and the queue and the outbox on top of it. The program's code is C++ under src/pqueue.
--
-- Parts, from the bottom up:
--
-- Base, Base/Tests, Base/Lists, Base/Bits: shared names, Boolean tests on native numbers, lists, and
-- laws of bit operations. Bytes: bytes and little-endian integers of append_log_common.cpp.
--
-- Crc: the checksum of append_log_common.cpp, with the polynomial remainder that it computes in
-- Crc/Reference.
--
-- LogFormat: segment headers and events (append_log_common.cpp and its header). One function serialises
-- ENQUEUE and REWRITE events, which differ in the magic number. LogFormat/Headers has the round trips.
--
-- Replay: the loops of AppendLogStore::scanSegments, append_log_store/store.cpp. Replay finds an event,
-- changes the state and goes on (find_event, apply_found, scan_events); Replay/Segments adds the
-- segment headers, the torn tail and the loop over segments (scan_segment, scan_log). Replay/Events is
-- the specification: a list of events and the queue that it stands for. Replay/Decode and Replay/Torn
-- are about one event, Replay/Contents about its effect, Replay/Recovery about one segment and
-- Replay/Restore about all of them. The scan runs on fuel, one per byte of the segment and one more,
-- which is enough since each event takes a byte at least; running out is an exit of its own, which the
-- theorems rule out. The bytes of a segment's file are read whole, as the code does; the files are a
-- function from generations to bytes.
--
-- Manifest: serialiseManifest and parseManifest (append_log_common.cpp), with the round trip in
-- Manifest/RoundTrip. Manifest/Slots: the two slots, publishManifest, readManifest and applyManifestToRam
-- (append_log_store/manifest.cpp); Manifest/Slots/Election and Manifest/Slots/Publish have the proofs.
-- A range that ends at 2^32 - 1 makes the loop of applyManifestToRam endless; the model is of the others.
--
-- Status, FileSystem: result codes without their messages, and the file operations that the modelled
-- code calls. FileSystemLaws and AppendLaws are what it relies on: a write that succeeds replaces the
-- file, a write at an offset that succeeds replaces what stands there or follows, a truncation cuts, and
-- none touches another file. Store: the fields of AppendLogStore; Store/Names and Store/Tracked: the names
-- of segment files and writeSegmentFileTracked (append_log_store/store.cpp).
--
-- Append: AppendLogStore's operations on the active segment (append_log_store/store.cpp), that is
-- createSegment, rotateSegment, ensureActiveSegment and the three appends. Append/Mount: the mount, with
-- the directory listing, the truncation of a torn tail and the byte counters around the scan.
-- Append/Commit: admission, commits, reads, locks, format and the index, which is the interface to Queue.
-- A method returns its status, the fields in memory and the file system's state. Append/Live has the
-- relation between the written log, its files and the fields in memory, and Append/Rotate the manifest
-- that names the files; Append/Written, Durable, Install, Sealed, Ranges, Room, Tail and Commits carry it
-- through writes, appends and the sealing of a tail; Append/Interface has the operations that Queue calls,
-- Append/Reread and Append/Remount the replay and the mount of the files, and Append/Served the queue of
-- records behind a commit. The admission loops compact
-- while a limit is exceeded, on fuel, and answer `none` when it runs out; the theorems about commits ask
-- for limits that leave room, and hold for any fuel.
--
-- Compaction: the choice of segments (append_log_store/compaction.cpp), where ratios of `float` are
-- compared by a parameter; Compaction/Plan: the decisions before a file is touched; Compaction/Splice:
-- the ranges of the manifest; Compaction/Output: collecting, packing and writing the live records;
-- Compaction/Run: compactRange, compactOneSegment, reclaimDeadFrontSegment, compactIdle and
-- cleanupOneDanglingSegment. Compaction/Packed, Compaction/Ranges, Compaction/Exchange and
-- Compaction/Idle have the proofs.
--
-- Codec, Envelope: the byte readers and writers of envelope.cpp, which http/request_envelope.cpp repeats,
-- and the envelope of a queued payload, whose checksum has a table of its own.
--
-- Http: the envelope of a stored HTTP request (http/request_envelope.cpp), with Http/RoundTrip.
-- Http/Sending: how the HTTP outbox (http/outbox.cpp) posts a stored request, with Http/Classes and
-- Http/Posted;
-- Http/Submit: its submissions. The transport and the callbacks are parameters.
--
-- Queue: queue.cpp, over the interface Store of store_types.h as a record of operations. Queue/Tally has
-- a store that counts what the queue does to it, which any store can be turned into, and the frame of an
-- operation; Queue/Watched the operations on it; Queue/Eviction the end of the eviction loop. The lock is
-- tried ten times, as in the code.
--
-- Outbox: outbox.cpp. Outbox/Policy has the retry delay, the cooldown and the rate limit;
-- Outbox drainOne, drainUpTo and enqueueRecord over a queue, with the callbacks as parameters, and
-- Outbox/Submit submit; Outbox/PolicyLaws, Outbox/Delivery, Outbox/Batch and Outbox/Submission have the
-- proofs.
--
-- Examples: concrete runs, a file system in memory (Examples/Memory), a store with a mounted log on it
-- (Examples/Appends) and a store of the queue's interface with room for two records (Examples/Cells).
--
-- Numbers are native natural numbers; wrap-around on 16, 32 and 64 bits is written out where the code's
-- arithmetic can reach it. Emitted events, diagnostics and the timing code of Arduino builds are left
-- out, since nothing reads them back.
--
-- Not modelled: validateUnlocked and compactFull, Queue::validate, visitRecords and compactIdle and
-- Outbox::validatePayloads, which are left for later; the file systems themselves, the HTTP
-- transports, the lock owner, the diagnostics, the doctor and the tools, which are calls of the
-- system and its libraries or text output. The theorems about the written log begin with a log that
-- has a tail on disk, and say nothing of an append that fails after it wrote a part, nor of the log
-- behind a compaction. The operations of Queue are related to any store by the calls that it
-- confirms; that its order of records is the log's is said of AppendLogStore's commits, not through
-- Queue.
pub mod Base
pub mod Bytes
pub mod Crc
pub mod LogFormat
pub mod Replay
pub mod Manifest
pub mod Status
pub mod Append
pub mod Compaction
pub mod FileSystem
pub mod Store
pub mod Codec
pub mod Envelope
pub mod Http
pub mod Queue
pub mod Outbox
pub mod Examples
