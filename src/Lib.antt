-- ===== src/Lib.antt =====
-- The storage and memory core of AegisDB, a memory database written in C: the stored record and
-- its binary format, the append-only log that keeps it, the hash index that finds its latest frame,
-- the way a record is written and read, the index recovered and the log compacted, the indexes that
-- find records by time and by tag, the volatile working memory, and the set of contradictions that
-- an inference pass reports.
--
-- Parts, and the code that each of them is about (paths from the root of the repository):
--   Bytes          include/aegisdb/endian.h: aegis_put_u16le and its five siblings
--   Record         include/aegisdb/record.h, src/memory/record.c: the record, with
--     Record.Route    record_add_route, route_cmp, derivation_depth, record_clear_derivation
--     Record.Fact     record_set_fact;  Record.Tags: record_set_tags, record_add_relationship
--     Record.Encode   record_encode;  Record.Cursor, Record.Decode: the cursor and record_decode
--     Record.Clone    record_clone
--     Record.Valid    the records that the codec carries without loss
--   Crc32          src/util/crc32.c
--   Aead           include/aegisdb/aead.h: what the log asks of a cipher, and the one it has, with
--     Aead.ChaCha     src/util/chacha20poly1305.c: the block function and the keystream
--     Aead.Poly1305, Aead.Finish  poly1305_init, _blocks, _update, _finish
--     Aead.XChaCha    aead_seal, aead_open, aead_mac
--   Log            src/storage/log.c, include/aegisdb/log.h: the file, headers and writes, with
--     Log.Append      log_append, log_fsync, log_close;  Log.Read: log_read, log_truncate
--     Log.Resync      find_next_frame;  Log.Scan: log_scan
--     Log.Open        log_open, migrate_legacy_log, verify_first_frame, with
--     Log.Open.Torn   log_open on a first frame that broke off
--     Log.Frames, Log.Torn, Log.Durable  what a file of frames is, and what a broken write leaves
--   OpenTable      the probing that the hash index does, for a table of any entries
--   Ckpt           src/storage/ckpt_crypt.c: the envelope of a checkpoint's file
--   HashIndex      src/storage/hash_index.c: hash_index_put, _get, _serialize, with
--     HashIndex.Keys, HashIndex.Put, HashIndex.Map  the table as a finite map
--     HashIndex.Checkpoint, HashIndex.File  hash_index_save and hash_index_load
--   Recovery       src/storage/recovery.c: the first pass of recovery_run, with
--     Recovery.Scan, Recovery.Result, Recovery.Restart  what it finds behind frames
--     Recovery.Rescan, Recovery.Trim  with a checkpoint or without, and the log that it leaves
--   Tenant         src/util/tenant.c: tenant_usage_adjust, tenant_usage_would_exceed
--   Store          src/query/query_engine.c: append_and_hash, load_record, with
--     Store.Startup   src/storage/db.c: db_open and db_checkpoint, for the log and the hash index
--     Store.Loads, Store.Writes  the latest records of its log
--     Store.Opening, Store.Reread, Store.Restart, Store.Broken  starts, behind a broken write too
--   Compaction     src/storage/compaction.c: compaction_run_once, compaction_worthwhile, with
--     Compaction.Held, .Copy, .Drain, .Snapshot, .Live, .Later  what gets copied
--     Compaction.Reopen, .Run, .Abort, .Unsynced, .Quiet  the new log in the place of the old
--   History        runs of writes, broken writes, restarts, checkpoints and compactions, with
--     History.Safe, .Steps, .Restart, .Broken, .View  what holds between the steps
--   Bisect         the binary search that the sorted indexes share
--   TimeIndex      src/storage/time_index.c: time_index_add, _remove, _range, _range_recent
--   CStrings       strcmp and the hash of strings;  Mix: include/aegisdb/hash_mix.h
--   TagIndex       src/storage/tag_index.c: tag_index_add, _remove, _query, _count
--   UsageIndex     src/storage/usage_index.c: open addressing with tombstones
--   WorkingBuffer  src/memory/working_buffer.c: working_store_add, _get, _take, _sweep, _count
--   ConflictSet    src/query/conflict_set.c: conflict_set_add, _list, _clear
-- Prelude has the names and lemmas that all of them share, Tests the concrete inputs.
--
-- How the code corresponds. A struct is a record, an array and its count are one list, and an
-- owned string is the list of its bytes before the NUL, with `none` for NULL. Every function takes
-- the state and returns the new one; what the C code writes to an out-parameter or returns is the
-- other half of the pair. A 64-bit or 32-bit value is a natural number, with the wrap-around
-- written out where the code can reach it. A float is its bit pattern, since the code of these
-- parts only moves floats and compares a weight with 0 and 1. A call of another part is the
-- function of that part: record_decode adds its routes by record_add_route and its fact by
-- record_set_fact, working_store_add and working_store_get copy by record_clone.
--
-- The file behind the log is its list of bytes. A write may fail after any number of bytes, which
-- stay in the file; the random nonce and what fsync answers are arguments. A callback of log_scan
-- passes its state on. The log takes its cipher by the interface of Aead, whose laws are that a
-- receiver gets back what was sealed, a text as long as the payload and a tag of 16 bytes.
--
-- The write path composes the parts: append_and_hash encodes by Record.Encode, tests the quota of
-- Tenant, appends by Log.Append and puts the frame's offset into HashIndex; load_record goes the way
-- back. recovery_run loads the checkpoint through Ckpt and hands scan_cb to log_scan. db_open opens
-- the log by Log.Open, which may refuse it, recovers, and raises the next id to that of metadata.db;
-- a run restarts by it, with the file that db_checkpoint wrote last if no compaction dropped it.
-- The log of a run is empty at first, and a run keeps one key of the configuration. A compaction
-- reads and appends by Log, opens its new log by Log.Open and rebuilds HashIndex. It takes the
-- database twice, as its snapshot finds it and as its write lock does, since writers go on in
-- between; what the system answers is an argument. History composes them: what a run reaches is an
-- inductive relation between a database and the records that it has to show.
--
-- Bounds and fuel. The loops of log_scan and find_next_frame get one round for each byte that is
-- left and one more, since each round moves on by a byte at least; to run out of fuel is an answer
-- of its own. The binary search runs on fuel, one round for each element of the array, and it halves
-- its interval in each round: with that fuel it ends with an empty interval. A probe of the usage
-- index takes one round for each slot, as the loop in the code does; a probe of the hash index, whose
-- loop has no bound, takes one round for each bucket too, and to find no bucket in them is an answer
-- of its own. The tail of a compaction takes one round for each byte of the log and one more, since
-- each frame has a byte at least. All other loops run along a list.
--
-- Assumed. Allocation succeeds, and every system call but pwrite, fsync, close and a rename;
-- file offsets do not reach 2^63. The calls on the working store are atomic, since each of them holds
-- the lock of the store from its first step to its last; the calls on the other parts are made
-- under locks of the callers. Strings contain no NUL.
--
-- Not modelled. The second pass of recovery, which rebuilds the other indexes, the rest of db_open
-- and db_checkpoint, which serves those indexes and metadata.db, db_close, the maintenance thread
-- with its sweep of expired records, the edge, fact, lexical and vector indexes, the handlers
-- of the query engine and inference, the server with its protocol and replication, the token bucket
-- of the tenants, configuration and SHA-256: they branch on floats, on JSON trees of another library
-- or on the other indexes, or do I/O. In the cipher: that its limbs compute modulo 2^130 - 5, and its
-- secrecy. In the parts that are modelled: the functions that free memory and those that count
-- resident bytes, and the checkpoint of the usage index.
mod Prelude
pub mod Bytes
pub mod Record
pub mod Bisect
pub mod TimeIndex
pub mod Aead
pub mod Crc32
pub mod Log
pub mod OpenTable
pub mod Ckpt
pub mod Compaction
pub mod History
pub mod HashIndex
pub mod Recovery
pub mod Tenant
pub mod Store
pub mod CStrings
pub mod ConflictSet
pub mod TagIndex
pub mod Mix
pub mod UsageIndex
pub mod WorkingBuffer
mod Tests
