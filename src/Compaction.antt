-- ===== src/Compaction.antt =====
-- src/storage/compaction.c: compaction_run_once and what it calls. Writers go on between the snapshot
-- and the write lock, so that a run takes the database as the snapshot finds it, `start`, and as the
-- lock finds it, `now`; the copy reads the log of `start`, whose bytes no append changes. A NewLoc is
-- the pair of its id and the Location of its other fields. Allocation, and every call of the system
-- but a write, fsync and rename, succeed; `none` is a loop that never ends.
pub mod Held
pub mod Copy
pub mod Drain
pub mod Snapshot
pub mod Live
pub mod Reopen
pub mod Later
pub mod Run
pub mod Abort
pub mod Quiet
pub mod Unsynced
use aegisdb.Prelude.{
  ℕ, zero, suc, ◌+◌, ◌*◌, ◌%◌, ◌^◌, Bool, true, false, Option, none, some, List, [], ◌∷◌, ◌++◌, ltb,
  leb, ◌==◌, ◌&&◌, ◌||◌, not, if◌then◌else◌, ◌>>=◌, length,
}
use aegisdb.Aead.{Aead}
use aegisdb.Record.{MemoryRecord}
use aegisdb.Record.Decode.{record_decode}
use aegisdb.Log.{LogFile, log_frame_overhead}
use aegisdb.Log.Append.{log_append, log_fsync}
use aegisdb.Log.Read.{log_read}
use aegisdb.Log.Open.{is_keyed, key_bytes, log_open}
use aegisdb.HashIndex.{HashEntry, Location, create}
use aegisdb.HashIndex.Map.{puts}
use aegisdb.Recovery.{located}
use aegisdb.Store.{Db}

abbrev pub NewLoc : Type 0
NewLoc = ℕ × Location

abbrev pub is_skipped : HashEntry → Bool
is_skipped e = not e.used || not (e.deleted == 0)

abbrev pub new_loc : HashEntry → NewLoc
new_loc e = (
  e.id,
  record {
    offset = e.offset;
    length = e.length;
    kind = e.kind;
    deleted = 0;
    expires_at = e.expires_at;
  },
)

-- The loop of compaction_snapshot over the buckets; the other half of its answer is the log's size.
unfoldable pub compaction_snapshot : List HashEntry → List NewLoc
compaction_snapshot [] = []
compaction_snapshot (e ∷ es) =
    let rest = compaction_snapshot es in if is_skipped e then rest else new_loc e ∷ rest

-- Where a copy of the entry's frame lies.
abbrev pub copied_to : Location → ℕ → ℕ → Location
copied_to at offset len = record at { offset = offset; length = len % 2 ^ 32; deleted = 0 }

-- The tail's round from log_append on; `again` is the rest of the loop.
abbrev pub drained :
    (LogFile → List NewLoc → Option (Option (LogFile × List NewLoc)))
    → List NewLoc
    → MemoryRecord
    → ℕ
    → LogFile × Option ℕ
    → Option (Option (LogFile × List NewLoc))
drained again locs r len (newlog, none) = some none
drained again locs r len (newlog, some off) =
    again newlog (locs ++ ((r.id, located off len r) ∷ []))

-- `random n` is what the random source gives for the nonce of the nth frame of the new log.
module _ (cipher : Aead) (random : ℕ → Option (List ℕ)) where
  -- The new log and the locations of the frames that it got; `none` is -1.
  unfoldable pub compaction_copy_live :
      LogFile → LogFile → List NewLoc → List NewLoc → Option (LogFile × List NewLoc)
  compaction_copy_live src newlog locs [] = some (newlog, locs)
  compaction_copy_live src newlog locs ((id, at) ∷ snap) = log_read cipher src at.offset >>= λ buf.
      let (newlog', o) = log_append cipher (random (length locs)) buf newlog in
      o >>= λ off.
      compaction_copy_live src newlog' (locs ++ ((id, copied_to at off (length buf)) ∷ [])) snap

  -- The loop over the tail. The outer `none` is a loop that never ends, the inner one `failed`.
  unfoldable pub drain_tail :
      (rounds tail : ℕ) → LogFile → LogFile → List NewLoc → Option (Option (LogFile × List NewLoc))
  drain_tail zero tail src newlog locs = none
  drain_tail (suc n) tail src newlog locs =
      if ltb tail src.size
      then (elim (log_read cipher src tail) [
        | none ↦ some none
        | some buf ↦ elim (record_decode buf) [
          | none ↦ some none
          | some r ↦
              drained (drain_tail n (tail + log_frame_overhead src + length buf) src) locs r
                (length buf) (log_append cipher (random (length locs)) buf newlog)
        ]
      ])
      else some (some (newlog, locs))

-- What else of the database a compaction writes: the generation of the log, and the files of the two
-- checkpoints.
pub record Host : Type 0 where
  pub db : Db
  pub log_generation : ℕ
  pub path_index : Option (List ℕ)
  pub path_sem : Option (List ℕ)

-- The configuration's key, if encryption is on, and its batch of fsync; and how the system answers:
-- whether the new path fits, how many bytes the new file takes, what fsync and rename say.
pub record Setting : Type 0 where
  pub key : Option (List ℕ)
  pub fsync_batch : ℕ
  pub path_fits : Bool
  pub accepts : Option ℕ
  pub synced : Bool
  pub renamed : Bool

-- A log whose log_open failed: each read and write of it fails.
abbrev pub unopened : Setting → LogFile
unopened s = record {
  fd = false;
  bytes = [];
  accepts = some 0;
  size = 0;
  since_fsync = 0;
  fsync_batch = s.fsync_batch;
  encrypted = is_keyed s.key;
  key = key_bytes s.key;
}

-- log_open of a file that takes `accepts` bytes more.
abbrev pub open_again : Aead → Setting → Option ℕ → List ℕ → Option LogFile
open_again cipher s accepts bytes =
    let (status, file, o) = log_open cipher accepts s.fsync_batch s.key bytes in o

module _ (cipher : Aead) (random : ℕ → Option (List ℕ)) (s : Setting) where
  -- compaction_run_once_locked from the reopened log on.
  abbrev pub rebuilt : Host → List NewLoc → Option LogFile → Option (Bool × Host)
  rebuilt now locs none = some (false, record now { db = record now.db { log = unopened s } })
  rebuilt now locs (some lf) = puts create locs >>= λ nh. some (
    true,
    record {
      db = record now.db { hash = nh; log = lf };
      log_generation = (now.log_generation + 1) % 2 ^ 64;
      path_index = none;
      path_sem = none;
    },
  )

  -- The rename failed: the original log is opened again.
  abbrev pub reverted : Host → Option LogFile → Option (Bool × Host)
  reverted now none = some (false, record now { db = record now.db { log = unopened s } })
  reverted now (some lf) = some (false, record now { db = record now.db { log = lf } })

  abbrev pub after_fsync : Host → List NewLoc → LogFile × Bool → Option (Bool × Host)
  after_fsync now locs (newlog, durable) =
      if not durable
      then some (false, now)
      else if s.renamed
      then rebuilt now locs (open_again cipher s newlog.accepts newlog.bytes)
      else reverted now (open_again cipher s now.db.log.accepts now.db.log.bytes)

  -- From the fsync of the new log on.
  unfoldable pub swap_in : Host → LogFile → List NewLoc → Option (Bool × Host)
  swap_in now newlog locs = after_fsync now locs (log_fsync s.synced newlog)

  abbrev pub after_drain : Host → Option (LogFile × List NewLoc) → Option (Bool × Host)
  after_drain now none = some (false, now)
  after_drain now (some (newlog, locs)) = swap_in now newlog locs

  -- The write lock: the tail of the log from the snapshot's end on. Each round moves on by a byte
  -- at least.
  abbrev pub after_copy : ℕ → Host → Option (LogFile × List NewLoc) → Option (Bool × Host)
  after_copy snap_end now none = some (false, now)
  after_copy snap_end now (some (newlog, locs)) =
      drain_tail cipher random (suc now.db.log.size) snap_end now.db.log newlog locs
      >>= after_drain now

  abbrev pub after_open : Db → Host → Option LogFile → Option (Bool × Host)
  after_open start now none = some (false, now)
  after_open start now (some newlog) = after_copy start.log.size now (
      compaction_copy_live cipher random start.log newlog []
        (compaction_snapshot start.hash.buckets))

  -- The answer is whether the log was compacted.
  unfoldable pub compaction_run_once_locked : Db → Host → Option (Bool × Host)
  compaction_run_once_locked start now =
      if not s.path_fits
      then some (false, now)
      else after_open start now (open_again cipher s s.accepts [])

  -- `busy` is whether another compaction holds compaction_lock.
  unfoldable pub compaction_run_once : Bool → Db → Host → Option (Bool × Host)
  compaction_run_once busy start now =
      let run = compaction_run_once_locked start now in if busy then some (false, now) else run

-- The live and the dead entries of the table.
unfoldable pub tally : List HashEntry → ℕ × ℕ
tally [] = (0, 0)
tally (e ∷ es) =
    let (live, dead) = tally es in
    if not e.used
    then (live, dead)
    else if not (e.deleted == 0)
    then (live, dead + 1)
    else (live + 1, dead)

unfoldable pub compaction_worthwhile : Db → Bool
compaction_worthwhile db =
    let (live, dead) = tally db.hash.buckets in ltb 0 dead && leb (live + dead) (dead * 4)
