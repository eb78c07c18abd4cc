-- ===== src/Recovery.antt =====
-- src/storage/recovery.c: the first pass of recovery_run, which rebuilds the hash index, the id
-- allocator and the end of the log. Of the database, this pass reads and writes these three. Every
-- call of the system succeeds, so that none of its error paths is taken; `none` means a loop that
-- never ends. log_fsync at the end writes the file's bytes as they are.
pub mod Scan
pub mod Result
pub mod Restart
pub mod Trim
pub mod Rescan
use aegisdb.Prelude.{
  ℕ, ◌+◌, ◌-◌, ◌%◌, ◌^◌, Bool, true, false, Option, none, some, List, ◌>>=◌, ◌==◌, ◌&&◌, not, ltb,
  leb, if◌then◌else◌, length,
}
use aegisdb.Aead.{Aead}
use aegisdb.Record.{MemoryRecord}
use aegisdb.Record.Decode.{record_decode}
use aegisdb.Log.{LogFile}
use aegisdb.Log.Append.{log_fsync}
use aegisdb.Log.Read.{log_truncate}
use aegisdb.Log.Scan.{LogScanResult, log_scan}
use aegisdb.HashIndex.{HashIndex, Location, create, put}
use aegisdb.HashIndex.File.{hash_index_load}

pub record ScanCtx : Type 0 where
  pub hash : HashIndex
  pub max_id : ℕ

abbrev pub located : ℕ → ℕ → MemoryRecord → Location
located offset len r = record {
  offset = offset;
  length = len % 2 ^ 32;
  kind = r.type % 256;
  deleted = if r.deleted == 0 then 0 else 1;
  expires_at = r.expires_at;
}

abbrev pub noted : MemoryRecord → ScanCtx → HashIndex → ScanCtx
noted r sc h = record { hash = h; max_id = if ltb sc.max_id r.id then r.id else sc.max_id }

abbrev pub scan_record : ℕ → ℕ → Option MemoryRecord → ScanCtx → Option ScanCtx
scan_record offset len none sc = some sc
scan_record offset len (some r) sc =
    put sc.hash r.id (located offset len r) >>= λ h. some (noted r sc h)

unfoldable pub scan_cb : ℕ → List ℕ → ScanCtx → Option ScanCtx
scan_cb offset payload sc = scan_record offset (length payload) (record_decode payload) sc

-- The callback as log_scan takes it; it never aborts.
abbrev pub scan_on : ℕ → List ℕ → Option ScanCtx → Option ScanCtx × Bool
scan_on offset payload o = (o >>= scan_cb offset payload, false)

-- The index of the checkpoint, the bytes of the log that it covers, and the largest id that it
-- knows of; without a checkpoint that can be used, an empty index for the whole log.
pub record Start : Type 0 where
  pub hash : HashIndex
  pub scan_from : ℕ
  pub max_id : ℕ

abbrev pub start_with : LogFile → HashIndex → Option (HashIndex × ℕ × ℕ) → Start
start_with lf h none = record { hash = h; scan_from = 0; max_id = 0 }
start_with lf h (some (loaded, covered, snap_next_id)) =
    if leb covered lf.size
    then record { hash = loaded; scan_from = covered; max_id = snap_next_id - 1 }
    else record { hash = create; scan_from = 0; max_id = 0 }

pub record Recovered : Type 0 where
  pub hash : HashIndex
  pub next_id : ℕ
  pub log : LogFile

abbrev pub trimmed : LogFile → LogScanResult → LogFile
trimmed lf res =
    if ltb res.truncate_to lf.size then (log_fsync true (log_truncate res.truncate_to lf)).0 else lf

-- recovery_run from the scan of the log on.
unfoldable pub run_from : Aead → LogFile → Start → Option Recovered
run_from cipher lf start = do
  (o, res) ←
      log_scan cipher lf scan_on start.scan_from lf.size
        (some (record { hash = start.hash; max_id = start.max_id }))
  sc ← o
  some (record { hash = sc.hash; next_id = (sc.max_id + 1) % 2 ^ 64; log = trimmed lf res })

-- `h` is the index of the new database, `path_index` the checkpoint's file, if there is one, and the
-- key that of the configuration, if encryption is on.
unfoldable pub recovery_run :
    Aead → Option (List ℕ) → LogFile → HashIndex → Option (List ℕ) → Option Recovered
recovery_run cipher key lf h path_index =
    run_from cipher lf (start_with lf h (hash_index_load cipher key h path_index))
