-- ===== src/History.antt =====
-- src/query/query_engine.c, src/storage/db.c, src/storage/recovery.c and src/storage/compaction.c in
-- one run of the server: records are written, a write breaks off and the server comes back, it
-- restarts, a checkpoint is written, the log is compacted. A view is what load_record answers for each id.
pub mod Safe
pub mod Restart
pub mod Steps
pub mod Broken
pub mod View
use aegisdb.Prelude.{
  ℕ, ◌<◌, ◌≡◌, ◌⊎◌, inl, Bool, true, false, Option, none, some, List, [], ◌==◌, if◌then◌else◌,
  length, ◌≤◌, ◌^◌, ◌-◌, ◌/◌, All,
}
use aegisdb.Aead.{Aead}
use aegisdb.Record.{MemoryRecord}
use aegisdb.Record.Valid.{IsValid}
use aegisdb.Record.Encode.{record_encode}
use aegisdb.Log.{LogFile}
use aegisdb.Log.Append.Frame.{IsAppendable, new_frame}
use aegisdb.Log.Frames.{frame_bytes}
use aegisdb.HashIndex.{create}
use aegisdb.Recovery.{Recovered}
use aegisdb.Store.{
  AegisStatus, aegis_ok, aegis_err_not_found, aegis_err_internal, Db, append_and_hash,
}
use aegisdb.Store.Loads.{visible}
use aegisdb.Store.Reread.{restarted}
use aegisdb.Store.Startup.{Startup, db_open, db_checkpoint}
use aegisdb.Log.Open.{is_keyed, key_bytes}
use aegisdb.HashIndex.Entries.{IsNarrow}
use aegisdb.Compaction.{Setting, Host, compaction_run_once}
use aegisdb.Compaction.Run.{IsWilling}
use aegisdb.Compaction.Unsynced.{IsUnsynced}

abbrev pub View : Type 0
View = ℕ → AegisStatus ⊎ MemoryRecord

abbrev pub is_ok : AegisStatus → Bool
is_ok aegis_ok = true
is_ok _ = false

-- The view behind a write that was answered with the status.
abbrev pub answered : AegisStatus → MemoryRecord → View → View
answered status rec view id =
    if is_ok status then (if rec.id == id then visible (some rec) else view id) else view id

-- A valid record, whose frame fits in the log, and a nonce of 24 bytes.
pub record IsWritable (nonce : List ℕ) (rec : MemoryRecord) : Type 0 where
  pub valid : IsValid rec
  pub buf : List ℕ
  pub encoded : record_encode rec ≡ some buf
  pub appendable : IsAppendable nonce buf

-- The log takes as many bytes more.
abbrev pub limited : Option ℕ → Db → Db
limited accepts db = record db { log = record db.log { accepts = accepts } }

-- The server comes back with what db_open found.
abbrev pub recovered : Db → Recovered → Db
recovered db r = limited none (restarted db r)

abbrev pub IsEmpty : Db → Type 0
IsEmpty db = (db.hash ≡ create) × (db.log.bytes ≡ []) × (db.log.size ≡ 0) × (db.log.accepts ≡ none)

-- The log is in the mode, and under the key, that the configuration asks for.
abbrev pub IsUnder : Option (List ℕ) → LogFile → Type 0
IsUnder key lf = (lf.encrypted ≡ is_keyed key) × (lf.key ≡ key_bytes key)

-- A checkpoint with a nonce of 24 bytes, and numbers that fit the fields of its file.
pub record IsWritableIndex (nonce : List ℕ) (next_id : ℕ) (db : Db) : Type 0 where
  pub wide : length nonce ≡ 24
  pub narrow : All IsNarrow db.hash.buckets
  pub few : db.hash.count ≤ (2 ^ 64 - 2) / 30
  pub covered_fits : db.log.size < 2 ^ 64
  pub next_fits : next_id < 2 ^ 64

-- What a run under one key of the configuration reaches, with the view that its acknowledged writes
-- call for. A checkpoint is written at any time, as db_close does and a timer, and its file is what
-- the next start reads.
pub data Run (cipher : Aead) (key : Option (List ℕ)) : Host → View → Type 0 where
  starts :
      (host : Host)
      → IsEmpty host.db
      → IsUnder key host.db.log
      → host.path_index ≡ none
      → Run cipher key host (λ id. inl aegis_err_not_found)
  writes :
      {host : Host} {view : View}
      → Run cipher key host view
      → (nonce : List ℕ) (rec : MemoryRecord) → IsWritable nonce rec
      → (status : AegisStatus) (db : Db)
      → append_and_hash cipher (some nonce) host.db rec ≡ some (status, db)
      → Run cipher key (record host { db = db }) (answered status rec view)
  breaks :
      {host : Host} {view : View}
      → Run cipher key host view
      → (nonce : List ℕ) (rec : MemoryRecord) (w : IsWritable nonce rec) (n : ℕ)
      → n < length (frame_bytes (new_frame cipher host.db.log nonce w.buf))
      → (db : Db)
      → append_and_hash cipher (some nonce) (limited (some n) host.db) rec
        ≡ some (aegis_err_internal, db)
      → (s : Startup) → s.key ≡ key
      → (r : Recovered) → db_open cipher s db.log.bytes host.path_index ≡ some (some r)
      → Run cipher key (record host { db = recovered db r }) view
  restarts :
      {host : Host} {view : View}
      → Run cipher key host view
      → (s : Startup) → s.key ≡ key
      → (r : Recovered) → db_open cipher s host.db.log.bytes host.path_index ≡ some (some r)
      → Run cipher key (record host { db = recovered host.db r }) view
  checkpoints :
      {host : Host} {view : View}
      → Run cipher key host view
      → (nonce : List ℕ) (next_id : ℕ) → IsWritableIndex nonce next_id host.db
      → (file : List ℕ) → db_checkpoint cipher key (some nonce) next_id host.db ≡ some file
      → Run cipher key (record host { path_index = some file }) view
  compacts :
      {host : Host} {view : View}
      → Run cipher key host view
      → (s : Setting) → IsWilling s
      → s.key ≡ key
      → (nonces : ℕ → List ℕ) → ((n : ℕ) → length (nonces n) ≡ 24)
      → (answer : Bool) (after : Host)
      → compaction_run_once cipher (λ n. some (nonces n)) s false host.db host
        ≡ some (answer, after)
      → Run cipher key after view
  stops :
      {host : Host} {view : View}
      → Run cipher key host view
      → (s : Setting) → IsUnsynced s
      → (nonces : ℕ → List ℕ) → ((n : ℕ) → length (nonces n) ≡ 24)
      → (answer : Bool) (after : Host)
      → compaction_run_once cipher (λ n. some (nonces n)) s false host.db host
        ≡ some (answer, after)
      → Run cipher key after view
