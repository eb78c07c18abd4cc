-- ===== src/Store/Startup.antt =====
-- src/storage/db.c: what db_open and db_checkpoint do with the log, the hash index and the next id.
-- The file of the checkpoint is its bytes, or none if it is missing; the other indexes are left out.
use aegisdb.Prelude.{ℕ, Option, none, some, List, ltb, if◌then◌else◌, ◌>>=◌}
use aegisdb.Aead.{Aead}
use aegisdb.Log.Open.{Opened, log_open}
use aegisdb.HashIndex.{create}
use aegisdb.HashIndex.File.{hash_index_save}
use aegisdb.Recovery.{Recovered, recovery_run}
use aegisdb.Store.{Db}

-- The configuration's key, if encryption is on, and its batch of fsync; how many bytes the log's file
-- takes; and the next id that metadata.db tells, 0 if it tells none.
pub record Startup : Type 0 where
  pub key : Option (List ℕ)
  pub fsync_batch : ℕ
  pub accepts : Option ℕ
  pub meta_next : ℕ

-- The next id is not below the one of metadata.db.
abbrev pub floored : ℕ → Recovered → Recovered
floored meta_next r = if ltb r.next_id meta_next then record r { next_id = meta_next } else r

-- db_open behind log_open. The outer `none` is a loop that never ends, the inner one a start that
-- fails.
abbrev pub start_on : Aead → Startup → Option (List ℕ) → Opened → Option (Option Recovered)
start_on cipher s path_index (status, file, none) = some none
start_on cipher s path_index (status, file, some lf) =
    recovery_run cipher s.key lf create path_index >>= λ r. some (some (floored s.meta_next r))

unfoldable pub db_open : Aead → Startup → List ℕ → Option (List ℕ) → Option (Option Recovered)
db_open cipher s path_log path_index =
    start_on cipher s path_index (log_open cipher s.accepts s.fsync_batch s.key path_log)

-- The new file of the checkpoint; `none` is -1, which leaves the old file. `random` is what the random
-- source gives for its nonce.
unfoldable pub db_checkpoint : Aead → Option (List ℕ) → Option (List ℕ) → ℕ → Db → Option (List ℕ)
db_checkpoint cipher key random next_id db =
    hash_index_save cipher key random db.hash db.log.size next_id
