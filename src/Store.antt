-- ===== src/Store.antt =====
-- src/query/query_engine.c: append_and_hash, the one way by which a record gets into the log, and
-- load_record, which reads it. Of the database these two touch the log, the hash index, the usage of
-- the tenants and three fields of the configuration; auth_on is `auth_token_count > 0`. The locks are
-- left out, and `none` is a probe of the hash index that never ends.
pub mod Loads
pub mod Writes
pub mod Startup
pub mod Opening
pub mod Reread
pub mod Restart
pub mod Broken
use aegisdb.Prelude.{
  ℕ, ◌+◌, ◌%◌, ◌^◌, Bool, true, false, Option, none, some, List, ◌⊎◌, inl, inr, ◌>>=◌, ◌==◌, ◌&&◌,
  not, if◌then◌else◌, length,
}
use aegisdb.Aead.{Aead}
use aegisdb.Record.{MemoryRecord}
use aegisdb.Record.Encode.{record_encode}
use aegisdb.Record.Decode.{record_decode}
use aegisdb.Log.{LogFile}
use aegisdb.Log.Append.{log_append}
use aegisdb.Log.Read.{log_read}
use aegisdb.HashIndex.{HashEntry, HashIndex, put, get}
use aegisdb.Recovery.{located}
use aegisdb.Tenant.{
  ℤ, Tenant, diff, positive_part, is_zero, tenant_usage_adjust, tenant_usage_would_exceed,
}

-- aegis_status_t
pub data AegisStatus : Type 0 where
  aegis_ok aegis_err_invalid_request aegis_err_not_found aegis_err_payload_too_large : AegisStatus
  aegis_err_immutable aegis_err_not_ready aegis_err_unauthorized aegis_err_forbidden : AegisStatus
  aegis_err_quota_exceeded aegis_err_rate_limited aegis_err_read_only aegis_err_memory_limit :
      AegisStatus
  aegis_err_internal : AegisStatus

pub record Db : Type 0 where
  pub hash : HashIndex
  pub log : LogFile
  pub tenants : List Tenant
  pub auth_on : Bool
  pub max_records : ℕ
  pub max_bytes : ℕ

-- Whether a version of the record is live, and its bytes.
abbrev pub live_one : Option HashEntry → ℕ
live_one none = 0
live_one (some e) = 1

abbrev pub live_bytes : Option HashEntry → ℕ
live_bytes none = 0
live_bytes (some e) = e.length

abbrev pub namespace : Db → MemoryRecord → Option (List ℕ)
namespace db rec = if db.auth_on then rec.agent_id else none

-- d_records and d_bytes, of a record whose encoding has `len` bytes.
abbrev pub d_records : Db → MemoryRecord → ℤ
d_records db rec = diff (if rec.deleted == 0 then 1 else 0) (live_one (get db.hash rec.id))

abbrev pub d_bytes : Db → MemoryRecord → ℕ → ℤ
d_bytes db rec len = diff (if rec.deleted == 0 then len else 0) (live_bytes (get db.hash rec.id))

abbrev pub is_over_quota : Db → MemoryRecord → ℕ → Option (List ℕ) → Bool
is_over_quota db rec len none = false
is_over_quota db rec len (some ns) =
    tenant_usage_would_exceed db.tenants ns (positive_part (d_records db rec))
      (positive_part (d_bytes db rec len)) db.max_records db.max_bytes

abbrev pub accounted : Db → MemoryRecord → ℕ → Option (List ℕ) → List Tenant
accounted db rec len none = db.tenants
accounted db rec len (some ns) =
    if is_zero (d_records db rec) && is_zero (d_bytes db rec len)
    then db.tenants
    else tenant_usage_adjust db.tenants ns (d_records db rec) (d_bytes db rec len)

-- append_and_hash behind log_append: the log that it left, and the frame's offset or its failure.
abbrev pub hash_appended : Db → MemoryRecord → ℕ → LogFile → Option ℕ → Option (AegisStatus × Db)
hash_appended db rec len log none = some (aegis_err_internal, record db { log = log })
hash_appended db rec len log (some off) = put db.hash rec.id (located off len rec) >>= λ h.
    some (
      aegis_ok,
      record db { log = log; hash = h; tenants = accounted db rec len (namespace db rec) },
    )

abbrev pub append_encoded :
    Aead → Option (List ℕ) → Db → MemoryRecord → Option (List ℕ) → Option (AegisStatus × Db)
append_encoded cipher random db rec none = some (aegis_err_internal, db)
append_encoded cipher random db rec (some buf) =
    let (log, off) = log_append cipher random buf db.log in
    if is_over_quota db rec (length buf) (namespace db rec)
    then some (aegis_err_quota_exceeded, db)
    else hash_appended db rec (length buf) log off

-- `random` is what the random source gives for the frame's nonce.
unfoldable pub append_and_hash :
    Aead → Option (List ℕ) → Db → MemoryRecord → Option (AegisStatus × Db)
append_and_hash cipher random db rec = append_encoded cipher random db rec (record_encode rec)

-- load_record from the entry on, and from the frame's payload on.
abbrev pub load_decoded : Option MemoryRecord → AegisStatus ⊎ MemoryRecord
load_decoded none = inl aegis_err_internal
load_decoded (some r) = inr r

abbrev pub load_payload : Option (List ℕ) → AegisStatus ⊎ MemoryRecord
load_payload none = inl aegis_err_internal
load_payload (some buf) = load_decoded (record_decode buf)

abbrev pub load_entry : Aead → Db → Option HashEntry → AegisStatus ⊎ MemoryRecord
load_entry cipher db none = inl aegis_err_not_found
load_entry cipher db (some e) = load_payload (log_read cipher db.log e.offset)

unfoldable pub load_record : Aead → Db → ℕ → AegisStatus ⊎ MemoryRecord
load_record cipher db id = load_entry cipher db (get db.hash id)
