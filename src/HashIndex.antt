-- ===== src/HashIndex.antt =====
-- src/storage/hash_index.c: from a record's id to its latest frame in the log, in a table with open
-- addressing. `cap` is the length of `buckets`, a power of two, so that `& mask` is `% cap`. The
-- load test of hash_index_put compares doubles; for a capacity that is a power of two below 2^51 it
-- is the test on integers written here, since 7 * cap is no multiple of 10. Allocation succeeds, so
-- that the result `none` of hash_index_put means a probe that never ends. A checkpoint is a list of
-- bytes, and the host's integers are little-endian; `load` is hash_index_load behind ckpt_read.
pub mod Keys
pub mod Put
pub mod Map
pub mod Entries
pub mod Checkpoint
pub mod File
use aegisdb.Prelude.{
  ℕ, zero, suc, ◌+◌, ◌-◌, ◌*◌, ◌/◌, ◌%◌, ◌^◌, Bool, true, false, Option, none, some, List, [], ◌∷◌,
  ◌++◌, ltb, leb, ◌==◌, ◌&&◌, ◌||◌, not, if◌then◌else◌, ◌>>=◌, length, get_or, set, take, drop,
  replicate,
}
use aegisdb.Bytes.{put_u32le, put_u64le, get_u32le, get_u64le}
use aegisdb.CStrings.{is_same}
use aegisdb.Crc32.{crc32_compute, crc32_update}
use aegisdb.Mix.{mix64}
use aegisdb.OpenTable.{probe_for}

pub record HashEntry : Type 0 where
  pub id : ℕ
  pub offset : ℕ
  pub expires_at : ℕ
  pub length : ℕ
  pub kind : ℕ
  pub deleted : ℕ
  pub used : Bool

pub record HashIndex : Type 0 where
  pub buckets : List HashEntry
  pub count : ℕ

-- A bucket of calloc.
abbrev pub zero_entry : HashEntry
zero_entry = record {
  id = 0;
  offset = 0;
  expires_at = 0;
  length = 0;
  kind = 0;
  deleted = 0;
  used = false;
}

unfoldable pub create : HashIndex
create = record { buckets = replicate 1024 zero_entry; count = 0 }

-- The test on which the loop of find_slot ends.
abbrev pub is_stop : ℕ → HashEntry → Bool
is_stop id e = not e.used || (e.id == id)

-- The index of the bucket that find_slot returns, with at most one round for each bucket.
unfoldable pub find_slot : List HashEntry → ℕ → Option ℕ
find_slot buckets id =
    probe_for (is_stop id) zero_entry buckets (length buckets) (mix64 id % length buckets)

-- The loop of rehash over the old buckets.
unfoldable pub rehash_from : List HashEntry → List HashEntry → Option (List HashEntry)
rehash_from nb [] = some nb
rehash_from nb (e ∷ es) = elim e.used [
  | true ↦ find_slot nb e.id >>= λ k. rehash_from (set nb k e) es
  | false ↦ rehash_from nb es
]

unfoldable pub rehash : HashIndex → ℕ → Option HashIndex
rehash h newcap =
    rehash_from (replicate newcap zero_entry) h.buckets >>= λ nb. some (record h { buckets = nb })

-- The arguments that hash_index_put stores under the id.
pub record Location : Type 0 where
  pub offset : ℕ
  pub length : ℕ
  pub kind : ℕ
  pub deleted : ℕ
  pub expires_at : ℕ

abbrev pub entry_at : ℕ → Location → HashEntry
entry_at id at = record {
  id = id;
  offset = at.offset;
  expires_at = at.expires_at;
  length = at.length;
  kind = at.kind;
  deleted = at.deleted;
  used = true;
}

-- hash_index_put from the slot on.
unfoldable pub store : HashIndex → ℕ → Location → ℕ → HashIndex
store h id at k =
    let e = get_or h.buckets k zero_entry in
    record {
      buckets = set h.buckets k (entry_at (if e.used then e.id else id) at);
      count = if e.used then h.count else h.count + 1;
    }

unfoldable pub put : HashIndex → ℕ → Location → Option HashIndex
put h id at =
    let cap = length h.buckets in
    let grown = rehash h (cap * 2) in
    (if ltb (7 * cap) (10 * (h.count + 1)) then grown else some h) >>= λ h.
    find_slot h.buckets id >>= λ k. some (store h id at k)

abbrev pub if_live : HashEntry → Option HashEntry
if_live e = if e.used && (e.deleted == 0) then some e else none

unfoldable pub get : HashIndex → ℕ → Option HashEntry
get h id = find_slot h.buckets id >>= λ k. if_live (get_or h.buckets k zero_entry)

-- The bytes of an entry in a checkpoint.
unfoldable pub put_entry : HashEntry → List ℕ
put_entry e =
    put_u64le e.id
    ++ put_u64le e.offset
    ++ put_u32le e.length
    ++ ((e.kind % 256) ∷ (e.deleted % 256) ∷ put_u64le e.expires_at)

-- The loop of hash_index_serialize: how many entries it writes, and their bytes.
unfoldable pub write_entries : List HashEntry → ℕ × List ℕ
write_entries [] = (0, [])
write_entries (e ∷ es) =
    let (written, bytes) = write_entries es in
    if e.used then (written + 1, put_entry e ++ bytes) else (written, bytes)

-- "AIDX"
abbrev pub magic : List ℕ
magic = 65 ∷ 73 ∷ 68 ∷ 88 ∷ []

unfoldable pub serialize : HashIndex → (covered next_id : ℕ) → List ℕ
serialize h covered next_id =
    let (written, entries) = write_entries h.buckets in
    let header =
      magic ++ put_u32le 4 ++ put_u64le written ++ put_u64le covered ++ put_u64le next_id in
    header ++ put_u32le (crc32_update (crc32_compute header) entries) ++ entries

unfoldable pub read_entry : List ℕ → ℕ × Location
read_entry r = (
  get_u64le r,
  record {
    offset = get_u64le (drop 8 r);
    length = get_u32le (drop 16 r);
    kind = get_or r 20 0;
    deleted = get_or r 21 0;
    expires_at = get_u64le (drop 22 r);
  },
)

-- The loop of hash_index_load over the entries.
unfoldable pub load_entries : HashIndex → ℕ → List ℕ → Option HashIndex
load_entries h zero r = some h
load_entries h (suc rounds) r =
    let (id, at) = read_entry r in put h id at >>= λ h'. load_entries h' rounds (drop 30 r)

-- The index with the entries, and the two out-parameters. `none` is -1.
unfoldable pub load : HashIndex → List ℕ → Option (HashIndex × ℕ × ℕ)
load h file =
    let cnt = get_u64le (drop 8 file) in
    let entries = drop 36 file in
    let crc = crc32_update (crc32_compute (take 32 file)) entries in
    if ltb (length file) 36 || not (is_same (take 4 file) magic)
    then none
    else if not (get_u32le (drop 4 file) == 4)
    then none
    else if ltb ((2 ^ 64 - 2) / 30) cnt
    then none
    else if not (length file == 36 + cnt * 30)
    then none
    else if not (crc == get_u32le (drop 32 file))
    then none
    else load_entries h cnt entries >>= λ h'.
        some (h', get_u64le (drop 16 file), get_u64le (drop 24 file))
