-- ===== src/HashIndex/Checkpoint.antt =====
-- hash_index_load of the bytes that hash_index_serialize wrote.
use aegisdb.Prelude.{
  ℕ, ◌+◌, ◌-◌, ◌*◌, ◌/◌, ◌^◌, ◌≤◌, ◌<◌, ◌≡◌, refl, ap, ◌∙◌, true, false, none, some, List, [], ◌++◌,
  ◌==◌, ==_refl, ltb, le→ltb, ◌>>=◌, length, All, take, drop, arith,
}
use aegisdb.Bytes.{put_u32le, put_u64le, get_u32le, get_u64le}
use aegisdb.Bytes.RoundTrip.{get_u32le-put_u32le, get_u64le-put_u64le}
use aegisdb.CStrings.{is_same_refl}
use aegisdb.Crc32.{crc32_compute, crc32_update}
use aegisdb.HashIndex.{HashIndex, zero_entry, write_entries, magic, serialize, load_entries, load}
use aegisdb.HashIndex.Keys.{lookup, IsHashed}
use aegisdb.HashIndex.Map.{updates, puts-IsPutAll}
use aegisdb.HashIndex.Entries.{
  placed, updates-placed, length-write_entries, load_entries-write_entries, IsNarrow,
}

module _ (w covered next_id crc : ℕ) (entries : List ℕ) where
  abbrev pub header_of : List ℕ
  header_of = magic ++ put_u32le 4 ++ put_u64le w ++ put_u64le covered ++ put_u64le next_id

  abbrev file_of : List ℕ
  file_of = header_of ++ put_u32le crc ++ entries

  file-numbers :
      w < 2 ^ 64
      → covered < 2 ^ 64
      → next_id < 2 ^ 64
      → crc < 2 ^ 32
      → (get_u32le (drop 4 file_of) ≡ 4)
        × (get_u64le (drop 8 file_of) ≡ w)
        × (get_u64le (drop 16 file_of) ≡ covered)
        × (get_u64le (drop 24 file_of) ≡ next_id)
        × (get_u32le (drop 32 file_of) ≡ crc)
  unfolding put_u32le put_u64le get_u32le get_u64le
  file-numbers a b c d = (
    get_u32le-put_u32le 4 (omega arith),
    get_u64le-put_u64le w a,
    get_u64le-put_u64le covered b,
    get_u64le-put_u64le next_id c,
    get_u32le-put_u32le crc d,
  )

  file-bytes :
      (take 4 file_of ≡ magic)
      × (take 32 file_of ≡ header_of)
      × (drop 36 file_of ≡ entries)
      × (length file_of ≡ 36 + length entries)
  unfolding put_u32le put_u64le
  file-bytes = (refl, refl, refl, omega arith)

crc32_update-lt : (crc : ℕ) (bytes : List ℕ) → crc32_update crc bytes < 2 ^ 32
unfolding crc32_update
crc32_update-lt crc bytes = omega arith

-- The checks of hash_index_load pass on a file of that form.
load-passes :
    (g : HashIndex) (file : List ℕ) (w covered next_id : ℕ) (header entries : List ℕ)
    → w ≤ (2 ^ 64 - 2) / 30
    → length file ≡ 36 + w * 30
    → take 4 file ≡ magic
    → get_u32le (drop 4 file) ≡ 4
    → get_u64le (drop 8 file) ≡ w
    → get_u64le (drop 16 file) ≡ covered
    → get_u64le (drop 24 file) ≡ next_id
    → take 32 file ≡ header
    → get_u32le (drop 32 file) ≡ crc32_update (crc32_compute header) entries
    → drop 36 file ≡ entries
    → load g file ≡ (load_entries g w entries >>= λ h'. some (h', covered, next_id))
unfolding load
load-passes g file w covered next_id header entries fits l m p q r s x t y =
    let a : ltb (length file) 36 ≡ false = le→ltb (length file) 36 (omega (arith, l)) in
    let b : ltb ((2 ^ 64 - 2) / 30) w ≡ false = le→ltb ((2 ^ 64 - 2) / 30) w fits in
    let c : (length file == 36 + w * 30) ≡ true = ground arith in
    rw (
      a,
      m,
      is_same_refl magic,
      p,
      q,
      b,
      c,
      x,
      y,
      t,
      ==_refl (crc32_update (crc32_compute header) entries),
      r,
      s,
    )

load-file :
    (g : HashIndex) (w covered next_id : ℕ) (entries : List ℕ)
    → w ≤ (2 ^ 64 - 2) / 30
    → covered < 2 ^ 64
    → next_id < 2 ^ 64
    → length entries ≡ 30 * w
    → load g (
        file_of w covered next_id
          (crc32_update (crc32_compute (header_of w covered next_id 0 [])) entries)
          entries)
      ≡ (load_entries g w entries >>= λ h'. some (h', covered, next_id))
unfolding load
load-file g w covered next_id entries fits b c sized =
    let crc = crc32_update (crc32_compute (header_of w covered next_id 0 [])) entries in
    let (p, q, r, s, t) =
      file-numbers w covered next_id crc entries (omega (arith, fits)) b c
        (crc32_update-lt (crc32_compute (header_of w covered next_id 0 [])) entries) in
    let (m, x, y, z) = file-bytes w covered next_id crc entries in
    load-passes g (file_of w covered next_id crc entries) w covered next_id
      (header_of w covered next_id 0 []) entries fits (omega (arith, z, sized)) m p q r s x t y

-- The checkpoint of an index loads into an empty one as the same map.
pub load-serialize :
    (h g : HashIndex) (covered next_id : ℕ)
    → IsHashed h
    → All IsNarrow h.buckets
    → h.count ≤ (2 ^ 64 - 2) / 30
    → IsHashed g
    → lookup g ≡ (λ id. none)
    → covered < 2 ^ 64
    → next_id < 2 ^ 64
    → (h' : HashIndex) × (load g (serialize h covered next_id) ≡ some (h', covered, next_id))
      × IsHashed h'
      × (lookup h' ≡ lookup h)
unfolding serialize
load-serialize h g covered next_id v n fits w empty c d =
    let (k, l) = length-write_entries h.buckets in
    let counted = v.counted in
    let (h', p, q) = puts-IsPutAll g (placed h.buckets) w in
    (
      h',
      load-file g (write_entries h.buckets).0 covered next_id (write_entries h.buckets).1
            (omega (arith, k, counted, fits)) c d l
          ∙ rw (load_entries-write_entries h.buckets n g, p),
      q.hashed_after,
      q.lookup_after ∙ ap (λ m. updates m (placed h.buckets)) empty ∙ updates-placed h v,
    )

pub zero-IsNarrow : IsNarrow zero_entry
zero-IsNarrow = record {
  id_fits = omega arith;
  offset_fits = omega arith;
  expires_at_fits = omega arith;
  length_fits = omega arith;
  kind_fits = omega arith;
  deleted_fits = omega arith;
}
