-- ===== src/HashIndex/File.antt =====
-- src/storage/hash_index.c: hash_index_save and hash_index_load, with the file of the checkpoint.
use aegisdb.Prelude.{
  ℕ, ◌-◌, ◌/◌, ◌^◌, ◌<◌, ◌≤◌, ◌≡◌, ap, ◌∙◌, Bool, true, false, Option, none, some, List, [], ◌∷◌,
  ◌++◌, ◌>>=◌, All, All-append, All-replicate, length, arith,
}
use aegisdb.Aead.{Aead, IsAead}
use aegisdb.Bytes.{IsByte, put_u32le, put_u64le}
use aegisdb.Bytes.RoundTrip.{put_u32le-IsByte}
use aegisdb.Crc32.{crc32_compute, crc32_update}
use aegisdb.Ckpt.{ckpt_write, ckpt_read}
use aegisdb.Ckpt.Envelope.{ckpt_read-ckpt_write}
use aegisdb.HashIndex.{
  HashEntry, HashIndex, Location, create, zero_entry, write_entries, put_entry, serialize, load,
}
use aegisdb.HashIndex.Keys.{lookup, IsHashed}
use aegisdb.HashIndex.Map.{puts, updates, entry_of, puts-IsPutAll, create-IsHashed}
use aegisdb.HashIndex.Entries.{IsNarrow, counted_if}
use aegisdb.HashIndex.Checkpoint.{zero-IsNarrow, header_of, load-serialize}

-- The bytes of the new file, or none for -1.
unfoldable pub hash_index_save :
    Aead → Option (List ℕ) → Option (List ℕ) → HashIndex → (covered next_id : ℕ) → Option (List ℕ)
hash_index_save cipher key random h covered next_id =
    ckpt_write cipher key random (serialize h covered next_id)

unfoldable pub hash_index_load :
    Aead → Option (List ℕ) → HashIndex → Option (List ℕ) → Option (HashIndex × ℕ × ℕ)
hash_index_load cipher key h path = ckpt_read cipher key path >>= load h

put_entry-IsByte : (e : HashEntry) → All IsByte (put_entry e)
unfolding put_entry put_u32le put_u64le
put_entry-IsByte e = omega arith

bytes_if :
    (e : HashEntry) (n : ℕ) (bytes : List ℕ) (b : Bool)
    → All IsByte bytes
    → All IsByte (counted_if e n bytes [] b).1
bytes_if e n bytes true h = All-append IsByte (put_entry e) bytes (put_entry-IsByte e) h
bytes_if e n bytes false h = h

write_entries-IsByte : (es : List HashEntry) → All IsByte (write_entries es).1
unfolding write_entries
write_entries-IsByte [] = tt
write_entries-IsByte (e ∷ es) =
    bytes_if e (write_entries es).0 (write_entries es).1 e.used (write_entries-IsByte es)

header_of-IsByte : (w covered next_id : ℕ) → All IsByte (header_of w covered next_id 0 [])
unfolding put_u32le put_u64le
header_of-IsByte w covered next_id = omega arith

serialize-IsByte : (h : HashIndex) (covered next_id : ℕ) → All IsByte (serialize h covered next_id)
unfolding serialize put_u32le write_entries put_u64le
serialize-IsByte h covered next_id =
    let (w, entries) = write_entries h.buckets in
    let header = header_of w covered next_id 0 [] in
    let crc = crc32_update (crc32_compute header) entries in
    All-append IsByte header (put_u32le crc ++ entries) (header_of-IsByte w covered next_id) (
      All-append IsByte (put_u32le crc) entries (put_u32le-IsByte crc).0
        (write_entries-IsByte h.buckets))

module _ (cipher : Aead) (law : IsAead cipher) where
  -- The file that hash_index_save writes loads into an empty index as the same map.
  pub hash_index_load-hash_index_save :
      (key : Option (List ℕ)) (nonce : List ℕ) (h g : HashIndex) (covered next_id : ℕ)
      → length nonce ≡ 24
      → IsHashed h
      → All IsNarrow h.buckets
      → h.count ≤ (2 ^ 64 - 2) / 30
      → IsHashed g
      → lookup g ≡ (λ id. none)
      → covered < 2 ^ 64
      → next_id < 2 ^ 64
      → (file : List ℕ) × (h' : HashIndex) × (hash_index_save cipher key
            (some nonce)
            h
            covered
            next_id
          ≡ some file)
        × (hash_index_load cipher key g (some file) ≡ some (h', covered, next_id))
        × IsHashed h'
        × (lookup h' ≡ lookup h)
  unfolding hash_index_save hash_index_load
  hash_index_load-hash_index_save key nonce h g covered next_id wide v n fits w empty c d =
      let plain = serialize h covered next_id in
      let (file, p, q) =
        ckpt_read-ckpt_write cipher law key nonce plain wide (serialize-IsByte h covered next_id) in
      let (h', r, u, e) = load-serialize h g covered next_id v n fits w empty c d in
      (file, h', p, rw (q, r), u, e)

  -- Whatever locations are put into a new index, the checkpoint that hash_index_save writes of it,
  -- with a key or without, loads into a new index as the same map, with the same two numbers, if the
  -- fields fit their types.
  pub reload :
      (key : Option (List ℕ)) (nonce : List ℕ) (ps : List (ℕ × Location)) (covered next_id : ℕ)
      → length nonce ≡ 24
      → All (λ p. IsNarrow (entry_of p)) ps
      → length ps ≤ (2 ^ 64 - 2) / 30
      → covered < 2 ^ 64
      → next_id < 2 ^ 64
      → (h h' : HashIndex) × (file : List ℕ) × (puts create ps ≡ some h)
        × (hash_index_save cipher key (some nonce) h covered next_id ≡ some file)
        × (hash_index_load cipher key create (some file) ≡ some (h', covered, next_id))
        × (lookup h' ≡ updates (λ id. none) ps)
  unfolding create
  reload key nonce ps covered next_id wide n l c d =
      let (v, e) = create-IsHashed in
      let (h, p, q) = puts-IsPutAll create ps v in
      let narrow =
        q.kept_after IsNarrow zero-IsNarrow n
          (All-replicate IsNarrow 1024 zero_entry zero-IsNarrow) in
      let m = q.count_after in
      let (file, h', r, s, w, t) =
        hash_index_load-hash_index_save key nonce h create covered next_id wide q.hashed_after
          narrow (omega (arith, m, l)) v e c d in
      (h, h', file, p, r, s, t ∙ q.lookup_after ∙ ap (λ f. updates f ps) e)
