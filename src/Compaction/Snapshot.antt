-- ===== src/Compaction/Snapshot.antt =====
-- The entries of compaction_snapshot in src/storage/compaction.c, in a database that holds what its
-- log tells.
use aegisdb.Prelude.{
  ℕ, suc, ◌+◌, ◌<◌, ◌≡◌, refl, sym, ap, ◌∙◌, subst, true, false, Bool-cases, Option, none, some,
  none_some, inl, inr, List, [], ◌∷◌, ◌==◌, if◌then◌else◌, ◌++◌, All, length, get_or, arith,
}
use aegisdb.Aead.{Aead}
use aegisdb.Record.{MemoryRecord}
use aegisdb.Record.Decode.{record_decode}
use aegisdb.Log.{LogFile, frame_overhead}
use aegisdb.Log.Read.{log_read}
use aegisdb.Log.Frames.{Frame, content}
use aegisdb.Log.Recovery.{entries}
use aegisdb.OpenTable.Table.{look-here}
use aegisdb.HashIndex.{HashEntry, Location, entry_at, zero_entry}
use aegisdb.HashIndex.Keys.{hashed, lookup}
use aegisdb.HashIndex.Map.{updates, entry_of}
use aegisdb.HashIndex.Put.{updated}
use aegisdb.Recovery.{located}
use aegisdb.Recovery.Scan.{locations, if_decoded}
use aegisdb.Recovery.Result.{readable_from}
use aegisdb.Store.{Db}
use aegisdb.Store.Loads.{IsStored, Tells, IsReadable, readable-All, latest_record, stored-Tells}
use aegisdb.Compaction.{is_skipped, new_loc, compaction_snapshot}
use aegisdb.Compaction.Copy.{Holds, buf_at, read_or_empty}
use aegisdb.Compaction.Held.{Fits}

all_from :
    {A : Type 0} (P : A → Type 0) (xs : List A) (d : A)
    → ((k : ℕ) → k < length xs → P (get_or xs k d))
    → All P xs
all_from P [] d h = tt
all_from P (x ∷ xs) d h = (h 0 (omega arith), all_from P xs d (λ k l. h (suc k) (omega (arith, l))))

-- What holds of the entries that are put holds of those that are found.
updates-All :
    (P : HashEntry → Type 0) (ps : List (ℕ × Location)) (m : ℕ → Option HashEntry)
    → All (λ p. P (entry_of p)) ps
    → ((id : ℕ) (e : HashEntry) → m id ≡ some e → P e)
    → (id : ℕ) (e : HashEntry) → updates m ps id ≡ some e
    → P e
updates-All P [] m h k id e p = k id e p
updates-All P ((i, at) ∷ ps) m (a, h) k id e p =
    updates-All P ps (updated m i (entry_at i at)) h
      (λ id e q. elim (Bool-cases (i == id)) [
        | inl b ↦
            let q' : some (entry_at i at) ≡ some e = rw b at q in
            let c : entry_at i at ≡ e = cc in subst P c a
        | inr b ↦ k id e (rw b at q)
      ])
      id e p

-- A frame whose payload, if it can be read, is one that the log takes.
abbrev pub IsSound : Aead → LogFile → Frame → Type 0
IsSound cipher lf f = (payload : List ℕ) → content cipher lf f ≡ some payload → Fits payload

module _ (cipher : Aead) (db : Db) (fs : List Frame) (s : IsStored cipher db fs)
    (sound : All (IsSound cipher db.log) fs) where
  -- The entry is that of the record in its frame.
  abbrev pub Told : HashEntry → Type 0
  Told e =
      (buf : List ℕ) × (r : MemoryRecord) × (log_read cipher db.log e.offset ≡ some buf)
      × (record_decode buf ≡ some r)
      × (e ≡ entry_at r.id (located e.offset (length buf) r))
      × Fits buf

  sound_one :
      (offset len : ℕ) (o : Option (List ℕ)) (es : List (ℕ × Option (List ℕ)))
      → ((payload : List ℕ) → o ≡ some payload → Fits payload)
      → All
          (λ p. Fits p.1)
          (readable_from cipher db.log (offset + frame_overhead db.log.encrypted + len) es)
      → All (λ p. Fits p.1) (readable_from cipher db.log offset ((len, o) ∷ es))
  sound_one offset len none es f h = h
  sound_one offset len (some payload) es f h = (f payload refl, h)

  sound-readable :
      (gs : List Frame) (offset : ℕ)
      → All (IsSound cipher db.log) gs
      → All (λ p. Fits p.1) (readable_from cipher db.log offset (entries cipher db.log gs))
  sound-readable [] offset h = tt
  sound-readable (g ∷ gs) offset (f, h) =
      sound_one offset (length g.text) (content cipher db.log g) (entries cipher db.log gs) f
        (sound-readable gs (offset + frame_overhead db.log.encrypted + length g.text) h)

  Told-one :
      (offset : ℕ) (buf : List ℕ) (o : Option MemoryRecord) (ps : List (ℕ × Location))
      → log_read cipher db.log offset ≡ some buf
      → Fits buf
      → record_decode buf ≡ o
      → All (λ p. Told (entry_of p)) ps
      → All (λ p. Told (entry_of p)) (if_decoded offset (length buf) o ++ ps)
  Told-one offset buf none ps a f d h = h
  Told-one offset buf (some r) ps a f d h = ((buf, r, a, d, refl, f), h)

  Told-locations :
      (ps : List (ℕ × List ℕ))
      → All (IsReadable cipher db.log) ps
      → All (λ p. Fits p.1) ps
      → All (λ p. Told (entry_of p)) (locations ps)
  Told-locations [] a f = tt
  Told-locations ((offset, buf) ∷ ps) (a, a') (f, f') =
      Told-one offset buf (record_decode buf) (locations ps) a f refl (Told-locations ps a' f')

  pub lookup-Told : (id : ℕ) (e : HashEntry) → lookup db.hash id ≡ some e → Told e
  lookup-Told id e p =
      let ps = readable_from cipher db.log 0 (entries cipher db.log fs) in
      updates-All Told (locations ps) (λ id. none)
        (Told-locations ps (readable-All cipher db.log fs s.in_log [] fs refl s.in_log.frames)
          (sound-readable fs 0 sound))
        (λ id e q. none_some e q) id e (ap (λ m. m id) (sym s.mapped) ∙ p)

  -- An entry is found under its id.
  abbrev pub IsThere : HashEntry → Type 0
  IsThere e = e.used ≡ true → lookup db.hash e.id ≡ some e

  pub buckets-IsThere : All IsThere db.hash.buckets
  buckets-IsThere = all_from IsThere db.hash.buckets zero_entry (λ k l u.
      let e = get_or db.hash.buckets k zero_entry in
      look-here hashed db.hash.buckets e.id k e s.hashed.found (l, refl, rw u refl))

  pub used_if : (e : HashEntry) → is_skipped e ≡ false → (e.used ≡ true) × (e.deleted ≡ 0)
  used_if e h = elim (Bool-cases e.used) [
    | inl u ↦ elim (Bool-cases (e.deleted == 0)) [
      | inl d ↦ (u, ground arith)
      | inr d ↦ absurd (ground arith)
    ]
    | inr u ↦ absurd (ground arith)
  ]

  -- A live entry that is found: its copy holds the latest version of its record.
  module _ (e : HashEntry) (there : IsThere e) (u : e.used ≡ true) (z : e.deleted ≡ 0) where
    same_record :
        (r : MemoryRecord) (buf : List ℕ) (q : Option MemoryRecord)
        → log_read cipher db.log e.offset ≡ some buf
        → record_decode buf ≡ some r
        → Tells cipher db.log (some e) q
        → q ≡ some r
    same_record r buf none a d t = elim t [ ]
    same_record r buf (some r') a d (_, _, buf', a', d') =
        let p : some buf ≡ some buf' = sym a ∙ a' in
        let q : buf ≡ buf' = cc in sym d' ∙ ap record_decode (sym q) ∙ d

    pub live-parts :
        Holds cipher db.log (new_loc e)
        × (r : MemoryRecord) × (record_decode (buf_at cipher db.log (new_loc e)) ≡ some r)
        × (r.id ≡ e.id)
        × (latest_record cipher db.log fs e.id ≡ some r)
        × (r.deleted ≡ 0)
    live-parts =
        let p = there u in
        let (buf, r, a, d, q, f) = lookup-Told e.id e p in
        let flag : e.deleted ≡ (if r.deleted == 0 then 0 else 1) =
          ap (λ (x : HashEntry). x.deleted) q in
        let gone : r.deleted ≡ 0 = ground arith in
        let same : e.id ≡ r.id = ap (λ (x : HashEntry). x.id) q in
        let w = same_record r buf (latest_record cipher db.log fs e.id) a d (
          subst (λ o. Tells cipher db.log o (latest_record cipher db.log fs e.id)) p
            (stored-Tells cipher db fs e.id s)) in
        (
          (
            buf,
            r,
            a,
            d,
            same,
            ap (λ (x : HashEntry). (new_loc x).1) q
                ∙ ap
                    (λ (n : ℕ). record (located e.offset (length buf) r) {
                      deleted = if n == 0 then 0 else 1;
                    })
                    (sym gone),
            gone,
            f,
          ),
          r,
          ap record_decode (ap read_or_empty a) ∙ d,
          sym same,
          w,
          gone,
        )

  -- The snapshot holds live entries that are told by their frames.
  pub snapshot-Holds :
      (es : List HashEntry) → All IsThere es → All (Holds cipher db.log) (compaction_snapshot es)
  unfolding compaction_snapshot
  snapshot-Holds [] h = tt
  snapshot-Holds (e ∷ es) (there, h) = elim (Bool-cases (is_skipped e)) [
    | inl b ↦ rw b (snapshot-Holds es h)
    | inr b ↦ let (u, z) = used_if e b in rw b ((live-parts e there u z).0, snapshot-Holds es h)
  ]
