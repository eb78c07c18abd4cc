-- ===== src/Store/Loads.antt =====
-- load_record of src/query/query_engine.c as the latest record of the log.
use aegisdb.Prelude.{
  ℕ, ◌+◌, ◌≡◌, refl, sym, ap, ◌∙◌, subst, Bool, true, false, Bool-cases, Option, none, some, List,
  [], ◌∷◌, ◌++◌, append_assoc, ◌⊎◌, inl, inr, ◌>>=◌, ◌==◌, ◌&&◌, if◌then◌else◌, All, length,
  length-append, arith,
}
use aegisdb.Aead.{Aead}
use aegisdb.Record.{MemoryRecord}
use aegisdb.Record.Decode.{record_decode}
use aegisdb.Log.{LogFile, frame_overhead}
use aegisdb.Log.Read.{log_read}
use aegisdb.Log.Frames.{Frame, IsFrame, frame_bytes, content, length-frame_bytes}
use aegisdb.Log.Recovery.{all_bytes, entries, readable}
use aegisdb.Log.Durable.{IsLog, log_read-between, all_bytes-append}
use aegisdb.HashIndex.{HashEntry, if_live}
use aegisdb.HashIndex.Keys.{lookup, IsHashed}
use aegisdb.HashIndex.Map.{updates, get-lookup}
use aegisdb.Recovery.Scan.{locations, if_decoded}
use aegisdb.Recovery.Result.{located_from, updates-append}
use aegisdb.Store.{
  AegisStatus, aegis_err_not_found, Db, load_record, load_entry, load_payload, load_decoded,
}

-- The last record under each id, of the payloads that decode.
abbrev pub with_record : Option MemoryRecord → (ℕ → Option MemoryRecord) → ℕ → Option MemoryRecord
with_record none m id = m id
with_record (some r) m id = if r.id == id then some r else m id

abbrev pub remembered : (ℕ → Option MemoryRecord) → List (ℕ × List ℕ) → ℕ → Option MemoryRecord
remembered m [] = m
remembered m ((offset, payload) ∷ ps) = remembered (with_record (record_decode payload) m) ps

-- What load_record answers for the last record of an id.
abbrev pub visible : Option MemoryRecord → AegisStatus ⊎ MemoryRecord
visible none = inl aegis_err_not_found
visible (some r) = if r.deleted == 0 then inr r else inl aegis_err_not_found

module _ (cipher : Aead) (lf : LogFile) where
  -- The entry tells where the record lies, and whether it is a tombstone.
  abbrev pub Tells : Option HashEntry → Option MemoryRecord → Type 0
  Tells none none = Unit
  Tells none (some r) = ⊥
  Tells (some e) none = ⊥
  Tells (some e) (some r) =
      (e.deleted ≡ (if r.deleted == 0 then 0 else 1))
      × (e.used ≡ true)
      × (payload : List ℕ) × (log_read cipher lf e.offset ≡ some payload)
      × (record_decode payload ≡ some r)

  abbrev pub IsReadable : ℕ × List ℕ → Type 0
  IsReadable (offset, payload) = log_read cipher lf offset ≡ some payload

  Tells-one :
      (m : ℕ → Option HashEntry) (w : ℕ → Option MemoryRecord) (offset : ℕ) (payload : List ℕ)
      → ((id : ℕ) → Tells (m id) (w id))
      → log_read cipher lf offset ≡ some payload
      → (o : Option MemoryRecord) → record_decode payload ≡ o
      → (id : ℕ) → Tells (updates m (if_decoded offset (length payload) o) id) (with_record o w id)
  Tells-one m w offset payload t a none e id = t id
  Tells-one m w offset payload t a (some r) e id = elim (Bool-cases (r.id == id)) [
    | inl b ↦ rw b (refl, refl, payload, a, e)
    | inr b ↦ rw b (t id)
  ]

  Tells-all :
      (ps : List (ℕ × List ℕ)) (m : ℕ → Option HashEntry) (w : ℕ → Option MemoryRecord)
      → ((id : ℕ) → Tells (m id) (w id))
      → All IsReadable ps
      → (id : ℕ) → Tells (updates m (locations ps) id) (remembered w ps id)
  Tells-all [] m w t h id = t id
  Tells-all ((offset, payload) ∷ ps) m w t (a, h) id =
      let one = if_decoded offset (length payload) (record_decode payload) in
      subst (λ x. Tells (x id) (remembered (with_record (record_decode payload) w) ps id))
        (sym (updates-append m one (locations ps)))
        (Tells-all ps (updates m one) (with_record (record_decode payload) w)
          (Tells-one m w offset payload t a (record_decode payload) refl) h id)

  both : (x y z : Bool) → x ≡ true → y ≡ z → (x && y) ≡ z
  both x y z p q = rw p q

  live_if :
      (e : HashEntry) (r : MemoryRecord)
      → e.deleted ≡ (if r.deleted == 0 then 0 else 1)
      → e.used ≡ true
      → (e.used && (e.deleted == 0)) ≡ (r.deleted == 0)
  live_if e r d u =
      both e.used (e.deleted == 0) (r.deleted == 0) u (elim (Bool-cases (r.deleted == 0)) [
        | inl b ↦ let d' : e.deleted ≡ 0 = rw b at d in ground arith
        | inr b ↦ let d' : e.deleted ≡ 1 = rw b at d in ground arith
      ])

  shown :
      (db : Db) (e : HashEntry) (r : MemoryRecord) (b : Bool)
      → db.log ≡ lf
      → Tells (some e) (some r)
      → (r.deleted == 0) ≡ b
      → load_entry cipher db (if b then some e else none)
        ≡ (if b then inr r else inl aegis_err_not_found)
  shown db e r true l (d, u, payload, a, c) h =
      ap load_payload (ap (λ x. log_read cipher x e.offset) l ∙ a) ∙ ap load_decoded c
  shown db e r false l t h = refl

  Tells-visible :
      (db : Db)
      → db.log ≡ lf
      → (o : Option HashEntry) (q : Option MemoryRecord) → Tells o q
      → load_entry cipher db (o >>= if_live) ≡ visible q
  Tells-visible db l none none t = refl
  Tells-visible db l none (some r) t = elim t [ ]
  Tells-visible db l (some e) none t = elim t [ ]
  Tells-visible db l (some e) (some r) t =
      let (d, u, _, _, _) = t in
      ap (load_entry cipher db) (ap (λ x. if x then some e else none) (live_if e r d u))
      ∙ shown db e r (r.deleted == 0) l t refl

  readable_one :
      (offset len : ℕ) (o : Option (List ℕ)) (es : List (ℕ × Option (List ℕ)))
      → log_read cipher lf offset ≡ o
      → All IsReadable
          (readable (frame_overhead lf.encrypted) (offset + frame_overhead lf.encrypted + len) es)
      → All IsReadable (readable (frame_overhead lf.encrypted) offset ((len, o) ∷ es))
  readable_one offset len none es a h = h
  readable_one offset len (some payload) es a h = (a, h)

  module _ (fs : List Frame) (l : IsLog lf fs) where
    -- log_read gives each payload at the offset that a scan tells.
    pub readable-All :
        (before after : List Frame)
        → fs ≡ before ++ after
        → All (IsFrame lf.encrypted) after
        → All IsReadable (
            readable
              (frame_overhead lf.encrypted)
              (length (all_bytes before))
              (entries cipher lf after))
    readable-All before [] e h = tt
    readable-All before (f ∷ after) e (h, hs) =
        let e' : fs ≡ (before ++ (f ∷ [])) ++ after =
          e ∙ sym (append_assoc before (f ∷ []) after) in
        let rest = readable-All (before ++ (f ∷ [])) after e' hs in
        let off : length (all_bytes (before ++ (f ∷ [])))
            ≡ length (all_bytes before) + frame_overhead lf.encrypted + length f.text =
          omega (
            arith,
            ap length (all_bytes-append before (f ∷ [])),
            length-append (all_bytes before) (frame_bytes f ++ []),
            length-append (frame_bytes f) [],
            length-frame_bytes lf.encrypted f h,
          ) in
        readable_one (length (all_bytes before)) (length f.text) (content cipher lf f)
          (entries cipher lf after) (log_read-between cipher lf fs l before after f e)
          (subst
            (λ n.
              All IsReadable (readable (frame_overhead lf.encrypted) n (entries cipher lf after)))
            off rest)

-- The database holds what its log tells: the log is frames, and the hash index is what a scan of
-- them would build.
pub record IsStored (cipher : Aead) (db : Db) (fs : List Frame) : Type 0 where
  pub in_log : IsLog db.log fs
  pub hashed : IsHashed db.hash
  pub mapped : lookup db.hash ≡ updates (λ id. none) (located_from cipher db.log 0 fs)

abbrev pub latest_record : Aead → LogFile → List Frame → ℕ → Option MemoryRecord
latest_record cipher lf fs =
    remembered (λ id. none) (readable (frame_overhead lf.encrypted) 0 (entries cipher lf fs))

pub stored-Tells :
    (cipher : Aead) (db : Db) (fs : List Frame) (id : ℕ)
    → IsStored cipher db fs
    → Tells cipher db.log (lookup db.hash id) (latest_record cipher db.log fs id)
stored-Tells cipher db fs id s =
    let ps = readable (frame_overhead db.log.encrypted) 0 (entries cipher db.log fs) in
    let a = readable-All cipher db.log fs s.in_log [] fs refl s.in_log.frames in
    subst (λ m. Tells cipher db.log (m id) (remembered (λ id. none) ps id)) (sym s.mapped)
      (Tells-all cipher db.log ps (λ id. none) (λ id. none) (λ id. tt) a id)

-- In a database that holds what its log tells, load_record answers the last version of the record
-- among the frames of the log, and that it is missing if there is none or it is a tombstone.
pub load_record-visible :
    (cipher : Aead) (db : Db) (fs : List Frame) (id : ℕ)
    → IsStored cipher db fs
    → load_record cipher db id ≡ visible (latest_record cipher db.log fs id)
unfolding load_record
load_record-visible cipher db fs id s =
    ap (load_entry cipher db) (get-lookup db.hash id)
    ∙ Tells-visible cipher db.log db refl (lookup db.hash id) (latest_record cipher db.log fs id)
        (stored-Tells cipher db fs id s)
