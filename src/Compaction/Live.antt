-- ===== src/Compaction/Live.antt =====
-- The records that the copies of compaction_copy_live in src/storage/compaction.c hold, against those
-- that the database shows.
use aegisdb.Prelude.{
  ℕ, ◌≡◌, refl, sym, ap, ◌∙◌, subst, Bool, true, false, Bool-cases, Option, Option-cases, none,
  some, none_some, inl, inr, List, [], ◌∷◌, ◌++◌, ◌==◌, if◌then◌else◌, All, map, arith,
}
use aegisdb.Aead.{Aead}
use aegisdb.Record.{MemoryRecord}
use aegisdb.Record.Decode.{record_decode}
use aegisdb.Log.Frames.{Frame}
use aegisdb.OpenTable.Latest.{under, latest, latest-look}
use aegisdb.HashIndex.{HashEntry}
use aegisdb.HashIndex.Keys.{hashed, lookup}
use aegisdb.Store.{Db}
use aegisdb.Store.Loads.{
  IsStored, Tells, latest_record, stored-Tells, with_record, remembered, visible,
}
use aegisdb.Compaction.{is_skipped, new_loc, compaction_snapshot}
use aegisdb.Compaction.Copy.{payloads, buf_at}
use aegisdb.Compaction.Snapshot.{IsSound, IsThere, used_if, live-parts, buckets-IsThere}

-- The last record under each id of a list of payloads.
abbrev pub replayed : (ℕ → Option MemoryRecord) → List (List ℕ) → ℕ → Option MemoryRecord
replayed m [] = m
replayed m (buf ∷ bufs) = replayed (with_record (record_decode buf) m) bufs

pub remembered-replayed :
    (m : ℕ → Option MemoryRecord) (ps : List (ℕ × List ℕ))
    → remembered m ps ≡ replayed m (payloads ps)
remembered-replayed m [] = refl
remembered-replayed m ((offset, buf) ∷ ps) =
    remembered-replayed (with_record (record_decode buf) m) ps

pub replayed-append :
    (m : ℕ → Option MemoryRecord) (bufs more : List (List ℕ))
    → replayed m (bufs ++ more) ≡ replayed (replayed m bufs) more
replayed-append m [] more = refl
replayed-append m (buf ∷ bufs) more = replayed-append (with_record (record_decode buf) m) bufs more

with_record-visible :
    (m w : ℕ → Option MemoryRecord) (id : ℕ)
    → visible (m id) ≡ visible (w id)
    → (o : Option MemoryRecord) → visible (with_record o m id) ≡ visible (with_record o w id)
with_record-visible m w id e none = e
with_record-visible m w id e (some r) = elim (Bool-cases (r.id == id)) [
  | inl b ↦ rw b
  | inr b ↦ rw b e
]

-- The same payloads on top of maps that show the same.
pub replayed-visible :
    (bufs : List (List ℕ)) (m w : ℕ → Option MemoryRecord) (id : ℕ)
    → visible (m id) ≡ visible (w id)
    → visible (replayed m bufs id) ≡ visible (replayed w bufs id)
replayed-visible [] m w id e = e
replayed-visible (buf ∷ bufs) m w id e =
    replayed-visible bufs (with_record (record_decode buf) m) (with_record (record_decode buf) w) id
      (with_record-visible m w id e (record_decode buf))

module _ (cipher : Aead) (db : Db) (fs : List Frame) (s : IsStored cipher db fs)
    (sound : All (IsSound cipher db.log) fs) where
  abbrev now : ℕ → Option MemoryRecord
  now = latest_record cipher db.log fs

  abbrev copies : List HashEntry → List (List ℕ)
  copies es = map (buf_at cipher db.log) (compaction_snapshot es)

  -- A copy on top of a map: the latest version under its id, and the map elsewhere.
  copied_one :
      (e : HashEntry) (m : ℕ → Option MemoryRecord) (id : ℕ)
      → IsThere cipher db fs s sound e
      → is_skipped e ≡ false
      → with_record (record_decode (buf_at cipher db.log (new_loc e))) m id
        ≡ (if e.id == id then now id else m id)
  copied_one e m id there k =
      let (u, z) = used_if cipher db fs s sound e k in
      let (_, r, d, i, w, _) = live-parts cipher db fs s sound e there u z in
      elim (Bool-cases (e.id == id)) [
        | inl b ↦ let c : e.id ≡ id = ground arith in rw (d, i, b) (sym w ∙ ap now c)
        | inr b ↦ rw (d, i, b)
      ]

  -- Once the map shows the latest version, the copies keep it.
  keeps :
      (es : List HashEntry) (m : ℕ → Option MemoryRecord) (id : ℕ)
      → All (IsThere cipher db fs s sound) es
      → visible (m id) ≡ visible (now id)
      → visible (replayed m (copies es) id) ≡ visible (now id)
  unfolding compaction_snapshot
  keeps [] m id h e = e
  keeps (x ∷ xs) m id (there, h) e = elim (Bool-cases (is_skipped x)) [
    | inl b ↦ rw b (keeps xs m id h e)
    | inr b ↦
        let m' = with_record (record_decode (buf_at cipher db.log (new_loc x))) m in
        let one : visible (m' id) ≡ visible (now id) =
          ap visible (copied_one x m id there b) ∙ either (x.id == id) m id e in
        rw b (keeps xs m' id h one)
  ]
    where
      either :
          (b : Bool) (m : ℕ → Option MemoryRecord) (id : ℕ)
          → visible (m id) ≡ visible (now id)
          → visible (if b then now id else m id) ≡ visible (now id)
      either true m id e = refl
      either false m id e = e

  -- The copies reach the latest version of a record whose entry is live.
  reaches :
      (es : List HashEntry) (m : ℕ → Option MemoryRecord) (id : ℕ) (e : HashEntry)
      → All (IsThere cipher db fs s sound) es
      → latest hashed es id ≡ some e
      → is_skipped e ≡ false
      → visible (replayed m (copies es) id) ≡ visible (now id)
  unfolding compaction_snapshot
  reaches [] m id e h p k = none_some e p
  reaches (x ∷ xs) m id e (there, h) p k = elim (Option-cases (latest hashed xs id)) [
    | inr (d, q) ↦
        let p' : some d ≡ some e = rw q at p in
        let c : d ≡ e = cc in
        let deeper = λ (n : ℕ → Option MemoryRecord). reaches xs n id e h (q ∙ ap some c) k in
        elim (Bool-cases (is_skipped x)) [
          | inl b ↦ rw b (deeper m)
          | inr b ↦ rw b (deeper (with_record (record_decode (buf_at cipher db.log (new_loc x))) m))
        ]
    | inl n ↦
        let (c, i) = here x id e x.used (rw n at p) in
        let k' : is_skipped x ≡ false = ap is_skipped c ∙ k in
        let m' = with_record (record_decode (buf_at cipher db.log (new_loc x))) m in
        let one : visible (m' id) ≡ visible (now id) =
          ap visible (copied_one x m id there k' ∙ ap (λ b. if b then now id else m id) i) in
        rw k' (keeps xs m' id h one)
  ]
    where
      here :
          (x : HashEntry) (id : ℕ) (e : HashEntry) (b : Bool)
          → under hashed id (if b then some x.id else none) x ≡ some e
          → (x ≡ e) × ((x.id == id) ≡ true)
      here x id e false p = none_some e p
      here x id e true p = elim (Bool-cases (x.id == id)) [
        | inl b ↦ let p' : some x ≡ some e = rw b at p in let c : x ≡ e = cc in (c, b)
        | inr b ↦ none_some e (rw b at p)
      ]

  -- What the copies of the snapshot show of an id is what the database shows.
  pub copies-visible :
      (id : ℕ) → visible (replayed (λ id. none) (copies db.hash.buckets) id) ≡ visible (now id)
  copies-visible id =
      let there = buckets-IsThere cipher db fs s sound in
      elim (Option-cases (lookup db.hash id)) [
        | inl n ↦
            keeps db.hash.buckets (λ id. none) id there
              (absent (now id)
                (subst (λ o. Tells cipher db.log o (now id)) n (stored-Tells cipher db fs id s)))
        | inr (e, p) ↦
            let t =
              subst (λ o. Tells cipher db.log o (now id)) p (stored-Tells cipher db fs id s) in
            elim (Bool-cases (is_skipped e)) [
              | inl b ↦ keeps db.hash.buckets (λ id. none) id there (dead e (now id) b t)
              | inr b ↦
                  reaches db.hash.buckets (λ id. none) id e there
                    (latest-look hashed db.hash.buckets s.hashed.found id ∙ p) b
            ]
      ]
    where
      absent : (q : Option MemoryRecord) → Tells cipher db.log none q → visible none ≡ visible q
      absent none t = refl
      absent (some r) t = elim t [ ]

      dead :
          (e : HashEntry) (q : Option MemoryRecord)
          → is_skipped e ≡ true
          → Tells cipher db.log (some e) q
          → visible none ≡ visible q
      dead e none k t = elim t [ ]
      dead e (some r) k (d, u, _, _, _) = elim (Bool-cases (r.deleted == 0)) [
        | inl b ↦
            let d' : e.deleted ≡ 0 = rw b at d in
            let z : is_skipped e ≡ false = rw (u, d') refl in absurd (ground arith)
        | inr b ↦ rw b
      ]
