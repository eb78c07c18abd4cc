-- ===== src/Store/Writes.antt =====
-- append_and_hash of src/query/query_engine.c on a database whose index is what its log tells.
use aegisdb.Prelude.{
  ℕ, ◌+◌, ◌≡◌, refl, sym, ap, ◌∙◌, subst, Bool, true, false, Option, none, some, List, [], ◌∷◌,
  ◌++◌, append-nil, ◌>>=◌, ◌==◌, if◌then◌else◌, length, arith,
}
use aegisdb.Aead.{Aead, IsAead}
use aegisdb.Record.{MemoryRecord}
use aegisdb.Record.Valid.{IsValid}
use aegisdb.Record.Encode.{record_encode}
use aegisdb.Record.Decode.{record_decode}
use aegisdb.Record.RoundTrip.{record_decode-record_encode}
use aegisdb.Log.{LogFile}
use aegisdb.Log.Append.Frame.{IsAppendable, new_frame, content-new_frame}
use aegisdb.Log.Append.Stored.{appended, log_append-done}
use aegisdb.Log.Frames.{Frame, content}
use aegisdb.Log.Recovery.{all_bytes, entries}
use aegisdb.Log.Durable.{IsLog, appended-IsLog}
use aegisdb.HashIndex.{HashIndex, Location, entry_at}
use aegisdb.HashIndex.Put.{updated, IsPut, put-IsPut}
use aegisdb.HashIndex.Map.{updates}
use aegisdb.Recovery.{located}
use aegisdb.Recovery.Scan.{locations, if_decoded}
use aegisdb.Recovery.Result.{
  located_from, readable_from, updates-append, locations-append, readable-append,
}
use aegisdb.Store.{
  AegisStatus, aegis_ok, aegis_err_quota_exceeded, append_encoded, Db, namespace, is_over_quota,
  accounted, hash_appended, append_and_hash, load_record,
}
use aegisdb.Store.Loads.{
  IsStored, latest_record, remembered, with_record, visible, load_record-visible,
}

remembered-append :
    (m : ℕ → Option MemoryRecord) (ps qs : List (ℕ × List ℕ))
    → remembered m (ps ++ qs) ≡ remembered (remembered m ps) qs
remembered-append m [] qs = refl
remembered-append m ((offset, payload) ∷ ps) qs =
    remembered-append (with_record (record_decode payload) m) ps qs

module _ (cipher : Aead) (law : IsAead cipher) (nonce buf : List ℕ)
    (h : IsAppendable nonce buf) where
  module _ (lf : LogFile) (fs : List Frame) (l : IsLog lf fs) where
    abbrev next : Frame
    next = new_frame cipher lf nonce buf

    abbrev lf' : LogFile
    lf' = appended lf (all_bytes fs) l.junk next

    entries-appended : (gs : List Frame) → entries cipher lf' gs ≡ entries cipher lf gs
    unfolding content
    entries-appended [] = refl
    entries-appended (g ∷ gs) =
        ap (λ es. (length g.text, content cipher lf g) ∷ es) (entries-appended gs)

    -- A scan finds one payload more.
    pub readable-appended :
        readable_from cipher lf' 0 (entries cipher lf' (fs ++ (next ∷ [])))
        ≡ readable_from cipher lf 0 (entries cipher lf fs) ++ ((length (all_bytes fs), buf) ∷ [])
    readable-appended =
        let e : 0 + length (all_bytes fs) ≡ length (all_bytes fs) = omega arith in
        ap (readable_from cipher lf 0) (entries-appended (fs ++ (next ∷ [])))
        ∙ readable-append cipher lf 0 fs (next ∷ []) l.frames
        ∙ ap
            (λ n.
              readable_from cipher lf 0 (entries cipher lf fs)
              ++ readable_from cipher lf n (entries cipher lf (next ∷ [])))
            e
        ∙ ap
            (λ c.
              readable_from cipher lf 0 (entries cipher lf fs)
              ++ readable_from cipher lf (length (all_bytes fs)) ((length next.text, c) ∷ []))
            (content-new_frame cipher law nonce buf h lf)

-- A valid record whose frame fits in a log that takes it, within the quota of its namespace.
module _ (cipher : Aead) (law : IsAead cipher) (db : Db) (fs : List Frame)
    (s : IsStored cipher db fs) where
  module _ (nonce buf : List ℕ) (rec : MemoryRecord) (v : IsValid rec)
      (enc : record_encode rec ≡ some buf) (h : IsAppendable nonce buf) where
    abbrev pub frame : Frame
    frame = new_frame cipher db.log nonce buf

    abbrev pub log_after : LogFile
    log_after = appended db.log (all_bytes fs) s.in_log.junk frame

    pub decoded : record_decode buf ≡ some rec
    decoded =
        let (bytes, p, q) = record_decode-record_encode rec [] v in
        let e : some buf ≡ some bytes = sym enc ∙ p in
        let e' : buf ≡ bytes = cc in
        subst (λ b. record_decode b ≡ some rec) (append-nil bytes ∙ sym e') q

    abbrev stored_at : Location
    stored_at = located (length (all_bytes fs)) (length buf) rec

    located-after :
        located_from cipher log_after 0 (fs ++ (frame ∷ []))
        ≡ located_from cipher db.log 0 fs ++ ((rec.id, stored_at) ∷ [])
    located-after =
        ap locations (readable-appended cipher law nonce buf h db.log fs s.in_log)
        ∙ locations-append (readable_from cipher db.log 0 (entries cipher db.log fs))
            ((length (all_bytes fs), buf) ∷ [])
        ∙ ap
            (λ o.
              located_from cipher db.log 0 fs
              ++ (if_decoded (length (all_bytes fs)) (length buf) o ++ []))
            decoded

    latest-after :
        (id : ℕ)
        → latest_record cipher log_after (fs ++ (frame ∷ [])) id
          ≡ (if rec.id == id then some rec else latest_record cipher db.log fs id)
    latest-after id =
        let ps = readable_from cipher db.log 0 (entries cipher db.log fs) in
        ap (λ x. remembered (λ id. none) x id)
          (readable-appended cipher law nonce buf h db.log fs s.in_log)
        ∙ ap (λ m. m id) (remembered-append (λ id. none) ps ((length (all_bytes fs), buf) ∷ []))
        ∙ ap (λ o. with_record o (remembered (λ id. none) ps) id) decoded

    visible-if :
        (b : Bool) (o : Option MemoryRecord)
        → visible (if b then some rec else o) ≡ (if b then visible (some rec) else visible o)
    visible-if true o = refl
    visible-if false o = refl

    module _ (ready : db.log.accepts ≡ none)
        (within : is_over_quota db rec (length buf) (namespace db rec) ≡ false) where
      abbrev answered : LogFile × Option ℕ → Bool → Option (AegisStatus × Db)
      answered (log, off) b =
          if b
          then some (aegis_err_quota_exceeded, db)
          else hash_appended db rec (length buf) log off

      abbrev pub acknowledged : HashIndex → Option (AegisStatus × Db)
      acknowledged h' = some (
        aegis_ok,
        record db {
          log = log_after;
          hash = h';
          tenants = accounted db rec (length buf) (namespace db rec);
        },
      )

      -- What append_and_hash leaves when it acknowledges the record.
      pub record IsWritten (db' : Db) : Type 0 where
        pub stored : IsStored cipher db' (fs ++ (frame ∷ []))
        pub loads :
            (id : ℕ)
            → load_record cipher db' id
              ≡ (if rec.id == id then visible (some rec) else load_record cipher db id)

      written :
          (h' : HashIndex)
          → IsPut db.hash rec.id stored_at h'
          → IsWritten (record db {
            log = log_after;
            hash = h';
            tenants = accounted db rec (length buf) (namespace db rec);
          })
      written h' q =
          let db' = record db {
            log = log_after;
            hash = h';
            tenants = accounted db rec (length buf) (namespace db rec);
          } in
          let st : IsStored cipher db' (fs ++ (frame ∷ [])) = record {
            in_log = appended-IsLog cipher db.log fs s.in_log law nonce buf h ready;
            hashed = q.hashed_after;
            mapped =
                q.lookup_after
                ∙ ap (λ m. updated m rec.id (entry_at rec.id stored_at)) s.mapped
                ∙ sym (
                    updates-append (λ id. none) (located_from cipher db.log 0 fs)
                      ((rec.id, stored_at) ∷ []))
                ∙ ap (updates (λ id. none)) (sym located-after);
          } in
          record {
            stored = st;
            loads = λ id.
                load_record-visible cipher db' (fs ++ (frame ∷ [])) id st
                ∙ ap visible (latest-after id)
                ∙ visible-if (rec.id == id) (latest_record cipher db.log fs id)
                ∙ ap (λ o. if rec.id == id then visible (some rec) else o)
                    (sym (load_record-visible cipher db fs id s));
          }

      pub append_and_hash-IsWritten :
          (h' : HashIndex) × (append_and_hash cipher (some nonce) db rec ≡ acknowledged h')
          × IsWritten (record db {
            log = log_after;
            hash = h';
            tenants = accounted db rec (length buf) (namespace db rec);
          })
      unfolding append_and_hash
      append_and_hash-IsWritten =
          let done =
            log_append-done cipher law nonce buf h db.log (all_bytes fs) s.in_log.junk
              s.in_log.stored s.in_log.sized ready in
          let (h', p, q) = put-IsPut db.hash rec.id stored_at s.hashed in
          (
            h',
            ap (append_encoded cipher (some nonce) db rec) enc
                ∙ ap (λ r. answered r (is_over_quota db rec (length buf) (namespace db rec))) done
                ∙ ap (answered (log_after, some db.log.size)) within
                ∙ ap (λ off. hash_appended db rec (length buf) log_after (some off)) s.in_log.sized
                ∙ ap (λ o. o >>= acknowledged) p,
            written h' q,
          )

      -- A valid record whose frame fits, in a log that takes it and within the quota: append_and_hash
      -- ends and acknowledges it. The database still holds what its log tells; the record's id loads
      -- as this version, or as missing if it is a tombstone, and every other id loads as before.
      pub append_and_hash-IsStored :
          (db' : Db) × (append_and_hash cipher (some nonce) db rec ≡ some (aegis_ok, db'))
          × IsStored cipher db' (fs ++ (frame ∷ []))
          × ((id : ℕ)
              → load_record cipher db' id
                ≡ (if rec.id == id then visible (some rec) else load_record cipher db id))
      append_and_hash-IsStored =
          let (h', p, w) = append_and_hash-IsWritten in
          (
            record db {
              log = log_after;
              hash = h';
              tenants = accounted db rec (length buf) (namespace db rec);
            },
            p,
            w.stored,
            w.loads,
          )
