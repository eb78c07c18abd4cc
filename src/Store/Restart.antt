-- ===== src/Store/Restart.antt =====
-- A restart of a database: db_open of src/storage/db.c on the files that it left.
use aegisdb.Prelude.{
  ℕ, ◌+◌, ◌≡◌, refl, sym, ap, ◌∙◌, subst, inl, inr, true, false, Bool-cases, Option, none, some,
  List, [], ◌++◌, append_assoc, append-nil, ltb, le→ltb, if◌then◌else◌, ◌>>=◌, All, length,
  length-append, arith,
}
use aegisdb.Aead.{Aead}
use aegisdb.Log.{LogFile, frame_overhead}
use aegisdb.Log.Append.{log_fsync}
use aegisdb.Log.Read.{log_truncate, log_read, log_read_plain, log_read_encrypted}
use aegisdb.Log.Frames.{Frame, IsFrame}
use aegisdb.Log.Torn.{IsTorn}
use aegisdb.Log.Recovery.{all_bytes, entries, readable, first_hole, is_split}
use aegisdb.Log.Durable.{all_bytes-append}
use aegisdb.Log.Open.{is_keyed, key_bytes}
use aegisdb.HashIndex.{HashEntry, if_live, get}
use aegisdb.HashIndex.Keys.{lookup}
use aegisdb.HashIndex.Map.{updates, get-lookup}
use aegisdb.Recovery.{Recovered}
use aegisdb.Recovery.Scan.{locations}
use aegisdb.Recovery.Result.{readable-append}
use aegisdb.Recovery.Trim.{IsCut, trimmed-IsCut, IsClean, IsClean-frames}
use aegisdb.Recovery.Rescan.{IsCheckpoint, IsRestarted, All-parts}
use aegisdb.Store.{Db, load_record, load_entry, load_payload}
use aegisdb.Store.Loads.{IsStored, remembered, visible, load_record-visible}
use aegisdb.Store.Startup.{Startup, floored, db_open}
use aegisdb.Compaction.Held.{readable-mode}
use aegisdb.Store.Opening.{Passes}
use aegisdb.Store.Reread.{reread, restarted, restarted-floored, db_open-IsRestarted}

-- What a log says depends on its bytes, its mode and its key only.
log_read-same :
    (cipher : Aead) (lf lf' : LogFile)
    → lf'.bytes ≡ lf.bytes
    → lf'.encrypted ≡ lf.encrypted
    → lf'.key ≡ lf.key
    → (offset : ℕ) → log_read cipher lf' offset ≡ log_read cipher lf offset
unfolding log_read log_read_plain log_read_encrypted
log_read-same cipher lf lf' b e k offset = rw (b, e, k) refl

load_entry-same :
    (cipher : Aead) (db db' : Db)
    → ((offset : ℕ) → log_read cipher db'.log offset ≡ log_read cipher db.log offset)
    → (o : Option HashEntry) → load_entry cipher db' o ≡ load_entry cipher db o
load_entry-same cipher db db' r none = refl
load_entry-same cipher db db' r (some e) = ap load_payload (r e.offset)

load_record-same :
    (cipher : Aead) (db db' : Db)
    → ((offset : ℕ) → log_read cipher db'.log offset ≡ log_read cipher db.log offset)
    → lookup db'.hash ≡ lookup db.hash
    → (id : ℕ) → load_record cipher db' id ≡ load_record cipher db id
unfolding load_record
load_record-same cipher db db' r e id =
    ap (load_entry cipher db')
      (get-lookup db'.hash id ∙ ap (λ m. m id >>= if_live) e ∙ sym (get-lookup db.hash id))
    ∙ load_entry-same cipher db db' r (get db.hash id)

module _ (cipher : Aead) (st : Startup) (db : Db) (fs : List Frame) (s : IsStored cipher db fs)
    (r : Recovered) (x : IsRestarted cipher (reread st db.log) fs r) where
  abbrev lf : LogFile
  lf = reread st db.log

  abbrev junk : List ℕ
  junk = s.in_log.junk

  abbrev over : ℕ
  over = frame_overhead db.log.encrypted

  abbrev end_before : ℕ
  end_before = length (all_bytes x.before)

  abbrev parts : All (IsFrame db.log.encrypted) x.before × All (IsFrame db.log.encrypted) x.scanned
  parts =
      All-parts db.log.encrypted x.before x.scanned
        (subst (All (IsFrame db.log.encrypted)) x.both s.in_log.frames)

  mapped_before : lookup r.hash ≡ lookup db.hash
  mapped_before =
      x.mapped
      ∙ ap (λ ps. updates (λ id. none) (locations ps)) (readable-mode cipher db.log lf refl refl fs)
      ∙ sym s.mapped

  -- The whole file stays.
  whole_file :
      is_split false (entries cipher lf x.scanned) ≡ true
      → (id : ℕ) → load_record cipher (restarted db r) id ≡ load_record cipher db id
  whole_file b =
      let full : x.res.truncate_to ≡ lf.size =
        x.end
        ∙ ap (λ b. if b then lf.size else first_hole over end_before (entries cipher lf x.scanned))
            b in
      let uncut : r.log ≡ lf =
        x.cut
        ∙ ap (λ b. if b then (log_fsync true (log_truncate x.res.truncate_to lf)).0 else lf)
            (ap (λ n. ltb n lf.size) full ∙ le→ltb lf.size lf.size (ground arith)) in
      load_record-same cipher db (restarted db r)
        (log_read-same cipher db.log r.log (ap (λ l. l.bytes) uncut) (ap (λ l. l.encrypted) uncut)
          (ap (λ l. l.key) uncut))
        mapped_before

  -- The file is cut behind the frames before the first hole.
  module _ (k : IsClean cipher lf end_before x.scanned)
      (e : x.res.truncate_to ≡ length (all_bytes (x.before ++ k.good))) where
    abbrev left : List Frame
    left = x.before ++ k.good

    same_frames : fs ≡ left ++ k.bad
    same_frames =
        x.both ∙ ap (λ gs. x.before ++ gs) k.same ∙ sym (append_assoc x.before k.good k.bad)

    left-IsCut : IsCut lf r.log (all_bytes left)
    left-IsCut =
        let file =
          s.in_log.stored
          ∙ ap (λ gs. all_bytes gs ++ junk) same_frames
          ∙ ap (λ y. y ++ junk) (all_bytes-append left k.bad)
          ∙ append_assoc (all_bytes left) (all_bytes k.bad) junk in
        subst (λ l. IsCut lf l (all_bytes left)) (sym x.cut)
          (trimmed-IsCut lf (all_bytes left) (all_bytes k.bad ++ junk) file refl x.res e)

    same_readable :
        readable over 0 (entries cipher lf fs) ≡ readable over 0 (entries cipher lf left)
    same_readable =
        ap (λ gs. readable over 0 (entries cipher lf gs)) x.both
        ∙ readable-append cipher lf 0 x.before x.scanned parts.0
        ∙ ap
            (λ n.
              readable over 0 (entries cipher lf x.before)
              ++ readable over n (entries cipher lf x.scanned))
            start
        ∙ ap (λ ps. readable over 0 (entries cipher lf x.before) ++ ps) k.whole
        ∙ ap
            (λ n.
              readable over 0 (entries cipher lf x.before)
              ++ readable over n (entries cipher lf k.good))
            (sym start)
        ∙ sym (readable-append cipher lf 0 x.before k.good parts.0)
      where
        start : 0 + end_before ≡ end_before
        start = omega arith

    pub left-IsStored : IsStored cipher (restarted db r) left
    left-IsStored =
        let c = left-IsCut in
        record {
          in_log = record {
            frames =
                rw (sym c.mode) at
                  (All-parts db.log.encrypted left k.bad
                    (subst (All (IsFrame db.log.encrypted)) same_frames s.in_log.frames)).0;
            junk = [];
            stored = c.bytes ∙ sym (append-nil (all_bytes left));
            sized = c.sized;
          };
          hashed = x.hashed;
          mapped =
              x.mapped
              ∙ ap (λ ps. updates (λ id. none) (locations ps))
                  (same_readable ∙ sym (readable-mode cipher lf r.log c.mode c.same_key left));
        }

    cut_file : (id : ℕ) → load_record cipher (restarted db r) id ≡ load_record cipher db id
    cut_file id =
        let c = left-IsCut in
        load_record-visible cipher (restarted db r) left id left-IsStored
        ∙ ap (λ ps. visible (remembered (λ id. none) ps id))
            (readable-mode cipher lf r.log c.mode c.same_key left
              ∙ sym same_readable
              ∙ readable-mode cipher db.log lf refl refl fs)
        ∙ sym (load_record-visible cipher db fs id s)

  cut_end :
      (k : IsClean cipher lf end_before x.scanned)
      → is_split false (entries cipher lf x.scanned) ≡ false
      → x.res.truncate_to ≡ length (all_bytes (x.before ++ k.good))
  cut_end k b =
      x.end
      ∙ ap (λ b. if b then lf.size else first_hole over end_before (entries cipher lf x.scanned)) b
      ∙ k.hole
      ∙ sym (
          ap length (all_bytes-append x.before k.good)
          ∙ length-append (all_bytes x.before) (all_bytes k.good))

  pub restarted-loads : (id : ℕ) → load_record cipher (restarted db r) id ≡ load_record cipher db id
  restarted-loads = elim (Bool-cases (is_split false (entries cipher lf x.scanned))) [
    | inl b ↦ whole_file b
    | inr b ↦
        let k = IsClean-frames cipher lf x.scanned end_before parts.1 b in cut_file k (cut_end k b)
  ]

module _ (cipher : Aead) (st : Startup) (db : Db) (fs : List Frame) (s : IsStored cipher db fs)
    (t : IsTorn db.log s.in_log.junk) (mode : db.log.encrypted ≡ is_keyed st.key)
    (same : db.log.key ≡ key_bytes st.key) (pass : Passes cipher db.log fs s.in_log.junk)
    (path : Option (List ℕ)) (ckpt : IsCheckpoint cipher st.key db.log fs path) where
  -- A start on the log of a database that holds what the log tells, with at most a torn frame behind
  -- its frames. The key of the configuration is the log's, and an encrypted log is not one of which
  -- the first frame fails its check: it can be read, or there is none and less than a header is torn.
  -- The file of the checkpoint does not load, or it is one of the index of the first frames. Then
  -- db_open ends, and with the index and over the log that it leaves every id loads as before.
  pub db_open-load_record :
      (r : Recovered) × (db_open cipher st db.log.bytes path ≡ some (some r))
      × ((id : ℕ) → load_record cipher (restarted db r) id ≡ load_record cipher db id)
  db_open-load_record =
      let (r, p, x) = db_open-IsRestarted cipher st db fs s t mode same pass path ckpt in
      (
        floored st.meta_next r,
        p,
        λ id.
            ap (λ d. load_record cipher d id) (restarted-floored db st.meta_next r)
            ∙ restarted-loads cipher st db fs s r x id,
      )
