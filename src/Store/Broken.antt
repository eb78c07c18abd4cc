-- ===== src/Store/Broken.antt =====
-- append_and_hash of src/query/query_engine.c where a write of log_append breaks off.
use aegisdb.Prelude.{
  ℕ, ◌<◌, ◌≡◌, refl, sym, ap, ◌∙◌, Bool, false, Option, none, some, List, [], ◌∷◌, ◌++◌, append-nil,
  if◌then◌else◌, length, length-take, take, arith, ◌⊎◌, inl, inr, ◌&&◌, leb, true, Bool-cases,
}
use aegisdb.Aead.{Aead, IsAead}
use aegisdb.Record.{MemoryRecord}
use aegisdb.Record.Encode.{record_encode}
use aegisdb.Log.{LogFile, frame_overhead}
use aegisdb.Log.Append.Frame.{IsAppendable, new_frame, new_frame-IsFrame}
use aegisdb.Log.Append.Broken.{cut, log_append-broken}
use aegisdb.Log.Frames.{Frame, frame_bytes, content, length-frame_bytes}
use aegisdb.Log.Recovery.{all_bytes, entries, readable}
use aegisdb.Log.Torn.{IsTorn}
use aegisdb.HashIndex.Map.{updates}
use aegisdb.Recovery.{Recovered}
use aegisdb.Recovery.Scan.{locations}
use aegisdb.Store.{
  AegisStatus, aegis_err_internal, aegis_err_quota_exceeded, Db, namespace, is_over_quota,
  hash_appended, append_encoded, append_and_hash, load_record,
}
use aegisdb.Store.Loads.{IsStored, visible, remembered, load_record-visible}
use aegisdb.Store.Startup.{Startup, start_on, db_open}
use aegisdb.Store.Opening.{Passes, log_open-junk}
use aegisdb.Store.Reread.{restarted}
use aegisdb.Store.Restart.{db_open-load_record}
use aegisdb.Log.Open.{is_keyed, key_bytes, log_open, refused, log_open_err_wrong_key, opened}
use aegisdb.Recovery.Rescan.{IsCheckpoint}

-- Whether log_open refuses the log behind a write that broke off after `n` bytes: it takes the torn
-- first frame of an encrypted log for one of another key, if the header is whole.
abbrev pub blocked : LogFile → List Frame → ℕ → Bool
blocked lf [] n = lf.encrypted && leb 36 n
blocked lf (f ∷ fs) n = false

-- A start on the log of a database ends, and behind it every id loads as it did before.
abbrev pub Reopens : Aead → Startup → Option (List ℕ) → (db' db : Db) → Type 0
Reopens cipher st path db' db =
    (r : Recovered) × (db_open cipher st db'.log.bytes path ≡ some (some r))
    × ((id : ℕ) → load_record cipher (restarted db' r) id ≡ load_record cipher db id)

module _ (cipher : Aead) (law : IsAead cipher) (db : Db) (fs : List Frame)
    (s : IsStored cipher db fs) (whole : s.in_log.junk ≡ []) where
  module _ (nonce buf : List ℕ) (rec : MemoryRecord) (enc : record_encode rec ≡ some buf)
      (h : IsAppendable nonce buf) where
    abbrev pub frame : Frame
    frame = new_frame cipher db.log nonce buf

    module _ (n : ℕ) (limit : db.log.accepts ≡ some n)
        (short : n < length (frame_bytes frame)) where
      abbrev pub broken : LogFile
      broken = cut db.log n (frame_bytes frame)

      abbrev pub db_after : Db
      db_after = record db { log = broken }

      pub at_end : db.log.bytes ≡ all_bytes fs
      at_end = s.in_log.stored ∙ ap (λ x. all_bytes fs ++ x) whole ∙ append-nil (all_bytes fs)

      pub entries-broken : (gs : List Frame) → entries cipher broken gs ≡ entries cipher db.log gs
      unfolding content
      entries-broken [] = refl
      entries-broken (g ∷ gs) =
          ap (λ es. (length g.text, content cipher db.log g) ∷ es) (entries-broken gs)

      abbrev pub broken-IsStored : IsStored cipher db_after fs
      broken-IsStored = record {
        in_log = record {
          frames = s.in_log.frames;
          junk = take n (frame_bytes frame);
          stored = ap (λ x. x ++ take n (frame_bytes frame)) at_end;
          sized = s.in_log.sized;
        };
        hashed = s.hashed;
        mapped =
            s.mapped
            ∙ ap
                (λ es.
                  updates (λ id. none)
                    (locations (readable (frame_overhead db.log.encrypted) 0 es)))
                (sym (entries-broken fs));
      }

      pub broken-IsTorn : IsTorn broken (take n (frame_bytes frame))
      broken-IsTorn =
          let fit = new_frame-IsFrame cipher law nonce buf h db.log in
          record {
            frame = frame;
            frame-IsFrame = fit;
            kept = n;
            partial = omega (arith, short, length-frame_bytes db.log.encrypted frame fit);
            same = refl;
          }

      pub broken-Passes :
          (gs : List Frame) (junk : List ℕ)
          → Passes cipher db.log gs junk
          → Passes cipher broken gs junk
      unfolding content
      broken-Passes [] junk p = p
      broken-Passes (g ∷ gs) junk p = p

      checkpoint-cut :
          (st : Startup) (path : Option (List ℕ))
          → IsCheckpoint cipher st.key db.log fs path
          → IsCheckpoint cipher st.key broken fs path
      checkpoint-cut st path (inl e) = inl e
      checkpoint-cut st path (inr c) = inr (record {
        early = c.early;
        later = c.later;
        both = c.both;
        index = c.index;
        next_id = c.next_id;
        loads = c.loads;
        hashed = c.hashed;
        mapped =
            c.mapped
            ∙ ap
                (λ es.
                  updates (λ id. none)
                    (locations (readable (frame_overhead db.log.encrypted) 0 es)))
                (sym (entries-broken c.early));
      })

      pub loads-broken : (id : ℕ) → load_record cipher db_after id ≡ load_record cipher db id
      loads-broken id =
          load_record-visible cipher db_after fs id broken-IsStored
          ∙ ap
              (λ es.
                visible
                  (remembered (λ id. none) (readable (frame_overhead db.log.encrypted) 0 es) id))
              (entries-broken fs)
          ∙ sym (load_record-visible cipher db fs id s)

      abbrev answered : LogFile × Option ℕ → Bool → Option (AegisStatus × Db)
      answered (log, off) b =
          if b
          then some (aegis_err_quota_exceeded, db)
          else hash_appended db rec (length buf) log off

      pub append_and_hash-cut :
          is_over_quota db rec (length buf) (namespace db rec) ≡ false
          → append_and_hash cipher (some nonce) db rec ≡ some (aegis_err_internal, db_after)
      unfolding append_and_hash
      append_and_hash-cut within =
          let done =
            log_append-broken cipher law nonce buf h db.log n
              (s.in_log.sized ∙ sym (ap length at_end)) limit short in
          ap (append_encoded cipher (some nonce) db rec) enc
          ∙ ap (λ o. answered o (is_over_quota db rec (length buf) (namespace db rec))) done
          ∙ ap (answered (broken, none)) within

      torn_length : length (take n (frame_bytes frame)) ≡ n
      torn_length = omega (arith, short, length-take n (frame_bytes frame))

      -- A start on the log that the write leaves, where the first frame passes its check.
      passing :
          (st : Startup) (mode : db.log.encrypted ≡ is_keyed st.key)
          → (same : db.log.key ≡ key_bytes st.key)
          → Passes cipher db.log fs (take n (frame_bytes frame))
          → (path : Option (List ℕ)) → IsCheckpoint cipher st.key db.log fs path
          → Reopens cipher st path db_after db
      passing st mode same pass path ckpt =
          let (r, p, q) =
            db_open-load_record cipher st db_after fs broken-IsStored broken-IsTorn mode same
              (broken-Passes fs (take n (frame_bytes frame)) pass) path
              (checkpoint-cut st path ckpt) in
          (r, p, λ id. q id ∙ loads-broken id)

      pub Passes-take :
          (gs : List Frame)
          → Passes cipher db.log gs []
          → blocked db.log gs n ≡ false
          → Passes cipher db.log gs (take n (frame_bytes frame))
      Passes-take [] p b = ap (λ m. db.log.encrypted && leb 36 m) torn_length ∙ b
      Passes-take (g ∷ gs) p b = p

      -- Where the torn frame is the first one, of an encrypted log, and its header is whole.
      pub refused_start :
          (st : Startup) (mode : db.log.encrypted ≡ is_keyed st.key)
          → (same : db.log.key ≡ key_bytes st.key) → (path : Option (List ℕ)) (gs : List Frame)
          → gs ≡ fs
          → blocked db.log gs n ≡ true
          → db_open cipher st broken.bytes path ≡ some none
      unfolding db_open
      refused_start st mode same path [] e b =
          let junk = take n (frame_bytes frame) in
          let answer = λ (x : Bool).
            if x
            then refused cipher st.accepts st.fsync_batch log_open_err_wrong_key junk
            else opened cipher st.accepts st.fsync_batch st.key junk in
          let only : broken.bytes ≡ junk = ap (λ x. x ++ junk) (at_end ∙ sym (ap all_bytes e)) in
          ap (start_on cipher st path) (
            ap (log_open cipher st.accepts st.fsync_batch st.key) only
            ∙ log_open-junk cipher st.accepts st.fsync_batch st.key broken mode same junk
                broken-IsTorn
            ∙ ap (λ m. answer (db.log.encrypted && leb 36 m)) torn_length
            ∙ ap answer b)
      refused_start st mode same path (g ∷ gs) e b = absurd (ground arith)

      back :
          (st : Startup) (mode : db.log.encrypted ≡ is_keyed st.key)
          → (same : db.log.key ≡ key_bytes st.key) → Passes cipher db.log fs []
          → (path : Option (List ℕ)) → IsCheckpoint cipher st.key db.log fs path
          → ((blocked db.log fs n ≡ true) × (db_open cipher st broken.bytes path ≡ some none))
            ⊎ ((blocked db.log fs n ≡ false) × Reopens cipher st path db_after db)
      back st mode same pass path ckpt = elim (Bool-cases (blocked db.log fs n)) [
        | inl b ↦ inl (b, refused_start st mode same path fs refl b)
        | inr b ↦ inr (b, passing st mode same (Passes-take fs pass b) path ckpt)
      ]

      -- A write breaks off within the frame, on a log that holds nothing behind its frames, of a
      -- record within the quota. It is answered as an internal error, and every id loads as before.
      -- A start follows with the log's key, if it is encrypted, where the log could be opened before
      -- the write, and with a checkpoint that does not load or is one of the index of the first
      -- frames. If the log is encrypted, had no frame and takes the whole header of the new one, the
      -- start fails; otherwise it ends, and with the index and over the log that it leaves every id
      -- loads as before the write.
      pub append_and_hash-broken :
          (st : Startup) (mode : db.log.encrypted ≡ is_keyed st.key)
          → (same : db.log.key ≡ key_bytes st.key) → Passes cipher db.log fs []
          → (path : Option (List ℕ)) → IsCheckpoint cipher st.key db.log fs path
          → is_over_quota db rec (length buf) (namespace db rec) ≡ false
          → (db' : Db) × (append_and_hash cipher (some nonce) db rec
              ≡ some (aegis_err_internal, db'))
            × ((id : ℕ) → load_record cipher db' id ≡ load_record cipher db id)
            × (((blocked db.log fs n ≡ true) × (db_open cipher st db'.log.bytes path ≡ some none))
                ⊎ ((blocked db.log fs n ≡ false) × Reopens cipher st path db' db))
      append_and_hash-broken st mode same pass path ckpt within =
          (db_after, append_and_hash-cut within, loads-broken, back st mode same pass path ckpt)
