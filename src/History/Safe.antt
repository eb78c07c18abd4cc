-- ===== src/History/Safe.antt =====
-- What holds of a database between the steps of a run: its log is whole frames, each with a record,
-- and its index is what they tell.
use aegisdb.Prelude.{
  ℕ, ◌≡◌, refl, sym, ap, ◌∙◌, Option, none, inl, List, [], append-nil, append_assoc, ◌++◌, inr,
  subst, All, length, length-append, length-nil, arith,
}
use aegisdb.Aead.{Aead}
use aegisdb.Log.{LogFile}
use aegisdb.Log.Frames.{Frame, IsFrame}
use aegisdb.Log.Recovery.{all_bytes}
use aegisdb.HashIndex.Keys.{lookup, IsHashed}
use aegisdb.HashIndex.Map.{updates, create-IsHashed}
use aegisdb.Recovery.Scan.{locations}
use aegisdb.Recovery.Result.{located_from}
use aegisdb.Store.{aegis_err_not_found, Db, load_record}
use aegisdb.Store.Loads.{IsStored, remembered, visible, load_record-visible}
use aegisdb.Compaction.Held.{readable-mode, IsHeld, held-mode}
use aegisdb.Recovery.Rescan.{IsCheckpoint}
use aegisdb.History.{limited, IsEmpty, IsUnder}

pub record IsSafe (cipher : Aead) (db : Db) (fs : List Frame) : Type 0 where
  pub stored : IsStored cipher db fs
  pub exact : db.log.bytes ≡ all_bytes fs
  pub takes : db.log.accepts ≡ none
  pub held : All (IsHeld cipher db.log) fs

-- Also, the log is the configuration's, and the checkpoint's file is missing, does not load, or is
-- one of the index of the first frames.
pub record IsGoing (cipher : Aead) (key : Option (List ℕ)) (db : Db) (path : Option (List ℕ))
    (fs : List Frame) : Type 0 where
  pub safe : IsSafe cipher db fs
  pub under : IsUnder key db.log
  pub checkpoint : IsCheckpoint cipher key db.log fs path

-- A checkpoint's file stays one while frames are appended, on a log of the same mode and key.
pub checkpoint-append :
    (cipher : Aead) (key : Option (List ℕ)) (lf lf' : LogFile) (fs gs : List Frame)
    → (path : Option (List ℕ)) → lf'.encrypted ≡ lf.encrypted
    → lf'.key ≡ lf.key
    → IsCheckpoint cipher key lf fs path
    → IsCheckpoint cipher key lf' (fs ++ gs) path
checkpoint-append cipher key lf lf' fs gs path e k (inl a) = inl a
checkpoint-append cipher key lf lf' fs gs path e k (inr c) = inr (record {
  early = c.early;
  later = c.later ++ gs;
  both = ap (λ hs. hs ++ gs) c.both ∙ append_assoc c.early c.later gs;
  index = c.index;
  next_id = c.next_id;
  loads = c.loads;
  hashed = c.hashed;
  mapped =
      c.mapped
      ∙ ap (λ ps. updates (λ id. none) (locations ps))
          (sym (readable-mode cipher lf lf' e k c.early));
})

pub checkpoint-mode :
    (cipher : Aead) (key : Option (List ℕ)) (lf lf' : LogFile) (fs : List Frame)
    → (path : Option (List ℕ)) → lf'.encrypted ≡ lf.encrypted
    → lf'.key ≡ lf.key
    → IsCheckpoint cipher key lf fs path
    → IsCheckpoint cipher key lf' fs path
checkpoint-mode cipher key lf lf' fs path e k c =
    subst (λ gs. IsCheckpoint cipher key lf' gs path) (append-nil fs)
      (checkpoint-append cipher key lf lf' fs [] path e k c)

module _ (cipher : Aead) where
  -- Two databases that hold what the same frames tell show the same records.
  pub same-loads :
      (db db' : Db) (fs : List Frame)
      → db'.log.encrypted ≡ db.log.encrypted
      → db'.log.key ≡ db.log.key
      → IsStored cipher db fs
      → IsStored cipher db' fs
      → (id : ℕ) → load_record cipher db' id ≡ load_record cipher db id
  same-loads db db' fs e k s s' id =
      load_record-visible cipher db' fs id s'
      ∙ ap (λ ps. visible (remembered (λ id. none) ps id))
          (readable-mode cipher db.log db'.log e k fs)
      ∙ sym (load_record-visible cipher db fs id s)

  -- The same frames in a file of the same mode, behind an index that they tell.
  pub same-IsSafe :
      (lf : LogFile) (db' : Db) (fs : List Frame)
      → db'.log.encrypted ≡ lf.encrypted
      → db'.log.key ≡ lf.key
      → All (IsFrame lf.encrypted) fs
      → All (IsHeld cipher lf) fs
      → db'.log.bytes ≡ all_bytes fs
      → db'.log.size ≡ length (all_bytes fs)
      → db'.log.accepts ≡ none
      → IsHashed db'.hash
      → lookup db'.hash ≡ updates (λ id. none) (located_from cipher lf 0 fs)
      → IsSafe cipher db' fs
  same-IsSafe lf db' fs e k frames held exact sized takes hashed mapped = record {
    stored = record {
      in_log = record {
        frames = rw (← e) at frames;
        junk = [];
        stored = exact ∙ sym (append-nil (all_bytes fs));
        sized = sized;
      };
      hashed = hashed;
      mapped =
          mapped
          ∙ ap (λ ps. updates (λ id. none) (locations ps))
              (sym (readable-mode cipher lf db'.log e k fs));
    };
    exact = exact;
    takes = takes;
    held = held-mode cipher lf db'.log e k fs held;
  }

  pub empty-IsSafe :
      (db : Db)
      → IsEmpty db
      → IsSafe cipher db [] × ((id : ℕ) → load_record cipher db id ≡ inl aegis_err_not_found)
  empty-IsSafe db (h, b, z, t) =
      let (v, e) = create-IsHashed in
      let safe = same-IsSafe db.log db [] refl refl tt tt b z t (rw (← h) at v) (ap lookup h ∙ e) in
      (safe, λ id. load_record-visible cipher db [] id safe.stored)

  module _ (db : Db) (fs : List Frame) (s : IsSafe cipher db fs) where
    pub no_junk : s.stored.in_log.junk ≡ []
    no_junk = length-nil s.stored.in_log.junk (
        omega (
          arith,
          ap length (sym s.exact ∙ s.stored.in_log.stored),
          length-append (all_bytes fs) s.stored.in_log.junk,
        ))

    abbrev pub limited-IsStored : (n : Option ℕ) → IsStored cipher (limited n db) fs
    limited-IsStored n = record {
      in_log = record {
        frames = s.stored.in_log.frames;
        junk = [];
        stored = s.exact ∙ sym (append-nil (all_bytes fs));
        sized = s.stored.in_log.sized;
      };
      hashed = s.stored.hashed;
      mapped =
          s.stored.mapped
          ∙ ap (λ ps. updates (λ id. none) (locations ps))
              (sym (readable-mode cipher db.log (limited n db).log refl refl fs));
    }
