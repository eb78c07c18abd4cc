-- ===== src/History/Steps.antt =====
-- The steps of a run: a write that is answered, a restart, and a checkpoint.
use aegisdb.Prelude.{
  ℕ, ◌≡◌, refl, sym, ap, ◌∙◌, subst, true, false, Bool-cases, Option, some, inl, inr, List, [], ◌∷◌,
  ◌++◌, append-nil, All-append, length, replicate, arith,
}
use aegisdb.Aead.{Aead, IsAead}
use aegisdb.Record.{MemoryRecord}
use aegisdb.Log.{LogFile}
use aegisdb.Log.Append.Frame.{
  IsAppendable, new_frame, new_frame-IsFrame, content-new_frame, length-new_frame,
}
use aegisdb.Log.Append.Stored.{left_over}
use aegisdb.Log.Frames.{Frame, overhead_pos}
use aegisdb.Log.Recovery.{all_bytes}
use aegisdb.Log.Torn.{IsTorn}
use aegisdb.Log.Durable.{appended-IsLog}
use aegisdb.HashIndex.{create}
use aegisdb.Recovery.{Recovered}
use aegisdb.Record.Encode.{record_encode}
use aegisdb.Store.{
  AegisStatus, aegis_ok, aegis_err_quota_exceeded, Db, namespace, is_over_quota, append_encoded,
  append_and_hash, load_record,
}
use aegisdb.Store.Startup.{Startup, db_open, db_checkpoint}
use aegisdb.Store.Opening.{Passes}
use aegisdb.HashIndex.File.{hash_index_load, hash_index_load-hash_index_save}
use aegisdb.HashIndex.Map.{create-IsHashed}
use aegisdb.Store.Writes.{append_and_hash-IsWritten, log_after, decoded}
use aegisdb.Compaction.Copy.{nothing_left}
use aegisdb.Compaction.Held.{IsHeld, content-mode, held-mode}
use aegisdb.History.{View, answered, IsWritable, recovered, IsWritableIndex}
use aegisdb.History.Safe.{IsSafe, IsGoing, checkpoint-append, no_junk}
use aegisdb.History.Restart.{recovered-IsGoing, held-Passes}

pub some-inj : {A : Type 0} {a b : A} → some a ≡ some b → a ≡ b
some-inj e = cc

pub over_quota :
    (cipher : Aead) (db : Db) (nonce buf : List ℕ) (rec : MemoryRecord)
    → record_encode rec ≡ some buf
    → is_over_quota db rec (length buf) (namespace db rec) ≡ true
    → append_and_hash cipher (some nonce) db rec ≡ some (aegis_err_quota_exceeded, db)
unfolding append_and_hash
over_quota cipher db nonce buf rec enc over =
    ap (append_encoded cipher (some nonce) db rec) enc ∙ rw over refl

-- A database between two steps that shows a view.
abbrev pub Shows : Aead → Option (List ℕ) → Db → Option (List ℕ) → View → Type 0
Shows cipher key db path view =
    (fs : List Frame) × IsGoing cipher key db path fs
    × ((id : ℕ) → load_record cipher db id ≡ view id)

module _ (cipher : Aead) (law : IsAead cipher) (key : Option (List ℕ)) (db : Db)
    (path : Option (List ℕ)) (fs : List Frame) (g : IsGoing cipher key db path fs) where
  abbrev s : IsSafe cipher db fs
  s = g.safe

  some_nonce-IsAppendable : IsAppendable (replicate 24 0) []
  some_nonce-IsAppendable = record { small = omega arith; wide = refl; bytes = tt }

  pub nothing-IsTorn : (lf : LogFile) → IsTorn lf []
  nothing-IsTorn lf = record {
    frame = new_frame cipher lf (replicate 24 0) [];
    frame-IsFrame = new_frame-IsFrame cipher law (replicate 24 0) [] some_nonce-IsAppendable lf;
    kept = 0;
    partial = omega (arith, overhead_pos lf.encrypted);
    same = refl;
  }

  module _ (nonce : List ℕ) (rec : MemoryRecord) (w : IsWritable nonce rec) where
    abbrev next : Frame
    next = new_frame cipher db.log nonce w.buf

    -- The record is acknowledged.
    pub acknowledged-Shows :
        is_over_quota db rec (length w.buf) (namespace db rec) ≡ false
        → (db' : Db) × (append_and_hash cipher (some nonce) db rec ≡ some (aegis_ok, db'))
          × Shows cipher key db' path (answered aegis_ok rec (load_record cipher db))
    acknowledged-Shows within =
        let (h, p, q) =
          append_and_hash-IsWritten cipher law db fs s.stored nonce w.buf rec w.valid w.encoded
            w.appendable s.takes within in
        let log' =
          log_after cipher law db fs s.stored nonce w.buf rec w.valid w.encoded w.appendable in
        let l =
          appended-IsLog cipher db.log fs s.stored.in_log law nonce w.buf w.appendable s.takes in
        let empty : left_over next s.stored.in_log.junk ≡ [] =
          ap (left_over next) (no_junk cipher db fs s) ∙ nothing_left next in
        let dec =
          decoded cipher law db fs s.stored nonce w.buf rec w.valid w.encoded w.appendable in
        (
          _,
          p,
          (
            fs ++ (next ∷ []),
            record {
              safe = record {
                stored = q.stored;
                exact =
                    l.stored
                    ∙ ap (λ x. all_bytes (fs ++ (next ∷ [])) ++ x) empty
                    ∙ append-nil (all_bytes (fs ++ (next ∷ [])));
                takes = s.takes;
                held =
                    All-append (IsHeld cipher log') fs (next ∷ [])
                      (held-mode cipher db.log log' refl refl fs s.held)
                      (
                        (
                          w.buf,
                          rec,
                          content-mode cipher db.log log' refl refl next
                              ∙ content-new_frame cipher law nonce w.buf w.appendable db.log,
                          dec,
                          length-new_frame cipher law db.log nonce w.buf,
                          (w.appendable.bytes, w.appendable.small),
                        ),
                        tt,
                      );
              };
              under = g.under;
              checkpoint =
                  checkpoint-append cipher key db.log log' fs (next ∷ []) path refl refl
                    g.checkpoint;
            },
            q.loads,
          ),
        )

    pub answered-Shows :
        (status : AegisStatus) (db' : Db)
        → append_and_hash cipher (some nonce) db rec ≡ some (status, db')
        → Shows cipher key db' path (answered status rec (load_record cipher db))
    answered-Shows status db' e =
        elim (Bool-cases (is_over_quota db rec (length w.buf) (namespace db rec))) [
          | inl over ↦
              let same = some-inj (sym (over_quota cipher db nonce w.buf rec w.encoded over) ∙ e) in
              subst
                (λ (p : AegisStatus × Db).
                  Shows cipher key p.1 path (answered p.0 rec (load_record cipher db)))
                same (fs, g, λ id. refl)
          | inr within ↦
              let (db'', p, shows) = acknowledged-Shows within in
              let same = some-inj (sym p ∙ e) in
              subst
                (λ (p : AegisStatus × Db).
                  Shows cipher key p.1 path (answered p.0 rec (load_record cipher db)))
                same shows
        ]

  -- The server comes back behind a step.
  pub restart-Shows :
      (st : Startup)
      → st.key ≡ key
      → (r : Recovered) × (db_open cipher st db.log.bytes path ≡ some (some r))
        × Shows cipher key (recovered db r) path (load_record cipher db)
  restart-Shows st keyed =
      let whole = no_junk cipher db fs s in
      let (r, p, going, loads) =
        recovered-IsGoing cipher key st keyed db fs s.stored s.held
          (subst (IsTorn db.log) (sym whole) (nothing-IsTorn db.log)) g.under
          (subst (Passes cipher db.log fs) (sym whole) (held-Passes cipher db.log fs s.held)) path
          g.checkpoint in
      (r, p, (fs, going, loads))

  pub restarted-Shows :
      (st : Startup)
      → st.key ≡ key
      → (r : Recovered) → db_open cipher st db.log.bytes path ≡ some (some r)
      → Shows cipher key (recovered db r) path (load_record cipher db)
  restarted-Shows st keyed r e =
      let (r', p, shows) = restart-Shows st keyed in
      let same = some-inj (some-inj (sym p ∙ e)) in
      subst (λ x. Shows cipher key (recovered db x) path (load_record cipher db)) same shows

  -- A checkpoint is written.
  pub checkpointed-Shows :
      (nonce : List ℕ) (next_id : ℕ)
      → IsWritableIndex nonce next_id db
      → (file : List ℕ) → db_checkpoint cipher key (some nonce) next_id db ≡ some file
      → Shows cipher key db (some file) (load_record cipher db)
  unfolding db_checkpoint
  checkpointed-Shows nonce next_id w file e =
      let (v, empty) = create-IsHashed in
      let (file', h, p, q, hashed, mapped) =
        hash_index_load-hash_index_save cipher law key nonce db.hash create db.log.size next_id
          w.wide s.stored.hashed w.narrow w.few v empty w.covered_fits w.next_fits in
      let same : file' ≡ file = some-inj (sym p ∙ e) in
      let loads : hash_index_load cipher key create (some file)
          ≡ some (h, length (all_bytes fs), next_id) =
        ap (λ x. hash_index_load cipher key create (some x)) (sym same)
        ∙ q
        ∙ ap (λ n. some (h, n, next_id)) s.stored.in_log.sized in
      (
        fs,
        record {
          safe = s;
          under = g.under;
          checkpoint = inr (record {
            early = fs;
            later = [];
            both = sym (append-nil fs);
            index = h;
            next_id = next_id;
            loads = loads;
            hashed = hashed;
            mapped = mapped ∙ s.stored.mapped;
          });
        },
        λ id. refl,
      )
