-- ===== src/History/View.antt =====
-- What load_record of src/query/query_engine.c answers along a run.
use aegisdb.Prelude.{
  ℕ, ◌<◌, ◌^◌, ◌==◌, ==_refl, if◌then◌else◌, inl, ◌≡◌, refl, sym, ap, ◌∙◌, subst, Bool, true, false,
  Option, none, some, List, [], ◌∷◌, append-nil, All, length,
}
use aegisdb.Bytes.{IsByte}
use aegisdb.Aead.{Aead, IsAead}
use aegisdb.Record.{MemoryRecord}
use aegisdb.Log.{LogFile}
use aegisdb.Log.Frames.{Frame}
use aegisdb.HashIndex.{create}
use aegisdb.Recovery.{Recovered}
use aegisdb.Store.{
  AegisStatus, aegis_ok, Db, namespace, is_over_quota, append_and_hash, load_record,
}
use aegisdb.Store.Loads.{IsStored, visible}
use aegisdb.Store.Startup.{Startup, db_open}
use aegisdb.Log.Open.{is_keyed, key_bytes}
use aegisdb.HashIndex.File.{hash_index_load}
use aegisdb.Ckpt.{ckpt_read}
use aegisdb.Compaction.{Setting, Host, compaction_run_once}
use aegisdb.Compaction.Held.{IsHeld}
use aegisdb.Compaction.Snapshot.{IsSound}
use aegisdb.Compaction.Run.{IsWilling, run-IsCompacted}
use aegisdb.Compaction.Later.{IsLater}
use aegisdb.Compaction.Unsynced.{IsUnsynced, compaction_run_once-unsynced}
use aegisdb.History.{
  View, is_ok, answered, IsWritable, recovered, Run, starts, writes, breaks, restarts, checkpoints,
  compacts, stops,
}
use aegisdb.History.Safe.{IsSafe, empty-IsSafe}
use aegisdb.History.Broken.{broken-Shows}
use aegisdb.History.Steps.{
  some-inj, Shows, acknowledged-Shows, answered-Shows, restart-Shows, restarted-Shows,
  checkpointed-Shows,
}

held-IsSound :
    (cipher : Aead) (lf : LogFile) (fs : List Frame)
    → All (IsHeld cipher lf) fs
    → All (IsSound cipher lf) fs
held-IsSound cipher lf [] h = tt
held-IsSound cipher lf (f ∷ fs) ((buf, r, a, d, n, fits), h) = (
  (λ payload p.
      let e : some buf ≡ some payload = sym a ∙ p in
      subst (λ (b : List ℕ). All IsByte b × (length b < 2 ^ 32)) (some-inj e) fits),
  held-IsSound cipher lf fs h,
)

module _ (cipher : Aead) (law : IsAead cipher) (key : Option (List ℕ)) where
  abbrev unraced :
      (host : Host) (fs : List Frame)
      → IsSafe cipher host.db fs
      → IsLater cipher host.db host.db fs []
  unraced host fs safe = record {
    at_snapshot = safe.stored;
    at_lock = subst (IsStored cipher host.db) (sym (append-nil fs)) safe.stored;
    same_mode = refl;
    same_key = refl;
  }

  no_file : (path : Option (List ℕ)) → path ≡ none → hash_index_load cipher key create path ≡ none
  unfolding hash_index_load ckpt_read
  no_file path e = rw e refl

  -- A compaction between two steps ends, and the database shows what it showed.
  compacted-Shows :
      (host : Host) (fs : List Frame)
      → IsSafe cipher host.db fs
      → (s : Setting) → IsWilling s
      → s.key ≡ key
      → (nonces : ℕ → List ℕ) → ((n : ℕ) → length (nonces n) ≡ 24)
      → (after : Host) × (compaction_run_once cipher (λ n. some (nonces n)) s false host.db host
          ≡ some (true, after))
        × Shows cipher key after.db after.path_index (load_record cipher host.db)
  compacted-Shows host fs safe s w keyed nonces wide =
      let (after, hs, c) =
        run-IsCompacted cipher law s w nonces wide host.db host fs [] (unraced host fs safe)
          (held-IsSound cipher host.db.log fs safe.held) tt in
      (
        after,
        c.done,
        (
          hs,
          record {
            safe = record {
              stored = c.stored;
              exact = c.exact;
              takes = c.takes;
              held = c.all_held;
            };
            under = (c.mode ∙ ap is_keyed keyed, c.same_key ∙ ap key_bytes keyed);
            checkpoint = inl (no_file after.path_index c.unlinked.0);
          },
          c.loads,
        ),
      )

  -- One that stops at its path or its fsync leaves everything as it was.
  stopped :
      (host : Host) (fs : List Frame)
      → IsSafe cipher host.db fs
      → (s : Setting) → IsUnsynced s
      → (nonces : ℕ → List ℕ) → ((n : ℕ) → length (nonces n) ≡ 24)
      → compaction_run_once cipher (λ n. some (nonces n)) s false host.db host ≡ some (false, host)
  stopped host fs safe s u nonces wide =
      compaction_run_once-unsynced cipher law s u nonces wide host.db host fs []
        (unraced host fs safe) (held-IsSound cipher host.db.log fs safe.held) tt

  onto :
      {view view' : View} (db : Db) (path : Option (List ℕ))
      → ((id : ℕ) → view id ≡ view' id)
      → Shows cipher key db path view
      → Shows cipher key db path view'
  onto db path e (fs, going, loads) = (fs, going, λ id. loads id ∙ e id)

  answered-same :
      (status : AegisStatus) (rec : MemoryRecord) (view view' : View) (id : ℕ)
      → view id ≡ view' id
      → answered status rec view id ≡ answered status rec view' id
  answered-same status rec view view' id e =
      ap (λ v. if is_ok status then (if rec.id == id then visible (some rec) else v) else v) e

  shown :
      {p q : Bool × Host} (host : Host)
      → p ≡ q
      → Shows cipher key p.1.db p.1.path_index (load_record cipher host.db)
      → Shows cipher key q.1.db q.1.path_index (load_record cipher host.db)
  shown host same shows =
      subst
        (λ (x : Bool × Host). Shows cipher key x.1.db x.1.path_index (load_record cipher host.db))
        same shows

  Run-Shows :
      {host : Host} {view : View}
      → Run cipher key host view
      → Shows cipher key host.db host.path_index view
  Run-Shows (starts host e u p) =
      let (safe, loads) = empty-IsSafe cipher host.db e in
      ([], record { safe = safe; under = u; checkpoint = inl (no_file host.path_index p) }, loads)
  Run-Shows (writes {host} {view} run nonce rec w status db e) =
      let (fs, going, loads) = Run-Shows run in
      onto db host.path_index
        (λ id. answered-same status rec (load_record cipher host.db) view id (loads id))
        (answered-Shows cipher law key host.db host.path_index fs going nonce rec w status db e)
  Run-Shows (breaks {host} {view} run nonce rec w n short db e s keyed r back) =
      let (fs, going, loads) = Run-Shows run in
      onto (recovered db r) host.path_index loads (
        broken-Shows cipher law key host.db host.path_index fs going nonce rec w n short db e s
          keyed r back)
  Run-Shows (restarts {host} {view} run s keyed r e) =
      let (fs, going, loads) = Run-Shows run in
      onto (recovered host.db r) host.path_index loads
        (restarted-Shows cipher law key host.db host.path_index fs going s keyed r e)
  Run-Shows (checkpoints {host} {view} run nonce next_id w file e) =
      let (fs, going, loads) = Run-Shows run in
      onto host.db (some file) loads
        (checkpointed-Shows cipher law key host.db host.path_index fs going nonce next_id w file e)
  Run-Shows (compacts {host} {view} run s w keyed nonces wide answer after e) =
      let (fs, going, loads) = Run-Shows run in
      let (after', p, shows) = compacted-Shows host fs going.safe s w keyed nonces wide in
      let same = some-inj (sym p ∙ e) in
      onto after.db after.path_index loads (shown host same shows)
  Run-Shows (stops {host} {view} run s u nonces wide answer after e) =
      let (fs, going, loads) = Run-Shows run in
      let same = some-inj (sym (stopped host fs going.safe s u nonces wide) ∙ e) in
      onto after.db after.path_index loads (shown host same (fs, going, λ id. refl))

  -- Under one key of the configuration, or none, from an empty database on, and in whatever order:
  -- valid records are written, answered by success or refused; writes break off and the server comes
  -- back; it restarts; checkpoints of the index are written, whose numbers fit their fields; and
  -- compactions run without a failure or stop at their path or their fsync. The server comes back
  -- and restarts by a db_open that succeeds, with the last checkpoint unless a compaction has
  -- dropped it. Then load_record answers for each id the record that was last written under it and
  -- acknowledged, and that it is missing if there is none or it is a tombstone.
  pub Run-load_record :
      (host : Host) (view : View)
      → Run cipher key host view
      → (id : ℕ) → load_record cipher host.db id ≡ view id
  Run-load_record host view run = (Run-Shows run).2

  -- In each database that such a run reaches: a valid record within the quota of its namespace is
  -- acknowledged and is what load_record answers next, or that it is missing if it is a tombstone;
  -- a restart with the run's key ends and succeeds, with the last checkpoint unless a compaction has
  -- dropped it; and a compaction without a failure ends and answers that it compacted.
  pub Run-progress :
      (host : Host) (view : View)
      → Run cipher key host view
      → (nonce : List ℕ) (rec : MemoryRecord) (w : IsWritable nonce rec)
      → is_over_quota host.db rec (length w.buf) (namespace host.db rec) ≡ false
      → (st : Startup) → st.key ≡ key
      → (s : Setting) → IsWilling s
      → s.key ≡ key
      → (nonces : ℕ → List ℕ) → ((n : ℕ) → length (nonces n) ≡ 24)
      → (db : Db) × (r : Recovered) × (after : Host) × (append_and_hash cipher
            (some nonce)
            host.db
            rec
          ≡ some (aegis_ok, db))
        × (load_record cipher db rec.id ≡ visible (some rec))
        × (db_open cipher st host.db.log.bytes host.path_index ≡ some (some r))
        × (compaction_run_once cipher (λ n. some (nonces n)) s false host.db host
            ≡ some (true, after))
  Run-progress host view run nonce rec w within st keyed s willing keyed_too nonces wide =
      let (fs, going, _) = Run-Shows run in
      let path = host.path_index in
      let (db, p, shows) =
        acknowledged-Shows cipher law key host.db path fs going nonce rec w within in
      let (r, q, _) = restart-Shows cipher law key host.db path fs going st keyed in
      let (after, c, _) = compacted-Shows host fs going.safe s willing keyed_too nonces wide in
      let own : load_record cipher db rec.id ≡ visible (some rec) =
        shows.2 rec.id
        ∙ ap (λ b. if b then visible (some rec) else load_record cipher host.db rec.id)
            (==_refl rec.id) in
      (db, r, after, p, own, q, c)
