-- ===== src/Store/Reread.antt =====
-- db_open of src/storage/db.c on the log that a database left: log_open, recovery_run, the next id.
use aegisdb.Prelude.{
  ℕ, ◌≡◌, refl, sym, ap, ◌∙◌, inl, inr, Bool, true, false, Option, none, some, List, ltb,
  if◌then◌else◌, ◌>>=◌, length,
}
use aegisdb.Aead.{Aead}
use aegisdb.Log.{LogFile}
use aegisdb.Log.Frames.{Frame}
use aegisdb.Log.Torn.{IsTorn}
use aegisdb.Log.Open.{is_keyed, key_bytes, log_open_ok, opened, log_open}
use aegisdb.HashIndex.Map.{updates}
use aegisdb.Recovery.{Recovered}
use aegisdb.Recovery.Scan.{locations}
use aegisdb.Recovery.Rescan.{IsCheckpoint, IsRestarted, recovery_run-IsRestarted}
use aegisdb.Store.{Db}
use aegisdb.Store.Loads.{IsStored}
use aegisdb.Store.Startup.{Startup, floored, start_on, db_open}
use aegisdb.Compaction.Held.{readable-mode}
use aegisdb.Store.Opening.{Passes, log_open-Passes}

-- The database behind a restart.
abbrev pub restarted : Db → Recovered → Db
restarted db r = record db { hash = r.hash; log = r.log }

-- The log as log_open gives it back, in the mode and with the key that it had.
abbrev pub reread : Startup → LogFile → LogFile
reread s lf = record lf {
  fd = true;
  accepts = s.accepts;
  size = length lf.bytes;
  since_fsync = 0;
  fsync_batch = s.fsync_batch;
}

pub restarted-floored :
    (db : Db) (n : ℕ) (r : Recovered) → restarted db (floored n r) ≡ restarted db r
restarted-floored db n r = either (ltb r.next_id n)
  where
    either : (b : Bool) → restarted db (if b then record r { next_id = n } else r) ≡ restarted db r
    either true = refl
    either false = refl

module _ (cipher : Aead) (st : Startup) (db : Db) (fs : List Frame) (s : IsStored cipher db fs)
    (t : IsTorn db.log s.in_log.junk) (mode : db.log.encrypted ≡ is_keyed st.key)
    (same : db.log.key ≡ key_bytes st.key) (pass : Passes cipher db.log fs s.in_log.junk)
    (path : Option (List ℕ)) (ckpt : IsCheckpoint cipher st.key db.log fs path) where
  abbrev lf : LogFile
  lf = reread st db.log

  abbrev junk : List ℕ
  junk = s.in_log.junk

  log_open-reread :
      log_open cipher st.accepts st.fsync_batch st.key db.log.bytes
      ≡ (log_open_ok, db.log.bytes, some lf)
  log_open-reread =
      let whole =
        log_open-Passes cipher st.accepts st.fsync_batch st.key db.log mode same junk t fs
          s.in_log.frames pass in
      ap (log_open cipher st.accepts st.fsync_batch st.key) s.in_log.stored
      ∙ whole
      ∙ ap (opened cipher st.accepts st.fsync_batch st.key) (sym s.in_log.stored)
      ∙ rw (mode, same) refl

  abbrev covering : IsCheckpoint cipher st.key lf fs path
  covering = elim ckpt [
    | inl e ↦ inl e
    | inr c ↦ inr (record {
      early = c.early;
      later = c.later;
      both = c.both;
      index = c.index;
      next_id = c.next_id;
      loads = c.loads;
      hashed = c.hashed;
      mapped =
          c.mapped
          ∙ ap (λ ps. updates (λ id. none) (locations ps))
              (sym (readable-mode cipher db.log lf refl refl c.early));
    })
  ]

  -- The start ends with what recovery_run leaves.
  pub db_open-IsRestarted :
      (r : Recovered) × (db_open cipher st db.log.bytes path ≡ some (some (floored st.meta_next r)))
      × IsRestarted cipher lf fs r
  unfolding db_open
  db_open-IsRestarted =
      let torn : IsTorn lf junk = record {
        frame = t.frame;
        frame-IsFrame = t.frame-IsFrame;
        kept = t.kept;
        partial = t.partial;
        same = t.same;
      } in
      let (r, p, x) =
        recovery_run-IsRestarted cipher st.key lf fs junk s.in_log.frames torn s.in_log.stored refl
          path covering in
      (
        r,
        ap (start_on cipher st path) log_open-reread
            ∙ ap (λ o. o >>= λ r. some (some (floored st.meta_next r))) p,
        x,
      )
