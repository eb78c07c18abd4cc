-- ===== src/Compaction/Run.antt =====
-- compaction_run_once of src/storage/compaction.c, with the writes that race it.
use aegisdb.Prelude.{
  ℕ, suc, ◌+◌, ◌%◌, ◌^◌, ◌<◌, ◌≡◌, refl, sym, ap, ◌∙◌, true, false, Option, none, some, List, [],
  ◌++◌, append-nil, if◌then◌else◌, not, ◌>>=◌, All, length, length-append, map, arith,
}
use aegisdb.Aead.{Aead, IsAead}
use aegisdb.Log.{LogFile}
use aegisdb.Log.Frames.{Frame}
use aegisdb.Log.Open.{log_open}
use aegisdb.Log.Recovery.{all_bytes}
use aegisdb.Log.Durable.{all_bytes-append}
use aegisdb.HashIndex.{create}
use aegisdb.HashIndex.Map.{puts}
use aegisdb.Recovery.Scan.{locations}
use aegisdb.Store.{Db, load_record}
use aegisdb.Store.Loads.{IsStored, remembered, visible, load_record-visible}
use aegisdb.Log.Open.{is_keyed, key_bytes}
use aegisdb.Compaction.{
  NewLoc, Setting, Host, compaction_snapshot, compaction_copy_live, drain_tail, open_again,
  after_drain, after_copy, after_open, compaction_run_once_locked, compaction_run_once,
}
use aegisdb.Compaction.Copy.{payloads, IsCopied, buf_at, Copies, copy_live-Copies}
use aegisdb.Compaction.Held.{held-mode, IsHeld}
use aegisdb.Compaction.Drain.{buf_of, drain_tail-Drained}
use aegisdb.Compaction.Snapshot.{IsSound, buckets-IsThere, snapshot-Holds}
use aegisdb.Compaction.Live.{replayed, remembered-replayed}
use aegisdb.Compaction.Reopen.{swapped, swap_in-IsStored}
use aegisdb.Compaction.Later.{IsLater, later-visible}

-- A system in which nothing fails during the compaction.
pub record IsWilling (s : Setting) : Type 0 where
  pub fits : s.path_fits ≡ true
  pub takes : s.accepts ≡ none
  pub syncs : s.synced ≡ true
  pub renames : s.renamed ≡ true

-- The new file, as log_open gives it.
abbrev pub fresh : Setting → LogFile
fresh s = record {
  fd = true;
  bytes = [];
  accepts = s.accepts;
  size = 0;
  since_fsync = 0;
  fsync_batch = s.fsync_batch;
  encrypted = is_keyed s.key;
  key = key_bytes s.key;
}

pub open_again-fresh :
    (cipher : Aead) (s : Setting) → open_again cipher s s.accepts [] ≡ some (fresh s)
unfolding log_open
open_again-fresh cipher s = refl

pub fresh-IsCopied :
    (cipher : Aead) (s : Setting) → s.accepts ≡ none → IsCopied cipher s.key (fresh s) [] [] []
fresh-IsCopied cipher s takes = record {
  in_log = record { frames = tt; junk = []; stored = refl; sized = refl };
  whole = refl;
  ready = takes;
  is_open = refl;
  mode = refl;
  same_key = refl;
  told = refl;
  held = tt;
  at = refl;
}

module _ (cipher : Aead) (law : IsAead cipher) (s : Setting) (w : IsWilling s) (nonces : ℕ → List ℕ)
    (wide : (n : ℕ) → length (nonces n) ≡ 24) (start : Db) (now : Host) (fs gs : List Frame)
    (l : IsLater cipher start now.db fs gs) (sound : All (IsSound cipher start.log) fs)
    (held : All (IsHeld cipher now.db.log) gs) where
  abbrev random : ℕ → Option (List ℕ)
  random n = some (nonces n)

  -- What a run leaves when it compacts the log; its index is rebuilt from the locations, which are
  -- those of the copies and the tail.
  pub record IsCompacted (after : Host) (hs : List Frame) : Type 0 where
    pub done : compaction_run_once cipher random s false start now ≡ some (true, after)
    pub stored : IsStored cipher after.db hs
    pub loads : (id : ℕ) → load_record cipher after.db id ≡ load_record cipher now.db id
    pub generation : after.log_generation ≡ (now.log_generation + 1) % 2 ^ 64
    pub unlinked : (after.path_index ≡ none) × (after.path_sem ≡ none)
    pub entries : List (ℕ × List ℕ)
    pub put_again : puts create (locations entries) ≡ some after.db.hash
    pub same :
        payloads entries
        ≡ map (buf_at cipher start.log) (compaction_snapshot start.hash.buckets)
          ++ map (buf_of cipher now.db.log) gs
    pub takes : after.db.log.accepts ≡ none
    pub exact : after.db.log.bytes ≡ all_bytes hs
    pub all_held : All (IsHeld cipher after.db.log) hs
    pub mode : after.db.log.encrypted ≡ is_keyed s.key
    pub same_key : after.db.log.key ≡ key_bytes s.key

  pub more_rounds : length (all_bytes gs) < suc now.db.log.size
  more_rounds = omega (
    arith,
    l.at_lock.in_log.sized,
    ap length (all_bytes-append fs gs),
    length-append (all_bytes fs) (all_bytes gs),
  )

  -- Phase 2, and the tail behind it.
  abbrev pub phase2 :
      Copies cipher law s.key nonces wide start.log
        (compaction_copy_live cipher random start.log
          (fresh s)
          []
          (compaction_snapshot start.hash.buckets))
        (map (buf_at cipher start.log) (compaction_snapshot start.hash.buckets))
  phase2 =
      copy_live-Copies cipher law s.key nonces wide start.log
        (compaction_snapshot start.hash.buckets) (fresh s) [] [] []
        (snapshot-Holds cipher start fs l.at_snapshot sound start.hash.buckets
          (buckets-IsThere cipher start fs l.at_snapshot sound))
        (fresh-IsCopied cipher s w.takes)

  pub phase3 :
      (answer : Option (LogFile × List NewLoc)) × (drain_tail cipher random
          (suc now.db.log.size)
          start.log.size
          now.db.log
          phase2.newlog
          phase2.locs
        ≡ some answer)
      × Copies cipher law s.key nonces wide now.db.log answer
          (payloads phase2.entries ++ map (buf_of cipher now.db.log) gs)
  phase3 =
      drain_tail-Drained cipher law s.key nonces wide now.db.log (fs ++ gs) l.at_lock.in_log gs fs
        (suc now.db.log.size) start.log.size phase2.newlog phase2.locs phase2.frames phase2.entries
        refl held l.at_snapshot.in_log.sized more_rounds phase2.copied

  pub run-IsCompacted : (after : Host) × (hs : List Frame) × IsCompacted after hs
  unfolding compaction_run_once compaction_run_once_locked
  run-IsCompacted =
      let (answer, drained, c) = phase3 in
      let (h, swap, put, stored, told) =
        swap_in-IsStored cipher s c.newlog c.locs c.entries random now c.frames w.syncs w.renames
          c.copied in
      let log' = swapped cipher s c.newlog c.locs c.entries in
      let db' : Db = record now.db { hash = h; log = log' } in
      let same = c.same ∙ ap (λ x. x ++ map (buf_of cipher now.db.log) gs) phase2.same in
      (
        record {
          db = db';
          log_generation = (now.log_generation + 1) % 2 ^ 64;
          path_index = none;
          path_sem = none;
        },
        c.frames,
        record {
          done =
              ap
                (λ b.
                  if not b
                  then some (false, now)
                  else after_open cipher random s start now (open_again cipher s s.accepts []))
                w.fits
              ∙ ap (after_open cipher random s start now) (open_again-fresh cipher s)
              ∙ ap (after_copy cipher random s start.log.size now) phase2.done
              ∙ ap (λ o. o >>= after_drain cipher random s now) (drained ∙ ap some c.done)
              ∙ swap;
          stored = stored;
          loads = λ id.
              load_record-visible cipher db' c.frames id stored
              ∙ ap (λ x. visible (remembered (λ id. none) x id)) told
              ∙ ap (λ m. visible (m id)) (remembered-replayed (λ id. none) c.entries)
              ∙ ap (λ x. visible (replayed (λ id. none) x id)) same
              ∙ later-visible cipher start now.db fs gs l sound held id
              ∙ sym (load_record-visible cipher now.db (fs ++ gs) id l.at_lock);
          generation = refl;
          unlinked = (refl, refl);
          entries = c.entries;
          put_again = ap (puts create) (sym c.copied.at) ∙ put;
          same = same;
          takes = c.copied.ready;
          exact =
              c.copied.in_log.stored
              ∙ ap (λ x. all_bytes c.frames ++ x) c.copied.whole
              ∙ append-nil (all_bytes c.frames);
          all_held = held-mode cipher c.newlog log' refl refl c.frames c.copied.held;
          mode = c.copied.mode;
          same_key = c.copied.same_key;
        },
      )

  -- A compaction in which nothing fails, with a cipher as the log asks for and nonces of 24 bytes, of
  -- a database that holds what its log tells and whose readable frames are of bytes and shorter than
  -- 2^32. Between its snapshot and the write lock the log may have got more frames, each of which
  -- holds a record. It ends and answers that it compacted. The index is then what the new log tells;
  -- each id loads as the write lock found it, the frames that got in between included; the generation
  -- of the log has moved on, and neither checkpoint is left.
  pub compaction_run_once-load_record :
      (after : Host) × (hs : List Frame) × (compaction_run_once cipher random s false start now
        ≡ some (true, after))
      × IsStored cipher after.db hs
      × ((id : ℕ) → load_record cipher after.db id ≡ load_record cipher now.db id)
      × (after.log_generation ≡ (now.log_generation + 1) % 2 ^ 64)
      × (after.path_index ≡ none)
      × (after.path_sem ≡ none)
  compaction_run_once-load_record =
      let (after, hs, c) = run-IsCompacted in
      (after, hs, c.done, c.stored, c.loads, c.generation, c.unlinked.0, c.unlinked.1)
