-- ===== src/Compaction/Later.antt =====
-- The database that the write lock of src/storage/compaction.c finds, against its snapshot.
use aegisdb.Prelude.{ℕ, ◌+◌, ◌≡◌, sym, ap, ◌∙◌, none, List, ◌++◌, All, length, map}
use aegisdb.Aead.{Aead}
use aegisdb.Log.Frames.{Frame}
use aegisdb.Log.Recovery.{all_bytes, entries}
use aegisdb.Recovery.Result.{readable_from, readable-append}
use aegisdb.Store.{Db}
use aegisdb.Store.Loads.{IsStored, latest_record, remembered, visible}
use aegisdb.Compaction.{compaction_snapshot}
use aegisdb.Compaction.Copy.{payloads, map-append, buf_at}
use aegisdb.Compaction.Held.{readable-mode, IsHeld}
use aegisdb.Compaction.Drain.{buf_of, payloads-readable}
use aegisdb.Compaction.Snapshot.{IsSound}
use aegisdb.Compaction.Live.{
  replayed, remembered-replayed, replayed-append, replayed-visible, copies-visible,
}

-- The database that the write lock finds is the one of the snapshot with the frames `gs` more.
pub record IsLater (cipher : Aead) (start now : Db) (fs gs : List Frame) : Type 0 where
  pub at_snapshot : IsStored cipher start fs
  pub at_lock : IsStored cipher now (fs ++ gs)
  pub same_mode : now.log.encrypted ≡ start.log.encrypted
  pub same_key : now.log.key ≡ start.log.key

module _ (cipher : Aead) (start now : Db) (fs gs : List Frame) (l : IsLater cipher start now fs gs)
    (sound : All (IsSound cipher start.log) fs) (held : All (IsHeld cipher now.log) gs) where
  abbrev copies : List (List ℕ)
  copies = map (buf_at cipher start.log) (compaction_snapshot start.hash.buckets)

  readable-later :
      readable_from cipher now.log 0 (entries cipher now.log fs)
      ≡ readable_from cipher start.log 0 (entries cipher start.log fs)
  readable-later = readable-mode cipher start.log now.log l.same_mode l.same_key fs

  -- The copies with the tail behind them show what the log shows.
  pub later-visible :
      (id : ℕ)
      → visible (replayed (λ id. none) (copies ++ map (buf_of cipher now.log) gs) id)
        ≡ visible (latest_record cipher now.log (fs ++ gs) id)
  later-visible id =
      let tail = map (buf_of cipher now.log) gs in
      let ps = readable_from cipher now.log 0 (entries cipher now.log fs) in
      let qs =
        readable_from cipher now.log (0 + length (all_bytes fs)) (entries cipher now.log gs) in
      let frames = l.at_snapshot.in_log.frames in
      ap (λ m. visible (m id)) (replayed-append (λ id. none) copies tail)
      ∙ replayed-visible tail (replayed (λ id. none) copies) (latest_record cipher start.log fs) id
          (copies-visible cipher start fs l.at_snapshot sound id)
      ∙ ap (λ x. visible (replayed (remembered (λ id. none) x) tail id)) (sym readable-later)
      ∙ ap (λ x. visible (replayed (remembered (λ id. none) ps) x id))
          (sym (payloads-readable cipher now.log (0 + length (all_bytes fs)) gs held))
      ∙ ap (λ m. visible (replayed m (payloads qs) id)) (remembered-replayed (λ id. none) ps)
      ∙ ap (λ m. visible (m id)) (sym (replayed-append (λ id. none) (payloads ps) (payloads qs)))
      ∙ ap (λ x. visible (replayed (λ id. none) x id)) (sym (map-append (λ p. p.1) ps qs))
      ∙ ap (λ m. visible (m id)) (sym (remembered-replayed (λ id. none) (ps ++ qs)))
      ∙ ap (λ x. visible (remembered (λ id. none) x id))
          (sym (readable-append cipher now.log 0 fs gs (rw (← l.same_mode) at frames)))
