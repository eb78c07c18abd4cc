-- ===== src/Compaction/Unsynced.antt =====
-- compaction_run_once of src/storage/compaction.c where its path is too long or its fsync fails.
use aegisdb.Prelude.{
  ℕ, ◌≡◌, refl, sym, ap, ◌∙◌, Bool, true, false, Option, none, some, List, [], if◌then◌else◌, not,
  ◌&&◌, ◌>>=◌, All, length,
}
use aegisdb.Aead.{Aead, IsAead}
use aegisdb.Log.{LogFile}
use aegisdb.Log.Append.{log_fsync}
use aegisdb.Log.Frames.{Frame}
use aegisdb.Store.{Db}
use aegisdb.Compaction.{
  Setting, Host, open_again, after_fsync, swap_in, after_drain, after_copy, after_open,
  compaction_run_once_locked, compaction_run_once,
}
use aegisdb.Compaction.Held.{IsHeld}
use aegisdb.Compaction.Snapshot.{IsSound}
use aegisdb.Compaction.Later.{IsLater}
use aegisdb.Compaction.Run.{IsWilling, open_again-fresh, phase2, phase3}

-- The new file takes all that is written, but the path is too long or the fsync fails.
pub record IsUnsynced (s : Setting) : Type 0 where
  pub takes : s.accepts ≡ none
  pub refuses : (s.path_fits && s.synced) ≡ false

log_fsync-unsynced :
    (newlog : LogFile) → newlog.fd ≡ true → log_fsync false newlog ≡ (newlog, false)
unfolding log_fsync
log_fsync-unsynced newlog p = rw p refl

module _ (cipher : Aead) (law : IsAead cipher) (s : Setting) (u : IsUnsynced s)
    (nonces : ℕ → List ℕ) (wide : (n : ℕ) → length (nonces n) ≡ 24) (start : Db) (now : Host)
    (fs gs : List Frame) (l : IsLater cipher start now.db fs gs)
    (sound : All (IsSound cipher start.log) fs) (held : All (IsHeld cipher now.db.log) gs) where
  -- The same setting, but that nothing fails.
  abbrev better : Setting
  better = record s { path_fits = true; synced = true; renamed = true }

  better-IsWilling : IsWilling better
  better-IsWilling = record { fits = refl; takes = u.takes; syncs = refl; renames = refl }

  abbrev random : ℕ → Option (List ℕ)
  random n = some (nonces n)

  at_fsync :
      (b : Bool)
      → s.path_fits ≡ b
      → compaction_run_once cipher random s false start now ≡ some (false, now)
  unfolding compaction_run_once compaction_run_once_locked swap_in
  at_fsync false fits =
      ap
        (λ b.
          if not b
          then some (false, now)
          else after_open cipher random s start now (open_again cipher s s.accepts []))
        fits
  at_fsync true fits =
      let two =
        phase2 cipher law better better-IsWilling nonces wide start now fs gs l sound held in
      let (answer, drained, c) =
        phase3 cipher law better better-IsWilling nonces wide start now fs gs l sound held in
      let failed : s.synced ≡ false = ap (λ b. b && s.synced) (sym fits) ∙ u.refuses in
      ap
        (λ b.
          if not b
          then some (false, now)
          else after_open cipher random s start now (open_again cipher s s.accepts []))
        fits
      ∙ ap (after_open cipher random s start now) (open_again-fresh cipher s)
      ∙ ap (after_copy cipher random s start.log.size now) two.done
      ∙ ap (λ o. o >>= after_drain cipher random s now) (drained ∙ ap some c.done)
      ∙ ap (after_fsync cipher random s now c.locs)
          (ap (λ b. log_fsync b c.newlog) failed ∙ log_fsync-unsynced c.newlog c.copied.is_open)

  -- It ends, answers that it did not compact, and leaves everything as the write lock finds it.
  pub compaction_run_once-unsynced :
      compaction_run_once cipher random s false start now ≡ some (false, now)
  compaction_run_once-unsynced = at_fsync s.path_fits refl
