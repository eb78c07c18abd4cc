-- ===== src/Compaction/Abort.antt =====
-- compaction_run_once of src/storage/compaction.c on a live record that cannot be read.
use aegisdb.Prelude.{
  ℕ, ◌≡◌, refl, ap, ◌∙◌, Bool, true, false, Option, Option-cases, none, some, inl, inr, List, [],
  ◌∷◌, ◌++◌, ◌>>=◌, if◌then◌else◌, not, length,
}
use aegisdb.Aead.{Aead}
use aegisdb.Log.{LogFile}
use aegisdb.Log.Append.{log_append}
use aegisdb.Log.Read.{log_read}
use aegisdb.HashIndex.{Location}
use aegisdb.Store.{Db}
use aegisdb.Compaction.{
  NewLoc, Setting, Host, copied_to, open_again, compaction_snapshot, compaction_copy_live,
  after_copy, after_open, compaction_run_once, compaction_run_once_locked,
}

module _ (cipher : Aead) (random : ℕ → Option (List ℕ)) (src : LogFile) (id : ℕ) (at : Location)
    (post : List NewLoc) (unread : log_read cipher src at.offset ≡ none) where
  -- A frame before it is copied, or ends the loop.
  copied-aborts :
      (pre : List NewLoc) (next : ℕ → NewLoc) (locs : List NewLoc)
      → ((newlog : LogFile) (locs : List NewLoc)
          → compaction_copy_live cipher random src newlog locs (pre ++ ((id, at) ∷ post)) ≡ none)
      → (answer : LogFile × Option ℕ)
      → (answer.1 >>= λ off.
          compaction_copy_live cipher random src answer.0
            (locs ++ (next off ∷ []))
            (pre ++ ((id, at) ∷ post)))
        ≡ none
  copied-aborts pre next locs h (newlog, none) = refl
  copied-aborts pre next locs h (newlog, some off) = h newlog (locs ++ (next off ∷ []))

  copy-aborts :
      (pre : List NewLoc) (newlog : LogFile) (locs : List NewLoc)
      → compaction_copy_live cipher random src newlog locs (pre ++ ((id, at) ∷ post)) ≡ none
  unfolding compaction_copy_live
  copy-aborts [] newlog locs = rw unread
  copy-aborts ((id', at') ∷ pre) newlog locs =
      elim (Option-cases (log_read cipher src at'.offset)) [
        | inl n ↦ rw n
        | inr (buf, p) ↦ rw p (
            copied-aborts pre (λ off. (id', copied_to at' off (length buf))) locs (copy-aborts pre)
              (log_append cipher (random (length locs)) buf newlog))
      ]

opened_or_not :
    (cipher : Aead) (random : ℕ → Option (List ℕ)) (s : Setting) (start : Db) (now : Host)
    → ((newlog : LogFile)
        → compaction_copy_live cipher random start.log newlog []
            (compaction_snapshot start.hash.buckets)
          ≡ none)
    → (o : Option LogFile) → after_open cipher random s start now o ≡ some (false, now)
opened_or_not cipher random s start now h none = refl
opened_or_not cipher random s start now h (some newlog) =
    ap (after_copy cipher random s start.log.size now) (h newlog)

-- Where a live entry of the snapshot has a frame that cannot be read, a compaction ends, answers that
-- it did not compact, and leaves the database, the generation of the log and the checkpoints as the
-- write lock finds them, however the system answers.
pub compaction_run_once-kept :
    (cipher : Aead) (random : ℕ → Option (List ℕ)) (s : Setting) (busy : Bool) (start : Db)
    (now : Host) (pre post : List NewLoc) (id : ℕ) (at : Location)
    → compaction_snapshot start.hash.buckets ≡ pre ++ ((id, at) ∷ post)
    → log_read cipher start.log at.offset ≡ none
    → compaction_run_once cipher random s busy start now ≡ some (false, now)
unfolding compaction_run_once compaction_run_once_locked
compaction_run_once-kept cipher random s true start now pre post id at e unread = refl
compaction_run_once-kept cipher random s false start now pre post id at e unread = fits s.path_fits
  where
    fits :
        (b : Bool)
        → (if not b
            then some (false, now)
            else after_open cipher random s start now (open_again cipher s s.accepts []))
          ≡ some (false, now)
    fits false = refl
    fits true =
        opened_or_not cipher random s start now
          (λ newlog.
            ap (compaction_copy_live cipher random start.log newlog []) e
            ∙ copy-aborts cipher random start.log id at post unread pre newlog [])
          (open_again cipher s s.accepts [])
