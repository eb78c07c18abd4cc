-- ===== src/Compaction/Reopen.antt =====
-- The new log of compaction_run_once in src/storage/compaction.c, opened again in the place of the old.
use aegisdb.Prelude.{
  ℕ, ◌+◌, ◌%◌, ◌^◌, ◌≡◌, refl, sym, ap, ◌∙◌, Bool, true, Option, none, some, List, [], ◌∷◌, ◌++◌,
  append_assoc, append-nil, if◌then◌else◌, ◌>>=◌, length,
}
use aegisdb.Aead.{Aead}
use aegisdb.Log.{LogFile}
use aegisdb.Log.Append.{log_fsync}
use aegisdb.Log.Frames.{Frame, frame_bytes}
use aegisdb.Log.Recovery.{all_bytes, entries}
use aegisdb.Log.Open.{Opened, log_open}
use aegisdb.Log.Open.Mode.{log_open-mode_table}
use aegisdb.HashIndex.{HashIndex, create}
use aegisdb.HashIndex.Map.{updates, puts, puts-IsPutAll, create-IsHashed}
use aegisdb.Recovery.Scan.{locations}
use aegisdb.Recovery.Result.{readable_from}
use aegisdb.Store.Opening.{mode_table-opened}
use aegisdb.Store.Loads.{IsStored}
use aegisdb.Log.Open.{is_keyed, key_bytes}
use aegisdb.Compaction.{NewLoc, Setting, Host, open_again, rebuilt, reverted, after_fsync, swap_in}
use aegisdb.Compaction.Copy.{IsCopied}
use aegisdb.Compaction.Held.{entries-mode}

module _ (cipher : Aead) (s : Setting) where
  -- The log that log_open gives for the bytes.
  abbrev log_of : Option ℕ → List ℕ → LogFile
  log_of accepts bytes = record {
    fd = true;
    bytes = bytes;
    accepts = accepts;
    size = length bytes;
    since_fsync = 0;
    fsync_batch = s.fsync_batch;
    encrypted = is_keyed s.key;
    key = key_bytes s.key;
  }

  abbrev third : Opened → Option LogFile
  third (status, file, o) = o

  module _ (newlog : LogFile) (locs : List NewLoc) (ps : List (ℕ × List ℕ)) where
    log_open-IsCopied :
        (hs : List Frame)
        → IsCopied cipher s.key newlog locs hs ps
        → open_again cipher s newlog.accepts newlog.bytes
          ≡ some (log_of newlog.accepts newlog.bytes)
    unfolding log_open
    log_open-IsCopied [] c = let e : newlog.bytes ≡ [] = c.in_log.stored ∙ c.whole in rw e refl
    log_open-IsCopied (f ∷ hs) c =
        let rest = all_bytes hs ++ c.in_log.junk in
        let e : newlog.bytes ≡ frame_bytes f ++ rest =
          c.in_log.stored ∙ append_assoc (frame_bytes f) (all_bytes hs) c.in_log.junk in
        let (payload, r, a, _, _, _) = c.held.0 in
        let h = c.in_log.frames.0 in
        rw e (
          ap third (
            log_open-mode_table cipher newlog.accepts s.fsync_batch f rest (is_keyed s.key) s.key
              (rw c.mode at h)
            ∙ mode_table-opened cipher newlog.accepts s.fsync_batch s.key f (frame_bytes f ++ rest)
                payload s.key newlog c.mode c.same_key a))

    -- The log as the database gets it.
    abbrev pub swapped : LogFile
    swapped = record newlog {
      size = length newlog.bytes;
      since_fsync = 0;
      fsync_batch = s.fsync_batch;
    }

    abbrev log_with : Bool → Bool → List ℕ → LogFile
    log_with fd encrypted key = record swapped { fd = fd; encrypted = encrypted; key = key }

    log_of-swapped :
        (hs : List Frame)
        → IsCopied cipher s.key newlog locs hs ps
        → log_of newlog.accepts newlog.bytes ≡ swapped
    log_of-swapped hs c =
        ap (λ fd. log_with fd (is_keyed s.key) (key_bytes s.key)) (sym c.is_open)
        ∙ ap (λ e. log_with newlog.fd e (key_bytes s.key)) (sym c.mode)
        ∙ ap (log_with newlog.fd newlog.encrypted) (sym c.same_key)

    log_fsync-done :
        (hs : List Frame)
        → s.synced ≡ true
        → IsCopied cipher s.key newlog locs hs ps
        → log_fsync s.synced newlog ≡ (record newlog { since_fsync = 0 }, true)
    unfolding log_fsync
    log_fsync-done hs flushed c = ap (λ b. log_fsync b newlog) flushed ∙ rw c.is_open refl

    abbrev pub rebuilt_with : Host → HashIndex → Option (Bool × Host)
    rebuilt_with now h = some (
      true,
      record {
        db = record now.db { hash = h; log = swapped };
        log_generation = (now.log_generation + 1) % 2 ^ 64;
        path_index = none;
        path_sem = none;
      },
    )

    -- The index that is rebuilt from the locations is what the new log tells.
    pub swap_in-IsStored :
        (random : ℕ → Option (List ℕ)) (now : Host) (hs : List Frame)
        → s.synced ≡ true
        → s.renamed ≡ true
        → IsCopied cipher s.key newlog locs hs ps
        → (h : HashIndex) × (swap_in cipher random s now newlog locs ≡ rebuilt_with now h)
          × (puts create locs ≡ some h)
          × IsStored cipher (record now.db { hash = h; log = swapped }) hs
          × (readable_from cipher swapped 0 (entries cipher swapped hs) ≡ ps)
    unfolding swap_in
    swap_in-IsStored random now hs flushed copied_to c =
        let (v, e) = create-IsHashed in
        let (h, p, q) = puts-IsPutAll create locs v in
        let at_end : newlog.bytes ≡ all_bytes hs =
          c.in_log.stored ∙ ap (λ x. all_bytes hs ++ x) c.whole ∙ append-nil (all_bytes hs) in
        let told : readable_from cipher swapped 0 (entries cipher swapped hs) ≡ ps =
          ap (readable_from cipher newlog 0) (entries-mode cipher newlog swapped refl refl hs)
          ∙ c.told in
        (
          h,
          ap (after_fsync cipher random s now locs) (log_fsync-done hs flushed c)
              ∙ ap
                  (λ b.
                    if b
                    then rebuilt cipher random s now locs
                        (open_again cipher s newlog.accepts newlog.bytes)
                    else reverted cipher random s now
                        (open_again cipher s now.db.log.accepts now.db.log.bytes))
                  copied_to
              ∙ ap (rebuilt cipher random s now locs)
                  (log_open-IsCopied hs c ∙ ap some (log_of-swapped hs c))
              ∙ ap (λ o. o >>= rebuilt_with now) p,
          p,
          record {
            in_log = record {
              frames = c.in_log.frames;
              junk = [];
              stored = at_end ∙ sym (append-nil (all_bytes hs));
              sized = ap length at_end;
            };
            hashed = q.hashed_after;
            mapped =
                q.lookup_after
                ∙ ap (λ m. updates m locs) e
                ∙ ap (updates (λ id. none)) (c.at ∙ ap locations (sym told));
          },
          told,
        )
