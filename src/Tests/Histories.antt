-- ===== src/Tests/Histories.antt =====
-- A run that saves a checkpoint, restarts from it and writes one record; a compaction that finds a frame missing.
use aegisdb.Prelude.{ℕ, ◌≡◌, refl, false, true, inl, none, some, [], ◌∷◌, ◌++◌, List, arith}
use aegisdb.Log.{read_full}
use aegisdb.Log.Read.{log_read, log_read_plain}
use aegisdb.HashIndex.{create, entry_at}
use aegisdb.Recovery.{Recovered}
use aegisdb.Store.{Db, aegis_ok, aegis_err_not_found, append_and_hash, load_record}
use aegisdb.Store.Loads.{visible}
use aegisdb.Store.Startup.{db_open, db_checkpoint}
use aegisdb.HashIndex.Map.{create-IsHashed}
use aegisdb.HashIndex.File.{hash_index_load-hash_index_save}
use aegisdb.Recovery.Restart.{create-IsNarrow, create-count}
use aegisdb.Compaction.{Host, compaction_snapshot, compaction_run_once}
use aegisdb.Compaction.Abort.{compaction_run_once-kept}
use aegisdb.History.{
  View, answered, IsWritable, recovered, Run, starts, writes, restarts, checkpoints,
}
use aegisdb.History.View.{Run-load_record, Run-progress}
use aegisdb.Tests.Logs.{clear_text, clear_text-IsAead, nonce}
use aegisdb.Tests.Stores.{
  note, buf, note_encoded, note-IsValid, buf-IsAppendable, empty_db, note_at, startup,
}
use aegisdb.Tests.Compactions.{setting, setting-IsWilling, host}

note-IsWritable : IsWritable nonce note
note-IsWritable = record {
  valid = note-IsValid;
  buf = buf;
  encoded = note_encoded;
  appendable = buf-IsAppendable;
}

abbrev missing : View
missing id = inl aegis_err_not_found

started : Run clear_text none (record (host empty_db) { path_index = none }) missing
started =
    starts (record (host empty_db) { path_index = none }) (refl, refl, refl, refl) (refl, refl) refl

-- A checkpoint of the empty index, which the start behind the write reads.
saved : (file : List ℕ) × (db_checkpoint clear_text none (some nonce) 1 empty_db ≡ some file)
unfolding db_checkpoint
saved =
    let (v, e) = create-IsHashed in
    let (file, h, p, _, _, _) =
      hash_index_load-hash_index_save clear_text clear_text-IsAead none nonce create create 0 1 refl
        v create-IsNarrow (omega (arith, create-count)) v e (omega arith) (omega arith) in
    (file, p)

abbrev saved_host : Db → Host
saved_host db = record (host db) { path_index = some saved.0 }

checkpointed : Run clear_text none (saved_host empty_db) missing
checkpointed =
    checkpoints started nonce 1
      (record {
        wide = refl;
        narrow = create-IsNarrow;
        few = omega (arith, create-count);
        covered_fits = omega arith;
        next_fits = omega arith;
      })
      saved.0 saved.1

Run-progress_example :
    (db : Db) × (r : Recovered) × (after : Host) × (append_and_hash clear_text
        (some nonce)
        empty_db
        note
      ≡ some (aegis_ok, db))
    × (load_record clear_text db 7 ≡ visible (some note))
    × (db_open clear_text startup [] (some saved.0) ≡ some (some r))
    × (compaction_run_once clear_text (λ n. some nonce) setting false empty_db (saved_host empty_db)
        ≡ some (true, after))
Run-progress_example =
    Run-progress clear_text clear_text-IsAead none (saved_host empty_db) missing checkpointed nonce
      note note-IsWritable refl startup refl setting setting-IsWilling refl (λ n. nonce) (λ n. refl)

abbrev came_back : (r : Recovered) × (db_open clear_text startup [] (some saved.0) ≡ some (some r))
came_back =
    let (db, r, after, _, _, q, _) =
      Run-progress clear_text clear_text-IsAead none (saved_host empty_db) missing checkpointed
        nonce note note-IsWritable refl startup refl setting setting-IsWilling refl (λ n. nonce)
        (λ n. refl) in
    (r, q)

abbrev again : Db
again = recovered empty_db came_back.0

one_restart : Run clear_text none (saved_host again) missing
one_restart = restarts checkpointed startup refl came_back.0 came_back.1

abbrev written :
    (db : Db) × (append_and_hash clear_text (some nonce) again note ≡ some (aegis_ok, db))
written =
    let (db, r, after, p, _, _, _) =
      Run-progress clear_text clear_text-IsAead none (saved_host again) missing one_restart nonce
        note note-IsWritable refl startup refl setting setting-IsWilling refl (λ n. nonce)
        (λ n. refl) in
    (db, p)

one_write : Run clear_text none (saved_host written.0) (answered aegis_ok note missing)
one_write = writes one_restart nonce note note-IsWritable aegis_ok written.0 written.1

Run-load_record_example : load_record clear_text written.0 7 ≡ visible (some note)
Run-load_record_example =
    Run-load_record clear_text clear_text-IsAead none (saved_host written.0)
      (answered aegis_ok note missing) one_write 7

-- The index has an entry, and the log is empty.
abbrev lost : Db
lost = record empty_db { hash = record { buckets = entry_at 7 note_at ∷ []; count = 1 } }

lost_snapshot : compaction_snapshot lost.hash.buckets ≡ [] ++ ((7, note_at) ∷ [])
unfolding compaction_snapshot
lost_snapshot = refl

lost_frame : log_read clear_text lost.log note_at.offset ≡ none
unfolding log_read log_read_plain read_full
lost_frame = refl

compaction_run_once-kept_example :
    compaction_run_once clear_text (λ n. some nonce) setting false lost (host lost)
    ≡ some (false, host lost)
compaction_run_once-kept_example =
    compaction_run_once-kept clear_text (λ n. some nonce) setting false lost (host lost) [] [] 7
      note_at lost_snapshot lost_frame
