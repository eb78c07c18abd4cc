-- ===== src/Tests/Compactions.antt =====
-- A compaction of a database with one record, which is written once more while it runs.
use aegisdb.Prelude.{
  ℕ, ◌≡◌, refl, sym, ap, ◌∙◌, true, false, none, some, List, [], ◌∷◌, ◌++◌, append-nil, length,
}
use aegisdb.Log.{build_header}
use aegisdb.Log.Frames.{Frame, frame_bytes}
use aegisdb.Bytes.{put_u32le}
use aegisdb.Log.Recovery.{all_bytes}
use aegisdb.HashIndex.{HashIndex, Location, put, entry_at}
use aegisdb.HashIndex.Map.{create-IsHashed, updates}
use aegisdb.HashIndex.Put.{updated, IsPut, put-IsPut}
use aegisdb.Recovery.{located}
use aegisdb.Recovery.Result.{located_from}
use aegisdb.Store.{Db, load_record}
use aegisdb.Store.Loads.{IsStored}
use aegisdb.Compaction.{Setting, Host, compaction_run_once, compaction_worthwhile}
use aegisdb.Compaction.Held.{IsHeld}
use aegisdb.Compaction.Snapshot.{IsSound}
use aegisdb.Compaction.Run.{IsWilling, compaction_run_once-load_record}
use aegisdb.Compaction.Later.{IsLater}
use aegisdb.Compaction.Quiet.{compaction_run_once-compaction_worthwhile}
use aegisdb.Tests.Logs.{clear_text, clear_text-IsAead, nonce}
use aegisdb.Tests.Stores.{
  note, buf, frame, frame-IsFrame, frame_content, two_content, buf_decoded, buf-IsAppendable,
  first_log, two_notes, first_put, one_note, one_note-IsStored, note_at,
}

abbrev pub setting : Setting
setting = record {
  key = none;
  fsync_batch = 1;
  path_fits = true;
  accepts = none;
  synced = true;
  renamed = true;
}

pub setting-IsWilling : IsWilling setting
setting-IsWilling = record { fits = refl; takes = refl; syncs = refl; renames = refl }

abbrev next_at : Location
next_at = located 80 64 note

abbrev second_put :
    (h : HashIndex) × (put first_put.0 7 next_at ≡ some h) × IsPut first_put.0 7 next_at h
second_put = put-IsPut first_put.0 7 next_at first_put.2.hashed_after

abbrev twice : Db
twice = record one_note { hash = second_put.0; log = two_notes }

located_both :
    located_from clear_text two_notes 0 (frame ∷ frame ∷ []) ≡ (7, note_at) ∷ (7, next_at) ∷ []
located_both = rw (two_content, buf_decoded) refl

both_bytes : frame_bytes frame ++ frame_bytes frame ≡ all_bytes (frame ∷ frame ∷ []) ++ []
both_bytes =
    rw (append-nil (frame_bytes frame), append-nil (frame_bytes frame ++ frame_bytes frame)) refl

both_size : 160 ≡ length (all_bytes (frame ∷ frame ∷ []))
unfolding build_header put_u32le
both_size = refl

twice-IsStored : IsStored clear_text twice (frame ∷ frame ∷ [])
twice-IsStored = record {
  in_log = record {
    frames = (frame-IsFrame, (frame-IsFrame, tt));
    junk = [];
    stored = both_bytes;
    sized = both_size;
  };
  hashed = second_put.2.hashed_after;
  mapped =
      second_put.2.lookup_after
      ∙ ap (λ m. updated m 7 (entry_at 7 next_at)) first_put.2.lookup_after
      ∙ ap (λ m. updated (updated m 7 (entry_at 7 note_at)) 7 (entry_at 7 next_at))
          create-IsHashed.1
      ∙ ap (updates (λ id. none)) (sym located_both);
}

abbrev pub host : Db → Host
host db = record { db = db; log_generation = 3; path_index = some []; path_sem = none }

frame-IsSound : IsSound clear_text first_log frame
frame-IsSound payload p =
    let e : some buf ≡ some payload = sym frame_content ∙ p in
    let c : buf ≡ payload = cc in rw (← c) (buf-IsAppendable.bytes, buf-IsAppendable.small)

frame-IsHeld : IsHeld clear_text two_notes frame
frame-IsHeld =
    (buf, note, two_content, buf_decoded, refl, (buf-IsAppendable.bytes, buf-IsAppendable.small))

one_twice-IsLater : IsLater clear_text one_note twice (frame ∷ []) (frame ∷ [])
one_twice-IsLater = record {
  at_snapshot = one_note-IsStored;
  at_lock = twice-IsStored;
  same_mode = refl;
  same_key = refl;
}

compaction_run_once-load_record_example :
    (after : Host) × (hs : List Frame) × (compaction_run_once clear_text
        (λ n. some nonce)
        setting
        false
        one_note
        (host twice)
      ≡ some (true, after))
    × IsStored clear_text after.db hs
    × ((id : ℕ) → load_record clear_text after.db id ≡ load_record clear_text twice id)
    × (after.log_generation ≡ 4)
    × (after.path_index ≡ none)
    × (after.path_sem ≡ none)
compaction_run_once-load_record_example =
    compaction_run_once-load_record clear_text clear_text-IsAead setting setting-IsWilling
      (λ n. nonce) (λ n. refl) one_note (host twice) (frame ∷ []) (frame ∷ []) one_twice-IsLater
      (frame-IsSound, tt) (frame-IsHeld, tt)

compaction_run_once-compaction_worthwhile_example :
    (after : Host) × (compaction_run_once clear_text
        (λ n. some nonce)
        setting
        false
        one_note
        (host one_note)
      ≡ some (true, after))
    × (compaction_worthwhile after.db ≡ false)
compaction_run_once-compaction_worthwhile_example =
    compaction_run_once-compaction_worthwhile clear_text clear_text-IsAead setting setting-IsWilling
      (λ n. nonce) (λ n. refl) (host one_note) (frame ∷ []) one_note-IsStored (frame-IsSound, tt)
