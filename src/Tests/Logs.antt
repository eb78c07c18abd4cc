-- ===== src/Tests/Logs.antt =====
-- Logs of a few frames under a cipher that leaves its text as it is, and one that is cut off.
use aegisdb.Prelude.{
  ℕ, ◌≤◌, ◌<◌, ◌≡◌, refl, sym, true, false, Option, none, some, List, [], ◌∷◌, ◌++◌, append-nil,
  length, replicate, arith,
}
use aegisdb.Bytes.{put_u32le}
use aegisdb.Aead.{Aead, IsAead}
use aegisdb.Log.{LogFile, build_header}
use aegisdb.Log.Read.{log_truncate}
use aegisdb.Log.Append.{log_append}
use aegisdb.Log.Append.Frame.{
  plain_frame, new_frame, IsAppendable, new_frame-IsFrame, content-new_frame,
}
use aegisdb.Log.Frames.{Frame, IsFrame, frame_bytes, content}
use aegisdb.Log.Recovery.{all_bytes, entries, readable, unreadable, give_all, go_on}
use aegisdb.Log.Recovery.Result.{summary, log_scan-frames}
use aegisdb.Log.Resync.{find_next_frame}
use aegisdb.Log.Resync.Search.{first_frame, find_next_frame-first_frame}
use aegisdb.Log.Scan.{LogScanResult, log_scan}
use aegisdb.Log.Scan.Ends.{log_scan-ends}
use aegisdb.Log.Torn.{IsTorn}
use aegisdb.Log.Durable.{IsLog}
use aegisdb.Log.Durability.{reads, reads-log_append}
use aegisdb.Log.Crash.{log_scan-log_append}
use aegisdb.Log.Open.{log_open, log_open_err_key_on_plain, migrate_legacy_log}
use aegisdb.Log.Open.Mode.{log_open-mode_table}
use aegisdb.Log.Open.Migrate.{v1_bytes, migrate_legacy_log-v1_bytes}

abbrev pub clear_text : Aead
clear_text = record {
  aead_seal = λ key nonce aad text. record { text = text; tag = replicate 16 0 };
  aead_open = λ key nonce aad text tag. some text;
}

pub clear_text-IsAead : IsAead clear_text
clear_text-IsAead = record {
  length-text = λ key nonce aad text. refl;
  length-tag = λ key nonce aad text. refl;
  open-seal = λ key nonce aad text h. refl;
}

abbrev pub nonce : List ℕ
nonce = replicate 24 7

abbrev pub empty_log : LogFile
empty_log = record {
  fd = true;
  bytes = [];
  accepts = none;
  size = 0;
  since_fsync = 0;
  fsync_batch = 1;
  encrypted = false;
  key = [];
}

abbrev first : Frame
first = plain_frame (1 ∷ 2 ∷ [])

two_bytes-IsAppendable : IsAppendable nonce (1 ∷ 2 ∷ [])
two_bytes-IsAppendable = record { small = omega arith; wide = refl; bytes = omega arith }

one_byte-IsAppendable : IsAppendable nonce (9 ∷ [])
one_byte-IsAppendable = record { small = omega arith; wide = refl; bytes = omega arith }

first-IsFrame : IsFrame false first
first-IsFrame =
    new_frame-IsFrame clear_text clear_text-IsAead nonce (1 ∷ 2 ∷ []) two_bytes-IsAppendable
      empty_log

first_size : length (all_bytes (first ∷ [])) ≡ 18
unfolding build_header put_u32le
first_size = refl

module _ (accepts : Option ℕ) where
  abbrev one_frame : LogFile
  one_frame = record empty_log { bytes = all_bytes (first ∷ []); accepts = accepts; size = 18 }

  abbrev one_frame-IsLog : IsLog one_frame (first ∷ [])
  one_frame-IsLog = record {
    frames = (first-IsFrame, tt);
    junk = [];
    stored = sym (append-nil (all_bytes (first ∷ [])));
    sized = sym first_size;
  }

readable_first : content clear_text (one_frame (some 5)) first ≡ some (1 ∷ 2 ∷ [])
readable_first =
    content-new_frame clear_text clear_text-IsAead nonce (1 ∷ 2 ∷ []) two_bytes-IsAppendable
      (one_frame (some 5))

all_readable : unreadable (entries clear_text (one_frame (some 5)) (first ∷ [])) ≡ 0
all_readable = rw readable_first refl

next_short : 5 < length (frame_bytes (new_frame clear_text (one_frame (some 5)) nonce (9 ∷ [])))
unfolding build_header put_u32le
next_short = omega arith

abbrev collect : ℕ → List ℕ → List (ℕ × List ℕ) → List (ℕ × List ℕ)
collect off payload seen = (off, payload) ∷ seen

reads-log_append_example :
    let lf = one_frame none in
    let next = new_frame clear_text lf nonce (9 ∷ []) in
    ((log_append clear_text (some nonce) (9 ∷ []) lf).1 ≡ some (length (all_bytes (first ∷ []))))
    × IsLog (log_append clear_text (some nonce) (9 ∷ []) lf).0 ((first ∷ []) ++ (next ∷ []))
    × (reads clear_text
          (log_append clear_text (some nonce) (9 ∷ []) lf).0
          0
          ((first ∷ []) ++ (next ∷ []))
        ≡ reads clear_text lf 0 (first ∷ []) ++ (some (9 ∷ []) ∷ []))
reads-log_append_example =
    reads-log_append clear_text clear_text-IsAead (one_frame none) (first ∷ [])
      (one_frame-IsLog none) nonce (9 ∷ []) one_byte-IsAppendable refl

log_scan-log_append_example :
    let lf = (log_append clear_text (some nonce) (9 ∷ []) (one_frame (some 5))).0 in
    ((log_append clear_text (some nonce) (9 ∷ []) (one_frame (some 5))).1 ≡ none)
    × (log_scan clear_text lf (go_on clear_text lf collect) 0 (length lf.bytes) []
        ≡ some (
          give_all collect []
              (readable 16 0 (entries clear_text (one_frame (some 5)) (first ∷ []))),
          record {
            truncate_to = 18;
            good_frames = 1;
            corrupt_frames = 0;
            recovered_after_hole = false;
          },
        ))
    × ((log_truncate 18 lf).bytes ≡ all_bytes (first ∷ []))
log_scan-log_append_example =
    log_scan-log_append clear_text clear_text-IsAead (one_frame (some 5)) (first ∷ [])
      (one_frame-IsLog (some 5)) refl all_readable nonce (9 ∷ []) one_byte-IsAppendable 5 refl
      next_short collect []

nothing-IsTorn : IsTorn (one_frame none) []
nothing-IsTorn = record {
  frame = first;
  frame-IsFrame = first-IsFrame;
  kept = 0;
  partial = omega arith;
  same = refl;
}

log_scan-frames_example :
    log_scan clear_text
      (one_frame none)
      (go_on clear_text (one_frame none) collect)
      0
      (length (all_bytes (first ∷ [])))
      []
    ≡ some (
      give_all collect [] (readable 16 0 (entries clear_text (one_frame none) (first ∷ []))),
      summary 16
          (length (all_bytes (first ∷ [])))
          (entries clear_text (one_frame none) (first ∷ [])),
    )
log_scan-frames_example =
    log_scan-frames clear_text (one_frame none) collect (first ∷ []) [] [] (first-IsFrame, tt)
      nothing-IsTorn (sym (append-nil (all_bytes (first ∷ []))))

inside : 18 ≤ length (all_bytes (first ∷ []))
inside = omega (arith, first_size)

log_scan-ends_example :
    (answer : List (ℕ × List ℕ) × LogScanResult) × (log_scan clear_text
        (one_frame none)
        (λ off payload seen. (collect off payload seen, true))
        3
        18
        []
      ≡ some answer)
log_scan-ends_example =
    log_scan-ends clear_text (one_frame none) (λ off payload seen. (collect off payload seen, true))
      18 inside 3 []

find_next_frame-first_frame_example :
    find_next_frame false (all_bytes (first ∷ [])) 18 1
    ≡ some (first_frame false (all_bytes (first ∷ [])) 18 18 2 1)
find_next_frame-first_frame_example =
    find_next_frame-first_frame false (all_bytes (first ∷ [])) 18 1 inside

log_open-mode_table_example :
    log_open clear_text none 1 (some nonce) (frame_bytes first ++ [])
    ≡ (log_open_err_key_on_plain, frame_bytes first ++ [], none)
log_open-mode_table_example =
    log_open-mode_table clear_text none 1 first [] false (some nonce) first-IsFrame

migrate_legacy_log-v1_bytes_example :
    migrate_legacy_log (v1_bytes ((1 ∷ 2 ∷ []) ∷ []) ++ (5 ∷ [])) ≡ some (all_bytes (first ∷ []))
migrate_legacy_log-v1_bytes_example =
    migrate_legacy_log-v1_bytes (1 ∷ 2 ∷ []) [] (5 ∷ []) (omega arith, tt) (omega arith)
