-- ===== src/Tests/Stores.antt =====
-- A database with one record, written under a cipher that leaves its text as it is.
use aegisdb.Prelude.{
  ℕ, ◌+◌, ◌-◌, ◌/◌, ◌^◌, ◌≤◌, ◌<◌, ◌≡◌, refl, inl, none, some, List, [], ◌∷◌, ◌==◌, if◌then◌else◌,
  ◌++◌, length, All, append-nil, sym, ap, ◌∙◌, subst, true, false, ◌⊎◌, ◌%◌, max, arith,
}
use aegisdb.Log.{LogFile, build_header}
use aegisdb.Log.Append.Frame.{IsAppendable, new_frame, new_frame-IsFrame, content-new_frame}
use aegisdb.Log.Frames.{Frame, IsFrame, frame_bytes, content}
use aegisdb.Log.Torn.{IsTorn}
use aegisdb.Log.Recovery.{all_bytes}
use aegisdb.HashIndex.{HashIndex, Location, create, put, entry_at}
use aegisdb.HashIndex.Keys.{lookup}
use aegisdb.HashIndex.Map.{create-IsHashed, puts, updates, entry_of}
use aegisdb.HashIndex.Put.{updated, IsPut, put-IsPut}
use aegisdb.HashIndex.Entries.{IsNarrow}
use aegisdb.HashIndex.File.{hash_index_save, hash_index_load}
use aegisdb.Recovery.{located, Recovered, recovery_run}
use aegisdb.Recovery.Scan.{highest}
use aegisdb.Recovery.Result.{located_from}
use aegisdb.Recovery.Restart.{IsCovered, checkpoint-full_scan}
use aegisdb.Store.{Db, aegis_ok, aegis_err_internal, append_and_hash, load_record}
use aegisdb.Store.Loads.{IsStored, latest_record, visible, load_record-visible}
use aegisdb.Store.Writes.{append_and_hash-IsStored}
use aegisdb.Store.Broken.{blocked, Reopens, append_and_hash-broken}
use aegisdb.Store.Startup.{Startup, db_open}
use aegisdb.Store.Reread.{restarted}
use aegisdb.Store.Restart.{db_open-load_record}
use aegisdb.Ckpt.{ckpt_read}
use aegisdb.Tests.Logs.{clear_text, clear_text-IsAead, nonce, empty_log}
use aegisdb.Record.RoundTrip.{record_decode-record_encode}
use aegisdb.Record.{MemoryRecord, no_fact}
use aegisdb.Record.Valid.{IsValid}
use aegisdb.Bytes.{put_u16le, put_u32le, put_u64le}
use aegisdb.Record.Encode.{
  record_encode, put_record, encode_refuses, has_unknown_rule, version_of, put_lenstr, put_tags,
  put_floats, put_relationships,
}
use aegisdb.Record.Decode.{record_decode}

abbrev pub note : MemoryRecord
note = record {
  id = 7;
  type = 1;
  created = 1000;
  updated = 1000;
  importance = 0;
  confidence = 0x3f80_0000;
  agent_id = none;
  tags = [];
  embedding = [];
  embedding_dim = 0;
  vec_count = 0;
  relationships = [];
  fact = no_fact;
  routes = [];
  payload = 42 ∷ [];
  expires_at = 0;
  deleted = 0;
}

abbrev pub buf : List ℕ
buf =
    2 ∷ 7 ∷ 0 ∷ 0 ∷ 0 ∷ 0 ∷ 0 ∷ 0 ∷ 0 ∷ 1 ∷ 232 ∷ 3 ∷ 0 ∷ 0 ∷ 0 ∷ 0 ∷ 0 ∷ 0 ∷ 232 ∷ 3 ∷ 0 ∷ 0 ∷ 0
    ∷ 0 ∷ 0 ∷ 0 ∷ 0 ∷ 0 ∷ 0 ∷ 0 ∷ 0 ∷ 0 ∷ 128 ∷ 63 ∷ 0 ∷ 0 ∷ 0 ∷ 0 ∷ 0 ∷ 0 ∷ 0 ∷ 0 ∷ 0 ∷ 255 ∷ 255
    ∷ 255 ∷ 255 ∷ 0 ∷ 0 ∷ 0 ∷ 0 ∷ 0 ∷ 0 ∷ 0 ∷ 0 ∷ 0 ∷ 0 ∷ 0 ∷ 0 ∷ 1 ∷ 0 ∷ 0 ∷ 0 ∷ 42 ∷ []

pub note_encoded : record_encode note ≡ some buf
unfolding record_encode encode_refuses has_unknown_rule put_record version_of put_lenstr put_tags
    put_floats put_relationships put_u16le put_u32le put_u64le
note_encoded = refl

pub note-IsValid : IsValid note
note-IsValid = record {
  id_range = omega arith;
  type_known = omega arith;
  created_range = omega arith;
  updated_range = omega arith;
  importance_range = (omega arith, refl, refl, refl);
  confidence_range = (omega arith, refl, refl, refl);
  agent = tt;
  tag_count = omega arith;
  tag_strings = tt;
  vec_range = omega arith;
  dim_range = omega arith;
  floats_range = tt;
  floats_count = inl (refl, refl, refl);
  rel_count = omega arith;
  rels = tt;
  assertion = inl (refl, refl);
  provenance = record { few = omega arith; sorted = tt; known = tt };
  route_ranges = tt;
  payload_range = omega arith;
  expires_range = omega arith;
  deleted_flag = omega arith;
}

pub buf-IsAppendable : IsAppendable nonce buf
buf-IsAppendable = record { small = omega arith; wide = refl; bytes = omega arith }

abbrev pub empty_db : Db
empty_db = record {
  hash = create;
  log = empty_log;
  tenants = [];
  auth_on = false;
  max_records = 0;
  max_bytes = 0;
}

pub empty_db-IsStored : IsStored clear_text empty_db []
empty_db-IsStored = record {
  in_log = record { frames = tt; junk = []; stored = refl; sized = refl };
  hashed = create-IsHashed.0;
  mapped = create-IsHashed.1;
}

abbrev pub frame : Frame
frame = new_frame clear_text empty_log nonce buf

append_and_hash-IsStored_example :
    (db : Db) × (append_and_hash clear_text (some nonce) empty_db note ≡ some (aegis_ok, db))
    × IsStored clear_text db (frame ∷ [])
    × ((id : ℕ)
        → load_record clear_text db id
          ≡ (if 7 == id then visible (some note) else load_record clear_text empty_db id))
append_and_hash-IsStored_example =
    append_and_hash-IsStored clear_text clear_text-IsAead empty_db [] empty_db-IsStored nonce buf
      note note-IsValid note_encoded buf-IsAppendable refl refl

-- The log of the record, once and twice, and the index of the first.
abbrev pub first_log : LogFile
first_log = record empty_log { bytes = frame_bytes frame; size = 80 }

abbrev pub two_notes : LogFile
two_notes = record empty_log { bytes = frame_bytes frame ++ frame_bytes frame; size = 160 }

pub frame-IsFrame : IsFrame false frame
frame-IsFrame = new_frame-IsFrame clear_text clear_text-IsAead nonce buf buf-IsAppendable empty_log

pub frame_content : content clear_text first_log frame ≡ some buf
frame_content = content-new_frame clear_text clear_text-IsAead nonce buf buf-IsAppendable first_log

pub two_content : content clear_text two_notes frame ≡ some buf
two_content = content-new_frame clear_text clear_text-IsAead nonce buf buf-IsAppendable two_notes

pub buf_decoded : record_decode buf ≡ some note
buf_decoded =
    let (bytes, p, q) = record_decode-record_encode note [] note-IsValid in
    let e : some buf ≡ some bytes = sym note_encoded ∙ p in
    let e' : buf ≡ bytes = cc in
    subst (λ b. record_decode b ≡ some note) (append-nil bytes ∙ sym e') q

abbrev pub note_at : Location
note_at = located 0 64 note

pub located_first : located_from clear_text first_log 0 (frame ∷ []) ≡ (7, note_at) ∷ []
located_first = rw (frame_content, buf_decoded) refl

located_two : located_from clear_text two_notes 0 (frame ∷ []) ≡ (7, note_at) ∷ []
located_two = rw (two_content, buf_decoded) refl

-- The index into which hash_index_put puts the record.
abbrev pub first_put : (h : HashIndex) × (put create 7 note_at ≡ some h) × IsPut create 7 note_at h
first_put = put-IsPut create 7 note_at create-IsHashed.0

abbrev pub one_note : Db
one_note = record empty_db { hash = first_put.0; log = first_log }

pub first_bytes : first_log.bytes ≡ all_bytes (frame ∷ []) ++ []
first_bytes = rw (append-nil (frame_bytes frame), append-nil (frame_bytes frame)) refl

pub first_size : length (all_bytes (frame ∷ [])) ≡ 80
unfolding build_header put_u32le
first_size = refl

abbrev pub one_note-IsStored : IsStored clear_text one_note (frame ∷ [])
one_note-IsStored = record {
  in_log = record {
    frames = (frame-IsFrame, tt);
    junk = [];
    stored = first_bytes;
    sized = sym first_size;
  };
  hashed = first_put.2.hashed_after;
  mapped =
      first_put.2.lookup_after
      ∙ ap (λ m. updated m 7 (entry_at 7 note_at)) create-IsHashed.1
      ∙ ap (updates (λ id. none)) (sym located_first);
}

load_record-visible_example :
    load_record clear_text one_note 7 ≡ visible (latest_record clear_text first_log (frame ∷ []) 7)
load_record-visible_example =
    load_record-visible clear_text one_note (frame ∷ []) 7 one_note-IsStored

nothing-IsTorn : (lf : LogFile) → IsFrame lf.encrypted frame → IsTorn lf []
nothing-IsTorn lf h = record {
  frame = frame;
  frame-IsFrame = h;
  kept = 0;
  partial = omega arith;
  same = refl;
}

abbrev pub startup : Startup
startup = record { key = none; fsync_batch = 1; accepts = none; meta_next = 5 }

unread : hash_index_load clear_text none create none ≡ none
unfolding hash_index_load ckpt_read
unread = refl

db_open-load_record_example :
    (r : Recovered) × (db_open clear_text startup first_log.bytes none ≡ some (some r))
    × ((id : ℕ)
        → load_record clear_text (restarted one_note r) id ≡ load_record clear_text one_note id)
db_open-load_record_example =
    db_open-load_record clear_text startup one_note (frame ∷ []) one_note-IsStored
      (nothing-IsTorn first_log frame-IsFrame) refl refl (inl refl) none (inl unread)

pub two_size : 160 ≡ length (frame_bytes frame ++ frame_bytes frame)
unfolding build_header put_u32le
two_size = refl

abbrev two_notes-IsCovered : IsCovered clear_text two_notes (frame ∷ []) (frame ∷ []) []
two_notes-IsCovered = record {
  covered_frames = (frame-IsFrame, tt);
  later_frames = (frame-IsFrame, tt);
  torn_rest = nothing-IsTorn two_notes frame-IsFrame;
  file = rw (append-nil (frame_bytes frame), append-nil (frame_bytes frame)) refl;
  sized = two_size;
}

note-IsNarrow : IsNarrow (entry_at 7 note_at)
note-IsNarrow = record {
  id_fits = omega arith;
  offset_fits = omega arith;
  expires_at_fits = omega arith;
  length_fits = omega arith;
  kind_fits = omega arith;
  deleted_fits = omega arith;
}

checkpoint-full_scan_example :
    (g : HashIndex) × (checkpoint : List ℕ) × (a b : Recovered) × (puts create
        (located_from clear_text two_notes 0 (frame ∷ []))
      ≡ some g)
    × (hash_index_save clear_text none (some nonce) g (length (all_bytes (frame ∷ []))) 20
        ≡ some checkpoint)
    × (recovery_run clear_text none two_notes create (some checkpoint) ≡ some a)
    × (recovery_run clear_text none two_notes create none ≡ some b)
    × (lookup a.hash ≡ lookup b.hash)
    × (a.next_id
        ≡ (max
              (20 - 1)
              (highest 0 (located_from clear_text two_notes 0 ((frame ∷ []) ++ (frame ∷ []))))
            + 1)
          % 2 ^ 64)
    × (b.next_id
        ≡ (highest 0 (located_from clear_text two_notes 0 ((frame ∷ []) ++ (frame ∷ []))) + 1)
          % 2 ^ 64)
checkpoint-full_scan_example =
    checkpoint-full_scan clear_text two_notes clear_text-IsAead none nonce (frame ∷ []) (frame ∷ [])
      [] 20 refl two_notes-IsCovered
      (subst (All (λ p. IsNarrow (entry_of p))) (sym located_two) (note-IsNarrow, tt))
      (subst (λ ps. length ps ≤ (2 ^ 64 - 2) / 30) (sym located_two) (omega arith))
      (omega (arith, first_size)) (omega arith)
      (subst (λ ps. highest 0 ps < 20) (sym located_two) (omega arith))

-- The same database on a file that takes five bytes more.
abbrev short_log : LogFile
short_log = record first_log { accepts = some 5 }

abbrev short_note : Db
short_note = record one_note { log = short_log }

short_content : content clear_text short_log frame ≡ some buf
short_content = content-new_frame clear_text clear_text-IsAead nonce buf buf-IsAppendable short_log

located_short : located_from clear_text short_log 0 (frame ∷ []) ≡ (7, note_at) ∷ []
located_short = rw (short_content, buf_decoded) refl

abbrev short_note-IsStored : IsStored clear_text short_note (frame ∷ [])
short_note-IsStored = record {
  in_log = record {
    frames = (frame-IsFrame, tt);
    junk = [];
    stored = first_bytes;
    sized = sym first_size;
  };
  hashed = first_put.2.hashed_after;
  mapped =
      first_put.2.lookup_after
      ∙ ap (λ m. updated m 7 (entry_at 7 note_at)) create-IsHashed.1
      ∙ ap (updates (λ id. none)) (sym located_short);
}

five_short : 5 < length (frame_bytes (new_frame clear_text short_log nonce buf))
unfolding build_header put_u32le
five_short = omega arith

append_and_hash-broken_example :
    (db : Db) × (append_and_hash clear_text (some nonce) short_note note
      ≡ some (aegis_err_internal, db))
    × ((id : ℕ) → load_record clear_text db id ≡ load_record clear_text short_note id)
    × (((blocked short_log (frame ∷ []) 5 ≡ true)
          × (db_open clear_text startup db.log.bytes none ≡ some none))
        ⊎ ((blocked short_log (frame ∷ []) 5 ≡ false)
            × Reopens clear_text startup none db short_note))
append_and_hash-broken_example =
    append_and_hash-broken clear_text clear_text-IsAead short_note (frame ∷ []) short_note-IsStored
      refl nonce buf note note_encoded buf-IsAppendable 5 refl five_short startup refl refl
      (inl refl) none (inl unread) refl
