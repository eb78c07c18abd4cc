-- ===== src/Log/Durable.antt =====
-- A file of frames under log_append, log_read, log_scan and log_truncate of src/storage/log.c.
use aegisdb.Prelude.{
  ℕ, ◌≡◌, refl, sym, ap, ◌∙◌, Option-cases, none, some, none_some, true, false, Bool-cases, inl,
  inr, List, [], ◌∷◌, ◌++◌, append_assoc, All-append, append-nil, All, length, length-append, take,
  drop, arith,
}
use aegisdb.Aead.{Aead, IsAead}
use aegisdb.Log.{LogFile, parse_header}
use aegisdb.Log.Read.{log_read, log_read_plain, log_read_encrypted}
use aegisdb.Log.Append.Frame.{IsAppendable, new_frame, new_frame-IsFrame}
use aegisdb.Log.Append.Stored.{left_over, appended}
use aegisdb.Log.Resync.{frame_len}
use aegisdb.Log.Frames.{
  Frame, frame_bytes, IsFrame, content, checked, length-frame_bytes, read_header, read_text,
  read_tag,
}
use aegisdb.Log.Recovery.{all_bytes}

-- The log's bytes are frames, behind which a failed write may have left some.
pub record IsLog (lf : LogFile) (fs : List Frame) : Type 0 where
  pub frames : All (IsFrame lf.encrypted) fs
  pub junk : List ℕ
  pub stored : lf.bytes ≡ all_bytes fs ++ junk
  pub sized : lf.size ≡ length (all_bytes fs)

pub all_bytes-append : (fs gs : List Frame) → all_bytes (fs ++ gs) ≡ all_bytes fs ++ all_bytes gs
all_bytes-append [] gs = refl
all_bytes-append (f ∷ fs) gs =
    ap (λ (x : List ℕ). frame_bytes f ++ x) (all_bytes-append fs gs)
    ∙ sym (append_assoc (frame_bytes f) (all_bytes fs) (all_bytes gs))

module _ (cipher : Aead) (lf : LogFile) (pre post : List ℕ) (f : Frame) (h : IsFrame lf.encrypted f)
    (file : lf.bytes ≡ pre ++ (frame_bytes f ++ post)) where
  log_read_plain-frame :
      lf.encrypted ≡ false → log_read_plain lf (length pre) ≡ checked f.text (parse_header f.header)
  unfolding log_read_plain frame_len
  log_read_plain-frame e =
      let hd = read_header cipher lf pre post f h file in
      let tx = read_text cipher lf pre post f h file in
      let announced = rw (e, frame_len) at h.announced in
      elim (Option-cases (parse_header f.header)) [
        | inl unread ↦ none_some (length f.text) (rw unread at announced)
        | inr ((len, pcrc), parsed) ↦
            let told : some len ≡ some (length f.text) = rw parsed at announced in
            let told' : len ≡ length f.text = cc in
            let hd' = rw e at hd in let tx' = rw e at tx in rw (hd', parsed, told', tx') refl
      ]

  log_read_encrypted-frame :
      lf.encrypted ≡ true
      → log_read_encrypted cipher lf (length pre)
        ≡ cipher.aead_open lf.key (take 24 (drop 8 f.header)) (take 32 f.header) f.text f.tag
  unfolding log_read_encrypted frame_len
  log_read_encrypted-frame e =
      let hd = read_header cipher lf pre post f h file in
      let tx = read_text cipher lf pre post f h file in
      let announced = rw (e, frame_len) at h.announced in
      let hd' = rw e at hd in
      let tx' = rw e at tx in rw (hd', announced, tx', read_tag cipher lf pre post f h file e) refl

  -- A read at a frame's offset gives its content.
  pub log_read-frame : log_read cipher lf (length pre) ≡ content cipher lf f
  unfolding log_read content
  log_read-frame = elim (Bool-cases lf.encrypted) [
    | inl e ↦ let r = log_read_encrypted-frame e in rw e (rw e at r)
    | inr e ↦ let r = log_read_plain-frame e in rw e (rw e at r)
  ]

-- The content of a frame does not depend on the rest of the log.
pub content-appended :
    (cipher : Aead) (lf : LogFile) (pre junk : List ℕ) (f g : Frame)
    → content cipher (appended lf pre junk f) g ≡ content cipher lf g
unfolding content
content-appended cipher lf pre junk f g = refl

module _ (cipher : Aead) (lf : LogFile) (fs : List Frame) (l : IsLog lf fs) where
  -- A frame between others is read whole.
  pub log_read-between :
      (before after : List Frame) (f : Frame)
      → fs ≡ before ++ (f ∷ after)
      → log_read cipher lf (length (all_bytes before)) ≡ content cipher lf f
  log_read-between before after f e =
      log_read-frame cipher lf (all_bytes before) (all_bytes after ++ l.junk) f
        (middle before (rw e at l.frames))
        (l.stored
          ∙ rw
              (
                e,
                all_bytes-append before (f ∷ after),
                append_assoc (all_bytes before) (frame_bytes f ++ all_bytes after) l.junk,
                append_assoc (frame_bytes f) (all_bytes after) l.junk,
              )
              refl)
    where
      middle :
          (bs : List Frame)
          → All (IsFrame lf.encrypted) (bs ++ (f ∷ after))
          → IsFrame lf.encrypted f
      middle [] (h, _) = h
      middle (b ∷ bs) (_, h) = middle bs h

  module _ (law : IsAead cipher) (nonce payload : List ℕ) (h : IsAppendable nonce payload)
      (ready : lf.accepts ≡ none) where
    abbrev next : Frame
    next = new_frame cipher lf nonce payload

    abbrev lf' : LogFile
    lf' = appended lf (all_bytes fs) l.junk next

    abbrev pub appended-IsLog : IsLog lf' (fs ++ (next ∷ []))
    appended-IsLog = record {
      frames =
          All-append (IsFrame lf.encrypted) fs (next ∷ []) l.frames
            (new_frame-IsFrame cipher law nonce payload h lf, tt);
      junk = left_over next l.junk;
      stored =
          rw
            (
              all_bytes-append fs (next ∷ []),
              append-nil (frame_bytes next),
              append_assoc (all_bytes fs) (frame_bytes next) (left_over next l.junk),
            )
            refl;
      sized = omega (
        arith,
        ap length (all_bytes-append fs (next ∷ [])),
        l.sized,
        length-append (all_bytes fs) (frame_bytes next ++ []),
        length-append (frame_bytes next) [],
        length-frame_bytes lf.encrypted next (new_frame-IsFrame cipher law nonce payload h lf),
      );
    }
