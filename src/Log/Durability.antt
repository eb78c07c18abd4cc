-- ===== src/Log/Durability.antt =====
-- What log_append of src/storage/log.c promises of a file of frames, also when it breaks off.
use aegisdb.Prelude.{
  ℕ, ◌+◌, ◌≡◌, refl, sym, ap, ◌∙◌, Option, none, some, List, [], ◌∷◌, ◌++◌, append_assoc, map,
  length, length-append, arith,
}
use aegisdb.Aead.{Aead, IsAead}
use aegisdb.Log.{LogFile}
use aegisdb.Log.Read.{log_read}
use aegisdb.Log.Append.{log_append}
use aegisdb.Log.Append.Frame.{IsAppendable, new_frame, content-new_frame}
use aegisdb.Log.Append.Stored.{appended, log_append-done}
use aegisdb.Log.Frames.{Frame, frame_bytes, content}
use aegisdb.Log.Recovery.{all_bytes}
use aegisdb.Log.Durable.{
  IsLog, all_bytes-append, content-appended, log_read-between, appended-IsLog,
}

module _ (cipher : Aead) where
  -- What log_read gives at the offsets of the frames; the first one's is `off`.
  abbrev pub reads : LogFile → ℕ → List Frame → List (Option (List ℕ))
  reads lf off [] = []
  reads lf off (f ∷ fs) = log_read cipher lf off ∷ reads lf (off + length (frame_bytes f)) fs

  abbrev pub contents : LogFile → List Frame → List (Option (List ℕ))
  contents lf fs = map (content cipher lf) fs

  reads-contents :
      (lf : LogFile) (before after : List Frame)
      → IsLog lf (before ++ after)
      → reads lf (length (all_bytes before)) after ≡ contents lf after
  reads-contents lf before [] l = refl
  reads-contents lf before (f ∷ after) l =
      let one = log_read-between cipher lf (before ++ (f ∷ after)) l before after f refl in
      let e : before ++ (f ∷ after) ≡ before ++ (f ∷ []) ++ after =
        sym (append_assoc before (f ∷ []) after) in
      let rest = reads-contents lf (before ++ (f ∷ [])) after (rw e at l) in
      let off : length (all_bytes (before ++ (f ∷ [])))
          ≡ length (all_bytes before) + length (frame_bytes f) =
        omega (
          arith,
          ap length (all_bytes-append before (f ∷ [])),
          length-append (all_bytes before) (frame_bytes f ++ []),
          length-append (frame_bytes f) [],
        ) in
      rw (one, ← off) (ap (λ (r : List (Option (List ℕ))). content cipher lf f ∷ r) rest)

  contents-append :
      (lf : LogFile) (fs gs : List Frame)
      → contents lf (fs ++ gs) ≡ contents lf fs ++ contents lf gs
  contents-append lf [] gs = refl
  contents-append lf (f ∷ fs) gs =
      ap (λ (r : List (Option (List ℕ))). content cipher lf f ∷ r) (contents-append lf fs gs)

  contents-appended :
      (lf : LogFile) (pre junk : List ℕ) (f : Frame) (fs : List Frame)
      → contents (appended lf pre junk f) fs ≡ contents lf fs
  contents-appended lf pre junk f [] = refl
  contents-appended lf pre junk f (g ∷ fs) = rw (content-appended cipher lf pre junk f g) (
      ap (λ (r : List (Option (List ℕ))). content cipher lf g ∷ r)
        (contents-appended lf pre junk f fs))

  module _ (law : IsAead cipher) (lf : LogFile) (fs : List Frame) (l : IsLog lf fs)
      (nonce payload : List ℕ) (h : IsAppendable nonce payload) where
    abbrev next : Frame
    next = new_frame cipher lf nonce payload

    -- An append without an error answers the end of the frames. Afterwards every earlier frame reads
    -- as it did, and the new one as its payload.
    pub reads-log_append :
        lf.accepts ≡ none
        → ((log_append cipher (some nonce) payload lf).1 ≡ some (length (all_bytes fs)))
          × IsLog (log_append cipher (some nonce) payload lf).0 (fs ++ (next ∷ []))
          × (reads (log_append cipher (some nonce) payload lf).0 0 (fs ++ (next ∷ []))
              ≡ reads lf 0 fs ++ (some payload ∷ []))
    reads-log_append ready =
        let l' = appended-IsLog cipher lf fs l law nonce payload h ready in
        rw
          (log_append-done cipher law nonce payload h lf (all_bytes fs) l.junk l.stored l.sized
            ready)
          (
            ap some l.sized,
            l',
            reads-contents _ [] (fs ++ (next ∷ [])) l'
                ∙ contents-appended lf (all_bytes fs) l.junk next (fs ++ (next ∷ []))
                ∙ contents-append lf fs (next ∷ [])
                ∙ rw (content-new_frame cipher law nonce payload h lf) (
                    ap (λ (r : List (Option (List ℕ))). r ++ (some payload ∷ []))
                      (sym (reads-contents lf [] fs l))),
          )
