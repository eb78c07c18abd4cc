-- ===== src/Log/Recovery.antt =====
-- What log_scan of src/storage/log.c recovers from frames that lie one behind the other.
pub mod Result
use aegisdb.Prelude.{
  ℕ, zero, suc, ◌+◌, ◌-◌, ◌≤◌, ◌<◌, ◌≡◌, refl, sym, ap, ◌∙◌, Bool, true, false, Bool-cases, Option,
  none, some, List, [], ◌∷◌, ◌++◌, ◌||◌, All, inl, inr, append_assoc, append-nil, ltb, lt→ltb,
  le→ltb, if◌then◌else◌, length, length-append, arith,
}
use aegisdb.Aead.{Aead}
use aegisdb.Log.{LogFile, frame_overhead}
use aegisdb.Log.Frames.{
  Frame, frame_bytes, frame_size, IsFrame, content, outcome, length-frame_bytes, round_at-frame,
  overhead_pos,
}
use aegisdb.Log.Torn.{IsTorn, round_at-torn}
use aegisdb.Log.Scan.{
  Scan, LogScanResult, torn, damaged, intact, round_at, scan_from, log_scan, scan_start,
  scan_result, deliver, skip,
}

abbrev pub all_bytes : List Frame → List ℕ
all_bytes [] = []
all_bytes (f ∷ fs) = frame_bytes f ++ all_bytes fs

-- The length of a frame's payload, and the payload if it can be read.
abbrev pub entries : Aead → LogFile → List Frame → List (ℕ × Option (List ℕ))
entries cipher lf [] = []
entries cipher lf (f ∷ fs) = (length f.text, content cipher lf f) ∷ entries cipher lf fs

-- The frames take `over` bytes beyond their payloads.
module _ (over : ℕ) where
  -- The payloads that can be read, with the offsets of their frames; the first frame is at `off`.
  abbrev pub readable : ℕ → List (ℕ × Option (List ℕ)) → List (ℕ × List ℕ)
  readable off [] = []
  readable off ((len, none) ∷ es) = readable (off + over + len) es
  readable off ((len, some payload) ∷ es) = (off, payload) ∷ readable (off + over + len) es

  -- The end of the frames that precede the first unreadable one.
  abbrev pub first_hole : ℕ → List (ℕ × Option (List ℕ)) → ℕ
  first_hole off [] = off
  first_hole off ((len, none) ∷ es) = off
  first_hole off ((len, some payload) ∷ es) = first_hole (off + over + len) es

abbrev pub unreadable : List (ℕ × Option (List ℕ)) → ℕ
unreadable [] = 0
unreadable ((len, none) ∷ es) = suc (unreadable es)
unreadable ((len, some payload) ∷ es) = unreadable es

-- Whether a readable frame follows an unreadable one; `hole` tells of the frames before.
abbrev pub is_split : Bool → List (ℕ × Option (List ℕ)) → Bool
is_split hole [] = false
is_split hole ((len, none) ∷ es) = is_split true es
is_split hole ((len, some payload) ∷ es) = hole || is_split hole es

-- The callback's calls, in order.
abbrev pub give_all : {S : Type 0} → (ℕ → List ℕ → S → S) → S → List (ℕ × List ℕ) → S
give_all give s [] = s
give_all give s ((off, payload) ∷ ps) = give_all give (give off payload s) ps

module _ (cipher : Aead) (lf : LogFile) {S : Type 0} (give : ℕ → List ℕ → S → S) where
  -- A callback that never aborts.
  abbrev pub go_on : ℕ → List ℕ → S → S × Bool
  go_on off payload s = (give off payload s, false)

  abbrev pub over : ℕ
  over = frame_overhead lf.encrypted

  -- The state behind a frame, and behind frames.
  abbrev pub after : ℕ → Option (List ℕ) → Scan S → Scan S
  after len none s = skip cipher lf go_on (s.off + over + len) s
  after len (some payload) s = (deliver cipher lf go_on len payload s).0

  abbrev pub after_all : List (ℕ × Option (List ℕ)) → Scan S → Scan S
  after_all [] s = s
  after_all ((len, c) ∷ es) s = after_all es (after len c s)

  scan_from-frame :
      (n end : ℕ) (s : Scan S) (len : ℕ) (c : Option (List ℕ))
      → s.off < end
      → round_at cipher lf end s.off ≡ outcome len c
      → scan_from cipher lf go_on (suc n) end s ≡ scan_from cipher lf go_on n end (after len c s)
  unfolding scan_from
  scan_from-frame n end s len none inside found = rw (lt→ltb _ _ inside, found) refl
  scan_from-frame n end s len (some payload) inside found = rw (lt→ltb _ _ inside, found) refl

  off-after :
      (len : ℕ) (c : Option (List ℕ)) (s : Scan S) → (after len c s).off ≡ s.off + over + len
  off-after len none s = refl
  off-after len (some payload) s = refl

  -- Enough fuel is one round more than there are bytes.
  pub scan_from-frames :
      (fs : List Frame) (pre rest : List ℕ) (n : ℕ) (s : Scan S)
      → All (IsFrame lf.encrypted) fs
      → IsTorn lf rest
      → lf.bytes ≡ pre ++ (all_bytes fs ++ rest)
      → s.off ≡ length pre
      → length lf.bytes < n + length pre
      → scan_from cipher lf go_on n (length lf.bytes) s ≡ some (after_all (entries cipher lf fs) s)
  unfolding scan_from
  scan_from-frames fs pre rest zero s h t file at fuel =
      absurd (omega (arith, fuel, ap length file, length-append pre (all_bytes fs ++ rest)))
  scan_from-frames [] pre rest (suc n) s h t file at fuel =
      let found : round_at cipher lf (length lf.bytes) s.off ≡ torn =
        rw at (round_at-torn cipher lf pre rest t file) in
      elim (Bool-cases (ltb s.off (length lf.bytes))) [
        | inl l ↦ rw (l, found) refl
        | inr e ↦ rw e refl
      ]
  scan_from-frames (f ∷ fs) pre rest (suc n) s (h, hs) t file at fuel =
      scan_from-frame n (length lf.bytes) s (length f.text) (content cipher lf f)
        (omega (arith, at, total, overhead_pos lf.encrypted))
        (rw at
          (round_at-frame cipher lf pre post f h file1 (length lf.bytes) (omega (arith, total))))
      ∙ scan_from-frames fs (pre ++ frame_bytes f) rest n _ hs t
          (file1 ∙ sym (append_assoc pre (frame_bytes f) post))
          (off-after (length f.text) (content cipher lf f) s ∙ omega (arith, at, reach, size))
          (omega (arith, fuel, reach, size, overhead_pos lf.encrypted))
    where
      post : List ℕ
      post = all_bytes fs ++ rest

      file1 : lf.bytes ≡ pre ++ (frame_bytes f ++ post)
      file1 =
          file ∙ ap (λ (x : List ℕ). pre ++ x) (append_assoc (frame_bytes f) (all_bytes fs) rest)

      size : length (frame_bytes f) ≡ frame_size lf.encrypted f
      size = length-frame_bytes lf.encrypted f h

      reach : length (pre ++ frame_bytes f) ≡ length pre + length (frame_bytes f)
      reach = length-append pre (frame_bytes f)

      total : length pre + frame_size lf.encrypted f ≤ length lf.bytes
      total = omega (
        arith,
        size,
        ap length file1,
        length-append pre (frame_bytes f ++ post),
        length-append (frame_bytes f) post,
      )
