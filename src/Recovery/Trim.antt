-- ===== src/Recovery/Trim.antt =====
-- The log that recovery_run of src/storage/recovery.c leaves.
use aegisdb.Prelude.{
  ℕ, ◌+◌, ◌-◌, ◌≡◌, refl, sym, ap, ◌∙◌, subst, Bool, true, false, Bool-cases, Option, none, some,
  inl, inr, List, [], ◌∷◌, ◌++◌, append_assoc, append-nil, if◌then◌else◌, ltb, not, All, length,
  length-append, length-nil, take, take-append, replicate, arith,
}
use aegisdb.Aead.{Aead}
use aegisdb.Log.{LogFile, frame_overhead}
use aegisdb.Log.Append.{log_fsync}
use aegisdb.Log.Read.{log_truncate}
use aegisdb.Log.Scan.{LogScanResult}
use aegisdb.Log.Frames.{Frame, IsFrame, frame_bytes, content, length-frame_bytes}
use aegisdb.Log.Recovery.{all_bytes, entries, readable, first_hole, is_split}
use aegisdb.Recovery.{trimmed}

-- The log is cut to its first bytes.
pub record IsCut (lf lf' : LogFile) (kept : List ℕ) : Type 0 where
  pub bytes : lf'.bytes ≡ kept
  pub sized : lf'.size ≡ length kept
  pub mode : lf'.encrypted ≡ lf.encrypted
  pub same_key : lf'.key ≡ lf.key

abbrev flushed : LogFile → Bool → LogFile × Bool
flushed lf b = if not b then (lf, true) else (record lf { since_fsync = 0 }, true)

flushed-IsCut :
    (lf lf' : LogFile) (kept : List ℕ) (b : Bool)
    → IsCut lf lf' kept
    → IsCut lf (flushed lf' b).0 kept
flushed-IsCut lf lf' kept false c = c
flushed-IsCut lf lf' kept true c = record {
  bytes = c.bytes;
  sized = c.sized;
  mode = c.mode;
  same_key = c.same_key;
}

synced-IsCut :
    (lf lf' : LogFile) (kept : List ℕ) → IsCut lf lf' kept → IsCut lf (log_fsync true lf').0 kept
unfolding log_fsync
synced-IsCut lf lf' kept c = flushed-IsCut lf lf' kept lf'.fd c

module _ (lf : LogFile) (kept rest : List ℕ) (file : lf.bytes ≡ kept ++ rest)
    (at_end : lf.size ≡ length lf.bytes) where
  truncated-IsCut : IsCut lf (log_truncate (length kept) lf) kept
  unfolding log_truncate
  truncated-IsCut = record {
    bytes =
        ap (λ (bs : List ℕ). take (length kept) (bs ++ replicate (length kept - length lf.bytes) 0))
          file
        ∙ ap (take (length kept))
            (append_assoc kept rest (replicate (length kept - length lf.bytes) 0))
        ∙ take-append kept (rest ++ replicate (length kept - length lf.bytes) 0);
    sized = refl;
    mode = refl;
    same_key = refl;
  }

  pub trimmed-IsCut :
      (res : LogScanResult) → res.truncate_to ≡ length kept → IsCut lf (trimmed lf res) kept
  trimmed-IsCut res e = elim (Bool-cases (ltb res.truncate_to lf.size)) [
    | inl b ↦
        let c =
          synced-IsCut lf (log_truncate res.truncate_to lf) kept
            (subst (λ n. IsCut lf (log_truncate n lf) kept) (sym e) truncated-IsCut) in
        subst
          (λ x.
            IsCut lf (if x then (log_fsync true (log_truncate res.truncate_to lf)).0 else lf) kept)
          (sym b) c
    | inr b ↦
        let size = ap length file ∙ length-append kept rest in
        let gone : rest ≡ [] = length-nil rest (ground (arith, e, at_end, size)) in
        let same : lf.bytes ≡ kept = file ∙ ap (λ x. kept ++ x) gone ∙ append-nil kept in
        let c : IsCut lf lf kept = record {
          bytes = same;
          sized = at_end ∙ ap length same;
          mode = refl;
          same_key = refl;
        } in
        subst
          (λ x.
            IsCut lf (if x then (log_fsync true (log_truncate res.truncate_to lf)).0 else lf) kept)
          (sym b) c
  ]

module _ (cipher : Aead) (lf : LogFile) where
  abbrev pub over : ℕ
  over = frame_overhead lf.encrypted

  -- Behind a hole without a readable frame there is nothing to read.
  none_readable :
      (es : List (ℕ × Option (List ℕ))) (off : ℕ)
      → is_split true es ≡ false
      → readable over off es ≡ []
  none_readable [] off h = refl
  none_readable ((len, none) ∷ es) off h = none_readable es (off + over + len) h
  none_readable ((len, some p) ∷ es) off h = absurd (ground arith)

  -- The frames before the first hole, and those behind it, where none can be read.
  pub record IsClean (off : ℕ) (fs : List Frame) : Type 0 where
    pub good : List Frame
    pub bad : List Frame
    pub same : fs ≡ good ++ bad
    pub hole : first_hole over off (entries cipher lf fs) ≡ off + length (all_bytes good)
    pub whole :
        readable over off (entries cipher lf fs) ≡ readable over off (entries cipher lf good)

  IsClean-cons :
      (f : Frame) (fs : List Frame) (off : ℕ) (o : Option (List ℕ))
      → IsFrame lf.encrypted f
      → content cipher lf f ≡ o
      → is_split false ((length f.text, o) ∷ entries cipher lf fs) ≡ false
      → (is_split false (entries cipher lf fs) ≡ false → IsClean (off + over + length f.text) fs)
      → IsClean off (f ∷ fs)
  IsClean-cons f fs off none h c s again = record {
    good = [];
    bad = f ∷ fs;
    same = refl;
    hole =
        ap (λ x. first_hole over off ((length f.text, x) ∷ entries cipher lf fs)) c ∙ omega arith;
    whole =
        ap (λ x. readable over off ((length f.text, x) ∷ entries cipher lf fs)) c
        ∙ none_readable (entries cipher lf fs) (off + over + length f.text) s;
  }
  IsClean-cons f fs off (some p) h c s again =
      let rest = again s in
      let next = off + over + length f.text in
      let size = length-frame_bytes lf.encrypted f h in
      let both = length-append (frame_bytes f) (all_bytes rest.good) in
      record {
        good = f ∷ rest.good;
        bad = rest.bad;
        same = ap (λ x. f ∷ x) rest.same;
        hole =
            ap (λ x. first_hole over off ((length f.text, x) ∷ entries cipher lf fs)) c
            ∙ rest.hole
            ∙ omega (arith, size, both);
        whole =
            ap (λ x. readable over off ((length f.text, x) ∷ entries cipher lf fs)) c
            ∙ ap (λ x. (off, p) ∷ x) rest.whole
            ∙ sym
                (ap (λ x. readable over off ((length f.text, x) ∷ entries cipher lf rest.good)) c);
      }

  pub IsClean-frames :
      (fs : List Frame) (off : ℕ)
      → All (IsFrame lf.encrypted) fs
      → is_split false (entries cipher lf fs) ≡ false
      → IsClean off fs
  IsClean-frames [] off h s = record {
    good = [];
    bad = [];
    same = refl;
    hole = omega arith;
    whole = refl;
  }
  IsClean-frames (f ∷ fs) off (h, hs) s =
      IsClean-cons f fs off (content cipher lf f) h refl s
        (λ s'. IsClean-frames fs (off + over + length f.text) hs s')
