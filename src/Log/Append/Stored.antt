-- ===== src/Log/Append/Stored.antt =====
-- What log_append of src/storage/log.c does to a file of frames.
use aegisdb.Prelude.{
  ℕ, ◌+◌, ◌%◌, ◌^◌, ◌≡◌, refl, true, false, Bool-cases, inl, inr, none, some, List, [], ◌++◌,
  append_assoc, append-nil, le→ltb, length, length-append, take, drop, arith,
}
use aegisdb.Aead.{Aead, IsAead}
use aegisdb.Log.{LogFile, v3_aad_len, header_len, frame_overhead}
use aegisdb.Log.Append.{log_append, log_append_plain, log_append_encrypted}
use aegisdb.Log.Append.Write.{write_full-all}
use aegisdb.Log.Append.Frame.{new_frame, plain_frame, sealed_frame, IsAppendable}
use aegisdb.Crc32.{crc32_compute}
use aegisdb.Log.Headers.{length-build_header, length-build_header_v3}
use aegisdb.Log.Frames.{Frame, frame_bytes}

-- What a frame leaves of the bytes that it was written over.
abbrev pub left_over : Frame → List ℕ → List ℕ
left_over f junk = drop (length f.tag) (drop (length f.text) (drop (length f.header) junk))

-- The log behind the frame.
abbrev pub appended : LogFile → List ℕ → List ℕ → Frame → LogFile
appended lf pre junk f = record lf {
  bytes = pre ++ (frame_bytes f ++ left_over f junk);
  size = lf.size + frame_overhead lf.encrypted + length f.text;
  since_fsync = (lf.since_fsync + 1) % 2 ^ 64;
}

flat : (pre a b c rest : List ℕ) → pre ++ a ++ b ++ c ++ rest ≡ pre ++ ((a ++ (b ++ c)) ++ rest)
flat pre a b c rest =
    rw
      (
        append_assoc a (b ++ c) rest,
        append_assoc b c rest,
        append_assoc pre a b,
        append_assoc pre (a ++ b) c,
        append_assoc pre (a ++ b ++ c) rest,
        append_assoc a b c,
        append_assoc a (b ++ c) rest,
        append_assoc b c rest,
      )
      refl

flat2 : (pre a b rest : List ℕ) → pre ++ a ++ b ++ rest ≡ pre ++ ((a ++ (b ++ [])) ++ rest)
flat2 pre a b rest = rw (append-nil b, append_assoc pre a b, append_assoc pre (a ++ b) rest) refl

module _ (cipher : Aead) (law : IsAead cipher) (nonce payload : List ℕ)
    (h : IsAppendable nonce payload) (lf : LogFile) (pre junk : List ℕ)
    (file : lf.bytes ≡ pre ++ junk) (at : lf.size ≡ length pre) (ready : lf.accepts ≡ none) where
  log_append_plain-done :
      lf.encrypted ≡ false
      → log_append_plain payload lf ≡ (appended lf pre junk (plain_frame payload), some lf.size)
  unfolding log_append_plain
  log_append_plain-done c =
      let f = plain_frame payload in
      let wide = length-build_header (length payload) (crc32_compute payload) h.small in
      let w1 = write_full-all pre junk lf lf.size at file f.header ready in
      let lf1 = record lf { bytes = (pre ++ f.header) ++ drop (length f.header) junk } in
      let w2 =
        write_full-all (pre ++ f.header) (drop (length f.header) junk) lf1
          (lf.size + header_len false) (omega (arith, wide, at, length-append pre f.header)) refl
          payload ready in
      rw (w1, w2, c, flat2 pre f.header payload (left_over f junk)) refl

  log_append_encrypted-done :
      lf.encrypted ≡ true
      → log_append_encrypted cipher (some nonce) payload lf
        ≡ (appended lf pre junk (sealed_frame cipher lf.key nonce payload), some lf.size)
  unfolding log_append_encrypted
  log_append_encrypted-done c =
      let f = sealed_frame cipher lf.key nonce payload in
      let wide = length-build_header_v3 (length payload) nonce h.small h.wide in
      let same = law.length-text lf.key nonce (take v3_aad_len f.header) payload in
      let w1 = write_full-all pre junk lf lf.size at file f.header ready in
      let junk1 = drop (length f.header) junk in
      let lf1 = record lf { bytes = (pre ++ f.header) ++ junk1 } in
      let at1 : lf.size + header_len true ≡ length (pre ++ f.header) =
        omega (arith, wide, at, length-append pre f.header) in
      let w2 =
        write_full-all (pre ++ f.header) junk1 lf1 (lf.size + header_len true) at1 refl f.text
          ready in
      let junk2 = drop (length f.text) junk1 in
      let lf2 = record lf { bytes = ((pre ++ f.header) ++ f.text) ++ junk2 } in
      let w3 =
        write_full-all ((pre ++ f.header) ++ f.text) junk2 lf2
          (lf.size + header_len true + length payload)
          (omega (
            arith,
            same,
            wide,
            at,
            length-append pre f.header,
            length-append (pre ++ f.header) f.text,
          ))
          refl f.tag ready in
      rw (w1, w2, w3, c, flat pre f.header f.text f.tag (left_over f junk), same) refl

  -- All the writes succeed: the frame stands behind the others, and its offset is the answer.
  pub log_append-done :
      log_append cipher (some nonce) payload lf
      ≡ (appended lf pre junk (new_frame cipher lf nonce payload), some lf.size)
  unfolding log_append
  log_append-done =
      let short = le→ltb 0xffff_ffff (length payload) (omega (arith, h.small)) in
      elim (Bool-cases lf.encrypted) [
        | inl c ↦ let done = log_append_encrypted-done c in rw (short, c) (rw c at done)
        | inr c ↦ let done = log_append_plain-done c in rw (short, c) (rw c at done)
      ]
