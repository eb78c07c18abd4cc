-- ===== src/Log/Crash.antt =====
-- What log_scan of src/storage/log.c finds after a write of log_append that broke off.
use aegisdb.Prelude.{
  ℕ, suc, ◌+◌, ◌<◌, ◌≡◌, refl, sym, ap, ◌∙◌, Option, none, some, false, List, [], ◌∷◌, append-nil,
  All, length, length-append, append_assoc, take, take-prefix, arith,
}
use aegisdb.Aead.{Aead, IsAead}
use aegisdb.Log.{LogFile, frame_overhead}
use aegisdb.Log.Read.{log_truncate}
use aegisdb.Log.Append.{log_append}
use aegisdb.Log.Append.Frame.{IsAppendable, new_frame, new_frame-IsFrame}
use aegisdb.Log.Append.Broken.{cut, log_append-broken}
use aegisdb.Log.Frames.{Frame, frame_bytes, IsFrame, content, length-frame_bytes}
use aegisdb.Log.Recovery.{
  all_bytes, entries, readable, first_hole, unreadable, is_split, give_all, go_on,
}
use aegisdb.Log.Recovery.Result.{log_scan-frames}
use aegisdb.Log.Scan.{log_scan}
use aegisdb.Log.Torn.{IsTorn}
use aegisdb.Log.Durable.{IsLog}

content-cut :
    (cipher : Aead) (lf : LogFile) (n : ℕ) (buf : List ℕ) (f : Frame)
    → content cipher (cut lf n buf) f ≡ content cipher lf f
unfolding content
content-cut cipher lf n buf f = refl

entries-cut :
    (cipher : Aead) (lf : LogFile) (n : ℕ) (buf : List ℕ) (fs : List Frame)
    → entries cipher (cut lf n buf) fs ≡ entries cipher lf fs
entries-cut cipher lf n buf [] = refl
entries-cut cipher lf n buf (f ∷ fs) = rw (content-cut cipher lf n buf f) (
    ap (λ (es : List (ℕ × Option (List ℕ))). (length f.text, content cipher lf f) ∷ es)
      (entries-cut cipher lf n buf fs))

module _ (over : ℕ) where
  abbrev pub total : List (ℕ × Option (List ℕ)) → ℕ
  total [] = 0
  total ((len, c) ∷ es) = over + len + total es

  -- Entries that can all be read.
  pub summary-readable :
      (es : List (ℕ × Option (List ℕ))) (off : ℕ)
      → unreadable es ≡ 0
      → (is_split false es ≡ false)
        × (length (readable over off es) ≡ length es)
        × (first_hole over off es ≡ off + total es)
  summary-readable [] off h = (refl, refl, omega arith)
  summary-readable ((len, none) ∷ es) off h = absurd (omega arith)
  summary-readable ((len, some p) ∷ es) off h =
      let (s, r, t) = summary-readable es (off + over + len) h in (s, ap suc r, omega (arith, t))

module _ (cipher : Aead) (lf : LogFile) where
  pub total-entries :
      (fs : List Frame)
      → All (IsFrame lf.encrypted) fs
      → total (frame_overhead lf.encrypted) (entries cipher lf fs) ≡ length (all_bytes fs)
  total-entries [] h = refl
  total-entries (f ∷ fs) (h, hs) = omega (
    arith,
    total-entries fs hs,
    length-frame_bytes lf.encrypted f h,
    length-append (frame_bytes f) (all_bytes fs),
  )

  length-entries : (fs : List Frame) → length (entries cipher lf fs) ≡ length fs
  length-entries [] = refl
  length-entries (f ∷ fs) = ap suc (length-entries fs)

module _ (cipher : Aead) (law : IsAead cipher) (lf : LogFile) (fs : List Frame) (l : IsLog lf fs)
    (whole : l.junk ≡ []) (clean : unreadable (entries cipher lf fs) ≡ 0) (nonce payload : List ℕ)
    (h : IsAppendable nonce payload) (n : ℕ) (limit : lf.accepts ≡ some n)
    (short : n < length (frame_bytes (new_frame cipher lf nonce payload))) where
  abbrev broken : LogFile
  broken = cut lf n (frame_bytes (new_frame cipher lf nonce payload))

  at_end : lf.bytes ≡ all_bytes fs
  at_end = l.stored ∙ rw (whole, append-nil (all_bytes fs)) refl

  broken-IsTorn : IsTorn broken (take n (frame_bytes (new_frame cipher lf nonce payload)))
  broken-IsTorn =
      let fit = new_frame-IsFrame cipher law nonce payload h lf in
      record {
        frame = new_frame cipher lf nonce payload;
        frame-IsFrame = fit;
        kept = n;
        partial = omega (arith, short, length-frame_bytes lf.encrypted _ fit);
        same = refl;
      }

  -- A write breaks off within a frame behind readable ones. The append reports an error; a scan of
  -- the file then hands over each earlier payload, once and in order, counts no damage and has the
  -- file trimmed to its old end, which restores its bytes.
  pub log_scan-log_append :
      {S : Type 0} (give : ℕ → List ℕ → S → S) (ctx : S)
      → let lf' = (log_append cipher (some nonce) payload lf).0 in
        ((log_append cipher (some nonce) payload lf).1 ≡ none)
        × (log_scan cipher lf' (go_on cipher lf' give) 0 (length lf'.bytes) ctx
            ≡ some (
              give_all give ctx (readable (frame_overhead lf.encrypted) 0 (entries cipher lf fs)),
              record {
                truncate_to = lf.size;
                good_frames = length fs;
                corrupt_frames = 0;
                recovered_after_hole = false;
              },
            ))
        × ((log_truncate lf.size lf').bytes ≡ lf.bytes)
  unfolding log_truncate
  log_scan-log_append give ctx =
      let es = entries cipher lf fs in
      let (split, good, first) = summary-readable (frame_overhead lf.encrypted) es 0 clean in
      let hole : first_hole (frame_overhead lf.encrypted) 0 es ≡ lf.size =
        omega (arith, first, total-entries cipher lf fs l.frames, l.sized) in
      let scanned =
        log_scan-frames cipher broken give fs _ ctx l.frames broken-IsTorn (rw at_end refl) in
      rw
        (log_append-broken cipher law nonce payload h lf n (l.sized ∙ sym (ap length at_end)) limit
          short)
        (
          refl,
          scanned
              ∙ rw
                  (
                    entries-cut cipher lf n (frame_bytes (new_frame cipher lf nonce payload)) fs,
                    split,
                    good,
                    clean,
                    hole,
                    length-entries cipher lf fs,
                  )
                  refl,
          rw (append_assoc lf.bytes (take n (frame_bytes (new_frame cipher lf nonce payload))))
              (take-prefix lf.size lf.bytes _ (sym (l.sized ∙ sym (ap length at_end)))),
        )
