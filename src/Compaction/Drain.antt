-- ===== src/Compaction/Drain.antt =====
-- The tail of the log in compaction_run_once of src/storage/compaction.c.
use aegisdb.Prelude.{
  ℕ, zero, suc, ◌+◌, ◌≤◌, ◌<◌, ◌≡◌, refl, sym, ap, ◌∙◌, subst, true, Option, some, List, [], ◌∷◌,
  ◌++◌, append_assoc, append-nil, ltb, lt→ltb, le→ltb, All, length, length-append, map, arith,
}
use aegisdb.Aead.{Aead, IsAead}
use aegisdb.Log.{LogFile, log_frame_overhead, frame_overhead}
use aegisdb.Log.Read.{log_read}
use aegisdb.Log.Frames.{Frame, IsFrame, frame_bytes, content, length-frame_bytes, overhead_pos}
use aegisdb.Log.Recovery.{all_bytes, entries}
use aegisdb.Log.Durable.{IsLog, log_read-between, all_bytes-append}
use aegisdb.Recovery.{located}
use aegisdb.Recovery.Result.{readable_from}
use aegisdb.Compaction.{NewLoc, drained, drain_tail}
use aegisdb.Compaction.Copy.{
  payloads, map-append, IsCopied, append-IsCopied, off, newlog', next, read_or_empty, Copies,
}
use aegisdb.Compaction.Held.{IsHeld}

abbrev pub buf_of : Aead → LogFile → Frame → List ℕ
buf_of cipher lf f = read_or_empty (content cipher lf f)

pub payloads-readable :
    (cipher : Aead) (lf : LogFile) (offset : ℕ) (gs : List Frame)
    → All (IsHeld cipher lf) gs
    → payloads (readable_from cipher lf offset (entries cipher lf gs)) ≡ map (buf_of cipher lf) gs
payloads-readable cipher lf offset [] h = refl
payloads-readable cipher lf offset (g ∷ gs) ((buf, r, a, d, n, f), h) =
    let rest =
      payloads-readable cipher lf (offset + frame_overhead lf.encrypted + length g.text) gs h in
    rw a (ap (λ x. buf ∷ x) rest)

middle :
    (P : Frame → Type 0) (before after : List Frame) (f : Frame)
    → All P (before ++ (f ∷ after))
    → P f
middle P [] after f (h, _) = h
middle P (b ∷ bs) after f (_, h) = middle P bs after f h

module _ (cipher : Aead) (law : IsAead cipher) (key : Option (List ℕ)) (nonces : ℕ → List ℕ)
    (wide : (n : ℕ) → length (nonces n) ≡ 24) (src : LogFile) (fs : List Frame)
    (l : IsLog src fs) where
  abbrev pub Drained : Option (Option (LogFile × List NewLoc)) → List (List ℕ) → Type 0
  Drained o bufs =
      (answer : Option (LogFile × List NewLoc)) × (o ≡ some answer)
      × Copies cipher law key nonces wide src answer bufs

  -- The loop at the frame that `tail` is the offset of.
  module _ (before gs : List Frame) (g : Frame) (tail : ℕ) (e : fs ≡ before ++ (g ∷ gs))
      (t : tail ≡ length (all_bytes before)) where
    length_g : length (frame_bytes g) ≡ frame_overhead src.encrypted + length g.text
    length_g = length-frame_bytes src.encrypted g (
        middle (IsFrame src.encrypted) before gs g (subst (All (IsFrame src.encrypted)) e l.frames))

    goes_on : ltb tail src.size ≡ true
    goes_on = lt→ltb tail src.size (
        omega (
          arith,
          t,
          l.sized,
          length_g,
          overhead_pos src.encrypted,
          ap (λ x. length (all_bytes x)) e,
          ap length (all_bytes-append before (g ∷ gs)),
          length-append (all_bytes before) (frame_bytes g ++ all_bytes gs),
          length-append (frame_bytes g) (all_bytes gs),
        ))

    found : log_read cipher src tail ≡ content cipher src g
    found = ap (log_read cipher src) t ∙ log_read-between cipher src fs l before gs g e

    after_g :
        (len : ℕ)
        → len ≡ length g.text
        → tail + log_frame_overhead src + len ≡ length (all_bytes (before ++ (g ∷ [])))
    unfolding log_frame_overhead
    after_g len same = omega (
      arith,
      t,
      same,
      length_g,
      ap length (all_bytes-append before (g ∷ [])),
      length-append (all_bytes before) (frame_bytes g ++ []),
      length-append (frame_bytes g) [],
    )

    fewer : (n : ℕ) → length (all_bytes (g ∷ gs)) < suc n → length (all_bytes gs) < n
    fewer n m = omega (
      arith,
      m,
      length_g,
      overhead_pos src.encrypted,
      length-append (frame_bytes g) (all_bytes gs),
    )

  -- The frames from `tail` to the end of the log are copied, in order.
  pub drain_tail-Drained :
      (gs before : List Frame) (rounds tail : ℕ) (newlog : LogFile) (locs : List NewLoc)
      (hs : List Frame) (ps : List (ℕ × List ℕ))
      → fs ≡ before ++ gs
      → All (IsHeld cipher src) gs
      → tail ≡ length (all_bytes before)
      → length (all_bytes gs) < rounds
      → IsCopied cipher key newlog locs hs ps
      → Drained
          (drain_tail cipher (λ n. some (nonces n)) rounds tail src newlog locs)
          (payloads ps ++ map (buf_of cipher src) gs)
  unfolding drain_tail
  drain_tail-Drained gs before zero tail newlog locs hs ps e h t m c = absurd (omega (arith, m))
  drain_tail-Drained [] before (suc n) tail newlog locs hs ps e h t m c =
      let size : src.size ≤ tail =
        omega (arith, l.sized, ap (λ x. length (all_bytes x)) (e ∙ append-nil before), t) in
      (
        some (newlog, locs),
        rw (le→ltb tail src.size size) refl,
        record {
          newlog = newlog;
          locs = locs;
          frames = hs;
          entries = ps;
          done = refl;
          copied = c;
          same = sym (append-nil (payloads ps));
        },
      )
  drain_tail-Drained (g ∷ gs) before (suc n) tail newlog locs hs ps e ((buf, r, a, d, b, f), h) t m
        c =
      let nonce = nonces (length locs) in
      let w = wide (length locs) in
      let (p, q) = append-IsCopied cipher law key nonce buf w f r d newlog locs hs ps c in
      let o = off cipher law key nonce buf w f r d newlog locs hs ps c in
      let log' = newlog' cipher law key nonce buf w f r d newlog locs hs ps c in
      let g' = next cipher law key nonce buf w f r d newlog locs hs ps c in
      let (answer, done, rest) =
        drain_tail-Drained gs (before ++ (g ∷ [])) n (tail + log_frame_overhead src + length buf)
          log' (locs ++ ((r.id, located o (length buf) r) ∷ [])) (hs ++ (g' ∷ []))
          (ps ++ ((o, buf) ∷ [])) (e ∙ sym (append_assoc before (g ∷ []) gs)) h
          (after_g before gs g tail e t (length buf) b) (fewer before gs g tail e t n m) q in
      (
        answer,
        rw (goes_on before gs g tail e t, found before gs g tail e t ∙ a, d)
            (ap
                (drained
                  (drain_tail cipher (λ n. some (nonces n)) n
                    (tail + log_frame_overhead src + length buf) src)
                  locs r (length buf))
                p
              ∙ done),
        record {
          newlog = rest.newlog;
          locs = rest.locs;
          frames = rest.frames;
          entries = rest.entries;
          done = rest.done;
          copied = rest.copied;
          same =
              rest.same
              ∙ ap (λ x. x ++ map (buf_of cipher src) gs) (map-append (λ p. p.1) ps ((o, buf) ∷ []))
              ∙ append_assoc (payloads ps) (buf ∷ []) (map (buf_of cipher src) gs)
              ∙ ap (λ x. payloads ps ++ (read_or_empty x ∷ map (buf_of cipher src) gs)) (sym a);
        },
      )
