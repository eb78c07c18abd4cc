-- ===== src/Recovery/Result.antt =====
-- What the first pass of recovery_run leaves behind a scan of frames.
use aegisdb.Prelude.{
  ℕ, ◌+◌, ◌%◌, ◌^◌, ◌≡◌, refl, sym, ap, ◌∙◌, Option, none, some, List, [], ◌∷◌, ◌++◌, ltb,
  if◌then◌else◌, All, length, length-append, append_assoc, arith,
}
use aegisdb.Aead.{Aead}
use aegisdb.Log.{LogFile, frame_overhead}
use aegisdb.Log.Frames.{Frame, IsFrame, content, frame_bytes, length-frame_bytes}
use aegisdb.Log.Torn.{IsTorn}
use aegisdb.Log.Scan.{LogScanResult, log_scan}
use aegisdb.Log.Recovery.{all_bytes, entries, readable}
use aegisdb.Log.Recovery.Result.{summary, trim_at, log_scan-frames, log_scan-tail}
use aegisdb.Record.Decode.{record_decode}
use aegisdb.HashIndex.Put.{updated}
use aegisdb.HashIndex.{entry_at, HashEntry, HashIndex, Location, create}
use aegisdb.HashIndex.Keys.{lookup, IsHashed}
use aegisdb.HashIndex.Map.{updates, puts-IsPutAll, create-IsHashed}
use aegisdb.HashIndex.File.{hash_index_load}
use aegisdb.Ckpt.{ckpt_read}
use aegisdb.Recovery.{ScanCtx, scan_on, Start, Recovered, trimmed, run_from, recovery_run}
use aegisdb.Recovery.Scan.{locations, if_decoded, highest, scan_next, give_all-puts}

pub locations-append :
    (ps qs : List (ℕ × List ℕ)) → locations (ps ++ qs) ≡ locations ps ++ locations qs
locations-append [] qs = refl
locations-append ((offset, payload) ∷ ps) qs =
    ap (λ x. if_decoded offset (length payload) (record_decode payload) ++ x)
      (locations-append ps qs)
    ∙ sym (
        append_assoc (if_decoded offset (length payload) (record_decode payload)) (locations ps)
          (locations qs))

pub updates-append :
    (m : ℕ → Option HashEntry) (ps qs : List (ℕ × Location))
    → updates m (ps ++ qs) ≡ updates (updates m ps) qs
updates-append m [] qs = refl
updates-append m ((id, at) ∷ ps) qs = updates-append (updated m id (entry_at id at)) ps qs

pub highest-append :
    (m : ℕ) (ps qs : List (ℕ × Location)) → highest m (ps ++ qs) ≡ highest (highest m ps) qs
highest-append m [] qs = refl
highest-append m ((id, at) ∷ ps) qs = highest-append (if ltb m id then id else m) ps qs

module _ (cipher : Aead) (lf : LogFile) where
  -- The locations of the frames' records; the first frame is at `off`.
  abbrev pub located_from : ℕ → List Frame → List (ℕ × Location)
  located_from off fs =
      locations (readable (frame_overhead lf.encrypted) off (entries cipher lf fs))

  abbrev pub readable_from : ℕ → List (ℕ × Option (List ℕ)) → List (ℕ × List ℕ)
  readable_from off es = readable (frame_overhead lf.encrypted) off es

  readable-cons :
      (off len : ℕ) (c : Option (List ℕ)) (es gs : List (ℕ × Option (List ℕ)))
      → (ps : List (ℕ × List ℕ))
      → readable_from (off + frame_overhead lf.encrypted + len) es
        ≡ readable_from (off + frame_overhead lf.encrypted + len) gs ++ ps
      → readable_from off ((len, c) ∷ es) ≡ readable_from off ((len, c) ∷ gs) ++ ps
  readable-cons off len none es gs ps e = e
  readable-cons off len (some payload) es gs ps e = ap (λ x. (off, payload) ∷ x) e

  pub readable-append :
      (off : ℕ) (fs gs : List Frame)
      → All (IsFrame lf.encrypted) fs
      → readable_from off (entries cipher lf (fs ++ gs))
        ≡ readable_from off (entries cipher lf fs)
          ++ readable_from (off + length (all_bytes fs)) (entries cipher lf gs)
  readable-append off [] gs h =
      let e : off ≡ off + 0 = omega arith in ap (λ n. readable_from n (entries cipher lf gs)) e
  readable-append off (f ∷ fs) gs (h, hs) =
      let next = off + frame_overhead lf.encrypted + length f.text in
      let e : next + length (all_bytes fs) ≡ off + length (all_bytes (f ∷ fs)) = omega (
        arith,
        length-append (frame_bytes f) (all_bytes fs),
        length-frame_bytes lf.encrypted f h,
      ) in
      readable-cons off (length f.text) (content cipher lf f) (entries cipher lf (fs ++ gs))
        (entries cipher lf fs)
        (readable_from (off + length (all_bytes (f ∷ fs))) (entries cipher lf gs))
        (readable-append next fs gs hs
          ∙ ap
              (λ n.
                readable_from next (entries cipher lf fs) ++ readable_from n (entries cipher lf gs))
              e)

  pub located_from-append :
      (off : ℕ) (fs gs : List Frame)
      → All (IsFrame lf.encrypted) fs
      → located_from off (fs ++ gs)
        ≡ located_from off fs ++ located_from (off + length (all_bytes fs)) gs
  located_from-append off fs gs h =
      ap locations (readable-append off fs gs h)
      ∙ locations-append (readable_from off (entries cipher lf fs))
          (readable_from (off + length (all_bytes fs)) (entries cipher lf gs))

  -- What the first pass leaves from a start, over frames of which the first is at `off`.
  pub record IsRescanned (start : Start) (off : ℕ) (fs : List Frame) (r : Recovered) : Type 0 where
    pub mapped : lookup r.hash ≡ updates (lookup start.hash) (located_from off fs)
    pub next : r.next_id ≡ (highest start.max_id (located_from off fs) + 1) % 2 ^ 64
    pub hashed : IsHashed r.hash
    pub res : LogScanResult
    pub cut : r.log ≡ trimmed lf res
    pub end :
        res.truncate_to
        ≡ trim_at (frame_overhead lf.encrypted) off (length lf.bytes) (entries cipher lf fs)

  -- The first pass from any start, over frames and what a broken write left.
  pub run_from-frames :
      (start : Start) (fs : List Frame) (pre rest : List ℕ)
      → All (IsFrame lf.encrypted) fs
      → IsTorn lf rest
      → lf.bytes ≡ pre ++ (all_bytes fs ++ rest)
      → lf.size ≡ length lf.bytes
      → start.scan_from ≡ length pre
      → IsHashed start.hash
      → (r : Recovered) × (run_from cipher lf start ≡ some r) × IsRescanned start (length pre) fs r
  unfolding run_from
  run_from-frames start fs pre rest h t file sized from v =
      let ps = located_from (length pre) fs in
      let sc : ScanCtx = record { hash = start.hash; max_id = start.max_id } in
      let (res, p, cut) = log_scan-tail cipher lf scan_next fs pre rest (some sc) h t file in
      let (h', q, w) = puts-IsPutAll start.hash ps v in
      let scan =
        ap (λ n. log_scan cipher lf scan_on n lf.size (some sc)) from
        ∙ ap (λ n. log_scan cipher lf scan_on (length pre) n (some sc)) sized
        ∙ p in
      (
        record {
          hash = h';
          next_id = (highest start.max_id ps + 1) % 2 ^ 64;
          log = trimmed lf res;
        },
        rw (scan, give_all-puts (readable_from (length pre) (entries cipher lf fs)) sc, q) refl,
        record {
          mapped = w.lookup_after;
          next = refl;
          hashed = w.hashed_after;
          res = res;
          cut = refl;
          end = cut;
        },
      )

  -- Without a checkpoint: the whole log is scanned, and trimmed to what log_scan says.
  pub recovery_run-frames :
      (key : Option (List ℕ)) (fs : List Frame) (rest : List ℕ)
      → All (IsFrame lf.encrypted) fs
      → IsTorn lf rest
      → lf.bytes ≡ all_bytes fs ++ rest
      → lf.size ≡ length lf.bytes
      → (h : HashIndex) × (recovery_run cipher key lf create none
          ≡ some (record {
            hash = h;
            next_id = (highest 0 (located_from 0 fs) + 1) % 2 ^ 64;
            log =
                trimmed lf
                  (summary (frame_overhead lf.encrypted) (length lf.bytes) (entries cipher lf fs));
          }))
        × (lookup h ≡ updates (λ id. none) (located_from 0 fs))
        × IsHashed h
  unfolding recovery_run run_from hash_index_load ckpt_read
  recovery_run-frames key fs rest h t file sized =
      let ps = located_from 0 fs in
      let sc : ScanCtx = record { hash = create; max_id = 0 } in
      let (v, e) = create-IsHashed in
      let (h', q, w) = puts-IsPutAll create ps v in
      let scan =
        ap (λ n. log_scan cipher lf scan_on 0 n (some sc)) sized
        ∙ log_scan-frames cipher lf scan_next fs rest (some sc) h t file in
      (
        h',
        rw (scan, give_all-puts (readable_from 0 (entries cipher lf fs)) sc, q) refl,
        w.lookup_after ∙ ap (λ m. updates m ps) e,
        w.hashed_after,
      )
