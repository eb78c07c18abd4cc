-- ===== src/Log/Scan.antt =====
-- src/storage/log.c: log_scan. The callback passes its state on, and its answer aborts the scan.
pub mod Ends
use aegisdb.Prelude.{
  ℕ, zero, suc, ◌+◌, ◌-◌, ◌>>=◌, Bool, true, false, Option, none, some, List, ◌||◌, ◌==◌, ltb, leb,
  if◌then◌else◌,
}
use aegisdb.Crc32.{crc32_compute}
use aegisdb.Aead.{Aead}
use aegisdb.Log.{
  LogFile, aead_tag_len, header_len, frame_overhead, read_full, parse_header, parse_header_v3,
}
use aegisdb.Log.Read.{open_frame}
use aegisdb.Log.Resync.{frame_len, find_next_frame}

pub record LogScanResult : Type 0 where
  pub truncate_to : ℕ
  pub good_frames : ℕ
  pub corrupt_frames : ℕ
  pub recovered_after_hole : Bool

-- The local variables of the loop, with the callback's state.
pub record Scan (S : Type 0) : Type 0 where
  pub off : ℕ
  pub clean_end : ℕ
  pub good : ℕ
  pub corrupt : ℕ
  pub hole : Bool
  pub recovered : Bool
  pub ctx : S

-- What one round of the loop finds at an offset.
pub data Round : Type 0 where
  torn : Round
  resync : Round
  damaged : (len : ℕ) → Round
  intact : (len : ℕ) → (payload : List ℕ) → Round

module _ (cipher : Aead) (lf : LogFile) where
  -- The payload behind a header, or none when the read breaks the loop; the second option is the
  -- check on the content.
  unfoldable pub read_payload : ℕ → List ℕ → ℕ → Option (Option (List ℕ))
  read_payload off hdr len =
      if lf.encrypted
      then (do
        text ← read_full lf.bytes (off + header_len true) len
        tag ← read_full lf.bytes (off + header_len true + len) aead_tag_len
        some (open_frame cipher lf.key hdr text tag))
      else (do
        buf ← read_full lf.bytes (off + header_len false) len
        (_, pcrc) ← parse_header hdr
        some (if crc32_compute buf == pcrc then some buf else none))

  unfoldable pub round_at : ℕ → ℕ → Round
  round_at end off =
      if leb (off + header_len lf.encrypted) end
      then (elim (read_full lf.bytes off (header_len lf.encrypted)) [
        | none ↦ torn
        | some hdr ↦ elim (frame_len lf.encrypted hdr) [
          | none ↦ resync
          | some len ↦
              if leb (off + frame_overhead lf.encrypted + len) end
              then (elim (read_payload off hdr len) [
                | none ↦ torn
                | some none ↦ damaged len
                | some (some payload) ↦ intact len payload
              ])
              else torn
        ]
      ])
      else torn

  module _ {S : Type 0} (cb : ℕ → List ℕ → S → S × Bool) where
    -- The frame is handed over; the answer is whether the callback aborts.
    abbrev pub deliver : ℕ → List ℕ → Scan S → Scan S × Bool
    deliver len payload s =
        let next = s.off + frame_overhead lf.encrypted + len in
        let (ctx, abort) = cb s.off payload s.ctx in
        (
          record s {
            ctx = ctx;
            good = s.good + 1;
            off = next;
            recovered = s.hole || s.recovered;
            clean_end = if s.hole then s.clean_end else next;
          },
          abort,
        )

    abbrev pub skip : ℕ → Scan S → Scan S
    skip next s = record s { hole = true; corrupt = s.corrupt + 1; off = next }

    -- The loop, on fuel.
    unfoldable pub scan_from : ℕ → ℕ → Scan S → Option (Scan S)
    scan_from zero end s = none
    scan_from (suc n) end s =
        if ltb s.off end
        then (elim (round_at end s.off) [
          | torn ↦ some s
          | resync ↦ elim (find_next_frame lf.encrypted lf.bytes end (s.off + 1)) [
            | none ↦ none
            | some next ↦ if leb end next then some s else scan_from n end (skip next s)
          ]
          | damaged len ↦ scan_from n end (skip (s.off + frame_overhead lf.encrypted + len) s)
          | intact len payload ↦
              let (s', abort) = deliver len payload s in
              if abort then some s' else scan_from n end s'
        ])
        else some s

    abbrev pub scan_start : ℕ → S → Scan S
    scan_start start ctx = record {
      off = start;
      clean_end = start;
      good = 0;
      corrupt = 0;
      hole = false;
      recovered = false;
      ctx = ctx;
    }

    abbrev pub scan_result : ℕ → Scan S → LogScanResult
    scan_result end s = record {
      truncate_to = if s.recovered then end else s.clean_end;
      good_frames = s.good;
      corrupt_frames = s.corrupt;
      recovered_after_hole = s.recovered;
    }

    unfoldable pub log_scan : ℕ → ℕ → S → Option (S × LogScanResult)
    log_scan start scan_end ctx =
        elim (scan_from (suc (scan_end - start)) scan_end (scan_start start ctx)) [
          | none ↦ none
          | some s ↦ some (s.ctx, scan_result scan_end s)
        ]
