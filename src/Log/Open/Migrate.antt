-- ===== src/Log/Open/Migrate.antt =====
-- A legacy file of src/storage/log.c, frame by frame.
use aegisdb.Prelude.{
  ℕ, zero, suc, ◌+◌, ◌^◌, ◌<◌, ◌≡◌, refl, ap, ◌∙◌, false, none, some, List, [], ◌∷◌, ◌++◌,
  append_assoc, append-nil, All, ◌==◌, ==_refl, le→ltb, le→leb, lt→leb, length, length-append, map,
  drop, arith,
}
use aegisdb.Bytes.{put_u32le, get_u32le}
use aegisdb.Bytes.RoundTrip.{get_u32le-put_u32le}
use aegisdb.Crc32.{crc32_compute}
use aegisdb.Crc32.Chain.{crc32_compute-lt}
use aegisdb.Log.{build_header, read_full}
use aegisdb.Log.Append.Frame.{plain_frame}
use aegisdb.Log.Frames.{frame_bytes, read_full-middle}
use aegisdb.Log.Recovery.{all_bytes}
use aegisdb.Log.Open.{v1_frame_header, v1_frame, migrate_from, migrate_legacy_log}

abbrev v1_header : List ℕ → List ℕ
v1_header payload = put_u32le (crc32_compute payload) ++ put_u32le (length payload)

-- The legacy frames of some payloads.
abbrev pub v1_bytes : List (List ℕ) → List ℕ
v1_bytes [] = []
v1_bytes (p ∷ ps) = v1_header p ++ (p ++ v1_bytes ps)

abbrev pub IsSmall : List ℕ → Type 0
IsSmall payload = length payload < 2 ^ 32

v1_header-parts :
    (p : List ℕ)
    → IsSmall p
    → (length (v1_header p) ≡ 8)
      × (get_u32le (v1_header p) ≡ crc32_compute p)
      × (get_u32le (drop 4 (v1_header p)) ≡ length p)
unfolding put_u32le get_u32le
v1_header-parts p h = (
  refl,
  get_u32le-put_u32le (crc32_compute p) (crc32_compute-lt p),
  get_u32le-put_u32le (length p) h,
)

module _ (bytes pre p post : List ℕ) (small : IsSmall p)
    (file : bytes ≡ pre ++ (v1_header p ++ (p ++ post))) where
  v1_frame-here : v1_frame bytes (length pre) ≡ some (crc32_compute p, p)
  unfolding v1_frame
  v1_frame-here =
      let (wide, crc, len) = v1_header-parts p small in
      let total = length-append pre (v1_header p ++ (p ++ post)) in
      let most = length-append (v1_header p) (p ++ post) in
      let rest = length-append p post in
      let here : read_full bytes (length pre) 8 ≡ some (v1_header p) =
        rw file (read_full-middle pre (v1_header p) (p ++ post) (length pre) 8 refl wide) in
      let behind : read_full bytes (length pre + 8) (length p) ≡ some p =
        rw (file, ← append_assoc pre (v1_header p) (p ++ post))
          (read_full-middle (pre ++ v1_header p) p post (length pre + 8) (length p)
            (omega (arith, wide, length-append pre (v1_header p))) refl) in
      let size = ap length file in
      rw
        (
          le→leb (length pre + 8) (length bytes) (omega (arith, size, total, most, wide)),
          here,
          len,
          le→ltb (length bytes) (length pre + 8 + length p)
              (omega (arith, size, total, most, wide, rest)),
          behind,
          crc,
          ==_refl (crc32_compute p),
        )
        refl

v1_frame-short : (bytes : List ℕ) (inp : ℕ) → length bytes < inp + 8 → v1_frame bytes inp ≡ none
unfolding v1_frame
v1_frame-short bytes inp h = rw (lt→leb (inp + 8) (length bytes) h) refl

migrate_from-v1_bytes :
    (ps : List (List ℕ)) (bytes pre rest written : List ℕ) (n count : ℕ)
    → All IsSmall ps
    → bytes ≡ pre ++ (v1_bytes ps ++ rest)
    → length rest < 8
    → length bytes < n + length pre
    → migrate_from n bytes (length pre) written count
      ≡ (written ++ all_bytes (map plain_frame ps), count + length ps)
unfolding migrate_from
migrate_from-v1_bytes ps bytes pre rest written zero count small file short fuel =
    absurd (omega (arith, fuel, ap length file, length-append pre (v1_bytes ps ++ rest)))
migrate_from-v1_bytes [] bytes pre rest written (suc n) count small file short fuel =
    let over : v1_frame bytes (length pre) ≡ none =
      v1_frame-short bytes (length pre)
        (omega (arith, short, ap length file, length-append pre rest)) in
    let same : count + 0 ≡ count = omega arith in
    rw (over, migrate_from, append-nil written, same) refl
migrate_from-v1_bytes (p ∷ ps) bytes pre rest written (suc n) count (small, smalls) file short
      fuel =
    rw (v1_frame-here bytes pre p (v1_bytes ps ++ rest) small file1, migrate_from, ← off)
      (migrate_from-v1_bytes ps bytes (pre ++ (v1_header p ++ p)) rest
          (written ++ build_header (length p) (crc32_compute p) ++ p) n (suc count) smalls file2
          short (omega (arith, fuel, off))
        ∙ rw (moved, written_too) refl)
  where
    file1 : bytes ≡ pre ++ (v1_header p ++ (p ++ (v1_bytes ps ++ rest)))
    file1 =
        file
        ∙ rw (append_assoc (v1_header p) (p ++ v1_bytes ps) rest, append_assoc p (v1_bytes ps) rest)
            refl

    file2 : bytes ≡ pre ++ (v1_header p ++ p) ++ (v1_bytes ps ++ rest)
    file2 =
        file1
        ∙ rw
            (
              append_assoc pre (v1_header p ++ p) (v1_bytes ps ++ rest),
              append_assoc (v1_header p) p (v1_bytes ps ++ rest),
            )
            refl

    off : length (pre ++ (v1_header p ++ p)) ≡ length pre + v1_frame_header + length p
    off =
        let (wide, crc, len) = v1_header-parts p small in
        omega (arith, wide, length-append pre (v1_header p ++ p), length-append (v1_header p) p)

    moved : suc count + length ps ≡ count + suc (length ps)
    moved = omega arith

    written_too :
        written ++ build_header (length p) (crc32_compute p) ++ p ++ all_bytes (map plain_frame ps)
        ≡ written ++ (frame_bytes (plain_frame p) ++ all_bytes (map plain_frame ps))
    written_too =
        let hd = build_header (length p) (crc32_compute p) in
        let tail = all_bytes (map plain_frame ps) in
        rw
          (
            append-nil p,
            append_assoc (written ++ hd) p tail,
            append_assoc written hd (p ++ tail),
            append_assoc hd p tail,
          )
          refl

-- A legacy file of at least one frame, behind which less than a header may stand, becomes a plain log
-- of the same payloads in the same order.
pub migrate_legacy_log-v1_bytes :
    (p : List ℕ) (ps : List (List ℕ)) (rest : List ℕ)
    → All IsSmall (p ∷ ps)
    → length rest < 8
    → migrate_legacy_log (v1_bytes (p ∷ ps) ++ rest) ≡ some (all_bytes (map plain_frame (p ∷ ps)))
unfolding migrate_legacy_log
migrate_legacy_log-v1_bytes p ps rest small short =
    let bytes = v1_bytes (p ∷ ps) ++ rest in
    let some_frames : (0 + suc (length ps) == 0) ≡ false = ground arith in
    rw
      (
        migrate_from-v1_bytes (p ∷ ps) bytes [] rest [] (suc (length bytes)) 0 small refl short
            (omega arith),
        some_frames,
      )
      refl
