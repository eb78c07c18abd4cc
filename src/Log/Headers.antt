-- ===== src/Log/Headers.antt =====
-- The headers of src/storage/log.c, read back where they were written.
use aegisdb.Prelude.{
  ℕ, ◌^◌, ◌<◌, ◌≡◌, refl, ap, ◌∙◌, ==_refl, some, List, ◌++◌, length, length-append, take, drop,
  take-prefix, drop-prefix, arith,
}
use native.Mathlib.Nat.{mod-eq_of_lt}
use aegisdb.Bytes.{put_u32le, get_u32le}
use aegisdb.Bytes.RoundTrip.{put_u32le-IsByte, get_u32le-put_u32le}
use aegisdb.Crc32.{crc32_compute}
use aegisdb.Crc32.Chain.{crc32_compute-lt}
use aegisdb.Log.{
  log_frame_magic, log_frame_magic_enc, build_header, parse_header, build_header_v3,
  parse_header_v3,
}

pub get_u32le-append : (v : ℕ) (rest : List ℕ) → v < 2 ^ 32 → get_u32le (put_u32le v ++ rest) ≡ v
unfolding get_u32le put_u32le
get_u32le-append v rest h = get_u32le-put_u32le v h

module _ (a b c d : ℕ) (ha : a < 2 ^ 32) (hb : b < 2 ^ 32) (hc : c < 2 ^ 32) (hd : d < 2 ^ 32) where
  abbrev words : List ℕ
  words = put_u32le a ++ put_u32le b ++ put_u32le c

  words-parts :
      (get_u32le (words ++ put_u32le d) ≡ a)
      × (get_u32le (drop 4 (words ++ put_u32le d)) ≡ b)
      × (get_u32le (drop 8 (words ++ put_u32le d)) ≡ c)
      × (get_u32le (drop 12 (words ++ put_u32le d)) ≡ d)
      × (take 12 (words ++ put_u32le d) ≡ words)
  unfolding put_u32le get_u32le
  words-parts = (
    get_u32le-put_u32le a ha,
    get_u32le-put_u32le b hb,
    get_u32le-put_u32le c hc,
    get_u32le-put_u32le d hd,
    refl,
  )

module _ (len pcrc : ℕ) (small : len < 2 ^ 32) where
  pub length-build_header : length (build_header len pcrc) ≡ 16
  unfolding build_header put_u32le
  length-build_header = refl

  pub parse_header-build_header :
      pcrc < 2 ^ 32 → parse_header (build_header len pcrc) ≡ some (len, pcrc)
  unfolding parse_header build_header
  parse_header-build_header h =
      let hdr = words log_frame_magic len pcrc 0 (omega arith) small h (omega arith) in
      let (p0, p1, p2, p3, p4) =
        words-parts log_frame_magic len pcrc (crc32_compute hdr) (omega arith) small h
          (crc32_compute-lt hdr) in
      rw (mod-eq_of_lt small, p0, p1, p2, p3, p4, ==_refl (crc32_compute hdr))

module _ (len : ℕ) (nonce : List ℕ) (small : len < 2 ^ 32) (wide : length nonce ≡ 24) where
  abbrev prefix_v3 : List ℕ
  prefix_v3 = put_u32le log_frame_magic_enc ++ put_u32le len ++ nonce

  length-prefix_v3 : length prefix_v3 ≡ 32
  unfolding put_u32le
  length-prefix_v3 = omega (arith, wide)

  prefix_v3-parts :
      (d : ℕ)
      → d < 2 ^ 32
      → (get_u32le (prefix_v3 ++ put_u32le d) ≡ log_frame_magic_enc)
        × (get_u32le (drop 4 (prefix_v3 ++ put_u32le d)) ≡ len)
        × (drop 8 (prefix_v3 ++ put_u32le d) ≡ nonce ++ put_u32le d)
        × (get_u32le (drop 32 (prefix_v3 ++ put_u32le d)) ≡ d)
        × (take 32 (prefix_v3 ++ put_u32le d) ≡ prefix_v3)
  unfolding put_u32le get_u32le
  prefix_v3-parts d h = (
    get_u32le-put_u32le log_frame_magic_enc (omega arith),
    get_u32le-put_u32le len small,
    refl,
    ap get_u32le (drop-prefix 32 prefix_v3 (put_u32le d) length-prefix_v3)
        ∙ get_u32le-put_u32le d h,
    take-prefix 32 prefix_v3 (put_u32le d) length-prefix_v3,
  )

  pub length-build_header_v3 : length (build_header_v3 len nonce) ≡ 36
  unfolding build_header_v3
  length-build_header_v3 =
      let (_, four) = put_u32le-IsByte (crc32_compute prefix_v3) in
      rw (mod-eq_of_lt small, length-append prefix_v3 (put_u32le (crc32_compute prefix_v3)))
        (omega (arith, length-prefix_v3))

  pub parse_header_v3-build_header_v3 : parse_header_v3 (build_header_v3 len nonce) ≡ some len
  unfolding parse_header_v3 build_header_v3
  parse_header_v3-build_header_v3 =
      let (p0, p1, p2, p3, p4) =
        prefix_v3-parts (crc32_compute prefix_v3) (crc32_compute-lt prefix_v3) in
      rw (mod-eq_of_lt small, p0, p1, p3, p4, ==_refl (crc32_compute prefix_v3))

  -- What the cipher is given: the nonce, and the header without its checksum.
  pub build_header_v3-parts :
      (take 24 (drop 8 (build_header_v3 len nonce)) ≡ nonce)
      × (take 32 (build_header_v3 len nonce) ≡ prefix_v3)
  unfolding build_header_v3
  build_header_v3-parts =
      let (p0, p1, p2, p3, p4) =
        prefix_v3-parts (crc32_compute prefix_v3) (crc32_compute-lt prefix_v3) in
      rw (mod-eq_of_lt small, p2, p4)
        (take-prefix 24 nonce (put_u32le (crc32_compute prefix_v3)) wide, refl)
