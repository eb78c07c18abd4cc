-- ===== src/Ckpt/Envelope.antt =====
-- What ckpt_read of src/storage/ckpt_crypt.c reads back.
use aegisdb.Prelude.{
  ℕ, ◌+◌, ◌-◌, ◌≡◌, refl, ◌∙◌, false, Option, none, some, List, ◌++◌, ltb, le→ltb, All, length,
  length-append, take, drop, take-prefix, drop-prefix, drop-drop, arith,
}
use aegisdb.Bytes.{IsByte, put_u32le, get_u32le}
use aegisdb.Bytes.RoundTrip.{get_u32le-put_u32le}
use aegisdb.Aead.{Aead, IsAead}
use aegisdb.Ckpt.{ckpt_magic, ckpt_version, ckpt_write, open_envelope, ckpt_read}

-- The associated data in front of the ciphertext.
abbrev header_of : List ℕ → List ℕ
header_of nonce = put_u32le ckpt_magic ++ put_u32le ckpt_version ++ nonce

module _ (nonce rest : List ℕ) (wide : length nonce ≡ 24) where
  header-parts :
      (get_u32le (header_of nonce ++ rest) ≡ ckpt_magic)
      × (get_u32le (drop 4 (header_of nonce ++ rest)) ≡ ckpt_version)
      × (take 24 (drop 8 (header_of nonce ++ rest)) ≡ nonce)
  unfolding put_u32le get_u32le
  header-parts = (
    get_u32le-put_u32le ckpt_magic (omega arith),
    get_u32le-put_u32le ckpt_version (omega arith),
    take-prefix 24 nonce rest wide,
  )

length-header_of : (nonce : List ℕ) → length nonce ≡ 24 → length (header_of nonce) ≡ 32
unfolding put_u32le
length-header_of nonce wide = omega (arith, wide)

module _ (cipher : Aead) where
  open_envelope-parts :
      (key file nonce header text tag : List ℕ)
      → length file ≡ 32 + length text + 16
      → get_u32le file ≡ ckpt_magic
      → get_u32le (drop 4 file) ≡ ckpt_version
      → take 24 (drop 8 file) ≡ nonce
      → take 32 file ≡ header
      → take (length text) (drop 32 file) ≡ text
      → drop (32 + length text) file ≡ tag
      → open_envelope cipher (some key) file ≡ cipher.aead_open key nonce header text tag
  unfolding open_envelope
  open_envelope-parts key file nonce header text tag l m v n h t g =
      let k : length file - 32 - 16 ≡ length text = omega (arith, l) in
      let s : ltb (length file) 48 ≡ false = le→ltb (length file) 48 (omega (arith, l)) in
      rw (k, s, m, v, n, h, t, g) refl

  module _ (law : IsAead cipher) where
    -- What ckpt_write stores is read back under the same key, or without one.
    pub ckpt_read-ckpt_write :
        (key : Option (List ℕ)) (nonce plain : List ℕ)
        → length nonce ≡ 24
        → All IsByte plain
        → (file : List ℕ) × (ckpt_write cipher key (some nonce) plain ≡ some file)
          × (ckpt_read cipher key (some file) ≡ some plain)
    unfolding ckpt_write ckpt_read open_envelope
    ckpt_read-ckpt_write none nonce plain wide b = (plain, refl, refl)
    ckpt_read-ckpt_write (some key) nonce plain wide b =
        let header = header_of nonce in
        let sealed = cipher.aead_seal key nonce header plain in
        let body = sealed.text ++ sealed.tag in
        let lh = length-header_of nonce wide in
        let lg = law.length-tag key nonce header plain in
        let (m, v, n) = header-parts nonce body wide in
        (
          header ++ body,
          refl,
          open_envelope-parts key (header ++ body) nonce header sealed.text sealed.tag
                (omega
                  (arith, length-append header body, length-append sealed.text sealed.tag, lh, lg))
                m v n (take-prefix 32 header body lh)
                (rw (drop-prefix 32 header body lh)
                  (take-prefix (length sealed.text) sealed.text sealed.tag refl))
                (drop-drop 32 (length sealed.text) (header ++ body)
                  ∙ rw (drop-prefix 32 header body lh)
                      (drop-prefix (length sealed.text) sealed.text sealed.tag refl))
              ∙ law.open-seal key nonce header plain b,
        )
