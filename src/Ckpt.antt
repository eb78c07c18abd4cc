-- ===== src/Ckpt.antt =====
-- src/storage/ckpt_crypt.c: the envelope of a checkpoint's file. A path is the bytes of its file,
-- or none if there is no file; a key of NULL is none. The result of ckpt_write is the bytes that
-- fs_write_atomic puts in the file's place, and `random` is what aegis_fill_random fills in, or none
-- when it fails. Allocation succeeds, and a file that exists can be read.
pub mod Envelope
use aegisdb.Prelude.{
  ℕ, ◌+◌, ◌-◌, Option, none, some, List, ◌++◌, ◌>>=◌, ◌==◌, ◌||◌, not, ltb, if◌then◌else◌, length,
  take, drop,
}
use aegisdb.Bytes.{put_u32le, get_u32le}
use aegisdb.Aead.{Aead, Sealed}

abbrev pub ckpt_magic : ℕ
ckpt_magic = 0x4345_4b41

abbrev pub ckpt_version : ℕ
ckpt_version = 1

module _ (cipher : Aead) where
  unfoldable pub ckpt_write : Option (List ℕ) → Option (List ℕ) → List ℕ → Option (List ℕ)
  ckpt_write none random plain = some plain
  ckpt_write (some key) random plain = do
    nonce ← random
    let header = put_u32le ckpt_magic ++ put_u32le ckpt_version ++ nonce
    let sealed = cipher.aead_seal key nonce header plain
    some (header ++ (sealed.text ++ sealed.tag))

  -- ckpt_read of the file's bytes.
  unfoldable pub open_envelope : Option (List ℕ) → List ℕ → Option (List ℕ)
  open_envelope none file = some file
  open_envelope (some key) file =
      let plain_len = length file - 32 - 16 in
      if ltb (length file) 48
        || not (get_u32le file == ckpt_magic)
        || not (get_u32le (drop 4 file) == ckpt_version)
      then none
      else cipher.aead_open key (take 24 (drop 8 file)) (take 32 file)
          (take plain_len (drop 32 file)) (drop (32 + plain_len) file)

  unfoldable pub ckpt_read : Option (List ℕ) → Option (List ℕ) → Option (List ℕ)
  ckpt_read key path = path >>= open_envelope key
