-- ===== src/Log/Read.antt =====
-- src/storage/log.c: log_read and log_truncate. none is the answer -1.
use aegisdb.Prelude.{
  ℕ, ◌+◌, ◌-◌, ◌>>=◌, true, false, Option, none, some, List, ◌++◌, ◌==◌, if◌then◌else◌, length,
  take, drop, replicate,
}
use aegisdb.Crc32.{crc32_compute}
use aegisdb.Aead.{Aead}
use aegisdb.Log.{
  LogFile, v3_nonce_off, v3_aad_len, aead_nonce_len, aead_tag_len, header_len, read_full,
  parse_header, parse_header_v3,
}

-- The cipher's answer on a frame's header, text and tag.
abbrev pub open_frame : Aead → List ℕ → List ℕ → List ℕ → List ℕ → Option (List ℕ)
open_frame cipher key hdr text tag =
    cipher.aead_open key (take aead_nonce_len (drop v3_nonce_off hdr)) (take v3_aad_len hdr) text
      tag

unfoldable pub log_read_encrypted : Aead → LogFile → ℕ → Option (List ℕ)
log_read_encrypted cipher lf offset = do
  hdr ← read_full lf.bytes offset (header_len true)
  len ← parse_header_v3 hdr
  text ← read_full lf.bytes (offset + header_len true) len
  tag ← read_full lf.bytes (offset + header_len true + len) aead_tag_len
  open_frame cipher lf.key hdr text tag

unfoldable pub log_read_plain : LogFile → ℕ → Option (List ℕ)
log_read_plain lf offset = do
  hdr ← read_full lf.bytes offset (header_len false)
  (len, pcrc) ← parse_header hdr
  buf ← read_full lf.bytes (offset + header_len false) len
  if crc32_compute buf == pcrc then some buf else none

unfoldable pub log_read : Aead → LogFile → ℕ → Option (List ℕ)
log_read cipher lf offset =
    if lf.encrypted then log_read_encrypted cipher lf offset else log_read_plain lf offset

-- ftruncate: a longer file is filled up with zeros.
unfoldable pub log_truncate : ℕ → LogFile → LogFile
log_truncate valid_end lf = record lf {
  bytes = take valid_end (lf.bytes ++ replicate (valid_end - length lf.bytes) 0);
  size = valid_end;
}
