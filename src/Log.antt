-- ===== src/Log.antt =====
-- src/storage/log.c and include/aegisdb/log.h: the append-only log. The file behind `fd` is its list
-- of bytes; `accepts` is how many more bytes it takes before a write fails, if one ever does.
-- Offsets are unbounded numbers; every other call of the system succeeds.
pub mod Append
pub mod Durable
pub mod Crash
pub mod Durability
pub mod Frames
pub mod Headers
pub mod Open
pub mod Read
pub mod Recovery
pub mod Resync
pub mod Scan
pub mod Torn
use aegisdb.Prelude.{
  ℕ, ◌+◌, ◌-◌, ◌%◌, ◌^◌, Bool, true, false, Option, none, some, List, [], ◌++◌, ◌||◌, ◌==◌, leb,
  if◌then◌else◌, length, take, drop, replicate,
}
use aegisdb.Bytes.{put_u32le, get_u32le}
use aegisdb.Crc32.{crc32_compute}

pub record LogFile : Type 0 where
  pub fd : Bool
  pub bytes : List ℕ
  pub accepts : Option ℕ
  pub size : ℕ
  pub since_fsync : ℕ
  pub fsync_batch : ℕ
  pub encrypted : Bool
  pub key : List ℕ

abbrev pub log_frame_magic : ℕ
log_frame_magic = 0xa3d1_b70f

abbrev pub log_frame_magic_enc : ℕ
log_frame_magic_enc = 0xa3d1_b71e

abbrev pub v3_nonce_off : ℕ
v3_nonce_off = 8

abbrev pub v3_aad_len : ℕ
v3_aad_len = 32

abbrev pub aead_nonce_len : ℕ
aead_nonce_len = 24

abbrev pub aead_tag_len : ℕ
aead_tag_len = 16

-- The lengths of a frame's header and of all but its payload, in either mode.
abbrev pub header_len : Bool → ℕ
header_len enc = if enc then 36 else 16

abbrev pub frame_overhead : Bool → ℕ
frame_overhead enc = if enc then 52 else 16

unfoldable pub log_frame_overhead : LogFile → ℕ
log_frame_overhead lf = frame_overhead lf.encrypted

-- none is the end of the file before n bytes.
unfoldable pub read_full : List ℕ → ℕ → ℕ → Option (List ℕ)
read_full bytes off n =
    if (n == 0) || leb (off + n) (length bytes) then some (take n (drop off bytes)) else none

-- pwrite of all the bytes: a gap behind the end of the file reads as zeros.
unfoldable pub overwrite : List ℕ → ℕ → List ℕ → List ℕ
overwrite bytes off buf =
    take off (bytes ++ replicate (off - length bytes) 0) ++ buf ++ drop (off + length buf) bytes

-- The answer is whether all bytes were written.
unfoldable pub write_full : ℕ → List ℕ → LogFile → LogFile × Bool
write_full off buf lf = elim lf.accepts [
  | none ↦ (record lf { bytes = overwrite lf.bytes off buf }, true)
  | some n ↦
      if leb (length buf) n
      then (record lf { bytes = overwrite lf.bytes off buf; accepts = some (n - length buf) }, true)
      else (record lf { bytes = overwrite lf.bytes off (take n buf); accepts = some 0 }, false)
]

unfoldable pub build_header : ℕ → ℕ → List ℕ
build_header len payload_crc =
    let hdr = put_u32le log_frame_magic ++ put_u32le (len % 2 ^ 32) ++ put_u32le payload_crc in
    hdr ++ put_u32le (crc32_compute hdr)

-- The length and the payload's checksum.
unfoldable pub parse_header : List ℕ → Option (ℕ × ℕ)
parse_header hdr =
    if get_u32le hdr == log_frame_magic
    then (if get_u32le (drop 12 hdr) == crc32_compute (take 12 hdr)
        then some (get_u32le (drop 4 hdr), get_u32le (drop 8 hdr))
        else none)
    else none

unfoldable pub build_header_v3 : ℕ → List ℕ → List ℕ
build_header_v3 len nonce =
    let hdr = put_u32le log_frame_magic_enc ++ put_u32le (len % 2 ^ 32) ++ nonce in
    hdr ++ put_u32le (crc32_compute hdr)

unfoldable pub parse_header_v3 : List ℕ → Option ℕ
parse_header_v3 hdr =
    if get_u32le hdr == log_frame_magic_enc
    then (if get_u32le (drop 32 hdr) == crc32_compute (take 32 hdr)
        then some (get_u32le (drop 4 hdr))
        else none)
    else none
