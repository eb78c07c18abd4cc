-- ===== src/Log/Append.antt =====
-- src/storage/log.c: log_append, when its frames are flushed, and log_close.
pub mod Write
pub mod Frame
pub mod Stored
pub mod Broken
use aegisdb.Prelude.{
  ℕ, ◌+◌, ◌%◌, ◌^◌, Bool, true, false, Option, none, some, List, ◌||◌, ◌&&◌, not, ◌==◌, ltb, leb,
  if◌then◌else◌, length, take,
}
use aegisdb.Crc32.{crc32_compute}
use aegisdb.Aead.{Aead, Sealed}
use aegisdb.Log.{
  LogFile, v3_aad_len, header_len, frame_overhead, write_full, build_header, build_header_v3,
}

-- The file's end moves and one more frame waits for a flush.
abbrev advance : ℕ → LogFile → LogFile
advance len lf = record lf {
  size = lf.size + frame_overhead lf.encrypted + len;
  since_fsync = (lf.since_fsync + 1) % 2 ^ 64;
}

-- The answer is the frame's offset; `nonce` is what the random source gave.
unfoldable pub log_append_encrypted : Aead → Option (List ℕ) → List ℕ → LogFile → LogFile × Option ℕ
log_append_encrypted cipher nonce payload lf = elim nonce [
  | none ↦ (lf, none)
  | some n ↦
      let hdr = build_header_v3 (length payload) n in
      let s = cipher.aead_seal lf.key n (take v3_aad_len hdr) payload in
      let (lf1, ok1) = write_full lf.size hdr lf in
      if ok1
      then (let (lf2, ok2) = write_full (lf.size + header_len true) s.text lf1 in
          if ok2
          then (let (lf3, ok3) =
                write_full (lf.size + header_len true + length payload) s.tag lf2 in
              if ok3 then (advance (length payload) lf3, some lf.size) else (lf3, none))
          else (lf2, none))
      else (lf1, none)
]

unfoldable pub log_append_plain : List ℕ → LogFile → LogFile × Option ℕ
log_append_plain payload lf =
    let hdr = build_header (length payload) (crc32_compute payload) in
    let (lf1, ok1) = write_full lf.size hdr lf in
    if ok1
    then (let (lf2, ok2) = write_full (lf.size + header_len false) payload lf1 in
        if ok2 then (advance (length payload) lf2, some lf.size) else (lf2, none))
    else (lf1, none)

unfoldable pub log_append : Aead → Option (List ℕ) → List ℕ → LogFile → LogFile × Option ℕ
log_append cipher nonce payload lf =
    if ltb 0xffff_ffff (length payload)
    then (lf, none)
    else if lf.encrypted
    then log_append_encrypted cipher nonce payload lf
    else log_append_plain payload lf

-- `synced` is what fsync answers; the answer is whether all appends are durable.
unfoldable pub log_fsync : Bool → LogFile → LogFile × Bool
log_fsync synced lf =
    if not lf.fd
    then (lf, true)
    else if synced
    then (record lf { since_fsync = 0 }, true)
    else (lf, false)

unfoldable pub log_fsync_if_batched : Bool → LogFile → LogFile × Bool
log_fsync_if_batched synced lf =
    if not lf.fd
    then (lf, true)
    else if (lf.fsync_batch == 0) || leb lf.fsync_batch lf.since_fsync
    then (if synced then (record lf { since_fsync = 0 }, true) else (lf, false))
    else (lf, true)

unfoldable pub log_flush_pending : LogFile → Bool
log_flush_pending lf = lf.fd && ltb 0 lf.since_fsync

-- The last fsync and close; the answer is whether neither reports an error.
unfoldable pub log_close : Bool → Bool → LogFile → LogFile × Bool
log_close synced closed lf =
    if lf.fd then (record lf { fd = false }, synced && closed) else (lf, true)
