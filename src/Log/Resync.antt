-- ===== src/Log/Resync.antt =====
-- src/storage/log.c: find_next_frame, in windows of AEGIS_IO_BUF_SIZE bytes.
pub mod Search
use aegisdb.Prelude.{
  ℕ, zero, suc, ◌+◌, ◌-◌, min, Bool, true, false, Option, none, some, List, ◌&&◌, ◌==◌, leb,
  if◌then◌else◌, drop,
}
use aegisdb.Bytes.{get_u32le}
use aegisdb.Log.{
  log_frame_magic, log_frame_magic_enc, header_len, frame_overhead, read_full, parse_header,
  parse_header_v3,
}

abbrev pub io_buf_size : ℕ
io_buf_size = 65536

abbrev pub want_magic : Bool → ℕ
want_magic enc = if enc then log_frame_magic_enc else log_frame_magic

-- The payload's length in a header that is intact, in either mode.
unfoldable pub frame_len : Bool → List ℕ → Option ℕ
frame_len enc hdr =
    if enc then parse_header_v3 hdr else elim (parse_header hdr) [ none ↦ none | some p ↦ some p.0 ]

module _ (enc : Bool) (bytes : List ℕ) (end : ℕ) where
  -- The tests of the inner loop that follow the one on the magic.
  unfoldable pub is_frame : ℕ → Bool
  is_frame off = elim (read_full bytes off (header_len enc)) [
    | none ↦ false
    | some hdr ↦ elim (frame_len enc hdr) [
      | none ↦ false
      | some len ↦ leb (off + frame_overhead enc + len) end
    ]
  ]

  -- The inner loop, with the positions left; `win` is the window from the position on.
  unfoldable pub find_in_window : ℕ → List ℕ → ℕ → Option ℕ
  find_in_window zero win off = none
  find_in_window (suc n) win off =
      if (get_u32le win == want_magic enc) && is_frame off
      then some off
      else find_in_window n (drop 1 win) (off + 1)

  -- The outer loop, on fuel.
  unfoldable pub find_from : ℕ → ℕ → Option ℕ
  find_from zero base = none
  find_from (suc n) base =
      if leb (base + header_len enc) end
      then (let want = min (end - base) io_buf_size in
          elim (read_full bytes base want) [
            | none ↦ some end
            | some win ↦ elim (find_in_window (want - header_len enc + 1) win base) [
              | some off ↦ some off
              | none ↦ find_from n (base + (want - (header_len enc - 1)))
            ]
          ])
      else some end

  unfoldable pub find_next_frame : ℕ → Option ℕ
  find_next_frame from = find_from (suc (end - from)) from
