-- ===== src/Log/Torn.antt =====
-- What a write that broke off leaves behind the last frame of src/storage/log.c's file.
use aegisdb.Prelude.{
  ℕ, ◌+◌, ◌-◌, ◌≤◌, ◌<◌, ◌≡◌, refl, ap, ◌∙◌, false, Bool-cases, inl, inr, List, ◌++◌, some, leb,
  leb→le, lt→leb, length, length-append, length-take, take, take-append_ge, arith,
}
use aegisdb.Aead.{Aead}
use aegisdb.Log.{LogFile, header_len, frame_overhead, read_full}
use aegisdb.Log.Frames.{
  Frame, frame_bytes, frame_size, IsFrame, length-frame_bytes, read_full-middle,
}
use aegisdb.Log.Scan.{torn, round_at}

-- A part of a frame: nothing, a piece of its header, or the header and a piece of the rest.
pub record IsTorn (lf : LogFile) (rest : List ℕ) : Type 0 where
  pub frame : Frame
  pub frame-IsFrame : IsFrame lf.encrypted frame
  pub kept : ℕ
  pub partial : kept < frame_size lf.encrypted frame
  pub same : rest ≡ take kept (frame_bytes frame)

module _ (cipher : Aead) (lf : LogFile) (pre rest : List ℕ) (t : IsTorn lf rest)
    (file : lf.bytes ≡ pre ++ rest) where
  length-rest : length rest ≡ t.kept
  length-rest = rw t.same (
      omega (
        arith,
        t.partial,
        length-take t.kept (frame_bytes t.frame),
        length-frame_bytes lf.encrypted t.frame t.frame-IsFrame,
      ))

  length-bytes : length lf.bytes ≡ length pre + t.kept
  length-bytes = rw file (length-append pre rest ∙ ap (λ (n : ℕ). length pre + n) length-rest)

  -- The header lies in the file, but not the whole frame.
  round_at-cut :
      header_len lf.encrypted ≤ t.kept → round_at cipher lf (length lf.bytes) (length pre) ≡ torn
  unfolding round_at
  round_at-cut enough =
      let hd = t.frame.header in
      let body = t.frame.text ++ t.frame.tag in
      let wide = t.frame-IsFrame.length_header in
      let whole : lf.bytes ≡ pre ++ (hd ++ take (t.kept - length hd) body) =
        file
        ∙ ap (λ (x : List ℕ). pre ++ x)
            (t.same ∙ take-append_ge t.kept hd body (omega (arith, wide, enough))) in
      let here : read_full lf.bytes (length pre) (header_len lf.encrypted) ≡ some hd =
        rw whole
          (read_full-middle pre hd (take (t.kept - length hd) body) (length pre) _ refl wide) in
      let outside : leb (length pre + frame_overhead lf.encrypted + length t.frame.text)
            (length lf.bytes)
          ≡ false =
        lt→leb _ _ (omega (arith, length-bytes, t.partial)) in
      rw (here, t.frame-IsFrame.announced, outside)
        (elim (Bool-cases (leb (length pre + header_len lf.encrypted) (length lf.bytes))) [
          | inl l ↦ rw l refl
          | inr n ↦ rw n refl
        ])

  pub round_at-torn : round_at cipher lf (length lf.bytes) (length pre) ≡ torn
  unfolding round_at
  round_at-torn = elim (Bool-cases (leb (length pre + header_len lf.encrypted) (length lf.bytes))) [
    | inl l ↦ round_at-cut (omega (arith, leb→le _ _ l, length-bytes))
    | inr n ↦ rw n refl
  ]
