-- ===== src/Log/Open/Torn.antt =====
-- log_open of src/storage/log.c on a file whose only frame broke off.
use aegisdb.Prelude.{
  ℕ, ◌+◌, ◌-◌, ◌≤◌, ◌<◌, ◌≡◌, refl, sym, ap, ◌∙◌, Bool, true, false, Bool-cases, Option, none, some,
  inl, inr, List, [], ◌++◌, append-nil, lt→ltb, le→ltb, leb, ◌&&◌, if◌then◌else◌, length,
  length-take, take, take-append_ge, arith,
}
use aegisdb.Bytes.{get_u32le}
use aegisdb.Aead.{Aead}
use aegisdb.Log.Resync.{frame_len, want_magic}
use aegisdb.Log.Resync.Search.{get_u32le-take}
use aegisdb.Log.Frames.{
  Frame, frame_bytes, frame_size, IsFrame, length-frame_bytes, read_full-middle,
}
use aegisdb.Log.Open.{
  is_keyed, log_open_err_wrong_key, Opened, opened, refused, verify_first_frame, open_encrypted,
  open_plain, log_open,
}
use aegisdb.Log.Open.Mode.{magic-bytes}

module _ (enc : Bool) (f : Frame) (h : IsFrame enc f) (n : ℕ) (short : n < frame_size enc f) where
  torn_length : length (take n (frame_bytes f)) ≡ n
  torn_length = omega (arith, short, length-take n (frame_bytes f), length-frame_bytes enc f h)

  torn_magic : 4 ≤ n → get_u32le (take n (frame_bytes f)) ≡ want_magic enc
  torn_magic four =
      get_u32le-take n (frame_bytes f) four
      ∙ ap get_u32le (sym (append-nil (frame_bytes f)))
      ∙ magic-bytes enc f [] h

-- The header is there, but not the whole frame.
verify_first_frame-torn :
    (cipher : Aead) (k : List ℕ) (f : Frame) (n : ℕ)
    → IsFrame true f
    → n < frame_size true f
    → 36 ≤ n
    → verify_first_frame cipher k (take n (frame_bytes f)) (length (take n (frame_bytes f))) ≡ false
unfolding verify_first_frame frame_len
verify_first_frame-torn cipher k f n h short enough =
    let size = torn_length true f h n short in
    let hd = h.length_header in
    let parts : take n (frame_bytes f) ≡ f.header ++ take (n - 36) (f.text ++ f.tag) =
      take-append_ge n f.header (f.text ++ f.tag) (omega (arith, hd, enough))
      ∙ ap (λ (m : ℕ). f.header ++ take (n - m) (f.text ++ f.tag)) hd in
    let read = read_full-middle [] f.header (take (n - 36) (f.text ++ f.tag)) 0 36 refl hd in
    let read' = rw (← parts) at read in
    let whole = length (take n (frame_bytes f)) in
    let a = le→ltb whole 36 (omega (arith, size, enough)) in
    let b = lt→ltb whole (36 + length f.text + 16) (omega (arith, size, short)) in
    rw (a, read', h.announced, b) refl

module _ (cipher : Aead) (accepts : Option ℕ) (batch : ℕ) (f : Frame) (n : ℕ) where
  abbrev bytes : List ℕ
  bytes = take n (frame_bytes f)

  -- Whether the key passes the check on the first frame.
  abbrev checked_by : List ℕ → Bool → Opened
  checked_by k b =
      if b
      then opened cipher accepts batch (some k) bytes
      else refused cipher accepts batch log_open_err_wrong_key bytes

  opens_if :
      (k : List ℕ) (b : Bool)
      → verify_first_frame cipher k bytes (length bytes) ≡ b
      → open_encrypted cipher accepts batch (some k) bytes ≡ checked_by k b
  unfolding open_encrypted
  opens_if k b e = ap (checked_by k) e

  too_short :
      (k : List ℕ)
      → IsFrame true f
      → n < frame_size true f
      → n < 36
      → verify_first_frame cipher k bytes (length bytes) ≡ true
  unfolding verify_first_frame
  too_short k h short few =
      let a = lt→ltb (length bytes) 36 (omega (arith, torn_length true f h n short, few)) in
      rw a refl

  -- A file that holds a part of its first frame opens in its own mode with the key, unless it is
  -- encrypted and its header is whole: then the key is taken for a wrong one.
  pub log_open-torn :
      (key : Option (List ℕ))
      → IsFrame (is_keyed key) f
      → n < frame_size (is_keyed key) f
      → log_open cipher accepts batch key bytes ≡ (
          if is_keyed key && leb 36 n
          then refused cipher accepts batch log_open_err_wrong_key bytes
          else opened cipher accepts batch key bytes)
  unfolding log_open open_plain
  log_open-torn none h short = elim (Bool-cases (leb 4 n)) [
    | inr few ↦ rw (ap (leb 4) (torn_length false f h n short) ∙ few) refl
    | inl four ↦
        rw
          (
            ap (leb 4) (torn_length false f h n short) ∙ four,
            torn_magic false f h n short (ground arith),
          )
          refl
  ]
  log_open-torn (some k) h short = elim (Bool-cases (leb 36 n)) [
    | inl enough ↦
        let four : leb 4 n ≡ true = ground (arith, enough) in
        rw
          (
            ap (leb 4) (torn_length true f h n short) ∙ four,
            torn_magic true f h n short (ground (arith, enough)),
            enough,
          )
          (opens_if k false (verify_first_frame-torn cipher k f n h short (ground (arith, enough))))
    | inr part ↦ elim (Bool-cases (leb 4 n)) [
      | inr few ↦ rw (ap (leb 4) (torn_length true f h n short) ∙ few, part) refl
      | inl four ↦
          rw
            (
              ap (leb 4) (torn_length true f h n short) ∙ four,
              torn_magic true f h n short (ground (arith, four)),
              part,
            )
            (opens_if k true (too_short k h short (ground (arith, part))))
    ]
  ]
