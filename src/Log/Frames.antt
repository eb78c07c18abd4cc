-- ===== src/Log/Frames.antt =====
-- Frames of src/storage/log.c as they lie in the file, and what a round of log_scan makes of one.
use aegisdb.Prelude.{
  ℕ, ◌+◌, ◌-◌, ◌≤◌, ◌<◌, ◌≡◌, refl, ap, ◌∙◌, Bool, true, false, Bool-cases, inl, inr, Option,
  Option-cases, none_some, none, some, List, ◌++◌, ◌==◌, leb, le→leb, if◌then◌else◌, length,
  length-append, append_assoc, take, drop, take-prefix, drop-prefix, arith,
}
use aegisdb.Crc32.{crc32_compute}
use aegisdb.Aead.{Aead}
use aegisdb.Log.{LogFile, aead_tag_len, header_len, frame_overhead, read_full, parse_header}
use aegisdb.Log.Read.{open_frame}
use aegisdb.Log.Resync.{frame_len}
use aegisdb.Log.Scan.{Round, torn, damaged, intact, read_payload, round_at}

pub record Frame : Type 0 where
  pub header : List ℕ
  pub text : List ℕ
  pub tag : List ℕ

abbrev pub frame_bytes : Frame → List ℕ
frame_bytes f = f.header ++ (f.text ++ f.tag)

abbrev pub frame_size : Bool → Frame → ℕ
frame_size enc f = frame_overhead enc + length f.text

-- The header is intact and tells the text's length.
pub record IsFrame (enc : Bool) (f : Frame) : Type 0 where
  pub length_header : length f.header ≡ header_len enc
  pub length_tag : length f.tag ≡ frame_overhead enc - header_len enc
  pub announced : frame_len enc f.header ≡ some (length f.text)

pub length-frame_bytes :
    (enc : Bool) (f : Frame) → IsFrame enc f → length (frame_bytes f) ≡ frame_size enc f
length-frame_bytes true f h =
    omega (arith, h.length_header, h.length_tag, length-append f.header, length-append f.text f.tag)
length-frame_bytes false f h =
    omega (arith, h.length_header, h.length_tag, length-append f.header, length-append f.text f.tag)

-- The payload's checksum is compared with the one that its header tells.
abbrev pub checked : List ℕ → Option (ℕ × ℕ) → Option (List ℕ)
checked text none = none
checked text (some (len, pcrc)) = if crc32_compute text == pcrc then some text else none

-- The check on the content: the cipher's, or the checksum.
unfoldable pub content : Aead → LogFile → Frame → Option (List ℕ)
content cipher lf f =
    if lf.encrypted
    then open_frame cipher lf.key f.header f.text f.tag
    else checked f.text (parse_header f.header)

header_len-frame_overhead : (enc : Bool) → header_len enc ≤ frame_overhead enc
header_len-frame_overhead true = omega arith
header_len-frame_overhead false = omega arith

pub overhead_pos : (enc : Bool) → 0 < frame_overhead enc
overhead_pos true = omega arith
overhead_pos false = omega arith

pub read_full-inside :
    (bytes : List ℕ) (off n : ℕ)
    → off + n ≤ length bytes
    → read_full bytes off n ≡ some (take n (drop off bytes))
unfolding read_full
read_full-inside bytes off n h = elim (Bool-cases (n == 0)) [
  | inl t ↦ rw t refl
  | inr u ↦ rw (u, le→leb _ _ h) refl
]

pub read_full-middle :
    (pre mid post : List ℕ) (off n : ℕ)
    → length pre ≡ off
    → length mid ≡ n
    → read_full (pre ++ (mid ++ post)) off n ≡ some mid
read_full-middle pre mid post off n ho hn =
    read_full-inside (pre ++ (mid ++ post)) off n
      (omega (arith, length-append pre (mid ++ post), length-append mid post))
    ∙ rw (drop-prefix off pre (mid ++ post) ho, take-prefix n mid post hn)

-- What a round makes of a frame's content.
abbrev pub outcome : ℕ → Option (List ℕ) → Round
outcome len none = damaged len
outcome len (some payload) = intact len payload

module _ (cipher : Aead) (lf : LogFile) (pre post : List ℕ) (f : Frame) (h : IsFrame lf.encrypted f)
    (file : lf.bytes ≡ pre ++ (frame_bytes f ++ post)) where
  abbrev tail : List ℕ
  tail = f.tag ++ post

  around : lf.bytes ≡ pre ++ (f.header ++ (f.text ++ tail))
  around =
      file
      ∙ ap (λ (x : List ℕ). pre ++ x)
          (append_assoc f.header (f.text ++ f.tag) post
            ∙ ap (λ (x : List ℕ). f.header ++ x) (append_assoc f.text f.tag post))

  pub read_header : read_full lf.bytes (length pre) (header_len lf.encrypted) ≡ some f.header
  read_header =
      rw around (read_full-middle pre f.header (f.text ++ tail) (length pre) _ refl h.length_header)

  pub read_text :
      read_full lf.bytes (length pre + header_len lf.encrypted) (length f.text) ≡ some f.text
  read_text =
      rw (around, ← append_assoc pre f.header (f.text ++ tail))
        (read_full-middle (pre ++ f.header) f.text tail (length pre + header_len lf.encrypted)
          (length f.text) (omega (arith, h.length_header, length-append pre f.header)) refl)

  pub read_tag :
      lf.encrypted ≡ true
      → read_full lf.bytes (length pre + header_len true + length f.text) aead_tag_len ≡ some f.tag
  read_tag e =
      rw
        (
          around,
          ← append_assoc pre f.header (f.text ++ tail),
          ← append_assoc (pre ++ f.header) f.text tail,
        )
        (read_full-middle (pre ++ f.header ++ f.text) f.tag post
          (length pre + header_len true + length f.text) aead_tag_len
          (omega (arith, wide, length-append (pre ++ f.header) f.text, length-append pre f.header))
          (rw e at h.length_tag))
    where
      wide : length f.header ≡ 36
      wide = rw e at h.length_header

  read_payload-frame :
      read_payload cipher lf (length pre) f.header (length f.text) ≡ some (content cipher lf f)
  unfolding read_payload content frame_len
  read_payload-frame = elim (Bool-cases lf.encrypted) [
    | inl e ↦ let text = rw e at read_text in rw (e, text, read_tag e) refl
    | inr e ↦
        let text = rw e at read_text in
        let announced = rw (e, frame_len) at h.announced in
        elim (Option-cases (parse_header f.header)) [
          | inl unread ↦ none_some (length f.text) (rw unread at announced)
          | inr (p, parsed) ↦ rw (e, text, parsed) refl
        ]
  ]

  -- A round of the scan finds the frame.
  pub round_at-frame :
      (end : ℕ)
      → length pre + frame_size lf.encrypted f ≤ end
      → round_at cipher lf end (length pre) ≡ outcome (length f.text) (content cipher lf f)
  unfolding round_at
  round_at-frame end fits =
      let wide : leb (length pre + header_len lf.encrypted) end ≡ true =
        le→leb _ _ (omega (arith, header_len-frame_overhead lf.encrypted)) in
      let inside : leb (length pre + frame_overhead lf.encrypted + length f.text) end ≡ true =
        le→leb _ _ (omega arith) in
      rw (wide, read_header, h.announced, inside, read_payload-frame) (given (content cipher lf f))
    where
      given :
          (c : Option (List ℕ))
          → elim (some c) [
            | none ↦ torn
            | some none ↦ damaged (length f.text)
            | some (some p) ↦ intact (length f.text) p
          ]
            ≡ outcome (length f.text) c
      given none = refl
      given (some p) = refl
