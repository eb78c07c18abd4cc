-- ===== src/Log/Append/Frame.antt =====
-- The frame that log_append of src/storage/log.c builds.
use aegisdb.Prelude.{
  ℕ, ◌^◌, ◌<◌, ◌≡◌, refl, sym, ap, ◌∙◌, true, false, some, List, [], All, ==_refl, if◌then◌else◌,
  length, take, Bool-cases, inl, inr,
}
use aegisdb.Bytes.{IsByte}
use aegisdb.Crc32.{crc32_compute}
use aegisdb.Crc32.Chain.{crc32_compute-lt}
use aegisdb.Aead.{Aead, IsAead}
use aegisdb.Log.{LogFile, v3_aad_len, build_header, build_header_v3}
use aegisdb.Log.Headers.{
  length-build_header, parse_header-build_header, length-build_header_v3,
  parse_header_v3-build_header_v3, build_header_v3-parts,
}
use aegisdb.Log.Read.{open_frame}
use aegisdb.Log.Resync.{frame_len}
use aegisdb.Log.Frames.{Frame, IsFrame, content}

abbrev pub plain_frame : List ℕ → Frame
plain_frame payload = record {
  header = build_header (length payload) (crc32_compute payload);
  text = payload;
  tag = [];
}

abbrev pub sealed_frame : Aead → List ℕ → List ℕ → List ℕ → Frame
sealed_frame cipher key nonce payload =
    let hdr = build_header_v3 (length payload) nonce in
    let s = cipher.aead_seal key nonce (take v3_aad_len hdr) payload in
    record { header = hdr; text = s.text; tag = s.tag }

abbrev pub new_frame : Aead → LogFile → List ℕ → List ℕ → Frame
new_frame cipher lf nonce payload =
    if lf.encrypted then sealed_frame cipher lf.key nonce payload else plain_frame payload

-- What the log relies on: a length that fits its field, bytes, and a nonce of 24 bytes.
pub record IsAppendable (nonce payload : List ℕ) : Type 0 where
  pub small : length payload < 2 ^ 32
  pub wide : length nonce ≡ 24
  pub bytes : All IsByte payload

module _ (cipher : Aead) (law : IsAead cipher) (nonce payload : List ℕ)
    (h : IsAppendable nonce payload) (key : List ℕ) where
  sealed_frame-IsFrame : IsFrame true (sealed_frame cipher key nonce payload)
  unfolding frame_len
  sealed_frame-IsFrame = record {
    length_header = length-build_header_v3 (length payload) nonce h.small h.wide;
    length_tag = law.length-tag _ _ _ _;
    announced =
        parse_header_v3-build_header_v3 (length payload) nonce h.small h.wide
        ∙ ap some (sym (law.length-text _ _ _ _));
  }

  plain_frame-IsFrame : IsFrame false (plain_frame payload)
  unfolding frame_len
  plain_frame-IsFrame = record {
    length_header = length-build_header (length payload) (crc32_compute payload) h.small;
    length_tag = refl;
    announced =
        rw
          (parse_header-build_header (length payload) (crc32_compute payload) h.small
            (crc32_compute-lt payload))
          refl;
  }

module _ (cipher : Aead) (law : IsAead cipher) (nonce payload : List ℕ)
    (h : IsAppendable nonce payload) (lf : LogFile) where
  pub new_frame-IsFrame : IsFrame lf.encrypted (new_frame cipher lf nonce payload)
  new_frame-IsFrame = elim (Bool-cases lf.encrypted) [
    | inl e ↦ rw e (sealed_frame-IsFrame cipher law nonce payload h lf.key)
    | inr e ↦ rw e (plain_frame-IsFrame cipher law nonce payload h lf.key)
  ]

  pub content-new_frame : content cipher lf (new_frame cipher lf nonce payload) ≡ some payload
  unfolding content
  content-new_frame = elim (Bool-cases lf.encrypted) [
    | inl e ↦
        let (n, a) = build_header_v3-parts (length payload) nonce h.small h.wide in
        rw (e, open_frame, n) (law.open-seal lf.key nonce _ payload h.bytes)
    | inr e ↦
        rw
          (
            e,
            parse_header-build_header (length payload) (crc32_compute payload) h.small
                (crc32_compute-lt payload),
            ==_refl (crc32_compute payload),
          )
          refl
  ]

-- The frame's text is as long as the payload.
pub length-new_frame :
    (cipher : Aead)
    → IsAead cipher
    → (lf : LogFile) (nonce payload : List ℕ)
    → length payload ≡ length (new_frame cipher lf nonce payload).text
length-new_frame cipher law lf nonce payload = elim (Bool-cases lf.encrypted) [
  | inl e ↦
      let hdr = build_header_v3 (length payload) nonce in
      rw e (sym (law.length-text lf.key nonce (take v3_aad_len hdr) payload))
  | inr e ↦ rw e refl
]
