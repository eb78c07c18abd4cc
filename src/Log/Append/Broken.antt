-- ===== src/Log/Append/Broken.antt =====
-- What log_append of src/storage/log.c leaves when a write fails behind the last frame.
use aegisdb.Prelude.{
  ℕ, zero, suc, ◌+◌, ◌-◌, ◌<◌, ◌≤◌, ◌≡◌, refl, sym, ◌∙◌, Bool-cases, true, false, none, some, List,
  [], ◌++◌, append_assoc, append-nil, inl, inr, ltb, ltb→lt, le→ltb, length, length-append, take,
  drop, take-append_le, take-append_ge, arith,
}
use aegisdb.Aead.{Aead, IsAead}
use aegisdb.Crc32.{crc32_compute}
use aegisdb.Log.{LogFile, v3_aad_len, header_len, write_full}
use aegisdb.Log.Append.{log_append, log_append_plain, log_append_encrypted}
use aegisdb.Log.Append.Write.{write_full-enough, write_full-fails}
use aegisdb.Log.Append.Frame.{new_frame, plain_frame, sealed_frame, IsAppendable}
use aegisdb.Log.Headers.{length-build_header, length-build_header_v3}
use aegisdb.Log.Frames.{frame_bytes}

drop_nil : (n : ℕ) → ◌≡◌ {A = List ℕ} (drop n []) []
drop_nil zero = refl
drop_nil (suc n) = refl

-- The file when it takes n bytes more of these.
abbrev pub cut : LogFile → ℕ → List ℕ → LogFile
cut lf n buf = record lf { bytes = lf.bytes ++ take n buf; accepts = some 0 }

module _ (lf : LogFile) (off n : ℕ) (at : off ≡ length lf.bytes) (limit : lf.accepts ≡ some n) where
  write_full-first :
      (a b : List ℕ) → n < length a → write_full off a lf ≡ (cut lf n (a ++ b), false)
  write_full-first a b h =
      let w = write_full-fails lf.bytes [] lf off at (sym (append-nil lf.bytes)) n a limit h in
      w
      ∙ rw (drop_nil (length (take n a)), append-nil (take n a), take-append_le n a b (omega arith))
          refl

  write_full-next :
      (a : List ℕ)
      → length a ≤ n
      → write_full off a lf
        ≡ (record lf { bytes = lf.bytes ++ a; accepts = some (n - length a) }, true)
  write_full-next a h =
      let w = write_full-enough lf.bytes [] lf off at (sym (append-nil lf.bytes)) n a limit h in
      w ∙ rw (drop_nil (length a), append-nil (lf.bytes ++ a)) refl

  cut-next :
      (a b : List ℕ)
      → length a ≤ n
      → cut (record lf { bytes = lf.bytes ++ a; accepts = some (n - length a) }) (n - length a) b
        ≡ cut lf n (a ++ b)
  cut-next a b h = rw (take-append_ge n a b h, append_assoc lf.bytes a (take (n - length a) b)) refl

module _ (cipher : Aead) (law : IsAead cipher) (nonce payload : List ℕ)
    (h : IsAppendable nonce payload) (lf : LogFile) (n : ℕ) (at : lf.size ≡ length lf.bytes)
    (limit : lf.accepts ≡ some n) where
  log_append_plain-broken :
      n < length (frame_bytes (plain_frame payload))
      → log_append_plain payload lf ≡ (cut lf n (frame_bytes (plain_frame payload)), none)
  unfolding log_append_plain
  log_append_plain-broken short =
      let f = plain_frame payload in
      let wide = length-build_header (length payload) (crc32_compute payload) h.small in
      elim (Bool-cases (ltb n (length f.header))) [
        | inl l ↦
            rw (write_full-first lf lf.size n at limit f.header (payload ++ []) (ltb→lt _ _ l)) refl
        | inr l ↦
            let more : length f.header ≤ n = ground arith in
            let lf1 = record lf {
              bytes = lf.bytes ++ f.header;
              accepts = some (n - length f.header);
            } in
            rw
              (
                write_full-next lf lf.size n at limit f.header more,
                write_full-first lf1 (lf.size + header_len false) (n - length f.header)
                    (omega (arith, at, wide, length-append lf.bytes f.header)) refl payload []
                    (omega (
                      arith,
                      short,
                      length-append f.header (payload ++ []),
                      length-append payload [],
                    )),
                cut-next lf lf.size n at limit f.header (payload ++ []) more,
              )
              refl
      ]

  log_append_encrypted-broken :
      n < length (frame_bytes (sealed_frame cipher lf.key nonce payload))
      → log_append_encrypted cipher (some nonce) payload lf
        ≡ (cut lf n (frame_bytes (sealed_frame cipher lf.key nonce payload)), none)
  unfolding log_append_encrypted
  log_append_encrypted-broken short =
      let f = sealed_frame cipher lf.key nonce payload in
      let wide = length-build_header_v3 (length payload) nonce h.small h.wide in
      let same = law.length-text lf.key nonce (take v3_aad_len f.header) payload in
      let both = length-append f.header (f.text ++ f.tag) in
      let ends = length-append f.text f.tag in
      elim (Bool-cases (ltb n (length f.header))) [
        | inl l ↦
            rw (write_full-first lf lf.size n at limit f.header (f.text ++ f.tag) (ltb→lt _ _ l))
              refl
        | inr l ↦
            let more : length f.header ≤ n = ground arith in
            let n1 = n - length f.header in
            let lf1 = record lf { bytes = lf.bytes ++ f.header; accepts = some n1 } in
            let at1 : lf.size + header_len true ≡ length (lf.bytes ++ f.header) =
              omega (arith, at, wide, length-append lf.bytes f.header) in
            elim (Bool-cases (ltb n1 (length f.text))) [
              | inl m ↦
                  rw
                    (
                      write_full-next lf lf.size n at limit f.header more,
                      write_full-first lf1 (lf.size + header_len true) n1 at1 refl f.text f.tag
                          (ltb→lt _ _ m),
                      cut-next lf lf.size n at limit f.header (f.text ++ f.tag) more,
                    )
                    refl
              | inr m ↦
                  let more1 : length f.text ≤ n1 = ground arith in
                  let lf2 = record lf1 {
                    bytes = lf1.bytes ++ f.text;
                    accepts = some (n1 - length f.text);
                  } in
                  let at2 : lf.size + header_len true + length payload
                      ≡ length (lf1.bytes ++ f.text) =
                    omega (arith, at1, same, length-append lf1.bytes f.text) in
                  rw
                    (
                      write_full-next lf lf.size n at limit f.header more,
                      write_full-next lf1 (lf.size + header_len true) n1 at1 refl f.text more1,
                      write_full-first lf2 (lf.size + header_len true + length payload)
                          (n1 - length f.text) at2 refl f.tag [] (omega (arith, short, both, ends)),
                      append-nil f.tag,
                      cut-next lf1 (lf.size + header_len true) n1 at1 refl f.text f.tag more1,
                      cut-next lf lf.size n at limit f.header (f.text ++ f.tag) more,
                    )
                    refl
            ]
      ]

  -- The frame's first bytes stand behind the others, and the log counts none of them.
  pub log_append-broken :
      n < length (frame_bytes (new_frame cipher lf nonce payload))
      → log_append cipher (some nonce) payload lf
        ≡ (cut lf n (frame_bytes (new_frame cipher lf nonce payload)), none)
  unfolding log_append
  log_append-broken short =
      let fits = le→ltb 0xffff_ffff (length payload) (omega (arith, h.small)) in
      elim (Bool-cases lf.encrypted) [
        | inl c ↦
            let less = rw c at short in
            let broken = log_append_encrypted-broken less in rw (fits, c) (rw c at broken)
        | inr c ↦
            let less = rw c at short in
            let broken = log_append_plain-broken less in rw (fits, c) (rw c at broken)
      ]
