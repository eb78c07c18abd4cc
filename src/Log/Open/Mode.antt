-- ===== src/Log/Open/Mode.antt =====
-- The modes of log_open in src/storage/log.c against a table.
use aegisdb.Prelude.{
  ℕ, ◌+◌, ◌≤◌, ◌≡◌, refl, sym, ap, ◌∙◌, Bool, true, false, Bool-cases, Option, none, some,
  none_some, inl, inr, List, [], ◌++◌, ◌==◌, ==_iff, le→ltb, leb, le→leb, if◌then◌else◌, length,
  length-append, append_assoc, take-prefix, arith,
}
use aegisdb.Bytes.{get_u32le}
use aegisdb.Aead.{Aead}
use aegisdb.Log.{log_frame_magic, log_frame_magic_enc, header_len, frame_overhead}
use aegisdb.Log.Read.{open_frame}
use aegisdb.Log.Resync.{frame_len, want_magic}
use aegisdb.Log.Resync.Search.{magic-frame_len, get_u32le-take, header_len_min}
use aegisdb.Log.Frames.{Frame, frame_bytes, IsFrame, length-frame_bytes, read_full-middle}
use aegisdb.Log.Open.{
  log_open_err_key_on_plain, log_open_err_plain_on_enc, log_open_err_wrong_key, Opened, opened,
  refused, verify_first_frame, open_encrypted, open_plain, log_open,
}

abbrev pub verified : Option (List ℕ) → Bool
verified none = false
verified (some payload) = true

-- The mode of the file, the key, and whether the key opens the first frame.
abbrev pub mode_table : Aead → Option ℕ → ℕ → Frame → List ℕ → Bool → Option (List ℕ) → Opened
mode_table cipher accepts batch f bytes false none = opened cipher accepts batch none bytes
mode_table cipher accepts batch f bytes false (some k) =
    refused cipher accepts batch log_open_err_key_on_plain bytes
mode_table cipher accepts batch f bytes true none =
    refused cipher accepts batch log_open_err_plain_on_enc bytes
mode_table cipher accepts batch f bytes true (some k) =
    if verified (open_frame cipher k f.header f.text f.tag)
    then opened cipher accepts batch (some k) bytes
    else refused cipher accepts batch log_open_err_wrong_key bytes

module _ (enc : Bool) (f : Frame) (rest : List ℕ) (h : IsFrame enc f) where
  around : frame_bytes f ++ rest ≡ f.header ++ (f.text ++ (f.tag ++ rest))
  around =
      append_assoc f.header (f.text ++ f.tag) rest
      ∙ ap (λ (x : List ℕ). f.header ++ x) (append_assoc f.text f.tag rest)

  pub magic-bytes : get_u32le (frame_bytes f ++ rest) ≡ want_magic enc
  magic-bytes = elim (Bool-cases (get_u32le f.header == want_magic enc)) [
    | inr e ↦ none_some (length f.text) (sym (magic-frame_len enc f.header e) ∙ h.announced)
    | inl t ↦
        let tail = f.text ++ (f.tag ++ rest) in
        rw around (
          sym (get_u32le-take (header_len enc) (f.header ++ tail) (header_len_min enc))
          ∙ ap get_u32le (take-prefix (header_len enc) f.header tail h.length_header)
          ∙ (==_iff (get_u32le f.header) (want_magic enc)).0 t)
  ]

  long : frame_overhead enc + length f.text ≤ length (frame_bytes f ++ rest)
  long = omega (arith, length-append (frame_bytes f) rest, length-frame_bytes enc f h)

verify_first_frame-open_frame :
    (cipher : Aead) (key : List ℕ) (f : Frame) (rest : List ℕ)
    → IsFrame true f
    → verify_first_frame cipher key (frame_bytes f ++ rest) (length (frame_bytes f ++ rest))
      ≡ verified (open_frame cipher key f.header f.text f.tag)
unfolding verify_first_frame frame_len
verify_first_frame-open_frame cipher key f rest h =
    let size = long true f rest h in
    let hd = read_full-middle [] f.header (f.text ++ (f.tag ++ rest)) 0 36 refl h.length_header in
    let tx =
      read_full-middle f.header f.text (f.tag ++ rest) 36 (length f.text) h.length_header refl in
    let tg =
      read_full-middle (f.header ++ f.text) f.tag rest (36 + length f.text) 16
        (omega (arith, h.length_header, length-append f.header f.text)) h.length_tag in
    let tg' = rw (append_assoc f.header f.text (f.tag ++ rest)) at tg in
    let s1 = le→ltb (length (frame_bytes f ++ rest)) 36 (omega (arith, size)) in
    let s2 =
      le→ltb (length (frame_bytes f ++ rest)) (36 + length f.text + 16) (omega (arith, size)) in
    let hd' = rw (← around true f rest h) at hd in
    let tx' = rw (← around true f rest h) at tx in
    let tg'' = rw (← around true f rest h) at tg' in
    rw (s1, hd', h.announced, s2, tx', tg'') (answer (open_frame cipher key f.header f.text f.tag))
  where
    answer : (o : Option (List ℕ)) → elim o [ none ↦ false | some payload ↦ true ] ≡ verified o
    answer none = refl
    answer (some payload) = refl

module _ (cipher : Aead) (accepts : Option ℕ) (batch : ℕ) (f : Frame) (rest : List ℕ) where
  -- A file that starts with a frame opens in its own mode only, and an encrypted one only if the key
  -- opens that frame. The file stays as it is.
  pub log_open-mode_table :
      (enc : Bool) (key : Option (List ℕ))
      → IsFrame enc f
      → log_open cipher accepts batch key (frame_bytes f ++ rest)
        ≡ mode_table cipher accepts batch f (frame_bytes f ++ rest) enc key
  unfolding log_open open_plain open_encrypted
  log_open-mode_table true key h =
      let wide = le→leb 4 (length (frame_bytes f ++ rest)) (omega (arith, long true f rest h)) in
      encrypted key wide (magic-bytes true f rest h)
    where
      encrypted :
          (key : Option (List ℕ))
          → leb 4 (length (frame_bytes f ++ rest)) ≡ true
          → get_u32le (frame_bytes f ++ rest) ≡ log_frame_magic_enc
          → log_open cipher accepts batch key (frame_bytes f ++ rest)
            ≡ mode_table cipher accepts batch f (frame_bytes f ++ rest) true key
      encrypted none wide magic = rw (wide, magic) refl
      encrypted (some k) wide magic =
          rw (wide, magic, verify_first_frame-open_frame cipher k f rest h) refl
  log_open-mode_table false key h =
      let wide = le→leb 4 (length (frame_bytes f ++ rest)) (omega (arith, long false f rest h)) in
      plain key wide (magic-bytes false f rest h)
    where
      plain :
          (key : Option (List ℕ))
          → leb 4 (length (frame_bytes f ++ rest)) ≡ true
          → get_u32le (frame_bytes f ++ rest) ≡ log_frame_magic
          → log_open cipher accepts batch key (frame_bytes f ++ rest)
            ≡ mode_table cipher accepts batch f (frame_bytes f ++ rest) false key
      plain none wide magic = rw (wide, magic) refl
      plain (some k) wide magic = rw (wide, magic) refl
