-- ===== src/Store/Opening.antt =====
-- log_open on the log of a database, as db_open of src/storage/db.c calls it.
use aegisdb.Prelude.{
  ℕ, ◌≡◌, refl, sym, ap, ◌∙◌, ◌⊎◌, inl, inr, Bool, false, Option, none, some, List, [], ◌∷◌, ◌++◌,
  append_assoc, ◌&&◌, leb, if◌then◌else◌, All, length, length-take, arith,
}
use aegisdb.Aead.{Aead}
use aegisdb.Log.{LogFile}
use aegisdb.Log.Read.{open_frame}
use aegisdb.Log.Frames.{Frame, IsFrame, frame_bytes, content, length-frame_bytes}
use aegisdb.Log.Torn.{IsTorn}
use aegisdb.Log.Recovery.{all_bytes}
use aegisdb.Log.Open.{is_keyed, key_bytes, log_open_err_wrong_key, opened, refused, log_open}
use aegisdb.Log.Open.Mode.{mode_table, log_open-mode_table}
use aegisdb.Log.Open.Torn.{log_open-torn}

-- The log's first frame passes the check that log_open makes on an encrypted log; of a frame that
-- broke off it makes none if the header is not whole.
abbrev pub Passes : Aead → LogFile → List Frame → List ℕ → Type 0
Passes cipher lf [] junk = (lf.encrypted && leb 36 (length junk)) ≡ false
Passes cipher lf (f ∷ fs) junk =
    (lf.encrypted ≡ false) ⊎ ((payload : List ℕ) × (content cipher lf f ≡ some payload))

module _ (cipher : Aead) (accepts : Option ℕ) (batch : ℕ) (key : Option (List ℕ)) where
  mode_table-plain :
      (f : Frame) (bytes : List ℕ) (key : Option (List ℕ))
      → is_keyed key ≡ false
      → mode_table cipher accepts batch f bytes (is_keyed key) key
        ≡ opened cipher accepts batch key bytes
  mode_table-plain f bytes none e = refl
  mode_table-plain f bytes (some k) e = absurd (ground arith)

  pub mode_table-opened :
      (f : Frame) (bytes payload : List ℕ) (key : Option (List ℕ)) (lf : LogFile)
      → lf.encrypted ≡ is_keyed key
      → lf.key ≡ key_bytes key
      → content cipher lf f ≡ some payload
      → mode_table cipher accepts batch f bytes (is_keyed key) key
        ≡ opened cipher accepts batch key bytes
  unfolding content
  mode_table-opened f bytes payload none lf e k c = refl
  mode_table-opened f bytes payload (some key) lf e k c =
      let c' : open_frame cipher key f.header f.text f.tag ≡ some payload =
        ap (λ x. open_frame cipher x f.header f.text f.tag) (sym k) ∙ rw e at c in
      rw c'

  module _ (lf : LogFile) (mode : lf.encrypted ≡ is_keyed key) (same : lf.key ≡ key_bytes key)
      (junk : List ℕ) (t : IsTorn lf junk) where
    torn-kept : length junk ≡ t.kept
    torn-kept =
        ap length t.same
        ∙ omega (
          arith,
          t.partial,
          length-take t.kept (frame_bytes t.frame),
          length-frame_bytes lf.encrypted t.frame t.frame-IsFrame,
        )

    -- A file of one frame that broke off.
    pub log_open-junk : log_open cipher accepts batch key junk ≡ (
        if lf.encrypted && leb 36 (length junk)
        then refused cipher accepts batch log_open_err_wrong_key junk
        else opened cipher accepts batch key junk)
    log_open-junk =
        let f = t.frame-IsFrame in
        let p = t.partial in
        let torn =
          log_open-torn cipher accepts batch t.frame t.kept key (rw mode at f) (rw mode at p) in
        let answer = λ (x : List ℕ) (b : Bool).
          if b
          then refused cipher accepts batch log_open_err_wrong_key x
          else opened cipher accepts batch key x in
        ap (log_open cipher accepts batch key) t.same
        ∙ torn
        ∙ ap (λ (x : List ℕ). answer x (is_keyed key && leb 36 t.kept)) (sym t.same)
        ∙ ap (λ b. answer junk (b && leb 36 t.kept)) (sym mode)
        ∙ ap (λ n. answer junk (lf.encrypted && leb 36 n)) (sym torn-kept)

    -- A file whose first frame passes the check.
    pub log_open-Passes :
        (fs : List Frame)
        → All (IsFrame lf.encrypted) fs
        → Passes cipher lf fs junk
        → log_open cipher accepts batch key (all_bytes fs ++ junk)
          ≡ opened cipher accepts batch key (all_bytes fs ++ junk)
    log_open-Passes [] h e =
        log_open-junk
        ∙ ap
            (λ b.
              if b
              then refused cipher accepts batch log_open_err_wrong_key junk
              else opened cipher accepts batch key junk)
            e
    log_open-Passes (f ∷ fs) (h, hs) e =
        let rest = all_bytes fs ++ junk in
        let bytes = frame_bytes f ++ rest in
        let table =
          log_open-mode_table cipher accepts batch f rest (is_keyed key) key (rw mode at h) in
        rw (append_assoc (frame_bytes f) (all_bytes fs) junk) (
          table ∙ elim e [
            | inl plain ↦ mode_table-plain f bytes key (sym mode ∙ plain)
            | inr (payload, c) ↦ mode_table-opened f bytes payload key lf mode same c
          ])
