-- ===== src/Compaction/Copy.antt =====
-- A copied frame in the new log of compaction_run_once in src/storage/compaction.c.
use aegisdb.Prelude.{
  ℕ, ◌%◌, ◌^◌, ◌≡◌, refl, sym, ap, ◌∙◌, true, Option, none, some, List, [], ◌∷◌, ◌++◌, ◌==◌,
  append_assoc, append-nil, if◌then◌else◌, All, All-append, length, drop, drop_all, map, arith,
}
use aegisdb.Aead.{Aead, IsAead}
use aegisdb.Record.{MemoryRecord}
use aegisdb.Record.Decode.{record_decode}
use aegisdb.Log.{LogFile}
use aegisdb.Log.Append.{log_append}
use aegisdb.Log.Append.Frame.{IsAppendable, new_frame, content-new_frame, length-new_frame}
use aegisdb.Log.Append.Stored.{left_over, appended, log_append-done}
use aegisdb.Log.Open.{is_keyed, key_bytes}
use aegisdb.Log.Read.{log_read}
use aegisdb.Log.Frames.{Frame, content}
use aegisdb.Log.Recovery.{all_bytes, entries}
use aegisdb.Log.Durable.{IsLog, appended-IsLog}
use aegisdb.HashIndex.{Location}
use aegisdb.Recovery.{located}
use aegisdb.Recovery.Scan.{locations, if_decoded}
use aegisdb.Recovery.Result.{readable_from, locations-append}
use aegisdb.Store.Writes.{readable-appended}
use aegisdb.Compaction.{NewLoc, copied_to, compaction_copy_live}
use aegisdb.Compaction.Held.{Fits, IsHeld}

-- The payloads alone.
abbrev pub payloads : List (ℕ × List ℕ) → List (List ℕ)
payloads ps = map (λ p. p.1) ps

pub map-append {ℓ κ} :
    {A : Type ℓ} {B : Type κ} (f : A → B) (xs ys : List A) → map f (xs ++ ys) ≡ map f xs ++ map f ys
map-append f [] ys = refl
map-append f (x ∷ xs) ys = ap (λ zs. f x ∷ zs) (map-append f xs ys)

dropped_all : (n : ℕ) → ◌≡◌ {A = List ℕ} (drop n []) []
dropped_all n = drop_all n [] (omega arith)

pub nothing_left : (f : Frame) → left_over f [] ≡ []
nothing_left f =
    ap (λ x. drop (length f.tag) (drop (length f.text) x)) (dropped_all (length f.header))
    ∙ ap (drop (length f.tag)) (dropped_all (length f.text))
    ∙ dropped_all (length f.tag)

module _ (cipher : Aead) (key : Option (List ℕ)) where
  -- The new log holds whole frames, which `ps` are the payloads of, and their locations are told.
  pub record IsCopied (newlog : LogFile) (locs : List NewLoc) (hs : List Frame)
      (ps : List (ℕ × List ℕ)) : Type 0 where
    pub in_log : IsLog newlog hs
    pub whole : in_log.junk ≡ []
    pub ready : newlog.accepts ≡ none
    pub is_open : newlog.fd ≡ true
    pub mode : newlog.encrypted ≡ is_keyed key
    pub same_key : newlog.key ≡ key_bytes key
    pub told : readable_from cipher newlog 0 (entries cipher newlog hs) ≡ ps
    pub held : All (IsHeld cipher newlog) hs
    pub at : locs ≡ locations ps

module _ (cipher : Aead) (law : IsAead cipher) (key : Option (List ℕ)) (nonce buf : List ℕ)
    (wide : length nonce ≡ 24) (fits : Fits buf) (r : MemoryRecord)
    (dec : record_decode buf ≡ some r) where
  module _ (newlog : LogFile) (locs : List NewLoc) (hs : List Frame) (ps : List (ℕ × List ℕ))
      (c : IsCopied cipher key newlog locs hs ps) where
    appendable : IsAppendable nonce buf
    appendable = record { small = fits.1; wide = wide; bytes = fits.0 }

    abbrev pub next : Frame
    next = new_frame cipher newlog nonce buf

    abbrev pub newlog' : LogFile
    newlog' = appended newlog (all_bytes hs) c.in_log.junk next

    abbrev pub off : ℕ
    off = length (all_bytes hs)

    -- One frame more.
    pub append-IsCopied :
        (log_append cipher (some nonce) buf newlog ≡ (newlog', some off))
        × IsCopied cipher key newlog'
            (locs ++ ((r.id, located off (length buf) r) ∷ []))
            (hs ++ (next ∷ []))
            (ps ++ ((off, buf) ∷ []))
    unfolding content
    append-IsCopied = (
      log_append-done cipher law nonce buf appendable newlog (all_bytes hs) c.in_log.junk
            c.in_log.stored c.in_log.sized c.ready
          ∙ ap (λ n. (newlog', some n)) c.in_log.sized,
      record {
        in_log = appended-IsLog cipher newlog hs c.in_log law nonce buf appendable c.ready;
        whole = ap (left_over next) c.whole ∙ nothing_left next;
        ready = c.ready;
        is_open = c.is_open;
        mode = c.mode;
        same_key = c.same_key;
        told =
            readable-appended cipher law nonce buf appendable newlog hs c.in_log
            ∙ ap (λ x. x ++ ((off, buf) ∷ [])) c.told;
        held = All-append (IsHeld cipher newlog') hs (next ∷ []) c.held (
          (
            buf,
            r,
            content-new_frame cipher law nonce buf appendable newlog,
            dec,
            length-new_frame cipher law newlog nonce buf,
            fits,
          ),
          tt,
        );
        at =
            ap (λ x. x ++ ((r.id, located off (length buf) r) ∷ [])) c.at
            ∙ sym (
                locations-append ps ((off, buf) ∷ [])
                ∙ ap (λ o. locations ps ++ (if_decoded off (length buf) o ++ [])) dec);
      },
    )

-- An entry of the snapshot that is told by its frame.
abbrev pub Holds : Aead → LogFile → NewLoc → Type 0
Holds cipher src (id, at) =
    (buf : List ℕ) × (r : MemoryRecord) × (log_read cipher src at.offset ≡ some buf)
    × (record_decode buf ≡ some r)
    × (id ≡ r.id)
    × (at ≡ located at.offset (length buf) r)
    × (r.deleted ≡ 0)
    × Fits buf

abbrev pub read_or_empty : Option (List ℕ) → List ℕ
read_or_empty none = []
read_or_empty (some buf) = buf

abbrev pub buf_at : Aead → LogFile → NewLoc → List ℕ
buf_at cipher src (id, at) = read_or_empty (log_read cipher src at.offset)

copied_to-located :
    (at : Location) (off : ℕ) (buf : List ℕ) (r : MemoryRecord)
    → at ≡ located at.offset (length buf) r
    → r.deleted ≡ 0
    → copied_to at off (length buf) ≡ located off (length buf) r
copied_to-located at off buf r e d =
    ap (λ a. copied_to a off (length buf)) e
    ∙ ap
        (λ (n : ℕ). record {
          offset = off;
          length = length buf % 2 ^ 32;
          kind = r.type % 256;
          deleted = if n == 0 then 0 else 1;
          expires_at = r.expires_at;
        })
        (sym d)

module _ (cipher : Aead) (law : IsAead cipher) (key : Option (List ℕ)) (nonces : ℕ → List ℕ)
    (wide : (n : ℕ) → length (nonces n) ≡ 24) (src : LogFile) where
  abbrev pub random : ℕ → Option (List ℕ)
  random n = some (nonces n)

  -- What copying leaves: the payloads so far, and those that are still to be copied.
  pub record Copies (answer : Option (LogFile × List NewLoc)) (bufs : List (List ℕ)) : Type 0 where
    pub newlog : LogFile
    pub locs : List NewLoc
    pub frames : List Frame
    pub entries : List (ℕ × List ℕ)
    pub done : answer ≡ some (newlog, locs)
    pub copied : IsCopied cipher key newlog locs frames entries
    pub same : payloads entries ≡ bufs

  -- Every entry of the snapshot is copied, in order.
  pub copy_live-Copies :
      (snap : List NewLoc) (newlog : LogFile) (locs : List NewLoc) (hs : List Frame)
      (ps : List (ℕ × List ℕ))
      → All (Holds cipher src) snap
      → IsCopied cipher key newlog locs hs ps
      → Copies
          (compaction_copy_live cipher random src newlog locs snap)
          (payloads ps ++ map (buf_at cipher src) snap)
  unfolding compaction_copy_live
  copy_live-Copies [] newlog locs hs ps h c = record {
    newlog = newlog;
    locs = locs;
    frames = hs;
    entries = ps;
    done = refl;
    copied = c;
    same = sym (append-nil (payloads ps));
  }
  copy_live-Copies ((id, at) ∷ snap) newlog locs hs ps ((buf, r, a, d, i, e, z, f), h) c =
      let nonce = nonces (length locs) in
      let w = wide (length locs) in
      let (p, q) = append-IsCopied cipher law key nonce buf w f r d newlog locs hs ps c in
      let o = off cipher law key nonce buf w f r d newlog locs hs ps c in
      let l = newlog' cipher law key nonce buf w f r d newlog locs hs ps c in
      let g = next cipher law key nonce buf w f r d newlog locs hs ps c in
      let rest =
        copy_live-Copies snap l (locs ++ ((r.id, located o (length buf) r) ∷ [])) (hs ++ (g ∷ []))
          (ps ++ ((o, buf) ∷ [])) h q in
      record {
        newlog = rest.newlog;
        locs = rest.locs;
        frames = rest.frames;
        entries = rest.entries;
        done = rw (a, p, i, copied_to-located at o buf r e z) rest.done;
        copied = rest.copied;
        same =
            rest.same
            ∙ ap (λ x. x ++ map (buf_at cipher src) snap) (map-append (λ p. p.1) ps ((o, buf) ∷ []))
            ∙ append_assoc (payloads ps) (buf ∷ []) (map (buf_at cipher src) snap)
            ∙ ap (λ b. payloads ps ++ (read_or_empty b ∷ map (buf_at cipher src) snap)) (sym a);
      }
