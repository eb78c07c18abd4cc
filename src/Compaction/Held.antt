-- ===== src/Compaction/Held.antt =====
-- Frames that hold records, in a log of src/storage/log.c, and what they depend on.
use aegisdb.Prelude.{ℕ, ◌^◌, ◌<◌, ◌≡◌, refl, ap, ◌∙◌, some, List, [], ◌∷◌, All, length}
use aegisdb.Bytes.{IsByte}
use aegisdb.Aead.{Aead}
use aegisdb.Record.{MemoryRecord}
use aegisdb.Record.Decode.{record_decode}
use aegisdb.Log.{LogFile}
use aegisdb.Log.Frames.{Frame, content}
use aegisdb.Log.Recovery.{entries}
use aegisdb.Recovery.Result.{readable_from}

-- A payload that the log takes.
abbrev pub Fits : List ℕ → Type 0
Fits buf = All IsByte buf × (length buf < 2 ^ 32)

-- A frame that holds a record.
abbrev pub IsHeld : Aead → LogFile → Frame → Type 0
IsHeld cipher lf f =
    (buf : List ℕ) × (r : MemoryRecord) × (content cipher lf f ≡ some buf)
    × (record_decode buf ≡ some r)
    × (length buf ≡ length f.text)
    × Fits buf

-- A frame's content depends on the mode and the key of its log only.
pub content-mode :
    (cipher : Aead) (lf lf' : LogFile)
    → lf'.encrypted ≡ lf.encrypted
    → lf'.key ≡ lf.key
    → (f : Frame) → content cipher lf' f ≡ content cipher lf f
unfolding content
content-mode cipher lf lf' e k f = rw (e, k) refl

pub held-mode :
    (cipher : Aead) (lf lf' : LogFile)
    → lf'.encrypted ≡ lf.encrypted
    → lf'.key ≡ lf.key
    → (fs : List Frame) → All (IsHeld cipher lf) fs
    → All (IsHeld cipher lf') fs
held-mode cipher lf lf' e k [] h = tt
held-mode cipher lf lf' e k (f ∷ fs) ((buf, r, a, d, n, b), h) =
    ((buf, r, content-mode cipher lf lf' e k f ∙ a, d, n, b), held-mode cipher lf lf' e k fs h)

pub entries-mode :
    (cipher : Aead) (lf lf' : LogFile)
    → lf'.encrypted ≡ lf.encrypted
    → lf'.key ≡ lf.key
    → (fs : List Frame) → entries cipher lf' fs ≡ entries cipher lf fs
entries-mode cipher lf lf' e k [] = refl
entries-mode cipher lf lf' e k (f ∷ fs) =
    ap (λ c. (length f.text, c) ∷ entries cipher lf' fs) (content-mode cipher lf lf' e k f)
    ∙ ap (λ es. (length f.text, content cipher lf f) ∷ es) (entries-mode cipher lf lf' e k fs)

pub readable-mode :
    (cipher : Aead) (lf lf' : LogFile)
    → lf'.encrypted ≡ lf.encrypted
    → lf'.key ≡ lf.key
    → (fs : List Frame)
    → readable_from cipher lf' 0 (entries cipher lf' fs)
      ≡ readable_from cipher lf 0 (entries cipher lf fs)
readable-mode cipher lf lf' e k fs =
    ap (readable_from cipher lf' 0) (entries-mode cipher lf lf' e k fs) ∙ rw e refl
