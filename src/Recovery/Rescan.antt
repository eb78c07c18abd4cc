-- ===== src/Recovery/Rescan.antt =====
-- recovery_run of src/storage/recovery.c with a checkpoint or without, on a log of frames.
use aegisdb.Prelude.{
  ℕ, ◌≡◌, refl, sym, ap, ◌∙◌, subst, ◌⊎◌, inl, inr, Bool, Option, none, some, List, [], ◌∷◌, ◌++◌,
  append_assoc, All, length,
}
use aegisdb.Aead.{Aead}
use aegisdb.Log.{LogFile, frame_overhead}
use aegisdb.Log.Frames.{Frame, IsFrame}
use aegisdb.Log.Torn.{IsTorn}
use aegisdb.Log.Recovery.{all_bytes, entries}
use aegisdb.Log.Recovery.Result.{trim_at}
use aegisdb.Log.Scan.{LogScanResult}
use aegisdb.HashIndex.{HashIndex, create}
use aegisdb.HashIndex.Keys.{lookup, IsHashed}
use aegisdb.HashIndex.Map.{updates, create-IsHashed}
use aegisdb.HashIndex.File.{hash_index_load}
use aegisdb.Recovery.{Recovered, trimmed, recovery_run}
use aegisdb.Recovery.Result.{located_from, updates-append}
use aegisdb.Recovery.Restart.{IsCovered, early-late, recovery_run-scan, recovery_run-checkpoint}
use aegisdb.Log.Durable.{all_bytes-append}
use aegisdb.Ckpt.{ckpt_read}

-- The file of the checkpoint does not load, or it is one of the index of the first frames.
pub record IsCovering (cipher : Aead) (key : Option (List ℕ)) (lf : LogFile) (fs : List Frame)
    (path : Option (List ℕ)) : Type 0 where
  pub early : List Frame
  pub later : List Frame
  pub both : fs ≡ early ++ later
  pub index : HashIndex
  pub next_id : ℕ
  pub loads :
      hash_index_load cipher key create path ≡ some (index, length (all_bytes early), next_id)
  pub hashed : IsHashed index
  pub mapped : lookup index ≡ updates (λ id. none) (located_from cipher lf 0 early)

abbrev pub IsCheckpoint : Aead → Option (List ℕ) → LogFile → List Frame → Option (List ℕ) → Type 0
IsCheckpoint cipher key lf fs path =
    (hash_index_load cipher key create path ≡ none) ⊎ IsCovering cipher key lf fs path

-- What the first pass of recovery leaves of a log of frames: it scanned `scanned`.
pub record IsRestarted (cipher : Aead) (lf : LogFile) (fs : List Frame) (r : Recovered)
    : Type 0 where
  pub hashed : IsHashed r.hash
  pub mapped : lookup r.hash ≡ updates (λ id. none) (located_from cipher lf 0 fs)
  pub before : List Frame
  pub scanned : List Frame
  pub both : fs ≡ before ++ scanned
  pub res : LogScanResult
  pub cut : r.log ≡ trimmed lf res
  pub end :
      res.truncate_to
      ≡ trim_at
          (frame_overhead lf.encrypted)
          (length (all_bytes before))
          (length lf.bytes)
          (entries cipher lf scanned)

pub All-parts :
    (encrypted : Bool) (xs ys : List Frame)
    → All (IsFrame encrypted) (xs ++ ys)
    → All (IsFrame encrypted) xs × All (IsFrame encrypted) ys
All-parts encrypted [] ys h = (tt, h)
All-parts encrypted (x ∷ xs) ys (a, h) = let (p, q) = All-parts encrypted xs ys h in ((a, p), q)

module _ (cipher : Aead) (key : Option (List ℕ)) (lf : LogFile) (fs : List Frame) (rest : List ℕ)
    (frames : All (IsFrame lf.encrypted) fs) (torn : IsTorn lf rest)
    (file : lf.bytes ≡ all_bytes fs ++ rest) (sized : lf.size ≡ length lf.bytes) where
  recovery_run-none :
      (path : Option (List ℕ))
      → hash_index_load cipher key create path ≡ none
      → recovery_run cipher key lf create path ≡ recovery_run cipher key lf create none
  unfolding recovery_run hash_index_load ckpt_read
  recovery_run-none path e = rw e refl

  pub recovery_run-IsRestarted :
      (path : Option (List ℕ))
      → IsCheckpoint cipher key lf fs path
      → (r : Recovered) × (recovery_run cipher key lf create path ≡ some r)
        × IsRestarted cipher lf fs r
  recovery_run-IsRestarted path (inl e) =
      let k : IsCovered cipher lf [] fs rest = record {
        covered_frames = tt;
        later_frames = frames;
        torn_rest = torn;
        file = file;
        sized = sized;
      } in
      let (r, p, x) = recovery_run-scan cipher lf key [] fs rest k in
      (
        r,
        recovery_run-none path e ∙ p,
        record {
          hashed = x.hashed;
          mapped = x.mapped ∙ ap (λ m. updates m (located_from cipher lf 0 fs)) create-IsHashed.1;
          before = [];
          scanned = fs;
          both = refl;
          res = x.res;
          cut = x.cut;
          end = x.end;
        },
      )
  recovery_run-IsRestarted path (inr c) =
      let whole =
        file
        ∙ ap (λ gs. all_bytes gs ++ rest) c.both
        ∙ ap (λ x. x ++ rest) (all_bytes-append c.early c.later)
        ∙ append_assoc (all_bytes c.early) (all_bytes c.later) rest in
      let parts = subst (All (IsFrame lf.encrypted)) c.both frames in
      let k : IsCovered cipher lf c.early c.later rest = record {
        covered_frames = (All-parts lf.encrypted c.early c.later parts).0;
        later_frames = (All-parts lf.encrypted c.early c.later parts).1;
        torn_rest = torn;
        file = whole;
        sized = sized;
      } in
      let (r, p, x) =
        recovery_run-checkpoint cipher lf key c.early c.later rest k path c.index c.next_id c.loads
          c.hashed in
      let late = located_from cipher lf (length (all_bytes c.early)) c.later in
      (
        r,
        p,
        record {
          hashed = x.hashed;
          mapped =
              x.mapped
              ∙ ap (λ m. updates m late) c.mapped
              ∙ sym (
                  ap (λ gs. updates (λ id. none) (located_from cipher lf 0 gs)) c.both
                  ∙ ap (updates (λ id. none)) (early-late cipher lf key c.early c.later rest k)
                  ∙ updates-append (λ id. none) (located_from cipher lf 0 c.early) late);
          before = c.early;
          scanned = c.later;
          both = c.both;
          res = x.res;
          cut = x.cut;
          end = x.end;
        },
      )
