-- ===== src/Recovery/Restart.antt =====
-- The first pass of recovery_run from a checkpoint, and from the whole log.
use aegisdb.Prelude.{
  ℕ, ◌+◌, ◌-◌, ◌/◌, ◌%◌, ◌^◌, ◌≤◌, ◌<◌, max, ltb, ◌≡◌, refl, sym, ap, ◌∙◌, true, Option, none, some,
  List, [], ◌∷◌, ◌++◌, leb, le→leb, if◌then◌else◌, All, All-append, All-replicate, length,
  length-append, append_assoc, arith,
}
use aegisdb.Aead.{Aead, IsAead}
use aegisdb.Log.{LogFile}
use aegisdb.Log.Frames.{Frame, IsFrame}
use aegisdb.Log.Torn.{IsTorn}
use aegisdb.Log.Recovery.{all_bytes}
use aegisdb.HashIndex.{HashIndex, Location, create, zero_entry}
use aegisdb.Log.Durable.{all_bytes-append}
use aegisdb.HashIndex.Keys.{lookup, IsHashed}
use aegisdb.HashIndex.Map.{puts, updates, entry_of, puts-IsPutAll, create-IsHashed}
use aegisdb.HashIndex.Entries.{IsNarrow}
use aegisdb.HashIndex.Checkpoint.{zero-IsNarrow}
use aegisdb.HashIndex.File.{hash_index_save, hash_index_load, hash_index_load-hash_index_save}
use aegisdb.Ckpt.{ckpt_read}
use aegisdb.Recovery.{Start, Recovered, start_with, run_from, recovery_run}
use aegisdb.Recovery.Scan.{highest}
use aegisdb.Recovery.Result.{
  updates-append, highest-append, located_from, located_from-append, IsRescanned, run_from-frames,
}

pub create-IsNarrow : All IsNarrow create.buckets
unfolding create
create-IsNarrow = All-replicate IsNarrow 1024 zero_entry zero-IsNarrow

pub create-count : create.count ≡ 0
unfolding create
create-count = refl

module _ (cipher : Aead) (lf : LogFile) where
  -- The log's bytes are frames that a checkpoint covers, more frames, and what a broken write left.
  pub record IsCovered (fs gs : List Frame) (rest : List ℕ) : Type 0 where
    pub covered_frames : All (IsFrame lf.encrypted) fs
    pub later_frames : All (IsFrame lf.encrypted) gs
    pub torn_rest : IsTorn lf rest
    pub file : lf.bytes ≡ all_bytes fs ++ (all_bytes gs ++ rest)
    pub sized : lf.size ≡ length lf.bytes

  module _ (key : Option (List ℕ)) (fs gs : List Frame) (rest : List ℕ)
      (k : IsCovered fs gs rest) where
    abbrev pub early : List (ℕ × Location)
    early = located_from cipher lf 0 fs

    abbrev pub late : List (ℕ × Location)
    late = located_from cipher lf (length (all_bytes fs)) gs

    pub early-late : located_from cipher lf 0 (fs ++ gs) ≡ early ++ late
    early-late =
        let e : 0 + length (all_bytes fs) ≡ length (all_bytes fs) = omega arith in
        located_from-append cipher lf 0 fs gs k.covered_frames
        ∙ ap (λ n. early ++ located_from cipher lf n gs) e

    abbrev pub fresh : Start
    fresh = record { hash = create; scan_from = 0; max_id = 0 }

    -- Without a checkpoint: all the frames are scanned.
    pub recovery_run-scan :
        (b : Recovered) × (recovery_run cipher key lf create none ≡ some b)
        × IsRescanned cipher lf fresh 0 (fs ++ gs) b
    unfolding recovery_run hash_index_load ckpt_read
    recovery_run-scan =
        let whole =
          k.file
          ∙ sym (append_assoc (all_bytes fs) (all_bytes gs) rest)
          ∙ ap (λ x. x ++ rest) (sym (all_bytes-append fs gs)) in
        run_from-frames cipher lf fresh (fs ++ gs) [] rest
          (All-append (IsFrame lf.encrypted) fs gs k.covered_frames k.later_frames) k.torn_rest
          whole k.sized refl create-IsHashed.0

    module _ (path : Option (List ℕ)) (h : HashIndex) (next_id : ℕ)
        (e : hash_index_load cipher key create path ≡ some (h, length (all_bytes fs), next_id))
        (v : IsHashed h) where
      abbrev pub loaded : Start
      loaded = record { hash = h; scan_from = length (all_bytes fs); max_id = next_id - 1 }

      -- With a checkpoint that covers the first frames: the others are scanned.
      pub recovery_run-checkpoint :
          (a : Recovered) × (recovery_run cipher key lf create path ≡ some a)
          × IsRescanned cipher lf loaded (length (all_bytes fs)) gs a
      unfolding recovery_run
      recovery_run-checkpoint =
          let cov = length (all_bytes fs) in
          let inside : leb cov lf.size ≡ true = le→leb cov lf.size (
            omega (
              arith,
              k.sized,
              ap length k.file,
              length-append (all_bytes fs) (all_bytes gs ++ rest),
            )) in
          let (a, p, r) =
            run_from-frames cipher lf loaded gs (all_bytes fs) rest k.later_frames k.torn_rest
              k.file k.sized refl v in
          (
            a,
            ap (λ o. run_from cipher lf (start_with lf create o)) e
                ∙ ap (λ b. run_from cipher lf (if b then loaded else fresh)) inside
                ∙ p,
            r,
          )

highest-max : (m n : ℕ) (ps : List (ℕ × Location)) → highest (max m n) ps ≡ max m (highest n ps)
highest-max m n [] = refl
highest-max m n ((id, at) ∷ ps) =
    let e : (if ltb (max m n) id then id else max m n) ≡ max m (if ltb n id then id else n) =
      ground arith in
    ap (λ x. highest x ps) e ∙ highest-max m (if ltb n id then id else n) ps

module _ (cipher : Aead) (lf : LogFile) (law : IsAead cipher) where
  -- A checkpoint of the index of the first frames, saved and loaded through the envelope, with a next
  -- id that is above every id in them: recovery_run from it over the rest of the log, and over the
  -- whole log without it, find the same map. Without it the next id is one more than the largest id
  -- in the log, with it one more than the larger of that and the last id of the checkpoint, modulo
  -- 2^64. The entries and the two numbers fit their types.
  pub checkpoint-full_scan :
      (key : Option (List ℕ)) (nonce : List ℕ) (fs gs : List Frame) (rest : List ℕ) (next_id : ℕ)
      → length nonce ≡ 24
      → IsCovered cipher lf fs gs rest
      → All (λ p. IsNarrow (entry_of p)) (located_from cipher lf 0 fs)
      → length (located_from cipher lf 0 fs) ≤ (2 ^ 64 - 2) / 30
      → length (all_bytes fs) < 2 ^ 64
      → next_id < 2 ^ 64
      → highest 0 (located_from cipher lf 0 fs) < next_id
      → (g : HashIndex) × (checkpoint : List ℕ) × (a b : Recovered) × (puts create
            (located_from cipher lf 0 fs)
          ≡ some g)
        × (hash_index_save cipher key (some nonce) g (length (all_bytes fs)) next_id
            ≡ some checkpoint)
        × (recovery_run cipher key lf create (some checkpoint) ≡ some a)
        × (recovery_run cipher key lf create none ≡ some b)
        × (lookup a.hash ≡ lookup b.hash)
        × (a.next_id
            ≡ (max (next_id - 1) (highest 0 (located_from cipher lf 0 (fs ++ gs))) + 1) % 2 ^ 64)
        × (b.next_id ≡ (highest 0 (located_from cipher lf 0 (fs ++ gs)) + 1) % 2 ^ 64)
  checkpoint-full_scan key nonce fs gs rest next_id wide k n l c d above =
      let ps = early cipher lf key fs gs rest k in
      let qs = late cipher lf key fs gs rest k in
      let cov = length (all_bytes fs) in
      let (v, e) = create-IsHashed in
      let (g, p, q) = puts-IsPutAll create ps v in
      let m = q.count_after in
      let (checkpoint, h', s, r, u, x) =
        hash_index_load-hash_index_save cipher law key nonce g create cov next_id wide
          q.hashed_after (q.kept_after IsNarrow zero-IsNarrow n create-IsNarrow)
          (omega (arith, m, l, create-count)) v e c d in
      let (a, ea, ra) =
        recovery_run-checkpoint cipher lf key fs gs rest k (some checkpoint) h' next_id r u in
      let (b, eb, rb) = recovery_run-scan cipher lf key fs gs rest k in
      let mapped = x ∙ q.lookup_after ∙ ap (λ m. updates m ps) e in
      let all = early-late cipher lf key fs gs rest k in
      let top : next_id - 1 ≡ max (next_id - 1) (highest 0 ps) = omega (arith, above) in
      (
        g,
        checkpoint,
        a,
        b,
        p,
        s,
        ea,
        eb,
        ra.mapped
            ∙ ap (λ m. updates m qs) mapped
            ∙ sym (
                rb.mapped
                ∙ ap (updates (lookup create)) all
                ∙ updates-append (lookup create) ps qs
                ∙ ap (λ m. updates (updates m ps) qs) e),
        ra.next
            ∙ ap (λ n. (n + 1) % 2 ^ 64)
                (ap (λ n. highest n qs) top
                  ∙ highest-max (next_id - 1) (highest 0 ps) qs
                  ∙ ap (max (next_id - 1)) (sym (ap (highest 0) all ∙ highest-append 0 ps qs))),
        rb.next,
      )
