-- ===== src/Compaction/Quiet.antt =====
-- compaction_worthwhile behind compaction_run_once in src/storage/compaction.c.
use aegisdb.Prelude.{
  ℕ, ◌≡◌, refl, sym, ◌∙◌, subst, true, false, Bool-cases, some, inl, inr, List, [], ◌∷◌, append-nil,
  All, All-replicate, length, map, replicate,
}
use aegisdb.Aead.{Aead, IsAead}
use aegisdb.Record.{MemoryRecord}
use aegisdb.Record.Decode.{record_decode}
use aegisdb.Log.Frames.{Frame}
use aegisdb.HashIndex.{HashEntry, HashIndex, zero_entry, create}
use aegisdb.HashIndex.Map.{entry_of, puts, puts-IsPutAll, create-IsHashed}
use aegisdb.Recovery.Scan.{locations}
use aegisdb.Store.{Db}
use aegisdb.Store.Loads.{IsStored}
use aegisdb.Compaction.{
  Setting, Host, is_skipped, compaction_snapshot, compaction_run_once, tally, compaction_worthwhile,
}
use aegisdb.Compaction.Copy.{payloads, buf_at}
use aegisdb.Compaction.Snapshot.{IsSound, IsThere, used_if, live-parts, buckets-IsThere}
use aegisdb.Compaction.Run.{IsWilling, run-IsCompacted}
use aegisdb.Compaction.Later.{IsLater}

-- A payload of a record that is no tombstone.
abbrev IsAlive : List ℕ → Type 0
IsAlive buf = (r : MemoryRecord) × (record_decode buf ≡ some r) × (r.deleted ≡ 0)

abbrev IsKept : HashEntry → Type 0
IsKept e = e.deleted ≡ 0

alive-locations :
    (ps : List (ℕ × List ℕ))
    → All IsAlive (payloads ps)
    → All (λ p. IsKept (entry_of p)) (locations ps)
alive-locations [] h = tt
alive-locations ((offset, buf) ∷ ps) ((r, d, z), h) = rw d (rw z refl, alive-locations ps h)

module _ (cipher : Aead) (db : Db) (fs : List Frame) (s : IsStored cipher db fs)
    (sound : All (IsSound cipher db.log) fs) where
  copies-IsAlive :
      (es : List HashEntry)
      → All (IsThere cipher db fs s sound) es
      → All IsAlive (map (buf_at cipher db.log) (compaction_snapshot es))
  unfolding compaction_snapshot
  copies-IsAlive [] h = tt
  copies-IsAlive (e ∷ es) (there, h) = elim (Bool-cases (is_skipped e)) [
    | inl b ↦ rw b (copies-IsAlive es h)
    | inr b ↦
        let (u, z) = used_if cipher db fs s sound e b in
        let (_, r, d, _, _, gone) = live-parts cipher db fs s sound e there u z in
        rw b ((r, d, gone), copies-IsAlive es h)
  ]

tally_kept : (es : List HashEntry) → All IsKept es → (tally es).1 ≡ 0
unfolding tally
tally_kept [] h = refl
tally_kept (e ∷ es) (z, h) = elim (Bool-cases e.used) [
  | inl u ↦ rw (u, z) (tally_kept es h)
  | inr u ↦ rw u (tally_kept es h)
]

rebuilt-IsKept :
    (ps : List (ℕ × List ℕ)) (h : HashIndex)
    → puts create (locations ps) ≡ some h
    → All IsAlive (payloads ps)
    → All IsKept h.buckets
unfolding create
rebuilt-IsKept ps h p a =
    let (h', q, w) = puts-IsPutAll create (locations ps) (create-IsHashed.0) in
    let e : some h' ≡ some h = sym q ∙ p in
    let c : h' ≡ h = cc in
    subst (λ (x : HashIndex). All IsKept x.buckets) c
      (w.kept_after IsKept refl (alive-locations ps a) (all_empty 1024))
  where
    all_empty : (n : ℕ) → All IsKept (replicate n zero_entry)
    all_empty n = All-replicate IsKept n zero_entry refl

-- A compaction in which nothing fails, as above, that no write races: the next one is not worthwhile,
-- since the index has no tombstone.
pub compaction_run_once-compaction_worthwhile :
    (cipher : Aead) (law : IsAead cipher) (s : Setting) (w : IsWilling s) (nonces : ℕ → List ℕ)
    (wide : (n : ℕ) → length (nonces n) ≡ 24) (now : Host) (fs : List Frame)
    → IsStored cipher now.db fs
    → All (IsSound cipher now.db.log) fs
    → (after : Host) × (compaction_run_once cipher (λ n. some (nonces n)) s false now.db now
        ≡ some (true, after))
      × (compaction_worthwhile after.db ≡ false)
unfolding compaction_worthwhile
compaction_run_once-compaction_worthwhile cipher law s w nonces wide now fs st sound =
    let l : IsLater cipher now.db now.db fs [] = record {
      at_snapshot = st;
      at_lock = subst (IsStored cipher now.db) (sym (append-nil fs)) st;
      same_mode = refl;
      same_key = refl;
    } in
    let (after, hs, c) = run-IsCompacted cipher law s w nonces wide now.db now fs [] l sound tt in
    let alive =
      copies-IsAlive cipher now.db fs st sound now.db.hash.buckets
        (buckets-IsThere cipher now.db fs st sound) in
    let kept =
      rebuilt-IsKept c.entries after.db.hash c.put_again
        (subst (All IsAlive) (sym (c.same ∙ append-nil _)) alive) in
    (after, c.done, rw (tally_kept after.db.hash.buckets kept) refl)
