-- ===== src/History/Restart.antt =====
-- db_open of src/storage/db.c on the files of a run.
use aegisdb.Prelude.{
  ℕ, ◌+◌, ◌≡◌, refl, sym, ap, ◌∙◌, subst, Bool, true, false, Option, none, some, inr, List, [], ◌∷◌,
  ◌++◌, ◌&&◌, leb, if◌then◌else◌, All, length, length-append,
}
use aegisdb.Aead.{Aead}
use aegisdb.Log.{LogFile, frame_overhead}
use aegisdb.Log.Frames.{Frame, IsFrame}
use aegisdb.Log.Torn.{IsTorn}
use aegisdb.Log.Crash.{summary-readable, total-entries}
use aegisdb.Log.Durable.{all_bytes-append}
use aegisdb.Log.Open.{is_keyed, key_bytes}
use aegisdb.Log.Recovery.{all_bytes, entries, unreadable, first_hole}
use aegisdb.Recovery.{Recovered}
use aegisdb.Recovery.Trim.{trimmed-IsCut, IsCut}
use aegisdb.Recovery.Rescan.{IsCheckpoint, IsRestarted, All-parts}
use aegisdb.Store.{Db, load_record}
use aegisdb.Store.Loads.{IsStored}
use aegisdb.Store.Startup.{Startup, floored, db_open}
use aegisdb.Store.Opening.{Passes}
use aegisdb.Store.Reread.{reread, restarted-floored, db_open-IsRestarted}
use aegisdb.Compaction.Held.{IsHeld, held-mode}
use aegisdb.History.{limited, recovered, IsUnder}
use aegisdb.History.Safe.{IsGoing, checkpoint-mode, same-IsSafe, same-loads}

module _ (cipher : Aead) (lf : LogFile) where
  all-readable :
      (fs : List Frame) → All (IsHeld cipher lf) fs → unreadable (entries cipher lf fs) ≡ 0
  all-readable [] h = refl
  all-readable (f ∷ fs) ((buf, r, a, _, _, _), h) = rw a (all-readable fs h)

  held-parts : (xs ys : List Frame) → All (IsHeld cipher lf) (xs ++ ys) → All (IsHeld cipher lf) ys
  held-parts [] ys h = h
  held-parts (x ∷ xs) ys (a, h) = held-parts xs ys h

  plain_or_not : (b : Bool) → (b && leb 36 0) ≡ false
  plain_or_not true = refl
  plain_or_not false = refl

  -- A log of frames that hold records passes the check of log_open.
  pub held-Passes : (fs : List Frame) → All (IsHeld cipher lf) fs → Passes cipher lf fs []
  held-Passes [] h = plain_or_not lf.encrypted
  held-Passes (f ∷ fs) ((buf, r, a, _, _, _), h) = inr (buf, a)

  -- A whole file of frames that hold records is trimmed behind them.
  trimmed-held :
      (fs : List Frame) (junk : List ℕ)
      → All (IsFrame lf.encrypted) fs
      → All (IsHeld cipher lf) fs
      → lf.bytes ≡ all_bytes fs ++ junk
      → lf.size ≡ length lf.bytes
      → (r : Recovered) → IsRestarted cipher lf fs r
      → IsCut lf r.log (all_bytes fs)
  trimmed-held fs junk frames held file sized r x =
      let off = length (all_bytes x.before) in
      let es = entries cipher lf x.scanned in
      let over = frame_overhead lf.encrypted in
      let framed =
        (All-parts lf.encrypted x.before x.scanned
          (subst (All (IsFrame lf.encrypted)) x.both frames)).1 in
      let (split, _, first) = summary-readable over es off (
        all-readable x.scanned
          (held-parts x.before x.scanned (subst (All (IsHeld cipher lf)) x.both held))) in
      let all : x.res.truncate_to ≡ length (all_bytes fs) =
        x.end
        ∙ ap (λ b. if b then length lf.bytes else first_hole over off es) split
        ∙ first
        ∙ ap (λ n. off + n) (total-entries cipher lf x.scanned framed)
        ∙ sym (
            ap length (ap all_bytes x.both ∙ all_bytes-append x.before x.scanned)
            ∙ length-append (all_bytes x.before) (all_bytes x.scanned)) in
      subst (λ l. IsCut lf l (all_bytes fs)) (sym x.cut)
        (trimmed-IsCut lf (all_bytes fs) junk file sized x.res all)

-- A restart on frames that hold records, with at most a torn one behind them.
pub recovered-IsGoing :
    (cipher : Aead) (key : Option (List ℕ)) (st : Startup)
    → st.key ≡ key
    → (db : Db) (fs : List Frame) (s : IsStored cipher db fs) → All (IsHeld cipher db.log) fs
    → IsTorn db.log s.in_log.junk
    → IsUnder key db.log
    → Passes cipher db.log fs s.in_log.junk
    → (path : Option (List ℕ)) → IsCheckpoint cipher key db.log fs path
    → (r : Recovered) × (db_open cipher st db.log.bytes path ≡ some (some r))
      × IsGoing cipher key (recovered db r) path fs
      × ((id : ℕ) → load_record cipher (recovered db r) id ≡ load_record cipher db id)
recovered-IsGoing cipher key st keyed db fs s held t (mode, same) pass path ckpt =
    let lf = reread st db.log in
    let (r, p, x) =
      db_open-IsRestarted cipher st db fs s t (mode ∙ sym (ap is_keyed keyed))
        (same ∙ sym (ap key_bytes keyed)) pass path
        (subst (λ k. IsCheckpoint cipher k db.log fs path) (sym keyed) ckpt) in
    let held' = held-mode cipher db.log lf refl refl fs held in
    let c =
      trimmed-held cipher lf fs s.in_log.junk s.in_log.frames held' s.in_log.stored refl r x in
    let safe =
      same-IsSafe cipher lf (recovered db r) fs c.mode c.same_key s.in_log.frames held' c.bytes
        c.sized refl x.hashed x.mapped in
    let going : IsGoing cipher key (recovered db r) path fs = record {
      safe = safe;
      under = (c.mode ∙ mode, c.same_key ∙ same);
      checkpoint =
          checkpoint-mode cipher key db.log (recovered db r).log fs path c.mode c.same_key ckpt;
    } in
    let back : recovered db r ≡ recovered db (floored st.meta_next r) =
      ap (limited none) (sym (restarted-floored db st.meta_next r)) in
    (
      floored st.meta_next r,
      p,
      subst (λ d. IsGoing cipher key d path fs) back going,
      λ id.
          ap (λ d. load_record cipher d id) (sym back)
          ∙ same-loads cipher db (recovered db r) fs c.mode c.same_key s safe.stored id,
    )
