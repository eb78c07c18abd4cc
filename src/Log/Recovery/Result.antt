-- ===== src/Log/Recovery/Result.antt =====
-- What log_scan answers on a file of frames.
use aegisdb.Prelude.{
  ℕ, suc, ◌+◌, ◌-◌, ◌≡◌, refl, ◌∙◌, Bool, true, false, Option, none, some, List, [], ◌∷◌, ◌++◌,
  ◌||◌, All, if◌then◌else◌, length, arith,
}
use aegisdb.Aead.{Aead}
use aegisdb.Log.{LogFile}
use aegisdb.Log.Frames.{Frame, IsFrame}
use aegisdb.Log.Torn.{IsTorn}
use aegisdb.Log.Scan.{Scan, LogScanResult, log_scan, scan_start, scan_result}
use aegisdb.Log.Recovery.{
  all_bytes, entries, readable, first_hole, unreadable, is_split, give_all, go_on, over, after,
  after_all, scan_from-frames,
}

-- What the scan tells of such frames; the scan ends at `end`.
abbrev pub summary : ℕ → ℕ → List (ℕ × Option (List ℕ)) → LogScanResult
summary over end es = record {
  truncate_to = if is_split false es then end else first_hole over 0 es;
  good_frames = length (readable over 0 es);
  corrupt_frames = unreadable es;
  recovered_after_hole = is_split false es;
}

-- Where the file is trimmed, if the first frame is at `off`.
abbrev pub trim_at : ℕ → ℕ → ℕ → List (ℕ × Option (List ℕ)) → ℕ
trim_at over off end es = if is_split false es then end else first_hole over off es

or_false : (b : Bool) → (b || false) ≡ b
or_false true = refl
or_false false = refl

module _ (cipher : Aead) (lf : LogFile) {S : Type 0} (give : ℕ → List ℕ → S → S) where
  ctx-after_all :
      (es : List (ℕ × Option (List ℕ))) (s : Scan S)
      → (after_all cipher lf give es s).ctx
        ≡ give_all give s.ctx (readable (over cipher lf give) s.off es)
  ctx-after_all [] s = refl
  ctx-after_all ((len, none) ∷ es) s = ctx-after_all es (after cipher lf give len none s)
  ctx-after_all ((len, some p) ∷ es) s = ctx-after_all es (after cipher lf give len (some p) s)

  counts-after_all :
      (es : List (ℕ × Option (List ℕ))) (s : Scan S)
      → ((after_all cipher lf give es s).good
          ≡ s.good + length (readable (over cipher lf give) s.off es))
        × ((after_all cipher lf give es s).corrupt ≡ s.corrupt + unreadable es)
  counts-after_all [] s = omega arith
  counts-after_all ((len, none) ∷ es) s =
      omega (arith, counts-after_all es (after cipher lf give len none s))
  counts-after_all ((len, some p) ∷ es) s =
      omega (arith, counts-after_all es (after cipher lf give len (some p) s))

  recovered-after_all :
      (es : List (ℕ × Option (List ℕ))) (s : Scan S)
      → (after_all cipher lf give es s).recovered ≡ (is_split s.hole es || s.recovered)
  recovered-after_all [] s = refl
  recovered-after_all ((len, none) ∷ es) s =
      recovered-after_all es (after cipher lf give len none s)
  recovered-after_all ((len, some p) ∷ es) s =
      recovered-after_all es (after cipher lf give len (some p) s)
      ∙ mixed s.hole (is_split s.hole es) s.recovered
    where
      mixed : (h i r : Bool) → (i || (h || r)) ≡ ((h || i) || r)
      mixed true true r = refl
      mixed true false r = refl
      mixed false i r = refl

  -- The clean end moves until the first hole.
  clean_end-after_all :
      (es : List (ℕ × Option (List ℕ))) (s : Scan S)
      → ((s.hole ≡ true) → (after_all cipher lf give es s).clean_end ≡ s.clean_end)
        × ((s.hole ≡ false)
            → s.clean_end ≡ s.off
            → (after_all cipher lf give es s).clean_end ≡ first_hole (over cipher lf give) s.off es)
  clean_end-after_all [] s = (λ h. refl, λ h e. e)
  clean_end-after_all ((len, none) ∷ es) s =
      let (kept, _) = clean_end-after_all es (after cipher lf give len none s) in
      (λ h. kept refl, λ h e. kept refl ∙ e)
  clean_end-after_all ((len, some p) ∷ es) s =
      let (kept, moved) = clean_end-after_all es (after cipher lf give len (some p) s) in
      (λ h. kept h ∙ rw h refl, λ h e. moved h (rw h refl))

  scan_result-after_all :
      (es : List (ℕ × Option (List ℕ))) (end : ℕ) (ctx : S)
      → scan_result cipher lf
          (go_on cipher lf give)
          end
          (after_all cipher lf give es (scan_start cipher lf (go_on cipher lf give) 0 ctx))
        ≡ summary (over cipher lf give) end es
  scan_result-after_all es end ctx =
      let s = scan_start cipher lf (go_on cipher lf give) 0 ctx in
      let (good, corrupt) = counts-after_all es s in
      let (_, clean) = clean_end-after_all es s in
      let g : (after_all cipher lf give es s).good ≡ length (readable (over cipher lf give) 0 es) =
        omega (arith, good) in
      let c : (after_all cipher lf give es s).corrupt ≡ unreadable es = omega (arith, corrupt) in
      rw (recovered-after_all es s, or_false (is_split false es), g, c, clean refl refl) refl

  -- A scan of frames and what a broken write left behind them ends. It hands over each payload that
  -- can be read, once and in order, with its offset, counts both kinds of frames, and trims the file
  -- to the frames in front of the first hole, unless a readable frame follows a hole.
  pub log_scan-frames :
      (fs : List Frame) (rest : List ℕ) (ctx : S)
      → All (IsFrame lf.encrypted) fs
      → IsTorn lf rest
      → lf.bytes ≡ all_bytes fs ++ rest
      → log_scan cipher lf (go_on cipher lf give) 0 (length lf.bytes) ctx
        ≡ some (
          give_all give ctx (readable (over cipher lf give) 0 (entries cipher lf fs)),
          summary (over cipher lf give) (length lf.bytes) (entries cipher lf fs),
        )
  unfolding log_scan
  log_scan-frames fs rest ctx h t file =
      let s = scan_start cipher lf (go_on cipher lf give) 0 ctx in
      let es = entries cipher lf fs in
      rw
        (
          scan_from-frames cipher lf give fs [] rest (suc (length lf.bytes - 0)) s h t file refl
              (omega arith),
          log_scan,
          ctx-after_all es s,
          scan_result-after_all es (length lf.bytes) ctx,
        )
        refl

  -- A scan from the end of some frames hands over what lies behind them.
  pub log_scan-tail :
      (fs : List Frame) (pre rest : List ℕ) (ctx : S)
      → All (IsFrame lf.encrypted) fs
      → IsTorn lf rest
      → lf.bytes ≡ pre ++ (all_bytes fs ++ rest)
      → (res : LogScanResult) × (log_scan cipher lf
            (go_on cipher lf give)
            (length pre)
            (length lf.bytes)
            ctx
          ≡ some (
            give_all give ctx (readable (over cipher lf give) (length pre) (entries cipher lf fs)),
            res,
          ))
        × (res.truncate_to
            ≡ trim_at (over cipher lf give) (length pre) (length lf.bytes) (entries cipher lf fs))
  unfolding log_scan
  log_scan-tail fs pre rest ctx h t file =
      let s = scan_start cipher lf (go_on cipher lf give) (length pre) ctx in
      let es = entries cipher lf fs in
      (
        scan_result cipher lf (go_on cipher lf give) (length lf.bytes)
            (after_all cipher lf give es s),
        rw
            (
              scan_from-frames cipher lf give fs pre rest (suc (length lf.bytes - length pre)) s h t
                  file refl (omega arith),
              log_scan,
              ctx-after_all es s,
            )
            refl,
        (let (_, clean) = clean_end-after_all es s in
            rw (recovered-after_all es s, or_false (is_split false es), clean refl refl) refl),
      )
