-- ===== src/Log/Scan/Ends.antt =====
-- The loop of log_scan in src/storage/log.c on any bytes.
use aegisdb.Prelude.{
  ℕ, zero, suc, ◌+◌, ◌-◌, ◌≤◌, ◌<◌, ◌≡◌, refl, ◌⊎◌, Bool, Bool-cases, some, inl, inr, List, ltb,
  ltb→lt, leb, length, arith,
}
use aegisdb.Aead.{Aead}
use aegisdb.Log.{LogFile, header_len, frame_overhead}
use aegisdb.Log.Frames.{overhead_pos}
use aegisdb.Log.Resync.{is_frame}
use aegisdb.Log.Resync.Search.{first_frame, find_next_frame-first_frame}
use aegisdb.Log.Scan.{
  Scan, Round, LogScanResult, torn, resync, damaged, intact, round_at, scan_from, log_scan,
  scan_start, scan_result, deliver, skip,
}

first_frame-place :
    (enc : Bool) (bytes : List ℕ) (end other n off : ℕ)
    → (first_frame enc bytes end other n off ≡ other)
      ⊎ (off ≤ first_frame enc bytes end other n off)
first_frame-place enc bytes end other zero off = inl refl
first_frame-place enc bytes end other (suc n) off = elim (Bool-cases (is_frame enc bytes end off)) [
  | inl t ↦ rw t (inr (omega arith))
  | inr f ↦ rw f (elim (first_frame-place enc bytes end other n (off + 1)) [
    | inl e ↦ inl e
    | inr h ↦ inr (omega (arith, h))
  ])
]

Round-cases :
    (r : Round)
    → (r ≡ torn)
      ⊎ ((r ≡ resync)
          ⊎ (((len : ℕ) × (r ≡ damaged len))
              ⊎ ((len : ℕ) × (payload : List ℕ) × (r ≡ intact len payload))))
Round-cases torn = inl refl
Round-cases resync = inr (inl refl)
Round-cases (damaged len) = inr (inr (inl (len, refl)))
Round-cases (intact len payload) = inr (inr (inr (len, payload, refl)))

module _ (cipher : Aead) (lf : LogFile) {S : Type 0} (cb : ℕ → List ℕ → S → S × Bool) (end : ℕ)
    (inside : end ≤ length lf.bytes) where
  scan_from-ends :
      (n : ℕ) (s : Scan S)
      → 0 < n
      → end < n + s.off
      → (s' : Scan S) × (scan_from cipher lf cb n end s ≡ some s')
  unfolding scan_from
  scan_from-ends zero s pos fuel = absurd (omega (arith, pos))
  scan_from-ends (suc n) s pos fuel = elim (Bool-cases (ltb s.off end)) [
    | inr f ↦ (s, rw f refl)
    | inl t ↦
        let more : 0 < n = omega (arith, ltb→lt _ _ t, fuel) in
        elim (Round-cases (round_at cipher lf end s.off)) [
          | inl r ↦ (s, rw (t, r) refl)
          | inr (inr (inl (len, r))) ↦
              rw (t, r)
                (scan_from-ends n (skip cipher lf cb (s.off + frame_overhead lf.encrypted + len) s)
                  more (omega (arith, fuel, overhead_pos lf.encrypted)))
          | inr (inr (inr (len, payload, r))) ↦
              let next = deliver cipher lf cb len payload s in
              rw (t, r)
                (elim (Bool-cases next.1) [
                  | inl a ↦ (next.0, rw a refl)
                  | inr a ↦ rw a (
                      scan_from-ends n next.0 more (omega (arith, fuel, overhead_pos lf.encrypted)))
                ])
          | inr (inl r) ↦
              let next =
                first_frame lf.encrypted lf.bytes end end
                  (suc end - header_len lf.encrypted - (s.off + 1)) (s.off + 1) in
              rw (t, r, find_next_frame-first_frame lf.encrypted lf.bytes end (s.off + 1) inside)
                (elim (Bool-cases (leb end next)) [
                  | inl l ↦ (s, rw l refl)
                  | inr l ↦
                      elim (first_frame-place lf.encrypted lf.bytes end end
                        (suc end - header_len lf.encrypted - (s.off + 1)) (s.off + 1)) [
                          | inl same ↦ absurd (ground (arith, same))
                          | inr ahead ↦ rw l (
                              scan_from-ends n (skip cipher lf cb next s) more
                                (omega (arith, fuel, ahead)))
                        ]
                ])
        ]
  ]

  -- Within the file a scan ends and gives a result, whatever the bytes and the callback are.
  pub log_scan-ends :
      (start : ℕ) (ctx : S)
      → (answer : S × LogScanResult) × (log_scan cipher lf cb start end ctx ≡ some answer)
  unfolding log_scan
  log_scan-ends start ctx =
      let (s, e) =
        scan_from-ends (suc (end - start)) (scan_start cipher lf cb start ctx) (omega arith)
          (omega arith) in
      ((s.ctx, scan_result cipher lf cb end s), rw (log_scan, e) refl)
